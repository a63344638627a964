-- ===== src/Auth/Tokens/Cap.antt =====
-- The cap of `issue` on named tokens, over runs of calls.
use Prim.Native.String
use beacon_mcp.Base.{
  ℕ, ◌+◌, ◌≤◌, String, ◌≡◌, refl, Option, none, some, List, [], ◌∷◌, arith, string_has_eq,
  if◌then◌else◌, inl, inr, Option-cases, Bool-cases, ◌==◌, eq_of_true, ap, ltb, loop-inv,
}
use native.Mathlib.Nat.{le_refl, le_trans}
use beacon_mcp.Base.Dict.{
  lookup, count, insert, count-retain-le, count-erase-le, count-insert-le, count-insert_same,
}
use beacon_mcp.Auth.Tokens.Types.{
  AccessToken, RefreshToken, TokenStore, token_ttl, named_token_cap, revoke_grace,
}
use beacon_mcp.Auth.Tokens.Store.{
  is_named_of, is_live, cleanup, cleanup_tokens, cleanup_oauth, cleanup_refresh, persist, unpersist,
  issue_token, issue, new_token, count_named, persist_oauth, persist_refresh, revoke_family,
  drop_oauth, drop_refresh,
}
use beacon_mcp.Auth.Tokens.Oauth.{
  sooner, validate, validate_oauth, revoke, revoke_oauth, shorten_oauth, end_refresh_family,
  revoke_only, revoke_named, issue_oauth, mint_oauth, rotate, replayed, lapsed, refresh,
  revoke_client, prune_unknown_clients, stale_clients,
}
use beacon_mcp.Auth.Tokens.Calls.{
  Call, issues, signs_in, grants, refreshes, validates, revokes, revokes_named, revokes_family,
  revokes_client, prunes, lists, Calls, none_yet, then_call,
}

-- The number of named tokens of a client.
abbrev pub named_count : String → TokenStore → ℕ
named_count client s = count (is_named_of client) s.tokens

abbrev pub IsCapped : TokenStore → Type 0
IsCapped s = (client : String) → named_count client s ≤ named_token_cap

module _ (c : String) where
  cleanup-named_count : (now : ℕ) (s : TokenStore) → named_count c (cleanup now s) ≤ named_count c s
  unfolding cleanup cleanup_refresh cleanup_oauth cleanup_tokens
  cleanup-named_count now s = count-retain-le (is_named_of c) (is_live now) s.tokens

  persist-named_count :
      (a : AccessToken) (s : TokenStore) → named_count c (persist a s) ≡ named_count c s
  unfolding persist
  persist-named_count a s = ground arith

  add-named_count :
      (k : String) (a : AccessToken) (t2 : ℕ) (s : TokenStore)
      → named_count c (cleanup t2 (persist a (record s { tokens = insert k a s.tokens })))
        ≤ named_count c s + (if is_named_of c a then 1 else 0)
  add-named_count k a t2 s =
      let s' : TokenStore = record s { tokens = insert k a s.tokens } in
      omega (
        arith,
        cleanup-named_count t2 (persist a s'),
        persist-named_count a s',
        count-insert-le (is_named_of c) k a s.tokens,
      )

  issue_token-internal :
      (client token : String) (t1 t2 : ℕ) (s : TokenStore)
      → named_count c (issue_token client none token t1 t2 s).1 ≤ named_count c s
  unfolding issue_token new_token
  issue_token-internal client token t1 t2 s =
      ground (arith, add-named_count token (new_token client none token t1 token_ttl) t2 s)

  issue_token-named :
      (client name token : String) (t1 t2 : ℕ) (s : TokenStore)
      → named_count c (issue_token client (some name) token t1 t2 s).1
        ≤ named_count c s + (if client == c then 1 else 0)
  unfolding issue_token new_token
  issue_token-named client name token t1 t2 s =
      ground (
        arith,
        add-named_count token (new_token client (some name) token t1 s.named_token_ttl) t2 s,
      )

  issue-named_count :
      (client : String) (name : Option String) (token : String) (t0 t1 t2 : ℕ) (s : TokenStore)
      → named_count c s ≤ named_token_cap
      → named_count c (issue client name token t0 t1 t2 s).1 ≤ named_token_cap
  unfolding issue count_named
  issue-named_count client none token t0 t1 t2 s h =
      le_trans (issue_token-internal client token t1 t2 s) h
  issue-named_count client (some n) token t0 t1 t2 s h =
      let counted = cleanup-named_count t0 s in
      let added = issue_token-named client n token t1 t2 (cleanup t0 s) in
      elim (Bool-cases (client == c)) [
        | inl same ↦
            let e = ap (λ x. named_count x (cleanup t0 s)) (eq_of_true client c same) in
            ground (arith, counted, added, same, e)
        | inr other ↦ ground (arith, counted, added, other)
      ]

  revoke_oauth-named_count :
      (hash : String → String) (token : String) (now : ℕ) (s : TokenStore)
      → named_count c (revoke_oauth hash token now s).1 ≡ named_count c s
  unfolding revoke_oauth shorten_oauth end_refresh_family
  revoke_oauth-named_count hash token now s = ground arith

  revoke-named_count :
      (hash : String → String) (token : String) (now : ℕ) (s : TokenStore)
      → named_count c (revoke hash token now s).1 ≡ named_count c s
  unfolding revoke unpersist
  revoke-named_count hash token now s = elim (Option-cases (lookup token s.tokens)) [
    | inl missing ↦ rw (missing, revoke) (revoke_oauth-named_count hash token now s)
    | inr (a, found) ↦
        rw (found, revoke)
          (ground (
            arith,
            count-insert_same (is_named_of c) token
                (record a { expires_at = sooner a.expires_at (now + revoke_grace) }) a s.tokens
                found refl,
          ))
  ]

  validate-named_count :
      (hash : String → String) (token : String) (now : ℕ) (s : TokenStore)
      → named_count c (validate hash token now s).1 ≤ named_count c s
  unfolding validate validate_oauth unpersist drop_oauth
  validate-named_count hash token now s =
      ground (arith, count-erase-le (is_named_of c) token s.tokens)

  issue_oauth-named_count :
      (hash : String → String) (client : String) (f : Option String) (access fresh : String)
      (t0 t1 t2 : ℕ) (s : TokenStore)
      → named_count c (issue_oauth hash client f access fresh t0 t1 t2 s).1 ≤ named_count c s
  unfolding issue_oauth mint_oauth persist_oauth persist_refresh
  issue_oauth-named_count hash client none access fresh t0 t1 t2 s = cleanup-named_count t2 _
  issue_oauth-named_count hash client (some f) access fresh t0 t1 t2 s = cleanup-named_count t2 _

  rotate-named_count :
      (hash : String → String) (r : RefreshToken) (token client access fresh : String)
      (t0 t1 t2 : ℕ) (s : TokenStore)
      → named_count c (rotate hash r token client access fresh t0 t1 t2 s).1 ≤ named_count c s
  unfolding rotate mint_oauth persist_oauth persist_refresh
  rotate-named_count hash r token client access fresh t0 t1 t2 s = cleanup-named_count t2 _

  refresh-named_count :
      (hash : String → String) (token client access fresh : String) (t0 t1 t2 : ℕ) (s : TokenStore)
      → named_count c (refresh hash token client access fresh t0 t1 t2 s).1 ≤ named_count c s
  unfolding refresh replayed lapsed revoke_family drop_refresh
  refresh-named_count hash token client access fresh t0 t1 t2 s =
      elim (Option-cases (lookup (hash token) s.refresh_tokens)) [
        | inl missing ↦ rw (missing, refresh) (le_refl _)
        | inr (r, found) ↦
            rw (found, refresh)
              (ground (arith, rotate-named_count hash r token client access fresh t0 t1 t2 s))
      ]

  revoke_only-named_count :
      (hash : String → String) (ts : List AccessToken) (now : ℕ) (s : TokenStore)
      → named_count c (revoke_only hash ts now s).1 ≡ named_count c s
  unfolding revoke_only
  revoke_only-named_count hash [] now s = refl
  revoke_only-named_count hash (t ∷ []) now s = revoke-named_count hash t.token now s
  revoke_only-named_count hash (t ∷ u ∷ ts) now s = refl

  revoke_named-named_count :
      (hash : String → String) (prefix client : String) (now : ℕ) (s : TokenStore)
      → named_count c (revoke_named hash prefix client now s).1 ≡ named_count c s
  unfolding revoke_named
  revoke_named-named_count hash prefix client now s =
      elim (Bool-cases (ltb (String.count prefix) 6)) [
        | inl short ↦ rw (short, revoke_named)
        | inr long ↦ rw (long, revoke_named) (revoke_only-named_count hash _ now s)
      ]

  prune-named_count :
      (known : List String) (s : TokenStore)
      → named_count c (prune_unknown_clients known s).1 ≡ named_count c s
  unfolding prune_unknown_clients revoke_client
  prune-named_count known s =
      loop-inv (λ t. named_count c t ≡ named_count c s) _ (λ t k h. h) s (stale_clients known s)
        refl

  Call-named_count :
      {hash : String → String} {ends : String → ℕ} {s t : TokenStore}
      → Call hash ends s t
      → named_count c s ≤ named_token_cap
      → named_count c t ≤ named_token_cap
  unfolding revoke_family revoke_client
  Call-named_count (issues client name token t0 t1 t2 s) h =
      issue-named_count client name token t0 t1 t2 s h
  Call-named_count {hash} (signs_in client f a k t0 t1 t2 s e) h =
      le_trans (issue_oauth-named_count hash client (some f) a k t0 t1 t2 s) h
  Call-named_count {hash} (grants client a k t0 t1 t2 s) h =
      le_trans (issue_oauth-named_count hash client none a k t0 t1 t2 s) h
  Call-named_count {hash} (refreshes k client a f t0 t1 t2 s) h =
      le_trans (refresh-named_count hash k client a f t0 t1 t2 s) h
  Call-named_count {hash} (validates k now s) h = le_trans (validate-named_count hash k now s) h
  Call-named_count {hash} (revokes k now s) h = rw (revoke-named_count hash k now s) h
  Call-named_count {hash} (revokes_named p client now s) h =
      rw (revoke_named-named_count hash p client now s) h
  Call-named_count (revokes_family f s) h = h
  Call-named_count (revokes_client client s) h = h
  Call-named_count (prunes known s) h = rw (prune-named_count known s) h
  Call-named_count (lists now s) h = le_trans (cleanup-named_count now s) h

-- Over any run of calls in one process, in which no client starts with more than three named
-- tokens, no client ever comes to hold more than three.
pub Calls-IsCapped :
    {hash : String → String} {ends : String → ℕ} {s t : TokenStore}
    → Calls hash ends s t
    → IsCapped s
    → IsCapped t
Calls-IsCapped none_yet h = h
Calls-IsCapped (then_call run call) h = λ c. Call-named_count c call (Calls-IsCapped run h c)
