-- ===== src/Auth/Tokens/Oauth.antt =====
-- The OAuth half of `TokenStore`: minting, rotation and reuse, validation and revocation. `hash` is
-- `_hash_secret`, SHA-256 in hexadecimal. The random values that a method draws are its arguments.
use text.Mathlib.Text.{starts_with}
use Prim.Native.String
use beacon_mcp.Base.{
  ℕ, ◌+◌, ◌-◌, min, String, Bool, true, false, not, ◌&&◌, ◌||◌, Option, none, some, List, [], ◌∷◌,
  ◌++◌, map, ltb, leb, if◌then◌else◌, ◌==◌, string_has_eq, is_some, length, select, loop, member,
  Result, ok, err,
}
use beacon_mcp.Base.Dict.{lookup, insert, erase, retain, count, values}
use beacon_mcp.Clock.{seconds, round_seconds, Deadline, at, never, past}
use beacon_mcp.Auth.Tokens.Types.{
  AccessToken, OauthGrant, RefreshToken, TokenStore, RefreshTokenError, invalid, expired, reused,
  token_ttl, session_lifetime, refresh_reuse_grace, revoke_grace,
}
use beacon_mcp.Auth.Tokens.Store.{
  db_write, persist_oauth, persist_refresh, unpersist, drop_oauth, drop_refresh, cleanup,
  revoke_family, is_named_of,
}

-- `if x.expires_at > deadline: x.expires_at = deadline`
unfoldable pub sooner : Deadline → ℕ → Deadline
sooner (at t) deadline = if ltb deadline t then at deadline else at t
sooner never deadline = at deadline

-- A token that was rotated out comes again within its family's life: a retry of the call within
-- the grace gets the same pair, anything else takes the family down.
unfoldable pub replayed :
    RefreshToken → ℕ → TokenStore → Result RefreshTokenError OauthGrant × TokenStore
replayed token now s = elim token.replay [
  | none ↦ (err (reused token.family_id), revoke_family token.family_id s)
  | some grant ↦
      if leb (now - token.used_at) refresh_reuse_grace
      then (ok grant, s)
      else (err (reused token.family_id), revoke_family token.family_id s)
]

-- An expired token: past the family's end the whole family goes, before it the token alone.
unfoldable pub lapsed :
    RefreshToken → ℕ → TokenStore → Result RefreshTokenError OauthGrant × TokenStore
lapsed token now s = (
  err (expired token.family_id),
  if leb token.family_expires_at now
      then revoke_family token.family_id s
      else drop_refresh token.token_hash s,
)

-- The bearer of `_revoke_oauth`: it ends with the grace at the latest, and its row goes at once.
unfoldable pub shorten_oauth : String → AccessToken → ℕ → TokenStore → TokenStore
unfolding sooner
shorten_oauth key entry deadline s =
    let entry' : AccessToken = record entry { expires_at = sooner entry.expires_at deadline } in
    db_write (λ d. record d { oauth = erase key d.oauth })
      (record s { oauth_tokens = insert key entry' s.oauth_tokens })

-- The refresh tokens of its family, if it has one, go at once.
unfoldable pub end_refresh_family : Option String → TokenStore → TokenStore
end_refresh_family none s = s
end_refresh_family (some f) s =
    db_write (λ d. record d { refresh = retain (λ r. not (r.family_id == f)) d.refresh })
      (record s { refresh_tokens = retain (λ r. not (r.family_id == f)) s.refresh_tokens })

module _ (hash : String → String) where
  -- The access token of `_mint_oauth`.
  unfoldable pub mint_access : String → Option String → ℕ → ℕ → String → TokenStore → TokenStore
  unfolding persist_oauth
  mint_access client_id family_id family_expires_at now access s =
      let entry : AccessToken = record {
        token = hash access;
        client_id = client_id;
        expires_at = at (min (now + seconds token_ttl) family_expires_at);
        name = none;
        created_at = now;
        family_id = family_id;
      } in
      persist_oauth entry (record s { oauth_tokens = insert entry.token entry s.oauth_tokens })

  -- The refresh token of `_mint_oauth`.
  unfoldable pub mint_refresh : String → String → ℕ → ℕ → String → TokenStore → TokenStore
  unfolding persist_refresh
  mint_refresh client_id family_id family_expires_at now refresh s =
      let entry : RefreshToken = record {
        token_hash = hash refresh;
        client_id = client_id;
        family_id = family_id;
        expires_at = min (now + seconds s.refresh_token_ttl) family_expires_at;
        created_at = now;
        family_expires_at = family_expires_at;
        used = false;
        used_at = 0;
        replay = none;
      } in
      persist_refresh entry
        (record s { refresh_tokens = insert entry.token_hash entry s.refresh_tokens })

  -- `_mint_oauth`
  unfoldable pub mint_oauth :
      String → Option String → ℕ → ℕ → String → String → TokenStore → OauthGrant × TokenStore
  unfolding mint_access mint_refresh
  mint_oauth client_id family_id family_expires_at now access refresh s =
      let expires_in = min token_ttl (round_seconds (family_expires_at - now)) in
      let s' = mint_access client_id family_id family_expires_at now access s in
      elim family_id [
        | none ↦
            (record { access_token = access; expires_in = expires_in; refresh_token = none }, s')
        | some f ↦ (
          record { access_token = access; expires_in = expires_in; refresh_token = some refresh },
          mint_refresh client_id f family_expires_at now refresh s',
        )
      ]

  -- `issue_oauth`: `family_id` is `none` unless a refresh token is asked for. The readings are those
  -- of the method, of `_mint_oauth` and of `_cleanup`.
  unfoldable pub issue_oauth :
      String → Option String → String → String → ℕ → ℕ → ℕ → TokenStore → OauthGrant × TokenStore
  issue_oauth client_id family_id access refresh t0 t1 t2 s =
      let (grant, s') =
        mint_oauth client_id family_id (t0 + seconds session_lifetime) t1 access refresh s in
      (grant, cleanup t2 s')

  -- The rotation that ends `refresh`, once `token` has passed its checks. The drawn refresh token is
  -- taken to have another hash than the presented one.
  unfoldable pub rotate :
      RefreshToken
      → String
      → String
      → String
      → String
      → ℕ
      → ℕ
      → ℕ
      → TokenStore
      → OauthGrant × TokenStore
  rotate token refresh_token client_id access refresh now t1 t2 s =
      let key = hash refresh_token in
      let spent : RefreshToken = record token {
        used = true;
        used_at = now;
        expires_at = token.family_expires_at;
      } in
      let s₁ =
        persist_refresh spent (record s { refresh_tokens = insert key spent s.refresh_tokens }) in
      let (grant, s₂) =
        mint_oauth client_id (some token.family_id) token.family_expires_at t1 access refresh s₁ in
      let s₃ = record s₂ {
        refresh_tokens = insert key (record spent { replay = some grant }) s₂.refresh_tokens;
      } in
      (grant, cleanup t2 s₃)

  -- `refresh`
  unfoldable pub refresh :
      String
      → String
      → String
      → String
      → ℕ
      → ℕ
      → ℕ
      → TokenStore
      → Result RefreshTokenError OauthGrant × TokenStore
  refresh refresh_token client_id access new_refresh now t1 t2 s =
      elim (lookup (hash refresh_token) s.refresh_tokens) [
        | none ↦ (err invalid, s)
        | some token ↦
            let (grant, s') = rotate token refresh_token client_id access new_refresh now t1 t2 s in
            if not (token.client_id == client_id)
            then (err invalid, s)
            else if token.used && ltb now token.family_expires_at
            then replayed token now s
            else if ltb token.expires_at now || leb token.family_expires_at now
            then lapsed token now s
            else (ok grant, s')
      ]

  -- `family_of`
  unfoldable pub family_of : String → TokenStore → Option String
  family_of refresh_token s = elim (lookup (hash refresh_token) s.refresh_tokens) [
    | none ↦ none
    | some token ↦ some token.family_id
  ]

  -- `_validate_oauth`
  unfoldable pub validate_oauth : String → ℕ → TokenStore → Option String × TokenStore
  unfolding drop_oauth
  validate_oauth token now s = elim (lookup (hash token) s.oauth_tokens) [
    | none ↦ (none, s)
    | some entry ↦
        if past now entry.expires_at
        then (none, drop_oauth (hash token) s)
        else (some entry.client_id, s)
  ]

  -- `validate`
  unfoldable pub validate : String → ℕ → TokenStore → Option String × TokenStore
  unfolding unpersist
  validate token now s = elim (lookup token s.tokens) [
    | none ↦ validate_oauth token now s
    | some entry ↦
        let s' = if is_some entry.name then unpersist token s else s in
        if past now entry.expires_at
        then (none, record s' { tokens = erase token s'.tokens })
        else (some entry.client_id, s)
  ]

  -- `_revoke_oauth`
  unfoldable pub revoke_oauth : String → ℕ → TokenStore → Bool × TokenStore
  unfolding shorten_oauth end_refresh_family
  revoke_oauth token now s = elim (lookup (hash token) s.oauth_tokens) [
    | none ↦ (false, s)
    | some entry ↦ (
      true,
      end_refresh_family entry.family_id (shorten_oauth (hash token) entry (now + revoke_grace) s),
    )
  ]

  -- `revoke`
  unfoldable pub revoke : String → ℕ → TokenStore → Bool × TokenStore
  unfolding unpersist
  revoke token now s = elim (lookup token s.tokens) [
    | none ↦ revoke_oauth token now s
    | some entry ↦
        let entry' : AccessToken = record entry {
          expires_at = sooner entry.expires_at (now + revoke_grace);
        } in
        let s' = record s { tokens = insert token entry' s.tokens } in
        (true, if is_some entry.name then unpersist token s' else s')
  ]

  -- `revoke_named`. `String.count` counts characters.
  unfoldable pub revoke_only : List AccessToken → ℕ → TokenStore → Bool × TokenStore
  revoke_only (t ∷ []) now s = revoke t.token now s
  revoke_only _ now s = (false, s)

  unfoldable pub revoke_named : String → String → ℕ → TokenStore → Bool × TokenStore
  revoke_named token_prefix client_id now s =
      let matches =
        select (λ t. starts_with t.token token_prefix && is_named_of client_id t)
          (values s.tokens) in
      if ltb (String.count token_prefix) 6 then (false, s) else revoke_only matches now s

-- `revoke_client`
unfoldable pub revoke_client : String → TokenStore → ℕ × TokenStore
revoke_client client_id s = (
  count (λ a. a.client_id == client_id) s.oauth_tokens,
  db_write
      (λ d. record d {
        oauth = retain (λ a. not (a.client_id == client_id)) d.oauth;
        refresh = retain (λ r. not (r.client_id == client_id)) d.refresh;
      })
      (record s {
        oauth_tokens = retain (λ a. not (a.client_id == client_id)) s.oauth_tokens;
        refresh_tokens = retain (λ r. not (r.client_id == client_id)) s.refresh_tokens;
      }),
)

-- The set of a list, in order of first occurrence from the right.
unfoldable pub distinct : List String → List String
distinct [] = []
distinct (x ∷ xs) = let rest = distinct xs in if member x rest then rest else x ∷ rest

-- `prune_unknown_clients`: the clients of OAuth tokens less the known ones.
unfoldable pub stale_clients : List String → TokenStore → List String
unfolding distinct
stale_clients known s =
    select (λ c. not (member c known))
      (distinct (
        map (λ a. a.client_id) (values s.oauth_tokens)
        ++ map (λ r. r.client_id) (values s.refresh_tokens)))

unfoldable pub prune_unknown_clients : List String → TokenStore → ℕ × TokenStore
unfolding revoke_client
prune_unknown_clients known s =
    let stale = stale_clients known s in
    (length stale, loop (λ s' c. (revoke_client c s').1) s stale)
