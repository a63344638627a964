-- ===== src/Auth/Tokens/Bounds/Oauth.antt =====
-- The bounds of the sign-ins across minting, rotation, validation and revocation.
use Prim.Native.String
use beacon_mcp.Base.{
  ℕ, ◌+◌, String, ◌≡◌, refl, sym, ap, ◌∙◌, Bool, Option, none, some, List, [], ◌∷◌, arith,
  string_has_eq, inl, inr, Bool-cases, Option-cases, ltb, loop-inv,
}
use beacon_mcp.Base.Dict.{
  lookup, insert, retain, Every-insert, Every-retain, Every-lookup, IsDict-insert, IsDict-erase,
  Every-erase, IsDict-retain, erase,
}
use beacon_mcp.Clock.{Deadline, at, never, seconds}
use beacon_mcp.Auth.Tokens.Types.{
  AccessToken, RefreshToken, RefreshRow, TokenStore, session_lifetime, revoke_grace,
}
use beacon_mcp.Auth.Tokens.Store.{db_write, persist_oauth, persist_refresh, unpersist}
use beacon_mcp.Auth.Tokens.Oauth.{
  sooner, mint_oauth, issue_oauth, rotate, replayed, lapsed, refresh, shorten_oauth,
  end_refresh_family, stale_clients, validate_oauth, validate, revoke_oauth, revoke, revoke_only,
  revoke_named, revoke_client, prune_unknown_clients,
}
use beacon_mcp.Auth.Tokens.Bounds.Inv.{Within, BoundedAccess, BoundedRefresh, BoundedRow, Bounded}
use beacon_mcp.Auth.Tokens.Bounds.Store.{
  map_db-Bounded, cleanup-Bounded, unpersist-Bounded, tokens-Bounded, drop_oauth-Bounded,
  drop_refresh-Bounded, retain-Bounded, revoke_family-Bounded,
}

module _ (ends : String → ℕ) where
  -- One OAuth token added to the table and to the file.
  insert_access-Bounded :
      (k : String) (a : AccessToken) (s : TokenStore)
      → a.token ≡ k
      → Within ends a.family_id a.expires_at
      → Bounded ends s
      → Bounded ends (persist_oauth a (record s { oauth_tokens = insert k a s.oauth_tokens }))
  unfolding persist_oauth
  insert_access-Bounded k a s named w b = record {
    tokens_keys = b.tokens_keys;
    oauth_keys = IsDict-insert _ _ _ b.oauth_keys;
    refresh_keys = b.refresh_keys;
    access = Every-insert (BoundedAccess ends) _ _ _ (λ j e. (named ∙ sym e, w)) b.access;
    refresh = b.refresh;
    file =
        map_db-Bounded ends _ s.db
          (λ d h. record {
            named_keys = h.named_keys;
            oauth_keys = IsDict-insert _ _ _ h.oauth_keys;
            refresh_keys = h.refresh_keys;
            access = Every-insert (BoundedAccess ends) _ _ _ (λ j e. (sym e, w)) h.access;
            refresh = h.refresh;
          })
          b.file;
  }

  -- One refresh token added to the table and to the file, or replaced in both.
  insert_refresh-Bounded :
      (k : String) (r : RefreshToken) (s : TokenStore)
      → BoundedRefresh ends k r
      → Bounded ends s
      → Bounded ends (persist_refresh r (record s { refresh_tokens = insert k r s.refresh_tokens }))
  unfolding persist_refresh
  insert_refresh-Bounded k r s h b = record {
    tokens_keys = b.tokens_keys;
    oauth_keys = b.oauth_keys;
    refresh_keys = IsDict-insert _ _ _ b.refresh_keys;
    access = b.access;
    refresh = Every-insert (BoundedRefresh ends) _ _ _ (λ j e. (h.0 ∙ sym e, h.1, h.2)) b.refresh;
    file =
        map_db-Bounded ends _ s.db
          (λ d g. record {
            named_keys = g.named_keys;
            oauth_keys = g.oauth_keys;
            refresh_keys = IsDict-insert _ _ _ g.refresh_keys;
            access = g.access;
            refresh =
                Every-insert (BoundedRow ends) _ _ _ (λ j e. (sym e, ap some h.1, h.2)) g.refresh;
          })
          b.file;
  }

  insert_replay-Bounded :
      (k : String) (r : RefreshToken) (s : TokenStore)
      → BoundedRefresh ends k r
      → Bounded ends s
      → Bounded ends (record s { refresh_tokens = insert k r s.refresh_tokens })
  insert_replay-Bounded k r s h b = record {
    tokens_keys = b.tokens_keys;
    oauth_keys = b.oauth_keys;
    refresh_keys = IsDict-insert _ _ _ b.refresh_keys;
    access = b.access;
    refresh = Every-insert (BoundedRefresh ends) _ _ _ (λ j e. (h.0 ∙ sym e, h.1, h.2)) b.refresh;
    file = b.file;
  }

  replayed-Bounded :
      (r : RefreshToken) (now : ℕ) (s : TokenStore)
      → Bounded ends s
      → Bounded ends (replayed r now s).1
  unfolding replayed
  replayed-Bounded r now s b = ground (arith, revoke_family-Bounded ends r.family_id s b)

  lapsed-Bounded :
      (r : RefreshToken) (now : ℕ) (s : TokenStore)
      → Bounded ends s
      → Bounded ends (lapsed r now s).1
  unfolding lapsed
  lapsed-Bounded r now s b = ground (
    arith,
    revoke_family-Bounded ends r.family_id s b,
    drop_refresh-Bounded ends r.token_hash s b,
  )

  module _ (hash : String → String) where
    mint_oauth-Bounded :
        (client : String) (family : Option String) (end now : ℕ) (access fresh : String)
        (s : TokenStore)
        → ((f : String) → family ≡ some f → end ≡ ends f)
        → Bounded ends s
        → Bounded ends (mint_oauth hash client family end now access fresh s).1
    unfolding mint_oauth
    mint_oauth-Bounded client none end now access fresh s e b =
        insert_access-Bounded _ _ s refl tt b
    mint_oauth-Bounded client (some f) end now access fresh s e b =
        insert_refresh-Bounded _ _ _ (refl, e f refl, omega (arith, e f refl))
          (insert_access-Bounded _ _ s refl (omega (arith, e f refl)) b)

    pub issue_oauth-Bounded :
        (client : String) (family : Option String) (access fresh : String) (t0 t1 t2 : ℕ)
        (s : TokenStore)
        → ((f : String) → family ≡ some f → t0 + seconds session_lifetime ≡ ends f)
        → Bounded ends s
        → Bounded ends (issue_oauth hash client family access fresh t0 t1 t2 s).1
    unfolding issue_oauth
    issue_oauth-Bounded client family access fresh t0 t1 t2 s e b =
        cleanup-Bounded ends t2 _ (mint_oauth-Bounded client family _ t1 access fresh s e b)

    rotate-Bounded :
        (r : RefreshToken) (token client access fresh : String) (now t1 t2 : ℕ) (s : TokenStore)
        → BoundedRefresh ends (hash token) r
        → Bounded ends s
        → Bounded ends (rotate hash r token client access fresh now t1 t2 s).1
    unfolding rotate
    rotate-Bounded r token client access fresh now t1 t2 s h b = cleanup-Bounded ends t2 _ (
        insert_replay-Bounded _ _ _ (h.0, h.1, omega (arith, h.1))
          (mint_oauth-Bounded client (some r.family_id) r.family_expires_at t1 access fresh _
            (λ f e. cc (h.1)) (insert_refresh-Bounded _ _ s (h.0, h.1, omega (arith, h.1)) b)))

    pub refresh-Bounded :
        (token client access fresh : String) (now t1 t2 : ℕ) (s : TokenStore)
        → Bounded ends s
        → Bounded ends (refresh hash token client access fresh now t1 t2 s).1
    unfolding refresh
    refresh-Bounded token client access fresh now t1 t2 s b =
        elim (Option-cases (lookup (hash token) s.refresh_tokens)) [
          | inl missing ↦ rw (missing, refresh) b
          | inr (r, found) ↦
              let h = Every-lookup (BoundedRefresh ends) _ _ _ b.refresh found in
              rw (found, refresh)
                (ground (
                  arith,
                  replayed-Bounded r now s b,
                  lapsed-Bounded r now s b,
                  rotate-Bounded r token client access fresh now t1 t2 s h b,
                ))
        ]

  -- Dropping refresh tokens and rows alone.
  retain_refresh-Bounded :
      (p : RefreshToken → Bool) (q : RefreshRow → Bool) (s : TokenStore)
      → Bounded ends s
      → Bounded ends (
          db_write
            (λ d. record d { refresh = retain q d.refresh })
            (record s { refresh_tokens = retain p s.refresh_tokens }))
  retain_refresh-Bounded p q s b = record {
    tokens_keys = b.tokens_keys;
    oauth_keys = b.oauth_keys;
    refresh_keys = IsDict-retain _ _ b.refresh_keys;
    access = b.access;
    refresh = Every-retain (BoundedRefresh ends) _ _ b.refresh;
    file =
        map_db-Bounded ends _ s.db
          (λ d h. record {
            named_keys = h.named_keys;
            oauth_keys = h.oauth_keys;
            refresh_keys = IsDict-retain _ _ h.refresh_keys;
            access = h.access;
            refresh = Every-retain (BoundedRow ends) _ _ h.refresh;
          })
          b.file;
  }

  sooner-Within :
      (f : Option String) (d : Deadline) (t : ℕ) → Within ends f d → Within ends f (sooner d t)
  unfolding sooner
  sooner-Within none (at _) t h = tt
  sooner-Within none never t h = tt
  sooner-Within (some f) (at u) t h = elim (Bool-cases (ltb t u)) [
    | inl earlier ↦ rw (earlier, sooner) (ground arith)
    | inr later ↦ rw (later, sooner) h
  ]
  sooner-Within (some f) never t h = absurd h

  shorten_oauth-Bounded :
      (k : String) (a : AccessToken) (deadline : ℕ) (s : TokenStore)
      → BoundedAccess ends k a
      → Bounded ends s
      → Bounded ends (shorten_oauth k a deadline s)
  unfolding shorten_oauth
  shorten_oauth-Bounded k a deadline s h b = record {
    tokens_keys = b.tokens_keys;
    oauth_keys = IsDict-insert _ _ _ b.oauth_keys;
    refresh_keys = b.refresh_keys;
    access =
        Every-insert (BoundedAccess ends) _ _ _
          (λ j e. (h.0 ∙ sym e, sooner-Within a.family_id a.expires_at deadline h.1)) b.access;
    refresh = b.refresh;
    file =
        map_db-Bounded ends _ s.db
          (λ d g. record {
            named_keys = g.named_keys;
            oauth_keys = IsDict-erase _ _ g.oauth_keys;
            refresh_keys = g.refresh_keys;
            access = Every-erase (BoundedAccess ends) _ _ g.access;
            refresh = g.refresh;
          })
          b.file;
  }

  end_refresh_family-Bounded :
      (f : Option String) (s : TokenStore) → Bounded ends s → Bounded ends (end_refresh_family f s)
  unfolding end_refresh_family
  end_refresh_family-Bounded none s b = b
  end_refresh_family-Bounded (some f) s b = retain_refresh-Bounded _ _ s b

  pub revoke_client-Bounded :
      (client : String) (s : TokenStore) → Bounded ends s → Bounded ends (revoke_client client s).1
  unfolding revoke_client
  revoke_client-Bounded client s b = retain-Bounded ends _ _ _ _ s b

  pub prune_unknown_clients-Bounded :
      (known : List String) (s : TokenStore)
      → Bounded ends s
      → Bounded ends (prune_unknown_clients known s).1
  unfolding prune_unknown_clients
  prune_unknown_clients-Bounded known s b =
      loop-inv (Bounded ends) _ (λ s' c h. revoke_client-Bounded c s' h) s (stale_clients known s) b

  module _ (hash : String → String) where
    pub validate-Bounded :
        (token : String) (now : ℕ) (s : TokenStore)
        → Bounded ends s
        → Bounded ends (validate hash token now s).1
    unfolding validate validate_oauth
    validate-Bounded token now s b = ground (
      arith,
      drop_oauth-Bounded ends (hash token) s b,
      tokens-Bounded ends s (erase token s.tokens) b (IsDict-erase token s.tokens b.tokens_keys),
      tokens-Bounded ends (unpersist token s) (erase token s.tokens)
          (unpersist-Bounded ends token s b) (IsDict-erase token s.tokens b.tokens_keys),
    )

    revoke_oauth-Bounded :
        (token : String) (now : ℕ) (s : TokenStore)
        → Bounded ends s
        → Bounded ends (revoke_oauth hash token now s).1
    unfolding revoke_oauth
    revoke_oauth-Bounded token now s b = elim (Option-cases (lookup (hash token) s.oauth_tokens)) [
      | inl missing ↦ rw (missing, revoke_oauth) b
      | inr (a, found) ↦
          let h = Every-lookup (BoundedAccess ends) _ _ _ b.access found in
          rw (found, revoke_oauth)
            (end_refresh_family-Bounded a.family_id _
              (shorten_oauth-Bounded (hash token) a _ s h b))
    ]

    pub revoke-Bounded :
        (token : String) (now : ℕ) (s : TokenStore)
        → Bounded ends s
        → Bounded ends (revoke hash token now s).1
    unfolding revoke
    revoke-Bounded token now s b = elim (Option-cases (lookup token s.tokens)) [
      | inl missing ↦ rw (missing, revoke) (revoke_oauth-Bounded token now s b)
      | inr (a, found) ↦
          let s' = record s {
            tokens =
                insert token (record a { expires_at = sooner a.expires_at (now + revoke_grace) })
                  s.tokens;
          } in
          let b' =
            tokens-Bounded ends s s'.tokens b (IsDict-insert token _ s.tokens b.tokens_keys) in
          rw (found, revoke) (ground (arith, b', unpersist-Bounded ends token s' b'))
    ]

    revoke_only-Bounded :
        (ts : List AccessToken) (now : ℕ) (s : TokenStore)
        → Bounded ends s
        → Bounded ends (revoke_only hash ts now s).1
    unfolding revoke_only
    revoke_only-Bounded [] now s b = b
    revoke_only-Bounded (t ∷ []) now s b = revoke-Bounded t.token now s b
    revoke_only-Bounded (t ∷ u ∷ ts) now s b = b

    pub revoke_named-Bounded :
        (prefix client : String) (now : ℕ) (s : TokenStore)
        → Bounded ends s
        → Bounded ends (revoke_named hash prefix client now s).1
    unfolding revoke_named
    revoke_named-Bounded prefix client now s b = elim (Bool-cases (ltb (String.count prefix) 6)) [
      | inl short ↦ rw (short, revoke_named) b
      | inr long ↦ rw (long, revoke_named) (revoke_only-Bounded _ now s b)
    ]
