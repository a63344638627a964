-- ===== src/Auth/Tokens/Revocation.antt =====
-- Revoking a bearer: the grace in which it still answers, what a restart finds, and its family.
use beacon_mcp.Base.{
  ℕ, ◌+◌, String, ◌≡◌, ◌≢◌, refl, ◌∙◌, true, not, Option, none, some, arith, string_has_eq,
  if◌then◌else◌, inl, inr, ◌==◌, eq_refl, leb, Option-cases,
}
use beacon_mcp.Base.Dict.{
  lookup, erase, retain, Every, lookup-insert, lookup-erase, lookup-retain-none, lookup-map_values,
  Every-map, Every-retain_passes,
}
use beacon_mcp.Clock.{Deadline, at, never, past}
use beacon_mcp.Auth.Tokens.Types.{
  AccessToken, RefreshToken, RefreshRow, Db, TokenStore, map_db, revoke_grace,
}
use beacon_mcp.Auth.Tokens.Store.{unpersist}
use beacon_mcp.Auth.Tokens.Oauth.{
  sooner, shorten_oauth, end_refresh_family, validate, revoke, revoke_oauth,
}
use beacon_mcp.Auth.Tokens.Startup.{init_db, bound_legacy_sessions}
use beacon_mcp.Auth.Tokens.Lookups.{answer, validate-of_none, validate-of_bearer, validate-of_oauth}
use beacon_mcp.Auth.Tokens.Reuse.{other_refresh}

abbrev pub NoRefreshRows : String → Option Db → Type 0
NoRefreshRows f none = Unit
NoRefreshRows f (some d) = Every (λ _ r. r.family_id ≢ f) d.refresh

end_refresh_family-gone :
    (o : Option String) (f : String) (s : TokenStore)
    → o ≡ some f
    → Every (λ _ r. r.family_id ≢ f) (end_refresh_family o s).refresh_tokens
      × NoRefreshRows f (end_refresh_family o s).db
unfolding end_refresh_family
end_refresh_family-gone none f s e = cc
end_refresh_family-gone (some g) f s e =
    (Every-map _ _ _ (λ _ r h. other r h) (Every-retain_passes _ s.refresh_tokens), rows s.db)
  where
    other : (r : RefreshToken) → not (r.family_id == g) ≡ true → r.family_id ≢ f
    other r h = ground (arith, other_refresh g r.family_id h)

    other_row : (r : RefreshRow) → not (r.family_id == g) ≡ true → r.family_id ≢ f
    other_row r h = ground (arith, other_refresh g r.family_id h)

    rows :
        (o : Option Db)
        → NoRefreshRows f
            (map_db (λ d. record d { refresh = retain (λ r. not (r.family_id == g)) d.refresh }) o)
    rows none = tt
    rows (some d) = Every-map _ _ _ (λ _ r h. other_row r h) (Every-retain_passes _ d.refresh)

past-sooner :
    (later deadline : ℕ) (d : Deadline)
    → past later (sooner d deadline) ≡ (if leb later deadline then past later d else true)
unfolding sooner
past-sooner later deadline (at t) = ground arith
past-sooner later deadline never = ground arith

module _ (hash : String → String) where
  end_refresh_family-oauth :
      (o : Option String) (s : TokenStore)
      → ((end_refresh_family o s).oauth_tokens ≡ s.oauth_tokens)
        × ((end_refresh_family o s).tokens ≡ s.tokens)
  unfolding end_refresh_family
  end_refresh_family-oauth none s = (refl, refl)
  end_refresh_family-oauth (some f) s = (refl, refl)

  revoke-tokens :
      (token : String) (now : ℕ) (s : TokenStore) (a : AccessToken)
      → lookup token s.tokens ≡ some a
      → lookup token (revoke hash token now s).1.tokens
        ≡ some (record a { expires_at = sooner a.expires_at (now + revoke_grace) })
  unfolding revoke unpersist
  revoke-tokens token now s a found =
      rw (found, revoke)
        (ground (
          arith,
          lookup-insert token token
              (record a { expires_at = sooner a.expires_at (now + revoke_grace) }) s.tokens,
          eq_refl {A = String} token,
        ))

  revoke-oauth :
      (token : String) (now : ℕ) (s : TokenStore) (a : AccessToken)
      → lookup token s.tokens ≡ none
      → lookup (hash token) s.oauth_tokens ≡ some a
      → (lookup token (revoke hash token now s).1.tokens ≡ none)
        × (lookup (hash token) (revoke hash token now s).1.oauth_tokens
            ≡ some (record a { expires_at = sooner a.expires_at (now + revoke_grace) }))
  unfolding revoke revoke_oauth shorten_oauth
  revoke-oauth token now s a missing found =
      rw (missing, revoke)
        (rw (found, revoke_oauth)
          (rw
            ((end_refresh_family-oauth a.family_id _).0, (end_refresh_family-oauth a.family_id _).1)
            (missing, rw (lookup-insert, eq_refl {A = String} (hash token)))))

  revoke-missing :
      (token : String) (now : ℕ) (s : TokenStore)
      → lookup token s.tokens ≡ none
      → lookup (hash token) s.oauth_tokens ≡ none
      → (revoke hash token now s).1 ≡ s
  unfolding revoke revoke_oauth
  revoke-missing token now s missing missing' = ground arith

  answer-sooner :
      (later deadline : ℕ) (a : AccessToken)
      → answer later (record a { expires_at = sooner a.expires_at deadline })
        ≡ (if leb later deadline then answer later a else none)
  answer-sooner later deadline a = ground (arith, past-sooner later deadline a.expires_at)

  -- However long after the call a bearer is presented: up to the grace it is answered as if it had
  -- not been revoked, and from then on it is refused.
  pub validate-revoke :
      (token : String) (now later : ℕ) (s : TokenStore)
      → (validate hash token later (revoke hash token now s).1).0
        ≡ (if leb later (now + revoke_grace) then (validate hash token later s).0 else none)
  validate-revoke token now later s = elim (Option-cases (lookup token s.tokens)) [
    | inr (a, found) ↦
        validate-of_bearer hash token later _ _ (revoke-tokens token now s a found)
        ∙ rw (validate-of_bearer hash token later s a found)
            (answer-sooner later (now + revoke_grace) a)
    | inl missing ↦ elim (Option-cases (lookup (hash token) s.oauth_tokens)) [
      | inr (a, found) ↦
          let after = revoke-oauth token now s a missing found in
          validate-of_oauth hash token later _ _ after.0 after.1
          ∙ rw (validate-of_oauth hash token later s a missing found)
              (answer-sooner later (now + revoke_grace) a)
      | inl missing' ↦
          rw
            (
              revoke-missing token now s missing missing',
              validate-of_none hash token later s missing missing',
            )
            (ground arith)
    ]
  ]

  init_db-none :
      (token : String) (start later : ℕ) (d : Db) (s : TokenStore)
      → lookup token d.named ≡ none
      → lookup (hash token) d.oauth ≡ none
      → (validate hash token later (init_db start d s)).0 ≡ none
  unfolding init_db bound_legacy_sessions
  init_db-none token start later d s no_named no_oauth =
      validate-of_none hash token later (init_db start d s)
        (lookup-retain-none token _ d.named no_named)
        (lookup-retain-none (hash token) _ _
          (lookup-map_values (hash token) _ d.oauth ∙ ground arith))

  end_refresh_family-db :
      (o : Option String) (s : TokenStore) (d : Db)
      → s.db ≡ some d
      → (d' : Db) × ((end_refresh_family o s).db ≡ some d')
        × (d'.named ≡ d.named)
        × (d'.oauth ≡ d.oauth)
  unfolding end_refresh_family
  end_refresh_family-db none s d e = (d, e, refl, refl)
  end_refresh_family-db (some f) s d e = (
    record d { refresh = retain (λ r. not (r.family_id == f)) d.refresh },
    ground arith,
    refl,
    refl,
  )

  -- An OAuth bearer that is revoked while the file is open stays revoked over a restart: once the
  -- file is read back, at whatever time, the bearer is refused. (It is no named token as well.)
  pub revoke-restart :
      (token : String) (now start later : ℕ) (s : TokenStore) (a : AccessToken) (d : Db)
      → lookup token s.tokens ≡ none
      → lookup (hash token) s.oauth_tokens ≡ some a
      → s.db ≡ some d
      → lookup token d.named ≡ none
      → let s' = (revoke hash token now s).1 in
        (d' : Db) × (s'.db ≡ some d') × ((validate hash token later (init_db start d' s')).0 ≡ none)
  unfolding revoke revoke_oauth shorten_oauth
  revoke-restart token now start later s a d missing found file unnamed =
      let s₁ = shorten_oauth (hash token) a (now + revoke_grace) s in
      let (d', e, n, o) =
        end_refresh_family-db a.family_id s₁ (record d { oauth = erase (hash token) d.oauth })
          (ground arith) in
      rw (missing, revoke)
        (rw (found, revoke_oauth)
          (
            d',
            e,
            init_db-none token start later d' _ (rw n unnamed)
                (rw o (rw (lookup-erase, eq_refl {A = String} (hash token)))),
          ))

  -- Revoking a bearer of a sign-in ends the sign-in: no refresh token of the family is left, in
  -- memory or in the file, so that no new bearer can be had from it.
  pub revoke-ends_family :
      (token f : String) (now : ℕ) (s : TokenStore) (a : AccessToken)
      → lookup token s.tokens ≡ none
      → lookup (hash token) s.oauth_tokens ≡ some a
      → a.family_id ≡ some f
      → let (found, s') = revoke hash token now s in
        (found ≡ true) × Every (λ _ r. r.family_id ≢ f) s'.refresh_tokens × NoRefreshRows f s'.db
  unfolding revoke revoke_oauth
  revoke-ends_family token f now s a missing found family =
      rw (missing, revoke)
        (rw (found, revoke_oauth)
          (
            refl,
            (end_refresh_family-gone a.family_id f _ family).0,
            (end_refresh_family-gone a.family_id f _ family).1,
          ))
