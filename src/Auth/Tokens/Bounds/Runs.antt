-- ===== src/Auth/Tokens/Bounds/Runs.antt =====
-- The bounds of the sign-ins over any history of calls and restarts.
use beacon_mcp.Base.{
  ℕ, ◌≤◌, ◌<◌, String, ◌≡◌, subst, false, Option, none, some, arith, string_has_eq, ok,
}
use beacon_mcp.Base.Dict.{lookup, Every-lookup}
use beacon_mcp.Clock.{Deadline, at, never, past}
use beacon_mcp.Auth.Tokens.Types.{AccessToken, RefreshToken, Db, TokenStore, OauthGrant}
use beacon_mcp.Auth.Tokens.Oauth.{refresh, validate_oauth, lapsed}
use beacon_mcp.Auth.Tokens.Calls.{
  Call, issues, signs_in, grants, refreshes, validates, revokes, revokes_named, revokes_family,
  revokes_client, prunes, lists,
}
use beacon_mcp.Auth.Tokens.Startup.{init_db, init}
use beacon_mcp.Auth.Tokens.Bounds.Inv.{Within, BoundedAccess, BoundedRefresh, BoundedFile, Bounded}
use beacon_mcp.Auth.Tokens.Bounds.Store.{cleanup-Bounded, issue-Bounded, revoke_family-Bounded}
use beacon_mcp.Auth.Tokens.Bounds.Oauth.{
  issue_oauth-Bounded, refresh-Bounded, validate-Bounded, revoke-Bounded, revoke_named-Bounded,
  revoke_client-Bounded, prune_unknown_clients-Bounded,
}
use beacon_mcp.Auth.Tokens.Bounds.Startup.{init_db-Bounded, init-Bounded}

-- A call of a public method, or a restart on the same file.
pub data Step (hash : String → String) (ends : String → ℕ) : TokenStore → TokenStore → Type 0 where
  calls : {s t : TokenStore} → Call hash ends s t → Step hash ends s t
  restarts :
      (now : ℕ) (d : Db) (s : TokenStore) → s.db ≡ some d → Step hash ends s (init_db now d s)

pub data Reach (hash : String → String) (ends : String → ℕ) (s : TokenStore)
    : TokenStore → Type 0 where
  here : Reach hash ends s s
  next : {t u : TokenStore} → Reach hash ends s t → Step hash ends t u → Reach hash ends s u

module _ (hash : String → String) (ends : String → ℕ) where
  Call-Bounded : {s t : TokenStore} → Call hash ends s t → Bounded ends s → Bounded ends t
  Call-Bounded (issues c n k t0 t1 t2 s) b = issue-Bounded ends c n k t0 t1 t2 s b
  Call-Bounded (signs_in c f a k t0 t1 t2 s e) b =
      issue_oauth-Bounded ends hash c (some f) a k t0 t1 t2 s (λ g p. cc e) b
  Call-Bounded (grants c a k t0 t1 t2 s) b =
      issue_oauth-Bounded ends hash c none a k t0 t1 t2 s (λ g p. cc) b
  Call-Bounded (refreshes k c a f t0 t1 t2 s) b = refresh-Bounded ends hash k c a f t0 t1 t2 s b
  Call-Bounded (validates k now s) b = validate-Bounded ends hash k now s b
  Call-Bounded (revokes k now s) b = revoke-Bounded ends hash k now s b
  Call-Bounded (revokes_named k c now s) b = revoke_named-Bounded ends hash k c now s b
  Call-Bounded (revokes_family f s) b = revoke_family-Bounded ends f s b
  Call-Bounded (revokes_client c s) b = revoke_client-Bounded ends c s b
  Call-Bounded (prunes known s) b = prune_unknown_clients-Bounded ends known s b
  Call-Bounded (lists now s) b = cleanup-Bounded ends now s b

  Step-Bounded : {s t : TokenStore} → Step hash ends s t → Bounded ends s → Bounded ends t
  Step-Bounded (calls c) b = Call-Bounded c b
  Step-Bounded (restarts now d s e) b =
      init_db-Bounded ends now d s (subst (BoundedFile ends) e b.file)

  pub Reach-Bounded : {s t : TokenStore} → Bounded ends s → Reach hash ends s t → Bounded ends t
  Reach-Bounded b here = b
  Reach-Bounded b (next r st) = Step-Bounded st (Reach-Bounded b r)

  live-Within :
      (o : Option String) (d : Deadline) (now : ℕ) (f : String)
      → o ≡ some f
      → Within ends o d
      → past now d ≡ false
      → now ≤ ends f
  live-Within none d now f e w p = cc
  live-Within (some g) (at t) now f e w p = ground arith
  live-Within (some g) never now f e w p = absurd w

  -- After any history, an OAuth bearer that `_validate_oauth` accepts at `now`, and that belongs to
  -- a sign-in, is presented no later than the end of that sign-in.
  pub validate_oauth-within_session :
      (file : Option Db) (named_ttl refresh_ttl : Option ℕ) (start : ℕ) {s t : TokenStore}
      (token : String) (now : ℕ) (a : AccessToken) (f client : String)
      → BoundedFile ends file
      → init file named_ttl refresh_ttl start ≡ ok s
      → Reach hash ends s t
      → lookup (hash token) t.oauth_tokens ≡ some a
      → a.family_id ≡ some f
      → (validate_oauth hash token now t).0 ≡ some client
      → now ≤ ends f
  unfolding validate_oauth
  validate_oauth-within_session file nt rt start {t = t} token now a f client b made r found family
        valid =
      let h =
        Every-lookup (BoundedAccess ends) _ _ _
          (Reach-Bounded (init-Bounded ends file nt rt start b made) r).access found in
      live-Within a.family_id a.expires_at now f family h.1 (ground arith)

  -- After any history, a refresh token that `refresh` exchanges or replays is presented before the
  -- end of its sign-in.
  pub refresh-within_session :
      (file : Option Db) (named_ttl refresh_ttl : Option ℕ) (start : ℕ) {s t : TokenStore}
      (token client access fresh : String) (now t1 t2 : ℕ) (r : RefreshToken) (g : OauthGrant)
      → BoundedFile ends file
      → init file named_ttl refresh_ttl start ≡ ok s
      → Reach hash ends s t
      → lookup (hash token) t.refresh_tokens ≡ some r
      → (refresh hash token client access fresh now t1 t2 t).0 ≡ ok g
      → now < ends r.family_id
  unfolding refresh lapsed
  refresh-within_session file nt rt start {t = t} token client access fresh now t1 t2 r g b made
        path found done =
      let h =
        Every-lookup (BoundedRefresh ends) _ _ _
          (Reach-Bounded (init-Bounded ends file nt rt start b made) path).refresh found in
      ground arith
