-- ===== src/Auth/Tokens/Lookups.antt =====
-- What a search finds in the three tables after `_cleanup`, and what `validate` answers from them.
use beacon_mcp.Base.{
  ℕ, String, ◌≡◌, false, Option, none, some, arith, string_has_eq, if◌then◌else◌, ltb,
}
use beacon_mcp.Base.Dict.{lookup, IsDict, lookup-retain, lookup-retain-none, lookup-map_values}
use beacon_mcp.Clock.{past}
use beacon_mcp.Auth.Tokens.Types.{AccessToken, RefreshToken, TokenStore}
use beacon_mcp.Auth.Tokens.Oauth.{validate, validate_oauth}
use beacon_mcp.Auth.Tokens.Store.{
  cleanup, cleanup_tokens, cleanup_oauth, cleanup_refresh, forget_replay, is_live, is_live_refresh,
}

pub lookup-cleanup_refresh :
    (k : String) (now : ℕ) (s : TokenStore) (r : RefreshToken)
    → IsDict s.refresh_tokens
    → lookup k s.refresh_tokens ≡ some r
    → ltb r.expires_at now ≡ false
    → lookup k (cleanup now s).refresh_tokens ≡ some (forget_replay now r)
unfolding cleanup cleanup_refresh cleanup_oauth cleanup_tokens
lookup-cleanup_refresh k now s r d found live =
    rw (lookup-map_values k (forget_replay now))
      (rw (lookup-retain k (is_live_refresh now) s.refresh_tokens d) (ground arith))

pub lookup-cleanup_oauth :
    (k : String) (now : ℕ) (s : TokenStore) (a : AccessToken)
    → IsDict s.oauth_tokens
    → lookup k s.oauth_tokens ≡ some a
    → past now a.expires_at ≡ false
    → lookup k (cleanup now s).oauth_tokens ≡ some a
unfolding cleanup cleanup_refresh cleanup_oauth cleanup_tokens
lookup-cleanup_oauth k now s a d found live =
    rw (lookup-retain k (is_live now) s.oauth_tokens d) (ground arith)

pub lookup-cleanup-none :
    (k : String) (now : ℕ) (s : TokenStore)
    → lookup k s.tokens ≡ none
    → lookup k (cleanup now s).tokens ≡ none
unfolding cleanup cleanup_refresh cleanup_oauth cleanup_tokens
lookup-cleanup-none k now s h = lookup-retain-none k (is_live now) s.tokens h

-- What `validate` answers for an entry that it finds.
abbrev pub answer : ℕ → AccessToken → Option String
answer now a = if past now a.expires_at then none else some a.client_id

module _ (hash : String → String) (token : String) (now : ℕ) (s : TokenStore) where
  pub validate-of_bearer :
      (a : AccessToken)
      → lookup token s.tokens ≡ some a
      → (validate hash token now s).0 ≡ answer now a
  unfolding validate
  validate-of_bearer a found = ground arith

  pub validate-of_oauth :
      (a : AccessToken)
      → lookup token s.tokens ≡ none
      → lookup (hash token) s.oauth_tokens ≡ some a
      → (validate hash token now s).0 ≡ answer now a
  unfolding validate validate_oauth
  validate-of_oauth a no_bearer found = ground arith

  pub validate-of_none :
      lookup token s.tokens ≡ none
      → lookup (hash token) s.oauth_tokens ≡ none
      → (validate hash token now s).0 ≡ none
  unfolding validate validate_oauth
  validate-of_none no_bearer missing = ground arith
