-- ===== src/Oauth/Bearer.antt =====
-- `auth_middleware` of __main__.py: which requests reach the MCP server, and for whom.
use beacon_mcp.Base.{
  ℕ, String, ◌≡◌, ◌≢◌, Bool, true, ◌||◌, Option, none, some, if◌then◌else◌, ◌==◌, string_has_eq,
}
use beacon_mcp.Base.Text.{Text, text_has_eq, codes, starts_with}
use beacon_mcp.Auth.Clients.Types.{FileSig}
use beacon_mcp.Auth.Tokens.Oauth.{validate}
use beacon_mcp.Oauth.Server.{External, Server, exists}

-- The paths that need no bearer.
unfoldable pub is_public : Text → Bool
unfolding starts_with
is_public path =
    path == codes "/"
    || path == codes "/health"
    || path == codes "/metrics"
    || path == codes "/oauth/token"
    || path == codes "/oauth/authorize"
    || path == codes "/oauth/authorize/finalize"
    || path == codes "/oauth/register"
    || path == codes "/.well-known/oauth-authorization-server"
    || path == codes "/.well-known/oauth-protected-resource"
    || path == codes "/.well-known/oauth-protected-resource/mcp"
    || starts_with (codes "/.well-known/oauth-protected-resource/mcp/c/") path
    || starts_with (codes "/.well-known/oauth-authorization-server/as/") path
    || starts_with (codes "/oauth/register/c/") path
    || starts_with (codes "/transfers/upload/") path
    || starts_with (codes "/oauth/passkey/") path
    || starts_with (codes "/oauth/logo/") path
    || starts_with (codes "/app/") path

pub data Verdict : Type 0 where
  public : Verdict
  admitted : String → Verdict  -- the client of the bearer
  unauthorized : Verdict
  invalid_token : Verdict

-- A bearer whose client is gone from clients.json dies with it.
unfoldable pub admit : Option String → FileSig → Server → Verdict × Server
admit none sig s = (invalid_token, s)
admit (some client_id) sig s =
    let (known, s') = exists sig client_id s in
    if client_id == ""
    then (invalid_token, s)
    else if known
    then (admitted client_id, s')
    else (invalid_token, s')

module _ (external : External) where
  unfoldable pub check_bearer : Option String → ℕ → FileSig → Server → Verdict × Server
  unfolding admit
  check_bearer none now sig s = (unauthorized, s)
  check_bearer (some token) now sig s =
      let (client_id, tokens) = validate external.hash token now s.tokens in
      admit client_id sig (record s { tokens = tokens })

  -- `auth_middleware`: the bearer is what follows "Bearer " in the Authorization header, `none` if that
  -- does not start so.
  unfoldable pub auth_middleware : Text → Option String → ℕ → FileSig → Server → Verdict × Server
  unfolding is_public check_bearer
  auth_middleware path bearer now sig s =
      if is_public path then (public, s) else check_bearer bearer now sig s

  -- `validate` answers this client for the bearer, and the client is still known once clients.json is
  -- looked at again.
  abbrev pub Admits : String → String → ℕ → FileSig → Server → Type 0
  Admits token client_id now sig s =
      let (found, tokens) = validate external.hash token now s.tokens in
      (found ≡ some client_id)
      × (client_id ≢ "")
      × ((exists sig client_id (record s { tokens = tokens })).0 ≡ true)
