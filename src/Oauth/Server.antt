-- ===== src/Oauth/Server.antt =====
-- The state that the OAuth endpoints of __main__.py share, and their look at the clients.
use beacon_mcp.Base.{ℕ, String, Bool, Option, none, some, List, ◌==◌, string_has_eq, if◌then◌else◌}
use beacon_mcp.Base.Dict.{Dict, lookup, contains}
use beacon_mcp.Base.Text.{Text}
use beacon_mcp.Auth.Clients.Types.{FileSig, World}
use beacon_mcp.Auth.Clients.File.{maybe_reload}
use beacon_mcp.Auth.Codes.{AuthCode}
use beacon_mcp.Auth.Tokens.Types.{TokenStore, OauthGrant}
use beacon_mcp.Auth.Tokens.Oauth.{prune_unknown_clients}
use beacon_mcp.Limits.Window.{RateLimiter}
use beacon_mcp.Limits.Lockout.{TotpLockout}
use beacon_mcp.Dashboard.Passkeys.Service.{PasskeyService, PasskeyError, WebAuthn}
use beacon_mcp.Oauth.{ParsedUrl, ParamError, PendingAuthorizations}

-- The code that is not in the repository, and the configured origins.
pub record External : Type 0 where
  pub hash : String → String
  pub s256 : String → Option String
  pub totp_verify : String → String → ℕ → Bool
  pub isdigit : String → Bool
  pub urlparse : Text → Option ParsedUrl
  pub webauthn : WebAuthn
  pub allowed_origins : List Text

pub record Server : Type 0 where
  pub clients : World
  pub login_limiter : RateLimiter
  pub token_limiter : RateLimiter
  pub lockout : TotpLockout
  pub codes : Dict String AuthCode
  pub tokens : TokenStore
  pub pending : PendingAuthorizations
  pub passkeys : PasskeyService

-- Why the second factor was not accepted.
pub data Refusal : Type 0 where
  too_many_attempts : ℕ → Refusal
  locked_out : Refusal
  replayed_code : Refusal
  incorrect_code : Refusal
  passkeys_unavailable : Refusal
  invalid_request : Refusal
  malformed_passkey : Refusal
  passkey_failed : PasskeyError → Refusal
  foreign_passkey : Refusal

pub data Response : Type 0 where
  bad_params : ParamError → Response
  refused : Refusal → ℕ → Bool → Response  -- the status, and `locked`
  approved : String → ℕ → Response  -- the ticket, and when it expires
  bad_ticket : Response
  bad_body : Response
  redirect : String → String → String → Response  -- the address, the code and the state
  rate_limited : ℕ → Response
  invalid_client : Response
  invalid_grant : Response
  unsupported_grant_type : Response
  internal_error : Response  -- an exception that the handler lets through
  granted : OauthGrant → Response

-- `_maybe_reload` with its callback `on_clients_removed`. The first look of a handler at the clients
-- reloads them; another process is taken not to write the file again within the same handler, so that
-- its later looks find nothing to reload.
unfoldable pub reload : FileSig → Server → Server
reload sig s =
    let (world, gone) = maybe_reload sig s.clients in
    elim gone [
      | none ↦ record s { clients = world }
      | some known ↦ record s { clients = world; tokens = (prune_unknown_clients known s.tokens).1 }
    ]

-- `ClientStore.exists`
unfoldable pub exists : FileSig → String → Server → Bool × Server
unfolding reload
exists sig client_id s = let s' = reload sig s in (contains client_id s'.clients.store.clients, s')

-- `_seed_owner`, and `_passkey_owner`, which is the same.
unfoldable pub seed_owner : String → World → String
seed_owner client_id w = elim (lookup client_id w.store.clients) [
  | none ↦ client_id
  | some client ↦ elim client.owner_client_id [
    | none ↦ client_id
    | some owner ↦ if owner == "" then client_id else owner
  ]
]
