-- ===== src/Oauth/Passkey.antt =====
-- The passkey endpoints of the authorize page in __main__.py.
use beacon_mcp.Base.{
  ℕ, String, false, not, Option, none, some, Result, ok, err, if◌then◌else◌, ◌==◌, string_has_eq,
}
use beacon_mcp.Auth.Clients.Types.{FileSig}
use beacon_mcp.Limits.Window.{check, retry_after}
use beacon_mcp.Limits.Lockout.{record_success}
use beacon_mcp.Dashboard.Passkeys.{PasskeyRecord}
use beacon_mcp.Dashboard.Passkeys.Service.{
  Site, Credential, PasskeyError, available, verify_authentication,
}
use beacon_mcp.Oauth.{AuthorizeParams, ParamError, validate_authorize_params}
use beacon_mcp.Oauth.Server.{
  External, Server, Response, refused, too_many_attempts, passkeys_unavailable, invalid_request,
  malformed_passkey, passkey_failed, foreign_passkey, seed_owner,
}
use beacon_mcp.Oauth.Authorize.{Readings, authorize_approved, known_client}

-- The body of a request for `oauth_passkey_verify`: `none` for what has not the wanted shape.
pub record PasskeyRequest : Type 0 where
  pub params : Option AuthorizeParams
  pub state : String
  pub credential : Option Credential
  pub site : Site
  pub ip : String

-- The readings that `verify_authentication` takes.
pub record CeremonyReadings : Type 0 where
  pub prune : ℕ
  pub expiry : ℕ
  pub touched : ℕ
  pub used : ℕ

-- `_authorize_passkey_guard`: `none` lets the request through.
unfoldable pub passkey_guard : String → Readings → Server → Option Response × Server
passkey_guard ip clock s =
    let (free, limiter) = check ip clock.limiter s.login_limiter in
    let (wait, limiter') = retry_after ip clock.retry clock.retried limiter in
    if not (available s.passkeys)
    then (some (refused passkeys_unavailable 503 false), s)
    else if not free
    then (some (refused (too_many_attempts wait) 429 false), record s { login_limiter = limiter' })
    else (none, record s { login_limiter = limiter })

-- The record must guard the client that asks: a challenge is minted for the owner of its seed.
unfoldable pub after_passkey :
    Result PasskeyError PasskeyRecord
    → AuthorizeParams
    → String
    → String
    → Readings
    → Server
    → Response × Server
after_passkey (err e) params ip ticket clock s = (refused (passkey_failed e) 401 false, s)
after_passkey (ok r) params ip ticket clock s =
    let owner = seed_owner params.client_id s.clients in
    if not (r.client_id == owner)
    then (refused foreign_passkey 401 false, s)
    else authorize_approved params ticket clock
        (record s { lockout = record_success owner (some ip) clock.strike s.lockout })

module _ (external : External) where
  open external use {urlparse, allowed_origins, webauthn}

  -- From the valid parameters on.
  unfoldable pub try_passkey :
      Option Credential
      → PasskeyRequest
      → AuthorizeParams
      → String
      → Readings
      → CeremonyReadings
      → Server
      → Response × Server
  unfolding after_passkey
  try_passkey none request params ticket clock ceremony s = (refused malformed_passkey 400 false, s)
  try_passkey (some credential) request params ticket clock ceremony s =
      let (result, passkeys) =
        verify_authentication webauthn request.site request.state credential ceremony.prune
          ceremony.expiry ceremony.touched ceremony.used s.passkeys in
      if request.state == ""
      then (refused malformed_passkey 400 false, s)
      else after_passkey result params request.ip ticket clock (record s { passkeys = passkeys })

  unfoldable pub after_validation :
      Result ParamError AuthorizeParams
      → PasskeyRequest
      → String
      → Readings
      → CeremonyReadings
      → Server
      → Response × Server
  unfolding try_passkey
  after_validation (err e) request ticket clock ceremony s = (refused invalid_request 400 false, s)
  after_validation (ok params) request ticket clock ceremony s =
      try_passkey request.credential request params ticket clock ceremony s

  unfoldable pub verify_params :
      Option AuthorizeParams
      → PasskeyRequest
      → String
      → Readings
      → CeremonyReadings
      → FileSig
      → Server
      → Response × Server
  unfolding after_validation
  verify_params none request ticket clock ceremony sig s = (refused invalid_request 400 false, s)
  verify_params (some params) request ticket clock ceremony sig s =
      let (known, s') = known_client external params sig s in
      after_validation (validate_authorize_params urlparse allowed_origins params known) request
        ticket clock ceremony s'

  unfoldable pub unless_blocked :
      Option Response
      → PasskeyRequest
      → String
      → Readings
      → CeremonyReadings
      → FileSig
      → Server
      → Response × Server
  unfolding verify_params
  unless_blocked (some response) request ticket clock ceremony sig s = (response, s)
  unless_blocked none request ticket clock ceremony sig s =
      verify_params request.params request ticket clock ceremony sig s

  -- `oauth_passkey_verify`
  unfoldable pub passkey_verify :
      PasskeyRequest → String → Readings → CeremonyReadings → FileSig → Server → Response × Server
  unfolding unless_blocked
  passkey_verify request ticket clock ceremony sig s =
      let (blocked, s') = passkey_guard request.ip clock s in
      unless_blocked blocked request ticket clock ceremony sig s'
