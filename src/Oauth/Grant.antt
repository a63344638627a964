-- ===== src/Oauth/Grant.antt =====
-- `oauth_token` of __main__.py: the three grants.
use beacon_mcp.Base.{
  ℕ, String, Bool, true, false, not, Option, none, some, Result, ok, err, if◌then◌else◌, ◌==◌,
  string_has_eq,
}
use beacon_mcp.Auth.Clients.Types.{FileSig}
use beacon_mcp.Auth.Clients.Store.{TotpResult, valid, wrong, replay, check_totp, verify}
use beacon_mcp.Auth.Codes as Codes
use beacon_mcp.Auth.Codes.{UnicodeEncodeError}
use beacon_mcp.Auth.Tokens.Types.{OauthGrant, RefreshTokenError}
use beacon_mcp.Auth.Tokens.Oauth.{issue_oauth, refresh}
use beacon_mcp.Limits.Window.{check, retry_after}
use beacon_mcp.Limits.Lockout.{locked, record_failure, record_success}
use beacon_mcp.Oauth.Server.{
  External, Server, Response, rate_limited, invalid_client, invalid_grant, unsupported_grant_type,
  internal_error, granted, bad_body, reload, seed_owner,
}

-- The fields of the body, "" where one is missing.
pub record TokenBody : Type 0 where
  pub grant_type : String
  pub client_id : String
  pub client_secret : String
  pub totp : String
  pub code : String
  pub redirect_uri : String
  pub code_verifier : String
  pub refresh_token : String

-- The values drawn for the new tokens.
pub record Draws : Type 0 where
  pub access : String
  pub refresh : String
  pub family : String

pub record TokenReadings : Type 0 where
  pub limiter : ℕ
  pub retry : ℕ
  pub retried : ℕ
  pub lock : ℕ
  pub check : ℕ  -- of `check_totp`, `consume` or `refresh`
  pub strike : ℕ
  pub issue : ℕ
  pub mint : ℕ
  pub cleanup : ℕ

module _ (external : External) where
  open external use {hash, s256, totp_verify, isdigit}

  -- A grant is issued, with a refresh token if a family is drawn for it.
  unfoldable pub issue_grant :
      String → Option String → Draws → TokenReadings → Server → Response × Server
  issue_grant client_id family draws clock s =
      let (grant, tokens) =
        issue_oauth hash client_id family draws.access draws.refresh clock.issue clock.mint
          clock.cleanup s.tokens in
      (granted grant, record s { tokens = tokens })

  unfoldable pub after_code :
      TotpResult → TokenBody → String → Draws → TokenReadings → Server → Response × Server
  unfolding issue_grant
  after_code valid body ip draws clock s = issue_grant body.client_id none draws clock (record s {
    lockout = record_success (seed_owner body.client_id s.clients) (some ip) clock.strike s.lockout;
  })
  after_code wrong body ip draws clock s = (
    invalid_grant,
    record s {
      lockout =
          record_failure (seed_owner body.client_id s.clients) (some ip) clock.strike s.lockout;
    },
  )
  after_code replay body ip draws clock s = (invalid_grant, s)

  -- `client_credentials`: a fresh code on every exchange, and no refresh token.
  unfoldable pub client_credentials :
      TokenBody → String → Draws → TokenReadings → FileSig → Server → Response × Server
  unfolding after_code
  client_credentials body ip draws clock sig s =
      let (is_locked, lockout) =
        locked (seed_owner body.client_id s.clients) (some ip) clock.lock s.lockout in
      let s1 = record s { lockout = lockout } in
      let (result, world) =
        check_totp totp_verify isdigit body.client_id body.totp clock.check sig s1.clients in
      if is_locked
      then (invalid_grant, s1)
      else after_code result body ip draws clock (record s1 { clients = world })

  unfoldable pub after_consume :
      Result UnicodeEncodeError Bool
      → TokenBody
      → Draws
      → TokenReadings
      → Server
      → Response × Server
  unfolding issue_grant
  after_consume (err e) body draws clock s = (internal_error, s)
  after_consume (ok false) body draws clock s = (invalid_grant, s)
  after_consume (ok true) body draws clock s =
      issue_grant body.client_id (some draws.family) draws clock s

  -- `authorization_code`
  unfoldable pub authorization_code : TokenBody → Draws → TokenReadings → Server → Response × Server
  unfolding after_consume
  authorization_code body draws clock s =
      let (consumed, codes) =
        Codes.consume s256 body.code body.client_id body.redirect_uri body.code_verifier clock.check
          s.codes in
      after_consume consumed body draws clock (record s { codes = codes })

  abbrev pub refresh_response : Result RefreshTokenError OauthGrant → Response
  refresh_response (ok grant) = granted grant
  refresh_response (err e) = invalid_grant

  -- `refresh_token`
  unfoldable pub refresh_token : TokenBody → Draws → TokenReadings → Server → Response × Server
  refresh_token body draws clock s =
      let (result, tokens) =
        refresh hash body.refresh_token body.client_id draws.access draws.refresh clock.check
          clock.mint clock.cleanup s.tokens in
      if body.refresh_token == ""
      then (invalid_grant, s)
      else (refresh_response result, record s { tokens = tokens })

  -- The client has shown its secret: the grants.
  unfoldable pub grant :
      TokenBody → String → Draws → TokenReadings → FileSig → Server → Response × Server
  unfolding client_credentials authorization_code refresh_token
  grant body ip draws clock sig s =
      if body.grant_type == "client_credentials"
      then client_credentials body ip draws clock sig s
      else if body.grant_type == "authorization_code"
      then authorization_code body draws clock s
      else if body.grant_type == "refresh_token"
      then refresh_token body draws clock s
      else (unsupported_grant_type, s)

  unfoldable pub token_with_body :
      Option TokenBody → String → Draws → TokenReadings → FileSig → Server → Response × Server
  unfolding grant
  token_with_body none ip draws clock sig s = (bad_body, s)
  token_with_body (some body) ip draws clock sig s =
      let s' = reload sig s in
      if not (verify hash body.client_id body.client_secret sig s'.clients).0
      then (invalid_client, s')
      else grant body ip draws clock sig s'

  -- `oauth_token`; a body that cannot be read is `none`.
  unfoldable pub oauth_token :
      Option TokenBody → String → Draws → TokenReadings → FileSig → Server → Response × Server
  unfolding token_with_body
  oauth_token body ip draws clock sig s =
      let (free, limiter) = check ip clock.limiter s.token_limiter in
      let (wait, limiter') = retry_after ip clock.retry clock.retried limiter in
      if not free
      then (rate_limited wait, record s { token_limiter = limiter' })
      else token_with_body body ip draws clock sig (record s { token_limiter = limiter })
