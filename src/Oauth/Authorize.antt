-- ===== src/Oauth/Authorize.antt =====
-- `oauth_authorize_post` and `oauth_authorize_finalize` of __main__.py: a second factor earns a ticket,
-- and the ticket a code.
use beacon_mcp.Base.{
  ℕ, ◌+◌, String, Bool, true, false, not, ◌&&◌, Option, none, some, Result, ok, err, if◌then◌else◌,
  ◌==◌, string_has_eq,
}
use beacon_mcp.Clock.{seconds}
use beacon_mcp.Auth.Clients.Types.{FileSig}
use beacon_mcp.Auth.Clients.Store.{TotpResult, valid, wrong, replay, check_totp}
use beacon_mcp.Auth.Codes as Codes
use beacon_mcp.Limits.Window.{check, retry_after}
use beacon_mcp.Limits.Lockout.{locked, record_failure, record_success}
use beacon_mcp.Oauth.{
  AuthorizeParams, ParamError, validate_authorize_params, issue_pending, consume_pending,
  pending_authorization_ttl,
}
use beacon_mcp.Oauth.Server.{
  External, Server, Refusal, Response, bad_params, refused, approved, bad_ticket, redirect,
  too_many_attempts, locked_out, replayed_code, incorrect_code, exists, seed_owner,
}

-- The readings of the clocks, in the order in which the handler takes them.
pub record Readings : Type 0 where
  pub limiter : ℕ
  pub retry : ℕ
  pub retried : ℕ
  pub lock : ℕ
  pub totp : ℕ
  pub strike : ℕ
  pub relock : ℕ
  pub prune : ℕ
  pub issue : ℕ

pub record AuthorizeRequest : Type 0 where
  pub params : AuthorizeParams
  pub totp : String
  pub ip : String

-- `_authorize_approved`
unfoldable pub authorize_approved : AuthorizeParams → String → Readings → Server → Response × Server
authorize_approved params ticket clock s = (
  approved ticket (clock.issue + seconds pending_authorization_ttl),
  record s { pending = issue_pending params ticket clock.prune clock.issue s.pending },
)

-- A code that was not accepted: the answer says whether the client is locked out by now.
unfoldable pub authorize_failed : Refusal → String → String → Readings → Server → Response × Server
authorize_failed why owner ip clock s =
    let (is_locked, lockout) = locked owner (some ip) clock.relock s.lockout in
    (refused why 401 is_locked, record s { lockout = lockout })

-- What follows the check of the code; a replayed code is no strike.
unfoldable pub after_totp :
    TotpResult → AuthorizeParams → String → String → Readings → Server → Response × Server
unfolding authorize_approved authorize_failed
after_totp valid params ip ticket clock s =
    let owner = seed_owner params.client_id s.clients in
    authorize_approved params ticket clock
      (record s { lockout = record_success owner (some ip) clock.strike s.lockout })
after_totp wrong params ip ticket clock s =
    let owner = seed_owner params.client_id s.clients in
    authorize_failed incorrect_code owner ip clock
      (record s { lockout = record_failure owner (some ip) clock.strike s.lockout })
after_totp replay params ip ticket clock s =
    authorize_failed replayed_code (seed_owner params.client_id s.clients) ip clock s

module _ (external : External) where
  open external use {totp_verify, isdigit, urlparse, allowed_origins}

  -- From the valid parameters on: the limiter of the address, the lockout, and the code.
  unfoldable pub try_totp :
      AuthorizeRequest → AuthorizeParams → String → Readings → FileSig → Server → Response × Server
  unfolding after_totp
  try_totp request params ticket clock sig s =
      let (free, limiter) = check request.ip clock.limiter s.login_limiter in
      let (wait, limiter') = retry_after request.ip clock.retry clock.retried limiter in
      let s1 = record s { login_limiter = limiter } in
      let (is_locked, lockout) =
        locked (seed_owner params.client_id s1.clients) (some request.ip) clock.lock s1.lockout in
      let s2 = record s1 { lockout = lockout } in
      let (result, world) =
        check_totp totp_verify isdigit params.client_id request.totp clock.totp sig s2.clients in
      if not free
      then (refused (too_many_attempts wait) 429 false, record s { login_limiter = limiter' })
      else if is_locked
      then (refused locked_out 429 true, s2)
      else after_totp result params request.ip ticket clock (record s2 { clients = world })

  -- What the validation of the parameters sees of the clients.
  unfoldable pub known_client : AuthorizeParams → FileSig → Server → Bool × Server
  known_client params sig s =
      if params.response_type == "code" && not (params.client_id == "")
      then exists sig params.client_id s
      else (false, s)

  unfoldable pub after_validation :
      Result ParamError AuthorizeParams
      → AuthorizeRequest
      → String
      → Readings
      → FileSig
      → Server
      → Response × Server
  unfolding try_totp
  after_validation (err e) request ticket clock sig s = (bad_params e, s)
  after_validation (ok params) request ticket clock sig s =
      try_totp request params ticket clock sig s

  -- `oauth_authorize_post`; `ticket` is the value drawn.
  unfoldable pub authorize_post :
      AuthorizeRequest → String → Readings → FileSig → Server → Response × Server
  unfolding after_validation known_client
  authorize_post request ticket clock sig s =
      let (known, s') = known_client request.params sig s in
      after_validation (validate_authorize_params urlparse allowed_origins request.params known)
        request ticket clock sig s'

-- `_authorize_redirect`: the code is minted only now. `code` is the value drawn.
unfoldable pub authorize_redirect : AuthorizeParams → String → ℕ → ℕ → Server → Response × Server
authorize_redirect params code t0 t1 s =
    let (code', codes) =
      Codes.issue params.client_id params.redirect_uri params.code_challenge
        params.code_challenge_method code t0 t1 s.codes in
    (redirect params.redirect_uri code' params.state, record s { codes = codes })

unfoldable pub finalize_with : Option AuthorizeParams → String → ℕ → ℕ → Server → Response × Server
unfolding authorize_redirect
finalize_with none code t0 t1 s = (bad_ticket, s)
finalize_with (some params) code t0 t1 s = authorize_redirect params code t0 t1 s

-- `oauth_authorize_finalize`, of the stripped ticket; `p0` and `p1` are the readings of
-- `_consume_pending`, `t0` and `t1` those of `CodeStore.issue`.
unfoldable pub authorize_finalize : String → String → ℕ → ℕ → ℕ → ℕ → Server → Response × Server
unfolding finalize_with
authorize_finalize ticket code p0 p1 t0 t1 s =
    let (params, pending) = consume_pending ticket p0 p1 s.pending in
    if ticket == ""
    then (bad_ticket, s)
    else finalize_with params code t0 t1 (record s { pending = pending })
