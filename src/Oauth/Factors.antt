-- ===== src/Oauth/Factors.antt =====
-- When a second factor is accepted on the authorize page of __main__.py, told apart from what the
-- handlers answer.
use beacon_mcp.Base.{
  ℕ, String, ◌≡◌, refl, subst, Bool, true, false, not, ◌&&◌, Option, none, some, Result, ok, err,
  arith, is_some, eq_refl, ◌≢◌, ◌==◌, string_has_eq,
}
use beacon_mcp.Auth.Clients.Types.{FileSig}
use beacon_mcp.Auth.Clients.Store.{TotpResult, valid, check_totp}
use beacon_mcp.Limits.Window.{check}
use beacon_mcp.Limits.Lockout.{locked}
use beacon_mcp.Dashboard.Passkeys.{PasskeyRecord}
use beacon_mcp.Dashboard.Passkeys.Service.{PasskeyError, Credential, verify_authentication}
use beacon_mcp.Oauth.{AuthorizeParams, ParamError, validate_authorize_params}
use beacon_mcp.Oauth.Server.{External, Server, Response, approved, seed_owner}
use beacon_mcp.Oauth.Authorize.{Readings, AuthorizeRequest, authorize_post, known_client}
use beacon_mcp.Oauth.Passkey as Passkey
use beacon_mcp.Oauth.Passkey.{
  PasskeyRequest, CeremonyReadings, passkey_guard, verify_params, unless_blocked, passkey_verify,
}
use beacon_mcp.Oauth.Vetted.{validate-IsVetted}
use beacon_mcp.Oauth.Approved.{authorize_post-approved}
use beacon_mcp.Oauth.Ceremony.{try_passkey-approved}

abbrev is_valid : TotpResult → Bool
is_valid valid = true
is_valid _ = false

abbrev owned : Result PasskeyError PasskeyRecord → String → Bool
owned (err e) owner = false
owned (ok r) owner = r.client_id == owner

module _ (external : External) where
  open external use {totp_verify, isdigit, urlparse, allowed_origins, webauthn}

  -- The request names a known client and carries a valid code of its seed, while the address is within
  -- its limit and the client is not locked out for it.
  abbrev pub totp_accepted : AuthorizeRequest → Readings → FileSig → Server → Bool
  totp_accepted request clock sig s =
      let p = request.params in
      let (known, s') = known_client external p sig s in
      let owner = seed_owner p.client_id s'.clients in
      known
      && (check request.ip clock.limiter s'.login_limiter).0
      && not (locked owner (some request.ip) clock.lock s'.lockout).0
      && is_valid
          (check_totp totp_verify isdigit p.client_id request.totp clock.totp sig s'.clients).0

  -- The ceremony succeeds with a passkey of the client's seed owner.
  abbrev proven : Option Credential → PasskeyRequest → String → CeremonyReadings → Server → Bool
  proven none request client_id ceremony s = false
  proven (some credential) request client_id ceremony s =
      owned
        (verify_authentication webauthn request.site request.state credential ceremony.prune
          ceremony.expiry ceremony.touched ceremony.used s.passkeys).0
        (seed_owner client_id s.clients)

  abbrev proven_for :
      Option AuthorizeParams → PasskeyRequest → CeremonyReadings → FileSig → Server → Bool
  proven_for none request ceremony sig s = false
  proven_for (some p) request ceremony sig s =
      let (known, s') = known_client external p sig s in
      known && proven request.credential request p.client_id ceremony s'

  -- The guard lets the request through, it names a known client, and the ceremony succeeds with a
  -- passkey of the client's seed owner.
  abbrev pub passkey_accepted :
      PasskeyRequest → Readings → CeremonyReadings → FileSig → Server → Bool
  passkey_accepted request clock ceremony sig s =
      let (blocked, s') = passkey_guard request.ip clock s in
      not (is_some blocked) && proven_for request.params request ceremony sig s'

  pub authorize_post-accepted :
      (request : AuthorizeRequest) (ticket k : String) (e : ℕ) (clock : Readings) (sig : FileSig)
      (s : Server)
      → (authorize_post external request ticket clock sig s).0 ≡ approved k e
      → totp_accepted request clock sig s ≡ true
  authorize_post-accepted request ticket k e clock sig s h =
      let (there, vetted, (free, unlocked, fits)) =
        authorize_post-approved external request ticket k e clock sig s h in
      rw (there, free, unlocked, fits) refl

  try_passkey-proven :
      (credential : Option Credential) (request : PasskeyRequest) (p : AuthorizeParams)
      (ticket k : String) (e : ℕ) (clock : Readings) (ceremony : CeremonyReadings) (s : Server)
      → (Passkey.try_passkey external credential request p ticket clock ceremony s).0 ≡ approved k e
      → proven credential request p.client_id ceremony s ≡ true
  try_passkey-proven credential request p ticket k e clock ceremony s h =
      let (c, r, given, good, own) =
        try_passkey-approved external credential request p ticket k e clock ceremony s h in
      rw (given, good, own) (eq_refl (seed_owner p.client_id s.clients))

  after_validation-proven :
      (checked : Result ParamError AuthorizeParams) (request : PasskeyRequest) (ticket k : String)
      (e : ℕ) (clock : Readings) (ceremony : CeremonyReadings) (s : Server)
      → (Passkey.after_validation external checked request ticket clock ceremony s).0 ≡ approved k e
      → (p : AuthorizeParams) × (checked ≡ ok p)
        × (proven request.credential request p.client_id ceremony s ≡ true)
  unfolding Passkey.after_validation
  after_validation-proven (err e') request ticket k e clock ceremony s h = cc
  after_validation-proven (ok p) request ticket k e clock ceremony s h =
      (p, refl, try_passkey-proven request.credential request p ticket k e clock ceremony s h)

  verify_params-proven :
      (o : Option AuthorizeParams) (request : PasskeyRequest) (ticket k : String) (e : ℕ)
      (clock : Readings) (ceremony : CeremonyReadings) (sig : FileSig) (s : Server)
      → (verify_params external o request ticket clock ceremony sig s).0 ≡ approved k e
      → proven_for o request ceremony sig s ≡ true
  unfolding verify_params
  verify_params-proven none request ticket k e clock ceremony sig s h = cc
  verify_params-proven (some p) request ticket k e clock ceremony sig s h =
      let (known, s') = known_client external p sig s in
      let (q, good, proof) =
        after_validation-proven (validate_authorize_params urlparse allowed_origins p known) request
          ticket k e clock ceremony s' h in
      let (own, there, named, vetted) = validate-IsVetted urlparse allowed_origins p q known good in
      rw there
        (subst (λ r. proven request.credential request r.client_id ceremony s' ≡ true) own proof)

  unless_blocked-proven :
      (blocked : Option Response) (request : PasskeyRequest) (ticket k : String) (e : ℕ)
      (clock : Readings) (ceremony : CeremonyReadings) (sig : FileSig) (s : Server)
      → ((r : Response) → blocked ≡ some r → r ≢ approved k e)
      → (unless_blocked external blocked request ticket clock ceremony sig s).0 ≡ approved k e
      → not (is_some blocked) && proven_for request.params request ceremony sig s ≡ true
  unfolding unless_blocked
  unless_blocked-proven (some r) request ticket k e clock ceremony sig s other h =
      absurd (other r refl h)
  unless_blocked-proven none request ticket k e clock ceremony sig s other h =
      verify_params-proven request.params request ticket k e clock ceremony sig s h

  not-passkey_guard-approved :
      (ip k : String) (e : ℕ) (clock : Readings) (s : Server) (r : Response)
      → (passkey_guard ip clock s).0 ≡ some r
      → r ≢ approved k e
  unfolding passkey_guard
  not-passkey_guard-approved ip k e clock s r h g = ground arith

  pub passkey_verify-accepted :
      (request : PasskeyRequest) (ticket k : String) (e : ℕ) (clock : Readings)
      (ceremony : CeremonyReadings) (sig : FileSig) (s : Server)
      → (passkey_verify external request ticket clock ceremony sig s).0 ≡ approved k e
      → passkey_accepted request clock ceremony sig s ≡ true
  unfolding passkey_verify
  passkey_verify-accepted request ticket k e clock ceremony sig s h =
      let (blocked, s') = passkey_guard request.ip clock s in
      unless_blocked-proven blocked request ticket k e clock ceremony sig s'
        (not-passkey_guard-approved request.ip k e clock s) h
