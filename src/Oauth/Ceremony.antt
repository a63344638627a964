-- ===== src/Oauth/Ceremony.antt =====
-- An approval by passkey on the authorize page of __main__.py.
use beacon_mcp.Base.{
  ℕ, String, ◌≡◌, refl, ap, subst, sym, eq_of_true, ◌∙◌, inl, inr, Option, none, some, Result, ok,
  err, arith, Option-cases, Bool-cases, string_has_eq, ◌==◌,
}
use beacon_mcp.Auth.Clients.Types.{FileSig}
use beacon_mcp.Dashboard.Passkeys.{PasskeyRecord}
use beacon_mcp.Dashboard.Passkeys.Service.{PasskeyError, Credential, verify_authentication}
use beacon_mcp.Oauth.{AuthorizeParams, ParamError, validate_authorize_params, issue_pending}
use beacon_mcp.Oauth.Server.{External, Server, approved, seed_owner}
use beacon_mcp.Oauth.Authorize.{Readings, authorize_approved, known_client}
use beacon_mcp.Oauth.Passkey as Passkey
use beacon_mcp.Oauth.Passkey.{
  PasskeyRequest, CeremonyReadings, passkey_guard, after_passkey, try_passkey, verify_params,
  unless_blocked, passkey_verify,
}
use beacon_mcp.Oauth.Vetted.{validate-IsVetted}
use beacon_mcp.Oauth.Approved.{Untouched, Decides, known_client-Untouched}

module _ (external : External) where
  open external use {urlparse, allowed_origins, webauthn}

  after_passkey-Decides :
      (result : Result PasskeyError PasskeyRecord) (p : AuthorizeParams) (ip ticket : String)
      (clock : Readings) (s0 s : Server)
      → Untouched s0 s
      → Decides p ticket clock s0 (after_passkey result p ip ticket clock s)
  unfolding after_passkey authorize_approved
  after_passkey-Decides (err e) p ip ticket clock s0 s same = (same.1, inl same.0)
  after_passkey-Decides (ok r) p ip ticket clock s0 s same =
      elim (Bool-cases (r.client_id == seed_owner p.client_id s.clients)) [
        | inr foreign ↦ rw foreign (same.1, inl same.0)
        | inl own ↦
            rw own (same.1, inr (refl, ap (issue_pending p ticket clock.prune clock.issue) same.0))
      ]

  try_passkey-Decides :
      (credential : Option Credential) (request : PasskeyRequest) (p : AuthorizeParams)
      (ticket : String) (clock : Readings) (ceremony : CeremonyReadings) (s0 s : Server)
      → Untouched s0 s
      → Decides p ticket clock s0
          (try_passkey external credential request p ticket clock ceremony s)
  unfolding try_passkey
  try_passkey-Decides none request p ticket clock ceremony s0 s same = (same.1, inl same.0)
  try_passkey-Decides (some credential) request p ticket clock ceremony s0 s same =
      let (result, passkeys) =
        verify_authentication webauthn request.site request.state credential ceremony.prune
          ceremony.expiry ceremony.touched ceremony.used s.passkeys in
      elim (Bool-cases (request.state == "")) [
        | inl empty ↦ rw empty (same.1, inl same.0)
        | inr given ↦ rw given (
            after_passkey-Decides result p request.ip ticket clock s0
              (record s { passkeys = passkeys }) same)
      ]

  passkey_validation-Decides :
      (checked : Result ParamError AuthorizeParams) (request : PasskeyRequest) (p : AuthorizeParams)
      (ticket : String) (clock : Readings) (ceremony : CeremonyReadings) (s0 s : Server)
      → ((q : AuthorizeParams) → checked ≡ ok q → q ≡ p)
      → Untouched s0 s
      → Decides p ticket clock s0
          (Passkey.after_validation external checked request ticket clock ceremony s)
  unfolding Passkey.after_validation
  passkey_validation-Decides (err e) request p ticket clock ceremony s0 s own same =
      (same.1, inl same.0)
  passkey_validation-Decides (ok q) request p ticket clock ceremony s0 s own same =
      subst
        (λ r.
          Decides r ticket clock s0
            (try_passkey external request.credential request q ticket clock ceremony s))
        (own q refl)
        (try_passkey-Decides request.credential request q ticket clock ceremony s0 s same)

  passkey_guard-Untouched :
      (ip : String) (clock : Readings) (s : Server) → Untouched s (passkey_guard ip clock s).1
  unfolding passkey_guard
  passkey_guard-Untouched ip clock s = ground arith

  verify_params-Decides :
      (request : PasskeyRequest) (p : AuthorizeParams) (ticket : String) (clock : Readings)
      (ceremony : CeremonyReadings) (sig : FileSig) (s0 s : Server)
      → Untouched s0 s
      → Decides p ticket clock s0
          (verify_params external (some p) request ticket clock ceremony sig s)
  unfolding verify_params
  verify_params-Decides request p ticket clock ceremony sig s0 s same =
      let (known, s') = known_client external p sig s in
      let same' = known_client-Untouched external p sig s in
      passkey_validation-Decides (validate_authorize_params urlparse allowed_origins p known)
        request p ticket clock ceremony s0 s'
        (λ q h. (validate-IsVetted urlparse allowed_origins p q known h).0)
        (same'.0 ∙ same.0, same'.1 ∙ same.1)

  -- `passkey_verify` changes the approvals by an approval for the parameters of its body, and no codes.
  pub passkey_verify-Decides :
      (request : PasskeyRequest) (p : AuthorizeParams) (ticket : String) (clock : Readings)
      (ceremony : CeremonyReadings) (sig : FileSig) (s : Server)
      → request.params ≡ some p
      → Decides p ticket clock s (passkey_verify external request ticket clock ceremony sig s)
  unfolding passkey_verify
  passkey_verify-Decides request p ticket clock ceremony sig s has =
      let (blocked, s') = passkey_guard request.ip clock s in
      let same = passkey_guard-Untouched request.ip clock s in
      elim (Option-cases blocked) [
        | inr (r, stop) ↦ rw (stop, unless_blocked) (same.1, inl same.0)
        | inl go ↦
            rw (go, unless_blocked)
              (subst
                (λ o.
                  Decides p ticket clock s
                    (verify_params external o request ticket clock ceremony sig s'))
                (sym has) (verify_params-Decides request p ticket clock ceremony sig s s' same))
      ]

  pub passkey_verify-none :
      (request : PasskeyRequest) (ticket : String) (clock : Readings) (ceremony : CeremonyReadings)
      (sig : FileSig) (s : Server)
      → request.params ≡ none
      → Untouched s (passkey_verify external request ticket clock ceremony sig s).1
  unfolding passkey_verify
  passkey_verify-none request ticket clock ceremony sig s has =
      let (blocked, s') = passkey_guard request.ip clock s in
      let same = passkey_guard-Untouched request.ip clock s in
      elim (Option-cases blocked) [
        | inr (r, stop) ↦ rw (stop, unless_blocked) same
        | inl go ↦
            rw (go, unless_blocked)
              (subst
                (λ o. Untouched s (verify_params external o request ticket clock ceremony sig s').1)
                (sym has) (unfold verify_params in same))
      ]

  after_passkey-approved :
      (result : Result PasskeyError PasskeyRecord) (p : AuthorizeParams) (ip ticket k : String)
      (e : ℕ) (clock : Readings) (s : Server)
      → (after_passkey result p ip ticket clock s).0 ≡ approved k e
      → (r : PasskeyRecord) × (result ≡ ok r) × (r.client_id ≡ seed_owner p.client_id s.clients)
  unfolding after_passkey
  after_passkey-approved (err e') p ip ticket k e clock s h = cc
  after_passkey-approved (ok r) p ip ticket k e clock s h =
      (r, refl, eq_of_true r.client_id (seed_owner p.client_id s.clients) (ground arith))

  -- An approval by passkey: the ceremony succeeded with a passkey of the client's seed owner.
  pub try_passkey-approved :
      (credential : Option Credential) (request : PasskeyRequest) (p : AuthorizeParams)
      (ticket k : String) (e : ℕ) (clock : Readings) (ceremony : CeremonyReadings) (s : Server)
      → (try_passkey external credential request p ticket clock ceremony s).0 ≡ approved k e
      → (c : Credential) × (r : PasskeyRecord) × (credential ≡ some c)
        × ((verify_authentication webauthn request.site request.state c ceremony.prune
              ceremony.expiry ceremony.touched ceremony.used s.passkeys).0
            ≡ ok r)
        × (r.client_id ≡ seed_owner p.client_id s.clients)
  unfolding try_passkey
  try_passkey-approved none request p ticket k e clock ceremony s h = cc
  try_passkey-approved (some c) request p ticket k e clock ceremony s h =
      let (result, passkeys) =
        verify_authentication webauthn request.site request.state c ceremony.prune ceremony.expiry
          ceremony.touched ceremony.used s.passkeys in
      let (r, good, own) =
        after_passkey-approved result p request.ip ticket k e clock
          (record s { passkeys = passkeys }) (ground arith) in
      (c, r, refl, good, own)
