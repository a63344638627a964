-- ===== src/Dashboard/Passkeys/Count.antt =====
-- How many passkeys a client of dashboard/passkeys.py has after a registration.
use beacon_mcp.Base.{
  ℕ, ◌+◌, ◌≤◌, String, ◌≡◌, ◌≢◌, Bool, Option, none, some, ok, arith, inl, inr, Option-cases,
  string_has_eq, ◌∷◌, [], if◌then◌else◌, eq_refl,
}
use beacon_mcp.Base.Dict.{Dict, lookup, insert, contains, count, IsDict}
use beacon_mcp.Dashboard.Passkeys.{
  PasskeyRecord, PasskeyStore, Challenge, register, consume, add, is_of, count_for_client,
}
use beacon_mcp.Dashboard.Passkeys.Service.{
  WebAuthn, Site, Credential, PasskeyService, expected, require, register_credential,
  verify_registration,
}
use beacon_mcp.Dashboard.Passkeys.Bound.{consume-some}

count-insert_fresh :
    (p : PasskeyRecord → Bool) (k : String) (r : PasskeyRecord) (d : Dict String PasskeyRecord)
    → lookup k d ≡ none
    → count p (insert k r d) ≡ count p d + (if p r then 1 else 0)
unfolding count insert lookup
count-insert_fresh p k r [] h = ground arith
count-insert_fresh p k r ((j, w) ∷ d) h = ground (arith, count-insert_fresh p k r d)

module _ (webauthn : WebAuthn) where
  register_credential-counts :
      (c : Challenge) (site : Site) (credential : Credential) (label : String)
      (session : Option String) (now : ℕ) (table : PasskeyStore) (r : PasskeyRecord)
      → let done = register_credential webauthn (some c) site credential label session now table in
        done.0 ≡ ok r
        → (r.client_id ≡ c.client_id)
          × (count_for_client c.client_id done.1 ≡ count_for_client c.client_id table + 1)
  unfolding register_credential add count_for_client contains
  register_credential-counts c site credential label session now table r h =
      let answer =
        webauthn.verify_registration_response credential.response (expected c.challenge site) in
      elim (Option-cases answer) [
        | inl bad ↦ absurd (ground (arith, bad))
        | inr (v, good) ↦
            let fresh : lookup v.credential_id table ≡ none =
              elim (Option-cases (lookup v.credential_id table)) [
                | inl free ↦ free
                | inr (old, there) ↦ absurd (ground (arith, good, there))
              ] in
            let entry : PasskeyRecord = record {
              credential_id = v.credential_id;
              client_id = c.client_id;
              public_key = v.credential_public_key;
              sign_count = v.sign_count;
              transports = credential.transports;
              label = label;
              created_at = now;
              last_used_at = none;
              backed_up = v.credential_backed_up;
            } in
            (
              ground (arith, good, fresh),
              ground (
                arith,
                good,
                fresh,
                count-insert_fresh (is_of c.client_id) v.credential_id entry table,
                eq_refl {A = String} c.client_id,
              ),
            )
      ]

  register_credential-none :
      (site : Site) (credential : Credential) (label : String) (session : Option String) (now : ℕ)
      (table : PasskeyStore) (r : PasskeyRecord)
      → (register_credential webauthn none site credential label session now table).0 ≢ ok r
  unfolding register_credential
  register_credential-none site credential label session now table r h = cc

  -- With no state twice among the challenges, a registration that succeeds answers an unexpired
  -- challenge issued for it and gives the client of the challenge one passkey more, however many
  -- it has.
  pub verify_registration-counts :
      (site : Site) (state : String) (credential : Credential) (label : String)
      (session : Option String) (t0 t1 now : ℕ) (s : PasskeyService) (r : PasskeyRecord)
      → IsDict s.challenges
      → (verify_registration webauthn site state credential label session t0 t1 now s).0 ≡ ok r
      → let done =
          (verify_registration webauthn site state credential label session t0 t1 now s).1 in
        (c : Challenge) × (table : PasskeyStore) × (table' : PasskeyStore) × (lookup state
            s.challenges
          ≡ some c)
        × (c.purpose ≡ register)
        × (t1 ≤ c.expires_at)
        × (r.client_id ≡ c.client_id)
        × (s.store ≡ some table)
        × (done.store ≡ some table')
        × (count_for_client c.client_id table' ≡ count_for_client c.client_id table + 1)
  unfolding verify_registration require
  verify_registration-counts site state credential label session t0 t1 now s r d h =
      elim (Option-cases s.store) [
        | inl missing ↦ absurd (ground (arith, missing))
        | inr (table, there) ↦ elim (Option-cases (consume state register t0 t1 s.challenges).0) [
          | inl gone ↦ absurd (
              ground (
                arith,
                there,
                gone,
                register_credential-none site credential label session now table r,
              ))
          | inr (c, pending) ↦
              let (found, purpose, early, live) =
                consume-some state register t0 t1 s.challenges c d pending in
              let table' =
                (register_credential webauthn (some c) site credential label session now table).1 in
              let (own, counted) =
                register_credential-counts c site credential label session now table r
                  (ground (arith, there, pending)) in
              (
                c,
                table,
                table',
                found,
                purpose,
                live,
                own,
                there,
                ground (arith, there, pending),
                counted,
              )
        ]
      ]
