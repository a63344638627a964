-- ===== src/Dashboard/Passkeys/Bound.antt =====
-- What a passkey sign-in of dashboard/passkeys.py vouches for.
use beacon_mcp.Base.{
  ℕ, ◌≤◌, String, ◌≡◌, refl, true, not, Option, none, some, ok, arith, inl, inr, Option-cases,
  Bool-cases, ltb, string_has_eq, eq_of_true, ◌==◌,
}
use beacon_mcp.Base.Dict.{lookup, IsDict, lookup-retain}
use beacon_mcp.Dashboard.Passkeys.{
  PasskeyRecord, PasskeyStore, Challenge, ChallengeStore, Purpose, register, authenticate,
  same_purpose, consume, prune,
}
use beacon_mcp.Dashboard.Passkeys.Service.{
  WebAuthn, Site, Credential, PasskeyService, credential_id, expected, require, accept_assertion,
  answer_challenge, authenticate_credential, verify_authentication,
}

same_purpose-true : (p q : Purpose) → same_purpose p q ≡ true → p ≡ q
same_purpose-true register register h = refl
same_purpose-true authenticate authenticate h = refl
same_purpose-true register authenticate h = cc
same_purpose-true authenticate register h = cc

-- A challenge that `consume` hands out was issued for the purpose and has not expired.
pub consume-some :
    (state : String) (purpose : Purpose) (t0 t1 : ℕ) (items : ChallengeStore) (c : Challenge)
    → IsDict items
    → (consume state purpose t0 t1 items).0 ≡ some c
    → (lookup state items ≡ some c)
      × (c.purpose ≡ purpose)
      × (t0 ≤ c.expires_at)
      × (t1 ≤ c.expires_at)
unfolding consume prune
consume-some state purpose t0 t1 items c d h =
    let found = lookup-retain state (λ (i : Challenge). not (ltb i.expires_at t0)) items d in
    (
      ground (arith, found),
      same_purpose-true c.purpose purpose (ground (arith, found)),
      ground (arith, found),
      ground (arith, found),
    )

module _ (webauthn : WebAuthn) where
  open webauthn use {verify_authentication_response}

  -- The record that answered the challenge `c`, as the table had it before.
  pub record Signed (c : Challenge) (site : Site) (credential : Credential) (table : PasskeyStore)
      (r : PasskeyRecord) : Type 0 where
    pub old : PasskeyRecord
    pub id : String
    pub named : credential_id credential ≡ some id
    pub stored : lookup id table ≡ some old
    pub own : old.client_id ≡ c.client_id
    pub signed :
        verify_authentication_response credential.response
          (expected c.challenge site)
          old.public_key
          old.sign_count
        ≡ some r.sign_count
    pub same_client : r.client_id ≡ old.client_id

  accept_assertion-ok :
      (answer : Option ℕ) (old r : PasskeyRecord) (t2 t3 : ℕ) (table : PasskeyStore)
      → (accept_assertion webauthn answer old t2 t3 table).0 ≡ ok r
      → (answer ≡ some r.sign_count) × (r.client_id ≡ old.client_id)
  unfolding accept_assertion
  accept_assertion-ok none old r t2 t3 table h = cc
  accept_assertion-ok (some n) old r t2 t3 table h = ground arith

  answer_challenge-ok :
      (id : Option String) (c : Challenge) (site : Site) (credential : Credential) (t2 t3 : ℕ)
      (table : PasskeyStore) (r : PasskeyRecord)
      → credential_id credential ≡ id
      → (answer_challenge webauthn id c site credential t2 t3 table).0 ≡ ok r
      → Signed c site credential table r
  unfolding answer_challenge
  answer_challenge-ok none c site credential t2 t3 table r named h = cc
  answer_challenge-ok (some id) c site credential t2 t3 table r named h =
      elim (Option-cases (lookup id table)) [
        | inl missing ↦ absurd (ground (arith, missing))
        | inr (old, there) ↦ elim (Bool-cases (old.client_id == c.client_id)) [
          | inr foreign ↦ absurd (ground (arith, there, foreign))
          | inl own ↦
              let answer =
                verify_authentication_response credential.response (expected c.challenge site)
                  old.public_key old.sign_count in
              let (signed, same) =
                accept_assertion-ok answer old r t2 t3 table (ground (arith, there, own)) in
              record {
                old = old;
                id = id;
                named = named;
                stored = there;
                own = eq_of_true old.client_id c.client_id own;
                signed = signed;
                same_client = same;
              }
        ]
      ]

  -- With no state twice among the challenges, a sign-in that succeeds answered a challenge that
  -- the service issued for signing in and that has not expired, with a stored passkey of the
  -- challenge's own client, whose public key and counter the library accepted the response for.
  pub verify_authentication-Signed :
      (site : Site) (state : String) (credential : Credential) (t0 t1 t2 t3 : ℕ)
      (s : PasskeyService) (r : PasskeyRecord)
      → IsDict s.challenges
      → (verify_authentication webauthn site state credential t0 t1 t2 t3 s).0 ≡ ok r
      → (table : PasskeyStore) × (c : Challenge) × (s.store ≡ some table)
        × (lookup state s.challenges ≡ some c)
        × (c.purpose ≡ authenticate)
        × (t1 ≤ c.expires_at)
        × Signed c site credential table r
  unfolding verify_authentication require authenticate_credential
  verify_authentication-Signed site state credential t0 t1 t2 t3 s r d h =
      elim (Option-cases s.store) [
        | inl missing ↦ absurd (ground (arith, missing))
        | inr (table, there) ↦
            elim (Option-cases (consume state authenticate t0 t1 s.challenges).0) [
              | inl gone ↦ absurd (ground (arith, there, gone))
              | inr (c, pending) ↦
                  let (found, purpose, early, live) =
                    consume-some state authenticate t0 t1 s.challenges c d pending in
                  (
                    table,
                    c,
                    there,
                    found,
                    purpose,
                    live,
                    answer_challenge-ok (credential_id credential) c site credential t2 t3 table r
                        refl (ground (arith, there, pending)),
                  )
            ]
      ]
