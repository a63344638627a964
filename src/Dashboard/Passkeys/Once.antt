-- ===== src/Dashboard/Passkeys/Once.antt =====
-- The challenges of dashboard/passkeys.py, over runs of calls.
use beacon_mcp.Base.{
  ℕ, ◌+◌, String, ◌≡◌, ◌≢◌, true, not, Option, none, ok, arith, ltb, string_has_eq, eq_refl,
  is_some,
}
use beacon_mcp.Base.Dict.{lookup, lookup-insert, lookup-erase, lookup-retain-none}
use beacon_mcp.Clock.{seconds}
use text.Mathlib.TextEquality.{eq_iff}
use beacon_mcp.Dashboard.Passkeys.{
  PasskeyRecord, Challenge, ChallengeStore, Purpose, register, authenticate, issue, consume, prune,
  challenge_ttl,
}
use beacon_mcp.Dashboard.Passkeys.Service.{
  WebAuthn, Site, Credential, PasskeyService, require, registration_options, authentication_options,
  verify_registration, verify_authentication, authenticate_credential,
}

-- The state that a prompt was given is gone.
abbrev pub IsSpent : String → ChallengeStore → Type 0
IsSpent state items = lookup state items ≡ none

consume-IsSpent :
    (state : String) (purpose : Purpose) (t0 t1 : ℕ) (items : ChallengeStore)
    → IsSpent state (consume state purpose t0 t1 items).1
unfolding consume
consume-IsSpent state purpose t0 t1 items =
    ground (arith, lookup-erase state state (prune t0 items), eq_refl {A = String} state)

consume_keeps-IsSpent :
    (state other : String) (purpose : Purpose) (t0 t1 : ℕ) (items : ChallengeStore)
    → IsSpent state items
    → IsSpent state (consume other purpose t0 t1 items).1
unfolding consume prune
consume_keeps-IsSpent state other purpose t0 t1 items h = ground (
  arith,
  lookup-erase other state (prune t0 items),
  lookup-retain-none state (λ (c : Challenge). not (ltb c.expires_at t0)) items h,
)

issue-IsSpent :
    (state other : String) (purpose : Purpose) (challenge client : String) (session : Option String)
    (t0 t1 : ℕ) (items : ChallengeStore)
    → other ≢ state
    → IsSpent state items
    → IsSpent state (issue purpose challenge client session other t0 t1 items).1
unfolding issue prune
issue-IsSpent state other purpose challenge client session t0 t1 items fresh h =
    let c : Challenge = record {
      purpose = purpose;
      challenge = challenge;
      client_id = client;
      session_id = session;
      expires_at = t1 + seconds challenge_ttl;
    } in
    ground (
      arith,
      lookup-insert other state c (prune t0 items),
      eq_iff other state,
      lookup-retain-none state (λ (c : Challenge). not (ltb c.expires_at t0)) items h,
    )

module _ (webauthn : WebAuthn) where
  -- A call of the service that draws no `state`.
  pub data Call (state : String) : PasskeyService → PasskeyService → Type 0 where
    offers_registration :
        (site : Site) (client : String) (session : Option String) (challenge other : String)
        (t0 t1 : ℕ) (s : PasskeyService)
        → other ≢ state
        → Call state s (registration_options site client session challenge other t0 t1 s).1
    offers_sign_in :
        (site : Site) (client challenge other : String) (t0 t1 : ℕ) (s : PasskeyService)
        → other ≢ state
        → Call state s (authentication_options site client challenge other t0 t1 s).1
    registers :
        (site : Site) (other : String) (credential : Credential) (label : String)
        (session : Option String) (t0 t1 now : ℕ) (s : PasskeyService)
        → Call state s
            (verify_registration webauthn site other credential label session t0 t1 now s).1
    signs_in :
        (site : Site) (other : String) (credential : Credential) (t0 t1 t2 t3 : ℕ)
        (s : PasskeyService)
        → Call state s (verify_authentication webauthn site other credential t0 t1 t2 t3 s).1

  pub data Calls (state : String) (s : PasskeyService) : PasskeyService → Type 0 where
    none_yet : Calls state s s
    then_call : {t u : PasskeyService} → Calls state s t → Call state t u → Calls state s u

  Call-IsSpent :
      (state : String) {s t : PasskeyService}
      → Call state s t
      → IsSpent state s.challenges
      → IsSpent state t.challenges
  unfolding registration_options authentication_options verify_registration verify_authentication
      require
  Call-IsSpent state (offers_registration site client session challenge other t0 t1 s fresh) h =
      ground (
        arith,
        issue-IsSpent state other register challenge client session t0 t1 s.challenges fresh h,
      )
  Call-IsSpent state (offers_sign_in site client challenge other t0 t1 s fresh) h = ground (
    arith,
    issue-IsSpent state other authenticate challenge client none t0 t1 s.challenges fresh h,
  )
  Call-IsSpent state (registers site other credential label session t0 t1 now s) h =
      ground (arith, consume_keeps-IsSpent state other register t0 t1 s.challenges h)
  Call-IsSpent state (signs_in site other credential t0 t1 t2 t3 s) h =
      ground (arith, consume_keeps-IsSpent state other authenticate t0 t1 s.challenges h)

  Calls-IsSpent :
      (state : String) {s t : PasskeyService}
      → IsSpent state s.challenges
      → Calls state s t
      → IsSpent state t.challenges
  Calls-IsSpent state h none_yet = h
  Calls-IsSpent state h (then_call run c) = Call-IsSpent state c (Calls-IsSpent state h run)

  verify_authentication-spent :
      (site : Site) (state : String) (credential : Credential) (t0 t1 t2 t3 : ℕ)
      (s : PasskeyService) (r : PasskeyRecord)
      → IsSpent state s.challenges
      → (verify_authentication webauthn site state credential t0 t1 t2 t3 s).0 ≢ ok r
  unfolding verify_authentication require consume prune authenticate_credential
  verify_authentication-spent site state credential t0 t1 t2 t3 s r h e = ground (
    arith,
    lookup-retain-none state (λ (c : Challenge). not (ltb c.expires_at t0)) s.challenges h,
  )

  -- Where passkeys are available, the state of a sign-in by passkey is spent however it ends:
  -- whatever calls follow that do not draw that state again, no later sign-in with it succeeds.
  pub sign_in-once :
      (site site' : Site) (state : String) (credential credential' : Credential)
      (t0 t1 t2 t3 u0 u1 u2 u3 : ℕ) (s t : PasskeyService) (r : PasskeyRecord)
      → s.installed ≡ true
      → is_some s.store ≡ true
      → Calls state (verify_authentication webauthn site state credential t0 t1 t2 t3 s).1 t
      → (verify_authentication webauthn site' state credential' u0 u1 u2 u3 t).0 ≢ ok r
  unfolding verify_authentication require
  sign_in-once site site' state credential credential' t0 t1 t2 t3 u0 u1 u2 u3 s t r on there run =
      verify_authentication-spent site' state credential' u0 u1 u2 u3 t r (
        Calls-IsSpent state
          (ground (arith, consume-IsSpent state authenticate t0 t1 s.challenges, on, there)) run)
