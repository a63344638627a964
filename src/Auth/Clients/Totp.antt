-- ===== src/Auth/Clients/Totp.antt =====
-- Sequences of second factors submitted to `check_totp` of `ClientStore`.
use beacon_mcp.Base.{
  ℕ, ◌+◌, ◌≤◌, ◌<◌, String, ◌≡◌, ◌≢◌, refl, ap, ◌∙◌, Bool, none, some, List, [], ◌∷◌, arith,
  string_has_eq, inl, inr, Option-cases, eq_refl, eq_of_true,
}
use native.Mathlib.Nat.{le_refl, le_trans}
use beacon_mcp.Base.Dict.{lookup, lookup-insert}
use beacon_mcp.Auth.Clients.Types.{ClientStore}
use beacon_mcp.Auth.Clients.Store.{
  TotpResult, valid, replay, seed_of, matched_step, spend_step, check_code,
}

-- One submission of a code by a client.
pub record Attempt : Type 0 where
  pub client_id : String
  pub code : String
  pub time : ℕ

-- The least time step that a key still has to spend.
abbrev pub next_step : String → ClientStore → ℕ
next_step key s = elim (lookup key s.last_totp_step) [ none ↦ 0 | some l ↦ l + 1 ]

spend_step-next_step :
    (key key' : String) (step : ℕ) (s : ClientStore)
    → next_step key s ≤ next_step key (spend_step key' step s).1
unfolding spend_step
spend_step-next_step key key' step s = ground (
  arith,
  lookup-insert key' key step s.last_totp_step,
  eq_of_true {A = String} key' key,
  ap (λ k. lookup k s.last_totp_step) {x = key'} {y = key},
)

spend_step-clients :
    (key : String) (step : ℕ) (s : ClientStore) → (spend_step key step s).1.clients ≡ s.clients
unfolding spend_step
spend_step-clients key step s = ground arith

-- A step is spent exactly if it is new, and then no step up to it is new any more.
spend_step_iff :
    (key : String) (step : ℕ) (s : ClientStore)
    → ((spend_step key step s).0 ≡ valid → step < next_step key (spend_step key step s).1)
      × (step < next_step key s → spend_step key step s ≡ (replay, s))
unfolding spend_step
spend_step_iff key step s = (
  λ h. ground (arith, lookup-insert key key step s.last_totp_step, eq_refl {A = String} key),
  λ h. ground arith,
)

module _ (totp_verify : String → String → ℕ → Bool) (isdigit : String → Bool) where
  abbrev submit : Attempt → ClientStore → TotpResult × ClientStore
  submit a s = check_code totp_verify isdigit a.client_id a.code a.time s

  submit-next_step :
      (key : String) (a : Attempt) (s : ClientStore)
      → next_step key s ≤ next_step key (submit a s).1
  unfolding check_code
  submit-next_step key a s = elim (Option-cases (seed_of a.client_id s.clients)) [
    | inl unknown ↦ ground (arith, unknown)
    | inr ((seed, k), known) ↦
        elim (Option-cases (matched_step totp_verify isdigit seed a.code a.time)) [
          | inl no_match ↦ ground (arith, known, no_match)
          | inr (step, match) ↦ ground (arith, known, match, spend_step-next_step key k step s)
        ]
  ]

  submit-clients : (a : Attempt) (s : ClientStore) → (submit a s).1.clients ≡ s.clients
  unfolding check_code
  submit-clients a s = elim (Option-cases (seed_of a.client_id s.clients)) [
    | inl unknown ↦ ground (arith, unknown)
    | inr ((seed, k), known) ↦
        elim (Option-cases (matched_step totp_verify isdigit seed a.code a.time)) [
          | inl no_match ↦ ground (arith, known, no_match)
          | inr (step, match) ↦ ground (arith, known, match, spend_step-clients k step s)
        ]
  ]

  -- Every attempt in turn.
  pub attempts : List Attempt → ClientStore → ClientStore
  attempts [] s = s
  attempts (a ∷ rest) s = attempts rest (submit a s).1

  attempts-next_step :
      (key : String) (as' : List Attempt) (s : ClientStore)
      → next_step key s ≤ next_step key (attempts as' s)
  unfolding attempts
  attempts-next_step key [] s = le_refl _
  attempts-next_step key (a ∷ rest) s =
      le_trans (submit-next_step key a s) (attempts-next_step key rest (submit a s).1)

  attempts-clients : (as' : List Attempt) (s : ClientStore) → (attempts as' s).clients ≡ s.clients
  unfolding attempts
  attempts-clients [] s = refl
  attempts-clients (a ∷ rest) s = attempts-clients rest (submit a s).1 ∙ submit-clients a s

  submit-accepted :
      (a : Attempt) (s : ClientStore) (seed key : String) (step : ℕ)
      → seed_of a.client_id s.clients ≡ some (seed, key)
      → matched_step totp_verify isdigit seed a.code a.time ≡ some step
      → (submit a s).0 ≡ valid
      → step < next_step key (submit a s).1
  unfolding check_code
  submit-accepted a s seed key step known match accepted =
      ground (arith, known, match, (spend_step_iff key step s).0)

  submit-old :
      (a : Attempt) (s : ClientStore) (seed key : String) (step : ℕ)
      → seed_of a.client_id s.clients ≡ some (seed, key)
      → matched_step totp_verify isdigit seed a.code a.time ≡ some step
      → step < next_step key s
      → (submit a s).0 ≢ valid
  unfolding check_code
  submit-old a s seed key step known match old =
      ground (arith, known, match, (spend_step_iff key step s).1 old)

  -- A code was accepted for a client at the time step `step` of its seed. Whatever is submitted in
  -- between, a code that matches `step` or an earlier one is never accepted again for that seed,
  -- through whichever client that shares it.
  pub totp-no_replay :
      (a b : Attempt) (between : List Attempt) (s : ClientStore) (seed key : String)
      (step step' : ℕ)
      → (submit a s).0 ≡ valid
      → seed_of a.client_id s.clients ≡ some (seed, key)
      → matched_step totp_verify isdigit seed a.code a.time ≡ some step
      → seed_of b.client_id s.clients ≡ some (seed, key)
      → matched_step totp_verify isdigit seed b.code b.time ≡ some step'
      → step' ≤ step
      → (submit b (attempts between (submit a s).1)).0 ≢ valid
  totp-no_replay a b between s seed key step step' accepted known match known' match' old =
      let s₁ = (submit a s).1 in
      let s₂ = attempts between s₁ in
      let same : s₂.clients ≡ s.clients = attempts-clients between s₁ ∙ submit-clients a s in
      submit-old b s₂ seed key step' (rw same known') match' (
        omega (
          arith,
          submit-accepted a s seed key step known match accepted,
          attempts-next_step key between s₁,
        ))
