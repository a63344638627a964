-- ===== src/Limits/Window/Runs.antt =====
-- Runs of `RateLimiter` against runs of the plain count.
use beacon_mcp.Base.{
  ℕ, ◌≤◌, String, ◌≡◌, refl, sym, ap, ◌∙◌, Bool, true, false, List, [], ◌∷◌, ◌++◌, arith, ltb,
  string_has_eq, ◌==◌, length, length-append, All, eq_of_true, tests, inl, inr, Bool-cases,
}
use mathlib.Core.Path.{subst₂, ap₂}
use mathlib.Core.List.{append-nil, append_assoc}
use beacon_mcp.Base.Dict.{lookup}
use beacon_mcp.Limits.Window.{RateLimiter, check, prune_bucket, get_bucket}
use beacon_mcp.Limits.Window.Spec.{Log, times_of, recent, allow}
use beacon_mcp.Limits.Window.Refines.{
  Agrees, check-Matches, times_of-snoc, recent-append, recent-recent,
}

-- The limiter as it is made.
abbrev pub new_limiter : ℕ → ℕ → RateLimiter
new_limiter limit window = record { limit = limit; window = window; buckets = []; last_gc = 0 }

-- The answers to a list of calls, and the limiter after them.
pub checks : List (String × ℕ) → RateLimiter → List Bool × RateLimiter
checks [] r = ([], r)
checks ((key, now) ∷ calls) r =
    let (answer, r₁) = check key now r in
    let (answers, r₂) = checks calls r₁ in (answer ∷ answers, r₂)

-- The same calls to the plain count.
pub allows : ℕ → ℕ → List (String × ℕ) → Log → List Bool × Log
allows limit window [] log = ([], log)
allows limit window ((key, now) ∷ calls) log =
    let (answer, log₁) = allow limit window key now log in
    let (answers, log₂) = allows limit window calls log₁ in (answer ∷ answers, log₂)

-- The calls come in the order of the clock, which begins at `now`.
abbrev pub InOrder : ℕ → List (String × ℕ) → Type 0
InOrder now [] = Unit
InOrder now ((key, t) ∷ calls) = (now ≤ t) × InOrder t calls

checks-Agrees :
    (limit window now : ℕ) (calls : List (String × ℕ)) (r : RateLimiter) (log : Log)
    → r.limit ≡ limit
    → r.window ≡ window
    → Agrees now r log
    → InOrder now calls
    → (checks calls r).0 ≡ (allows limit window calls log).0
unfolding checks allows
checks-Agrees limit window now [] r log el ew a order = refl
checks-Agrees limit window now ((key, t) ∷ calls) r log el ew a order =
    let (answer, l, w, a') = check-Matches a t order.0 key in
    let r₁ = (check key t r).1 in
    let same = subst₂ (λ m v. (check key t r).0 ≡ (allow m v key t log).0) el ew answer in
    let agrees = subst₂ (λ m v. Agrees t r₁ (allow m v key t log).1) el ew a' in
    ap₂ ◌∷◌ same (
      checks-Agrees limit window t calls r₁ (allow limit window key t log).1 (l ∙ el) (w ∙ ew)
        agrees order.1)

new_Agrees : (limit window : ℕ) → Agrees 0 (new_limiter limit window) []
unfolding times_of recent lookup get_bucket prune_bucket
new_Agrees limit window = record { keys = tt; sorted = λ k. tt; before = λ k. tt; same = λ k. refl }

-- The limiter, made anew and called in the order of the clock, answers every call exactly as the
-- count over the full log of what was let through would, though it drops events and buckets.
pub checks-refines :
    (limit window : ℕ) (calls : List (String × ℕ))
    → InOrder 0 calls
    → (checks calls (new_limiter limit window)).0 ≡ (allows limit window calls []).0
checks-refines limit window calls order =
    checks-Agrees limit window 0 calls (new_limiter limit window) [] refl refl
      (new_Agrees limit window) order

-- The calls that were answered yes.
pub let_through : List (String × ℕ) → List Bool → Log
let_through [] answers = []
let_through (c ∷ calls) [] = []
let_through (c ∷ calls) (true ∷ answers) = c ∷ let_through calls answers
let_through (c ∷ calls) (false ∷ answers) = let_through calls answers

allows-let_through :
    (limit window : ℕ) (calls : List (String × ℕ)) (log : Log)
    → (allows limit window calls log).1 ≡ log ++ let_through calls (allows limit window calls log).0
unfolding allows let_through allow
allows-let_through limit window [] log = sym (append-nil log)
allows-let_through limit window ((key, t) ∷ calls) log =
    elim (Bool-cases (ltb (length (recent window t (times_of key log))) limit)) [
      | inl room ↦ rw (room) (
          allows-let_through limit window calls (log ++ ((key, t) ∷ []))
          ∙ append_assoc log ((key, t) ∷ []) _)
      | inr full ↦ rw (full) (allows-let_through limit window calls log)
    ]

module _ (limit window : ℕ) (key : String) where
  abbrev Within : ℕ → Log → Type 0
  Within now log = length (recent window now (times_of key log)) ≤ limit

  length-recent-le : (now : ℕ) (ts : List ℕ) → length (recent window now ts) ≤ length ts
  unfolding recent
  length-recent-le now [] = omega arith
  length-recent-le now (t ∷ ts) = ground (arith, length-recent-le now ts)

  Within-later : (now later : ℕ) (log : Log) → now ≤ later → Within now log → Within later log
  Within-later now later log le h = omega (
    arith,
    ap length (recent-recent window now later (times_of key log) le),
    length-recent-le later (recent window now (times_of key log)),
  )

  allow-Within :
      (now : ℕ) (k : String) (log : Log)
      → Within now log
      → Within now (allow limit window k now log).1
  unfolding allow
  allow-Within now k log h =
      let ts = times_of key log in
      let one = length-recent-le now (now ∷ []) in
      let grown = ap length (recent-append window now ts (now ∷ [])) in
      let sum = length-append (recent window now ts) (recent window now (now ∷ [])) in
      let snoc = times_of-snoc key k now log in
      elim (Bool-cases (ltb (length (recent window now (times_of k log))) limit)) [
        | inr full ↦ rw (full, allow) h
        | inl room ↦ elim (Bool-cases (k == key)) [
          | inl hit ↦
              let same =
                ap (λ j. length (recent window now (times_of j log)))
                  (eq_of_true {A = String} k key hit) in
              rw (room, allow) (rw (snoc) (rw hit (omega (tests, one, grown, sum, same, room))))
          | inr miss ↦ rw (room, allow) (rw (snoc) (rw miss h))
        ]
      ]

  allows-Within :
      (now end : ℕ) (calls : List (String × ℕ)) (log : Log)
      → InOrder now calls
      → All (λ c. c.1 ≤ end) calls
      → now ≤ end
      → Within now log
      → Within end (allows limit window calls log).1
  unfolding allows
  allows-Within now end [] log order before le h = Within-later now end log le h
  allows-Within now end ((k, t) ∷ calls) log order before le h =
      allows-Within t end calls (allow limit window k t log).1 order.1 before.1 before.0
        (allow-Within t k log (Within-later now t log order.0 h))

  -- Whenever the limiter has been called in the order of the clock, it has let through at most
  -- `limit` calls of a key in the window that ends at any moment from then on.
  pub checks-bound :
      (end : ℕ) (calls : List (String × ℕ))
      → InOrder 0 calls
      → All (λ c. c.1 ≤ end) calls
      → length (
          recent window end
            (times_of key (let_through calls (checks calls (new_limiter limit window)).0)))
        ≤ limit
  unfolding times_of recent
  checks-bound end calls order before = rw (checks-refines limit window calls order) (
      rw (← allows-let_through limit window calls [])
        (allows-Within 0 end calls [] order before (omega arith) (omega arith)))
