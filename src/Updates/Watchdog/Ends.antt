-- ===== src/Updates/Watchdog/Ends.antt =====
-- The loops of _WATCHDOG_SCRIPT in updates.py come to their end.
use beacon_mcp.Base.{
  ℕ, zero, suc, ◌+◌, ◌≤◌, ◌<◌, Bool, true, false, not, ◌≡◌, refl, sym, ap, subst, Option, none,
  some, Result, ok, ◌>>=◌, inl, inr, arith, ltb, leb, if◌then◌else◌, ◌==◌, Bool-cases,
}
use beacon_mcp.Base.Text.{Text, text_has_eq}
use beacon_mcp.Updates.Watchdog.{
  Outcome, Endless, Machine, Arguments, called, stable, settling, settled, attempt, unless_healthy,
  poll, wait_healthy, after_rollback, reinstall, take_back, after_restart, watchdog,
}

-- Clocks do not go back, a sleep lasts as long as it says, and every program that the script calls
-- returns.
pub record MachineLaws {W : Type 0} (machine : Machine W) : Type 0 where
  pub slept : (n : ℕ) (w : W) → machine.date w + n ≤ machine.date (machine.sleep n w)
  pub answered :
      (w : W) → (r : Bool × W) × (machine.answers w ≡ some r) × (machine.date w ≤ machine.date r.1)
  pub identified :
      (w : W) → (r : Text × W) × (machine.ident w ≡ some r) × (machine.date w ≤ machine.date r.1)
  pub restarted : (w : W) → (w' : W) × (machine.restart w ≡ some w')
  pub reset : (sha : Text) (w : W) → (r : Bool × W) × (machine.reset_hard sha w ≡ some r)
  pub installed : (w : W) → (w' : W) × (machine.pip_install w ≡ some w')

-- A part of the script ends, with `P` of what it ends with.
abbrev Yields {ℓ κ} : {A : Type ℓ} → (A → Type κ) → Result Endless A → Type (ℓ ⊔ κ)
Yields {A} P r = (a : A) × (r ≡ ok a) × P a

abbrev Returns {ℓ} : {A : Type ℓ} → Result Endless A → Type ℓ
Returns {A} r = (a : A) × (r ≡ ok a)

Returns-bind {ℓ κ} :
    {A : Type ℓ} {B : Type κ} (m : Result Endless A) (f : A → Result Endless B)
    → Returns m
    → ((a : A) → Returns (f a))
    → Returns (m >>= f)
Returns-bind m f (a, e) k = subst (λ r. Returns (r >>= f)) (sym e) (k a)

Returns-called {ℓ} : {A : Type ℓ} (o : Option A) → (a : A) × (o ≡ some a) → Returns (called o)
Returns-called o (a, e) = (a, ap called e)

Yields-called {ℓ κ} :
    {A : Type ℓ} (P : A → Type κ) (o : Option A)
    → (a : A) × (o ≡ some a) × P a
    → Yields P (called o)
Yields-called P o (a, e, p) = (a, ap called e, p)

Yields-bind {ℓ κ ι μ} :
    {A : Type ℓ} {B : Type κ} (P : A → Type ι) (Q : B → Type μ) (m : Result Endless A)
    (f : A → Result Endless B)
    → Yields P m
    → ((a : A) → P a → Yields Q (f a))
    → Yields Q (m >>= f)
Yields-bind P Q m f (a, e, p) k = subst (λ r. Yields Q (r >>= f)) (sym e) (k a p)

Returns-after {ℓ κ ι} :
    {A : Type ℓ} {B : Type κ} (P : A → Type ι) (m : Result Endless A) (f : A → Result Endless B)
    → Yields P m
    → ((a : A) → P a → Returns (f a))
    → Returns (m >>= f)
Returns-after P m f (a, e, p) k = subst (λ r. Returns (r >>= f)) (sym e) (k a p)

module _ {W : Type 0} (machine : Machine W) (laws : MachineLaws machine)
    (arguments : Arguments) where
  open machine use {date, sleep, answers, ident, restart, pip_install, reset_hard}
  open arguments use {wait, settle, from}

  -- Not before `w`.
  abbrev Later {ℓ} : {A : Type ℓ} → W → A × W → Type 0
  Later w r = date w ≤ date r.1

  Yields-if :
      {A : Type 0} (P : A → Type 0) (b : Bool) (m n : Result Endless A)
      → (b ≡ true → Yields P m)
      → (b ≡ false → Yields P n)
      → Yields P (if b then m else n)
  Yields-if P true m n yes_ no_ = yes_ refl
  Yields-if P false m n yes_ no_ = no_ refl

  Returns-if :
      {A : Type 0} (b : Bool) (m n : Result Endless A)
      → (b ≡ true → Returns m)
      → (b ≡ false → Returns n)
      → Returns (if b then m else n)
  Returns-if true m n yes_ no_ = yes_ refl
  Returns-if false m n yes_ no_ = no_ refl

  answers_ends : (w : W) → Yields (Later w) (called (answers w))
  answers_ends w = Yields-called (Later w) (answers w) (laws.answered w)

  ident_ends : (w : W) → Yields (Later w) (called (ident w))
  ident_ends w = Yields-called (Later w) (ident w) (laws.identified w)

  stable_ends : (first : Text) (w : W) → Yields (Later w) (stable machine arguments first w)
  unfolding stable
  stable_ends first w =
      Yields-bind (Later w) (Later w) (called (answers w)) _ (answers_ends w) λ (up, w1) le.
        Yields-if (Later w) up _ _
          (λ good.
            Yields-bind (Later w1) (Later w) (called (ident w1)) _ (ident_ends w1)
              λ (now, w2) le'. ((now == first, w2), refl, omega (arith, le, le')))
          (λ down. ((false, w1), refl, le))

  -- The loop over which the process must stay up ends, and time does not go back in it.
  settling_ends :
      (fuel : ℕ) (first : Text) (waited : ℕ) (w : W)
      → 0 < fuel
      → settle < fuel + waited
      → Yields (Later w) (settling machine arguments fuel first waited w)
  unfolding settling
  settling_ends zero first waited w pos h = absurd (omega arith)
  settling_ends (suc fuel) first waited w pos h = elim (Bool-cases (ltb waited settle)) [
    | inr done ↦ rw done ((waited, w), refl, omega arith)
    | inl more ↦ rw more (
        Yields-bind (Later w) (Later w) (stable machine arguments first w) _ (stable_ends first w)
          λ (steady, w1) le.
            Yields-if (Later w) steady _ _
              (λ good.
                let (r, e, later) =
                  settling_ends fuel first (waited + 2) (sleep 2 w1) (ground arith)
                    (ground arith) in
                (r, e, omega (arith, le, later, laws.slept 2 w1)))
              (λ gone. ((waited, w1), refl, le)))
  ]

  settled_ends :
      (first : Text) (waited : ℕ) (w : W)
      → Yields (Later w) (settled machine arguments first (waited, w))
  unfolding settled
  settled_ends first waited w =
      Yields-if (Later w) (leb settle waited) _ _ (λ done. stable_ends first w)
        (λ early. ((false, w), refl, omega arith))

  attempt_ends : (w : W) → Yields (Later w) (attempt machine arguments w)
  unfolding attempt
  attempt_ends w =
      Yields-bind (Later w) (Later w) (called (answers w)) _ (answers_ends w) λ (up, w1) le.
        Yields-if (Later w) up _ _
          (λ good.
            Yields-bind (Later w1) (Later w) (called (ident w1)) _ (ident_ends w1)
              λ (first, w2) le2.
                Yields-bind (Later w2) (Later w)
                  (settling machine arguments (suc settle) first 0 w2) _
                  (settling_ends (suc settle) first 0 w2 (omega arith) (omega arith))
                  λ (waited, w3) le3.
                    let (r, e, le4) = settled_ends first waited w3 in
                    (r, e, omega (arith, le, le2, le3, le4)))
          (λ down. ((false, w1), refl, le))

  next_ends :
      (up : Bool) (w : W) (again : W → Result Endless (Bool × W))
      → Returns (again (sleep 2 w))
      → Returns (unless_healthy machine arguments (up, w) again)
  unfolding unless_healthy
  next_ends true w again rest = ((true, w), refl)
  next_ends false w again rest = rest

  poll_ends :
      (fuel end : ℕ) (w : W)
      → 0 < fuel
      → end < fuel + date w
      → Returns (poll machine arguments fuel end w)
  unfolding poll
  poll_ends zero end w pos h = absurd (omega arith)
  poll_ends (suc fuel) end w pos h = elim (Bool-cases (ltb (date w) end)) [
    | inr over ↦ rw over ((false, w), refl)
    | inl early ↦ rw early (
        Returns-after (Later w) (attempt machine arguments w) _ (attempt_ends w) λ (up, w') later.
          next_ends up w' (λ w''. poll machine arguments fuel end w'')
            (poll_ends fuel end (sleep 2 w') (ground (arith, laws.slept 2 w'))
              (ground (arith, laws.slept 2 w'))))
  ]

  wait_healthy_ends : (w : W) → Returns (wait_healthy machine arguments w)
  unfolding wait_healthy
  wait_healthy_ends w = poll_ends (suc wait) (date w + wait) w (omega arith) (omega arith)

  reinstall_ends : (w : W) → Returns (reinstall machine arguments w)
  unfolding reinstall
  reinstall_ends w =
      Returns-if (machine.change_dir w) _ _
        (λ there.
          Returns-bind (called (pip_install w)) _
            (Returns-called (pip_install w) (laws.installed w))
            λ w1.
              Returns-bind (called (restart w1)) _ (Returns-called (restart w1) (laws.restarted w1))
                λ w2.
                  Returns-bind (wait_healthy machine arguments w2) _ (wait_healthy_ends w2)
                    λ r. (after_rollback machine arguments r, refl))
        (λ lost. ((none, w), refl))

  take_back_ends : (w : W) → Returns (take_back machine arguments w)
  unfolding take_back
  take_back_ends w =
      Returns-if (not (machine.rev_parse_head w == arguments.to)) _ _ (λ moved. (_, refl))
        (λ same.
          Returns-bind (called (reset_hard from w)) _
            (Returns-called (reset_hard from w) (laws.reset from w))
            λ (done, w1).
              Returns-if (not done) _ _ (λ failed. (_, refl)) (λ good. reinstall_ends w1))

  after_restart_ends : (r : Bool × W) → Returns (after_restart machine arguments r)
  unfolding after_restart
  after_restart_ends (true, w) = (_, refl)
  after_restart_ends (false, w) = take_back_ends w

  -- If a sleep lasts as long as it says, no step turns the clock back, and every probe, every look
  -- at the unit, every restart, the reset and the install return, then the watchdog comes to its
  -- end, whatever the probes answer.
  pub watchdog_ends : (w : W) → (o : Option Outcome × W) × (watchdog machine arguments w ≡ ok o)
  unfolding watchdog
  watchdog_ends w =
      let w0 = sleep arguments.delay w in
      Returns-bind (called (restart w0)) _ (Returns-called (restart w0) (laws.restarted w0)) λ w1.
        Returns-bind (wait_healthy machine arguments w1) _ (wait_healthy_ends w1)
          λ r. after_restart_ends r
