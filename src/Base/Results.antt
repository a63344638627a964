-- ===== src/Base/Results.antt =====
-- The outcome of a call that may raise.
use mathlib.Core.Path.{◌≡◌, refl, subst}
use mathlib.Core.Logic.{◌⊎◌, inl, inr}
use mathlib.Core.Bool.{Bool, true, false}
use mathlib.Core.List.{List, [], ◌∷◌}

pub data Result {ℓ κ} (E : Type ℓ) (A : Type κ) : Type (ℓ ⊔ κ) where
  ok : A → Result E A
  err : E → Result E A

pub Result-cases {ℓ κ} :
    {E : Type ℓ} {A : Type κ} (r : Result E A) → ((a : A) × (r ≡ ok a)) ⊎ ((e : E) × (r ≡ err e))
Result-cases (ok a) = inl (a, refl)
Result-cases (err e) = inr (e, refl)

-- An exception ends a chain of steps.
infixl 5 ◌>>=◌ ◌>>◌
abbrev pub ◌>>=◌ {ℓ κ ι} :
    {E : Type ℓ} {A : Type κ} {B : Type ι} → Result E A → (A → Result E B) → Result E B
ok a >>= f = f a
err e >>= f = err e

abbrev pub ◌>>◌ {ℓ κ} : {E : Type ℓ} {B : Type κ} → Result E (Unit {0}) → Result E B → Result E B
m >> k = m >>= λ _. k

-- `if not b: raise e`
abbrev pub guard {ℓ} : {E : Type ℓ} → Bool → E → Result E (Unit {0})
guard true e = ok tt
guard false e = err e

-- `P` holds of the value, if there is one.
pub data Ensures {ℓ κ ι} {E : Type ℓ} {A : Type κ} (P : A → Type ι)
    : Result E A → Type (ℓ ⊔ κ ⊔ ι) where
  holds : {a : A} → P a → Ensures P (ok a)
  raised : {e : E} → Ensures P (err e)

module _ {ℓ κ ι} {E : Type ℓ} {B : Type κ} {P : B → Type ι} where
  pub Ensures-ok : {r : Result E B} {b : B} → Ensures P r → r ≡ ok b → P b
  Ensures-ok (holds h) e = subst P (cc) h
  Ensures-ok raised e = cc

  pub Ensures-bind {μ} :
      {A : Type μ} (m : Result E A) {f : A → Result E B}
      → ((a : A) → m ≡ ok a → Ensures P (f a))
      → Ensures P (m >>= f)
  Ensures-bind (ok a) k = k a refl
  Ensures-bind (err e) k = raised

  pub Ensures-map {μ} :
      {Q : B → Type μ} {r : Result E B} → ((b : B) → P b → Q b) → Ensures P r → Ensures Q r
  Ensures-map f (holds {a} h) = holds (f a h)
  Ensures-map f raised = raised

  pub Ensures-guard :
      (b : Bool) (e : E) {k : Result E B} → (b ≡ true → Ensures P k) → Ensures P (guard b e >> k)
  Ensures-guard true e k = k refl
  Ensures-guard false e k = raised

module _ {ℓ κ ι} {E : Type ℓ} {S : Type κ} {A : Type ι} where
  -- `for x in xs: s = f(s, x)`, where a round may raise.
  unfoldable pub fold : (S → A → Result E S) → S → List A → Result E S
  fold f s [] = ok s
  fold f s (x ∷ xs) = f s x >>= λ s'. fold f s' xs

  pub fold-inv {μ} :
      (P : S → Type μ) (f : S → A → Result E S)
      → ((s : S) (a : A) → P s → Ensures P (f s a))
      → (s : S) (xs : List A) → P s
      → Ensures P (fold f s xs)
  unfolding fold
  fold-inv P f keep s [] p = holds p
  fold-inv P f keep s (x ∷ xs) p =
      Ensures-bind (f s x) λ s' e. fold-inv P f keep s' xs (Ensures-ok (keep s x p) e)
