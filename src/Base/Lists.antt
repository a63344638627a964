-- ===== src/Base/Lists.antt =====
-- Lists measured by native numbers, predicates over lists, and loops as folds.
use Prim.Native.Nat.{ℕ, suc, ◌+◌}
use mathlib.Core.Path.{◌≡◌, refl, ap}
use mathlib.Core.Bool.{Bool, true, false, ◌||◌, ◌&&◌}
use mathlib.Core.List.{List, [], ◌∷◌, ◌++◌}
use native.Mathlib.Omega.{arith}
use beacon_mcp.Base.Logic.{Eq, ◌==◌, if◌then◌else◌}

module _ {ℓ} {A : Type ℓ} where
  abbrev pub length : List A → ℕ
  length [] = 0
  length (x ∷ xs) = suc (length xs)

  -- `[x for x in xs if p(x)]`
  abbrev pub select : (A → Bool) → List A → List A
  select p [] = []
  select p (x ∷ xs) = if p x then x ∷ select p xs else select p xs

  -- `for x in xs: s = f(s, x)`
  abbrev pub loop {κ} : {S : Type κ} → (S → A → S) → S → List A → S
  loop f s [] = s
  loop f s (x ∷ xs) = loop f (f s x) xs

  abbrev pub All {κ} : (A → Type κ) → List A → Type κ
  All P [] = Unit
  All P (x ∷ xs) = P x × All P xs

  pub length-append : (xs ys : List A) → length (xs ++ ys) ≡ length xs + length ys
  length-append [] ys = omega arith
  length-append (x ∷ xs) ys = omega (arith, length-append xs ys)

  pub All-append {κ} :
      (P : A → Type κ) (xs : List A) (x : A) → All P xs → P x → All P (xs ++ x ∷ [])
  All-append P [] x h p = (p, tt)
  All-append P (y ∷ xs) x h p = (h.0, All-append P xs x h.1 p)

  pub loop-inv {κ ι} :
      {S : Type κ} (P : S → Type ι) (f : S → A → S)
      → ((s : S) (a : A) → P s → P (f s a))
      → (s : S) (xs : List A) → P s
      → P (loop f s xs)
  loop-inv P f keep s [] h = h
  loop-inv P f keep s (x ∷ xs) h = loop-inv P f keep (f s x) xs (keep s x h)

  pub loop-append {κ} :
      {S : Type κ} (f : S → A → S) (s : S) (xs ys : List A)
      → loop f s (xs ++ ys) ≡ loop f (loop f s xs) ys
  loop-append f s [] ys = refl
  loop-append f s (x ∷ xs) ys = loop-append f (f s x) xs ys

  pub select-ext :
      (p q : A → Bool) (xs : List A) → ((x : A) → p x ≡ q x) → select p xs ≡ select q xs
  select-ext p q [] h = refl
  select-ext p q (x ∷ xs) h = ground (arith, h x, select-ext p q xs h)

  pub select-true : (xs : List A) → select (λ x. true) xs ≡ xs
  select-true [] = refl
  select-true (x ∷ xs) = ap (λ ys. x ∷ ys) (select-true xs)

  pub select-select :
      (p q : A → Bool) (xs : List A) → select p (select q xs) ≡ select (λ x. q x && p x) xs
  select-select p q [] = refl
  select-select p q (x ∷ xs) = ground (arith, select-select p q xs)

module _ {ℓ} {A : Type ℓ} ⦃e : Eq A⦄ where
  -- `x in xs`
  unfoldable pub member : A → List A → Bool
  member x [] = false
  member x (y ∷ ys) = y == x || member x ys

  pub member-append : (x : A) (xs ys : List A) → member x (xs ++ ys) ≡ (member x xs || member x ys)
  unfolding member
  member-append x [] ys = ground arith
  member-append x (y ∷ xs) ys = ground (arith, member-append x xs ys)

  pub member-select :
      (p : A → Bool) (x : A) (xs : List A)
      → p x ≡ true
      → member x xs ≡ true
      → member x (select p xs) ≡ true
  unfolding member
  member-select p x [] h m = m
  member-select p x (y ∷ xs) h m = ground (arith, e.beq_iff y x, member-select p x xs h)
