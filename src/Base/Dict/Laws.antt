-- ===== src/Base/Dict/Laws.antt =====
-- The laws of the operations of a dict.
use Prim.Native.Nat.{◌+◌, ◌≤◌}
use mathlib.Core.Path.{◌≡◌, refl, ◌∙◌, subst₂}
use mathlib.Core.Logic.{inl, inr}
use mathlib.Core.Bool.{Bool, true, false}
use mathlib.Core.Option.{none, some}
use mathlib.Core.List.{List, [], ◌∷◌}
use native.Mathlib.Omega.{arith}
use beacon_mcp.Base.Logic.{eq_refl, Eq, ◌==◌, if◌then◌else◌, Bool-cases}
use beacon_mcp.Base.Lists.{member}
use beacon_mcp.Base.Dict.Defs.{
  Dict, lookup, insert, erase, retain, count, map_values, erase_keys, Every, IsDict,
}

not_covered : (b : Bool) → (b ≡ true → false ≡ true) → b ≡ false
not_covered true f = cc (f refl)
not_covered false f = refl

module _ {ℓ κ} {K : Type ℓ} ⦃e : Eq K⦄ {V : Type κ} where
  pub lookup-insert :
      (k j : K) (v : V) (d : Dict K V)
      → lookup j (insert k v d) ≡ (if k == j then some v else lookup j d)
  unfolding lookup insert
  lookup-insert k j v [] = refl
  lookup-insert k j v ((i, w) ∷ d) =
      ground (arith, e.beq_iff k j, e.beq_iff i k, e.beq_iff i j, lookup-insert k j v d)

  pub lookup-erase :
      (k j : K) (d : Dict K V) → lookup j (erase k d) ≡ (if k == j then none else lookup j d)
  unfolding lookup erase
  lookup-erase k j [] = ground arith
  lookup-erase k j ((i, w) ∷ d) =
      ground (arith, e.beq_iff k j, e.beq_iff i k, e.beq_iff i j, lookup-erase k j d)

  -- Deleting a key or an entry never makes another key appear.
  pub lookup-retain-none :
      (k : K) (p : V → Bool) (d : Dict K V) → lookup k d ≡ none → lookup k (retain p d) ≡ none
  unfolding lookup retain
  lookup-retain-none k p [] h = refl
  lookup-retain-none k p ((j, w) ∷ d) h = ground (arith, lookup-retain-none k p d)

  pub lookup-retain :
      (k : K) (p : V → Bool) (d : Dict K V)
      → IsDict d
      → lookup k (retain p d)
        ≡ elim (lookup k d) [ none ↦ none | some v ↦ if p v then some v else none ]
  unfolding lookup retain
  lookup-retain k p [] h = refl
  lookup-retain k p ((j, w) ∷ d) h =
      ground (arith, e.beq_iff j k, lookup-retain k p d h.1, lookup-retain-none j p d)

  -- What a search finds after a `retain` passes the test.
  pub retain-passes :
      (k : K) (p : V → Bool) (d : Dict K V) (v : V) → lookup k (retain p d) ≡ some v → p v ≡ true
  unfolding lookup retain
  retain-passes k p [] v h = cc
  retain-passes k p ((j, w) ∷ d) v h = ground (arith, retain-passes k p d v)

  pub lookup-erase_keys-none :
      (k : K) (ks : List K) (d : Dict K V) → lookup k d ≡ none → lookup k (erase_keys ks d) ≡ none
  unfolding erase_keys
  lookup-erase_keys-none k [] d h = h
  lookup-erase_keys-none k (j ∷ ks) d h =
      lookup-erase_keys-none k ks (erase j d) (ground (arith, lookup-erase j k d))

  pub Every-insert {ι} :
      (P : K → V → Type ι) (k : K) (v : V) (d : Dict K V)
      → ((j : K) → j ≡ k → P j v)
      → Every P d
      → Every P (insert k v d)
  unfolding insert
  Every-insert P k v [] p h = (p k refl, tt)
  Every-insert P k v ((j, w) ∷ d) p h = ground (arith, e.beq_iff j k, p j, Every-insert P k v d p)

  pub Every-erase {ι} :
      (P : K → V → Type ι) (k : K) (d : Dict K V) → Every P d → Every P (erase k d)
  unfolding erase
  Every-erase P k [] h = tt
  Every-erase P k ((j, w) ∷ d) h = ground (arith, Every-erase P k d)

  pub Every-erase_keys {ι} :
      (P : K → V → Type ι) (ks : List K) (d : Dict K V) → Every P d → Every P (erase_keys ks d)
  unfolding erase_keys
  Every-erase_keys P [] d h = h
  Every-erase_keys P (k ∷ ks) d h = Every-erase_keys P ks (erase k d) (Every-erase P k d h)

  pub Every-retain {ι} :
      (P : K → V → Type ι) (p : V → Bool) (d : Dict K V) → Every P d → Every P (retain p d)
  unfolding retain
  Every-retain P p [] h = tt
  Every-retain P p ((j, w) ∷ d) h = ground (arith, Every-retain P p d)

  pub Every-lookup {ι} :
      (P : K → V → Type ι) (k : K) (v : V) (d : Dict K V) → Every P d → lookup k d ≡ some v → P k v
  unfolding lookup
  Every-lookup P k v [] h q = cc
  Every-lookup P k v ((j, w) ∷ d) h q = elim (Bool-cases (j == k)) [
    | inl hit ↦ subst₂ P ((e.beq_iff j k).0 hit) (ground arith) h.0
    | inr miss ↦ Every-lookup P k v d h.1 (ground arith)
  ]

  pub Every-map {ι ο} :
      (P : K → V → Type ι) (Q : K → V → Type ο) (d : Dict K V)
      → ((k : K) (v : V) → P k v → Q k v)
      → Every P d
      → Every Q d
  Every-map P Q [] f h = tt
  Every-map P Q ((j, w) ∷ d) f h = (f j w h.0, Every-map P Q d f h.1)

  pub IsDict-insert : (k : K) (v : V) (d : Dict K V) → IsDict d → IsDict (insert k v d)
  unfolding insert lookup
  IsDict-insert k v [] h = (refl, tt)
  IsDict-insert k v ((j, w) ∷ d) h =
      ground (arith, IsDict-insert k v d h.1, lookup-insert k j v d, e.beq_iff k j, e.beq_iff j k)

  pub IsDict-erase : (k : K) (d : Dict K V) → IsDict d → IsDict (erase k d)
  unfolding erase
  IsDict-erase k [] h = tt
  IsDict-erase k ((j, w) ∷ d) h = ground (arith, IsDict-erase k d h.1, lookup-erase k j d)

  pub IsDict-erase_keys : (ks : List K) (d : Dict K V) → IsDict d → IsDict (erase_keys ks d)
  unfolding erase_keys
  IsDict-erase_keys [] d h = h
  IsDict-erase_keys (k ∷ ks) d h = IsDict-erase_keys ks (erase k d) (IsDict-erase k d h)

  pub IsDict-retain : (p : V → Bool) (d : Dict K V) → IsDict d → IsDict (retain p d)
  unfolding retain
  IsDict-retain p [] h = tt
  IsDict-retain p ((j, w) ∷ d) h = ground (arith, IsDict-retain p d h.1, lookup-retain-none j p d)

  pub count-retain-le : (p q : V → Bool) (d : Dict K V) → count p (retain q d) ≤ count p d
  unfolding count retain
  count-retain-le p q [] = omega arith
  count-retain-le p q ((j, w) ∷ d) = ground (arith, count-retain-le p q d)

  pub count-erase-le : (p : V → Bool) (k : K) (d : Dict K V) → count p (erase k d) ≤ count p d
  unfolding count erase
  count-erase-le p k [] = omega arith
  count-erase-le p k ((j, w) ∷ d) = ground (arith, count-erase-le p k d)

  pub count-insert-le :
      (p : V → Bool) (k : K) (v : V) (d : Dict K V)
      → count p (insert k v d) ≤ count p d + (if p v then 1 else 0)
  unfolding count insert
  count-insert-le p k v [] = ground arith
  count-insert-le p k v ((j, w) ∷ d) = ground (arith, count-insert-le p k v d)

  pub lookup-map_values :
      (k : K) (f : V → V) (d : Dict K V)
      → lookup k (map_values f d) ≡ elim (lookup k d) [ none ↦ none | some v ↦ some (f v) ]
  unfolding lookup map_values
  lookup-map_values k f [] = refl
  lookup-map_values k f ((j, w) ∷ d) = ground (arith, lookup-map_values k f d)

  pub Every-map_values {ι} :
      (P : K → V → Type ι) (f : V → V) (d : Dict K V)
      → ((k : K) (v : V) → P k v → P k (f v))
      → Every P d
      → Every P (map_values f d)
  unfolding map_values
  Every-map_values P f [] keep h = tt
  Every-map_values P f ((j, w) ∷ d) keep h = (keep j w h.0, Every-map_values P f d keep h.1)

  pub IsDict-map_values : (f : V → V) (d : Dict K V) → IsDict d → IsDict (map_values f d)
  unfolding map_values
  IsDict-map_values f [] h = tt
  IsDict-map_values f ((j, w) ∷ d) h =
      ground (arith, IsDict-map_values f d h.1, lookup-map_values j f d)

  pub Every-retain_passes : (p : V → Bool) (d : Dict K V) → Every (λ _ v. p v ≡ true) (retain p d)
  unfolding retain
  Every-retain_passes p [] = tt
  Every-retain_passes p ((j, w) ∷ d) = ground (arith, Every-retain_passes p d)

  pub count-insert_same :
      (p : V → Bool) (k : K) (v w : V) (d : Dict K V)
      → lookup k d ≡ some w
      → p v ≡ p w
      → count p (insert k v d) ≡ count p d
  unfolding count insert lookup
  count-insert_same p k v w [] h q = cc
  count-insert_same p k v w ((j, u) ∷ d) h q = ground (arith, count-insert_same p k v w d)

  -- What is left when a key is deleted has other keys.
  pub Every-erase_rest {ι ο} :
      (P : K → V → Type ι) (Q : K → V → Type ο) (k : K) (d : Dict K V)
      → ((j : K) (v : V) → (j == k) ≡ false → P j v → Q j v)
      → Every P d
      → Every Q (erase k d)
  unfolding erase
  Every-erase_rest P Q k [] keep h = tt
  Every-erase_rest P Q k ((j, w) ∷ d) keep h = elim (Bool-cases (j == k)) [
    | inl hit ↦ rw (hit, erase) (Every-erase_rest P Q k d keep h.1)
    | inr miss ↦ rw (miss, erase) (keep j w miss h.0, Every-erase_rest P Q k d keep h.1)
  ]

  -- An entry that a test selects is deleted with the keys of a list that covers the selected ones.
  pub Every-erase_covered :
      (p : V → Bool) (ks : List K) (d : Dict K V)
      → Every (λ k v. p v ≡ true → member k ks ≡ true) d
      → Every (λ _ v. p v ≡ false) (erase_keys ks d)
  unfolding erase_keys member
  Every-erase_covered p [] d h = Every-map _ _ d (λ k v f. not_covered (p v) f) h
  Every-erase_covered p (k ∷ ks) d h =
      Every-erase_covered p ks (erase k d) (
        Every-erase_rest _ _ k d (λ j v ne f t. ground (arith, f t, e.beq_iff k j, e.beq_iff j k))
          h)

  pub lookup-erase_keys :
      (k : K) (ks : List K) (d : Dict K V)
      → member k ks ≡ false
      → lookup k (erase_keys ks d) ≡ lookup k d
  unfolding erase_keys member
  lookup-erase_keys k [] d h = refl
  lookup-erase_keys k (j ∷ ks) d h =
      lookup-erase_keys k ks (erase j d) (ground arith) ∙ rw (lookup-erase j k d) (ground arith)

  Every-self_rest :
      (j : K) (w : V) (d : Dict K V)
      → lookup j d ≡ none
      → (part : Dict K V) → Every (λ k v. lookup k d ≡ some v) part
      → Every (λ k v. lookup k ((j, w) ∷ d) ≡ some v) part
  unfolding lookup
  Every-self_rest j w d new [] h = tt
  Every-self_rest j w d new ((k, v) ∷ part) h =
      (ground (arith, e.beq_iff j k, h.0), Every-self_rest j w d new part h.1)

  -- Each entry is what its key finds.
  pub Every-self : (d : Dict K V) → IsDict d → Every (λ k v. lookup k d ≡ some v) d
  unfolding lookup
  Every-self [] h = tt
  Every-self ((j, w) ∷ d) h =
      (ground (arith, eq_refl j), Every-self_rest j w d h.0 d (Every-self d h.1))

  pub count_mono :
      (p q : V → Bool) (d : Dict K V)
      → Every (λ _ v. p v ≡ true → q v ≡ true) d
      → count p d ≤ count q d
  unfolding count
  count_mono p q [] h = omega arith
  count_mono p q ((j, w) ∷ d) h = ground (arith, count_mono p q d h.1)

  pub Every-all {ι} : (P : K → V → Type ι) (d : Dict K V) → ((k : K) (v : V) → P k v) → Every P d
  Every-all P [] all = tt
  Every-all P ((j, w) ∷ d) all = (all j w, Every-all P d all)
