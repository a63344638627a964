-- ===== src/Base/Dict/Length.antt =====
-- How many entries a dict has after an operation.
use Prim.Native.Nat.{◌+◌, ◌≤◌}
use mathlib.Core.Path.{◌≡◌}
use mathlib.Core.Bool.{Bool}
use mathlib.Core.Option.{some}
use mathlib.Core.List.{[], ◌∷◌}
use native.Mathlib.Omega.{arith}
use beacon_mcp.Base.Logic.{Eq}
use beacon_mcp.Base.Lists.{length}
use beacon_mcp.Base.Dict.Defs.{Dict, lookup, insert, erase, retain}

module _ {ℓ κ} {K : Type ℓ} ⦃e : Eq K⦄ {V : Type κ} where
  pub length-insert-le : (k : K) (v : V) (d : Dict K V) → length (insert k v d) ≤ length d + 1
  unfolding insert
  length-insert-le k v [] = omega arith
  length-insert-le k v ((j, w) ∷ d) = ground (arith, length-insert-le k v d)

  pub length-erase-le : (k : K) (d : Dict K V) → length (erase k d) ≤ length d
  unfolding erase
  length-erase-le k [] = omega arith
  length-erase-le k ((j, w) ∷ d) = ground (arith, length-erase-le k d)

  pub length-retain-le : (p : V → Bool) (d : Dict K V) → length (retain p d) ≤ length d
  unfolding retain
  length-retain-le p [] = omega arith
  length-retain-le p ((j, w) ∷ d) = ground (arith, length-retain-le p d)

  pub length-erase_found :
      (k : K) (v : V) (d : Dict K V) → lookup k d ≡ some v → length (erase k d) + 1 ≤ length d
  unfolding erase lookup
  length-erase_found k v [] h = cc
  length-erase_found k v ((j, w) ∷ d) h =
      ground (arith, length-erase_found k v d, length-erase-le k d)
