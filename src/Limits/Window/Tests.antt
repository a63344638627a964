-- ===== src/Limits/Window/Tests.antt =====
-- The limiter of ratelimit.py at concrete inputs.
use beacon_mcp.Base.{ℕ, ◌≤◌, String, ◌≡◌, List, [], ◌∷◌, arith, length, string_has_eq}
use beacon_mcp.Clock.{seconds}
use beacon_mcp.Limits.Window.Spec.{times_of, recent}
use beacon_mcp.Limits.Window.Runs.{
  new_limiter, checks, allows, let_through, checks-refines, checks-bound,
}

abbrev burst : List (String × ℕ)
burst =
    ("1.2.3.4", seconds 1)
    ∷ ("1.2.3.4", seconds 2)
    ∷ ("9.9.9.9", seconds 3)
    ∷ ("1.2.3.4", seconds 4)
    ∷ []

checks-refines_example :
    (checks burst (new_limiter 2 (seconds 60))).0 ≡ (allows 2 (seconds 60) burst []).0
checks-refines_example =
    checks-refines 2 (seconds 60) burst
      (omega arith, (omega arith, (omega arith, (omega arith, tt))))

checks-bound_example :
    length (
      recent
        (seconds 60)
        (seconds 5)
        (times_of "1.2.3.4" (let_through burst (checks burst (new_limiter 2 (seconds 60))).0)))
    ≤ 2
checks-bound_example =
    checks-bound 2 (seconds 60) "1.2.3.4" (seconds 5) burst
      (omega arith, (omega arith, (omega arith, (omega arith, tt))))
      (omega arith, (omega arith, (omega arith, (omega arith, tt))))
