-- ===== src/Limits/Window/Spec.antt =====
-- What the limiter promises: a plain count over the log of all events that were let through.
use beacon_mcp.Base.{
  ℕ, ◌+◌, String, Bool, true, false, List, [], ◌∷◌, ◌++◌, ltb, if◌then◌else◌, string_has_eq, ◌==◌,
  length, select,
}

-- The events that were let through, oldest first, with their keys.
abbrev pub Log : Type 0
Log = List (String × ℕ)

unfoldable pub times_of : String → Log → List ℕ
times_of key [] = []
times_of key ((k, t) ∷ log) = if k == key then t ∷ times_of key log else times_of key log

-- The events of the window that ends at `now`.
unfoldable pub recent : ℕ → ℕ → List ℕ → List ℕ
recent window now = select (λ t. ltb now (t + window))

-- An event is let through if fewer than `limit` of its key fall in the window before it.
unfoldable pub allow : ℕ → ℕ → String → ℕ → Log → Bool × Log
unfolding times_of recent
allow limit window key now log =
    if ltb (length (recent window now (times_of key log))) limit
    then (true, log ++ ((key, now) ∷ []))
    else (false, log)
