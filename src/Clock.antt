-- ===== src/Clock.antt =====
-- Readings of `time.time()` and `time.monotonic()`: whole microseconds. Each reading that a method
-- takes is an argument of its own, in the order in which the method takes them.
use beacon_mcp.Base.{ℕ, ◌+◌, ◌*◌, ◌/◌, ◌%◌, Bool, false, ltb, if◌then◌else◌}

-- So many seconds, as a span between two readings.
abbrev pub seconds : ℕ → ℕ
seconds n = n * 1000000

-- Python's `round` of a span, in seconds: half a second goes to the even side.
unfoldable pub round_seconds : ℕ → ℕ
round_seconds span =
    let whole = span / 1000000 in
    let rest = span % 1000000 in
    if ltb rest 500000 then whole else if ltb 500000 rest then whole + 1 else whole + whole % 2

-- A moment at which something expires; `float("inf")` is `never`.
pub data Deadline : Type 0 where
  at : ℕ → Deadline
  never : Deadline

-- `now > deadline`
abbrev pub past : ℕ → Deadline → Bool
past now (at t) = ltb t now
past now never = false
