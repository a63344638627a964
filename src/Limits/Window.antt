-- ===== src/Limits/Window.antt =====
-- `RateLimiter` of ratelimit.py: a sliding window of events for each key.
pub mod Spec
pub mod Refines
pub mod Runs
mod Tests
use beacon_mcp.Base.{
  ℕ, ◌+◌, ◌-◌, ◌/◌, max, String, Bool, true, false, not, ◌||◌, ◌&&◌, Option, none, some, List, [],
  ◌∷◌, ◌++◌, ltb, leb, if◌then◌else◌, string_has_eq, length,
}
use beacon_mcp.Base.Dict.{Dict, lookup, insert, erase, retain, map_values}

-- The events of a bucket, oldest first.
abbrev pub Bucket : Type 0
Bucket = List ℕ

pub record RateLimiter : Type 0 where
  pub limit : ℕ
  pub window : ℕ
  pub buckets : Dict String Bucket
  pub last_gc : ℕ

-- `_prune_bucket` at `cutoff = now - window`: an event `t` is dropped while `t <= cutoff`.
unfoldable pub prune_bucket : ℕ → ℕ → Bucket → Bucket
prune_bucket window now [] = []
prune_bucket window now (t ∷ events) =
    let rest = prune_bucket window now events in if leb (t + window) now then rest else t ∷ events

-- `_collect_stale_buckets_locked`: every bucket is pruned, and the empty ones go.
unfoldable pub collect_stale : ℕ → ℕ → Dict String Bucket → Dict String Bucket
unfolding prune_bucket
collect_stale window now buckets =
    retain (λ events. ltb 0 (length events)) (map_values (prune_bucket window now) buckets)

unfoldable pub get_bucket : String → Dict String Bucket → Bucket
get_bucket key buckets = elim (lookup key buckets) [ none ↦ [] | some events ↦ events ]

-- `check`
unfoldable pub check : String → ℕ → RateLimiter → Bool × RateLimiter
check key now r =
    let events = prune_bucket window now (get_bucket key buckets) in
    let allowed = insert key (events ++ (now ∷ [])) buckets in
    if leb limit (length events)
    then (false, record r { buckets = insert key events buckets })
    else if ltb 1024 (length allowed) || leb (last_gc + window) now
    then (true, record r { buckets = collect_stale window now allowed; last_gc = now })
    else (true, record r { buckets = allowed })
  where
    open r use {limit, window, buckets, last_gc}

-- `max(0, int(window - elapsed) + 1)` in seconds, where `int` truncates towards 0.
wait_seconds : ℕ → ℕ → ℕ
wait_seconds window elapsed =
    if leb elapsed window
    then (window - elapsed) / 1000000 + 1
    else 1 - (elapsed - window) / 1000000

-- `retry_after`, with its two readings of the clock.
unfoldable pub retry_after : String → ℕ → ℕ → RateLimiter → ℕ × RateLimiter
unfolding wait_seconds get_bucket
retry_after key t0 t1 r = elim (get_bucket key buckets) [
  | [] ↦ (0, r)
  | _ ∷ _ ↦ elim (prune_bucket window t0 (get_bucket key buckets)) [
    | [] ↦ (0, record r { buckets = erase key buckets })
    | oldest ∷ rest ↦ (
      wait_seconds window (t1 - oldest),
      record r { buckets = insert key (oldest ∷ rest) buckets },
    )
  ]
]
  where
    open r use {window, buckets}
