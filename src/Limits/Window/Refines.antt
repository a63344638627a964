-- ===== src/Limits/Window/Refines.antt =====
-- One call of `RateLimiter` against the count over the whole log.
use beacon_mcp.Base.{
  ℕ, ◌+◌, ◌≤◌, ◌<◌, String, ◌≡◌, refl, sym, ap, subst, ◌∙◌, Bool, true, false, List, [], ◌∷◌, ◌++◌,
  arith, ltb, leb, if◌then◌else◌, string_has_eq, ◌==◌, eq_of_true, length, All, inl, inr,
  Bool-cases, Option-cases, ◌||◌,
}
use native.Mathlib.Nat.{le_refl}
use beacon_mcp.Base.Dict.{
  Dict, lookup, insert, map_values, IsDict, IsDict-insert, IsDict-map_values, IsDict-retain,
  lookup-insert, lookup-retain, lookup-map_values,
}
use beacon_mcp.Limits.Window.{Bucket, RateLimiter, prune_bucket, collect_stale, get_bucket, check}
use beacon_mcp.Limits.Window.Spec.{Log, times_of, recent, allow}

abbrev IsSorted : List ℕ → Type 0
IsSorted [] = Unit
IsSorted (t ∷ ts) = All (λ u. t ≤ u) ts × IsSorted ts

nil_of_length : (xs : List ℕ) → ltb 0 (length xs) ≡ false → xs ≡ []
nil_of_length [] h = refl
nil_of_length (x ∷ xs) h = ground arith

module _ (window : ℕ) where
  prune-nil : (now : ℕ) → prune_bucket window now [] ≡ []
  unfolding prune_bucket
  prune-nil now = refl

  recent-All :
      (now t : ℕ) (ts : List ℕ) → now < t + window → All (λ u. t ≤ u) ts → recent window now ts ≡ ts
  unfolding recent
  recent-All now t [] h a = refl
  recent-All now t (u ∷ ts) h a = ground (arith, recent-All now t ts h a.1)

  -- On events in order, dropping a prefix is the same as selecting.
  prune-recent :
      (now : ℕ) (ts : List ℕ) → IsSorted ts → prune_bucket window now ts ≡ recent window now ts
  unfolding prune_bucket recent
  prune-recent now [] h = refl
  prune-recent now (t ∷ ts) h = ground (arith, prune-recent now ts h.1, recent-All now t ts)

  prune-prune :
      (now later : ℕ) (ts : List ℕ)
      → now ≤ later
      → prune_bucket window later (prune_bucket window now ts) ≡ prune_bucket window later ts
  unfolding prune_bucket
  prune-prune now later [] h = refl
  prune-prune now later (t ∷ ts) h = ground (arith, prune-prune now later ts h)

  pub recent-recent :
      (now later : ℕ) (ts : List ℕ)
      → now ≤ later
      → recent window later (recent window now ts) ≡ recent window later ts
  unfolding recent
  recent-recent now later [] h = refl
  recent-recent now later (t ∷ ts) h = ground (arith, recent-recent now later ts h)

  All-recent :
      (now u : ℕ) (ts : List ℕ) → All (λ t. u ≤ t) ts → All (λ t. u ≤ t) (recent window now ts)
  unfolding recent
  All-recent now u [] h = tt
  All-recent now u (t ∷ ts) h = ground (arith, All-recent now u ts h.1)

  All-recent-le :
      (now m : ℕ) (ts : List ℕ) → All (λ t. t ≤ m) ts → All (λ t. t ≤ m) (recent window now ts)
  unfolding recent
  All-recent-le now m [] h = tt
  All-recent-le now m (t ∷ ts) h = ground (arith, All-recent-le now m ts h.1)

  recent-IsSorted : (now : ℕ) (ts : List ℕ) → IsSorted ts → IsSorted (recent window now ts)
  unfolding recent
  recent-IsSorted now [] h = tt
  recent-IsSorted now (t ∷ ts) h =
      ground (arith, recent-IsSorted now ts h.1, All-recent now t ts h.0)

  pub recent-append :
      (now : ℕ) (ts us : List ℕ)
      → recent window now (ts ++ us) ≡ recent window now ts ++ recent window now us
  unfolding recent
  recent-append now [] us = refl
  recent-append now (t ∷ ts) us = ground (arith, recent-append now ts us)

  get_bucket-collect :
      (k : String) (now : ℕ) (d : Dict String Bucket)
      → IsDict d
      → get_bucket k (collect_stale window now d) ≡ prune_bucket window now (get_bucket k d)
  unfolding collect_stale get_bucket
  get_bucket-collect k now d h =
      let pruned = map_values (prune_bucket window now) d in
      let kept =
        lookup-retain k (λ events. ltb 0 (length events)) pruned
          (IsDict-map_values (prune_bucket window now) d h) in
      let mapped = lookup-map_values k (prune_bucket window now) d in
      elim (Option-cases (lookup k d)) [
        | inl missing ↦ ground (arith, kept, mapped, missing, prune-nil now)
        | inr (events, found) ↦
            ground (arith, kept, mapped, found, nil_of_length (prune_bucket window now events))
      ]

All-append-one :
    (n t : ℕ) (ts : List ℕ) → All (λ u. n ≤ u) ts → n ≤ t → All (λ u. n ≤ u) (ts ++ (t ∷ []))
All-append-one n t [] h le = (le, tt)
All-append-one n t (u ∷ ts) h le = (h.0, All-append-one n t ts h.1 le)

IsSorted-append-one :
    (t : ℕ) (ts : List ℕ) → All (λ u. u ≤ t) ts → IsSorted ts → IsSorted (ts ++ (t ∷ []))
IsSorted-append-one t [] below h = (tt, tt)
IsSorted-append-one t (u ∷ ts) below h =
    (All-append-one u t ts h.0 below.0, IsSorted-append-one t ts below.1 h.1)

All-le : (n m : ℕ) (ts : List ℕ) → n ≤ m → All (λ u. u ≤ n) ts → All (λ u. u ≤ m) ts
All-le n m [] le h = tt
All-le n m (t ∷ ts) le h = (omega arith, All-le n m ts le h.1)

All-snoc : (m t : ℕ) (ts : List ℕ) → All (λ u. u ≤ m) ts → t ≤ m → All (λ u. u ≤ m) (ts ++ (t ∷ []))
All-snoc m t [] h le = (le, tt)
All-snoc m t (u ∷ ts) h le = (h.0, All-snoc m t ts h.1 le)

pub times_of-snoc :
    (j k : String) (t : ℕ) (log : Log)
    → times_of j (log ++ ((k, t) ∷ []))
      ≡ (if k == j then times_of j log ++ (t ∷ []) else times_of j log)
unfolding times_of
times_of-snoc j k t [] = refl
times_of-snoc j k t ((i, u) ∷ log) = ground (arith, times_of-snoc j k t log)

get_bucket-insert :
    (k j : String) (events : Bucket) (d : Dict String Bucket)
    → get_bucket j (insert k events d) ≡ (if k == j then events else get_bucket j d)
unfolding get_bucket
get_bucket-insert k j events d = ground (arith, lookup-insert k j events d)

-- The limiter at the time `now` of its last call, and the log of what it let through.
pub record Agrees (now : ℕ) (r : RateLimiter) (log : Log) : Type 0 where
  pub keys : IsDict r.buckets
  pub sorted : (k : String) → IsSorted (times_of k log)
  pub before : (k : String) → All (λ t. t ≤ now) (times_of k log)
  pub same :
      (k : String)
      → prune_bucket r.window now (get_bucket k r.buckets) ≡ recent r.window now (times_of k log)

module _ {now : ℕ} {r : RateLimiter} {log : Log} (a : Agrees now r log) (later : ℕ)
    (le : now ≤ later) (key : String) where
  abbrev events : Bucket
  events = prune_bucket r.window later (get_bucket key r.buckets)

  same_later :
      (k : String)
      → prune_bucket r.window later (get_bucket k r.buckets)
        ≡ recent r.window later (times_of k log)
  same_later k =
      sym (prune-prune r.window now later (get_bucket k r.buckets) le)
      ∙ ap (prune_bucket r.window later) (a.same k)
      ∙ prune-recent r.window later _ (recent-IsSorted r.window now _ (a.sorted k))
      ∙ recent-recent r.window now later _ le

  snoc_same :
      prune_bucket r.window later (events ++ (later ∷ []))
      ≡ recent r.window later (times_of key log ++ (later ∷ []))
  snoc_same =
      let ts = times_of key log in
      ap (λ e. prune_bucket r.window later (e ++ (later ∷ []))) (same_later key)
      ∙ prune-recent r.window later _ (
          IsSorted-append-one later _
            (All-recent-le r.window later later ts (All-le now later ts le (a.before key)))
            (recent-IsSorted r.window later ts (a.sorted key)))
      ∙ recent-append r.window later (recent r.window later ts) (later ∷ [])
      ∙ ap (λ e. e ++ recent r.window later (later ∷ []))
          (recent-recent r.window later later ts (le_refl later))
      ∙ sym (recent-append r.window later ts (later ∷ []))

  -- The buckets once the event is added.
  added_same :
      (k : String)
      → prune_bucket r.window later (get_bucket k (insert key (events ++ (later ∷ [])) r.buckets))
        ≡ recent r.window later (times_of k (log ++ ((key, later) ∷ [])))
  added_same k = elim (Bool-cases (key == k)) [
    | inl hit ↦
        rw (get_bucket-insert, times_of-snoc)
          (rw hit (
            subst
              (λ j.
                prune_bucket r.window later (events ++ (later ∷ []))
                ≡ recent r.window later (times_of j log ++ (later ∷ [])))
              (eq_of_true {A = String} key k hit) snoc_same))
    | inr miss ↦ rw (get_bucket-insert, times_of-snoc) (rw miss (same_later k))
  ]

  -- The buckets when the event is refused: that of the key was pruned.
  refused_same :
      (k : String)
      → prune_bucket r.window later (get_bucket k (insert key events r.buckets))
        ≡ recent r.window later (times_of k log)
  refused_same k = elim (Bool-cases (key == k)) [
    | inl hit ↦ rw get_bucket-insert (
        rw hit (
          subst (λ j. prune_bucket r.window later events ≡ recent r.window later (times_of j log))
            (eq_of_true {A = String} key k hit)
            (prune-prune r.window later later (get_bucket key r.buckets) (le_refl later)
              ∙ same_later key)))
    | inr miss ↦ rw get_bucket-insert (rw miss (same_later k))
  ]

  added-IsSorted : (k : String) → IsSorted (times_of k (log ++ ((key, later) ∷ [])))
  added-IsSorted k = ground (
    arith,
    times_of-snoc k key later log,
    a.sorted k,
    IsSorted-append-one later (times_of k log) (All-le now later (times_of k log) le (a.before k))
        (a.sorted k),
  )

  added_before : (k : String) → All (λ t. t ≤ later) (times_of k (log ++ ((key, later) ∷ [])))
  added_before k =
      let below = All-le now later (times_of k log) le (a.before k) in
      ground (
        arith,
        times_of-snoc k key later log,
        below,
        All-snoc later later (times_of k log) below (le_refl later),
      )

  abbrev added : Dict String Bucket
  added = insert key (events ++ (later ∷ [])) r.buckets

  added-IsDict : IsDict added
  added-IsDict = IsDict-insert key (events ++ (later ∷ [])) r.buckets a.keys

  allow-eq :
      allow r.limit r.window key later log
      ≡ (if leb r.limit (length events) then (false, log) else (true, log ++ ((key, later) ∷ [])))
  unfolding allow
  allow-eq = rw (← same_later key) (ground arith)

  collected_same :
      (k : String)
      → prune_bucket r.window later (get_bucket k (collect_stale r.window later added))
        ≡ recent r.window later (times_of k (log ++ ((key, later) ∷ [])))
  collected_same k =
      ap (prune_bucket r.window later) (get_bucket-collect r.window k later added added-IsDict)
      ∙ prune-prune r.window later later (get_bucket k added) (le_refl later)
      ∙ added_same k

  collected-IsDict : IsDict (collect_stale r.window later added)
  unfolding collect_stale
  collected-IsDict =
      IsDict-retain _ _ (IsDict-map_values (prune_bucket r.window later) added added-IsDict)

  abbrev pub Matches : Bool × RateLimiter → Bool × Log → Type 0
  Matches (answer, r') (answer', log') =
      (answer ≡ answer') × (r'.limit ≡ r.limit) × (r'.window ≡ r.window) × Agrees later r' log'

  pub check-Matches : Matches (check key later r) (allow r.limit r.window key later log)
  unfolding check
  check-Matches = elim (Bool-cases (leb r.limit (length events))) [
    | inl full ↦ rw allow-eq (
        rw (full, check)
          (
            refl,
            refl,
            refl,
            record {
              keys = IsDict-insert key events r.buckets a.keys;
              sorted = a.sorted;
              before = λ k. All-le now later _ le (a.before k);
              same = refused_same;
            },
          ))
    | inr room ↦ elim (Bool-cases (ltb 1024 (length added) || leb (r.last_gc + r.window) later)) [
      | inl sweep ↦ rw allow-eq (
          rw (room, check)
            (rw sweep (
              refl,
              refl,
              refl,
              record {
                keys = collected-IsDict;
                sorted = added-IsSorted;
                before = added_before;
                same = collected_same;
              },
            )))
      | inr later_on ↦ rw allow-eq (
          rw (room, check)
            (rw later_on (
              refl,
              refl,
              refl,
              record {
                keys = added-IsDict;
                sorted = added-IsSorted;
                before = added_before;
                same = added_same;
              },
            )))
    ]
  ]
