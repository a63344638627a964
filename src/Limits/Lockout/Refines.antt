-- ===== src/Limits/Lockout/Refines.antt =====
-- The counters of `TotpLockout` against the history of its calls.
use beacon_mcp.Base.{
  ℕ, ◌+◌, ◌≤◌, String, ◌≡◌, refl, ◌∙◌, false, ◌||◌, ◌&&◌, not, Option, none, some, [], ◌∷◌, inl,
  inr, arith, ltb, leb, if◌then◌else◌, ◌==◌, Option-cases, leb→le,
}
use beacon_mcp.Base.Dict.{
  lookup, insert, erase, IsDict, IsDict-insert, IsDict-erase, IsDict-retain, lookup-insert,
  lookup-erase, lookup-retain,
}
use beacon_mcp.Limits.Lockout.{
  StrikeKey, by_client, Strikes, TotpLockout, same_key, strike_key_has_eq, src_key, count_locked,
  is_known_good, locked, add_strike, sweep_strikes, record_failure, record_success,
}
use beacon_mcp.Limits.Lockout.Spec.{asked, failed, passed, History, streak, after, UpTo}

-- What the counter of `key` reads at `now`.
unfoldable pub live : StrikeKey → ℕ → Strikes → ℕ
live key now strikes = elim (lookup key strikes) [
  | none ↦ 0
  | some (count, until) ↦ if leb until now then 0 else count
]

pub count_locked-live :
    (k : StrikeKey) (now : ℕ) (d : Strikes) → (count_locked k now d).0 ≡ live k now d
unfolding count_locked live
count_locked-live k now d = ground arith

live-insert :
    (k j : StrikeKey) (count until later : ℕ) (d : Strikes)
    → live j later (insert k (count, until) d)
      ≡ (if k == j then (if leb until later then 0 else count) else live j later d)
unfolding live
live-insert k j count until later d = ground (arith, lookup-insert k j (count, until) d)

live-erase :
    (k j : StrikeKey) (later : ℕ) (d : Strikes)
    → live j later (erase k d) ≡ (if k == j then 0 else live j later d)
unfolding live
live-erase k j later d = ground (arith, lookup-erase k j d)

pub live-count_locked :
    (k j : StrikeKey) (now later : ℕ) (d : Strikes)
    → now ≤ later
    → live j later (count_locked k now d).1 ≡ live j later d
unfolding live count_locked
live-count_locked k j now later d le = elim (Option-cases (lookup k d)) [
  | inl missing ↦ ground (arith, missing)
  | inr ((count, until), found) ↦
      ground (arith, found, lookup-erase k j d, strike_key_has_eq.beq_iff k j)
]

live-add_strike :
    (k j : StrikeKey) (now until later : ℕ) (d : Strikes)
    → now ≤ later
    → live j later (add_strike k now until d)
      ≡ (if k == j then (if leb until later then 0 else live k now d + 1) else live j later d)
unfolding add_strike
live-add_strike k j now until later d le =
    rw (live-insert, live-count_locked k j now later d le, count_locked-live) refl

live-sweep :
    (j : StrikeKey) (now later : ℕ) (d : Strikes)
    → IsDict d
    → now ≤ later
    → live j later (sweep_strikes now d) ≡ live j later d
unfolding live sweep_strikes
live-sweep j now later d h le =
    let kept = lookup-retain j (λ entry. ltb now entry.1) d h in
    elim (Option-cases (lookup j d)) [
      | inl missing ↦ ground (arith, missing, kept)
      | inr ((count, until), found) ↦ ground (arith, found, kept)
    ]

count_locked-IsDict :
    (k : StrikeKey) (now : ℕ) (d : Strikes) → IsDict d → IsDict (count_locked k now d).1
unfolding count_locked
count_locked-IsDict k now d h = ground (arith, IsDict-erase k d h)

add_strike-IsDict :
    (k : StrikeKey) (now until : ℕ) (d : Strikes) → IsDict d → IsDict (add_strike k now until d)
unfolding add_strike
add_strike-IsDict k now until d h = IsDict-insert k _ _ (count_locked-IsDict k now d h)

sweep-IsDict : (now : ℕ) (d : Strikes) → IsDict d → IsDict (sweep_strikes now d)
unfolding sweep_strikes
sweep-IsDict now d h = ground (arith, IsDict-retain (λ entry. ltb now entry.1) d h)

-- The settings never change.
abbrev pub SameSettings : TotpLockout → TotpLockout → Type 0
SameSettings l m =
    (l.per_source ≡ m.per_source)
    × (l.per_client ≡ m.per_client)
    × (l.lockout ≡ m.lockout)
    × (l.known_good_ttl ≡ m.known_good_ttl)

module _ (c : String) (ip : Option String) (now : ℕ) (l : TotpLockout) where
  -- What `locked` answers, and that it deletes nothing that still counts.
  pub locked-answer : (locked c ip now l).0 ≡ (
      leb l.per_source (live (src_key c ip) now l.strikes)
      || (not (is_known_good (src_key c ip) now l.known_good).0
          && leb l.per_client (live (by_client c) now l.strikes)))
  unfolding locked
  locked-answer = ground (
    arith,
    count_locked-live (src_key c ip) now l.strikes,
    count_locked-live (by_client c) now (count_locked (src_key c ip) now l.strikes).1,
    live-count_locked (src_key c ip) (by_client c) now now l.strikes,
  )

  locked-live :
      (j : StrikeKey) (later : ℕ)
      → now ≤ later
      → live j later (locked c ip now l).1.strikes ≡ live j later l.strikes
  unfolding locked
  locked-live j later le = ground (
    arith,
    live-count_locked (src_key c ip) j now later l.strikes le,
    live-count_locked (by_client c) j now later (count_locked (src_key c ip) now l.strikes).1 le,
  )

  locked-IsDict : IsDict l.strikes → IsDict (locked c ip now l).1.strikes
  unfolding locked
  locked-IsDict h =
      let first = count_locked-IsDict (src_key c ip) now l.strikes h in
      ground (arith, first, count_locked-IsDict (by_client c) now _ first)

  pub locked-settings : SameSettings (locked c ip now l).1 l
  unfolding locked
  locked-settings = ground arith

  failure-IsDict : IsDict l.strikes → IsDict (record_failure c ip now l).strikes
  unfolding record_failure
  failure-IsDict h =
      sweep-IsDict now _ (add_strike-IsDict _ now _ _ (add_strike-IsDict _ now _ _ h))

  -- The two counters are different ones.
  keys_differ : (by_client c == src_key c ip) ≡ false
  unfolding src_key same_key
  keys_differ = refl

  -- The two counters one after the other.
  both_strikes :
      (j : StrikeKey) (until later : ℕ) (d : Strikes)
      → now ≤ later
      → live j later (add_strike (src_key c ip) now until (add_strike (by_client c) now until d))
        ≡ (if (by_client c == j) || (src_key c ip == j)
            then (if leb until later then 0 else live j now d + 1)
            else live j later d)
  both_strikes j until later d le =
      let client = by_client c in
      let src = src_key c ip in
      ground (
        arith,
        live-add_strike src j now until later (add_strike client now until d) le,
        live-add_strike client j now until later d le,
        live-add_strike client src now until now d,
        keys_differ,
        strike_key_has_eq.beq_iff client j,
        strike_key_has_eq.beq_iff src j,
      )

  pub failure-live :
      (j : StrikeKey) (later : ℕ)
      → IsDict l.strikes
      → now ≤ later
      → live j later (record_failure c ip now l).strikes ≡ (
          if (by_client c == j) || (src_key c ip == j)
          then (if leb (now + l.lockout) later then 0 else live j now l.strikes + 1)
          else live j later l.strikes)
  unfolding record_failure
  failure-live j later h le =
      let until = now + l.lockout in
      let first = add_strike (by_client c) now until l.strikes in
      live-sweep j now later (add_strike (src_key c ip) now until first)
        (add_strike-IsDict (src_key c ip) now until first
          (add_strike-IsDict (by_client c) now until l.strikes h))
        le
      ∙ both_strikes j until later l.strikes le

  pub failure-settings : SameSettings (record_failure c ip now l) l
  unfolding record_failure
  failure-settings = (refl, refl, refl, refl)

  success-IsDict : IsDict l.strikes → IsDict (record_success c ip now l).strikes
  unfolding record_success
  success-IsDict h = IsDict-erase (src_key c ip) l.strikes h

  success-live :
      (j : StrikeKey) (later : ℕ)
      → live j later (record_success c ip now l).strikes
        ≡ (if src_key c ip == j then 0 else live j later l.strikes)
  unfolding record_success
  success-live j later = live-erase (src_key c ip) j later l.strikes

  pub success-settings : SameSettings (record_success c ip now l) l
  unfolding record_success
  success-settings = (refl, refl, refl, refl)

pub UpTo-later : (t now : ℕ) (h : History) → t ≤ now → UpTo t h → UpTo now h
UpTo-later t now [] le up = tt
UpTo-later t now ((u, e) ∷ older) le up = (ground arith, up.1)

module _ (l : TotpLockout) (fresh : l.strikes ≡ []) where
  pub after-settings : (h : History) → SameSettings (after l h) l
  unfolding after
  after-settings [] = (refl, refl, refl, refl)
  after-settings ((t, asked c ip) ∷ older) =
      ground (arith, after-settings older, locked-settings c ip t (after l older))
  after-settings ((t, failed c ip) ∷ older) =
      ground (arith, after-settings older, failure-settings c ip t (after l older))
  after-settings ((t, passed c ip) ∷ older) =
      ground (arith, after-settings older, success-settings c ip t (after l older))

  pub after-IsDict : (h : History) → IsDict (after l h).strikes
  unfolding after
  after-IsDict [] = rw fresh tt
  after-IsDict ((t, asked c ip) ∷ older) = locked-IsDict c ip t (after l older) (after-IsDict older)
  after-IsDict ((t, failed c ip) ∷ older) =
      failure-IsDict c ip t (after l older) (after-IsDict older)
  after-IsDict ((t, passed c ip) ∷ older) =
      success-IsDict c ip t (after l older) (after-IsDict older)

  start_live : (key : StrikeKey) (now : ℕ) → live key now l.strikes ≡ 0
  unfolding live lookup
  start_live key now = rw fresh refl

  -- Started with no counters and called at times that do not run backwards, the lockout reads for
  -- every key, at any time not before the last call, the streak of failures that the history
  -- describes: deleting and sweeping counters loses no failure and keeps no expired one.
  pub after-streak :
      (key : StrikeKey) (now : ℕ) (h : History)
      → UpTo now h
      → live key now (after l h).strikes ≡ streak l.lockout key now h
  unfolding after streak
  after-streak key now [] up = start_live key now
  after-streak key now ((t, asked c ip) ∷ older) up =
      let le = leb→le t now up.0 in
      locked-live c ip t (after l older) key now le
      ∙ after-streak key now older (UpTo-later t now older le up.1)
  after-streak key now ((t, failed c ip) ∷ older) up =
      let le = leb→le t now up.0 in
      failure-live c ip t (after l older) key now (after-IsDict older) le
      ∙ rw ((after-settings older).2) (
          ground (
            arith,
            after-streak key t older up.1,
            after-streak key now older (UpTo-later t now older le up.1),
          ))
  after-streak key now ((t, passed c ip) ∷ older) up =
      let le = leb→le t now up.0 in
      success-live c ip t (after l older) key now
      ∙ ground (arith, after-streak key now older (UpTo-later t now older le up.1))

  -- Under the same conditions, `locked` says at `now` that the client is locked out for a source just
  -- when the source's own streak has reached the cap of a source, or the source has not passed lately
  -- and the streak of the client over all sources has reached the cap of a client.
  pub locked-streaks :
      (c : String) (ip : Option String) (now : ℕ) (h : History)
      → UpTo now h
      → (locked c ip now (after l h)).0 ≡ (
          leb l.per_source (streak l.lockout (src_key c ip) now h)
          || (not (is_known_good (src_key c ip) now (after l h).known_good).0
              && leb l.per_client (streak l.lockout (by_client c) now h)))
  locked-streaks c ip now h up =
      locked-answer c ip now (after l h)
      ∙ rw (after-streak (src_key c ip) now h up, after-streak (by_client c) now h up)
          (ground (arith, after-settings h))
