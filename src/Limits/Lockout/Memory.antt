-- ===== src/Limits/Lockout/Memory.antt =====
-- The sources that passed lately: how many are remembered, and what that spares them.
use beacon_mcp.Base.{
  ℕ, zero, suc, ◌+◌, ◌≤◌, ◌<◌, String, ◌≡◌, refl, true, false, Option, some, [], ◌∷◌, ◌++◌, arith,
  ltb, leb, ◌==◌, length, leb→le,
}
use native.Mathlib.Nat.{le_refl}
use beacon_mcp.Base.Dict.{Dict, lookup, contains, insert, erase, retain, lookup-erase}
use beacon_mcp.Limits.Lockout.{
  StrikeKey, TotpLockout, strike_key_has_eq, same_key, memory_cap, src_key, is_known_good, locked,
  record_failure, record_success, earliest, forget_oldest, trim_known,
}
use beacon_mcp.Limits.Lockout.Spec.{asked, failed, passed, History, streak, after, UpTo}
use beacon_mcp.Limits.Lockout.Refines.{locked-streaks, UpTo-later}

erase-shrinks : (k : StrikeKey) (d : Dict StrikeKey ℕ) → length (erase k d) ≤ length d
unfolding erase
erase-shrinks k [] = omega arith
erase-shrinks k ((j, t) ∷ d) = ground (arith, erase-shrinks k d)

erase-found :
    (k : StrikeKey) (d : Dict StrikeKey ℕ) → contains k d ≡ true → length (erase k d) < length d
unfolding erase lookup contains
erase-found k [] h = cc
erase-found k ((j, u) ∷ d) h = ground (arith, erase-found k d, erase-shrinks k d)

-- The key that is dropped stands in the dict.
earliest-stands :
    (k : StrikeKey) (t : ℕ) (d : Dict StrikeKey ℕ) → contains (earliest k t d) ((k, t) ∷ d) ≡ true
unfolding earliest contains lookup
earliest-stands k t [] = ground (arith, strike_key_has_eq.beq_iff k k)
earliest-stands k t ((j, u) ∷ d) = ground (arith, earliest-stands j u d, earliest-stands k t d)

forget_oldest-bound :
    (n : ℕ) (d : Dict StrikeKey ℕ) → length d ≤ n → length (forget_oldest n d) ≤ memory_cap
unfolding forget_oldest
forget_oldest-bound zero d h = ground arith
forget_oldest-bound (suc n) [] h = ground arith
forget_oldest-bound (suc n) ((j, t) ∷ rest) h = ground (
  arith,
  erase-found (earliest j t rest) ((j, t) ∷ rest) (earliest-stands j t rest),
  forget_oldest-bound n (erase (earliest j t rest) ((j, t) ∷ rest)),
)

-- After `record_success` no more sources are remembered than the cap: the rounds of the loop, one for
-- each entry, are enough.
pub record_success-bound :
    (c : String) (ip : Option String) (now : ℕ) (l : TotpLockout)
    → length (record_success c ip now l).known_good ≤ memory_cap
unfolding record_success trim_known
record_success-bound c ip now l =
    let known = insert (src_key c ip) (now + l.known_good_ttl) l.known_good in
    let fresh = retain (λ until. ltb now until) known in
    ground (arith, forget_oldest-bound (length fresh) fresh (le_refl (length fresh)))

-- The calls of others: no failure of the source `src` itself, and no success at all.
abbrev pub OthersFail : StrikeKey → History → Type 0
OthersFail src [] = Unit
OthersFail src ((t, asked c ip) ∷ h) = OthersFail src h
OthersFail src ((t, failed c ip) ∷ h) = ((src_key c ip == src) ≡ false) × OthersFail src h
OthersFail src ((t, passed c ip) ∷ h) = ⊥

locked-known :
    (c d : String) (ip jp : Option String) (now until : ℕ) (l : TotpLockout)
    → lookup (src_key d jp) l.known_good ≡ some until
    → now < until
    → lookup (src_key d jp) (locked c ip now l).1.known_good ≡ some until
unfolding locked is_known_good
locked-known c d ip jp now until l h lt = ground (
  arith,
  lookup-erase (src_key c ip) (src_key d jp) l.known_good,
  strike_key_has_eq.beq_iff (src_key c ip) (src_key d jp),
)

module _ (l : TotpLockout) (c : String) (ip : Option String) (now : ℕ) (before : History) where
  streak-others :
      (later : History)
      → OthersFail (src_key c ip) later
      → streak l.lockout (src_key c ip) now (later ++ before)
        ≡ streak l.lockout (src_key c ip) now before
  unfolding streak src_key same_key
  streak-others [] o = refl
  streak-others ((t, asked d jp) ∷ later) o = streak-others later o
  streak-others ((t, failed d jp) ∷ later) o = ground (arith, streak-others later o.1)
  streak-others ((t, passed d jp) ∷ later) o = absurd o

  sooner : (t until : ℕ) → leb t now ≡ true → now < until → t < until
  sooner t until le lt = ground arith

  known-others :
      (until : ℕ) (later : History)
      → OthersFail (src_key c ip) later
      → UpTo now (later ++ before)
      → now < until
      → lookup (src_key c ip) (after l before).known_good ≡ some until
      → lookup (src_key c ip) (after l (later ++ before)).known_good ≡ some until
  unfolding after record_failure
  known-others until [] o up lt h = h
  known-others until ((t, asked d jp) ∷ later) o up lt h =
      locked-known d c jp ip t until (after l (later ++ before))
        (known-others until later o (UpTo-later t now (later ++ before) (leb→le t now up.0) up.1) lt
          h)
        (sooner t until up.0 lt)
  known-others until ((t, failed d jp) ∷ later) o up lt h =
      known-others until later o.1 (UpTo-later t now (later ++ before) (leb→le t now up.0) up.1) lt
        h
  known-others until ((t, passed d jp) ∷ later) o up lt h = absurd o

  -- Others cannot lock a source out that has passed lately. From a state in which the lockout, started
  -- with no counters, remembers the source beyond `now` and the source's own streak is below its cap,
  -- any number of failures from other sources, at times that do not run backwards, leaves the source
  -- free to try at `now`.
  pub others-cannot_lock :
      (until : ℕ) (later : History)
      → l.strikes ≡ []
      → OthersFail (src_key c ip) later
      → UpTo now (later ++ before)
      → now < until
      → lookup (src_key c ip) (after l before).known_good ≡ some until
      → streak l.lockout (src_key c ip) now before < l.per_source
      → (locked c ip now (after l (later ++ before))).0 ≡ false
  unfolding is_known_good
  others-cannot_lock until later fresh o up lt h below = ground (
    arith,
    locked-streaks l fresh c ip now (later ++ before) up,
    streak-others later o,
    known-others until later o up lt h,
  )
