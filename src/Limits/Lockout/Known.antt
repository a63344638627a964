-- ===== src/Limits/Lockout/Known.antt =====
-- `locked` of ratelimit.py against the history of its calls alone: the streaks, and who passed lately.
use beacon_mcp.Base.{
  ℕ, suc, ◌+◌, ◌≤◌, String, ◌≡◌, refl, ap, ◌∙◌, Bool, false, ◌||◌, ◌&&◌, not, Option, [], ◌∷◌,
  arith, ltb, leb, if◌then◌else◌, ◌==◌, inl, inr, Option-cases, leb→le, length,
}
use beacon_mcp.Base.Dict.{
  Dict, lookup, insert, lookup-insert, lookup-erase, length-insert-le, length-erase-le,
}
use beacon_mcp.Limits.Lockout.{
  StrikeKey, by_client, TotpLockout, strike_key_has_eq, memory_cap, src_key, is_known_good, locked,
  record_failure, record_success, trim_known,
}
use beacon_mcp.Limits.Lockout.Spec.{asked, failed, passed, History, streak, after, UpTo}
use beacon_mcp.Limits.Lockout.Refines.{locked-streaks, after-settings, UpTo-later}

-- How often anyone passed.
unfoldable pub passes : History → ℕ
passes [] = 0
passes ((t, asked c ip) ∷ older) = passes older
passes ((t, failed c ip) ∷ older) = passes older
passes ((t, passed c ip) ∷ older) = suc (passes older)

-- The source passed once, less than `ttl` before `now`.
unfoldable pub passed_lately : ℕ → StrikeKey → ℕ → History → Bool
unfolding src_key
passed_lately ttl key now [] = false
passed_lately ttl key now ((t, asked c ip) ∷ older) = passed_lately ttl key now older
passed_lately ttl key now ((t, failed c ip) ∷ older) = passed_lately ttl key now older
passed_lately ttl key now ((t, passed c ip) ∷ older) =
    ((src_key c ip == key) && ltb now (t + ttl)) || passed_lately ttl key now older

not-passed_lately :
    (ttl : ℕ) (key : StrikeKey) (t now : ℕ) (h : History)
    → UpTo t h
    → t + ttl ≤ now
    → passed_lately ttl key now h ≡ false
unfolding passed_lately
not-passed_lately ttl key t now [] up le = refl
not-passed_lately ttl key t now ((u, asked c ip) ∷ older) up le =
    not-passed_lately ttl key t now older (UpTo-later u t older (leb→le u t up.0) up.1) le
not-passed_lately ttl key t now ((u, failed c ip) ∷ older) up le =
    not-passed_lately ttl key t now older (UpTo-later u t older (leb→le u t up.0) up.1) le
not-passed_lately ttl key t now ((u, passed c ip) ∷ older) up le = ground (
  arith,
  up.0,
  not-passed_lately ttl key t now older (UpTo-later u t older (leb→le u t up.0) up.1) le,
)

-- What the memory says of a source.
unfoldable good : StrikeKey → ℕ → Dict StrikeKey ℕ → Bool
unfolding is_known_good
good key now known = (is_known_good key now known).0

good-insert :
    (k j : StrikeKey) (until now : ℕ) (d : Dict StrikeKey ℕ)
    → good j now (insert k until d) ≡ (if k == j then ltb now until else good j now d)
unfolding good is_known_good
good-insert k j until now d = ground (arith, lookup-insert k j until d)

good-is_known_good :
    (k j : StrikeKey) (t now : ℕ) (d : Dict StrikeKey ℕ)
    → t ≤ now
    → good j now (is_known_good k t d).1 ≡ good j now d
unfolding good is_known_good
good-is_known_good k j t now d le = elim (Option-cases (lookup k d)) [
  | inl missing ↦ ground (arith, missing)
  | inr (until, found) ↦ ground (arith, found, lookup-erase k j d, strike_key_has_eq.beq_iff k j)
]

good-locked :
    (c : String) (ip : Option String) (j : StrikeKey) (t now : ℕ) (l : TotpLockout)
    → t ≤ now
    → good j now (locked c ip t l).1.known_good ≡ good j now l.known_good
unfolding locked
good-locked c ip j t now l le =
    ground (arith, good-is_known_good (src_key c ip) j t now l.known_good le)

is_known_good-length :
    (k : StrikeKey) (t : ℕ) (d : Dict StrikeKey ℕ) → length (is_known_good k t d).1 ≤ length d
unfolding is_known_good
is_known_good-length k t d = ground (arith, length-erase-le k d)

locked-length :
    (c : String) (ip : Option String) (t : ℕ) (l : TotpLockout)
    → length (locked c ip t l).1.known_good ≤ length l.known_good
unfolding locked
locked-length c ip t l = ground (arith, is_known_good-length (src_key c ip) t l.known_good)

-- With room left, a success is remembered and nothing is forgotten.
record_success-known :
    (c : String) (ip : Option String) (t : ℕ) (l : TotpLockout)
    → suc (length l.known_good) ≤ memory_cap
    → (record_success c ip t l).known_good
      ≡ insert (src_key c ip) (t + l.known_good_ttl) l.known_good
unfolding record_success trim_known
record_success-known c ip t l room =
    let known = insert (src_key c ip) (t + l.known_good_ttl) l.known_good in
    ground (arith, length-insert-le (src_key c ip) (t + l.known_good_ttl) l.known_good)

module _ (l : TotpLockout) (fresh : l.strikes ≡ []) (blank : l.known_good ≡ []) where
  after-length : (h : History) → passes h ≤ memory_cap → length (after l h).known_good ≤ passes h
  unfolding after passes record_failure
  after-length [] few = rw blank (omega arith)
  after-length ((t, asked c ip) ∷ older) few =
      omega (arith, locked-length c ip t (after l older), after-length older few)
  after-length ((t, failed c ip) ∷ older) few = after-length older few
  after-length ((t, passed c ip) ∷ older) few =
      let before = after-length older (omega arith) in
      rw (record_success-known c ip t (after l older) (omega (arith, before))) (
        omega (
          arith,
          before,
          length-insert-le (src_key c ip) (t + (after l older).known_good_ttl)
              (after l older).known_good,
        ))

  good-blank : (key : StrikeKey) (now : ℕ) → good key now l.known_good ≡ false
  unfolding good is_known_good lookup
  good-blank key now = rw blank refl

  after-good :
      (key : StrikeKey) (now : ℕ) (h : History)
      → UpTo now h
      → passes h ≤ memory_cap
      → good key now (after l h).known_good ≡ passed_lately l.known_good_ttl key now h
  unfolding after passes passed_lately record_failure
  after-good key now [] up few = good-blank key now
  after-good key now ((t, asked c ip) ∷ older) up few =
      let le = leb→le t now up.0 in
      good-locked c ip key t now (after l older) le
      ∙ after-good key now older (UpTo-later t now older le up.1) few
  after-good key now ((t, failed c ip) ∷ older) up few =
      after-good key now older (UpTo-later t now older (leb→le t now up.0) up.1) few
  after-good key now ((t, passed c ip) ∷ older) up few =
      let le = leb→le t now up.0 in
      let src = src_key c ip in
      let was = after l older in
      let known_ttl = (after-settings l fresh older).3 in
      let few' : passes older ≤ memory_cap = omega arith in
      ap (good key now)
        (record_success-known c ip t was (omega (arith, few, after-length older few')))
      ∙ good-insert src key (t + was.known_good_ttl) now was.known_good
      ∙ rw known_ttl (
          ground (
            arith,
            after-good key now older (UpTo-later t now older le up.1) few',
            not-passed_lately l.known_good_ttl key t now older up.1,
          ))

  -- The lockout, started with nothing in it and called at times that do not run backwards, of which
  -- at most 4096 are successes, says that the client is locked out for a source just when the
  -- source's own streak of failures has reached the cap of a source, or the source has not passed
  -- within the time that it is remembered and the streak of the client over all sources has reached
  -- the cap of a client. Streaks and passes are read off the history alone.
  pub locked-passed_lately :
      (c : String) (ip : Option String) (now : ℕ) (h : History)
      → UpTo now h
      → passes h ≤ memory_cap
      → (locked c ip now (after l h)).0 ≡ (
          leb l.per_source (streak l.lockout (src_key c ip) now h)
          || (not (passed_lately l.known_good_ttl (src_key c ip) now h)
              && leb l.per_client (streak l.lockout (by_client c) now h)))
  locked-passed_lately c ip now h up few =
      locked-streaks l fresh c ip now h up
      ∙ rw (← after-good (src_key c ip) now h up few) (unfold good in refl)
