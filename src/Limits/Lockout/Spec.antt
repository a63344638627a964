-- ===== src/Limits/Lockout/Spec.antt =====
-- What a counter of the lockout promises, read off the history alone.
use beacon_mcp.Base.{
  ℕ, ◌+◌, String, ◌≡◌, true, ◌||◌, Option, List, [], ◌∷◌, leb, if◌then◌else◌, ◌==◌,
}
use beacon_mcp.Limits.Lockout.{
  StrikeKey, by_client, TotpLockout, strike_key_has_eq, src_key, locked, record_failure,
  record_success,
}

-- A call of the lockout.
pub data Event : Type 0 where
  asked : String → Option String → Event
  failed : String → Option String → Event
  passed : String → Option String → Event

-- The history, the last call first, each with its time.
abbrev pub History : Type 0
History = List (ℕ × Event)

-- The failures of `key` up to `later` that follow each other within the cooldown, and follow the last
-- success of the source.
unfoldable pub streak : ℕ → StrikeKey → ℕ → History → ℕ
unfolding src_key
streak lockout key later [] = 0
streak lockout key later ((t, asked c ip) ∷ older) = streak lockout key later older
streak lockout key later ((t, failed c ip) ∷ older) =
    let before = streak lockout key t older in
    let others = streak lockout key later older in
    if (by_client c == key) || (src_key c ip == key)
    then (if leb (t + lockout) later then 0 else before + 1)
    else others
streak lockout key later ((t, passed c ip) ∷ older) =
    let others = streak lockout key later older in if src_key c ip == key then 0 else others

-- The lockout after the calls of a history, from its state at the start.
unfoldable pub after : TotpLockout → History → TotpLockout
unfolding locked record_failure record_success
after l [] = l
after l ((t, asked c ip) ∷ older) = (locked c ip t (after l older)).1
after l ((t, failed c ip) ∷ older) = record_failure c ip t (after l older)
after l ((t, passed c ip) ∷ older) = record_success c ip t (after l older)

-- The clock does not run backwards, up to `now`.
abbrev pub UpTo : ℕ → History → Type 0
UpTo now [] = Unit
UpTo now ((t, e) ∷ older) = (leb t now ≡ true) × UpTo t older
