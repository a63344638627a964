-- ===== src/Limits/Lockout.antt =====
-- `TotpLockout` of ratelimit.py: the cooldown after wrong second factors.
pub mod Spec
pub mod Refines
pub mod Memory
pub mod Known
mod Tests
use beacon_mcp.Base.{
  ℕ, zero, suc, ◌+◌, String, ◌≡◌, ◌↔◌, refl, Bool, true, false, ◌&&◌, Option, none, some, List, [],
  ◌∷◌, arith, ltb, leb, if◌then◌else◌, Eq, ◌==◌, eq_of_true, eq_refl, string_has_eq, length,
}
use beacon_mcp.Base.Dict.{Dict, lookup, insert, erase, retain}
use beacon_mcp.Clock.{seconds}

-- The keys `("src", client_id, ip)` and `("client", client_id)`.
pub data StrikeKey : Type 0 where
  by_source : String → String → StrikeKey
  by_client : String → StrikeKey

unfoldable pub same_key : StrikeKey → StrikeKey → Bool
same_key (by_source c i) (by_source d j) = (c == d) && (i == j)
same_key (by_client c) (by_client d) = c == d
same_key (by_source c i) (by_client d) = false
same_key (by_client c) (by_source d j) = false

pub same_key_iff : (a b : StrikeKey) → (same_key a b ≡ true) ↔ (a ≡ b)
unfolding same_key
same_key_iff (by_source c i) (by_source d j) =
    ground (arith, string_has_eq.beq_iff c d, string_has_eq.beq_iff i j)
same_key_iff (by_client c) (by_client d) = ground (arith, string_has_eq.beq_iff c d)
same_key_iff (by_source c i) (by_client d) = ground arith
same_key_iff (by_client c) (by_source d j) = ground arith

instance abbrev pub strike_key_has_eq : Eq StrikeKey
strike_key_has_eq = record { beq = same_key; beq_iff = same_key_iff }

-- A counter: its failures, and when its cooldown ends.
abbrev pub Strikes : Type 0
Strikes = Dict StrikeKey (ℕ × ℕ)

pub record TotpLockout : Type 0 where
  pub per_source : ℕ
  pub per_client : ℕ
  pub lockout : ℕ
  pub known_good_ttl : ℕ
  pub strikes : Strikes
  pub known_good : Dict StrikeKey ℕ

-- `TotpLockout()` with its default arguments.
abbrev pub default_lockout : TotpLockout
default_lockout = record {
  per_source = 5;
  per_client = 10;
  lockout = seconds 300;
  known_good_ttl = seconds 2592000;
  strikes = [];
  known_good = [];
}

abbrev pub memory_cap : ℕ
memory_cap = 4096

-- `ip or "-"`
unfoldable pub source_name : Option String → String
source_name none = "-"
source_name (some ip) = if ip == "" then "-" else ip

-- `_src_key`
unfoldable pub src_key : String → Option String → StrikeKey
unfolding source_name
src_key client_id ip = by_source client_id (source_name ip)

-- `_count_locked`: a counter whose cooldown has passed is deleted.
unfoldable pub count_locked : StrikeKey → ℕ → Strikes → ℕ × Strikes
count_locked key now strikes = elim (lookup key strikes) [
  | none ↦ (0, strikes)
  | some (count, until) ↦ if leb until now then (0, erase key strikes) else (count, strikes)
]

-- `_is_known_good`
unfoldable pub is_known_good : StrikeKey → ℕ → Dict StrikeKey ℕ → Bool × Dict StrikeKey ℕ
is_known_good key now known = elim (lookup key known) [
  | none ↦ (false, known)
  | some until ↦ if leb until now then (false, erase key known) else (true, known)
]

-- `locked`
unfoldable pub locked : String → Option String → ℕ → TotpLockout → Bool × TotpLockout
unfolding src_key count_locked is_known_good
locked client_id ip now l =
    let src = src_key client_id ip in
    let (own, strikes) = count_locked src now l.strikes in
    if leb l.per_source own
    then (true, record l { strikes = strikes })
    else let (good, known) = is_known_good src now l.known_good in
      if good
      then (false, record l { strikes = strikes; known_good = known })
      else let (total, strikes) = count_locked (by_client client_id) now strikes in
        (leb l.per_client total, record l { strikes = strikes; known_good = known })

-- One counter of `record_failure`: `(self._count_locked(key, now) + 1, until)`.
unfoldable pub add_strike : StrikeKey → ℕ → ℕ → Strikes → Strikes
unfolding count_locked
add_strike key now until strikes =
    let (count, strikes) = count_locked key now strikes in insert key (count + 1, until) strikes

-- The sweep of the counters whose cooldown has passed.
unfoldable pub sweep_strikes : ℕ → Strikes → Strikes
sweep_strikes now strikes =
    if ltb memory_cap (length strikes) then retain (λ entry. ltb now entry.1) strikes else strikes

-- `record_failure`
unfoldable pub record_failure : String → Option String → ℕ → TotpLockout → TotpLockout
unfolding src_key add_strike sweep_strikes
record_failure client_id ip now l =
    let until = now + l.lockout in
    let strikes = add_strike (by_client client_id) now until l.strikes in
    let strikes = add_strike (src_key client_id ip) now until strikes in
    record l { strikes = sweep_strikes now strikes }

-- `min(self._known_good, key=self._known_good.__getitem__)`: the first of the earliest entries.
pub earliest : StrikeKey → ℕ → Dict StrikeKey ℕ → StrikeKey
earliest key until [] = key
earliest key until ((j, t) ∷ known) =
    if ltb t until then earliest j t known else earliest key until known

-- `while len(self._known_good) > 4096`, for at most so many rounds.
pub forget_oldest : ℕ → Dict StrikeKey ℕ → Dict StrikeKey ℕ
unfolding earliest
forget_oldest zero known = known
forget_oldest (suc n) known = elim (ltb memory_cap (length known)) [
  | true ↦ elim known [
    | [] ↦ []
    | (j, t) ∷ rest ↦ forget_oldest n (erase (earliest j t rest) ((j, t) ∷ rest))
  ]
  | false ↦ known
]

-- What `record_success` does when too many sources are remembered.
unfoldable pub trim_known : ℕ → Dict StrikeKey ℕ → Dict StrikeKey ℕ
unfolding forget_oldest
trim_known now known =
    if ltb memory_cap (length known)
    then (let fresh = retain (λ until. ltb now until) known in forget_oldest (length fresh) fresh)
    else known

-- `record_success`
unfoldable pub record_success : String → Option String → ℕ → TotpLockout → TotpLockout
unfolding src_key trim_known
record_success client_id ip now l =
    let src = src_key client_id ip in
    record l {
      strikes = erase src l.strikes;
      known_good = trim_known now (insert src (now + l.known_good_ttl) l.known_good);
    }
