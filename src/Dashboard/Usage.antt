-- ===== src/Dashboard/Usage.antt =====
-- dashboard/usage.py: the price of a turn, the ledger of turns, and the caps on what a client spends.
pub mod Ledger
pub mod Caps
use beacon_mcp.Base.{
  ℕ, ◌+◌, ◌-◌, ◌*◌, String, Bool, true, false, ◌&&◌, ◌||◌, not, Option, none, some, List, [], ◌∷◌,
  ◌++◌, ltb, leb, is_some, if◌then◌else◌, string_has_eq, Result, ok, err, ◌==◌,
}
use beacon_mcp.Base.Dict.{Dict, lookup, insert}
use beacon_mcp.Clock.{seconds}

-- Rates in thousandths of a dollar for a million tokens, so that a cost is a whole number of billionths
-- of a dollar.
pub record Tier : Type 0 where
  pub input : ℕ
  pub cached : ℕ
  pub output : ℕ

pub record Rates : Type 0 where
  pub base : Tier
  pub hi : Option Tier

-- `_PRICING`
abbrev pub pricing : Dict String Rates
pricing =
    (
      "gemini-3.6-flash",
      record { base = record { input = 1500; cached = 150; output = 7500 }; hi = none },
    )
    ∷ (
      "gemini-3.5-flash-lite",
      record { base = record { input = 300; cached = 30; output = 2500 }; hi = none },
    )
    ∷ (
      "gemini-3.1-pro-preview",
      record {
        base = record { input = 2000; cached = 200; output = 12000 };
        hi = some (record { input = 4000; cached = 400; output = 18000 });
      },
    )
    ∷ (
      "gemini-2.5-flash",
      record { base = record { input = 300; cached = 30; output = 2500 }; hi = none },
    )
    ∷ (
      "gemini-2.5-pro",
      record {
        base = record { input = 1250; cached = 125; output = 10000 };
        hi = some (record { input = 2500; cached = 250; output = 15000 });
      },
    )
    ∷ (
      "gemini-3-flash-preview",
      record { base = record { input = 500; cached = 50; output = 3000 }; hi = none },
    )
    ∷ []

abbrev pub fallback_rates : Rates
fallback_rates = record { base = record { input = 1500; cached = 150; output = 7500 }; hi = none }

abbrev pub tier_threshold : ℕ
tier_threshold = 200000

abbrev pub five_hours : ℕ
five_hours = seconds 18000

abbrev pub seven_days : ℕ
seven_days = seconds 604800

-- `_PRICING.get(model) or _PRICING["gemini-3.6-flash"]`
pub rates_of : String → Rates
unfolding lookup
rates_of model = elim (lookup model pricing) [ none ↦ fallback_rates | some rates ↦ rates ]

-- The rates for a prompt of so many tokens.
pub tier_of : Rates → ℕ → Tier
tier_of rates prompt_tokens = elim rates.hi [
  | none ↦ rates.base
  | some hi ↦ if ltb tier_threshold prompt_tokens then hi else rates.base
]

-- `UsageMeter.cost_usd`
pub cost_usd : String → ℕ → ℕ → ℕ → ℕ
unfolding rates_of tier_of
cost_usd model prompt_tokens cached_tokens output_tokens =
    let tier = tier_of (rates_of model) prompt_tokens in
    (prompt_tokens - cached_tokens) * tier.input
    + cached_tokens * tier.cached
    + output_tokens * tier.output

-- A cap of 0 is no cap.
pub record Budget : Type 0 where
  pub limit_5h_usd : ℕ
  pub limit_week_usd : ℕ

-- `has_any_limit`
abbrev pub has_any_limit : Budget → Bool
has_any_limit b = ltb 0 b.limit_5h_usd || ltb 0 b.limit_week_usd

-- A row of `usage_events`.
pub record UsageEvent : Type 0 where
  pub id : String
  pub client_id : String
  pub ts : ℕ
  pub model : String
  pub cost_usd : ℕ

-- A row of `usage_5h_sessions`.
pub record SessionRow : Type 0 where
  pub started_at : ℕ
  pub last_event_at : ℕ
  pub cost_usd : ℕ

pub record UsageStore : Type 0 where
  pub budget : Budget
  pub usage_events : List UsageEvent
  pub usage_5h_sessions : Dict String SessionRow

-- The primary key of `usage_events` is taken.
pub has_id : String → List UsageEvent → Bool
has_id id [] = false
has_id id (ev ∷ events) = (ev.id == id) || has_id id events

-- The row that `_apply_to_session` writes over the one it finds.
pub next_row : Option SessionRow → ℕ → ℕ → SessionRow
next_row none ts cost = record { started_at = ts; last_event_at = ts; cost_usd = cost }
next_row (some row) ts cost =
    if leb (row.started_at + five_hours) ts
    then record { started_at = ts; last_event_at = ts; cost_usd = cost }
    else record row { last_event_at = ts; cost_usd = row.cost_usd + cost }

-- `_apply_to_session`
pub apply_to_session : String → ℕ → ℕ → Dict String SessionRow → Dict String SessionRow
unfolding next_row
apply_to_session client_id ts cost sessions =
    insert client_id (next_row (lookup client_id sessions) ts cost) sessions

pub data IntegrityError : Type 0 where
  duplicate_id : String → IntegrityError

-- `record_turn`: both writes, or none of them.
unfoldable pub record_turn : UsageEvent → UsageStore → Result IntegrityError UsageStore
unfolding has_id apply_to_session
record_turn ev s =
    if has_id ev.id s.usage_events
    then err (duplicate_id ev.id)
    else ok (record s {
      usage_events = s.usage_events ++ (ev ∷ []);
      usage_5h_sessions = apply_to_session ev.client_id ev.ts ev.cost_usd s.usage_5h_sessions;
    })

pub record UsageSnapshot : Type 0 where
  pub spent_5h_usd : ℕ
  pub limit_5h_usd : ℕ
  pub session_5h_started_at : Option ℕ
  pub session_5h_reset_at : Option ℕ
  pub spent_week_usd : ℕ
  pub limit_week_usd : ℕ

-- `SELECT SUM(cost_usd) ... WHERE client_id = ? AND ts >= ?`
pub spent_week : String → ℕ → List UsageEvent → ℕ
spent_week client_id now [] = 0
spent_week client_id now (ev ∷ events) =
    let rest = spent_week client_id now events in
    if (ev.client_id == client_id) && leb now (ev.ts + seven_days) then ev.cost_usd + rest else rest

-- The session row, unless its window has closed.
abbrev pub open_row : ℕ → Option SessionRow → Option SessionRow
open_row now none = none
open_row now (some row) = if leb (row.started_at + five_hours) now then none else some row

abbrev pub row_spent : Option SessionRow → ℕ
row_spent none = 0
row_spent (some row) = row.cost_usd

abbrev pub row_start : Option SessionRow → Option ℕ
row_start none = none
row_start (some row) = some row.started_at

abbrev pub row_reset : Option SessionRow → Option ℕ
row_reset none = none
row_reset (some row) = some (row.started_at + five_hours)

-- `snapshot`
pub snapshot : String → ℕ → UsageStore → UsageSnapshot
unfolding spent_week
snapshot client_id now s =
    let row = open_row now (lookup client_id s.usage_5h_sessions) in
    record {
      spent_5h_usd = row_spent row;
      limit_5h_usd = s.budget.limit_5h_usd;
      session_5h_started_at = row_start row;
      session_5h_reset_at = row_reset row;
      spent_week_usd = spent_week client_id now s.usage_events;
      limit_week_usd = s.budget.limit_week_usd;
    }

-- `BudgetBlock`, by its window.
pub data BudgetBlock : Type 0 where
  block_5h : ℕ → ℕ → Option ℕ → BudgetBlock
  block_week : ℕ → ℕ → BudgetBlock

-- `check_budget`
pub check_budget : String → ℕ → UsageStore → Option BudgetBlock
unfolding snapshot
check_budget client_id now s =
    if not (has_any_limit s.budget)
    then none
    else let snap = snapshot client_id now s in
      if ltb 0 snap.limit_5h_usd && leb snap.limit_5h_usd snap.spent_5h_usd
      then some (block_5h snap.spent_5h_usd snap.limit_5h_usd snap.session_5h_reset_at)
      else if ltb 0 snap.limit_week_usd && leb snap.limit_week_usd snap.spent_week_usd
      then some (block_week snap.spent_week_usd snap.limit_week_usd)
      else none
