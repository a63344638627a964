-- ===== src/Dashboard/Usage/Caps.antt =====
-- What a turn costs, and when the caps refuse one.
use beacon_mcp.Base.{
  ℕ, ◌+◌, ◌-◌, ◌*◌, ◌≤◌, ◌<◌, String, ◌≡◌, ◌↔◌, ◌⊎◌, subst, ◌∙◌, Option, none, some, ltb,
  string_has_eq, Option-cases, Bool-cases, inl, inr, arith,
}
use native.Mathlib.Nat.{mul-le-mul_left, sub-add_cancel}
use beacon_mcp.Base.Dict.{lookup, Every, Every-lookup}
use beacon_mcp.Dashboard.Usage.{
  Tier, Rates, pricing, rates_of, tier_of, cost_usd, UsageStore, snapshot, check_budget, row_spent,
  open_row, spent_week, tier_threshold,
}

-- Cached tokens are never dearer than others.
abbrev Fair : Tier → Type 0
Fair t = t.cached ≤ t.input

abbrev FairHi : Option Tier → Type 0
FairHi none = Unit
FairHi (some hi) = Fair hi

abbrev FairRates : Rates → Type 0
FairRates r = Fair r.base × FairHi r.hi

pricing-Fair : Every (λ _ r. FairRates r) pricing
pricing-Fair = ground arith

rates-Fair : (model : String) → FairRates (rates_of model)
unfolding rates_of
rates-Fair model = elim (Option-cases (lookup model pricing)) [
  | inl missing ↦ rw (missing, rates_of) (omega arith, tt)
  | inr (r, found) ↦
      rw (found, rates_of) (Every-lookup (λ _ r. FairRates r) model r pricing pricing-Fair found)
]

tier-Fair : (r : Rates) (n : ℕ) → FairRates r → Fair (tier_of r n)
unfolding tier_of
tier-Fair r n fair = elim (Option-cases r.hi) [
  | inl no_hi ↦ rw (no_hi, tier_of) fair.0
  | inr (hi, has_hi) ↦
      let fair_hi = subst FairHi has_hi fair.1 in
      rw (has_hi, tier_of)
        (elim (Bool-cases (ltb tier_threshold n)) [
          | inl long ↦ rw long fair_hi
          | inr short ↦ rw short fair.0
        ])
]

no_cache : (p : ℕ) → p ≡ p - 0
no_cache p = omega arith

spread : (d c i k o : ℕ) → k ≤ i → d * i + c * k + o ≤ (d + c) * i + 0 * k + o
spread d c i k o le = omega (arith, mul-le-mul_left c le)

-- For any model, a prompt read from the cache costs no more than the same prompt read afresh, provided
-- that the cached tokens are some of the prompt's.
pub cost-cached_le :
    (model : String) (prompt_tokens cached_tokens output_tokens : ℕ)
    → cached_tokens ≤ prompt_tokens
    → cost_usd model prompt_tokens cached_tokens output_tokens
      ≤ cost_usd model prompt_tokens 0 output_tokens
unfolding cost_usd
cost-cached_le model prompt_tokens cached_tokens output_tokens le =
    let tier = tier_of (rates_of model) prompt_tokens in
    let d = prompt_tokens - cached_tokens in
    let fair = tier-Fair (rates_of model) prompt_tokens (rates-Fair model) in
    subst
      (λ p.
        d * tier.input + cached_tokens * tier.cached + output_tokens * tier.output
        ≤ p * tier.input + 0 * tier.cached + output_tokens * tier.output)
      (sub-add_cancel le ∙ no_cache prompt_tokens)
      (spread d cached_tokens tier.input tier.cached (output_tokens * tier.output) fair)

-- A turn is let through exactly when each cap that is set, that is, is not 0, is above what was spent in
-- its window: the session of five hours that is still open, and the last seven days.
pub check_budget-none_iff :
    (client_id : String) (now : ℕ) (s : UsageStore)
    → (check_budget client_id now s ≡ none) ↔ (
        ((s.budget.limit_5h_usd ≡ 0)
          ⊎ (row_spent (open_row now (lookup client_id s.usage_5h_sessions))
              < s.budget.limit_5h_usd))
        × ((s.budget.limit_week_usd ≡ 0)
            ⊎ (spent_week client_id now s.usage_events < s.budget.limit_week_usd)))
unfolding check_budget snapshot
check_budget-none_iff client_id now s = ground arith
