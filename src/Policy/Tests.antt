-- ===== src/Policy/Tests.antt =====
-- The theorems on the policy engine at concrete proposals.
use stock_agent.Base.{
  ℕ, ◌≡◌, refl, if◌then◌else◌, ◌+◌, ◌&&◌, ◌*◌, ◌/◌, true, false, is_some, Option, none, some, [],
  ◌∷◌, arith,
}
use stock_agent.Base.Int.{ℤ, pos, pos_part, max_ℤ, min_ℤ, ◌-ℤ◌, ◌+ℤ◌, ◌≤ℤ◌, leb_ℤ}
use stock_agent.Policy.Model.{
  Arithmetic, Proposal, PolicyContext, buy, default_limits, ProposalV2, healthy,
}
use stock_agent.Policy.First.{
  evaluate, rejections, checks, check_restricted_universe, check_st_suspension,
  check_minimum_evidence, check_minimum_confidence, check_factor_coverage, check_liquidity,
  check_drawdown_mode, check_single_position_limit, check_industry_exposure, check_theme_exposure,
  lower_all,
}
use stock_agent.Policy.FirstBounds.{IsRounding, FitsPosition, IsAdmissible}
use stock_agent.Policy.FirstSafety.{approved_is_safe, fitting_is_kept}
use stock_agent.Policy.Second.{
  v2_target, current_weight, evaluate_v2, evaluate_v2_checks, limit_position, limit_gross,
  limit_net, limit_industry, limit_theme, limit_drawdown, liquidity_pass, state_pass, evidence_ok,
  check_factor, factor_value, factor_required, dependencies_ok, evidence_fresh_ok, portfolio_ok,
  has_reject, RuleId, lower,
}
use stock_agent.Policy.Contract.{validate_trace, last_adjustment}
use stock_agent.Policy.Accepted.{exact_accepted}
use stock_agent.Policy.SecondLimits.{FitsLimits}
use stock_agent.Policy.SecondSafety.{PassesGates, approved_v2_is_safe}

-- Arithmetic in millionths that rounds no sum: products down, and no rounding to six digits.
abbrev exact : Arithmetic
exact = record {
  plus = λ a b. a +ℤ b;
  minus = λ a b. a -ℤ b;
  times = λ a b. pos (pos_part a * pos_part b / 1000000);
  round6 = λ x. x;
}

exact-IsRounding : IsRounding exact.round6
exact-IsRounding = record { keeps_order = λ a b h. h; keeps_zero = refl; again = λ a. refl }

abbrev proposal : ℤ → Proposal
proposal w = record {
  symbol = 7;
  action = buy;
  proposed_weight = w;
  confidence = 800000;
  sector = some 3;
  theme = none;
  evidence_count = 2;
  factor_coverage = 900000;
  liquidity_ok = true;
  is_st = false;
  is_suspended = false;
}

abbrev holds_30 : ℕ → Option ℤ
holds_30 _ = some (pos 30000)

abbrev context : PolicyContext
context = record {
  portfolio_drawdown_mode = false;
  restricted_universe = 9 ∷ [];
  existing_weights = holds_30;
  industry_weights = λ _. some (pos 260000);
  theme_weights = λ _. none;
  domain_coverage = λ _. some 800000;
  gross_exposure = some (pos 500000);
  net_exposure = some (pos 500000);
  portfolio_available = some true;
  portfolio_snapshot_at = some 1;
  portfolio_snapshot_fresh = some true;
  portfolio_snapshot_freshness_seconds = some 10;
  max_portfolio_snapshot_age_seconds = 86400;
  dependency_health = λ _. some healthy;
  dependency_status = λ _. none;
  evidence_freshness_seconds = some 60;
  evidence_fresh = none;
  max_evidence_age_seconds = 86400;
  risk_veto = false;
  subject_sectors = λ _. some 3;
  subject_themes = λ _. none;
  liquidity_ok = λ _. some true;
  security_is_st = λ _. some false;
  security_is_suspended = λ _. some false;
  required_domains = [];
  required_dependencies = [];
  skill_required_dependencies = [];
  dependency_required = [];
}

cut_to_industry :
    (evaluate exact (proposal (pos 60000)) context default_limits).approved_weight ≡ pos 40000
unfolding evaluate rejections checks check_restricted_universe check_st_suspension
    check_minimum_evidence check_minimum_confidence check_factor_coverage check_liquidity
    check_drawdown_mode check_single_position_limit max_ℤ ◌-ℤ◌ check_industry_exposure
    check_theme_exposure lower_all min_ℤ
cut_to_industry = refl

is_approved : (evaluate exact (proposal (pos 60000)) context default_limits).approved ≡ true
unfolding evaluate rejections checks check_restricted_universe check_st_suspension
    check_minimum_evidence check_minimum_confidence check_factor_coverage check_liquidity
    check_drawdown_mode check_single_position_limit max_ℤ ◌-ℤ◌ check_industry_exposure
    check_theme_exposure lower_all min_ℤ
is_approved = refl

approved_is_safe_example :
    let w = (evaluate exact (proposal (pos 60000)) context default_limits).approved_weight in
    (pos 0 ≤ℤ w)
    × (w ≤ℤ pos 60000)
    × FitsPosition exact exact.round6 (proposal (pos 60000)) context default_limits w
    × IsAdmissible (proposal (pos 60000)) context default_limits
approved_is_safe_example =
    approved_is_safe exact (proposal (pos 60000)) context default_limits exact-IsRounding
      is_approved

fits_40 : FitsPosition exact exact.round6 (proposal (pos 40000)) context default_limits (pos 40000)
unfolding max_ℤ ◌-ℤ◌
fits_40 = (omega arith, omega arith, tt, omega arith)

admits_40 : IsAdmissible (proposal (pos 40000)) context default_limits
admits_40 = (refl, refl, omega arith, omega arith, omega arith, refl)

fitting_is_kept_holds :
    ((evaluate exact (proposal (pos 40000)) context default_limits).approved ≡ true)
    × ((evaluate exact (proposal (pos 40000)) context default_limits).approved_weight ≡ pos 40000)
    × ((evaluate exact (proposal (pos 40000)) context default_limits).rejected_by ≡ [])
fitting_is_kept_holds =
    fitting_is_kept exact (proposal (pos 40000)) context default_limits (omega arith) fits_40
      admits_40

abbrev purchase : ProposalV2
purchase = record {
  is_symbol = true;
  subject_key = some 7;
  action = buy;
  target_weight = some (pos 120000);
  weight_delta = none;
  confidence = 800000;
  evidence_refs = 1 ∷ 2 ∷ [];
}

target_is_12 : v2_target exact purchase (current_weight purchase context) ≡ some (pos 120000)
unfolding v2_target
target_is_12 = refl

purchase_approved : (evaluate_v2 exact purchase context default_limits).approved ≡ true
unfolding evaluate_v2 v2_target evaluate_v2_checks limit_position limit_gross limit_net
    limit_industry limit_theme limit_drawdown liquidity_pass state_pass evidence_ok check_factor
    factor_value factor_required dependencies_ok evidence_fresh_ok portfolio_ok has_reject min_ℤ
    max_ℤ ◌-ℤ◌ ◌+ℤ◌
purchase_approved = refl

approved_v2_is_safe_example :
    ((w : ℤ) × ((evaluate_v2 exact purchase context default_limits).final_value ≡ some w)
      × (w ≤ℤ pos 120000)
      × FitsLimits exact purchase context default_limits w)
    × PassesGates exact purchase context default_limits
approved_v2_is_safe_example =
    approved_v2_is_safe exact purchase context default_limits (pos 120000) target_is_12
      purchase_approved

-- A purchase above the limit on one position: the trace holds an adjustment.
abbrev large_purchase : ProposalV2
large_purchase = record purchase { target_weight = some (pos 900000) }

large_is_cut :
    ((evaluate_v2 exact large_purchase context default_limits).final_value ≡ some (pos 40000))
    × (is_some (last_adjustment (evaluate_v2 exact large_purchase context default_limits).trace)
        ≡ true)
unfolding evaluate_v2 v2_target evaluate_v2_checks limit_position limit_gross limit_net
    limit_industry limit_theme limit_drawdown liquidity_pass state_pass evidence_ok check_factor
    factor_value factor_required dependencies_ok evidence_fresh_ok portfolio_ok has_reject min_ℤ
    max_ℤ ◌-ℤ◌ ◌+ℤ◌ last_adjustment
large_is_cut = (refl, refl)

-- A value that is not the one of the last adjustment is refused.
other_value_refused :
    validate_trace (record {
      trace = (lower RuleId.single_position_limit false (pos 9) (pos 5)).0 ∷ [];
      approved = true;
      final_value = some (pos 9);
    })
    ≡ false
unfolding validate_trace has_reject last_adjustment min_ℤ
other_value_refused = refl

large_accepted : validate_trace (evaluate_v2 exact large_purchase context default_limits) ≡ true
large_accepted =
    exact_accepted exact large_purchase context default_limits
      (record { sums = λ a b. refl; differences = λ a b. refl })

-- A difference that is rounded down by one unit, as 1.0 - 0.9 is in doubles.
abbrev rough : Arithmetic
rough = record exact {
  minus =
      λ a b. if leb_ℤ (pos 1000000) a && leb_ℤ (pos 900000) b then (a -ℤ b) -ℤ pos 1 else a -ℤ b;
}

abbrev loaded : PolicyContext
loaded = record context {
  gross_exposure = some (pos 900000);
  existing_weights = λ _. none;
  subject_sectors = λ _. none;
}

-- The position limit adjusts the target to 0.1, the gross limit passes it and lowers it again, and
-- the evaluation is refused.
gap_is_refused :
    ((evaluate_v2 rough purchase loaded default_limits).final_value ≡ some (pos 99999))
    × (validate_trace (evaluate_v2 rough purchase loaded default_limits) ≡ false)
unfolding evaluate_v2 v2_target evaluate_v2_checks limit_position limit_gross limit_net
    limit_industry limit_theme limit_drawdown liquidity_pass state_pass evidence_ok check_factor
    factor_value factor_required dependencies_ok evidence_fresh_ok portfolio_ok has_reject min_ℤ
    max_ℤ ◌-ℤ◌ ◌+ℤ◌ last_adjustment validate_trace
gap_is_refused = (refl, refl)

-- Units ten times as fine as the sixth digit.
abbrev rounded : Arithmetic
rounded = record exact { round6 = λ x. pos ((pos_part x + 5) / 10 * 10) }

abbrev open_market : PolicyContext
open_market = record context { existing_weights = λ _. none; industry_weights = λ _. none }

-- Rounding may raise the approved weight above the one proposed, and may leave nothing of it.
rounding_raises :
    ((evaluate rounded (proposal (pos 66667)) open_market default_limits).approved_weight
      ≡ pos 66670)
    × ((evaluate rounded (proposal (pos 4)) open_market default_limits).approved ≡ true)
    × ((evaluate rounded (proposal (pos 4)) open_market default_limits).approved_weight ≡ pos 0)
unfolding evaluate rejections checks check_restricted_universe check_st_suspension
    check_minimum_evidence check_minimum_confidence check_factor_coverage check_liquidity
    check_drawdown_mode check_single_position_limit max_ℤ ◌-ℤ◌ check_industry_exposure
    check_theme_exposure lower_all min_ℤ
rounding_raises = (refl, refl, refl)
