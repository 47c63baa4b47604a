-- ===== src/Policy/First.antt =====
-- The first generation of rules and the branch of `PolicyEngine.evaluate` that applies them:
-- POLICY_RULES of engines/policy/rules.py and `evaluate` of engines/policy/engine.py. The texts of
-- the reasons are left out, and sums, products and `round(x, 6)` are those of `Arithmetic`.
use stock_agent.Base.{
  ℕ, zero, suc, Bool, true, false, not, ◌&&◌, ◌||◌, Option, none, some, List, [], ◌∷◌, ltb,
  if◌then◌else◌, contains,
}
use stock_agent.Base.Int.{ℤ, pos, max_ℤ, min_ℤ, ltb_ℤ}
use stock_agent.Policy.Model.{
  Proposal, PolicyContext, PolicyLimits, Action, buy, Arithmetic, drawdown_cap, weight_of,
}

pub data Rule : Type 0 where
  single_position_limit industry_exposure theme_exposure liquidity drawdown_mode : Rule
  restricted_universe st_suspension minimum_evidence minimum_confidence factor_coverage : Rule

pub record PolicyCheck : Type 0 where
  pub rule : Rule
  pub passed : Bool
  pub adjusted_weight : Option ℤ

abbrev pub verdict : Rule → Bool → PolicyCheck
verdict r ok = record { rule = r; passed = ok; adjusted_weight = none }

-- A rule that offers `allowed` where more is proposed.
abbrev pub capped : Arithmetic → Rule → Bool → ℤ → ℤ → PolicyCheck
capped f r soft_pass proposed allowed =
    if ltb_ℤ allowed proposed
    then record { rule = r; passed = soft_pass; adjusted_weight = some (f.round6 allowed) }
    else verdict r true

abbrev pub position_cap : Arithmetic → PolicyContext → PolicyLimits → ℤ
position_cap f c l =
    if c.portfolio_drawdown_mode then drawdown_cap f l else pos l.single_position_limit

abbrev pub position_room : Arithmetic → Proposal → PolicyContext → PolicyLimits → ℤ
position_room f p c l =
    max_ℤ (pos 0) (f.minus (position_cap f c l) (weight_of c.existing_weights p.symbol))

unfoldable pub check_single_position_limit :
    Arithmetic → Proposal → PolicyContext → PolicyLimits → PolicyCheck
check_single_position_limit f p c l =
    let allowed = position_room f p c l in
    capped f single_position_limit (ltb_ℤ (pos 0) allowed) p.proposed_weight allowed

-- The room that a group of which `weights` are held leaves under a limit.
abbrev pub group_room : Arithmetic → (ℕ → Option ℤ) → ℕ → ℕ → ℤ
group_room f weights key limit = max_ℤ (pos 0) (f.minus (pos limit) (weight_of weights key))

abbrev pub check_group : Arithmetic → Rule → Option ℕ → (ℕ → Option ℤ) → ℕ → ℤ → PolicyCheck
check_group f r none weights limit proposed = verdict r true
check_group f r (some zero) weights limit proposed = verdict r true
check_group f r (some (suc k)) weights limit proposed =
    capped f r false proposed (group_room f weights (suc k) limit)

unfoldable pub check_industry_exposure :
    Arithmetic → Proposal → PolicyContext → PolicyLimits → PolicyCheck
check_industry_exposure f p c l =
    check_group f industry_exposure p.sector c.industry_weights l.industry_exposure_limit
      p.proposed_weight

unfoldable pub check_theme_exposure :
    Arithmetic → Proposal → PolicyContext → PolicyLimits → PolicyCheck
check_theme_exposure f p c l =
    check_group f theme_exposure p.theme c.theme_weights l.theme_exposure_limit p.proposed_weight

unfoldable pub check_liquidity : Proposal → PolicyContext → PolicyLimits → PolicyCheck
check_liquidity p c l = verdict liquidity p.liquidity_ok

unfoldable pub check_drawdown_mode :
    Arithmetic → Proposal → PolicyContext → PolicyLimits → PolicyCheck
check_drawdown_mode f p c l =
    if c.portfolio_drawdown_mode
    then capped f drawdown_mode false p.proposed_weight (drawdown_cap f l)
    else verdict drawdown_mode true

unfoldable pub check_restricted_universe : Proposal → PolicyContext → PolicyLimits → PolicyCheck
check_restricted_universe p c l =
    verdict restricted_universe (not (contains p.symbol c.restricted_universe))

abbrev pub is_buy : Action → Bool
is_buy buy = true
is_buy _ = false

unfoldable pub check_st_suspension : Proposal → PolicyContext → PolicyLimits → PolicyCheck
check_st_suspension p c l =
    verdict st_suspension (not (is_buy p.action && (p.is_st || p.is_suspended)))

unfoldable pub check_minimum_evidence : Proposal → PolicyContext → PolicyLimits → PolicyCheck
check_minimum_evidence p c l =
    verdict minimum_evidence (not (ltb p.evidence_count l.min_evidence_count))

unfoldable pub check_minimum_confidence : Proposal → PolicyContext → PolicyLimits → PolicyCheck
check_minimum_confidence p c l =
    verdict minimum_confidence (not (ltb p.confidence l.min_confidence))

unfoldable pub check_factor_coverage : Proposal → PolicyContext → PolicyLimits → PolicyCheck
check_factor_coverage p c l =
    verdict factor_coverage (not (ltb p.factor_coverage l.min_factor_coverage))

-- POLICY_RULES, each applied.
unfoldable pub checks : Arithmetic → Proposal → PolicyContext → PolicyLimits → List PolicyCheck
checks f p c l =
    check_restricted_universe p c l
    ∷ check_st_suspension p c l
    ∷ check_minimum_evidence p c l
    ∷ check_minimum_confidence p c l
    ∷ check_factor_coverage p c l
    ∷ check_liquidity p c l
    ∷ check_drawdown_mode f p c l
    ∷ check_single_position_limit f p c l
    ∷ check_industry_exposure f p c l
    ∷ check_theme_exposure f p c l
    ∷ []

-- HARD_REJECTION_RULES; the other rules are SOFT_ADJUSTMENT_RULES.
abbrev pub is_hard : Rule → Bool
is_hard restricted_universe = true
is_hard st_suspension = true
is_hard minimum_evidence = true
is_hard minimum_confidence = true
is_hard factor_coverage = true
is_hard liquidity = true
is_hard _ = false

unfoldable pub rejections : List PolicyCheck → List Rule
rejections [] = []
rejections (k ∷ ks) =
    if not k.passed && is_hard k.rule then k.rule ∷ rejections ks else rejections ks

abbrev offers_less : ℤ → PolicyCheck → Bool
offers_less proposed k = elim k.adjusted_weight [
  | none ↦ false
  | some w ↦ not (is_hard k.rule) && ltb_ℤ w proposed
]

unfoldable pub adjustments : ℤ → List PolicyCheck → List Rule
adjustments proposed [] = []
adjustments proposed (k ∷ ks) =
    if offers_less proposed k then k.rule ∷ adjustments proposed ks else adjustments proposed ks

abbrev pub lowered : ℤ → PolicyCheck → ℤ
lowered w k = elim k.adjusted_weight [ none ↦ w | some a ↦ if is_hard k.rule then w else min_ℤ w a ]

-- The loop over the checks that lowers the weight.
unfoldable pub lower_all : ℤ → List PolicyCheck → ℤ
lower_all w [] = w
lower_all w (k ∷ ks) = lower_all (lowered w k) ks

pub record ApprovedDecision : Type 0 where
  pub approved : Bool
  pub approved_weight : ℤ
  pub adjusted_by : List Rule
  pub rejected_by : List Rule
  pub all_checks : List PolicyCheck

abbrev pub is_empty : List Rule → Bool
is_empty [] = true
is_empty (r ∷ rs) = false

unfoldable pub evaluate : Arithmetic → Proposal → PolicyContext → PolicyLimits → ApprovedDecision
evaluate f p c l =
    let ks = checks f p c l in
    let weight = lower_all p.proposed_weight ks in
    let ok = is_empty (rejections ks) && ltb_ℤ (pos 0) weight in
    record {
      approved = ok;
      approved_weight = if ok then f.round6 weight else pos 0;
      adjusted_by = adjustments p.proposed_weight ks;
      rejected_by = rejections ks;
      all_checks = ks;
    }
