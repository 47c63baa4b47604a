-- ===== src/Policy/Second.antt =====
-- The second generation of rules and the branch of `PolicyEngine.evaluate` that applies them:
-- `evaluate_v2_checks` of engines/policy/rules.py and `evaluate` of engines/policy/engine.py. A check
-- keeps its rule, whether it passed, its severity and, for the rules that lower the target, the
-- adjusted value; the texts, the reason codes and the snapshot of the input are left out, and
-- sums and products are those of `Arithmetic`.
use stock_agent.Base.{
  ℕ, Bool, true, false, not, ◌&&◌, ◌||◌, Option, none, some, List, [], ◌∷◌, ◌++◌, ltb, leb, ◌==◌,
  min, if◌then◌else◌, contains, is_truthy, is_some, or_default, length,
}
use stock_agent.Base.Int.{ℤ, pos, max_ℤ, min_ℤ, ltb_ℤ, leb_ℤ}
use stock_agent.Policy.Model.{
  ProposalV2, PolicyContext, PolicyLimits, Action, buy, increase, sell, reduce, exit, Health,
  healthy, unhealthy, Arithmetic, drawdown_cap, weight_of,
}

-- V2_POLICY_RULE_IDS
pub data RuleId : Type 0 where
  single_position_limit portfolio_gross_limit portfolio_net_limit industry_exposure : RuleId
  theme_exposure liquidity drawdown_mode restricted_universe st_suspension : RuleId
  minimum_evidence minimum_confidence factor_coverage dependency_health : RuleId
  evidence_freshness portfolio_snapshot_freshness risk_veto : RuleId

pub data Severity : Type 0 where
  info warn adjust reject : Severity

pub record PolicyCheckResult : Type 0 where
  pub rule_id : RuleId
  pub passed : Bool
  pub severity : Severity
  pub adjusted_value : Option ℤ

-- The names of dependencies and domains that the code spells out.
abbrev pub quant : ℕ
quant = 1

abbrev factor : ℕ
factor = 2

abbrev factor_upper : ℕ
factor_upper = 3

abbrev factor_coverage_key : ℕ
factor_coverage_key = 4

abbrev pub key_of : ProposalV2 → ℕ
key_of p = or_default p.subject_key 0

abbrev pub current_weight : ProposalV2 → PolicyContext → ℤ
current_weight p c = weight_of c.existing_weights (key_of p)

-- `_v2_target`
unfoldable pub v2_target : Arithmetic → ProposalV2 → ℤ → Option ℤ
v2_target f p current = elim p.target_weight [
  | some w ↦ some w
  | none ↦ elim p.weight_delta [ none ↦ none | some d ↦ some (max_ℤ (pos 0) (f.plus current d)) ]
]

-- A check that blocks when it fails.
abbrev pub gate : RuleId → Bool → PolicyCheckResult
gate r ok = record {
  rule_id = r;
  passed = ok;
  severity = if ok then Severity.info else Severity.reject;
  adjusted_value = none;
}

abbrev pub no_limit : RuleId → Option ℤ → PolicyCheckResult × Option ℤ
no_limit r target = (
  record { rule_id = r; passed = true; severity = Severity.info; adjusted_value = target },
  target,
)

-- A limit lowers the target to what is allowed; `ok` tells whether it passed.
abbrev pub lower : RuleId → Bool → ℤ → ℤ → PolicyCheckResult × Option ℤ
lower r ok target allowed =
    let adjusted = min_ℤ target allowed in
    (
      record {
        rule_id = r;
        passed = ok;
        severity = if ok then Severity.info else Severity.adjust;
        adjusted_value = some adjusted;
      },
      some adjusted,
    )

abbrev pub Step : Type 0
Step = ProposalV2 → PolicyContext → PolicyLimits → Option ℤ → PolicyCheckResult × Option ℤ

unfoldable pub limit_position : Step
limit_position p c l none = no_limit single_position_limit none
limit_position p c l (some target) =
    let allowed = max_ℤ (pos 0) (pos l.single_position_limit) in
    lower single_position_limit (leb_ℤ target allowed) target allowed

-- What is left of a portfolio limit beside the other holdings.
abbrev pub headroom : Arithmetic → ℤ → ℕ → ℤ → ℤ
headroom f exposure limit current = max_ℤ (pos 0) (f.minus (pos limit) (f.minus exposure current))

-- `project` is the exposure that the target would give.
abbrev pub limit_exposure :
    Arithmetic
    → RuleId
    → (ℤ → ℤ → ℤ → ℤ)
    → Option ℤ
    → ℕ
    → ℤ
    → Option ℤ
    → PolicyCheckResult × Option ℤ
limit_exposure f r project exposure limit current none = (
  record { rule_id = r; passed = true; severity = Severity.info; adjusted_value = exposure },
  none,
)
limit_exposure f r project none limit current (some target) = (gate r false, some target)
limit_exposure f r project (some e) limit current (some target) =
    lower r (leb_ℤ (project e current target) (pos limit)) target (headroom f e limit current)

-- The two exposures are projected in different orders.
abbrev pub projected_gross : Arithmetic → ℤ → ℤ → ℤ → ℤ
projected_gross f gross current target = f.plus (f.minus gross current) target

abbrev pub projected_net : Arithmetic → ℤ → ℤ → ℤ → ℤ
projected_net f net current target = f.minus (f.plus net target) current

unfoldable pub limit_gross : Arithmetic → Step
limit_gross f p c l target =
    limit_exposure f portfolio_gross_limit (projected_gross f) c.gross_exposure
      l.portfolio_gross_limit (current_weight p c) target

unfoldable pub limit_net : Arithmetic → Step
limit_net f p c l target =
    limit_exposure f portfolio_net_limit (projected_net f) c.net_exposure l.portfolio_net_limit
      (current_weight p c) target

abbrev pub group_headroom : Arithmetic → (ℕ → Option ℤ) → ℕ → Option ℕ → ℤ
group_headroom f weights limit group = max_ℤ (pos 0) (
    f.minus (pos limit) (if is_truthy group then weight_of weights (or_default group 0) else pos 0))

abbrev pub limit_group :
    Arithmetic → RuleId → Option ℕ → (ℕ → Option ℤ) → ℕ → Option ℤ → PolicyCheckResult × Option ℤ
limit_group f r group weights limit none = no_limit r none
limit_group f r group weights limit (some target) =
    let allowed = group_headroom f weights limit group in
    if is_truthy group
    then lower r (leb_ℤ target allowed) target allowed
    else no_limit r (some target)

unfoldable pub limit_industry : Arithmetic → Step
limit_industry f p c l target =
    limit_group f industry_exposure (c.subject_sectors (key_of p)) c.industry_weights
      l.industry_exposure_limit target

unfoldable pub limit_theme : Arithmetic → Step
limit_theme f p c l target =
    limit_group f theme_exposure (c.subject_themes (key_of p)) c.theme_weights
      l.theme_exposure_limit target

unfoldable pub limit_drawdown : Arithmetic → Step
limit_drawdown f p c l none = no_limit drawdown_mode none
limit_drawdown f p c l (some target) =
    if c.portfolio_drawdown_mode
    then lower drawdown_mode (leb_ℤ target (drawdown_cap f l)) target (drawdown_cap f l)
    else no_limit drawdown_mode (some target)

abbrev pub raises : Action → Bool
raises buy = true
raises increase = true
raises _ = false

abbrev pub security_actionable : ProposalV2 → Bool
security_actionable p = p.is_symbol && raises p.action

abbrev pub is_true : Option Bool → Bool
is_true (some true) = true
is_true _ = false

unfoldable pub liquidity_pass : ProposalV2 → PolicyContext → Bool
liquidity_pass p c =
    let known = is_some (c.liquidity_ok (key_of p)) in
    not (security_actionable p) || (known && is_true (c.liquidity_ok (key_of p)))

abbrev pub is_restricted : ProposalV2 → PolicyContext → Bool
is_restricted p c = elim p.subject_key [ none ↦ false | some k ↦ contains k c.restricted_universe ]

unfoldable pub state_pass : ProposalV2 → PolicyContext → Bool
state_pass p c =
    let st = c.security_is_st (key_of p) in
    let suspended = c.security_is_suspended (key_of p) in
    let blocked = security_actionable p && (is_true st || is_true suspended) in
    let known = not (security_actionable p) || (is_some st && is_some suspended) in
    known && not blocked

abbrev domain_missing : PolicyContext → PolicyLimits → ℕ → Bool
domain_missing c l domain = ltb (or_default (c.domain_coverage domain) 0) l.min_domain_coverage

-- Whether no element of the list passes the test.
abbrev pub nowhere : (ℕ → Bool) → List ℕ → Bool
nowhere f [] = true
nowhere f (x ∷ xs) = not (f x) && nowhere f xs

unfoldable pub evidence_ok : ProposalV2 → PolicyContext → PolicyLimits → Bool
evidence_ok p c l =
    leb l.min_evidence_count (length p.evidence_refs)
    && nowhere (domain_missing c l) c.required_domains

unfoldable pub factor_value : PolicyContext → Option ℕ
factor_value c =
    let by_name : Option ℕ = elim (c.domain_coverage factor) [
      | some v ↦ some v
      | none ↦ c.domain_coverage factor_upper
    ] in
    elim by_name [ some v ↦ some v | none ↦ c.domain_coverage factor_coverage_key ]

abbrev lookup : ℕ → List (ℕ × Bool) → Bool
lookup k [] = false
lookup k ((j, b) ∷ rest) = if j == k then b else lookup k rest

abbrev required_keys : List (ℕ × Bool) → List ℕ
required_keys [] = []
required_keys ((k, b) ∷ rest) = if b then k ∷ required_keys rest else required_keys rest

unfoldable pub factor_required : PolicyContext → Bool
factor_required c =
    contains factor c.required_domains
    || contains factor c.required_dependencies
    || contains factor c.skill_required_dependencies
    || lookup factor c.dependency_required

unfoldable pub check_factor : PolicyContext → PolicyLimits → PolicyCheckResult
check_factor c l =
    let ok : Bool = elim (factor_value c) [ none ↦ false | some v ↦ leb l.min_factor_coverage v ] in
    if factor_required c then gate factor_coverage ok else record {
      rule_id = factor_coverage;
      passed = true;
      severity = if ok then Severity.info else Severity.warn;
      adjusted_value = none;
    }

-- The merged statuses: `dependency_status` overrides `dependency_health`.
abbrev pub status_of : PolicyContext → ℕ → Option Health
status_of c k = elim (c.dependency_status k) [ some h ↦ some h | none ↦ c.dependency_health k ]

abbrev pub unhealthy_status : Option Health → Bool
unhealthy_status (some healthy) = false
unhealthy_status (some unhealthy) = true
unhealthy_status none = true

abbrev pub is_unhealthy : PolicyContext → ℕ → Bool
is_unhealthy c k = unhealthy_status (status_of c k)

abbrev pub skill_required : PolicyContext → List ℕ
skill_required c =
    c.required_dependencies
    ++ (c.skill_required_dependencies ++ required_keys c.dependency_required)

unfoldable pub dependencies_ok : Bool → PolicyContext → Bool
dependencies_ok actionable c =
    let required = if actionable then quant ∷ skill_required c else skill_required c in
    nowhere (λ k. not (is_some (status_of c k))) required && nowhere (is_unhealthy c) required

abbrev or_true : Option Bool → Bool
or_true none = true
or_true (some b) = b

abbrev is_nonempty : List ℕ → Bool
is_nonempty [] = false
is_nonempty (x ∷ xs) = true

unfoldable pub evidence_fresh_ok : Bool → ProposalV2 → PolicyContext → PolicyLimits → Bool
evidence_fresh_ok actionable p c l = elim c.evidence_freshness_seconds [
  | some s ↦ leb s (min c.max_evidence_age_seconds l.max_evidence_age_seconds)
  | none ↦ if actionable && is_nonempty p.evidence_refs then false else or_true c.evidence_fresh
]

abbrev is_false : Option Bool → Bool
is_false (some false) = true
is_false _ = false

unfoldable pub portfolio_ok : Bool → PolicyContext → PolicyLimits → Bool
portfolio_ok actionable c l =
    let fresh : Bool = elim c.portfolio_snapshot_freshness_seconds [
      | some s ↦
          leb s (min c.max_portfolio_snapshot_age_seconds l.max_portfolio_snapshot_age_seconds)
      | none ↦ is_true c.portfolio_snapshot_fresh
    ] in
    let missing =
      is_false c.portfolio_available
      || (actionable
          && not (is_some c.portfolio_available)
          && not (is_some c.portfolio_snapshot_at)) in
    if not actionable then true else (if missing then false else fresh)

-- `evaluate_v2_checks`: the checks in their order, each limit handing its target to the next.
unfoldable pub evaluate_v2_checks :
    Arithmetic → ProposalV2 → PolicyContext → PolicyLimits → List PolicyCheckResult × Option ℤ
evaluate_v2_checks f p c l =
    let t0 = v2_target f p (current_weight p c) in
    let actionable = is_some t0 in
    let position = limit_position p c l t0 in
    let gross = limit_gross f p c l position.1 in
    let net = limit_net f p c l gross.1 in
    let industry = limit_industry f p c l net.1 in
    let theme = limit_theme f p c l industry.1 in
    let drawdown = limit_drawdown f p c l theme.1 in
    (
      position.0
          ∷ gross.0
          ∷ net.0
          ∷ industry.0
          ∷ theme.0
          ∷ gate liquidity (liquidity_pass p c)
          ∷ drawdown.0
          ∷ gate restricted_universe (not (is_restricted p c))
          ∷ gate st_suspension (state_pass p c)
          ∷ gate minimum_evidence (evidence_ok p c l)
          ∷ gate minimum_confidence (leb l.min_confidence p.confidence)
          ∷ check_factor c l
          ∷ gate dependency_health (dependencies_ok actionable c)
          ∷ gate evidence_freshness (evidence_fresh_ok actionable p c l)
          ∷ gate portfolio_snapshot_freshness (portfolio_ok actionable c l)
          ∷ gate risk_veto (not c.risk_veto)
          ∷ [],
      drawdown.1,
    )

pub record PolicyEvaluation : Type 0 where
  pub trace : List PolicyCheckResult
  pub approved : Bool
  pub final_value : Option ℤ

abbrev pub is_reject : PolicyCheckResult → Bool
is_reject k = elim k.severity [ Severity.reject ↦ not k.passed | _ ↦ false ]

unfoldable pub has_reject : List PolicyCheckResult → Bool
has_reject [] = false
has_reject (k ∷ ks) = is_reject k || has_reject ks

abbrev pub reduction : Action → Bool
reduction sell = true
reduction reduce = true
reduction exit = true
reduction _ = false

abbrev pub weight_valid : ProposalV2 → Option ℤ → Bool
weight_valid p adjusted =
    if is_some p.target_weight || is_some p.weight_delta
    then elim adjusted [
      | none ↦ false
      | some w ↦ if reduction p.action then leb_ℤ (pos 0) w else ltb_ℤ (pos 0) w
    ]
    else true

-- `PolicyEngine.evaluate` of an `InvestmentProposalV2`.
unfoldable pub evaluate_v2 :
    Arithmetic → ProposalV2 → PolicyContext → PolicyLimits → PolicyEvaluation
evaluate_v2 f p c l =
    let checked = evaluate_v2_checks f p c l in
    record {
      trace = checked.0;
      approved = not (has_reject checked.0) && weight_valid p checked.1;
      final_value = checked.1;
    }
