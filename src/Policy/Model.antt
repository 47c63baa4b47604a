-- ===== src/Policy/Model.antt =====
-- Proposals, the context and the limits: engines/policy/models.py, the proposal's fields of
-- contracts/proposal.py that the rules read, and `PolicyLimits` of engines/policy/rules.py.
-- Weights and coverages are whole numbers of one unit, so small that every double that occurs is a
-- multiple of it: comparisons, `min` and `max` are exact, and what rounds is a parameter,
-- `Arithmetic`. The defaults are written in millionths. Names are numbers, 0 the empty text; dicts are
-- functions into `Option`.
use stock_agent.Base.{ℕ, Bool, Option, none, some, List}
use stock_agent.Base.Int.{ℤ, pos}

pub data Action : Type 0 where
  buy sell hold increase reduce exit watch : Action

-- `InvestmentProposal`
pub record Proposal : Type 0 where
  pub symbol : ℕ
  pub action : Action
  pub proposed_weight : ℤ
  pub confidence : ℕ
  pub sector : Option ℕ
  pub theme : Option ℕ
  pub evidence_count : ℕ
  pub factor_coverage : ℕ
  pub liquidity_ok : Bool
  pub is_st : Bool
  pub is_suspended : Bool

-- The fields of `InvestmentProposalV2` that the rules read.
pub record ProposalV2 : Type 0 where
  pub is_symbol : Bool  -- subject_type == "SYMBOL"
  pub subject_key : Option ℕ
  pub action : Action
  pub target_weight : Option ℤ
  pub weight_delta : Option ℤ
  pub confidence : ℕ
  pub evidence_refs : List ℕ

-- A dependency's status, after upper-casing: one of OK, HEALTHY, AVAILABLE, TRUE and VERIFIED, or
-- any other text.
pub data Health : Type 0 where
  healthy unhealthy : Health

pub record PolicyContext : Type 0 where
  pub portfolio_drawdown_mode : Bool
  pub restricted_universe : List ℕ
  pub existing_weights : ℕ → Option ℤ
  pub industry_weights : ℕ → Option ℤ
  pub theme_weights : ℕ → Option ℤ
  pub domain_coverage : ℕ → Option ℕ
  pub gross_exposure : Option ℤ
  pub net_exposure : Option ℤ
  pub portfolio_available : Option Bool
  pub portfolio_snapshot_at : Option ℕ
  pub portfolio_snapshot_fresh : Option Bool
  pub portfolio_snapshot_freshness_seconds : Option ℕ
  pub max_portfolio_snapshot_age_seconds : ℕ
  pub dependency_health : ℕ → Option Health
  pub dependency_status : ℕ → Option Health
  pub evidence_freshness_seconds : Option ℕ
  pub evidence_fresh : Option Bool
  pub max_evidence_age_seconds : ℕ
  pub risk_veto : Bool
  pub subject_sectors : ℕ → Option ℕ
  pub subject_themes : ℕ → Option ℕ
  pub liquidity_ok : ℕ → Option Bool
  pub security_is_st : ℕ → Option Bool
  pub security_is_suspended : ℕ → Option Bool
  pub required_domains : List ℕ
  pub required_dependencies : List ℕ
  pub skill_required_dependencies : List ℕ
  pub dependency_required : List (ℕ × Bool)

pub record PolicyLimits : Type 0 where
  pub single_position_limit : ℕ
  pub industry_exposure_limit : ℕ
  pub theme_exposure_limit : ℕ
  pub drawdown_mode_scale : ℕ
  pub min_evidence_count : ℕ
  pub min_confidence : ℕ
  pub min_factor_coverage : ℕ
  pub portfolio_gross_limit : ℕ
  pub portfolio_net_limit : ℕ
  pub max_evidence_age_seconds : ℕ
  pub max_portfolio_snapshot_age_seconds : ℕ
  pub min_domain_coverage : ℕ

-- The defaults of the dataclass.
abbrev pub default_limits : PolicyLimits
default_limits = record {
  single_position_limit = 100000;
  industry_exposure_limit = 300000;
  theme_exposure_limit = 250000;
  drawdown_mode_scale = 500000;
  min_evidence_count = 1;
  min_confidence = 300000;
  min_factor_coverage = 500000;
  portfolio_gross_limit = 1000000;
  portfolio_net_limit = 1000000;
  max_evidence_age_seconds = 86400;
  max_portfolio_snapshot_age_seconds = 86400;
  min_domain_coverage = 500000;
}

-- What the source computes in floating point: the sum, the difference and the product of two
-- doubles, and `round(x, 6)`.
pub record Arithmetic : Type 0 where
  pub plus : ℤ → ℤ → ℤ
  pub minus : ℤ → ℤ → ℤ
  pub times : ℤ → ℤ → ℤ
  pub round6 : ℤ → ℤ

-- single_position_limit * drawdown_mode_scale
abbrev pub drawdown_cap : Arithmetic → PolicyLimits → ℤ
drawdown_cap f l = f.times (pos l.single_position_limit) (pos l.drawdown_mode_scale)

-- `.get(key, 0.0)`
abbrev pub weight_of : (ℕ → Option ℤ) → ℕ → ℤ
weight_of weights key = elim (weights key) [ none ↦ pos 0 | some w ↦ w ]
