-- ===== src/Conflict.antt =====
-- `resolve_conflicts_v2` of engines/decision/conflict_resolver.py. Of an agent's name the key that
-- `_agent_key` makes is given, the aliases of a domain's owner being one key.
use stock_agent.Base.{
  ℕ, Bool, true, false, ◌&&◌, ◌||◌, Option, none, some, List, [], ◌∷◌, ◌++◌, ltb, ◌==◌,
  if◌then◌else◌, or_default, is_truthy,
}
pub mod Veto
mod Tests

pub data ConflictType : Type 0 where
  fact_conflict regime_conflict signal_conflict portfolio_conflict risk_conflict : ConflictType
  other_conflict : ConflictType

-- DOMAIN_AGENT_ALIASES, and the agents of the deterministic policy.
pub data AgentKey : Type 0 where
  evidence_owner market_owner factor_owner risk_owner portfolio_owner supervisor : AgentKey
  policy_agent other_agent : AgentKey

pub record Opinion : Type 0 where
  pub agent : ℕ
  pub key : AgentKey
  pub value : ℕ
  pub confidence : ℕ
  pub veto : Bool

pub record Conflict : Type 0 where
  pub conflict_type : Option ConflictType
  pub dimension : Option ℕ
  pub options : List Opinion
  pub risk_veto : Bool

pub record Resolution : Type 0 where
  pub dimension : Option ℕ
  pub conflict_type : ConflictType
  pub resolved_by : Option ℕ  -- none is the authority's own name
  pub resolved_value : Option ℕ

-- DOMAIN_AUTHORITY; SUPERVISOR for a type that it does not name.
abbrev pub authority_of : ConflictType → AgentKey
authority_of fact_conflict = evidence_owner
authority_of regime_conflict = market_owner
authority_of signal_conflict = factor_owner
authority_of risk_conflict = risk_owner
authority_of portfolio_conflict = portfolio_owner
authority_of other_conflict = supervisor

abbrev pub same_key : AgentKey → AgentKey → Bool
same_key evidence_owner evidence_owner = true
same_key market_owner market_owner = true
same_key factor_owner factor_owner = true
same_key risk_owner risk_owner = true
same_key portfolio_owner portfolio_owner = true
same_key supervisor supervisor = true
same_key policy_agent policy_agent = true
same_key _ _ = false

-- `next((item for item in options if …), None)`
abbrev pub first_of : (Opinion → Bool) → List Opinion → Option Opinion
first_of test [] = none
first_of test (o ∷ os) = if test o then some o else first_of test os

abbrev pub has_key : AgentKey → Opinion → Bool
has_key k o = same_key o.key k

-- `_is_risk_agent(…) and item.get("veto")`
abbrev pub vetoes : Opinion → Bool
vetoes o = same_key o.key risk_owner && o.veto

-- The order of (confidence, agent, value).
abbrev pub ranks_below : Opinion → Opinion → Bool
ranks_below a b =
    ltb a.confidence b.confidence
    || ((a.confidence == b.confidence)
        && (ltb a.agent b.agent || ((a.agent == b.agent) && ltb a.value b.value)))

-- `max(options, key=…, default={})`: the first of the greatest.
abbrev pub most_confident_from : Opinion → List Opinion → Opinion
most_confident_from best [] = best
most_confident_from best (o ∷ os) = most_confident_from (if ranks_below best o then o else best) os

abbrev pub most_confident : List Opinion → Option Opinion
most_confident [] = none
most_confident (o ∷ os) = some (most_confident_from o os)

abbrev pub type_of : Conflict → ConflictType
type_of c = or_default c.conflict_type signal_conflict

abbrev pub owner_of : Conflict → Option Opinion
owner_of c = first_of (has_key (authority_of (type_of c))) c.options

-- `a or b`
abbrev pub or_else : Option Opinion → Option Opinion → Option Opinion
or_else none b = b
or_else (some a) b = some a

unfoldable pub selected : Conflict → Option Opinion
selected c = or_else (first_of vetoes c.options) (
    or_else (owner_of c)
      (or_else (first_of (has_key policy_agent) c.options) (most_confident c.options)))

-- `conflict_type == "RISK_CONFLICT" and (owner or {}).get("veto")`
abbrev pub by_owner : ConflictType → Option Opinion → Bool
by_owner risk_conflict (some o) = o.veto
by_owner _ _ = false

abbrev pub owner_vetoes : Conflict → Bool
owner_vetoes c = by_owner (type_of c) (owner_of c)

abbrev pub has_veto : Option Opinion → Bool
has_veto none = false
has_veto (some o) = true

-- Whether the conflict vetoes the decision.
unfoldable pub is_vetoed : Conflict → Bool
is_vetoed c = c.risk_veto || has_veto (first_of vetoes c.options) || owner_vetoes c

abbrev pub value_of : Option Opinion → Option ℕ
value_of none = none
value_of (some o) = some o.value

-- `selected.get("agent") or authority`
abbrev pub named : Option Opinion → Option ℕ
named none = none
named (some o) = if o.agent == 0 then none else some o.agent

unfoldable pub resolve : Conflict → Resolution
unfolding selected
resolve c = record {
  dimension = c.dimension;
  conflict_type = type_of c;
  resolved_by = named (selected c);
  resolved_value = value_of (selected c);
}

pub data FinalAction : Type 0 where
  veto_action proceed : FinalAction

pub record Outcome : Type 0 where
  pub final_action : FinalAction
  pub vetoed : Bool
  pub veto_reasons : List (Option ℕ)  -- none is "risk"
  pub resolutions : List Resolution

-- `str(conflict.get("dimension") or "risk")`
abbrev pub reason_of : Conflict → Option ℕ
reason_of c = if is_truthy c.dimension then c.dimension else none

-- The loop, with what it has gathered.
unfoldable pub gather : List Conflict → Bool → List (Option ℕ) → List Resolution → Outcome
unfolding is_vetoed resolve
gather [] vetoed reasons done = record {
  final_action = if vetoed then veto_action else proceed;
  vetoed = vetoed;
  veto_reasons = reasons;
  resolutions = done;
}
gather (c ∷ cs) vetoed reasons done =
    if is_vetoed c
    then gather cs true (reasons ++ reason_of c ∷ []) (done ++ resolve c ∷ [])
    else gather cs vetoed reasons (done ++ resolve c ∷ [])

unfoldable pub resolve_conflicts_v2 : List Conflict → Outcome
resolve_conflicts_v2 conflicts = gather conflicts false [] []
