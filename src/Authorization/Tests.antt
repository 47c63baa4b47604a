-- ===== src/Authorization/Tests.antt =====
-- The theorem on authorizations at a concrete request.
use stock_agent.Base.{◌<◌, ◌≡◌, refl, true, none, some, [], ◌∷◌, holds_value}
use stock_agent.Base.Int.{pos}
use stock_agent.Authorization.Finalizer.{
  require, DecisionView, Request, issued, refused, Refusal, state_of, action_of, finalized_text,
  all_true, envelope_of, build, check_context, finalize,
}
use stock_agent.Authorization.Issued.{ActionMeets, ContextMeets, issued_is_authorized}

abbrev bought : DecisionView
bought = record {
  state = some 1;
  status = none;
  investment_action = some 10;
  action = none;
  decision_id = some 70;
}

abbrev request : Request
request = record {
  decision = bought;
  snapshot_id = 50;
  governance_approved = some true;
  policy_version = 50;
  lineage = λ key. some 50;
  valid_until = 900;
  is_timezone_aware = true;
  portfolio_id = 50;
  contract_checksums = true ∷ [];
  allowed_actions = 10 ∷ [];
  max_notional = pos 1000;
  strategy_version = none;
}

is_issued : finalize 800 801 request ≡ issued (envelope_of request)
unfolding finalize check_context build require
is_issued = refl

-- One passive action is no action.
passive_is_refused :
    finalize 800 801 (record request { allowed_actions = 2 ∷ [] })
    ≡ refused Refusal.allowed_actions_required
unfolding finalize check_context build require
passive_is_refused = refl

issued_is_authorized_example :
    (holds_value (state_of bought) finalized_text ≡ true)
    × ActionMeets (action_of bought) request
    × ContextMeets 800 request
    × (801 < 900)
    × (all_true (true ∷ []) ≡ true)
    × (envelope_of request ≡ envelope_of request)
issued_is_authorized_example = issued_is_authorized 800 801 request (envelope_of request) is_issued
