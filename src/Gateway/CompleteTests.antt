-- ===== src/Gateway/CompleteTests.antt =====
-- `ModelGateway.complete` at a concrete request, with a primary route that is down.
use stock_agent.Base.{ℕ, ◌≤◌, ◌≡◌, refl, ◌⊎◌, true, Option, none, some, arith}
use stock_agent.Gateway.Breaker.{CircuitBreaker, closed, allow}
use stock_agent.Gateway.Retry.{RetryPolicy, Failure, Attempt, retry_call, retry_loop}
use stock_agent.Gateway.Budget.{TokenCostBudget, Charged, IsUnlimited, check, charge, reserve}
use stock_agent.Gateway.Complete
use stock_agent.Gateway.Spending
use stock_agent.Gateway.Fallback

abbrev policy : RetryPolicy
policy = record { max_attempts = 3; base_delay = 250; max_delay = 400; jitter = 0 }

abbrev first : Complete.ModelRoute
first = record {
  name = Complete.primary;
  model = some 4;
  cost_per_input_token = 1;
  cost_per_output_token = 2;
}

abbrev second : Complete.ModelRoute
second = record first { name = Complete.fallback }

abbrev router : Complete.ModelRouter
router = record { primary_route = first; fallback_route = some second }

abbrev request : Complete.ModelRequest
request = record {
  payload = record { request = 9; model = none; repairs = 0 };
  max_tokens = 100;
  has_output_model = true;
}

abbrev good_response : Complete.Response
good_response = record { is_object = true; usage_input = 0; usage_output = 30; structured = some 8 }

abbrev world : Complete.World
world = record {
  answer = λ route i k. elim route [
    | Complete.primary ↦ Attempt.fails (Failure.other 503)
    | Complete.fallback ↦ Attempt.gives 5
  ];
  decode = λ n. good_response;
  draws = λ route i k. 500000;
  entered = λ route. 10;
  failed_at = λ route. 20;
  estimate_tokens = λ p. 7;
}

abbrev no_limits : TokenCostBudget
no_limits = record {
  max_input_tokens = none;
  max_output_tokens = none;
  max_total_tokens = none;
  max_cost = none;
  input_tokens = 0;
  output_tokens = 0;
  cost = 0;
}

abbrev new_breaker : CircuitBreaker
new_breaker = record {
  failure_threshold = 3;
  recovery_seconds = 30;
  state = closed;
  failures = 0;
  opened_at = none;
}

abbrev breakers : Complete.Breakers
breakers = record { of_primary = new_breaker; of_fallback = new_breaker }

unlimited : IsUnlimited no_limits
unlimited = ground arith

fallback_ready : Fallback.Answers policy world request second 5 (some 8)
unfolding retry_call retry_loop
fallback_ready = record { gives_value = refl; is_json = refl; accepted = refl }

fallback-Answers_example :
    ((v : ℕ) × (output : Option ℕ) × ((Complete.complete policy world request router breakers
          no_limits).2
        ≡ Complete.completed Complete.primary v output))
    ⊎ ((Complete.complete policy world request router breakers no_limits).2
        ≡ Complete.completed Complete.fallback 5 (some 8))
unfolding allow
fallback-Answers_example =
    Fallback.fallback-Answers policy world request router second breakers no_limits 5 (some 8) refl
      refl refl unlimited refl fallback_ready

complete_accounts_example :
    let a = (Complete.complete policy world request router breakers no_limits).1 in
    Charged a.call_input_tokens a.call_output_tokens a.call_cost no_limits a.budget × (a.calls ≤ 12)
complete_accounts_example =
    Spending.complete_accounts policy world request router breakers no_limits

-- Three calls of the primary provider, then one of the fallback's, whose usage is charged.
down_then_up :
    let out = Complete.complete policy world request router breakers no_limits in
    (out.2 ≡ Complete.completed Complete.fallback 5 (some 8))
    × (out.1.calls ≡ 4)
    × (out.1.budget.cost ≡ 67)
unfolding Complete.complete Complete.routes Complete.try_routes Complete.try_route allow
    Complete.structured_attempts Complete.structured_attempt Complete.account_response charge
    reserve check retry_call retry_loop
down_then_up = (refl, refl, refl)

-- A response that costs more than is left was made and answered, but is not charged.
overrun_not_charged :
    let budget = record no_limits { max_output_tokens = some 20 } in
    let small = record request { max_tokens = 10 } in
    let out = Complete.complete policy world small router breakers budget in
    (out.2 ≡ Complete.budget_exceeded) × (out.1.calls ≡ 4) × (out.1.budget.output_tokens ≡ 0)
unfolding Complete.complete Complete.routes Complete.try_routes Complete.try_route allow
    Complete.structured_attempts Complete.structured_attempt Complete.account_response charge
    reserve check retry_call retry_loop
overrun_not_charged = (refl, refl, refl)
