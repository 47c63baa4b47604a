-- ===== src/Gateway/Complete.antt =====
-- `ModelGateway.complete` of app/model_gateway/gateway.py, with the routes of
-- app/model_gateway/routing.py. Metrics are left out; a response is a number that is decoded.
use stock_agent.Base.{
  ℕ, zero, suc, ◌+◌, ◌*◌, Bool, true, false, ◌||◌, Option, none, some, List, [], ◌∷◌, ◌==◌,
  if◌then◌else◌,
}
use stock_agent.Gateway.Breaker.{CircuitBreaker, allow, success, failure}
use stock_agent.Gateway.Retry.{
  RetryPolicy, Failure, retryable, other, Attempt, Trace, Ending, value, raised, exhausted,
  retry_call,
}
use stock_agent.Gateway.Budget.{TokenCostBudget, check, charge}

pub data RouteName : Type 0 where
  primary fallback : RouteName

pub record ModelRoute : Type 0 where
  pub name : RouteName
  pub model : Option ℕ
  pub cost_per_input_token : ℕ
  pub cost_per_output_token : ℕ

pub record ModelRouter : Type 0 where
  pub primary_route : ModelRoute
  pub fallback_route : Option ModelRoute

unfoldable pub routes : ModelRouter → List ModelRoute
routes r = elim r.fallback_route [ none ↦ r.primary_route ∷ [] | some f ↦ r.primary_route ∷ f ∷ [] ]

-- The payload of the request, the model set for the route and the repair messages appended.
pub record Payload : Type 0 where
  pub request : ℕ
  pub model : Option ℕ
  pub repairs : ℕ

pub record ModelRequest : Type 0 where
  pub payload : Payload
  pub max_tokens : ℕ
  pub has_output_model : Bool

-- What is read of a response: whether it is a JSON object, its usage (0 where it names none) and
-- the output that the schema accepts, if it does.
pub record Response : Type 0 where
  pub is_object : Bool
  pub usage_input : ℕ
  pub usage_output : ℕ
  pub structured : Option ℕ

-- The providers' answers by route, structured attempt and retry, and the random draws of the
-- delays; the clock when a route is
-- entered and when it has failed; and how long a payload is as JSON text.
pub record World : Type 0 where
  pub answer : RouteName → ℕ → ℕ → Attempt
  pub decode : ℕ → Response
  pub draws : RouteName → ℕ → ℕ → ℕ
  pub entered : RouteName → ℕ
  pub failed_at : RouteName → ℕ
  pub estimate_tokens : Payload → ℕ

-- `_retryable`
abbrev pub is_retryable_status : Failure → Bool
is_retryable_status (retryable retry_after) = true
is_retryable_status (other status) =
    (status == 408)
    || (status == 429)
    || (status == 500)
    || (status == 502)
    || (status == 503)
    || (status == 504)

pub record Breakers : Type 0 where
  pub of_primary : CircuitBreaker
  pub of_fallback : CircuitBreaker

abbrev pub breaker_of : RouteName → Breakers → CircuitBreaker
breaker_of primary b = b.of_primary
breaker_of fallback b = b.of_fallback

abbrev pub with_breaker : RouteName → CircuitBreaker → Breakers → Breakers
with_breaker primary c b = record b { of_primary = c }
with_breaker fallback c b = record b { of_fallback = c }

-- What `complete` accounts: the budget, the totals of this call, and the provider calls made.
pub record Account : Type 0 where
  pub budget : TokenCostBudget
  pub call_input_tokens : ℕ
  pub call_output_tokens : ℕ
  pub call_cost : ℕ
  pub calls : ℕ

pub data RouteError : Type 0 where
  structured_output : RouteError
  not_an_object : RouteError
  provider_failed : RouteError
  circuit_is_open : RouteError

-- How a route ends: with the response and its structured output, with BudgetExceededError, or
-- with another error.
pub data RouteEnd : Type 0 where
  answered : ℕ → Option ℕ → RouteEnd
  over_budget : RouteEnd
  failed_with : RouteError → RouteEnd

abbrev pub new_account : TokenCostBudget → Account
new_account budget = record {
  budget = budget;
  call_input_tokens = 0;
  call_output_tokens = 0;
  call_cost = 0;
  calls = 0;
}

-- How one structured attempt ends: the route is done, or the payload is to be repaired.
pub data Turn : Type 0 where
  ends : RouteEnd → Turn
  repairs : Turn

-- `_response_input_tokens`
abbrev pub input_tokens_of : Response → ℕ → ℕ
input_tokens_of r estimated = if r.usage_input == 0 then estimated else r.usage_input

-- `_append_structured_repair`
abbrev pub append_repair : Payload → Payload
append_repair p = record p { repairs = p.repairs + 1 }

-- `_validate_structured`: None without an output model, the output, or StructuredOutputError.
pub data Validated : Type 0 where
  valid : Option ℕ → Validated
  invalid : Validated

abbrev pub validate_structured : Bool → Response → Validated
validate_structured false r = valid none
validate_structured true r = elim r.structured [ none ↦ invalid | some v ↦ valid (some v) ]

-- What `complete` returns or raises; a result names its route.
pub data Completion : Type 0 where
  completed : RouteName → ℕ → Option ℕ → Completion
  budget_exceeded : Completion
  structured_output_error : Completion
  gateway_error : Completion

abbrev pub raise_last : Option RouteError → Completion
raise_last (some structured_output) = structured_output_error
raise_last _ = gateway_error

module _ (policy : RetryPolicy) (w : World) (q : ModelRequest) where
  abbrev pub cost_of : ModelRoute → ℕ → ℕ → ℕ
  cost_of r input output = input * r.cost_per_input_token + output * r.cost_per_output_token

  abbrev pub invoke : ModelRoute → ℕ → Trace
  invoke r i = retry_call policy (some is_retryable_status) (w.draws r.name i) (w.answer r.name i)

  abbrev pub count_calls : ℕ → Account → Account
  count_calls n a = record a { calls = a.calls + n }

  abbrev pub add_charge : ℕ → ℕ → ℕ → TokenCostBudget → Account → Account
  add_charge input output cost b a = record a {
    budget = b;
    call_input_tokens = a.call_input_tokens + input;
    call_output_tokens = a.call_output_tokens + output;
    call_cost = a.call_cost + cost;
  }

  -- Charging and validating the response `v`.
  unfoldable pub account_response : ModelRoute → ℕ → ℕ → Account → Account × Turn
  account_response r estimated v a =
      let response = w.decode v in
      let input = input_tokens_of response estimated in
      let output = response.usage_output in
      let cost = cost_of r input output in
      if response.is_object
      then (elim (charge input output cost a.budget) [
        | none ↦ (a, ends over_budget)
        | some b ↦ (
          add_charge input output cost b a,
          elim (validate_structured q.has_output_model response) [
            | valid structured ↦ ends (answered v structured)
            | invalid ↦ repairs
          ],
        )
      ])
      else (a, ends (failed_with not_an_object))

  abbrev pub account_ending : ModelRoute → ℕ → Ending → Account → Account × Turn
  account_ending r estimated (value v) a = account_response r estimated v a
  account_ending r estimated (raised f) a = (a, ends (failed_with provider_failed))
  account_ending r estimated exhausted a = (a, ends (failed_with provider_failed))

  -- The body of the loop over structured attempts.
  unfoldable pub structured_attempt : ModelRoute → ℕ → Payload → Account → Account × Turn
  structured_attempt r i p a =
      let estimated = w.estimate_tokens p in
      let t = invoke r i in
      if check estimated q.max_tokens (cost_of r estimated q.max_tokens) a.budget
      then account_ending r estimated t.ending (count_calls t.calls a)
      else (a, ends over_budget)

  -- The loop: `left` attempts from number `i` on; the last of them raises, so that the end of
  -- the loop is never passed.
  unfoldable pub structured_attempts : ModelRoute → ℕ → ℕ → Payload → Account → Account × RouteEnd
  structured_attempts r i zero p a = (a, failed_with structured_output)
  structured_attempts r i (suc left) p a =
      let (a', turn) = structured_attempt r i p a in
      let rest = structured_attempts r (i + 1) left (append_repair p) a' in
      elim turn [
        | ends e ↦ (a', e)
        | repairs ↦ elim left [ zero ↦ (a', failed_with structured_output) | suc n ↦ rest ]
      ]

  abbrev pub attempts_of_request : ℕ
  attempts_of_request = if q.has_output_model then 2 else 1

  -- `route_payload["model"] = route.model`
  abbrev pub route_payload : ModelRoute → Payload
  route_payload r = elim r.model [
    | none ↦ q.payload
    | some m ↦ if m == 0 then q.payload else record q.payload { model = some m }
  ]

  -- What a route's end does to its breaker.
  abbrev pub after_route : RouteName → RouteEnd → CircuitBreaker → CircuitBreaker
  after_route n (answered v output) b = success b
  after_route n over_budget b = b
  after_route n (failed_with e) b = failure (w.failed_at n) b

  -- One turn of the loop over routes.
  unfoldable pub try_route : ModelRoute → Breakers → Account → Breakers × Account × RouteEnd
  try_route r bs a =
      let estimated = w.estimate_tokens q.payload in
      let (b, allowed) = allow (w.entered r.name) (breaker_of r.name bs) in
      let (a', end) = structured_attempts r 0 attempts_of_request (route_payload r) a in
      if check estimated q.max_tokens (cost_of r estimated q.max_tokens) a.budget
      then (if allowed
          then (with_breaker r.name (after_route r.name end b) bs, a', end)
          else (with_breaker r.name b bs, a, failed_with circuit_is_open))
      else (bs, a, over_budget)

  unfoldable pub try_routes :
      List ModelRoute → Option RouteError → Breakers → Account → Breakers × Account × Completion
  try_routes [] last bs a = (bs, a, raise_last last)
  try_routes (r ∷ rs) last bs a =
      let (bs', a', end) = try_route r bs a in
      elim end [
        | answered v output ↦ (bs', a', completed r.name v output)
        | over_budget ↦ (bs', a', budget_exceeded)
        | failed_with e ↦ try_routes rs (some e) bs' a'
      ]

  unfoldable pub complete :
      ModelRouter → Breakers → TokenCostBudget → Breakers × Account × Completion
  complete router bs budget = try_routes (routes router) none bs (new_account budget)
