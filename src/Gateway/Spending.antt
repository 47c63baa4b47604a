-- ===== src/Gateway/Spending.antt =====
-- What `ModelGateway.complete` charges, and how often it calls a provider.
use stock_agent.Base.{
  ℕ, zero, suc, ◌+◌, ◌≤◌, ◌≡◌, refl, inl, inr, Option, none, some, List, [], ◌∷◌, arith,
  if◌then◌else◌, Bool-cases, Option-cases, max, length, is_some,
}
use stock_agent.Gateway.Breaker.{allow}
use stock_agent.Gateway.Retry.{RetryPolicy, Ending, value, raised, exhausted, retry_call-IsRun}
use stock_agent.Gateway.Budget.{
  TokenCostBudget, check, charge, Charged, charge-Charged, Charged-trans, charged_nothing,
}
use stock_agent.Gateway.Complete.{
  ModelRoute, ModelRouter, Payload, ModelRequest, World, Breakers, breaker_of, Account, RouteEnd,
  answered, over_budget, failed_with, RouteError, structured_output, input_tokens_of, append_repair,
  Turn, ends, repairs, account_response, account_ending, structured_attempt, structured_attempts,
  attempts_of_request, route_payload, try_route, try_routes, routes, complete, new_account,
  Completion, completed, budget_exceeded, invoke, count_calls, add_charge, cost_of,
  is_retryable_status,
}

-- The totals of the call grow by exactly what the budget is charged, and at most `n` provider
-- calls are made.
pub record Accounts (n : ℕ) (a a' : Account) : Type 0 where
  pub input : ℕ
  pub output : ℕ
  pub cost : ℕ
  pub charged : Charged input output cost a.budget a'.budget
  pub input_total : a'.call_input_tokens ≡ a.call_input_tokens + input
  pub output_total : a'.call_output_tokens ≡ a.call_output_tokens + output
  pub cost_total : a'.call_cost ≡ a.call_cost + cost
  pub at_most : a'.calls ≤ a.calls + n

Accounts-refl : (n : ℕ) (a : Account) → Accounts n a a
Accounts-refl n a = record {
  input = 0;
  output = 0;
  cost = 0;
  charged = charged_nothing a.budget;
  input_total = omega arith;
  output_total = omega arith;
  cost_total = omega arith;
  at_most = omega arith;
}

Accounts-trans :
    (n m : ℕ) (a b c : Account) → Accounts n a b → Accounts m b c → Accounts (n + m) a c
Accounts-trans n m a b c p q = record {
  input = p.input + q.input;
  output = p.output + q.output;
  cost = p.cost + q.cost;
  charged =
      Charged-trans p.input p.output p.cost q.input q.output q.cost a.budget b.budget c.budget
        p.charged q.charged;
  input_total = omega (arith, p.input_total, q.input_total);
  output_total = omega (arith, p.output_total, q.output_total);
  cost_total = omega (arith, p.cost_total, q.cost_total);
  at_most = omega (arith, p.at_most, q.at_most);
}

Accounts-weaken : (n m : ℕ) (a b : Account) → n ≤ m → Accounts n a b → Accounts m a b
Accounts-weaken n m a b h p = record {
  input = p.input;
  output = p.output;
  cost = p.cost;
  charged = p.charged;
  input_total = p.input_total;
  output_total = p.output_total;
  cost_total = p.cost_total;
  at_most = omega (arith, p.at_most);
}

abbrev pub times : ℕ → ℕ → ℕ
times zero t = 0
times (suc n) t = t + times n t

module _ (policy : RetryPolicy) (w : World) (q : ModelRequest) where
  abbrev pub tries : ℕ
  tries = max 1 policy.max_attempts

  invoke_bound : (r : ModelRoute) (i : ℕ) → (invoke policy w q r i).calls ≤ tries
  invoke_bound r i = omega (
    arith,
    (retry_call-IsRun policy (some is_retryable_status) (w.draws r.name i)
        (w.answer r.name i)).within,
  )

  counted :
      (a : Account) (r : ModelRoute) (i : ℕ)
      → Accounts tries a (count_calls policy w q (invoke policy w q r i).calls a)
  counted a r i = record {
    input = 0;
    output = 0;
    cost = 0;
    charged = charged_nothing a.budget;
    input_total = omega arith;
    output_total = omega arith;
    cost_total = omega arith;
    at_most = omega (arith, invoke_bound r i);
  }

  charged_once :
      (a : Account) (r : ModelRoute) (i x y z : ℕ) (b : TokenCostBudget)
      → charge x y z a.budget ≡ some b
      → Accounts tries a
          (add_charge policy w q x y z b (count_calls policy w q (invoke policy w q r i).calls a))
  charged_once a r i x y z b e = record {
    input = x;
    output = y;
    cost = z;
    charged = charge-Charged x y z a.budget b e;
    input_total = refl;
    output_total = refl;
    cost_total = refl;
    at_most = omega (arith, invoke_bound r i);
  }

  account_response-Accounts :
      (r : ModelRoute) (i estimated v : ℕ) (a : Account)
      → Accounts tries a
          (account_response policy w q r estimated v
            (count_calls policy w q (invoke policy w q r i).calls a)).0
  unfolding account_response
  account_response-Accounts r i estimated v a =
      let x = input_tokens_of (w.decode v) estimated in
      let y = (w.decode v).usage_output in
      let z = cost_of policy w q r x y in
      elim (Bool-cases (w.decode v).is_object) [
        | inr no_object ↦ rw no_object (counted a r i)
        | inl object ↦ elim (Option-cases (charge x y z a.budget)) [
          | inl over ↦ rw (object) (rw (over) (counted a r i))
          | inr (b, e) ↦ rw (object) (rw (e) (charged_once a r i x y z b e))
        ]
      ]

  account_ending-Accounts :
      (r : ModelRoute) (i estimated : ℕ) (t : Ending) (a : Account)
      → Accounts tries a
          (account_ending policy w q r estimated t
            (count_calls policy w q (invoke policy w q r i).calls a)).0
  account_ending-Accounts r i estimated (value v) a = account_response-Accounts r i estimated v a
  account_ending-Accounts r i estimated (raised f) a = counted a r i
  account_ending-Accounts r i estimated exhausted a = counted a r i

  pub structured_attempt-Accounts :
      (r : ModelRoute) (i : ℕ) (p : Payload) (a : Account)
      → Accounts tries a (structured_attempt policy w q r i p a).0
  unfolding structured_attempt
  structured_attempt-Accounts r i p a =
      let estimated = w.estimate_tokens p in
      elim (Bool-cases
        (check estimated q.max_tokens (cost_of policy w q r estimated q.max_tokens) a.budget)) [
          | inl fits ↦
              rw fits (account_ending-Accounts r i estimated (invoke policy w q r i).ending a)
          | inr over ↦ rw over (Accounts-refl tries a)
        ]

  -- Whichever way the attempt went, the rest of the loop ran or not.
  go_on-Accounts :
      (left n : ℕ) (turn : Turn) (a : Account) (rest : Account × RouteEnd)
      → Accounts n a rest.0
      → Accounts n a (
          let out : Account × RouteEnd = elim turn [
            | ends e ↦ (a, e)
            | repairs ↦ elim left [ zero ↦ (a, failed_with structured_output) | suc k ↦ rest ]
          ] in
          out.0)
  go_on-Accounts left n (ends e) a rest h = Accounts-refl n a
  go_on-Accounts zero n repairs a rest h = Accounts-refl n a
  go_on-Accounts (suc k) n repairs a rest h = h

  pub structured_attempts-Accounts :
      (r : ModelRoute) (i left : ℕ) (p : Payload) (a : Account)
      → Accounts (times left tries) a (structured_attempts policy w q r i left p a).0
  unfolding structured_attempts
  structured_attempts-Accounts r i zero p a = Accounts-refl 0 a
  structured_attempts-Accounts r i (suc left) p a =
      let once = structured_attempt policy w q r i p a in
      let rest = structured_attempts policy w q r (i + 1) left (append_repair p) once.0 in
      let ih = structured_attempts-Accounts r (i + 1) left (append_repair p) once.0 in
      Accounts-trans tries (times left tries) a once.0
        (structured_attempts policy w q r i (suc left) p a).0 (structured_attempt-Accounts r i p a)
        (go_on-Accounts left (times left tries) once.1 once.0 rest ih)

  -- A route makes at most two structured attempts.
  abbrev pub per_route : ℕ
  per_route = times (attempts_of_request policy w q) tries

  pub try_route-Accounts :
      (r : ModelRoute) (bs : Breakers) (a : Account)
      → Accounts per_route a (try_route policy w q r bs a).1
  unfolding try_route
  try_route-Accounts r bs a =
      let estimated = w.estimate_tokens q.payload in
      elim (Bool-cases
        (check estimated q.max_tokens (cost_of policy w q r estimated q.max_tokens) a.budget)) [
          | inr over ↦ rw over (Accounts-refl per_route a)
          | inl fits ↦ elim (Bool-cases (allow (w.entered r.name) (breaker_of r.name bs)).1) [
            | inr blocked ↦ rw fits (rw blocked (Accounts-refl per_route a))
            | inl allowed ↦ rw fits (
                rw allowed (
                  structured_attempts-Accounts r 0 (attempts_of_request policy w q)
                    (route_payload policy w q r) a))
          ]
        ]

  -- What follows the end of a route.
  next-Accounts :
      (n : ℕ) (end : RouteEnd) (r : ModelRoute) (bs : Breakers) (a a' : Account)
      (rs : List ModelRoute)
      → Accounts per_route a a'
      → ((e : RouteError) → Accounts n a' (try_routes policy w q rs (some e) bs a').1)
      → Accounts (per_route + n) a (
          let out : Breakers × Account × Completion = elim end [
            | answered v output ↦ (bs, a', completed r.name v output)
            | over_budget ↦ (bs, a', budget_exceeded)
            | failed_with e ↦ try_routes policy w q rs (some e) bs a'
          ] in
          out.1)
  next-Accounts n (answered v output) r bs a a' rs h rest =
      Accounts-weaken per_route (per_route + n) a a' (omega arith) h
  next-Accounts n over_budget r bs a a' rs h rest =
      Accounts-weaken per_route (per_route + n) a a' (omega arith) h
  next-Accounts n (failed_with e) r bs a a' rs h rest = Accounts-trans per_route n a a' _ h (rest e)

  try_routes-Accounts :
      (rs : List ModelRoute) (last : Option RouteError) (bs : Breakers) (a : Account)
      → Accounts (times (length rs) per_route) a (try_routes policy w q rs last bs a).1
  unfolding try_routes
  try_routes-Accounts [] last bs a = Accounts-refl 0 a
  try_routes-Accounts (r ∷ rs) last bs a =
      let out = try_route policy w q r bs a in
      let rest = times (length rs) per_route in
      next-Accounts rest out.2 r out.0 a out.1 rs (try_route-Accounts r bs a)
        (λ e. try_routes-Accounts rs (some e) out.0 out.1)

  total :
      (n : ℕ) (budget : TokenCostBudget) (a : Account)
      → Accounts (times n per_route) (new_account budget) a
      → Charged a.call_input_tokens a.call_output_tokens a.call_cost budget a.budget
        × (a.calls ≤ times n per_route)
  total n budget a h = (
    record {
      input_added = omega (arith, h.charged.input_added, h.input_total);
      output_added = omega (arith, h.charged.output_added, h.output_total);
      cost_added = omega (arith, h.charged.cost_added, h.cost_total);
      keeps_within = h.charged.keeps_within;
      keeps_unlimited = h.charged.keeps_unlimited;
    },
    omega (arith, h.at_most),
  )

  -- A call of `complete`, however it ends, charges the budget exactly the totals that it counts,
  -- one response after the other; a budget within its limits stays so; and the providers are
  -- called at most max_attempts times for each of at most two structured attempts on at most two
  -- routes (once and on one, where no output model is asked for or no fallback is set).
  pub complete_accounts :
      (router : ModelRouter) (bs : Breakers) (budget : TokenCostBudget)
      → let a = (complete policy w q router bs budget).1 in
        Charged a.call_input_tokens a.call_output_tokens a.call_cost budget a.budget
        × (a.calls
            ≤ times
                (if is_some router.fallback_route then 2 else 1)
                (times (if q.has_output_model then 2 else 1) (max 1 policy.max_attempts)))
  unfolding complete routes
  complete_accounts router bs budget = elim (Option-cases router.fallback_route) [
    | inl n ↦ rw n (
        total 1 budget _
          (try_routes-Accounts (router.primary_route ∷ []) none bs (new_account budget)))
    | inr (f, e) ↦ rw e (
        total 2 budget _
          (try_routes-Accounts (router.primary_route ∷ f ∷ []) none bs (new_account budget)))
  ]
