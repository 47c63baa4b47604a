-- ===== src/Gateway/Fallback.antt =====
-- When `ModelGateway.complete` answers by its fallback route.
use stock_agent.Base.{
  ℕ, zero, suc, ◌+◌, ◌≡◌, refl, sym, ap, ◌∙◌, subst, ◌≢◌, ◌⊎◌, inl, inr, true, Option, none, some,
  List, [], ◌∷◌, arith, Bool-cases,
}
use stock_agent.Gateway.Breaker.{allow}
use stock_agent.Gateway.Retry.{RetryPolicy, Ending, value, raised, exhausted}
use stock_agent.Gateway.Budget.{TokenCostBudget, IsUnlimited, unlimited_passes, unlimited_charges}
use stock_agent.Gateway.Complete.{
  primary, fallback, ModelRoute, ModelRouter, Payload, ModelRequest, World, Breakers, breaker_of,
  Account, RouteEnd, answered, over_budget, failed_with, RouteError, structured_output, Turn, ends,
  repairs, valid, validate_structured, input_tokens_of, append_repair, account_response,
  account_ending, structured_attempt, structured_attempts, attempts_of_request, route_payload,
  try_route, try_routes, routes, complete, new_account, completed, invoke, count_calls, cost_of,
}
use stock_agent.Gateway.Spending.{structured_attempt-Accounts, try_route-Accounts}

module _ (policy : RetryPolicy) (w : World) (q : ModelRequest) where
  account_ending-unlimited :
      (r : ModelRoute) (estimated : ℕ) (t : Ending) (a : Account)
      → IsUnlimited a.budget
      → (account_ending policy w q r estimated t a).1 ≢ ends over_budget
  unfolding account_response
  account_ending-unlimited r estimated (value v) a u e =
      let x = input_tokens_of (w.decode v) estimated in
      let y = (w.decode v).usage_output in
      let (b, c) = unlimited_charges x y (cost_of policy w q r x y) a.budget u in ground (arith, c)
  account_ending-unlimited r estimated (raised f) a u e = cc
  account_ending-unlimited r estimated exhausted a u e = cc

  structured_attempt-unlimited :
      (r : ModelRoute) (i : ℕ) (p : Payload) (a : Account)
      → IsUnlimited a.budget
      → (structured_attempt policy w q r i p a).1 ≢ ends over_budget
  unfolding structured_attempt
  structured_attempt-unlimited r i p a u =
      let n = w.estimate_tokens p in
      rw (unlimited_passes n q.max_tokens (cost_of policy w q r n q.max_tokens) a.budget u) (
        account_ending-unlimited r n (invoke policy w q r i).ending
          (count_calls policy w q (invoke policy w q r i).calls a) u)

  go_on-unlimited :
      (left : ℕ) (turn : Turn) (a : Account) (rest : Account × RouteEnd)
      → turn ≢ ends over_budget
      → rest.1 ≢ over_budget
      → (let out : Account × RouteEnd = elim turn [
        | ends e ↦ (a, e)
        | repairs ↦ elim left [ zero ↦ (a, failed_with structured_output) | suc k ↦ rest ]
      ] in
          out.1)
        ≢ over_budget
  go_on-unlimited left (ends e) a rest h h' = λ x. h (ap ends x)
  go_on-unlimited zero repairs a rest h h' = λ x. cc
  go_on-unlimited (suc k) repairs a rest h h' = h'

  structured_attempts-unlimited :
      (r : ModelRoute) (i left : ℕ) (p : Payload) (a : Account)
      → IsUnlimited a.budget
      → (structured_attempts policy w q r i left p a).1 ≢ over_budget
  unfolding structured_attempts
  structured_attempts-unlimited r i zero p a u = λ x. cc
  structured_attempts-unlimited r i (suc left) p a u =
      let once = structured_attempt policy w q r i p a in
      let u' = (structured_attempt-Accounts policy w q r i p a).charged.keeps_unlimited u in
      go_on-unlimited left once.1 once.0
        (structured_attempts policy w q r (i + 1) left (append_repair p) once.0)
        (structured_attempt-unlimited r i p a u)
        (structured_attempts-unlimited r (i + 1) left (append_repair p) once.0 u')

  try_route-unlimited :
      (r : ModelRoute) (bs : Breakers) (a : Account)
      → IsUnlimited a.budget
      → (try_route policy w q r bs a).2 ≢ over_budget
  unfolding try_route
  try_route-unlimited r bs a u =
      let n = w.estimate_tokens q.payload in
      let attempts =
        structured_attempts-unlimited r 0 (attempts_of_request policy w q)
          (route_payload policy w q r) a u in
      rw (unlimited_passes n q.max_tokens (cost_of policy w q r n q.max_tokens) a.budget u)
        (elim (Bool-cases (allow (w.entered r.name) (breaker_of r.name bs)).1) [
          | inl yes_allowed ↦ rw yes_allowed attempts
          | inr blocked ↦ rw blocked (λ x. cc)
        ])

  -- A route's turn leaves the other route's breaker as it is.
  try_route-other :
      (r : ModelRoute) (bs : Breakers) (a : Account)
      → r.name ≡ primary
      → (try_route policy w q r bs a).0.of_fallback ≡ bs.of_fallback
  unfolding try_route
  try_route-other r bs a e = ground arith

  -- The first attempt of the route gives a response that the caller can use.
  pub record Answers (r : ModelRoute) (v : ℕ) (output : Option ℕ) : Type 0 where
    pub gives_value : (invoke policy w q r 0).ending ≡ value v
    pub is_json : (w.decode v).is_object ≡ true
    pub accepted : validate_structured q.has_output_model (w.decode v) ≡ valid output

  response-Answers :
      (r : ModelRoute) (v n : ℕ) (output : Option ℕ) (a : Account)
      → Answers r v output
      → IsUnlimited a.budget
      → (account_response policy w q r n v a).1 ≡ ends (answered v output)
  unfolding account_response
  response-Answers r v n output a h u =
      let x = input_tokens_of (w.decode v) n in
      let y = (w.decode v).usage_output in
      let (b, c) = unlimited_charges x y (cost_of policy w q r x y) a.budget u in
      rw h.is_json (rw c (rw h.accepted refl))

  Answers-at_once :
      (r : ModelRoute) (left v : ℕ) (output : Option ℕ) (p : Payload) (a : Account)
      → Answers r v output
      → IsUnlimited a.budget
      → (structured_attempts policy w q r 0 (suc left) p a).1 ≡ answered v output
  unfolding structured_attempt structured_attempts
  Answers-at_once r left v output p a h u =
      let n = w.estimate_tokens p in
      let a1 = count_calls policy w q (invoke policy w q r 0).calls a in
      let turn : (structured_attempt policy w q r 0 p a).1 ≡ ends (answered v output) =
        rw (unlimited_passes n q.max_tokens (cost_of policy w q r n q.max_tokens) a.budget u)
          (rw h.gives_value (response-Answers r v n output a1 h u)) in
      rw (turn, structured_attempts) refl

  -- At least one attempt is made.
  some_attempts : (k : ℕ) × (attempts_of_request policy w q ≡ suc k)
  some_attempts = elim (Bool-cases q.has_output_model) [
    | inl two ↦ (1, ground arith)
    | inr one ↦ (0, ground arith)
  ]

  try_route-Answers :
      (r : ModelRoute) (bs : Breakers) (v : ℕ) (output : Option ℕ) (a : Account)
      → Answers r v output
      → IsUnlimited a.budget
      → (allow (w.entered r.name) (breaker_of r.name bs)).1 ≡ true
      → (try_route policy w q r bs a).2 ≡ answered v output
  unfolding try_route
  try_route-Answers r bs v output a h u may_call =
      let n = w.estimate_tokens q.payload in
      rw (unlimited_passes n q.max_tokens (cost_of policy w q r n q.max_tokens) a.budget u) (
        rw may_call (
          let (k, e) = some_attempts in
          subst
            (λ left.
              (structured_attempts policy w q r 0 left (route_payload policy w q r) a).1
              ≡ answered v output)
            (sym e) (Answers-at_once r k v output (route_payload policy w q r) a h u)))

  completes_last :
      (r : ModelRoute) (last : Option RouteError) (bs : Breakers) (a : Account) (v : ℕ)
      (output : Option ℕ)
      → (try_route policy w q r bs a).2 ≡ answered v output
      → (try_routes policy w q (r ∷ []) last bs a).2 ≡ completed r.name v output
  unfolding try_routes
  completes_last r last bs a v output e = rw (e, try_routes) refl

  after_failure :
      (rs : List ModelRoute) (r : ModelRoute) (last : Option RouteError) (bs : Breakers)
      (a : Account)
      → (try_route policy w q r bs a).2 ≢ over_budget
      → ((v : ℕ) × (output : Option ℕ) × ((try_routes policy w q (r ∷ rs) last bs a).2
            ≡ completed r.name v output))
        ⊎ ((e : RouteError) × (try_routes policy w q (r ∷ rs) last bs a ≡ (
              let out = try_route policy w q r bs a in
              try_routes policy w q rs (some e) out.0 out.1)))
  unfolding try_routes
  after_failure rs r last bs a h = by (try_route policy w q r bs a).2 refl
    where
      by :
          (end : RouteEnd)
          → (try_route policy w q r bs a).2 ≡ end
          → ((v : ℕ) × (output : Option ℕ) × ((try_routes policy w q (r ∷ rs) last bs a).2
                ≡ completed r.name v output))
            ⊎ ((e : RouteError) × (try_routes policy w q (r ∷ rs) last bs a ≡ (
                  let out = try_route policy w q r bs a in
                  try_routes policy w q rs (some e) out.0 out.1)))
      by (answered v output) e = inl (v, output, rw (e, try_routes) refl)
      by over_budget e = absurd (h e)
      by (failed_with x) e = inr (x, rw (e, try_routes) refl)

  -- With no limit set on the budget, a fallback whose breaker lets the call through and whose
  -- first attempt gives a response that the caller can use: whatever the primary route does, be
  -- its breaker open or its provider failing, the call is completed, by the primary route or by
  -- that response.
  pub fallback-Answers :
      (router : ModelRouter) (f : ModelRoute) (bs : Breakers) (budget : TokenCostBudget) (v : ℕ)
      (output : Option ℕ)
      → router.primary_route.name ≡ primary
      → router.fallback_route ≡ some f
      → f.name ≡ fallback
      → IsUnlimited budget
      → (allow (w.entered fallback) bs.of_fallback).1 ≡ true
      → Answers f v output
      → ((v' : ℕ) × (output' : Option ℕ) × ((complete policy w q router bs budget).2
            ≡ completed primary v' output'))
        ⊎ ((complete policy w q router bs budget).2 ≡ completed fallback v output)
  unfolding complete routes
  fallback-Answers router f bs budget v output np fr nf u may_call h =
      let p = router.primary_route in
      let a = new_account budget in
      let first = try_route policy w q p bs a in
      let u' = (try_route-Accounts policy w q p bs a).charged.keeps_unlimited u in
      let same : first.0.of_fallback ≡ bs.of_fallback = try_route-other p bs a np in
      let open_now : (allow (w.entered f.name) (breaker_of f.name first.0)).1 ≡ true =
        rw nf (rw same may_call) in
      let second = try_route-Answers f first.0 v output first.1 h u' open_now in
      rw fr (elim (after_failure (f ∷ []) p none bs a (try_route-unlimited p bs a u)) [
        | inl (v', output', e) ↦ inl (v', output', e ∙ ap (λ n. completed n v' output') np)
        | inr (e, t) ↦ inr (
            ap (λ x. x.2) t
            ∙ completes_last f (some e) first.0 first.1 v output second
            ∙ ap (λ n. completed n v output) nf)
      ])
