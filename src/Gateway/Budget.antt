-- ===== src/Gateway/Budget.antt =====
-- `TokenCostBudget` of app/model_gateway/budget.py. A cost is a whole number of the smallest unit.
use stock_agent.Base.{
  ℕ, ◌+◌, ◌≤◌, ◌≡◌, refl, Bool, true, ◌&&◌, Option, none, some, arith, leb, if◌then◌else◌,
}

pub record TokenCostBudget : Type 0 where
  pub max_input_tokens : Option ℕ
  pub max_output_tokens : Option ℕ
  pub max_total_tokens : Option ℕ
  pub max_cost : Option ℕ
  pub input_tokens : ℕ
  pub output_tokens : ℕ
  pub cost : ℕ

abbrev pub is_within : Option ℕ → ℕ → Bool
is_within none n = true
is_within (some limit) n = leb n limit

-- False is BudgetExceededError.
unfoldable pub check : ℕ → ℕ → ℕ → TokenCostBudget → Bool
check input_tokens output_tokens estimated_cost b =
    is_within b.max_input_tokens (b.input_tokens + input_tokens)
    && is_within b.max_output_tokens (b.output_tokens + output_tokens)
    && is_within b.max_total_tokens
        (b.input_tokens + b.output_tokens + input_tokens + output_tokens)
    && is_within b.max_cost (b.cost + estimated_cost)

unfoldable pub reserve : ℕ → ℕ → ℕ → TokenCostBudget → Option TokenCostBudget
reserve input_tokens output_tokens estimated_cost b =
    if check input_tokens output_tokens estimated_cost b
    then some (record b {
      input_tokens = b.input_tokens + input_tokens;
      output_tokens = b.output_tokens + output_tokens;
      cost = b.cost + estimated_cost;
    })
    else none

unfoldable pub charge : ℕ → ℕ → ℕ → TokenCostBudget → Option TokenCostBudget
charge input_tokens output_tokens cost = reserve input_tokens output_tokens cost

abbrev pub AtMost : Option ℕ → ℕ → Type 0
AtMost none n = Unit
AtMost (some limit) n = n ≤ limit

-- What is accounted stays within each limit that is set.
pub record IsWithin (b : TokenCostBudget) : Type 0 where
  pub input_within : AtMost b.max_input_tokens b.input_tokens
  pub output_within : AtMost b.max_output_tokens b.output_tokens
  pub total_within : AtMost b.max_total_tokens (b.input_tokens + b.output_tokens)
  pub cost_within : AtMost b.max_cost b.cost

-- No limit is set.
pub record IsUnlimited (b : TokenCostBudget) : Type 0 where
  pub no_input_limit : b.max_input_tokens ≡ none
  pub no_output_limit : b.max_output_tokens ≡ none
  pub no_total_limit : b.max_total_tokens ≡ none
  pub no_cost_limit : b.max_cost ≡ none

-- The same limits, and so much more accounted.
pub record Charged (i o c : ℕ) (b b' : TokenCostBudget) : Type 0 where
  pub input_added : b'.input_tokens ≡ b.input_tokens + i
  pub output_added : b'.output_tokens ≡ b.output_tokens + o
  pub cost_added : b'.cost ≡ b.cost + c
  pub keeps_within : IsWithin b → IsWithin b'
  pub keeps_unlimited : IsUnlimited b → IsUnlimited b'

pub charge-Charged :
    (i o c : ℕ) (b b' : TokenCostBudget) → charge i o c b ≡ some b' → Charged i o c b b'
unfolding charge reserve check
charge-Charged i o c b b' e = ground arith

pub Charged-trans :
    (i o c i' o' c' : ℕ) (b b' b'' : TokenCostBudget)
    → Charged i o c b b'
    → Charged i' o' c' b' b''
    → Charged (i + i') (o + o') (c + c') b b''
Charged-trans i o c i' o' c' b b' b'' p q = record {
  input_added = omega (arith, p.input_added, q.input_added);
  output_added = omega (arith, p.output_added, q.output_added);
  cost_added = omega (arith, p.cost_added, q.cost_added);
  keeps_within = λ w. q.keeps_within (p.keeps_within w);
  keeps_unlimited = λ w. q.keeps_unlimited (p.keeps_unlimited w);
}

pub charged_nothing : (b : TokenCostBudget) → Charged 0 0 0 b b
charged_nothing b = record {
  input_added = omega arith;
  output_added = omega arith;
  cost_added = omega arith;
  keeps_within = λ w. w;
  keeps_unlimited = λ w. w;
}

pub unlimited_passes : (i o c : ℕ) (b : TokenCostBudget) → IsUnlimited b → check i o c b ≡ true
unfolding check
unlimited_passes i o c b u =
    ground (arith, u.no_input_limit, u.no_output_limit, u.no_total_limit, u.no_cost_limit)

pub unlimited_charges :
    (i o c : ℕ) (b : TokenCostBudget)
    → IsUnlimited b
    → (b' : TokenCostBudget) × (charge i o c b ≡ some b')
unfolding charge reserve
unlimited_charges i o c b u = rw (unlimited_passes i o c b u) (_, refl)
