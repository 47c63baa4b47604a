-- ===== src/PriceLimit/Prices.antt =====
-- The limit prices and the tests on the opening price of engines/backtest/execution.py. Prices and
-- the tick are whole numbers of one unit. The product of the close and the rate is exact, where the
-- source takes it in floating point before it rounds to the tick, so that a limit that lies on half
-- a tick may be a tick off.
use stock_agent.Base.{
  ℕ, ◌+◌, ◌-◌, ◌*◌, ◌/◌, Bool, true, not, Option, none, some, List, ltb, if◌then◌else◌,
}
use stock_agent.PriceLimit.Rules.{
  Payload, RuleError, incomplete_up, incomplete_down, Resolved, rule, invalid_rule, one,
  resolve_price_limit_rule,
}

-- `round_to_tick` of n / d units: half a tick is rounded up.
unfoldable pub round_to_tick : ℕ → ℕ → ℕ → ℕ
round_to_tick n d tick = (n + n + d * tick) / (d * tick + d * tick) * tick

-- A limit price; without a limit the upper one is +inf and the lower one -inf.
pub data LimitPrice : Type 0 where
  unlimited : LimitPrice
  at : ℕ → LimitPrice
  limit_error : RuleError → LimitPrice

-- `limit_up_price` of a resolved rule.
unfoldable pub limit_up_price : Resolved → ℕ → ℕ → LimitPrice
limit_up_price (invalid_rule e) prev_close tick = limit_error e
limit_up_price (rule r) prev_close tick =
    if not r.has_price_limit then unlimited else elim r.limit_up_pct [
      | none ↦ limit_error incomplete_up
      | some up ↦ at (round_to_tick (prev_close * (one + up)) one tick)
    ]

-- `limit_down_price` of a resolved rule.
unfoldable pub limit_down_price : Resolved → ℕ → ℕ → LimitPrice
limit_down_price (invalid_rule e) prev_close tick = limit_error e
limit_down_price (rule r) prev_close tick =
    if not r.has_price_limit then unlimited else elim r.limit_down_pct [
      | none ↦ limit_error incomplete_down
      | some down ↦ at (round_to_tick (prev_close * (one - down)) one tick)
    ]

-- A verdict, or the error that was raised.
pub data Verdict : Type 0 where
  verdict : Bool → Verdict
  verdict_error : RuleError → Verdict

-- `can_buy`: below the upper limit.
abbrev pub below : ℕ → LimitPrice → Verdict
below open_price unlimited = verdict true
below open_price (at limit) = verdict (ltb open_price limit)
below open_price (limit_error e) = verdict_error e

-- `can_sell`: above the lower limit.
abbrev pub above : ℕ → LimitPrice → Verdict
above open_price unlimited = verdict true
above open_price (at limit) = verdict (ltb limit open_price)
above open_price (limit_error e) = verdict_error e

-- `TradeRuleContext`; an actual limit price is positive where it is given.
pub record TradeRuleContext : Type 0 where
  pub code : List ℕ
  pub trade_date : ℕ
  pub prev_close : ℕ
  pub open_price : ℕ
  pub quote : Payload
  pub tick : ℕ
  pub upper_limit_price : Option ℕ
  pub lower_limit_price : Option ℕ

-- The rule that a context resolves to: its risk warning is read from the quote alone.
abbrev pub rule_of : TradeRuleContext → Resolved
rule_of c = resolve_price_limit_rule c.code c.trade_date c.quote c.quote.risk_warning none

unfoldable pub can_buy_with_context : TradeRuleContext → Verdict
can_buy_with_context c = elim c.upper_limit_price [
  | some upper ↦ verdict (ltb c.open_price upper)
  | none ↦ below c.open_price (limit_up_price (rule_of c) c.prev_close c.tick)
]

unfoldable pub can_sell_with_context : TradeRuleContext → Verdict
can_sell_with_context c = elim c.lower_limit_price [
  | some lower ↦ verdict (ltb lower c.open_price)
  | none ↦ above c.open_price (limit_down_price (rule_of c) c.prev_close c.tick)
]
