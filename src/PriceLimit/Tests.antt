-- ===== src/PriceLimit/Tests.antt =====
-- The price limits at concrete securities. A unit of price is a hundredth of a yuan, and so is a
-- tick.
use stock_agent.Base.{ℕ, ◌*◌, ◌≤◌, ◌≡◌, refl, ◌⊎◌, true, false, none, some, [], ◌∷◌, arith}
use stock_agent.PriceLimit.Rules
use stock_agent.PriceLimit.Prices
use stock_agent.PriceLimit.Band

abbrev no_quote : Rules.Payload
no_quote = record {
  listing_stage = none;
  limit_up_rate = none;
  limit_down_rate = none;
  risk_warning = some true;
}

-- 600000, with a risk warning, the day before the new rule; 10.03 yuan before, 10.60 now.
abbrev context : Prices.TradeRuleContext
context = record {
  code = 6 ∷ 0 ∷ 0 ∷ 0 ∷ 0 ∷ 0 ∷ [];
  trade_date = 739802;
  prev_close = 1003;
  open_price = 1060;
  quote = no_quote;
  tick = 1;
  upper_limit_price = none;
  lower_limit_price = none;
}

abbrev st_rule : Rules.PriceLimitRule
st_rule = record {
  board = Rules.main_board;
  limit_up_pct = some 50000;
  limit_down_pct = some 50000;
  has_price_limit = true;
  version = Rules.main_board_st_before;
}

resolves : Prices.rule_of context ≡ Rules.rule st_rule
unfolding Rules.resolve_price_limit_rule Rules.board_of Rules.quote_limit_rule Rules.board_rule
    Rules.validated
resolves = refl

wide_enough :
    (up : ℕ) → st_rule.limit_up_pct ≡ some up → Rules.one * context.tick ≤ context.prev_close * up
wide_enough up e = let same : up ≡ 50000 = cc in rw same (omega arith)

one_side_open_example :
    (Prices.can_buy_with_context context ≡ Prices.verdict true)
    ⊎ (Prices.can_sell_with_context context ≡ Prices.verdict true)
one_side_open_example =
    Band.one_side_open context st_rule refl refl resolves (omega arith) wide_enough

-- The limit of 10.53 is passed.
barred : Prices.can_buy_with_context context ≡ Prices.verdict false
unfolding Prices.can_buy_with_context Prices.limit_up_price Prices.round_to_tick
    Rules.resolve_price_limit_rule Rules.board_of Rules.quote_limit_rule Rules.board_rule
    Rules.validated
barred = refl

resolved-IsUsable_example : Band.IsUsable (
    Rules.resolve_price_limit_rule
      (3 ∷ 0 ∷ 0 ∷ 7 ∷ 5 ∷ 0 ∷ [])
      739802
      (record no_quote { limit_up_rate = some (Rules.millionths 10000000) })
      none
      none)
resolved-IsUsable_example =
    Band.resolved-IsUsable (3 ∷ 0 ∷ 0 ∷ 7 ∷ 5 ∷ 0 ∷ []) 739802
      (record no_quote { limit_up_rate = some (Rules.millionths 10000000) }) none none
