-- ===== src/Backtest/OrderTests.antt =====
-- The portfolio of a backtest at concrete orders.
use stock_agent.Base.{
  ◌+◌, ◌-◌, ◌≤◌, ◌≡◌, refl, true, not, ◌==◌, length, All, ◌⊎◌, none, some, List, [], ◌∷◌,
}
use stock_agent.Base.Int.{pos, negsuc, ◌+ℤ◌, ◌-ℤ◌}
use stock_agent.Backtest.Book.{add, total_shares, available_shares, take_lots, clean, pop_available}
use stock_agent.Backtest.Ledger
use stock_agent.Backtest.Reconcile
use stock_agent.Backtest.Orders
use stock_agent.Backtest.Rebalance
use stock_agent.Backtest.DayTrades
use stock_agent.Backtest.Targets

-- 20,000 yuan and no position.
abbrev start : Ledger.PortfolioState
start = record { cash = pos 200000000; books = λ k. none; trades = [] }

start-Reconciles : Reconcile.Reconciles (pos 200000000) start
unfolding total_shares
start-Reconciles = record { cash_booked = refl; positions = λ k. refl }

-- A purchase for 15,000 yuan at 10 yuan, and a sale of 700 shares two days later at 11.
abbrev orders : List Orders.Order
orders = Orders.purchase 3 0 150000000 100000 ∷ Orders.sale 3 2 700 110000 ∷ []

orders_reconcile_holds : Reconcile.Reconciles (pos 200000000) (Orders.run_orders none orders start)
orders_reconcile_holds = Orders.orders_reconcile (pos 200000000) none orders start start-Reconciles

buy_affordable_example :
    let out = Ledger.buy none 3 0 150000000 100000 start in
    (out ≡ (start, 0))
    ⊎ ((out.1 ≤ 150000000)
        × (out.1 + Ledger.cost_of out.1 Ledger.buying ≤ 200000000)
        × (out.0.cash ≡ pos (200000000 - (out.1 + Ledger.cost_of out.1 Ledger.buying))))
buy_affordable_example = Orders.buy_affordable none 3 0 150000000 100000 200000000 start refl

-- The price of 1,500 shares, the least commission of 5 yuan against 3.75, and the slippage of 15.
buys_and_pays :
    let out = Ledger.buy none 3 0 150000000 100000 start in
    (out.1 ≡ 150000000) × (out.0.cash ≡ pos 49800000)
unfolding Ledger.buy Ledger.buy_from Ledger.shrink Ledger.cost_of Ledger.affordable_shares
    Ledger.round_buy_shares add
buys_and_pays = (refl, refl)

-- A sale that is worth less than the least commission takes from the cash.
abbrev penny_stock : Ledger.PortfolioState
penny_stock = record start {
  cash = pos 0;
  books = λ k. some (record { shares = 1; available_date = 1 } ∷ []);
}

sells_below_cost : (Ledger.sell none 3 2 1 10000 penny_stock).0.cash ≡ negsuc 40014
unfolding Ledger.sell Ledger.sell_from Ledger.cost_of pop_available available_shares take_lots clean
    ◌+ℤ◌ ◌-ℤ◌
sells_below_cost = refl

-- Three symbols: the best is at its upper limit, so the day buys the other two.
abbrev view : Rebalance.DayView
view = record {
  score = λ i. some (90 - i);
  price = λ i. 100000;
  last_close = λ i. 100000;
  tradable = λ i. true;
  buy_allowed = λ i. not (i == 0);
  sell_allowed = λ i. true;
  execute = none;
}

limit_up_is_skipped : Rebalance.ranked view 1 2 3 start ≡ 1 ∷ 2 ∷ []
unfolding Rebalance.ranked total_shares
limit_up_is_skipped = refl

ranked_targets_example :
    (length (Rebalance.ranked view 1 2 3 start) ≤ 2)
    × All (Targets.IsTarget view start) (Rebalance.ranked view 1 2 3 start)
ranked_targets_example = Targets.ranked_targets view 1 2 3 start

rebalance_day-Permitted_example :
    DayTrades.Trades
      (DayTrades.Permitted view 1 (Rebalance.ranked view 1 2 3 start))
      (pos 200000000)
      start
      (Rebalance.rebalance_day view 1 2 3 start).0
rebalance_day-Permitted_example = DayTrades.rebalance_day-Permitted view 1 2 3 (pos 200000000) start
