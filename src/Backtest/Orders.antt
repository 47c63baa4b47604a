-- ===== src/Backtest/Orders.antt =====
-- Any row of sales and purchases on a portfolio of engines/backtest/portfolio_backtest.py.
use stock_agent.Base.{
  ℕ, ◌+◌, ◌-◌, ◌≤◌, ◌≡◌, refl, sym, ap, ◌∙◌, subst, ◌⊎◌, inl, inr, List, [], ◌∷◌, arith,
}
use stock_agent.Base.Int.{ℤ, pos, negsuc, ◌-ℤ◌}
use stock_agent.Backtest.Ledger.{
  buying, cost_of, PortfolioState, Execute, sell, buy, buy_from, book_of, trade_of,
}
use stock_agent.Backtest.Reconcile.{
  Reconciles, Bought, booked, buy_from-Bought, sell-Reconciles, after_trade-Reconciles,
  minus_booked, total_shares-append,
}

-- A call of `sell` or `buy` with its arguments: the index, the day, the shares or the value, and
-- the price.
pub data Order : Type 0 where
  sale : ℕ → ℕ → ℕ → ℕ → Order
  purchase : ℕ → ℕ → ℕ → ℕ → Order

abbrev pub carry_out : Execute → Order → PortfolioState → PortfolioState × ℕ
carry_out execute (sale idx date shares price) = sell execute idx date shares price
carry_out execute (purchase idx date value price) = buy execute idx date value price

abbrev pub run_orders : Execute → List Order → PortfolioState → PortfolioState
run_orders execute [] s = s
run_orders execute (o ∷ os) s = run_orders execute os (carry_out execute o s).0

Bought-Reconciles :
    (initial : ℤ) (idx date asked price cash : ℕ) (s s' : PortfolioState) (spent : ℕ)
    → s.cash ≡ pos cash
    → Bought idx date asked price cash s s' spent
    → Reconciles initial s
    → Reconciles initial s'
Bought-Reconciles initial idx date asked price cash s s' spent c b r =
    let t = trade_of date idx buying b.shares price in
    let cost : spent + cost_of spent buying ≡ t.value + t.cost =
      ap (λ x. x + cost_of x buying) b.whole in
    let paid : pos (cash - (spent + cost_of spent buying)) ≡ booked s.cash t =
      minus_booked cash (spent + cost_of spent buying) b.within_cash
      ∙ ap (λ x. pos cash -ℤ pos x) cost
      ∙ ap (λ x. x -ℤ pos (t.value + t.cost)) (sym c) in
    let grown = total_shares-append (book_of (s.books idx)) b.shares date in
    subst (Reconciles initial) (sym b.result)
      (after_trade-Reconciles initial _ t _ s r paid (ground (arith, grown)))

pub buy_positive :
    (execute : Execute) (idx date asked price cash : ℕ) (s : PortfolioState)
    → s.cash ≡ pos cash
    → buy execute idx date asked price s ≡ buy_from execute idx date asked price cash s
unfolding buy
buy_positive execute idx date asked price cash s e = ground (arith, e)

pub order-Reconciles :
    (initial : ℤ) (execute : Execute) (o : Order) (s : PortfolioState)
    → Reconciles initial s
    → Reconciles initial (carry_out execute o s).0
unfolding buy
order-Reconciles initial execute (sale idx date shares price) s r =
    sell-Reconciles initial execute idx date price shares s r
order-Reconciles initial execute (purchase idx date asked price) s r = by s.cash refl
  where
    by : (c : ℤ) → s.cash ≡ c → Reconciles initial (buy execute idx date asked price s).0
    by (negsuc n) e = rw (e, buy) r
    by (pos cash) e =
        rw (e, buy)
          (elim (buy_from-Bought execute idx date asked price cash s) [
            | inl nothing ↦ rw nothing r
            | inr b ↦ Bought-Reconciles initial idx date asked price cash s _ _ e b r
          ])

-- Whatever row of sales and purchases is carried out, also with fills that are refused: a
-- portfolio whose cash and positions are what its log of trades says stays so.
pub orders_reconcile :
    (initial : ℤ) (execute : Execute) (orders : List Order) (s : PortfolioState)
    → Reconciles initial s
    → Reconciles initial (run_orders execute orders s)
orders_reconcile initial execute [] s r = r
orders_reconcile initial execute (o ∷ os) s r =
    orders_reconcile initial execute os (carry_out execute o s).0
      (order-Reconciles initial execute o s r)

-- A purchase from a cash that is not negative leaves it so: it does nothing, or it spends a whole
-- number of shares' price, no more than was asked for, and that with its cost no more than the
-- cash, which falls by exactly as much.
pub buy_affordable :
    (execute : Execute) (idx date asked price cash : ℕ) (s : PortfolioState)
    → s.cash ≡ pos cash
    → let out = buy execute idx date asked price s in
      (out ≡ (s, 0))
      ⊎ ((out.1 ≤ asked)
          × (out.1 + cost_of out.1 buying ≤ cash)
          × (out.0.cash ≡ pos (cash - (out.1 + cost_of out.1 buying))))
buy_affordable execute idx date asked price cash s e =
    subst
      (λ (out : PortfolioState × ℕ).
        (out ≡ (s, 0))
        ⊎ ((out.1 ≤ asked)
            × (out.1 + cost_of out.1 buying ≤ cash)
            × (out.0.cash ≡ pos (cash - (out.1 + cost_of out.1 buying)))))
      (sym (buy_positive execute idx date asked price cash s e))
      (elim (buy_from-Bought execute idx date asked price cash s) [
        | inl nothing ↦ inl nothing
        | inr b ↦ inr (b.within_asked, b.within_cash, ap (λ x. x.cash) b.result)
      ])
