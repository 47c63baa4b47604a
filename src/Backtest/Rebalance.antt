-- ===== src/Backtest/Rebalance.antt =====
-- `_rebalance_day` of engines/backtest/portfolio_backtest.py. What the market allows on the day is
-- its view: scores and prices by index, whether a symbol trades and what the limit rules allow.
-- Shares are whole: where the source sells a fraction of a share to reduce a position, the fraction
-- is dropped.
use stock_agent.Base.{
  ℕ, zero, suc, ◌+◌, ◌*◌, ◌/◌, Bool, false, not, ◌&&◌, ◌||◌, Option, List, [], ◌∷◌, ◌++◌, ltb, leb,
  if◌then◌else◌, take, length, contains, is_some, or_default,
}
use stock_agent.Base.Int.{ℤ, pos, negsuc, ◌+ℤ◌, ◌-ℤ◌, pos_part, sub_ℕ, leb_ℤ}
use stock_agent.Backtest.Book.{total_shares}
use stock_agent.Backtest.Ledger.{yuan, Trade, PortfolioState, Execute, sell, buy, book_of}

-- A score that is missing is NaN, a price of 0 no price.
pub record DayView : Type 0 where
  pub score : ℕ → Option ℕ
  pub price : ℕ → ℕ
  pub last_close : ℕ → ℕ
  pub tradable : ℕ → Bool
  pub buy_allowed : ℕ → Bool
  pub sell_allowed : ℕ → Bool
  pub execute : Execute

-- `range(n)`, after the given start.
abbrev pub range_from : ℕ → ℕ → List ℕ
range_from start zero = []
range_from start (suc n) = start ∷ range_from (start + 1) n

abbrev pub filter : (ℕ → Bool) → List ℕ → List ℕ
filter test [] = []
filter test (x ∷ xs) = let rest = filter test xs in if test x then x ∷ rest else rest

abbrev pub any_of : (ℕ → Bool) → List ℕ → Bool
any_of test [] = false
any_of test (x ∷ xs) = test x || any_of test xs

-- `sorted(…, reverse=True)`, which keeps the order of equal scores.
abbrev pub insert_by : (ℕ → ℕ) → ℕ → List ℕ → List ℕ
insert_by key i [] = i ∷ []
insert_by key i (x ∷ xs) =
    let rest = insert_by key i xs in if leb (key x) (key i) then i ∷ x ∷ xs else x ∷ rest

abbrev pub sort_by : (ℕ → ℕ) → List ℕ → List ℕ
sort_by key [] = []
sort_by key (x ∷ xs) = insert_by key x (sort_by key xs)

-- The keys of `books` in the order of insertion: a purchase creates a book.
abbrev pub book_keys : List Trade → List ℕ → List ℕ
book_keys [] found = found
book_keys (t ∷ ts) found =
    if contains t.symbol found then book_keys ts found else book_keys ts (found ++ t.symbol ∷ [])

abbrev pub shares_of : ℕ → PortfolioState → ℕ
shares_of idx s = total_shares (book_of (s.books idx))

module _ (w : DayView) (t : ℕ) where
  abbrev pub score_of : ℕ → ℕ
  score_of i = or_default (w.score i) 0

  abbrev pub eligible : ℕ → List ℕ
  eligible n_symbols = filter (λ i. is_some (w.score i) && w.tradable i) (range_from 0 n_symbols)

  -- The targets: the best scores, without what is not held and cannot be bought.
  unfoldable pub ranked : ℕ → ℕ → PortfolioState → List ℕ
  ranked top_k n_symbols s =
      let sorted = sort_by score_of (eligible n_symbols) in
      let best = take top_k sorted in
      if any_of (λ i. not (w.buy_allowed i) && leb (shares_of i s) 0) best
      then take top_k (filter (λ i. w.buy_allowed i || ltb 0 (shares_of i s)) sorted)
      else best

  -- The first step: what left the targets is sold.
  unfoldable pub sell_out : List ℕ → List ℕ → PortfolioState × ℕ → PortfolioState × ℕ
  sell_out target [] (s, traded) = (s, traded)
  sell_out target (idx ∷ keys) (s, traded) =
      let (s', value) = sell w.execute idx t (shares_of idx s) (w.price idx) s in
      if contains idx target
        || leb (shares_of idx s) 0
        || not (w.tradable idx)
        || not (w.sell_allowed idx)
      then sell_out target keys (s, traded)
      else sell_out target keys (s', traded + value)

  abbrev pub valuation_price : ℕ → ℕ
  valuation_price idx = if ltb 0 (w.price idx) then w.price idx else w.last_close idx

  abbrev pub current_value : ℕ → PortfolioState → ℕ
  current_value idx s = shares_of idx s * valuation_price idx

  abbrev pub holdings_value : List ℕ → PortfolioState → ℕ
  holdings_value [] s = 0
  holdings_value (idx ∷ keys) s = current_value idx s + holdings_value keys s

  -- `equity_open * 0.99 / len(target)`
  abbrev pub target_value : ℤ → ℕ → ℤ
  target_value equity size = elim equity [
    | pos n ↦ pos (n * 99 / 100 / size)
    | negsuc n ↦ sub_ℕ 0 (suc n * 99 / 100 / size)
  ]

  -- The third step: what is above its target is reduced.
  unfoldable pub reduce : ℤ → List ℕ → PortfolioState × ℕ → PortfolioState × ℕ
  reduce goal [] (s, traded) = (s, traded)
  reduce goal (idx ∷ rest) (s, traded) =
      let excess = pos (current_value idx s) -ℤ goal in
      let (s', value) = sell w.execute idx t (pos_part excess / w.price idx) (w.price idx) s in
      if leb_ℤ excess (pos yuan) || not (w.tradable idx) || not (w.sell_allowed idx)
      then reduce goal rest (s, traded)
      else reduce goal rest (s', traded + value)

  -- The fourth step: what is below its target is bought.
  unfoldable pub fill_up : ℤ → List ℕ → PortfolioState × ℕ → PortfolioState × ℕ
  fill_up goal [] (s, traded) = (s, traded)
  fill_up goal (idx ∷ rest) (s, traded) =
      let gap = goal -ℤ pos (current_value idx s) in
      let (s', value) = buy w.execute idx t (pos_part gap) (w.price idx) s in
      if leb_ℤ gap (pos yuan) || not (w.buy_allowed idx)
      then fill_up goal rest (s, traded)
      else fill_up goal rest (s', traded + value)

  unfoldable pub rebalance_day : ℕ → ℕ → PortfolioState → PortfolioState × ℕ
  rebalance_day top_k n_symbols s =
      let target = ranked top_k n_symbols s in
      let (sold, traded) = sell_out target (book_keys s.trades []) (s, 0) in
      let equity = sold.cash +ℤ pos (holdings_value (book_keys sold.trades []) sold) in
      let goal = target_value equity (length target) in
      if leb (length target) 0
      then (sold, traded)
      else fill_up goal target (reduce goal target (sold, traded))
