-- ===== src/Backtest/Ledger.antt =====
-- `_PortfolioState` of engines/backtest/portfolio_backtest.py with `cost_of` of
-- engines/backtest/execution.py. Prices and cash are whole numbers of one unit of money, of which
-- a yuan has `yuan`; costs, which the source does not round, are rounded down to it, and the
-- tolerance of 1e-9 is nothing.
use stock_agent.Base.{
  ℕ, zero, suc, ◌+◌, ◌-◌, ◌*◌, ◌/◌, min, max, Bool, true, not, ◌||◌, Option, none, some, List, [],
  ◌∷◌, ◌++◌, leb, ◌==◌, if◌then◌else◌,
}
use stock_agent.Base.Int.{ℤ, pos, negsuc, ◌+ℤ◌, ◌-ℤ◌}
use stock_agent.Backtest.Book.{PositionBook, add, available_shares, pop_available}

pub data Side : Type 0 where
  buying selling : Side

-- Units to a yuan.
abbrev pub yuan : ℕ
yuan = 10000

-- COMMISSION_RATE, STAMP_TAX_RATE and SLIPPAGE_RATE in hundred thousandths; COMMISSION_MIN.
abbrev pub commission : ℕ → ℕ
commission trade_value = max (trade_value * 25 / 100000) (5 * yuan)

abbrev pub stamp : Side → ℕ → ℕ
stamp selling trade_value = trade_value * 50 / 100000
stamp buying trade_value = 0

abbrev pub slippage : ℕ → ℕ
slippage trade_value = trade_value * 100 / 100000

unfoldable pub cost_of : ℕ → Side → ℕ
cost_of trade_value side =
    if leb trade_value 0
    then 0
    else commission trade_value + stamp side trade_value + slippage trade_value

-- `_round_buy_shares`: the lot is 100 for every symbol.
unfoldable pub round_buy_shares : ℕ → ℕ
round_buy_shares shares = shares / 100 * 100

-- A row of the trade log.
pub record Trade : Type 0 where
  pub date_idx : ℕ
  pub symbol : ℕ
  pub side : Side
  pub shares : ℕ
  pub price : ℕ
  pub value : ℕ
  pub cost : ℕ

pub record PortfolioState : Type 0 where
  pub cash : ℤ
  pub books : ℕ → Option PositionBook
  pub trades : List Trade

-- `execute(side, idx, quantity, price)`, where it is given.
abbrev pub Execute : Type 0
Execute = Option (Side → ℕ → ℕ → ℕ → Bool)

abbrev pub passes : Execute → Side → ℕ → ℕ → ℕ → Bool
passes none side idx shares price = true
passes (some f) side idx shares price = f side idx shares price

abbrev pub set_book : ℕ → PositionBook → (ℕ → Option PositionBook) → ℕ → Option PositionBook
set_book idx book books k = if k == idx then some book else books k

-- The trade is logged, and the cash and the symbol's book are replaced.
abbrev pub after_trade : Trade → ℤ → PositionBook → PortfolioState → PortfolioState
after_trade t cash book s = record {
  cash = cash;
  books = set_book t.symbol book s.books;
  trades = s.trades ++ t ∷ [];
}

abbrev pub trade_of : ℕ → ℕ → Side → ℕ → ℕ → Trade
trade_of date_idx idx side shares price = record {
  date_idx = date_idx;
  symbol = idx;
  side = side;
  shares = shares;
  price = price;
  value = shares * price;
  cost = cost_of (shares * price) side;
}

-- The sale from a book.
unfoldable pub sell_from :
    Execute → ℕ → ℕ → ℕ → ℕ → PositionBook → PortfolioState → PortfolioState × ℕ
sell_from execute idx date_idx shares price book s =
    let sold = min shares (available_shares date_idx book) in
    let (book', taken) = pop_available sold date_idx book in
    let t = trade_of date_idx idx selling taken price in
    if leb sold 0
    then (s, 0)
    else if not (passes execute selling idx sold price)
    then (s, 0)
    else (after_trade t (s.cash +ℤ pos t.value -ℤ pos t.cost) book' s, t.value)

-- The state afterwards and the traded value.
unfoldable pub sell : Execute → ℕ → ℕ → ℕ → ℕ → PortfolioState → PortfolioState × ℕ
sell execute idx date_idx shares price s = elim (s.books idx) [
  | none ↦ (s, 0)
  | some book ↦ sell_from execute idx date_idx shares price book s
]

-- The loop that leaves room for the cost: at most `turns` times.
unfoldable pub shrink : ℕ → ℕ → ℕ → ℕ
shrink zero cash value = value
shrink (suc turns) cash value =
    let rest = shrink turns cash (cash - cost_of value buying) in
    if leb (value + cost_of value buying) cash then value else rest

-- The shares that `cash` pays for with their cost, at most those of `value`: the second rounding
-- is made where the first cannot be paid. 0 is no trade.
unfoldable pub affordable_shares : ℕ → ℕ → ℕ → ℕ
affordable_shares cash value price =
    let shares = round_buy_shares (value / price) in
    let spent = shares * price in
    let fewer = round_buy_shares ((cash - cost_of spent buying) / price) in
    let less = fewer * price in
    if leb spent yuan
    then 0
    else if leb (spent + cost_of spent buying) cash
    then shares
    else if leb (less + cost_of less buying) cash
    then fewer
    else 0

abbrev pub book_of : Option PositionBook → PositionBook
book_of none = []
book_of (some book) = book

-- The purchase from a cash that is not negative.
unfoldable pub buy_from : Execute → ℕ → ℕ → ℕ → ℕ → ℕ → PortfolioState → PortfolioState × ℕ
buy_from execute idx date_idx asked price cash s =
    let first = min asked cash in
    let value = shrink 2 cash first in
    let shares = affordable_shares cash value price in
    let t = trade_of date_idx idx buying shares price in
    let book = add shares date_idx (book_of (s.books idx)) in
    if leb first yuan || leb value yuan || leb shares 0
    then (s, 0)
    else if not (passes execute buying idx shares price)
    then (s, 0)
    else (after_trade t (pos (cash - (t.value + t.cost))) book s, t.value)

-- With a negative cash the smaller of the two is below the least trade.
unfoldable pub buy : Execute → ℕ → ℕ → ℕ → ℕ → PortfolioState → PortfolioState × ℕ
buy execute idx date_idx asked price s = elim s.cash [
  | negsuc n ↦ (s, 0)
  | pos cash ↦ buy_from execute idx date_idx asked price cash s
]
