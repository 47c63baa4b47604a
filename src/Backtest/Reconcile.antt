-- ===== src/Backtest/Reconcile.antt =====
-- The cash and the positions of a backtest against its log of trades.
use stock_agent.Base.{
  ℕ, zero, suc, ◌+◌, ◌-◌, ◌*◌, ◌/◌, ◌≤◌, ◌≡◌, refl, sym, ap, ◌∙◌, subst, ◌≢◌, ◌⊎◌, inl, inr, min,
  Bool, true, false, ◌||◌, some, List, [], ◌∷◌, ◌++◌, arith, leb, ◌==◌, if◌then◌else◌, Bool-cases,
  Option-cases,
}
use stock_agent.Base.Int.{ℤ, pos, ◌+ℤ◌, ◌-ℤ◌}
use stock_agent.Backtest.Book.{PositionBook, add, available_shares, total_shares}
use native.Mathlib.Nat.{div-mul-le_self, mul-le-mul_right}
use stock_agent.Backtest.Settlement.{pop_settles}
use stock_agent.Backtest.Ledger.{
  Side, buying, selling, yuan, cost_of, round_buy_shares, Trade, PortfolioState, Execute, passes,
  sell, sell_from, after_trade, trade_of, shrink, affordable_shares, book_of, buy_from,
}

-- The cash after a trade.
abbrev pub booked : ℤ → Trade → ℤ
booked c t = elim t.side [
  | buying ↦ c -ℤ pos (t.value + t.cost)
  | selling ↦ c +ℤ pos t.value -ℤ pos t.cost
]

abbrev pub cash_after : ℤ → List Trade → ℤ
cash_after c [] = c
cash_after c (t ∷ ts) = cash_after (booked c t) ts

abbrev is_side : Side → Side → Bool
is_side buying buying = true
is_side selling selling = true
is_side _ _ = false

-- The shares of a symbol that were bought, or sold.
abbrev pub shares_on : Side → ℕ → List Trade → ℕ
shares_on side k [] = 0
shares_on side k (t ∷ ts) =
    let rest = shares_on side k ts in
    if t.symbol == k
    then (elim t.side [
      | buying ↦ elim side [ buying ↦ t.shares + rest | selling ↦ rest ]
      | selling ↦ elim side [ buying ↦ rest | selling ↦ t.shares + rest ]
    ])
    else rest

cash_after-append :
    (c : ℤ) (ts : List Trade) (t : Trade) → cash_after c (ts ++ t ∷ []) ≡ booked (cash_after c ts) t
cash_after-append c [] t = refl
cash_after-append c (x ∷ ts) t = cash_after-append (booked c x) ts t

shares_on-append :
    (side : Side) (k : ℕ) (ts : List Trade) (t : Trade)
    → shares_on side k (ts ++ t ∷ []) ≡ shares_on side k ts + shares_on side k (t ∷ [])
shares_on-append side k [] t = ground arith
shares_on-append side k (x ∷ ts) t = ground (arith, shares_on-append side k ts t)

pub total_shares-append :
    (lots : PositionBook) (shares date : ℕ)
    → total_shares (add shares date lots) ≡ total_shares lots + shares
unfolding add total_shares
total_shares-append [] shares date = ground arith
total_shares-append (x ∷ lots) shares date = ground (arith, total_shares-append lots shares date)

-- The cash is what the log makes of the initial cash, each position is what was bought less
-- what was sold, and the log holds no trade of no shares.
pub record Reconciles (initial : ℤ) (s : PortfolioState) : Type 0 where
  pub cash_booked : s.cash ≡ cash_after initial s.trades
  pub positions :
      (k : ℕ)
      → total_shares (book_of (s.books k)) + shares_on selling k s.trades
        ≡ shares_on buying k s.trades

-- A trade that is booked in cash and in its symbol's book.
pub after_trade-Reconciles :
    (initial cash : ℤ) (t : Trade) (book : PositionBook) (s : PortfolioState)
    → Reconciles initial s
    → cash ≡ booked s.cash t
    → total_shares book + shares_on selling t.symbol (t ∷ [])
      ≡ total_shares (book_of (s.books t.symbol)) + shares_on buying t.symbol (t ∷ [])
    → Reconciles initial (after_trade t cash book s)
after_trade-Reconciles initial cash t book s r c b = record {
  cash_booked = c ∙ ap (λ x. booked x t) r.cash_booked ∙ sym (cash_after-append initial s.trades t);
  positions = λ k.
      let sold = shares_on-append selling k s.trades t in
      let bought = shares_on-append buying k s.trades t in
      rw (sold, bought)
        (elim (Bool-cases (k == t.symbol)) [
          | inl own ↦
              let here : k ≡ t.symbol = ground arith in
              let before = r.positions k in rw own (booked_here k here before)
          | inr other ↦ rw other (ground (arith, r.positions k, other_symbol k other))
        ]);
}
  where
    booked_here :
        (k : ℕ)
        → k ≡ t.symbol
        → total_shares (book_of (s.books k)) + shares_on selling k s.trades
          ≡ shares_on buying k s.trades
        → total_shares book + (shares_on selling k s.trades + shares_on selling k (t ∷ []))
          ≡ shares_on buying k s.trades + shares_on buying k (t ∷ [])
    booked_here k here before =
        subst
          (λ x.
            total_shares (book_of (s.books x)) + shares_on selling x s.trades
              ≡ shares_on buying x s.trades
            → total_shares book + (shares_on selling x s.trades + shares_on selling x (t ∷ []))
              ≡ shares_on buying x s.trades + shares_on buying x (t ∷ []))
          (sym here) (λ e. omega (arith, b, e)) before

    other_symbol :
        (k : ℕ)
        → (k == t.symbol) ≡ false
        → (shares_on selling k (t ∷ []) ≡ 0) × (shares_on buying k (t ∷ []) ≡ 0)
    other_symbol k ne = ground arith

module _ (initial : ℤ) (execute : Execute) (idx date price : ℕ) where
  sell_from-Reconciles :
      (shares : ℕ) (book : PositionBook) (s : PortfolioState)
      → Reconciles initial s
      → s.books idx ≡ some book
      → Reconciles initial (sell_from execute idx date shares price book s).0
  unfolding sell_from
  sell_from-Reconciles shares book s r b =
      let sold = min shares (available_shares date book) in
      elim (Bool-cases (leb sold 0)) [
        | inl nothing ↦ rw nothing r
        | inr some_sold ↦ elim (Bool-cases (passes execute selling idx sold price)) [
          | inr refused ↦ rw some_sold (rw refused r)
          | inl passed ↦ rw some_sold (
              rw passed (
                after_trade-Reconciles initial _ _ _ s r refl
                  (ground (arith, b, (pop_settles sold date book).1))))
        ]
      ]

  pub sell-Reconciles :
      (shares : ℕ) (s : PortfolioState)
      → Reconciles initial s
      → Reconciles initial (sell execute idx date shares price s).0
  unfolding sell
  sell-Reconciles shares s r = elim (Option-cases (s.books idx)) [
    | inl n ↦ rw (n, sell) r
    | inr (book, b) ↦ rw (b, sell) (sell_from-Reconciles shares book s r b)
  ]

rounded_le : (x price : ℕ) → round_buy_shares (x / price) * price ≤ x
unfolding round_buy_shares
rounded_le x price =
    let whole_lots : x / price / 100 * 100 ≤ x / price = div-mul-le_self (x / price) 100 in
    omega (arith, mul-le-mul_right price whole_lots, div-mul-le_self x price)

-- What the purchase spends is within the value, and with its cost within the cash.
affordable :
    (cash value price : ℕ)
    → affordable_shares cash value price ≢ 0
    → let spent = affordable_shares cash value price * price in
      (spent ≤ value) × (spent + cost_of spent buying ≤ cash)
unfolding affordable_shares
affordable cash value price h =
    let first = rounded_le value price in
    let spent = round_buy_shares (value / price) * price in
    let second = rounded_le (cash - cost_of spent buying) price in ground (arith, first, second)

shrink-le : (turns cash value : ℕ) → value ≤ cash → shrink turns cash value ≤ value
unfolding shrink
shrink-le zero cash value h = omega arith
shrink-le (suc turns) cash value h =
    ground (arith, shrink-le turns cash (cash - cost_of value buying))

pub minus_booked : (c n : ℕ) → n ≤ c → pos (c - n) ≡ pos c -ℤ pos n
unfolding ◌-ℤ◌
minus_booked c n h = ground arith

-- What a purchase does: nothing, or it spends, cost included, no more than the cash and no more
-- than was asked for before the cost.
pub record Bought (idx date asked price cash : ℕ) (s s' : PortfolioState) (spent : ℕ) : Type 0 where
  pub shares : ℕ
  pub whole : spent ≡ shares * price
  pub within_asked : spent ≤ asked
  pub within_cash : spent + cost_of spent buying ≤ cash
  pub result :
      s'
      ≡ after_trade
          (trade_of date idx buying shares price)
          (pos (cash - (spent + cost_of spent buying)))
          (add shares date (book_of (s.books idx)))
          s

pub buy_from-Bought :
    (execute : Execute) (idx date asked price cash : ℕ) (s : PortfolioState)
    → let out = buy_from execute idx date asked price cash s in
      (out ≡ (s, 0)) ⊎ Bought idx date asked price cash s out.0 out.1
unfolding buy_from
buy_from-Bought execute idx date asked price cash s =
    let first = min asked cash in
    let value = shrink 2 cash first in
    let shares = affordable_shares cash value price in
    elim (Bool-cases (leb first yuan || leb value yuan || leb shares 0)) [
      | inl small ↦ rw small (inl refl)
      | inr enough ↦ elim (Bool-cases (passes execute buying idx shares price)) [
        | inr refused ↦ rw enough (rw refused (inl refl))
        | inl passed ↦
            let paid = affordable cash value price (ground arith) in
            let shrunk = shrink-le 2 cash first (omega arith) in
            rw enough (
              rw passed (
                inr (record {
                  shares = shares;
                  whole = refl;
                  within_asked = omega (arith, paid.0, shrunk);
                  within_cash = paid.1;
                  result = refl;
                })))
      ]
    ]
