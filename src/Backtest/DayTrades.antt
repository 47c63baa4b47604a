-- ===== src/Backtest/DayTrades.antt =====
-- What a rebalancing day may trade.
use stock_agent.Base.{
  ℕ, ◌+◌, ◌/◌, ◌≡◌, refl, sym, ap, ◌∙◌, subst, ◌⊎◌, inl, inr, true, not, ◌||◌, List, [], ◌∷◌, ◌++◌,
  arith, leb, length, contains, All, Bool-cases, Option-cases, min,
}
use stock_agent.Base.Int.{ℤ, pos, negsuc, ◌+ℤ◌, ◌-ℤ◌, pos_part, leb_ℤ}
use stock_agent.Backtest.Book.{PositionBook, available_shares}
use stock_agent.Backtest.Ledger.{
  Side, buying, selling, yuan, Trade, PortfolioState, Execute, passes, sell, sell_from, buy,
}
use stock_agent.Backtest.Reconcile.{Reconciles, buy_from-Bought}
use stock_agent.Backtest.Orders.{sale, purchase, order-Reconciles, buy_positive}
use stock_agent.Backtest.Rebalance.{
  DayView, ranked, sell_out, reduce, fill_up, rebalance_day, shares_of, current_value, target_value,
  holdings_value, book_keys,
}

append-nil : (ts : List Trade) → ts ++ [] ≡ ts
append-nil [] = refl
append-nil (x ∷ ts) = ground (arith, append-nil ts)

append_assoc : (xs ys zs : List Trade) → (xs ++ ys) ++ zs ≡ xs ++ (ys ++ zs)
append_assoc [] ys zs = refl
append_assoc (x ∷ xs) ys zs = ground (arith, append_assoc xs ys zs)

All-append_both : (P : Trade → Type 0) (xs ys : List Trade) → All P xs → All P ys → All P (xs ++ ys)
All-append_both P [] ys h h' = h'
All-append_both P (x ∷ xs) ys h h' = (h.0, All-append_both P xs ys h.1 h')

-- The state's log grew by trades that satisfy `P`, and still reconciles.
pub record Trades (P : Trade → Type 0) (initial : ℤ) (s s' : PortfolioState) : Type 0 where
  pub added : List Trade
  pub appended : s'.trades ≡ s.trades ++ added
  pub allowed : All P added
  pub reconciles : Reconciles initial s → Reconciles initial s'

-- A sale of the symbol on the day, or a purchase.
abbrev pub IsOn : Side → ℕ → ℕ → Trade → Type 0
IsOn side idx t x = (x.side ≡ side) × (x.symbol ≡ idx) × (x.date_idx ≡ t)

-- The state stays, or its log has such a trade more.
abbrev OneTrade : Side → ℕ → ℕ → PortfolioState → PortfolioState → Type 0
OneTrade side idx t s s' =
    (s' ≡ s) ⊎ ((x : Trade) × IsOn side idx t x × (s'.trades ≡ s.trades ++ x ∷ []))

sell_from-adds :
    (execute : Execute) (idx t shares price : ℕ) (book : PositionBook) (s : PortfolioState)
    → OneTrade selling idx t s (sell_from execute idx t shares price book s).0
unfolding sell_from
sell_from-adds execute idx t shares price book s =
    let sold = min shares (available_shares t book) in
    elim (Bool-cases (leb sold 0)) [
      | inl nothing ↦ rw nothing (inl refl)
      | inr some_sold ↦ elim (Bool-cases (passes execute selling idx sold price)) [
        | inr refused ↦ rw some_sold (rw refused (inl refl))
        | inl passed ↦ rw some_sold (rw passed (inr (_, (refl, refl, refl), refl)))
      ]
    ]

sell-adds :
    (execute : Execute) (idx t shares price : ℕ) (s : PortfolioState)
    → OneTrade selling idx t s (sell execute idx t shares price s).0
unfolding sell
sell-adds execute idx t shares price s = elim (Option-cases (s.books idx)) [
  | inl n ↦ inl (rw (n, sell) refl)
  | inr (book, b) ↦ rw (b, sell) (sell_from-adds execute idx t shares price book s)
]

buy-adds :
    (execute : Execute) (idx t asked price : ℕ) (s : PortfolioState)
    → OneTrade buying idx t s (buy execute idx t asked price s).0
unfolding buy
buy-adds execute idx t asked price s = by s.cash refl
  where
    by : (c : ℤ) → s.cash ≡ c → OneTrade buying idx t s (buy execute idx t asked price s).0
    by (negsuc n) e = inl (ground (arith, e))
    by (pos cash) e =
        subst (λ (out : PortfolioState × ℕ). OneTrade buying idx t s out.0)
          (sym (buy_positive execute idx t asked price cash s e))
          (elim (buy_from-Bought execute idx t asked price cash s) [
            | inl nothing ↦ inl (ap (λ x. x.0) nothing)
            | inr b ↦ inr (_, (refl, refl, refl), ap (λ x. x.trades) b.result)
          ])

module _ (P : Trade → Type 0) (initial : ℤ) where
  Trades-refl : (s : PortfolioState) → Trades P initial s s
  Trades-refl s = record {
    added = [];
    appended = sym (append-nil s.trades);
    allowed = tt;
    reconciles = λ r. r;
  }

  Trades-one :
      (side : Side) (idx t : ℕ) (s s' : PortfolioState)
      → OneTrade side idx t s s'
      → ((x : Trade) → IsOn side idx t x → P x)
      → (Reconciles initial s → Reconciles initial s')
      → Trades P initial s s'
  Trades-one side idx t s s' (inl same) fine r =
      subst (Trades P initial s) (sym same) (Trades-refl s)
  Trades-one side idx t s s' (inr (x, on, e)) fine r = record {
    added = x ∷ [];
    appended = e;
    allowed = (fine x on, tt);
    reconciles = r;
  }

  Trades-trans :
      (s s' s'' : PortfolioState)
      → Trades P initial s s'
      → Trades P initial s' s''
      → Trades P initial s s''
  Trades-trans s s' s'' p q = record {
    added = p.added ++ q.added;
    appended =
        q.appended ∙ ap (λ x. x ++ q.added) p.appended ∙ append_assoc s.trades p.added q.added;
    allowed = All-append_both P p.added q.added p.allowed q.allowed;
    reconciles = λ r. q.reconciles (p.reconciles r);
  }

-- A purchase is of a target that may be bought, a sale of a symbol that trades and may be sold;
-- both are of the day.
abbrev pub Permitted : DayView → ℕ → List ℕ → Trade → Type 0
Permitted w t target x =
    (x.date_idx ≡ t)
    × (x.side ≡ buying → (w.buy_allowed x.symbol ≡ true) × (contains x.symbol target ≡ true))
    × (x.side ≡ selling → (w.tradable x.symbol ≡ true) × (w.sell_allowed x.symbol ≡ true))

contained_more :
    (target xs : List ℕ) (y : ℕ)
    → All (λ i. contains i target ≡ true) xs
    → All (λ i. contains i (y ∷ target) ≡ true) xs
contained_more target [] y h = tt
contained_more target (x ∷ xs) y h = (ground (arith, h.0), contained_more target xs y h.1)

contains_each : (target : List ℕ) → All (λ i. contains i target ≡ true) target
contains_each [] = tt
contains_each (x ∷ xs) = (ground arith, contained_more xs xs x (contains_each xs))

module _ (w : DayView) (t : ℕ) (initial : ℤ) (target : List ℕ) where
  sold_once :
      (idx shares : ℕ) (s : PortfolioState)
      → (w.tradable idx ≡ true) × (w.sell_allowed idx ≡ true)
      → Trades (Permitted w t target) initial s (sell w.execute idx t shares (w.price idx) s).0
  sold_once idx shares s may =
      Trades-one (Permitted w t target) initial selling idx t s
        (sell w.execute idx t shares (w.price idx) s).0
        (sell-adds w.execute idx t shares (w.price idx) s)
        (λ x on. (on.2, (λ e. ground (arith, on.0)), (λ e. ground (arith, on.1, may))))
        (order-Reconciles initial w.execute (sale idx t shares (w.price idx)) s)

  bought_once :
      (idx asked : ℕ) (s : PortfolioState)
      → (w.buy_allowed idx ≡ true) × (contains idx target ≡ true)
      → Trades (Permitted w t target) initial s (buy w.execute idx t asked (w.price idx) s).0
  bought_once idx asked s may =
      Trades-one (Permitted w t target) initial buying idx t s
        (buy w.execute idx t asked (w.price idx) s).0
        (buy-adds w.execute idx t asked (w.price idx) s)
        (λ x on. (on.2, (λ e. ground (arith, on.1, may)), (λ e. ground (arith, on.0))))
        (order-Reconciles initial w.execute (purchase idx t asked (w.price idx)) s)

  sell_out-Trades :
      (keys : List ℕ) (s : PortfolioState) (traded : ℕ)
      → Trades (Permitted w t target) initial s (sell_out w t target keys (s, traded)).0
  unfolding sell_out
  sell_out-Trades [] s traded = Trades-refl (Permitted w t target) initial s
  sell_out-Trades (idx ∷ keys) s traded =
      let out = sell w.execute idx t (shares_of idx s) (w.price idx) s in
      elim (Bool-cases (
        contains idx target
        || leb (shares_of idx s) 0
        || not (w.tradable idx)
        || not (w.sell_allowed idx))) [
          | inl kept ↦ rw kept (sell_out-Trades keys s traded)
          | inr goes ↦ rw goes (
              Trades-trans (Permitted w t target) initial s out.0 _
                (sold_once idx (shares_of idx s) s (ground arith))
                (sell_out-Trades keys out.0 (traded + out.1)))
        ]

  reduce-Trades :
      (goal : ℤ) (rest : List ℕ) (s : PortfolioState) (traded : ℕ)
      → Trades (Permitted w t target) initial s (reduce w t goal rest (s, traded)).0
  unfolding reduce
  reduce-Trades goal [] s traded = Trades-refl (Permitted w t target) initial s
  reduce-Trades goal (idx ∷ rest) s traded =
      let excess = pos (current_value w t idx s) -ℤ goal in
      let shares = pos_part excess / w.price idx in
      let out = sell w.execute idx t shares (w.price idx) s in
      elim (Bool-cases
        (leb_ℤ excess (pos yuan) || not (w.tradable idx) || not (w.sell_allowed idx))) [
          | inl kept ↦ rw kept (reduce-Trades goal rest s traded)
          | inr goes ↦ rw goes (
              Trades-trans (Permitted w t target) initial s out.0 _
                (sold_once idx shares s (ground arith))
                (reduce-Trades goal rest out.0 (traded + out.1)))
        ]

  fill_up-Trades :
      (goal : ℤ) (rest : List ℕ) (s : PortfolioState) (traded : ℕ)
      → All (λ i. contains i target ≡ true) rest
      → Trades (Permitted w t target) initial s (fill_up w t goal rest (s, traded)).0
  unfolding fill_up
  fill_up-Trades goal [] s traded inside = Trades-refl (Permitted w t target) initial s
  fill_up-Trades goal (idx ∷ rest) s traded inside =
      let gap = goal -ℤ pos (current_value w t idx s) in
      let out = buy w.execute idx t (pos_part gap) (w.price idx) s in
      elim (Bool-cases (leb_ℤ gap (pos yuan) || not (w.buy_allowed idx))) [
        | inl kept ↦ rw kept (fill_up-Trades goal rest s traded inside.1)
        | inr goes ↦ rw goes (
            Trades-trans (Permitted w t target) initial s out.0 _
              (bought_once idx (pos_part gap) s (ground arith, inside.0))
              (fill_up-Trades goal rest out.0 (traded + out.1) inside.1))
      ]

-- On a rebalancing day every trade that is logged is of that day; a purchase is of one of the
-- day's targets and of a symbol that may be bought, a sale of one that trades and may be sold;
-- and cash and positions stay what the log says.
pub rebalance_day-Permitted :
    (w : DayView) (t top_k n_symbols : ℕ) (initial : ℤ) (s : PortfolioState)
    → Trades
        (Permitted w t (ranked w t top_k n_symbols s))
        initial
        s
        (rebalance_day w t top_k n_symbols s).0
unfolding rebalance_day
rebalance_day-Permitted w t top_k n_symbols initial s =
    let target = ranked w t top_k n_symbols s in
    let P = Permitted w t target in
    let out = sell_out w t target (book_keys s.trades []) (s, 0) in
    let first = sell_out-Trades w t initial target (book_keys s.trades []) s 0 in
    let goal =
      target_value w t (out.0.cash +ℤ pos (holdings_value w t (book_keys out.0.trades []) out.0))
        (length target) in
    let reduced = reduce w t goal target out in
    elim (Bool-cases (leb (length target) 0)) [
      | inl none_left ↦ rw none_left first
      | inr some_left ↦ rw some_left (
          Trades-trans P initial s out.0 _ first (
            Trades-trans P initial out.0 reduced.0 _
              (reduce-Trades w t initial target goal target out.0 out.1)
              (fill_up-Trades w t initial target goal target reduced.0 reduced.1
                (contains_each target))))
    ]
