-- ===== src/Backtest/Settlement.antt =====
-- Selling from the book of engines/backtest/execution.py: nothing is lost, and nothing is sold on
-- the day it was bought.
use stock_agent.Base.{
  ℕ, ◌<◌, ◌+◌, ◌-◌, ◌≤◌, ◌≡◌, refl, ap, ◌∙◌, inl, inr, min, [], ◌∷◌, ◌++◌, ltb, Bool-cases, arith,
}
use stock_agent.Backtest.Book.{
  PositionLot, PositionBook, add, total_shares, available_shares, take_of, take_lots, clean,
  pop_available,
}

clean-total : (lots : PositionBook) → total_shares (clean lots) ≡ total_shares lots
unfolding total_shares clean
clean-total [] = refl
clean-total (lot ∷ lots) =
    let rest = clean-total lots in
    elim (Bool-cases (ltb 0 lot.shares)) [
      | inl y ↦ rw (y, clean) (omega arith)
      | inr n ↦ rw (n, clean) (ground (arith, rest))
    ]

clean-available :
    (date : ℕ) (lots : PositionBook)
    → available_shares date (clean lots) ≡ available_shares date lots
unfolding available_shares clean
clean-available date [] = refl
clean-available date (lot ∷ lots) =
    let rest = clean-available date lots in
    elim (Bool-cases (ltb 0 lot.shares)) [
      | inl y ↦ rw (y, clean) (omega arith)
      | inr n ↦ rw (n, clean) (ground (arith, rest))
    ]

available_le_total :
    (date : ℕ) (lots : PositionBook) → available_shares date lots ≤ total_shares lots
unfolding available_shares total_shares
available_le_total date [] = omega arith
available_le_total date (lot ∷ lots) =
    let rest = available_le_total date lots in ground (arith, rest)

-- Taking no more than is available takes exactly that, from the whole and from the available.
take_lots-takes :
    (date : ℕ) (lots : PositionBook) (n : ℕ)
    → n ≤ available_shares date lots
    → (total_shares (take_lots date n lots) + n ≡ total_shares lots)
      × (available_shares date (take_lots date n lots) + n ≡ available_shares date lots)
unfolding available_shares total_shares take_lots
take_lots-takes date [] n h = (omega arith, omega arith)
take_lots-takes date (lot ∷ lots) n h =
    let rest = take_lots-takes date lots (n - take_of date n lot) (ground arith) in
    (ground (arith, rest), ground (arith, rest))

-- A sale gives no more than was asked for, and as much as may be sold that day; what it gives is
-- missing from the book and from what may be sold that day, and nothing else is.
pub pop_settles :
    (shares date : ℕ) (lots : PositionBook)
    → let sold = pop_available shares date lots in
      (sold.1 ≡ min shares (available_shares date lots))
      × (total_shares sold.0 + sold.1 ≡ total_shares lots)
      × (available_shares date sold.0 + sold.1 ≡ available_shares date lots)
unfolding pop_available
pop_settles shares date lots =
    let n = min shares (available_shares date lots) in
    let takes = take_lots-takes date lots n (omega arith) in
    let left = take_lots date n lots in
    (refl, rw (clean-total left) takes.0, rw (clean-available date left) takes.1)

take_lots-none : (date : ℕ) (lots : PositionBook) → take_lots date 0 lots ≡ lots
unfolding take_lots
take_lots-none date [] = refl
take_lots-none date (lot ∷ lots) =
    let zero_taken : take_of date 0 lot ≡ 0 = ground arith in
    let same : lot.shares - 0 ≡ lot.shares = omega arith in
    rw (zero_taken, same, take_lots-none date lots) refl

-- The lots in front give all of a sale that they can cover.
take_lots-append :
    (date : ℕ) (early late : PositionBook) (n : ℕ)
    → n ≤ available_shares date early
    → take_lots date n (early ++ late) ≡ take_lots date n early ++ late
unfolding take_lots available_shares
take_lots-append date [] late n h =
    let nothing : n ≡ 0 = omega arith in rw nothing (take_lots-none date late)
take_lots-append date (lot ∷ early) late n h =
    let rest = take_lots-append date early late (n - take_of date n lot) (ground arith) in
    ap (λ ls. record lot { shares = lot.shares - take_of date n lot } ∷ ls) rest

clean-append : (early late : PositionBook) → clean (early ++ late) ≡ clean early ++ clean late
unfolding clean
clean-append [] late = refl
clean-append (lot ∷ early) late =
    let rest = clean-append early late in
    elim (Bool-cases (ltb 0 lot.shares)) [
      | inl y ↦ rw (y, clean) (ap (λ ls. lot ∷ ls) rest)
      | inr n ↦ rw (n, clean) rest
    ]

available-append :
    (date : ℕ) (early late : PositionBook)
    → available_shares date (early ++ late)
      ≡ available_shares date early + available_shares date late
unfolding available_shares
available-append date [] late = omega arith
available-append date (lot ∷ early) late =
    let rest = available-append date early late in omega arith

-- First in, first out: a sale that the lots in front can cover leaves those behind them as they
-- are, but for empty ones.
pub first_in_first_out :
    (shares date : ℕ) (early late : PositionBook)
    → shares ≤ available_shares date early
    → pop_available shares date (early ++ late)
      ≡ ((pop_available shares date early).0 ++ clean late, shares)
unfolding pop_available
first_in_first_out shares date early late h =
    let whole : min shares (available_shares date (early ++ late)) ≡ shares =
      let joined = available-append date early late in omega arith in
    let front : min shares (available_shares date early) ≡ shares = omega arith in
    rw
      (
        whole,
        front,
        take_lots-append date early late shares h,
        clean-append (take_lots date shares early) late,
      )
      refl

locked :
    (bought date n : ℕ)
    → n + available_shares date (record { shares = bought; available_date = date + 1 } ∷ []) ≡ n
unfolding available_shares
locked bought date n = ground arith

whole_lot :
    (bought date : ℕ)
    → 0 < bought
    → let lot : PositionLot = record { shares = bought; available_date = date + 1 } in
      clean (lot ∷ []) ≡ lot ∷ []
unfolding clean
whole_lot bought date h = ground arith

-- T+1: shares bought on a day are not sold on that day. The purchase changes neither how much a
-- sale of that day gives nor what it leaves of the other lots, and the lot bought stays whole.
pub not_sold_that_day :
    (shares bought date : ℕ) (lots : PositionBook)
    → 0 < bought
    → pop_available shares date (add bought date lots)
      ≡ (add bought date (pop_available shares date lots).0, (pop_available shares date lots).1)
unfolding pop_available add
not_sold_that_day shares bought date lots h =
    let lot : PositionLot = record { shares = bought; available_date = date + 1 } in
    let joined : available_shares date (lots ++ lot ∷ []) ≡ available_shares date lots =
      available-append date lots (lot ∷ []) ∙ locked bought date (available_shares date lots) in
    let n = min shares (available_shares date lots) in
    let kept : clean (lot ∷ []) ≡ lot ∷ [] = whole_lot bought date h in
    rw
      (
        joined,
        take_lots-append date lots (lot ∷ []) n (omega arith),
        clean-append (take_lots date n lots) (lot ∷ []),
        kept,
      )
      refl
