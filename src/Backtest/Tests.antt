-- ===== src/Backtest/Tests.antt =====
-- The theorems on the book of positions at concrete lots.
use stock_agent.Base.{ℕ, ◌+◌, ◌≡◌, refl, min, [], ◌∷◌, ◌++◌, arith}
use stock_agent.Backtest.Book.{
  PositionLot, PositionBook, add, total_shares, available_shares, take_lots, clean, pop_available,
}
use stock_agent.Backtest.Settlement.{pop_settles, first_in_first_out, not_sold_that_day}

abbrev lot : ℕ → ℕ → PositionLot
lot n day = record { shares = n; available_date = day }

abbrev book : PositionBook
book = lot 300 4 ∷ lot 200 6 ∷ []

sells_oldest : pop_available 350 7 book ≡ (lot 150 6 ∷ [], 350)
unfolding pop_available available_shares take_lots clean
sells_oldest = refl

pop_settles_holds :
    ((pop_available 350 7 book).1 ≡ min 350 (available_shares 7 book))
    × (total_shares (pop_available 350 7 book).0 + (pop_available 350 7 book).1 ≡ total_shares book)
    × (available_shares 7 (pop_available 350 7 book).0 + (pop_available 350 7 book).1
        ≡ available_shares 7 book)
pop_settles_holds = pop_settles 350 7 book

first_in_first_out_holds :
    pop_available 250 7 (lot 300 4 ∷ lot 200 6 ∷ [])
    ≡ ((pop_available 250 7 (lot 300 4 ∷ [])).0 ++ clean (lot 200 6 ∷ []), 250)
unfolding available_shares
first_in_first_out_holds = first_in_first_out 250 7 (lot 300 4 ∷ []) (lot 200 6 ∷ []) (omega arith)

not_sold_that_day_example :
    pop_available 900 7 (add 100 7 book)
    ≡ (add 100 7 (pop_available 900 7 book).0, (pop_available 900 7 book).1)
not_sold_that_day_example = not_sold_that_day 900 100 7 book (omega arith)
