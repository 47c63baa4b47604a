-- ===== src/Backtest/Book.antt =====
-- `PositionBook` of engines/backtest/execution.py: lots of one security, sold first in, first out
-- and not before the day after they were bought. Shares are whole numbers, of which the source's
-- thresholds of 1e-12 and 1e-9 tell zero from the rest; days are indices of trading days.
use stock_agent.Base.{ℕ, ◌+◌, ◌-◌, min, Bool, List, [], ◌∷◌, ◌++◌, ltb, leb, if◌then◌else◌}

pub record PositionLot : Type 0 where
  pub shares : ℕ
  pub available_date : ℕ

abbrev pub PositionBook : Type 0
PositionBook = List PositionLot

unfoldable pub add : ℕ → ℕ → PositionBook → PositionBook
add shares buy_date lots = lots ++ record { shares = shares; available_date = buy_date + 1 } ∷ []

unfoldable pub total_shares : PositionBook → ℕ
total_shares [] = 0
total_shares (lot ∷ lots) = lot.shares + total_shares lots

abbrev pub can_sell : ℕ → PositionLot → Bool
can_sell date_idx lot = leb lot.available_date date_idx

unfoldable pub available_shares : ℕ → PositionBook → ℕ
available_shares date_idx [] = 0
available_shares date_idx (lot ∷ lots) =
    (if can_sell date_idx lot then lot.shares else 0) + available_shares date_idx lots

-- What one lot gives of what remains to be taken: nothing once nothing remains.
abbrev pub take_of : ℕ → ℕ → PositionLot → ℕ
take_of date_idx remaining lot = if can_sell date_idx lot then min lot.shares remaining else 0

-- The loop over the lots.
unfoldable pub take_lots : ℕ → ℕ → PositionBook → PositionBook
take_lots date_idx remaining [] = []
take_lots date_idx remaining (lot ∷ lots) =
    let taken = take_of date_idx remaining lot in
    record lot { shares = lot.shares - taken } ∷ take_lots date_idx (remaining - taken) lots

-- The lots that still hold shares.
unfoldable pub clean : PositionBook → PositionBook
clean [] = []
clean (lot ∷ lots) = if ltb 0 lot.shares then lot ∷ clean lots else clean lots

unfoldable pub pop_available : ℕ → ℕ → PositionBook → PositionBook × ℕ
pop_available shares date_idx lots =
    let taken = min shares (available_shares date_idx lots) in
    (clean (take_lots date_idx taken lots), taken)
