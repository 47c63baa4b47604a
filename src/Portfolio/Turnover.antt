-- ===== src/Portfolio/Turnover.antt =====
-- The control of turnover: stage 6 of `run_portfolio_pipeline` of engines/portfolio/pipeline.py.
use stock_agent.Base.{ℕ, ◌-◌, Bool, ◌&&◌, List, [], ◌∷◌, ◌++◌, leb, ltb, if◌then◌else◌}
use stock_agent.Portfolio.State.{State, sum_of, delta, select, reject, sort_by}

-- A change smaller than the least worth trading is given up.
unfoldable pub hold_small : ℕ → List State → List State
hold_small min_delta [] = []
hold_small min_delta (s ∷ ss) =
    (if ltb 0 (delta s) && ltb (delta s) min_delta
      then record s { target_weight = s.holding.current_weight }
      else s)
    ∷ hold_small min_delta ss

-- The smallest changes are cancelled first, until the turnover is under its maximum.
unfoldable pub cancel_list : ℕ → ℕ → List State → List State
cancel_list max_turnover turnover [] = []
cancel_list max_turnover turnover (s ∷ ss) =
    let rest = cancel_list max_turnover (turnover - delta s) ss in
    if leb turnover max_turnover
    then s ∷ ss
    else record s { target_weight = s.holding.current_weight } ∷ rest

abbrev pub moves : State → Bool
moves s = ltb 0 (delta s)

-- Stage 6.
unfoldable pub control_turnover : ℕ → ℕ → List State → List State
control_turnover min_delta max_turnover ss =
    let held = hold_small min_delta ss in
    let turnover = sum_of delta held in
    if leb turnover max_turnover
    then held
    else cancel_list max_turnover turnover (sort_by delta (select moves held)) ++ reject moves held
