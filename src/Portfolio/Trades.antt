-- ===== src/Portfolio/Trades.antt =====
-- The control of turnover of engines/portfolio/pipeline.py, stage 6.
use stock_agent.Base.{
  ℕ, ◌-◌, ◌≤◌, ◌≡◌, refl, Bool, inl, inr, List, [], ◌∷◌, leb, ltb, ◌&&◌, Bool-cases, arith,
}
use stock_agent.Portfolio.State.{Holding, State, sum_of, delta, delta_if, select, reject, sort_by}
use stock_agent.Portfolio.Turnover.{hold_small, cancel_list, moves, control_turnover}
use stock_agent.Portfolio.Sums.{sum_of-append, sum_of-select-reject, sum_of-sort_by}

hold_small-lowers :
    (q : Holding → Bool) (min_delta : ℕ) (ss : List State)
    → sum_of (delta_if q) (hold_small min_delta ss) ≤ sum_of (delta_if q) ss
unfolding sum_of hold_small
hold_small-lowers q m [] = omega arith
hold_small-lowers q m (s ∷ ss) =
    let rest = hold_small-lowers q m ss in
    elim (Bool-cases (ltb 0 (delta s) && ltb (delta s) m)) [
      | inl y ↦ rw (y, hold_small) (ground (arith, rest))
      | inr n ↦ rw (n, hold_small) (omega arith)
    ]

cancel_list-lowers :
    (q : Holding → Bool) (max_turnover : ℕ) (ss : List State) (turnover : ℕ)
    → sum_of (delta_if q) (cancel_list max_turnover turnover ss) ≤ sum_of (delta_if q) ss
unfolding sum_of cancel_list
cancel_list-lowers q m [] t = omega arith
cancel_list-lowers q m (s ∷ ss) t =
    let rest = cancel_list-lowers q m ss (t - delta s) in
    elim (Bool-cases (leb t m)) [
      | inl y ↦ rw (y, cancel_list) (omega arith)
      | inr n ↦ rw (n, cancel_list) (ground (arith, rest))
    ]

cancel_list-fits :
    (max_turnover : ℕ) (ss : List State) (turnover : ℕ)
    → turnover ≡ sum_of delta ss
    → sum_of delta (cancel_list max_turnover turnover ss) ≤ max_turnover
unfolding sum_of cancel_list
cancel_list-fits m [] t e = omega arith
cancel_list-fits m (s ∷ ss) t e =
    let rest = cancel_list-fits m ss (t - delta s) (omega arith) in
    elim (Bool-cases (leb t m)) [
      | inl y ↦ rw (y, cancel_list) (ground arith)
      | inr n ↦ rw (n, cancel_list) (ground (arith, rest))
    ]

still_is_nothing : (ss : List State) → sum_of delta (reject moves ss) ≡ 0
unfolding sum_of reject
still_is_nothing [] = refl
still_is_nothing (s ∷ ss) =
    let rest = still_is_nothing ss in
    elim (Bool-cases (moves s)) [
      | inl y ↦ rw (y, reject) rest
      | inr n ↦ rw (n, reject) (ground (arith, rest))
    ]

-- After stage 6 the turnover is within its maximum for a day, and no set of holdings, in
-- particular no single one, is traded more than the earlier stages asked for.
pub turnover_holds :
    (min_delta max_turnover : ℕ) (q : Holding → Bool) (ss : List State)
    → let out = control_turnover min_delta max_turnover ss in
      (sum_of delta out ≤ max_turnover) × (sum_of (delta_if q) out ≤ sum_of (delta_if q) ss)
unfolding control_turnover
turnover_holds min_delta m q ss =
    let held = hold_small min_delta ss in
    let turnover = sum_of delta held in
    let sorted = sort_by delta (select moves held) in
    let small = hold_small-lowers q min_delta ss in
    elim (Bool-cases (leb turnover m)) [
      | inl y ↦ rw (y, control_turnover) (ground arith, small)
      | inr n ↦
          let still = still_is_nothing held in
          let split = sum_of-select-reject delta moves held in
          let split_q = sum_of-select-reject (delta_if q) moves held in
          let same = sum_of-sort_by delta delta (select moves held) in
          let same_q = sum_of-sort_by (delta_if q) delta (select moves held) in
          let fits = cancel_list-fits m sorted turnover (omega arith) in
          let lowers = cancel_list-lowers q m sorted turnover in
          let joined = sum_of-append delta (cancel_list m turnover sorted) (reject moves held) in
          let joined_q =
            sum_of-append (delta_if q) (cancel_list m turnover sorted) (reject moves held) in
          rw (n, control_turnover) (omega arith, omega arith)
    ]
