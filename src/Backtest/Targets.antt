-- ===== src/Backtest/Targets.antt =====
-- The targets of a rebalancing day.
use stock_agent.Base.{
  ℕ, zero, suc, ◌≤◌, ◌≡◌, inl, inr, Bool, true, false, not, ◌&&◌, ◌||◌, List, [], ◌∷◌, arith, ltb,
  leb, take, length, All, Bool-cases, is_some,
}
use stock_agent.Backtest.Ledger.{PortfolioState}
use stock_agent.Backtest.Rebalance.{
  DayView, ranked, eligible, score_of, filter, any_of, insert_by, sort_by, shares_of, range_from,
}

module _ (P : ℕ → Type 0) where
  All-filter_kept : (test : ℕ → Bool) (xs : List ℕ) → All P xs → All P (filter test xs)
  All-filter_kept test [] h = tt
  All-filter_kept test (x ∷ xs) h = elim (Bool-cases (test x)) [
    | inl e ↦ rw e (h.0, All-filter_kept test xs h.1)
    | inr e ↦ rw e (All-filter_kept test xs h.1)
  ]

  All-insert_by : (key : ℕ → ℕ) (i : ℕ) (xs : List ℕ) → P i → All P xs → All P (insert_by key i xs)
  All-insert_by key i [] p h = (p, tt)
  All-insert_by key i (x ∷ xs) p h = elim (Bool-cases (leb (key x) (key i))) [
    | inl e ↦ rw e (p, (h.0, h.1))
    | inr e ↦ rw e (h.0, All-insert_by key i xs p h.1)
  ]

  All-sort_by : (key : ℕ → ℕ) (xs : List ℕ) → All P xs → All P (sort_by key xs)
  All-sort_by key [] h = tt
  All-sort_by key (x ∷ xs) h = All-insert_by key x (sort_by key xs) h.0 (All-sort_by key xs h.1)

  All-take : (n : ℕ) (xs : List ℕ) → All P xs → All P (take n xs)
  All-take zero xs h = tt
  All-take (suc n) [] h = tt
  All-take (suc n) (x ∷ xs) h = (h.0, All-take n xs h.1)

All-filter : (test : ℕ → Bool) (xs : List ℕ) → All (λ i. test i ≡ true) (filter test xs)
All-filter test [] = tt
All-filter test (x ∷ xs) = elim (Bool-cases (test x)) [
  | inl e ↦ rw e (e, All-filter test xs)
  | inr e ↦ rw e (All-filter test xs)
]

All-none : (test : ℕ → Bool) (xs : List ℕ) → any_of test xs ≡ false → All (λ i. test i ≡ false) xs
All-none test [] h = tt
All-none test (x ∷ xs) h = (ground arith, All-none test xs (ground arith))

All-map : (P Q : ℕ → Type 0) (xs : List ℕ) → ((i : ℕ) → P i → Q i) → All P xs → All Q xs
All-map P Q [] f h = tt
All-map P Q (x ∷ xs) f h = (f x h.0, All-map P Q xs f h.1)

All-both : (P Q : ℕ → Type 0) (xs : List ℕ) → All P xs → All Q xs → All (λ i. P i × Q i) xs
All-both P Q [] p q = tt
All-both P Q (x ∷ xs) p q = ((p.0, q.0), All-both P Q xs p.1 q.1)

length-take : (n : ℕ) (xs : List ℕ) → length (take n xs) ≤ n
length-take zero xs = omega arith
length-take (suc n) [] = omega arith
length-take (suc n) (x ∷ xs) = omega (arith, length-take n xs)

-- A target has a score, trades that day, and can be bought unless it is held already.
abbrev pub IsTarget : DayView → PortfolioState → ℕ → Type 0
IsTarget w s i =
    ((is_some (w.score i) && w.tradable i) ≡ true)
    × ((w.buy_allowed i || ltb 0 (shares_of i s)) ≡ true)

-- There are at most top_k targets, and each has a score, trades that day, and can be bought
-- unless it is held already: no place is taken by a symbol that cannot be had.
pub ranked_targets :
    (w : DayView) (t top_k n_symbols : ℕ) (s : PortfolioState)
    → (length (ranked w t top_k n_symbols s) ≤ top_k)
      × All (IsTarget w s) (ranked w t top_k n_symbols s)
unfolding ranked
ranked_targets w t top_k n_symbols s =
    let test = λ (i : ℕ). is_some (w.score i) && w.tradable i in
    let E = λ (i : ℕ). test i ≡ true in
    let had = λ (i : ℕ). w.buy_allowed i || ltb 0 (shares_of i s) in
    let bad = λ (i : ℕ). not (w.buy_allowed i) && leb (shares_of i s) 0 in
    let sorted = sort_by (score_of w t) (eligible w t n_symbols) in
    let best = take top_k sorted in
    let all_sorted : All E sorted =
      All-sort_by E (score_of w t) (eligible w t n_symbols)
        (All-filter test (range_from 0 n_symbols)) in
    let none_bad : (i : ℕ) → bad i ≡ false → had i ≡ true = λ i e. ground arith in
    elim (Bool-cases (any_of bad best)) [
      | inr fine ↦ rw fine (
        length-take top_k sorted,
        All-both E (λ i. had i ≡ true) best (All-take E top_k sorted all_sorted)
            (All-map (λ i. bad i ≡ false) (λ i. had i ≡ true) best none_bad
              (All-none bad best fine)),
      )
      | inl some_bad ↦ rw some_bad (
        length-take top_k (filter had sorted),
        All-take (IsTarget w s) top_k (filter had sorted) (
            All-both E (λ i. had i ≡ true) (filter had sorted)
              (All-filter_kept E had sorted all_sorted) (All-filter had sorted)),
      )
    ]
