-- ===== src/Portfolio/Sums.antt =====
-- Sums over the states of engines/portfolio/pipeline.py: sorting and selecting keep them.
use stock_agent.Base.{
  ℕ, ◌+◌, ◌≤◌, ◌≡◌, refl, ◌∙◌, ap, Bool, inl, inr, List, [], ◌∷◌, ◌++◌, Bool-cases, arith,
}
use stock_agent.Portfolio.State.{
  Holding, State, sum_of, target_if, anyone, select, reject, insert, sort_by, before,
}

pub sum_of-append :
    (f : State → ℕ) (ss ts : List State) → sum_of f (ss ++ ts) ≡ sum_of f ss + sum_of f ts
unfolding sum_of
sum_of-append f [] ts = omega arith
sum_of-append f (s ∷ ss) ts = rw (sum_of-append f ss ts) (omega arith)

pub sum_of-select-reject :
    (f : State → ℕ) (p : State → Bool) (ss : List State)
    → sum_of f (select p ss) + sum_of f (reject p ss) ≡ sum_of f ss
unfolding sum_of select reject
sum_of-select-reject f p [] = refl
sum_of-select-reject f p (s ∷ ss) =
    let rest = sum_of-select-reject f p ss in
    elim (Bool-cases (p s)) [
      | inl y ↦ rw (y, select) (omega arith)
      | inr n ↦ rw (n, select) (omega arith)
    ]

sum_of-insert :
    (f : State → ℕ) (key : State → ℕ) (s : State) (ts : List State)
    → sum_of f (insert key s ts) ≡ f s + sum_of f ts
unfolding sum_of insert
sum_of-insert f key s [] = refl
sum_of-insert f key s (t ∷ ts) =
    let rest = sum_of-insert f key s ts in
    elim (Bool-cases (before key s t)) [
      | inl y ↦ rw (y, insert) refl
      | inr n ↦ rw (n, insert) (omega arith)
    ]

-- A sorted list has the sums of the list.
pub sum_of-sort_by :
    (f : State → ℕ) (key : State → ℕ) (ss : List State) → sum_of f (sort_by key ss) ≡ sum_of f ss
unfolding sum_of sort_by
sum_of-sort_by f key [] = refl
sum_of-sort_by f key (s ∷ ss) =
    sum_of-insert f key s (sort_by key ss) ∙ ap (λ n. f s + n) (sum_of-sort_by f key ss)

-- One measure below another on every state has the smaller sum.
pub sum_of_mono :
    (f g : State → ℕ) (ss : List State) → ((s : State) → f s ≤ g s) → sum_of f ss ≤ sum_of g ss
unfolding sum_of
sum_of_mono f g [] h = omega arith
sum_of_mono f g (s ∷ ss) h = let first = h s in let rest = sum_of_mono f g ss h in omega arith

pub target_if-anyone : (q : Holding → Bool) (s : State) → target_if q s ≤ target_if anyone s
target_if-anyone q s = ground arith

-- What the rejected states sum up to under the rejecting test itself.
pub rejected_is_nothing :
    (q : Holding → Bool) (ss : List State) → sum_of (target_if q) (reject (λ s. q s.holding) ss) ≡ 0
unfolding sum_of reject
rejected_is_nothing q [] = refl
rejected_is_nothing q (s ∷ ss) =
    let rest = rejected_is_nothing q ss in
    elim (Bool-cases (q s.holding)) [
      | inl y ↦ rw (y, reject) rest
      | inr n ↦ rw (n, reject, n, target_if) (omega arith)
    ]
