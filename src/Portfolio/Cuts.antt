-- ===== src/Portfolio/Cuts.antt =====
-- Cutting states down to a cap, as engines/portfolio/pipeline.py does: nothing is raised, and the
-- total comes under the cap.
use stock_agent.Base.{
  ℕ, ◌+◌, ◌-◌, ◌≤◌, ◌≡◌, refl, Bool, ◌⊎◌, inl, inr, List, [], ◌∷◌, leb, Bool-cases, arith,
}
use stock_agent.Portfolio.State.{
  Holding, State, sum_of, target_if, anyone, select, reject, sort_by, score_key,
}
use stock_agent.Portfolio.Limits.{cut_of, cut_list, trim}
use stock_agent.Portfolio.Sums.{
  sum_of-append, sum_of-select-reject, sum_of-sort_by, sum_of_mono, target_if-anyone,
  rejected_is_nothing,
}

target_if-cut :
    (q : Holding → Bool) (s : State) (cut : ℕ)
    → target_if q (record s { target_weight = s.target_weight - cut }) ≤ target_if q s
target_if-cut q s cut = ground arith

-- Cutting never raises the weight of any set of holdings.
pub cut_list-lowers :
    (q : Holding → Bool) (cap : ℕ) (ss : List State) (total : ℕ)
    → sum_of (target_if q) (cut_list cap total ss) ≤ sum_of (target_if q) ss
unfolding sum_of cut_list
cut_list-lowers q cap [] total = omega arith
cut_list-lowers q cap (s ∷ ss) total =
    let first = target_if-cut q s (cut_of cap total s) in
    let rest = cut_list-lowers q cap ss (total - cut_of cap total s) in omega arith

-- One cut: the total stays the weight of what is cut and what is not, and either it is under the
-- cap or nothing is left of what was cut.
cut_once :
    (cap total done r : ℕ) (s : State)
    → total ≡ done + (s.target_weight + r)
    → (total ≤ cap) ⊎ (done ≡ 0)
    → let cut = cut_of cap total s in
      (total - cut ≡ done + (s.target_weight - cut) + r)
      × ((total - cut ≤ cap) ⊎ (done + (s.target_weight - cut) ≡ 0))
cut_once cap total done r s e (inl h) = (ground arith, inl (omega arith))
cut_once cap total done r s e (inr h) = elim (Bool-cases (leb s.target_weight (total - cap))) [
  | inl y ↦ (ground arith, inr (ground arith))
  | inr n ↦ (ground arith, inl (ground arith))
]

-- With `done` the weight of the members that were cut before, the total comes under the cap.
pub cut_list-fits :
    (cap : ℕ) (ss : List State) (done total : ℕ)
    → total ≡ done + sum_of (target_if anyone) ss
    → (total ≤ cap) ⊎ (done ≡ 0)
    → done + sum_of (target_if anyone) (cut_list cap total ss) ≤ cap
unfolding sum_of cut_list
cut_list-fits cap [] done total e (inl h) = omega arith
cut_list-fits cap [] done total e (inr h) = omega arith
cut_list-fits cap (s ∷ ss) done total e h =
    let cut = cut_of cap total s in
    let (e', h') = cut_once cap total done (sum_of (target_if anyone) ss) s e h in
    let rest = cut_list-fits cap ss (done + (s.target_weight - cut)) (total - cut) e' h' in
    omega arith

pub trim-lowers :
    (q : Holding → Bool) (cap : ℕ) (p : Holding → Bool) (ss : List State)
    → sum_of (target_if q) (trim cap p ss) ≤ sum_of (target_if q) ss
unfolding trim
trim-lowers q cap p ss =
    let members = select (λ s. p s.holding) ss in
    let others = reject (λ s. p s.holding) ss in
    let total = sum_of (target_if anyone) members in
    elim (Bool-cases (leb total cap)) [
      | inl y ↦ rw (y, trim) (omega arith)
      | inr n ↦
          let cut = cut_list-lowers q cap (sort_by score_key members) total in
          let sorted = sum_of-sort_by (target_if q) score_key members in
          let split = sum_of-select-reject (target_if q) (λ s. p s.holding) ss in
          let joined =
            sum_of-append (target_if q) (cut_list cap total (sort_by score_key members)) others in
          rw (n, trim) (omega arith)
    ]

-- The states that are selected are under the cap after trimming.
pub trim-fits :
    (cap : ℕ) (p : Holding → Bool) (ss : List State) → sum_of (target_if p) (trim cap p ss) ≤ cap
unfolding trim
trim-fits cap p ss =
    let members = select (λ s. p s.holding) ss in
    let others = reject (λ s. p s.holding) ss in
    let total = sum_of (target_if anyone) members in
    let none_left = rejected_is_nothing p ss in
    elim (Bool-cases (leb total cap)) [
      | inl y ↦
          let split = sum_of-select-reject (target_if p) (λ s. p s.holding) ss in
          let all = sum_of_mono (target_if p) (target_if anyone) members (target_if-anyone p) in
          let under : total ≤ cap = ground arith in rw (y, trim) (omega arith)
      | inr n ↦
          let result = cut_list cap total (sort_by score_key members) in
          let sorted = sum_of-sort_by (target_if anyone) score_key members in
          let cut =
            cut_list-fits cap (sort_by score_key members) 0 total (omega arith) (inr refl) in
          let all = sum_of_mono (target_if p) (target_if anyone) result (target_if-anyone p) in
          let joined = sum_of-append (target_if p) result others in rw (n, trim) (omega arith)
    ]
