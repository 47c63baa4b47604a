-- ===== src/Portfolio/State.antt =====
-- The states that the stages of `run_portfolio_pipeline` pass on, and their sums: engines/portfolio/
-- pipeline.py. Weights and scores are whole ten-thousandths, to which the source rounds. The dict
-- of states is a list in no particular order: the source only sums over it and sorts it. A score is
-- not negative. Reason codes are left out.
use stock_agent.Base.{
  ℕ, suc, ◌+◌, ◌-◌, Bool, true, ◌&&◌, ◌||◌, Option, none, some, List, [], ◌∷◌, ltb, leb, ◌==◌,
  if◌then◌else◌,
}

-- What the stages leave as it is.
pub record Holding : Type 0 where
  pub symbol : ℕ
  pub theme : Option ℕ
  pub sector : Option ℕ
  pub cluster : Option ℕ
  pub score : Option ℕ
  pub current_weight : ℕ

pub record State : Type 0 where
  pub holding : Holding
  pub target_weight : ℕ

-- `sum(... for item in states)`
unfoldable pub sum_of : (State → ℕ) → List State → ℕ
sum_of f [] = 0
sum_of f (s ∷ ss) = f s + sum_of f ss

abbrev pub target_if : (Holding → Bool) → State → ℕ
target_if q s = if q s.holding then s.target_weight else 0

-- `abs(target_weight - current_weight)`
abbrev pub delta : State → ℕ
delta s =
    (s.target_weight - s.holding.current_weight) + (s.holding.current_weight - s.target_weight)

abbrev pub delta_if : (Holding → Bool) → State → ℕ
delta_if q s = if q s.holding then delta s else 0

abbrev pub anyone : Holding → Bool
anyone h = true

unfoldable pub select : (State → Bool) → List State → List State
select p [] = []
select p (s ∷ ss) = if p s then s ∷ select p ss else select p ss

unfoldable pub reject : (State → Bool) → List State → List State
reject p [] = []
reject p (s ∷ ss) = if p s then reject p ss else s ∷ reject p ss

-- `sorted(..., key=lambda item: (key(item), item["symbol"]))`
abbrev pub before : (State → ℕ) → State → State → Bool
before key s t = ltb (key s) (key t) || ((key s == key t) && leb s.holding.symbol t.holding.symbol)

unfoldable pub insert : (State → ℕ) → State → List State → List State
insert key s [] = s ∷ []
insert key s (t ∷ ts) =
    let rest = insert key s ts in if before key s t then s ∷ t ∷ ts else t ∷ rest

unfoldable pub sort_by : (State → ℕ) → List State → List State
sort_by key [] = []
sort_by key (s ∷ ss) = insert key s (sort_by key ss)

-- A missing score sorts below every score.
abbrev pub score_key : State → ℕ
score_key s = elim s.holding.score [ none ↦ 0 | some v ↦ suc v ]
