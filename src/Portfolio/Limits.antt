-- ===== src/Portfolio/Limits.antt =====
-- The exposure caps and the risk budget, stages 4 and 5 of `run_portfolio_pipeline` of
-- engines/portfolio/pipeline.py. `_resolve_cluster` and the reason codes are left out.
use stock_agent.Base.{
  ℕ, ◌-◌, min, Bool, Option, none, some, List, [], ◌∷◌, ◌++◌, leb, ltb, ◌==◌, if◌then◌else◌,
  holds_value,
}
use stock_agent.Portfolio.State.{
  Holding, State, sum_of, target_if, anyone, select, reject, sort_by, score_key,
}

-- `cut`, nothing once the total is under the cap.
abbrev pub cut_of : ℕ → ℕ → State → ℕ
cut_of cap total s = if leb total cap then 0 else min s.target_weight (total - cap)

-- The loop over members in order: the lowest scores are cut first, until the total is under the
-- cap; from there on nothing is cut.
unfoldable pub cut_list : ℕ → ℕ → List State → List State
cut_list cap total [] = []
cut_list cap total (s ∷ ss) =
    let cut = cut_of cap total s in
    record s { target_weight = s.target_weight - cut } ∷ cut_list cap (total - cut) ss

-- The states that `p` selects are brought under a cap.
unfoldable pub trim : ℕ → (Holding → Bool) → List State → List State
trim cap p ss =
    let members = select (λ s. p s.holding) ss in
    let total = sum_of (target_if anyone) members in
    if leb total cap
    then ss
    else cut_list cap total (sort_by score_key members) ++ reject (λ s. p s.holding) ss

abbrev pub in_group : (Holding → Option ℕ) → ℕ → Holding → Bool
in_group field key h = holds_value (field h) key

abbrev pub insert_key : ℕ → List ℕ → List ℕ
insert_key k [] = k ∷ []
insert_key k (j ∷ js) =
    let rest = insert_key k js in
    if k == j then j ∷ js else (if ltb k j then k ∷ j ∷ js else j ∷ rest)

abbrev pub add_key : Option ℕ → List ℕ → List ℕ
add_key none ks = ks
add_key (some k) ks = if k == 0 then ks else insert_key k ks

-- `sorted(groups)`: the keys of the groups, each once; a state with no key is in no group.
unfoldable pub group_keys : (Holding → Option ℕ) → List State → List ℕ
group_keys field [] = []
group_keys field (s ∷ ss) = add_key (field s.holding) (group_keys field ss)

unfoldable pub trim_groups : ℕ → (Holding → Option ℕ) → List ℕ → List State → List State
trim_groups cap field [] ss = ss
trim_groups cap field (k ∷ ks) ss = trim_groups cap field ks (trim cap (in_group field k) ss)

-- One round of stage 4.
unfoldable pub cap_field : ℕ → (Holding → Option ℕ) → List State → List State
cap_field cap field ss = trim_groups cap field (group_keys field ss) ss

pub record Exposure : Type 0 where
  pub max_theme_weight : ℕ
  pub max_sector_weight : ℕ
  pub max_correlated_cluster_weight : ℕ

abbrev pub theme_of : Holding → Option ℕ
theme_of h = h.theme

abbrev pub sector_of : Holding → Option ℕ
sector_of h = h.sector

abbrev pub cluster_of : Holding → Option ℕ
cluster_of h = h.cluster

-- Stage 4, with the groups in the order of _GROUP_CAPS.
unfoldable pub cap_exposures : Exposure → List State → List State
cap_exposures e ss =
    cap_field e.max_correlated_cluster_weight cluster_of
      (cap_field e.max_sector_weight sector_of (cap_field e.max_theme_weight theme_of ss))

-- Stage 5.
unfoldable pub scale_to_budget : ℕ → List State → List State
scale_to_budget regime_budget ss =
    let total = sum_of (target_if anyone) ss in
    if leb total regime_budget then ss else cut_list regime_budget total (sort_by score_key ss)
