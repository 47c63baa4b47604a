-- ===== src/Portfolio/Caps.antt =====
-- The exposure caps and the risk budget of engines/portfolio/pipeline.py hold after stage 5.
use stock_agent.Base.{
  ℕ, suc, ◌≤◌, ◌≡◌, refl, Bool, true, ◌⊎◌, inl, inr, Option, none, some, List, [], ◌∷◌, leb, ◌==◌,
  Bool-cases, arith, contains, holds_value,
}
use stock_agent.Portfolio.State.{Holding, State, sum_of, target_if, anyone, sort_by, score_key}
use stock_agent.Portfolio.Limits.{
  trim, in_group, insert_key, add_key, group_keys, trim_groups, cap_field, Exposure, theme_of,
  sector_of, cluster_of, cap_exposures, scale_to_budget,
}
use stock_agent.Portfolio.Sums.{sum_of-sort_by}
use stock_agent.Portfolio.Cuts.{cut_list-lowers, cut_list-fits, trim-lowers, trim-fits}

trim_groups-lowers :
    (q : Holding → Bool) (cap : ℕ) (field : Holding → Option ℕ) (ks : List ℕ) (ss : List State)
    → sum_of (target_if q) (trim_groups cap field ks ss) ≤ sum_of (target_if q) ss
unfolding trim_groups
trim_groups-lowers q cap field [] ss = omega arith
trim_groups-lowers q cap field (k ∷ ks) ss =
    let first = trim-lowers q cap (in_group field k) ss in
    let rest = trim_groups-lowers q cap field ks (trim cap (in_group field k) ss) in omega arith

trim_groups-fits :
    (cap : ℕ) (field : Holding → Option ℕ) (key : ℕ) (ks : List ℕ) (ss : List State)
    → contains key ks ≡ true
    → sum_of (target_if (in_group field key)) (trim_groups cap field ks ss) ≤ cap
unfolding trim_groups
trim_groups-fits cap field key [] ss h = absurd (ground arith)
trim_groups-fits cap field key (k ∷ ks) ss h = elim (Bool-cases (k == key)) [
  | inl y ↦
      let same : k ≡ key = ground arith in
      let first = trim-fits cap (in_group field key) ss in
      let rest =
        trim_groups-lowers (in_group field key) cap field ks (trim cap (in_group field key) ss) in
      rw same (omega arith)
  | inr n ↦ trim_groups-fits cap field key ks (trim cap (in_group field k) ss) (ground (arith, n))
]

contains-insert_key :
    (key k : ℕ) (js : List ℕ) → contains key js ≡ true → contains key (insert_key k js) ≡ true
contains-insert_key key k [] h = absurd (ground arith)
contains-insert_key key k (j ∷ js) h = elim (Bool-cases (j == key)) [
  | inl y ↦ ground (arith, y)
  | inr n ↦ let rest = contains-insert_key key k js (ground (arith, n)) in ground (arith, rest, n)
]

contains-insert_key_self : (k : ℕ) (js : List ℕ) → contains k (insert_key k js) ≡ true
contains-insert_key_self k [] = ground arith
contains-insert_key_self k (j ∷ js) =
    let rest = contains-insert_key_self k js in ground (arith, rest)

contains-add_key :
    (o : Option ℕ) (key : ℕ) (ks : List ℕ)
    → contains key ks ≡ true
    → contains key (add_key o ks) ≡ true
contains-add_key none key ks h = h
contains-add_key (some k) key ks h =
    let kept = contains-insert_key key k ks h in ground (arith, kept, h)

-- The key of a state that is in a group is among the keys.
contains-add_key_self :
    (o : Option ℕ) (n : ℕ) (ks : List ℕ)
    → holds_value o (suc n) ≡ true
    → contains (suc n) (add_key o ks) ≡ true
contains-add_key_self none n ks h = absurd (ground arith)
contains-add_key_self (some k) n ks h =
    let same : k ≡ suc n = ground arith in
    let self = contains-insert_key_self (suc n) ks in rw (same, add_key) (ground (arith, self))

-- A group is one of those listed, or there is nothing in it.
keyed :
    (field : Holding → Option ℕ) (n : ℕ) (ss : List State)
    → (contains (suc n) (group_keys field ss) ≡ true)
      ⊎ (sum_of (target_if (in_group field (suc n))) ss ≡ 0)
unfolding sum_of group_keys
keyed field n [] = inr refl
keyed field n (s ∷ ss) = elim (Bool-cases (in_group field (suc n) s.holding)) [
  | inl y ↦ inl (contains-add_key_self (field s.holding) n (group_keys field ss) y)
  | inr f ↦ elim (keyed field n ss) [
    | inl h ↦ inl (contains-add_key (field s.holding) (suc n) (group_keys field ss) h)
    | inr h ↦ inr (rw (f, target_if) (omega arith))
  ]
]

-- One round of stage 4 brings every group of the field under the cap.
cap_field-fits :
    (cap : ℕ) (field : Holding → Option ℕ) (n : ℕ) (ss : List State)
    → sum_of (target_if (in_group field (suc n))) (cap_field cap field ss) ≤ cap
unfolding cap_field
cap_field-fits cap field n ss = elim (keyed field n ss) [
  | inl h ↦ trim_groups-fits cap field (suc n) (group_keys field ss) ss h
  | inr h ↦
      let lowers = trim_groups-lowers (in_group field (suc n)) cap field (group_keys field ss) ss in
      omega arith
]

cap_field-lowers :
    (q : Holding → Bool) (cap : ℕ) (field : Holding → Option ℕ) (ss : List State)
    → sum_of (target_if q) (cap_field cap field ss) ≤ sum_of (target_if q) ss
unfolding cap_field
cap_field-lowers q cap field ss = trim_groups-lowers q cap field (group_keys field ss) ss

scale_to_budget-lowers :
    (q : Holding → Bool) (budget : ℕ) (ss : List State)
    → sum_of (target_if q) (scale_to_budget budget ss) ≤ sum_of (target_if q) ss
unfolding scale_to_budget
scale_to_budget-lowers q budget ss =
    let total = sum_of (target_if anyone) ss in
    elim (Bool-cases (leb total budget)) [
      | inl y ↦ rw (y, scale_to_budget) (omega arith)
      | inr n ↦
          let cut = cut_list-lowers q budget (sort_by score_key ss) total in
          let sorted = sum_of-sort_by (target_if q) score_key ss in
          rw (n, scale_to_budget) (omega arith)
    ]

scale_to_budget-fits :
    (budget : ℕ) (ss : List State) → sum_of (target_if anyone) (scale_to_budget budget ss) ≤ budget
unfolding scale_to_budget
scale_to_budget-fits budget ss =
    let total = sum_of (target_if anyone) ss in
    elim (Bool-cases (leb total budget)) [
      | inl y ↦ rw (y, scale_to_budget) (ground arith)
      | inr n ↦
          let sorted = sum_of-sort_by (target_if anyone) score_key ss in
          let cut = cut_list-fits budget (sort_by score_key ss) 0 total (omega arith) (inr refl) in
          rw (n, scale_to_budget) (omega arith)
    ]

-- After stages 4 and 5 all limits hold at once: the summed target of every theme, of every sector
-- and of every cluster (a name that is not empty, written `suc n`) is within its cap and the summed
-- target of all states within the budget of the regime; and no set of holdings, in particular no
-- single one, is given a higher summed target than it had before.
pub limits_all_hold :
    (e : Exposure) (regime_budget n : ℕ) (q : Holding → Bool) (ss : List State)
    → let out = scale_to_budget regime_budget (cap_exposures e ss) in
      (sum_of (target_if (in_group theme_of (suc n))) out ≤ e.max_theme_weight)
      × (sum_of (target_if (in_group sector_of (suc n))) out ≤ e.max_sector_weight)
      × (sum_of (target_if (in_group cluster_of (suc n))) out ≤ e.max_correlated_cluster_weight)
      × (sum_of (target_if anyone) out ≤ regime_budget)
      × (sum_of (target_if q) out ≤ sum_of (target_if q) ss)
unfolding cap_exposures
limits_all_hold e budget n q ss =
    let s1 = cap_field e.max_theme_weight theme_of ss in
    let s2 = cap_field e.max_sector_weight sector_of s1 in
    let s3 = cap_field e.max_correlated_cluster_weight cluster_of s2 in
    let theme = in_group theme_of (suc n) in
    let sector = in_group sector_of (suc n) in
    let cluster = in_group cluster_of (suc n) in
    let t1 = cap_field-fits e.max_theme_weight theme_of n ss in
    let t2 = cap_field-lowers theme e.max_sector_weight sector_of s1 in
    let t3 = cap_field-lowers theme e.max_correlated_cluster_weight cluster_of s2 in
    let t4 = scale_to_budget-lowers theme budget s3 in
    let u2 = cap_field-fits e.max_sector_weight sector_of n s1 in
    let u3 = cap_field-lowers sector e.max_correlated_cluster_weight cluster_of s2 in
    let u4 = scale_to_budget-lowers sector budget s3 in
    let v3 = cap_field-fits e.max_correlated_cluster_weight cluster_of n s2 in
    let v4 = scale_to_budget-lowers cluster budget s3 in
    let q1 = cap_field-lowers q e.max_theme_weight theme_of ss in
    let q2 = cap_field-lowers q e.max_sector_weight sector_of s1 in
    let q3 = cap_field-lowers q e.max_correlated_cluster_weight cluster_of s2 in
    let q4 = scale_to_budget-lowers q budget s3 in
    (omega arith, omega arith, omega arith, scale_to_budget-fits budget s3, omega arith)
