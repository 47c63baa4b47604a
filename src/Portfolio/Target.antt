-- ===== src/Portfolio/Target.antt =====
-- The first target of each state, stage 3 of `run_portfolio_pipeline` of
-- engines/portfolio/pipeline.py, and the functions that it calls.
use stock_agent.Base.{
  ℕ, ◌≤◌, ◌<◌, ◌⊎◌, inl, inr, ◌&&◌, Option, none, some, leb, ltb, Bool-cases, if◌then◌else◌, arith,
}

pub data Band : Type 0 where
  watch starter normal high_conviction : Band

pub record Thresholds : Type 0 where
  pub starter_from : ℕ
  pub normal_from : ℕ
  pub high_conviction_from : ℕ
  pub reduce_below : ℕ
  pub exit_below : ℕ

unfoldable pub band_for_score : ℕ → Thresholds → Band
band_for_score score t =
    if leb t.high_conviction_from score
    then high_conviction
    else (if leb t.normal_from score
        then normal
        else (if leb t.starter_from score then starter else watch))

pub data TargetReason : Type 0 where
  hold_no_score score_below_exit score_below_reduce watch_below_starter hold_within_band :
      TargetReason
  trim_to_band_range score_band single_stock_cap : TargetReason

-- Floating-point arithmetic, of which the model knows no more than it is told: `reduced w` is
-- round(w * reduce_factor, 4) and `middle lo hi` is round((lo + hi) / 2.0, 4).
module _ (reduced : ℕ → ℕ) (middle : ℕ → ℕ → ℕ) where
  -- The target above the watch band, in the band `lo` to `hi`.
  abbrev pub band_target : ℕ → ℕ → ℕ → ℕ → ℕ × TargetReason
  band_target lo hi max_single current =
      if ltb hi current
      then (hi, trim_to_band_range)
      else (if leb lo current
          then (current, hold_within_band)
          else (if ltb max_single (middle lo hi)
              then (max_single, single_stock_cap)
              else (middle lo hi, score_band)))

  abbrev pub by_band : (Band → ℕ × ℕ) → ℕ → ℕ → Band → ℕ × TargetReason
  by_band sizing max_single current watch =
      if leb current 0 then (0, watch_below_starter) else (current, hold_within_band)
  by_band sizing max_single current b = band_target (sizing b).0 (sizing b).1 max_single current

  abbrev pub scored_target : Thresholds → (Band → ℕ × ℕ) → ℕ → ℕ → ℕ → ℕ × TargetReason
  scored_target t sizing max_single score current =
      if ltb score t.exit_below && ltb 0 current
      then (0, score_below_exit)
      else (if ltb score t.reduce_below && ltb 0 current
          then (reduced current, score_below_reduce)
          else by_band sizing max_single current (band_for_score score t))

  -- `target_weight` of a state, with the last reason code that stage 3 gives.
  unfoldable pub initial_target : Thresholds → (Band → ℕ × ℕ) → ℕ → Option ℕ → ℕ → ℕ × TargetReason
  initial_target t sizing max_single none current = (current, hold_no_score)
  initial_target t sizing max_single (some score) current =
      scored_target t sizing max_single score current

  band_target-cases :
      (lo hi max_single current : ℕ)
      → let t = (band_target lo hi max_single current).0 in
        (t ≤ current) ⊎ ((current < lo) × (t ≤ max_single) × (t ≤ middle lo hi))
  band_target-cases lo hi m c = elim (Bool-cases (ltb hi c)) [
    | inl y ↦ inl (ground (arith, y))
    | inr n ↦ elim (Bool-cases (leb lo c)) [
      | inl y ↦ inl (ground (arith, y, n))
      | inr k ↦ inr (ground (arith, k, n))
    ]
  ]

  by_band-cases :
      (sizing : Band → ℕ × ℕ) (max_single current : ℕ) (b : Band)
      → let t = (by_band sizing max_single current b).0 in
        (t ≤ current)
        ⊎ ((current < (sizing b).0) × (t ≤ max_single) × (t ≤ middle (sizing b).0 (sizing b).1))
  by_band-cases sizing m c watch = inl (ground arith)
  by_band-cases sizing m c starter = band_target-cases (sizing starter).0 (sizing starter).1 m c
  by_band-cases sizing m c normal = band_target-cases (sizing normal).0 (sizing normal).1 m c
  by_band-cases sizing m c high_conviction =
      band_target-cases (sizing high_conviction).0 (sizing high_conviction).1 m c

  -- Stage 3 raises a weight only from below the lower edge of the band of the score, and then no
  -- further than the cap of a single stock and the middle of the band. Any other target is at most
  -- the current weight, provided that reducing does not raise a weight.
  pub initial_target_cases :
      (t : Thresholds) (sizing : Band → ℕ × ℕ) (max_single score current : ℕ)
      → ((w : ℕ) → reduced w ≤ w)
      → let target = (initial_target t sizing max_single (some score) current).0 in
        let band = sizing (band_for_score score t) in
        (target ≤ current)
        ⊎ ((current < band.0) × (target ≤ max_single) × (target ≤ middle band.0 band.1))
  unfolding initial_target
  initial_target_cases t sizing m score c less =
      let band = band_for_score score t in
      elim (Bool-cases (ltb score t.exit_below && ltb 0 c)) [
        | inl y ↦ inl (rw y (omega arith))
        | inr n ↦ elim (Bool-cases (ltb score t.reduce_below && ltb 0 c)) [
          | inl y ↦ inl (rw (n, y) (less c))
          | inr k ↦ rw (n, k) (by_band-cases sizing m c band)
        ]
      ]
