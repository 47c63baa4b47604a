-- ===== src/Policy/SecondLimits.antt =====
-- The limits of engines/policy/rules.py, second generation: each lowers the target it is given, and
-- what is left at the end is within all of them.
use stock_agent.Base.{
  ℕ, ◌≡◌, refl, Bool, true, false, not, inl, inr, Option, none, some, List, [], ◌∷◌, if◌then◌else◌,
  All, Bool-cases, or_default, is_truthy, arith, and_true,
}
use stock_agent.Base.Int.{ℤ, pos, max_ℤ, min_ℤ, leb_ℤ, ◌≤ℤ◌, min_ℤ-bounds}
use stock_agent.Policy.Model.{
  Arithmetic, ProposalV2, PolicyContext, PolicyLimits, drawdown_cap, weight_of,
}
use stock_agent.Policy.Second.{
  RuleId, PolicyCheckResult, v2_target, lower, limit_exposure, projected_gross, projected_net,
  limit_group, limit_position, limit_gross, limit_net, limit_industry, limit_theme, limit_drawdown,
  headroom, group_headroom, current_weight, key_of, evaluate_v2_checks, evaluate_v2, has_reject,
  is_reject, weight_valid,
}

module _ (f : Arithmetic) where
  -- A step's new target: no more than before and no more than `allowed`.
  abbrev pub LowersTo : Option ℤ → ℤ → ℤ → Type 0
  LowersTo o t allowed = (w : ℤ) × (o ≡ some w) × (w ≤ℤ t) × (w ≤ℤ allowed)

  lower-lowers :
      (r : RuleId) (ok : Bool) (t allowed : ℤ) → LowersTo (lower r ok t allowed).1 t allowed
  lower-lowers r ok t allowed = let b = min_ℤ-bounds t allowed in (min_ℤ t allowed, refl, b.0, b.1)

  position-lowers :
      (p : ProposalV2) (c : PolicyContext) (l : PolicyLimits) (o : Option ℤ) (t : ℤ)
      → o ≡ some t
      → LowersTo (limit_position p c l o).1 t (max_ℤ (pos 0) (pos l.single_position_limit))
  unfolding limit_position
  position-lowers p c l o t e =
      let allowed = max_ℤ (pos 0) (pos l.single_position_limit) in
      rw (e, limit_position) (lower-lowers RuleId.single_position_limit (leb_ℤ t allowed) t allowed)

  -- An exposure is known and the target within the headroom beside the other holdings.
  abbrev pub FitsExposure : Option ℤ → ℕ → ℤ → ℤ → Type 0
  FitsExposure exposure limit current w =
      (e : ℤ) × (exposure ≡ some e) × (w ≤ℤ headroom f e limit current)

  exposure-lowers :
      (r : RuleId) (project : ℤ → ℤ → ℤ → ℤ) (exposure : Option ℤ) (limit : ℕ) (current : ℤ)
      (o : Option ℤ) (t : ℤ)
      → o ≡ some t
      → is_reject (limit_exposure f r project exposure limit current o).0 ≡ false
      → (w : ℤ) × ((limit_exposure f r project exposure limit current o).1 ≡ some w)
        × (w ≤ℤ t)
        × FitsExposure exposure limit current w
  exposure-lowers r project none limit current o t e h = absurd (ground (arith, e))
  exposure-lowers r project (some g) limit current o t e h =
      let b = min_ℤ-bounds t (headroom f g limit current) in
      rw (e) (min_ℤ t (headroom f g limit current), refl, b.0, (g, refl, b.1))

  group-lowers :
      (r : RuleId) (group : Option ℕ) (weights : ℕ → Option ℤ) (limit : ℕ) (o : Option ℤ) (t : ℤ)
      → o ≡ some t
      → LowersTo
          (limit_group f r group weights limit o).1
          t
          (if is_truthy group then group_headroom f weights limit group else t)
  group-lowers r group weights limit o t e = elim (Bool-cases (is_truthy group)) [
    | inl y ↦
        let allowed =
          max_ℤ (pos 0) (f.minus (pos limit) (weight_of weights (or_default group 0))) in
        rw (e, limit_group, y) (lower-lowers r (leb_ℤ t allowed) t allowed)
    | inr n ↦ rw (e, limit_group, n) (t, refl, omega arith, omega arith)
  ]

  drawdown-lowers :
      (p : ProposalV2) (c : PolicyContext) (l : PolicyLimits) (o : Option ℤ) (t : ℤ)
      → o ≡ some t
      → LowersTo
          (limit_drawdown f p c l o).1
          t
          (if c.portfolio_drawdown_mode then drawdown_cap f l else t)
  unfolding limit_drawdown
  drawdown-lowers p c l o t e = elim (Bool-cases c.portfolio_drawdown_mode) [
    | inl y ↦
        let allowed = drawdown_cap f l in
        rw (e, limit_drawdown, y) (lower-lowers RuleId.drawdown_mode (leb_ℤ t allowed) t allowed)
    | inr n ↦ rw (e, limit_drawdown, n) (t, refl, omega arith, omega arith)
  ]

  abbrev pub FitsGroup : Option ℕ → (ℕ → Option ℤ) → ℕ → ℤ → Type 0
  FitsGroup group weights limit w =
      w ≤ℤ (if is_truthy group then group_headroom f weights limit group else w)

  -- What the limits leave of a target.
  abbrev pub FitsLimits : ProposalV2 → PolicyContext → PolicyLimits → ℤ → Type 0
  FitsLimits p c l w =
      (w ≤ℤ max_ℤ (pos 0) (pos l.single_position_limit))
      × FitsExposure c.gross_exposure l.portfolio_gross_limit (current_weight p c) w
      × FitsExposure c.net_exposure l.portfolio_net_limit (current_weight p c) w
      × FitsGroup (c.subject_sectors (key_of p)) c.industry_weights l.industry_exposure_limit w
      × FitsGroup (c.subject_themes (key_of p)) c.theme_weights l.theme_exposure_limit w
      × (w ≤ℤ (if c.portfolio_drawdown_mode then drawdown_cap f l else w))

  exposure_mono :
      (exposure : Option ℤ) (limit : ℕ) (current v w : ℤ)
      → v ≤ℤ w
      → FitsExposure exposure limit current w
      → FitsExposure exposure limit current v
  exposure_mono exposure limit current v w h (g, e, k) = (g, e, omega arith)

  group_mono :
      (group : Option ℕ) (weights : ℕ → Option ℤ) (limit : ℕ) (t v w : ℤ)
      → v ≤ℤ w
      → w ≤ℤ (if is_truthy group then group_headroom f weights limit group else t)
      → FitsGroup group weights limit v
  group_mono group weights limit t v w h k = elim (Bool-cases (is_truthy group)) [
    | inl y ↦ ground (arith, y)
    | inr n ↦ ground (arith, n)
  ]

  drawdown_mono :
      (b : Bool) (cap t w : ℤ) → w ≤ℤ (if b then cap else t) → w ≤ℤ (if b then cap else w)
  drawdown_mono true cap t w h = h
  drawdown_mono false cap t w h = omega arith

  has_reject-All :
      (ks : List PolicyCheckResult) → has_reject ks ≡ false → All (λ k. is_reject k ≡ false) ks
  unfolding has_reject
  has_reject-All [] h = tt
  has_reject-All (k ∷ ks) h = (ground arith, has_reject-All ks (ground arith))

  -- The target that the checks hand back, when none of the checks of exposure blocks.
  pub limits_hold :
      (p : ProposalV2) (c : PolicyContext) (l : PolicyLimits) (t : ℤ)
      → v2_target f p (current_weight p c) ≡ some t
      → All (λ k. is_reject k ≡ false) (evaluate_v2_checks f p c l).0
      → (w : ℤ) × ((evaluate_v2_checks f p c l).1 ≡ some w) × (w ≤ℤ t) × FitsLimits p c l w
  unfolding evaluate_v2_checks limit_gross limit_net limit_industry limit_theme
  limits_hold p c l t e h =
      let o0 = v2_target f p (current_weight p c) in
      let (w1, e1, le1, b1) = position-lowers p c l o0 t e in
      let o1 = (limit_position p c l o0).1 in
      let (w2, e2, le2, b2) =
        exposure-lowers RuleId.portfolio_gross_limit (projected_gross f) c.gross_exposure
          l.portfolio_gross_limit (current_weight p c) o1 w1 e1 h.1.0 in
      let o2 = (limit_gross f p c l o1).1 in
      let (w3, e3, le3, b3) =
        exposure-lowers RuleId.portfolio_net_limit (projected_net f) c.net_exposure
          l.portfolio_net_limit (current_weight p c) o2 w2 e2 h.1.1.0 in
      let o3 = (limit_net f p c l o2).1 in
      let (w4, e4, le4, b4) =
        group-lowers RuleId.industry_exposure (c.subject_sectors (key_of p)) c.industry_weights
          l.industry_exposure_limit o3 w3 e3 in
      let o4 = (limit_industry f p c l o3).1 in
      let (w5, e5, le5, b5) =
        group-lowers RuleId.theme_exposure (c.subject_themes (key_of p)) c.theme_weights
          l.theme_exposure_limit o4 w4 e4 in
      let o5 = (limit_theme f p c l o4).1 in
      let (w6, e6, le6, b6) = drawdown-lowers p c l o5 w5 e5 in
      (
        w6,
        e6,
        omega arith,
        (
          omega arith,
          exposure_mono c.gross_exposure l.portfolio_gross_limit (current_weight p c) w6 w2
              (omega arith) b2,
          exposure_mono c.net_exposure l.portfolio_net_limit (current_weight p c) w6 w3
              (omega arith) b3,
          group_mono (c.subject_sectors (key_of p)) c.industry_weights l.industry_exposure_limit w3
              w6 w4 (omega arith) b4,
          group_mono (c.subject_themes (key_of p)) c.theme_weights l.theme_exposure_limit w4 w6 w5
              (omega arith) b5,
          drawdown_mono c.portfolio_drawdown_mode (drawdown_cap f l) w5 w6 b6,
        ),
      )

  pub approved-All :
      (p : ProposalV2) (c : PolicyContext) (l : PolicyLimits)
      → (evaluate_v2 f p c l).approved ≡ true
      → All (λ k. is_reject k ≡ false) (evaluate_v2_checks f p c l).0
  unfolding evaluate_v2
  approved-All p c l h =
      let checked = evaluate_v2_checks f p c l in
      let both = and_true (not (has_reject checked.0)) (weight_valid p checked.1) h in
      has_reject-All checked.0 (ground (arith, both.0))
