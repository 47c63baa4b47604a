-- ===== src/Policy/FirstSafety.antt =====
-- What the first generation of engines/policy/rules.py and engine.py lets through.
use stock_agent.Base.{
  ℕ, zero, suc, ◌≡◌, refl, subst, Bool, true, false, ◌&&◌, Option, none, some, List, [], ◌∷◌,
  if◌then◌else◌, All, and_true, arith,
}
use stock_agent.Base.Int.{ℤ, pos, ltb_ℤ, ◌≤ℤ◌, ◌<ℤ◌}
use stock_agent.Policy.Model.{Arithmetic, Proposal, PolicyContext, PolicyLimits, drawdown_cap}
use stock_agent.Policy.First.{
  Rule, PolicyCheck, position_room, group_room, capped, verdict, check_group,
  check_single_position_limit, check_industry_exposure, check_theme_exposure, check_liquidity,
  check_drawdown_mode, check_restricted_universe, check_st_suspension, check_minimum_evidence,
  check_minimum_confidence, check_factor_coverage, checks, rejections, lower_all, evaluate,
  is_empty,
}
use stock_agent.Policy.FirstBounds.{
  IsRounding, FitsGroup, FitsPosition, IsAdmissible, Respects, is_rejection, lower_all-le,
  lower_all-Respects, rejections-All, position-fits, group-fits, drawdown-fits,
}

module _ (f : Arithmetic) (rounds : IsRounding f.round6) where
  rules_respected :
      (p : Proposal) (c : PolicyContext) (l : PolicyLimits) (w : ℤ)
      → w ≤ℤ p.proposed_weight
      → All (Respects w) (checks f p c l)
      → FitsPosition f f.round6 p c l (f.round6 w)
  unfolding checks check_industry_exposure check_theme_exposure
  rules_respected p c l w k (_, (_, (_, (_, (_, (_, (d, (s, (i, (t, _)))))))))) = (
    position-fits f rounds p c l w k s,
    group-fits f rounds Rule.industry_exposure p.sector c.industry_weights l.industry_exposure_limit
        p.proposed_weight w refl k i,
    group-fits f rounds Rule.theme_exposure p.theme c.theme_weights l.theme_exposure_limit
        p.proposed_weight w refl k t,
    drawdown-fits f rounds p c l w k d,
  )

hard_rules_passed :
    (f : Arithmetic) (p : Proposal) (c : PolicyContext) (l : PolicyLimits)
    → All (λ k. is_rejection k ≡ false) (checks f p c l)
    → IsAdmissible p c l
unfolding checks check_restricted_universe check_st_suspension check_minimum_evidence
    check_minimum_confidence check_factor_coverage check_liquidity
hard_rules_passed f p c l (a, (b, (d, (e, (k, (g, _)))))) =
    (ground arith, ground arith, ground arith, ground arith, ground arith, ground arith)

empty_is_nil : (rs : List Rule) → is_empty rs ≡ true → rs ≡ []
empty_is_nil [] e = refl
empty_is_nil (r ∷ rs) e = absurd (ground arith)

approved_parts :
    (ks : List PolicyCheck) (w : ℤ)
    → (is_empty (rejections ks) && ltb_ℤ (pos 0) w) ≡ true
    → (rejections ks ≡ []) × (pos 0 <ℤ w)
approved_parts ks w e =
    let both = and_true (is_empty (rejections ks)) (ltb_ℤ (pos 0) w) e in
    (empty_is_nil (rejections ks) both.0, ground arith)

-- An approval is safe up to the rounding to six digits. The approved weight is not negative and no
-- more than the proposed weight rounded; it is no more than what the position cap (the lower one in
-- drawdown mode) leaves beside what is held and, where the proposal names an industry or a theme,
-- what that group's limit leaves, each rounded; in drawdown mode it is no more than the lower cap
-- rounded; and the security is not restricted, not bought while it is ST or suspended, and has the
-- evidence, the confidence, the factor coverage and the liquidity asked for. The rounding keeps the
-- order and zero and leaves a rounded value; sums, differences and products are any.
pub approved_is_safe :
    (f : Arithmetic) (p : Proposal) (c : PolicyContext) (l : PolicyLimits)
    → IsRounding f.round6
    → (evaluate f p c l).approved ≡ true
    → (pos 0 ≤ℤ (evaluate f p c l).approved_weight)
      × ((evaluate f p c l).approved_weight ≤ℤ f.round6 p.proposed_weight)
      × FitsPosition f f.round6 p c l (evaluate f p c l).approved_weight
      × IsAdmissible p c l
unfolding evaluate
approved_is_safe f p c l rounds e =
    let ks = checks f p c l in
    let w = lower_all p.proposed_weight ks in
    let parts = approved_parts ks w e in
    let le = lower_all-le ks p.proposed_weight in
    let not_below : f.round6 (pos 0) ≤ℤ f.round6 w =
      rounds.keeps_order (pos 0) w (omega (arith, parts.1)) in
    rw e (
      subst (λ x. x ≤ℤ f.round6 w) rounds.keeps_zero not_below,
      rounds.keeps_order w p.proposed_weight le,
      rules_respected f rounds p c l w le (lower_all-Respects ks p.proposed_weight),
      hard_rules_passed f p c l (rejections-All ks parts.0),
    )

module _ (f : Arithmetic) where
  capped-keeps :
      (r : Rule) (b : Bool) (w allowed : ℤ) → w ≤ℤ allowed → capped f r b w allowed ≡ verdict r true
  capped-keeps r b w allowed h = ground arith

  group-keeps :
      (r : Rule) (g : Option ℕ) (weights : ℕ → Option ℤ) (limit : ℕ) (w : ℤ)
      → FitsGroup f (λ x. x) g weights limit w
      → check_group f r g weights limit w ≡ verdict r true
  group-keeps r none weights limit w h = refl
  group-keeps r (some zero) weights limit w h = refl
  group-keeps r (some (suc g)) weights limit w h =
      capped-keeps r false w (group_room f weights (suc g) limit) h

  drawdown-keeps :
      (p : Proposal) (c : PolicyContext) (l : PolicyLimits)
      → p.proposed_weight
        ≤ℤ (if c.portfolio_drawdown_mode then drawdown_cap f l else p.proposed_weight)
      → check_drawdown_mode f p c l ≡ verdict Rule.drawdown_mode true
  unfolding check_drawdown_mode
  drawdown-keeps p c l h = ground arith

  of_verdict :
      (k : PolicyCheck) (r : Rule)
      → k ≡ verdict r true
      → (is_rejection k ≡ false) × (k.adjusted_weight ≡ none)
  of_verdict k r e = rw e (refl, refl)

  checks_kept :
      (ks : List PolicyCheck) (w : ℤ)
      → All (λ k. (is_rejection k ≡ false) × (k.adjusted_weight ≡ none)) ks
      → (rejections ks ≡ []) × (lower_all w ks ≡ w)
  unfolding rejections lower_all
  checks_kept [] w h = (refl, refl)
  checks_kept (k ∷ ks) w ((p, a), hs) = let rest = checks_kept ks w hs in (rw p rest.0, rw a rest.1)

  -- The checks of a proposal that fits: every one passes and offers no other weight.
  checks-pass :
      (p : Proposal) (c : PolicyContext) (l : PolicyLimits)
      → FitsPosition f (λ x. x) p c l p.proposed_weight
      → IsAdmissible p c l
      → All (λ k. (is_rejection k ≡ false) × (k.adjusted_weight ≡ none)) (checks f p c l)
  unfolding checks check_restricted_universe check_st_suspension check_minimum_evidence
      check_minimum_confidence check_factor_coverage check_liquidity check_single_position_limit
      check_industry_exposure check_theme_exposure
  checks-pass p c l (s, i, t, d) (a1, a2, a3, a4, a5, a6) =
      let hs =
        capped-keeps Rule.single_position_limit (ltb_ℤ (pos 0) (position_room f p c l))
          p.proposed_weight (position_room f p c l) s in
      let hi =
        group-keeps Rule.industry_exposure p.sector c.industry_weights l.industry_exposure_limit
          p.proposed_weight i in
      let ht =
        group-keeps Rule.theme_exposure p.theme c.theme_weights l.theme_exposure_limit
          p.proposed_weight t in
      let hd = drawdown-keeps p c l d in
      (
        (ground arith, refl),
        (
          (ground arith, refl),
          (
            (ground arith, refl),
            (
              (ground arith, refl),
              (
                (ground arith, refl),
                (
                  (ground arith, refl),
                  (
                    of_verdict (check_drawdown_mode f p c l) Rule.drawdown_mode hd,
                    (
                      of_verdict (check_single_position_limit f p c l) Rule.single_position_limit
                          hs,
                      (
                        of_verdict (check_industry_exposure f p c l) Rule.industry_exposure hi,
                        (of_verdict (check_theme_exposure f p c l) Rule.theme_exposure ht, tt),
                      ),
                    ),
                  ),
                ),
              ),
            ),
          ),
        ),
      )

  -- Nothing is refused or cut without a reason: a positive weight within every room, for
  -- a security that the hard rules admit, is approved as it was proposed, rounded.
  pub fitting_is_kept :
      (p : Proposal) (c : PolicyContext) (l : PolicyLimits)
      → pos 0 <ℤ p.proposed_weight
      → FitsPosition f (λ x. x) p c l p.proposed_weight
      → IsAdmissible p c l
      → ((evaluate f p c l).approved ≡ true)
        × ((evaluate f p c l).approved_weight ≡ f.round6 p.proposed_weight)
        × ((evaluate f p c l).rejected_by ≡ [])
  unfolding evaluate
  fitting_is_kept p c l h fits a =
      let ks = checks f p c l in
      let kept = checks_kept ks p.proposed_weight (checks-pass p c l fits a) in
      let some_weight : ltb_ℤ (pos 0) p.proposed_weight ≡ true = ground arith in
      rw (kept.0, kept.1, some_weight) (refl, refl, refl)
