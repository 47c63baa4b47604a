-- ===== src/Policy/FirstBounds.antt =====
-- The soft rules of engines/policy/rules.py, first generation: a weight that respects what they
-- offer is within the limits that they are about.
use stock_agent.Base.{
  ℕ, zero, suc, ◌≡◌, refl, subst, Bool, true, false, not, ◌&&◌, ◌||◌, inl, inr, Option, none, some,
  List, [], ◌∷◌, ◌≤◌, if◌then◌else◌, contains, All, Bool-cases, Option-cases, arith,
}
use stock_agent.Base.Int.{ℤ, pos, min_ℤ, ltb_ℤ, ◌≤ℤ◌}
use stock_agent.Policy.Model.{Arithmetic, Proposal, PolicyContext, PolicyLimits, drawdown_cap}
use stock_agent.Policy.First.{
  Rule, PolicyCheck, position_room, group_room, capped, check_group, check_single_position_limit,
  check_drawdown_mode, is_hard, rejections, is_buy, lowered, lower_all,
}

-- No weight above `allowed` of the room that a group of which `weights` are held leaves; a proposal
-- that names no group has no such bound. The rooms are computed as the rules do.
abbrev pub FitsGroup : Arithmetic → (ℤ → ℤ) → Option ℕ → (ℕ → Option ℤ) → ℕ → ℤ → Type 0
FitsGroup f allowed none weights limit w = Unit
FitsGroup f allowed (some zero) weights limit w = Unit
FitsGroup f allowed (some (suc k)) weights limit w =
    w ≤ℤ allowed (group_room f weights (suc k) limit)

-- The weight is within what every soft rule allows, where `allowed` is what a rule makes of a room.
abbrev pub FitsPosition :
    Arithmetic → (ℤ → ℤ) → Proposal → PolicyContext → PolicyLimits → ℤ → Type 0
FitsPosition f allowed p c l w =
    (w ≤ℤ allowed (position_room f p c l))
    × FitsGroup f allowed p.sector c.industry_weights l.industry_exposure_limit w
    × FitsGroup f allowed p.theme c.theme_weights l.theme_exposure_limit w
    × (w ≤ℤ (if c.portfolio_drawdown_mode then allowed (drawdown_cap f l) else w))

-- What `round(x, 6)` is relied on for: it keeps the order and zero, and a rounded value is left.
pub record IsRounding (round6 : ℤ → ℤ) : Type 0 where
  pub keeps_order : (a b : ℤ) → a ≤ℤ b → round6 a ≤ℤ round6 b
  pub keeps_zero : round6 (pos 0) ≡ pos 0
  pub again : (a : ℤ) → round6 (round6 a) ≡ round6 a

-- What the hard rules ask.
abbrev pub IsAdmissible : Proposal → PolicyContext → PolicyLimits → Type 0
IsAdmissible p c l =
    (contains p.symbol c.restricted_universe ≡ false)
    × ((is_buy p.action && (p.is_st || p.is_suspended)) ≡ false)
    × (l.min_evidence_count ≤ p.evidence_count)
    × (l.min_confidence ≤ p.confidence)
    × (l.min_factor_coverage ≤ p.factor_coverage)
    × (p.liquidity_ok ≡ true)

-- No weight above one that a soft rule offers.
abbrev pub Respects : ℤ → PolicyCheck → Type 0
Respects w k = w ≤ℤ lowered w k

abbrev pub is_rejection : PolicyCheck → Bool
is_rejection k = not k.passed && is_hard k.rule

lowered-le : (w : ℤ) (k : PolicyCheck) → lowered w k ≤ℤ w
unfolding min_ℤ
lowered-le w k = elim (Option-cases k.adjusted_weight) [
  | inl e ↦ ground (arith, e)
  | inr (a, e) ↦ ground (arith, e)
]

pub lower_all-le : (ks : List PolicyCheck) (w : ℤ) → lower_all w ks ≤ℤ w
unfolding lower_all
lower_all-le [] w = omega arith
lower_all-le (k ∷ ks) w =
    let rest = lower_all-le ks (lowered w k) in let first = lowered-le w k in omega arith

-- A value below a lowered weight is below the one that was offered.
Respects-mono : (v w : ℤ) (k : PolicyCheck) → v ≤ℤ lowered w k → Respects v k
unfolding min_ℤ
Respects-mono v w k h = elim (Option-cases k.adjusted_weight) [
  | inl e ↦ ground (arith, e)
  | inr (a, e) ↦ ground (arith, e)
]

pub lower_all-Respects : (ks : List PolicyCheck) (w : ℤ) → All (Respects (lower_all w ks)) ks
unfolding lower_all
lower_all-Respects [] w = tt
lower_all-Respects (k ∷ ks) w = (
  Respects-mono (lower_all (lowered w k) ks) w k (lower_all-le ks (lowered w k)),
  lower_all-Respects ks (lowered w k),
)

pub rejections-All :
    (ks : List PolicyCheck) → rejections ks ≡ [] → All (λ k. is_rejection k ≡ false) ks
unfolding rejections
rejections-All [] e = tt
rejections-All (k ∷ ks) e = elim (Bool-cases (is_rejection k)) [
  | inl t ↦ ground (arith, t)
  | inr f ↦ (f, rejections-All ks (ground (arith, f)))
]

-- A weight that respects a cap is within the room or within the room rounded, so that rounding it
-- gives no more than the room rounded.
module _ (f : Arithmetic) (rounds : IsRounding f.round6) where
  capped-fits :
      (r : Rule) (b : Bool) (proposed allowed w : ℤ)
      → is_hard r ≡ false
      → w ≤ℤ proposed
      → Respects w (capped f r b proposed allowed)
      → f.round6 w ≤ℤ f.round6 allowed
  unfolding min_ℤ
  capped-fits r b proposed allowed w soft k e = elim (Bool-cases (ltb_ℤ allowed proposed)) [
    | inr within ↦ rounds.keeps_order w allowed (ground (arith, within))
    | inl over ↦
        subst (λ x. f.round6 w ≤ℤ x) (rounds.again allowed)
          (rounds.keeps_order w (f.round6 allowed) (ground (arith, over, soft)))
  ]

  pub position-fits :
      (p : Proposal) (c : PolicyContext) (l : PolicyLimits) (w : ℤ)
      → w ≤ℤ p.proposed_weight
      → Respects w (check_single_position_limit f p c l)
      → f.round6 w ≤ℤ f.round6 (position_room f p c l)
  unfolding check_single_position_limit
  position-fits p c l w k r =
      let room = position_room f p c l in
      capped-fits Rule.single_position_limit (ltb_ℤ (pos 0) room) p.proposed_weight room w refl k r

  pub group-fits :
      (r : Rule) (g : Option ℕ) (weights : ℕ → Option ℤ) (limit : ℕ) (proposed w : ℤ)
      → is_hard r ≡ false
      → w ≤ℤ proposed
      → Respects w (check_group f r g weights limit proposed)
      → FitsGroup f f.round6 g weights limit (f.round6 w)
  group-fits r none weights limit proposed w soft k e = tt
  group-fits r (some zero) weights limit proposed w soft k e = tt
  group-fits r (some (suc g)) weights limit proposed w soft k e =
      capped-fits r false proposed (group_room f weights (suc g) limit) w soft k e

  pub drawdown-fits :
      (p : Proposal) (c : PolicyContext) (l : PolicyLimits) (w : ℤ)
      → w ≤ℤ p.proposed_weight
      → Respects w (check_drawdown_mode f p c l)
      → f.round6 w
        ≤ℤ (if c.portfolio_drawdown_mode then f.round6 (drawdown_cap f l) else f.round6 w)
  unfolding check_drawdown_mode
  drawdown-fits p c l w k r = elim (Bool-cases c.portfolio_drawdown_mode) [
    | inl t ↦ rw t (
        capped-fits Rule.drawdown_mode false p.proposed_weight (drawdown_cap f l) w refl k
          (ground (arith, t)))
    | inr n ↦ rw n (omega arith)
  ]
