-- ===== src/Policy/Accepted.antt =====
-- The contract of contracts/decision.py beside engines/policy/engine.py: the traces that the policy
-- engine builds pass the validators of the contract.
use stock_agent.Base.{
  ℕ, ◌≡◌, refl, sym, ap, subst, ◌∙◌, Bool, true, false, not, ◌&&◌, ◌⊎◌, inl, inr, Option, none,
  some, List, [], ◌∷◌, if◌then◌else◌, Bool-cases, is_truthy, is_some, or_default, leb, arith,
}
use stock_agent.Base.Int.{
  ℤ, pos, ◌+ℤ◌, ◌-ℤ◌, min_ℤ, max_ℤ, leb_ℤ, ◌≤ℤ◌, ◌<ℤ◌, +ℤ_parts, -ℤ_parts, max_ℤ-bounds,
}
use stock_agent.Policy.Model.{
  Arithmetic, ProposalV2, PolicyContext, PolicyLimits, drawdown_cap, weight_of,
}
use stock_agent.Policy.Second.{
  RuleId, Severity, PolicyCheckResult, gate, lower, no_limit, limit_exposure, projected_gross,
  projected_net, limit_group, headroom, factor_required, factor_value, v2_target, current_weight,
  key_of, limit_position, limit_gross, limit_net, limit_industry, limit_theme, limit_drawdown,
  check_factor, liquidity_pass, is_restricted, state_pass, evidence_ok, dependencies_ok,
  evidence_fresh_ok, portfolio_ok, evaluate_v2_checks, evaluate_v2, has_reject, weight_valid,
}
use stock_agent.Policy.Contract.{
  validate_semantics, validate_all, validate_trace, adjusts, last_adjustment, keeps_adjustment,
  same_value, is_trace,
}

-- An exposure is known and a target passes its limit, yet the headroom, which is computed in another
-- order, is below the target: in exact arithmetic this cannot be.
abbrev pub RoundingGap : Arithmetic → (ℤ → ℤ → ℤ → ℤ) → Option ℤ → ℕ → ℤ → Option ℤ → Type 0
RoundingGap f project exposure limit current target =
    (e : ℤ) × (t : ℤ) × (exposure ≡ some e)
    × (target ≡ some t)
    × (leb_ℤ (project e current t) (pos limit) ≡ true)
    × (headroom f e limit current <ℤ t)

-- The gap at the gross limit, which is given what the position limit leaves.
abbrev pub GrossGap : Arithmetic → ProposalV2 → PolicyContext → PolicyLimits → Type 0
GrossGap f p c l =
    RoundingGap f (projected_gross f) c.gross_exposure l.portfolio_gross_limit (current_weight p c)
      (limit_position p c l (v2_target f p (current_weight p c))).1

-- The gap at the net limit, which is given what the gross limit leaves.
abbrev pub NetGap : Arithmetic → ProposalV2 → PolicyContext → PolicyLimits → Type 0
NetGap f p c l =
    RoundingGap f (projected_net f) c.net_exposure l.portfolio_net_limit (current_weight p c)
      (limit_gross f p c l (limit_position p c l (v2_target f p (current_weight p c))).1).1

-- `G` is what may go wrong at an exposure limit.
module _ (f : Arithmetic) (G : Type 0) where
  -- A check that takes the target `before` to `after`: it changes it only as an
  -- adjustment, but for what may go wrong.
  abbrev Kept : PolicyCheckResult → Option ℤ → Option ℤ → Type 0
  Kept k before after =
      ((adjusts k ≡ false) × (after ≡ before)) ⊎ ((adjusts k ≡ true) × (k.adjusted_value ≡ after))

  abbrev Carries : PolicyCheckResult → Option ℤ → Option ℤ → Type 0
  Carries k before after = (validate_semantics k ≡ true) × (Kept k before after ⊎ G)

  -- The checks of a trace, one after the other.
  data Trace : List PolicyCheckResult → Option ℤ → Option ℤ → Type 0 where
    ended : {o : Option ℤ} → Trace [] o o
    check :
        {k : PolicyCheckResult} {ks : List PolicyCheckResult} {a b c : Option ℤ}
        → Carries k a b
        → Trace ks b c
        → Trace (k ∷ ks) a c

  gate-Carries : (r : RuleId) (ok : Bool) (o : Option ℤ) → Carries (gate r ok) o o
  unfolding validate_semantics
  gate-Carries r true o = (refl, inl (inl (refl, refl)))
  gate-Carries r false o = (refl, inl (inl (refl, refl)))

  no_limit-Carries : (r : RuleId) (o : Option ℤ) → Carries (no_limit r o).0 o (no_limit r o).1
  unfolding validate_semantics
  no_limit-Carries r o = (refl, inl (inl (refl, refl)))

  lower-Carries :
      (r : RuleId) (ok : Bool) (t allowed : ℤ)
      → (ok ≡ true → t ≤ℤ allowed)
      → Carries (lower r ok t allowed).0 (some t) (lower r ok t allowed).1
  unfolding validate_semantics min_ℤ
  lower-Carries r true t allowed h = let le = h refl in (refl, inl (inl (refl, ground (arith, le))))
  lower-Carries r false t allowed h = (refl, inl (inr (refl, refl)))

  position-Carries :
      (p : ProposalV2) (c : PolicyContext) (l : PolicyLimits) (o : Option ℤ)
      → Carries (limit_position p c l o).0 o (limit_position p c l o).1
  unfolding limit_position
  position-Carries p c l none = no_limit-Carries RuleId.single_position_limit none
  position-Carries p c l (some t) =
      let allowed = max_ℤ (pos 0) (pos l.single_position_limit) in
      lower-Carries RuleId.single_position_limit (leb_ℤ t allowed) t allowed
        (λ e. ground (arith, e))

  lower-semantics :
      (r : RuleId) (ok : Bool) (t allowed : ℤ) → validate_semantics (lower r ok t allowed).0 ≡ true
  unfolding validate_semantics
  lower-semantics r true t allowed = refl
  lower-semantics r false t allowed = refl

  exposure-Carries :
      (r : RuleId) (project : ℤ → ℤ → ℤ → ℤ) (exposure : Option ℤ) (limit : ℕ) (current : ℤ)
      (o : Option ℤ)
      → (RoundingGap f project exposure limit current o → G)
      → Carries
          (limit_exposure f r project exposure limit current o).0
          o
          (limit_exposure f r project exposure limit current o).1
  unfolding validate_semantics
  exposure-Carries r project exposure limit current none gap = (refl, inl (inl (refl, refl)))
  exposure-Carries r project none limit current (some t) gap = gate-Carries r false (some t)
  exposure-Carries r project (some e) limit current (some t) gap =
      let ok = leb_ℤ (project e current t) (pos limit) in
      let room = headroom f e limit current in
      elim (Bool-cases ok) [
        | inr over ↦ lower-Carries r ok t room (λ y. absurd (ground (arith, y, over)))
        | inl within ↦ elim (Bool-cases (leb_ℤ t room)) [
          | inl fits ↦ lower-Carries r ok t room (λ y. ground (arith, fits))
          | inr less ↦ (
            lower-semantics r ok t room,
            inr (gap (e, t, refl, refl, within, ground (arith, less))),
          )
        ]
      ]

  group-Carries :
      (r : RuleId) (group : Option ℕ) (weights : ℕ → Option ℤ) (limit : ℕ) (o : Option ℤ)
      → Carries
          (limit_group f r group weights limit o).0
          o
          (limit_group f r group weights limit o).1
  group-Carries r group weights limit none = no_limit-Carries r none
  group-Carries r group weights limit (some t) =
      let allowed = max_ℤ (pos 0) (f.minus (pos limit) (weight_of weights (or_default group 0))) in
      elim (Bool-cases (is_truthy group)) [
        | inl y ↦
            rw (limit_group, y)
              (lower-Carries r (leb_ℤ t allowed) t allowed (λ e. ground (arith, e)))
        | inr n ↦ rw (limit_group, n) (no_limit-Carries r (some t))
      ]

  drawdown-Carries :
      (p : ProposalV2) (c : PolicyContext) (l : PolicyLimits) (o : Option ℤ)
      → Carries (limit_drawdown f p c l o).0 o (limit_drawdown f p c l o).1
  unfolding limit_drawdown
  drawdown-Carries p c l none = no_limit-Carries RuleId.drawdown_mode none
  drawdown-Carries p c l (some t) =
      let allowed = drawdown_cap f l in
      elim (Bool-cases c.portfolio_drawdown_mode) [
        | inl y ↦
            rw (limit_drawdown, y)
              (lower-Carries RuleId.drawdown_mode (leb_ℤ t allowed) t allowed
                (λ e. ground (arith, e)))
        | inr n ↦ rw (limit_drawdown, n) (no_limit-Carries RuleId.drawdown_mode (some t))
      ]

  -- The check of the factor coverage, by whether it is required and whether it is enough.
  coverage-Carries :
      (required ok : Bool) (o : Option ℤ)
      → Carries
          (if required then gate RuleId.factor_coverage ok else record {
            rule_id = RuleId.factor_coverage;
            passed = true;
            severity = if ok then Severity.info else Severity.warn;
            adjusted_value = none;
          })
          o
          o
  unfolding validate_semantics
  coverage-Carries true ok o = gate-Carries RuleId.factor_coverage ok o
  coverage-Carries false true o = (refl, inl (inl (refl, refl)))
  coverage-Carries false false o = (refl, inl (inl (refl, refl)))

  factor-Carries :
      (c : PolicyContext) (l : PolicyLimits) (o : Option ℤ) → Carries (check_factor c l) o o
  unfolding check_factor
  factor-Carries c l o =
      coverage-Carries (factor_required c)
        (elim (factor_value c) [ none ↦ false | some v ↦ leb l.min_factor_coverage v ]) o

  -- The whole trace takes the target of the proposal to the one handed back.
  checks-Trace :
      (p : ProposalV2) (c : PolicyContext) (l : PolicyLimits)
      → (GrossGap f p c l → G)
      → (NetGap f p c l → G)
      → Trace
          (evaluate_v2_checks f p c l).0
          (v2_target f p (current_weight p c))
          (evaluate_v2_checks f p c l).1
  unfolding evaluate_v2_checks limit_gross limit_net limit_industry limit_theme
  checks-Trace p c l gross net =
      let actionable = is_some (v2_target f p (current_weight p c)) in
      check (position-Carries p c l _) (
        check
          (exposure-Carries RuleId.portfolio_gross_limit (projected_gross f) c.gross_exposure
            l.portfolio_gross_limit (current_weight p c) _ gross)
          (check
            (exposure-Carries RuleId.portfolio_net_limit (projected_net f) c.net_exposure
              l.portfolio_net_limit (current_weight p c) _ net)
            (check
              (group-Carries RuleId.industry_exposure (c.subject_sectors (key_of p))
                c.industry_weights l.industry_exposure_limit _)
              (check
                (group-Carries RuleId.theme_exposure (c.subject_themes (key_of p)) c.theme_weights
                  l.theme_exposure_limit _)
                (check (gate-Carries RuleId.liquidity (liquidity_pass p c) _) (
                  check (drawdown-Carries p c l _) (
                    check (gate-Carries RuleId.restricted_universe (not (is_restricted p c)) _) (
                      check (gate-Carries RuleId.st_suspension (state_pass p c) _) (
                        check (gate-Carries RuleId.minimum_evidence (evidence_ok p c l) _) (
                          check
                            (gate-Carries RuleId.minimum_confidence
                              (leb l.min_confidence p.confidence) _)
                            (check (factor-Carries c l _) (
                              check
                                (gate-Carries RuleId.dependency_health
                                  (dependencies_ok actionable c) _)
                                (check
                                  (gate-Carries RuleId.evidence_freshness
                                    (evidence_fresh_ok actionable p c l) _)
                                  (check
                                    (gate-Carries RuleId.portfolio_snapshot_freshness
                                      (portfolio_ok actionable c l) _)
                                    (check (gate-Carries RuleId.risk_veto (not c.risk_veto) _)
                                      (ended))))))))))))))))

  Trace-validate_all :
      (ks : List PolicyCheckResult) (a b : Option ℤ) → Trace ks a b → validate_all ks ≡ true
  unfolding validate_all
  Trace-validate_all [] a b ended = refl
  Trace-validate_all (k ∷ ks) a c (check s rest) =
      let tail = Trace-validate_all ks _ c rest in let head = s.0 in ground (arith, head, tail)

  same_value_refl : (o : Option ℤ) → same_value o o ≡ true
  same_value_refl none = refl
  same_value_refl (some v) = ground arith

  -- The last adjustment of a trace has the last target; without one the target never changed.
  abbrev EndsWith : Option PolicyCheckResult → Option ℤ → Option ℤ → Type 0
  EndsWith none a b = b ≡ a
  EndsWith (some k) a b = k.adjusted_value ≡ b

  add-EndsWith :
      (k : PolicyCheckResult) (last : Option PolicyCheckResult) (a b c : Option ℤ)
      → Kept k a b
      → EndsWith last b c
      → EndsWith (elim last [ some x ↦ some x | none ↦ if adjusts k then some k else none ]) a c
  add-EndsWith k (some x) a b c s h = h
  add-EndsWith k none a b c s h = elim s [
    | inl (kept, same) ↦ rw kept (h ∙ same)
    | inr (lowered, value) ↦ rw lowered (value ∙ sym h)
  ]

  Trace-last :
      (ks : List PolicyCheckResult) (a b : Option ℤ)
      → Trace ks a b
      → EndsWith (last_adjustment ks) a b ⊎ G
  unfolding last_adjustment
  Trace-last [] a b ended = inl refl
  Trace-last (k ∷ ks) a c (check s rest) = elim (Trace-last ks _ c rest) [
    | inr g ↦ inr g
    | inl h ↦ elim s.1 [
      | inr g ↦ inr g
      | inl kept ↦ inl (add-EndsWith k (last_adjustment ks) a _ c kept h)
    ]
  ]

  EndsWith-keeps :
      (last : Option PolicyCheckResult) (a b : Option ℤ)
      → EndsWith last a b
      → keeps_adjustment last b ≡ true
  EndsWith-keeps none a b h = refl
  EndsWith-keeps (some k) a b h = rw h (same_value_refl b)

checks-is_trace :
    (f : Arithmetic) (p : ProposalV2) (c : PolicyContext) (l : PolicyLimits)
    → is_trace (evaluate_v2_checks f p c l).0 ≡ true
unfolding evaluate_v2_checks
checks-is_trace f p c l = refl

approved-has_reject : (rejected valid : Bool) → ((not rejected && valid) && rejected) ≡ false
approved-has_reject true valid = refl
approved-has_reject false true = refl
approved-has_reject false false = refl

pub evaluate_v2_accepted :
    (f : Arithmetic) (p : ProposalV2) (c : PolicyContext) (l : PolicyLimits)
    → (validate_all (evaluate_v2 f p c l).trace ≡ true)
      × ((validate_trace (evaluate_v2 f p c l) ≡ true) ⊎ (GrossGap f p c l ⊎ NetGap f p c l))
unfolding evaluate_v2 validate_trace
evaluate_v2_accepted f p c l =
    let checked = evaluate_v2_checks f p c l in
    let start = v2_target f p (current_weight p c) in
    let G = GrossGap f p c l ⊎ NetGap f p c l in
    let steps = checks-Trace f G p c l (λ g. inl g) (λ g. inr g) in
    (
      Trace-validate_all f G checked.0 start checked.1 steps,
      elim (Trace-last f G checked.0 start checked.1 steps) [
        | inr g ↦ inr g
        | inl h ↦
            let last = EndsWith-keeps f G (last_adjustment checked.0) start checked.1 h in
            inl (
              rw
                (
                  checks-is_trace f p c l,
                  approved-has_reject (has_reject checked.0) (weight_valid p checked.1),
                  last,
                )
                refl)
      ],
    )

-- Arithmetic that does not round sums.
pub record IsExact (f : Arithmetic) : Type 0 where
  pub sums : (a b : ℤ) → f.plus a b ≡ a +ℤ b
  pub differences : (a b : ℤ) → f.minus a b ≡ a -ℤ b

-- Without rounding a target within the limit beside the other holdings is within the headroom.
gross_fits :
    (e current t : ℤ) (limit : ℕ)
    → leb_ℤ ((e -ℤ current) +ℤ t) (pos limit) ≡ true
    → t ≤ℤ max_ℤ (pos 0) (pos limit -ℤ (e -ℤ current))
gross_fits e current t limit h =
    let others = e -ℤ current in
    let sum = +ℤ_parts others t in
    let left = -ℤ_parts (pos limit) others in
    let least = max_ℤ-bounds (pos 0) (pos limit -ℤ others) in ground (arith, h, sum, left, least.1)

net_fits :
    (e current t : ℤ) (limit : ℕ)
    → leb_ℤ ((e +ℤ t) -ℤ current) (pos limit) ≡ true
    → t ≤ℤ max_ℤ (pos 0) (pos limit -ℤ (e -ℤ current))
net_fits e current t limit h =
    let others = e -ℤ current in
    let sum = +ℤ_parts e t in
    let projected = -ℤ_parts (e +ℤ t) current in
    let held = -ℤ_parts e current in
    let left = -ℤ_parts (pos limit) others in
    let least = max_ℤ-bounds (pos 0) (pos limit -ℤ others) in
    ground (arith, h, sum, projected, held, left, least.1)

module _ (f : Arithmetic) (exact : IsExact f) (limit : ℕ) (current : ℤ) where
  headroom_exact :
      (e : ℤ) → headroom f e limit current ≡ max_ℤ (pos 0) (pos limit -ℤ (e -ℤ current))
  headroom_exact e =
      rw (exact.differences e current, exact.differences (pos limit) (e -ℤ current)) refl

  gross_exact : (e t : ℤ) → projected_gross f e current t ≡ (e -ℤ current) +ℤ t
  gross_exact e t = ap (λ x. f.plus x t) (exact.differences e current) ∙ exact.sums (e -ℤ current) t

  net_exact : (e t : ℤ) → projected_net f e current t ≡ (e +ℤ t) -ℤ current
  net_exact e t = ap (λ x. f.minus x current) (exact.sums e t) ∙ exact.differences (e +ℤ t) current

  no_gross_gap :
      (exposure target : Option ℤ)
      → RoundingGap f (projected_gross f) exposure limit current target
      → ⊥
  no_gross_gap exposure target (e, t, x, y, within, less) =
      let h : leb_ℤ ((e -ℤ current) +ℤ t) (pos limit) ≡ true =
        subst (λ x. leb_ℤ x (pos limit) ≡ true) (gross_exact e t) within in
      let fits = gross_fits e current t limit h in
      let less' : max_ℤ (pos 0) (pos limit -ℤ (e -ℤ current)) <ℤ t =
        subst (λ x. x <ℤ t) (headroom_exact e) less in
      omega arith

  no_net_gap :
      (exposure target : Option ℤ)
      → RoundingGap f (projected_net f) exposure limit current target
      → ⊥
  no_net_gap exposure target (e, t, x, y, within, less) =
      let h : leb_ℤ ((e +ℤ t) -ℤ current) (pos limit) ≡ true =
        subst (λ x. leb_ℤ x (pos limit) ≡ true) (net_exact e t) within in
      let fits = net_fits e current t limit h in
      let less' : max_ℤ (pos 0) (pos limit -ℤ (e -ℤ current)) <ℤ t =
        subst (λ x. x <ℤ t) (headroom_exact e) less in
      omega arith

-- With sums that are not rounded the validator accepts every evaluation.
pub exact_accepted :
    (f : Arithmetic) (p : ProposalV2) (c : PolicyContext) (l : PolicyLimits)
    → IsExact f
    → validate_trace (evaluate_v2 f p c l) ≡ true
exact_accepted f p c l exact = elim (evaluate_v2_accepted f p c l).1 [
  | inl ok ↦ ok
  | inr (inl g) ↦ absurd (no_gross_gap f exact l.portfolio_gross_limit (current_weight p c) _ _ g)
  | inr (inr g) ↦ absurd (no_net_gap f exact l.portfolio_net_limit (current_weight p c) _ _ g)
]
