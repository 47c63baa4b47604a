-- ===== src/Policy/SecondSafety.antt =====
-- What the second generation of engines/policy/rules.py and engine.py lets through.
use stock_agent.Base.{
  ℕ, ltb, List, [], ◌∷◌, or_default, Option-cases, inl, inr, ◌≡◌, refl, ◌≤◌, Bool, true, false, not,
  ◌&&◌, ◌||◌, Option, none, some, length, All, is_some, arith, sym, ◌∙◌, ap,
}
use stock_agent.Base.Int.{ℤ, ◌≤ℤ◌}
use stock_agent.Policy.Model.{
  Arithmetic, ProposalV2, PolicyContext, PolicyLimits, Health, healthy, unhealthy,
}
use stock_agent.Policy.Second.{
  RuleId, v2_target, gate, current_weight, key_of, evaluate_v2_checks, evaluate_v2, is_reject,
  liquidity_pass, state_pass, evidence_ok, dependencies_ok, evidence_fresh_ok, portfolio_ok,
  is_restricted, security_actionable, status_of, quant, is_true, unhealthy_status, nowhere,
  is_unhealthy, skill_required, check_factor, factor_required, factor_value,
}
use stock_agent.Policy.SecondLimits.{FitsLimits, limits_hold, approved-All}

module _ (f : Arithmetic) where
  gate-open : (r : RuleId) (b : Bool) → is_reject (gate r b) ≡ false → b ≡ true
  gate-open r true h = refl
  gate-open r false h = absurd (ground arith)

  nowhere-All : (f : ℕ → Bool) (xs : List ℕ) → nowhere f xs ≡ true → All (λ x. f x ≡ false) xs
  nowhere-All f [] h = tt
  nowhere-All f (x ∷ xs) h = (ground arith, nowhere-All f xs (ground arith))

  All-map : {A B : ℕ → Type 0} (xs : List ℕ) → ((x : ℕ) → A x → B x) → All A xs → All B xs
  All-map [] g h = tt
  All-map (x ∷ xs) g (h, hs) = (g x h, All-map xs g hs)

  -- Enough references, and every required domain covered.
  abbrev pub HasEvidence : ProposalV2 → PolicyContext → PolicyLimits → Type 0
  HasEvidence p c l =
      (l.min_evidence_count ≤ length p.evidence_refs)
      × All (λ d. l.min_domain_coverage ≤ or_default (c.domain_coverage d) 0) c.required_domains

  enough_evidence :
      (p : ProposalV2) (c : PolicyContext) (l : PolicyLimits)
      → evidence_ok p c l ≡ true
      → HasEvidence p c l
  unfolding evidence_ok
  enough_evidence p c l h = (
    ground arith,
    All-map c.required_domains (λ d m. ground (arith, m))
        (nowhere-All (λ d. ltb (or_default (c.domain_coverage d) 0) l.min_domain_coverage)
          c.required_domains (ground arith)),
  )

  known_true :
      (s : Bool) (o : Option Bool)
      → s ≡ true
      → (not s || (is_some o && is_true o)) ≡ true
      → o ≡ some true
  known_true s (some true) a h = refl
  known_true s (some false) a h = absurd (ground (arith, a))
  known_true s none a h = absurd (ground (arith, a))

  known_false :
      (s : Bool) (o q : Option Bool)
      → s ≡ true
      → ((not s || (is_some o && is_some q)) && not (s && (is_true o || is_true q))) ≡ true
      → (o ≡ some false) × (q ≡ some false)
  known_false s (some false) (some false) a h = (refl, refl)
  known_false s (some false) (some true) a h = absurd (ground (arith, a))
  known_false s (some false) none a h = absurd (ground (arith, a))
  known_false s (some true) q a h = absurd (ground (arith, a))
  known_false s none q a h = absurd (ground (arith, a))

  healthy_of : (o : Option Health) → unhealthy_status o ≡ false → o ≡ some healthy
  healthy_of (some healthy) h = refl
  healthy_of (some unhealthy) h = absurd (ground arith)
  healthy_of none h = absurd (ground arith)

  known_liquid :
      (p : ProposalV2) (c : PolicyContext)
      → security_actionable p ≡ true
      → liquidity_pass p c ≡ true
      → c.liquidity_ok (key_of p) ≡ some true
  unfolding liquidity_pass
  known_liquid p c a h = known_true (security_actionable p) (c.liquidity_ok (key_of p)) a h

  known_tradable :
      (p : ProposalV2) (c : PolicyContext)
      → security_actionable p ≡ true
      → state_pass p c ≡ true
      → (c.security_is_st (key_of p) ≡ some false)
        × (c.security_is_suspended (key_of p) ≡ some false)
  unfolding state_pass
  known_tradable p c a h =
      known_false (security_actionable p) (c.security_is_st (key_of p))
        (c.security_is_suspended (key_of p)) a h

  -- Every dependency that an actionable proposal needs: the quant system, and those that the
  -- context requires.
  required_healthy :
      (c : PolicyContext)
      → dependencies_ok true c ≡ true
      → All (λ k. status_of c k ≡ some healthy) (quant ∷ skill_required c)
  unfolding dependencies_ok
  required_healthy c h =
      All-map (quant ∷ skill_required c) (λ k m. healthy_of (status_of c k) m)
        (nowhere-All (is_unhealthy c) (quant ∷ skill_required c) (ground arith))

  -- A factor coverage that is required is known and reaches its minimum.
  abbrev pub HasFactors : PolicyContext → PolicyLimits → Type 0
  HasFactors c l =
      factor_required c ≡ true → (v : ℕ) × (factor_value c ≡ some v) × (l.min_factor_coverage ≤ v)

  factors_known :
      (c : PolicyContext) (l : PolicyLimits) → is_reject (check_factor c l) ≡ false → HasFactors c l
  unfolding check_factor
  factors_known c l h required = elim (Option-cases (factor_value c)) [
    | inl n ↦ absurd (ground (arith, required, n))
    | inr (v, e) ↦ (v, e, ground (arith, required, e))
  ]

  -- An opening or an increase is of a security known to be liquid, not ST and not suspended.
  abbrev pub IsTradable : ProposalV2 → PolicyContext → Type 0
  IsTradable p c =
      security_actionable p ≡ true
      → (c.liquidity_ok (key_of p) ≡ some true)
        × (c.security_is_st (key_of p) ≡ some false)
        × (c.security_is_suspended (key_of p) ≡ some false)

  tradable :
      (p : ProposalV2) (c : PolicyContext)
      → liquidity_pass p c ≡ true
      → state_pass p c ≡ true
      → IsTradable p c
  tradable p c liquid state a =
      let (st, suspended) = known_tradable p c a state in (known_liquid p c a liquid, st, suspended)

  -- What the blocking checks ask of an actionable proposal, all of them.
  abbrev pub PassesGates : ProposalV2 → PolicyContext → PolicyLimits → Type 0
  PassesGates p c l =
      IsTradable p c
      × (is_restricted p c ≡ false)
      × HasEvidence p c l
      × (l.min_confidence ≤ p.confidence)
      × HasFactors c l
      × All (λ k. status_of c k ≡ some healthy) (quant ∷ skill_required c)
      × (evidence_fresh_ok true p c l ≡ true)
      × (portfolio_ok true c l ≡ true)
      × (c.risk_veto ≡ false)

  gates_pass :
      (p : ProposalV2) (c : PolicyContext) (l : PolicyLimits)
      → is_some (v2_target f p (current_weight p c)) ≡ true
      → All (λ k. is_reject k ≡ false) (evaluate_v2_checks f p c l).0
      → PassesGates p c l
  unfolding evaluate_v2_checks
  gates_pass p c l s
        (_, (_, (_, (_, (_, (q, (_, (r, (t, (e, (m, (k, (d, (g, (o, (v, _)))))))))))))))) =
      let actionable = is_some (v2_target f p (current_weight p c)) in
      (
        tradable p c (gate-open RuleId.liquidity (liquidity_pass p c) q)
            (gate-open RuleId.st_suspension (state_pass p c) t),
        ground (arith, r),
        enough_evidence p c l (gate-open RuleId.minimum_evidence (evidence_ok p c l) e),
        ground arith,
        factors_known c l k,
        required_healthy c (
            sym (ap (λ b. dependencies_ok b c) s)
            ∙ gate-open RuleId.dependency_health (dependencies_ok actionable c) d),
        sym (ap (λ b. evidence_fresh_ok b p c l) s)
            ∙ gate-open RuleId.evidence_freshness (evidence_fresh_ok actionable p c l) g,
        sym (ap (λ b. portfolio_ok b c l) s)
            ∙ gate-open RuleId.portfolio_snapshot_freshness (portfolio_ok actionable c l) o,
        ground arith,
      )

  -- An approval is safe. When the engine approves a proposal that asks for a target, the value it
  -- hands back is a target no higher than the one asked for; it is within the single position limit,
  -- within the gross and the net headroom, both of which are then known, within the room of the
  -- subject's industry and theme, and within the lower cap in drawdown mode. All blocking checks
  -- pass: an opening or increase is of a security known to be liquid, not ST and not suspended; the
  -- subject is not restricted; the references and the confidence reach their minimum and every
  -- required domain its coverage; a required factor coverage is known and reaches its minimum; the
  -- quant system and every required dependency are healthy; the evidence and the portfolio snapshot
  -- pass their freshness tests; and there is no risk veto.
  pub approved_v2_is_safe :
      (p : ProposalV2) (c : PolicyContext) (l : PolicyLimits) (t : ℤ)
      → v2_target f p (current_weight p c) ≡ some t
      → (evaluate_v2 f p c l).approved ≡ true
      → ((w : ℤ) × ((evaluate_v2 f p c l).final_value ≡ some w) × (w ≤ℤ t) × FitsLimits f p c l w)
        × PassesGates p c l
  unfolding evaluate_v2
  approved_v2_is_safe p c l t e h =
      let passed = approved-All f p c l h in
      (limits_hold f p c l t e passed, gates_pass p c l (rw e refl) passed)
