-- ===== src/Regime/Switch.antt =====
-- When the confirmed regime changes.
use stock_agent.Base.{
  ℕ, ◌+◌, ◌≤◌, ◌<◌, ◌≡◌, refl, sym, ap, ◌∙◌, subst, ◌≢◌, ◌⊎◌, true, false, inl, inr, Option, none,
  some, List, [], ◌∷◌, arith, Bool-cases, length,
}
use stock_agent.Regime.{
  Regime, Machine, RegimeState, Store, Entry, Signal, advance, advance_from, challenge,
  count_candidate, may_switch, same_regime, same_option, on_date, new_day, code, confidence_covers,
  or_one,
}
use stock_agent.Regime.History.{advance_all, counted_kept}

-- The regime that is confirmed, by its code.
abbrev pub confirmed : Store → Option ℕ
confirmed store = elim store.state [ none ↦ none | some s ↦ some (code s.confirmed_regime) ]

-- A second call on the same date, whatever it says, leaves the confirmed regime, the candidate,
-- its days and the history as they are.
pub same_day_changes_nothing :
    (m : Machine) (g : Signal) (store : Store) (s : RegimeState)
    → store.state ≡ some s
    → s.last_evaluated_date ≡ some g.trade_date
    → let store' = (advance m g store).0 in
      (confirmed store' ≡ confirmed store)
      × (store'.history ≡ store.history)
      × ((advance m g store).1.switched ≡ false)
      × ((s' : RegimeState)
          → store'.state ≡ some s'
          → (s'.candidate_regime ≡ s.candidate_regime)
            × (s'.candidate_days ≡ s.candidate_days)
            × (s'.confirmed_days ≡ s.confirmed_days)
            × (s'.confidence ≡ s.confidence))
unfolding advance advance_from
same_day_changes_nothing m g store s e d =
    (ground arith, ground arith, ground arith, λ s' e'. ground arith)

-- What the switch to a candidate rests on, read off the state before the call.
pub record Warrants (m : Machine) (g : Signal) (s : RegimeState) : Type 0 where
  pub new_date : s.last_evaluated_date ≢ some g.trade_date
  pub differs : code g.candidate ≢ code s.confirmed_regime
  pub enough_days :
      m.confirmation_days g.candidate ≤ (count_candidate g (new_day g s)).candidate_days
  pub strong :
      (m.emergency_regimes g.candidate ≡ true)
      ⊎ ((m.min_days_in_regime ≤ or_one s.confirmed_days + 1)
          × (confidence_covers m.switch_confidence_gap g.confidence s.confidence ≡ true))

strong_of :
    (m : Machine) (g : Signal) (s : RegimeState)
    → may_switch m g (count_candidate g (new_day g s)) ≡ true
    → (m.emergency_regimes g.candidate ≡ true)
      ⊎ ((m.min_days_in_regime ≤ or_one s.confirmed_days + 1)
          × (confidence_covers m.switch_confidence_gap g.confidence s.confidence ≡ true))
unfolding may_switch
strong_of m g s t =
    let k = counted_kept g (new_day g s) in
    elim (Bool-cases (m.emergency_regimes g.candidate)) [
      | inl e ↦ inl e
      | inr e ↦ inr (ground arith)
    ]

days_of :
    (m : Machine) (g : Signal) (s : RegimeState)
    → may_switch m g s ≡ true
    → m.confirmation_days g.candidate ≤ s.candidate_days
unfolding may_switch
days_of m g s t = ground arith

challenge_keeps :
    (m : Machine) (g : Signal) (s : RegimeState) (h : List Entry)
    → may_switch m g (count_candidate g s) ≡ false
    → (confirmed (challenge m g s h).0 ≡ some (code s.confirmed_regime))
      × ((challenge m g s h).1.switched ≡ false)
unfolding challenge
challenge_keeps m g s h f = rw (f, challenge) (ap (λ r. some (code r)) (counted_kept g s).0, refl)

challenge_switches :
    (m : Machine) (g : Signal) (s : RegimeState) (h : List Entry)
    → may_switch m g (count_candidate g s) ≡ true
    → (confirmed (challenge m g s h).0 ≡ some (code g.candidate))
      × ((challenge m g s h).1.switched ≡ true)
unfolding challenge
challenge_switches m g s h t = rw (t, challenge) (refl, refl)

-- A call of `advance` on a market that has a state either keeps the confirmed regime and says so,
-- or confirms the candidate, says so, and the rules of the switch warranted it.
pub advance_cases :
    (m : Machine) (g : Signal) (store : Store) (s : RegimeState)
    → store.state ≡ some s
    → ((confirmed (advance m g store).0 ≡ confirmed store)
        × ((advance m g store).1.switched ≡ false))
      ⊎ ((confirmed (advance m g store).0 ≡ some (code g.candidate))
          × ((advance m g store).1.switched ≡ true)
          × Warrants m g s)
unfolding advance advance_from
advance_cases m g store s e = elim (Bool-cases (on_date s.last_evaluated_date g.trade_date)) [
  | inl t ↦ inl (ground arith)
  | inr f ↦ elim (Bool-cases (same_regime g.candidate s.confirmed_regime)) [
    | inl t ↦ inl (ground arith)
    | inr f' ↦ elim (Bool-cases (may_switch m g (count_candidate g (new_day g s)))) [
      | inr f'' ↦ inl (
          rw (e, advance)
            (rw (f, f', advance_from) (challenge_keeps m g (new_day g s) store.history f'')))
      | inl t ↦
          let sw = challenge_switches m g (new_day g s) store.history t in
          let w : Warrants m g s = record {
            new_date = λ d. ground arith;
            differs = λ d. ground arith;
            enough_days = days_of m g (count_candidate g (new_day g s)) t;
            strong = strong_of m g s t;
          } in
          inr (rw (e, advance) (rw (f, f', advance_from) (sw.0, sw.1, w)))
    ]
  ]
]

code-injective : (a b : Regime) → code a ≡ code b → a ≡ b
code-injective a b e = ground arith

-- A regime that is not confirmed, and has been the candidate for at most `n` days.
data Behind (c : Regime) (n : ℕ) (store : Store) : Type 0 where
  behind :
      (s : RegimeState)
      → store.state ≡ some s
      → code s.confirmed_regime ≢ code c
      → (same_option s.candidate_regime c ≡ true → s.candidate_days ≤ n)
      → Behind c n store

counted_at_most :
    (c : Regime) (n : ℕ) (g : Signal) (s : RegimeState)
    → (same_option s.candidate_regime c ≡ true → s.candidate_days ≤ n)
    → (same_option (count_candidate g s).candidate_regime c ≡ true
        → (count_candidate g s).candidate_days ≤ n + 1)
unfolding count_candidate
counted_at_most c n g s h t = ground arith

counted_is :
    (g : Signal) (s : RegimeState)
    → same_option (count_candidate g s).candidate_regime g.candidate ≡ true
unfolding count_candidate
counted_is g s = ground arith

challenge-Behind :
    (m : Machine) (c : Regime) (n : ℕ) (g : Signal) (s : RegimeState) (h : List Entry)
    → n + 1 < m.confirmation_days c
    → code s.confirmed_regime ≢ code c
    → (same_option s.candidate_regime c ≡ true → s.candidate_days ≤ n)
    → Behind c (n + 1) (challenge m g s h).0
unfolding challenge
challenge-Behind m c n g s h short other few =
    let counts = counted_at_most c n g s few in
    elim (Bool-cases (may_switch m g (count_candidate g s))) [
      | inr f ↦
          rw (f, challenge)
            (behind _ refl (λ x. other (sym (ap code (counted_kept g s).0) ∙ x)) counts)
      | inl t ↦
          let enough = days_of m g (count_candidate g s) t in
          rw (t, challenge)
            (behind _ refl
              (λ x.
                let is_c : g.candidate ≡ c = code-injective g.candidate c x in
                absurd (too_few is_c enough counts))
              (λ x. absurd (cc x)))
    ]
  where
    too_few :
        g.candidate ≡ c
        → m.confirmation_days g.candidate ≤ (count_candidate g s).candidate_days
        → (same_option (count_candidate g s).candidate_regime c ≡ true
            → (count_candidate g s).candidate_days ≤ n + 1)
        → ⊥
    too_few is_c enough counts =
        let same : same_option (count_candidate g s).candidate_regime c ≡ true =
          subst (λ r. same_option (count_candidate g s).candidate_regime r ≡ true) is_c
            (counted_is g s) in
        let days : m.confirmation_days c ≤ (count_candidate g s).candidate_days =
          subst (λ r. m.confirmation_days r ≤ (count_candidate g s).candidate_days) is_c enough in
        omega (arith, counts same)

advance-Behind :
    (m : Machine) (c : Regime) (n : ℕ) (g : Signal) (store : Store)
    → n + 1 < m.confirmation_days c
    → Behind c n store
    → Behind c (n + 1) (advance m g store).0
unfolding advance advance_from
advance-Behind m c n g store short (behind s e other few) =
    elim (Bool-cases (on_date s.last_evaluated_date g.trade_date)) [
      | inl t ↦
          rw (e, advance) (rw (t, advance_from) (behind _ refl other (λ x. omega (arith, few x))))
      | inr f ↦ elim (Bool-cases (same_regime g.candidate s.confirmed_regime)) [
        | inl t ↦
            rw (e, advance) (rw (f, t, advance_from) (behind _ refl other (λ x. absurd (cc x))))
        | inr f' ↦
            rw (e, advance)
              (rw (f, f', advance_from)
                (challenge-Behind m c n g (new_day g s) store.history short other few))
      ]
    ]

advance_all-Behind :
    (m : Machine) (c : Regime) (n : ℕ) (gs : List Signal) (store : Store)
    → n + length gs < m.confirmation_days c
    → Behind c n store
    → Behind c (n + length gs) (advance_all m gs store)
unfolding advance_all
advance_all-Behind m c n [] store short (behind s e other few) =
    behind s e other (λ x. omega (arith, few x))
advance_all-Behind m c n (g ∷ gs) store short b =
    subst (λ k. Behind c k (advance_all m gs (advance m g store).0)) (omega arith)
      (advance_all-Behind m c (n + 1) gs _ (omega arith)
        (advance-Behind m c n g store (omega arith) b))

Behind-confirmed :
    (c : Regime) (n : ℕ) (store : Store) → Behind c n store → confirmed store ≢ some (code c)
Behind-confirmed c n store (behind s e other few) h = other (ground arith)

-- From a market without a candidate, no row of signals shorter than a regime's confirmation days
-- confirms that regime, not even an emergency one, unless it was confirmed already.
pub needs_confirmation_days :
    (m : Machine) (c : Regime) (gs : List Signal) (store : Store) (s : RegimeState)
    → store.state ≡ some s
    → s.candidate_regime ≡ none
    → code s.confirmed_regime ≢ code c
    → length gs < m.confirmation_days c
    → confirmed (advance_all m gs store) ≢ some (code c)
needs_confirmation_days m c gs store s e idle other short =
    Behind-confirmed c (0 + length gs) (advance_all m gs store)
      (advance_all-Behind m c 0 gs store (omega arith) (behind s e other (λ x. ground arith)))
