-- ===== src/Conclusion/Evolution.antt =====
-- What holds of every run of the conclusion service after any interleaving of its operations.
use stock_agent.Base.{
  ℕ, ◌≤◌, ◌≡◌, sym, ap, ◌∙◌, subst, inl, inr, true, some, [], ◌∷◌, ◌++◌, arith, ◌==◌, Bool-cases,
}
use stock_agent.Base.Rows.{get_row, get_row-append_old, get_row-append_inv}
use stock_agent.Runs.Knowledge.{FrozenBundle, KnowledgeConclusionRun, rank, is_terminal}
use stock_agent.Conclusion.Repository.{Store, Hashing, get}
use stock_agent.Conclusion.Service.{Content, plan}
use stock_agent.Conclusion.Growth.{Grows, IsConsistent, plan-Fits}
use stock_agent.Conclusion.Write.{UniqueIds, Wrote, execute-Wrote}
use stock_agent.Conclusion.Concurrent.{
  Steps, start, reserved, executed, steps-Later, reserve_run-adds, Wrote-exact,
}

-- A run and what later writes may have made of it.
pub record Evolves (r r' : KnowledgeConclusionRun) : Type 0 where
  pub same_key : r'.idempotency_key ≡ r.idempotency_key
  pub same_raw : r'.raw_request_hash ≡ r.raw_request_hash
  pub same_request : r'.request ≡ r.request
  pub keeps_bundle : (b : FrozenBundle) → r.frozen_bundle ≡ some b → r'.frozen_bundle ≡ some b
  pub forward : rank r.state ≤ rank r'.state
  pub ended : is_terminal r.state ≡ true → r' ≡ r

Evolves-refl : (r : KnowledgeConclusionRun) → Evolves r r
Evolves-refl r = ground arith

Grows-Evolves : (r r' : KnowledgeConclusionRun) → Grows r r' → Evolves r r'
Grows-Evolves r r' g = record {
  same_key = g.same_key;
  same_raw = g.same_raw;
  same_request = g.same_request;
  keeps_bundle = g.keeps_bundle;
  forward = g.forward;
  ended = λ t. ground arith;
}

Evolves-trans : (r s t : KnowledgeConclusionRun) → Evolves r s → Evolves s t → Evolves r t
Evolves-trans r s t p q = record {
  same_key = q.same_key ∙ p.same_key;
  same_raw = q.same_raw ∙ p.same_raw;
  same_request = q.same_request ∙ p.same_request;
  keeps_bundle = λ b e. q.keeps_bundle b (p.keeps_bundle b e);
  forward = omega (arith, p.forward, q.forward);
  ended = λ e.
      let same = p.ended e in q.ended (subst (λ x. is_terminal x.state ≡ true) (sym same) e) ∙ same;
}

abbrev pub AllEvolve : Store → Store → Type 0
AllEvolve s s' =
    (k : ℕ) (r : KnowledgeConclusionRun)
    → get k s ≡ some r
    → (r' : KnowledgeConclusionRun) × (get k s' ≡ some r') × Evolves r r'

abbrev pub AllConsistent : Hashing → Store → Type 0
AllConsistent h s = (k : ℕ) (r : KnowledgeConclusionRun) → get k s ≡ some r → IsConsistent h r

AllEvolve-trans : (s t u : Store) → AllEvolve s t → AllEvolve t u → AllEvolve s u
AllEvolve-trans s t u p q k r e =
    let (r1, e1, v1) = p k r e in
    let (r2, e2, v2) = q k r1 e1 in (r2, e2, Evolves-trans r r1 r2 v1 v2)

module _ (h : Hashing) (content : Content) where
  appended :
      (r : KnowledgeConclusionRun) (s s' : Store)
      → s'.runs ≡ s.runs ++ r ∷ []
      → IsConsistent h r
      → AllEvolve s s' × (AllConsistent h s → AllConsistent h s')
  appended r s s' runs fine =
      let key = KnowledgeConclusionRun.conclusion_id in
      (
        (λ k x e.
            (x, ap (get_row key k) runs ∙ get_row-append_old key k s.runs r e, Evolves-refl x)),
        (λ all k x e. elim (get_row-append_inv key k s.runs r (sym (ap (get_row key k) runs) ∙ e)) [
          | inl old ↦ all k x old
          | inr new ↦ subst (IsConsistent h) new fine
        ]),
      )

  -- The row of a write is the run read and becomes the run planned; all others stay.
  Wrote-all :
      (id : ℕ) (r r' : KnowledgeConclusionRun) (s s' : Store)
      → r.conclusion_id ≡ id
      → get id s ≡ some r
      → get id s' ≡ some r'
      → Grows r r'
      → Wrote r r' s s'
      → AllEvolve s s'
        × ((IsConsistent h r → IsConsistent h r') → AllConsistent h s → AllConsistent h s')
  Wrote-all id r r' s s' id_is old new g w = (
    (λ k x e. elim (Bool-cases (k == id)) [
      | inl same ↦
          let here : k ≡ id = ground arith in
          let is_r : r ≡ x =
            let both : some r ≡ some x = sym old ∙ ap (λ i. get i s) (sym here) ∙ e in cc in
          (r', ap (λ i. get i s') here ∙ new, subst (λ y. Evolves y r') is_r (Grows-Evolves r r' g))
      | inr ne ↦ (x, w.others k (λ p. ground arith) ∙ e, Evolves-refl x)
    ]),
    (λ keeps all k x e. elim (Bool-cases (k == id)) [
      | inl same ↦
          let here : k ≡ id = ground arith in
          let is_r : r' ≡ x =
            let both : some r' ≡ some x = sym new ∙ ap (λ i. get i s') (sym here) ∙ e in cc in
          subst (IsConsistent h) is_r (keeps (all id r old))
      | inr ne ↦ all k x (sym (w.others k (λ p. ground arith)) ∙ e)
    ]),
  )

  -- From a store with unique ids whose runs are consistent, whatever the workers do, every run
  -- stays consistent, keeps its request and its frozen bundle, never goes back, and once it has
  -- succeeded or failed it never changes again.
  pub runs_evolve :
      (s s' : Store)
      → Steps h content s s'
      → UniqueIds s
      → AllConsistent h s
      → AllEvolve s s' × AllConsistent h s'
  runs_evolve _ _ (start s) u all = ((λ k r e. (r, e, Evolves-refl r)), all)
  runs_evolve _ _ (reserved now new_id key pv q m s s' s'' a st fresh e) u all =
      let (l, all') = runs_evolve s s' st u all in
      elim (reserve_run-adds h content now new_id key pv q m s' s'' a e) [
        | inl same ↦ subst (λ x. AllEvolve s x × AllConsistent h x) (sym same) (l, all')
        | inr (r, id_is, fine, runs) ↦
            let (evolve, consistent) = appended r s' s'' runs fine in
            (AllEvolve-trans s s' s'' l evolve, consistent all')
      ]
  runs_evolve _ _ (executed now c id r s read s' s'' a st st' found e) u all =
      let (l1, all1) = runs_evolve s read st u all in
      let u1 = (steps-Later h content s read st u).0 in
      let (l2, all2) = runs_evolve read s' st' u1 all1 in
      let u2 = (steps-Later h content read s' st' u1).0 in
      let l = AllEvolve-trans s read s' l1 l2 in
      elim (execute-Wrote h r (plan h content now c r) s' s'' a (plan-Fits h content now c r) u2
        e) [
          | inl same ↦ subst (λ x. AllEvolve s x × AllConsistent h x) (sym same) (l, all2)
          | inr (r', g, keeps, w) ↦
              let (id_is, old, new) = Wrote-exact h content id r r' read s' s'' st' u1 found w in
              let (evolve, consistent) = Wrote-all id r r' s' s'' id_is old new g w in
              (AllEvolve-trans s s' s'' l evolve, consistent keeps all2)
        ]
