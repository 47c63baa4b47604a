-- ===== src/Conclusion/Concurrent.antt =====
-- The operations of the conclusion service interleaved: between the read and the write of one,
-- others may have written.
use stock_agent.Base.{
  ℕ, ◌<◌, ◌≡◌, refl, sym, ap, ◌∙◌, subst, ◌⊎◌, inl, inr, Option, none, some, [], ◌∷◌, ◌++◌, arith,
  ◌==◌, Option-cases, Bool-cases,
}
use stock_agent.Base.Rows.{
  select, get_row-key, get_row-append_old, append-IsUnique, get_row, IsUnique,
}
use stock_agent.Runs.Knowledge.{Request, AuditMetadata, KnowledgeConclusionRun}
use stock_agent.Conclusion.Repository.{Store, Hashing, ok, get, has_key, reserve}
use stock_agent.Conclusion.Service.{Content, Call, plan, execute, reserve_run, call}
use stock_agent.Conclusion.Growth.{IsConsistent, plan-Fits}
use stock_agent.Conclusion.Write.{UniqueIds, Wrote, execute-Wrote}

module _ (h : Hashing) (content : Content) where
  -- What any number of workers can make of a store: one at a time reserves a run under a new id,
  -- or executes a plan that it made from a run read at some earlier point.
  pub data Steps : Store → Store → Type 0 where
    start : (s : Store) → Steps s s
    reserved :
        (now new_id key policy_version : ℕ) (q : Request) (m : Option AuditMetadata)
        (s s' s'' : Store) (a : KnowledgeConclusionRun)
        → Steps s s'
        → get new_id s' ≡ none
        → reserve_run h content now new_id q key policy_version m s' ≡ ok s'' a
        → Steps s s''
    executed :
        (now : ℕ) (c : Call) (id : ℕ) (r : KnowledgeConclusionRun) (s read s' s'' : Store)
        (a : KnowledgeConclusionRun)
        → Steps s read
        → Steps read s'
        → get id read ≡ some r
        → execute h (plan h content now c r) s' ≡ ok s'' a
        → Steps s s''

  -- Every row is still there, as it was or with a later version.
  abbrev pub Later : Store → Store → Type 0
  Later s s' =
      (k : ℕ) (r : KnowledgeConclusionRun)
      → get k s ≡ some r
      → (r' : KnowledgeConclusionRun) × (get k s' ≡ some r') × ((r ≡ r') ⊎ (r.version < r'.version))

  pub reserve_run-adds :
      (now new_id key policy_version : ℕ) (q : Request) (m : Option AuditMetadata) (s s' : Store)
      (a : KnowledgeConclusionRun)
      → reserve_run h content now new_id q key policy_version m s ≡ ok s' a
      → (s' ≡ s)
        ⊎ ((r : KnowledgeConclusionRun) × (r.conclusion_id ≡ new_id)
            × IsConsistent h r
            × (s'.runs ≡ s.runs ++ r ∷ []))
  unfolding reserve_run reserve
  reserve_run-adds now new_id key policy_version q m s s' a e =
      elim (Option-cases (select (has_key key) s.runs)) [
        | inr (old, f) ↦ inl (ground arith)
        | inl f ↦ elim (Bool-cases (content.is_blank key)) [
          | inl b ↦ inl (ground arith)
          | inr b ↦ inr (a, ground arith, ground arith, ground arith)
        ]
      ]

  Later-trans : (s t u : Store) → Later s t → Later t u → Later s u
  Later-trans s t u p q k r e =
      let (r1, e1, c1) = p k r e in let (r2, e2, c2) = q k r1 e1 in (r2, e2, ground arith)

  Wrote-Later : (r r' : KnowledgeConclusionRun) (s s' : Store) → Wrote r r' s s' → Later s s'
  Wrote-Later r r' s s' w k x e = elim (Bool-cases (k == r.conclusion_id)) [
    | inl same ↦
        let here : k ≡ r.conclusion_id = ground arith in
        let x_row : x ≡ w.row =
          let both : some x ≡ some w.row = sym e ∙ ap (λ i. get i s) here ∙ w.found in cc in
        (
          w.after,
          ap (λ i. get i s') here ∙ w.stored,
          inr (rw x_row (rw (w.at_read_version, w.next_version) (omega arith))),
        )
    | inr ne ↦ (x, w.others k (λ h. ground arith) ∙ e, inl refl)
  ]

  appended-Later :
      (r : KnowledgeConclusionRun) (s s' : Store)
      → get r.conclusion_id s ≡ none
      → s'.runs ≡ s.runs ++ r ∷ []
      → UniqueIds s
      → UniqueIds s' × Later s s'
  appended-Later r s s' fresh runs u =
      let key = KnowledgeConclusionRun.conclusion_id in
      (
        subst (IsUnique key) (sym runs) (append-IsUnique key s.runs r u fresh),
        λ k x e. (x, ap (get_row key k) runs ∙ get_row-append_old key k s.runs r e, inl refl),
      )

  -- Whatever the workers do, the ids stay unique and every row is kept, or has a later version.
  pub steps-Later : (s s' : Store) → Steps s s' → UniqueIds s → UniqueIds s' × Later s s'
  steps-Later _ _ (start s) u = (u, λ k r e. (r, e, inl refl))
  steps-Later _ _ (reserved now new_id key pv q m s s' s'' a st fresh e) u =
      let (u', l) = steps-Later s s' st u in
      let grown =
        λ (r : KnowledgeConclusionRun) (id_is : r.conclusion_id ≡ new_id)
            (runs : s''.runs ≡ s'.runs ++ r ∷ []).
          appended-Later r s' s'' (subst (λ i. get i s' ≡ none) (sym id_is) fresh) runs u' in
      elim (reserve_run-adds now new_id key pv q m s' s'' a e) [
        | inl same ↦ subst (λ x. UniqueIds x × Later s x) (sym same) (u', l)
        | inr (r, id_is, ok_r, runs) ↦
            ((grown r id_is runs).0, Later-trans s s' s'' l (grown r id_is runs).1)
      ]
  steps-Later _ _ (executed now c id r s read s' s'' a st st' found e) u =
      let (u1, l1) = steps-Later s read st u in
      let (u2, l2) = steps-Later read s' st' u1 in
      let l = Later-trans s read s' l1 l2 in
      elim (execute-Wrote h r (plan h content now c r) s' s'' a (plan-Fits h content now c r) u2
        e) [
          | inl same ↦ subst (λ x. UniqueIds x × Later s x) (sym same) (u2, l)
          | inr (r', g, keeps, w) ↦ (w.unique, Later-trans s s' s'' l (Wrote-Later r r' s' s'' w))
        ]

  -- A write planned from a run that was read found that very run, and left the planned one.
  pub Wrote-exact :
      (id : ℕ) (r r' : KnowledgeConclusionRun) (read s s' : Store)
      → Steps read s
      → UniqueIds read
      → get id read ≡ some r
      → Wrote r r' s s'
      → (r.conclusion_id ≡ id) × (get id s ≡ some r) × (get id s' ≡ some r')
  Wrote-exact id r r' read s s' st u found w =
      let id_is = get_row-key KnowledgeConclusionRun.conclusion_id id read.runs found in
      let (r1, e1, c) = (steps-Later read s st u).1 id r found in
      let row_is : w.row ≡ r1 =
        let both : some w.row ≡ some r1 = sym w.found ∙ ap (λ i. get i s) id_is ∙ e1 in cc in
      let version : r1.version ≡ r.version = ap (λ x. x.version) (sym row_is) ∙ w.at_read_version in
      let same : r ≡ r1 = elim c [
        | inl p ↦ p
        | inr later ↦ absurd (omega (arith, version, later))
      ] in
      (
        id_is,
        e1 ∙ ap some (sym same),
        ap (λ i. get i s') (sym id_is) ∙ w.stored ∙ ap some (w.exact (row_is ∙ sym same)),
      )

  -- A call whose write goes through after any steps of others since its read has the effect of
  -- the whole call at the moment of the write; otherwise it leaves the store as it is.
  pub write_is_atomic :
      (now : ℕ) (c : Call) (id : ℕ) (r a : KnowledgeConclusionRun) (read s s' : Store)
      → UniqueIds read
      → get id read ≡ some r
      → Steps read s
      → execute h (plan h content now c r) s ≡ ok s' a
      → (s' ≡ s) ⊎ (call h content now c id s ≡ ok s' a)
  unfolding call
  write_is_atomic now c id r a read s s' u found st e =
      let fits = plan-Fits h content now c r in
      let u' = (steps-Later read s st u).0 in
      elim (execute-Wrote h r (plan h content now c r) s s' a fits u' e) [
        | inl same ↦ inl same
        | inr (r', g, keeps, w) ↦
            let now_there = (Wrote-exact id r r' read s s' st u found w).1 in
            inr (rw (now_there, call) e)
      ]
