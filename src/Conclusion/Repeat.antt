-- ===== src/Conclusion/Repeat.antt =====
-- Operations of the conclusion service that are called a second time.
use stock_agent.Base.{
  ℕ, ◌+◌, ◌≤◌, ◌≡◌, refl, sym, ap, ◌∙◌, subst, ◌≢◌, ◌⊎◌, inl, inr, Bool, true, false, ◌||◌, Option,
  none, some, List, [], ◌∷◌, ◌++◌, arith, length, Option-cases,
}
use stock_agent.Base.Rows.{select, get_row-key}
use stock_agent.Runs.Knowledge.{
  AuditMetadata, Request, Sealed, attempts, other_response, KnowledgeConclusionRun, transition,
  allows,
}
use stock_agent.Conclusion.Repository.{
  Store, Hashing, ok, raised, key_error, idempotency_conflict, get, has_key, reserve, is_validating,
  is_succeeded,
}
use stock_agent.Conclusion.Service.{
  Content, Plan, give, save_run, commit_run, refuse, Call, request, freeze, synthesize,
  seal_response, seal_attempt, validate, commit, plan, execute, call, request_bundle, freeze_bundle,
  begin_synthesis, seal_model_response, seal_model_attempt, begin_validation, commit_grounded,
  save_transition, attempts_of, is_synthesizing, same_list, same_sealed, reserve_run,
  idempotency_request,
}
use stock_agent.Conclusion.Growth.{Fits, Grows, plan-Fits}
use stock_agent.Conclusion.Write.{UniqueIds, Wrote, Finished, save-Wrote, commit_result-Wrote}

same_list_refl : (xs : List ℕ) → same_list xs xs ≡ true
same_list_refl [] = refl
same_list_refl (x ∷ xs) = ground (arith, same_list_refl xs)

same_sealed_refl : (x : Sealed) → same_sealed (some x) x ≡ true
same_sealed_refl (attempts xs) = same_list_refl xs
same_sealed_refl (other_response n) = ground arith

-- Every call but a further attempt, and a validation that compares a digest.
abbrev pub is_repeatable : Call → Bool
is_repeatable (seal_attempt a d) = false
is_repeatable (validate (some d)) = false
is_repeatable _ = true

stored_as :
    (id : ℕ) (r x : KnowledgeConclusionRun) (s s' : Store)
    → r.conclusion_id ≡ id
    → get id s ≡ some r
    → Wrote r x s s'
    → get id s' ≡ some x
stored_as id r x s s' i found w =
    let same : w.row ≡ r =
      let both : some w.row ≡ some r = sym w.found ∙ ap (λ k. get k s) i ∙ found in cc in
    ap (λ k. get k s') (sym i) ∙ w.stored ∙ ap some (w.exact same)

unfinished :
    (id : ℕ) (r x : KnowledgeConclusionRun) (s s' : Store)
    → r.conclusion_id ≡ id
    → get id s ≡ some r
    → Grows r x
    → Finished r.conclusion_id s s'
    → ⊥
unfinished id r x s s' i found g (same, (y, there, ended)) =
    let is_r : y ≡ r = let both : some y ≡ some r = sym there ∙ ap (λ k. get k s) i ∙ found in cc in
    let ended' : is_succeeded r.state ≡ true =
      subst (λ z. is_succeeded z.state ≡ true) is_r ended in
    ground (arith, g.not_ended)

length-append_one : (xs : List ℕ) (a : ℕ) → length (xs ++ a ∷ []) ≡ length xs + 1
length-append_one [] a = refl
length-append_one (x ∷ xs) a = ground (arith, length-append_one xs a)

select-append_new :
    (test : KnowledgeConclusionRun → Bool) (rows : List KnowledgeConclusionRun)
    (r : KnowledgeConclusionRun)
    → select test rows ≡ none
    → test r ≡ true
    → select test (rows ++ r ∷ []) ≡ some r
select-append_new test [] r e t = ground arith
select-append_new test (x ∷ rows) r e t = ground (arith, select-append_new test rows r)

-- The plan adds the attempt to fewer than two, or refuses.
abbrev pub OneMore : KnowledgeConclusionRun → ℕ → Plan → Type 0
OneMore r attempt (save_run x v e) =
    (attempts_of x.sealed_model_response ≡ attempts_of r.sealed_model_response ++ attempt ∷ [])
    × (length (attempts_of x.sealed_model_response) ≤ 2)
    × (x.state ≡ r.state)
    × ((is_synthesizing r.state || is_validating r.state) ≡ true)
OneMore r attempt (refuse e) =
    ((is_synthesizing r.state || is_validating r.state) ≡ false)
    ⊎ (2 ≤ length (attempts_of r.sealed_model_response))
OneMore r attempt _ = ⊥

module _ (h : Hashing) (content : Content) where
  -- After the plan is executed the same call has nothing to do.
  abbrev Settles : ℕ → Call → Plan → Type 0
  Settles now c (give r) = plan h content now c r ≡ give r
  Settles now c (save_run r v d) = plan h content now c r ≡ give r
  Settles now c (commit_run r cs v d) = plan h content now c r ≡ give r
  Settles now c (refuse e) = Unit

  plan-Settles :
      (now later : ℕ) (c : Call) (r : KnowledgeConclusionRun)
      → is_repeatable c ≡ true
      → Settles later c (plan h content now c r)
  unfolding plan request_bundle freeze_bundle begin_synthesis seal_model_response begin_validation
      commit_grounded save_transition transition allows
  plan-Settles now later request r p = ground arith
  plan-Settles now later (freeze b) r p = ground arith
  plan-Settles now later (synthesize w) r p = ground arith
  plan-Settles now later (seal_response x) r p = ground (arith, same_sealed_refl x)
  plan-Settles now later (validate none) r p = ground arith
  plan-Settles now later (commit x d) r p = ground arith
  plan-Settles now later (validate (some d)) r p = cc
  plan-Settles now later (seal_attempt a d) r p = cc

  again :
      (later : ℕ) (c : Call) (id : ℕ) (r : KnowledgeConclusionRun) (p : Plan) (s s' : Store)
      (a : KnowledgeConclusionRun)
      → r.conclusion_id ≡ id
      → get id s ≡ some r
      → UniqueIds s
      → Fits h r p
      → Settles later c p
      → execute h p s ≡ ok s' a
      → (x : KnowledgeConclusionRun) × (get id s' ≡ some x) × (plan h content later c x ≡ give x)
  unfolding execute
  again later c id r (give x) s s' a i found u f t e =
      let same : s ≡ s' = cc in
      (
        r,
        subst (λ y. get id y ≡ some r) same found,
        subst (λ y. plan h content later c y ≡ give y) f t,
      )
  again later c id r (save_run x v d) s s' a i found u f t e =
      let w = save-Wrote h r x v d s s' a f.0 f.1 f.2 u e in (x, stored_as id r x s s' i found w, t)
  again later c id r (commit_run x cs v d) s s' a i found u f t e =
      elim (commit_result-Wrote h r x cs v d s s' a f.0 f.1 f.2 u e) [
        | inl finished ↦ absurd (unfinished id r x s s' i found f.0 finished)
        | inr w ↦ (x, stored_as id r x s s' i found w, t)
      ]
  again later c id r (refuse x) s s' a i found u f t e = cc

  -- A call other than a further attempt or a validation against a digest, that has succeeded and
  -- is made again at any later time, succeeds, gives the run as it is stored, and writes nothing.
  pub call_again :
      (now later : ℕ) (c : Call) (id : ℕ) (s s' : Store) (a : KnowledgeConclusionRun)
      → UniqueIds s
      → is_repeatable c ≡ true
      → call h content now c id s ≡ ok s' a
      → (x : KnowledgeConclusionRun) × (get id s' ≡ some x)
        × (call h content later c id s' ≡ ok s' x)
  unfolding call execute
  call_again now later c id s s' a u p e = elim (Option-cases (get id s)) [
    | inl missing ↦ let clash : raised key_error ≡ ok s' a = rw (missing, call) at e in cc
    | inr (r, found) ↦
        let e' : execute h (plan h content now c r) s ≡ ok s' a = rw (found, call) at e in
        let i = get_row-key KnowledgeConclusionRun.conclusion_id id s.runs found in
        let (x, there, idle) =
          again later c id r (plan h content now c r) s s' a i found u (plan-Fits h content now c r)
            (plan-Settles now later c r p) e' in
        (x, there, rw (there, call) (rw (idle, execute) refl))
  ]

  -- A further attempt is added to the ones sealed before it, two at most in all: the staged run
  -- has one more than the run that was read, and from two on the call is refused. It is refused
  -- also unless the run is in synthesis or in validation.
  pub attempts_at_most_two :
      (now attempt : ℕ) (d : Option ℕ) (r : KnowledgeConclusionRun)
      → OneMore r attempt (plan h content now (seal_attempt attempt d) r)
  unfolding plan seal_model_attempt
  attempts_at_most_two now attempt d r =
      ground (arith, length-append_one (attempts_of r.sealed_model_response) attempt)

  -- A request that was reserved under a key and comes again, at any later time and under any new
  -- id, gives the run that the first call gave and adds none; under the same key a request with
  -- another hash is refused.
  pub reserve_again :
      (now later id id' key policy_version : ℕ) (q q' : Request) (m m' : Option AuditMetadata)
      (s s' : Store) (a : KnowledgeConclusionRun)
      → reserve_run h content now id q key policy_version m s ≡ ok s' a
      → (reserve_run h content later id' q key policy_version m' s' ≡ ok s' a)
        × (h.request_hash (idempotency_request q') policy_version
              ≢ h.request_hash (idempotency_request q) policy_version
            → reserve_run h content later id' q' key policy_version m' s'
              ≡ raised idempotency_conflict)
  unfolding reserve_run reserve
  reserve_again now later id id' key pv q q' m m' s s' a e =
      elim (Option-cases (select (has_key key) s.runs)) [
        | inr (old, f) ↦ (ground arith, λ ne. ground arith)
        | inl f ↦
            let b : content.is_blank key ≡ false = ground arith in
            let runs : s'.runs ≡ s.runs ++ a ∷ [] = ground arith in
            let mine : has_key key a ≡ true = ground arith in
            let hash : a.raw_request_hash ≡ h.request_hash (idempotency_request q) pv =
              ground arith in
            let there : select (has_key key) s'.runs ≡ some a =
              ap (select (has_key key)) runs ∙ select-append_new (has_key key) s.runs a f mine in
            (ground arith, λ ne. ground arith)
      ]
