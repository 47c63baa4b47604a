-- ===== src/Conclusion/Replay.antt =====
-- `KnowledgeConclusionRunService.replay`: a frozen run's result is checked again, by its hash or
-- by a second construction. The two constructions are
-- parameters.
use stock_agent.Base.{
  ℕ, ◌≡◌, Bool, true, false, ◌&&◌, ◌||◌, length, Option, none, some, List, [], ◌∷◌, ◌==◌,
  if◌then◌else◌, Option-cases, inl, inr, arith, ==_iff,
}
use stock_agent.Runs.Knowledge.{
  FrozenBundle, Conclusion, model, fallback, Request, KnowledgeConclusionRun, succeeded,
}
use stock_agent.Conclusion.Repository.{
  Store, Hashing, Answer, ok, raised, key_error, value_error, ReplayMode, verify_hash,
  recompute_deterministic, recompute_model, model_fallback, AuditEvent, audit, get, Citation,
  citations_of, bundle_not_frozen, result_not_available, deterministic_model_replay_invalid,
  deterministic_replay_mismatch, unknown_replay_mode,
}
use stock_agent.Conclusion.Growth.{IsConsistent}
use stock_agent.Base.Rows.{get_row-key}
use stock_agent.Conclusion.Service.{Content, citations_from}

-- What builds a conclusion a second time: from the sealed response, or by the fallback policy
-- from the request, the payload, the findings, the bundle's id, the run's id and the time of
-- creation.
pub record Rebuild : Type 0 where
  pub reconstruct_sealed_model_conclusion : KnowledgeConclusionRun → Option Conclusion
  pub fallback_conclusion : Request → ℕ → List ℕ → ℕ → ℕ → ℕ → Conclusion

pub data Replayed : Type 0 where
  replay_required : ℕ → Replayed
  verified : Bool → ℕ → Replayed
  recomputed : Conclusion → ℕ → Replayed

-- The newest MODEL_FALLBACK event of the run that recorded its findings; the list is given the
-- newest first.
unfoldable pub recorded_findings : ℕ → List AuditEvent → Option (List ℕ)
recorded_findings id [] = none
recorded_findings id (e ∷ es) =
    let rest = recorded_findings id es in
    let here = (e.conclusion_id == id) && (elim e.mode [ model_fallback ↦ true | _ ↦ false ]) in
    if here then (elim e.fallback_input_findings [ none ↦ rest | some rows ↦ some rows ]) else rest

abbrev pub reversed : List AuditEvent → List AuditEvent → List AuditEvent
reversed [] done = done
reversed (e ∷ es) done = reversed es (e ∷ done)

-- `_deterministic_replay_inputs`
unfoldable pub deterministic_replay_inputs : KnowledgeConclusionRun → Conclusion → Store → List ℕ
deterministic_replay_inputs run result s =
    elim (recorded_findings run.conclusion_id (reversed s.audits [])) [
      | some rows ↦ rows
      | none ↦ if result.is_insufficient then [] else result.findings
    ]

-- Dataclass equality, and equality of length and of the sets.
abbrev same_citation : Citation → Citation → Bool
same_citation a b =
    (a.finding_index == b.finding_index)
    && (a.knowledge_id == b.knowledge_id)
    && (a.evidence_id == b.evidence_id)
    && (a.quote_hash == b.quote_hash)
    && (a.quote_hash_provenance == b.quote_hash_provenance)

abbrev has_citation : Citation → List Citation → Bool
has_citation c [] = false
has_citation c (d ∷ ds) = same_citation c d || has_citation c ds

abbrev all_in : List Citation → List Citation → Bool
all_in [] ds = true
all_in (c ∷ cs) ds = has_citation c ds && all_in cs ds

unfoldable pub same_citations : List Citation → List Citation → Bool
same_citations expected persisted =
    (length expected == length persisted) && all_in expected persisted && all_in persisted expected

module _ (h : Hashing) (content : Content) (rebuild : Rebuild) where
  unfoldable pub replay_model :
      KnowledgeConclusionRun → FrozenBundle → ℕ → Store → Store × Answer Replayed
  replay_model run frozen result_hash s =
      let id = run.conclusion_id in
      let failed_store = audit id recompute_deterministic false s in
      let done_store = audit id recompute_deterministic true s in
      elim (rebuild.reconstruct_sealed_model_conclusion run) [
        | none ↦ (failed_store, raised (value_error deterministic_model_replay_invalid))
        | some replayed ↦
            if same_citations (citations_from h content frozen.payload 0 replayed.findings)
                (citations_of id s.citations)
              && (h.result_hash replayed == result_hash)
            then (done_store, ok done_store (recomputed replayed (h.result_hash replayed)))
            else (failed_store, raised (value_error deterministic_model_replay_invalid))
      ]

  unfoldable pub replay_fallback :
      KnowledgeConclusionRun → FrozenBundle → Conclusion → ℕ → Store → Store × Answer Replayed
  replay_fallback run frozen result result_hash s =
      let replayed =
        rebuild.fallback_conclusion run.request frozen.payload
          (deterministic_replay_inputs run result s) frozen.bundle_id run.conclusion_id
          result.created_at in
      let done_store = audit run.conclusion_id recompute_deterministic true s in
      if h.result_hash replayed == result_hash
      then (done_store, ok done_store (recomputed replayed (h.result_hash replayed)))
      else (s, raised (value_error deterministic_replay_mismatch))

  -- The modes that need the run's result.
  unfoldable pub replay_result :
      ReplayMode
      → KnowledgeConclusionRun
      → FrozenBundle
      → Conclusion
      → ℕ
      → Store
      → Store × Answer Replayed
  replay_result verify_hash run frozen result stored s =
      let valid = stored == h.result_hash result in
      let s' = audit run.conclusion_id verify_hash valid s in (s', ok s' (verified valid stored))
  replay_result recompute_deterministic run frozen result stored s = elim result.model_mode [
    | model ↦ replay_model run frozen stored s
    | fallback ↦ replay_fallback run frozen result stored s
  ]
  replay_result _ run frozen result stored s = (s, raised (value_error unknown_replay_mode))

  abbrev is_recompute_model : ReplayMode → Bool
  is_recompute_model recompute_model = true
  is_recompute_model _ = false

  -- The store afterwards, also where the call raises: a failed model replay leaves its audit.
  unfoldable pub replay : ReplayMode → ℕ → Store → Store × Answer Replayed
  replay mode id s = elim (get id s) [
    | none ↦ (s, raised key_error)
    | some run ↦ elim run.frozen_bundle [
      | none ↦ (s, raised (value_error bundle_not_frozen))
      | some frozen ↦
          if is_recompute_model mode
          then (let s' = audit id recompute_model true s in (s', ok s' (replay_required id)))
          else elim run.result [
            | none ↦ (s, raised (value_error result_not_available))
            | some result ↦ elim run.result_hash [
              | none ↦ (s, raised (value_error result_not_available))
              | some stored ↦ replay_result mode run frozen result stored s
            ]
          ]
    ]
  ]

  -- What a replay may return: a recomputed conclusion has the hash that was committed.
  abbrev pub Trusted : ℕ → Store → Answer Replayed → Type 0
  Trusted id s (ok s' (recomputed c hash)) =
      (run : KnowledgeConclusionRun) × (get id s ≡ some run)
      × (run.result_hash ≡ some hash)
      × (h.result_hash c ≡ hash)
  Trusted id s _ = Unit

  -- A replay in any mode leaves the runs and the citations as they are, whether it returns or
  -- raises, and a conclusion that it recomputes has the hash of the committed one.
  pub replay_only_audits :
      (mode : ReplayMode) (id : ℕ) (s : Store)
      → ((replay mode id s).0.runs ≡ s.runs)
        × ((replay mode id s).0.citations ≡ s.citations)
        × Trusted id s (replay mode id s).1
  unfolding replay replay_result replay_model replay_fallback audit
  replay_only_audits verify_hash id s = ground arith
  replay_only_audits recompute_deterministic id s = ground arith
  replay_only_audits recompute_model id s = ground arith
  replay_only_audits model_fallback id s = ground arith

  -- A run that has succeeded in a store whose runs are consistent passes its own verification:
  -- the replay by hash answers that the stored hash is valid, and records that.
  pub succeeded_verifies :
      (id : ℕ) (s : Store) (run : KnowledgeConclusionRun)
      → get id s ≡ some run
      → run.state ≡ succeeded
      → IsConsistent h run
      → (hash : ℕ) × (run.result_hash ≡ some hash)
        × (replay verify_hash id s
            ≡ (audit id verify_hash true s, ok (audit id verify_hash true s) (verified true hash)))
  unfolding replay replay_result
  succeeded_verifies id s run found done fine = elim (Option-cases run.frozen_bundle) [
    | inl nb ↦ absurd (fine.has_bundle (ground arith) nb)
    | inr (b, eb) ↦ elim (Option-cases run.result) [
      | inl nr ↦ absurd (fine.has_result done nr)
      | inr (c, ec) ↦
          let hash = (fine.right_result c b ec eb).0 in
          let same = get_row-key KnowledgeConclusionRun.conclusion_id id s.runs found in
          (h.result_hash c, hash, ground (arith, ==_iff (h.result_hash c) (h.result_hash c)))
    ]
  ]
