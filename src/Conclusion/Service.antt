-- ===== src/Conclusion/Service.antt =====
-- `KnowledgeConclusionRunService` of app/application/knowledge_conclusion/run_service.py. An
-- operation reads the run in one transaction and writes in another, so it is a plan made from the
-- run that was read, and the plan's execution on the store as it is by then.
use stock_agent.Base.{
  ℕ, zero, suc, ◌+◌, Bool, true, false, ◌&&◌, ◌||◌, not, Option, none, some, List, [], ◌∷◌, ◌++◌,
  ◌==◌, leb, if◌then◌else◌, or_default, length,
}
use stock_agent.Runs.Knowledge.{
  State, received, bundle_requested, bundle_frozen, synthesizing, validating, succeeded, bundle_v1,
  bundle_v2, Request, RawRequest, FrozenBundle, AuditMetadata, Conclusion, Sealed, attempts,
  other_response, KnowledgeConclusionRun, transition,
}
use stock_agent.Conclusion.Repository.{
  Citation, Store, Hashing, Answer, ok, raised, Error, key_error, state_conflict, seal_replaced,
  value_error, idempotency_key_blank, bundle_snapshot_mismatch, bundle_already_frozen,
  worker_id_blank, model_response_not_expected, model_attempt_not_expected,
  model_repair_limit_exceeded, validation_not_expected, grounded_result_not_expected,
  result_frozen_bundle_mismatch, conclusion_ungrounded, get, reserve, save, commit_result,
  stored_digest, is_validating, is_succeeded,
}

-- `_idempotency_request`
unfoldable pub idempotency_request : Request → RawRequest
idempotency_request q = record {
  content_snapshot_id = q.content_snapshot_id;
  query = q.query;
  symbol = q.symbol;
  business_as_of = q.business_as_of;
  knowledge_as_of = q.knowledge_as_of;
  availability_as_of = q.availability_as_of;
  content_bundle_contract = elim q.content_bundle_contract [
    | bundle_v1 ↦ none
    | bundle_v2 ↦ some bundle_v2
  ];
}

-- The request with its clocks resolved.
unfoldable pub effective : ℕ → Request → Request
effective now q = record q {
  business_as_of = some (or_default q.business_as_of now);
  knowledge_as_of = some (or_default q.knowledge_as_of now);
  availability_as_of = some (or_default q.availability_as_of now);
}

-- What an operation does with the run it has read.
pub data Plan : Type 0 where
  give : KnowledgeConclusionRun → Plan
  save_run : KnowledgeConclusionRun → ℕ → Option ℕ → Plan
  commit_run : KnowledgeConclusionRun → List Citation → ℕ → Option ℕ → Plan
  refuse : Error → Plan

-- `prior.get("attempts") or []`
abbrev pub attempts_of : Option Sealed → List ℕ
attempts_of none = []
attempts_of (some (attempts rows)) = rows
attempts_of (some (other_response n)) = []

abbrev is_requested : State → Bool
is_requested bundle_requested = true
is_requested bundle_frozen = true
is_requested synthesizing = true
is_requested validating = true
is_requested succeeded = true
is_requested _ = false

abbrev is_begun : State → Bool
is_begun synthesizing = true
is_begun validating = true
is_begun succeeded = true
is_begun _ = false

abbrev pub is_synthesizing : State → Bool
is_synthesizing synthesizing = true
is_synthesizing _ = false

abbrev pub same_list : List ℕ → List ℕ → Bool
same_list [] [] = true
same_list (x ∷ xs) (y ∷ ys) = (x == y) && same_list xs ys
same_list _ _ = false

abbrev pub same_sealed : Option Sealed → Sealed → Bool
same_sealed (some (attempts xs)) (attempts ys) = same_list xs ys
same_sealed (some (other_response a)) (other_response b) = a == b
same_sealed _ _ = false

-- Dataclass equality.
abbrev pub same_bundle : FrozenBundle → FrozenBundle → Bool
same_bundle a b =
    (a.bundle_id == b.bundle_id)
    && (a.bundle_hash == b.bundle_hash)
    && (a.payload == b.payload)
    && (a.producer_sha == b.producer_sha)
    && (a.contract_checksum == b.contract_checksum)
    && (a.content_snapshot_id == b.content_snapshot_id)

-- `expected_seal_digest or captured`
abbrev pub or_captured : Option ℕ → ℕ → ℕ
or_captured none captured = captured
or_captured (some zero) captured = captured
or_captured (some (suc n)) captured = suc n

-- The text after `strip` is empty; what grounding and citations make of a frozen payload.
pub record Content : Type 0 where
  pub is_blank : ℕ → Bool
  pub ground_findings : ℕ → List ℕ → Bool
  pub citation_edges : ℕ → ℕ → ℕ → List Citation  -- payload, finding's index, finding

unfoldable pub execute : Hashing → Plan → Store → Answer KnowledgeConclusionRun
execute h (give run) s = ok s run
execute h (save_run run version d) s = save h run version d s
execute h (commit_run run citations version d) s = commit_result h run citations version d s
execute h (refuse e) s = raised e

-- An operation on a run that exists, with its arguments.
pub data Call : Type 0 where
  request : Call
  freeze : FrozenBundle → Call
  synthesize : ℕ → Call
  seal_response : Sealed → Call
  seal_attempt : ℕ → Option ℕ → Call
  validate : Option ℕ → Call
  commit : Conclusion → Option ℕ → Call

module _ (h : Hashing) (content : Content) where
  -- `captured_seal_digest`
  abbrev pub captured : KnowledgeConclusionRun → ℕ
  captured run = stored_digest h run.sealed_model_response

  -- `_save_transition`; `expected` is None or the version to compare.
  unfoldable pub save_transition : ℕ → KnowledgeConclusionRun → State → Option ℕ → Option ℕ → Plan
  save_transition now run target expected expected_seal_digest =
      elim (transition target now none run) [
        | none ↦ refuse state_conflict
        | some staged ↦
            save_run staged (or_default expected run.version)
              (some (or_captured expected_seal_digest (captured run)))
      ]

  unfoldable pub request_bundle : ℕ → KnowledgeConclusionRun → Plan
  request_bundle now run =
      if is_requested run.state
      then give run
      else save_transition now run bundle_requested none none

  unfoldable pub freeze_bundle : ℕ → FrozenBundle → KnowledgeConclusionRun → Plan
  freeze_bundle now bundle run =
      if bundle.content_snapshot_id == run.request.content_snapshot_id
      then (elim run.frozen_bundle [
        | some frozen ↦
            if same_bundle frozen bundle
            then give run
            else refuse (value_error bundle_already_frozen)
        | none ↦
            save_transition now (record run { frozen_bundle = some bundle }) bundle_frozen
              (some run.version) none
      ])
      else refuse (value_error bundle_snapshot_mismatch)

  unfoldable pub begin_synthesis : ℕ → ℕ → KnowledgeConclusionRun → Plan
  begin_synthesis now worker_id run =
      if is_begun run.state
      then give run
      else if content.is_blank worker_id
      then refuse (value_error worker_id_blank)
      else save_transition now
          (record run {
            model_request_id = some (h.model_key run.conclusion_id);
            model_provider_idempotency_key = some (h.provider_key run.conclusion_id);
          })
          synthesizing (some run.version) none

  unfoldable pub seal_model_response : ℕ → Sealed → KnowledgeConclusionRun → Plan
  seal_model_response now response run =
      if is_validating run.state && same_sealed run.sealed_model_response response
      then give run
      else if is_synthesizing run.state
      then save_transition now (record run { sealed_model_response = some response }) validating
          (some run.version) (some (captured run))
      else refuse (value_error model_response_not_expected)

  unfoldable pub seal_model_attempt : ℕ → ℕ → Option ℕ → KnowledgeConclusionRun → Plan
  seal_model_attempt now attempt expected_seal_digest run =
      let rows = attempts_of run.sealed_model_response in
      if is_synthesizing run.state || is_validating run.state
      then (if leb 2 (length rows)
          then refuse (value_error model_repair_limit_exceeded)
          else save_run
              (record run {
                sealed_model_response = some (attempts (rows ++ attempt ∷ []));
                updated_at = now;
                version = run.version + 1;
              })
              run.version (some (or_captured expected_seal_digest (captured run))))
      else refuse (value_error model_attempt_not_expected)

  unfoldable pub begin_validation : ℕ → Option ℕ → KnowledgeConclusionRun → Plan
  begin_validation now expected_seal_digest run =
      if is_validating run.state
      then (elim expected_seal_digest [
        | none ↦ give run
        | some d ↦ if captured run == d then give run else refuse seal_replaced
      ])
      else if is_synthesizing run.state
      then save_transition now run validating none
          (some (or_captured expected_seal_digest (captured run)))
      else refuse (value_error validation_not_expected)

  -- `_citations`, from the finding with this index on.
  unfoldable pub citations_from : ℕ → ℕ → List ℕ → List Citation
  citations_from payload index [] = []
  citations_from payload index (f ∷ fs) =
      content.citation_edges payload index f ++ citations_from payload (index + 1) fs

  unfoldable pub commit_grounded : ℕ → Conclusion → Option ℕ → KnowledgeConclusionRun → Plan
  commit_grounded now result expected_seal_digest run =
      if is_succeeded run.state then give run else elim run.frozen_bundle [
        | none ↦ refuse (value_error grounded_result_not_expected)
        | some frozen ↦
            if not (is_validating run.state)
            then refuse (value_error grounded_result_not_expected)
            else if not (
                (result.conclusion_id == run.conclusion_id)
                && (result.content_bundle_id == frozen.bundle_id))
            then refuse (value_error result_frozen_bundle_mismatch)
            else if not (content.ground_findings frozen.payload result.findings)
            then refuse (value_error conclusion_ungrounded)
            else elim (transition succeeded now none
                (record run { result = some result; result_hash = some (h.result_hash result) })) [
                  | none ↦ refuse state_conflict
                  | some staged ↦
                      commit_run staged (citations_from frozen.payload 0 result.findings)
                        run.version (some (or_default expected_seal_digest (captured run)))
                ]
      ]

  unfoldable pub plan : ℕ → Call → KnowledgeConclusionRun → Plan
  plan now request = request_bundle now
  plan now (freeze bundle) = freeze_bundle now bundle
  plan now (synthesize worker_id) = begin_synthesis now worker_id
  plan now (seal_response response) = seal_model_response now response
  plan now (seal_attempt attempt d) = seal_model_attempt now attempt d
  plan now (validate d) = begin_validation now d
  plan now (commit result d) = commit_grounded now result d

  -- A call with nothing else going on between its read and its write.
  unfoldable pub call : ℕ → Call → ℕ → Store → Answer KnowledgeConclusionRun
  call now c id s = elim (get id s) [
    | none ↦ raised key_error
    | some run ↦ execute h (plan now c run) s
  ]

  -- `reserve`; `new_id` is the fresh uuid.
  unfoldable pub reserve_run :
      ℕ → ℕ → Request → ℕ → ℕ → Option AuditMetadata → Store → Answer KnowledgeConclusionRun
  reserve_run now new_id q idempotency_key policy_version audit_metadata s =
      let raw = idempotency_request q in
      if content.is_blank idempotency_key
      then raised (value_error idempotency_key_blank)
      else reserve
          (record {
            conclusion_id = new_id;
            idempotency_key = idempotency_key;
            raw_request = raw;
            raw_request_hash = h.request_hash raw policy_version;
            effective_request_hash =
                h.request_hash (idempotency_request (effective now q)) policy_version;
            request = effective now q;
            policy_version = policy_version;
            state = received;
            version = 0;
            frozen_bundle = none;
            model_request_id = none;
            model_provider_idempotency_key = none;
            sealed_model_response = none;
            result = none;
            result_hash = none;
            error_code = none;
            audit_metadata = audit_metadata;
            created_at = now;
            updated_at = now;
          })
          s
