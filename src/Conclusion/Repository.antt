-- ===== src/Conclusion/Repository.antt =====
-- app/adapters/postgres/knowledge_conclusion_repository.py: each operation is one transaction on
-- the tables of runs, citations and replay audits.
use stock_agent.Base.{
  ℕ, Bool, true, false, ◌&&◌, Option, none, some, List, [], ◌∷◌, ◌++◌, map, ◌==◌, if◌then◌else◌,
}
use stock_agent.Base.Rows.{select, update, matches, get_row, with_key}
use stock_agent.Runs.Knowledge.{
  State, validating, succeeded, RawRequest, Conclusion, Sealed, KnowledgeConclusionRun,
}

-- `KnowledgeConclusionCitation`.
pub record Citation : Type 0 where
  pub finding_index : ℕ
  pub knowledge_id : ℕ
  pub evidence_id : ℕ
  pub quote_hash : ℕ
  pub quote_hash_provenance : ℕ

pub data ReplayMode : Type 0 where
  verify_hash recompute_deterministic recompute_model model_fallback : ReplayMode

-- A row of `knowledge_conclusion_replay_audit`; the detail is a flag, a hash and, for a fallback,
-- the findings it was built from.
pub record AuditEvent : Type 0 where
  pub conclusion_id : ℕ
  pub mode : ReplayMode
  pub valid : Bool
  pub fallback_input_findings : Option (List ℕ)

pub record Store : Type 0 where
  pub runs : List KnowledgeConclusionRun
  pub citations : List (ℕ × Citation)
  pub audits : List AuditEvent

-- The hash of canonical JSON at the types it is used at, and the keys built from a run's id.
pub record Hashing : Type 0 where
  pub digest : Sealed → ℕ
  pub request_hash : RawRequest → ℕ → ℕ
  pub result_hash : Conclusion → ℕ
  pub model_key : ℕ → ℕ
  pub provider_key : ℕ → ℕ

-- The texts of ValueError; `conclusion_ungrounded` stands for every GroundingError.
pub data Reason : Type 0 where
  idempotency_key_blank bundle_snapshot_mismatch bundle_already_frozen worker_id_blank : Reason
  model_response_not_expected model_attempt_not_expected model_repair_limit_exceeded : Reason
  validation_not_expected grounded_result_not_expected result_frozen_bundle_mismatch : Reason
  conclusion_ungrounded bundle_not_frozen result_not_available : Reason
  deterministic_model_replay_invalid deterministic_replay_mismatch unknown_replay_mode : Reason

-- What an operation raises.
pub data Error : Type 0 where
  key_error fenced state_conflict idempotency_conflict seal_replaced : Error
  value_error : Reason → Error

-- A call: the store afterwards and its value, or the error.
pub data Answer {ℓ} (A : Type ℓ) : Type ℓ where
  ok : Store → A → Answer A
  raised : Error → Answer A

abbrev pub get : ℕ → Store → Option KnowledgeConclusionRun
get id s = get_row KnowledgeConclusionRun.conclusion_id id s.runs

-- ABSENT_SEAL_DIGEST, a text.
abbrev pub absent_seal_digest : ℕ
absent_seal_digest = 1

-- ON CONFLICT(idempotency_key)
abbrev pub has_key : ℕ → KnowledgeConclusionRun → Bool
has_key key r = r.idempotency_key == key

unfoldable pub reserve : KnowledgeConclusionRun → Store → Answer KnowledgeConclusionRun
reserve run s = elim (select (has_key run.idempotency_key) s.runs) [
  | none ↦ ok (record s { runs = s.runs ++ run ∷ [] }) run
  | some old ↦
      if old.raw_request_hash == run.raw_request_hash then ok s old else raised idempotency_conflict
]

abbrev pub is_validating : State → Bool
is_validating validating = true
is_validating _ = false

abbrev pub is_succeeded : State → Bool
is_succeeded succeeded = true
is_succeeded _ = false

module _ (h : Hashing) where
  abbrev pub stored_digest : Option Sealed → ℕ
  stored_digest none = absent_seal_digest
  stored_digest (some sealed) = h.digest sealed

  -- `_assert_seal_digest`
  unfoldable pub seal_matches : ℕ → Option ℕ → Store → Bool
  seal_matches id none s = true
  seal_matches id (some expected) s = elim (get id s) [
    | none ↦ false
    | some r ↦ stored_digest r.sealed_model_response == expected
  ]

  -- The columns that the UPDATE of `save` sets.
  unfoldable pub saved_row :
      KnowledgeConclusionRun → KnowledgeConclusionRun → KnowledgeConclusionRun
  saved_row run row = record row {
    state = run.state;
    version = run.version;
    frozen_bundle = run.frozen_bundle;
    model_request_id = run.model_request_id;
    model_provider_idempotency_key = run.model_provider_idempotency_key;
    sealed_model_response = run.sealed_model_response;
    audit_metadata = run.audit_metadata;
    error_code = run.error_code;
    updated_at = run.updated_at;
  }

  abbrev pub at_version : ℕ → KnowledgeConclusionRun → Bool
  at_version v row = row.version == v

  unfoldable pub save :
      KnowledgeConclusionRun → ℕ → Option ℕ → Store → Answer KnowledgeConclusionRun
  save run expected_version expected_seal_digest s =
      let here =
        with_key KnowledgeConclusionRun.conclusion_id run.conclusion_id
          (at_version expected_version) in
      if seal_matches run.conclusion_id expected_seal_digest s
      then (if matches here s.runs
          then ok (record s { runs = update here (saved_row run) s.runs }) run
          else raised fenced)
      else raised fenced

  -- The columns that the UPDATE of `commit_result` sets.
  unfoldable pub committed_row :
      KnowledgeConclusionRun → KnowledgeConclusionRun → KnowledgeConclusionRun
  committed_row run row = record row {
    state = run.state;
    version = run.version;
    result = run.result;
    result_hash = run.result_hash;
    error_code = run.error_code;
    updated_at = run.updated_at;
  }

  abbrev pub may_commit : ℕ → KnowledgeConclusionRun → Bool
  may_commit v row = (row.version == v) && is_validating row.state

  unfoldable pub commit_result :
      KnowledgeConclusionRun → List Citation → ℕ → Option ℕ → Store → Answer KnowledgeConclusionRun
  commit_result run citations expected_version expected_seal_digest s =
      let id = run.conclusion_id in
      let here = with_key KnowledgeConclusionRun.conclusion_id id (may_commit expected_version) in
      if seal_matches id expected_seal_digest s
      then (if matches here s.runs
          then ok
              (record s {
                runs = update here (committed_row run) s.runs;
                citations = s.citations ++ map (λ c. (id, c)) citations;
              })
              run
          else elim (get id s) [
            | none ↦ raised fenced
            | some current ↦ if is_succeeded current.state then ok s current else raised fenced
          ])
      else raised fenced

unfoldable pub audit : ℕ → ReplayMode → Bool → Store → Store
audit id mode valid s = record s {
  audits =
      s.audits
      ++ record { conclusion_id = id; mode = mode; valid = valid; fallback_input_findings = none }
        ∷ [];
}

-- SELECT … WHERE conclusion_id = :id, in the order of insertion.
unfoldable pub citations_of : ℕ → List (ℕ × Citation) → List Citation
citations_of id [] = []
citations_of id ((k, c) ∷ rows) =
    let rest = citations_of id rows in if k == id then c ∷ rest else rest
