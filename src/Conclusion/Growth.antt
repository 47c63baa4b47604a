-- ===== src/Conclusion/Growth.antt =====
-- What each operation of the conclusion service makes of the run it has read.
use stock_agent.Base.{ℕ, ◌+◌, ◌≤◌, ◌≡◌, ◌≢◌, Bool, true, false, Option, none, some, arith}
use stock_agent.Runs.Knowledge.{
  State, bundle_frozen, synthesizing, validating, succeeded, FrozenBundle, Conclusion, Sealed,
  KnowledgeConclusionRun, transition, allows, rank, is_terminal,
}
use stock_agent.Conclusion.Repository.{Hashing, saved_row, committed_row}
use stock_agent.Conclusion.Service.{
  Content, Plan, give, save_run, commit_run, refuse, Call, request, freeze, synthesize,
  seal_response, seal_attempt, validate, commit, plan, request_bundle, freeze_bundle,
  begin_synthesis, seal_model_response, seal_model_attempt, begin_validation, commit_grounded,
  save_transition,
}

-- Whether the bundle must have been frozen in this state; a failed run may have one or not.
abbrev pub needs_bundle : State → Bool
needs_bundle bundle_frozen = true
needs_bundle synthesizing = true
needs_bundle validating = true
needs_bundle succeeded = true
needs_bundle _ = false

-- A run whose data fits its state.
pub record IsConsistent (h : Hashing) (r : KnowledgeConclusionRun) : Type 0 where
  pub has_bundle : needs_bundle r.state ≡ true → r.frozen_bundle ≢ none
  pub right_snapshot :
      (b : FrozenBundle)
      → r.frozen_bundle ≡ some b
      → b.content_snapshot_id ≡ r.request.content_snapshot_id
  pub has_result : r.state ≡ succeeded → r.result ≢ none
  pub no_result : r.state ≢ succeeded → r.result ≡ none
  pub right_result :
      (c : Conclusion) (b : FrozenBundle)
      → r.result ≡ some c
      → r.frozen_bundle ≡ some b
      → (r.result_hash ≡ some (h.result_hash c))
        × (c.conclusion_id ≡ r.conclusion_id)
        × (c.content_bundle_id ≡ b.bundle_id)

-- One write: the next version of the same request, whose frozen bundle stays.
pub record Grows (r r' : KnowledgeConclusionRun) : Type 0 where
  pub same_id : r'.conclusion_id ≡ r.conclusion_id
  pub same_key : r'.idempotency_key ≡ r.idempotency_key
  pub same_raw : r'.raw_request_hash ≡ r.raw_request_hash
  pub same_request : r'.request ≡ r.request
  pub next_version : r'.version ≡ r.version + 1
  pub keeps_bundle : (b : FrozenBundle) → r.frozen_bundle ≡ some b → r'.frozen_bundle ≡ some b
  pub forward : rank r.state ≤ rank r'.state
  pub not_ended : is_terminal r.state ≡ false

-- A plan made from the run `r`.
abbrev pub Fits : Hashing → KnowledgeConclusionRun → Plan → Type 0
Fits h r (give run) = run ≡ r
Fits h r (save_run run v d) =
    Grows r run
    × (v ≡ r.version)
    × (saved_row h run r ≡ run)
    × (IsConsistent h r → IsConsistent h run)
Fits h r (commit_run run cs v d) =
    Grows r run
    × (v ≡ r.version)
    × (committed_row h run r ≡ run)
    × (IsConsistent h r → IsConsistent h run)
Fits h r (refuse e) = Unit

module _ (h : Hashing) (content : Content) where
  request_bundle-Fits :
      (now : ℕ) (r : KnowledgeConclusionRun) → Fits h r (request_bundle h content now r)
  unfolding request_bundle save_transition transition allows saved_row
  request_bundle-Fits now r = ground arith

  freeze_bundle-Fits :
      (now : ℕ) (b : FrozenBundle) (r : KnowledgeConclusionRun)
      → Fits h r (freeze_bundle h content now b r)
  unfolding freeze_bundle save_transition transition allows saved_row
  freeze_bundle-Fits now b r = ground arith

  begin_synthesis-Fits :
      (now worker_id : ℕ) (r : KnowledgeConclusionRun)
      → Fits h r (begin_synthesis h content now worker_id r)
  unfolding begin_synthesis save_transition transition allows saved_row
  begin_synthesis-Fits now worker_id r = ground arith

  seal_model_response-Fits :
      (now : ℕ) (response : Sealed) (r : KnowledgeConclusionRun)
      → Fits h r (seal_model_response h content now response r)
  unfolding seal_model_response save_transition transition allows saved_row
  seal_model_response-Fits now response r = ground arith

  seal_model_attempt-Fits :
      (now attempt : ℕ) (d : Option ℕ) (r : KnowledgeConclusionRun)
      → Fits h r (seal_model_attempt h content now attempt d r)
  unfolding seal_model_attempt saved_row
  seal_model_attempt-Fits now attempt d r = ground arith

  begin_validation-Fits :
      (now : ℕ) (d : Option ℕ) (r : KnowledgeConclusionRun)
      → Fits h r (begin_validation h content now d r)
  unfolding begin_validation save_transition transition allows saved_row
  begin_validation-Fits now d r = ground arith

  commit_grounded-Fits :
      (now : ℕ) (result : Conclusion) (d : Option ℕ) (r : KnowledgeConclusionRun)
      → Fits h r (commit_grounded h content now result d r)
  unfolding commit_grounded transition allows committed_row
  commit_grounded-Fits now result d r = ground arith

  pub plan-Fits :
      (now : ℕ) (c : Call) (r : KnowledgeConclusionRun) → Fits h r (plan h content now c r)
  unfolding plan
  plan-Fits now request r = request_bundle-Fits now r
  plan-Fits now (freeze b) r = freeze_bundle-Fits now b r
  plan-Fits now (synthesize w) r = begin_synthesis-Fits now w r
  plan-Fits now (seal_response x) r = seal_model_response-Fits now x r
  plan-Fits now (seal_attempt x d) r = seal_model_attempt-Fits now x d r
  plan-Fits now (validate d) r = begin_validation-Fits now d r
  plan-Fits now (commit x d) r = commit_grounded-Fits now x d r
