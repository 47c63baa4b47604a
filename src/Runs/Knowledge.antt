-- ===== src/Runs/Knowledge.antt =====
-- `KnowledgeConclusionRun` of app/domain/knowledge_conclusion_run.py.
use stock_agent.Base.{
  ℕ, ◌+◌, ◌≤◌, ◌<◌, ◌≡◌, subst, refl, ◌∙◌, ◌≢◌, Bool, true, false, inl, inr, Option, none, some,
  List, [], ◌∷◌, arith, if◌then◌else◌, Option-cases,
}

pub data State : Type 0 where
  received bundle_requested bundle_frozen synthesizing validating succeeded failed : State

-- `_TRANSITIONS`.
unfoldable pub allows : State → State → Bool
allows received bundle_requested = true
allows bundle_requested bundle_frozen = true
allows bundle_frozen synthesizing = true
allows synthesizing validating = true
allows validating succeeded = true
allows received failed = true
allows bundle_requested failed = true
allows bundle_frozen failed = true
allows synthesizing failed = true
allows validating failed = true
allows _ _ = false

pub record FrozenBundle : Type 0 where
  pub bundle_id : ℕ
  pub bundle_hash : ℕ
  pub payload : ℕ
  pub producer_sha : ℕ
  pub contract_checksum : ℕ
  pub content_snapshot_id : ℕ

pub record AuditMetadata : Type 0 where
  pub consumer_sha : ℕ
  pub profile : ℕ
  pub trace_id : ℕ

pub data Contract : Type 0 where
  bundle_v1 bundle_v2 : Contract

-- `KnowledgeConclusionRequest`; texts and times are numbers.
pub record Request : Type 0 where
  pub content_snapshot_id : ℕ
  pub query : ℕ
  pub symbol : Option ℕ
  pub business_as_of : Option ℕ
  pub knowledge_as_of : Option ℕ
  pub availability_as_of : Option ℕ
  pub content_bundle_contract : Contract

-- The dumped request, in which the contract's key may be missing.
pub record RawRequest : Type 0 where
  pub content_snapshot_id : ℕ
  pub query : ℕ
  pub symbol : Option ℕ
  pub business_as_of : Option ℕ
  pub knowledge_as_of : Option ℕ
  pub availability_as_of : Option ℕ
  pub content_bundle_contract : Option Contract

pub data ModelMode : Type 0 where
  model fallback : ModelMode

-- `KnowledgeConclusion`; a finding is a number, and so is all that only the reader uses.
pub record Conclusion : Type 0 where
  pub conclusion_id : ℕ
  pub content_bundle_id : ℕ
  pub is_insufficient : Bool  -- verdict INSUFFICIENT_EVIDENCE
  pub findings : List ℕ
  pub model_mode : ModelMode
  pub body : ℕ
  pub created_at : ℕ

-- A sealed response: the dict that holds the attempts, or any other without that key.
pub data Sealed : Type 0 where
  attempts : List ℕ → Sealed
  other_response : ℕ → Sealed

-- The frozen dataclass.
pub record KnowledgeConclusionRun : Type 0 where
  pub conclusion_id : ℕ
  pub idempotency_key : ℕ
  pub raw_request : RawRequest
  pub raw_request_hash : ℕ
  pub effective_request_hash : ℕ
  pub request : Request
  pub policy_version : ℕ
  pub state : State
  pub version : ℕ
  pub frozen_bundle : Option FrozenBundle
  pub model_request_id : Option ℕ
  pub model_provider_idempotency_key : Option ℕ
  pub sealed_model_response : Option Sealed
  pub result : Option Conclusion
  pub result_hash : Option ℕ
  pub error_code : Option ℕ
  pub audit_metadata : Option AuditMetadata
  pub created_at : ℕ
  pub updated_at : ℕ

-- `none` is KnowledgeConclusionStateConflict.
unfoldable pub transition :
    State → ℕ → Option ℕ → KnowledgeConclusionRun → Option KnowledgeConclusionRun
transition target now error_code r =
    if allows r.state target
    then some (record r {
      state = target;
      version = r.version + 1;
      error_code = error_code;
      updated_at = now;
    })
    else none

-- One call of `transition`.
pub record Move : Type 0 where
  pub target : State
  pub now : ℕ
  pub error_code : Option ℕ

-- The calls in a row, up to the first that raises.
unfoldable pub transitions : List Move → KnowledgeConclusionRun → Option KnowledgeConclusionRun
transitions [] r = some r
transitions (m ∷ ms) r = elim (transition m.target m.now m.error_code r) [
  | none ↦ none
  | some r' ↦ transitions ms r'
]

-- How far a state is from the start; `failed` is beyond every other.
abbrev pub rank : State → ℕ
rank received = 0
rank bundle_requested = 1
rank bundle_frozen = 2
rank synthesizing = 3
rank validating = 4
rank succeeded = 5
rank failed = 6

abbrev pub is_terminal : State → Bool
is_terminal succeeded = true
is_terminal failed = true
is_terminal _ = false

-- The version counts the states passed: all of them, or at most five before a failure.
pub record IsSound (r : KnowledgeConclusionRun) : Type 0 where
  pub in_order : r.state ≢ failed → r.version ≡ rank r.state
  pub bounded : r.version ≤ 5
  pub moved : r.state ≡ failed → 0 < r.version

-- What identifies the request never changes.
pub record SameRequest (r r' : KnowledgeConclusionRun) : Type 0 where
  pub same_key : r'.idempotency_key ≡ r.idempotency_key
  pub same_raw : r'.raw_request_hash ≡ r.raw_request_hash
  pub same_effective : r'.effective_request_hash ≡ r.effective_request_hash
  pub same_bundle : r'.frozen_bundle ≡ r.frozen_bundle

transition-IsSound :
    (m : Move) (r r' : KnowledgeConclusionRun)
    → IsSound r
    → transition m.target m.now m.error_code r ≡ some r'
    → IsSound r'
unfolding transition allows
transition-IsSound m r r' s e = ground arith

transition-SameRequest :
    (m : Move) (r r' : KnowledgeConclusionRun)
    → transition m.target m.now m.error_code r ≡ some r'
    → SameRequest r r'
unfolding transition
transition-SameRequest m r r' e = ground arith

same_request : (r : KnowledgeConclusionRun) → SameRequest r r
same_request r = record {
  same_key = refl;
  same_raw = refl;
  same_effective = refl;
  same_bundle = refl;
}

SameRequest-trans :
    (r s t : KnowledgeConclusionRun) → SameRequest r s → SameRequest s t → SameRequest r t
SameRequest-trans r s t p q = record {
  same_key = q.same_key ∙ p.same_key;
  same_raw = q.same_raw ∙ p.same_raw;
  same_effective = q.same_effective ∙ p.same_effective;
  same_bundle = q.same_bundle ∙ p.same_bundle;
}

not_some : {r : KnowledgeConclusionRun} → none ≡ some r → ⊥
not_some e = cc

-- From a run whose version fits its state, any row of successful calls leads to another: the
-- version still counts the states passed, is at most 5, and the request's identity is kept.
pub transitions-IsSound :
    (ms : List Move) (r r' : KnowledgeConclusionRun)
    → IsSound r
    → transitions ms r ≡ some r'
    → IsSound r' × SameRequest r r'
unfolding transitions
transitions-IsSound [] r r' s e =
    let same : r ≡ r' = cc in (subst IsSound same s, subst (SameRequest r) same (same_request r))
transitions-IsSound (m ∷ ms) r r' s e =
    elim (Option-cases (transition m.target m.now m.error_code r)) [
      | inl n ↦ absurd (not_some (rw (n, transitions) at e))
      | inr (mid, t) ↦
          let on : transitions ms mid ≡ some r' = rw (t, transitions) at e in
          let rest = transitions-IsSound ms mid r' (transition-IsSound m r mid s t) on in
          (rest.0, SameRequest-trans r mid r' (transition-SameRequest m r mid t) rest.1)
    ]

-- A run that has succeeded or failed refuses every transition, and any other can still fail.
pub terminal_refuses :
    (r : KnowledgeConclusionRun) (m : Move)
    → (is_terminal r.state ≡ true → transition m.target m.now m.error_code r ≡ none)
      × (is_terminal r.state ≡ false → transition failed m.now m.error_code r ≢ none)
unfolding transition allows
terminal_refuses r m = ((λ h. ground arith), (λ h. ground arith))
