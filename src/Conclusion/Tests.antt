-- ===== src/Conclusion/Tests.antt =====
-- The conclusion service at concrete runs.
use stock_agent.Base.{
  ℕ, ◌+◌, ◌≡◌, refl, subst, ◌≢◌, ◌⊎◌, true, false, none, some, [], ◌∷◌, arith, ◌==◌,
}
use stock_agent.Runs.Knowledge.{
  received, bundle_requested, synthesizing, succeeded, bundle_v1, Request, FrozenBundle, Conclusion,
  fallback, attempts, other_response, KnowledgeConclusionRun, transition, allows,
}
use stock_agent.Conclusion.Repository
use stock_agent.Conclusion.Service
use stock_agent.Conclusion.Growth
use stock_agent.Conclusion.Concurrent
use stock_agent.Conclusion.Evolution
use stock_agent.Conclusion.Repeat
use stock_agent.Conclusion.Replay

abbrev hashing : Repository.Hashing
hashing = record {
  digest = λ x. elim x [ attempts rows ↦ 7 | other_response n ↦ n + 10 ];
  request_hash = λ q policy. q.query + policy;
  result_hash = λ c. c.body;
  model_key = λ id. id + 100;
  provider_key = λ id. id + 200;
}

abbrev content : Service.Content
content = record {
  is_blank = λ text. text == 0;
  ground_findings = λ payload findings. true;
  citation_edges = λ payload index finding. [];
}

abbrev rebuild : Replay.Rebuild
rebuild = record {
  reconstruct_sealed_model_conclusion = λ r. none;
  fallback_conclusion = λ q payload findings bundle_id id created_at. record {
    conclusion_id = id;
    content_bundle_id = bundle_id;
    is_insufficient = false;
    findings = findings;
    model_mode = fallback;
    body = 70;
    created_at = created_at;
  };
}

abbrev request : Request
request = record {
  content_snapshot_id = 1;
  query = 2;
  symbol = none;
  business_as_of = none;
  knowledge_as_of = none;
  availability_as_of = some 7;
  content_bundle_contract = bundle_v1;
}

abbrev other_request : Request
other_request = record request { query = 3 }

abbrev empty : Repository.Store
empty = record { runs = []; citations = []; audits = [] }

abbrev run : KnowledgeConclusionRun
run = record {
  conclusion_id = 5;
  idempotency_key = 4;
  raw_request = Service.idempotency_request request;
  raw_request_hash = 8;
  effective_request_hash = 8;
  request = Service.effective 20 request;
  policy_version = 6;
  state = received;
  version = 0;
  frozen_bundle = none;
  model_request_id = none;
  model_provider_idempotency_key = none;
  sealed_model_response = none;
  result = none;
  result_hash = none;
  error_code = none;
  audit_metadata = none;
  created_at = 20;
  updated_at = 20;
}

abbrev one_run : Repository.Store
one_run = record empty { runs = run ∷ [] }

reserved :
    Service.reserve_run hashing content 20 5 request 4 6 none empty ≡ Repository.ok one_run run
unfolding Service.reserve_run Repository.reserve Service.idempotency_request Service.effective
reserved = refl

reserve_again_example :
    (Service.reserve_run hashing content 30 9 request 4 6 none one_run ≡ Repository.ok one_run run)
    × (◌≢◌ {A = ℕ} 9 8
        → Service.reserve_run hashing content 30 9 other_request 4 6 none one_run
          ≡ Repository.raised Repository.idempotency_conflict)
unfolding Service.idempotency_request
reserve_again_example =
    Repeat.reserve_again hashing content 20 30 5 9 4 6 request other_request none none empty one_run
      run reserved

abbrev requested : KnowledgeConclusionRun
requested = record run { state = bundle_requested; version = 1; updated_at = 21 }

abbrev requested_store : Repository.Store
requested_store = record empty { runs = requested ∷ [] }

first_write :
    Service.execute hashing (Service.plan hashing content 21 Service.request run) one_run
    ≡ Repository.ok requested_store requested
unfolding Service.execute Service.plan Service.request_bundle Service.save_transition transition
    allows Repository.save Repository.seal_matches Repository.saved_row Service.idempotency_request
    Service.effective
first_write = refl

call_again_example :
    (x : KnowledgeConclusionRun) × (Repository.get 5 requested_store ≡ some x)
    × (Service.call hashing content 40 Service.request 5 requested_store
        ≡ Repository.ok requested_store x)
unfolding Service.call
call_again_example =
    Repeat.call_again hashing content 21 40 Service.request 5 one_run requested_store requested
      (refl, tt) refl first_write

abbrev second : KnowledgeConclusionRun
second = record run { conclusion_id = 9; idempotency_key = 11 }

abbrev two_runs : Repository.Store
two_runs = record empty { runs = run ∷ second ∷ [] }

abbrev one_of_two : Repository.Store
one_of_two = record empty { runs = requested ∷ second ∷ [] }

-- Between the read and the write another worker reserves a run.
others_reserve : Concurrent.Steps hashing content one_run two_runs
unfolding Service.reserve_run Repository.reserve Service.idempotency_request Service.effective
others_reserve =
    Concurrent.reserved 20 9 11 6 request none one_run one_run two_runs second
      (Concurrent.start one_run) refl refl

then_written :
    Service.execute hashing (Service.plan hashing content 21 Service.request run) two_runs
    ≡ Repository.ok one_of_two requested
unfolding Service.execute Service.plan Service.request_bundle Service.save_transition transition
    allows Repository.save Repository.seal_matches Repository.saved_row Service.idempotency_request
    Service.effective
then_written = refl

write_is_atomic_example :
    (one_of_two ≡ two_runs)
    ⊎ (Service.call hashing content 21 Service.request 5 two_runs
        ≡ Repository.ok one_of_two requested)
write_is_atomic_example =
    Concurrent.write_is_atomic hashing content 21 Service.request 5 run requested one_run two_runs
      one_of_two (refl, tt) refl others_reserve then_written

run-IsConsistent : Growth.IsConsistent hashing run
run-IsConsistent = record {
  has_bundle = λ e. cc;
  right_snapshot = λ b e. cc;
  has_result = λ e. ground arith;
  no_result = λ e. refl;
  right_result = λ c b e e'. cc;
}

one_run_consistent : Evolution.AllConsistent hashing one_run
one_run_consistent k r e =
    let same : run ≡ r = ground arith in subst (Growth.IsConsistent hashing) same run-IsConsistent

all_steps : Concurrent.Steps hashing content one_run one_of_two
all_steps =
    Concurrent.executed 21 Service.request 5 run one_run one_run two_runs one_of_two requested
      (Concurrent.start one_run) others_reserve refl then_written

runs_evolve_example :
    Evolution.AllEvolve one_run one_of_two × Evolution.AllConsistent hashing one_of_two
runs_evolve_example =
    Evolution.runs_evolve hashing content one_run one_of_two all_steps (refl, tt) one_run_consistent

abbrev in_synthesis : KnowledgeConclusionRun
in_synthesis = record run {
  state = synthesizing;
  sealed_model_response = some (attempts (31 ∷ []));
}

attempts_at_most_two_holds :
    Repeat.OneMore in_synthesis 32
      (Service.plan hashing content 40 (Service.seal_attempt 32 none) in_synthesis)
attempts_at_most_two_holds = Repeat.attempts_at_most_two hashing content 40 32 none in_synthesis

abbrev bundle : FrozenBundle
bundle = record {
  bundle_id = 50;
  bundle_hash = 51;
  payload = 52;
  producer_sha = 53;
  contract_checksum = 54;
  content_snapshot_id = 1;
}

abbrev conclusion : Conclusion
conclusion = record {
  conclusion_id = 5;
  content_bundle_id = 50;
  is_insufficient = false;
  findings = 60 ∷ [];
  model_mode = fallback;
  body = 70;
  created_at = 45;
}

abbrev finished : KnowledgeConclusionRun
finished = record run {
  state = succeeded;
  version = 5;
  frozen_bundle = some bundle;
  result = some conclusion;
  result_hash = some 70;
}

finished-IsConsistent : Growth.IsConsistent hashing finished
unfolding Service.effective
finished-IsConsistent = ground arith

abbrev finished_store : Repository.Store
finished_store = record empty { runs = finished ∷ [] }

succeeded_verifies_holds :
    (hash : ℕ) × (some 70 ≡ some hash)
    × (Replay.replay hashing content rebuild Repository.verify_hash 5 finished_store ≡ (
      Repository.audit 5 Repository.verify_hash true finished_store,
      Repository.ok
          (Repository.audit 5 Repository.verify_hash true finished_store)
          (Replay.verified true hash),
    ))
succeeded_verifies_holds =
    Replay.succeeded_verifies hashing content rebuild 5 finished_store finished refl refl
      finished-IsConsistent

replay_only_audits_example :
    let after =
      Replay.replay hashing content rebuild Repository.recompute_deterministic 5 finished_store in
    (after.0.runs ≡ finished ∷ [])
    × (after.0.citations ≡ [])
    × Replay.Trusted hashing content rebuild 5 finished_store after.1
replay_only_audits_example =
    Replay.replay_only_audits hashing content rebuild Repository.recompute_deterministic 5
      finished_store
