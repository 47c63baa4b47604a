-- ===== src/Runs/Tests.antt =====
-- The theorems on the two state machines at concrete runs.
use stock_agent.Base.{◌≡◌, ◌≢◌, refl, true, false, none, some, List, [], ◌∷◌, arith}
use stock_agent.Runs.Decision
use stock_agent.Runs.Knowledge

abbrev move : Decision.State → Decision.Move
move s = record { target = s; error_code = none; now = 5 }

abbrev whole_way : List Decision.Move
whole_way =
    move Decision.State.bundle_frozen
    ∷ move Decision.State.specialists_completed
    ∷ move Decision.State.formal_calculated
    ∷ move Decision.State.governed
    ∷ move Decision.State.finalized
    ∷ []

abbrev finalized_run : Decision.DecisionRun
finalized_run = record (Decision.new_run 1 2 3) {
  state = Decision.State.finalized;
  version = 5;
  updated_at = 5;
}

reaches : Decision.transitions whole_way (Decision.new_run 1 2 3) ≡ some finalized_run
unfolding Decision.transitions Decision.transition Decision.allows
reaches = refl

finalized_only_in_order_example :
    (Decision.targets whole_way
      ≡ Decision.State.bundle_frozen ∷ Decision.State.specialists_completed
        ∷ Decision.State.formal_calculated ∷ Decision.State.governed ∷ Decision.State.finalized
        ∷ [])
    × (finalized_run.version ≡ 5)
finalized_only_in_order_example =
    Decision.finalized_only_in_order 1 2 3 whole_way finalized_run reaches refl

eligible_only_finalized_holds :
    (finalized_run.version ≡ 5)
    × ((m : Decision.Move) (r' : Decision.DecisionRun)
        → Decision.transition m.target m.error_code m.now finalized_run ≡ some r'
        → (r'.state ≡ Decision.State.published) × (Decision.execution_eligible r' ≡ false))
unfolding Decision.execution_eligible
eligible_only_finalized_holds =
    Decision.eligible_only_finalized 1 2 3 whole_way finalized_run reaches refl

abbrev request : Knowledge.Request
request = record {
  content_snapshot_id = 1;
  query = 2;
  symbol = none;
  business_as_of = none;
  knowledge_as_of = none;
  availability_as_of = some 7;
  content_bundle_contract = Knowledge.Contract.bundle_v1;
}

abbrev raw_request : Knowledge.RawRequest
raw_request = record {
  content_snapshot_id = 1;
  query = 2;
  symbol = none;
  business_as_of = none;
  knowledge_as_of = none;
  availability_as_of = some 7;
  content_bundle_contract = none;
}

abbrev fresh : Knowledge.KnowledgeConclusionRun
fresh = record {
  conclusion_id = 1;
  idempotency_key = 2;
  raw_request = raw_request;
  raw_request_hash = 4;
  effective_request_hash = 5;
  request = request;
  policy_version = 7;
  state = Knowledge.State.received;
  version = 0;
  frozen_bundle = none;
  model_request_id = none;
  model_provider_idempotency_key = none;
  sealed_model_response = none;
  result = none;
  result_hash = none;
  error_code = none;
  audit_metadata = none;
  created_at = 8;
  updated_at = 8;
}

abbrev requested_then_failed : List Knowledge.Move
requested_then_failed =
    record { target = Knowledge.State.bundle_requested; now = 9; error_code = none }
    ∷ record { target = Knowledge.State.failed; now = 10; error_code = some 3 }
    ∷ []

abbrev failed_run : Knowledge.KnowledgeConclusionRun
failed_run = record fresh {
  state = Knowledge.State.failed;
  version = 2;
  error_code = some 3;
  updated_at = 10;
}

transitions-IsSound_holds : Knowledge.IsSound failed_run × Knowledge.SameRequest fresh failed_run
unfolding Knowledge.transitions Knowledge.transition Knowledge.allows
transitions-IsSound_holds =
    Knowledge.transitions-IsSound requested_then_failed fresh failed_run (ground arith) refl

terminal_refuses_holds :
    let m : Knowledge.Move = record {
      target = Knowledge.State.succeeded;
      now = 11;
      error_code = none;
    } in
    (true ≡ true → Knowledge.transition m.target m.now m.error_code failed_run ≡ none)
    × (true ≡ false
        → Knowledge.transition Knowledge.State.failed m.now m.error_code failed_run ≢ none)
terminal_refuses_holds =
    Knowledge.terminal_refuses failed_run
      (record { target = Knowledge.State.succeeded; now = 11; error_code = none })
