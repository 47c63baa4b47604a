-- ===== src/Jobs/Tests.antt =====
-- A queue of three tasks: the theorems at concrete inputs, and runs of the code.
use stock_agent.Base.{ℕ, ◌≡◌, refl, false, Option, none, some, [], ◌∷◌, arith}
use stock_agent.Jobs.Task.{
  Task, Table, running, succeeded, get, create, new_task, heartbeat, has_lease,
}
use stock_agent.Jobs.Claim.{Claimant, claim_row, claim_next, claim_next_postgresql, earliest}
use stock_agent.Jobs.Finish.{mark_finished, finish_row}
use stock_agent.Jobs.Lease.{
  Takes, claim_next-Takes, claim_next-eq-postgresql, IsFenced, claim_next-fences,
}
use stock_agent.Jobs.Invariant.{
  IsSoundTable, Reach, empty, next, created, taken_next, finished, Reach-IsSoundTable,
}
use stock_agent.Jobs.History.{Later, at_once, then_step, ended_stays, lost_lease_stays_lost}
use stock_agent.Jobs.Idempotent.{create-idempotent}
use stock_agent.Jobs.Worker.{Surroundings, Outcome, returned, work_on, ensure_lease}
use stock_agent.Jobs.Outcome.{work_on-fenced, work_on-succeeds}

abbrev first : Task
first = new_task 1 100 7 50 (some 9) 3 none

-- Created earlier than `first`, held since 40 by a worker that has not beaten since.
abbrev second : Task
second = record (new_task 2 30 7 51 none 3 none) {
  status = running;
  worker_id = some 4;
  lease_token = some 77;
  lease_version = 1;
  started_at = some 40;
  heartbeat_at = some 40;
}

abbrev table : Table
table = first ∷ second ∷ []

abbrev claimant : Claimant
claimant = record { worker = 5; now = 500; token = 88; task_types = 7 ∷ []; lease_seconds = 300 }

abbrev retaken : Task
retaken = claim_row claimant second

claims_oldest : claim_next claimant table ≡ (first ∷ retaken ∷ [], some retaken)
unfolding claim_next earliest
claims_oldest = refl

claim_next-Takes_example : Takes claimant table (first ∷ retaken ∷ []) retaken
claim_next-Takes_example =
    claim_next-Takes claimant table (first ∷ retaken ∷ []) retaken (refl, (refl, tt)) claims_oldest

claim_next-eq-postgresql_example :
    claim_next_postgresql (λ id. false) claimant table ≡ claim_next claimant table
claim_next-eq-postgresql_example = claim_next-eq-postgresql claimant table (refl, (refl, tt))

claim_next-fences_example : IsFenced 2 1 (first ∷ retaken ∷ [])
claim_next-fences_example =
    claim_next-fences claimant table (first ∷ retaken ∷ []) retaken second 1 (refl, (refl, tt))
      claims_oldest refl (omega arith)

Reach-one : Reach (first ∷ [])
unfolding create
Reach-one = next empty (created 1 100 7 50 (some 9) 3 none {t = some first} refl)

abbrev taken_first : Task
taken_first = claim_row claimant first

Reach-taken : Reach (taken_first ∷ [])
unfolding claim_next earliest
Reach-taken = next Reach-one (taken_next claimant)

Reach-IsSoundTable_example : IsSoundTable (taken_first ∷ [])
Reach-IsSoundTable_example = Reach-IsSoundTable Reach-taken

abbrev ended : Task
ended = finish_row 600 succeeded (some 3) none taken_first

Reach-ended : Reach (ended ∷ [])
unfolding mark_finished
Reach-ended = next Reach-taken (
    finished 600 1 succeeded (some 3) none
      (record { worker = some 5; token = some 88; version = some 1 }))

claim_again : Later (ended ∷ []) (claim_next claimant (ended ∷ [])).0
claim_again = then_step at_once (taken_next claimant)

ended_stays_example : get 1 (claim_next claimant (ended ∷ [])).0 ≡ some ended
ended_stays_example = ended_stays 1 ended claim_again (Reach-IsSoundTable Reach-ended) refl refl

lost_lease_stays_lost_example : IsFenced 1 0 (claim_next claimant (ended ∷ [])).0
lost_lease_stays_lost_example =
    lost_lease_stays_lost 1 0 ended claim_again (Reach-IsSoundTable Reach-ended) refl (omega arith)

first_created : create 1 100 7 50 (some 9) 3 none [] ≡ some (first ∷ [], some first)
unfolding create
first_created = refl

create-idempotent_example :
    create 6 200 8 60 (some 9) 1 none (first ∷ []) ≡ some (first ∷ [], some first)
create-idempotent_example =
    create-idempotent 8 1 100 7 50 3 none 6 200 8 60 1 none [] (first ∷ []) (some first)
      first_created

-- While the handler runs, another worker takes the task over: its lease version is 3.
abbrev taken_over : Task
taken_over = record taken_first { worker_id = some 6; lease_token = some 99; lease_version = 3 }

abbrev handlers : ℕ → Option (Task → Outcome)
handlers task_type = some (λ t. returned 12)

abbrev busy : Surroundings
busy = record {
  beat_time = 501;
  end_time = 900;
  handlers = handlers;
  meanwhile = λ rows. taken_over ∷ [];
  beat_refused = false;
}

work_on-fenced_example : work_on busy 5 taken_first (taken_first ∷ []) ≡ taken_over ∷ []
unfolding ensure_lease heartbeat has_lease
work_on-fenced_example =
    work_on-fenced busy 5 taken_first taken_over (λ t. returned 12) (taken_first ∷ []) refl refl
      (refl, tt) refl (omega arith)

abbrev quiet : Surroundings
quiet = record {
  beat_time = 501;
  end_time = 900;
  handlers = handlers;
  meanwhile = λ rows. rows;
  beat_refused = false;
}

abbrev beaten_first : Task
beaten_first = record taken_first { heartbeat_at = some 501 }

work_on-succeeds_holds :
    get 1 (work_on quiet 5 taken_first (taken_first ∷ []))
    ≡ some (finish_row 900 succeeded (some 12) none beaten_first)
unfolding ensure_lease heartbeat has_lease
work_on-succeeds_holds =
    work_on-succeeds quiet 5 taken_first beaten_first (λ t. returned 12) (taken_first ∷ []) 12 refl
      refl refl refl refl (refl, tt) refl refl
