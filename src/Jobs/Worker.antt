-- ===== src/Jobs/Worker.antt =====
-- `process_one_job` and `heartbeat_loop` of workers/job_worker.py.
use stock_agent.Base.{ℕ, zero, suc, Bool, true, false, ◌&&◌, not, Option, none, some, if◌then◌else◌}
use stock_agent.Jobs.Task.{Task, Table, succeeded, heartbeat, has_lease}
use stock_agent.Jobs.Claim.{Claimant, claim, claim_next}
use stock_agent.Jobs.Finish.{Owner, mark_finished, mark_failed}

-- A handler's outcome: its result, or the exception as a number.
pub data Outcome : Type 0 where
  returned : ℕ → Outcome
  raised : ℕ → Outcome

-- What the worker does not decide: the clock's readings, the handlers, the table as other
-- workers leave it when the handler is done, and whether a beat of the thread was refused.
pub record Surroundings : Type 0 where
  pub beat_time : ℕ
  pub end_time : ℕ
  pub handlers : ℕ → Option (Task → Outcome)
  pub meanwhile : Table → Table
  pub beat_refused : Bool

pub data Codes : Type 0 where
  lease_lost unsupported : Codes

-- The numbers of the exceptions that the worker itself raises.
abbrev code_of : Codes → ℕ
code_of lease_lost = 1
code_of unsupported = 2

-- `ensure_lease`: true where it returns, false where it raises.
unfoldable pub ensure_lease : Bool → ℕ → ℕ → Option ℕ → Option ℕ → Table → Bool
ensure_lease lost id worker none version rows = not lost
ensure_lease lost id worker (some token) none rows = not lost
ensure_lease lost id worker (some token) (some v) rows =
    not lost && has_lease id worker (some token) (some v) rows

abbrev pub owner_of : ℕ → Task → Owner
owner_of worker t = record {
  worker = some worker;
  token = t.lease_token;
  version = some t.lease_version;
}

-- The two ways out of the `try`.
unfoldable pub settle : Surroundings → ℕ → Task → Outcome → Table → Table
settle w worker t (returned result) rows =
    (mark_finished w.end_time t.id succeeded (some result) none (owner_of worker t) rows).0
settle w worker t (raised code) rows = (mark_failed w.end_time t.id code (owner_of worker t) rows).0

-- The lease test that follows a handler that returned.
unfoldable pub judge : Bool → Outcome → Outcome
judge kept (raised code) = raised code
judge true (returned result) = returned result
judge false (returned result) = raised (code_of lease_lost)

-- The body of the `with`: the lease is tested before the handler and after it.
unfoldable pub run_handler : Surroundings → ℕ → Task → (Task → Outcome) → Table → Outcome × Table
unfolding ensure_lease judge
run_handler w worker t handler rows =
    let (rows1, beating) =
      heartbeat w.beat_time t.id worker none t.lease_token (some t.lease_version) rows in
    let rows2 = w.meanwhile rows1 in
    let kept = ensure_lease w.beat_refused t.id worker t.lease_token (some t.lease_version) rows2 in
    if ensure_lease (not beating) t.id worker t.lease_token (some t.lease_version) rows1
    then (judge kept (handler t), rows2)
    else (raised (code_of lease_lost), rows1)

unfoldable pub work_on : Surroundings → ℕ → Task → Table → Table
unfolding run_handler settle
work_on w worker t rows = elim (w.handlers t.task_type) [
  | none ↦ settle w worker t (raised (code_of unsupported)) rows
  | some handler ↦
      let (outcome, rows') = run_handler w worker t handler rows in settle w worker t outcome rows'
]

-- The task that the call takes: a named one, or the next.
unfoldable pub take_job : Claimant → Option ℕ → Table → Table × Option Task
take_job c none rows = claim_next c rows
take_job c (some zero) rows = claim_next c rows
take_job c (some (suc id)) rows = claim (suc id) c.worker c.now c.token rows

unfoldable pub process_one_job : Surroundings → Claimant → Option ℕ → Table → Table × Bool
unfolding work_on take_job
process_one_job w c job_id rows =
    let (rows', task) = take_job c job_id rows in
    elim task [ none ↦ (rows', false) | some t ↦ (work_on w c.worker t rows', true) ]
