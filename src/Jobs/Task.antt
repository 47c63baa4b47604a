-- ===== src/Jobs/Task.antt =====
-- A row of `job_task`, the reads, `create` and `heartbeat` of
-- storage/repositories/job_repository.py. Texts are numbers, 0 the empty one; times count from a
-- fixed origin in UTC.
use stock_agent.Base.{
  ℕ, zero, suc, Bool, true, false, ◌&&◌, Option, none, some, List, [], ◌∷◌, ◌++◌, if◌then◌else◌,
  is_truthy, holds_value, clause, is_some, or_default,
}
use stock_agent.Base.Rows.{select, update, matches, get_row, with_key}

pub data Status : Type 0 where
  pending running failed_retryable succeeded failed_final cancelled : Status

pub record Task : Type 0 where
  pub id : ℕ
  pub task_type : ℕ
  pub payload : ℕ
  pub status : Status
  pub progress : ℕ  -- NUMERIC(8,4), in ten-thousandths
  pub result_ref : Option ℕ
  pub error : Option ℕ
  pub retry_count : ℕ
  pub max_retries : ℕ
  pub idempotency_key : Option ℕ
  pub worker_id : Option ℕ
  pub lease_token : Option ℕ
  pub lease_version : ℕ
  pub created_at : ℕ
  pub started_at : Option ℕ
  pub heartbeat_at : Option ℕ
  pub finished_at : Option ℕ
  pub not_before : Option ℕ

abbrev pub Table : Type 0
Table = List Task

abbrev pub is_running : Status → Bool
is_running running = true
is_running _ = false

-- status IN ('PENDING', 'FAILED_RETRYABLE')
abbrev pub is_waiting : Status → Bool
is_waiting pending = true
is_waiting failed_retryable = true
is_waiting _ = false

abbrev pub get : ℕ → Table → Option Task
get = get_row Task.id

-- WHERE idempotency_key = :key
abbrev pub has_key : ℕ → Task → Bool
has_key key r = holds_value r.idempotency_key key

unfoldable pub get_by_idempotency_key : ℕ → Table → Option Task
get_by_idempotency_key key = select (has_key key)

abbrev pub new_task : ℕ → ℕ → ℕ → ℕ → Option ℕ → ℕ → Option ℕ → Task
new_task task_id now task_type payload key max_retries not_before = record {
  id = task_id;
  task_type = task_type;
  payload = payload;
  status = pending;
  progress = 0;
  result_ref = none;
  error = none;
  retry_count = 0;
  max_retries = max_retries;
  idempotency_key = key;
  worker_id = none;
  lease_token = none;
  lease_version = 0;
  created_at = now;
  started_at = none;
  heartbeat_at = none;
  finished_at = none;
  not_before = not_before;
}

-- The INSERT: `none` stands for the violated primary key. The result is what `self.get` finds.
unfoldable pub insert : Task → Table → Option (Table × Option Task)
insert t rows =
    if is_some (get t.id rows) then none else some (rows ++ t ∷ [], get t.id (rows ++ t ∷ []))

-- The existing row, if the key is given, not empty and known.
unfoldable pub existing : Option ℕ → Table → Option Task
unfolding get_by_idempotency_key
existing none rows = none
existing (some zero) rows = none
existing (some (suc k)) rows = get_by_idempotency_key (suc k) rows

-- `task_id` is the fresh uuid; `not_before` is the wall-clock reading, its zone dropped.
unfoldable pub create :
    ℕ → ℕ → ℕ → ℕ → Option ℕ → ℕ → Option ℕ → Table → Option (Table × Option Task)
unfolding existing insert
create task_id now task_type payload key max_retries not_before rows = elim (existing key rows) [
  | some t ↦ some (rows, some t)
  | none ↦ insert (new_task task_id now task_type payload key max_retries not_before) rows
]

-- WHERE status='RUNNING' AND worker_id=:worker_id and the lease clauses.
abbrev pub owns : ℕ → Option ℕ → Option ℕ → Task → Bool
owns worker token version r =
    is_running r.status
    && holds_value r.worker_id worker
    && clause token r.lease_token
    && clause version (some r.lease_version)

abbrev pub beat_row : ℕ → Option ℕ → Task → Task
beat_row now progress r = record r {
  heartbeat_at = some now;
  progress = or_default progress r.progress;
}

unfoldable pub heartbeat : ℕ → ℕ → ℕ → Option ℕ → Option ℕ → Option ℕ → Table → Table × Bool
heartbeat now task_id worker progress token version rows = (
  update (with_key Task.id task_id (owns worker token version)) (beat_row now progress) rows,
  matches (with_key Task.id task_id (owns worker token version)) rows,
)

unfoldable pub has_lease : ℕ → ℕ → Option ℕ → Option ℕ → Table → Bool
has_lease task_id worker token none rows = false
has_lease task_id worker token (some version) rows =
    is_truthy token && matches (with_key Task.id task_id (owns worker token (some version))) rows
