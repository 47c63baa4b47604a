-- ===== src/Jobs/Finish.antt =====
-- The ways a task ends: `mark_finished`, `mark_failed` and `cancel` of
-- storage/repositories/job_repository.py.
use stock_agent.Base.{
  ℕ, zero, suc, ◌+◌, Bool, true, false, ◌&&◌, Option, none, some, leb, if◌then◌else◌, is_truthy,
  holds_value, clause,
}
use stock_agent.Base.Rows.{update, matches, with_key}
use stock_agent.Jobs.Task.{
  Task, Table, Status, succeeded, failed_retryable, failed_final, cancelled, is_running, is_waiting,
  get,
}

-- Who ends the task: an empty `worker_id` adds no clause, a missing lease value adds none.
pub record Owner : Type 0 where
  pub worker : Option ℕ
  pub token : Option ℕ
  pub version : Option ℕ

abbrev pub owner_clause : Option ℕ → Task → Bool
owner_clause none r = true
owner_clause (some zero) r = true
owner_clause (some (suc w)) r = holds_value r.worker_id (suc w)

-- WHERE status='RUNNING' with the owner's clauses.
abbrev pub may_end : Owner → Task → Bool
may_end o r =
    is_running r.status
    && owner_clause o.worker r
    && clause o.token r.lease_token
    && clause o.version (some r.lease_version)

abbrev pub is_succeeded : Status → Bool
is_succeeded succeeded = true
is_succeeded _ = false

abbrev given : Option ℕ → Option ℕ
given error = if is_truthy error then error else none

abbrev pub finish_row : ℕ → Status → Option ℕ → Option ℕ → Task → Task
finish_row now status result_ref error r = record r {
  status = status;
  result_ref = result_ref;
  error = given error;
  finished_at = some now;
  progress = if is_succeeded status then 10000 else 0;
}

unfoldable pub mark_finished : ℕ → ℕ → Status → Option ℕ → Option ℕ → Owner → Table → Table × Bool
mark_finished now task_id status result_ref error o rows = (
  update (with_key Task.id task_id (may_end o)) (finish_row now status result_ref error) rows,
  matches (with_key Task.id task_id (may_end o)) rows,
)

abbrev pub fail_status : Task → Status
fail_status t = if leb (t.retry_count + 1) t.max_retries then failed_retryable else failed_final

-- The new count and status come from the row that was read first.
abbrev pub fail_row : ℕ → ℕ → Task → Task → Task
fail_row now error read r = record r {
  status = fail_status read;
  error = some error;
  retry_count = read.retry_count + 1;
  finished_at = some now;
  progress = 0;
}

-- The checks on the row that was read, before any write.
abbrev pub passes_checks : Owner → Task → Bool
passes_checks o t =
    owner_clause o.worker t
    && clause o.token t.lease_token
    && clause o.version (some t.lease_version)

unfoldable pub mark_failed : ℕ → ℕ → ℕ → Owner → Table → Table × Bool
mark_failed now task_id error o rows = elim (get task_id rows) [
  | none ↦ (rows, false)
  | some read ↦
      if passes_checks o read
      then (
        update (with_key Task.id task_id (may_end o)) (fail_row now error read) rows,
        matches (with_key Task.id task_id (may_end o)) rows,
      )
      else (rows, false)
]

abbrev pub can_cancel : Task → Bool
can_cancel r = is_waiting r.status

unfoldable pub cancel : ℕ → Table → Table × Bool
cancel task_id rows = (
  update (with_key Task.id task_id can_cancel) (λ r. record r { status = cancelled }) rows,
  matches (with_key Task.id task_id can_cancel) rows,
)
