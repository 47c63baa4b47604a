-- ===== src/Jobs/Claim.antt =====
-- The ways a worker takes a task: `claim_next`, `claim` and `mark_running` of
-- storage/repositories/job_repository.py.
use stock_agent.Base.{
  ℕ, ◌+◌, ◌-◌, max, Bool, true, false, not, ◌&&◌, ◌||◌, Option, none, some, List, [], ◌∷◌, ltb, leb,
  if◌then◌else◌, contains, or_default,
}
use stock_agent.Base.Rows.{update, matches, with_key}
use stock_agent.Jobs.Task.{Task, Table, running, is_running, is_waiting, get}

-- The arguments of one call: the clock's reading and the fresh token are part of it.
pub record Claimant : Type 0 where
  pub worker : ℕ
  pub now : ℕ
  pub token : ℕ
  pub task_types : List ℕ
  pub lease_seconds : ℕ

-- heartbeat_at < :lease_cutoff
abbrev pub is_expired : Claimant → Task → Bool
is_expired c r = elim r.heartbeat_at [
  | none ↦ false
  | some beat ↦ ltb beat (c.now - max c.lease_seconds 1)
]

abbrev pub is_claimable : Claimant → Task → Bool
is_claimable c r = is_waiting r.status || (is_running r.status && is_expired c r)

-- not_before IS NULL OR not_before <= :now
abbrev pub is_due : Claimant → Task → Bool
is_due c r = elim r.not_before [ none ↦ true | some start ↦ leb start c.now ]

abbrev pub accepts : List ℕ → ℕ → Bool
accepts [] task_type = true
accepts (t ∷ ts) task_type = contains task_type (t ∷ ts)

abbrev pub is_eligible : Claimant → Task → Bool
is_eligible c r = is_claimable c r && is_due c r && accepts c.task_types r.task_type

-- The SET clause of both dialects.
abbrev pub claim_row : Claimant → Task → Task
claim_row c r = record r {
  status = running;
  worker_id = some c.worker;
  started_at = some (or_default r.started_at c.now);
  heartbeat_at = some c.now;
  lease_token = some c.token;
  lease_version = r.lease_version + 1;
}

abbrev earlier : Task → Option Task → Option Task
earlier r none = some r
earlier r (some s) = if leb r.created_at s.created_at then some r else some s

-- ORDER BY created_at ASC LIMIT 1; of equal times the row that comes first, which SQL leaves open.
unfoldable pub earliest : (Task → Bool) → Table → Option Task
earliest test [] = none
earliest test (r ∷ rows) = let rest = earliest test rows in if test r then earlier r rest else rest

abbrev pub any_row : Task → Bool
any_row r = true

-- FOR UPDATE SKIP LOCKED: `locked` are the ids that other transactions hold.
unfoldable pub claim_next_postgresql : (ℕ → Bool) → Claimant → Table → Table × Option Task
claim_next_postgresql locked c rows =
    elim (earliest (λ r. is_eligible c r && not (locked r.id)) rows) [
      | none ↦ (rows, none)
      | some r ↦
          let rows' = update (with_key Task.id r.id any_row) (claim_row c) rows in
          (rows', get r.id rows')
    ]

unfoldable pub claim_next : Claimant → Table → Table × Option Task
claim_next c rows = elim (earliest (is_eligible c) rows) [
  | none ↦ (rows, none)
  | some r ↦
      if matches (with_key Task.id r.id (is_claimable c)) rows
      then (
        update (with_key Task.id r.id (is_claimable c)) (claim_row c) rows,
        some (claim_row c r),
      )
      else (rows, none)
]

abbrev pub has_waiting_status : Task → Bool
has_waiting_status r = is_waiting r.status

abbrev pub restart_row : ℕ → ℕ → ℕ → Task → Task
restart_row worker now token r = record r {
  status = running;
  worker_id = some worker;
  started_at = some now;
  heartbeat_at = some now;
  lease_token = some token;
  lease_version = r.lease_version + 1;
}

abbrev if_running : Option Task → Option Task
if_running none = none
if_running (some t) = if is_running t.status then some t else none

unfoldable pub claim : ℕ → ℕ → ℕ → ℕ → Table → Table × Option Task
claim task_id worker now token rows =
    let test = with_key Task.id task_id has_waiting_status in
    let rows' = update test (restart_row worker now token) rows in
    if matches test rows then (rows', if_running (get task_id rows')) else (rows, none)

unfoldable pub mark_running : ℕ → ℕ → ℕ → Table → Table
mark_running task_id worker now = update (with_key Task.id task_id any_row) (λ r. record r {
  status = running;
  worker_id = some worker;
  started_at = some now;
  heartbeat_at = some now;
})
