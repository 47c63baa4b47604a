-- ===== src/Jobs/Invariant.antt =====
-- What holds of the table however the workers' calls interleave.
use stock_agent.Base.{
  ℕ, ◌+◌, ◌≤◌, ◌<◌, ◌≡◌, refl, subst, ◌≢◌, Bool, true, inl, inr, Option, none, some, [], ◌∷◌, ◌++◌,
  arith, Bool-cases, Option-cases, All,
}
use stock_agent.Base.Rows.{
  update, matches, with_key, IsUnique, update-IsUnique, All-update, All-update_key, append-IsUnique,
  All-append,
}
use stock_agent.Jobs.Task.{
  Task, Table, Status, running, succeeded, failed_final, cancelled, get, create, existing, insert,
  new_task, heartbeat, owns, beat_row,
}
use stock_agent.Jobs.Claim.{
  Claimant, is_claimable, claim_row, earliest, is_eligible, claim_next, claim, has_waiting_status,
  restart_row,
}
use stock_agent.Jobs.Lease.{claimed, claim_next-found, claim_next-unfound}
use stock_agent.Jobs.Finish.{
  Owner, may_end, passes_checks, finish_row, mark_finished, fail_row, mark_failed, can_cancel,
  cancel,
}

-- A running task has a holder, a lease and a heartbeat; only a final failure has used up its
-- retries; a success is complete.
pub record IsSound (r : Task) : Type 0 where
  pub held :
      r.status ≡ running → (r.worker_id ≢ none) × (r.lease_token ≢ none) × (r.heartbeat_at ≢ none)
  pub leased : r.status ≡ running → 0 < r.lease_version
  pub retries_left : r.status ≢ failed_final → r.retry_count ≤ r.max_retries
  pub retries_bounded : r.retry_count ≤ r.max_retries + 1
  pub complete : r.status ≡ succeeded → r.progress ≡ 10000

pub record IsSoundTable (rows : Table) : Type 0 where
  pub unique : IsUnique Task.id rows
  pub sound : All IsSound rows

-- One call by a client or a worker, with any arguments. `mark_running`, which nothing in the
-- repository calls, is no step: it has no test of the status.
pub data Step (rows : Table) : Table → Type 0 where
  created :
      (id now task_type payload : ℕ) (key : Option ℕ) (max_retries : ℕ) (not_before : Option ℕ)
      {rows' : Table} {t : Option Task}
      → create id now task_type payload key max_retries not_before rows ≡ some (rows', t)
      → Step rows rows'
  taken_next : (c : Claimant) → Step rows (claim_next c rows).0
  taken : (id worker now token : ℕ) → Step rows (claim id worker now token rows).0
  beaten :
      (now id worker : ℕ) (progress token version : Option ℕ)
      → Step rows (heartbeat now id worker progress token version rows).0
  finished :
      (now id : ℕ) (status : Status) (result error : Option ℕ) (o : Owner)
      → Step rows (mark_finished now id status result error o rows).0
  failed : (now id error : ℕ) (o : Owner) → Step rows (mark_failed now id error o rows).0
  given_up : (id : ℕ) → Step rows (cancel id rows).0

pub data Reach : Table → Type 0 where
  empty : Reach []
  next : {rows rows' : Table} → Reach rows → Step rows rows' → Reach rows'

claim_row-IsSound :
    (c : Claimant) (r : Task) → IsSound r → is_claimable c r ≡ true → IsSound (claim_row c r)
claim_row-IsSound c r s h = ground arith

restart_row-IsSound :
    (worker now token : ℕ) (r : Task)
    → IsSound r
    → has_waiting_status r ≡ true
    → IsSound (restart_row worker now token r)
restart_row-IsSound worker now token r s h = ground arith

beat_row-IsSound :
    (now worker : ℕ) (progress token version : Option ℕ) (r : Task)
    → IsSound r
    → owns worker token version r ≡ true
    → IsSound (beat_row now progress r)
beat_row-IsSound now worker progress token version r s h = ground arith

finish_row-IsSound :
    (now : ℕ) (status : Status) (result error : Option ℕ) (o : Owner) (r : Task)
    → IsSound r
    → may_end o r ≡ true
    → IsSound (finish_row now status result error r)
finish_row-IsSound now status result error o r s h = ground arith

fail_row-IsSound :
    (now error : ℕ) (o : Owner) (r : Task)
    → IsSound r
    → may_end o r ≡ true
    → IsSound (fail_row now error r r)
fail_row-IsSound now error o r s h = ground arith

cancel_row-IsSound :
    (r : Task) → IsSound r → can_cancel r ≡ true → IsSound (record r { status = cancelled })
cancel_row-IsSound r s h = ground arith

new_task-IsSound :
    (id now task_type payload : ℕ) (key : Option ℕ) (max_retries : ℕ) (not_before : Option ℕ)
    → IsSound (new_task id now task_type payload key max_retries not_before)
new_task-IsSound id now task_type payload key max_retries not_before = ground arith

-- An UPDATE by key that keeps the key and each row's soundness keeps the table's.
module _ (id : ℕ) (test : Task → Bool) (change : Task → Task)
    (same_id : (r : Task) → (change r).id ≡ r.id)
    (keeps : (r : Task) → IsSound r → test r ≡ true → IsSound (change r)) where
  both_tests : (r : Task) → IsSound r → with_key Task.id id test r ≡ true → IsSound (change r)
  both_tests r s h = keeps r s (ground arith)

  update-IsSoundTable :
      (rows : Table)
      → IsSoundTable rows
      → IsSoundTable (update (with_key Task.id id test) change rows)
  update-IsSoundTable rows s = record {
    unique = update-IsUnique Task.id id test change same_id rows s.unique;
    sound = All-update IsSound (with_key Task.id id test) change both_tests rows s.sound;
  }

insert-IsSoundTable :
    (t : Task) (rows rows' : Table) (o : Option Task)
    → IsSound t
    → IsSoundTable rows
    → insert t rows ≡ some (rows', o)
    → IsSoundTable rows'
unfolding insert
insert-IsSoundTable t rows rows' o h s e = elim (Option-cases (get t.id rows)) [
  | inl fresh ↦
      let rows_are : rows ++ t ∷ [] ≡ rows' = ground arith in
      subst IsSoundTable rows_are (record {
        unique = append-IsUnique Task.id rows t s.unique fresh;
        sound = All-append IsSound rows t s.sound h;
      })
  | inr (r, known) ↦ ground arith
]

create-IsSoundTable :
    (id now task_type payload : ℕ) (key : Option ℕ) (max_retries : ℕ) (not_before : Option ℕ)
    (rows rows' : Table) (t : Option Task)
    → IsSoundTable rows
    → create id now task_type payload key max_retries not_before rows ≡ some (rows', t)
    → IsSoundTable rows'
unfolding create
create-IsSoundTable id now task_type payload key max_retries not_before rows rows' t s e =
    elim (Option-cases (existing key rows)) [
      | inr (r, old) ↦ subst IsSoundTable (ground arith) s
      | inl new ↦
          insert-IsSoundTable (new_task id now task_type payload key max_retries not_before) rows
            rows' t (new_task-IsSound id now task_type payload key max_retries not_before) s
            (ground arith)
    ]

claim_next-IsSoundTable :
    (c : Claimant) (rows : Table) → IsSoundTable rows → IsSoundTable (claim_next c rows).0
claim_next-IsSoundTable c rows s = elim (Option-cases (earliest (is_eligible c) rows)) [
  | inl n ↦ rw (claim_next-unfound c rows n) s
  | inr (r, e) ↦ rw (claim_next-found c rows r s.unique e) (
      unfold claimed in
      update-IsSoundTable r.id (is_claimable c) (claim_row c) (λ x. refl) (claim_row-IsSound c) rows
        s)
]

claim-IsSoundTable :
    (id worker now token : ℕ) (rows : Table)
    → IsSoundTable rows
    → IsSoundTable (claim id worker now token rows).0
unfolding claim
claim-IsSoundTable id worker now token rows s =
    elim (Bool-cases (matches (with_key Task.id id has_waiting_status) rows)) [
      | inr e ↦ rw (e, claim) s
      | inl e ↦
          rw (e, claim)
            (update-IsSoundTable id has_waiting_status (restart_row worker now token) (λ x. refl)
              (restart_row-IsSound worker now token) rows s)
    ]

-- The row that `mark_failed` reads is the row that it writes.
mark_failed-IsSoundTable :
    (now id error : ℕ) (o : Owner) (rows : Table)
    → IsSoundTable rows
    → IsSoundTable (mark_failed now id error o rows).0
unfolding mark_failed
mark_failed-IsSoundTable now id error o rows s = elim (Option-cases (get id rows)) [
  | inl n ↦ rw (n, mark_failed) s
  | inr (r, found) ↦ elim (Bool-cases (passes_checks o r)) [
    | inr refused ↦ rw (found, refused, mark_failed) s
    | inl passed ↦
        rw (found, passed, mark_failed)
          (record {
            unique =
                update-IsUnique Task.id id (may_end o) (fail_row now error r) (λ x. refl) rows
                  s.unique;
            sound =
                All-update_key Task.id IsSound id (may_end o) (fail_row now error r) rows s.unique
                  found s.sound (λ h t. fail_row-IsSound now error o r h t);
          })
  ]
]

-- Every call keeps the table sound.
pub Step-IsSoundTable :
    {rows rows' : Table} → Step rows rows' → IsSoundTable rows → IsSoundTable rows'
unfolding heartbeat mark_finished cancel
Step-IsSoundTable {rows} {rows'} (created id now ty payload key n start {t = t} e) s =
    create-IsSoundTable id now ty payload key n start rows rows' t s e
Step-IsSoundTable {rows} (taken_next c) s = claim_next-IsSoundTable c rows s
Step-IsSoundTable {rows} (taken id worker now token) s =
    claim-IsSoundTable id worker now token rows s
Step-IsSoundTable {rows} (beaten now id worker progress token version) s =
    update-IsSoundTable id (owns worker token version) (beat_row now progress) (λ x. refl)
      (beat_row-IsSound now worker progress token version) rows s
Step-IsSoundTable {rows} (finished now id status result error o) s =
    update-IsSoundTable id (may_end o) (finish_row now status result error) (λ x. refl)
      (finish_row-IsSound now status result error o) rows s
Step-IsSoundTable {rows} (failed now id error o) s = mark_failed-IsSoundTable now id error o rows s
Step-IsSoundTable {rows} (given_up id) s =
    update-IsSoundTable id can_cancel (λ r. record r { status = cancelled }) (λ x. refl)
      cancel_row-IsSound rows s

-- However calls with any arguments follow one another from the empty table (calls of create,
-- claim_next, claim, heartbeat, mark_finished, mark_failed and cancel, but not of `mark_running`,
-- which nothing calls), ids stay unique and every row is sound.
pub Reach-IsSoundTable : {rows : Table} → Reach rows → IsSoundTable rows
Reach-IsSoundTable empty = record { unique = tt; sound = tt }
Reach-IsSoundTable (next r st) = Step-IsSoundTable st (Reach-IsSoundTable r)
