-- ===== src/Jobs/History.antt =====
-- What the calls do to one row over time: which changes are possible, that ended tasks stay as
-- they are, and that a lost lease stays lost.
use stock_agent.Base.{
  ℕ, ◌≤◌, ◌<◌, ◌≡◌, refl, ap, ◌∙◌, subst, Bool, true, false, ◌&&◌, inl, inr, Option, some, [], ◌∷◌,
  ◌++◌, arith, ◌==◌, if◌then◌else◌, Bool-cases, Option-cases,
}
use stock_agent.Base.Rows.{update, matches, with_key, get_row-update, get_row-append_old}
use stock_agent.Jobs.Task.{
  Task, Table, Status, succeeded, failed_final, cancelled, get, create, existing, insert, new_task,
  heartbeat, owns, beat_row,
}
use stock_agent.Jobs.Claim.{
  Claimant, is_claimable, claim_row, earliest, is_eligible, claim, has_waiting_status, restart_row,
}
use stock_agent.Jobs.Lease.{claimed, claim_next-found, claim_next-unfound, IsFenced, stale-IsFenced}
use stock_agent.Jobs.Finish.{
  Owner, may_end, passes_checks, finish_row, mark_finished, fail_row, mark_failed, can_cancel,
  cancel,
}
use stock_agent.Jobs.Invariant.{
  IsSoundTable, Step, created, taken_next, taken, beaten, finished, failed, given_up,
  Step-IsSoundTable,
}

-- The ways a row may change in one call, each with the test that the WHERE clause makes.
pub data RowStep (r r' : Task) : Type 0 where
  kept : r' ≡ r → RowStep r r'
  reclaimed : (c : Claimant) → is_claimable c r ≡ true → r' ≡ claim_row c r → RowStep r r'
  restarted :
      (worker now token : ℕ)
      → has_waiting_status r ≡ true
      → r' ≡ restart_row worker now token r
      → RowStep r r'
  beat :
      (now worker : ℕ) (progress token version : Option ℕ)
      → owns worker token version r ≡ true
      → r' ≡ beat_row now progress r
      → RowStep r r'
  done :
      (now : ℕ) (status : Status) (result error : Option ℕ) (o : Owner)
      → may_end o r ≡ true
      → r' ≡ finish_row now status result error r
      → RowStep r r'
  broken :
      (now error : ℕ) (o : Owner) → may_end o r ≡ true → r' ≡ fail_row now error r r → RowStep r r'
  dropped : can_cancel r ≡ true → r' ≡ record r { status = cancelled } → RowStep r r'

-- What one call leaves under an id that was in the table.
pub record Leaves (id : ℕ) (r : Task) (rows' : Table) : Type 0 where
  pub row : Task
  pub is_there : get id rows' ≡ some row
  pub by_step : RowStep r row

module _ (id k : ℕ) (test : Task → Bool) (change : Task → Task)
    (same_id : (r : Task) → (change r).id ≡ r.id) where
  update-Leaves_at :
      (rows : Table) (r : Task)
      → get id rows ≡ some r
      → (id ≡ k → test r ≡ true → RowStep r (change r))
      → Leaves id r (update (with_key Task.id k test) change rows)
  update-Leaves_at rows r found step = record {
    row = if (id == k) && test r then change r else r;
    is_there = get_row-update Task.id k test change same_id id rows found;
    by_step = elim (Bool-cases ((id == k) && test r)) [
      | inl e ↦ rw e (step (ground arith) (ground arith))
      | inr e ↦ rw e (kept refl)
    ];
  }

  update-Leaves :
      (rows : Table) (r : Task)
      → get id rows ≡ some r
      → (test r ≡ true → RowStep r (change r))
      → Leaves id r (update (with_key Task.id k test) change rows)
  update-Leaves rows r found step = update-Leaves_at rows r found (λ same. step)

same-Leaves : (id : ℕ) (rows : Table) (r : Task) → get id rows ≡ some r → Leaves id r rows
same-Leaves id rows r found = record { row = r; is_there = found; by_step = kept refl }

insert-Leaves :
    (id : ℕ) (t : Task) (rows rows' : Table) (o : Option Task) (r : Task)
    → get id rows ≡ some r
    → insert t rows ≡ some (rows', o)
    → Leaves id r rows'
unfolding insert
insert-Leaves id t rows rows' o r found e = elim (Option-cases (get t.id rows)) [
  | inl fresh ↦
      let rows_are : rows ++ t ∷ [] ≡ rows' = ground arith in
      subst (Leaves id r) rows_are
        (same-Leaves id (rows ++ t ∷ []) r (get_row-append_old Task.id id rows t found))
  | inr (s, known) ↦ ground arith
]

mark_failed-Leaves :
    (id now k error : ℕ) (o : Owner) (rows : Table) (r : Task)
    → get id rows ≡ some r
    → Leaves id r (mark_failed now k error o rows).0
unfolding mark_failed
mark_failed-Leaves id now k error o rows r found = elim (Option-cases (get k rows)) [
  | inl n ↦ rw (n, mark_failed) (same-Leaves id rows r found)
  | inr (read, e) ↦ elim (Bool-cases (passes_checks o read)) [
    | inr refused ↦ rw (e, refused, mark_failed) (same-Leaves id rows r found)
    | inl passed ↦
        rw (e, passed, mark_failed)
          (update-Leaves_at id k (may_end o) (fail_row now error read) (λ x. refl) rows r found
            (λ same h. broken now error o h (
              let read_is : read ≡ r = cc (let e' : get id rows ≡ some read = rw same e in e') in
              rw read_is)))
  ]
]

-- One call changes the row under an id in one of the listed ways, or not at all.
pub Step-Leaves :
    (id : ℕ) {rows rows' : Table} (r : Task)
    → Step rows rows'
    → IsSoundTable rows
    → get id rows ≡ some r
    → Leaves id r rows'
unfolding create heartbeat mark_finished cancel claim
Step-Leaves id {rows} {rows'} r (created n now ty payload key m start {t = t} e) s found =
    elim (Option-cases (existing key rows)) [
      | inr (old, known) ↦ subst (Leaves id r) (ground arith) (same-Leaves id rows r found)
      | inl new ↦
          insert-Leaves id (new_task n now ty payload key m start) rows rows' t r found
            (ground arith)
    ]
Step-Leaves id {rows} r (taken_next c) s found =
    elim (Option-cases (earliest (is_eligible c) rows)) [
      | inl n ↦ rw (claim_next-unfound c rows n) (same-Leaves id rows r found)
      | inr (t, e) ↦ rw (claim_next-found c rows t s.unique e) (
          unfold claimed in
          update-Leaves id t.id (is_claimable c) (claim_row c) (λ x. refl) rows r found
            (λ h. reclaimed c h refl))
    ]
Step-Leaves id {rows} r (taken k worker now token) s found =
    elim (Bool-cases (matches (with_key Task.id k has_waiting_status) rows)) [
      | inr e ↦ rw (e, claim) (same-Leaves id rows r found)
      | inl e ↦
          rw (e, claim)
            (update-Leaves id k has_waiting_status (restart_row worker now token) (λ x. refl) rows r
              found (λ h. restarted worker now token h refl))
    ]
Step-Leaves id {rows} r (beaten now k worker progress token version) s found =
    update-Leaves id k (owns worker token version) (beat_row now progress) (λ x. refl) rows r found
      (λ h. beat now worker progress token version h refl)
Step-Leaves id {rows} r (finished now k status result error o) s found =
    update-Leaves id k (may_end o) (finish_row now status result error) (λ x. refl) rows r found
      (λ h. done now status result error o h refl)
Step-Leaves id {rows} r (failed now k error o) s found =
    mark_failed-Leaves id now k error o rows r found
Step-Leaves id {rows} r (given_up k) s found =
    update-Leaves id k can_cancel (λ x. record x { status = cancelled }) (λ x. refl) rows r found
      (λ h. dropped h refl)

abbrev pub is_ended : Status → Bool
is_ended succeeded = true
is_ended failed_final = true
is_ended cancelled = true
is_ended _ = false

RowStep-ended : (r r' : Task) → RowStep r r' → is_ended r.status ≡ true → r' ≡ r
RowStep-ended r r' (kept e) h = e
RowStep-ended r r' (reclaimed c t e) h = ground arith
RowStep-ended r r' (restarted worker now token t e) h = ground arith
RowStep-ended r r' (beat now worker progress token version t e) h = ground arith
RowStep-ended r r' (done now status result error o t e) h = ground arith
RowStep-ended r r' (broken now error o t e) h = ground arith
RowStep-ended r r' (dropped t e) h = ground arith

RowStep-version : (r r' : Task) → RowStep r r' → r.lease_version ≤ r'.lease_version
RowStep-version r r' (kept e) = ground arith
RowStep-version r r' (reclaimed c t e) = ground arith
RowStep-version r r' (restarted worker now token t e) = ground arith
RowStep-version r r' (beat now worker progress token version t e) = ground arith
RowStep-version r r' (done now status result error o t e) = ground arith
RowStep-version r r' (broken now error o t e) = ground arith
RowStep-version r r' (dropped t e) = ground arith

-- Any number of calls.
pub data Later (rows : Table) : Table → Type 0 where
  at_once : Later rows rows
  then_step : {mid last : Table} → Later rows mid → Step mid last → Later rows last

Later-IsSoundTable : {rows last : Table} → Later rows last → IsSoundTable rows → IsSoundTable last
Later-IsSoundTable at_once s = s
Later-IsSoundTable (then_step l st) s = Step-IsSoundTable st (Later-IsSoundTable l s)

-- In a sound table a task that has succeeded, failed for good or been cancelled is never written
-- again, whatever calls follow (all but `mark_running`, which nothing calls).
pub ended_stays :
    (id : ℕ) {rows last : Table} (r : Task)
    → Later rows last
    → IsSoundTable rows
    → get id rows ≡ some r
    → is_ended r.status ≡ true
    → get id last ≡ some r
ended_stays id r at_once s found h = found
ended_stays id r (then_step l st) s found h =
    let before = ended_stays id r l s found h in
    let v = Step-Leaves id r st (Later-IsSoundTable l s) before in
    v.is_there ∙ ap some (RowStep-ended r v.row v.by_step h)

-- The row is still there, and its lease version has not gone down.
record Aged (id : ℕ) (r : Task) (last : Table) : Type 0 where
  row : Task
  is_there : get id last ≡ some row
  grown : r.lease_version ≤ row.lease_version

Later-Aged :
    (id : ℕ) {rows last : Table} (r : Task)
    → Later rows last
    → IsSoundTable rows
    → get id rows ≡ some r
    → Aged id r last
Later-Aged id r at_once s found = record { row = r; is_there = found; grown = omega arith }
Later-Aged id r (then_step l st) s found =
    let before = Later-Aged id r l s found in
    let v = Step-Leaves id before.row st (Later-IsSoundTable l s) before.is_there in
    record {
      row = v.row;
      is_there = v.is_there;
      grown = omega (arith, before.grown, RowStep-version before.row v.row v.by_step);
    }

-- In a sound table a lease version below the row's is fenced off now and after any further calls
-- (all but `mark_running`, which nothing calls): a worker that lost its lease once can never again
-- finish, fail or beat the task.
pub lost_lease_stays_lost :
    (id v : ℕ) {rows last : Table} (r : Task)
    → Later rows last
    → IsSoundTable rows
    → get id rows ≡ some r
    → v < r.lease_version
    → IsFenced id v last
lost_lease_stays_lost id v r l s found older =
    let aged = Later-Aged id r l s found in
    stale-IsFenced id v _ aged.row (Later-IsSoundTable l s).unique aged.is_there
      (λ e. omega (arith, aged.grown))
