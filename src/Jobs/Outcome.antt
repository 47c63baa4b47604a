-- ===== src/Jobs/Outcome.antt =====
-- What `process_one_job` leaves in the table.
use stock_agent.Base.{
  ℕ, zero, suc, ◌≡◌, refl, sym, ap, ◌∙◌, subst, ◌≢◌, true, false, not, Option, none, some, arith,
  is_truthy,
}
use stock_agent.Base.Rows.{IsUnique, matches-found, get_row-update_self}
use stock_agent.Jobs.Task.{Task, Table, succeeded, get, heartbeat, has_lease, owns}
use stock_agent.Jobs.Finish.{mark_finished, may_end, finish_row}
use stock_agent.Jobs.Lease.{IsFenced, stale-IsFenced}
use stock_agent.Jobs.Worker.{
  Outcome, returned, raised, Surroundings, ensure_lease, owner_of, settle, run_handler, work_on,
}

-- The table after the worker's first heartbeat.
abbrev pub beaten_table : Surroundings → ℕ → Task → Table → Table
beaten_table w worker t rows =
    (heartbeat w.beat_time t.id worker none t.lease_token (some t.lease_version) rows).0

-- The lease test before the handler passes.
abbrev pub HoldsAtStart : Surroundings → ℕ → Task → Table → Type 0
HoldsAtStart w worker t rows =
    let (rows1, beating) =
      heartbeat w.beat_time t.id worker none t.lease_token (some t.lease_version) rows in
    ensure_lease (not beating) t.id worker t.lease_token (some t.lease_version) rows1 ≡ true

settle-fenced :
    (w : Surroundings) (worker : ℕ) (t : Task) (outcome : Outcome) (rows : Table)
    → IsFenced t.id t.lease_version rows
    → settle w worker t outcome rows ≡ rows
unfolding settle
settle-fenced w worker t (returned result) rows f =
    ap (λ x. x.0) (f.no_finish w.end_time succeeded (some result) none (some worker) t.lease_token)
settle-fenced w worker t (raised code) rows f =
    ap (λ x. x.0) (f.no_fail w.end_time code (some worker) t.lease_token)

run_handler-table :
    (w : Surroundings) (worker : ℕ) (t : Task) (handler : Task → Outcome) (rows : Table)
    → HoldsAtStart w worker t rows
    → (run_handler w worker t handler rows).1 ≡ w.meanwhile (beaten_table w worker t rows)
unfolding run_handler
run_handler-table w worker t handler rows h = rw h

-- A worker whose task was taken over while its handler ran leaves the table as the others left
-- it, whether the handler returned or raised.
pub work_on-fenced :
    (w : Surroundings) (worker : ℕ) (t r : Task) (handler : Task → Outcome) (rows : Table)
    → w.handlers t.task_type ≡ some handler
    → HoldsAtStart w worker t rows
    → IsUnique Task.id (w.meanwhile (beaten_table w worker t rows))
    → get t.id (w.meanwhile (beaten_table w worker t rows)) ≡ some r
    → r.lease_version ≢ t.lease_version
    → work_on w worker t rows ≡ w.meanwhile (beaten_table w worker t rows)
unfolding work_on
work_on-fenced w worker t r handler rows known holds u found stale =
    let later = w.meanwhile (beaten_table w worker t rows) in
    let out = run_handler w worker t handler rows in
    let table_is = run_handler-table w worker t handler rows holds in
    let fenced = stale-IsFenced t.id t.lease_version _ r u found stale in
    rw (known, work_on)
      (subst (λ x. settle w worker t out.0 x ≡ later) (sym table_is)
        (settle-fenced w worker t out.0 later fenced))

kept_lease :
    (id worker : ℕ) (token : Option ℕ) (v : ℕ) (rows : Table) (r : Task)
    → IsUnique Task.id rows
    → get id rows ≡ some r
    → is_truthy token ≡ true
    → owns worker token (some v) r ≡ true
    → ensure_lease false id worker token (some v) rows ≡ true
unfolding ensure_lease has_lease
kept_lease id worker none v rows r u found h o = cc
kept_lease id worker (some token) v rows r u found h o =
    rw (h, matches-found Task.id id (owns worker (some token) (some v)) rows u found, o)

owner_may_end :
    (worker : ℕ) (t r : Task)
    → owns worker t.lease_token (some t.lease_version) r ≡ true
    → may_end (owner_of worker t) r ≡ true
owner_may_end zero t r h = ground arith
owner_may_end (suc worker) t r h = ground arith

run_handler-returned :
    (w : Surroundings) (worker : ℕ) (t r : Task) (handler : Task → Outcome) (rows : Table)
    (result : ℕ)
    → HoldsAtStart w worker t rows
    → ensure_lease w.beat_refused t.id worker t.lease_token
        (some t.lease_version)
        (w.meanwhile (beaten_table w worker t rows))
      ≡ true
    → handler t ≡ returned result
    → run_handler w worker t handler rows
      ≡ (returned result, w.meanwhile (beaten_table w worker t rows))
unfolding run_handler
run_handler-returned w worker t r handler rows result holds kept e = rw (holds, kept, e)

-- A worker that keeps its lease records what its handler returned: the row ends as SUCCEEDED
-- with the result, and nothing else of it but the error, the end time and the progress changes.
pub work_on-succeeds :
    (w : Surroundings) (worker : ℕ) (t r : Task) (handler : Task → Outcome) (rows : Table)
    (result : ℕ)
    → w.handlers t.task_type ≡ some handler
    → handler t ≡ returned result
    → w.beat_refused ≡ false
    → is_truthy t.lease_token ≡ true
    → HoldsAtStart w worker t rows
    → IsUnique Task.id (w.meanwhile (beaten_table w worker t rows))
    → get t.id (w.meanwhile (beaten_table w worker t rows)) ≡ some r
    → owns worker t.lease_token (some t.lease_version) r ≡ true
    → get t.id (work_on w worker t rows)
      ≡ some (finish_row w.end_time succeeded (some result) none r)
unfolding work_on settle mark_finished
work_on-succeeds w worker t r handler rows result known returns quiet token holds u found owner =
    let later = w.meanwhile (beaten_table w worker t rows) in
    let o = owner_of worker t in
    let kept = kept_lease t.id worker t.lease_token t.lease_version later r u found token owner in
    let run = run_handler-returned w worker t r handler rows result holds (rw quiet kept) returns in
    let step =
      get_row-update_self Task.id t.id (may_end o)
        (finish_row w.end_time succeeded (some result) none) (λ x. refl) later found in
    rw (known, run, work_on) (step ∙ rw (owner_may_end worker t r owner))
