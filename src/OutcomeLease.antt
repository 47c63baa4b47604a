-- ===== src/OutcomeLease.antt =====
-- `OutcomeLeaseRepository` of app/application/outcomes/lease_repository.py: leases on the
-- evaluation of a decision's outcome, kept in memory or in `decision_outcome_runs`.
pub mod Laws
mod Tests
use stock_agent.Base.{
  ℕ, zero, suc, ◌+◌, max, Bool, true, false, not, ◌&&◌, ◌||◌, Option, none, some, ltb, leb, ◌==◌,
  if◌then◌else◌, holds_value, ◌≡◌, arith,
}

pub record Lease : Type 0 where
  pub decision_snapshot_id : ℕ
  pub owner_id : ℕ
  pub fencing_token : ℕ
  pub lease_expires_at : ℕ

pub data RunStatus : Type 0 where
  running succeeded : RunStatus

-- A row of `decision_outcome_runs`; a stored result is the result that was encoded.
pub record Run : Type 0 where
  pub status : RunStatus
  pub owner_id : ℕ
  pub fencing_token : ℕ
  pub lease_expires_at : Option ℕ
  pub result_json : Option ℕ
  pub result_hash : Option ℕ

-- The two dicts and the table, by snapshot id.
pub record Repository : Type 0 where
  pub persistent : Bool
  pub leases : ℕ → Option Lease
  pub results : ℕ → Option ℕ
  pub runs : ℕ → Option Run

abbrev pub put {ℓ} : {A : Type ℓ} → ℕ → A → (ℕ → Option A) → ℕ → Option A
put k v m j = if j == k then some v else m j

abbrev pub is_succeeded : RunStatus → Bool
is_succeeded succeeded = true
is_succeeded running = false

-- lease_expires_at IS NULL OR lease_expires_at <= :now
abbrev pub has_lapsed : ℕ → Run → Bool
has_lapsed now r = elim r.lease_expires_at [ none ↦ true | some t ↦ leb t now ]

-- lease_expires_at > :now
abbrev pub is_current : ℕ → Run → Bool
is_current now r = elim r.lease_expires_at [ none ↦ false | some t ↦ ltb now t ]

-- The mirror of a lease kept in memory; `reachable` is false where the database raises.
persist_lease : Bool → Lease → (ℕ → Option Run) → ℕ → Option Run
persist_lease false l runs = runs
persist_lease true l runs =
    put l.decision_snapshot_id
      (elim (runs l.decision_snapshot_id) [
        | none ↦ record {
          status = running;
          owner_id = l.owner_id;
          fencing_token = l.fencing_token;
          lease_expires_at = some l.lease_expires_at;
          result_json = none;
          result_hash = none;
        }
        | some r ↦ record r {
          owner_id = l.owner_id;
          fencing_token = l.fencing_token;
          lease_expires_at = some l.lease_expires_at;
        }
      ])
      runs

abbrev record_result : Lease → ℕ → ℕ → Option Run → Option Run
record_result l result j none = none
record_result l result j (some r) =
    if j == l.decision_snapshot_id && r.owner_id == l.owner_id && r.fencing_token == l.fencing_token
    then some (record r { status = succeeded; result_json = some result })
    else some r

persist_result : Bool → Lease → ℕ → (ℕ → Option Run) → ℕ → Option Run
persist_result false l result runs = runs
persist_result true l result runs = λ j. record_result l result j (runs j)

-- Another owner holds the snapshot.
abbrev pub is_held : ℕ → ℕ → Option Lease → Bool
is_held now owner none = false
is_held now owner (some old) = ltb now old.lease_expires_at && not (old.owner_id == owner)

abbrev next_token : Option Lease → ℕ
next_token none = 1
next_token (some old) = old.fencing_token + 1

claim_memory : Bool → ℕ → ℕ → ℕ → ℕ → Repository → Repository × Option Lease
claim_memory reachable now snapshot owner seconds s =
    let lease : Lease = record {
      decision_snapshot_id = snapshot;
      owner_id = owner;
      fencing_token = next_token (s.leases snapshot);
      lease_expires_at = now + max 1 seconds;
    } in
    if is_held now owner (s.leases snapshot) then (s, none) else (
      record s {
        leases = put snapshot lease s.leases;
        runs = persist_lease reachable lease s.runs;
      },
      some lease,
    )

-- status <> 'SUCCEEDED' AND (lapsed OR owner_id=:owner)
abbrev pub can_renew : ℕ → ℕ → Run → Bool
can_renew now owner r = not (is_succeeded r.status) && (has_lapsed now r || r.owner_id == owner)

claim_persistent : ℕ → ℕ → ℕ → ℕ → Repository → Repository × Option Lease
claim_persistent now snapshot owner seconds s =
    let expires = now + max 1 seconds in
    elim (s.runs snapshot) [
      | none ↦ (
        record s {
          runs =
              put snapshot
                (record {
                  status = running;
                  owner_id = owner;
                  fencing_token = 1;
                  lease_expires_at = some expires;
                  result_json = none;
                  result_hash = none;
                })
                s.runs;
        },
        some (record {
          decision_snapshot_id = snapshot;
          owner_id = owner;
          fencing_token = 1;
          lease_expires_at = expires;
        }),
      )
      | some r ↦
          if can_renew now owner r
          then (
            record s {
              runs =
                  put snapshot
                    (record r {
                      status = running;
                      owner_id = owner;
                      fencing_token = r.fencing_token + 1;
                      lease_expires_at = some expires;
                    })
                    s.runs;
            },
            some (record {
              decision_snapshot_id = snapshot;
              owner_id = owner;
              fencing_token = r.fencing_token + 1;
              lease_expires_at = expires;
            }),
          )
          else (s, none)
    ]

unfoldable pub claim : Bool → ℕ → ℕ → ℕ → ℕ → Repository → Repository × Option Lease
unfolding claim_memory claim_persistent persist_lease
claim reachable now snapshot owner seconds s =
    if s.persistent
    then claim_persistent now snapshot owner seconds s
    else claim_memory reachable now snapshot owner seconds s

-- What `complete` returns, or the code of the RuntimeError that it raises.
pub data Completion : Type 0 where
  final : ℕ → Completion
  fenced conflict : Completion

abbrev pub same_lease : Lease → Lease → Bool
same_lease a b =
    a.decision_snapshot_id == b.decision_snapshot_id
    && a.owner_id == b.owner_id
    && a.fencing_token == b.fencing_token
    && a.lease_expires_at == b.lease_expires_at

-- `current == lease` and not yet expired.
abbrev pub holds : ℕ → Lease → Option Lease → Bool
holds now l none = false
holds now l (some current) = same_lease current l && ltb now current.lease_expires_at

-- The hash of a result is a parameter: sha256 of its JSON text.
module _ (result_hash : ℕ → ℕ) where
  complete_memory : Bool → ℕ → Lease → ℕ → Repository → Repository × Completion
  complete_memory reachable now l result s =
      if holds now l (s.leases l.decision_snapshot_id)
      then (elim (s.results l.decision_snapshot_id) [
        | some prior ↦
            (s, if result_hash prior == result_hash result then final prior else conflict)
        | none ↦ (
          record s {
            results = put l.decision_snapshot_id result s.results;
            runs = persist_result reachable l result s.runs;
          },
          final result,
        )
      ])
      else (s, fenced)

  -- WHERE status='RUNNING' AND owner_id=:owner AND fencing_token=:token AND not expired.
  abbrev pub may_complete : ℕ → Lease → Run → Bool
  may_complete now l r =
      not (is_succeeded r.status)
      && r.owner_id == l.owner_id
      && r.fencing_token == l.fencing_token
      && is_current now r

  abbrev stored_hash : Run → ℕ → ℕ
  stored_hash r prior = elim r.result_hash [
    | none ↦ result_hash prior
    | some zero ↦ result_hash prior
    | some (suc h) ↦ suc h
  ]

  -- What a caller whose UPDATE met no row is told.
  settled : ℕ → Run → Completion
  settled result r = elim r.result_json [
    | none ↦ fenced
    | some prior ↦
        if is_succeeded r.status
        then if stored_hash r prior == result_hash result then final prior else conflict
        else fenced
  ]

  complete_persistent : ℕ → Lease → ℕ → Repository → Repository × Completion
  complete_persistent now l result s = elim (s.runs l.decision_snapshot_id) [
    | none ↦ (s, fenced)
    | some r ↦
        if may_complete now l r
        then (
          record s {
            runs =
                put l.decision_snapshot_id
                  (record r {
                    status = succeeded;
                    result_json = some result;
                    result_hash = some (result_hash result);
                  })
                  s.runs;
          },
          final result,
        )
        else (s, settled result r)
  ]

  unfoldable pub complete : Bool → ℕ → Lease → ℕ → Repository → Repository × Completion
  unfolding complete_memory complete_persistent settled persist_result
  complete reachable now l result s =
      if s.persistent
      then complete_persistent now l result s
      else complete_memory reachable now l result s

-- `result`: a result of the table is kept in memory; `none` is an error of the database that is
-- raised, which a repository in memory takes for no result.
unfoldable pub result_of : Bool → ℕ → Repository → Option (Repository × Option ℕ)
result_of reachable snapshot s =
    let stored : Option ℕ = elim (s.runs snapshot) [ none ↦ none | some r ↦ r.result_json ] in
    elim (s.results snapshot) [
      | some v ↦ some (s, some v)
      | none ↦
          if not reachable then (if s.persistent then none else some (s, none)) else elim stored [
            | none ↦ some (s, none)
            | some v ↦ some (record s { results = put snapshot v s.results }, some v)
          ]
    ]

-- A result that was given once is given again, and nothing more is kept, also when the database
-- cannot be reached.
pub result_of-again :
    (reachable later : Bool) (snapshot v : ℕ) (s s' : Repository)
    → result_of reachable snapshot s ≡ some (s', some v)
    → result_of later snapshot s' ≡ some (s', some v)
unfolding result_of
result_of-again reachable later snapshot v s s' e = ground (arith, e)
