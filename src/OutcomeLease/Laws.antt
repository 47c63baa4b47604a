-- ===== src/OutcomeLease/Laws.antt =====
-- Who may complete a run: claims exclude one another, a new claim supersedes the old lease, and a
-- result, once stored, is the only one.
use stock_agent.Base.{
  ℕ, suc, ◌+◌, ◌<◌, ◌≡◌, refl, ◌≢◌, Bool, true, false, none, some, arith, ◌==◌, if◌then◌else◌, ◌⊎◌,
}
use stock_agent.OutcomeLease.{
  Lease, succeeded, Run, Repository, is_current, can_renew, claim, claim_persistent, final,
  conflict, complete, may_complete,
}

-- The token that guards the snapshot now, 0 before the first claim.
abbrev pub guarding : ℕ → Repository → ℕ
guarding k s =
    if s.persistent
    then (elim (s.runs k) [ none ↦ 0 | some r ↦ r.fencing_token ])
    else (elim (s.leases k) [ none ↦ 0 | some l ↦ l.fencing_token ])

-- Another owner's unexpired lease, or a finished run, refuses the claim and nothing changes.
pub claim_excluded :
    (reachable : Bool) (now snapshot owner seconds : ℕ) (s : Repository) (r : Run)
    → s.persistent ≡ true
    → s.runs snapshot ≡ some r
    → ((r.status ≡ succeeded) ⊎ ((is_current now r ≡ true) × (r.owner_id ≢ owner)))
    → claim reachable now snapshot owner seconds s ≡ (s, none)
unfolding claim
claim_excluded reachable now snapshot owner seconds s r p e h =
    rw (p, claim) (rw (e, refused r h, claim_persistent))
  where
    refused :
        (r : Run)
        → ((r.status ≡ succeeded) ⊎ ((is_current now r ≡ true) × (r.owner_id ≢ owner)))
        → can_renew now owner r ≡ false
    refused r h = ground arith

-- A granted lease raises the guarding token by one, is for the snapshot and owner that asked,
-- lasts at least a second, and its token is the one that now guards the snapshot.
pub claim_grants :
    (reachable : Bool) (now snapshot owner seconds : ℕ) (s s' : Repository) (l : Lease)
    → claim reachable now snapshot owner seconds s ≡ (s', some l)
    → (l.fencing_token ≡ guarding snapshot s + 1)
      × (guarding snapshot s' ≡ l.fencing_token)
      × (l.decision_snapshot_id ≡ snapshot)
      × (l.owner_id ≡ owner)
      × (now < l.lease_expires_at)
unfolding claim
claim_grants reachable now snapshot owner seconds s s' l e = ground arith

-- A lease that is older than the token that guards its snapshot can no longer complete the run:
-- nothing is written.
pub superseded_writes_nothing :
    (hash : ℕ → ℕ) (reachable : Bool) (now : ℕ) (l : Lease) (result : ℕ) (s : Repository)
    → l.fencing_token < guarding l.decision_snapshot_id s
    → (complete hash reachable now l result s).0 ≡ s
unfolding complete
superseded_writes_nothing hash reachable now l result s older = ground arith

-- The owner of a granted lease completes the run with its result before the lease expires.
pub granted_completes :
    (hash : ℕ → ℕ) (reachable reachable' : Bool) (now later snapshot owner seconds : ℕ)
    (s s' : Repository) (l : Lease) (result : ℕ)
    → claim reachable now snapshot owner seconds s ≡ (s', some l)
    → s.results snapshot ≡ none
    → later < l.lease_expires_at
    → (complete hash reachable' later l result s').1 ≡ final result
unfolding claim complete
granted_completes hash reachable reachable' now later snapshot owner seconds s s' l result e empty
      soon =
    ground arith

-- In a row whose run has succeeded with a stored result and its hash, a completion is only
-- compared.
stored_is_compared :
    (hash : ℕ → ℕ) (reachable : Bool) (now : ℕ) (l : Lease) (result prior h : ℕ) (s : Repository)
    (r : Run)
    → s.persistent ≡ true
    → s.runs l.decision_snapshot_id ≡ some r
    → r.status ≡ succeeded
    → r.result_json ≡ some prior
    → r.result_hash ≡ some (suc h)
    → complete hash reachable now l result s
      ≡ (s, if suc h == hash result then final prior else conflict)
unfolding complete
stored_is_compared hash reachable now l result prior h s r p e done stored hashed = ground arith

abbrev written : Run → ℕ → ℕ → Run
written r result h = record r {
  status = succeeded;
  result_json = some result;
  result_hash = some (suc h);
}

writes :
    (hash : ℕ → ℕ) (reachable : Bool) (now : ℕ) (l : Lease) (result h : ℕ) (s : Repository)
    (r : Run)
    → s.persistent ≡ true
    → s.runs l.decision_snapshot_id ≡ some r
    → may_complete hash now l r ≡ true
    → hash result ≡ suc h
    → (complete hash reachable now l result s).0.runs l.decision_snapshot_id
      ≡ some (written r result h)
unfolding complete
writes hash reachable now l result h s r p e may hashed = ground arith

stays_persistent :
    (hash : ℕ → ℕ) (reachable : Bool) (now : ℕ) (l : Lease) (result : ℕ) (s : Repository)
    → s.persistent ≡ true
    → (complete hash reachable now l result s).0.persistent ≡ true
unfolding complete
stays_persistent hash reachable now l result s p = ground arith

-- The completion that the lease's holder makes is final: of whatever later calls for the same
-- snapshot none writes anything, and each returns the first result if its own has the same hash
-- and a conflict if not. The hash is a nonempty text.
pub completes_once :
    (hash : ℕ → ℕ) (reachable reachable' : Bool) (now later : ℕ) (l l' : Lease)
    (result result' h : ℕ) (s : Repository) (r : Run)
    → s.persistent ≡ true
    → s.runs l.decision_snapshot_id ≡ some r
    → may_complete hash now l r ≡ true
    → l'.decision_snapshot_id ≡ l.decision_snapshot_id
    → hash result ≡ suc h
    → let s' = (complete hash reachable now l result s).0 in
      complete hash reachable' later l' result' s'
      ≡ (s', if suc h == hash result' then final result else conflict)
completes_once hash reachable reachable' now later l l' result result' h s r p e may same hashed =
    let s' = (complete hash reachable now l result s).0 in
    stored_is_compared hash reachable' later l' result' result h s' (written r result h)
      (stays_persistent hash reachable now l result s p)
      (rw same (writes hash reachable now l result h s r p e may hashed)) refl refl refl
