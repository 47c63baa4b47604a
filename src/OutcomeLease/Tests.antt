-- ===== src/OutcomeLease/Tests.antt =====
-- The theorems on leases at concrete inputs.
use stock_agent.Base.{ℕ, ◌+◌, ◌<◌, ◌≡◌, refl, true, none, some, arith, inr, ◌==◌, if◌then◌else◌}
use stock_agent.OutcomeLease.{
  Lease, running, Run, Repository, put, claim, final, conflict, complete,
}
use stock_agent.OutcomeLease.Laws.{
  claim_excluded, guarding, claim_grants, superseded_writes_nothing, granted_completes,
  completes_once,
}

abbrev run : Run
run = record {
  status = running;
  owner_id = 3;
  fencing_token = 4;
  lease_expires_at = some 100;
  result_json = none;
  result_hash = none;
}

abbrev repository : Repository
repository = record {
  persistent = true;
  leases = λ k. none;
  results = λ k. none;
  runs = put 7 run (λ k. none);
}

-- A lease on the snapshot 7.
abbrev lease : ℕ → ℕ → ℕ → Lease
lease owner token expires = record {
  decision_snapshot_id = 7;
  owner_id = owner;
  fencing_token = token;
  lease_expires_at = expires;
}

claim_excluded_holds : claim true 50 7 5 60 repository ≡ (repository, none)
claim_excluded_holds =
    claim_excluded true 50 7 5 60 repository run refl refl (inr (refl, omega arith))

abbrev renewed : Repository
renewed = record repository {
  runs =
      put 7 (record run { owner_id = 5; fencing_token = 5; lease_expires_at = some 260 })
        (put 7 run (λ k. none));
}

renews : claim true 200 7 5 60 repository ≡ (renewed, some (lease 5 5 260))
unfolding claim
renews = refl

claim_grants_holds :
    (5 ≡ guarding 7 repository + 1)
    × (guarding 7 renewed ≡ 5)
    × ((lease 5 5 260).decision_snapshot_id ≡ 7)
    × ((lease 5 5 260).owner_id ≡ 5)
    × (200 < 260)
claim_grants_holds = claim_grants true 200 7 5 60 repository renewed (lease 5 5 260) renews

superseded_writes_nothing_example :
    (complete (λ r. r + 1) true 210 (lease 3 4 100) 9 renewed).0 ≡ renewed
superseded_writes_nothing_example =
    superseded_writes_nothing (λ r. r + 1) true 210 (lease 3 4 100) 9 renewed (omega arith)

granted_completes_holds : (complete (λ r. r + 1) true 210 (lease 5 5 260) 9 renewed).1 ≡ final 9
granted_completes_holds =
    granted_completes (λ r. r + 1) true true 200 210 7 5 60 repository renewed (lease 5 5 260) 9
      renews refl (omega arith)

completes_once_holds :
    let s' = (complete (λ r. r + 1) true 50 (lease 3 4 100) 9 repository).0 in
    complete (λ r. r + 1) true 60 (lease 8 2 70) 11 s'
    ≡ (s', if 10 == 12 then final 9 else conflict)
completes_once_holds =
    completes_once (λ r. r + 1) true true 50 60 (lease 3 4 100) (lease 8 2 70) 9 11 9 repository run
      refl refl refl refl refl
