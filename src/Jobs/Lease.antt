-- ===== src/Jobs/Lease.antt =====
-- Leases: who holds a task, and why a worker that lost it can no longer write.
use mathlib.Core.Path.{fun_ext}
use stock_agent.Base.{
  ℕ, ◌+◌, ◌≤◌, ◌≡◌, refl, sym, ap, ◌∙◌, subst, ◌≢◌, true, false, not, ◌&&◌, inl, inr, Option, none,
  some, arith, Option-cases,
}
use stock_agent.Base.Rows.{
  update, with_key, IsUnique, matches-found, update-found, update-rejected, get_row-update_self,
  update-IsUnique,
}
use stock_agent.Jobs.Task.{Task, Table, Status, get, owns, beat_row, heartbeat, has_lease}
use stock_agent.Jobs.Claim.{
  Claimant, is_claimable, is_eligible, claim_row, any_row, earliest, claim_next,
  claim_next_postgresql,
}
use stock_agent.Jobs.Finish.{Owner, mark_finished, mark_failed, may_end, passes_checks, finish_row}
use stock_agent.Jobs.Order.{earliest-test, earliest-IsLeast, earliest-get, IsLeast}

-- Why the claimant got its task: it was eligible, no eligible row is older, and the row is now
-- the claimant's.
pub record Takes (c : Claimant) (rows rows' : Table) (t : Task) : Type 0 where
  pub before : Task
  pub was : get before.id rows ≡ some before
  pub eligible : is_eligible c before ≡ true
  pub oldest : IsLeast (is_eligible c) before rows
  pub is_claimed : t ≡ claim_row c before
  pub now_is : get t.id rows' ≡ some t
  pub still_unique : IsUnique Task.id rows'

claimable_of_eligible : (c : Claimant) (r : Task) → is_eligible c r ≡ true → is_claimable c r ≡ true
claimable_of_eligible c r h = ground arith

unfoldable pub claimed : Claimant → Task → Table → Table
claimed c r rows = update (with_key Task.id r.id (is_claimable c)) (claim_row c) rows

pub claim_next-found :
    (c : Claimant) (rows : Table) (r : Task)
    → IsUnique Task.id rows
    → earliest (is_eligible c) rows ≡ some r
    → claim_next c rows ≡ (claimed c r rows, some (claim_row c r))
unfolding claim_next claimed
claim_next-found c rows r u e =
    let ok = earliest-test (is_eligible c) rows r e in
    let found = earliest-get (is_eligible c) rows r u e in
    let hit = matches-found Task.id r.id (is_claimable c) rows u found in
    rw (e, hit, claimable_of_eligible c r ok, claim_next)

pub claim_next-unfound :
    (c : Claimant) (rows : Table)
    → earliest (is_eligible c) rows ≡ none
    → claim_next c rows ≡ (rows, none)
unfolding claim_next
claim_next-unfound c rows n = rw (n, claim_next)

get-claimed :
    (c : Claimant) (rows : Table) (r : Task)
    → IsUnique Task.id rows
    → earliest (is_eligible c) rows ≡ some r
    → get r.id (claimed c r rows) ≡ some (claim_row c r)
unfolding claimed
get-claimed c rows r u e =
    let ok = claimable_of_eligible c r (earliest-test (is_eligible c) rows r e) in
    let found = earliest-get (is_eligible c) rows r u e in
    get_row-update_self Task.id r.id (is_claimable c) (claim_row c) (λ s. refl) rows found ∙ rw ok

-- A claim returns the oldest eligible row with the claimant's lease on it, and the table then
-- holds exactly that row under its id.
pub claim_next-Takes :
    (c : Claimant) (rows rows' : Table) (t : Task)
    → IsUnique Task.id rows
    → claim_next c rows ≡ (rows', some t)
    → Takes c rows rows' t
claim_next-Takes c rows rows' t u e = elim (Option-cases (earliest (is_eligible c) rows)) [
  | inl n ↦ absurd (nothing n)
  | inr (r, e') ↦
      let both : ◌≡◌ {A = Table × Option Task} (claimed c r rows, some (claim_row c r))
          (rows', some t) =
        sym (claim_next-found c rows r u e') ∙ e in
      let same : t ≡ claim_row c r = cc both in
      record {
        before = r;
        was = earliest-get (is_eligible c) rows r u e';
        eligible = earliest-test (is_eligible c) rows r e';
        oldest = earliest-IsLeast (is_eligible c) rows r e';
        is_claimed = same;
        now_is =
            subst (λ k. get k rows' ≡ some t) (ap Task.id (sym same))
              (subst (λ x. get r.id x.0 ≡ x.1) both (get-claimed c rows r u e'));
        still_unique =
            subst (λ x. IsUnique Task.id x.0) both
              (unfold claimed in
                update-IsUnique Task.id r.id (is_claimable c) (claim_row c) (λ s. refl) rows u);
      }
]
  where
    nothing : earliest (is_eligible c) rows ≡ none → ⊥
    nothing n = cc (claim_next-unfound c rows n)

-- With no other transaction holding rows, the PostgreSQL statement and the portable pair of
-- statements claim the same task and leave the same table.
pub claim_next-eq-postgresql :
    (c : Claimant) (rows : Table)
    → IsUnique Task.id rows
    → claim_next_postgresql (λ id. false) c rows ≡ claim_next c rows
unfolding claim_next_postgresql claimed
claim_next-eq-postgresql c rows u = elim (Option-cases (earliest (is_eligible c) rows)) [
  | inl n ↦ rw (claim_next-unfound c rows n, all_free, n, claim_next_postgresql)
  | inr (r, e) ↦
      let same =
        update-found Task.id r.id any_row (is_claimable c) (claim_row c) rows u
          (earliest-get (is_eligible c) rows r u e)
          (sym (claimable_of_eligible c r (earliest-test (is_eligible c) rows r e))) in
      rw (
        claim_next-found c rows r u e,
        all_free,
        e,
        same,
        get-claimed c rows r u e,
        claim_next_postgresql,
      )
]
  where
    all_free : earliest (λ r. is_eligible c r && not false) rows ≡ earliest (is_eligible c) rows
    all_free = ap (λ f. earliest f rows) (fun_ext λ r. ground arith)

-- What a write under a stale lease does: nothing, reported as such.
pub record IsFenced (id v : ℕ) (rows : Table) : Type 0 where
  pub no_finish :
      (now : ℕ) (s : Status) (result error : Option ℕ) (worker token : Option ℕ)
      → mark_finished now id s result error
          (record { worker = worker; token = token; version = some v })
          rows
        ≡ (rows, false)
  pub no_fail :
      (now error : ℕ) (worker token : Option ℕ)
      → mark_failed now id error (record { worker = worker; token = token; version = some v }) rows
        ≡ (rows, false)
  pub no_beat :
      (now worker : ℕ) (progress token : Option ℕ)
      → heartbeat now id worker progress token (some v) rows ≡ (rows, false)
  pub no_lease : (worker : ℕ) (token : Option ℕ) → has_lease id worker token (some v) rows ≡ false

module _ (v : ℕ) (r : Task) where
  not_may_end : (o : Owner) → o.version ≡ some v → r.lease_version ≢ v → may_end o r ≡ false
  not_may_end o e stale = ground arith

  not_passes : (o : Owner) → o.version ≡ some v → r.lease_version ≢ v → passes_checks o r ≡ false
  not_passes o e stale = ground arith

  not_owns :
      (worker : ℕ) (token : Option ℕ) → r.lease_version ≢ v → owns worker token (some v) r ≡ false
  not_owns worker token stale = ground arith

-- A lease version that is not the row's own is fenced off from every write.
pub stale-IsFenced :
    (id v : ℕ) (rows : Table) (r : Task)
    → IsUnique Task.id rows
    → get id rows ≡ some r
    → r.lease_version ≢ v
    → IsFenced id v rows
unfolding mark_finished mark_failed heartbeat has_lease
stale-IsFenced id v rows r u found stale = record {
  no_finish = λ now s result error worker token.
      let o : Owner = record { worker = worker; token = token; version = some v } in
      let miss = matches-found Task.id id (may_end o) rows u found ∙ not_may_end v r o refl stale in
      rw (update-rejected Task.id id (may_end o) (finish_row now s result error) rows miss, miss);
  no_fail = λ now error worker token.
      let o : Owner = record { worker = worker; token = token; version = some v } in
      rw (found, not_passes v r o refl stale, mark_failed);
  no_beat = λ now worker progress token.
      let miss =
        matches-found Task.id id (owns worker token (some v)) rows u found
        ∙ not_owns v r worker token stale in
      rw (
        update-rejected Task.id id (owns worker token (some v)) (beat_row now progress) rows miss,
        miss,
      );
  no_lease = λ worker token.
      let miss =
        matches-found Task.id id (owns worker token (some v)) rows u found
        ∙ not_owns v r worker token stale in
      rw miss (ground arith);
}

-- After a claim every lease that the task had before it is fenced off: with a version up to the
-- one that the row had, its holder can neither finish nor fail the task, nor beat, and is told so.
pub claim_next-fences :
    (c : Claimant) (rows rows' : Table) (t old : Task) (v : ℕ)
    → IsUnique Task.id rows
    → claim_next c rows ≡ (rows', some t)
    → get t.id rows ≡ some old
    → v ≤ old.lease_version
    → IsFenced t.id v rows'
claim_next-fences c rows rows' t old v u e found older =
    let p = claim_next-Takes c rows rows' t u e in
    let same : some old ≡ some p.before =
      sym found ∙ subst (λ r. get r.id rows ≡ some p.before) (sym p.is_claimed) p.was in
    let raised : old.lease_version + 1 ≡ t.lease_version = ground (arith, same, p.is_claimed) in
    stale-IsFenced t.id v rows' t p.still_unique p.now_is (λ e. omega arith)
