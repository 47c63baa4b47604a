-- ===== src/Memory/Lifecycle.antt =====
-- MemoryLifecycleService of engines/memory/lifecycle.py with the rows of
-- storage/repositories/vector_repository.py that it changes, for one memory. The texts, the regime
-- and the sector's return of an event, which are only stored, are left out.
use stock_agent.Base.{
  ℕ, ◌+◌, Bool, true, false, ◌&&◌, Option, none, some, List, [], ◌∷◌, ◌++◌, if◌then◌else◌, leb,
  length, ◌==◌, ltb,
}
use stock_agent.Base.Int.{ℤ, neg_part}
use stock_agent.Memory.Evidence.{
  Evidence, LifecycleConfig, Halving, Confidence, weighted_confidence, at_least, at_most,
}

-- The statuses are texts: those that are compared or written here, and any other.
pub data MemoryStatus : Type 0 where
  validated revalidation_required superseded expired rejected : MemoryStatus
  other : ℕ → MemoryStatus

-- The types that MEMORY_TTL_DAYS names, and the rest.
pub data MemoryType : Type 0 where
  market_regime theme other_type : MemoryType

pub record MemoryRecord : Type 0 where
  pub id : ℕ
  pub memory_type : MemoryType
  pub valid_to : Option ℕ
  pub last_seen_at : Option ℕ
  pub status : MemoryStatus
  pub outcome_support_count : ℕ
  pub outcome_failure_count : ℕ
  pub evidence : List Evidence

abbrev pub same : Option ℕ → Option ℕ → Bool
same none none = true
same (some a) (some b) = a == b
same _ _ = false

abbrev same_event : Evidence → Evidence → Bool
same_event new old = same new.decision_id old.decision_id && same new.horizon_days old.horizon_days

-- The first row of the same decision and horizon is refreshed, else a row is added.
unfoldable pub upsert : Evidence → List Evidence → List Evidence
upsert new [] = new ∷ []
upsert new (old ∷ rows) =
    let rest = upsert new rows in if same_event new old then new ∷ rows else old ∷ rest

-- `MemoryRepository.add_evidence`
unfoldable pub add_evidence : Evidence → List Evidence → List Evidence
add_evidence new rows = elim new.decision_id [ none ↦ rows ++ new ∷ [] | some d ↦ upsert new rows ]

abbrev pub is_failure : ℤ → Bool
is_failure e = ltb 0 (neg_part e)

-- The counters of the current streak.
unfoldable pub count_streak : Option ℤ → ℕ × ℕ → ℕ × ℕ
count_streak none (s, f) = (s, f)
count_streak (some e) (s, f) = if is_failure e then (0, f + 1) else (s + 1, 0)

-- The new status, from the confidence and the number of events.
unfoldable pub next_status : LifecycleConfig → ℕ → Confidence → MemoryStatus → MemoryStatus
next_status c count confidence status =
    if leb c.min_evidence_count count
    then if at_least confidence c.validate_confidence
      then validated
      else (if at_most confidence c.revalidate_confidence then revalidation_required else status)
    else status

-- `record_outcome_evidence`, for a memory that exists: the event is stored at `stored_at`, and the
-- confidence is computed at `now`. A call that gives the return as `excess_return` is the call
-- with it as `market_excess_return`.
unfoldable pub record_outcome_evidence :
    Halving → LifecycleConfig → ℕ → ℕ → Evidence → MemoryRecord → MemoryRecord
record_outcome_evidence halve c stored_at now new m =
    let events = add_evidence (record new { created_at = some stored_at }) m.evidence in
    let confidence = weighted_confidence halve c now events in
    let counts =
      count_streak new.market_excess_return (m.outcome_support_count, m.outcome_failure_count) in
    record m {
      status = next_status c (length events) confidence m.status;
      outcome_support_count = counts.0;
      outcome_failure_count = counts.1;
      evidence = events;
    }
