-- ===== src/Memory/Tests.antt =====
-- The lifecycle of a memory at concrete events.
use stock_agent.Base.{ℕ, ◌≡◌, ◌≢◌, refl, ◌≤◌, none, some, [], ◌∷◌, length, arith, Option}
use stock_agent.Base.Int.{ℤ, pos, ◌<ℤ◌, ◌+ℤ◌}
use stock_agent.Memory.Evidence.{
  Evidence, Halving, default_config, evidence_direction, evidence_weight, significance, recency,
  signed_total, weighted_confidence, scale,
}
use stock_agent.Memory.Lifecycle.{
  MemoryRecord, theme, other, validated, revalidation_required, upsert, add_evidence, count_streak,
  next_status, record_outcome_evidence,
}
use stock_agent.Memory.Expiry.{expire_due, expire_row}
use stock_agent.Memory.Support.{validated_has_support}

-- A recency that does not fade.
abbrev fresh : Halving
fresh age half_life = scale

abbrev event : ℕ → Option ℤ → Evidence
event d excess = record {
  decision_id = some d;
  horizon_days = some 5;
  market_excess_return = excess;
  decision_quality = some (pos 1000000);
  applicability = none;
  created_at = some 10;
}

abbrev supported : MemoryRecord
supported = record {
  id = 1;
  memory_type = theme;
  valid_to = none;
  last_seen_at = none;
  status = other 1;
  outcome_support_count = 3;
  outcome_failure_count = 0;
  evidence =
      event 1 (some (pos 50000)) ∷ event 2 (some (pos 40000)) ∷ event 3 (some (pos 30000)) ∷ [];
}

fourth_validates :
    (record_outcome_evidence fresh default_config 10 20
      (event 4 (some (pos 20000)))
      supported).status
    ≡ validated
unfolding record_outcome_evidence add_evidence upsert weighted_confidence signed_total
    evidence_weight evidence_direction significance recency next_status ◌+ℤ◌ count_streak
fourth_validates = refl

other_not_validated : other 1 ≢ validated
other_not_validated e = ground (arith, e)

validated_has_support_example :
    let after =
      record_outcome_evidence fresh default_config 10 20 (event 4 (some (pos 20000))) supported in
    (3 ≤ length after.evidence) × (pos 0 <ℤ (signed_total fresh default_config 20 after.evidence).0)
validated_has_support_example =
    validated_has_support fresh default_config 10 20 (event 4 (some (pos 20000))) supported
      (omega arith) other_not_validated fourth_validates

-- Events without a return, which are neutral, take the confidence below one half, and enough of
-- them ask for a revalidation.
abbrev neutral_only : MemoryRecord
neutral_only = record {
  id = 1;
  memory_type = theme;
  valid_to = none;
  last_seen_at = none;
  status = other 1;
  outcome_support_count = 0;
  outcome_failure_count = 0;
  evidence = event 1 none ∷ event 2 none ∷ [];
}

neutral_revalidates :
    (record_outcome_evidence fresh default_config 10 20 (event 3 none) neutral_only).status
    ≡ revalidation_required
unfolding record_outcome_evidence add_evidence upsert weighted_confidence signed_total
    evidence_weight evidence_direction significance recency next_status ◌+ℤ◌ count_streak
neutral_revalidates = refl

-- A record past the limit is not expired, however long it is due.
abbrev old_theme : ℕ → MemoryRecord
old_theme n = record supported { id = n; last_seen_at = some 0 }

past_the_limit :
    (expire_due 9000000 2 (old_theme 1 ∷ old_theme 2 ∷ old_theme 3 ∷ [])).1 ≡ 1 ∷ 2 ∷ []
unfolding expire_due expire_row
past_the_limit = refl

past_the_limit_again :
    (expire_due 9000000 2 (expire_due 9000000 2 (old_theme 1 ∷ old_theme 2 ∷ old_theme 3 ∷ [])).0).1
    ≡ []
unfolding expire_due expire_row
past_the_limit_again = refl
