-- ===== src/Memory/Support.antt =====
-- What the confidence of engines/memory/evidence.py says of the evidence behind it, and the status
-- that engines/memory/lifecycle.py gives a memory.
use stock_agent.Base.{
  ℕ, ◌+◌, ◌*◌, ◌<◌, ◌≤◌, ◌≡◌, ◌≢◌, refl, Bool, true, false, some, List, [], ◌∷◌, leb, min,
  if◌then◌else◌, length, arith,
}
use native.Mathlib.Nat.{mul-lt-mul_of_pos_right}
use stock_agent.Base.Int.{ℤ, pos, pos_part, ◌+ℤ◌, ◌<ℤ◌}
use stock_agent.Memory.Evidence.{
  Evidence, LifecycleConfig, Halving, scale, whole, signed_total, weighted_confidence, at_least,
  at_most, Confidence,
}
use stock_agent.Memory.Lifecycle.{
  MemoryStatus, validated, revalidation_required, MemoryRecord, next_status, add_evidence,
  record_outcome_evidence,
}

outweighs : (v a t n : ℕ) → 0 < a → scale < 2 * v → v * (2 * a + t) ≤ n * scale → a < n
outweighs v a t n h k le = let product = mul-lt-mul_of_pos_right k h in omega arith

grows : (a : ℕ) (s : ℤ) → a < pos_part (pos a +ℤ s) → pos 0 <ℤ s
unfolding ◌+ℤ◌
grows a s h = ground arith

-- A confidence above one half has more support than opposition behind it.
confident :
    (halve : Halving) (c : LifecycleConfig) (now : ℕ) (events : List Evidence) (v : ℕ)
    → scale < 2 * v
    → at_least (weighted_confidence halve c now events) v ≡ true
    → pos 0 <ℤ (signed_total halve c now events).0
unfolding weighted_confidence
confident halve c now [] v h e = absurd (ground (arith, e, h))
confident halve c now (x ∷ xs) v h e =
    let sums = signed_total halve c now (x ∷ xs) in
    let grown = pos_part (pos (whole c) +ℤ sums.0) in
    let n = min (2 * whole c + sums.1) grown in
    let bound : v * (2 * whole c + sums.1) ≤ n * scale = ground (arith, e) in
    let more : whole c < n = outweighs v (whole c) sums.1 n (omega arith) h bound in
    grows (whole c) sums.0 (omega arith)

-- How a status becomes VALIDATED.
chosen :
    (enough confident low : Bool) (s : MemoryStatus)
    → s ≢ validated
    → (if enough
        then if confident then validated else (if low then revalidation_required else s)
        else s)
      ≡ validated
    → (enough ≡ true) × (confident ≡ true)
chosen false confident low s h e = absurd (h e)
chosen true true low s h e = (refl, refl)
chosen true false true s h e = absurd (ground (arith, e))
chosen true false false s h e = absurd (h e)

next_status-validated :
    (c : LifecycleConfig) (count : ℕ) (f : Confidence) (s : MemoryStatus)
    → s ≢ validated
    → next_status c count f s ≡ validated
    → (c.min_evidence_count ≤ count) × (at_least f c.validate_confidence ≡ true)
unfolding next_status
next_status-validated c count f s h e =
    let (enough, high) =
      chosen (leb c.min_evidence_count count) (at_least f c.validate_confidence)
        (at_most f c.revalidate_confidence) s h e in
    (ground (arith, enough), high)

-- With a threshold above one half, an event makes a memory VALIDATED only if the memory then has at
-- least the least number of events and the weights that support it exceed those against it.
pub validated_has_support :
    (halve : Halving) (c : LifecycleConfig) (stored_at now : ℕ) (new : Evidence) (m : MemoryRecord)
    → scale < 2 * c.validate_confidence
    → m.status ≢ validated
    → (record_outcome_evidence halve c stored_at now new m).status ≡ validated
    → (c.min_evidence_count ≤ length (record_outcome_evidence halve c stored_at now new m).evidence)
      × (pos 0
          <ℤ (signed_total halve c now
              (record_outcome_evidence halve c stored_at now new m).evidence).0)
unfolding record_outcome_evidence
validated_has_support halve c stored_at now new m h before e =
    let events = add_evidence (record new { created_at = some stored_at }) m.evidence in
    let f = weighted_confidence halve c now events in
    let (enough, high) = next_status-validated c (length events) f m.status before e in
    (enough, confident halve c now events c.validate_confidence h high)
