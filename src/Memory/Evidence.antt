-- ===== src/Memory/Evidence.antt =====
-- engines/memory/evidence.py: the direction and the weight of an event of evidence, and the
-- confidence they add up to. A number of the source is counted in millionths; a product or a
-- quotient is kept exact, as a number of parts of `whole`. The recency of an event, a power of 1/2
-- by its age over the half-life, is a parameter in millionths.
use stock_agent.Base.{
  ℕ, ◌+◌, ◌*◌, Bool, ◌&&◌, Option, none, some, List, [], ◌∷◌, if◌then◌else◌, ltb, leb, min, max,
  ◌-◌,
}
use stock_agent.Base.Int.{ℤ, pos, ◌+ℤ◌, pos_part, neg_part, ◌-ℤ◌}

-- The columns of a row of `memory_evidence` that the lifecycle reads.
pub record Evidence : Type 0 where
  pub decision_id : Option ℕ
  pub horizon_days : Option ℕ
  pub market_excess_return : Option ℤ
  pub decision_quality : Option ℤ
  pub applicability : Option ℤ
  pub created_at : Option ℕ

-- The section `lifecycle` of config/memory.yaml; the threshold and the half-life are not negative.
pub record LifecycleConfig : Type 0 where
  pub validate_confidence : ℕ
  pub revalidate_confidence : ℕ
  pub min_evidence_count : ℕ
  pub significance_threshold : ℕ
  pub recency_half_life_days : ℕ

abbrev pub scale : ℕ
scale = 1000000

abbrev pub default_config : LifecycleConfig
default_config = record {
  validate_confidence = 700000;
  revalidate_confidence = 300000;
  min_evidence_count = 3;
  significance_threshold = 10000;
  recency_half_life_days = 180;
}

pub data Direction : Type 0 where
  support against neutral : Direction

abbrev pub size : ℤ → ℕ
size e = pos_part e + neg_part e

abbrev pub sign : ℤ → Direction
sign e = if ltb 0 (pos_part e) then support else (if ltb 0 (neg_part e) then against else neutral)

-- `evidence_direction`
unfoldable pub evidence_direction : LifecycleConfig → Evidence → Direction
evidence_direction c e = elim e.market_excess_return [
  | none ↦ neutral
  | some excess ↦
      if ltb 0 c.significance_threshold && ltb (size excess) c.significance_threshold
      then neutral
      else sign excess
]

-- `_clamp` into [0, 1]
abbrev pub clamp : ℤ → ℕ
clamp v = min scale (pos_part v)

abbrev pub clamp_or : ℕ → Option ℤ → ℕ
clamp_or d none = d
clamp_or d (some v) = clamp v

-- What a significance is counted in.
abbrev pub unit : LifecycleConfig → ℕ
unit c = max 1 c.significance_threshold

unfoldable pub significance : LifecycleConfig → Evidence → ℕ
significance c e = elim e.market_excess_return [
  | none ↦ unit c
  | some excess ↦ if ltb 0 c.significance_threshold then min (unit c) (size excess) else unit c
]

-- The weight 1, in the parts that weights are counted in.
abbrev pub whole : LifecycleConfig → ℕ
whole c = unit c * 1000000000000000000

-- The recency of an event that is `age` seconds old, for a half-life in days.
abbrev pub Halving : Type 0
Halving = ℕ → ℕ → ℕ

unfoldable pub recency : Halving → LifecycleConfig → ℕ → Evidence → ℕ
recency halve c now e = elim e.created_at [
  | none ↦ scale
  | some t ↦
      if ltb 0 c.recency_half_life_days then halve (now - t) c.recency_half_life_days else scale
]

-- `evidence_weight`
unfoldable pub evidence_weight : Halving → LifecycleConfig → ℕ → Evidence → ℕ
evidence_weight halve c now e =
    clamp_or 500000 e.decision_quality
    * clamp_or scale e.applicability
    * significance c e
    * recency halve c now e

abbrev pub signed_weight : Direction → ℕ → ℤ
signed_weight support w = pos w
signed_weight against w = pos 0 -ℤ pos w
signed_weight neutral w = pos 0

-- `signed` and `total` of the loop.
unfoldable pub signed_total : Halving → LifecycleConfig → ℕ → List Evidence → ℤ × ℕ
signed_total halve c now [] = (pos 0, 0)
signed_total halve c now (e ∷ es) =
    let rest = signed_total halve c now es in
    let w = evidence_weight halve c now e in
    (rest.0 +ℤ signed_weight (evidence_direction c e) w, rest.1 + w)

-- A confidence, as a fraction.
pub record Confidence : Type 0 where
  pub part : ℕ
  pub out_of : ℕ

-- `weighted_confidence`
unfoldable pub weighted_confidence : Halving → LifecycleConfig → ℕ → List Evidence → Confidence
weighted_confidence halve c now [] = record { part = 1; out_of = 2 }
weighted_confidence halve c now (e ∷ es) =
    let sums = signed_total halve c now (e ∷ es) in
    let out_of = 2 * whole c + sums.1 in
    record { part = min out_of (pos_part (pos (whole c) +ℤ sums.0)); out_of = out_of }

-- Comparisons of a confidence with a number in millionths.
abbrev pub at_least : Confidence → ℕ → Bool
at_least f v = leb (v * f.out_of) (f.part * scale)

abbrev pub at_most : Confidence → ℕ → Bool
at_most f v = leb (f.part * scale) (v * f.out_of)
