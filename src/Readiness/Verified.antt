-- ===== src/Readiness/Verified.antt =====
-- What it takes to be ready: app/application/readiness/service.py.
use stock_agent.Base.{
  ℕ, ◌-◌, ◌≤◌, ◌≡◌, refl, ◌∙◌, subst, ◌⊎◌, inl, inr, Bool, true, false, not, ◌&&◌, ◌||◌, Option,
  none, some, List, [], ◌∷◌, ◌++◌, leb, ◌==◌, contains, if◌then◌else◌, Bool-cases, arith,
}
use stock_agent.Readiness.Service.{
  Component, quant, stock_factor, stock_content, code, Reason, Quality, pass, other,
  CapabilityStatus, FormalReadinessPolicy, when, differs, is_nonempty, contract_reasons,
  freshness_reasons, quality_reasons, validation_reasons, Cache, entry, set_entry, aged,
  cached_or_failed, Probe, missing, returns, times_out, raises, is_empty, is_true, check_component,
  reasons_of, check_probes, check, deterministic_fixture_mode,
}

is_empty-append :
    (rs qs : List Reason) → is_empty (rs ++ qs) ≡ true → (is_empty rs ≡ true) × (is_empty qs ≡ true)
is_empty-append [] qs h = (refl, h)
is_empty-append (r ∷ rs) qs h = absurd (ground arith)

-- Every formal gate, written out.
abbrev pub Passes : FormalReadinessPolicy → Component → CapabilityStatus → Type 0
Passes p name s =
    (s.reachable ≡ true)
    × (s.component ≡ code name)
    × ((c : ℕ) × (s.contract ≡ some c)
        × (differs (p.expected_contracts name) c ≡ false)
        × ((is_nonempty p.required_contracts && not (contains c p.required_contracts)) ≡ false))
    × ((a : ℕ) × (s.snapshot_age_seconds ≡ some a) × (a ≤ p.max_snapshot_age_seconds))
    × ((p.require_pit && not (is_true s.pit)) ≡ false)
    × (s.quality ≡ some pass)

when_not : (b : Bool) (r : Reason) → is_empty (when b r) ≡ true → b ≡ false
when_not true r h = absurd (ground arith)
when_not false r h = refl

or_false : (a b : Bool) → (a || b) ≡ false → (a ≡ false) × (b ≡ false)
or_false a b h = ground arith

contract_passes :
    (p : FormalReadinessPolicy) (name : Component) (o : Option ℕ)
    → is_empty (contract_reasons p name o) ≡ true
    → (c : ℕ) × (o ≡ some c)
      × (differs (p.expected_contracts name) c ≡ false)
      × ((is_nonempty p.required_contracts && not (contains c p.required_contracts)) ≡ false)
contract_passes p name none h = absurd (ground arith)
contract_passes p name (some c) h =
    let both =
      or_false (differs (p.expected_contracts name) c)
        (is_nonempty p.required_contracts && not (contains c p.required_contracts))
        (when_not
          (differs (p.expected_contracts name) c
            || (is_nonempty p.required_contracts && not (contains c p.required_contracts)))
          Reason.contract_mismatch h) in
    (c, refl, both.0, both.1)

freshness_passes :
    (p : FormalReadinessPolicy) (o : Option ℕ)
    → is_empty (freshness_reasons p o) ≡ true
    → (a : ℕ) × (o ≡ some a) × (a ≤ p.max_snapshot_age_seconds)
freshness_passes p none h = absurd (ground arith)
freshness_passes p (some a) h = (a, refl, ground arith)

quality_passes : (o : Option Quality) → is_empty (quality_reasons o) ≡ true → o ≡ some pass
quality_passes none h = absurd (ground arith)
quality_passes (some pass) h = refl
quality_passes (some other) h = absurd (ground arith)

validated-Passes :
    (p : FormalReadinessPolicy) (name : Component) (s : CapabilityStatus)
    → s.reachable ≡ true
    → is_empty (validation_reasons p name s) ≡ true
    → Passes p name s
unfolding validation_reasons
validated-Passes p name s r h =
    let identity = when (not (s.component == code name)) Reason.capability_identity_mismatch in
    let contract = contract_reasons p name s.contract in
    let fresh = freshness_reasons p s.snapshot_age_seconds in
    let pit = when (p.require_pit && not (is_true s.pit)) Reason.pit_unverified in
    let quality = quality_reasons s.quality in
    let (h1, k1) = is_empty-append identity (contract ++ (fresh ++ (pit ++ quality))) h in
    let (h2, k2) = is_empty-append contract (fresh ++ (pit ++ quality)) k1 in
    let (h3, k3) = is_empty-append fresh (pit ++ quality) k2 in
    let (h4, h5) = is_empty-append pit quality k3 in
    let same = when_not (not (s.component == code name)) Reason.capability_identity_mismatch h1 in
    (
      r,
      ground (arith, same),
      contract_passes p name s.contract h2,
      freshness_passes p s.snapshot_age_seconds h3,
      when_not (p.require_pit && not (is_true s.pit)) Reason.pit_unverified h4,
      quality_passes s.quality h5,
    )

reasons_none :
    (p : FormalReadinessPolicy) (name : Component) (s : CapabilityStatus)
    → is_empty (reasons_of p name s) ≡ true
    → Passes p name s
reasons_none p name s h = elim (Bool-cases s.reachable) [
  | inl y ↦ validated-Passes p name s y (ground (arith, y))
  | inr n ↦ absurd (ground (arith, n))
]

-- A cached status that is still good: seen within the time to live, and passing every gate at its
-- present age.
abbrev pub CachedPasses :
    FormalReadinessPolicy → ℕ → Component → Option (CapabilityStatus × ℕ) → Type 0
CachedPasses p now name e =
    (s : CapabilityStatus) × (stored_at : ℕ) × (e ≡ some (s, stored_at))
    × (now - stored_at ≤ p.ttl_seconds)
    × Passes p name (aged name (now - stored_at) s)

abbrev pub Verified :
    FormalReadinessPolicy → ℕ → Component → Probe → Option (CapabilityStatus × ℕ) → Type 0
Verified p now name missing e = ⊥
Verified p now name (returns s) e = Passes p name s
Verified p now name times_out e = CachedPasses p now name e
Verified p now name raises e = CachedPasses p now name e

cached-CachedPasses :
    (p : FormalReadinessPolicy) (now : ℕ) (name : Component) (e : Option (CapabilityStatus × ℕ))
    (r : Reason)
    → is_empty (reasons_of p name (cached_or_failed p now name e r)) ≡ true
    → CachedPasses p now name e
unfolding cached_or_failed
cached-CachedPasses p now name none r h = absurd (ground arith)
cached-CachedPasses p now name (some (s, t)) r h = elim (Bool-cases (leb (now - t) p.ttl_seconds)) [
  | inl y ↦ (
    s,
    t,
    refl,
    ground (arith, y),
    reasons_none p name (aged name (now - t) s) (ground (arith, y)),
  )
  | inr n ↦ absurd (ground (arith, n))
]

component-Verified :
    (p : FormalReadinessPolicy) (now : ℕ) (name : Component) (probe : Probe) (cache : Cache)
    → is_empty (reasons_of p name (check_component p now name probe cache).0) ≡ true
    → Verified p now name probe (entry cache name)
unfolding check_component
component-Verified p now name missing cache h = absurd (ground arith)
component-Verified p now name (returns s) cache h = reasons_none p name s h
component-Verified p now name times_out cache h =
    cached-CachedPasses p now name (entry cache name) Reason.upstream_timeout h
component-Verified p now name raises cache h =
    cached-CachedPasses p now name (entry cache name) Reason.upstream_probe_error h

set_entry-other :
    (name third : Component) (e : Option (CapabilityStatus × ℕ)) (cache : Cache)
    → (code name == code third) ≡ false
    → entry (set_entry name e cache) third ≡ entry cache third
set_entry-other quant quant e cache h = absurd (ground arith)
set_entry-other quant stock_factor e cache h = refl
set_entry-other quant stock_content e cache h = refl
set_entry-other stock_factor quant e cache h = refl
set_entry-other stock_factor stock_factor e cache h = absurd (ground arith)
set_entry-other stock_factor stock_content e cache h = refl
set_entry-other stock_content quant e cache h = refl
set_entry-other stock_content stock_factor e cache h = refl
set_entry-other stock_content stock_content e cache h = absurd (ground arith)

store-other :
    (b : Bool) (name third : Component) (e : Option (CapabilityStatus × ℕ)) (cache : Cache)
    → (code name == code third) ≡ false
    → entry (if b then set_entry name e cache else cache) third ≡ entry cache third
store-other true name third e cache h = set_entry-other name third e cache h
store-other false name third e cache h = refl

-- Checking one component leaves the cached status of another as it is.
check_component-other :
    (p : FormalReadinessPolicy) (now : ℕ) (name third : Component) (probe : Probe) (cache : Cache)
    → (code name == code third) ≡ false
    → entry (check_component p now name probe cache).1 third ≡ entry cache third
unfolding check_component
check_component-other p now name third missing cache h = refl
check_component-other p now name third times_out cache h = refl
check_component-other p now name third raises cache h = refl
check_component-other p now name third (returns s) cache h =
    let kept = if is_empty (validation_reasons p name s) then some (s, now) else none in
    store-other s.reachable name third kept cache h

all_three :
    (P : Component → Type 0) → P quant → P stock_factor → P stock_content → (c : Component) → P c
all_three P a b d quant = a
all_three P a b d stock_factor = b
all_three P a b d stock_content = d

is_empty_nil : (rs : List Reason) → is_empty rs ≡ true → rs ≡ []
is_empty_nil [] h = refl
is_empty_nil (r ∷ rs) h = absurd (ground arith)

check_probes-clear :
    (p : FormalReadinessPolicy) (now : ℕ) (probes : Component → Probe) (cache : Cache)
    → (check_probes p now probes cache).0 ≡ true
    → ((check_probes p now probes cache).1 ≡ []) × (p.manifest_error ≡ false)
unfolding check_probes
check_probes-clear p now probes cache h =
    let clear = is_empty_nil (check_probes p now probes cache).1 h in
    (
      clear,
      when_not p.manifest_error Reason.contract_manifest_invalid
          (is_empty-append (when p.manifest_error Reason.contract_manifest_invalid) _ h).0,
    )

check_probes-Verified :
    (p : FormalReadinessPolicy) (now : ℕ) (probes : Component → Probe) (cache : Cache)
    (name : Component)
    → (check_probes p now probes cache).0 ≡ true
    → Verified p now name (probes name) (entry cache name)
unfolding check_probes
check_probes-Verified p now probes cache name h =
    let first = check_component p now quant (probes quant) cache in
    let second = check_component p now stock_factor (probes stock_factor) first.1 in
    let third = check_component p now stock_content (probes stock_content) second.1 in
    let r1 = reasons_of p quant first.0 in
    let r2 = reasons_of p stock_factor second.0 in
    let r3 = reasons_of p stock_content third.0 in
    let (h0, k0) =
      is_empty-append (when p.manifest_error Reason.contract_manifest_invalid) (r1 ++ (r2 ++ r3))
        h in
    let (h1, k1) = is_empty-append r1 (r2 ++ r3) k0 in
    let (h2, h3) = is_empty-append r2 r3 k1 in
    let same2 = check_component-other p now quant stock_factor (probes quant) cache refl in
    let same3 =
      check_component-other p now stock_factor stock_content (probes stock_factor) first.1 refl
      ∙ check_component-other p now quant stock_content (probes quant) cache refl in
    all_three (λ c. Verified p now c (probes c) (entry cache c))
      (component-Verified p now quant (probes quant) cache h1)
      (subst (Verified p now stock_factor (probes stock_factor)) same2
        (component-Verified p now stock_factor (probes stock_factor) first.1 h2))
      (subst (Verified p now stock_content (probes stock_content)) same3
        (component-Verified p now stock_content (probes stock_content) second.1 h3))
      name

-- Being ready is fail-closed. When `check` says ready, the service is a deterministic fixture,
-- which names that mode as its only reason and leaves the cache as it is; or it is none, there is
-- no reason against it and the manifest of contracts is valid, and for every component there is a
-- probe which either returned a reachable status that passes every formal gate, or could not
-- connect or raised while the cache held a status seen within the time to live that passes every
-- gate with its snapshot's age counted up to now.
pub ready_is_Verified :
    (fixture : Bool) (p : FormalReadinessPolicy) (now : ℕ) (probes : Component → Probe)
    (cache : Cache)
    → (check fixture p now probes cache).0 ≡ true
    → ((fixture ≡ true)
        × (check fixture p now probes cache ≡ (true, deterministic_fixture_mode ∷ [], cache)))
      ⊎ ((fixture ≡ false)
          × ((check fixture p now probes cache).1 ≡ [])
          × (p.manifest_error ≡ false)
          × ((name : Component) → Verified p now name (probes name) (entry cache name)))
unfolding check
ready_is_Verified true p now probes cache h = inl (refl, refl)
ready_is_Verified false p now probes cache h =
    let (none_left, valid) = check_probes-clear p now probes cache h in
    inr (refl, none_left, valid, λ name. check_probes-Verified p now probes cache name h)
