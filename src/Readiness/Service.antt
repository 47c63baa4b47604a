-- ===== src/Readiness/Service.antt =====
-- `FormalReadinessService` of app/application/readiness/service.py. Names and contracts are numbers
-- that code the texts, 0 the empty one; times are seconds, and the clock does not run backwards. The
-- formatting of the components and the lock are left out.
use stock_agent.Base.{
  ℕ, ◌-◌, ◌+◌, Bool, true, false, not, ◌&&◌, ◌||◌, Option, none, some, List, [], ◌∷◌, ◌++◌, leb,
  ltb, ◌==◌, contains, if◌then◌else◌,
}

pub data Component : Type 0 where
  quant stock_factor stock_content : Component

abbrev pub code : Component → ℕ
code quant = 1
code stock_factor = 2
code stock_content = 3

pub data Reason : Type 0 where
  contract_manifest_invalid capability_probe_missing upstream_timeout upstream_probe_error : Reason
  upstream_unavailable capability_identity_mismatch contract_unverified contract_mismatch : Reason
  freshness_unverified snapshot_stale pit_unverified quality_unverified quality_failed : Reason
  cached_last_success capability_cache_expired deterministic_fixture_mode : Reason

pub data Quality : Type 0 where
  pass other : Quality

pub record CapabilityStatus : Type 0 where
  pub component : ℕ
  pub reachable : Bool
  pub contract : Option ℕ
  pub snapshot_age_seconds : Option ℕ
  pub quality : Option Quality
  pub pit : Option Bool
  pub reason_code : Option Reason

pub record FormalReadinessPolicy : Type 0 where
  pub ttl_seconds : ℕ
  pub max_snapshot_age_seconds : ℕ
  pub require_pit : Bool
  pub required_contracts : List ℕ
  pub expected_contracts : Component → Option ℕ
  pub manifest_error : Bool

abbrev pub when : Bool → Reason → List Reason
when b r = if b then r ∷ [] else []

abbrev pub is_nonempty : List ℕ → Bool
is_nonempty [] = false
is_nonempty (x ∷ xs) = true

-- Whether an expected contract is named and is another one.
abbrev pub differs : Option ℕ → ℕ → Bool
differs none c = false
differs (some e) c = not (e == 0) && not (e == c)

abbrev pub contract_reasons : FormalReadinessPolicy → Component → Option ℕ → List Reason
contract_reasons p name none = contract_unverified ∷ []
contract_reasons p name (some c) =
    when
      (differs (p.expected_contracts name) c
        || (is_nonempty p.required_contracts && not (contains c p.required_contracts)))
      contract_mismatch

abbrev pub freshness_reasons : FormalReadinessPolicy → Option ℕ → List Reason
freshness_reasons p none = freshness_unverified ∷ []
freshness_reasons p (some age) = when (ltb p.max_snapshot_age_seconds age) snapshot_stale

abbrev pub is_true : Option Bool → Bool
is_true (some true) = true
is_true _ = false

abbrev pub quality_reasons : Option Quality → List Reason
quality_reasons none = quality_unverified ∷ []
quality_reasons (some pass) = []
quality_reasons (some other) = quality_failed ∷ []

unfoldable pub validation_reasons :
    FormalReadinessPolicy → Component → CapabilityStatus → List Reason
validation_reasons p name s =
    when (not (s.component == code name)) capability_identity_mismatch
    ++ (contract_reasons p name s.contract
        ++ (freshness_reasons p s.snapshot_age_seconds
            ++ (when (p.require_pit && not (is_true s.pit)) pit_unverified
                ++ quality_reasons s.quality)))

-- `_cache`: the last good status of a component and the time it was seen.
pub record Cache : Type 0 where
  pub of_quant : Option (CapabilityStatus × ℕ)
  pub of_stock_factor : Option (CapabilityStatus × ℕ)
  pub of_stock_content : Option (CapabilityStatus × ℕ)

abbrev pub entry : Cache → Component → Option (CapabilityStatus × ℕ)
entry c quant = c.of_quant
entry c stock_factor = c.of_stock_factor
entry c stock_content = c.of_stock_content

abbrev pub set_entry : Component → Option (CapabilityStatus × ℕ) → Cache → Cache
set_entry quant e c = record c { of_quant = e }
set_entry stock_factor e c = record c { of_stock_factor = e }
set_entry stock_content e c = record c { of_stock_content = e }

abbrev pub failed_status :
    Component → Option ℕ → Option ℕ → Option Quality → Option Bool → Reason → CapabilityStatus
failed_status name contract age quality pit r = record {
  component = code name;
  reachable = false;
  contract = contract;
  snapshot_age_seconds = age;
  quality = quality;
  pit = pit;
  reason_code = some r;
}

abbrev older : ℕ → Option ℕ → Option ℕ
older seconds none = none
older seconds (some age) = some (age + seconds)

-- A cached status, `seconds` after it was seen.
abbrev pub aged : Component → ℕ → CapabilityStatus → CapabilityStatus
aged name seconds s = record s {
  component = code name;
  reachable = true;
  snapshot_age_seconds = older seconds s.snapshot_age_seconds;
  reason_code = some cached_last_success;
}

-- `_cached_or_failed`, of the cache's entry.
unfoldable pub cached_or_failed :
    FormalReadinessPolicy
    → ℕ
    → Component
    → Option (CapabilityStatus × ℕ)
    → Reason
    → CapabilityStatus
cached_or_failed p now name none r = failed_status name none none none none r
cached_or_failed p now name (some (s, stored_at)) r =
    let age = now - stored_at in
    if leb age p.ttl_seconds
    then aged name age s
    else failed_status name s.contract (older age s.snapshot_age_seconds) s.quality s.pit
        capability_cache_expired

-- What a probe does: there is none, it returns a status, it cannot connect, or it raises.
pub data Probe : Type 0 where
  missing : Probe
  returns : CapabilityStatus → Probe
  times_out : Probe
  raises : Probe

abbrev pub is_empty : List Reason → Bool
is_empty [] = true
is_empty (r ∷ rs) = false

-- The status of one component, and the cache after it: a reachable status is kept only when it
-- passes every gate, and otherwise clears the entry.
unfoldable pub check_component :
    FormalReadinessPolicy → ℕ → Component → Probe → Cache → CapabilityStatus × Cache
check_component p now name missing cache =
    (failed_status name none none none none capability_probe_missing, cache)
check_component p now name (returns s) cache =
    let kept = if is_empty (validation_reasons p name s) then some (s, now) else none in
    (s, if s.reachable then set_entry name kept cache else cache)
check_component p now name times_out cache =
    (cached_or_failed p now name (entry cache name) upstream_timeout, cache)
check_component p now name raises cache =
    (cached_or_failed p now name (entry cache name) upstream_probe_error, cache)

abbrev pub reasons_of : FormalReadinessPolicy → Component → CapabilityStatus → List Reason
reasons_of p name s =
    if s.reachable
    then validation_reasons p name s
    else (elim s.reason_code [ none ↦ upstream_unavailable | some r ↦ r ]) ∷ []

-- `check` of a service without the fixture.
unfoldable pub check_probes :
    FormalReadinessPolicy → ℕ → (Component → Probe) → Cache → Bool × List Reason × Cache
check_probes p now probes cache =
    let first = check_component p now quant (probes quant) cache in
    let second = check_component p now stock_factor (probes stock_factor) first.1 in
    let third = check_component p now stock_content (probes stock_content) second.1 in
    let reasons =
      when p.manifest_error contract_manifest_invalid
      ++ (reasons_of p quant first.0
          ++ (reasons_of p stock_factor second.0 ++ reasons_of p stock_content third.0)) in
    (is_empty reasons, reasons, third.1)

-- `check`: whether the service is ready, the reasons before duplicates are dropped, and the cache.
-- A deterministic fixture is ready without a probe, and says so in its reasons.
unfoldable pub check :
    Bool → FormalReadinessPolicy → ℕ → (Component → Probe) → Cache → Bool × List Reason × Cache
check deterministic_fixture p now probes cache =
    if deterministic_fixture
    then (true, deterministic_fixture_mode ∷ [], cache)
    else check_probes p now probes cache
