-- ===== src/Readiness/Tests.antt =====
-- The theorem on readiness at concrete probes.
use stock_agent.Base.{◌≡◌, refl, true, false, none, some, [], ◌∷◌, ◌⊎◌}
use stock_agent.Readiness.Service.{
  Component, quant, stock_factor, stock_content, code, pass, CapabilityStatus,
  FormalReadinessPolicy, Cache, Probe, returns, times_out, validation_reasons, cached_or_failed,
  check_component, check_probes, check, deterministic_fixture_mode, entry,
}
use stock_agent.Readiness.Verified.{Verified, ready_is_Verified}

abbrev policy : FormalReadinessPolicy
policy = record {
  ttl_seconds = 30;
  max_snapshot_age_seconds = 300;
  require_pit = true;
  required_contracts = [];
  expected_contracts = λ c. some (code c);
  manifest_error = false;
}

abbrev good : Component → CapabilityStatus
good c = record {
  component = code c;
  reachable = true;
  contract = some (code c);
  snapshot_age_seconds = some 280;
  quality = some pass;
  pit = some true;
  reason_code = none;
}

-- Stock content does not answer.
abbrev probes : Component → Probe
probes quant = returns (good quant)
probes stock_factor = returns (good stock_factor)
probes stock_content = times_out

abbrev cache : Cache
cache = record {
  of_quant = none;
  of_stock_factor = none;
  of_stock_content = some (good stock_content, 985);
}

is_ready : (check false policy 1000 probes cache).0 ≡ true
unfolding check check_probes check_component validation_reasons cached_or_failed
is_ready = refl

-- Ten seconds later the cached snapshot is too old.
not_ready_later : (check false policy 1010 probes cache).0 ≡ false
unfolding check check_probes check_component validation_reasons cached_or_failed
not_ready_later = refl

ready_is_Verified_example :
    ((false ≡ true)
      × (check false policy 1000 probes cache ≡ (true, deterministic_fixture_mode ∷ [], cache)))
    ⊎ ((false ≡ false)
        × ((check false policy 1000 probes cache).1 ≡ [])
        × (policy.manifest_error ≡ false)
        × ((name : Component) → Verified policy 1000 name (probes name) (entry cache name)))
ready_is_Verified_example = ready_is_Verified false policy 1000 probes cache is_ready

-- The fixture is ready whatever the probes do.
fixture_is_ready :
    check true policy 1000 (λ c. Probe.missing) cache
    ≡ (true, deterministic_fixture_mode ∷ [], cache)
unfolding check
fixture_is_ready = refl
