-- ===== src/Gateway/Tests.antt =====
-- The theorems on the circuit breaker and the retry loop at concrete inputs.
use stock_agent.Base.{ℕ, ◌≤◌, All, ◌≡◌, refl, none, some, [], ◌∷◌, arith, if◌then◌else◌, ◌==◌}
use stock_agent.Gateway.Breaker.{
  CircuitBreaker, opened, closed, gives, fails, error, circuit_open, IsSound, allow, success,
  failure, call, new_breaker, open_blocks, operations-IsSound, open_recovers, fail_at,
  opens_at_threshold,
}
use stock_agent.Gateway.Retry
use stock_agent.Gateway.Retry.{RetryPolicy, Failure, Attempt, Trace}

abbrev tripped : CircuitBreaker
tripped = record {
  failure_threshold = 3;
  recovery_seconds = 30;
  state = opened;
  failures = 3;
  opened_at = some 100;
}

abbrev fresh : CircuitBreaker
fresh = record {
  failure_threshold = 3;
  recovery_seconds = 30;
  state = closed;
  failures = 0;
  opened_at = none;
}

operations-IsSound_holds :
    IsSound (new_breaker 0 5)
    × (IsSound tripped
        → IsSound (allow 110 tripped).0
          × IsSound (success tripped)
          × IsSound (failure 110 tripped)
          × IsSound (call 110 120 (fails 7) tripped).0)
operations-IsSound_holds = operations-IsSound 0 5 110 120 (fails 7) tripped

open_blocks_holds : call 110 120 (gives 7) tripped ≡ (tripped, circuit_open)
open_blocks_holds = open_blocks 110 120 100 (gives 7) tripped refl refl (omega arith)

open_recovers_holds :
    call 130 140 (fails 7) tripped
    ≡ (record tripped { failures = 4; opened_at = some 140 }, error 7)
open_recovers_holds = open_recovers 130 140 100 (fails 7) tripped refl refl (omega arith)

opens_at_threshold_holds :
    let b = fail_at ((1, 2) ∷ (3, 4) ∷ []) 7 fresh in
    (b.state ≡ closed)
    × ((call 5 6 (fails 7) b).0.state ≡ opened)
    × ((call 5 6 (fails 7) b).0.opened_at ≡ some 6)
opens_at_threshold_holds = opens_at_threshold ((1, 2) ∷ (3, 4) ∷ []) 5 6 7 fresh refl (omega arith)

abbrev policy : RetryPolicy
policy = record { max_attempts = 3; base_delay = 250; max_delay = 400; jitter = 100000 }

-- Two retryable failures, then a value.
abbrev operation : ℕ → Attempt
operation n = if n == 2 then Attempt.gives 9 else Attempt.fails (Failure.retryable none)

abbrev draws : ℕ → ℕ
draws n = 500000

retry_call-IsRun_example :
    Retry.IsRun policy none draws operation 0 (Retry.retry_call policy none draws operation)
retry_call-IsRun_example = Retry.retry_call-IsRun policy none draws operation

retry_call-capped_example : All (λ d. d ≤ 440) (Retry.retry_call policy none draws operation).delays
retry_call-capped_example = Retry.retry_call-capped policy none draws operation (λ n. omega arith)

-- Each delay is drawn a twentieth longer, which takes the second one above the greatest delay.
third_call_answers :
    Retry.retry_call policy none draws operation
    ≡ record { ending = Retry.value 9; calls = 3; delays = 262 ∷ 420 ∷ [] }
unfolding Retry.retry_call Retry.retry_loop Retry.delay
third_call_answers = refl
