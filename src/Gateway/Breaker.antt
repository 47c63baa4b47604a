-- ===== src/Gateway/Breaker.antt =====
-- `CircuitBreaker` of app/model_gateway/circuit_breaker.py. Clock readings and the recovery time
-- are whole numbers of the clock's smallest unit.
use stock_agent.Base.{
  ℕ, ◌+◌, ◌≤◌, ◌<◌, ◌≡◌, ap, ◌∙◌, ◌≢◌, Bool, true, false, ◌||◌, Option, none, some, List, [], ◌∷◌,
  arith, leb, if◌then◌else◌, max, length,
}

pub data CircuitState : Type 0 where
  closed opened half_open : CircuitState

pub record CircuitBreaker : Type 0 where
  pub failure_threshold : ℕ
  pub recovery_seconds : ℕ
  pub state : CircuitState
  pub failures : ℕ
  pub opened_at : Option ℕ

-- `__init__`
unfoldable pub new_breaker : ℕ → ℕ → CircuitBreaker
new_breaker failure_threshold recovery_seconds = record {
  failure_threshold = max 1 failure_threshold;
  recovery_seconds = recovery_seconds;
  state = closed;
  failures = 0;
  opened_at = none;
}

abbrev has_recovered : ℕ → CircuitBreaker → Bool
has_recovered now b = elim b.opened_at [ none ↦ false | some t ↦ leb (t + b.recovery_seconds) now ]

-- The state and whether the call may go on; `before_call` raises where it may not.
unfoldable pub allow : ℕ → CircuitBreaker → CircuitBreaker × Bool
allow now b = elim b.state [
  | opened ↦ if has_recovered now b then (record b { state = half_open }, true) else (b, false)
  | _ ↦ (b, true)
]

unfoldable pub success : CircuitBreaker → CircuitBreaker
success b = record b { state = closed; failures = 0; opened_at = none }

abbrev is_half_open : CircuitState → Bool
is_half_open half_open = true
is_half_open _ = false

unfoldable pub failure : ℕ → CircuitBreaker → CircuitBreaker
failure now b =
    if is_half_open b.state || leb b.failure_threshold (b.failures + 1)
    then record b { failures = b.failures + 1; state = opened; opened_at = some now }
    else record b { failures = b.failures + 1 }

-- How a call ends: the result, the operation's exception, or CircuitOpenError.
pub data Answer : Type 0 where
  result : ℕ → Answer
  error : ℕ → Answer
  circuit_open : Answer

-- What the operation does if it is called: a result or an exception.
pub data Operation : Type 0 where
  gives : ℕ → Operation
  fails : ℕ → Operation

-- `now` is read before the operation, `later` when it fails.
unfoldable pub call : ℕ → ℕ → Operation → CircuitBreaker → CircuitBreaker × Answer
unfolding allow success failure
call now later op b =
    let (b', allowed) = allow now b in
    if allowed
    then (elim op [ gives v ↦ (success b', result v) | fails e ↦ (failure later b', error e) ])
    else (b', circuit_open)

-- A closed breaker has failures to spare; an open one knows since when.
pub record IsSound (b : CircuitBreaker) : Type 0 where
  pub positive : 0 < b.failure_threshold
  pub spare : b.state ≡ closed → b.failures < b.failure_threshold
  pub since : b.state ≡ opened → b.opened_at ≢ none

-- Every breaker starts sound, and every public operation keeps it so, also `failure` and
-- `success` on their own as other threads may call them.
pub operations-IsSound :
    (threshold recovery now later : ℕ) (op : Operation) (b : CircuitBreaker)
    → IsSound (new_breaker threshold recovery)
      × (IsSound b
          → IsSound (allow now b).0
            × IsSound (success b)
            × IsSound (failure now b)
            × IsSound (call now later op b).0)
unfolding new_breaker call
operations-IsSound threshold recovery now later op b =
    (new_IsSound, λ s. (ground arith, ground arith, ground arith, ground arith))
  where
    new_IsSound : IsSound (new_breaker threshold recovery)
    new_IsSound = ground arith

-- Until the recovery time has passed an open breaker calls nothing: whatever the operation would
-- do, the answer is CircuitOpenError and the breaker stays as it is.
pub open_blocks :
    (now later t : ℕ) (op : Operation) (b : CircuitBreaker)
    → b.state ≡ opened
    → b.opened_at ≡ some t
    → now < t + b.recovery_seconds
    → call now later op b ≡ (b, circuit_open)
unfolding call
open_blocks now later t op b o e h = ground arith

-- Once the recovery time has passed, the next call of an open breaker is made: its success closes
-- the breaker and forgets the failures, its failure opens the breaker anew from the time of the
-- failure, however many came before.
pub open_recovers :
    (now later t : ℕ) (op : Operation) (b : CircuitBreaker)
    → b.state ≡ opened
    → b.opened_at ≡ some t
    → t + b.recovery_seconds ≤ now
    → call now later op b ≡ (elim op [
      | gives v ↦ (record b { state = closed; failures = 0; opened_at = none }, result v)
      | fails e ↦
          (record b { state = opened; failures = b.failures + 1; opened_at = some later }, error e)
    ])
unfolding call
open_recovers now later t (gives v) b o e h = ground arith
open_recovers now later t (fails c) b o e h = ground arith

-- A failing call at each of the given pairs of times.
unfoldable pub fail_at : List (ℕ × ℕ) → ℕ → CircuitBreaker → CircuitBreaker
fail_at [] code b = b
fail_at ((now, later) ∷ times) code b = fail_at times code (call now later (fails code) b).0

closed_failure :
    (now later code : ℕ) (b : CircuitBreaker)
    → b.state ≡ closed
    → (call now later (fails code) b).0 ≡ (
        if leb b.failure_threshold (b.failures + 1)
        then record b { failures = b.failures + 1; state = opened; opened_at = some later }
        else record b { failures = b.failures + 1 })
unfolding call
closed_failure now later code b c = ground arith

-- Fewer failures in a row than are left to the threshold leave a closed breaker closed, and each
-- is counted.
pub below_threshold :
    (times : List (ℕ × ℕ)) (code : ℕ) (b : CircuitBreaker)
    → b.state ≡ closed
    → b.failures + length times < b.failure_threshold
    → fail_at times code b ≡ record b { failures = b.failures + length times }
unfolding fail_at
below_threshold [] code b c h = ground arith
below_threshold ((now, later) ∷ times) code b c h =
    let b' : CircuitBreaker = record b { failures = b.failures + 1 } in
    let once : (call now later (fails code) b).0 ≡ b' =
      ground (arith, closed_failure now later code b c) in
    rw once (
      below_threshold times code b' c (omega arith)
      ∙ ap (λ n. record b { failures = n }) (omega arith))

-- The failure that reaches the threshold opens the breaker at that moment: after exactly as many
-- failures in a row as the threshold asks, and not before.
pub opens_at_threshold :
    (times : List (ℕ × ℕ)) (now later code : ℕ) (b : CircuitBreaker)
    → b.state ≡ closed
    → b.failures + length times + 1 ≡ b.failure_threshold
    → ((fail_at times code b).state ≡ closed)
      × ((call now later (fails code) (fail_at times code b)).0.state ≡ opened)
      × ((call now later (fails code) (fail_at times code b)).0.opened_at ≡ some later)
unfolding call
opens_at_threshold times now later code b c h =
    let b' = below_threshold times code b c (omega arith) in rw b' (c, ground arith, ground arith)
