-- ===== src/Gateway/Retry.antt =====
-- `RetryPolicy` and `retry_call` of app/model_gateway/retry.py. Delays are whole numbers of
-- milliseconds, the jitter and the draws of `random.random()` millionths; a jittered delay is
-- rounded down.
use stock_agent.Base.{
  ℕ, zero, suc, ◌+◌, ◌*◌, ◌/◌, ◌≤◌, ◌<◌, ◌≡◌, refl, subst, ◌⊎◌, Bool, true, false, not, ◌||◌, inl,
  inr, Option, none, some, List, [], ◌∷◌, arith, leb, if◌then◌else◌, Bool-cases, max, min, length,
  All,
}
use Prim.Native.Nat.{◌^◌}
use native.Mathlib.Nat.{mul-le-mul, mul-le-mul_right}

pub record RetryPolicy : Type 0 where
  pub max_attempts : ℕ
  pub base_delay : ℕ
  pub max_delay : ℕ
  pub jitter : ℕ

-- What a jitter adds to a delay.
abbrev pub jittered : RetryPolicy → ℕ → ℕ → ℕ
jittered p draw delay = delay + delay * p.jitter * draw / 1000000000000

-- `RetryPolicy.delay`: what the server asked for, capped, or the base delay doubled for each
-- attempt, capped, and the jitter added.
unfoldable pub delay : RetryPolicy → ℕ → ℕ → Option ℕ → ℕ
delay p attempt draw (some retry_after) = min retry_after p.max_delay
delay p attempt draw none = jittered p draw (min p.max_delay (p.base_delay * 2 ^ attempt))

-- An exception: a RetryableError with its `retry_after`, or any other.
pub data Failure : Type 0 where
  retryable : Option ℕ → Failure
  other : ℕ → Failure

pub data Attempt : Type 0 where
  gives : ℕ → Attempt
  fails : Failure → Attempt

-- getattr(exc, "retry_after", None)
abbrev retry_after : Failure → Option ℕ
retry_after (retryable seconds) = seconds
retry_after (other code) = none

abbrev is_retryable : Failure → Bool
is_retryable (retryable seconds) = true
is_retryable (other code) = false

-- Whether the loop may go on after this failure: `retry_if` decides, or the exception's class.
abbrev pub may_retry : Option (Failure → Bool) → Failure → Bool
may_retry none f = is_retryable f
may_retry (some test) f = test f

-- How `retry_call` ends, the number of calls made and the delays slept between them. `exhausted`
-- is the line behind the loop.
pub data Ending : Type 0 where
  value : ℕ → Ending
  raised : Failure → Ending
  exhausted : Ending

pub record Trace : Type 0 where
  pub ending : Ending
  pub calls : ℕ
  pub delays : List ℕ

abbrev after_sleep : ℕ → Trace → Trace
after_sleep d t = record t { calls = t.calls + 1; delays = d ∷ t.delays }

abbrev stop : Ending → Trace
stop e = record { ending = e; calls = 1; delays = [] }

-- The loop, with the attempts left; `operation` gives the outcome of each call by its number, and
-- `draws` the random numbers.
unfoldable pub retry_loop :
    RetryPolicy → Option (Failure → Bool) → (ℕ → ℕ) → (ℕ → Attempt) → ℕ → ℕ → Trace
unfolding delay
retry_loop p test draws operation attempt zero = record {
  ending = exhausted;
  calls = 0;
  delays = [];
}
retry_loop p test draws operation attempt (suc left) =
    let rest = retry_loop p test draws operation (attempt + 1) left in
    elim (operation attempt) [
      | gives v ↦ stop (value v)
      | fails f ↦
          if leb (max 1 p.max_attempts) (attempt + 1) || not (may_retry test f)
          then stop (raised f)
          else after_sleep (delay p attempt (draws attempt) (retry_after f)) rest
    ]

unfoldable pub retry_call : RetryPolicy → Option (Failure → Bool) → (ℕ → ℕ) → (ℕ → Attempt) → Trace
retry_call p test draws operation = retry_loop p test draws operation 0 (max 1 p.max_attempts)

-- The longest delay, for draws below 1.
abbrev pub longest : RetryPolicy → ℕ
longest p = p.max_delay + p.max_delay * p.jitter / 1000000

delay-le :
    (p : RetryPolicy) (attempt draw : ℕ) (asked : Option ℕ)
    → draw < 1000000
    → delay p attempt draw asked ≤ longest p
unfolding delay
delay-le p attempt draw none h =
    let plain = min p.max_delay (p.base_delay * 2 ^ attempt) in
    let bound : plain ≤ p.max_delay = omega arith in
    let product : plain * p.jitter * draw ≤ p.max_delay * p.jitter * 1000000 =
      mul-le-mul (mul-le-mul_right p.jitter bound) (omega (arith, h)) in
    omega (arith, bound, product)
delay-le p attempt draw (some r) h = omega arith

module _ (p : RetryPolicy) (test : Option (Failure → Bool)) (draws : ℕ → ℕ)
    (operation : ℕ → Attempt) where
  -- What a call of `retry_call` may do from the attempt `n` on, told without a loop: it ends with
  -- the first value, or with a failure that is not to be retried or came with the last attempt;
  -- after any other failure it sleeps and goes on.
  pub data Runs : ℕ → Trace → Type 0 where
    answered : {n v : ℕ} → operation n ≡ gives v → Runs n (stop (value v))
    gave_up :
        {n : ℕ} {f : Failure}
        → operation n ≡ fails f
        → ((may_retry test f ≡ false) ⊎ (max 1 p.max_attempts ≤ n + 1))
        → Runs n (stop (raised f))
    again :
        {n : ℕ} {f : Failure} {t : Trace}
        → operation n ≡ fails f
        → may_retry test f ≡ true
        → n + 1 < max 1 p.max_attempts
        → Runs (n + 1) t
        → Runs n (after_sleep (delay p n (draws n) (retry_after f)) t)

  module _ (n left : ℕ) where
    loop-gives :
        (v : ℕ)
        → operation n ≡ gives v
        → retry_loop p test draws operation n (suc left) ≡ stop (value v)
    unfolding retry_loop
    loop-gives v e = rw (e, retry_loop)

    loop-stops :
        (f : Failure)
        → operation n ≡ fails f
        → (leb (max 1 p.max_attempts) (n + 1) || not (may_retry test f)) ≡ true
        → retry_loop p test draws operation n (suc left) ≡ stop (raised f)
    unfolding retry_loop
    loop-stops f e h = rw (e, retry_loop) (rw h)

    loop-sleeps :
        (f : Failure)
        → operation n ≡ fails f
        → (leb (max 1 p.max_attempts) (n + 1) || not (may_retry test f)) ≡ false
        → retry_loop p test draws operation n (suc left)
          ≡ after_sleep
              (delay p n (draws n) (retry_after f))
              (retry_loop p test draws operation (n + 1) left)
    unfolding retry_loop
    loop-sleeps f e h = rw (e, retry_loop) (rw h)

  stop_reason :
      (n : ℕ) (b : Bool)
      → (leb (max 1 p.max_attempts) (n + 1) || not b) ≡ true
      → (b ≡ false) ⊎ (max 1 p.max_attempts ≤ n + 1)
  stop_reason n true h = inr (ground arith)
  stop_reason n false h = inl refl

  go_reason :
      (n : ℕ) (b : Bool)
      → (leb (max 1 p.max_attempts) (n + 1) || not b) ≡ false
      → (b ≡ true) × (n + 1 < max 1 p.max_attempts)
  go_reason n true h = (refl, ground arith)
  go_reason n false h = ground arith

  attempt_cases :
      (n : ℕ) → ((v : ℕ) × (operation n ≡ gives v)) ⊎ ((f : Failure) × (operation n ≡ fails f))
  attempt_cases n = by (operation n) refl
    where
      by :
          (a : Attempt)
          → operation n ≡ a
          → ((v : ℕ) × (operation n ≡ gives v)) ⊎ ((f : Failure) × (operation n ≡ fails f))
      by (gives v) e = inl (v, e)
      by (fails f) e = inr (f, e)

  loop-Runs :
      (n left : ℕ)
      → n + left ≡ max 1 p.max_attempts
      → 0 < left
      → Runs n (retry_loop p test draws operation n left)
  loop-Runs n zero total pos = elim pos [ ]
  loop-Runs n (suc left) total pos = elim (attempt_cases n) [
    | inl (v, e) ↦ rw (loop-gives n left v e) (answered e)
    | inr (f, e) ↦
        elim (Bool-cases (leb (max 1 p.max_attempts) (n + 1) || not (may_retry test f))) [
          | inl h ↦ rw (loop-stops n left f e h) (gave_up e (stop_reason n (may_retry test f) h))
          | inr h ↦
              let go = go_reason n (may_retry test f) h in
              rw (loop-sleeps n left f e h)
                (again e go.0 go.1 (loop-Runs (n + 1) left (omega arith) (omega arith)))
        ]
  ]

  -- The loop of `retry_call` does what its description says, and so always ends with a value or
  -- an exception of the operation, never behind the loop.
  pub retry_call-Runs : Runs 0 (retry_call p test draws operation)
  unfolding retry_call
  retry_call-Runs = loop-Runs 0 (max 1 p.max_attempts) (omega arith) (omega arith)

  -- What a failure has to be for a retry: a RetryableError, or what `retry_if` accepts.
  abbrev pub IsRetried : Option (Failure → Bool) → Failure → Type 0
  IsRetried none (retryable seconds) = Unit
  IsRetried none (other code) = ⊥
  IsRetried (some accepts) f = accepts f ≡ true

  retried : (o : Option (Failure → Bool)) (f : Failure) → may_retry o f ≡ true → IsRetried o f
  retried none (retryable seconds) h = tt
  retried none (other code) h = absurd (ground (arith, h))
  retried (some accepts) f h = h

  not-IsRetried :
      (o : Option (Failure → Bool)) (f : Failure) → may_retry o f ≡ false → ¬ IsRetried o f
  not-IsRetried none (retryable seconds) h k = absurd (ground (arith, h))
  not-IsRetried none (other code) h k = k
  not-IsRetried (some accepts) f h k = absurd (ground (arith, h, k))

  -- How a run ends with its attempt `i`.
  abbrev pub EndsWith : ℕ → Ending → Type 0
  EndsWith i (value v) = operation i ≡ gives v
  EndsWith i (raised f) =
      (operation i ≡ fails f) × (¬ IsRetried test f ⊎ (i + 1 ≡ max 1 p.max_attempts))
  EndsWith i exhausted = ⊥

  -- A run of the attempts from `n` on.
  pub record IsRun (n : ℕ) (t : Trace) : Type 0 where
    pub called : 0 < t.calls
    pub within : n + t.calls ≤ max 1 p.max_attempts
    pub failed_before :
        (i : ℕ)
        → n ≤ i
        → i + 1 < n + t.calls
        → (f : Failure) × (operation i ≡ fails f) × IsRetried test f
    pub last : (i : ℕ) → i + 1 ≡ n + t.calls → EndsWith i t.ending
    pub one_less : length t.delays + 1 ≡ t.calls

  Runs-IsRun : {n : ℕ} {t : Trace} → n < max 1 p.max_attempts → Runs n t → IsRun n t
  Runs-IsRun {n = n} h (answered {v = v} e) = record {
    called = omega arith;
    within = omega arith;
    failed_before = λ i a b. absurd (omega (arith, a, b));
    last = λ i a. subst (λ k. operation k ≡ gives v) (omega (arith, a)) e;
    one_less = refl;
  }
  Runs-IsRun {n = n} h (gave_up {f = g} e w) = record {
    called = omega arith;
    within = omega arith;
    failed_before = λ i a b. absurd (omega (arith, a, b));
    last = λ i a. (
      subst (λ k. operation k ≡ fails g) (omega (arith, a)) e,
      elim w [ inl x ↦ inl (not-IsRetried test g x) | inr x ↦ inr (omega (arith, a, x, h)) ],
    );
    one_less = refl;
  }
  Runs-IsRun {n = n} h (again {f = g} {t = t} e m lt r) =
      let b = Runs-IsRun lt r in
      record {
        called = omega arith;
        within = omega (arith, b.within);
        failed_before = λ i from before. elim (Bool-cases (leb i n)) [
          | inl y ↦
              (g, subst (λ k. operation k ≡ fails g) (ground (arith, y, from)) e, retried test g m)
          | inr x ↦ b.failed_before i (ground (arith, x)) (omega (arith, before))
        ];
        last = λ i a. b.last i (omega (arith, a));
        one_less = omega (arith, b.one_less);
      }

  -- `retry_call` makes at least one call and at most `max_attempts` (one, if that is 0). Every
  -- attempt before its last has failed with what is to be retried: a RetryableError, or what
  -- `retry_if` accepts where it is given. It ends as its last attempt does: with its value, or with
  -- its failure, which then is not to be retried or came with the last attempt allowed; never
  -- behind the loop. It sleeps once between two attempts.
  pub retry_call-IsRun : IsRun 0 (retry_call p test draws operation)
  retry_call-IsRun =
      Runs-IsRun {t = retry_call p test draws operation} (omega arith) retry_call-Runs

  module _ (below_one : (n : ℕ) → draws n < 1000000) where
    Runs-capped : {n : ℕ} {t : Trace} → Runs n t → All (λ d. d ≤ longest p) t.delays
    Runs-capped (answered e) = tt
    Runs-capped (gave_up e w) = tt
    Runs-capped {n = n} (again {f = g} e m lt r) =
        (delay-le p n (draws n) (retry_after g) (below_one n), Runs-capped r)

    -- No sleep is longer than the greatest delay with its whole jitter, for draws below 1.
    pub retry_call-capped : All (λ d. d ≤ longest p) (retry_call p test draws operation).delays
    retry_call-capped = Runs-capped retry_call-Runs
