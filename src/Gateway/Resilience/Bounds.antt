-- ===== src/Gateway/Resilience/Bounds.antt =====
-- How often the loop calls the breaker, and how long the retries wait.
use bankos.Prelude.{
  ℕ, ◌+◌, ◌*◌, ◌≤◌, zero, suc, String, ◌≡◌, refl, ap, ◌⊎◌, inl, inr, Bool, ◌||◌, Option, none, some,
  arith, if◌then◌else◌, Bool-cases, includes,
}
use Prim.Native.Nat.{◌^◌}
use Prim.Native.Nat.add
use Prim.Native.Nat.pow
use bankos.Gateway.Resilience.{
  ProxyError, RetryConfig, idempotent_methods, is_refused, after_fire, retry_from, max_retries,
  run_attempts, execute_with_retry,
}

module _ {S : Type 0} (config : RetryConfig) (fire : S → Option ProxyError × S)
    (headers_sent : S → Bool) (sleep : ℕ → S → S) where
  module _ (calls slept : S → ℕ) (fire_calls : (s : S) → calls (fire s).1 ≡ suc (calls s))
      (fire_slept : (s : S) → slept (fire s).1 ≡ slept s)
      (sleep_calls : (ms : ℕ) (s : S) → calls (sleep ms s) ≡ calls s)
      (sleep_slept : (ms : ℕ) (s : S) → slept (sleep ms s) ≡ slept s + ms) where
    wait : ℕ → ℕ
    wait attempt = config.retry_delay_ms * 2 ^ attempt

    wait-suc : (attempt : ℕ) → wait (suc attempt) ≡ wait attempt + wait attempt
    unfolding wait
    wait-suc attempt = simp (pow.suc 2 attempt) (grind arith)

    wait-grows : (n attempt : ℕ) → wait attempt ≤ wait (n + attempt)
    wait-grows zero attempt = rw (add.zero attempt) (omega arith)
    wait-grows (suc n) attempt =
        omega (arith, wait-grows n attempt, wait-suc (n + attempt), shifted)
      where
        shifted : wait (suc n + attempt) ≡ wait (suc (n + attempt))
        shifted = ap wait (omega arith)

    shift : (n attempt : ℕ) → wait (n + suc attempt) ≡ wait (suc n + attempt)
    shift n attempt = ap wait (omega arith)

    sleeps :
        (attempt : ℕ) (s : S)
        → slept (sleep (config.retry_delay_ms * 2 ^ attempt) s) ≡ slept s + wait attempt
    unfolding wait
    sleeps attempt s = sleep_slept _ s

    -- The state `s'` after at most so many more retries from the state `s`.
    InBounds : ℕ → ℕ → S → S → Type 0
    InBounds remaining attempt s s' =
        (suc (calls s) ≤ calls s')
        × (calls s' ≤ suc (calls s) + remaining)
        × (slept s' + wait attempt ≤ slept s + wait (remaining + attempt))

    after_fire-elim :
        (P : S → Type 0) (outcome : Option ProxyError × S) (retry : S → Option ProxyError × S)
        → P outcome.1
        → P (retry outcome.1).1
        → P (after_fire config fire headers_sent sleep outcome retry).1
    unfolding after_fire
    after_fire-elim P (none, s) retry stops goes = stops
    after_fire-elim P (some e, s) retry stops goes =
        elim (Bool-cases (is_refused e || headers_sent s)) [
          | inl stop ↦ rw stop stops
          | inr go ↦ rw go goes
        ]

    fire-InBounds : (remaining attempt : ℕ) (s : S) → InBounds remaining attempt s (fire s).1
    unfolding InBounds
    fire-InBounds remaining attempt s = (
      omega (arith, fire_calls s),
      omega (arith, fire_calls s),
      omega (arith, fire_slept s, wait-grows remaining attempt),
    )

    retry_from-InBounds :
        (remaining attempt : ℕ) (s : S)
        → InBounds remaining attempt s
            (retry_from config fire headers_sent sleep remaining attempt s).1
    unfolding retry_from InBounds
    retry_from-InBounds zero attempt s = fire-InBounds zero attempt s
    retry_from-InBounds (suc remaining) attempt s =
        let s' = sleep (config.retry_delay_ms * 2 ^ attempt) (fire s).1 in
        let (called, few, short) = retry_from-InBounds remaining (suc attempt) s' in
        after_fire-elim (InBounds (suc remaining) attempt s) (fire s) _
          (fire-InBounds (suc remaining) attempt s)
          (
            omega (
              arith,
              called,
              sleep_calls (config.retry_delay_ms * 2 ^ attempt) (fire s).1,
              fire_calls s,
            ),
            omega (
              arith,
              few,
              sleep_calls (config.retry_delay_ms * 2 ^ attempt) (fire s).1,
              fire_calls s,
            ),
            omega (
              arith,
              short,
              shift remaining attempt,
              wait-suc attempt,
              sleeps attempt (fire s).1,
              fire_slept s,
            ),
          )

    wait-0 : wait 0 ≡ config.retry_delay_ms
    unfolding wait
    wait-0 = simp (pow.zero 2) (omega arith)

    wait_end : (n : ℕ) → wait (n + 0) ≡ config.retry_delay_ms * 2 ^ n
    unfolding wait
    wait_end n = ap (λ k. config.retry_delay_ms * 2 ^ k) (omega arith)

    run_attempts-InBounds :
        (retries : Option ℕ) (s : S)
        → let s' = (run_attempts config fire headers_sent sleep retries s).1 in
          ((retries ≡ none) × (s' ≡ s))
          ⊎ ((n : ℕ) × (retries ≡ some n)
              × (suc (calls s) ≤ calls s')
              × (calls s' ≤ suc (calls s) + n)
              × (slept s' + config.retry_delay_ms ≤ slept s + config.retry_delay_ms * 2 ^ n))
    unfolding run_attempts InBounds
    run_attempts-InBounds none s = inl (refl, refl)
    run_attempts-InBounds (some n) s =
        let (called, few, short) = retry_from-InBounds n 0 s in
        inr (n, refl, called, few, omega (arith, short, wait-0, wait_end n))

    -- Where the configured number of retries is negative or NaN, `executeWithRetry` makes no attempt
    -- for GET, HEAD and OPTIONS: it ends in the state that it began in. Else it calls `breaker.fire` at
    -- least once and at most once more than this number, and exactly once for the other methods; and
    -- all its waits together are at most the configured delay times two to the number of retries,
    -- less one delay. What a call of `breaker.fire` and a wait add to the counters is a premise.
    pub execute_with_retry-bounds :
        (method : String) (s : S)
        → let s' = (execute_with_retry config fire headers_sent sleep method s).1 in
          let retries = if includes idempotent_methods method then config.retry_count else some 0 in
          ((retries ≡ none) × (s' ≡ s))
          ⊎ ((n : ℕ) × (retries ≡ some n)
              × (suc (calls s) ≤ calls s')
              × (calls s' ≤ suc (calls s) + n)
              × (slept s' + config.retry_delay_ms ≤ slept s + config.retry_delay_ms * 2 ^ n))
    unfolding execute_with_retry max_retries
    execute_with_retry-bounds method s = run_attempts-InBounds _ s
