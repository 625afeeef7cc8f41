-- ===== src/Gateway/Resilience.antt =====
-- middlewares/resilience.ts: the retries around the circuit breaker, and the answer when they fail. The
-- state of the breaker, of the response and of the timers is a parameter, and so is `breaker.fire`:
-- the error it rejects with, or none. `sleep` is what comes between two attempts: the count of the retry
-- (Meters), the log and the wait.
pub mod Bounds
pub mod Recovery
pub mod Meters
use bankos.Prelude.{
  ℕ, ◌+◌, ◌*◌, zero, suc, String, Bool, true, false, ◌||◌, Option, none, some, List, [], ◌∷◌,
  includes, ◌===◌, if◌then◌else◌,
}
use Prim.Native.Nat.{◌^◌}
use Prim.Native.String
use bankos.Gateway.Errors.{says}
use bankos.Http.{Answer}

-- What the code reads of an error.
pub record ProxyError : Type 0 where
  pub error_type : Option String
  pub code : Option String
  pub message : Option String

unfoldable pub is_text : Option String → String → Bool
is_text none text = false
is_text (some value) text = value === text

abbrev pub idempotent_methods : List String
idempotent_methods = "GET" ∷ "HEAD" ∷ "OPTIONS" ∷ []

-- The errors that end the loop at once.
unfoldable pub is_refused : ProxyError → Bool
unfolding is_text says
is_refused e =
    is_text e.error_type "open"
    || is_text e.error_type "system-overload"
    || says e.message "Bulkhead"

-- `res.status(…).json(…)` of the wrapper, where no headers are sent yet.
unfoldable pub degrade : String → ProxyError → Answer
unfolding is_text says
degrade name e =
    if is_text e.error_type "open"
    then record {
      status = 503;
      error = "Service Unavailable";
      message =
          String.◌++◌ "Circuit breaker is open for "
            (String.◌++◌ name ". Downstream is unavailable.");
    }
    else if is_text e.code "ECONNREFUSED"
    then record {
      status = 503;
      error = "Service Unavailable";
      message = String.◌++◌ "Downstream service " (String.◌++◌ name " refused connection.");
    }
    else if is_text e.code "ETIMEDOUT" || is_text e.error_type "timeout"
    then record {
      status = 504;
      error = "Gateway Timeout";
      message = String.◌++◌ "Request to " (String.◌++◌ name " timed out.");
    }
    else if is_text e.error_type "system-overload" || says e.message "Bulkhead"
    then record {
      status = 429;
      error = "Too Many Requests";
      message = String.◌++◌ "Bulkhead exhausted for " (String.◌++◌ name ". Try again later.");
    }
    else record {
      status = 502;
      error = "Bad Gateway";
      message = String.◌++◌ "Unexpected error communicating with " (String.◌++◌ name ".");
    }

-- config/index.ts: the two settings of the retries. The count is read by `parseInt` and not tested: it is
-- `none` where it is negative or NaN. The delay is modelled where it is a natural number.
pub record RetryConfig : Type 0 where
  pub retry_count : Option ℕ
  pub retry_delay_ms : ℕ

module _ {S : Type 0} (config : RetryConfig) (fire : S → Option ProxyError × S)
    (headers_sent : S → Bool) (sleep : ℕ → S → S) where
  -- What the loop does after `breaker.fire`, where attempts are left: `retry` is the rest of it.
  unfoldable pub after_fire :
      Option ProxyError × S → (S → Option ProxyError × S) → Option ProxyError × S
  after_fire (none, s) retry = (none, s)
  after_fire (some e, s) retry = if is_refused e || headers_sent s then (some e, s) else retry s

  -- The loop from an attempt on, with the attempts that are left after it. What the last attempt
  -- rejects with is thrown in any case.
  unfoldable pub retry_from : (remaining attempt : ℕ) → S → Option ProxyError × S
  unfolding after_fire
  retry_from zero attempt s = fire s
  retry_from (suc remaining) attempt s =
      after_fire (fire s)
        (λ s'. retry_from remaining (suc attempt) (sleep (config.retry_delay_ms * 2 ^ attempt) s'))

  unfoldable pub max_retries : String → Option ℕ
  max_retries method = if includes idempotent_methods method then config.retry_count else some 0

  -- The loop runs while the attempt is at most the maximum, so that it makes no attempt where this is
  -- negative or NaN, and returns.
  unfoldable pub run_attempts : Option ℕ → S → Option ProxyError × S
  run_attempts none s = (none, s)
  run_attempts (some retries) s = retry_from retries 0 s

  -- `executeWithRetry`
  unfoldable pub execute_with_retry : String → S → Option ProxyError × S
  execute_with_retry method s = run_attempts (max_retries method) s

  -- The answer that the wrapper gives, if the proxy has not answered.
  unfoldable pub answer_failure : String → Option ProxyError × S → Option Answer
  answer_failure name (none, s) = none
  answer_failure name (some e, s) = if headers_sent s then none else some (degrade name e)

  unfoldable pub handle : (name method : String) → S → Option Answer × S
  handle name method s =
      let outcome = execute_with_retry method s in (answer_failure name outcome, outcome.1)
