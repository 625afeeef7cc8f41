-- ===== src/Gateway/Resilience/Recovery.antt =====
-- A downstream service that recovers in time.
use bankos.Prelude.{
  ℕ, ◌+◌, ◌-◌, ◌*◌, ◌≤◌, ◌<◌, zero, suc, String, ◌≡◌, refl, ap, ◌∙◌, Bool, false, ◌||◌, Option,
  none, some, arith, if◌then◌else◌, includes,
}
use Prim.Native.Nat.{◌^◌}
use bankos.Gateway.Resilience.{
  ProxyError, RetryConfig, idempotent_methods, is_refused, after_fire, retry_from, max_retries,
  run_attempts, execute_with_retry, answer_failure, handle,
}

module _ {S : Type 0} (config : RetryConfig) (fire : S → Option ProxyError × S)
    (headers_sent : S → Bool) (sleep : ℕ → S → S) where
  -- The state before a later attempt, where each attempt before it failed and was followed by its wait.
  unfoldable pub before_attempt : (attempt later : ℕ) → S → S
  before_attempt attempt zero s = s
  before_attempt attempt (suc later) s =
      before_attempt (suc attempt) later (sleep (config.retry_delay_ms * 2 ^ attempt) (fire s).1)

  -- An attempt fails in a way that the loop retries.
  abbrev pub Retries : S → Type 0
  Retries s =
      (e : ProxyError) × ((fire s).0 ≡ some e) × ((is_refused e || headers_sent (fire s).1) ≡ false)

  after_fire-retry :
      (outcome : Option ProxyError × S) (retry : S → Option ProxyError × S) (e : ProxyError)
      → outcome.0 ≡ some e
      → (is_refused e || headers_sent outcome.1) ≡ false
      → after_fire config fire headers_sent sleep outcome retry ≡ retry outcome.1
  unfolding after_fire
  after_fire-retry (none, s) retry e failed retried = cc
  after_fire-retry (some e', s) retry e failed retried =
      let same : e' ≡ e = cc failed in rw (ap is_refused same, retried) refl

  after_fire-success :
      (outcome : Option ProxyError × S) (retry : S → Option ProxyError × S)
      → outcome.0 ≡ none
      → after_fire config fire headers_sent sleep outcome retry ≡ (none, outcome.1)
  unfolding after_fire
  after_fire-success (none, s) retry worked = refl
  after_fire-success (some e, s) retry worked = cc

  retry_success :
      (remaining attempt : ℕ) (s : S)
      → (fire s).0 ≡ none
      → retry_from config fire headers_sent sleep remaining attempt s ≡ (none, (fire s).1)
  unfolding retry_from
  retry_success zero attempt s worked = ap (λ o. (o, (fire s).1)) worked
  retry_success (suc remaining) attempt s worked = after_fire-success (fire s) _ worked

  retry_step :
      (remaining attempt : ℕ) (s : S) (e : ProxyError)
      → (fire s).0 ≡ some e
      → (is_refused e || headers_sent (fire s).1) ≡ false
      → retry_from config fire headers_sent sleep (suc remaining) attempt s
        ≡ retry_from config fire headers_sent sleep remaining
            (suc attempt)
            (sleep (config.retry_delay_ms * 2 ^ attempt) (fire s).1)
  unfolding retry_from
  retry_step remaining attempt s e failed retried = after_fire-retry (fire s) _ e failed retried

  retry_from-recovers :
      (later more attempt : ℕ) (s : S)
      → ((i : ℕ) → i < later → Retries (before_attempt attempt i s))
      → (fire (before_attempt attempt later s)).0 ≡ none
      → retry_from config fire headers_sent sleep (later + more) attempt s
        ≡ (none, (fire (before_attempt attempt later s)).1)
  unfolding before_attempt
  retry_from-recovers zero more attempt s fails works = retry_success (0 + more) attempt s works
  retry_from-recovers (suc later) more attempt s fails works =
      let (e, failed, retried) = fails 0 (omega arith) in
      let counted : suc later + more ≡ suc (later + more) = omega arith in
      ap (λ n. retry_from config fire headers_sent sleep n attempt s) counted
      ∙ retry_step (later + more) attempt s e failed retried
      ∙ retry_from-recovers later more (suc attempt)
          (sleep (config.retry_delay_ms * 2 ^ attempt) (fire s).1)
          (λ i less. fails (suc i) (omega (arith, less))) works

  -- Where the downstream service fails at first, each time in a way that is retried, and then answers at
  -- an attempt that is no later than the retries that the method allows, which are a natural number, the
  -- handler reports no error, and stops right after that attempt. Each wait before it doubles.
  pub handle_recovers :
      (name method : String) (k retries : ℕ) (s : S)
      → (if includes idempotent_methods method then config.retry_count else some 0) ≡ some retries
      → k ≤ retries
      → ((i : ℕ) → i < k → Retries (before_attempt 0 i s))
      → (fire (before_attempt 0 k s)).0 ≡ none
      → handle config fire headers_sent sleep name method s
        ≡ (none, (fire (before_attempt 0 k s)).1)
  unfolding handle execute_with_retry max_retries run_attempts answer_failure
  handle_recovers name method k retries s count enough fails works =
      let split : retries ≡ k + (retries - k) = omega (arith, enough) in
      rw (count, split, retry_from-recovers k (retries - k) 0 s fails works) refl
