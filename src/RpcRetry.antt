-- ===== src/RpcRetry.antt =====
-- src/utils/rpcRetry.ts: `withTimeout`, `computeBackoffDelay` and `withRetry`.
-- How the n-th call of the wrapped operation goes is an argument, and so are the draws of
-- `Math.random()`. The fractions of the back-off are exact here and doubles in the source.
pub mod Attempts
mod Tests
use swift_chain_backend.Common.{
  ℕ, zero, suc, ◌+◌, ◌-◌, ◌*◌, ◌/◌, ◌^◌, Bool, true, false, not, Option, none, some, List, [], ◌∷◌,
  if◌then◌else◌, ◌||◌, ◌==◌, leb, ltb, min,
}

-- The error of an attempt: the operation's own, or an `OperationTimeoutError`.
pub data Failure (E : Type 0) : Type 0 where
  timed_out : Failure E
  rejected : E → Failure E

-- What a promise comes to, if it settles.
pub data Outcome (T E : Type 0) : Type 0 where
  returned : T → Outcome T E
  raised : Failure E → Outcome T E
  never : Outcome T E

-- A call of the operation: it settles some milliseconds after its start, or it hangs.
pub data Call (T E : Type 0) : Type 0 where
  resolves : (after : ℕ) → T → Call T E
  rejects : (after : ℕ) → E → Call T E
  hangs : Call T E

-- The timer is set before the operation is called, so it also wins a tie.
unfoldable pub with_timeout : {T E : Type 0} → Call T E → ℕ → Outcome T E
with_timeout (resolves after x) timeout_ms =
    if timeout_ms == 0 || ltb after timeout_ms then returned x else raised timed_out
with_timeout (rejects after e) timeout_ms =
    if timeout_ms == 0 || ltb after timeout_ms then raised (rejected e) else raised timed_out
with_timeout hangs timeout_ms = if timeout_ms == 0 then never else raised timed_out

-- The jitter is the fraction `jitter_num / jitter_den`.
pub record RetryOptions : Type 0 where
  pub max_attempts : ℕ
  pub base_delay_ms : ℕ
  pub max_delay_ms : ℕ
  pub factor : ℕ
  pub jitter_num : ℕ
  pub jitter_den : ℕ
  pub timeout_ms : ℕ

abbrev pub default_options : RetryOptions
default_options = record {
  max_attempts = 5;
  base_delay_ms = 250;
  max_delay_ms = 8000;
  factor = 2;
  jitter_num = 1;
  jitter_den = 5;
  timeout_ms = 0;
}

unfoldable pub capped_delay : RetryOptions → ℕ → ℕ
capped_delay o attempt = min (o.base_delay_ms * o.factor ^ attempt) o.max_delay_ms

-- The draw of `Math.random()` is the fraction `r / scale` in [0, 1). `Math.round` is the floor of its
-- argument and a half, and the subtraction's stop at 0 is the `Math.max`.
unfoldable pub compute_backoff_delay : (scale r : ℕ) → ℕ → RetryOptions → ℕ
unfolding capped_delay
compute_backoff_delay scale r attempt o =
    let capped = capped_delay o attempt in
    let den = o.jitter_den * scale in
    (2 * (capped * den + capped * o.jitter_num * (2 * r) - capped * o.jitter_num * scale) + den)
    / (2 * den)

-- `RetryAttemptContext`
pub record FailedAttempt (E : Type 0) : Type 0 where
  pub attempt : ℕ
  pub max_attempts : ℕ
  pub error : Failure E
  pub delay_ms : ℕ

-- What `withRetry` comes to, and its calls of `onAttemptFailed` and `onRecovery` in order.
pub record Retried (T E : Type 0) : Type 0 where
  pub outcome : Option (Outcome T E)
  pub failed_attempts : List (FailedAttempt E)
  pub recovered_on : Option ℕ

abbrev pub report : {T E : Type 0} → FailedAttempt E → Retried T E → Retried T E
report f r = record r { failed_attempts = f ∷ r.failed_attempts }

abbrev pub recovery : ℕ → Option ℕ
recovery attempt = if attempt == 0 then none else some (attempt + 1)

module _ {T E : Type 0} (o : RetryOptions) (is_retryable : Failure E → Bool) (scale : ℕ)
    (draw : ℕ → ℕ) (calls : ℕ → Call T E) where
  -- The loop's rounds from `attempt` on, of which `left` remain. With none made at all the source
  -- throws `undefined`, which is no outcome here.
  unfoldable pub rounds : (left attempt : ℕ) → Retried T E
  rounds zero attempt = record { outcome = none; failed_attempts = []; recovered_on = none }
  rounds (suc left) attempt =
      let rest = rounds left (attempt + 1) in
      elim (with_timeout (calls attempt) o.timeout_ms) [
        | never ↦ record { outcome = some never; failed_attempts = []; recovered_on = none }
        | returned x ↦ record {
          outcome = some (returned x);
          failed_attempts = [];
          recovered_on = recovery attempt;
        }
        | raised e ↦
            if not (is_retryable e) || leb o.max_attempts (attempt + 1)
            then record {
              outcome = some (raised e);
              failed_attempts =
                  record {
                    attempt = attempt + 1;
                    max_attempts = o.max_attempts;
                    error = e;
                    delay_ms = 0;
                  }
                  ∷ [];
              recovered_on = none;
            }
            else report
                (record {
                  attempt = attempt + 1;
                  max_attempts = o.max_attempts;
                  error = e;
                  delay_ms = compute_backoff_delay scale (draw attempt) attempt o;
                })
                rest
      ]

  unfoldable pub with_retry : Retried T E
  unfolding rounds
  with_retry = rounds o.max_attempts 0
