-- ===== src/RpcRetry/Tests.antt =====
-- Runs of the retry loop, and its theorems at concrete inputs.
use swift_chain_backend.Common.{
  ℕ, zero, suc, ◌+◌, ◌<◌, ◌≤◌, Bool, true, false, none, some, length, if◌then◌else◌, ◌==◌, ◌≡◌, ◌≢◌,
  inl, refl, arith,
}
use swift_chain_backend.RpcRetry.{
  Failure, timed_out, rejected, returned, raised, never, Call, resolves, rejects, hangs,
  with_timeout, RetryOptions, default_options, with_retry, compute_backoff_delay,
}
use swift_chain_backend.RpcRetry.Attempts.{
  IsRetried, with_retry-returned, with_retry-raised, with_retry-settles,
}

machine : Unit {0}
unfolding with_retry with_timeout compute_backoff_delay
machine = tt

abbrev options : RetryOptions
options = record default_options { timeout_ms = 100 }

-- Timeouts are tried again, rejections are not.
abbrev transient : Failure ℕ → Bool
transient timed_out = true
transient (rejected e) = false

-- The first call hangs and the second one answers.
abbrev recovers : ℕ → Call ℕ ℕ
recovers n = if n == 0 then hangs else resolves 30 7

-- The first call hangs and the second one is rejected.
abbrev gives_up : ℕ → Call ℕ ℕ
gives_up n = if n == 0 then hangs else rejects 30 4

abbrev half : ℕ → ℕ
half n = 1

waits : compute_backoff_delay 2 1 3 options ≡ 2000
unfolding machine
waits = refl

hung : (j : ℕ) → j < 1 → IsRetried options transient 2 half recovers j
unfolding machine
hung zero h = record { failure = timed_out; fails = refl; again = refl }
hung (suc j) h = absurd (omega arith)

hung_too : (j : ℕ) → j < 1 → IsRetried options transient 2 half gives_up j
unfolding machine
hung_too zero h = record { failure = timed_out; fails = refl; again = refl }
hung_too (suc j) h = absurd (omega arith)

with_retry-returned_example :
    let r = with_retry options transient 2 half recovers in
    (r.outcome ≡ some (returned 7))
    × (length r.failed_attempts ≡ 1)
    × (r.recovered_on ≡ (if 1 == 0 then none else some (1 + 1)))
with_retry-returned_example =
    with_retry-returned options transient 2 half recovers 1 7 (omega arith) hung
      (unfold machine in refl)

with_retry-raised_example :
    let r = with_retry options transient 2 half gives_up in
    (r.outcome ≡ some (raised (rejected 4)))
    × (length r.failed_attempts ≡ 1 + 1)
    × (r.recovered_on ≡ none)
with_retry-raised_example =
    with_retry-raised options transient 2 half gives_up 1 (rejected 4) (omega arith) hung_too
      (unfold machine in refl) (inl refl)

with_retry-settles_example :
    let r = with_retry options transient 2 half gives_up in
    (r.outcome ≢ none) × (r.outcome ≢ some never) × (length r.failed_attempts ≤ 5)
with_retry-settles_example =
    with_retry-settles options transient 2 half gives_up (omega arith) (omega arith)
