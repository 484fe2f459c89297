-- ===== src/RpcRetry/Attempts.antt =====
-- Which attempt decides what `withRetry` comes to.
use swift_chain_backend.Common.{
  ℕ, zero, suc, ◌+◌, ◌-◌, ◌≤◌, ◌<◌, Bool, true, false, not, none, some, length, if◌then◌else◌, ◌||◌,
  ◌==◌, leb, ◌≡◌, ◌≢◌, ◌⊎◌, inl, inr, refl, ◌∙◌, arith, Bool-cases, subst,
}
use swift_chain_backend.RpcRetry.{
  Failure, Outcome, returned, raised, never, Call, resolves, rejects, hangs, with_timeout,
  RetryOptions, Retried, rounds, with_retry,
}

with_timeout_settles :
    {T E : Type 0} (c : Call T E) (timeout_ms : ℕ)
    → 0 < timeout_ms
    → with_timeout c timeout_ms ≢ never
unfolding with_timeout
with_timeout_settles (resolves after x) timeout_ms h = ground arith
with_timeout_settles (rejects after e) timeout_ms h = ground arith
with_timeout_settles hangs timeout_ms h = ground arith

Outcome-cases :
    {T E : Type 0} (r : Outcome T E)
    → (r ≡ never) ⊎ ((x : T) × (r ≡ returned x)) ⊎ ((e : Failure E) × (r ≡ raised e))
Outcome-cases never = inl refl
Outcome-cases (returned x) = inr (inl (x, refl))
Outcome-cases (raised e) = inr (inr (e, refl))

module _ {T E : Type 0} (o : RetryOptions) (is_retryable : Failure E → Bool) (scale : ℕ)
    (draw : ℕ → ℕ) (calls : ℕ → Call T E) where
  -- The attempt fails in a way that may be tried again.
  pub record IsRetried (attempt : ℕ) : Type 0 where
    pub failure : Failure E
    pub fails : with_timeout (calls attempt) o.timeout_ms ≡ raised failure
    pub again : is_retryable failure ≡ true

  -- The runs agree but for `k` more failed attempts in the first.
  record Agrees (k : ℕ) (r r' : Retried T E) : Type 0 where
    pub same_outcome : r.outcome ≡ r'.outcome
    pub more : length r.failed_attempts ≡ k + length r'.failed_attempts
    pub same_recovery : r.recovered_on ≡ r'.recovered_on

  goes_on :
      (left attempt : ℕ)
      → IsRetried attempt
      → attempt + 1 < o.max_attempts
      → Agrees 1
          (rounds o is_retryable scale draw calls (suc left) attempt)
          (rounds o is_retryable scale draw calls left (attempt + 1))
  unfolding rounds
  goes_on left attempt h more = record {
    same_outcome = ground (arith, h.fails, h.again);
    more = ground (arith, h.fails, h.again);
    same_recovery = ground (arith, h.fails, h.again);
  }

  skips :
      (k left n attempt last : ℕ)
      → k + left ≡ n
      → attempt + k ≡ last
      → n + attempt ≡ o.max_attempts
      → 0 < left
      → ((j : ℕ) → j < k → IsRetried (attempt + j))
      → Agrees k
          (rounds o is_retryable scale draw calls n attempt)
          (rounds o is_retryable scale draw calls left last)
  skips zero left n attempt last rest end total some_left before =
      subst
        (λ v.
          Agrees 0 (rounds o is_retryable scale draw calls n attempt)
            (rounds o is_retryable scale draw calls v last))
        (omega arith)
        (subst
          (λ v.
            Agrees 0 (rounds o is_retryable scale draw calls n attempt)
              (rounds o is_retryable scale draw calls n v))
          (omega arith) (record { same_outcome = refl; more = omega arith; same_recovery = refl }))
  skips (suc k) left n attempt last rest end total some_left before =
      let now : IsRetried attempt = subst IsRetried (omega arith) (before 0 (omega arith)) in
      let first = goes_on (k + left) attempt now (omega arith) in
      let later =
        skips k left (k + left) (attempt + 1) last refl (omega arith) (omega arith) some_left
          (λ j less. subst IsRetried (omega arith) (before (suc j) (omega arith))) in
      subst
        (λ v.
          Agrees (suc k) (rounds o is_retryable scale draw calls v attempt)
            (rounds o is_retryable scale draw calls left last))
        (omega arith)
        (record {
          same_outcome = first.same_outcome ∙ later.same_outcome;
          more = omega (arith, first.more, later.more);
          same_recovery = first.same_recovery ∙ later.same_recovery;
        })

  settled :
      (k : ℕ)
      → k < o.max_attempts
      → ((j : ℕ) → j < k → IsRetried j)
      → Agrees k
          (with_retry o is_retryable scale draw calls)
          (rounds o is_retryable scale draw calls (suc (o.max_attempts - k - 1)) k)
  unfolding with_retry
  settled k less before =
      skips k (suc (o.max_attempts - k - 1)) o.max_attempts 0 k (omega arith) (omega arith)
        (omega arith) (omega arith) (λ j below. subst IsRetried (omega arith) (before j below))

  -- If attempts 0 to k - 1 fail in a way that may be tried again and attempt k, within the bound,
  -- returns a value in time, `withRetry` returns that value, has reported k failures, and reports a
  -- recovery exactly if k is positive.
  pub with_retry-returned :
      (k : ℕ) (x : T)
      → k < o.max_attempts
      → ((j : ℕ) → j < k → IsRetried j)
      → with_timeout (calls k) o.timeout_ms ≡ returned x
      → let r = with_retry o is_retryable scale draw calls in
        (r.outcome ≡ some (returned x))
        × (length r.failed_attempts ≡ k)
        × (r.recovered_on ≡ (if k == 0 then none else some (k + 1)))
  unfolding rounds
  with_retry-returned k x less before now =
      let a = settled k less before in
      (ground (arith, a.same_outcome), ground (arith, a.more), ground (arith, a.same_recovery))

  -- If attempts 0 to k - 1 fail in a way that may be tried again and attempt k fails with an error
  -- that may not, or is the last one, `withRetry` throws the error of attempt k unchanged, has
  -- reported k + 1 failures and reports no recovery.
  pub with_retry-raised :
      (k : ℕ) (e : Failure E)
      → k < o.max_attempts
      → ((j : ℕ) → j < k → IsRetried j)
      → with_timeout (calls k) o.timeout_ms ≡ raised e
      → (is_retryable e ≡ false) ⊎ (k + 1 ≡ o.max_attempts)
      → let r = with_retry o is_retryable scale draw calls in
        (r.outcome ≡ some (raised e)) × (length r.failed_attempts ≡ k + 1) × (r.recovered_on ≡ none)
  unfolding rounds
  with_retry-raised k e less before now final =
      let a = settled k less before in
      let stops : not (is_retryable e) || leb o.max_attempts (k + 1) ≡ true = ground arith in
      (ground (arith, a.same_outcome), ground (arith, a.more), ground (arith, a.same_recovery))

  -- What a run with a time limit comes to: a value or an error, and no more reports than attempts.
  abbrev IsDone : ℕ → Retried T E → Type 0
  IsDone left r = (r.outcome ≢ none) × (r.outcome ≢ some never) × (length r.failed_attempts ≤ left)

  rounds-IsDone :
      (left attempt : ℕ)
      → 0 < o.timeout_ms
      → 0 < left
      → left + attempt ≡ o.max_attempts
      → IsDone left (rounds o is_retryable scale draw calls left attempt)
  unfolding rounds
  rounds-IsDone zero attempt timed some_left total = absurd (omega arith)
  rounds-IsDone (suc left) attempt timed some_left total =
      elim (Outcome-cases (with_timeout (calls attempt) o.timeout_ms)) [
        | inl stuck ↦ absurd (with_timeout_settles (calls attempt) o.timeout_ms timed stuck)
        | inr (inl (x, good)) ↦ (ground arith, ground arith, ground arith)
        | inr (inr (e, bad)) ↦
            elim (Bool-cases (not (is_retryable e) || leb o.max_attempts (attempt + 1))) [
              | inl last ↦ (ground arith, ground arith, ground arith)
              | inr more ↦
                  let (ends, settles, few) =
                    rounds-IsDone left (attempt + 1) timed (ground arith) (omega arith) in
                  (ground (arith, ends), ground (arith, settles), ground (arith, few))
            ]
      ]

  -- With a time limit and at least one attempt, `withRetry` does not hang: it returns or throws,
  -- after at most `maxAttempts` reports of a failure, whatever the operation does.
  pub with_retry-settles :
      0 < o.timeout_ms
      → 0 < o.max_attempts
      → let r = with_retry o is_retryable scale draw calls in
        (r.outcome ≢ none) × (r.outcome ≢ some never) × (length r.failed_attempts ≤ o.max_attempts)
  unfolding with_retry
  with_retry-settles timed some_left = rounds-IsDone o.max_attempts 0 timed some_left (omega arith)
