-- ===== src/EventLog/Retry.antt =====
-- src/services/eventLogRetryService.ts: a failed entry is claimed, replayed, and its outcome recorded.
-- `others n` is what the rest of the system does to the log at the n-th wait of an operation, and
-- `clock n` the time that its n-th reading of the clock gives.
use swift_chain_backend.Common.{
  ℕ, suc, ◌+◌, Bool, true, false, not, Option, none, some, List, [], ◌∷◌, ◌++◌, if◌then◌else◌, ◌&&◌,
  ◌==◌, leb, Text,
}
use swift_chain_backend.Database.{Collection, matched}
use swift_chain_backend.EventLog.{
  processed, EventLog, RetrySettings, is_failed, next_event_log_retry_at,
}

abbrev pub claim_lease_ms : ℕ
claim_lease_ms = 300000

pub data RetryOutcome : Type 0 where
  retried scheduled dead_lettered : RetryOutcome

-- What becomes of the replay: the handler's error, if it throws.
pub data Replayed : Type 0 where
  succeeded : Replayed
  threw : Text → Replayed

pub data RetryError : Type 0 where
  invalid_id unknown_entry not_failed already_retried unavailable : RetryError

-- The calls on the dead-letter queue.
pub data DlqCall : Type 0 where
  adds : (event_log_id error : Text) → DlqCall
  resolves : (event_log_id : Text) → DlqCall

pub data Retried : Type 0 where
  refused : RetryError → Retried
  done : RetryOutcome → EventLog → Retried

unfoldable pub same_time : Option ℕ → Option ℕ → Bool
same_time none none = true
same_time none (some b) = false
same_time (some a) none = false
same_time (some a) (some b) = a == b

abbrev pub is_set : {A : Type 0} → Option A → Bool
is_set none = false
is_set (some a) = true

-- The filter of `claim`: the entry is still failed and due when it was read to be.
unfoldable pub is_unclaimed : Option ℕ → EventLog → Bool
unfolding is_failed same_time
is_unclaimed next_retry_at e = is_failed e.status && same_time e.next_retry_at next_retry_at

unfoldable pub leased : ℕ → EventLog → EventLog
leased now e = record e { next_retry_at = some (now + claim_lease_ms) }

unfoldable pub mark_retried : ℕ → ℕ → EventLog → EventLog
mark_retried attempt now e = record e {
  status = processed;
  processed_at = some now;
  retries = attempt;
  error_message = none;
  next_retry_at = none;
}

-- `escalate` says that the entry is dead-lettered with this failure.
unfoldable pub mark_failure : RetrySettings → Bool → Bool → ℕ → Text → ℕ → EventLog → EventLog
unfolding next_event_log_retry_at
mark_failure c exhausted escalate attempt message now e = record e {
  retries = attempt;
  error_message = some message;
  last_error = some message;
  next_retry_at = if exhausted then none else some (next_event_log_retry_at c (attempt + 1) now);
  dead_lettered_at = if escalate then some now else e.dead_lettered_at;
}

-- `event ?? entry`
abbrev pub or_entry : Option EventLog → EventLog → EventLog
or_entry none e = e
or_entry (some x) e = x

module _ (is_valid_id : Text → Bool) (c : RetrySettings) (log : Collection EventLog) where
  pub record World : Type 0 where
    pub entries : log.State
    pub dlq : List DlqCall

  -- `findByIdAndUpdate` with `$set`
  unfoldable pub set_entry : Text → (EventLog → EventLog) → World → Option EventLog × World
  set_entry id f w = (
    matched (λ x. true) f (log.find_by_id id w.entries),
    record w { entries = log.update_where id (λ x. true) f w.entries },
  )

  unfoldable pub claim : Text → EventLog → ℕ → World → Option EventLog × World
  unfolding is_unclaimed leased
  claim id entry now w = (
    matched (is_unclaimed entry.next_retry_at) (leased now) (log.find_by_id id w.entries),
    record w {
      entries = log.update_where id (is_unclaimed entry.next_retry_at) (leased now) w.entries;
    },
  )

  unfoldable pub record_failure :
      Text → EventLog → ℕ → Text → ℕ → World → (RetryOutcome × EventLog) × World
  unfolding set_entry mark_failure
  record_failure id entry attempt message now w =
      let exhausted = leb c.max_attempts attempt in
      let escalate = exhausted && not (is_set entry.dead_lettered_at) in
      let (event, w') = set_entry id (mark_failure c exhausted escalate attempt message now) w in
      (
        (if exhausted then dead_lettered else scheduled, or_entry event entry),
        if escalate then record w' { dlq = w'.dlq ++ adds id message ∷ [] } else w',
      )

  unfoldable pub record_success :
      Text → EventLog → ℕ → ℕ → World → (RetryOutcome × EventLog) × World
  unfolding set_entry mark_retried
  record_success id entry attempt now w =
      let (event, w') = set_entry id (mark_retried attempt now) w in
      (
        (retried, or_entry event entry),
        if is_set entry.dead_lettered_at
            then record w' { dlq = w'.dlq ++ resolves id ∷ [] }
            else w',
      )

  -- `attempt`, with what the replay comes to
  unfoldable pub attempt_entry :
      Text → EventLog → Replayed → ℕ → World → (RetryOutcome × EventLog) × World
  attempt_entry id entry succeeded now w = record_success id entry (suc entry.retries) now w
  attempt_entry id entry (threw message) now w =
      record_failure id entry (suc entry.retries) message now w

  -- What follows a claim: nothing if another retrier was faster.
  unfoldable pub attempt_claimed :
      Text
      → Replayed
      → (ℕ → ℕ)
      → (ℕ → World → World)
      → Option EventLog × World
      → Option (RetryOutcome × EventLog) × World
  attempt_claimed id replayed clock others (none, w) = (none, w)
  attempt_claimed id replayed clock others (some claimed, w) =
      let (r, w') = attempt_entry id claimed replayed (clock 1) (others 1 w) in (some r, w')

  abbrev pub as_retried : Option (RetryOutcome × EventLog) × World → Retried × World
  as_retried (none, w) = (refused already_retried, w)
  as_retried (some (o, e), w) = (done o e, w)

  -- `retryById`; `ready` says that a contract is configured to replay against.
  unfoldable pub retry_by_id :
      Bool → Text → Replayed → (ℕ → ℕ) → (ℕ → World → World) → World → Retried × World
  retry_by_id ready id replayed clock others w =
      if not (is_valid_id id) then (refused invalid_id, w) else elim (log.find_by_id id w.entries) [
        | none ↦ (refused unknown_entry, w)
        | some entry ↦
            if not (is_failed entry.status)
            then (refused not_failed, w)
            else if not ready
            then (refused unavailable, w)
            else as_retried
                (attempt_claimed id replayed clock others (claim id entry (clock 0) (others 0 w)))
      ]

  -- One round of the loop of `retryDue`, for an entry as the query gave it.
  unfoldable pub retry_read :
      Text
      → EventLog
      → Replayed
      → (ℕ → ℕ)
      → (ℕ → World → World)
      → World
      → Option (RetryOutcome × EventLog) × World
  retry_read id entry replayed clock others w =
      attempt_claimed id replayed clock others (claim id entry (clock 0) (others 0 w))

  pub record SweepResult : Type 0 where
    pub attempted : ℕ
    pub processed : ℕ
    pub rescheduled : ℕ
    pub dead_lettered : ℕ

  unfoldable pub tally : Option (RetryOutcome × EventLog) → SweepResult → SweepResult
  tally none r = r
  tally (some (retried, e)) r = record r {
    attempted = r.attempted + 1;
    processed = r.processed + 1;
  }
  tally (some (scheduled, e)) r = record r {
    attempted = r.attempted + 1;
    rescheduled = r.rescheduled + 1;
  }
  tally (some (dead_lettered, e)) r = record r {
    attempted = r.attempted + 1;
    dead_lettered = r.dead_lettered + 1;
  }

  -- The loop of `retryDue` over the entries that the query gave, from its n-th round on.
  unfoldable pub sweep :
      ℕ
      → (ℕ → Replayed)
      → (ℕ → ℕ → ℕ)
      → (ℕ → ℕ → World → World)
      → List (Text × EventLog)
      → SweepResult × World
      → SweepResult × World
  unfolding tally
  sweep n replays clocks others [] (r, w) = (r, w)
  sweep n replays clocks others ((id, entry) ∷ due) (r, w) =
      let (o, w') = retry_read id entry (replays n) (clocks n) (others n) w in
      sweep (n + 1) replays clocks others due (tally o r, w')

  abbrev pub no_attempts : SweepResult
  no_attempts = record { attempted = 0; processed = 0; rescheduled = 0; dead_lettered = 0 }

  unfoldable pub retry_due :
      Bool
      → (ℕ → Replayed)
      → (ℕ → ℕ → ℕ)
      → (ℕ → ℕ → World → World)
      → List (Text × EventLog)
      → World
      → SweepResult × World
  unfolding sweep
  retry_due ready replays clocks others due w =
      let swept = sweep 0 replays clocks others due (no_attempts, w) in
      if ready then swept else (no_attempts, w)

-- The query of `retryDue`.
unfoldable pub is_due : ℕ → EventLog → Bool
unfolding is_failed
is_due now e =
    is_failed e.status
    && not (is_set e.dead_lettered_at)
    && elim e.next_retry_at [ none ↦ false | some t ↦ leb t now ]
