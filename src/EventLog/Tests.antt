-- ===== src/EventLog/Tests.antt =====
-- Runs of the event log's retries and of the poller, and the theorems at concrete inputs.
use swift_chain_backend.Common.{
  ℕ, ◌≤◌, Bool, true, none, some, if◌then◌else◌, Text, text_eq, codes, List, [], ◌∷◌, ◌≡◌, ◌≢◌,
  refl, arith, Dict, get, put,
}
use swift_chain_backend.Database.{in_memory, update_found}
use swift_chain_backend.Database.Keyed.{memory_records, find_pair, refused, inserted, changed}
use swift_chain_backend.EventLog.{
  failed, EventLog, RetrySettings, event_log_retry_delay_ms, next_event_log_retry_at, is_failed,
  is_pending,
}
use swift_chain_backend.EventLog.Retry.{
  Replayed, succeeded, threw, Retried, already_retried, World, claim, leased, is_unclaimed,
  same_time, retry_by_id, attempt_claimed, attempt_entry, record_failure, record_success, set_entry,
  mark_retried, mark_failure, retry_read, sweep, retry_due, is_due, is_set,
}
use swift_chain_backend.EventLog.Claims.{claim_excludes, lease_admits}
use swift_chain_backend.EventLog.Schedule.{added, due_now, sweeps, attempts, sweeps_bounded}
use swift_chain_backend.EventLog.Poller.{
  ChainEvent, PollCycleResult, Indexer, poll_events, poll_event, ingest, dispatch, new_entry,
  mark_processed, mark_failed,
}

machine : Unit {0}
unfolding claim leased is_unclaimed same_time is_failed get put text_eq update_found sweeps due_now
    retry_due sweep retry_read attempt_claimed attempt_entry record_failure record_success set_entry
    mark_retried mark_failure is_due added event_log_retry_delay_ms next_event_log_retry_at
    poll_events poll_event ingest dispatch new_entry mark_processed mark_failed is_pending find_pair
    refused inserted changed
machine = tt

abbrev settings : RetrySettings
settings = record { base_ms = 1000; max_ms = 3000; max_attempts = 2 }

abbrev any_id : Text → Bool
any_id id = true

abbrev entry : EventLog
entry = record {
  event_type = codes "escrow";
  transaction_hash = codes "tx";
  ledger_sequence = 7;
  event_id = some (codes "ev");
  status = failed;
  processed_at = none;
  error_message = some (codes "boom");
  retries = 0;
  last_error = some (codes "boom");
  next_retry_at = some 100;
  dead_lettered_at = none;
}

abbrev world : World any_id settings (in_memory EventLog)
world = record { entries = (codes "e1", entry) ∷ []; dlq = [] }

abbrev lease : EventLog
lease = record entry { next_retry_at = some 300200 }

abbrev taken : World any_id settings (in_memory EventLog)
taken = record { entries = (codes "e1", lease) ∷ []; dlq = [] }

claims_it : (claim any_id settings (in_memory EventLog) (codes "e1") entry 200 world).0 ≡ some lease
unfolding machine
claims_it = refl

not_later : (t : ℕ) → entry.next_retry_at ≡ some t → t ≤ 200
not_later t e = ground arith

claim_excludes_example :
    claim any_id settings (in_memory EventLog) (codes "e1") entry 150 taken ≡ (none, taken)
claim_excludes_example =
    claim_excludes any_id settings (in_memory EventLog) (codes "e1") entry entry lease 200 150 world
      taken refl not_later claims_it (unfold machine in refl)

lease_admits_example :
    (retry_by_id any_id settings
      (in_memory EventLog)
      true
      (codes "e1")
      succeeded
      (λ n. 250)
      (λ n v. v)
      (claim any_id settings (in_memory EventLog) (codes "e1") entry 200 world).1).0
    ≢ Retried.refused already_retried
lease_admits_example =
    lease_admits any_id settings (in_memory EventLog) (codes "e1") entry lease 200 world succeeded
      (λ n. 250) already_retried refl claims_it

abbrev rounds : List (ℕ × Replayed)
rounds = (100, threw (codes "boom")) ∷ (5000, threw (codes "bang")) ∷ (9000, succeeded) ∷ []

-- The second retry is the last one.
given_up :
    added (codes "e1") (sweeps any_id settings (in_memory EventLog) (codes "e1") rounds world).dlq
    ≡ 1
unfolding machine
given_up = refl

sweeps_bounded_example :
    (e' : EventLog) × (get
        (codes "e1")
        (sweeps any_id settings (in_memory EventLog) (codes "e1") rounds world).entries
      ≡ some e')
    × (attempts any_id settings (in_memory EventLog) (codes "e1") rounds world ≤ 2)
    × (e'.retries ≡ attempts any_id settings (in_memory EventLog) (codes "e1") rounds world)
    × (added
          (codes "e1")
          (sweeps any_id settings (in_memory EventLog) (codes "e1") rounds world).dlq
        ≡ (if is_set e'.dead_lettered_at then 1 else 0))
sweeps_bounded_example =
    sweeps_bounded any_id settings (in_memory EventLog) (codes "e1") rounds world entry
      (unfold machine in refl) refl refl (omega arith) refl

abbrev topics : Dict Text
topics = (codes "escrow_funded", codes "escrow") ∷ []

abbrev event : Text → ChainEvent
event id = record { event_id = id; tx_hash = id; ledger = 7; topic = some (codes "escrow_funded") }

abbrev no_events : PollCycleResult
no_events = record {
  from_ledger = 7;
  to_ledger = 9;
  fetched = 0;
  processed_events = 0;
  duplicate_events = 0;
  failed_events = 0;
}

abbrev indexer : Indexer settings memory_records
indexer = record { entries = []; checkpoint = some 6; handled = [] }

abbrev works : ChainEvent → Replayed
works e = succeeded
