-- ===== src/EventLog/Poller.antt =====
-- src/services/eventPoller.ts: a cycle fetches the events of the ledgers since the checkpoint and
-- records and dispatches each. The RPC node is an argument: its latest ledger, and the pages that it
-- answers. So is what each handler comes to.
use swift_chain_backend.Common.{
  ℕ, zero, suc, ◌+◌, Bool, true, false, Option, none, some, List, [], ◌∷◌, ◌++◌, if◌then◌else◌,
  ◌||◌, ◌==◌, ltb, Text, text_eq, Dict, get, length,
}
use swift_chain_backend.Database.Keyed.{Records}
use swift_chain_backend.EventLog.{
  pending, processed, failed, EventLog, RetrySettings, is_pending, next_event_log_retry_at,
}
use swift_chain_backend.EventLog.Retry.{Replayed, succeeded, threw}

-- An event of the node: `topic` is the key of its first topic.
pub record ChainEvent : Type 0 where
  pub event_id : Text
  pub tx_hash : Text
  pub ledger : ℕ
  pub topic : Option Text

pub record Page : Type 0 where
  pub events : List ChainEvent
  pub cursor : Text

pub data EventOutcome : Type 0 where
  dispatched duplicates handler_failed : EventOutcome

pub record PollCycleResult : Type 0 where
  pub from_ledger : ℕ
  pub to_ledger : ℕ
  pub fetched : ℕ
  pub processed_events : ℕ
  pub duplicate_events : ℕ
  pub failed_events : ℕ

-- The events of a page up to the window's end, and whether the page goes past it.
unfoldable pub within : ℕ → List ChainEvent → List ChainEvent × Bool
within to_ledger [] = ([], false)
within to_ledger (e ∷ events) =
    let (rest, past) = within to_ledger events in
    if ltb to_ledger e.ledger then ([], true) else (e ∷ rest, past)

abbrev pub same_cursor : Option Text → Text → Bool
same_cursor none cursor = false
same_cursor (some old) cursor = text_eq cursor old

-- How the paging ended; `no_end` if the fuel was used up.
pub data FetchEnd : Type 0 where
  complete rpc_failed no_end : FetchEnd

-- `fetchEvents`, with fuel: the node is asked for a page by cursor, at first by ledger. `none` is an
-- error of the node, which the caller meets after the events so far.
unfoldable pub fetch_events :
    (Option Text → Option Page) → ℕ → ℕ → Option Text → List ChainEvent × FetchEnd
unfolding within
fetch_events node to_ledger zero cursor = ([], no_end)
fetch_events node to_ledger (suc fuel) cursor = elim (node cursor) [
  | none ↦ ([], rpc_failed)
  | some page ↦
      let (here, past) = within to_ledger page.events in
      let (rest, end) = fetch_events node to_ledger fuel (some page.cursor) in
      if length page.events == 0
      then ([], complete)
      else if past || same_cursor cursor page.cursor
      then (here, complete)
      else (here ++ rest, end)
]

abbrev pub event_subscription : Dict Text → ChainEvent → Option Text
event_subscription subscriptions e = elim e.topic [ none ↦ none | some t ↦ get t subscriptions ]

unfoldable pub new_entry : Text → ChainEvent → EventLog
new_entry event_type e = record {
  event_type = event_type;
  transaction_hash = e.tx_hash;
  ledger_sequence = e.ledger;
  event_id = some e.event_id;
  status = pending;
  processed_at = none;
  error_message = none;
  retries = 0;
  last_error = none;
  next_retry_at = none;
  dead_lettered_at = none;
}

-- `EventLog.markAsProcessed`
unfoldable pub mark_processed : ℕ → EventLog → EventLog
mark_processed now e = record e { status = processed; processed_at = some now }

unfoldable pub mark_failed : RetrySettings → Text → ℕ → EventLog → EventLog
unfolding next_event_log_retry_at
mark_failed c message now e = record e {
  status = failed;
  error_message = some message;
  last_error = some message;
  next_retry_at = some (next_event_log_retry_at c 1 now);
}

module _ (c : RetrySettings) (log : Records EventLog) where
  pub record Indexer : Type 0 where
    pub entries : log.State
    -- `IndexerStatus.lastProcessedLedger`
    pub checkpoint : Option ℕ
    -- the handlers' calls, by event id
    pub handled : List Text

  -- The handler runs, and its outcome is recorded.
  unfoldable pub dispatch :
      Text → ChainEvent → Replayed → ℕ → (ℕ → Indexer → Indexer) → Indexer → EventOutcome × Indexer
  unfolding mark_processed mark_failed
  dispatch event_type e succeeded now others w =
      let w' = others 1 (record w { handled = w.handled ++ e.event_id ∷ [] }) in
      (
        dispatched,
        record w' { entries = log.update_one e.tx_hash event_type (mark_processed now) w'.entries },
      )
  dispatch event_type e (threw message) now others w =
      let w' = others 1 (record w { handled = w.handled ++ e.event_id ∷ [] }) in
      (
        handler_failed,
        record w' {
          entries = log.update_one e.tx_hash event_type (mark_failed c message now) w'.entries;
        },
      )

  unfoldable pub ingest :
      Text → ChainEvent → Replayed → ℕ → (ℕ → Indexer → Indexer) → Indexer → EventOutcome × Indexer
  unfolding new_entry
  ingest event_type e replayed now others w = elim (log.find_one e.tx_hash event_type w.entries) [
    | some existing ↦
        if is_pending existing.status
        then dispatch event_type e replayed now others w
        else (duplicates, w)
    | none ↦ elim (log.create e.tx_hash event_type (new_entry event_type e) (others 0 w).entries) [
      | none ↦ (duplicates, others 0 w)
      | some entries ↦
          dispatch event_type e replayed now others (record (others 0 w) { entries = entries })
    ]
  ]

  abbrev pub count_event : EventOutcome → PollCycleResult → PollCycleResult
  count_event dispatched r = record r { processed_events = r.processed_events + 1 }
  count_event duplicates r = record r { duplicate_events = r.duplicate_events + 1 }
  count_event handler_failed r = record r { failed_events = r.failed_events + 1 }

  -- One round of the loop of `pollOnce`.
  unfoldable pub poll_event :
      Dict Text
      → (ChainEvent → Replayed)
      → ℕ
      → (ℕ → Indexer → Indexer)
      → ChainEvent
      → PollCycleResult × Indexer
      → PollCycleResult × Indexer
  poll_event subscriptions handler now others e (r, w) =
      let r' : PollCycleResult = record r { fetched = r.fetched + 1 } in
      elim (event_subscription subscriptions e) [
        | none ↦ (r', w)
        | some event_type ↦
            let (o, w') = ingest event_type e (handler e) now others w in (count_event o r', w')
      ]

  unfoldable pub poll_events :
      Dict Text
      → (ChainEvent → Replayed)
      → ℕ
      → (ℕ → Indexer → Indexer)
      → List ChainEvent
      → PollCycleResult × Indexer
      → PollCycleResult × Indexer
  poll_events subscriptions handler now others [] s = s
  poll_events subscriptions handler now others (e ∷ events) s =
      poll_events subscriptions handler now others events
        (poll_event subscriptions handler now others e s)

  abbrev pub first_ledger : Option ℕ → ℕ → ℕ
  first_ledger none latest = latest
  first_ledger (some last) latest = last + 1

  abbrev pub end_cycle : FetchEnd → ℕ → PollCycleResult × Indexer → Option PollCycleResult × Indexer
  end_cycle complete latest (r, w) = (some r, record w { checkpoint = some latest })
  end_cycle rpc_failed latest (r, w) = (none, w)
  end_cycle no_end latest (r, w) = (none, w)

  -- `pollOnce`; `node from` answers by ledger from there on. The result `none` is an error.
  unfoldable pub poll_once :
      Dict Text
      → (ChainEvent → Replayed)
      → (ℕ → Option Text → Option Page)
      → (fuel latest now : ℕ) → (ℕ → Indexer → Indexer)
      → Indexer
      → Option PollCycleResult × Indexer
  poll_once subscriptions handler node fuel latest now others w =
      let from = first_ledger w.checkpoint latest in
      let start : PollCycleResult = record {
        from_ledger = from;
        to_ledger = latest;
        fetched = 0;
        processed_events = 0;
        duplicate_events = 0;
        failed_events = 0;
      } in
      let (events, end) = fetch_events (node from) latest fuel none in
      if ltb latest from
      then (some start, w)
      else end_cycle end latest (poll_events subscriptions handler now others events (start, w))
