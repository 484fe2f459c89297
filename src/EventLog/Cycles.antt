-- ===== src/EventLog/Cycles.antt =====
-- What a cycle leaves recorded, and what a second cycle over the same events does.
use swift_chain_backend.Common.{ℕ, some, Text, Dict, ◌≡◌}
use swift_chain_backend.Database.Keyed.{Records}
use swift_chain_backend.EventLog.{EventLog, RetrySettings}
use swift_chain_backend.EventLog.Retry.{Replayed}
use swift_chain_backend.EventLog.Poller.{ChainEvent, event_subscription, Indexer}
use swift_chain_backend.EventLog.Ingestion.{IsSettled, Anything}

module _ (c : RetrySettings) (log : Records EventLog) (subscriptions : Dict Text)
    (handler : ChainEvent → Replayed) (now : ℕ) where
  -- The event has no subscription, or its entry is there and over.
  abbrev pub IsRecorded : Indexer c log → ChainEvent → Type 0
  IsRecorded w e =
      (event_type : Text)
      → event_subscription subscriptions e ≡ some event_type
      → IsSettled c log (Anything c log) event_type e w
