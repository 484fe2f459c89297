-- ===== src/EventLog.antt =====
-- src/models/EventLog.ts and src/utils/eventLogBackoff.ts: the log of the contract's events, and when
-- a failed entry is tried again.
pub mod Retry
pub mod Claims
pub mod Schedule
pub mod Poller
pub mod Ingestion
pub mod Cycles
mod Tests
use swift_chain_backend.Common.{
  ℕ, ◌+◌, ◌-◌, ◌*◌, ◌^◌, min, Bool, true, false, Option, none, some, Text,
}

pub data EventStatus : Type 0 where
  pending processed failed : EventStatus

pub record EventLog : Type 0 where
  pub event_type : Text
  pub transaction_hash : Text
  pub ledger_sequence : ℕ
  -- `eventData.eventId`
  pub event_id : Option Text
  pub status : EventStatus
  pub processed_at : Option ℕ
  pub error_message : Option Text
  pub retries : ℕ
  pub last_error : Option Text
  pub next_retry_at : Option ℕ
  pub dead_lettered_at : Option ℕ

-- The settings that `env` holds.
pub record RetrySettings : Type 0 where
  pub base_ms : ℕ
  pub max_ms : ℕ
  pub max_attempts : ℕ

unfoldable pub is_failed : EventStatus → Bool
is_failed failed = true
is_failed _ = false

unfoldable pub is_pending : EventStatus → Bool
is_pending pending = true
is_pending _ = false

-- `Math.max(0, attempt - 1)` is the subtraction that stops at 0.
unfoldable pub event_log_retry_delay_ms : RetrySettings → ℕ → ℕ
event_log_retry_delay_ms c attempt = min (c.base_ms * 2 ^ (attempt - 1)) c.max_ms

unfoldable pub next_event_log_retry_at : RetrySettings → ℕ → ℕ → ℕ
unfolding event_log_retry_delay_ms
next_event_log_retry_at c attempt from = from + event_log_retry_delay_ms c attempt
