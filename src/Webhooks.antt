-- ===== src/Webhooks.antt =====
-- src/models/WebhookSubscription.ts, src/models/WebhookDeliveryAttempt.ts and the pure parts of
-- src/services/webhookService.ts: the payloads, the signature, and the marks that the answer to a POST
-- leaves on an attempt.
pub mod Service
pub mod Attempts
pub mod Sound
pub mod Keeps
pub mod Batches
pub mod Steps
pub mod History
pub mod Waiting
pub mod Schedule
pub mod Registry
pub mod Isolation
mod Tests
use swift_chain_backend.Common.{
  ℕ, ◌+◌, ◌-◌, ◌*◌, ◌/◌, ◌^◌, min, Bool, true, false, Option, none, some, List, [], ◌∷◌, ◌++◌, map,
  any, length, if◌then◌else◌, ◌&&◌, ltb, leb, Text, text_eq, codes,
}
use swift_chain_backend.Delivery.{DeliveryStatus, Delivery}

pub data WebhookEvent : Type 0 where
  delivery_pending delivery_funded delivery_assigned delivery_in_progress delivery_completed
        delivery_cancelled delivery_batch :
      WebhookEvent

unfoldable pub same_event : WebhookEvent → WebhookEvent → Bool
same_event delivery_pending delivery_pending = true
same_event delivery_funded delivery_funded = true
same_event delivery_assigned delivery_assigned = true
same_event delivery_in_progress delivery_in_progress = true
same_event delivery_completed delivery_completed = true
same_event delivery_cancelled delivery_cancelled = true
same_event delivery_batch delivery_batch = true
same_event _ _ = false

-- `STATUS_EVENTS`, which has an event for every status
unfoldable pub status_event : DeliveryStatus → WebhookEvent
status_event DeliveryStatus.pending = delivery_pending
status_event DeliveryStatus.funded = delivery_funded
status_event DeliveryStatus.assigned = delivery_assigned
status_event DeliveryStatus.in_progress = delivery_in_progress
status_event DeliveryStatus.completed = delivery_completed
status_event DeliveryStatus.cancelled = delivery_cancelled

-- The model leaves out its description, which nothing reads.
pub record WebhookSubscription : Type 0 where
  pub merchant_id : Text
  pub url : Text
  pub secret : Text
  pub events : List WebhookEvent
  pub allow_batch : Bool
  pub is_active : Bool

-- The filter of `dispatchDeliveryEvent`.
unfoldable pub is_subscribed : Text → WebhookEvent → WebhookSubscription → Bool
unfolding same_event
is_subscribed merchant_id event s =
    text_eq s.merchant_id merchant_id && s.is_active && any (same_event event) s.events

-- What `buildPayload` gives.
pub record EventPayload : Type 0 where
  pub event : WebhookEvent
  pub schema_version : Text
  pub timestamp : ℕ
  pub delivery_id : Text
  pub tracking_number : Text
  pub status : DeliveryStatus
  pub driver_id : Option Text

abbrev pub default_schema_version : Text
default_schema_version = codes "1.0"

unfoldable pub build_payload :
    (id tracking_number : Text) → Delivery → WebhookEvent → DeliveryStatus → ℕ → EventPayload
build_payload id tracking_number d event status now = record {
  event = event;
  schema_version = default_schema_version;
  timestamp = now;
  delivery_id = id;
  tracking_number = tracking_number;
  status = status;
  driver_id = d.driver_id;
}

pub data Body : Type 0 where
  event_body : EventPayload → Body
  -- What `buildBatchPayload` gives, whose event is `delivery.batch`.
  batch_body : (schema_version : Text) (timestamp batch_size : ℕ) → List EventPayload → Body

pub data AttemptStatus : Type 0 where
  pending success failed exhausted : AttemptStatus

pub record WebhookDeliveryAttempt : Type 0 where
  pub webhook : Text
  pub merchant_id : Text
  pub event : WebhookEvent
  pub delivery : Text
  pub payload : EventPayload
  pub status : AttemptStatus
  pub attempts : ℕ
  pub max_attempts : ℕ
  pub last_attempt_at : Option ℕ
  pub last_status_code : Option ℕ
  pub last_error : Option Text
  pub next_retry_at : Option ℕ

-- The settings that `env` holds.
pub record WebhookSettings : Type 0 where
  pub max_retries : ℕ
  pub retry_base_ms : ℕ
  pub retry_max_ms : ℕ
  pub retry_batch_size : ℕ
  -- The draws of `Math.random()` are fractions over it.
  pub scale : ℕ

-- What the server answers to a POST, with the message of the error that axios makes of an answer which
-- `validateStatus` refuses, or no answer.
pub data Answer : Type 0 where
  answered : (status_code : ℕ) (error : Text) → Answer
  unanswered : (error : Text) → Answer

-- A POST: its answer, the clock when it is over, and the draw of `Math.random()`.
pub record Posting : Type 0 where
  pub answer : Answer
  pub now : ℕ
  pub random : ℕ

unfoldable pub validate_status : Answer → Bool
validate_status (answered code error) = leb 200 code && ltb code 300
validate_status (unanswered error) = false

abbrev pub status_code : Answer → Option ℕ
status_code (answered code error) = some code
status_code (unanswered error) = none

abbrev pub message : Answer → Text
message (answered code error) = error
message (unanswered error) = error

-- `computeNextRetry`: 20% of the capped delay, times `2 * random - 1`, is added, on exact fractions. The
-- `Date` drops the part of a millisecond.
unfoldable pub capped_delay : WebhookSettings → ℕ → ℕ
capped_delay c attempt = min (c.retry_base_ms * 2 ^ (attempt - 1)) c.retry_max_ms

unfoldable pub compute_next_retry : WebhookSettings → ℕ → Posting → ℕ
unfolding capped_delay
compute_next_retry c attempt p =
    p.now + (capped_delay c attempt * (4 * c.scale + 2 * p.random)) / (5 * c.scale)

unfoldable pub mark_success : ℕ → Posting → WebhookDeliveryAttempt → WebhookDeliveryAttempt
mark_success number p a = record a {
  attempts = number;
  status = success;
  last_attempt_at = some p.now;
  last_status_code = status_code p.answer;
  last_error = none;
  next_retry_at = none;
}

unfoldable pub mark_exhausted : ℕ → Posting → WebhookDeliveryAttempt → WebhookDeliveryAttempt
mark_exhausted number p a = record a {
  attempts = number;
  status = exhausted;
  last_attempt_at = some p.now;
  last_status_code = status_code p.answer;
  last_error = some (message p.answer);
  next_retry_at = none;
}

unfoldable pub mark_failed :
    WebhookSettings → ℕ → Posting → WebhookDeliveryAttempt → WebhookDeliveryAttempt
unfolding compute_next_retry
mark_failed c number p a = record a {
  attempts = number;
  status = failed;
  last_attempt_at = some p.now;
  last_status_code = status_code p.answer;
  last_error = some (message p.answer);
  next_retry_at = some (compute_next_retry c number p);
}

-- What a POST for the attempt `a`, as it was read, leaves on the stored one.
unfoldable pub record_outcome :
    WebhookSettings
    → WebhookDeliveryAttempt
    → Posting
    → WebhookDeliveryAttempt
    → WebhookDeliveryAttempt
unfolding mark_success mark_exhausted mark_failed validate_status
record_outcome c a p stored =
    let number = a.attempts + 1 in
    if validate_status p.answer
    then mark_success number p stored
    else if leb a.max_attempts number
    then mark_exhausted number p stored
    else mark_failed c number p stored

unfoldable pub give_up : WebhookDeliveryAttempt → WebhookDeliveryAttempt
give_up a = record a {
  status = exhausted;
  last_error = some (codes "Webhook subscription is missing or inactive.");
  next_retry_at = none;
}

-- `hmac body secret` is the hexadecimal HMAC-SHA256 of node's `crypto`.
unfoldable pub sign : (Text → Text → Text) → Text → Text → Text
sign hmac body secret = codes "sha256=" ++ hmac body secret
