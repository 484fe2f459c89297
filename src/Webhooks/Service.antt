-- ===== src/Webhooks/Service.antt =====
-- src/services/webhookService.ts: the dispatch of a delivery's event, the batches, and the retries. The
-- subscriptions, which these operations only read, are an argument, and so is the answer to each POST.
use swift_chain_backend.Common.{
  ℕ, Bool, true, false, Option, none, some, List, [], ◌∷◌, ◌++◌, map, filter, take, length,
  if◌then◌else◌, ◌&&◌, ◌==◌, leb, Text, Dict, get, put, del,
}
use swift_chain_backend.Database.{Collection}
use swift_chain_backend.Database.Query.{Queries}
use swift_chain_backend.Delivery.{DeliveryStatus, Delivery}
use swift_chain_backend.Webhooks.{
  WebhookEvent, delivery_batch, status_event, WebhookSubscription, is_subscribed, EventPayload,
  default_schema_version, build_payload, Body, event_body, batch_body, AttemptStatus, pending,
  failed, WebhookDeliveryAttempt, WebhookSettings, Posting, record_outcome, give_up, sign,
}

-- A POST that was made: to which subscription, and its headers and body.
pub record Post : Type 0 where
  pub webhook : Text
  pub url : Text
  pub event : WebhookEvent
  pub delivery_id : Option Text
  pub attempt_id : Option Text
  pub batch_size : Option ℕ
  pub signature : Text
  pub body : Body

pub record PendingBatchItem : Type 0 where
  pub attempt_id : Text
  pub attempt : WebhookDeliveryAttempt
  pub payload : EventPayload

-- `timer` says that the timer is set, which flushes the batch.
pub record PendingBatchQueue : Type 0 where
  pub webhook : WebhookSubscription
  pub items : List PendingBatchItem
  pub timer : Bool

abbrev pub is_failed : AttemptStatus → Bool
is_failed failed = true
is_failed _ = false

-- The query of `retryDueAttempts`.
unfoldable pub is_due : ℕ → WebhookDeliveryAttempt → Bool
is_due now a = is_failed a.status && elim a.next_retry_at [ none ↦ false | some t ↦ leb t now ]

unfoldable pub new_attempt :
    WebhookSettings
    → Text
    → WebhookSubscription
    → WebhookEvent
    → Text
    → EventPayload
    → WebhookDeliveryAttempt
new_attempt c id s event delivery payload = record {
  webhook = id;
  merchant_id = s.merchant_id;
  event = event;
  delivery = delivery;
  payload = payload;
  status = pending;
  attempts = 0;
  max_attempts = c.max_retries;
  last_attempt_at = none;
  last_status_code = none;
  last_error = none;
  next_retry_at = none;
}

abbrev pub new_queue : WebhookSubscription → PendingBatchQueue
new_queue s = record { webhook = s; items = []; timer = false }

abbrev pub or_new : WebhookSubscription → Option PendingBatchQueue → PendingBatchQueue
or_new s none = new_queue s
or_new s (some q) = q

abbrev pub usable : Option WebhookSubscription → Option WebhookSubscription
usable none = none
usable (some s) = if s.is_active then some s else none

-- `delivery.sender ?? delivery.userId`
abbrev pub owner : Delivery → Option Text
owner d = elim d.sender [ none ↦ d.user_id | some m ↦ some m ]

-- the owner, if that is an id
unfoldable pub merchant : (Text → Bool) → Delivery → Option Text
merchant is_valid_id d = elim (owner d) [
  | none ↦ none
  | some m ↦ if is_valid_id m then some m else none
]

module _ (is_valid_id : Text → Bool) (hmac : Text → Text → Text) (stringify : Body → Text)
    (c : WebhookSettings) (log : Collection WebhookDeliveryAttempt) (db : Queries log) where
  pub record World : Type 0 where
    pub attempts : log.State
    pub pending_batches : Dict PendingBatchQueue
    pub flush_window_ms : ℕ
    -- the POSTs, in order
    pub posts : List Post

  unfoldable pub save : Text → (WebhookDeliveryAttempt → WebhookDeliveryAttempt) → World → World
  save id f w = record w { attempts = log.update_where id (λ x. true) f w.attempts }

  unfoldable pub create : Text → WebhookDeliveryAttempt → World → World
  create id a w = record w { attempts = db.create id a w.attempts }

  unfoldable pub event_post : Text → WebhookDeliveryAttempt → WebhookSubscription → Post
  unfolding sign
  event_post id a s = record {
    webhook = a.webhook;
    url = s.url;
    event = a.event;
    delivery_id = some a.delivery;
    attempt_id = some id;
    batch_size = none;
    signature = sign hmac (stringify (event_body a.payload)) s.secret;
    body = event_body a.payload;
  }

  unfoldable pub send_usable :
      Text → WebhookDeliveryAttempt → Option WebhookSubscription → Posting → World → World
  unfolding save event_post record_outcome give_up
  send_usable id a none p w = save id give_up w
  send_usable id a (some s) p w =
      save id (record_outcome c a p) (record w { posts = w.posts ++ event_post id a s ∷ [] })

  -- `sendAttempt` of the attempt with this id; `webhook` is the subscription as it was given or found.
  unfoldable pub send_attempt :
      Text → WebhookDeliveryAttempt → Option WebhookSubscription → Posting → World → World
  unfolding send_usable
  send_attempt id a webhook p w = send_usable id a (usable webhook) p w

  unfoldable pub create_and_send_attempt :
      (webhook_id attempt_id : Text)
      → WebhookSubscription
      → WebhookEvent
      → Text
      → EventPayload
      → Posting
      → World
      → World
  unfolding new_attempt create send_attempt
  create_and_send_attempt id attempt_id s event delivery payload p w =
      let a = new_attempt c id s event delivery payload in
      send_attempt attempt_id a (some s) p (create attempt_id a w)

  unfoldable pub queue_batched_attempt :
      (webhook_id attempt_id : Text)
      → WebhookSubscription
      → WebhookEvent
      → Text
      → EventPayload
      → World
      → World
  unfolding new_attempt create
  queue_batched_attempt id attempt_id s event delivery payload w =
      let a = new_attempt c id s event delivery payload in
      let w' = create attempt_id a w in
      let queue = or_new s (get id w'.pending_batches) in
      let item : PendingBatchItem = record {
        attempt_id = attempt_id;
        attempt = a;
        payload = payload;
      } in
      let queue' : PendingBatchQueue = record queue {
        items = queue.items ++ item ∷ [];
        timer = true;
      } in
      record w' { pending_batches = put id queue' w'.pending_batches }

  unfoldable pub batch_post : Text → PendingBatchQueue → ℕ → Post
  unfolding sign
  batch_post id q now =
      let payloads = map (λ i. i.payload) q.items in
      let body = batch_body default_schema_version now (length q.items) payloads in
      record {
        webhook = id;
        url = q.webhook.url;
        event = delivery_batch;
        delivery_id = none;
        attempt_id = none;
        batch_size = some (length q.items);
        signature = sign hmac (stringify body) q.webhook.secret;
        body = body;
      }

  -- The outcome of a batch is recorded on each of its attempts.
  unfoldable pub settle : List PendingBatchItem → Posting → (Text → ℕ) → World → World
  unfolding save record_outcome
  settle [] p randoms w = w
  settle (i ∷ items) p randoms w =
      let p' : Posting = record p { random = randoms i.attempt_id } in
      settle items p randoms (save i.attempt_id (record_outcome c i.attempt p') w)

  unfoldable pub flush_queue :
      Text → Option PendingBatchQueue → ℕ → Posting → (Text → ℕ) → World → World
  unfolding batch_post settle
  flush_queue id none start p randoms w = w
  flush_queue id (some q) start p randoms w =
      let posted : World = record w {
        pending_batches = del id w.pending_batches;
        posts = w.posts ++ batch_post id q start ∷ [];
      } in
      let settled = settle q.items p randoms posted in if length q.items == 0 then w else settled

  -- `flushBatch`; `start` is the clock at its beginning, `randoms` the draw for each attempt.
  unfoldable pub flush_batch : Text → ℕ → Posting → (Text → ℕ) → World → World
  unfolding flush_queue
  flush_batch id start p randoms w = flush_queue id (get id w.pending_batches) start p randoms w

  unfoldable pub flush_batches : List Text → ℕ → (Text → Posting) → (Text → ℕ) → World → World
  flush_batches [] start answers randoms w = w
  flush_batches (id ∷ ids) start answers randoms w =
      flush_batches ids start answers randoms (flush_batch id start (answers id) randoms w)

  unfoldable pub flush_all_batches : ℕ → (Text → Posting) → (Text → ℕ) → World → World
  unfolding flush_batches
  flush_all_batches start answers randoms w =
      flush_batches (map (λ x. x.0) w.pending_batches) start answers randoms w

  unfoldable pub set_flush_window_ms : ℕ → World → World
  set_flush_window_ms ms w = record w { flush_window_ms = ms }

  unfoldable pub clear_pending_batches : World → World
  clear_pending_batches w = record w { pending_batches = [] }

  -- What an operation may meet: the ids of its new attempts, by webhook, and the POSTs' answers, by
  -- attempt.
  pub record Run : Type 0 where
    pub attempt_ids : Text → Text
    pub answers : Text → Posting

  unfoldable pub notify :
      Run → WebhookEvent → Text → EventPayload → Text × WebhookSubscription → World → World
  notify r event delivery payload (id, s) w =
      let attempt_id = r.attempt_ids id in
      if s.allow_batch
      then queue_batched_attempt id attempt_id s event delivery payload w
      else create_and_send_attempt id attempt_id s event delivery payload (r.answers attempt_id) w

  unfoldable pub notify_all :
      Run → WebhookEvent → Text → EventPayload → Dict WebhookSubscription → World → World
  unfolding notify
  notify_all r event delivery payload [] w = w
  notify_all r event delivery payload (x ∷ xs) w =
      notify_all r event delivery payload xs (notify r event delivery payload x w)

  -- The subscriptions that an event of a delivery goes to.
  unfoldable pub recipients :
      Dict WebhookSubscription → Delivery → WebhookEvent → Dict WebhookSubscription
  unfolding merchant is_subscribed
  recipients subscriptions d event = elim (merchant is_valid_id d) [
    | none ↦ []
    | some m ↦ filter (λ x. is_subscribed m event x.1) subscriptions
  ]

  unfoldable pub dispatch_delivery_event :
      Dict WebhookSubscription
      → (id tracking_number : Text) → Delivery
      → DeliveryStatus
      → ℕ
      → Run
      → World
      → World
  unfolding status_event build_payload recipients notify_all
  dispatch_delivery_event subscriptions id tracking_number d status now r w =
      let event = status_event status in
      notify_all r event id (build_payload id tracking_number d event status now)
        (recipients subscriptions d event) w

  unfoldable pub send_all :
      Dict WebhookSubscription
      → (Text → Posting)
      → List (Text × WebhookDeliveryAttempt)
      → World
      → World
  send_all subscriptions answers [] w = w
  send_all subscriptions answers ((id, a) ∷ due) w =
      send_all subscriptions answers due
        (send_attempt id a (get a.webhook subscriptions) (answers id) w)

  unfoldable pub due_attempts : ℕ → World → List (Text × WebhookDeliveryAttempt)
  unfolding is_due
  due_attempts now w = take c.retry_batch_size (db.find_where (is_due now) w.attempts)

  -- `retryDueAttempts`; `enabled` is the flag `webhookBatching`.
  unfoldable pub retry_due_attempts :
      Bool → Dict WebhookSubscription → ℕ → (Text → Posting) → World → ℕ × World
  unfolding due_attempts send_all
  retry_due_attempts enabled subscriptions now answers w =
      let due = due_attempts now w in
      let sent = send_all subscriptions answers due w in
      if enabled then (length due, sent) else (0, w)
