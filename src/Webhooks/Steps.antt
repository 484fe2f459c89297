-- ===== src/Webhooks/Steps.antt =====
-- The calls that the rest of the program makes of the webhook service, in any order, and what every
-- such history keeps. One call's saves are over before the next one begins.
use swift_chain_backend.Common.{
  ℕ, ◌<◌, Bool, true, false, List, [], ◌∷◌, map, Text, Dict, get, All, All-take, ◌≡◌, some,
}
use swift_chain_backend.Database.{Collection}
use swift_chain_backend.Database.Query.{Queries}
use swift_chain_backend.Delivery.{DeliveryStatus, Delivery}
use swift_chain_backend.Webhooks.{
  WebhookSubscription, Body, WebhookDeliveryAttempt, WebhookSettings, Posting, status_event,
  build_payload,
}
use swift_chain_backend.Webhooks.Service.{
  PendingBatchQueue, World, Run, is_due, flush_batch, flush_all_batches, clear_pending_batches,
  set_flush_window_ms, dispatch_delivery_event, recipients, due_attempts, retry_due_attempts,
}
use swift_chain_backend.Webhooks.Attempts.{IsOpen, due-IsOpen}
use swift_chain_backend.Webhooks.Sound.{IsSound}
use swift_chain_backend.Webhooks.Keeps.{
  notify_all-IsSound, flush_queue-IsSound, flush_batches-IsSound, send_all-IsSound,
}

module _ (is_valid_id : Text → Bool) (hmac : Text → Text → Text) (stringify : Body → Text)
    (c : WebhookSettings) (log : Collection WebhookDeliveryAttempt) (db : Queries log) where
  abbrev Here : Type 0
  Here = World is_valid_id hmac stringify c log db

  pub data Call : Type 0 where
    dispatches :
        Dict WebhookSubscription
        → (id tracking_number : Text) → Delivery
        → DeliveryStatus
        → ℕ
        → Run is_valid_id hmac stringify c log db
        → Call
    -- The timer of a batch runs out, or a caller asks for it.
    flushes : Text → ℕ → Posting → (Text → ℕ) → Call
    flushes_all : ℕ → (Text → Posting) → (Text → ℕ) → Call
    clears : Call
    sets_window : ℕ → Call
    retries : Bool → Dict WebhookSubscription → ℕ → (Text → Posting) → Call

  unfoldable pub perform : Call → Here → Here
  perform (dispatches subscriptions id tracking_number d status now r) w =
      dispatch_delivery_event is_valid_id hmac stringify c log db subscriptions id tracking_number d
        status now r w
  perform (flushes id start p randoms) w =
      flush_batch is_valid_id hmac stringify c log db id start p randoms w
  perform (flushes_all start answers randoms) w =
      flush_all_batches is_valid_id hmac stringify c log db start answers randoms w
  perform (sets_window ms) w = set_flush_window_ms is_valid_id hmac stringify c log db ms w
  perform clears w = clear_pending_batches is_valid_id hmac stringify c log db w
  perform (retries enabled subscriptions now answers) w =
      (retry_due_attempts is_valid_id hmac stringify c log db enabled subscriptions now answers w).1

  unfoldable pub run : List Call → Here → Here
  run [] w = w
  run (call ∷ calls) w = run calls (perform call w)

  all_due-IsOpen :
      (now : ℕ) (w : Here) (due : List (Text × WebhookDeliveryAttempt))
      → IsSound is_valid_id hmac stringify c log db w
      → All (λ x. (log.find_by_id x.0 w.attempts ≡ some x.1) × (is_due now x.1 ≡ true)) due
      → All (λ x. IsOpen c x.1) due
  all_due-IsOpen now w [] k h = tt
  all_due-IsOpen now w ((id, a) ∷ due) k (here, later) =
      (due-IsOpen c now a (k.stored id a here.0) here.1, all_due-IsOpen now w due k later)

  no_queue : (k : Text) (q : PendingBatchQueue) → get k [] ≡ some q → ⊥
  unfolding get
  no_queue k q e = cc

  perform-IsSound :
      (call : Call) (w : Here)
      → 0 < c.max_retries
      → IsSound is_valid_id hmac stringify c log db w
      → IsSound is_valid_id hmac stringify c log db (perform call w)
  unfolding perform dispatch_delivery_event flush_batch flush_all_batches clear_pending_batches
      retry_due_attempts due_attempts
  perform-IsSound (dispatches subscriptions id tracking_number d status now r) w positive k =
      let event = status_event status in
      notify_all-IsSound is_valid_id hmac stringify c log db positive r event id
        (build_payload id tracking_number d event status now)
        (recipients is_valid_id hmac stringify c log db subscriptions d event) w k
  perform-IsSound (flushes id start p randoms) w positive k =
      flush_queue-IsSound is_valid_id hmac stringify c log db id (get id w.pending_batches) start p
        randoms w (k.queued id) k
  perform-IsSound (flushes_all start answers randoms) w positive k =
      flush_batches-IsSound is_valid_id hmac stringify c log db (map (λ x. x.0) w.pending_batches)
        start answers randoms w k
  perform-IsSound (sets_window ms) w positive k =
      unfold set_flush_window_ms in record { stored = k.stored; queued = k.queued }
  perform-IsSound clears w positive k = record {
    stored = k.stored;
    queued = λ j q e. absurd (no_queue j q e);
  }
  perform-IsSound (retries false subscriptions now answers) w positive k = k
  perform-IsSound (retries true subscriptions now answers) w positive k =
      let due = db.find_where (is_due now) w.attempts in
      send_all-IsSound is_valid_id hmac stringify c log db subscriptions answers
        (due_attempts is_valid_id hmac stringify c log db now w) w
        (All-take (λ x. IsOpen c x.1) c.retry_batch_size due
          (all_due-IsOpen now w due k (db.find_where_found (is_due now) w.attempts)))
        k

  -- Whatever calls are made in whatever order and whatever the servers answer, each stored attempt has
  -- a count up to the configured number of attempts that fits its status: a pending one has not been
  -- sent, a failed one has been sent, may be sent again and has a time for that, and no other status
  -- has such a time. Each waiting batch has events, whose attempts may still be sent, and its timer is
  -- set. All that holds if it holds at the start, as it does of a service without attempts.
  pub run-IsSound :
      (calls : List Call) (w : Here)
      → 0 < c.max_retries
      → IsSound is_valid_id hmac stringify c log db w
      → IsSound is_valid_id hmac stringify c log db (run calls w)
  unfolding run
  run-IsSound [] w positive k = k
  run-IsSound (call ∷ calls) w positive k =
      run-IsSound calls (perform call w) positive (perform-IsSound call w positive k)
