-- ===== src/Webhooks/History.antt =====
-- What any calls of the webhook service make of the events that are to go out in batches.
use swift_chain_backend.Common.{
  ℕ, Bool, true, false, some, List, [], ◌∷◌, ◌++◌, append_assoc, append-nil, map, any,
  if◌then◌else◌, ◌&&◌, Text, text_eq, Dict, get, All, ◌≡◌, refl, sym, ◌∙◌, arith,
}
use swift_chain_backend.Database.{Collection}
use swift_chain_backend.Database.Query.{Queries}
use swift_chain_backend.Webhooks.{
  WebhookEvent, WebhookSubscription, EventPayload, Body, WebhookDeliveryAttempt, WebhookSettings,
  Posting, status_event, build_payload,
}
use swift_chain_backend.Webhooks.Service.{
  set_flush_window_ms, usable, new_attempt, PendingBatchQueue, World, create, send_usable,
  send_attempt, create_and_send_attempt, flush_queue, flush_batch, flush_batches, flush_all_batches,
  Run, notify, notify_all, dispatch_delivery_event, recipients, send_all, due_attempts,
  retry_due_attempts,
}
use swift_chain_backend.Webhooks.Steps.{
  Call, dispatches, flushes, flushes_all, clears, sets_window, retries, perform, run,
}
use swift_chain_backend.Webhooks.Batches.{
  batched, waiting, send_usable-events, queue_batched_attempt-events, flush_queue-events,
  flush_queue-waiting, events_of,
}

module _ (is_valid_id : Text → Bool) (hmac : Text → Text → Text) (stringify : Body → Text)
    (c : WebhookSettings) (log : Collection WebhookDeliveryAttempt) (db : Queries log) where
  abbrev Here : Type 0
  Here = World is_valid_id hmac stringify c log db

  created-events :
      (k id : Text) (a : WebhookDeliveryAttempt) (w : Here)
      → events_of is_valid_id hmac stringify c log db k
          (create is_valid_id hmac stringify c log db id a w)
        ≡ events_of is_valid_id hmac stringify c log db k w
  unfolding create events_of
  created-events k id a w = refl

  create_and_send_attempt-events :
      (k id attempt_id : Text) (s : WebhookSubscription) (event : WebhookEvent) (delivery : Text)
      (payload : EventPayload) (p : Posting) (w : Here)
      → events_of is_valid_id hmac stringify c log db k (
          create_and_send_attempt is_valid_id hmac stringify c log db id attempt_id s event delivery
            payload p w)
        ≡ events_of is_valid_id hmac stringify c log db k w
  unfolding create_and_send_attempt send_attempt
  create_and_send_attempt-events k id attempt_id s event delivery payload p w =
      let a = new_attempt c id s event delivery payload in
      let made = create is_valid_id hmac stringify c log db attempt_id a w in
      send_usable-events is_valid_id hmac stringify c log db k attempt_id a (usable (some s)) p made
      ∙ created-events k attempt_id a w

  -- The event, if the subscription takes its events in batches.
  unfoldable pub batched_for : Text → EventPayload → Dict WebhookSubscription → List EventPayload
  batched_for k payload [] = []
  batched_for k payload ((id, s) ∷ xs) =
      let rest = batched_for k payload xs in
      if text_eq id k && s.allow_batch then payload ∷ rest else rest

  notify-events :
      (k : Text) (r : Run is_valid_id hmac stringify c log db) (event : WebhookEvent)
      (delivery : Text) (payload : EventPayload) (id : Text) (s : WebhookSubscription) (w : Here)
      → events_of is_valid_id hmac stringify c log db k
          (notify is_valid_id hmac stringify c log db r event delivery payload (id, s) w)
        ≡ events_of is_valid_id hmac stringify c log db k w
          ++ (if text_eq id k && s.allow_batch then payload ∷ [] else [])
  unfolding notify
  notify-events k r event delivery payload id s w = ground (
    arith,
    queue_batched_attempt-events is_valid_id hmac stringify c log db k id (r.attempt_ids id) s event
        delivery payload w,
    create_and_send_attempt-events k id (r.attempt_ids id) s event delivery payload
        (r.answers (r.attempt_ids id)) w,
    append-nil (events_of is_valid_id hmac stringify c log db k w),
  )

  notify_all-events :
      (k : Text) (r : Run is_valid_id hmac stringify c log db) (event : WebhookEvent)
      (delivery : Text) (payload : EventPayload) (xs : Dict WebhookSubscription) (w : Here)
      → events_of is_valid_id hmac stringify c log db k
          (notify_all is_valid_id hmac stringify c log db r event delivery payload xs w)
        ≡ events_of is_valid_id hmac stringify c log db k w ++ batched_for k payload xs
  unfolding notify_all batched_for
  notify_all-events k r event delivery payload [] w =
      sym (append-nil (events_of is_valid_id hmac stringify c log db k w))
  notify_all-events k r event delivery payload ((id, s) ∷ xs) w =
      let w' = notify is_valid_id hmac stringify c log db r event delivery payload (id, s) w in
      ground (
        arith,
        notify_all-events k r event delivery payload xs w',
        notify-events k r event delivery payload id s w,
        append_assoc (events_of is_valid_id hmac stringify c log db k w) (payload ∷ [])
            (batched_for k payload xs),
        append-nil (events_of is_valid_id hmac stringify c log db k w),
      )

  send_all-events :
      (k : Text) (subscriptions : Dict WebhookSubscription) (answers : Text → Posting)
      (due : List (Text × WebhookDeliveryAttempt)) (w : Here)
      → events_of is_valid_id hmac stringify c log db k
          (send_all is_valid_id hmac stringify c log db subscriptions answers due w)
        ≡ events_of is_valid_id hmac stringify c log db k w
  unfolding send_all send_attempt
  send_all-events k subscriptions answers [] w = refl
  send_all-events k subscriptions answers ((id, a) ∷ due) w =
      let o = usable (get a.webhook subscriptions) in
      send_all-events k subscriptions answers due
        (send_usable is_valid_id hmac stringify c log db id a o (answers id) w)
      ∙ send_usable-events is_valid_id hmac stringify c log db k id a o (answers id) w

  flush_batches-events :
      (k : Text) (ids : List Text) (start : ℕ) (answers : Text → Posting) (randoms : Text → ℕ)
      (w : Here)
      → events_of is_valid_id hmac stringify c log db k
          (flush_batches is_valid_id hmac stringify c log db ids start answers randoms w)
        ≡ events_of is_valid_id hmac stringify c log db k w
  unfolding flush_batches flush_batch
  flush_batches-events k [] start answers randoms w = refl
  flush_batches-events k (id ∷ ids) start answers randoms w =
      let o = get id w.pending_batches in
      flush_batches-events k ids start answers randoms
        (flush_queue is_valid_id hmac stringify c log db id o start (answers id) randoms w)
      ∙ flush_queue-events is_valid_id hmac stringify c log db id k o start (answers id) randoms w
          refl

  flush_batches-waiting :
      (k : Text) (ids : List Text) (start : ℕ) (answers : Text → Posting) (randoms : Text → ℕ)
      (w : Here)
      → waiting k
          (flush_batches is_valid_id hmac stringify c log db ids start answers randoms
            w).pending_batches
        ≡ (if any (λ id. text_eq id k) ids then [] else waiting k w.pending_batches)
  unfolding flush_batches flush_batch
  flush_batches-waiting k [] start answers randoms w = refl
  flush_batches-waiting k (id ∷ ids) start answers randoms w =
      let o = get id w.pending_batches in
      ground (
        arith,
        flush_batches-waiting k ids start answers randoms
            (flush_queue is_valid_id hmac stringify c log db id o start (answers id) randoms w),
        flush_queue-waiting is_valid_id hmac stringify c log db id k o start (answers id) randoms w
            refl,
      )

  unkeyed :
      (k : Text) (m : Dict PendingBatchQueue)
      → any (λ id. text_eq id k) (map (λ x. x.0) m) ≡ false
      → waiting k m ≡ []
  unfolding waiting get
  unkeyed k [] e = refl
  unkeyed k ((j, q) ∷ m) e = ground (arith, unkeyed k m)

  flush_all_batches-waiting :
      (k : Text) (start : ℕ) (answers : Text → Posting) (randoms : Text → ℕ) (w : Here)
      → waiting k
          (flush_all_batches is_valid_id hmac stringify c log db start answers randoms
            w).pending_batches
        ≡ []
  unfolding flush_all_batches
  flush_all_batches-waiting k start answers randoms w =
      let m = w.pending_batches in
      ground
        (arith, flush_batches-waiting k (map (λ x. x.0) m) start answers randoms w, unkeyed k m)

  -- The events that a call queues for a subscription.
  unfoldable pub queued : Text → Call is_valid_id hmac stringify c log db → List EventPayload
  unfolding batched_for
  queued k (dispatches subscriptions id tracking_number d status now r) =
      let event = status_event status in
      batched_for k (build_payload id tracking_number d event status now)
        (recipients is_valid_id hmac stringify c log db subscriptions d event)
  queued k _ = []

  unfoldable pub all_queued :
      Text → List (Call is_valid_id hmac stringify c log db) → List EventPayload
  unfolding queued
  all_queued k [] = []
  all_queued k (call ∷ calls) = queued k call ++ all_queued k calls

  abbrev pub clears_none : Call is_valid_id hmac stringify c log db → Bool
  clears_none clears = false
  clears_none _ = true

  perform-events :
      (k : Text) (call : Call is_valid_id hmac stringify c log db) (w : Here)
      → clears_none call ≡ true
      → events_of is_valid_id hmac stringify c log db k
          (perform is_valid_id hmac stringify c log db call w)
        ≡ events_of is_valid_id hmac stringify c log db k w ++ queued k call
  unfolding perform queued dispatch_delivery_event flush_batch flush_all_batches retry_due_attempts
  perform-events k (dispatches subscriptions id tracking_number d status now r) w e =
      let event = status_event status in
      notify_all-events k r event id (build_payload id tracking_number d event status now)
        (recipients is_valid_id hmac stringify c log db subscriptions d event) w
  perform-events k (flushes id start p randoms) w e =
      flush_queue-events is_valid_id hmac stringify c log db id k (get id w.pending_batches) start p
        randoms w refl
      ∙ sym (append-nil (events_of is_valid_id hmac stringify c log db k w))
  perform-events k (flushes_all start answers randoms) w e =
      flush_batches-events k (map (λ x. x.0) w.pending_batches) start answers randoms w
      ∙ sym (append-nil (events_of is_valid_id hmac stringify c log db k w))
  perform-events k (sets_window ms) w e =
      unfold set_flush_window_ms events_of in
      sym (append-nil (events_of is_valid_id hmac stringify c log db k w))
  perform-events k clears w e = absurd (cc)
  perform-events k (retries false subscriptions now answers) w e =
      sym (append-nil (events_of is_valid_id hmac stringify c log db k w))
  perform-events k (retries true subscriptions now answers) w e =
      send_all-events k subscriptions answers
        (due_attempts is_valid_id hmac stringify c log db now w) w
      ∙ sym (append-nil (events_of is_valid_id hmac stringify c log db k w))

  run-events :
      (k : Text) (calls : List (Call is_valid_id hmac stringify c log db)) (w : Here)
      → All (λ call. clears_none call ≡ true) calls
      → events_of is_valid_id hmac stringify c log db k
          (run is_valid_id hmac stringify c log db calls w)
        ≡ events_of is_valid_id hmac stringify c log db k w ++ all_queued k calls
  unfolding run all_queued
  run-events k [] w h = sym (append-nil (events_of is_valid_id hmac stringify c log db k w))
  run-events k (call ∷ calls) w (h, hs) =
      let w' = perform is_valid_id hmac stringify c log db call w in
      ground (
        arith,
        run-events k calls w' hs,
        perform-events k call w h,
        append_assoc (events_of is_valid_id hmac stringify c log db k w) (queued k call)
            (all_queued k calls),
      )

  -- Through any calls that do not clear the batches, and a last flush of all of them, each event that
  -- was queued for a subscription goes out to it in exactly one batch, and they go in the order in which
  -- they came, after those that went out or waited before. None is left waiting.
  pub flush_all_batches-delivers :
      (k : Text) (calls : List (Call is_valid_id hmac stringify c log db)) (start : ℕ)
      (answers : Text → Posting) (randoms : Text → ℕ) (w : Here)
      → All (λ call. clears_none call ≡ true) calls
      → let w' =
          flush_all_batches is_valid_id hmac stringify c log db start answers randoms
            (run is_valid_id hmac stringify c log db calls w) in
        (batched k w'.posts
          ≡ events_of is_valid_id hmac stringify c log db k w ++ all_queued k calls)
        × (waiting k w'.pending_batches ≡ [])
  flush_all_batches-delivers k calls start answers randoms w h =
      let ran = run is_valid_id hmac stringify c log db calls w in
      let w' = flush_all_batches is_valid_id hmac stringify c log db start answers randoms ran in
      let left = flush_all_batches-waiting k start answers randoms ran in
      let flushed : events_of is_valid_id hmac stringify c log db k w'
          ≡ events_of is_valid_id hmac stringify c log db k ran =
        unfold flush_all_batches in
        flush_batches-events k (map (λ x. x.0) ran.pending_batches) start answers randoms ran in
      let total : batched k w'.posts ++ waiting k w'.pending_batches
          ≡ events_of is_valid_id hmac stringify c log db k w' =
        unfold events_of in refl in
      (
        ground
            (arith, left, flushed, total, run-events k calls w h, append-nil (batched k w'.posts)),
        left,
      )
