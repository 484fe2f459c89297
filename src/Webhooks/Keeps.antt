-- ===== src/Webhooks/Keeps.antt =====
-- Dispatches, batches and retries keep the state of the webhook service sound.
use swift_chain_backend.Common.{
  ℕ, ◌<◌, length, length-append, ◌==◌, ◌++◌, Bool, true, false, Option, none, some, List, [], ◌∷◌,
  Text, text_eq, Dict, get, del, get-put, get-del, All, All-append, ◌≡◌, inl, inr, refl, arith,
  subst, Bool-cases,
}
use mathlib.Core.Option.{some-injective}
use swift_chain_backend.Database.{Collection}
use swift_chain_backend.Database.Query.{Queries}
use swift_chain_backend.Webhooks.{
  WebhookEvent, WebhookSubscription, EventPayload, Body, WebhookDeliveryAttempt, WebhookSettings,
  Posting, record_outcome,
}
use swift_chain_backend.Webhooks.Service.{
  PendingBatchItem, PendingBatchQueue, World, batch_post, or_new, save, create, send_attempt,
  create_and_send_attempt, queue_batched_attempt, settle, flush_queue, flush_batch, flush_batches,
  Run, notify, notify_all, send_all, new_attempt,
}
use swift_chain_backend.Webhooks.Attempts.{IsCoherent, IsOpen, record_outcome-IsCoherent}
use swift_chain_backend.Webhooks.Sound.{
  IsArmed, IsSound, save-IsSound, create-IsSound, send_attempt-IsSound, if-IsSound,
}

module _ (is_valid_id : Text → Bool) (hmac : Text → Text → Text) (stringify : Body → Text)
    (c : WebhookSettings) (log : Collection WebhookDeliveryAttempt) (db : Queries log) where
  abbrev Here : Type 0
  Here = World is_valid_id hmac stringify c log db

  module _ (positive : 0 < c.max_retries) where
    new_attempt-IsCoherent :
        (id : Text) (s : WebhookSubscription) (event : WebhookEvent) (delivery : Text)
        (payload : EventPayload)
        → IsCoherent c (new_attempt c id s event delivery payload)
    unfolding new_attempt
    new_attempt-IsCoherent id s event delivery payload = record {
      limit = refl;
      few = omega arith;
      stage = (refl, refl);
    }

    new_attempt-IsOpen :
        (id : Text) (s : WebhookSubscription) (event : WebhookEvent) (delivery : Text)
        (payload : EventPayload)
        → IsOpen c (new_attempt c id s event delivery payload)
    unfolding new_attempt
    new_attempt-IsOpen id s event delivery payload = record { limit = refl; few = positive }

    create_and_send_attempt-IsSound :
        (id attempt_id : Text) (s : WebhookSubscription) (event : WebhookEvent) (delivery : Text)
        (payload : EventPayload) (p : Posting) (w : Here)
        → IsSound is_valid_id hmac stringify c log db w
        → IsSound is_valid_id hmac stringify c log db (
            create_and_send_attempt is_valid_id hmac stringify c log db id attempt_id s event
              delivery payload p w)
    unfolding create_and_send_attempt
    create_and_send_attempt-IsSound id attempt_id s event delivery payload p w k =
        let a = new_attempt c id s event delivery payload in
        send_attempt-IsSound is_valid_id hmac stringify c log db attempt_id a (some s) p
          (create is_valid_id hmac stringify c log db attempt_id a w)
          (new_attempt-IsOpen id s event delivery payload)
          (create-IsSound is_valid_id hmac stringify c log db attempt_id a w
            (new_attempt-IsCoherent id s event delivery payload) k)

    old_items :
        (s : WebhookSubscription) (o : Option PendingBatchQueue)
        → ((q : PendingBatchQueue) → o ≡ some q → IsArmed is_valid_id hmac stringify c log db q)
        → All (λ i. IsOpen c i.attempt) (or_new s o).items
    old_items s none h = tt
    old_items s (some q) h = (h q refl).sendable

    queue_batched_attempt-IsSound :
        (id attempt_id : Text) (s : WebhookSubscription) (event : WebhookEvent) (delivery : Text)
        (payload : EventPayload) (w : Here)
        → IsSound is_valid_id hmac stringify c log db w
        → IsSound is_valid_id hmac stringify c log db (
            queue_batched_attempt is_valid_id hmac stringify c log db id attempt_id s event delivery
              payload w)
    unfolding queue_batched_attempt
    queue_batched_attempt-IsSound id attempt_id s event delivery payload w k =
        let a = new_attempt c id s event delivery payload in
        let made = create is_valid_id hmac stringify c log db attempt_id a w in
        let km =
          create-IsSound is_valid_id hmac stringify c log db attempt_id a w
            (new_attempt-IsCoherent id s event delivery payload) k in
        let old = or_new s (get id made.pending_batches) in
        let item : PendingBatchItem = record {
          attempt_id = attempt_id;
          attempt = a;
          payload = payload;
        } in
        let queue : PendingBatchQueue = record old {
          items = old.items ++ item ∷ [];
          timer = true;
        } in
        let armed : IsArmed is_valid_id hmac stringify c log db queue = record {
          timer = refl;
          some_items = omega (arith, length-append old.items (item ∷ []));
          sendable =
              All-append (λ i. IsOpen c i.attempt) old.items (item ∷ [])
                (old_items s (get id made.pending_batches) (km.queued id))
                (new_attempt-IsOpen id s event delivery payload, tt);
        } in
        record {
          stored = km.stored;
          queued = λ j q e. elim (Bool-cases (text_eq id j)) [
            | inl same ↦
                subst (IsArmed is_valid_id hmac stringify c log db)
                  (some-injective queue q (ground (arith, get-put id j queue made.pending_batches)))
                  armed
            | inr other ↦ km.queued j q (ground (arith, get-put id j queue made.pending_batches))
          ];
        }

    notify-IsSound :
        (r : Run is_valid_id hmac stringify c log db) (event : WebhookEvent) (delivery : Text)
        (payload : EventPayload) (x : Text × WebhookSubscription) (w : Here)
        → IsSound is_valid_id hmac stringify c log db w
        → IsSound is_valid_id hmac stringify c log db
            (notify is_valid_id hmac stringify c log db r event delivery payload x w)
    unfolding notify
    notify-IsSound r event delivery payload (id, s) w k =
        if-IsSound is_valid_id hmac stringify c log db s.allow_batch
          (queue_batched_attempt-IsSound id (r.attempt_ids id) s event delivery payload w k)
          (create_and_send_attempt-IsSound id (r.attempt_ids id) s event delivery payload
            (r.answers (r.attempt_ids id)) w k)

    pub notify_all-IsSound :
        (r : Run is_valid_id hmac stringify c log db) (event : WebhookEvent) (delivery : Text)
        (payload : EventPayload) (xs : Dict WebhookSubscription) (w : Here)
        → IsSound is_valid_id hmac stringify c log db w
        → IsSound is_valid_id hmac stringify c log db
            (notify_all is_valid_id hmac stringify c log db r event delivery payload xs w)
    unfolding notify_all
    notify_all-IsSound r event delivery payload [] w k = k
    notify_all-IsSound r event delivery payload (x ∷ xs) w k =
        notify_all-IsSound r event delivery payload xs
          (notify is_valid_id hmac stringify c log db r event delivery payload x w)
          (notify-IsSound r event delivery payload x w k)

  settle-IsSound :
      (items : List PendingBatchItem) (p : Posting) (randoms : Text → ℕ) (w : Here)
      → All (λ i. IsOpen c i.attempt) items
      → IsSound is_valid_id hmac stringify c log db w
      → IsSound is_valid_id hmac stringify c log db
          (settle is_valid_id hmac stringify c log db items p randoms w)
  unfolding settle
  settle-IsSound [] p randoms w h k = k
  settle-IsSound (i ∷ items) p randoms w (hi, h) k =
      let p' : Posting = record p { random = randoms i.attempt_id } in
      settle-IsSound items p randoms
        (save is_valid_id hmac stringify c log db i.attempt_id (record_outcome c i.attempt p') w) h
        (save-IsSound is_valid_id hmac stringify c log db i.attempt_id
          (record_outcome c i.attempt p') w
          (λ d kd. record_outcome-IsCoherent c i.attempt d p' hi kd.limit) k)

  pub flush_queue-IsSound :
      (id : Text) (o : Option PendingBatchQueue) (start : ℕ) (p : Posting) (randoms : Text → ℕ)
      (w : Here)
      → ((q : PendingBatchQueue) → o ≡ some q → IsArmed is_valid_id hmac stringify c log db q)
      → IsSound is_valid_id hmac stringify c log db w
      → IsSound is_valid_id hmac stringify c log db
          (flush_queue is_valid_id hmac stringify c log db id o start p randoms w)
  unfolding flush_queue
  flush_queue-IsSound id none start p randoms w h k = k
  flush_queue-IsSound id (some q) start p randoms w h k =
      let armed = h q refl in
      let some_there : (length q.items == 0) ≡ false = ground (arith, armed.some_items) in
      rw some_there (
        settle-IsSound q.items p randoms
          (record w {
            pending_batches = del id w.pending_batches;
            posts = w.posts ++ batch_post is_valid_id hmac stringify c log db id q start ∷ [];
          })
          armed.sendable
          (record {
            stored = k.stored;
            queued = λ j x e. k.queued j x (ground (arith, get-del id j w.pending_batches));
          }))

  pub flush_batches-IsSound :
      (ids : List Text) (start : ℕ) (answers : Text → Posting) (randoms : Text → ℕ) (w : Here)
      → IsSound is_valid_id hmac stringify c log db w
      → IsSound is_valid_id hmac stringify c log db
          (flush_batches is_valid_id hmac stringify c log db ids start answers randoms w)
  unfolding flush_batches flush_batch
  flush_batches-IsSound [] start answers randoms w k = k
  flush_batches-IsSound (id ∷ ids) start answers randoms w k =
      let o = get id w.pending_batches in
      flush_batches-IsSound ids start answers randoms
        (flush_queue is_valid_id hmac stringify c log db id o start (answers id) randoms w)
        (flush_queue-IsSound id o start (answers id) randoms w (k.queued id) k)

  pub send_all-IsSound :
      (subscriptions : Dict WebhookSubscription) (answers : Text → Posting)
      (due : List (Text × WebhookDeliveryAttempt)) (w : Here)
      → All (λ x. IsOpen c x.1) due
      → IsSound is_valid_id hmac stringify c log db w
      → IsSound is_valid_id hmac stringify c log db
          (send_all is_valid_id hmac stringify c log db subscriptions answers due w)
  unfolding send_all
  send_all-IsSound subscriptions answers [] w h k = k
  send_all-IsSound subscriptions answers ((id, a) ∷ due) w (ha, h) k =
      send_all-IsSound subscriptions answers due
        (send_attempt is_valid_id hmac stringify c log db id a (get a.webhook subscriptions)
          (answers id) w)
        h
        (send_attempt-IsSound is_valid_id hmac stringify c log db id a (get a.webhook subscriptions)
          (answers id) w ha k)
