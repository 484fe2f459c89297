-- ===== src/Webhooks/Batches.antt =====
-- What becomes of the events that wait in a batch.
use swift_chain_backend.Common.{
  ℕ, Bool, true, false, Option, none, some, List, [], ◌∷◌, ◌++◌, append_assoc, append-nil, map,
  length, if◌then◌else◌, ◌==◌, Text, text_eq, text_eq_iff, Dict, get, put, del, get-put, get-del,
  ◌≡◌, inl, inr, refl, arith, Bool-cases,
}
use swift_chain_backend.Database.{Collection}
use swift_chain_backend.Database.Query.{Queries}
use swift_chain_backend.Webhooks.{
  WebhookEvent, WebhookSubscription, EventPayload, Body, event_body, batch_body,
  WebhookDeliveryAttempt, WebhookSettings, Posting, record_outcome,
}
use swift_chain_backend.Webhooks.Service.{
  Post, new_attempt, PendingBatchItem, PendingBatchQueue, World, or_new, save, create, event_post,
  batch_post, send_usable, queue_batched_attempt, settle, flush_queue,
}

-- The events that a body carries as a batch.
unfoldable body_events : Body → List EventPayload
body_events (event_body p) = []
body_events (batch_body version now size ps) = ps

-- The events that went to a subscription in batches, in order.
unfoldable pub batched : Text → List Post → List EventPayload
unfolding body_events
batched k [] = []
batched k (p ∷ ps) =
    if text_eq p.webhook k then body_events p.body ++ batched k ps else batched k ps

abbrev queue_events : Option PendingBatchQueue → List EventPayload
queue_events none = []
queue_events (some q) = map (λ i. i.payload) q.items

-- The events that wait in the batch of a subscription.
unfoldable pub waiting : Text → Dict PendingBatchQueue → List EventPayload
waiting k m = queue_events (get k m)

batched-append :
    (k : Text) (ps qs : List Post) → batched k (ps ++ qs) ≡ batched k ps ++ batched k qs
unfolding batched
batched-append k [] qs = refl
batched-append k (p ∷ ps) qs =
    ground (
      arith,
      batched-append k ps qs,
      append_assoc (body_events p.body) (batched k ps) (batched k qs),
    )

map-append :
    (xs ys : List PendingBatchItem)
    → map (λ i. i.payload) (xs ++ ys) ≡ map (λ i. i.payload) xs ++ map (λ i. i.payload) ys
map-append [] ys = refl
map-append (x ∷ xs) ys = ground (arith, map-append xs ys)

waiting-put :
    (k j : Text) (q : PendingBatchQueue) (m : Dict PendingBatchQueue)
    → waiting j (put k q m) ≡ (if text_eq k j then map (λ i. i.payload) q.items else waiting j m)
unfolding waiting
waiting-put k j q m = elim (Bool-cases (text_eq k j)) [
  | inl same ↦ rw (get-put k j q m, same) refl
  | inr other ↦ rw (get-put k j q m, other) refl
]

waiting-del :
    (k j : Text) (m : Dict PendingBatchQueue)
    → waiting j (del k m) ≡ (if text_eq k j then [] else waiting j m)
unfolding waiting
waiting-del k j m = elim (Bool-cases (text_eq k j)) [
  | inl same ↦ rw (get-del k j m, same) refl
  | inr other ↦ rw (get-del k j m, other) refl
]

waiting-there :
    (k : Text) (q : PendingBatchQueue) (m : Dict PendingBatchQueue)
    → get k m ≡ some q
    → waiting k m ≡ map (λ i. i.payload) q.items
unfolding waiting
waiting-there k q m e = rw e refl

no_items :
    (items : List PendingBatchItem) → (length items == 0) ≡ true → map (λ i. i.payload) items ≡ []
no_items [] e = refl
no_items (i ∷ items) e = absurd (ground arith)

waiting-queue : (k : Text) (m : Dict PendingBatchQueue) → queue_events (get k m) ≡ waiting k m
unfolding waiting
waiting-queue k m = refl

or_new-items :
    (s : WebhookSubscription) (o : Option PendingBatchQueue)
    → map (λ i. i.payload) (or_new s o).items ≡ queue_events o
or_new-items s none = refl
or_new-items s (some q) = refl

module _ (is_valid_id : Text → Bool) (hmac : Text → Text → Text) (stringify : Body → Text)
    (c : WebhookSettings) (log : Collection WebhookDeliveryAttempt) (db : Queries log) where
  abbrev Here : Type 0
  Here = World is_valid_id hmac stringify c log db

  -- The events for a subscription that went out in batches, then those that wait.
  unfoldable pub events_of : Text → Here → List EventPayload
  unfolding batched waiting
  events_of k w = batched k w.posts ++ waiting k w.pending_batches

  abbrev settled_one : PendingBatchItem → Posting → (Text → ℕ) → Here → Here
  settled_one i p randoms w =
      let p' : Posting = record p { random = randoms i.attempt_id } in
      save is_valid_id hmac stringify c log db i.attempt_id (record_outcome c i.attempt p') w

  settle-posts :
      (items : List PendingBatchItem) (p : Posting) (randoms : Text → ℕ) (w : Here)
      → (settle is_valid_id hmac stringify c log db items p randoms w).posts ≡ w.posts
  unfolding settle save
  settle-posts [] p randoms w = refl
  settle-posts (i ∷ items) p randoms w = settle-posts items p randoms (settled_one i p randoms w)

  settle-pending :
      (items : List PendingBatchItem) (p : Posting) (randoms : Text → ℕ) (w : Here)
      → (settle is_valid_id hmac stringify c log db items p randoms w).pending_batches
        ≡ w.pending_batches
  unfolding settle save
  settle-pending [] p randoms w = refl
  settle-pending (i ∷ items) p randoms w =
      settle-pending items p randoms (settled_one i p randoms w)

  abbrev unqueued : Text → PendingBatchQueue → ℕ → Here → Here
  unqueued id q start w = record w {
    pending_batches = del id w.pending_batches;
    posts = w.posts ++ batch_post is_valid_id hmac stringify c log db id q start ∷ [];
  }

  flushed-empty :
      (id : Text) (q : PendingBatchQueue) (start : ℕ) (p : Posting) (randoms : Text → ℕ) (w : Here)
      → (length q.items == 0) ≡ true
      → flush_queue is_valid_id hmac stringify c log db id (some q) start p randoms w ≡ w
  unfolding flush_queue
  flushed-empty id q start p randoms w e = rw e refl

  flushed-full :
      (id : Text) (q : PendingBatchQueue) (start : ℕ) (p : Posting) (randoms : Text → ℕ) (w : Here)
      → (length q.items == 0) ≡ false
      → flush_queue is_valid_id hmac stringify c log db id (some q) start p randoms w
        ≡ settle is_valid_id hmac stringify c log db q.items p randoms (unqueued id q start w)
  unfolding flush_queue
  flushed-full id q start p randoms w e = rw e refl

  pub flush_queue-waiting :
      (id k : Text) (o : Option PendingBatchQueue) (start : ℕ) (p : Posting) (randoms : Text → ℕ)
      (w : Here)
      → get id w.pending_batches ≡ o
      → waiting k
          (flush_queue is_valid_id hmac stringify c log db id o start p randoms w).pending_batches
        ≡ (if text_eq id k then [] else waiting k w.pending_batches)
  unfolding waiting
  flush_queue-waiting id k none start p randoms w there =
      unfold flush_queue in ground (arith, text_eq_iff id k, there)
  flush_queue-waiting id k (some q) start p randoms w there =
      elim (Bool-cases (length q.items == 0)) [
        | inl bare ↦
            rw (flushed-empty id q start p randoms w bare)
              (ground (arith, text_eq_iff id k, there, no_items q.items, bare))
        | inr full ↦ rw (flushed-full id q start p randoms w full) (
            rw (settle-pending q.items p randoms (unqueued id q start w))
              (waiting-del id k w.pending_batches))
      ]

  one_batch :
      (id k : Text) (q : PendingBatchQueue) (start : ℕ)
      → batched k (batch_post is_valid_id hmac stringify c log db id q start ∷ [])
        ≡ (if text_eq id k then map (λ i. i.payload) q.items else [])
  unfolding batched body_events batch_post
  one_batch id k q start = ground (arith, append-nil (map (λ i. i.payload) q.items))

  unqueued-events :
      (id k : Text) (q : PendingBatchQueue) (start : ℕ) (w : Here)
      → get id w.pending_batches ≡ some q
      → batched k (unqueued id q start w).posts ++ waiting k (unqueued id q start w).pending_batches
        ≡ batched k w.posts ++ waiting k w.pending_batches
  unqueued-events id k q start w there = ground (
    arith,
    batched-append k w.posts (batch_post is_valid_id hmac stringify c log db id q start ∷ []),
    one_batch id k q start,
    waiting-del id k w.pending_batches,
    waiting-there id q w.pending_batches there,
    text_eq_iff id k,
    append-nil (batched k w.posts),
    append-nil (batched k w.posts ++ map (λ i. i.payload) q.items),
  )

  pub flush_queue-events :
      (id k : Text) (o : Option PendingBatchQueue) (start : ℕ) (p : Posting) (randoms : Text → ℕ)
      (w : Here)
      → get id w.pending_batches ≡ o
      → events_of k (flush_queue is_valid_id hmac stringify c log db id o start p randoms w)
        ≡ events_of k w
  unfolding events_of
  flush_queue-events id k none start p randoms w there = unfold flush_queue in refl
  flush_queue-events id k (some q) start p randoms w there =
      elim (Bool-cases (length q.items == 0)) [
        | inl bare ↦ rw (flushed-empty id q start p randoms w bare) refl
        | inr full ↦ rw (flushed-full id q start p randoms w full) (
            rw
              (
                settle-pending q.items p randoms (unqueued id q start w),
                settle-posts q.items p randoms (unqueued id q start w),
              )
              (unqueued-events id k q start w there))
      ]

  pub send_usable-events :
      (k id : Text) (a : WebhookDeliveryAttempt) (o : Option WebhookSubscription) (p : Posting)
      (w : Here)
      → events_of k (send_usable is_valid_id hmac stringify c log db id a o p w) ≡ events_of k w
  unfolding send_usable save event_post events_of
  send_usable-events k id a none p w = refl
  send_usable-events k id a (some s) p w = ground (
    arith,
    batched-append k w.posts (event_post is_valid_id hmac stringify c log db id a s ∷ []),
    append-nil (batched k w.posts),
  )

  pub queue_batched_attempt-events :
      (k id attempt_id : Text) (s : WebhookSubscription) (event : WebhookEvent) (delivery : Text)
      (payload : EventPayload) (w : Here)
      → events_of k (
          queue_batched_attempt is_valid_id hmac stringify c log db id attempt_id s event delivery
            payload w)
        ≡ events_of k w ++ (if text_eq id k then payload ∷ [] else [])
  unfolding queue_batched_attempt create events_of
  queue_batched_attempt-events k id attempt_id s event delivery payload w =
      let m = w.pending_batches in
      let old = or_new s (get id m) in
      let a = new_attempt c id s event delivery payload in
      let item : PendingBatchItem = record {
        attempt_id = attempt_id;
        attempt = a;
        payload = payload;
      } in
      let queue : PendingBatchQueue = record old { items = old.items ++ item ∷ []; timer = true } in
      ground (
        arith,
        waiting-put id k queue m,
        map-append old.items (item ∷ []),
        or_new-items s (get id m),
        text_eq_iff id k,
        waiting-queue id m,
        append_assoc (batched k w.posts) (waiting k m) (payload ∷ []),
        append-nil (waiting k m),
        append-nil (batched k w.posts ++ waiting k m),
      )
