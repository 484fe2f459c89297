-- ===== src/MessageQueue/Keeps.antt =====
-- A property of every user's queue through the public operations and the timer's handler.
use swift_chain_backend.Common.{
  ℕ, ◌<◌, true, not, ◌||◌, Option, none, some, List, [], length, find, Text, text_eq, trim,
  trim-trim, is_empty, get, put, get-put, leb, ◌==◌, get-del, ◌≡◌, refl, arith, Bool-cases,
  Option-cases, inl, inr, All, ap, ◌∙◌,
}
use swift_chain_backend.MessageQueue.{
  pending, exhausted, Message, Config, Service, Enqueued, queued, missing_user, missing_event,
  no_end, queue_of, modify, has_id, acknowledge, deliver, or_default, enqueue, new_message,
  clear_timer,
}
use swift_chain_backend.MessageQueue.Delivery.{
  resolve_connection_id, flush, rewind_all, handle_disconnect, clear, connect, send_with_ack,
  deliver_queued, handle_ack_timeout, retry, is_exhausted, bump, ack_wanted,
}
use swift_chain_backend.MessageQueue.Views.{KeepsBudget}
use swift_chain_backend.MessageQueue.Closure.{
  AllQueues, IsClosed, IsRemovable, IsDeliverable, update_message-keeps, acknowledge-keeps,
  deliver_acked-keeps, flush_loop-keeps,
}
use swift_chain_backend.MessageQueue.Eviction.{enqueue-eq-queued}

module _ {P : Type 0} where
  pub resolve_connection_id-queues :
      (owner : Text) (s : Service P) → (resolve_connection_id owner s).1.queues ≡ s.queues
  unfolding resolve_connection_id
  resolve_connection_id-queues owner s = ground arith

module _ {P : Type 0} (I : List (Message P) → Type 0) where
  connected-keeps :
      (u emit owner : Text) (conn : ℕ) (s : Service P)
      → AllQueues I s
      → AllQueues I (connect u emit conn (resolve_connection_id owner s).1)
  unfolding connect queue_of
  connected-keeps u emit owner conn s h v = rw (resolve_connection_id-queues owner s) (h v)

  pub acknowledge_any-keeps :
      (u id : Text) (s : Service P)
      → IsRemovable I id
      → AllQueues I s
      → AllQueues I (acknowledge u id s).0
  acknowledge_any-keeps u id s r h = elim (Bool-cases (is_empty (trim u))) [
    | inl blank ↦ unfold acknowledge in rw blank h
    | inr named ↦ acknowledge-keeps I u id s named (r _) h
  ]

  pub clear-keeps :
      (u : Option Text) (s : Service P) → I [] → AllQueues I s → AllQueues I (clear u s).0
  unfolding clear queue_of get
  clear-keeps u s e h v =
      let user = trim (or_default u []) in
      elim (Bool-cases (is_empty (or_default u []))) [
        | inl every ↦ rw every e
        | inr one ↦ elim (Bool-cases (text_eq user v)) [
          | inl same ↦ rw (one, get-del user v s.queues, same) e
          | inr other ↦ rw (one, get-del user v s.queues, other) (h v)
        ]
      ]

module _ {P : Type 0} where
  exhaust-KeepsBudget :
      (now : ℕ) → KeepsBudget {P = P} (λ x. record x { status = exhausted; updated_at = now })
  exhaust-KeepsBudget now = record {
    id = λ m. refl;
    ack_required = λ m. refl;
    retries = λ m. refl;
    max_retries = λ m. refl;
  }

  park-KeepsBudget :
      KeepsBudget {P = P} (λ x. record x { status = pending; delivered_connection_id = none })
  park-KeepsBudget = record {
    id = λ m. refl;
    ack_required = λ m. refl;
    retries = λ m. refl;
    max_retries = λ m. refl;
  }

  -- A sent message was enqueued, wants an acknowledgement, and was delivered at once.
  pub send_with_ack-eq-queued :
      (c : Config) (u : Option Text) (socket emit event : Text) (payload : P) (id : Text) (now : ℕ)
      (s : Service P) (m : Message P) (s' : Service P)
      → send_with_ack c u socket emit event payload id now s ≡ some (queued m s')
      → (t : Service P) × (enqueue c (trim (or_default u [])) event payload ack_wanted id now s
          ≡ queued m t)
        × (m.ack_required ≡ true)
        × (let (conn, t') = resolve_connection_id socket t in
            s'
            ≡ deliver
                (trim (or_default u []))
                m
                emit
                (some conn)
                now
                (connect (trim (or_default u [])) emit conn t'))
  unfolding send_with_ack
  send_with_ack-eq-queued c u socket emit event payload id now s m s' e =
      let user = trim (or_default u []) in
      let (t, found, same) =
        opened (enqueue c user event payload ack_wanted id now s) (ground arith) in
      let (_, _, _, built, _) =
        enqueue-eq-queued c user event payload ack_wanted id now s m t found in
      (t, found, ap (λ (x : Message P). x.ack_required) built ∙ (unfold new_message in refl), same)
    where
      opened :
          (r : Enqueued P)
          → deliver_queued (trim (or_default u [])) socket emit now r ≡ queued m s'
          → (t : Service P) × (r ≡ queued m t)
            × (let (conn, t') = resolve_connection_id socket t in
                s'
                ≡ deliver
                    (trim (or_default u []))
                    m
                    emit
                    (some conn)
                    now
                    (connect (trim (or_default u [])) emit conn t'))
      opened (queued m' t) q = (t, cc, cc)
      opened missing_user q = absurd (cc)
      opened missing_event q = absurd (cc)
      opened no_end q = absurd (cc)

module _ {P : Type 0} (I : List (Message P) → Type 0) where
  module _ (closed : IsClosed I) where
    pub flush-keeps :
        (u emit : Text) (owner : Option Text) (now : ℕ) (s : Service P)
        → All (IsDeliverable I) (queue_of (trim u) s)
        → AllQueues I s
        → AllQueues I (flush u emit owner now s).0
    unfolding flush
    flush-keeps u emit owner now s d h =
        elim (Bool-cases (is_empty (trim u) || length (queue_of (trim u) s) == 0)) [
          | inl idle ↦ rw idle h
          | inr busy ↦ rw busy (
              flush_loop-keeps I closed (trim u) emit _ now _ _ (trim-trim u) (ground arith) d
                (connected-keeps I (trim u) emit (or_default owner emit) _ s h))
        ]

    pub handle_disconnect-keeps :
        (u : Text) (now : ℕ) (s : Service P)
        → AllQueues I s
        → AllQueues I (handle_disconnect u now s).0
    unfolding handle_disconnect queue_of
    handle_disconnect-keeps u now s h v =
        let user = trim u in
        let rewound = put user (rewind_all now (queue_of user s)) s.queues in
        elim (Bool-cases (is_empty user)) [
          | inl blank ↦ rw blank (h v)
          | inr named ↦ elim (Bool-cases (length (queue_of user s) == 0)) [
            | inl idle ↦ rw (named, idle) (h v)
            | inr busy ↦ elim (Bool-cases (text_eq user v)) [
              | inl same ↦
                  rw (named, busy, get-put user v (rewind_all now (queue_of user s)) s.queues, same)
                    (closed.rewound now _ (h user))
              | inr other ↦
                  rw
                    (named, busy, get-put user v (rewind_all now (queue_of user s)) s.queues, other)
                    (h v)
            ]
          ]
        ]

    pub send_with_ack-keeps :
        (c : Config) (u : Option Text) (socket emit event : Text) (payload : P) (id : Text)
        (now : ℕ) (s : Service P) (m : Message P) (s' : Service P)
        → ((t : Service P)
            → enqueue c (trim (or_default u [])) event payload ack_wanted id now s ≡ queued m t
            → AllQueues I t)
        → send_with_ack c u socket emit event payload id now s ≡ some (queued m s')
        → AllQueues I s'
    send_with_ack-keeps c u socket emit event payload id now s m s' added e =
        let (t, found, ack, same) =
          send_with_ack-eq-queued c u socket emit event payload id now s m s' e in
        rw same (
          deliver_acked-keeps I closed (trim (or_default u [])) m emit _ now _ ack
            (connected-keeps I (trim (or_default u [])) emit socket _ t (added t found)))

    abbrev pub IsBumpable : Text → Service P → Text → Type 0
    IsBumpable u s id =
        (m : Message P)
        → find (has_id id) (queue_of u s) ≡ some m
        → m.retries < m.max_retries
        → I (queue_of u s)
        → I (modify m.id bump (queue_of u s))

    retry-keeps :
        (u : Text) (m : Message P) (now : ℕ) (s : Service P)
        → m.ack_required ≡ true
        → (m.retries < m.max_retries → I (queue_of u s) → I (modify m.id bump (queue_of u s)))
        → AllQueues I s
        → AllQueues I (retry u m now s)
    unfolding retry
    retry-keeps u m now s ack bumped h = elim (Bool-cases (leb m.max_retries m.retries)) [
      | inl spent ↦
          rw spent (
            update_message-keeps I u m.id _ s (closed.modified m.id _ _ (exhaust-KeepsBudget now))
              h)
      | inr left ↦ elim (Option-cases (get u s.emitters)) [
        | inl gone ↦
            rw (left, gone)
              (update_message-keeps I u m.id _ s (closed.modified m.id _ _ park-KeepsBudget) h)
        | inr (emit, there) ↦
            rw (left, there)
              (deliver_acked-keeps I closed u (bump m) emit _ now _ ack
                (update_message-keeps I u m.id bump s (bumped (ground arith)) h))
      ]
    ]

    pub handle_ack_timeout-keeps :
        (u id : Text) (now : ℕ) (s : Service P)
        → IsBumpable u s id
        → AllQueues I s
        → AllQueues I (handle_ack_timeout u id now s)
    unfolding handle_ack_timeout queue_of
    handle_ack_timeout-keeps u id now s bumped h =
        elim (Option-cases (find (has_id id) (queue_of u s))) [
          | inl missing ↦ rw (missing, handle_ack_timeout) h
          | inr (m, found) ↦ elim (Bool-cases (not m.ack_required || is_exhausted m.status)) [
            | inl done ↦ rw (found, handle_ack_timeout, done) h
            | inr waiting ↦
                rw (found, handle_ack_timeout, waiting)
                  (retry-keeps u m now (record s { timers = clear_timer u id s.timers })
                    (ground arith) (bumped m found) h)
          ]
        ]
