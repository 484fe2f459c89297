-- ===== src/MessageQueue/Delivery.antt =====
-- src/sockets/messageQueue.ts: what delivers, rewinds and drops queued messages, and the timer's handler.
use swift_chain_backend.Common.{
  ℕ, suc, ◌+◌, Bool, true, false, not, ◌||◌, Option, none, some, List, [], ◌∷◌, leb, ◌==◌,
  if◌then◌else◌, length, find, Text, trim, is_empty, Dict, get, put, del,
}
use swift_chain_backend.MessageQueue.{
  Status, pending, in_flight, exhausted, Message, Config, Service, EnqueueOptions, Enqueued, queued,
  or_default, clear_timer, queue_of, has_id, enqueue, update_message, deliver,
}

unfoldable pub same_connection : ℕ → Option ℕ → Bool
same_connection conn none = false
same_connection conn (some c) = c == conn

abbrev pub ack_wanted : EnqueueOptions
ack_wanted = record { ack_required = some true; ack_timeout_ms = none; max_retries = none }

unfoldable pub is_in_flight : Status → Bool
is_in_flight in_flight = true
is_in_flight _ = false

unfoldable pub is_exhausted : Status → Bool
is_exhausted exhausted = true
is_exhausted _ = false

module _ {P : Type 0} where
  -- The connection generation of an owner, a new one at its first use.
  unfoldable pub resolve_connection_id : Text → Service P → ℕ × Service P
  resolve_connection_id owner s = elim (get owner s.connection_ids) [
    | some id ↦ (id, s)
    | none ↦ (
      suc s.connection_seq,
      record s {
        connection_seq = suc s.connection_seq;
        connection_ids = put owner (suc s.connection_seq) s.connection_ids;
      },
    )
  ]

  -- One round of the loop: a message already sent on this connection is skipped.
  unfoldable pub flush_step : Text → Text → ℕ → ℕ → Message P → Service P × ℕ → Service P × ℕ
  unfolding same_connection
  flush_step user emit conn now m (s, delivered) =
      if same_connection conn m.delivered_connection_id
      then (s, delivered)
      else (deliver user m emit (some conn) now s, delivered + 1)

  -- The loop over the copy of the queue.
  unfoldable pub flush_loop : Text → Text → ℕ → ℕ → List (Message P) → Service P × ℕ → Service P × ℕ
  flush_loop user emit conn now [] r = r
  flush_loop user emit conn now (m ∷ ms) r =
      flush_loop user emit conn now ms (flush_step user emit conn now m r)

  unfoldable pub connect : Text → Text → ℕ → Service P → Service P
  connect user emit conn s = record s {
    emitters = put user emit s.emitters;
    active_connection_id = put user conn s.active_connection_id;
  }

  unfoldable pub flush : Text → Text → Option Text → ℕ → Service P → Service P × ℕ
  unfolding connect
  flush user_id emit owner now s =
      let user = trim user_id in
      let queue = queue_of user s in
      let (conn, s') = resolve_connection_id (or_default owner emit) s in
      if is_empty user || length queue == 0
      then (s, 0)
      else flush_loop user emit conn now queue (connect user emit conn s', 0)

  unfoldable pub deliver_queued : Text → Text → Text → ℕ → Enqueued P → Enqueued P
  unfolding connect
  deliver_queued user socket emit now (queued m s) =
      let (conn, s') = resolve_connection_id socket s in
      queued m (deliver user m emit (some conn) now (connect user emit conn s'))
  deliver_queued user socket emit now failed = failed

  -- `none` stands for the result `null`: the socket has no user.
  unfoldable pub send_with_ack :
      Config → Option Text → Text → Text → Text → P → Text → ℕ → Service P → Option (Enqueued P)
  unfolding deliver_queued
  send_with_ack c user_id socket emit event payload id now s =
      let user = trim (or_default user_id []) in
      if is_empty user
      then none
      else some
          (deliver_queued user socket emit now (enqueue c user event payload ack_wanted id now s))

  unfoldable pub rewind : ℕ → Message P → Message P
  unfolding is_in_flight
  rewind now m =
      if is_in_flight m.status
      then record m { status = pending; delivered_connection_id = none; updated_at = now }
      else m

  unfoldable pub rewind_all : ℕ → List (Message P) → List (Message P)
  unfolding rewind
  rewind_all now [] = []
  rewind_all now (m ∷ ms) = rewind now m ∷ rewind_all now ms

  unfoldable pub count_in_flight : List (Message P) → ℕ
  unfolding is_in_flight
  count_in_flight [] = 0
  count_in_flight (m ∷ ms) =
      let rest = count_in_flight ms in if is_in_flight m.status then suc rest else rest

  unfoldable pub clear_timers : Text → List (Message P) → List (Text × Text) → List (Text × Text)
  clear_timers user [] timers = timers
  clear_timers user (m ∷ ms) timers = clear_timers user ms (clear_timer user m.id timers)

  unfoldable pub forget_connection : Text → Service P → Service P
  forget_connection user s = record s {
    emitters = del user s.emitters;
    active_connection_id = del user s.active_connection_id;
  }

  unfoldable pub handle_disconnect : Text → ℕ → Service P → Service P × ℕ
  unfolding forget_connection
  handle_disconnect user_id now s =
      let user = trim user_id in
      let queue = queue_of user s in
      let s' = forget_connection user s in
      if is_empty user then (s, 0) else if length queue == 0 then (s', 0) else (
        record s' {
          queues = put user (rewind_all now queue) s.queues;
          timers = clear_timers user queue s.timers;
        },
        count_in_flight queue,
      )

  unfoldable pub clear_user : Text → Service P → Service P × ℕ
  unfolding forget_connection
  clear_user user s = (
    record (forget_connection user s) {
      queues = del user s.queues;
      timers = clear_timers user (queue_of user s) s.timers;
    },
    length (queue_of user s),
  )

  clear_own_timers : List (Message P) → List (Text × Text) → List (Text × Text)
  clear_own_timers [] timers = timers
  clear_own_timers (m ∷ ms) timers = clear_own_timers ms (clear_timer m.user_id m.id timers)

  unfoldable pub clear_loop :
      Dict (List (Message P)) → List (Text × Text) × ℕ → List (Text × Text) × ℕ
  unfolding clear_own_timers
  clear_loop [] r = r
  clear_loop ((user, queue) ∷ rest) (timers, total) =
      clear_loop rest (clear_own_timers queue timers, total + length queue)

  unfoldable pub clear_every : Service P → Service P × ℕ
  unfolding clear_loop
  clear_every s =
      let (timers, total) = clear_loop s.queues (s.timers, 0) in
      (record s { queues = []; timers = timers; emitters = []; active_connection_id = [] }, total)

  -- An omitted user and an empty one both clear every queue.
  unfoldable pub clear : Option Text → Service P → Service P × ℕ
  unfolding clear_user clear_every
  clear user_id s =
      if is_empty (or_default user_id [])
      then clear_every s
      else clear_user (trim (or_default user_id [])) s

  abbrev pub bump : Message P → Message P
  bump m = record m { retries = m.retries + 1 }

  unfoldable pub retry : Text → Message P → ℕ → Service P → Service P
  retry user m now s =
      if leb m.max_retries m.retries
      then update_message user m.id (λ x. record x { status = exhausted; updated_at = now }) s
      else elim (get user s.emitters) [
        | none ↦
            update_message user m.id
              (λ x. record x { status = pending; delivered_connection_id = none }) s
        | some emit ↦
            deliver user (bump m) emit (get user s.active_connection_id) now
              (update_message user m.id bump s)
      ]

  -- The timer's callback: `user` is already trimmed.
  unfoldable pub handle_ack_timeout : Text → Text → ℕ → Service P → Service P
  unfolding is_exhausted retry
  handle_ack_timeout user id now s =
      let s' = record s { timers = clear_timer user id s.timers } in
      elim (find (has_id id) (queue_of user s)) [
        | none ↦ s'
        | some m ↦ if not m.ack_required || is_exhausted m.status then s' else retry user m now s'
      ]
