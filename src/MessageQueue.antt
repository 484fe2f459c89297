-- ===== src/MessageQueue.antt =====
-- src/sockets/messageQueue.ts: the offline queue of socket messages, keyed by user.
-- An emitter, a socket and an owner are object identities, named by a text. `Date.now()` and
-- `randomUUID()` are arguments. A message object is shared by the queue and its callers: a write to
-- it is a write to the queue's entry of that id. What is handed to `emit` is appended to `emitted`.
pub mod Delivery
pub mod Views
pub mod Closure
pub mod Eviction
pub mod Keeps
pub mod Run
pub mod Steps
pub mod Bound
pub mod Resends
pub mod Budget
pub mod Reconnect
pub mod Disconnect
mod Tests
use swift_chain_backend.Common.{
  ℕ, zero, suc, ◌+◌, Bool, true, false, not, ◌&&◌, ◌||◌, Option, none, some, List, [], ◌∷◌, ◌++◌,
  ltb, leb, ◌==◌, if◌then◌else◌, length, any, filter, find, Text, text_eq, trim, is_empty, Dict,
  get, put, del, adjust,
}

pub data Status : Type 0 where
  pending in_flight exhausted : Status

pub record Message (P : Type 0) : Type 0 where
  pub id : Text
  pub user_id : Text
  pub event : Text
  pub payload : P
  pub queued_at : ℕ
  pub updated_at : ℕ
  pub ack_required : Bool
  pub retries : ℕ
  pub ack_timeout_ms : ℕ
  pub max_retries : ℕ
  pub delivered_connection_id : Option ℕ
  pub status : Status
  pub last_attempt_at : Option ℕ

-- One call of an emitter.
pub record Emission (P : Type 0) : Type 0 where
  pub emitter : Text
  pub user : Text
  pub message_id : Text
  pub event : Text
  pub payload : P

-- The `readonly` fields of the service.
pub record Config : Type 0 where
  pub default_ack_timeout_ms : ℕ
  pub max_queue_size : ℕ
  pub default_max_retries : ℕ

pub record Service (P : Type 0) : Type 0 where
  pub queues : Dict (List (Message P))
  -- The armed timers, by user and message id.
  pub timers : List (Text × Text)
  pub emitters : Dict Text
  pub active_connection_id : Dict ℕ
  pub connection_ids : Dict ℕ
  pub connection_seq : ℕ
  pub emitted : List (Emission P)

pub record EnqueueOptions : Type 0 where
  pub ack_required : Option Bool
  pub ack_timeout_ms : Option ℕ
  pub max_retries : Option ℕ

pub data Enqueued (P : Type 0) : Type 0 where
  missing_user missing_event : Enqueued P
  -- The eviction loop did not end within its fuel.
  no_end : Enqueued P
  queued : Message P → Service P → Enqueued P

-- `a ?? b`
abbrev pub or_default {ℓ} : {A : Type ℓ} → Option A → A → A
or_default none d = d
or_default (some a) d = a

abbrev pub same_key : Text → Text → Text × Text → Bool
same_key user id (u, i) = text_eq u user && text_eq i id

unfoldable pub clear_timer : Text → Text → List (Text × Text) → List (Text × Text)
clear_timer user id timers = filter (λ k. not (same_key user id k)) timers

module _ {P : Type 0} where
  -- The queue of a user; a missing entry and an empty one both hold no message.
  unfoldable pub queue_of : Text → Service P → List (Message P)
  queue_of user s = or_default (get user s.queues) []

  -- A write to the message object of that id.
  unfoldable pub modify : Text → (Message P → Message P) → List (Message P) → List (Message P)
  modify id f [] = []
  modify id f (m ∷ ms) = (if text_eq m.id id then f m else m) ∷ modify id f ms

  -- `splice` at the first index of that id
  unfoldable pub remove_first : Text → List (Message P) → List (Message P)
  remove_first id [] = []
  remove_first id (m ∷ ms) =
      let rest = remove_first id ms in if text_eq m.id id then ms else m ∷ rest

  abbrev pub has_id : Text → Message P → Bool
  has_id id m = text_eq m.id id

  -- `shift`, which leaves an empty array alone
  abbrev pub shift : List (Message P) → List (Message P)
  shift [] = []
  shift (m ∷ queue) = queue

  abbrev pub clear_head : Text → List (Message P) → List (Text × Text) → List (Text × Text)
  clear_head user [] timers = timers
  clear_head user (m ∷ queue) timers = clear_timer user m.id timers

  -- `while (existing.length >= this.maxQueueSize) existing.shift()`, with fuel
  unfoldable pub evict :
      ℕ
      → ℕ
      → Text
      → List (Message P)
      → List (Text × Text)
      → Option (List (Message P) × List (Text × Text))
  evict zero bound user queue timers = none
  evict (suc fuel) bound user queue timers =
      let again = evict fuel bound user (shift queue) (clear_head user queue timers) in
      if leb bound (length queue) then again else some (queue, timers)

  unfoldable pub new_message : Config → Text → Text → P → EnqueueOptions → Text → ℕ → Message P
  new_message c user event payload options id now = record {
    id = id;
    user_id = user;
    event = event;
    payload = payload;
    queued_at = now;
    updated_at = now;
    ack_required = or_default options.ack_required true;
    retries = 0;
    ack_timeout_ms = or_default options.ack_timeout_ms c.default_ack_timeout_ms;
    max_retries = or_default options.max_retries c.default_max_retries;
    delivered_connection_id = none;
    status = pending;
    last_attempt_at = none;
  }

  unfoldable pub append_message :
      Text → Message P → Service P → Option (List (Message P) × List (Text × Text)) → Enqueued P
  append_message user m s none = no_end
  append_message user m s (some (kept, timers)) =
      queued m (record s { queues = put user (kept ++ m ∷ []) s.queues; timers = timers })

  unfoldable pub enqueue :
      Config → Text → Text → P → EnqueueOptions → Text → ℕ → Service P → Enqueued P
  unfolding new_message append_message
  enqueue c user_id event payload options id now s =
      let user = trim user_id in
      let existing = queue_of user s in
      if is_empty user
      then missing_user
      else if is_empty (trim event)
      then missing_event
      else append_message user (new_message c user event payload options id now) s
          (evict (suc (length existing)) c.max_queue_size user existing s.timers)

  pub get_pending : Text → Service P → List (Message P)
  get_pending user_id s = queue_of (trim user_id) s

  -- The map entry is dropped with the last message.
  unfoldable pub store_or_delete :
      Text → List (Message P) → Dict (List (Message P)) → Dict (List (Message P))
  store_or_delete user [] queues = del user queues
  store_or_delete user (m ∷ ms) queues = put user (m ∷ ms) queues

  unfoldable pub acknowledge : Text → Text → Service P → Service P × Bool
  unfolding store_or_delete
  acknowledge user_id id s =
      let user = trim user_id in
      let queue = queue_of user s in
      if is_empty user || not (any (has_id id) queue) then (s, false) else (
        record s {
          queues = store_or_delete user (remove_first id queue) s.queues;
          timers = clear_timer user id s.timers;
        },
        true,
      )

  unfoldable pub arm_ack_timer : Text → Message P → List (Text × Text) → List (Text × Text)
  arm_ack_timer user m timers =
      if not m.ack_required || m.ack_timeout_ms == 0
      then timers
      else (user, m.id) ∷ clear_timer user m.id timers

  pub update_message : Text → Text → (Message P → Message P) → Service P → Service P
  update_message user id f s = record s { queues = adjust user (modify id f) s.queues }

  unfoldable pub attempted : ℕ → Option ℕ → Message P → Message P
  attempted now conn m = record m {
    updated_at = now;
    last_attempt_at = some now;
    delivered_connection_id = conn;
  }

  unfoldable pub sent_by : Text → Text → Message P → Emission P
  sent_by emitter user m = record {
    emitter = emitter;
    user = user;
    message_id = m.id;
    event = m.event;
    payload = m.payload;
  }

  -- The client's callback calls `acknowledge` later: it is a step of its own.
  unfoldable pub deliver : Text → Message P → Text → Option ℕ → ℕ → Service P → Service P
  unfolding update_message attempted sent_by arm_ack_timer
  deliver user m emit conn now s =
      let s' = record s { emitted = s.emitted ++ sent_by emit user m ∷ [] } in
      if not m.ack_required
      then (acknowledge user m.id (update_message user m.id (attempted now conn) s')).0
      else record (update_message user m.id
          (λ x. record (attempted now conn x) { status = in_flight }) s') {
            timers = arm_ack_timer user m s.timers;
          }
