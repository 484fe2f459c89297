-- ===== src/MessageQueue/Steps.antt =====
-- A property of every user's queue through one call or timer, whichever it is.
use swift_chain_backend.Common.{
  ◌<◌, Option, none, some, List, [], ◌∷◌, ◌++◌, length, any, Text, trim, ◌≡◌, refl, ap, Bool-cases,
  inl, inr, All-of,
}
use swift_chain_backend.MessageQueue.{
  Message, Config, Service, Enqueued, queued, missing_user, missing_event, no_end, queue_of,
  same_key,
}
use swift_chain_backend.MessageQueue.Delivery.{ack_wanted}
use swift_chain_backend.MessageQueue.Closure.{AllQueues, IsClosed, IsRemovable, IsDeliverable}
use swift_chain_backend.MessageQueue.Eviction.{IsShiftClosed, enqueue-keeps}
use swift_chain_backend.MessageQueue.Keeps.{
  acknowledge_any-keeps, clear-keeps, flush-keeps, handle_disconnect-keeps, send_with_ack-keeps,
  IsBumpable, handle_ack_timeout-keeps,
}
use swift_chain_backend.MessageQueue.Run.{
  Command, enqueues, sends, acknowledges, flushes, disconnects, clears, fires, after, after_send,
  step,
}

module _ {P : Type 0} (c : Config) (I J : List (Message P) → Type 0) where
  -- A new message of that id may be appended to a queue.
  abbrev pub Appends : Text → Type 0
  Appends id =
      (m : Message P) (l : List (Message P))
      → m.id ≡ id
      → m.retries ≡ 0
      → J l
      → length l < c.max_queue_size
      → I (l ++ m ∷ [])

  -- So may the one that a call makes.
  abbrev pub IsAppendable : Command P → Type 0
  IsAppendable (enqueues user event payload options id now) = Appends id
  IsAppendable (sends user socket emit event payload id now) = Appends id
  IsAppendable call = Unit

  after-keeps :
      (s : Service P) (r : Enqueued P)
      → AllQueues I s
      → ((m : Message P) (s' : Service P) → r ≡ queued m s' → AllQueues I s')
      → AllQueues I (after s r)
  after-keeps s (queued m s') h k = k m s' refl
  after-keeps s missing_user h k = h
  after-keeps s missing_event h k = h
  after-keeps s no_end h k = h

  after_send-keeps :
      (s : Service P) (r : Option (Enqueued P))
      → AllQueues I s
      → ((m : Message P) (s' : Service P) → r ≡ some (queued m s') → AllQueues I s')
      → AllQueues I (after_send s r)
  after_send-keeps s none h k = h
  after_send-keeps s (some r) h k = after-keeps s r h (λ m s' e. k m s' (ap some e))

  module _ (closed : IsClosed I) (emptied : I []) (shifted : IsShiftClosed J) where
    pub step-keeps :
        (call : Command P) (s : Service P)
        → ((id : Text) → IsRemovable I id)
        → IsAppendable call
        → ((u id : Text) → IsBumpable I closed u s id)
        → AllQueues J s
        → AllQueues I s
        → AllQueues I (step c call s)
    unfolding step
    step-keeps (enqueues user event payload options id now) s removable added bumpable j h =
        after-keeps s _ h (λ m s' e.
          enqueue-keeps I J c user event payload options id now s m s' shifted (added m) e (j _) h)
    step-keeps (sends user socket emit event payload id now) s removable added bumpable j h =
        after_send-keeps s _ h (λ m s' e.
          send_with_ack-keeps I closed c user socket emit event payload id now s m s'
            (λ t found.
              enqueue-keeps I J c _ event payload ack_wanted id now s m t shifted (added m) found
                (j _) h)
            e)
    step-keeps (acknowledges user id) s removable added bumpable j h =
        acknowledge_any-keeps I user id s (removable id) h
    step-keeps (flushes user emit owner now) s removable added bumpable j h =
        flush-keeps I closed user emit owner now s
          (All-of (IsDeliverable I) (λ m _. removable m.id) (queue_of (trim user) s)) h
    step-keeps (disconnects user now) s removable added bumpable j h =
        handle_disconnect-keeps I closed user now s h
    step-keeps (clears user) s removable added bumpable j h = clear-keeps I user s emptied h
    step-keeps (fires user id now) s removable added bumpable j h =
        elim (Bool-cases (any (same_key user id) s.timers)) [
          | inl armed ↦
              rw armed (handle_ack_timeout-keeps I closed user id now s (bumpable user id) h)
          | inr idle ↦ rw idle h
        ]
