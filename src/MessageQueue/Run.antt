-- ===== src/MessageQueue/Run.antt =====
-- The calls that the sockets layer makes of the queue, in any order, and the timers that fire.
use swift_chain_backend.Common.{ℕ, Option, none, some, List, [], ◌∷◌, any, Text, if◌then◌else◌}
use swift_chain_backend.MessageQueue.{
  Config, Service, EnqueueOptions, Enqueued, queued, same_key, enqueue, acknowledge,
}
use swift_chain_backend.MessageQueue.Delivery.{
  flush, send_with_ack, handle_disconnect, clear, handle_ack_timeout,
}

pub data Command (P : Type 0) : Type 0 where
  enqueues : Text → Text → P → EnqueueOptions → Text → ℕ → Command P
  sends : Option Text → Text → Text → Text → P → Text → ℕ → Command P
  acknowledges : Text → Text → Command P
  flushes : Text → Text → Option Text → ℕ → Command P
  disconnects : Text → ℕ → Command P
  clears : Option Text → Command P
  -- The timer of that user and message fires.
  fires : Text → Text → ℕ → Command P

-- The constructor of the service.
unfoldable pub start : {P : Type 0} → Service P
start = record {
  queues = [];
  timers = [];
  emitters = [];
  active_connection_id = [];
  connection_ids = [];
  connection_seq = 0;
  emitted = [];
}

module _ {P : Type 0} where
  -- A call that throws leaves the queue as it was.
  abbrev pub after : Service P → Enqueued P → Service P
  after s (queued m s') = s'
  after s failed = s

  abbrev pub after_send : Service P → Option (Enqueued P) → Service P
  after_send s none = s
  after_send s (some r) = after s r

module _ {P : Type 0} (c : Config) where
  unfoldable pub step : Command P → Service P → Service P
  step (enqueues user event payload options id now) s =
      after s (enqueue c user event payload options id now s)
  step (sends user socket emit event payload id now) s =
      after_send s (send_with_ack c user socket emit event payload id now s)
  step (acknowledges user id) s = (acknowledge user id s).0
  step (flushes user emit owner now) s = (flush user emit owner now s).0
  step (disconnects user now) s = (handle_disconnect user now s).0
  step (clears user) s = (clear user s).0
  step (fires user id now) s =
      if any (same_key user id) s.timers then handle_ack_timeout user id now s else s

  unfoldable pub run : List (Command P) → Service P → Service P
  run [] s = s
  run (call ∷ calls) s = run calls (step call s)
