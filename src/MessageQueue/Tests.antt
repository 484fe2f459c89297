-- ===== src/MessageQueue/Tests.antt =====
-- Runs of the message queue, and its theorems at concrete inputs.
use swift_chain_backend.Common.{
  ℕ, ◌≤◌, ◌+◌, ◌-◌, List, [], ◌∷◌, ◌++◌, Text, codes, ◌≡◌, ◌⊎◌, refl, some, get, put, del, adjust,
  text_eq, trim, trim_start, is_space, length, drop, map, if◌then◌else◌, arith,
}
use swift_chain_backend.MessageQueue.{
  Status, exhausted, Config, Service, queue_of, modify, remove_first, evict, enqueue, queued,
  new_message, acknowledge, deliver, clear_timer,
}
use swift_chain_backend.MessageQueue.Delivery.{
  flush, flush_loop, flush_step, resolve_connection_id, send_with_ack, handle_disconnect,
  handle_ack_timeout, rewind_all, same_connection, ack_wanted, clear_timers, count_in_flight,
}
use swift_chain_backend.MessageQueue.Run.{Command, enqueues, flushes, fires, start, step, run}
use swift_chain_backend.MessageQueue.Bound.{run_bounded, enqueue_appends}
use swift_chain_backend.MessageQueue.Resends.{IsResent}
use swift_chain_backend.MessageQueue.Budget.{IsWithinBudget, HasDistinctIds, run-IsWithinBudget}
use swift_chain_backend.MessageQueue.Reconnect.{flush_idempotent}
use swift_chain_backend.MessageQueue.Disconnect.{emissions, flush_reconnect}

machine : Unit {0}
unfolding start run step enqueue evict acknowledge deliver flush flush_loop flush_step send_with_ack
    handle_disconnect handle_ack_timeout get put del adjust text_eq trim trim_start is_space
    queue_of modify remove_first resolve_connection_id clear_timer clear_timers rewind_all
    count_in_flight
machine = tt

abbrev limits : Config
limits = record { default_ack_timeout_ms = 500; max_queue_size = 2; default_max_retries = 1 }

abbrev alice : Text
alice = codes "alice"

abbrev socket : Text
socket = codes "socket"

abbrev emitter : Text
emitter = codes "emit"

abbrev offer : Text
offer = codes "offer"

abbrev calls : List (Command ℕ)
calls =
    enqueues alice offer 7 ack_wanted (codes "m1") 10
    ∷ flushes alice emitter (some socket) 20
    ∷ fires alice (codes "m1") 520
    ∷ fires alice (codes "m1") 1020
    ∷ []

-- The message has used its only retry and stays in the queue.
waiting :
    map {B = ℕ × Status} (λ m. (m.retries, m.status)) (queue_of alice (run limits calls start))
    ≡ (1, exhausted) ∷ []
unfolding machine
waiting = refl

run_bounded_example : length (queue_of alice (run limits calls start)) ≤ 2
run_bounded_example = run_bounded limits calls alice

run-IsWithinBudget_example :
    let s = run limits calls start in
    IsWithinBudget (queue_of alice s)
    × HasDistinctIds (queue_of alice s)
    × ((id : Text) (now : ℕ)
        → ((handle_ack_timeout alice id now s).emitted ≡ s.emitted)
          ⊎ IsResent alice id s (handle_ack_timeout alice id now s))
unfolding machine
run-IsWithinBudget_example =
    run-IsWithinBudget limits calls alice ((λ v. tt), ((λ v. tt), ((λ v. tt), ((λ v. tt), tt))))

abbrev one_waits : Service ℕ
one_waits = step limits (enqueues alice offer 7 ack_wanted (codes "m1") 10) start

enqueue_appends_example :
    (s' : Service ℕ) × (enqueue limits (codes " alice") offer 9 ack_wanted (codes "m2") 30 one_waits
      ≡ queued (new_message limits alice offer 9 ack_wanted (codes "m2") 30) s')
    × ((v : Text)
        → queue_of v s' ≡ (
            if text_eq alice v
            then drop (length (queue_of v one_waits) + 1 - 2) (queue_of v one_waits)
              ++ new_message limits alice offer 9 ack_wanted (codes "m2") 30 ∷ []
            else queue_of v one_waits))
unfolding trim trim_start is_space
enqueue_appends_example =
    enqueue_appends limits (codes " alice") offer 9 ack_wanted (codes "m2") 30 one_waits refl refl
      (omega arith)

flush_idempotent_example :
    let first = (flush alice emitter (some socket) 20 one_waits).0 in
    let second = flush alice (codes "emit2") (some socket) 30 first in
    (second.1 ≡ 0) × (second.0.emitted ≡ first.emitted) × (second.0.queues ≡ first.queues)
flush_idempotent_example = flush_idempotent alice emitter (codes "emit2") socket 20 30 one_waits

abbrev spent : Service ℕ
spent = run limits calls start

flush_reconnect_example :
    let r = flush alice emitter (some (codes "socket2")) 3000 spent in
    (r.0.emitted ≡ spent.emitted ++ emissions emitter (trim alice) (queue_of (trim alice) spent))
    × (r.1 ≡ length (queue_of (trim alice) spent))
flush_reconnect_example =
    flush_reconnect alice emitter (codes "socket2") 3000 spent (unfold machine in refl)
      (unfold machine in refl) (unfold machine same_connection in (refl, tt))
