-- ===== src/Webhooks/Tests.antt =====
-- Runs of the webhook service, and the theorems at concrete inputs.
use swift_chain_backend.Common.{
  ◌≤◌, ◌+◌, ◌*◌, ◌/◌, Bool, true, false, Option, none, some, List, [], ◌∷◌, ◌++◌, Text, text_eq,
  codes, Dict, get, put, del, ◌≡◌, refl, arith,
}
use swift_chain_backend.Database.{in_memory, update_found}
use swift_chain_backend.Database.Query.{memory_queries, memory_deletions, select, add_if}
use swift_chain_backend.Delivery.{Delivery, assigned, in_progress}
use swift_chain_backend.Webhooks.{
  delivery_assigned, delivery_in_progress, WebhookSubscription, Body, WebhookSettings, Posting,
  answered, unanswered, status_event, build_payload, is_subscribed, same_event, sign,
  record_outcome, mark_success, mark_failed, mark_exhausted, validate_status, compute_next_retry,
  capped_delay, WebhookDeliveryAttempt,
}
use swift_chain_backend.Webhooks.Service.{
  World, Run, merchant, new_attempt, save, create, event_post, batch_post, send_usable,
  send_attempt, create_and_send_attempt, queue_batched_attempt, settle, flush_queue, flush_batch,
  flush_batches, flush_all_batches, notify, notify_all, recipients, dispatch_delivery_event,
  send_all, due_attempts, retry_due_attempts, is_due, clear_pending_batches,
}
use swift_chain_backend.Webhooks.Sound.{IsSound}
use swift_chain_backend.Webhooks.Steps.{Call, dispatches, retries, run, perform, run-IsSound}
use swift_chain_backend.Webhooks.Batches.{batched, waiting, events_of}
use swift_chain_backend.Webhooks.History.{
  all_queued, queued, batched_for, flush_all_batches-delivers,
}
use swift_chain_backend.Webhooks.Schedule.{compute_next_retry-bounds}
use swift_chain_backend.Webhooks.Registry.{
  Request, rotates, is_owned, rotate_secret, serve, set_secret,
}
use swift_chain_backend.Webhooks.Isolation.{IsFresh, serve-isolates}
use swift_chain_backend.Webhooks.Waiting.{sweeps, sweeps-pending}

machine : Unit {0}
unfolding is_owned serve rotate_secret IsFresh get put del text_eq update_found select add_if
    status_event build_payload is_subscribed same_event sign record_outcome mark_success mark_failed
    mark_exhausted validate_status compute_next_retry capped_delay merchant new_attempt save create
    event_post batch_post send_usable send_attempt create_and_send_attempt queue_batched_attempt
    settle flush_queue flush_batch flush_batches flush_all_batches notify notify_all recipients
    dispatch_delivery_event send_all due_attempts retry_due_attempts is_due clear_pending_batches
    run perform batched waiting events_of all_queued queued batched_for sweeps
machine = tt

abbrev any_id : Text → Bool
any_id id = true

abbrev digest : Text → Text → Text
digest body secret = body ++ secret

abbrev any_text : Body → Text
any_text b = codes "body"

abbrev settings : WebhookSettings
settings = record {
  max_retries = 2;
  retry_base_ms = 1000;
  retry_max_ms = 3000;
  retry_batch_size = 50;
  scale = 10;
}

abbrev Here : Type 0
Here = World any_id digest any_text settings (in_memory WebhookDeliveryAttempt) memory_queries

abbrev Step : Type 0
Step = Call any_id digest any_text settings (in_memory WebhookDeliveryAttempt) memory_queries

abbrev nothing : Here
nothing = record { attempts = []; pending_batches = []; flush_window_ms = 1000; posts = [] }

abbrev endpoint : Bool → WebhookSubscription
endpoint batches = record {
  merchant_id = codes "m";
  url = codes "https://m";
  secret = codes "s";
  events = delivery_assigned ∷ delivery_in_progress ∷ [];
  allow_batch = batches;
  is_active = true;
}

abbrev endpoints : Dict WebhookSubscription
endpoints = (codes "single", endpoint false) ∷ (codes "batch", endpoint true) ∷ []

abbrev parcel : Delivery
parcel = record {
  status = assigned;
  driver_id = none;
  user_id = some (codes "m");
  sender = none;
  escrow_amount = none;
  escrow_asset = none;
  fund_by = none;
  cancellation_reason = none;
  proof_of_delivery = none;
  is_deleted = false;
  deleted_at = none;
  deleted_by = none;
}

abbrev down : Text → Posting
down id = record { answer = unanswered (codes "down"); now = 10; random = 5 }

abbrev up : Text → Posting
up id = record { answer = answered 204 []; now = 2000; random = 0 }

abbrev some_run :
    Text → Run any_id digest any_text settings (in_memory WebhookDeliveryAttempt) memory_queries
some_run n = record { attempt_ids = λ id. id ++ n; answers = down }

abbrev steps : List Step
steps =
    dispatches endpoints (codes "d") (codes "t") parcel assigned 5 (some_run (codes "1"))
    ∷ dispatches endpoints (codes "d") (codes "t") parcel in_progress 6 (some_run (codes "2"))
    ∷ retries true endpoints 1010 up
    ∷ []

-- The first single attempt failed, and its retry at its time succeeds.
retried :
    get
      (codes "single1")
      (run any_id digest any_text settings
        (in_memory WebhookDeliveryAttempt)
        memory_queries
        steps
        nothing).attempts
    ≡ some (
        mark_success 2 (up []) (
          new_attempt settings
            (codes "single")
            (endpoint false)
            delivery_assigned
            (codes "d")
            (build_payload (codes "d") (codes "t") parcel delivery_assigned assigned 5)))
unfolding machine
retried = refl

nothing-IsSound :
    IsSound any_id digest any_text settings
      (in_memory WebhookDeliveryAttempt)
      memory_queries
      nothing
unfolding machine
nothing-IsSound = record {
  stored = λ id a e. absurd (ground arith);
  queued = λ k q e. absurd (ground arith);
}

run-IsSound_example :
    IsSound any_id digest any_text settings (in_memory WebhookDeliveryAttempt) memory_queries (
      run any_id digest any_text settings
        (in_memory WebhookDeliveryAttempt)
        memory_queries
        steps
        nothing)
run-IsSound_example =
    run-IsSound any_id digest any_text settings (in_memory WebhookDeliveryAttempt) memory_queries
      steps nothing (omega arith) nothing-IsSound

flush_all_batches-delivers_example :
    let w' =
      flush_all_batches any_id digest any_text settings
        (in_memory WebhookDeliveryAttempt)
        memory_queries
        20
        up
        (λ id. 0)
        (run any_id digest any_text settings
          (in_memory WebhookDeliveryAttempt)
          memory_queries
          steps
          nothing) in
    (batched (codes "batch") w'.posts
      ≡ events_of any_id digest any_text settings
          (in_memory WebhookDeliveryAttempt)
          memory_queries
          (codes "batch")
          nothing
        ++ all_queued any_id digest any_text settings
            (in_memory WebhookDeliveryAttempt)
            memory_queries
            (codes "batch")
            steps)
    × (waiting (codes "batch") w'.pending_batches ≡ [])
flush_all_batches-delivers_example =
    flush_all_batches-delivers any_id digest any_text settings (in_memory WebhookDeliveryAttempt)
      memory_queries (codes "batch") steps 20 up (λ id. 0) nothing (refl, (refl, (refl, tt)))

-- Both events were queued for the endpoint that takes batches.
two_queued :
    all_queued any_id digest any_text settings
      (in_memory WebhookDeliveryAttempt)
      memory_queries
      (codes "batch")
      steps
    ≡ build_payload (codes "d") (codes "t") parcel delivery_assigned assigned 5
      ∷ build_payload (codes "d") (codes "t") parcel delivery_in_progress in_progress 6
      ∷ []
unfolding machine
two_queued = refl

abbrev lost : WebhookDeliveryAttempt
lost =
    new_attempt settings (codes "batch") (endpoint true) delivery_assigned (codes "d")
      (build_payload (codes "d") (codes "t") parcel delivery_assigned assigned 5)

abbrev restarted : Here
restarted = record {
  attempts = (codes "batch1", lost) ∷ [];
  pending_batches = [];
  flush_window_ms = 1000;
  posts = [];
}

sweeps-pending_example :
    get
      (codes "batch1")
      (sweeps any_id digest any_text settings
        (in_memory WebhookDeliveryAttempt)
        memory_queries
        endpoints
        ((100, up) ∷ (99999, up) ∷ [])
        restarted).attempts
    ≡ some lost
sweeps-pending_example =
    sweeps-pending any_id digest any_text settings (in_memory WebhookDeliveryAttempt) memory_queries
      (codes "batch1") lost endpoints ((100, up) ∷ (99999, up) ∷ []) restarted
      (unfold machine in refl) (unfold machine in refl)

compute_next_retry-bounds_example :
    (10 + 4 * 2000 / 5 ≤ compute_next_retry settings 2 (down []))
    × (compute_next_retry settings 2 (down []) ≤ 10 + 6 * 2000 / 5)
unfolding machine
compute_next_retry-bounds_example = compute_next_retry-bounds settings 1 (down []) (omega arith)

abbrev https : Text → Option Text
https url = some (codes "https:")

abbrev rotation :
    Request any_id https true (in_memory WebhookSubscription) memory_queries memory_deletions
rotation = rotates (codes "batch") (codes "new")

-- Another merchant cannot change the secret of this one's endpoint.
serve-isolates_example :
    get
      (codes "batch")
      (serve any_id https true
        (in_memory WebhookSubscription)
        memory_queries
        memory_deletions
        (codes "other")
        rotation
        endpoints).1
    ≡ some (endpoint true)
serve-isolates_example =
    serve-isolates any_id https true (in_memory WebhookSubscription) memory_queries memory_deletions
      (codes "other") rotation (codes "batch") (endpoint true) endpoints (unfold machine in refl)
      (unfold machine in refl) (unfold machine in tt)

-- Its owner can.
changes_secret :
    get
      (codes "batch")
      (serve any_id https true
        (in_memory WebhookSubscription)
        memory_queries
        memory_deletions
        (codes "m")
        rotation
        endpoints).1
    ≡ some (set_secret (codes "new") (endpoint true))
unfolding machine
changes_secret = refl
