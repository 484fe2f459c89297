-- ===== src/Webhooks/Waiting.antt =====
-- What the retries make of an attempt that was never sent.
use swift_chain_backend.Common.{
  ℕ, Bool, true, false, Option, none, some, List, [], ◌∷◌, Text, text_eq, text_eq_iff, Dict, get,
  All, All-take, ◌≡◌, refl, ◌∙◌, arith,
}
use swift_chain_backend.Database.{Collection}
use swift_chain_backend.Database.Query.{Queries}
use swift_chain_backend.Webhooks.{
  WebhookSubscription, Body, pending, give_up, record_outcome, WebhookDeliveryAttempt,
  WebhookSettings, Posting,
}
use swift_chain_backend.Webhooks.Service.{
  World, save, send_usable, send_attempt, usable, is_due, due_attempts, retry_due_attempts,
  send_all,
}

module _ (is_valid_id : Text → Bool) (hmac : Text → Text → Text) (stringify : Body → Text)
    (c : WebhookSettings) (log : Collection WebhookDeliveryAttempt) (db : Queries log) where
  abbrev Here : Type 0
  Here = World is_valid_id hmac stringify c log db

  send_usable-other :
      (id j : Text) (a : WebhookDeliveryAttempt) (o : Option WebhookSubscription) (p : Posting)
      (w : Here)
      → text_eq j id ≡ false
      → log.find_by_id id (send_usable is_valid_id hmac stringify c log db j a o p w).attempts
        ≡ log.find_by_id id w.attempts
  unfolding send_usable save
  send_usable-other id j a none p w e =
      log.find_by_id-update_where j id (λ x. true) give_up w.attempts ∙ rw e refl
  send_usable-other id j a (some s) p w e =
      log.find_by_id-update_where j id (λ x. true) (record_outcome c a p) w.attempts ∙ rw e refl

  not_due : (now : ℕ) (a : WebhookDeliveryAttempt) → a.status ≡ pending → is_due now a ≡ false
  unfolding is_due
  not_due now a e = rw e refl

  -- None of these attempts is the one that is pending.
  abbrev AreOthers : Text → List (Text × WebhookDeliveryAttempt) → Type 0
  AreOthers id = All (λ x. text_eq x.0 id ≡ false)

  due-AreOthers :
      (id : Text) (a : WebhookDeliveryAttempt) (now : ℕ) (w : Here)
      (due : List (Text × WebhookDeliveryAttempt))
      → log.find_by_id id w.attempts ≡ some a
      → a.status ≡ pending
      → All (λ x. (log.find_by_id x.0 w.attempts ≡ some x.1) × (is_due now x.1 ≡ true)) due
      → AreOthers id due
  due-AreOthers id a now w [] there e h = tt
  due-AreOthers id a now w ((j, b) ∷ due) there e (here, later) = (
    ground (arith, text_eq_iff j id, there, here.0, here.1, not_due now a e),
    due-AreOthers id a now w due there e later,
  )

  send_all-keeps_others :
      (id : Text) (subscriptions : Dict WebhookSubscription) (answers : Text → Posting)
      (due : List (Text × WebhookDeliveryAttempt)) (w : Here)
      → AreOthers id due
      → log.find_by_id id
          (send_all is_valid_id hmac stringify c log db subscriptions answers due w).attempts
        ≡ log.find_by_id id w.attempts
  unfolding send_all send_attempt
  send_all-keeps_others id subscriptions answers [] w h = refl
  send_all-keeps_others id subscriptions answers ((j, a) ∷ due) w (h, hs) =
      let o = usable (get a.webhook subscriptions) in
      send_all-keeps_others id subscriptions answers due
        (send_usable is_valid_id hmac stringify c log db j a o (answers j) w) hs
      ∙ send_usable-other id j a o (answers j) w h

  -- The retries of one sweep after another, each at its time and with the answers that it meets.
  unfoldable pub sweeps : Dict WebhookSubscription → List (ℕ × (Text → Posting)) → Here → Here
  sweeps subscriptions [] w = w
  sweeps subscriptions ((now, answers) ∷ more) w =
      sweeps subscriptions more
        (retry_due_attempts is_valid_id hmac stringify c log db true subscriptions now answers w).1

  -- An attempt that is pending, as one is whose batch was cleared or lost with the process, is not
  -- touched by any number of sweeps of the retry job: it stays pending.
  pub sweeps-pending :
      (id : Text) (a : WebhookDeliveryAttempt) (subscriptions : Dict WebhookSubscription)
      (rounds : List (ℕ × (Text → Posting))) (w : Here)
      → log.find_by_id id w.attempts ≡ some a
      → a.status ≡ pending
      → log.find_by_id id (sweeps subscriptions rounds w).attempts ≡ some a
  unfolding sweeps
  sweeps-pending id a subscriptions [] w there e = there
  sweeps-pending id a subscriptions ((now, answers) ∷ more) w there e =
      sweeps-pending id a subscriptions more
        (retry_due_attempts is_valid_id hmac stringify c log db true subscriptions now answers w).1
        (unfold retry_due_attempts due_attempts in
          send_all-keeps_others id subscriptions answers
            (due_attempts is_valid_id hmac stringify c log db now w) w
            (All-take (λ x. text_eq x.0 id ≡ false) c.retry_batch_size
              (db.find_where (is_due now) w.attempts)
              (due-AreOthers id a now w (db.find_where (is_due now) w.attempts) there e
                (db.find_where_found (is_due now) w.attempts)))
          ∙ there)
        e
