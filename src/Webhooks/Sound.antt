-- ===== src/Webhooks/Sound.antt =====
-- The state of the webhook service that every call keeps, and that storing and sending keep it.
use swift_chain_backend.Common.{
  ◌<◌, length, ◌++◌, ◌∙◌, Bool, true, false, Option, none, some, [], ◌∷◌, if◌then◌else◌, Text,
  text_eq, get, All, ◌≡◌, inl, inr, refl, sym, arith, subst, Bool-cases,
}
use mathlib.Core.Option.{some-injective}
use swift_chain_backend.Database.{Collection, matched, or_kept}
use swift_chain_backend.Database.Query.{Queries}
use swift_chain_backend.Webhooks.{
  WebhookSubscription, Body, WebhookDeliveryAttempt, WebhookSettings, Posting, record_outcome,
  give_up,
}
use swift_chain_backend.Webhooks.Service.{
  PendingBatchQueue, World, send_usable, event_post, save, create, send_attempt, usable,
}
use swift_chain_backend.Webhooks.Attempts.{
  IsCoherent, IsOpen, record_outcome-IsCoherent, give_up-IsCoherent,
}

module _ (is_valid_id : Text → Bool) (hmac : Text → Text → Text) (stringify : Body → Text)
    (c : WebhookSettings) (log : Collection WebhookDeliveryAttempt) (db : Queries log) where
  open log use {find_by_id, update_where, find_by_id-update_where}
  open db use {find_where, find_by_id-create, find_where_found}

  abbrev Here : Type 0
  Here = World is_valid_id hmac stringify c log db

  -- A queue has items, its timer is set, and its attempts may still be sent.
  pub record IsArmed (q : PendingBatchQueue) : Type 0 where
    pub timer : q.timer ≡ true
    pub some_items : 0 < length q.items
    pub sendable : All (λ i. IsOpen c i.attempt) q.items

  pub record IsSound (w : Here) : Type 0 where
    pub stored :
        (id : Text) (a : WebhookDeliveryAttempt)
        → find_by_id id w.attempts ≡ some a
        → IsCoherent c a
    pub queued : (k : Text) (q : PendingBatchQueue) → get k w.pending_batches ≡ some q → IsArmed q

  pub if-IsSound : (b : Bool) {x y : Here} → IsSound x → IsSound y → IsSound (if b then x else y)
  if-IsSound true kx ky = kx
  if-IsSound false kx ky = ky

  saved_cases :
      (f : WebhookDeliveryAttempt → WebhookDeliveryAttempt) (same : Bool)
      (o old : Option WebhookDeliveryAttempt) (a : WebhookDeliveryAttempt)
      → ((d : WebhookDeliveryAttempt) → o ≡ some d → IsCoherent c d)
      → ((d : WebhookDeliveryAttempt) → old ≡ some d → IsCoherent c d)
      → ((d : WebhookDeliveryAttempt) → IsCoherent c d → IsCoherent c (f d))
      → (if same then or_kept (matched (λ x. true) f o) old else old) ≡ some a
      → IsCoherent c a
  saved_cases f true none old a ho hold hf e = hold a e
  saved_cases f true (some d) old a ho hold hf e =
      subst (IsCoherent c) (some-injective (f d) a e) (hf d (ho d refl))
  saved_cases f false o old a ho hold hf e = hold a e

  pub save-IsSound :
      (id : Text) (f : WebhookDeliveryAttempt → WebhookDeliveryAttempt) (w : Here)
      → ((d : WebhookDeliveryAttempt) → IsCoherent c d → IsCoherent c (f d))
      → IsSound w
      → IsSound (save is_valid_id hmac stringify c log db id f w)
  unfolding save
  save-IsSound id f w hf k = record {
    stored = λ j a e.
        saved_cases f (text_eq id j) (find_by_id id w.attempts) (find_by_id j w.attempts) a
          (k.stored id) (k.stored j) hf
          (sym (find_by_id-update_where id j (λ x. true) f w.attempts) ∙ e);
    queued = k.queued;
  }

  pub create-IsSound :
      (id : Text) (a : WebhookDeliveryAttempt) (w : Here)
      → IsCoherent c a
      → IsSound w
      → IsSound (create is_valid_id hmac stringify c log db id a w)
  unfolding create
  create-IsSound id a w ka k = record {
    stored = λ j x e. elim (Bool-cases (text_eq id j)) [
      | inl same ↦ subst (IsCoherent c) (ground (arith, find_by_id-create id j a w.attempts)) ka
      | inr other ↦ k.stored j x (ground (arith, find_by_id-create id j a w.attempts))
    ];
    queued = k.queued;
  }

  send_usable-IsSound :
      (id : Text) (a : WebhookDeliveryAttempt) (o : Option WebhookSubscription) (p : Posting)
      (w : Here)
      → IsOpen c a
      → IsSound w
      → IsSound (send_usable is_valid_id hmac stringify c log db id a o p w)
  unfolding send_usable
  send_usable-IsSound id a none p w room k = save-IsSound id give_up w (give_up-IsCoherent c) k
  send_usable-IsSound id a (some s) p w room k =
      save-IsSound id (record_outcome c a p)
        (record w { posts = w.posts ++ event_post is_valid_id hmac stringify c log db id a s ∷ [] })
        (λ d kd. record_outcome-IsCoherent c a d p room kd.limit)
        (record { stored = k.stored; queued = k.queued })

  pub send_attempt-IsSound :
      (id : Text) (a : WebhookDeliveryAttempt) (webhook : Option WebhookSubscription) (p : Posting)
      (w : Here)
      → IsOpen c a
      → IsSound w
      → IsSound (send_attempt is_valid_id hmac stringify c log db id a webhook p w)
  unfolding send_attempt
  send_attempt-IsSound id a webhook p w room k =
      send_usable-IsSound id a (usable webhook) p w room k
