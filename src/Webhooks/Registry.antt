-- ===== src/Webhooks/Registry.antt =====
-- src/services/webhookService.ts: a merchant's registry of endpoints. The parser of URLs is an argument
-- and gives the protocol, and so is the secret that `generateSecret` draws. A result holds the whole
-- document; the queries of the source leave the secret out of what they return.
use swift_chain_backend.Common.{
  ◌==◌, Bool, true, false, not, Option, none, some, List, length, if◌then◌else◌, ◌||◌, Text,
  text_eq, codes,
}
use swift_chain_backend.Database.{Collection, matched}
use swift_chain_backend.Database.Query.{Queries, Deletions}
use swift_chain_backend.Delivery.{bad_request, not_found, Result, ok, err}
use swift_chain_backend.Webhooks.{WebhookEvent, WebhookSubscription}

-- `RegisterWebhookInput`, less the merchant
pub record Registration : Type 0 where
  pub url : Text
  pub events : List WebhookEvent
  pub allow_batch : Option Bool

-- `UpdateWebhookInput`
pub record Changes : Type 0 where
  pub url : Option Text
  pub events : Option (List WebhookEvent)
  pub allow_batch : Option Bool
  pub is_active : Option Bool

abbrev pub or_old {ℓ} : {A : Type ℓ} → A → Option A → A
or_old a none = a
or_old a (some b) = b

abbrev no_events : List WebhookEvent → Bool
no_events events = length events == 0

abbrev pub given {ℓ} : {A : Type ℓ} → (A → Bool) → Option A → Bool
given p none = false
given p (some a) = p a

unfoldable pub apply_changes : Changes → WebhookSubscription → WebhookSubscription
apply_changes c w = record w {
  url = or_old w.url c.url;
  events = or_old w.events c.events;
  allow_batch = or_old w.allow_batch c.allow_batch;
  is_active = or_old w.is_active c.is_active;
}

abbrev pub set_secret : Text → WebhookSubscription → WebhookSubscription
set_secret secret w = record w { secret = secret }

unfoldable pub is_owned : Text → WebhookSubscription → Bool
is_owned merchant w = text_eq w.merchant_id merchant

unfoldable pub new_webhook : Text → Registration → (secret : Text) → WebhookSubscription
new_webhook merchant r secret = record {
  merchant_id = merchant;
  url = r.url;
  secret = secret;
  events = r.events;
  allow_batch = or_old false r.allow_batch;
  is_active = true;
}

-- `assertValidUrl`: `true` if it does not throw.
unfoldable pub is_valid_url : (Text → Option Text) → Bool → Text → Bool
is_valid_url protocol production url = elim (protocol url) [
  | none ↦ false
  | some p ↦ text_eq p (codes "https:") || not production
]

module _ (is_valid_id : Text → Bool) (protocol : Text → Option Text) (production : Bool)
    (webhooks : Collection WebhookSubscription) (queries : Queries webhooks)
    (deletions : Deletions webhooks) where
  open webhooks use {State, find_by_id, update_where}

  abbrev pub Answered : Type 0
  Answered = Result WebhookSubscription × State

  unfoldable pub register_webhook : Text → Registration → (new_id secret : Text) → State → Answered
  unfolding is_valid_url new_webhook
  register_webhook merchant r new_id secret s =
      let w = new_webhook merchant r secret in
      if not (is_valid_id merchant)
        || not (is_valid_url protocol production r.url)
        || no_events r.events
      then (err bad_request, s)
      else (ok w, queries.create new_id w s)

  unfoldable pub get_by_id : Text → Text → State → Result WebhookSubscription
  unfolding is_owned
  get_by_id merchant id s =
      if not (is_valid_id merchant) || not (is_valid_id id)
      then err bad_request
      else elim (find_by_id id s) [
        | none ↦ err not_found
        | some w ↦ if is_owned merchant w then ok w else err not_found
      ]

  -- The save after the read writes the fields that are given.
  abbrev pub save_changes : Text → Changes → Result WebhookSubscription → State → Answered
  save_changes id c (err e) s = (err e, s)
  save_changes id c (ok w) s =
      (ok (apply_changes c w), update_where id (λ x. true) (apply_changes c) s)

  unfoldable pub update_webhook : Text → Text → Changes → State → Answered
  unfolding get_by_id apply_changes is_valid_url
  update_webhook merchant id c s =
      if given (λ u. not (is_valid_url protocol production u)) c.url || given no_events c.events
      then (err bad_request, s)
      else save_changes id c (get_by_id merchant id s) s

  abbrev pub delete_found : Text → Result WebhookSubscription → State → Answered
  delete_found id (err e) s = (err e, s)
  delete_found id (ok w) s = (ok w, deletions.remove id s)

  unfoldable pub delete_webhook : Text → Text → State → Answered
  unfolding get_by_id
  delete_webhook merchant id s = delete_found id (get_by_id merchant id s) s

  abbrev rotated : Option WebhookSubscription → Result WebhookSubscription
  rotated none = err not_found
  rotated (some w) = ok w

  unfoldable pub rotate_secret : Text → Text → (secret : Text) → State → Answered
  unfolding is_owned
  rotate_secret merchant id secret s =
      if not (is_valid_id merchant) || not (is_valid_id id) then (err bad_request, s) else (
        rotated (matched (is_owned merchant) (set_secret secret) (find_by_id id s)),
        update_where id (is_owned merchant) (set_secret secret) s,
      )

  -- The requests that a merchant can make.
  pub data Request : Type 0 where
    registers : Registration → (new_id secret : Text) → Request
    updates : Text → Changes → Request
    deletes : Text → Request
    rotates : Text → (secret : Text) → Request

  unfoldable pub serve : Text → Request → State → Answered
  unfolding register_webhook update_webhook delete_webhook rotate_secret
  serve merchant (registers r new_id secret) s = register_webhook merchant r new_id secret s
  serve merchant (updates id c) s = update_webhook merchant id c s
  serve merchant (deletes id) s = delete_webhook merchant id s
  serve merchant (rotates id secret) s = rotate_secret merchant id secret s
