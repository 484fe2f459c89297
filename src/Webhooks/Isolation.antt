-- ===== src/Webhooks/Isolation.antt =====
-- A merchant's requests leave the endpoints of the others alone.
use swift_chain_backend.Common.{
  Bool, true, false, Option, none, some, Text, text_eq, text_eq_iff, ◌≡◌, inl, inr, refl, ap, ◌∙◌,
  arith, subst, Option-cases, Bool-cases,
}
use swift_chain_backend.Database.{Collection}
use swift_chain_backend.Database.Query.{Queries, Deletions}
use swift_chain_backend.Delivery.{Result, ok, err}
use swift_chain_backend.Webhooks.{WebhookSubscription}
use swift_chain_backend.Webhooks.Registry.{
  Changes, save_changes, delete_found, new_webhook, Request, registers, updates, deletes, rotates,
  apply_changes, set_secret, is_owned, get_by_id, register_webhook, update_webhook, delete_webhook,
  rotate_secret, serve,
}

module _ (is_valid_id : Text → Bool) (protocol : Text → Option Text) (production : Bool)
    (webhooks : Collection WebhookSubscription) (queries : Queries webhooks)
    (deletions : Deletions webhooks) where
  open webhooks use {State, find_by_id, update_where, find_by_id-update_where}

  -- The id that a registration stores its endpoint under is not in use.
  unfoldable pub IsFresh :
      Request is_valid_id protocol production webhooks queries deletions → State → Type 0
  IsFresh (registers r new_id secret) s = find_by_id new_id s ≡ none
  IsFresh _ s = Unit

  get_by_id-found :
      (merchant id : Text) (w : WebhookSubscription) (s : State)
      → get_by_id is_valid_id protocol production webhooks queries deletions merchant id s ≡ ok w
      → (find_by_id id s ≡ some w) × (is_owned merchant w ≡ true)
  unfolding get_by_id
  get_by_id-found merchant id w s done = elim (Option-cases (find_by_id id s)) [
    | inl gone ↦ absurd (ground arith)
    | inr (x, there) ↦ elim (Bool-cases (is_owned merchant x)) [
      | inl owned ↦
          let same : x ≡ w = ground arith in
          (there ∙ ap some same, subst (λ y. is_owned merchant y ≡ true) same owned)
      | inr foreign ↦ absurd (ground arith)
    ]
  ]

  -- An endpoint that the merchant was given is not that of another.
  apart :
      (merchant id j : Text) (w x : WebhookSubscription) (s : State)
      → find_by_id id s ≡ some w
      → is_owned merchant w ≡ true
      → find_by_id j s ≡ some x
      → is_owned merchant x ≡ false
      → text_eq id j ≡ false
  apart merchant id j w x s there owned found foreign =
      ground (arith, text_eq_iff id j, there, owned, found, foreign)

  save_changes-other :
      (merchant id j : Text) (c : Changes) (x : WebhookSubscription) (s : State)
      (o : Result WebhookSubscription)
      → get_by_id is_valid_id protocol production webhooks queries deletions merchant id s ≡ o
      → find_by_id j s ≡ some x
      → is_owned merchant x ≡ false
      → find_by_id j
          (save_changes is_valid_id protocol production webhooks queries deletions id c o s).1
        ≡ some x
  save_changes-other merchant id j c x s (err e) got found foreign = found
  save_changes-other merchant id j c x s (ok w) got found foreign =
      let (there, owned) = get_by_id-found merchant id w s got in
      let other = apart merchant id j w x s there owned found foreign in
      find_by_id-update_where id j (λ y. true) (apply_changes c) s ∙ rw other found

  delete_found-other :
      (merchant id j : Text) (x : WebhookSubscription) (s : State) (o : Result WebhookSubscription)
      → get_by_id is_valid_id protocol production webhooks queries deletions merchant id s ≡ o
      → find_by_id j s ≡ some x
      → is_owned merchant x ≡ false
      → find_by_id j
          (delete_found is_valid_id protocol production webhooks queries deletions id o s).1
        ≡ some x
  delete_found-other merchant id j x s (err e) got found foreign = found
  delete_found-other merchant id j x s (ok w) got found foreign =
      let (there, owned) = get_by_id-found merchant id w s got in
      let other = apart merchant id j w x s there owned found foreign in
      deletions.find_by_id-remove id j s ∙ rw other found

  updated-other :
      (merchant id j : Text) (secret : Text) (x : WebhookSubscription) (s : State)
      → find_by_id j s ≡ some x
      → is_owned merchant x ≡ false
      → find_by_id j (update_where id (is_owned merchant) (set_secret secret) s) ≡ some x
  updated-other merchant id j secret x s found foreign = ground (
    arith,
    find_by_id-update_where id j (is_owned merchant) (set_secret secret) s,
    text_eq_iff id j,
    found,
    foreign,
  )

  created-other :
      (new_id j : Text) (w x : WebhookSubscription) (s : State)
      → find_by_id new_id s ≡ none
      → find_by_id j s ≡ some x
      → find_by_id j (queries.create new_id w s) ≡ some x
  created-other new_id j w x s fresh found =
      ground (arith, queries.find_by_id-create new_id j w s, text_eq_iff new_id j, fresh, found)

  -- Whatever a merchant asks for, an endpoint of another merchant is stored as it was, its secret
  -- included, if a registration gets an unused id.
  pub serve-isolates :
      (merchant : Text) (q : Request is_valid_id protocol production webhooks queries deletions)
      (j : Text) (x : WebhookSubscription) (s : State)
      → find_by_id j s ≡ some x
      → is_owned merchant x ≡ false
      → IsFresh q s
      → find_by_id j
          (serve is_valid_id protocol production webhooks queries deletions merchant q s).1
        ≡ some x
  unfolding serve IsFresh register_webhook update_webhook delete_webhook rotate_secret
  serve-isolates merchant (registers r new_id secret) j x s found foreign fresh =
      ground (arith, created-other new_id j (new_webhook merchant r secret) x s fresh found, found)
  serve-isolates merchant (updates id c) j x s found foreign fresh = ground (
    arith,
    save_changes-other merchant id j c x s
        (get_by_id is_valid_id protocol production webhooks queries deletions merchant id s) refl
        found foreign,
    found,
  )
  serve-isolates merchant (deletes id) j x s found foreign fresh =
      delete_found-other merchant id j x s
        (get_by_id is_valid_id protocol production webhooks queries deletions merchant id s) refl
        found foreign
  serve-isolates merchant (rotates id secret) j x s found foreign fresh =
      ground (arith, updated-other merchant id j secret x s found foreign, found)
