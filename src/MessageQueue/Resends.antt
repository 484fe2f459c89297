-- ===== src/MessageQueue/Resends.antt =====
-- src/sockets/messageQueue.ts: what a timeout sends again, and what it uses up of the message's budget.
use swift_chain_backend.Common.{
  ℕ, ◌+◌, ◌<◌, true, false, not, ◌||◌, Option, none, some, List, [], ◌∷◌, ◌++◌, Text, text_eq,
  text_eq_self, text_eq_iff, find, get, leb, ◌≡◌, ◌⊎◌, inl, inr, refl, ap, ◌∙◌, arith, Option-cases,
  Bool-cases,
}
use swift_chain_backend.MessageQueue.{
  Message, Service, in_flight, queue_of, has_id, modify, deliver, attempted, sent_by,
  update_message, clear_timer,
}
use swift_chain_backend.MessageQueue.Delivery.{handle_ack_timeout, retry, is_exhausted, bump}
use swift_chain_backend.MessageQueue.Views.{queue_of-update_message}

module _ {P : Type 0} where
  find-modify :
      (id id' : Text) (f : Message P → Message P) (l : List (Message P)) (m : Message P)
      → ((x : Message P) → (f x).id ≡ x.id)
      → id' ≡ id
      → find (has_id id) l ≡ some m
      → find (has_id id) (modify id' f l) ≡ some (f m)
  unfolding modify
  find-modify id id' f [] m same e h = absurd (cc)
  find-modify id id' f (x ∷ l) m same e h = elim (Bool-cases (text_eq x.id id)) [
    | inl here ↦ ground (arith, here, same x)
    | inr other ↦ ground (arith, other, find-modify id id' f l m same e)
  ]

  find-id :
      (id : Text) (l : List (Message P)) (m : Message P) → find (has_id id) l ≡ some m → m.id ≡ id
  find-id id [] m e = absurd (cc)
  find-id id (x ∷ l) m e = ground (arith, text_eq_iff x.id id, find-id id l m)

  -- A timeout has sent the message once more, with one retry of those that were left.
  pub record IsResent (user id : Text) (s s' : Service P) : Type 0 where
    pub message : Message P
    pub found : find (has_id id) (queue_of user s) ≡ some message
    pub left : message.retries < message.max_retries
    pub emitter : Text
    pub emission :
        s'.emitted
        ≡ s.emitted
          ++ record {
            emitter = emitter;
            user = user;
            message_id = id;
            event = message.event;
            payload = message.payload;
          }
            ∷ []
    pub resent : Message P
    pub still_found : find (has_id id) (queue_of user s') ≡ some resent
    pub used_up : resent.retries ≡ message.retries + 1
    pub same_limit : resent.max_retries ≡ message.max_retries

  deliver_acked :
      (user : Text) (m : Message P) (emit : Text) (conn : Option ℕ) (now : ℕ) (s : Service P)
      → m.ack_required ≡ true
      → let f : Message P → Message P = λ x. record (attempted now conn x) { status = in_flight } in
        let s' = deliver user m emit conn now s in
        (s'.emitted ≡ s.emitted ++ sent_by emit user m ∷ [])
        × (queue_of user s' ≡ modify m.id f (queue_of user s))
  unfolding deliver update_message
  deliver_acked user m emit conn now s ack = (
    ground arith,
    rw ack (
        unfold queue_of in
        queue_of-update_message user user m.id _
          (record s { emitted = s.emitted ++ sent_by emit user m ∷ [] })
        ∙ rw (text_eq_self user) refl),
  )

  abbrev unarmed : Text → Text → Service P → Service P
  unarmed user id s = record s { timers = clear_timer user id s.timers }

  -- A timeout that finds nobody to send to, or nothing left to send.
  quiet_retry :
      (user : Text) (m : Message P) (now : ℕ) (s : Service P)
      → (leb m.max_retries m.retries ≡ true) ⊎ (get user s.emitters ≡ none)
      → (retry user m now s).emitted ≡ s.emitted
  unfolding retry update_message
  quiet_retry user m now s (inl spent) = ground arith
  quiet_retry user m now s (inr gone) = ground arith

  loud_retry :
      (user id emit : Text) (m : Message P) (now : ℕ) (s : Service P)
      → find (has_id id) (queue_of user s) ≡ some m
      → m.ack_required ≡ true
      → leb m.max_retries m.retries ≡ false
      → get user s.emitters ≡ some emit
      → IsResent user id s (retry user m now s)
  unfolding retry
  loud_retry user id emit m now s found ack left there =
      let t = update_message user m.id bump s in
      let named = find-id id (queue_of user s) m found in
      let conn = get user s.active_connection_id in
      let sends = deliver_acked user (bump m) emit conn now t ack in
      let f : Message P → Message P = λ x. record (attempted now conn x) { status = in_flight } in
      let bumped : find (has_id id) (queue_of user t) ≡ some (bump m) =
        ap (find (has_id id))
          (queue_of-update_message user user m.id bump s ∙ rw (text_eq_self user) refl)
        ∙ find-modify id m.id bump (queue_of user s) m (λ x. refl) named found in
      rw (left, there)
        (record {
          message = m;
          found = found;
          left = ground arith;
          emitter = emit;
          emission = sends.0 ∙ unfold sent_by update_message in ground (arith, named);
          resent = f (bump m);
          still_found =
              ap (find (has_id id)) sends.1
              ∙ find-modify id m.id f (queue_of user t) (bump m) (λ x. unfold attempted in refl)
                  named bumped;
          used_up = unfold attempted in refl;
          same_limit = unfold attempted in refl;
        })

  retry-cases :
      (user id : Text) (m : Message P) (now : ℕ) (s : Service P)
      → find (has_id id) (queue_of user s) ≡ some m
      → m.ack_required ≡ true
      → ((retry user m now s).emitted ≡ s.emitted) ⊎ IsResent user id s (retry user m now s)
  retry-cases user id m now s found ack = elim (Bool-cases (leb m.max_retries m.retries)) [
    | inl spent ↦ inl (quiet_retry user m now s (inl spent))
    | inr left ↦ elim (Option-cases (get user s.emitters)) [
      | inl gone ↦ inl (quiet_retry user m now s (inr gone))
      | inr (emit, there) ↦ inr (loud_retry user id emit m now s found ack left there)
    ]
  ]

  unarmed-IsResent :
      (user id : Text) (s s' : Service P)
      → IsResent user id (unarmed user id s) s'
      → IsResent user id s s'
  unfolding queue_of
  unarmed-IsResent user id s s' k = record {
    message = k.message;
    found = k.found;
    left = k.left;
    emitter = k.emitter;
    emission = k.emission;
    resent = k.resent;
    still_found = k.still_found;
    used_up = k.used_up;
    same_limit = k.same_limit;
  }

  pub handle_ack_timeout-cases :
      (user id : Text) (now : ℕ) (s : Service P)
      → let s' = handle_ack_timeout user id now s in
        (s'.emitted ≡ s.emitted) ⊎ IsResent user id s s'
  unfolding handle_ack_timeout
  handle_ack_timeout-cases user id now s =
      elim (Option-cases (find (has_id id) (queue_of user s))) [
        | inl gone ↦ rw (handle_ack_timeout, gone) (inl refl)
        | inr (m, found) ↦ elim (Bool-cases (not m.ack_required || is_exhausted m.status)) [
          | inl idle ↦ rw (handle_ack_timeout, found, idle) (inl refl)
          | inr due ↦
              rw (handle_ack_timeout, found, due)
                (elim (retry-cases user id m now (unarmed user id s) (unfold queue_of in found)
                  (ground arith)) [
                    | inl quiet ↦ inl quiet
                    | inr loud ↦ inr (unarmed-IsResent user id s _ loud)
                  ])
        ]
      ]
