-- ===== src/MessageQueue/Disconnect.antt =====
-- A disconnect, and the reconnect that follows it.
use swift_chain_backend.Common.{
  ℕ, suc, Option, true, none, some, List, [], ◌∷◌, Text, trim, is_empty, ◌≡◌, ◌≢◌, refl, sym, arith,
  Bool-cases, inl, inr, All, append-nil, append_assoc, length, map, ◌++◌, ap, false, subst, ◌==◌,
  get, ◌∙◌, any,
}
use swift_chain_backend.MessageQueue.{
  Status, pending, Message, Emission, Service, in_flight, deliver, sent_by, acknowledge,
  update_message, queue_of, same_key,
}
use swift_chain_backend.MessageQueue.Delivery.{
  flush_step, flush_loop, connect, flush, same_connection, resolve_connection_id, count_in_flight,
}
use swift_chain_backend.MessageQueue.Reconnect.{not_on, flush_loop-count, busy_flush, idle_flush}

module _ {P : Type 0} where
  -- No timer is armed for a message of the queue.
  abbrev pub IsUnarmed : Text → List (Text × Text) → List (Message P) → Type 0
  IsUnarmed u t l = All (λ m. any (same_key u m.id) t ≡ false) l

  emptied : (l : List (Message P)) → (length l == 0) ≡ true → l ≡ []
  emptied [] h = refl
  emptied (m ∷ l) h = absurd (ground arith)

  -- What a disconnect should make of a message with this status.
  abbrev pub put_back : ℕ → Status → Message P → Message P
  put_back now in_flight m = record m {
    status = pending;
    delivered_connection_id = none;
    updated_at = now;
  }
  put_back now _ m = m

  -- What a disconnect leaves of its user's messages.
  pub record IsSettled (u : Text) (now : ℕ) (s s' : Service P) (rewound : ℕ) : Type 0 where
    pub emitter : get u s'.emitters ≡ none
    pub kept : queue_of u s' ≡ map (λ m. put_back now m.status m) (queue_of u s)
    pub rewinds : All (λ m. m.status ≢ in_flight) (queue_of u s')
    pub unarmed : IsUnarmed u s'.timers (queue_of u s')
    pub counted : rewound ≡ count_in_flight (queue_of u s)

  -- No message was delivered on a connection that is still to come.
  abbrev pub IsPast : ℕ → List (Message P) → Type 0
  IsPast seq l = All (λ m. same_connection (suc seq) m.delivered_connection_id ≡ false) l

  not_on_of_IsPast : (seq : ℕ) (l : List (Message P)) → IsPast seq l → not_on (suc seq) l ≡ length l
  not_on_of_IsPast seq [] h = refl
  not_on_of_IsPast seq (m ∷ l) (h, hs) = ground (arith, not_on_of_IsPast seq l hs)

  new_connection :
      (owner : Text) (s : Service P)
      → get owner s.connection_ids ≡ none
      → (resolve_connection_id owner s).0 ≡ suc s.connection_seq
  unfolding resolve_connection_id
  new_connection owner s h = rw (h, resolve_connection_id)

  deliver-emitted :
      (u : Text) (m : Message P) (emit : Text) (conn : Option ℕ) (now : ℕ) (s : Service P)
      → (deliver u m emit conn now s).emitted ≡ s.emitted ++ sent_by emit u m ∷ []
  unfolding deliver acknowledge update_message
  deliver-emitted u m emit conn now s = ground arith

  -- The calls of the emitter for these messages.
  abbrev pub emissions : Text → Text → List (Message P) → List (Emission P)
  emissions emit u [] = []
  emissions emit u (m ∷ l) =
      record { emitter = emit; user = u; message_id = m.id; event = m.event; payload = m.payload }
      ∷ emissions emit u l

  abbrev AreElsewhere : ℕ → List (Message P) → Type 0
  AreElsewhere conn l = All (λ m. same_connection conn m.delivered_connection_id ≡ false) l

  flush_step-emitted :
      (u emit : Text) (conn now : ℕ) (m : Message P) (r : Service P × ℕ)
      → same_connection conn m.delivered_connection_id ≡ false
      → (flush_step u emit conn now m r).0.emitted ≡ r.0.emitted ++ sent_by emit u m ∷ []
  unfolding flush_step
  flush_step-emitted u emit conn now m (s, n) off =
      rw off (deliver-emitted u m emit (some conn) now s)

  flush_loop-emitted :
      (u emit : Text) (conn now : ℕ) (l : List (Message P)) (r : Service P × ℕ)
      → AreElsewhere conn l
      → (flush_loop u emit conn now l r).0.emitted ≡ r.0.emitted ++ emissions emit u l
  unfolding flush_loop sent_by
  flush_loop-emitted u emit conn now [] r h = sym (append-nil r.0.emitted)
  flush_loop-emitted u emit conn now (m ∷ l) r (off, hs) =
      flush_loop-emitted u emit conn now l (flush_step u emit conn now m r) hs
      ∙ ap (λ k. k ++ emissions emit u l) (flush_step-emitted u emit conn now m r off)
      ∙ append_assoc r.0.emitted (sent_by emit u m ∷ []) (emissions emit u l)

  connected-emitted :
      (u emit owner : Text) (conn : ℕ) (s : Service P)
      → (connect u emit conn (resolve_connection_id owner s).1).emitted ≡ s.emitted
  unfolding connect resolve_connection_id
  connected-emitted u emit owner conn s = ground arith

  -- If the connections on which the user's messages were delivered are all among those handed out
  -- so far, a flush for a user that is not blank and an owner that was not seen before skips no
  -- message: it hands every message of the user's queue to the emitter, once and in order, and nothing
  -- else, and it returns their number.
  pub flush_reconnect :
      (user emit owner : Text) (now : ℕ) (s : Service P)
      → is_empty (trim user) ≡ false
      → get owner s.connection_ids ≡ none
      → IsPast s.connection_seq (queue_of (trim user) s)
      → let r = flush user emit (some owner) now s in
        (r.0.emitted ≡ s.emitted ++ emissions emit (trim user) (queue_of (trim user) s))
        × (r.1 ≡ length (queue_of (trim user) s))
  flush_reconnect u emit owner now s named new past =
      elim (Bool-cases (length (queue_of (trim u) s) == 0)) [
        | inl idle ↦
            let none_left = emptied (queue_of (trim u) s) idle in
            rw (idle_flush u emit owner now s (rw (named, idle)), none_left)
              (sym (append-nil s.emitted), refl)
        | inr busy ↦ rw (busy_flush u emit owner now s (rw (named, busy))) (
          flush_loop-emitted (trim u) emit _ now (queue_of (trim u) s) _ (
                subst (λ c. AreElsewhere c (queue_of (trim u) s)) (sym (new_connection owner s new))
                  past)
              ∙ ap (λ k. k ++ emissions emit (trim u) (queue_of (trim u) s))
                  (connected-emitted (trim u) emit owner _ s),
          flush_loop-count (trim u) emit _ now (queue_of (trim u) s) _
              ∙ rw (new_connection owner s new)
                  (omega (arith, not_on_of_IsPast s.connection_seq (queue_of (trim u) s) past)),
        )
      ]
