-- ===== src/MessageQueue/Closure.antt =====
-- A property of every user's queue that the private steps keep is kept by each operation.
use swift_chain_backend.Common.{
  ℕ, true, false, Option, some, List, [], ◌∷◌, ◌++◌, Text, text_eq, text_eq_iff, trim, is_empty,
  ◌≡◌, refl, Bool-cases, inl, inr, All,
}
use swift_chain_backend.MessageQueue.{
  in_flight, Message, Service, queue_of, modify, remove_first, update_message, acknowledge, deliver,
  attempted, sent_by,
}
use swift_chain_backend.MessageQueue.Delivery.{flush_loop, flush_step, rewind_all, same_connection}
use swift_chain_backend.MessageQueue.Views.{
  KeepsBudget, queue_of-update_message, queue_of-acknowledge,
}

module _ {P : Type 0} where
  abbrev pub AllQueues : (List (Message P) → Type 0) → Service P → Type 0
  AllQueues I s = (v : Text) → I (queue_of v s)

  pub record IsClosed (I : List (Message P) → Type 0) : Type 0 where
    pub modified :
        (id : Text) (f : Message P → Message P) (l : List (Message P))
        → KeepsBudget f
        → I l
        → I (modify id f l)
    pub rewound : (now : ℕ) (l : List (Message P)) → I l → I (rewind_all now l)

  abbrev pub IsRemovable : (List (Message P) → Type 0) → Text → Type 0
  IsRemovable I id = (l : List (Message P)) → I l → I (remove_first id l)

  -- A message of that kind may leave the queue at its delivery.
  abbrev pub IsDeliverable : (List (Message P) → Type 0) → Message P → Type 0
  IsDeliverable I m = m.ack_required ≡ false → IsRemovable I m.id

  attempted-KeepsBudget : (now : ℕ) (conn : Option ℕ) → KeepsBudget (attempted {P = P} now conn)
  unfolding attempted
  attempted-KeepsBudget now conn = record {
    id = λ m. refl;
    ack_required = λ m. refl;
    retries = λ m. refl;
    max_retries = λ m. refl;
  }

  in_flight-KeepsBudget :
      (now : ℕ) (conn : Option ℕ)
      → KeepsBudget {P = P} (λ x. record (attempted now conn x) { status = in_flight })
  unfolding attempted
  in_flight-KeepsBudget now conn = record {
    id = λ m. refl;
    ack_required = λ m. refl;
    retries = λ m. refl;
    max_retries = λ m. refl;
  }

abbrev pub sent : {P : Type 0} → Text → Text → Message P → Service P → Service P
sent emit u m s = record s { emitted = s.emitted ++ sent_by emit u m ∷ [] }

module _ {P : Type 0} (I : List (Message P) → Type 0) where
  pub update_message-keeps :
      (u id : Text) (f : Message P → Message P) (s : Service P)
      → (I (queue_of u s) → I (modify id f (queue_of u s)))
      → AllQueues I s
      → AllQueues I (update_message u id f s)
  update_message-keeps u id f s step h v = elim (Bool-cases (text_eq u v)) [
    | inl same ↦
        rw (queue_of-update_message u v id f s, same, ← (text_eq_iff u v).0 same) (step (h u))
    | inr other ↦ rw (queue_of-update_message u v id f s, other) (h v)
  ]

  pub acknowledge-keeps :
      (u id : Text) (s : Service P)
      → is_empty (trim u) ≡ false
      → (I (queue_of (trim u) s) → I (remove_first id (queue_of (trim u) s)))
      → AllQueues I s
      → AllQueues I (acknowledge u id s).0
  acknowledge-keeps u id s e step h v = elim (Bool-cases (text_eq (trim u) v)) [
    | inl same ↦
        rw (queue_of-acknowledge u v id s e, same, ← (text_eq_iff (trim u) v).0 same)
          (step (h (trim u)))
    | inr other ↦ rw (queue_of-acknowledge u v id s e, other) (h v)
  ]

  module _ (closed : IsClosed I) where
    -- A message that wants an acknowledgement stays at its delivery.
    pub deliver_acked-keeps :
        (u : Text) (m : Message P) (emit : Text) (conn : Option ℕ) (now : ℕ) (s : Service P)
        → m.ack_required ≡ true
        → AllQueues I s
        → AllQueues I (deliver u m emit conn now s)
    unfolding deliver queue_of
    deliver_acked-keeps u m emit conn now s ack h = rw ack (
        update_message-keeps u m.id _ (sent emit u m s)
          (closed.modified m.id _ _ (in_flight-KeepsBudget now conn)) h)

    pub deliver-keeps :
        (u : Text) (m : Message P) (emit : Text) (conn : Option ℕ) (now : ℕ) (s : Service P)
        → trim u ≡ u
        → is_empty u ≡ false
        → IsDeliverable I m
        → AllQueues I s
        → AllQueues I (deliver u m emit conn now s)
    unfolding deliver queue_of
    deliver-keeps u m emit conn now s tu e d h = elim (Bool-cases m.ack_required) [
      | inl ack ↦ deliver_acked-keeps u m emit conn now s ack h
      | inr none_wanted ↦ rw none_wanted (
          acknowledge-keeps u m.id _ (rw tu e) (d none_wanted _) (
            update_message-keeps u m.id _ (sent emit u m s)
              (closed.modified m.id _ _ (attempted-KeepsBudget now conn)) h))
    ]

    flush_step-keeps :
        (u emit : Text) (conn now : ℕ) (m : Message P) (r : Service P × ℕ)
        → trim u ≡ u
        → is_empty u ≡ false
        → IsDeliverable I m
        → AllQueues I r.0
        → AllQueues I (flush_step u emit conn now m r).0
    unfolding flush_step
    flush_step-keeps u emit conn now m (s, n) tu e d h =
        elim (Bool-cases (same_connection conn m.delivered_connection_id)) [
          | inl same ↦ rw same h
          | inr other ↦ rw other (deliver-keeps u m emit (some conn) now s tu e d h)
        ]

    pub flush_loop-keeps :
        (u emit : Text) (conn now : ℕ) (l : List (Message P)) (r : Service P × ℕ)
        → trim u ≡ u
        → is_empty u ≡ false
        → All (IsDeliverable I) l
        → AllQueues I r.0
        → AllQueues I (flush_loop u emit conn now l r).0
    unfolding flush_loop
    flush_loop-keeps u emit conn now [] r tu e d h = h
    flush_loop-keeps u emit conn now (m ∷ ms) r tu e (d, ds) h =
        flush_loop-keeps u emit conn now ms (flush_step u emit conn now m r) tu e ds
          (flush_step-keeps u emit conn now m r tu e d h)
