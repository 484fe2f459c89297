-- ===== src/MessageQueue/Views.antt =====
-- What each private step of the queue does to the messages of one user.
use swift_chain_backend.Common.{
  false, List, [], ◌∷◌, any, if◌then◌else◌, Text, text_eq, text_eq_iff, trim, is_empty, get,
  get-put, get-del, get-adjust, ◌≡◌, refl, arith,
}
use swift_chain_backend.MessageQueue.{
  Message, Service, queue_of, modify, remove_first, has_id, store_or_delete, update_message,
  acknowledge, or_default,
}

module _ {P : Type 0} where
  -- `f` leaves alone what names a message and what bounds its retries.
  pub record KeepsBudget (f : Message P → Message P) : Type 0 where
    pub id : (m : Message P) → (f m).id ≡ m.id
    pub ack_required : (m : Message P) → (f m).ack_required ≡ m.ack_required
    pub retries : (m : Message P) → (f m).retries ≡ m.retries
    pub max_retries : (m : Message P) → (f m).max_retries ≡ m.max_retries

  pub queue_of-update_message :
      (u v id : Text) (f : Message P → Message P) (s : Service P)
      → queue_of v (update_message u id f s)
        ≡ (if text_eq u v then modify id f (queue_of v s) else queue_of v s)
  unfolding queue_of update_message modify
  queue_of-update_message u v id f s =
      ground (arith, get-adjust u v (modify id f) s.queues, text_eq_iff u v)

  remove_first_missing :
      (id : Text) (l : List (Message P)) → any (has_id id) l ≡ false → remove_first id l ≡ l
  unfolding remove_first
  remove_first_missing id [] h = refl
  remove_first_missing id (m ∷ ms) h = ground (arith, remove_first_missing id ms)

  queue_of-store_or_delete :
      (u v : Text) (l : List (Message P)) (s : Service P)
      → or_default (get v (store_or_delete u l s.queues)) []
        ≡ (if text_eq u v then l else or_default (get v s.queues) [])
  unfolding store_or_delete
  queue_of-store_or_delete u v [] s = ground (arith, get-del u v s.queues)
  queue_of-store_or_delete u v (m ∷ ms) s = ground (arith, get-put u v (m ∷ ms) s.queues)

  pub queue_of-acknowledge :
      (u v id : Text) (s : Service P)
      → is_empty (trim u) ≡ false
      → queue_of v (acknowledge u id s).0
        ≡ (if text_eq (trim u) v then remove_first id (queue_of v s) else queue_of v s)
  unfolding acknowledge queue_of
  queue_of-acknowledge u v id s h = ground (
    arith,
    text_eq_iff (trim u) v,
    remove_first_missing id (or_default (get (trim u) s.queues) []),
    queue_of-store_or_delete (trim u) v (remove_first id (or_default (get (trim u) s.queues) [])) s,
  )
