-- ===== src/MessageQueue/Bound.antt =====
-- The bound on the messages that are kept for one user.
use swift_chain_backend.Common.{
  ℕ, suc, ◌+◌, ◌≤◌, ◌<◌, List, [], ◌∷◌, ◌++◌, length, length-append, Text, text_eq, trim, ◌≡◌, refl,
  arith, ◌-◌, drop, put, get-put, if◌then◌else◌, text_eq_iff, text_eq_self, ◌∙◌, Bool-cases,
  is_empty, false, get, inl, inr,
}
use swift_chain_backend.MessageQueue.{
  Message, Config, Service, EnqueueOptions, queued, queue_of, modify, remove_first, enqueue,
  new_message,
}
use swift_chain_backend.MessageQueue.Delivery.{rewind_all}
use swift_chain_backend.MessageQueue.Closure.{AllQueues, IsClosed}
use swift_chain_backend.MessageQueue.Eviction.{evict-drop}
use swift_chain_backend.MessageQueue.Run.{Command, enqueues, sends, start, step, run}
use swift_chain_backend.MessageQueue.Steps.{Appends, IsAppendable, step-keeps}

module _ {P : Type 0} where
  queue_of-put :
      (u v : Text) (l : List (Message P)) (s : Service P) (t : List (Text × Text))
      → queue_of v (record s { queues = put u l s.queues; timers = t })
        ≡ (if text_eq u v then l else queue_of v s)
  unfolding queue_of
  queue_of-put u v l s t = ground (arith, get-put u v l s.queues)

  length-modify :
      (id : Text) (f : Message P → Message P) (l : List (Message P))
      → length (modify id f l) ≡ length l
  unfolding modify
  length-modify id f [] = refl
  length-modify id f (m ∷ l) = omega (arith, length-modify id f l)

  length-remove_first-le :
      (id : Text) (l : List (Message P)) → length (remove_first id l) ≤ length l
  unfolding remove_first
  length-remove_first-le id [] = omega arith
  length-remove_first-le id (m ∷ l) = ground (arith, length-remove_first-le id l)

  pub length-rewind_all : (now : ℕ) (l : List (Message P)) → length (rewind_all now l) ≡ length l
  unfolding rewind_all
  length-rewind_all now [] = refl
  length-rewind_all now (m ∷ l) = omega (arith, length-rewind_all now l)

  abbrev Fits : ℕ → List (Message P) → Type 0
  Fits bound l = length l ≤ bound

  Fits-IsClosed : (bound : ℕ) → IsClosed (Fits bound)
  Fits-IsClosed bound = record {
    modified = λ id f l _ h. omega (arith, length-modify id f l);
    rewound = λ now l h. omega (arith, length-rewind_all now l);
  }

  Fits-with : (c : Config) (id : Text) → Appends c (Fits c.max_queue_size) (λ _. Unit {0}) id
  Fits-with c id m l _ _ _ room = omega (arith, length-append l (m ∷ []))

  appendable :
      (c : Config) (call : Command P) → IsAppendable c (Fits c.max_queue_size) (λ _. Unit {0}) call
  appendable c (enqueues user event payload options id now) = Fits-with c id
  appendable c (sends user socket emit event payload id now) = Fits-with c id
  appendable c call = tt

  step-Fits :
      (c : Config) (call : Command P) (s : Service P)
      → AllQueues (Fits c.max_queue_size) s
      → AllQueues (Fits c.max_queue_size) (step c call s)
  step-Fits c call s h =
      step-keeps c (Fits c.max_queue_size) (λ _. Unit {0}) (Fits-IsClosed c.max_queue_size)
        (omega arith) (λ m l _. tt) call s (λ id l h. omega (arith, length-remove_first-le id l))
        (appendable c call) (λ u id m _ _ h. omega (arith, length-modify m.id _ (queue_of u s)))
        (λ _. tt) h

  run-Fits :
      (c : Config) (calls : List (Command P)) (s : Service P)
      → AllQueues (Fits c.max_queue_size) s
      → AllQueues (Fits c.max_queue_size) (run c calls s)
  unfolding run
  run-Fits c [] s h = h
  run-Fits c (call ∷ calls) s h = run-Fits c calls (step c call s) (step-Fits c call s h)

  -- After any calls and timeouts from a fresh service, no user's queue holds more than
  -- `max_queue_size` messages.
  pub run_bounded :
      (c : Config) (calls : List (Command P)) (user : Text)
      → length (queue_of user (run c calls start)) ≤ c.max_queue_size
  unfolding start queue_of
  run_bounded c calls user = run-Fits c calls start (λ v. unfold get in omega arith) user

  -- If a queue may hold at least one message, `enqueue` for a user and an event that are not blank
  -- returns: the user's queue loses its oldest messages, as many as leave room for one, and gets the
  -- new message at its end; every other user's queue is as before.
  pub enqueue_appends :
      (c : Config) (user event : Text) (payload : P) (options : EnqueueOptions) (id : Text)
      (now : ℕ) (s : Service P)
      → is_empty (trim user) ≡ false
      → is_empty (trim event) ≡ false
      → 0 < c.max_queue_size
      → (s' : Service P) × (enqueue c user event payload options id now s
          ≡ queued (new_message c (trim user) event payload options id now) s')
        × ((v : Text)
            → queue_of v s' ≡ (
                if text_eq (trim user) v
                then drop (length (queue_of v s) + 1 - c.max_queue_size) (queue_of v s)
                  ++ new_message c (trim user) event payload options id now ∷ []
                else queue_of v s))
  unfolding enqueue
  enqueue_appends c user event payload options id now s u e p =
      let old = queue_of (trim user) s in
      let m = new_message c (trim user) event payload options id now in
      let (t, found) =
        evict-drop (suc (length old)) c.max_queue_size (trim user) old s.timers p (omega arith) in
      let kept = drop (length old + 1 - c.max_queue_size) old in
      (
        record s { queues = put (trim user) (kept ++ m ∷ []) s.queues; timers = t },
        rw (u, e, found),
        λ v. elim (Bool-cases (text_eq (trim user) v)) [
          | inl same ↦
              rw (same, ← (text_eq_iff (trim user) v).0 same)
                (queue_of-put (trim user) (trim user) _ s t ∙ rw (text_eq_self (trim user)))
          | inr other ↦ rw (queue_of-put (trim user) v (kept ++ m ∷ []) s t, other)
        ],
      )
