-- ===== src/MessageQueue/Budget.antt =====
-- The retry budget of a message: its counter, which a timeout that sends it again moves.
use swift_chain_backend.Common.{
  ℕ, ◌≤◌, ◌<◌, some, List, [], ◌∷◌, ◌++◌, Text, text_eq, text_eq_iff, ◌≡◌, ◌≢◌, ◌⊎◌, refl, sym, ap,
  arith, Bool-cases, inl, inr, All, All-append, find, subst, get,
}
use swift_chain_backend.MessageQueue.{
  Message, Config, Service, queue_of, modify, remove_first, has_id,
}
use swift_chain_backend.MessageQueue.Delivery.{rewind_all, rewind, bump, handle_ack_timeout}
use swift_chain_backend.MessageQueue.Views.{KeepsBudget}
use swift_chain_backend.MessageQueue.Closure.{AllQueues, IsClosed}
use swift_chain_backend.MessageQueue.Resends.{IsResent, handle_ack_timeout-cases}
use swift_chain_backend.MessageQueue.Run.{Command, enqueues, sends, start, step, run}
use swift_chain_backend.MessageQueue.Steps.{IsAppendable, step-keeps}

module _ {P : Type 0} where
  abbrev pub IsUnused : Text → List (Message P) → Type 0
  IsUnused id l = All (λ x. x.id ≢ id) l

  -- No two messages of a queue share an id.
  abbrev pub HasDistinctIds : List (Message P) → Type 0
  HasDistinctIds [] = Unit
  HasDistinctIds (m ∷ l) = IsUnused m.id l × HasDistinctIds l

  abbrev pub IsWithinBudget : List (Message P) → Type 0
  IsWithinBudget l = All (λ m. m.retries ≤ m.max_retries) l

  pub modify_unused :
      (id : Text) (f : Message P → Message P) (l : List (Message P))
      → IsUnused id l
      → modify id f l ≡ l
  unfolding modify
  modify_unused id f [] h = refl
  modify_unused id f (m ∷ l) (h, hs) = ground (arith, text_eq_iff m.id id, modify_unused id f l hs)

  module _ (id' id : Text) (f : Message P → Message P)
      (same : (m : Message P) → (f m).id ≡ m.id) where
    modify-IsUnused : (l : List (Message P)) → IsUnused id' l → IsUnused id' (modify id f l)
    unfolding modify
    modify-IsUnused [] h = tt
    modify-IsUnused (m ∷ l) (h, hs) = ground (arith, modify-IsUnused l hs, same m)

  modify-HasDistinctIds :
      (id : Text) (f : Message P → Message P) (same : (m : Message P) → (f m).id ≡ m.id)
      (l : List (Message P))
      → HasDistinctIds l
      → HasDistinctIds (modify id f l)
  unfolding modify
  modify-HasDistinctIds id f same [] h = tt
  modify-HasDistinctIds id f same (m ∷ l) (h, hs) = elim (Bool-cases (text_eq m.id id)) [
    | inl here ↦
        rw here
          (rw (same m) (modify-IsUnused m.id id f same l h), modify-HasDistinctIds id f same l hs)
    | inr other ↦
        rw other (modify-IsUnused m.id id f same l h, modify-HasDistinctIds id f same l hs)
  ]

  modify-IsWithinBudget :
      (id : Text) (f : Message P → Message P) (k : KeepsBudget f) (l : List (Message P))
      → IsWithinBudget l
      → IsWithinBudget (modify id f l)
  unfolding modify
  modify-IsWithinBudget id f k [] h = tt
  modify-IsWithinBudget id f k (m ∷ l) (h, hs) =
      ground (arith, modify-IsWithinBudget id f k l hs, k.retries m, k.max_retries m)

  remove_first-All :
      (Q : Message P → Type 0) (id : Text) (l : List (Message P))
      → All Q l
      → All Q (remove_first id l)
  unfolding remove_first
  remove_first-All Q id [] h = tt
  remove_first-All Q id (m ∷ l) (h, hs) = elim (Bool-cases (text_eq m.id id)) [
    | inl here ↦ rw here hs
    | inr other ↦ rw other (h, remove_first-All Q id l hs)
  ]

  remove_first-HasDistinctIds :
      (id : Text) (l : List (Message P)) → HasDistinctIds l → HasDistinctIds (remove_first id l)
  unfolding remove_first
  remove_first-HasDistinctIds id [] h = tt
  remove_first-HasDistinctIds id (m ∷ l) (h, hs) = elim (Bool-cases (text_eq m.id id)) [
    | inl here ↦ rw here hs
    | inr other ↦
        rw other (remove_first-All (λ x. x.id ≢ m.id) id l h, remove_first-HasDistinctIds id l hs)
  ]

  rewind_all-IsUnused :
      (id : Text) (now : ℕ) (l : List (Message P)) → IsUnused id l → IsUnused id (rewind_all now l)
  unfolding rewind_all
  rewind_all-IsUnused id now [] h = tt
  rewind_all-IsUnused id now (m ∷ l) (h, hs) = ground (arith, rewind_all-IsUnused id now l hs)

  rewind-id : (now : ℕ) (m : Message P) → (rewind now m).id ≡ m.id
  unfolding rewind
  rewind-id now m = ground arith

  rewind_all-HasDistinctIds :
      (now : ℕ) (l : List (Message P)) → HasDistinctIds l → HasDistinctIds (rewind_all now l)
  unfolding rewind_all
  rewind_all-HasDistinctIds now [] h = tt
  rewind_all-HasDistinctIds now (m ∷ l) (h, hs) = (
    unfold rewind_all in
        subst (λ i. IsUnused i (rewind_all now l)) (sym (rewind-id now m))
          (rewind_all-IsUnused m.id now l h),
    rewind_all-HasDistinctIds now l hs,
  )

  rewind_all-IsWithinBudget :
      (now : ℕ) (l : List (Message P)) → IsWithinBudget l → IsWithinBudget (rewind_all now l)
  unfolding rewind_all
  rewind_all-IsWithinBudget now [] h = tt
  rewind_all-IsWithinBudget now (m ∷ l) (h, hs) = ground (arith, rewind_all-IsWithinBudget now l hs)

  pub find-id :
      (id : Text) (l : List (Message P)) (m : Message P) → find (has_id id) l ≡ some m → m.id ≡ id
  find-id id [] m e = absurd (cc)
  find-id id (x ∷ l) m e = ground (arith, text_eq_iff x.id id, find-id id l m)

  bumped_head :
      (l : List (Message P)) (x m : Message P)
      → x ≡ m
      → m.retries < m.max_retries
      → IsUnused x.id l
      → IsWithinBudget l
      → IsWithinBudget (modify m.id bump (x ∷ l))
  unfolding modify
  bumped_head l x m same h d b = (
    ground (
      arith,
      text_eq_iff x.id m.id,
      ap (λ (y : Message P). y.id) same,
      ap (λ (y : Message P). y.retries) same,
      ap (λ (y : Message P). y.max_retries) same,
    ),
    subst IsWithinBudget
        (sym (modify_unused m.id bump l (subst (λ (y : Message P). IsUnused y.id l) same d))) b,
  )

  bump-IsWithinBudget :
      (id : Text) (l : List (Message P)) (m : Message P)
      → find (has_id id) l ≡ some m
      → m.retries < m.max_retries
      → HasDistinctIds l
      → IsWithinBudget l
      → IsWithinBudget (modify m.id bump l)
  unfolding modify
  bump-IsWithinBudget id [] m e h d b = tt
  bump-IsWithinBudget id (x ∷ l) m e h (d, ds) (b, bs) = elim (Bool-cases (text_eq x.id id)) [
    | inl here ↦ let same : x ≡ m = ground arith in bumped_head l x m same h d bs
    | inr other ↦
        let e' : find (has_id id) l ≡ some m = ground arith in
        ground (
          arith,
          text_eq_iff x.id m.id,
          text_eq_iff x.id id,
          find-id id l m e',
          bump-IsWithinBudget id l m e' h ds bs,
        )
  ]

  abbrev pub IsSound : List (Message P) → Type 0
  IsSound l = HasDistinctIds l × IsWithinBudget l

  IsSound-IsClosed : IsClosed IsSound
  IsSound-IsClosed = record {
    modified =
        λ id f l k (d, b). (modify-HasDistinctIds id f k.id l d, modify-IsWithinBudget id f k l b);
    rewound =
        λ now l (d, b). (rewind_all-HasDistinctIds now l d, rewind_all-IsWithinBudget now l b);
  }

  -- The id that a call draws is not in the queue.
  abbrev pub IsUnclaimed : Command P → List (Message P) → Type 0
  IsUnclaimed (enqueues user event payload options id now) l = IsUnused id l
  IsUnclaimed (sends user socket emit event payload id now) l = IsUnused id l
  IsUnclaimed call l = Unit

  -- `randomUUID` draws an id that no queue holds.
  abbrev pub DrawsFreshId : Command P → Service P → Type 0
  DrawsFreshId call s = (v : Text) → IsUnclaimed call (queue_of v s)

  abbrev pub AllDrawFreshIds : Config → List (Command P) → Service P → Type 0
  AllDrawFreshIds c [] s = Unit
  AllDrawFreshIds c (call ∷ calls) s = DrawsFreshId call s × AllDrawFreshIds c calls (step c call s)

  append-HasDistinctIds :
      (m : Message P) (l : List (Message P))
      → IsUnused m.id l
      → HasDistinctIds l
      → HasDistinctIds (l ++ m ∷ [])
  append-HasDistinctIds m [] u d = (tt, tt)
  append-HasDistinctIds m (x ∷ l) (u, us) (d, ds) = (
    All-append (λ y. y.id ≢ x.id) l (m ∷ []) d ((λ e. u (sym e)), tt),
    append-HasDistinctIds m l us ds,
  )

  append-IsSound :
      (m : Message P) (id : Text) (l : List (Message P))
      → m.id ≡ id
      → m.retries ≡ 0
      → IsSound l × IsUnused id l
      → IsSound (l ++ m ∷ [])
  append-IsSound m id l named zeroed ((d, b), u) = (
    append-HasDistinctIds m l (subst (λ i. IsUnused i l) (sym named) u) d,
    All-append (λ x. x.retries ≤ x.max_retries) l (m ∷ []) b (omega arith, tt),
  )

  abbrev IsReady : Command P → List (Message P) → Type 0
  IsReady call l = IsSound l × IsUnclaimed call l

  IsReady-shift :
      (call : Command P) (m : Message P) (l : List (Message P))
      → IsReady call (m ∷ l)
      → IsReady call l
  IsReady-shift (enqueues user event payload options id now) m l ((d, b), u) = ((d.1, b.1), u.1)
  IsReady-shift (sends user socket emit event payload id now) m l ((d, b), u) = ((d.1, b.1), u.1)
  IsReady-shift call m l ((d, b), u) = ((d.1, b.1), tt)

  appendable : (c : Config) (call : Command P) → IsAppendable c IsSound (IsReady call) call
  appendable c (enqueues user event payload options id now) =
      λ m l named zeroed k _. append-IsSound m id l named zeroed k
  appendable c (sends user socket emit event payload id now) =
      λ m l named zeroed k _. append-IsSound m id l named zeroed k
  appendable c call = tt

  step-IsSound :
      (c : Config) (call : Command P) (s : Service P)
      → DrawsFreshId call s
      → AllQueues IsSound s
      → AllQueues IsSound (step c call s)
  step-IsSound c call s fresh h =
      step-keeps c IsSound (IsReady call) IsSound-IsClosed (tt, tt) (IsReady-shift call) call s
        (λ id l k. (
          remove_first-HasDistinctIds id l k.0,
          remove_first-All (λ x. x.retries ≤ x.max_retries) id l k.1,
        ))
        (appendable c call)
        (λ u id m found below k. (
          modify-HasDistinctIds m.id bump (λ x. refl) (queue_of u s) k.0,
          bump-IsWithinBudget id (queue_of u s) m found below k.0 k.1,
        ))
        (λ v. (h v, fresh v)) h

  pub run-IsSound :
      (c : Config) (calls : List (Command P)) (s : Service P)
      → AllDrawFreshIds c calls s
      → AllQueues IsSound s
      → AllQueues IsSound (run c calls s)
  unfolding run
  run-IsSound c [] s fresh h = h
  run-IsSound c (call ∷ calls) s (fresh, later) h =
      run-IsSound c calls (step c call s) later (step-IsSound c call s fresh h)

  -- After any calls and timeouts from a fresh service whose drawn ids are unused, the retry counter of
  -- every message of every queue is at most `max_retries`, and no two messages of a queue share an id.
  -- Each further timeout either sends nothing, or sends the queued message of its id once: that had
  -- fewer retries than its `max_retries`, and its counter goes up by one.
  pub run-IsWithinBudget :
      (c : Config) (calls : List (Command P)) (user : Text)
      → AllDrawFreshIds c calls start
      → let s = run c calls start in
        IsWithinBudget (queue_of user s)
        × HasDistinctIds (queue_of user s)
        × ((id : Text) (now : ℕ)
            → ((handle_ack_timeout user id now s).emitted ≡ s.emitted)
              ⊎ IsResent user id s (handle_ack_timeout user id now s))
  run-IsWithinBudget c calls user fresh =
      let (distinct, within) =
        run-IsSound c calls start fresh (λ v. unfold start queue_of get in (tt, tt)) user in
      (within, distinct, λ id now. handle_ack_timeout-cases user id now (run c calls start))
