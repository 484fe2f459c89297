-- ===== src/MessageQueue/Reconnect.antt =====
-- Flushing: once per connection, and everything again after a reconnect.
use swift_chain_backend.Common.{
  ℕ, suc, ◌+◌, Bool, true, false, Option, some, List, [], ◌∷◌, Text, text_eq, not, text_eq_iff,
  text_eq_self, trim, trim-trim, is_empty, ◌≡◌, refl, arith, Bool-cases, inl, inr, All, length,
  ◌==◌, ◌||◌, get, get-put, ◌∙◌, if◌then◌else◌, ◌⊎◌, any, ◌&&◌,
}
use swift_chain_backend.MessageQueue.{
  Message, Service, in_flight, queue_of, modify, remove_first, deliver, attempted, acknowledge,
  update_message,
}
use swift_chain_backend.MessageQueue.Delivery.{
  flush, flush_step, flush_loop, same_connection, resolve_connection_id, connect,
}
use swift_chain_backend.MessageQueue.Views.{queue_of-update_message, queue_of-acknowledge}
use swift_chain_backend.MessageQueue.Closure.{sent}
use swift_chain_backend.MessageQueue.Keeps.{resolve_connection_id-queues}

same_connection_self : (conn : ℕ) → same_connection conn (some conn) ≡ true
unfolding same_connection
same_connection_self conn = ground arith

module _ {P : Type 0} where
  -- The flush counts the messages that are not on the connection yet.
  abbrev pub not_on : ℕ → List (Message P) → ℕ
  not_on conn [] = 0
  not_on conn (m ∷ l) =
      let rest = not_on conn l in
      if same_connection conn m.delivered_connection_id then rest else suc rest

  flush_step-count :
      (u emit : Text) (conn now : ℕ) (m : Message P) (r : Service P × ℕ)
      → (flush_step u emit conn now m r).1
        ≡ (if same_connection conn m.delivered_connection_id then r.1 else r.1 + 1)
  unfolding flush_step
  flush_step-count u emit conn now m (s, n) = ground arith

  pub flush_loop-count :
      (u emit : Text) (conn now : ℕ) (l : List (Message P)) (r : Service P × ℕ)
      → (flush_loop u emit conn now l r).1 ≡ r.1 + not_on conn l
  unfolding flush_loop
  flush_loop-count u emit conn now [] r = omega arith
  flush_loop-count u emit conn now (m ∷ l) r = ground (
    arith,
    flush_step-count u emit conn now m r,
    flush_loop-count u emit conn now l (flush_step u emit conn now m r),
  )

  abbrev is_on : ℕ → Message P → Bool
  is_on conn m = same_connection conn m.delivered_connection_id

  -- Every message is on the connection, or one of its id is still to be visited and is not.
  abbrev Covers : ℕ → List (Message P) → List (Message P) → Type 0
  Covers conn l q =
      All
        (λ x. (is_on conn x ≡ true) ⊎ (any (λ m. not (is_on conn m) && text_eq m.id x.id) l ≡ true))
        q

  Covers-weaken :
      (conn : ℕ) (m : Message P) (l q : List (Message P)) → Covers conn l q → Covers conn (m ∷ l) q
  Covers-weaken conn m l [] h = tt
  Covers-weaken conn m l (x ∷ q) (h, hs) = (ground arith, Covers-weaken conn m l q hs)

  Covers-self : (conn : ℕ) (q : List (Message P)) → Covers conn q q
  Covers-self conn [] = tt
  Covers-self conn (x ∷ q) =
      (ground (arith, text_eq_self x.id), Covers-weaken conn x q q (Covers-self conn q))

  Covers-skip :
      (conn : ℕ) (m : Message P) (l q : List (Message P))
      → is_on conn m ≡ true
      → Covers conn (m ∷ l) q
      → Covers conn l q
  Covers-skip conn m l [] on h = tt
  Covers-skip conn m l (x ∷ q) on (h, hs) = (ground arith, Covers-skip conn m l q on hs)

  Covers-modify :
      (conn : ℕ) (m : Message P) (f : Message P → Message P) (l q : List (Message P))
      → ((x : Message P) → is_on conn (f x) ≡ true)
      → Covers conn (m ∷ l) q
      → Covers conn l (modify m.id f q)
  unfolding modify
  Covers-modify conn m f l [] on h = tt
  Covers-modify conn m f l (x ∷ q) on (h, hs) = (
    ground (arith, on x, text_eq_iff x.id m.id, text_eq_iff m.id x.id),
    Covers-modify conn m f l q on hs,
  )

  Covers-remove_first :
      (conn : ℕ) (id : Text) (l q : List (Message P))
      → Covers conn l q
      → Covers conn l (remove_first id q)
  unfolding remove_first
  Covers-remove_first conn id l [] h = tt
  Covers-remove_first conn id l (x ∷ q) (h, hs) = elim (Bool-cases (text_eq x.id id)) [
    | inl here ↦ rw here hs
    | inr other ↦ rw other (h, Covers-remove_first conn id l q hs)
  ]

  Covers-end : (conn : ℕ) (q : List (Message P)) → Covers conn [] q → not_on conn q ≡ 0
  Covers-end conn [] h = refl
  Covers-end conn (x ∷ q) (h, hs) = ground (arith, Covers-end conn q hs)

  -- What a delivery leaves of its own user's queue.
  queue_of-deliver :
      (u : Text) (m : Message P) (emit : Text) (conn now : ℕ) (s : Service P)
      → trim u ≡ u
      → is_empty u ≡ false
      → queue_of u (deliver u m emit (some conn) now s) ≡ (
          if m.ack_required
          then modify m.id
              (λ x. record (attempted now (some conn) x) { status = in_flight })
              (queue_of u s)
          else remove_first m.id (modify m.id (attempted now (some conn)) (queue_of u s)))
  unfolding deliver
  queue_of-deliver u m emit conn now s tu e = elim (Bool-cases m.ack_required) [
    | inl ack ↦ rw ack (
        unfold queue_of in
        rw (queue_of-update_message u u m.id _ (sent emit u m s), text_eq_self u))
    | inr free ↦ rw free (
        queue_of-acknowledge u u m.id _ (rw tu e)
        ∙ rw
            (
              tu,
              text_eq_self u,
              queue_of-update_message u u m.id (attempted now (some conn)) (sent emit u m s),
              text_eq_self u,
            )
            (unfold queue_of in refl))
  ]

  Covers-flush_step :
      (u emit : Text) (conn now : ℕ) (m : Message P) (l : List (Message P)) (r : Service P × ℕ)
      → trim u ≡ u
      → is_empty u ≡ false
      → Covers conn (m ∷ l) (queue_of u r.0)
      → Covers conn l (queue_of u (flush_step u emit conn now m r).0)
  unfolding flush_step attempted
  Covers-flush_step u emit conn now m l (s, n) tu e h = elim (Bool-cases (is_on conn m)) [
    | inl on ↦ rw on (Covers-skip conn m l (queue_of u s) on h)
    | inr off ↦
        rw (off, queue_of-deliver u m emit conn now s tu e) (delivered (Bool-cases m.ack_required))
  ]
    where
      delivered :
          (m.ack_required ≡ true) ⊎ (m.ack_required ≡ false)
          → Covers conn l (
              if m.ack_required
              then modify m.id
                  (λ x. record (attempted now (some conn) x) { status = in_flight })
                  (queue_of u s)
              else remove_first m.id (modify m.id (attempted now (some conn)) (queue_of u s)))
      delivered (inl ack) =
          rw ack (Covers-modify conn m _ l (queue_of u s) (λ x. same_connection_self conn) h)
      delivered (inr free) = rw free (
          Covers-remove_first conn m.id l _
            (Covers-modify conn m _ l (queue_of u s) (λ x. same_connection_self conn) h))

  flush_loop-settles :
      (u emit : Text) (conn now : ℕ) (l : List (Message P)) (r : Service P × ℕ)
      → trim u ≡ u
      → is_empty u ≡ false
      → Covers conn l (queue_of u r.0)
      → not_on conn (queue_of u (flush_loop u emit conn now l r).0) ≡ 0
  unfolding flush_loop
  flush_loop-settles u emit conn now [] r tu e h = Covers-end conn (queue_of u r.0) h
  flush_loop-settles u emit conn now (m ∷ l) r tu e h =
      flush_loop-settles u emit conn now l (flush_step u emit conn now m r) tu e
        (Covers-flush_step u emit conn now m l r tu e h)

  flush_loop_idle :
      (u emit : Text) (conn now : ℕ) (l : List (Message P)) (r : Service P × ℕ)
      → not_on conn l ≡ 0
      → flush_loop u emit conn now l r ≡ r
  unfolding flush_loop flush_step
  flush_loop_idle u emit conn now [] r h = refl
  flush_loop_idle u emit conn now (m ∷ l) (s, n) h = elim (Bool-cases (is_on conn m)) [
    | inl on ↦ rw on (flush_loop_idle u emit conn now l (s, n) (ground arith))
    | inr off ↦ absurd (ground arith)
  ]

  deliver-connection_ids :
      (u : Text) (m : Message P) (emit : Text) (conn : Option ℕ) (now : ℕ) (s : Service P)
      → (deliver u m emit conn now s).connection_ids ≡ s.connection_ids
  unfolding deliver acknowledge update_message
  deliver-connection_ids u m emit conn now s = ground arith

  flush_step-connection_ids :
      (u emit : Text) (conn now : ℕ) (m : Message P) (r : Service P × ℕ)
      → (flush_step u emit conn now m r).0.connection_ids ≡ r.0.connection_ids
  unfolding flush_step
  flush_step-connection_ids u emit conn now m (s, n) =
      ground (arith, deliver-connection_ids u m emit (some conn) now s)

  flush_loop-connection_ids :
      (u emit : Text) (conn now : ℕ) (l : List (Message P)) (r : Service P × ℕ)
      → (flush_loop u emit conn now l r).0.connection_ids ≡ r.0.connection_ids
  unfolding flush_loop
  flush_loop-connection_ids u emit conn now [] r = refl
  flush_loop-connection_ids u emit conn now (m ∷ l) r =
      flush_loop-connection_ids u emit conn now l (flush_step u emit conn now m r)
      ∙ flush_step-connection_ids u emit conn now m r

  resolve_known :
      (owner : Text) (s : Service P)
      → get owner (resolve_connection_id owner s).1.connection_ids
        ≡ some (resolve_connection_id owner s).0
  unfolding resolve_connection_id
  resolve_known owner s =
      ground
        (arith, get-put owner owner (suc s.connection_seq) s.connection_ids, text_eq_self owner)

  resolve_again :
      (owner : Text) (s : Service P) (conn : ℕ)
      → get owner s.connection_ids ≡ some conn
      → resolve_connection_id owner s ≡ (conn, s)
  unfolding resolve_connection_id
  resolve_again owner s conn h = rw (h, resolve_connection_id)

  pub busy_flush :
      (u emit owner : Text) (now : ℕ) (s : Service P)
      → (is_empty (trim u) || length (queue_of (trim u) s) == 0) ≡ false
      → let (conn, s') = resolve_connection_id owner s in
        flush u emit (some owner) now s
        ≡ flush_loop (trim u) emit conn now (queue_of (trim u) s) (connect (trim u) emit conn s', 0)
  unfolding flush
  busy_flush u emit owner now s busy = rw busy

  pub idle_flush :
      (u emit owner : Text) (now : ℕ) (s : Service P)
      → (is_empty (trim u) || length (queue_of (trim u) s) == 0) ≡ true
      → flush u emit (some owner) now s ≡ (s, 0)
  unfolding flush
  idle_flush u emit owner now s idle = rw idle

  connected-queue_of :
      (u v emit owner : Text) (conn : ℕ) (s : Service P)
      → queue_of v (connect u emit conn (resolve_connection_id owner s).1) ≡ queue_of v s
  unfolding connect queue_of
  connected-queue_of u v emit owner conn s = rw (resolve_connection_id-queues owner s)

  -- After a flush, every message that is left is on the owner's connection.
  flush_settles :
      (u emit owner : Text) (now : ℕ) (s : Service P)
      → (is_empty (trim u) || length (queue_of (trim u) s) == 0) ≡ false
      → not_on
          (resolve_connection_id owner s).0
          (queue_of (trim u) (flush u emit (some owner) now s).0)
        ≡ 0
  flush_settles u emit owner now s busy =
      let conn = (resolve_connection_id owner s).0 in
      rw (busy_flush u emit owner now s busy) (
        flush_loop-settles (trim u) emit conn now (queue_of (trim u) s) _ (trim-trim u)
          (ground arith)
          (rw (connected-queue_of (trim u) (trim u) emit owner conn s)
            (Covers-self conn (queue_of (trim u) s))))

  flush-remembers :
      (u emit owner : Text) (now : ℕ) (s : Service P)
      → (is_empty (trim u) || length (queue_of (trim u) s) == 0) ≡ false
      → get owner (flush u emit (some owner) now s).0.connection_ids
        ≡ some (resolve_connection_id owner s).0
  unfolding connect
  flush-remembers u emit owner now s busy =
      let conn = (resolve_connection_id owner s).0 in
      rw (busy_flush u emit owner now s busy) (
        rw (flush_loop-connection_ids (trim u) emit conn now (queue_of (trim u) s) _)
          (resolve_known owner s))

  flush_settled :
      (u emit owner : Text) (now conn : ℕ) (s : Service P)
      → get owner s.connection_ids ≡ some conn
      → not_on conn (queue_of (trim u) s) ≡ 0
      → ((flush u emit (some owner) now s).1 ≡ 0)
        × ((flush u emit (some owner) now s).0.emitted ≡ s.emitted)
        × ((flush u emit (some owner) now s).0.queues ≡ s.queues)
  unfolding flush connect
  flush_settled u emit owner now conn s known settled =
      elim (Bool-cases (is_empty (trim u) || length (queue_of (trim u) s) == 0)) [
        | inl idle ↦ rw (idle_flush u emit owner now s idle) (refl, refl, refl)
        | inr busy ↦ rw (busy_flush u emit owner now s busy) (
            rw
              (
                resolve_again owner s conn known,
                flush_loop_idle (trim u) emit conn now (queue_of (trim u) s)
                    (connect (trim u) emit conn s, 0) settled,
              )
              (refl, refl, refl))
      ]

  -- A second flush for the same user and owner delivers nothing: it returns 0, emits nothing and
  -- leaves every queue as it was, whatever emitter it is given.
  pub flush_idempotent :
      (user emit emit' owner : Text) (now now' : ℕ) (s : Service P)
      → let first = (flush user emit (some owner) now s).0 in
        let second = flush user emit' (some owner) now' first in
        (second.1 ≡ 0) × (second.0.emitted ≡ first.emitted) × (second.0.queues ≡ first.queues)
  flush_idempotent u emit emit' owner now now' s =
      elim (Bool-cases (is_empty (trim u) || length (queue_of (trim u) s) == 0)) [
        | inl idle ↦
            rw (idle_flush u emit owner now s idle, idle_flush u emit' owner now' s idle)
              (refl, refl, refl)
        | inr busy ↦
            flush_settled u emit' owner now' (resolve_connection_id owner s).0
              (flush u emit (some owner) now s).0 (flush-remembers u emit owner now s busy)
              (flush_settles u emit owner now s busy)
      ]
