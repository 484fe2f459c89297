-- ===== src/MessageQueue/Eviction.antt =====
-- The eviction loop of `enqueue`: it ends, makes room for one message, and drops the oldest only.
use swift_chain_backend.Common.{
  ℕ, zero, suc, ◌+◌, ◌≤◌, ◌<◌, false, none, some, List, [], ◌∷◌, ◌++◌, leb, leb→le, length, drop,
  ◌-◌, Text, text_eq, trim, put, get-put, ◌≡◌, refl, ap, subst, ◌∙◌, arith, Bool-cases,
  Option-cases, inl, inr,
}
use swift_chain_backend.MessageQueue.{
  Message, Config, Service, EnqueueOptions, queued, evict, clear_timer, shift, clear_head, queue_of,
  enqueue, new_message,
}
use swift_chain_backend.MessageQueue.Closure.{AllQueues}

unfilled : (n bound : ℕ) → n < bound → leb bound n ≡ false
unfilled n bound h = ground arith

all_fit : (n bound : ℕ) → n < bound → n + 1 - bound ≡ 0
all_fit n bound h = omega arith

one_more : (n bound : ℕ) → bound ≤ suc n → suc n + 1 - bound ≡ suc (n + 1 - bound)
one_more n bound h = omega arith

module _ {P : Type 0} where
  -- With room for at least one message, fuel above the length of the queue is enough, and the
  -- oldest messages go until one more fits.
  pub evict-drop :
      (fuel bound : ℕ) (u : Text) (q : List (Message P)) (t : List (Text × Text))
      → 0 < bound
      → length q < fuel
      → (t' : List (Text × Text)) × (evict fuel bound u q t
          ≡ some (drop (length q + 1 - bound) q, t'))
  unfolding evict
  evict-drop zero bound u q t p h = absurd (omega arith)
  evict-drop (suc fuel) bound u [] t p h = (t, rw (unfilled 0 bound p, all_fit 0 bound p))
  evict-drop (suc fuel) bound u (m ∷ q) t p h = elim (Bool-cases (leb bound (suc (length q)))) [
    | inl full ↦
        let (t', e) = evict-drop fuel bound u q (clear_timer u m.id t) p (omega arith) in
        (t', rw (full, e, one_more (length q) bound (leb→le _ _ full)))
    | inr room ↦ (t, rw (room, all_fit (suc (length q)) bound (ground arith)))
  ]

  -- With no message allowed the loop never ends: no fuel is enough.
  pub evict_diverges :
      (fuel : ℕ) (u : Text) (q : List (Message P)) (t : List (Text × Text))
      → evict fuel 0 u q t ≡ none
  unfolding evict
  evict_diverges zero u q t = refl
  evict_diverges (suc fuel) u q t =
      ground (arith, evict_diverges fuel u (shift q) (clear_head u q t))

  pub evict_room :
      (fuel bound : ℕ) (u : Text) (q : List (Message P)) (t : List (Text × Text))
      (q' : List (Message P)) (t' : List (Text × Text))
      → evict fuel bound u q t ≡ some (q', t')
      → length q' < bound
  unfolding evict
  evict_room zero bound u q t q' t' e = absurd (cc)
  evict_room (suc fuel) bound u q t q' t' e =
      ground (arith, evict_room fuel bound u (shift q) (clear_head u q t) q' t')

module _ {P : Type 0} where
  -- A successful `enqueue` appends its message to what the eviction leaves.
  pub enqueue-eq-queued :
      (c : Config) (u event : Text) (payload : P) (options : EnqueueOptions) (id : Text) (now : ℕ)
      (s : Service P) (m : Message P) (s' : Service P)
      → enqueue c u event payload options id now s ≡ queued m s'
      → (q : List (Message P)) × (t : List (Text × Text)) × (evict
            (suc (length (queue_of (trim u) s)))
            c.max_queue_size
            (trim u)
            (queue_of (trim u) s)
            s.timers
          ≡ some (q, t))
        × (m ≡ new_message c (trim u) event payload options id now)
        × (s' ≡ record s { queues = put (trim u) (q ++ m ∷ []) s.queues; timers = t })
  unfolding enqueue
  enqueue-eq-queued c u event payload options id now s m s' e =
      elim (Option-cases (
        evict (suc (length (queue_of (trim u) s))) c.max_queue_size (trim u) (queue_of (trim u) s)
          s.timers)) [
            | inl out ↦ absurd (ground arith)
            | inr ((q, t), found) ↦ (q, t, found, ground arith, ground arith)
          ]

module _ {P : Type 0} (I : List (Message P) → Type 0) where
  abbrev pub IsShiftClosed : Type 0
  IsShiftClosed = (m : Message P) (l : List (Message P)) → I (m ∷ l) → I l

  keeps_shift : IsShiftClosed → (q : List (Message P)) → I q → I (shift q)
  keeps_shift dropped [] h = h
  keeps_shift dropped (m ∷ q) h = dropped m q h

  pub evict-keeps :
      (fuel bound : ℕ) (u : Text) (q : List (Message P)) (t : List (Text × Text))
      (q' : List (Message P)) (t' : List (Text × Text))
      → IsShiftClosed
      → evict fuel bound u q t ≡ some (q', t')
      → I q
      → I q'
  unfolding evict
  evict-keeps zero bound u q t q' t' dropped e h = absurd (cc)
  evict-keeps (suc fuel) bound u q t q' t' dropped e h = elim (Bool-cases (leb bound (length q))) [
    | inl full ↦
        evict-keeps fuel bound u (shift q) (clear_head u q t) q' t' dropped (ground arith)
          (keeps_shift dropped q h)
    | inr room ↦ subst I (ground arith) h
  ]

module _ {P : Type 0} (I J : List (Message P) → Type 0) where
  pub enqueue-keeps :
      (c : Config) (u event : Text) (payload : P) (options : EnqueueOptions) (id : Text) (now : ℕ)
      (s : Service P) (m : Message P) (s' : Service P)
      → IsShiftClosed J
      → ((l : List (Message P))
          → m.id ≡ id
          → m.retries ≡ 0
          → J l
          → length l < c.max_queue_size
          → I (l ++ m ∷ []))
      → enqueue c u event payload options id now s ≡ queued m s'
      → J (queue_of (trim u) s)
      → AllQueues I s
      → AllQueues I s'
  unfolding queue_of
  enqueue-keeps c u event payload options id now s m s' dropped added e j h v =
      let (q, t, evicted, built, stored) =
        enqueue-eq-queued c u event payload options id now s m s' e in
      let old = queue_of (trim u) s in
      let kept = evict-keeps J _ _ (trim u) old s.timers q t dropped evicted j in
      let room = evict_room _ _ (trim u) old s.timers q t evicted in
      let named : m.id ≡ id = ap (λ (x : Message P). x.id) built ∙ (unfold new_message in refl) in
      let fresh : m.retries ≡ 0 =
        ap (λ (x : Message P). x.retries) built ∙ (unfold new_message in refl) in
      elim (Bool-cases (text_eq (trim u) v)) [
        | inl same ↦
            rw (stored, get-put (trim u) v (q ++ m ∷ []) s.queues, same)
              (added q named fresh kept room)
        | inr other ↦ rw (stored, get-put (trim u) v (q ++ m ∷ []) s.queues, other) (h v)
      ]
