-- ===== src/Idempotency/Once.antt =====
-- Whether two requests with one key can both reach the route's handler.
use swift_chain_backend.Common.{
  ℕ, none, some, Text, text_eq_self, ◌≡◌, ◌≢◌, refl, ◌∙◌, arith, Option-cases, inl, inr,
}
use swift_chain_backend.Idempotency.Backends.{Cache}
use swift_chain_backend.Database.Keyed.{Records}
use swift_chain_backend.Idempotency.{
  Payload, in_progress, Link, not_ready, answers, works, conflict, Stores, redis_key, get_record,
  get_from_redis, get_from_mongo, mark_processing, mark_in_mongo, set_in_mongo,
}
use swift_chain_backend.Idempotency.Middleware.{proceeds, replay, admit}

replay_refuses : {B : Type 0} (empty : B) (p : Payload B) → replay empty p ≢ proceeds
unfolding replay
replay_refuses empty p = ground arith

module _ {B : Type 0} (empty : B) (cache : Cache (Payload B)) (records : Records (Payload B)) where
  open cache use {lookup, set_nx, set_ex, lookup-set_ex, set_nx_free, set_nx_taken}

  mark_taken :
      (link : Link) (key endpoint : Text) (s : Stores cache records) (p : Payload B)
      → link.redis ≡ answers
      → lookup (redis_key key endpoint) s.redis ≡ some p
      → mark_processing cache records link key endpoint s ≡ (some conflict, s)
  unfolding mark_processing
  mark_taken link key endpoint s p up there =
      ground (arith, set_nx_taken (redis_key key endpoint) in_progress p s.redis there)

  mark_free :
      (link : Link) (key endpoint : Text) (s : Stores cache records)
      → link.redis ≡ answers
      → lookup (redis_key key endpoint) s.redis ≡ none
      → mark_processing cache records link key endpoint s ≡ (
        none,
        record {
          redis = set_ex (redis_key key endpoint) in_progress s.redis;
          mongo = set_in_mongo cache records link.mongo key endpoint s.mongo;
        },
      )
  unfolding mark_processing
  mark_free link key endpoint s up free =
      ground (arith, set_nx_free (redis_key key endpoint) in_progress s.redis free)

  -- A request that proceeds has found no record and has put its marker.
  pub proceeds_cases :
      (net : ℕ → Link) (others : ℕ → Stores cache records → Stores cache records)
      (key endpoint : Text) (s s' : Stores cache records)
      → admit empty cache records net others key endpoint s ≡ (proceeds, s')
      → (get_record cache records (net 0) key endpoint s ≡ some none)
        × (mark_processing cache records (net 1) key endpoint (others 0 s) ≡ (none, s'))
  unfolding admit
  proceeds_cases net others key endpoint s s' e =
      elim (Option-cases (get_record cache records (net 0) key endpoint s)) [
        | inl broken ↦ absurd (ground arith)
        | inr (found, there) ↦ elim (Option-cases found) [
          | inr (p, is) ↦ absurd (ground (arith, replay_refuses empty p))
          | inl absent ↦
              elim (Option-cases
                (mark_processing cache records (net 1) key endpoint (others 0 s)).0) [
                  | inl marks ↦ (ground arith, ground arith)
                  | inr (why, fails) ↦ absurd (ground arith)
                ]
        ]
      ]

  -- A request that proceeded with Redis up has left its marker there.
  marker :
      (net : ℕ → Link) (others : ℕ → Stores cache records → Stores cache records)
      (key endpoint : Text) (s s' : Stores cache records)
      → (net 1).redis ≡ answers
      → admit empty cache records net others key endpoint s ≡ (proceeds, s')
      → lookup (redis_key key endpoint) s'.redis ≡ some in_progress
  marker net others key endpoint s s' up e =
      let (absent, marks) = proceeds_cases net others key endpoint s s' e in
      elim (Option-cases (lookup (redis_key key endpoint) (others 0 s).redis)) [
        | inl free ↦ ground (
          arith,
          mark_free (net 1) key endpoint (others 0 s) up free,
          lookup-set_ex (redis_key key endpoint) (redis_key key endpoint) in_progress
              (others 0 s).redis,
          text_eq_self (redis_key key endpoint),
        )
        | inr (p, there) ↦
            absurd (ground (arith, mark_taken (net 1) key endpoint (others 0 s) p up there))
      ]

  -- If a request proceeds with Redis up, and Redis still holds its marker when a second request with
  -- the same key and endpoint, with Redis up too, comes to put its own, then that one does not
  -- proceed, even if it looked for a record before the first one's marker was there.
  pub admits_once :
      (net net' : ℕ → Link) (others others' : ℕ → Stores cache records → Stores cache records)
      (key endpoint : Text) (s s' t : Stores cache records)
      → (net 1).redis ≡ answers
      → (net' 1).redis ≡ answers
      → admit empty cache records net others key endpoint s ≡ (proceeds, s')
      → lookup (redis_key key endpoint) (others' 0 t).redis
        ≡ lookup (redis_key key endpoint) s'.redis
      → (admit empty cache records net' others' key endpoint t).0 ≢ proceeds
  admits_once net net' others others' key endpoint s s' t up up' first same second =
      let r = admit empty cache records net' others' key endpoint t in
      let (absent, marks) = proceeds_cases net' others' key endpoint t r.1 (ground arith) in
      absurd (
        ground (
          arith,
          mark_taken (net' 1) key endpoint (others' 0 t) in_progress up'
              (same ∙ marker net others key endpoint s s' up first),
        ))

  -- Without Redis, with MongoDB at work and no record of the key there, a request that runs alone
  -- proceeds. So do two requests with one key if the second runs wholly between the look and the write
  -- of the first: each of them proceeds.
  pub admits_twice :
      (link : Link) (key endpoint : Text) (s : Stores cache records)
      → link.redis ≡ not_ready
      → link.mongo ≡ works
      → records.find_one key endpoint s.mongo ≡ none
      → let second = admit empty cache records (λ n. link) (λ n t. t) key endpoint s in
        let first =
          admit empty cache records
            (λ n. link)
            (λ n t. (admit empty cache records (λ n. link) (λ n t. t) key endpoint t).1)
            key
            endpoint
            s in
        (second.0 ≡ proceeds) × (first.0 ≡ proceeds)
  unfolding admit mark_processing mark_in_mongo get_record get_from_redis get_from_mongo
  admits_twice link key endpoint s off on absent =
      (rw (off, on, absent) refl, rw (off, on, absent) refl)
