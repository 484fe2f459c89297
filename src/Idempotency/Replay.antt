-- ===== src/Idempotency/Replay.antt =====
-- What a later request with the same key gets, and which requests count as the same.
use swift_chain_backend.Common.{
  ℕ, leb, ltb, ◌&&◌, Option, none, some, [], ◌∷◌, ◌++◌, if◌then◌else◌, Text, codes, text_eq_self,
  ◌≡◌, ◌⊎◌, refl, sym, ap, ◌∙◌, append_assoc, arith, Option-cases, inl, inr,
}
use swift_chain_backend.Idempotency.Backends.{Cache}
use swift_chain_backend.Database.Keyed.{Records}
use swift_chain_backend.Idempotency.{
  Status, completed, failed, Payload, in_progress, Redis, Link, not_ready, throws, answers, works,
  unprocessable, Stores, redis_key, get_record, get_from_redis, get_from_mongo, mark_processing,
  mark_in_mongo, set_in_mongo, mark_completed, mark_failed, set_in_redis, update_in_mongo,
}
use swift_chain_backend.Idempotency.Middleware.{
  refuses, replays, proceeds, replay, admit, require_key, is_usable, endpoint_of, strip_slashes,
  slash, persist, is_success, or_default,
}
use swift_chain_backend.Idempotency.Once.{proceeds_cases}

-- The codes 200 to 299 complete a request.
abbrev pub outcome : ℕ → Status
outcome code = if leb 200 code && ltb code 300 then completed else failed

-- What is left of a body in the store that is looked at.
abbrev pub kept_by : {B : Type 0} → (via_redis via_mongo : B → Option B) → Redis → B → Option B
kept_by via_redis via_mongo answers body = via_redis body
kept_by via_redis via_mongo _ body = via_mongo body

Redis-cases : (r : Redis) → (r ≡ not_ready) ⊎ (r ≡ throws) ⊎ (r ≡ answers)
Redis-cases not_ready = inl refl
Redis-cases throws = inr (inl refl)
Redis-cases answers = inr (inr refl)

strip_slashes-slash : (s : Text) → strip_slashes (s ++ slash ∷ []) ≡ strip_slashes s
unfolding strip_slashes
strip_slashes-slash [] = refl
strip_slashes-slash (c ∷ s) = rw (strip_slashes-slash s) refl

strip_slashes-append :
    (prefix path : Text)
    → strip_slashes (prefix ++ (path ++ slash ∷ [])) ≡ strip_slashes (prefix ++ path)
strip_slashes-append prefix path =
    ap strip_slashes (sym (append_assoc prefix path (slash ∷ [])))
    ∙ strip_slashes-slash (prefix ++ path)

module _ {B : Type 0} (empty : B) (cache : Cache (Payload B)) (records : Records (Payload B))
    (via_redis via_mongo : B → Option B) where
  open cache use {lookup, set_nx, set_ex, lookup-set_ex}
  open records use {
    find_one, with_record, create, upsert, find_one-with_record, create_free, create_taken,
    upsert_free, upsert_taken, update_one_taken,
  }

  abbrev response : ℕ → Option B → Payload B
  response code body = record {
    status = outcome code;
    response_status = some code;
    response_body = body;
  }

  persisted :
      (link : Link) (key endpoint : Text) (code : ℕ) (body : B) (s : Stores cache records)
      → persist empty cache records via_redis via_mongo link key endpoint code body s
        ≡ update_in_mongo cache records link.mongo key endpoint
            (response code (via_mongo body))
            (set_in_redis cache records link.redis key endpoint (response code (via_redis body)) s)
  unfolding is_success persist mark_completed mark_failed
  persisted link key endpoint code body s = ground arith

  created_found :
      (key endpoint : Text) (m : records.State)
      → (p : Payload B) × (find_one key endpoint (set_in_mongo cache records works key endpoint m)
          ≡ some p)
  unfolding set_in_mongo
  created_found key endpoint m = elim (Option-cases (find_one key endpoint m)) [
    | inl free ↦ (
      in_progress,
      ground (
        arith,
        create_free key endpoint in_progress m free,
        find_one-with_record key endpoint key endpoint in_progress m,
        text_eq_self key,
        text_eq_self endpoint,
      ),
    )
    | inr (p, there) ↦ (p, ground (arith, create_taken key endpoint in_progress p m there))
  ]

  upserted_found :
      (key endpoint : Text) (m : records.State)
      → (p : Payload B) × (find_one key endpoint (upsert key endpoint in_progress m) ≡ some p)
  upserted_found key endpoint m = elim (Option-cases (find_one key endpoint m)) [
    | inl free ↦ (
      in_progress,
      ground (
        arith,
        upsert_free key endpoint in_progress m free,
        find_one-with_record key endpoint key endpoint in_progress m,
        text_eq_self key,
        text_eq_self endpoint,
      ),
    )
    | inr (p, there) ↦ (p, ground (arith, upsert_taken key endpoint in_progress p m there))
  ]

  mark_found_in_mongo :
      (link : Link) (key endpoint : Text) (s s' : Stores cache records)
      → link.mongo ≡ works
      → mark_in_mongo cache records link.mongo key endpoint s ≡ (none, s')
      → (p : Payload B) × (find_one key endpoint s'.mongo ≡ some p)
  unfolding mark_in_mongo
  mark_found_in_mongo link key endpoint s s' on e =
      let (p, there) = upserted_found key endpoint s.mongo in (p, ground (arith, there))

  mark_found :
      (link : Link) (key endpoint : Text) (s s' : Stores cache records)
      → link.mongo ≡ works
      → mark_processing cache records link key endpoint s ≡ (none, s')
      → (p : Payload B) × (find_one key endpoint s'.mongo ≡ some p)
  unfolding mark_processing
  mark_found link key endpoint s s' on e =
      let (p, there) = created_found key endpoint s.mongo in
      elim (Redis-cases link.redis) [
        | inl off ↦ mark_found_in_mongo link key endpoint s s' on (ground arith)
        | inr (inl broken) ↦ mark_found_in_mongo link key endpoint s s' on (ground arith)
        | inr (inr up) ↦ (p, ground (arith, there))
      ]

  stored :
      (link : Link) (key endpoint : Text) (code : ℕ) (body : B) (s : Stores cache records)
      (p : Payload B)
      → link.redis ≡ answers
      → link.mongo ≡ works
      → find_one key endpoint s.mongo ≡ some p
      → let t = persist empty cache records via_redis via_mongo link key endpoint code body s in
        (lookup (redis_key key endpoint) t.redis ≡ some (response code (via_redis body)))
        × (find_one key endpoint t.mongo ≡ some (response code (via_mongo body)))
  unfolding set_in_redis update_in_mongo
  stored link key endpoint code body s p up on there =
      rw (persisted link key endpoint code body s, up, on)
        (
          ground (
            arith,
            lookup-set_ex (redis_key key endpoint) (redis_key key endpoint)
                (response code (via_redis body)) s.redis,
            text_eq_self (redis_key key endpoint),
          ),
          ground (
            arith,
            update_one_taken key endpoint (λ old. response code (via_mongo body)) p s.mongo there,
            find_one-with_record key endpoint key endpoint (response code (via_mongo body)) s.mongo,
            text_eq_self key,
            text_eq_self endpoint,
          ),
        )

  -- If a request proceeds with MongoDB at work, and its response is stored with Redis and MongoDB at
  -- work, then a request with the same key and endpoint that comes next, with no change to the stores
  -- in between, does not run the handler, whether Redis is up by then or not. It gets the same code and
  -- what the store it looks in kept of the body, or the empty body if that is nothing; the status header
  -- says `completed` for the codes 200 to 299 and `failed` for the others.
  pub admit-persist :
      (net net' : ℕ → Link) (others others' : ℕ → Stores cache records → Stores cache records)
      (link : Link) (key endpoint : Text) (code : ℕ) (body : B) (s s' : Stores cache records)
      → (net 1).mongo ≡ works
      → admit empty cache records net others key endpoint s ≡ (proceeds, s')
      → link.redis ≡ answers
      → link.mongo ≡ works
      → (net' 0).mongo ≡ works
      → let t = persist empty cache records via_redis via_mongo link key endpoint code body s' in
        let kept = kept_by via_redis via_mongo (net' 0).redis body in
        admit empty cache records net' others' key endpoint t
        ≡ (replays (outcome code) code (or_default kept empty), t)
  unfolding admit get_record get_from_redis get_from_mongo replay
  admit-persist net net' others others' link key endpoint code body s s' on first up on' later =
      let (absent, marks) = proceeds_cases empty cache records net others key endpoint s s' first in
      let (p, there) = mark_found (net 1) key endpoint (others 0 s) s' on marks in
      let (in_redis, in_mongo) = stored link key endpoint code body s' p up on' there in
      elim (Redis-cases (net' 0).redis) [
        | inl off ↦ ground (arith, in_mongo)
        | inr (inl broken) ↦ ground (arith, in_mongo)
        | inr (inr back) ↦ ground (arith, in_redis)
      ]

  -- A trailing slash of the path makes no difference: neither to what a request gets nor to the
  -- record that it leaves.
  pub require_key-slash :
      (net : ℕ → Link) (others : ℕ → Stores cache records → Stores cache records)
      (key : Option Text) (method path : Text) (s : Stores cache records)
      → require_key empty cache records net others key method (path ++ slash ∷ []) s
        ≡ require_key empty cache records net others key method path s
  unfolding require_key endpoint_of
  require_key-slash net others none method path s = refl
  require_key-slash net others (some key) method path s =
      ap
        (λ endpoint.
          if is_usable key
          then admit empty cache records net others key endpoint s
          else (refuses unprocessable, s))
        (strip_slashes-append (method ++ codes ":") path)
