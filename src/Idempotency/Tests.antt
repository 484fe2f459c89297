-- ===== src/Idempotency/Tests.antt =====
-- Runs of the middleware on stores in memory, and its theorems at concrete inputs.
use swift_chain_backend.Common.{
  ℕ, ◌*◌, Option, none, some, [], ◌∷◌, Text, codes, text_eq, trim, trim_start, is_space, Dict, get,
  put, get-put, ◌≡◌, ◌≢◌, refl,
}
use swift_chain_backend.Idempotency.Backends.{Cache}
use swift_chain_backend.Database.Keyed.{memory_records, find_pair, refused, inserted, changed}
use swift_chain_backend.Idempotency.{
  Payload, in_progress, Link, not_ready, answers, works, Stores, redis_key, get_record,
  get_from_redis, get_from_mongo, mark_processing, mark_in_mongo, set_in_mongo, mark_completed,
  mark_failed, set_in_redis, update_in_mongo,
}
use swift_chain_backend.Idempotency.Middleware.{
  replays, proceeds, replay, admit, require_key, is_usable, endpoint_of, strip_slashes, persist,
  is_success,
}
use swift_chain_backend.Idempotency.Once.{admits_once, admits_twice}
use swift_chain_backend.Idempotency.Replay.{outcome, admit-persist}

module _ {V : Type 0} where
  unfoldable nx : Text → V → Dict V → Option V → Option (Dict V)
  nx k v s none = some (put k v s)
  nx k v s (some w) = none

  abbrev memory_cache : Cache V
  memory_cache = record {
    State = Dict V;
    lookup = get;
    set_ex = put;
    set_nx = λ k v s. nx k v s (get k s);
    lookup-set_ex = λ k j v s. get-put k j v s;
    set_nx_free = λ k v s e. unfold nx in rw e refl;
    set_nx_taken = λ k v w s e. unfold nx in rw e refl;
  }
  -- Records by key and endpoint.

machine : Unit {0}
unfolding admit mark_processing mark_in_mongo set_in_mongo get_record get_from_redis get_from_mongo
    replay redis_key get put text_eq trim trim_start is_space require_key is_usable endpoint_of
    strip_slashes persist is_success mark_completed mark_failed set_in_redis update_in_mongo nx
    find_pair inserted refused changed
machine = tt

abbrev on : Link
on = record { redis = answers; mongo = works }

abbrev off : Link
off = record { redis = not_ready; mongo = works }

abbrev key : Text
key = codes "k1"

abbrev endpoint : Text
endpoint = codes "POST:/pay"

abbrev nothing : Stores (memory_cache {V = Payload ℕ}) memory_records
nothing = record { redis = []; mongo = [] }

abbrev alone :
    ℕ
    → Stores (memory_cache {V = Payload ℕ}) memory_records
    → Stores (memory_cache {V = Payload ℕ}) memory_records
alone n s = s

abbrev marked_there : Stores (memory_cache {V = Payload ℕ}) memory_records
marked_there = record {
  redis = (codes "idempotency:POST:/pay:k1", in_progress) ∷ [];
  mongo = ((key, endpoint), in_progress) ∷ [];
}

goes_on :
    admit 0 (memory_cache {V = Payload ℕ}) memory_records (λ n. on) alone key endpoint nothing
    ≡ (proceeds, marked_there)
unfolding machine
goes_on = refl

-- The second request looks before the first one's marker is there, and marks after it.
admits_once_example :
    (admit 0
      (memory_cache {V = Payload ℕ})
      memory_records
      (λ n. on)
      (λ n t. marked_there)
      key
      endpoint
      nothing).0
    ≢ proceeds
admits_once_example =
    admits_once 0 (memory_cache {V = Payload ℕ}) memory_records (λ n. on) (λ n. on) alone
      (λ n t. marked_there) key endpoint nothing marked_there nothing refl refl goes_on refl

admits_twice_example :
    let second =
      admit 0
        (memory_cache {V = Payload ℕ})
        memory_records
        (λ n. off)
        (λ n t. t)
        key
        endpoint
        nothing in
    let first =
      admit 0
        (memory_cache {V = Payload ℕ})
        memory_records
        (λ n. off)
        (λ n t.
          (admit 0
            (memory_cache {V = Payload ℕ})
            memory_records
            (λ n. off)
            (λ n t. t)
            key
            endpoint
            t).1)
        key
        endpoint
        nothing in
    (second.0 ≡ proceeds) × (first.0 ≡ proceeds)
admits_twice_example =
    admits_twice 0 (memory_cache {V = Payload ℕ}) memory_records off key endpoint nothing refl refl
      (unfold find_pair in refl)

abbrev in_redis : ℕ → Option ℕ
in_redis body = some body

abbrev in_mongo : ℕ → Option ℕ
in_mongo body = some (body * 10)

admit-persist_example :
    let t =
      persist 0
        (memory_cache {V = Payload ℕ})
        memory_records
        in_redis
        in_mongo
        on
        key
        endpoint
        201
        7
        marked_there in
    admit 0 (memory_cache {V = Payload ℕ}) memory_records (λ n. off) alone key endpoint t
    ≡ (replays (outcome 201) 201 70, t)
admit-persist_example =
    admit-persist 0 (memory_cache {V = Payload ℕ}) memory_records in_redis in_mongo (λ n. on)
      (λ n. off) alone alone on key endpoint 201 7 nothing marked_there refl goes_on refl refl refl
