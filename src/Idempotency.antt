-- ===== src/Idempotency.antt =====
-- src/services/idempotency.service.ts and src/models/IdempotencyRecord.ts: the record that a request
-- leaves under its `Idempotency-Key`, in Redis and in MongoDB. The lifetime of a record is not part of
-- the model: that a store drops one is a step of others. What a store gives back of a body that is put
-- there, by way of JSON in Redis and of BSON in MongoDB, is a parameter, with none for no body.
pub mod Backends
pub mod Middleware
pub mod Once
pub mod Replay
mod Tests
use swift_chain_backend.Common.{
  ℕ, Bool, true, false, Option, none, some, List, [], ◌∷◌, ◌++◌, if◌then◌else◌, Text, codes,
}
use swift_chain_backend.Idempotency.Backends.{Cache}
use swift_chain_backend.Database.Keyed.{Records}

pub data Status : Type 0 where
  processing completed failed : Status

pub record Payload (B : Type 0) : Type 0 where
  pub status : Status
  pub response_status : Option ℕ
  pub response_body : Option B

-- `isRedisReady()`, and whether the command then throws.
pub data Redis : Type 0 where
  not_ready throws answers : Redis

-- What becomes of a MongoDB command; only an upsert that races with another one meets the
-- duplicate-key error here.
pub data Mongo : Type 0 where
  works duplicate_key fails : Mongo

pub record Link : Type 0 where
  pub redis : Redis
  pub mongo : Mongo

-- The status of the error that reaches the client.
pub data Refusal : Type 0 where
  unprocessable conflict internal : Refusal

unfoldable pub redis_key : Text → Text → Text
redis_key key endpoint = codes "idempotency:" ++ endpoint ++ codes ":" ++ key

abbrev pub in_progress : {B : Type 0} → Payload B
in_progress = record { status = processing; response_status = none; response_body = none }

module _ {B : Type 0} (cache : Cache (Payload B)) (records : Records (Payload B)) where
  pub record Stores : Type 0 where
    pub redis : cache.State
    pub mongo : records.State

  unfoldable pub get_from_redis : Redis → Text → Text → Stores → Option (Payload B)
  get_from_redis answers key endpoint s = cache.lookup (redis_key key endpoint) s.redis
  get_from_redis _ key endpoint s = none

  unfoldable pub set_in_redis : Redis → Text → Text → Payload B → Stores → Stores
  set_in_redis answers key endpoint p s = record s {
    redis = cache.set_ex (redis_key key endpoint) p s.redis;
  }
  set_in_redis _ key endpoint p s = s

  unfoldable pub get_from_mongo : Mongo → Text → Text → Stores → Option (Option (Payload B))
  get_from_mongo works key endpoint s = some (records.find_one key endpoint s.mongo)
  get_from_mongo _ key endpoint s = none

  -- `get`: the outer `none` is an error of MongoDB, which is thrown on.
  unfoldable pub get_record : Link → Text → Text → Stores → Option (Option (Payload B))
  unfolding get_from_redis get_from_mongo
  get_record link key endpoint s = elim (get_from_redis link.redis key endpoint s) [
    | some p ↦ some (some p)
    | none ↦ get_from_mongo link.mongo key endpoint s
  ]

  -- The shadow write, whose errors are logged only.
  unfoldable pub set_in_mongo : Mongo → Text → Text → records.State → records.State
  set_in_mongo works key endpoint m = elim (records.create key endpoint in_progress m) [
    | none ↦ m
    | some m' ↦ m'
  ]
  set_in_mongo _ key endpoint m = m

  unfoldable pub mark_in_mongo : Mongo → Text → Text → Stores → Option Refusal × Stores
  mark_in_mongo works key endpoint s =
      (none, record s { mongo = records.upsert key endpoint in_progress s.mongo })
  mark_in_mongo duplicate_key key endpoint s = (some conflict, s)
  mark_in_mongo fails key endpoint s = (some internal, s)

  -- `markProcessing`: the refusal that it throws, if it does.
  unfoldable pub mark_processing : Link → Text → Text → Stores → Option Refusal × Stores
  unfolding set_in_mongo mark_in_mongo
  mark_processing link key endpoint s = elim link.redis [
    | answers ↦ elim (cache.set_nx (redis_key key endpoint) in_progress s.redis) [
      | none ↦ (some conflict, s)
      | some r ↦ (none, record { redis = r; mongo = set_in_mongo link.mongo key endpoint s.mongo })
    ]
    | throws ↦ mark_in_mongo link.mongo key endpoint s
    | not_ready ↦ mark_in_mongo link.mongo key endpoint s
  ]

  unfoldable pub update_in_mongo : Mongo → Text → Text → Payload B → Stores → Stores
  update_in_mongo works key endpoint p s = record s {
    mongo = records.update_one key endpoint (λ old. p) s.mongo;
  }
  update_in_mongo _ key endpoint p s = s

  unfoldable pub mark_completed :
      (via_redis via_mongo : B → Option B) → Link → Text → Text → ℕ → B → Stores → Stores
  unfolding set_in_redis update_in_mongo
  mark_completed via_redis via_mongo link key endpoint code body s =
      let p : Option B → Payload B =
        λ kept. record { status = completed; response_status = some code; response_body = kept } in
      update_in_mongo link.mongo key endpoint (p (via_mongo body))
        (set_in_redis link.redis key endpoint (p (via_redis body)) s)

  unfoldable pub mark_failed :
      (via_redis via_mongo : B → Option B) → Link → Text → Text → ℕ → B → Stores → Stores
  unfolding set_in_redis update_in_mongo
  mark_failed via_redis via_mongo link key endpoint code body s =
      let p : Option B → Payload B =
        λ kept. record { status = failed; response_status = some code; response_body = kept } in
      update_in_mongo link.mongo key endpoint (p (via_mongo body))
        (set_in_redis link.redis key endpoint (p (via_redis body)) s)
