-- ===== src/Idempotency/Middleware.antt =====
-- src/middlewares/idempotency.ts: `requireIdempotencyKey`. `others n` is what other requests do to the
-- stores at this one's n-th wait, `net n` how its n-th access of the stores fares.
use swift_chain_backend.Common.{
  ℕ, Bool, not, Option, none, some, [], ◌∷◌, ◌++◌, if◌then◌else◌, ◌&&◌, ◌||◌, ◌==◌, leb, ltb,
  length, Text, codes, trim, is_empty,
}
use swift_chain_backend.Idempotency.Backends.{Cache}
use swift_chain_backend.Database.Keyed.{Records}
use swift_chain_backend.Idempotency.{
  Status, processing, completed, failed, Payload, Link, Refusal, unprocessable, conflict, internal,
  Stores, get_record, mark_processing, mark_completed, mark_failed,
}

abbrev pub max_key_length : ℕ
max_key_length = 128

abbrev pub slash : ℕ
slash = b'/'

-- `.replace(/\/+$/, '')`
unfoldable pub strip_slashes : Text → Text
strip_slashes [] = []
strip_slashes (c ∷ s) =
    let rest = strip_slashes s in if c == slash && is_empty rest then [] else c ∷ rest

unfoldable pub endpoint_of : Text → Text → Text
endpoint_of method path = strip_slashes (method ++ codes ":" ++ path)

unfoldable pub is_usable : Text → Bool
is_usable key = not (is_empty key || is_empty (trim key) || ltb max_key_length (length key))

unfoldable pub is_success : ℕ → Bool
is_success code = leb 200 code && ltb code 300

pub data Answer (B : Type 0) : Type 0 where
  refuses : Refusal → Answer B
  -- the stored response, with the header `Idempotency-Key-Status`
  replays : Status → ℕ → B → Answer B
  -- the route's handler runs
  proceeds : Answer B

abbrev pub or_default {ℓ} : {A : Type ℓ} → Option A → A → A
or_default none d = d
or_default (some a) d = a

-- `{}` is the body that stands for a missing one.
unfoldable pub replay : {B : Type 0} → B → Payload B → Answer B
replay empty p = elim p.status [
  | processing ↦ refuses conflict
  | completed ↦
      replays completed (or_default p.response_status 200) (or_default p.response_body empty)
  | failed ↦ replays failed (or_default p.response_status 200) (or_default p.response_body empty)
]

abbrev pub marked : {B S : Type 0} → Option Refusal × S → Answer B × S
marked (none, s) = (proceeds, s)
marked (some r, s) = (refuses r, s)

module _ {B : Type 0} (empty : B) (cache : Cache (Payload B)) (records : Records (Payload B)) where
  unfoldable pub admit :
      (ℕ → Link)
      → (ℕ → Stores cache records → Stores cache records)
      → Text
      → Text
      → Stores cache records
      → Answer B × Stores cache records
  unfolding replay
  admit net others key endpoint s = elim (get_record cache records (net 0) key endpoint s) [
    | none ↦ (refuses internal, s)
    | some (some p) ↦ (replay empty p, s)
    | some none ↦ marked (mark_processing cache records (net 1) key endpoint (others 0 s))
  ]

  -- The path is `req.baseUrl + req.path`.
  unfoldable pub require_key :
      (ℕ → Link)
      → (ℕ → Stores cache records → Stores cache records)
      → Option Text
      → Text
      → Text
      → Stores cache records
      → Answer B × Stores cache records
  unfolding is_usable endpoint_of
  require_key net others none method path s = (refuses unprocessable, s)
  require_key net others (some key) method path s =
      let admitted = admit net others key (endpoint_of method path) s in
      if is_usable key then admitted else (refuses unprocessable, s)

  -- What `res.json` stores of the handler's response.
  unfoldable pub persist :
      (via_redis via_mongo : B → Option B)
      → Link
      → Text
      → Text
      → ℕ
      → B
      → Stores cache records
      → Stores cache records
  unfolding is_success
  persist via_redis via_mongo link key endpoint code body s =
      if is_success code
      then mark_completed cache records via_redis via_mongo link key endpoint code body s
      else mark_failed cache records via_redis via_mongo link key endpoint code body s
