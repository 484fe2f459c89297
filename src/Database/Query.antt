-- ===== src/Database/Query.antt =====
-- The creation of documents and the queries over a collection, as far as the services rely on them.
use swift_chain_backend.Common.{
  Bool, true, Option, none, some, if◌then◌else◌, Text, text_eq, Dict, get, put, del, get-del,
  get-put, List, [], ◌∷◌, All, ◌≡◌, inl, inr, arith, any, text_eq_iff, Option-cases,
}
use swift_chain_backend.Database.{Collection, in_memory}

pub record Queries {D : Type 0} (log : Collection D) : Type 0 where
  -- `create` of a document with a fresh id
  pub create : Text → D → log.State → log.State
  -- `find` with a filter, in the order that the query asks for
  pub find_where : (D → Bool) → log.State → List (Text × D)
  pub find_by_id-create :
      (id j : Text) (d : D) (s : log.State)
      → log.find_by_id j (create id d s) ≡ (if text_eq id j then some d else log.find_by_id j s)
  pub find_where_found :
      (p : D → Bool) (s : log.State)
      → All (λ x. (log.find_by_id x.0 s ≡ some x.1) × (p x.1 ≡ true)) (find_where p s)
  pub find_where_all :
      (p : D → Bool) (id : Text) (d : D) (s : log.State)
      → log.find_by_id id s ≡ some d
      → p d ≡ true
      → any (λ x. text_eq x.0 id) (find_where p s) ≡ true

pub record Deletions {D : Type 0} (log : Collection D) : Type 0 where
  -- `deleteOne`
  pub remove : Text → log.State → log.State
  pub find_by_id-remove :
      (id j : Text) (s : log.State)
      → log.find_by_id j (remove id s) ≡ (if text_eq id j then none else log.find_by_id j s)

-- The same for the list of documents by id.
module _ {D : Type 0} where
  unfoldable pub add_if : (D → Bool) → Text → Option D → List (Text × D) → List (Text × D)
  add_if p id none rest = rest
  add_if p id (some d) rest = if p d then (id, d) ∷ rest else rest

  -- The documents of `all` under the ids of `ids`.
  unfoldable pub select : (D → Bool) → Dict D → Dict D → List (Text × D)
  unfolding add_if
  select p [] all = []
  select p ((id, x) ∷ ids) all = add_if p id (get id all) (select p ids all)

  pub select_found :
      (p : D → Bool) (ids all : Dict D)
      → All (λ x. (get x.0 all ≡ some x.1) × (p x.1 ≡ true)) (select p ids all)
  unfolding select
  select_found p [] all = tt
  select_found p ((id, x) ∷ ids) all = elim (Option-cases (get id all)) [
    | inl gone ↦ rw gone (select_found p ids all)
    | inr (d, there) ↦ ground (arith, there, select_found p ids all)
  ]

  pub select_all :
      (p : D → Bool) (id : Text) (d : D) (ids all : Dict D)
      → get id all ≡ some d
      → p d ≡ true
      → any (λ x. text_eq x.0 id) ids ≡ true
      → any (λ x. text_eq x.0 id) (select p ids all) ≡ true
  unfolding select add_if
  select_all p id d [] all there fits key = key
  select_all p id d ((j, x) ∷ ids) all there fits key =
      ground (arith, text_eq_iff j id, select_all p id d ids all, there, fits)

  pub get_key :
      (id : Text) (d : D) (s : Dict D) → get id s ≡ some d → any (λ x. text_eq x.0 id) s ≡ true
  unfolding get
  get_key id d [] there = absurd (cc)
  get_key id d ((j, x) ∷ s) there = ground (arith, get_key id d s)

  abbrev pub memory_deletions : Deletions (in_memory D)
  memory_deletions = record { remove = del; find_by_id-remove = get-del }

  abbrev pub memory_queries : Queries (in_memory D)
  memory_queries = record {
    create = put;
    find_where = λ p s. select p s s;
    find_by_id-create = get-put;
    find_where_found = λ p s. select_found p s s;
    find_where_all = λ p id d s there fits. select_all p id d s s there fits (get_key id d s there);
  }
