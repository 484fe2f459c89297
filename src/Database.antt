-- ===== src/Database.antt =====
-- The document store behind the mongoose models, as far as the services rely on it. It is not part
-- of the repository: a collection is an argument, with the documented behaviour of its operations.
pub mod Keyed
pub mod Query
pub mod Marks
use swift_chain_backend.Common.{
  Bool, Option, none, some, if◌then◌else◌, Text, text_eq, Dict, get, put, get-put, ◌≡◌, arith, refl,
}

-- What a conditional update makes of the document that it finds.
abbrev pub matched {ℓ} : {D : Type ℓ} → (D → Bool) → (D → D) → Option D → Option D
matched p f none = none
matched p f (some d) = if p d then some (f d) else none

abbrev pub or_kept {ℓ} : {D : Type ℓ} → Option D → Option D → Option D
or_kept none old = old
or_kept (some d) old = some d

pub record Collection (D : Type 0) : Type 1 where
  pub State : Type 0
  -- `findById`
  pub find_by_id : Text → State → Option D
  -- `findOneAndUpdate({ _id, … }, { $set: … }, { new: true })`: one atomic read and write
  pub update_where : Text → (D → Bool) → (D → D) → State → State
  pub find_by_id-update_where :
      (id j : Text) (p : D → Bool) (f : D → D) (s : State)
      → find_by_id j (update_where id p f s) ≡ (
          if text_eq id j
          then or_kept (matched p f (find_by_id id s)) (find_by_id j s)
          else find_by_id j s)
  -- A filter that matches no document writes nothing.
  pub update_where_unmatched :
      (id : Text) (p : D → Bool) (f : D → D) (s : State)
      → matched p f (find_by_id id s) ≡ none
      → update_where id p f s ≡ s

-- A store that behaves so: a list of documents by id.
unfoldable pub update_found : {D : Type 0} → Text → Option D → Dict D → Dict D
update_found id none s = s
update_found id (some d) s = put id d s

pub in_memory_found :
    {D : Type 0} (id j : Text) (s : Dict D) (o : Option D)
    → get j (update_found id o s) ≡ (if text_eq id j then or_kept o (get j s) else get j s)
unfolding update_found
in_memory_found id j s none = ground arith
in_memory_found id j s (some d) = get-put id j d s

pub in_memory_kept :
    {D : Type 0} (id : Text) (s : Dict D) (o : Option D) → o ≡ none → update_found id o s ≡ s
unfolding update_found
in_memory_kept id s none e = refl
in_memory_kept id s (some d) e = absurd (cc)

abbrev pub in_memory : (D : Type 0) → Collection D
in_memory D = record {
  State = Dict D;
  find_by_id = get;
  update_where = λ id p f s. update_found id (matched p f (get id s)) s;
  find_by_id-update_where = λ id j p f s. in_memory_found id j s (matched p f (get id s));
  update_where_unmatched = λ id p f s e. in_memory_kept id s (matched p f (get id s)) e;
}
