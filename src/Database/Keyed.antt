-- ===== src/Database/Keyed.antt =====
-- A collection with a unique index on two fields. It is not part of the repository: such a collection is
-- an argument, with the documented behaviour of the operations that the services use.
use swift_chain_backend.Common.{
  Option, none, some, if◌then◌else◌, ◌&&◌, Text, text_eq, List, [], ◌∷◌, ◌≡◌, refl,
}

pub record Records (V : Type 0) : Type 1 where
  pub State : Type 0
  -- `findOne` by both keys
  pub find_one : Text → Text → State → Option V
  -- the collection with that record for those keys
  pub with_record : Text → Text → V → State → State
  -- `create`: `none` is the duplicate-key error.
  pub create : Text → Text → V → State → Option State
  -- `findOneAndUpdate` or `updateOne` with `$set`
  pub update_one : Text → Text → (V → V) → State → State
  -- `findOneAndUpdate` with `$setOnInsert` and `upsert: true`
  pub upsert : Text → Text → V → State → State
  pub find_one-with_record :
      (k e j f : Text) (v : V) (s : State)
      → find_one j f (with_record k e v s)
        ≡ (if text_eq k j && text_eq e f then some v else find_one j f s)
  pub create_free :
      (k e : Text) (v : V) (s : State)
      → find_one k e s ≡ none
      → create k e v s ≡ some (with_record k e v s)
  pub create_taken :
      (k e : Text) (v w : V) (s : State) → find_one k e s ≡ some w → create k e v s ≡ none
  pub update_one_taken :
      (k e : Text) (f : V → V) (w : V) (s : State)
      → find_one k e s ≡ some w
      → update_one k e f s ≡ with_record k e (f w) s
  pub update_one_free :
      (k e : Text) (f : V → V) (s : State) → find_one k e s ≡ none → update_one k e f s ≡ s
  pub upsert_free :
      (k e : Text) (v : V) (s : State)
      → find_one k e s ≡ none
      → upsert k e v s ≡ with_record k e v s
  pub upsert_taken :
      (k e : Text) (v w : V) (s : State) → find_one k e s ≡ some w → upsert k e v s ≡ s

-- A collection that behaves so: a list of records, the latest first.
module _ {V : Type 0} where
  unfoldable pub find_pair : Text → Text → List ((Text × Text) × V) → Option V
  find_pair k e [] = none
  find_pair k e (((j, f), v) ∷ rest) =
      let later = find_pair k e rest in if text_eq j k && text_eq f e then some v else later

  unfoldable pub inserted :
      List ((Text × Text) × V) → List ((Text × Text) × V) → Option V → List ((Text × Text) × V)
  inserted absent present none = absent
  inserted absent present (some w) = present

  unfoldable pub refused : List ((Text × Text) × V) → Option V → Option (List ((Text × Text) × V))
  refused made none = some made
  refused made (some w) = none

  unfoldable pub changed :
      Text → Text → (V → V) → List ((Text × Text) × V) → Option V → List ((Text × Text) × V)
  changed k e f s none = s
  changed k e f s (some w) = ((k, e), f w) ∷ s

  pub memory_find :
      (k e j f : Text) (v : V) (s : List ((Text × Text) × V))
      → find_pair j f (((k, e), v) ∷ s)
        ≡ (if text_eq k j && text_eq e f then some v else find_pair j f s)
  unfolding find_pair
  memory_find k e j f v s = refl

  pub memory_refused :
      (made : List ((Text × Text) × V)) (o : Option V) (w : V) → o ≡ some w → refused made o ≡ none
  unfolding refused
  memory_refused made o w h = rw h refl

  pub memory_made :
      (made : List ((Text × Text) × V)) (o : Option V) → o ≡ none → refused made o ≡ some made
  unfolding refused
  memory_made made o h = rw h refl

  pub memory_changed :
      (k e : Text) (f : V → V) (s : List ((Text × Text) × V)) (o : Option V) (w : V)
      → o ≡ some w
      → changed k e f s o ≡ ((k, e), f w) ∷ s
  unfolding changed
  memory_changed k e f s o w h = rw h refl

  pub memory_same :
      (k e : Text) (f : V → V) (s : List ((Text × Text) × V)) (o : Option V)
      → o ≡ none
      → changed k e f s o ≡ s
  unfolding changed
  memory_same k e f s o h = rw h refl

  pub memory_absent :
      (a b : List ((Text × Text) × V)) (o : Option V) → o ≡ none → inserted a b o ≡ a
  unfolding inserted
  memory_absent a b o h = rw h refl

  pub memory_present :
      (a b : List ((Text × Text) × V)) (o : Option V) (w : V) → o ≡ some w → inserted a b o ≡ b
  unfolding inserted
  memory_present a b o w h = rw h refl

  abbrev pub memory_records : Records V
  memory_records = record {
    State = List ((Text × Text) × V);
    find_one = find_pair;
    with_record = λ k e v s. ((k, e), v) ∷ s;
    create = λ k e v s. refused (((k, e), v) ∷ s) (find_pair k e s);
    update_one = λ k e f s. changed k e f s (find_pair k e s);
    upsert = λ k e v s. inserted (((k, e), v) ∷ s) s (find_pair k e s);
    find_one-with_record = memory_find;
    create_free = λ k e v s h. memory_made (((k, e), v) ∷ s) (find_pair k e s) h;
    create_taken = λ k e v w s h. memory_refused (((k, e), v) ∷ s) (find_pair k e s) w h;
    update_one_taken = λ k e f w s h. memory_changed k e f s (find_pair k e s) w h;
    update_one_free = λ k e f s h. memory_same k e f s (find_pair k e s) h;
    upsert_free = λ k e v s h. memory_absent (((k, e), v) ∷ s) s (find_pair k e s) h;
    upsert_taken = λ k e v w s h. memory_present (((k, e), v) ∷ s) s (find_pair k e s) w h;
  }
