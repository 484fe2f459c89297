-- ===== src/Database/Marks.antt =====
-- What passes of conditional updates leave of a collection.
use mathlib.Core.Option
use swift_chain_backend.Common.{
  Bool, true, false, Option, none, some, List, [], ◌∷◌, Text, text_eq, text_eq_iff, text_eq_self,
  any, map, if◌then◌else◌, ◌≡◌, ◌⊎◌, inl, inr, refl, sym, ap, subst, ◌∙◌, arith, Option-cases,
  Bool-cases,
}
use swift_chain_backend.Database.{Collection, matched, or_kept}

module _ {D : Type 0} (docs : Collection D) (p : D → Bool) (f : D → D) where
  open docs use {State, find_by_id, update_where, find_by_id-update_where}

  -- The document had the property `p` and is changed by `f`.
  pub record IsMarked (id : Text) (s s' : State) : Type 0 where
    pub before : D
    pub found : find_by_id id s ≡ some before
    pub fits : p before ≡ true
    pub marked : find_by_id id s' ≡ some (f before)

  -- Each document is as it was, or it had the property and is changed.
  abbrev pub AreMarked : State → State → Type 0
  AreMarked s s' = (id : Text) → (find_by_id id s' ≡ find_by_id id s) ⊎ IsMarked id s s'

  pub AreMarked-refl : (s : State) → AreMarked s s
  AreMarked-refl s id = inl refl

  -- A document that is still open to the update `g` had the property and has not been changed.
  pub still_fits :
      (id : Text) (e d : D) (g : D → Bool) (s s' : State)
      → AreMarked s s'
      → find_by_id id s ≡ some e
      → p e ≡ true
      → ((x : D) → g (f x) ≡ false)
      → find_by_id id s' ≡ some d
      → g d ≡ true
      → p d ≡ true
  still_fits id e d g s s' k there fits shut now_there opened = elim (k id) [
    | inl same ↦ ground (arith, same, there, now_there, fits)
    | inr m ↦ absurd (ground (arith, m.marked, now_there, shut m.before))
  ]

  step_cases :
      (id : Text) (g : D → Bool) (s s' : State)
      → AreMarked s s'
      → ((d : D) → find_by_id id s' ≡ some d → g d ≡ true → p d ≡ true)
      → ((x : D) → p (f x) ≡ false)
      → (e : D) → find_by_id id s' ≡ some e
      → g e ≡ true
      → IsMarked id s (update_where id g f s')
  step_cases id g s s' k fits shut e there opened = elim (k id) [
    | inl same ↦ record {
      before = e;
      found = sym same ∙ there;
      fits = fits e there opened;
      marked = ground (arith, find_by_id-update_where id id g f s', text_eq_iff id id);
    }
    | inr m ↦ absurd (ground (arith, m.marked, there, fits e there opened, shut m.before))
  ]

  unmatched :
      (id j : Text) (g : D → Bool) (s' : State)
      → matched g f (find_by_id id s') ≡ none
      → find_by_id j (update_where id g f s') ≡ find_by_id j s'
  unmatched id j g s' none_there =
      ap (find_by_id j) (docs.update_where_unmatched id g f s' none_there)

  kept_at :
      (j : Text) (s s' s'' : State)
      → AreMarked s s'
      → find_by_id j s'' ≡ find_by_id j s'
      → (find_by_id j s'' ≡ find_by_id j s) ⊎ IsMarked j s s''
  kept_at j s s' s'' k same = elim (k j) [
    | inl as_before ↦ inl (same ∙ as_before)
    | inr m ↦
        inr (record { before = m.before; found = m.found; fits = m.fits; marked = same ∙ m.marked })
  ]

  open_found :
      (g : D → Bool) (o : Option D) (x : D)
      → matched g f o ≡ some x
      → (e : D) × (o ≡ some e) × (g e ≡ true)
  open_found g none x h = absurd (cc)
  open_found g (some e) x h = (e, refl, ground arith)

  -- An update under a condition that implies the property.
  pub AreMarked-update_where :
      (id : Text) (g : D → Bool) (s s' : State)
      → AreMarked s s'
      → ((d : D) → find_by_id id s' ≡ some d → g d ≡ true → p d ≡ true)
      → ((x : D) → p (f x) ≡ false)
      → AreMarked s (update_where id g f s')
  AreMarked-update_where id g s s' k fits shut j =
      elim (Option-cases (matched g f (find_by_id id s'))) [
        | inl shut_there ↦
            kept_at j s s' (update_where id g f s') k (unmatched id j g s' shut_there)
        | inr (x, opened) ↦ elim (Bool-cases (text_eq id j)) [
          | inl same ↦
              let (e, there, good) = open_found g (find_by_id id s') x opened in
              inr (
                subst (λ i. IsMarked i s (update_where id g f s')) ((text_eq_iff id j).0 same)
                  (step_cases id g s s' k fits shut e there good))
          | inr other ↦
              kept_at j s s' (update_where id g f s') k
                (find_by_id-update_where id j g f s' ∙ rw other refl)
        ]
      ]

  -- A document that is no longer open to the update.
  abbrev pub IsShut : (D → Bool) → Text → State → Type 0
  IsShut g id s = (d : D) → find_by_id id s ≡ some d → g d ≡ false

  pub update_where-IsShut :
      (id : Text) (g : D → Bool) (s : State)
      → ((x : D) → g (f x) ≡ false)
      → IsShut g id (update_where id g f s)
  update_where-IsShut id g s shut d e = elim (Option-cases (find_by_id id s)) [
    | inl gone ↦
        absurd (ground (arith, gone, e, find_by_id-update_where id id g f s, text_eq_self id))
    | inr (x, there) ↦
        ground (arith, there, e, find_by_id-update_where id id g f s, text_eq_self id, shut x)
  ]

  pub update_where-keeps_IsShut :
      (id j : Text) (g : D → Bool) (s : State)
      → ((x : D) → g (f x) ≡ false)
      → IsShut g id s
      → IsShut g id (update_where j g f s)
  update_where-keeps_IsShut id j g s shut k = elim (Bool-cases (text_eq j id)) [
    | inl same ↦
        subst (λ i. IsShut g i (update_where j g f s)) ((text_eq_iff j id).0 same)
          (update_where-IsShut j g s shut)
    | inr other ↦ λ d e. k d (sym (find_by_id-update_where j id g f s ∙ rw other refl) ∙ e)
  ]

  -- A document that had the property and is now shut to the update has been changed.
  pub shut_changed :
      (id : Text) (e : D) (g : D → Bool) (s s' : State)
      → AreMarked s s'
      → IsShut g id s'
      → find_by_id id s ≡ some e
      → g e ≡ true
      → find_by_id id s' ≡ some (f e)
  shut_changed id e g s s' k shut there opened = elim (k id) [
    | inl same ↦ absurd (ground (arith, shut e (same ∙ there), opened))
    | inr m ↦ ground (arith, m.marked, m.found, there)
  ]

  -- The collection after a change of exactly the documents with the property.
  abbrev pub AllMarked : State → State → Type 0
  AllMarked s s' =
      (id : Text) → find_by_id id s' ≡ or_kept (matched p f (find_by_id id s)) (find_by_id id s)

  pub AreMarked-AllMarked :
      (s s' : State)
      → AreMarked s s'
      → ((id : Text) (e : D)
          → find_by_id id s ≡ some e
          → p e ≡ true
          → find_by_id id s' ≡ some (f e))
      → AllMarked s s'
  AreMarked-AllMarked s s' k all id = elim (Option-cases (find_by_id id s)) [
    | inl gone ↦ elim (k id) [
      | inl same ↦ ground (arith, same, gone)
      | inr m ↦ absurd (ground (arith, m.found, gone))
    ]
    | inr (e, there) ↦ elim (Bool-cases (p e)) [
      | inl fits ↦ ground (arith, all id e there fits, there, fits)
      | inr unfit ↦ elim (k id) [
        | inl same ↦ ground (arith, same, there, unfit)
        | inr m ↦ absurd (ground (arith, m.found, m.fits, there, unfit))
      ]
    ]
  ]

  -- The change of each document, as one function on documents.
  pub AllMarked-map :
      (h : D → D) (s s' : State)
      → ((d : D) → h d ≡ (if p d then f d else d))
      → AllMarked s s'
      → (id : Text) → find_by_id id s' ≡ Option.map h (find_by_id id s)
  AllMarked-map h s s' eq k id = elim (Option-cases (find_by_id id s)) [
    | inl gone ↦ ground (arith, k id, gone)
    | inr (d, there) ↦ ground (arith, k id, there, eq d)
  ]

-- The same id, in a list of documents and in the list of their ids.
pub any-ids_of :
    {D : Type 0} (id : Text) (xs : List (Text × D))
    → any (λ j. text_eq j id) (map (λ x. x.0) xs) ≡ any (λ x. text_eq x.0 id) xs
any-ids_of id [] = refl
any-ids_of id (x ∷ xs) = ground (arith, any-ids_of id xs)
