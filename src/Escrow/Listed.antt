-- ===== src/Escrow/Listed.antt =====
-- What the scan for expired escrows keeps of a list of documents by their ids.
use swift_chain_backend.Common.{
  filter, Bool, true, some, List, [], ◌∷◌, ◌==◌, length, any, Text, text_eq, text_eq_iff, All, ◌≡◌,
  inl, inr, refl, sym, arith, subst, Bool-cases,
}
use swift_chain_backend.Database.{Collection}
use swift_chain_backend.Escrow.Expiry.{ids_of}

-- Each of these ids is one of a document with the property.
abbrev pub Fit : {D : Type 0} (docs : Collection D) → (D → Bool) → docs.State → List Text → Type 0
Fit docs p s = All (λ id. (d : _) × (docs.find_by_id id s ≡ some d) × (p d ≡ true))

pub ids-Fit :
    {D : Type 0} (docs : Collection D) (p : D → Bool) (s : docs.State) (xs : List (Text × D))
    → All (λ x. (docs.find_by_id x.0 s ≡ some x.1) × (p x.1 ≡ true)) xs
    → Fit docs p s (ids_of xs)
ids-Fit docs p s [] h = tt
ids-Fit docs p s ((id, d) ∷ xs) (here, later) = ((d, here.0, here.1), ids-Fit docs p s xs later)

pub none_listed : {A : Type 0} (xs : List (Text × A)) → filter (λ x. any (text_eq x.0) []) xs ≡ []
none_listed [] = refl
none_listed (x ∷ xs) = none_listed xs

pub no_members : {A : Type 0} (xs : List A) → (length xs == 0) ≡ true → xs ≡ []
no_members [] h = refl
no_members (x ∷ xs) h = absurd (ground arith)

-- What is kept of a list has what all of it had, and passed the test.
pub All-kept :
    {A : Type 0} (P Q : A → Type 0) (q : A → Bool) (xs : List A)
    → ((x : A) → P x → q x ≡ true → Q x)
    → All P xs
    → All Q (filter q xs)
All-kept P Q q [] g h = tt
All-kept P Q q (x ∷ xs) g (here, later) = elim (Bool-cases (q x)) [
  | inl passed ↦ rw passed (g x here passed, All-kept P Q q xs g later)
  | inr failed ↦ rw failed (All-kept P Q q xs g later)
]

-- An id of both lists is still there when one is cut down to the other.
pub listed_twice :
    {A : Type 0} (id : Text) (ids : List Text) (xs : List (Text × A))
    → any (text_eq id) ids ≡ true
    → any (λ x. text_eq x.0 id) xs ≡ true
    → any (λ x. text_eq x.0 id) (filter (λ x. any (text_eq x.0) ids) xs) ≡ true
listed_twice id ids [] h k = k
listed_twice id ids (x ∷ xs) h k = elim (Bool-cases (text_eq x.0 id)) [
  | inl same ↦
      let known : any (text_eq x.0) ids ≡ true =
        subst (λ i. any (text_eq i) ids ≡ true) (sym ((text_eq_iff x.0 id).0 same)) h in
      rw known (rw same refl)
  | inr other ↦
      let later = listed_twice id ids xs h (ground (arith, other, k)) in
      ground (arith, later, other)
]

pub any_sym : (id : Text) (ids : List Text) → any (λ j. text_eq j id) ids ≡ any (text_eq id) ids
any_sym id [] = refl
any_sym id (j ∷ ids) = ground (arith, any_sym id ids, text_eq_iff j id, text_eq_iff id j)

pub any-Fit :
    {D : Type 0} (docs : Collection D) (p : D → Bool) (s : docs.State) (id : Text) (ids : List Text)
    → Fit docs p s ids
    → any (text_eq id) ids ≡ true
    → (d : D) × (docs.find_by_id id s ≡ some d) × (p d ≡ true)
any-Fit docs p s id [] h k = absurd (cc)
any-Fit docs p s id (j ∷ ids) (here, later) k = elim (Bool-cases (text_eq id j)) [
  | inl same ↦
      subst (λ i. (d : _) × (docs.find_by_id i s ≡ some d) × (p d ≡ true))
        (sym ((text_eq_iff id j).0 same)) here
  | inr other ↦ any-Fit docs p s id ids later (ground (arith, k, other))
]
