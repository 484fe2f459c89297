-- ===== src/Common/Dicts.antt =====
-- A JavaScript `Map` with string keys: an association list in insertion order.
use mathlib.Core.Path.{◌≡◌, refl}
use mathlib.Core.Option
use mathlib.Core.Option.{Option, none, some}
use mathlib.Core.List.{List, [], ◌∷◌}
use native.Mathlib.Omega.{arith}
use swift_chain_backend.Common.Tests.{if◌then◌else◌}
use swift_chain_backend.Common.Texts.{Text, text_eq, text_eq_iff}

abbrev pub Dict {ℓ} : Type ℓ → Type ℓ
Dict V = List (Text × V)

module _ {ℓ} {V : Type ℓ} where
  unfoldable pub get : Text → Dict V → Option V
  get k [] = none
  get k ((j, v) ∷ m) = let rest = get k m in if text_eq j k then some v else rest

  unfoldable pub put : Text → V → Dict V → Dict V
  put k v [] = (k, v) ∷ []
  put k v ((j, w) ∷ m) = let rest = put k v m in if text_eq j k then (j, v) ∷ m else (j, w) ∷ rest

  unfoldable pub del : Text → Dict V → Dict V
  del k [] = []
  del k ((j, w) ∷ m) = let rest = del k m in if text_eq j k then rest else (j, w) ∷ rest

  -- A write to the value of a key that is there.
  unfoldable pub adjust : Text → (V → V) → Dict V → Dict V
  adjust k f [] = []
  adjust k f ((j, w) ∷ m) = (j, if text_eq j k then f w else w) ∷ adjust k f m

  pub get-put :
      (k j : Text) (v : V) (m : Dict V)
      → get j (put k v m) ≡ (if text_eq k j then some v else get j m)
  unfolding get put
  get-put k j v [] = refl
  get-put k j v ((i, w) ∷ m) =
      ground (arith, text_eq_iff k j, text_eq_iff i k, text_eq_iff i j, get-put k j v m)

  pub get-del :
      (k j : Text) (m : Dict V) → get j (del k m) ≡ (if text_eq k j then none else get j m)
  unfolding get del
  get-del k j [] = ground arith
  get-del k j ((i, w) ∷ m) =
      ground (arith, text_eq_iff k j, text_eq_iff i k, text_eq_iff i j, get-del k j m)

  pub get-adjust :
      (k j : Text) (f : V → V) (m : Dict V)
      → get j (adjust k f m) ≡ (if text_eq k j then Option.map f (get j m) else get j m)
  unfolding get adjust
  get-adjust k j f [] = ground arith
  get-adjust k j f ((i, w) ∷ m) =
      ground (arith, text_eq_iff k j, text_eq_iff i k, text_eq_iff i j, get-adjust k j f m)
