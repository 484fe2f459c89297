-- ===== src/Common/Trim.antt =====
-- Trimming a text twice is trimming it once.
use mathlib.Core.Path.{◌≡◌, refl}
use mathlib.Core.Logic.{inl, inr}
use mathlib.Core.Bool.{false}
use mathlib.Core.List.{[], ◌∷◌, ◌++◌, reverse, reverse-append, reverse-reverse, reverse-cons}
use native.Mathlib.Omega.{arith}
use swift_chain_backend.Common.Tests.{Bool-cases}
use swift_chain_backend.Common.Texts.{Text, is_space, trim_start, trim}

-- A text that does not begin with white space.
abbrev IsLeftTrimmed : Text → Type 0
IsLeftTrimmed [] = Unit
IsLeftTrimmed (c ∷ s) = is_space c ≡ false

trim_start-IsLeftTrimmed : (s : Text) → IsLeftTrimmed (trim_start s)
unfolding trim_start
trim_start-IsLeftTrimmed [] = tt
trim_start-IsLeftTrimmed (c ∷ s) = ground (arith, trim_start-IsLeftTrimmed s)

trim_start_of_IsLeftTrimmed : (s : Text) → IsLeftTrimmed s → trim_start s ≡ s
unfolding trim_start
trim_start_of_IsLeftTrimmed [] h = refl
trim_start_of_IsLeftTrimmed (c ∷ s) h = rw h

trim_start-append :
    (c : _) (s : Text) → is_space c ≡ false → (t : Text) × (trim_start (s ++ c ∷ []) ≡ t ++ c ∷ [])
unfolding trim_start
trim_start-append c [] h = ([], rw h)
trim_start-append c (d ∷ s) h = elim (Bool-cases (is_space d)) [
  | inl e ↦ let (t, p) = trim_start-append c s h in (t, rw e p)
  | inr e ↦ (d ∷ s, rw e)
]

reverse-IsLeftTrimmed :
    (s : Text) → IsLeftTrimmed s → IsLeftTrimmed (reverse (trim_start (reverse s)))
unfolding trim_start
reverse-IsLeftTrimmed [] h = tt
reverse-IsLeftTrimmed (c ∷ s) h =
    let (t, p) = trim_start-append c (reverse s) h in
    rw (reverse-cons c s, p, reverse-append t (c ∷ [])) h

pub trim-trim : (s : Text) → trim (trim s) ≡ trim s
unfolding trim
trim-trim s =
    let t = trim_start s in
    let back = trim_start (reverse t) in
    let left =
      trim_start_of_IsLeftTrimmed (reverse back)
        (reverse-IsLeftTrimmed t (trim_start-IsLeftTrimmed s)) in
    let right = trim_start_of_IsLeftTrimmed back (trim_start-IsLeftTrimmed (reverse t)) in
    rw (left, reverse-reverse back, right)
