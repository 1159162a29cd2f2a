-- ===== src/Base/Trim.antt =====
-- Laws of `TrimSpace`.
use mathlib.Core.Path.{◌≡◌, refl, ap, ◌∙◌}
use mathlib.Core.Bool.{false}
use mathlib.Core.List.{[], ◌∷◌}
use native.Mathlib.Omega.{arith}
use sonalmod.Base.Texts.{Text, is_space, trim_left, trim_right, trim_space}

-- The first character, if there is one, is no space.
abbrev IsLeftTrimmed : Text → Type 0
IsLeftTrimmed [] = Unit
IsLeftTrimmed (c ∷ s) = is_space c ≡ false

trim_left-IsLeftTrimmed : (s : Text) → IsLeftTrimmed (trim_left s)
unfolding trim_left
trim_left-IsLeftTrimmed [] = tt
trim_left-IsLeftTrimmed (c ∷ s) = ground (arith, trim_left-IsLeftTrimmed s)

trim_left_fixed : (s : Text) → IsLeftTrimmed s → trim_left s ≡ s
unfolding trim_left
trim_left_fixed [] h = refl
trim_left_fixed (c ∷ s) h = ground arith

trim_right-IsLeftTrimmed : (s : Text) → IsLeftTrimmed s → IsLeftTrimmed (trim_right s)
unfolding trim_right
trim_right-IsLeftTrimmed [] h = tt
trim_right-IsLeftTrimmed (c ∷ s) h = ground arith

trim_right_idem : (s : Text) → trim_right (trim_right s) ≡ trim_right s
unfolding trim_right
trim_right_idem [] = refl
trim_right_idem (c ∷ s) = ground (arith, trim_right_idem s)

pub trim_space_idem : (s : Text) → trim_space (trim_space s) ≡ trim_space s
unfolding trim_space
trim_space_idem s =
    ap trim_right (
      trim_left_fixed (trim_right (trim_left s))
        (trim_right-IsLeftTrimmed (trim_left s) (trim_left-IsLeftTrimmed s)))
    ∙ trim_right_idem (trim_left s)
