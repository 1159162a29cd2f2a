-- ===== src/Base/Paths.antt =====
-- File paths as lists of their components.
use mathlib.Core.Path.{◌≡◌, refl, ap, sym, ◌∙◌}
use mathlib.Core.Logic.{◌↔◌}
use mathlib.Core.Bool.{Bool, true, false, ◌&&◌}
use mathlib.Core.List.{List, [], ◌∷◌}
use native.Mathlib.Omega.{arith}
use sonalmod.Base.Tests.{Eq}
use sonalmod.Base.Texts.{Text, text_beq, text_beq_iff}

abbrev pub FilePath : Type 0
FilePath = List Text

unfoldable pub path_beq : FilePath → FilePath → Bool
path_beq [] [] = true
path_beq [] (t ∷ q) = false
path_beq (s ∷ p) [] = false
path_beq (s ∷ p) (t ∷ q) = text_beq s t && path_beq p q

path_beq_sound : (p q : FilePath) → path_beq p q ≡ true → p ≡ q
unfolding path_beq
path_beq_sound [] [] h = refl
path_beq_sound [] (t ∷ q) h = cc
path_beq_sound (s ∷ p) [] h = cc
path_beq_sound (s ∷ p) (t ∷ q) h = ground (arith, text_beq_iff s t, path_beq_sound p q)

path_beq_refl : (p : FilePath) → path_beq p p ≡ true
unfolding path_beq
path_beq_refl [] = refl
path_beq_refl (s ∷ p) = ground (arith, path_beq_refl p, (text_beq_iff s s).1 refl)

pub path_beq_iff : (p q : FilePath) → (path_beq p q ≡ true) ↔ (p ≡ q)
path_beq_iff p q = (path_beq_sound p q, λ e. ap (path_beq p) (sym e) ∙ path_beq_refl p)

instance abbrev pub path_eq : Eq FilePath
path_eq = record { beq = path_beq; beq_iff = path_beq_iff }
