-- ===== src/Sessions/Prefixes.antt =====
-- Cutting a prefix off a text.
use sonalmod.Base.{
  ◌≡◌, refl, sym, ◌∙◌, ap, false, none, some, [], ◌∷◌, ◌++◌, Text, text_eq, ◌==◌, text_beq_iff,
  cut_prefix, text_beq, Bool-cases, inl, inr, arith,
}

pub cut_prefix-append : (p k : Text) → cut_prefix p (p ++ k) ≡ some k
unfolding cut_prefix
cut_prefix-append [] k = refl
cut_prefix-append (c ∷ p) k = ground (arith, cut_prefix-append p k)

pub cut_prefix_sound : (p s k : Text) → cut_prefix p s ≡ some k → s ≡ p ++ k
unfolding cut_prefix
cut_prefix_sound [] s k h = ground arith
cut_prefix_sound (c ∷ p) [] k h = cc
cut_prefix_sound (c ∷ p) (d ∷ s) k h = ground (arith, cut_prefix_sound p s k)

pub prefix-mismatch : (p k j : Text) → cut_prefix p j ≡ none → ((p ++ k) == j) ≡ false
prefix-mismatch p k j h = elim (Bool-cases ((p ++ k) == j)) [
  | inr e ↦ e
  | inl e ↦
      let same = (text_beq_iff (p ++ k) j).0 e in
      cc (sym h ∙ ap (cut_prefix p) (sym same) ∙ cut_prefix-append p k)
]

pub mismatch-prefix : (p k j : Text) → cut_prefix p j ≡ none → (j == (p ++ k)) ≡ false
mismatch-prefix p k j h = elim (Bool-cases (j == (p ++ k))) [
  | inr e ↦ e
  | inl e ↦
      let same = (text_beq_iff j (p ++ k)).0 e in
      cc (sym h ∙ ap (cut_prefix p) same ∙ cut_prefix-append p k)
]

pub prefix-cancel : (p k j : Text) → ((p ++ k) == (p ++ j)) ≡ (k == j)
unfolding text_beq
prefix-cancel [] k j = refl
prefix-cancel (c ∷ p) k j = ground (arith, prefix-cancel p k j)
