-- ===== src/Workspace/Replacing.antt =====
-- What an edit replaces.
use sonalmod.Base.{
  ℕ, suc, ◌≤◌, ◌≡◌, ◌∙◌, ap, some, [], ◌∷◌, ◌++◌, Text, cut_prefix, length, arith, inl, inr,
  Option-cases,
}
use sonalmod.Sessions.Prefixes.{cut_prefix-append, cut_prefix_sound}
use sonalmod.Workspace.Edit.{cut_text, count_from, ok, compute_first_occurrence_replace}

-- A text is cut at its first place.
cut_text_lem :
    (old content b a : Text)
    → content ≡ b ++ (old ++ a)
    → (before : Text) × (after : Text) × (cut_text old content ≡ some (before, after))
      × (content ≡ before ++ (old ++ after))
      × (length before ≤ length b)
unfolding cut_text
cut_text_lem old [] [] a h =
    let here : cut_prefix old [] ≡ some a = ap (cut_prefix old) h ∙ cut_prefix-append old a in
    ([], a, ground arith, h, omega arith)
cut_text_lem old [] (d ∷ b) a h = cc
cut_text_lem old (c ∷ s) [] a h =
    let here : cut_prefix old (c ∷ s) ≡ some a = ap (cut_prefix old) h ∙ cut_prefix-append old a in
    ([], a, ground arith, h, omega arith)
cut_text_lem old (c ∷ s) (d ∷ b) a h = elim (Option-cases (cut_prefix old (c ∷ s))) [
  | inr (rest, here) ↦ ([], rest, ground arith, cut_prefix_sound old (c ∷ s) rest here, omega arith)
  | inl absent ↦
      let (before, after, cut, parts, first) = cut_text_lem old s b a (cc h) in
      (c ∷ before, after, ground arith, ap (λ l. c ∷ l) parts, omega arith)
]

-- Where the old text stands somewhere in the content, the edit succeeds and replaces it at a place
-- that is not behind that one, which makes it the first; it counts at least one place.
pub compute_first_occurrence_replace_lem :
    (content old new b a : Text)
    → content ≡ b ++ (old ++ a)
    → (before : Text) × (after : Text) × (n : ℕ) × (compute_first_occurrence_replace content old new
        ≡ ok (before ++ (new ++ after)) n)
      × (content ≡ before ++ (old ++ after))
      × (length before ≤ length b)
      × (1 ≤ n)
unfolding compute_first_occurrence_replace count_from
compute_first_occurrence_replace_lem content old new b a h =
    let (before, after, cut, parts, first) = cut_text_lem old content b a h in
    (
      before,
      after,
      suc (count_from (length content) old after),
      ground arith,
      parts,
      first,
      omega arith,
    )
