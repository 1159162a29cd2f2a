-- ===== src/Workspace/Edit.antt =====
-- `computeFirstOccurrenceReplace` of edit.go, with `strings.Cut` and `strings.Count`. The texts are
-- bytes. The old text is not empty, as `validateEditFileRequest` has it.
use sonalmod.Base.{ℕ, zero, suc, Option, none, some, [], ◌∷◌, ◌++◌, Text, cut_prefix, length}

-- `strings.Cut`: the texts before and after the first place of a text.
unfoldable pub cut_text : Text → Text → Option (Text × Text)
unfolding cut_prefix
cut_text old [] = elim (cut_prefix old []) [ none ↦ none | some rest ↦ some ([], rest) ]
cut_text old (c ∷ s) =
    let later = cut_text old s in
    elim (cut_prefix old (c ∷ s)) [
      | some rest ↦ some ([], rest)
      | none ↦ elim later [ none ↦ none | some p ↦ some (c ∷ p.0, p.1) ]
    ]

-- `strings.Count`: the places that do not overlap. Each takes some of the text, so that its length
-- is fuel enough.
unfoldable pub count_from : ℕ → Text → Text → ℕ
unfolding cut_text
count_from zero old s = zero
count_from (suc fuel) old s = elim (cut_text old s) [
  | none ↦ zero
  | some p ↦ suc (count_from fuel old p.1)
]

pub data Replaced : Type 0 where
  ok : Text → ℕ → Replaced
  not_found : Replaced

-- `computeFirstOccurrenceReplace`
unfoldable pub compute_first_occurrence_replace : Text → Text → Text → Replaced
unfolding cut_text count_from
compute_first_occurrence_replace content old new = elim (cut_text old content) [
  | none ↦ not_found
  | some p ↦ ok (p.0 ++ (new ++ p.1)) (count_from (suc (length content)) old content)
]
