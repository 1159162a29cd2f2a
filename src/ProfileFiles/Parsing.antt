-- ===== src/ProfileFiles/Parsing.antt =====
-- Parsing the text that `writeProfileFile` writes.
use sonalmod.Base.{
  ℕ, ◌≤◌, ◌≡◌, refl, sym, ◌∙◌, ap, true, Option, none, some, [], ◌∷◌, ◌++◌, Text, text, text_eq,
  is_space, trim_space, trim_left, trim_right, cut_prefix, length, length-append, arith,
  append_assoc,
}
use sonalmod.ProfileFiles.Markdown.{
  skip_blanks, cut_close, find_close, close_body, match_profile, profile_text,
}

trim_right-append : (s : Text) (c : ℕ) → is_space c ≡ true → trim_right (s ++ c ∷ []) ≡ trim_right s
unfolding trim_right
trim_right-append [] c h = ground arith
trim_right-append (d ∷ s) c h = ground (arith, trim_right-append s c h)

-- A space at the end of a text is trimmed with the rest.
pub trim_space-append :
    (s : Text) (c : ℕ) → is_space c ≡ true → trim_space (s ++ c ∷ []) ≡ trim_space s
unfolding trim_space trim_left
trim_space-append [] c h = ground arith
trim_space-append (d ∷ s) c h =
    ground (arith, trim_space-append s c h, trim_right-append (d ∷ s) c h)

-- A frontmatter in which no line ends the frontmatter, nor with the line that does so.
abbrev pub IsOpen : Text → Type 0
IsOpen [] = Unit
IsOpen (c ∷ s) = (cut_close ((c ∷ s) ++ text "\n---") ≡ none) × IsOpen s

cut_prefix_longer :
    (p s r : Text) → length p ≤ length s → cut_prefix p s ≡ none → cut_prefix p (s ++ r) ≡ none
unfolding cut_prefix
cut_prefix_longer [] s r l h = cc
cut_prefix_longer (c ∷ p) [] r l h = absurd (omega arith)
cut_prefix_longer (c ∷ p) (d ∷ s) r l h = ground (arith, cut_prefix_longer p s r)

cut_close_longer : (s r : Text) → 5 ≤ length s → cut_close s ≡ none → cut_close (s ++ r) ≡ none
unfolding cut_close
cut_close_longer s r l h =
    ground (arith, cut_prefix_longer (text "\r\n---") s r, cut_prefix_longer (text "\n---") s r)

cut_close_here : (r : Text) → cut_close (text "\n---" ++ r) ≡ some r
unfolding cut_close cut_prefix
cut_close_here r = refl

find_close_step :
    (c : ℕ) (s front rest : Text)
    → cut_close (c ∷ s) ≡ none
    → find_close s ≡ some (front, rest)
    → find_close (c ∷ s) ≡ some (c ∷ front, rest)
unfolding find_close
find_close_step c s front rest h e = shut (cut_close (c ∷ s)) (find_close s) h e
  where
    shut :
        (o : Option Text) (m : Option (Text × Text))
        → o ≡ none
        → m ≡ some (front, rest)
        → elim o as (λ x. Option (Text × Text)) [
          | some r ↦ some ([], r)
          | none ↦ elim m as (λ x. Option (Text × Text)) [
            | none ↦ none
            | some p ↦ some (c ∷ p.0, p.1)
          ]
        ]
          ≡ some (c ∷ front, rest)
    shut o m h e = ground arith

find_close_lem : (y r : Text) → IsOpen y → find_close (y ++ (text "\n---" ++ r)) ≡ some (y, r)
find_close_lem [] r open_ = unfold find_close in refl
find_close_lem (c ∷ y) r open_ =
    let later = find_close_lem y r open_.1 in
    let size : 5 ≤ length ((c ∷ y) ++ text "\n---") =
      omega (arith, length-append {0} (c ∷ y) (text "\n---")) in
    let here : cut_close ((c ∷ y) ++ (text "\n---" ++ r)) ≡ none =
      ap cut_close (sym (append_assoc (c ∷ y) (text "\n---") r))
      ∙ cut_close_longer ((c ∷ y) ++ text "\n---") r size open_.0 in
    find_close_step c (y ++ (text "\n---" ++ r)) y r here later

pub match_profile-profile_text :
    (yaml instructions : Text)
    → IsOpen (trim_space yaml)
    → match_profile (profile_text yaml instructions)
      ≡ some (trim_space yaml, trim_space instructions ++ text "\n")
unfolding match_profile profile_text skip_blanks cut_prefix
match_profile-profile_text yaml instructions open_ =
    ap close_body
      (find_close_lem (trim_space yaml) (text "\n" ++ (trim_space instructions ++ text "\n")) open_)
