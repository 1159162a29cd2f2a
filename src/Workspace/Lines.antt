-- ===== src/Workspace/Lines.antt =====
-- The lines that a read of a file is asked for, against a description by the lines of the file.
use sonalmod.Base.{
  ℕ, zero, suc, ◌⊎◌, ◌-◌, ◌≡◌, refl, sym, ◌∙◌, ap, true, false, ◌&&◌, Option, none, some, List, [],
  ◌∷◌, ◌++◌, Text, is_empty, length, take, drop, leb, nat_beq, arith, inl, inr, Bool-cases,
  if◌then◌else◌, take_all,
}
use sonalmod.Summarize.Truncating.{ℤ, pos, negsuc}
use sonalmod.Workspace.Paths.{split_on, join_on, add_char}
use sonalmod.Workspace.Read.{
  trim_newline, split_lines, apply_head, apply_tail, negative, given, selected,
}

-- The lines of a text: each newline ends one, and what follows the last newline is one if it is not
-- empty.
abbrev pub lines : Text → List Text
lines [] = []
lines (c ∷ s) = if nat_beq c 10 then [] ∷ lines s else add_char c (lines s)

-- Lines with a newline between each two.
abbrev pub joined : List Text → Text
joined [] = []
joined (w ∷ []) = w
joined (w ∷ v ∷ l) = w ++ 10 ∷ joined (v ∷ l)

-- What a read gives of a file: all of it, its first lines or its last ones.
abbrev pub IsSelected : Option ℤ → Option ℤ → Text → Text → Type 0
IsSelected none none s out = out ≡ s
IsSelected (some (pos n)) none s out = out ≡ joined (take n (lines s))
IsSelected none (some (pos n)) s out = out ≡ joined (drop (length (lines s) - n) (lines s))
IsSelected _ _ s out = ⊥

join_on-joined : (l : List Text) → join_on 10 l ≡ joined l
unfolding join_on
join_on-joined [] = refl
join_on-joined (w ∷ []) = refl
join_on-joined (w ∷ v ∷ l) = ap (λ t. w ++ 10 ∷ t) (join_on-joined (v ∷ l))

split_on-trim_newline : (c : ℕ) (s : Text) → split_on 10 (trim_newline (c ∷ s)) ≡ lines (c ∷ s)
unfolding trim_newline split_on
split_on-trim_newline c [] = elim (Bool-cases (nat_beq c 10)) [
  | inl same ↦ rw same refl
  | inr other ↦ rw other (rw other refl)
]
split_on-trim_newline c (d ∷ s) =
    ap (λ l. if nat_beq c 10 then [] ∷ l else add_char c l) (split_on-trim_newline d s)

-- The lines of the code, but for a text that is one newline alone.
split_lines_lem :
    (s : Text) → ((split_lines s ≡ []) × (lines s ≡ [] ∷ [])) ⊎ (split_lines s ≡ lines s)
unfolding split_lines
split_lines_lem [] = inr refl
split_lines_lem (c ∷ s) = elim (Bool-cases (is_empty (trim_newline (c ∷ s)))) [
  | inl alone ↦ inl (
    rw alone refl,
    sym (split_on-trim_newline c s)
        ∙ ap (split_on 10) (emptied (trim_newline (c ∷ s)) alone)
        ∙ unfold split_on in refl,
  )
  | inr more ↦ inr (rw more (split_on-trim_newline c s))
]
  where
    emptied : (t : Text) → is_empty t ≡ true → t ≡ []
    emptied [] h = refl
    emptied (d ∷ t) h = cc

drop_nil : (n : ℕ) → ◌≡◌ {A = List Text} (drop n []) []
drop_nil zero = refl
drop_nil (suc n) = refl

drop_all : {A : Type 0} (l : List A) → drop (length l) l ≡ []
drop_all [] = refl
drop_all (x ∷ l) = drop_all l

first_lines :
    (n : ℕ) (l : List Text)
    → (if nat_beq n 0 then [] else if leb (length l) n then join_on 10 l else join_on 10 (take n l))
      ≡ joined (take n l)
first_lines zero l = ground arith
first_lines (suc n) l =
    let few = join_on-joined (take (suc n) l) in
    elim (Bool-cases (leb (length l) (suc n))) [
      | inl all ↦
          let whole = join_on-joined l ∙ ap joined (sym (take_all (suc n) l (ground arith))) in
          ground arith
      | inr more ↦ ground arith
    ]

last_lines :
    (n : ℕ) (l : List Text)
    → (if nat_beq n 0
        then []
        else if leb (length l) n
        then join_on 10 l
        else join_on 10 (drop (length l - n) l))
      ≡ joined (drop (length l - n) l)
last_lines zero l =
    let start : length l - 0 ≡ length l = omega arith in
    ap joined (sym (drop_all l)) ∙ ap (λ k. joined (drop k l)) (sym start)
last_lines (suc n) l =
    let few = join_on-joined (drop (length l - suc n) l) in
    elim (Bool-cases (leb (length l) (suc n))) [
      | inl all ↦
          let start : length l - suc n ≡ 0 = ground arith in
          let whole : join_on 10 l ≡ joined (drop (length l - suc n) l) =
            join_on-joined l ∙ ap (λ k. joined (drop k l)) (sym start) in
          ground arith
      | inr more ↦ ground arith
    ]

apply_head-lines : (s : Text) (n : ℕ) → apply_head s n ≡ joined (take n (lines s))
unfolding apply_head
apply_head-lines s n = first_lines n (split_lines s) ∙ elim (split_lines_lem s) [
  | inr same ↦ ap (λ l. joined (take n l)) same
  | inl (code, alone) ↦
      ap (λ l. joined (take n l)) code ∙ nothing n ∙ sym (ap (λ l. joined (take n l)) alone)
]
  where
    nothing : (n : ℕ) → joined (take n []) ≡ joined (take n ([] ∷ []))
    nothing zero = refl
    nothing (suc zero) = refl
    nothing (suc (suc n)) = refl

apply_tail-lines :
    (s : Text) (n : ℕ) → apply_tail s n ≡ joined (drop (length (lines s) - n) (lines s))
unfolding apply_tail
apply_tail-lines s n = last_lines n (split_lines s) ∙ elim (split_lines_lem s) [
  | inr same ↦ ap (λ l. joined (drop (length l - n) l)) same
  | inl (code, alone) ↦
      ap (λ l. joined (drop (length l - n) l)) code
      ∙ nothing n
      ∙ sym (ap (λ l. joined (drop (length l - n) l)) alone)
]
  where
    nothing : (n : ℕ) → joined (drop (0 - n) []) ≡ joined (drop (1 - n) ([] ∷ []))
    nothing n = ap joined (drop_nil (0 - n)) ∙ elim (Bool-cases (nat_beq n 0)) [
      | inl e ↦ let z : 1 - n ≡ 1 = ground arith in ap (λ k. joined (drop k ([] ∷ []))) (sym z)
      | inr e ↦ let z : 1 - n ≡ 0 = ground arith in ap (λ k. joined (drop k ([] ∷ []))) (sym z)
    ]

-- What the guards of the read let through selects as described.
pub selected-IsSelected :
    (head tail : Option ℤ) (s : Text)
    → (given head && given tail) ≡ false
    → negative head ≡ false
    → negative tail ≡ false
    → IsSelected head tail s (selected head tail s)
unfolding selected
selected-IsSelected none none s both h t = refl
selected-IsSelected (some (pos n)) none s both h t = apply_head-lines s n
selected-IsSelected none (some (pos n)) s both h t = apply_tail-lines s n
selected-IsSelected (some (negsuc n)) tail s both h t = cc
selected-IsSelected none (some (negsuc n)) s both h t = cc
selected-IsSelected (some (pos n)) (some tail) s both h t = cc
