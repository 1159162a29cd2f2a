-- ===== src/Workspace/Lengths.antt =====
-- No part of a file that a read gives is longer than the file.
use sonalmod.Base.{
  ℕ, zero, suc, ◌-◌, ◌≤◌, Option, none, some, List, [], ◌∷◌, Text, text_eq, is_empty, length, take,
  drop, leb, nat_beq, arith, inl, inr, Bool-cases, length-append,
}
use sonalmod.Workspace.Paths.{split_on, join_on, add_char}
use sonalmod.Summarize.Truncating.{ℤ, pos, negsuc}
use sonalmod.Workspace.Read.{trim_newline, split_lines, apply_head, apply_tail, selected}

length-join_on-add_char :
    (sep c : ℕ) (l : List Text) → length (join_on sep (add_char c l)) ≤ suc (length (join_on sep l))
unfolding join_on
length-join_on-add_char sep c [] = omega arith
length-join_on-add_char sep c (w ∷ []) = omega arith
length-join_on-add_char sep c (w ∷ d ∷ l) = omega arith

length-join_on-empty :
    (sep : ℕ) (l : List Text) → length (join_on sep ([] ∷ l)) ≤ suc (length (join_on sep l))
unfolding join_on
length-join_on-empty sep [] = omega arith
length-join_on-empty sep (w ∷ l) = omega arith

length-join_on-split_on : (sep : ℕ) (s : Text) → length (join_on sep (split_on sep s)) ≤ length s
unfolding join_on split_on
length-join_on-split_on sep [] = omega arith
length-join_on-split_on sep (c ∷ s) =
    let rest = length-join_on-split_on sep s in
    elim (Bool-cases (nat_beq c sep)) [
      | inl same ↦ ground (arith, rest, length-join_on-empty sep (split_on sep s))
      | inr other ↦ ground (arith, rest, length-join_on-add_char sep c (split_on sep s))
    ]

length-join_on-take :
    (sep n : ℕ) (l : List Text) → length (join_on sep (take n l)) ≤ length (join_on sep l)
unfolding join_on
length-join_on-take sep zero l = omega arith
length-join_on-take sep (suc n) [] = omega arith
length-join_on-take sep (suc zero) (c ∷ []) = omega arith
length-join_on-take sep (suc (suc n)) (c ∷ []) = omega arith
length-join_on-take sep (suc zero) (c ∷ d ∷ l) =
    omega (arith, length-append c (sep ∷ join_on sep (d ∷ l)))
length-join_on-take sep (suc (suc n)) (c ∷ d ∷ l) = omega (
  arith,
  length-append c (sep ∷ join_on sep (d ∷ l)),
  length-append c (sep ∷ join_on sep (d ∷ take n l)),
  length-join_on-take sep (suc n) (d ∷ l),
)

length-join_on-drop :
    (sep n : ℕ) (l : List Text) → length (join_on sep (drop n l)) ≤ length (join_on sep l)
unfolding join_on
length-join_on-drop sep zero l = omega arith
length-join_on-drop sep (suc n) [] = omega arith
length-join_on-drop sep (suc zero) (c ∷ []) = omega arith
length-join_on-drop sep (suc (suc n)) (c ∷ []) = omega arith
length-join_on-drop sep (suc n) (c ∷ d ∷ l) =
    omega (arith, length-append c (sep ∷ join_on sep (d ∷ l)), length-join_on-drop sep n (d ∷ l))

length-trim_newline : (s : Text) → length (trim_newline s) ≤ length s
unfolding trim_newline
length-trim_newline [] = omega arith
length-trim_newline (c ∷ []) = ground arith
length-trim_newline (c ∷ d ∷ s) = omega (arith, length-trim_newline (d ∷ s))

length-split_lines : (s : Text) → length (join_on 10 (split_lines s)) ≤ length s
unfolding split_lines join_on
length-split_lines s =
    let cut = length-trim_newline s in
    let split = length-join_on-split_on 10 (trim_newline s) in
    elim (Bool-cases (is_empty s)) [
      | inl e ↦ ground (arith, cut, split)
      | inr e ↦ elim (Bool-cases (is_empty (trim_newline s))) [
        | inl f ↦ ground (arith, cut, split)
        | inr f ↦ ground (arith, cut, split)
      ]
    ]

length-apply_head : (s : Text) (n : ℕ) → length (apply_head s n) ≤ length s
unfolding apply_head
length-apply_head s n =
    let all = length-split_lines s in
    let some_ = length-join_on-take 10 n (split_lines s) in
    elim (Bool-cases (nat_beq n 0)) [
      | inl e ↦ ground (arith, all, some_)
      | inr e ↦ elim (Bool-cases (leb (length (split_lines s)) n)) [
        | inl f ↦ ground (arith, all, some_)
        | inr f ↦ ground (arith, all, some_)
      ]
    ]

length-apply_tail : (s : Text) (n : ℕ) → length (apply_tail s n) ≤ length s
unfolding apply_tail
length-apply_tail s n =
    let all = length-split_lines s in
    let some_ = length-join_on-drop 10 (length (split_lines s) - n) (split_lines s) in
    elim (Bool-cases (nat_beq n 0)) [
      | inl e ↦ ground (arith, all, some_)
      | inr e ↦ elim (Bool-cases (leb (length (split_lines s)) n)) [
        | inl f ↦ ground (arith, all, some_)
        | inr f ↦ ground (arith, all, some_)
      ]
    ]

pub length-selected : (head tail : Option ℤ) (s : Text) → length (selected head tail s) ≤ length s
unfolding selected
length-selected (some (pos n)) tail s = length-apply_head s n
length-selected (some (negsuc n)) tail s = omega arith
length-selected none (some (pos n)) s = length-apply_tail s n
length-selected none (some (negsuc n)) s = omega arith
length-selected none none s = omega arith
