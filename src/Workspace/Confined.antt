-- ===== src/Workspace/Confined.antt =====
-- A path that is accepted stays in the workspace.
use sonalmod.Base.{
  ℕ, ◌≡◌, refl, sym, ◌∙◌, ap, Bool, true, false, List, [], ◌∷◌, Text, text_eq, text_beq, ◌==◌,
  text_beq_iff, is_empty, trim_space, has_prefix, nat_beq, any, ◌⊎◌, inl, inr, if◌then◌else◌, arith,
  if_true, if_false,
}
use mathlib.Core.Path.{subst}
use sonalmod.Workspace.Paths.{
  dot, up, add_char, split_on, pop, push, clean_parts, rev_onto, join_on, or_dot, clean, ok, err,
  escapes, checked, sanitize_relative_path,
}

abbrev pub has_slash : Text → Bool
has_slash s = any (λ c. nat_beq c 47) s

-- A component that names an entry of the directory it stands in.
pub record IsEntry (c : Text) : Type 0 where
  pub given : is_empty c ≡ false
  pub not_dot : (c == dot) ≡ false
  pub not_up : (c == up) ≡ false
  pub whole : has_slash c ≡ false

abbrev pub AreEntries : List Text → Type 0
AreEntries [] = Unit
AreEntries (c ∷ l) = IsEntry c × AreEntries l

abbrev AreWhole : List Text → Type 0
AreWhole [] = Unit
AreWhole (c ∷ l) = (has_slash c ≡ false) × AreWhole l

abbrev AreUp : List Text → Type 0
AreUp [] = Unit
AreUp (c ∷ l) = (c ≡ up) × AreUp l

-- Entries on top of steps up.
abbrev IsStack : List Text → Type 0
IsStack [] = Unit
IsStack (t ∷ stack) = (IsEntry t × IsStack stack) ⊎ ((t ≡ up) × AreUp stack)

add_char-AreWhole :
    (c : ℕ) (l : List Text) → nat_beq c 47 ≡ false → AreWhole l → AreWhole (add_char c l)
add_char-AreWhole c [] h w = (ground arith, tt)
add_char-AreWhole c (d ∷ l) h w = (ground (arith, w.0), w.1)

split_on-AreWhole : (s : Text) → AreWhole (split_on 47 s)
unfolding split_on
split_on-AreWhole [] = (refl, tt)
split_on-AreWhole (c ∷ s) = split_at (nat_beq c 47) c refl (split_on 47 s) (split_on-AreWhole s)
  where
    split_at :
        (b : Bool) (c : ℕ)
        → nat_beq c 47 ≡ b
        → (l : List Text) → AreWhole l
        → AreWhole (if b then [] ∷ l else add_char c l)
    split_at true c h l w = (refl, w)
    split_at false c h l w = add_char-AreWhole c l h w

AreUp-IsStack : (l : List Text) → AreUp l → IsStack l
AreUp-IsStack [] a = tt
AreUp-IsStack (c ∷ l) a = inr a

if-IsStack :
    (b : Bool) (x y : List Text)
    → (b ≡ true → IsStack x)
    → (b ≡ false → IsStack y)
    → IsStack (if b then x else y)
if-IsStack true x y p q = p refl
if-IsStack false x y p q = q refl

pop-IsStack : (stack : List Text) → IsStack stack → IsStack (pop stack)
unfolding pop
pop-IsStack [] s = inr (refl, tt)
pop-IsStack (t ∷ stack) (inl (e, s)) =
    subst IsStack (sym (if_false (t == up) (up ∷ t ∷ stack) stack e.not_up)) s
pop-IsStack (t ∷ stack) (inr (e, a)) =
    subst IsStack (sym (if_true (t == up) (up ∷ t ∷ stack) stack ((text_beq_iff t up).1 e)))
      (inr (refl, (e, a)))

push-IsStack :
    (stack : List Text) (c : Text) → has_slash c ≡ false → IsStack stack → IsStack (push stack c)
unfolding push
push-IsStack stack c w s =
    if-IsStack (is_empty c) stack _ (λ e. s)
      λ given.
        if-IsStack (c == dot) stack _ (λ e. s)
          λ not_dot.
            if-IsStack (c == up) (pop stack) (c ∷ stack) (λ e. pop-IsStack stack s)
              λ not_up.
                inl (record { given = given; not_dot = not_dot; not_up = not_up; whole = w }, s)

clean_parts-IsStack :
    (l stack : List Text) → AreWhole l → IsStack stack → IsStack (clean_parts stack l)
unfolding clean_parts
clean_parts-IsStack [] stack w s = s
clean_parts-IsStack (c ∷ l) stack w s =
    clean_parts-IsStack l (push stack c) w.1 (push-IsStack stack c w.0 s)

-- Steps up come first in a path.
rev_onto-AreUp :
    (stack l : List Text) → AreUp stack → (rest : List Text) × (rev_onto stack (up ∷ l) ≡ up ∷ rest)
rev_onto-AreUp [] l a = (l, refl)
rev_onto-AreUp (t ∷ stack) l a =
    let (rest, same) = rev_onto-AreUp stack (up ∷ l) a.1 in
    (rest, ap (λ c. rev_onto stack (c ∷ up ∷ l)) a.0 ∙ same)

rev_onto-IsStack :
    (stack l : List Text)
    → IsStack stack
    → AreEntries l
    → AreEntries (rev_onto stack l) ⊎ ((rest : List Text) × (rev_onto stack l ≡ up ∷ rest))
rev_onto-IsStack [] l s e = inl e
rev_onto-IsStack (t ∷ stack) l (inl (entry, s)) e = rev_onto-IsStack stack (t ∷ l) s (entry, e)
rev_onto-IsStack (t ∷ stack) l (inr (at, a)) e =
    let (rest, same) = rev_onto-AreUp stack l a in
    inr (rest, ap (λ c. rev_onto stack (c ∷ l)) at ∙ same)

-- A path that begins with a step up is refused.
checked-up : (rest : List Text) → checked (or_dot (up ∷ rest)) ≡ err escapes
unfolding checked join_on has_prefix text_beq
checked-up [] = refl
checked-up (c ∷ rest) = refl

checked_ok : (name out : Text) → checked name ≡ ok out → name ≡ out
unfolding checked
checked_ok name out h = ground arith

-- A path that is accepted comes out as entries joined by slashes, none of them empty, `.` or `..`
-- and none with a slash in it, or as `.` for the workspace itself: it does not leave the workspace.
pub sanitize_relative_path-AreEntries :
    (p name : Text)
    → sanitize_relative_path p ≡ ok name
    → (parts : List Text) × AreEntries parts × (name ≡ or_dot parts)
unfolding sanitize_relative_path clean
sanitize_relative_path-AreEntries p name h =
    let parts = rev_onto (clean_parts [] (split_on 47 (trim_space p))) [] in
    let accepted : checked (or_dot parts) ≡ ok name = ground arith in
    let stack =
      clean_parts-IsStack (split_on 47 (trim_space p)) [] (split_on-AreWhole (trim_space p)) tt in
    elim (rev_onto-IsStack (clean_parts [] (split_on 47 (trim_space p))) [] stack tt) [
      | inl entries ↦ (parts, entries, sym (checked_ok (or_dot parts) name accepted))
      | inr (rest, same) ↦
          absurd (cc (sym accepted ∙ ap (λ l. checked (or_dot l)) same ∙ checked-up rest))
    ]
