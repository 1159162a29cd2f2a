-- ===== src/Workspace/Paths.antt =====
-- `sanitizeRelativePath` of read.go, with `filepath.Clean` where the separator is a slash. A path
-- comes as a JSON string and is the list of its code points.
use sonalmod.Base.{
  ℕ, ◌||◌, List, [], ◌∷◌, ◌++◌, Text, text, text_eq, ◌==◌, is_empty, trim_space, has_prefix,
  nat_beq, if◌then◌else◌,
}

abbrev pub dot : Text
dot = text "."

abbrev pub up : Text
up = text ".."

abbrev pub add_char : ℕ → List Text → List Text
add_char c [] = (c ∷ []) ∷ []
add_char c (w ∷ l) = (c ∷ w) ∷ l

-- `strings.Split` at a character.
unfoldable pub split_on : ℕ → Text → List Text
split_on sep [] = [] ∷ []
split_on sep (c ∷ s) =
    let rest = split_on sep s in if nat_beq c sep then [] ∷ rest else add_char c rest

-- The components kept so far, the last one first, with one more.
unfoldable pub pop : List Text → List Text
pop [] = up ∷ []
pop (t ∷ stack) = if t == up then up ∷ t ∷ stack else stack

unfoldable pub push : List Text → Text → List Text
unfolding pop
push stack c =
    if is_empty c
    then stack
    else if c == dot
    then stack
    else if c == up
    then pop stack
    else c ∷ stack

unfoldable pub clean_parts : List Text → List Text → List Text
unfolding push
clean_parts stack [] = stack
clean_parts stack (c ∷ l) = clean_parts (push stack c) l

abbrev pub rev_onto : List Text → List Text → List Text
rev_onto [] l = l
rev_onto (t ∷ stack) l = rev_onto stack (t ∷ l)

-- `strings.Join` with a character.
unfoldable pub join_on : ℕ → List Text → Text
join_on sep [] = []
join_on sep (c ∷ []) = c
join_on sep (c ∷ d ∷ l) = c ++ sep ∷ join_on sep (d ∷ l)

abbrev pub or_dot : List Text → Text
or_dot [] = dot
or_dot (c ∷ l) = join_on 47 (c ∷ l)

-- `filepath.Clean` of a path that does not begin with a slash.
unfoldable pub clean : Text → Text
unfolding split_on clean_parts join_on
clean p = or_dot (rev_onto (clean_parts [] (split_on 47 p)) [])

pub data PathError : Type 0 where
  absolute escapes : PathError

pub data Sanitized : Type 0 where
  ok : Text → Sanitized
  err : PathError → Sanitized

unfoldable pub checked : Text → Sanitized
checked name = if name == up || has_prefix (text "../") name then err escapes else ok name

-- `sanitizeRelativePath`
unfoldable pub sanitize_relative_path : Text → Sanitized
unfolding clean checked
sanitize_relative_path p =
    let q = trim_space p in if has_prefix (text "/") q then err absolute else checked (clean q)
