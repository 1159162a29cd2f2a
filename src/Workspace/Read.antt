-- ===== src/Workspace/Read.antt =====
-- `ReadTextFile` of read.go. The contents of a file are its bytes, and `valid` is `utf8.Valid`; a
-- path and the name of a workspace come as JSON strings and are their code points. A directory
-- that `os.Root` opens is a map from sanitised paths to files. `X` is an error of the system.
use sonalmod.Base.{
  ℕ, zero, suc, ◌-◌, Bool, true, false, ◌&&◌, Option, none, some, List, [], ◌∷◌, Text, text_eq,
  is_empty, trim_space, Dict, lookup, length, take, drop, leb, nat_beq, ltb, if◌then◌else◌,
}
use sonalmod.Summarize.Truncating.{ℤ, pos, negsuc}
use sonalmod.Workspace.Paths.{Sanitized, PathError, split_on, join_on, sanitize_relative_path}
use sonalmod.Workspace.Paths

-- What `Open` and the reading of a file give.
pub data File (X : Type 0) : Type 0 where
  contents : Text → File X
  no_open no_read : X → File X

abbrev pub Root : Type 0 → Type 0
Root X = Dict Text (File X)

-- `Service`, the fields that reading uses; `by_id` has all of the entries.
pub record Service (X : Type 0) : Type 0 where
  pub by_id : Dict Text (Root X)
  pub max_read_bytes : ℤ

pub record ReadTextFileRequest : Type 0 where
  pub path : Text
  pub workspace : Text
  pub head : Option ℤ
  pub tail : Option ℤ

pub data ReadError (X : Type 0) : Type 0 where
  cancelled : X → ReadError X
  head_and_tail negative_head negative_tail path_required : ReadError X
  no_workspaces workspace_required workspace_unknown : ReadError X
  bad_path : PathError → ReadError X
  not_exist limit_not_positive too_large not_utf8 : ReadError X
  open_failed read_failed : X → ReadError X

pub data Result (X A : Type 0) : Type 0 where
  ok : A → Result X A
  err : ReadError X → Result X A

-- `strings.TrimSuffix(s, "\n")`
unfoldable pub trim_newline : Text → Text
trim_newline [] = []
trim_newline (c ∷ []) = if nat_beq c 10 then [] else c ∷ []
trim_newline (c ∷ d ∷ s) = c ∷ trim_newline (d ∷ s)

-- `splitLines`
unfoldable pub split_lines : Text → List Text
unfolding trim_newline split_on
split_lines s =
    if is_empty s
    then []
    else if is_empty (trim_newline s)
    then []
    else split_on 10 (trim_newline s)

-- `applyHead`
unfoldable pub apply_head : Text → ℕ → Text
unfolding split_lines join_on
apply_head s n =
    let lines = split_lines s in
    if nat_beq n 0
    then []
    else if leb (length lines) n
    then join_on 10 lines
    else join_on 10 (take n lines)

-- `applyTail`
unfoldable pub apply_tail : Text → ℕ → Text
unfolding split_lines join_on
apply_tail s n =
    let lines = split_lines s in
    if nat_beq n 0
    then []
    else if leb (length lines) n
    then join_on 10 lines
    else join_on 10 (drop (length lines - n) lines)

abbrev pub negative : Option ℤ → Bool
negative none = false
negative (some (pos n)) = false
negative (some (negsuc n)) = true

abbrev pub given : Option ℤ → Bool
given none = false
given (some _) = true

-- The lines that the request asks for.
unfoldable pub selected : Option ℤ → Option ℤ → Text → Text
unfolding apply_head apply_tail
selected (some (pos n)) tail s = apply_head s n
selected (some (negsuc n)) tail s = s
selected none (some (pos n)) s = apply_tail s n
selected none (some (negsuc n)) s = s
selected none none s = s

module _ {X : Type 0} where
  abbrev pub no_roots : Dict Text (Root X) → Bool
  no_roots [] = true
  no_roots (_ ∷ _) = false

  abbrev pub found_root : Option (Root X) → Result X (Root X)
  found_root none = err workspace_unknown
  found_root (some root) = ok root

  -- `pickWorkspace`
  unfoldable pub pick_workspace : Service X → Text → Result X (Root X)
  pick_workspace s field =
      if no_roots s.by_id
      then err no_workspaces
      else if is_empty (trim_space field)
      then err workspace_required
      else found_root (lookup (trim_space field) s.by_id)

  -- `readAllLimited`
  unfoldable pub read_all_limited : ℤ → File X → Result X Text
  read_all_limited (negsuc n) f = err limit_not_positive
  read_all_limited (pos zero) f = err limit_not_positive
  read_all_limited (pos (suc n)) (no_open x) = err (open_failed x)
  read_all_limited (pos (suc n)) (no_read x) = err (read_failed x)
  read_all_limited (pos (suc n)) (contents data_) =
      if ltb (suc n) (length data_) then err too_large else ok data_

  -- The file, opened and read.
  abbrev pub read_opened : ℤ → Option (File X) → Result X Text
  read_opened limit none = err not_exist
  read_opened limit (some (no_open x)) = err (open_failed x)
  read_opened limit (some (no_read x)) = read_all_limited limit (no_read x)
  read_opened limit (some (contents data_)) = read_all_limited limit (contents data_)

  module _ (valid : Text → Bool) where
    abbrev pub read_valid : ReadTextFileRequest → Result X Text → Result X Text
    read_valid req (err e) = err e
    read_valid req (ok data_) =
        if valid data_ then ok (selected req.head req.tail data_) else err not_utf8

    abbrev pub read_path : Service X → ReadTextFileRequest → Root X → Sanitized → Result X Text
    read_path s req root (Paths.err e) = err (bad_path e)
    read_path s req root (Paths.ok name) =
        read_valid req (read_opened s.max_read_bytes (lookup name root))

    abbrev pub read_root : Service X → ReadTextFileRequest → Result X (Root X) → Result X Text
    read_root s req (err e) = err e
    read_root s req (ok root) = read_path s req root (sanitize_relative_path req.path)

    -- `ReadTextFile`; `done` is the error of a context that is done.
    unfoldable pub read_text_file : Option X → Service X → ReadTextFileRequest → Result X Text
    unfolding pick_workspace read_all_limited selected sanitize_relative_path
    read_text_file (some x) s req = err (cancelled x)
    read_text_file none s req =
        if given req.head && given req.tail
        then err head_and_tail
        else if negative req.head
        then err negative_head
        else if negative req.tail
        then err negative_tail
        else if is_empty (trim_space req.path)
        then err path_required
        else read_root s req (pick_workspace s req.workspace)
