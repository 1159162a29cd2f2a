-- ===== src/FileSessions/Listing.antt =====
-- `List` of `FileSessionService`. A directory of the disk is read off the paths below it; its
-- entries are sorted by name, as `os.ReadDir` gives them. A directory that holds no file is not
-- there, and `List` answers alike for both.
use sonalmod.Base.{
  Bool, true, false, Option, none, some, List, [], ◌∷◌, ◌++◌, Text, text, text_eq, ◌==◌, is_empty,
  FilePath, path_eq, if◌then◌else◌, ltb, nat_beq, Dict,
}
use sonalmod.FileSessions.Disk.{Disk, fields_required, Result, ok, err, read_session}
use sonalmod.FileSessions.Service.{FileSession, load}

pub data Entry : Type 0 where
  file : Text → Entry
  directory : Text → Entry

abbrev pub entry_name : Entry → Text
entry_name (file n) = n
entry_name (directory n) = n

abbrev pub same_entry : Entry → Entry → Bool
same_entry (file m) (file n) = m == n
same_entry (directory m) (directory n) = m == n
same_entry (file m) (directory n) = false
same_entry (directory m) (file n) = false

-- The order of texts by code point.
unfoldable pub text_ltb : Text → Text → Bool
text_ltb s [] = false
text_ltb [] (d ∷ t) = true
text_ltb (c ∷ s) (d ∷ t) =
    let rest = text_ltb s t in if ltb c d then true else if nat_beq c d then rest else false

-- What a path is in a directory.
unfoldable pub entry_in : FilePath → FilePath → Option Entry
entry_in [] [] = none
entry_in [] (n ∷ []) = some (file n)
entry_in [] (n ∷ _ ∷ _) = some (directory n)
entry_in (s ∷ dir) [] = none
entry_in (s ∷ dir) (t ∷ path) = let rest = entry_in dir path in if s == t then rest else none

-- A sorted list of entries with one more, once.
unfoldable pub add_entry : Entry → List Entry → List Entry
unfolding text_ltb
add_entry e [] = e ∷ []
add_entry e (f ∷ l) =
    let rest = add_entry e l in
    if same_entry e f
    then f ∷ l
    else if text_ltb (entry_name e) (entry_name f)
    then e ∷ f ∷ l
    else f ∷ rest

abbrev pub add_found : Option Entry → List Entry → List Entry
add_found none l = l
add_found (some e) l = add_entry e l

-- `os.ReadDir`
unfoldable pub read_dir : {A : Type 0} → FilePath → Dict FilePath A → List Entry
unfolding add_entry entry_in
read_dir dir [] = []
read_dir dir ((path, f) ∷ disk) = add_found (entry_in dir path) (read_dir dir disk)

-- `strings.TrimSuffix(name, ".json")` of a name that has the suffix.
unfoldable pub session_id_of : Text → Option Text
session_id_of [] = none
session_id_of (c ∷ s) =
    let rest = session_id_of s in
    if (c ∷ s) == text ".json" then some [] else elim rest [ none ↦ none | some id ↦ some (c ∷ id) ]

module _ {V P X : Type 0} (app_prefix user_prefix temp_prefix : Text) where
  -- `if err != nil { return nil, err }` in a loop that appends what it loads.
  abbrev pub collect :
      Result X (List (FileSession V P))
      → Result X (List (FileSession V P))
      → Result X (List (FileSession V P))
  collect (err x) rest = err x
  collect (ok l) (err x) = err x
  collect (ok l) (ok m) = ok (l ++ m)

  abbrev pub one : Result X (FileSession V P) → Result X (List (FileSession V P))
  one (err x) = err x
  one (ok s) = ok (s ∷ [])

  -- `loadSessionMetadata` of a file with the suffix; an app's own directory has no user.
  abbrev pub load_file :
      FilePath → Text → Text → Option Text → Disk V P X → Result X (List (FileSession V P))
  load_file path app user none disk = ok []
  load_file path app user (some sid) disk =
      one (load app_prefix user_prefix temp_prefix app user sid (read_session path sid disk) disk)

  -- The loop of `listSessionsInDir`.
  unfoldable pub load_files :
      Text → Text → List Entry → Disk V P X → Result X (List (FileSession V P))
  unfolding load read_session session_id_of
  load_files app user [] disk = ok []
  load_files app user (directory n ∷ l) disk = load_files app user l disk
  load_files app user (file n ∷ l) disk =
      collect (load_file (app ∷ user ∷ n ∷ []) app user (session_id_of n) disk)
        (load_files app user l disk)

  -- The loop of `List` over all users of an app.
  unfoldable pub load_users : Text → List Entry → Disk V P X → Result X (List (FileSession V P))
  unfolding load_files read_dir
  load_users app [] disk = ok []
  load_users app (directory user ∷ l) disk =
      collect (load_files app user (read_dir (app ∷ user ∷ []) disk) disk) (load_users app l disk)
  load_users app (file n ∷ l) disk =
      collect (load_file (app ∷ n ∷ []) app [] (session_id_of n) disk) (load_users app l disk)

  -- `List`
  unfoldable pub list : Text → Text → Disk V P X → Result X (List (FileSession V P))
  unfolding load_users load_files read_dir
  list app user disk =
      if is_empty app
      then err fields_required
      else if is_empty user
      then load_users app (read_dir (app ∷ []) disk) disk
      else load_files app user (read_dir (app ∷ user ∷ []) disk) disk
