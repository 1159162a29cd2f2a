-- ===== src/FileSessions/Unlistable.antt =====
-- A file that is no session makes the listing of its directory fail.
use sonalmod.Base.{
  ◌≡◌, refl, sym, ◌∙◌, ap, Bool, true, false, Option, none, some, List, [], ◌∷◌, ◌++◌, Text,
  text_eq, ◌==◌, is_empty, lookup, FilePath, path_eq, any, Bool-cases, inl, inr, arith,
  text_beq_iff, Dict, path_beq_iff,
}
use sonalmod.FileSessions.Disk.{
  Disk, File, Stored, Result, ok, err, parse_stored, parse_found, read_session,
}
use sonalmod.FileSessions.Service.{FileSession, load}
use sonalmod.FileSessions.Listing.{
  Entry, file, directory, same_entry, entry_in, add_entry, add_found, read_dir, session_id_of,
  collect, one, load_file, load_files, list,
}

-- Whether a listing of a directory has an entry.
abbrev has : Entry → List Entry → Bool
has e l = any (same_entry e) l

same_entry_refl : (n : Text) → same_entry (file n) (file n) ≡ true
same_entry_refl n = (text_beq_iff n n).1 refl

has-add_entry_self : (n : Text) (l : List Entry) → has (file n) (add_entry (file n) l) ≡ true
unfolding add_entry
has-add_entry_self n [] = ground (arith, same_entry_refl n)
has-add_entry_self n (file m ∷ l) = ground (arith, same_entry_refl n, has-add_entry_self n l)
has-add_entry_self n (directory m ∷ l) = ground (arith, same_entry_refl n, has-add_entry_self n l)

has-add_entry :
    (n : Text) (e : Entry) (l : List Entry)
    → has (file n) l ≡ true
    → has (file n) (add_entry e l) ≡ true
unfolding add_entry
has-add_entry n e [] h = cc
has-add_entry n e (f ∷ l) h = ground (arith, has-add_entry n e l)

entry_in-file : (dir : FilePath) (n : Text) → entry_in dir (dir ++ n ∷ []) ≡ some (file n)
unfolding entry_in
entry_in-file [] n = refl
entry_in-file (s ∷ dir) n = ground (arith, entry_in-file dir n, (text_beq_iff s s).1 refl)

has-add_found :
    (n : Text) (o : Option Entry) (l : List Entry)
    → has (file n) l ≡ true
    → has (file n) (add_found o l) ≡ true
has-add_found n none l h = h
has-add_found n (some e) l h = has-add_entry n e l h

has-read_dir :
    {A : Type 0} (dir : FilePath) (n : Text) (f : A) (disk : Dict FilePath A)
    → lookup (dir ++ n ∷ []) disk ≡ some f
    → has (file n) (read_dir dir disk) ≡ true
unfolding read_dir lookup
has-read_dir dir n f [] h = cc
has-read_dir dir n f ((path, g) ∷ disk) h = elim (Bool-cases (path == (dir ++ n ∷ []))) [
  | inl e ↦
      let same = (path_beq_iff path (dir ++ n ∷ [])).0 e in
      let found : entry_in dir path ≡ some (file n) =
        ap (entry_in dir) same ∙ entry_in-file dir n in
      rw found (has-add_entry_self n (read_dir dir disk))
  | inr e ↦
      has-add_found n (entry_in dir path) (read_dir dir disk)
        (has-read_dir dir n f disk (ground arith))
]

module _ {V P X : Type 0} (app_prefix user_prefix temp_prefix : Text) where
  collect_ok :
      (r rest : Result X (List (FileSession V P))) (l : List (FileSession V P))
      → collect app_prefix user_prefix temp_prefix r rest ≡ ok l
      → ((k : List (FileSession V P)) × (r ≡ ok k)) × ((m : List (FileSession V P)) × (rest ≡ ok m))
  collect_ok (err x) rest l h = cc
  collect_ok (ok k) (err x) l h = cc
  collect_ok (ok k) (ok m) l h = ((k, refl), (m, refl))

  one-load_ok :
      (app user sid : Text) (r : Result X (Stored V P)) (disk : Disk V P X)
      (l : List (FileSession V P))
      → one app_prefix user_prefix temp_prefix
          (load app_prefix user_prefix temp_prefix app user sid r disk)
        ≡ ok l
      → (s : Stored V P) × (r ≡ ok s)
  unfolding load
  one-load_ok app user sid (err x) disk l h = cc
  one-load_ok app user sid (ok s) disk l h = (s, refl)

  load_file_ok :
      (path : FilePath) (app user sid : Text) (f : File V P X) (disk : Disk V P X)
      (l : List (FileSession V P))
      → lookup path disk ≡ some f
      → load_file app_prefix user_prefix temp_prefix path app user (some sid) disk ≡ ok l
      → (s : Stored V P) × (parse_stored f ≡ ok s)
  load_file_ok path app user sid f disk l found h =
      let (s, e) = one-load_ok app user sid (read_session path sid disk) disk l h in
      let read : read_session path sid disk ≡ parse_stored f =
        unfold read_session in ap (parse_found sid) found in
      (s, sym read ∙ e)

  load_files_ok :
      (app user n : Text) (entries : List Entry) (disk : Disk V P X) (l : List (FileSession V P))
      → has (file n) entries ≡ true
      → load_files app_prefix user_prefix temp_prefix app user entries disk ≡ ok l
      → (k : List (FileSession V P)) × (load_file app_prefix user_prefix temp_prefix
            (app ∷ user ∷ n ∷ [])
            app
            user
            (session_id_of n)
            disk
          ≡ ok k)
  unfolding load_files
  load_files_ok app user n [] disk l there h = cc
  load_files_ok app user n (directory m ∷ r) disk l there h =
      load_files_ok app user n r disk l there h
  load_files_ok app user n (file m ∷ r) disk l there h =
      let both =
        collect_ok
          (load_file app_prefix user_prefix temp_prefix (app ∷ user ∷ m ∷ []) app user
            (session_id_of m) disk)
          (load_files app_prefix user_prefix temp_prefix app user r disk) l h in
      elim (Bool-cases (n == m)) [
        | inl e ↦
            let same = (text_beq_iff n m).0 e in
            (
              both.0.0,
              ap
                    (λ x.
                      load_file app_prefix user_prefix temp_prefix (app ∷ user ∷ x ∷ []) app user
                        (session_id_of x) disk)
                    same
                  ∙ both.0.1,
            )
        | inr e ↦ load_files_ok app user n r disk both.1.0 (ground arith) both.1.1
      ]

  -- If the sessions of an app and a user are listed, each file of their directory whose name ends
  -- in `.json` holds a session: one that does not parse, such as the index that the metadata store
  -- keeps there, makes the listing fail.
  pub list_ok-parses :
      (app user n sid : Text) (f : File V P X) (disk : Disk V P X) (l : List (FileSession V P))
      → is_empty app ≡ false
      → is_empty user ≡ false
      → lookup (app ∷ user ∷ n ∷ []) disk ≡ some f
      → session_id_of n ≡ some sid
      → list app_prefix user_prefix temp_prefix app user disk ≡ ok l
      → (s : Stored V P) × (parse_stored f ≡ ok s)
  unfolding list
  list_ok-parses app user n sid f disk l a u found named h =
      let entries = read_dir (app ∷ user ∷ []) disk in
      let listed : load_files app_prefix user_prefix temp_prefix app user entries disk ≡ ok l =
        ground arith in
      let there = has-read_dir (app ∷ user ∷ []) n f disk found in
      let (k, loaded) = load_files_ok app user n entries disk l there listed in
      load_file_ok (app ∷ user ∷ n ∷ []) app user sid f disk k found (
        ap (λ o. load_file app_prefix user_prefix temp_prefix (app ∷ user ∷ n ∷ []) app user o disk)
          (sym named)
        ∙ loaded)
