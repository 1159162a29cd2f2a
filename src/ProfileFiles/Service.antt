-- ===== src/ProfileFiles/Service.antt =====
-- The operations of `FileAgentProfilesService`. The directory maps the name of a profile to its
-- file; files of other extensions and directories are passed over by the source and are not here.
-- A file has the times that `os.Stat` gives; the time of its birth is missing on some systems.
use sonalmod.Base.{
  ℕ, Bool, Option, none, some, List, [], ◌∷◌, Text, text_eq, Dict, lookup, insert, erase, min, ltb,
  nat_beq, ◌⊎◌, inl, inr, if◌then◌else◌,
}
use sonalmod.Profiles.Defs.{
  Checked, AgentProfile, CreateParams, UpdateParams, normalize_create_params, apply_profile_update,
}
use sonalmod.ProfileFiles.Markdown.{
  Frontmatter, read, write, marshal, remove, FileError, rejected, not_found, name_conflict, system,
  Result, ok, err, untimed, parse_profile_markdown, frontmatter_of, profile_text,
}
use sonalmod.FileSessions.Listing.{text_ltb}

pub record ProfileFile (X : Type 0) : Type 0 where
  pub contents : X ⊎ Text
  pub birth : Option ℕ
  pub modified : ℕ

abbrev pub Directory : Type 0 → Type 0
Directory X = Dict Text (ProfileFile X)

-- What the system answers to a write, whose failure may leave other contents.
pub data Written (X : Type 0) : Type 0 where
  fine : Written X
  refused : X → Written X
  torn : X → Text → Written X

-- `creationTimeFromFileInfo` and the rules of `profileTimestampsFromFileInfo`: the birth, or the
-- last change where there is none or it is earlier.
unfoldable pub created_time : Option ℕ → ℕ → ℕ
created_time none modified = modified
created_time (some b) modified = min b modified

module _ {X : Type 0} where
  -- A profile with the times of its file.
  abbrev pub timed : ProfileFile X → AgentProfile → AgentProfile
  timed f p = record p { created_at = created_time f.birth f.modified; updated_at = f.modified }

  abbrev pub timed_result : ProfileFile X → Result X AgentProfile → Result X AgentProfile
  timed_result f (err e) = err e
  timed_result f (ok p) = ok (timed f p)

  abbrev pub birth_of : Option (ProfileFile X) → ℕ → Option ℕ
  birth_of none now = some now
  birth_of (some f) now = f.birth

module _ {X : Type 0} (encode : Frontmatter → X ⊎ Text) (decode : Text → X ⊎ Frontmatter) where
  abbrev pub read_found : Text → Option (ProfileFile X) → Result X AgentProfile
  read_found name none = err (not_found name)
  read_found name (some f) = elim f.contents [
    | inl x ↦ err (system read x)
    | inr s ↦ timed_result f (parse_profile_markdown decode name s)
  ]

  -- `readProfileFile`
  unfoldable pub read_profile_file : Text → Directory X → Result X AgentProfile
  unfolding parse_profile_markdown
  read_profile_file name dir = read_found name (lookup name dir)

  -- `Get`
  unfoldable pub get : Text → Directory X → Result X AgentProfile
  unfolding read_profile_file
  get name dir = read_profile_file name dir

  -- The order of `List`: by creation, then by name.
  unfoldable pub before : AgentProfile → AgentProfile → Bool
  unfolding text_ltb
  before p q =
      if nat_beq p.created_at q.created_at
      then text_ltb p.name q.name
      else ltb p.created_at q.created_at

  unfoldable pub insert_ordered : AgentProfile → List AgentProfile → List AgentProfile
  insert_ordered p [] = p ∷ []
  insert_ordered p (q ∷ l) =
      let rest = insert_ordered p l in if before q p then q ∷ rest else p ∷ q ∷ l

  abbrev pub add_profile :
      Result X AgentProfile → Result X (List AgentProfile) → Result X (List AgentProfile)
  add_profile (err e) rest = err e
  add_profile (ok p) (err e) = err e
  add_profile (ok p) (ok l) = ok (insert_ordered p l)

  -- `List`, its loop and its sort together; the files are in the order of the map, which decides the
  -- first error.
  unfoldable pub list : Directory X → Result X (List AgentProfile)
  list [] = ok []
  list ((name, f) ∷ dir) = add_profile (read_found name (some f)) (list dir)

  module _ (now : ℕ) (has_birth : Bool) (answer : Written X) where
    -- The file that a write of a text leaves: a new one is born now, where births are kept.
    abbrev pub written_file : Text → Text → Directory X → ProfileFile X
    written_file name s dir = record {
      contents = inr s;
      birth = if has_birth then birth_of (lookup name dir) now else none;
      modified = now;
    }

    abbrev pub write_text :
        Written X → Text → Text → Directory X → Option (FileError X) × Directory X
    write_text fine name s dir = (none, insert name (written_file name s dir) dir)
    write_text (refused x) name s dir = (some (system write x), dir)
    write_text (torn x left) name s dir =
        (some (system write x), insert name (written_file name left dir) dir)

    abbrev pub write_encoded :
        X ⊎ Text → Text → AgentProfile → Directory X → Option (FileError X) × Directory X
    write_encoded (inl x) name p dir = (some (system marshal x), dir)
    write_encoded (inr yaml) name p dir =
        write_text answer name (profile_text yaml p.instructions) dir

    -- `writeProfileFile`
    unfoldable pub write_profile_file :
        Text → AgentProfile → Directory X → Option (FileError X) × Directory X
    unfolding frontmatter_of profile_text
    write_profile_file name p dir = write_encoded (encode (frontmatter_of p)) name p dir

    -- `profileTimestampsFromPath`, and the profile with what it gives.
    abbrev pub stamped : (ProfileFile X → AgentProfile) → Text → Directory X → Result X AgentProfile
    stamped f name dir = elim (lookup name dir) [
      | none ↦ err (not_found name)
      | some file ↦ ok (f file)
    ]

    abbrev pub finish :
        (ProfileFile X → AgentProfile)
        → Text
        → Option (FileError X) × Directory X
        → Result X AgentProfile × Directory X
    finish f name (some e, dir) = (err e, dir)
    finish f name (none, dir) = (stamped f name dir, dir)

    abbrev pub create_checked :
        Checked CreateParams → Directory X → Result X AgentProfile × Directory X
    create_checked (Checked.err e) dir = (err (rejected e), dir)
    create_checked (Checked.ok p) dir = elim (lookup p.name dir) [
      | some _ ↦ (err (name_conflict p.name), dir)
      | none ↦ finish (λ f. timed f (untimed p)) p.name (write_profile_file p.name (untimed p) dir)
    ]

    -- `Create`
    unfoldable pub create : CreateParams → Directory X → Result X AgentProfile × Directory X
    unfolding normalize_create_params write_profile_file
    create params dir = create_checked (normalize_create_params params) dir

    abbrev pub update_checked :
        Text
        → AgentProfile
        → Checked AgentProfile
        → Directory X
        → Result X AgentProfile × Directory X
    update_checked name old (Checked.err e) dir = (err (rejected e), dir)
    update_checked name old (Checked.ok p) dir =
        finish (λ f. record p { created_at = old.created_at; updated_at = f.modified }) name
          (write_profile_file name p dir)

    abbrev pub update_read :
        Text
        → UpdateParams
        → Result X AgentProfile
        → Directory X
        → Result X AgentProfile × Directory X
    update_read name params (err e) dir = (err e, dir)
    update_read name params (ok old) dir =
        update_checked name old (apply_profile_update old params) dir

    -- `Update`
    unfoldable pub update : Text → UpdateParams → Directory X → Result X AgentProfile × Directory X
    unfolding read_profile_file apply_profile_update write_profile_file
    update name params dir = update_read name params (read_profile_file name dir) dir

  -- `Delete`; `fault` is an error of the removal of a file that is there.
  unfoldable pub delete : Option X → Text → Directory X → Option (FileError X) × Directory X
  delete fault name dir = elim (lookup name dir) [
    | none ↦ (some (not_found name), dir)
    | some _ ↦ elim fault [ some x ↦ (some (system remove x), dir) | none ↦ (none, erase name dir) ]
  ]
