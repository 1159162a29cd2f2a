-- ===== src/ProfileFiles/Created.antt =====
-- What `Get` returns after `Create`.
use sonalmod.Base.{
  ℕ, ◌≡◌, refl, ◌∙◌, ap, Bool, none, some, ◌++◌, Text, text, trim_space, is_space, text_eq, min,
  text_beq_iff, ◌⊎◌, inl, inr, if◌then◌else◌, arith, Bool-cases, lookup, insert, lookup-insert,
}
use sonalmod.Profiles.Defs.{Checked, AgentProfile, CreateParams, normalize_create_params}
use sonalmod.Profiles.Normal.{IsNormal, normalize_create_params-IsNormal}
use sonalmod.ProfileFiles.Markdown.{
  Frontmatter, ok, err, no_frontmatter, untimed, frontmatter_of, profile_text,
  parse_profile_markdown, decoded,
}
use sonalmod.ProfileFiles.Service.{
  ProfileFile, Directory, fine, created_time, timed, read_profile_file, create, write_profile_file,
}
use sonalmod.ProfileFiles.Parsing.{IsOpen, match_profile-profile_text, trim_space-append}
use sonalmod.ProfileFiles.Restoring.{IsKept, check_frontmatter-frontmatter_of, params_of}

module _ {X : Type 0} (encode : Frontmatter → X ⊎ Text) (decode : Text → X ⊎ Frontmatter) where
  -- The text of a normal profile parses to that profile.
  parse_profile_markdown-profile_text :
      (p : AgentProfile) (yaml : Text)
      → IsNormal (params_of p)
      → IsKept p.execution_settings
      → IsOpen (trim_space yaml)
      → decode (trim_space yaml) ≡ inr (frontmatter_of p)
      → parse_profile_markdown decode p.name (profile_text yaml p.instructions)
        ≡ ok (untimed (params_of p))
  unfolding parse_profile_markdown is_space
  parse_profile_markdown-profile_text p yaml v k o d =
      let body = trim_space p.instructions ++ text "\n" in
      let trimmed : trim_space body ≡ p.instructions =
        trim_space-append (trim_space p.instructions) 10 refl
        ∙ ap trim_space v.instructions_trimmed
        ∙ v.instructions_trimmed in
      ap (λ m. elim m [ none ↦ err no_frontmatter | some m ↦ decoded p.name (decode m.0) m.1 ])
        (match_profile-profile_text yaml p.instructions o)
      ∙ ap (λ r. decoded p.name r body) d
      ∙ check_frontmatter-frontmatter_of p body v k trimmed

  module _ (now : ℕ) (has_birth : Bool) where
    -- The profile that a creation at `now` returns.
    abbrev pub created : CreateParams → AgentProfile
    created q = record (untimed q) { created_at = now; updated_at = now }

    abbrev made_file : CreateParams → Text → ProfileFile X
    made_file q yaml = record {
      contents = inr (profile_text yaml q.instructions);
      birth = if has_birth then some now else none;
      modified = now;
    }

    made_times : (q : CreateParams) (yaml : Text) → timed (made_file q yaml) (untimed q) ≡ created q
    unfolding created_time
    made_times q yaml = elim (Bool-cases has_birth) [
      | inl b ↦ let once : min now now ≡ now = omega arith in ground arith
      | inr b ↦ ground arith
    ]

    create_lem :
        (params q : CreateParams) (yaml : Text) (dir : Directory X)
        → normalize_create_params params ≡ Checked.ok q
        → lookup q.name dir ≡ none
        → encode (frontmatter_of (untimed q)) ≡ inr yaml
        → create encode decode now has_birth fine params dir
          ≡ (ok (created q), insert q.name (made_file q yaml) dir)
    unfolding create write_profile_file
    create_lem params q yaml dir n fresh e =
        let stored = lookup-insert q.name q.name (made_file q yaml) dir in
        ground (arith, n, fresh, e, made_times q yaml, stored, (text_beq_iff q.name q.name).1 refl)

    read_profile_file-stored :
        (q : CreateParams) (yaml : Text) (dir : Directory X)
        → parse_profile_markdown decode q.name (profile_text yaml q.instructions) ≡ ok (untimed q)
        → read_profile_file encode decode q.name (insert q.name (made_file q yaml) dir)
          ≡ ok (created q)
    unfolding read_profile_file
    read_profile_file-stored q yaml dir parsed =
        let stored = lookup-insert q.name q.name (made_file q yaml) dir in
        ground (arith, made_times q yaml, stored, (text_beq_iff q.name q.name).1 refl)

    -- Parameters that are accepted, for a name that is free, give a profile whose times are the
    -- time of the write, and reading it, as `Get` does, then gives that profile. This holds where the decoder of YAML
    -- gives back the frontmatter from its encoding, no line of the encoding closes the frontmatter,
    -- and the settings are ones that the frontmatter keeps.
    pub read_profile_file-create :
        (params q : CreateParams) (yaml : Text) (dir : Directory X)
        → normalize_create_params params ≡ Checked.ok q
        → lookup q.name dir ≡ none
        → encode (frontmatter_of (untimed q)) ≡ inr yaml
        → decode (trim_space yaml) ≡ inr (frontmatter_of (untimed q))
        → IsOpen (trim_space yaml)
        → IsKept q.execution_settings
        → let made = create encode decode now has_birth fine params dir in
          (made.0 ≡ ok (created q))
          × (read_profile_file encode decode q.name made.1 ≡ ok (created q))
    read_profile_file-create params q yaml dir n fresh e d o k =
        let v = normalize_create_params-IsNormal params q n in
        let made = create_lem params q yaml dir n fresh e in
        let parsed = parse_profile_markdown-profile_text (untimed q) yaml v k o d in
        (
          ap (λ r. r.0) made,
          ap (λ r. read_profile_file encode decode q.name r.1) made
              ∙ read_profile_file-stored q yaml dir parsed,
        )
