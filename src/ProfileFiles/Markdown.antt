-- ===== src/ProfileFiles/Markdown.antt =====
-- The text of a profile file, its frontmatter, and `parseProfileMarkdown`. The YAML encoder and
-- decoder are parameters. `X` is an error of theirs or of the system.
use sonalmod.Base.{
  ℕ, Bool, true, false, ◌&&◌, not, Option, none, some, List, [], ◌∷◌, ◌++◌, Text, text, text_eq,
  ◌==◌, is_empty, trim_space, cut_prefix, nat_beq, ◌||◌, ◌⊎◌, inl, inr, if◌then◌else◌,
}
use sonalmod.Profiles.Defs.{
  ProfileError, Checked, AgentCommand, ExecutionSettings, AgentProfile, CreateParams, mode_regular,
  mode_acp_stdio, mode_or_default, normalize_create_params,
}

-- `agentProfileExecutionFrontmatter`
pub record ExecutionFrontmatter : Type 0 where
  pub mode : Text
  pub default_model : Text
  pub agent_command : Option AgentCommand
  pub cwd : Text

-- `agentProfileFrontmatter`
pub record Frontmatter : Type 0 where
  pub name : Text
  pub display_name : Text
  pub role : Text
  pub description : Text
  pub model : Text
  pub tools : List Text
  pub execution_settings : Option ExecutionFrontmatter

pub data Stage : Type 0 where
  read stat write marshal remove unmarshal : Stage

pub data FileError (X : Type 0) : Type 0 where
  rejected : ProfileError → FileError X
  not_found name_conflict : Text → FileError X
  no_frontmatter no_name no_role no_model no_instructions name_mismatch : FileError X
  invalid : ProfileError → FileError X
  system : Stage → X → FileError X

pub data Result (X A : Type 0) : Type 0 where
  ok : A → Result X A
  err : FileError X → Result X A

-- `[ \t]*`
unfoldable pub skip_blanks : Text → Text
skip_blanks [] = []
skip_blanks (c ∷ s) =
    let rest = skip_blanks s in if nat_beq c 32 || nat_beq c 9 then rest else c ∷ s

-- `\r?`, `\n?` and a `\n` that has to be there.
abbrev pub skip_char : ℕ → Text → Text
skip_char k [] = []
skip_char k (c ∷ s) = if nat_beq c k then s else c ∷ s

abbrev pub expect_char : ℕ → Text → Option Text
expect_char k [] = none
expect_char k (c ∷ s) = if nat_beq c k then some s else none

-- `\r?\n---`
unfoldable pub cut_close : Text → Option Text
unfolding cut_prefix
cut_close s = elim (cut_prefix (text "\r\n---") s) [
  | some r ↦ some r
  | none ↦ cut_prefix (text "\n---") s
]

-- `(.*?)\r?\n---(.*)`: the first place where the frontmatter may end.
unfoldable pub find_close : Text → Option (Text × Text)
unfolding cut_close
find_close [] = none
find_close (c ∷ s) =
    let later = find_close s in
    elim (cut_close (c ∷ s)) [
      | some rest ↦ some ([], rest)
      | none ↦ elim later [ none ↦ none | some m ↦ some (c ∷ m.0, m.1) ]
    ]

abbrev pub close_body : Option (Text × Text) → Option (Text × Text)
close_body none = none
close_body (some m) = some (m.0, skip_char 10 (skip_char 13 (skip_blanks m.1)))

abbrev pub after_open : Option Text → Option (Text × Text)
after_open none = none
after_open (some s) = elim (expect_char 10 (skip_char 13 (skip_blanks s))) [
  | none ↦ none
  | some rest ↦ close_body (find_close rest)
]

-- The two groups of `profileMarkdownPattern`.
unfoldable pub match_profile : Text → Option (Text × Text)
unfolding skip_blanks find_close cut_prefix
match_profile s = after_open (cut_prefix (text "---") s)

-- The settings that a frontmatter stands for.
unfoldable pub settings_of : Frontmatter → ExecutionSettings
settings_of f = elim f.execution_settings [
  | none ↦ record {
    mode = [];
    default_model = f.model;
    agent_command = record { command = []; args = [] };
    cwd = [];
  }
  | some s ↦ record {
    mode = s.mode;
    default_model = s.default_model;
    agent_command = elim s.agent_command [ none ↦ record { command = []; args = [] } | some c ↦ c ];
    cwd = s.cwd;
  }
]

-- A profile without times, as `parseProfileMarkdown` returns it.
abbrev pub untimed : CreateParams → AgentProfile
untimed p = record {
  name = p.name;
  display_name = p.display_name;
  role = p.role;
  instructions = p.instructions;
  tool_refs = p.tool_refs;
  execution_settings = p.execution_settings;
  created_at = 0;
  updated_at = 0;
}

abbrev pub has_settings : Option ExecutionFrontmatter → Bool
has_settings none = false
has_settings (some _) = true

-- The parameters that the normalisation checks.
abbrev pub body_params : Frontmatter → Text → CreateParams
body_params f body = record {
  name = f.name;
  display_name = f.display_name;
  role = f.role;
  instructions = trim_space body;
  tool_refs = f.tools;
  execution_settings = settings_of f;
}

module _ {X : Type 0} where
  abbrev pub checked : Checked CreateParams → Result X AgentProfile
  checked (Checked.ok p) = ok (untimed p)
  checked (Checked.err e) = err (invalid e)

  -- The checks of `parseProfileMarkdown` behind the decoder.
  unfoldable pub check_frontmatter : Text → Frontmatter → Text → Result X AgentProfile
  unfolding settings_of normalize_create_params
  check_frontmatter expected f body =
      if is_empty (trim_space f.name)
      then err no_name
      else if is_empty (trim_space f.role)
      then err no_role
      else if is_empty (trim_space f.model) && not (has_settings f.execution_settings)
      then err no_model
      else if is_empty (trim_space body)
      then err no_instructions
      else if not (trim_space f.name == expected)
      then err name_mismatch
      else checked (normalize_create_params (body_params f body))

  abbrev pub decoded : Text → X ⊎ Frontmatter → Text → Result X AgentProfile
  decoded expected (inl x) body = err (system unmarshal x)
  decoded expected (inr f) body = check_frontmatter expected f body

  -- `parseProfileMarkdown`, for the name that the path gives.
  unfoldable pub parse_profile_markdown :
      (Text → X ⊎ Frontmatter) → Text → Text → Result X AgentProfile
  unfolding match_profile check_frontmatter
  parse_profile_markdown decode expected contents = elim (match_profile contents) [
    | none ↦ err no_frontmatter
    | some m ↦ decoded expected (decode m.0) m.1
  ]

-- The frontmatter that `writeProfileFile` encodes.
unfoldable pub frontmatter_of : AgentProfile → Frontmatter
frontmatter_of p =
    let s = p.execution_settings in
    let base : Frontmatter = record {
      name = p.name;
      display_name = p.display_name;
      role = p.role;
      description = [];
      model = [];
      tools = p.tool_refs;
      execution_settings = none;
    } in
    if mode_or_default s == mode_regular
    then (if is_empty s.mode then record base { model = s.default_model } else record base {
      execution_settings = some (record {
        mode = s.mode;
        default_model = s.default_model;
        agent_command = none;
        cwd = [];
      });
    })
    else if mode_or_default s == mode_acp_stdio
    then record base {
      execution_settings = some (record {
        mode = s.mode;
        default_model = [];
        agent_command = some s.agent_command;
        cwd = s.cwd;
      });
    }
    else base

-- The text that `writeProfileFile` writes.
unfoldable pub profile_text : Text → Text → Text
profile_text yaml instructions =
    text "---\n" ++ (trim_space yaml ++ (text "\n---\n" ++ (trim_space instructions ++ text "\n")))
