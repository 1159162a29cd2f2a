-- ===== src/Profiles/Defs.antt =====
-- Profiles, their parameters and the normalising functions. Timestamps are numbers.
use sonalmod.Base.{
  ℕ, Bool, true, false, ◌&&◌, ◌||◌, not, List, [], ◌∷◌, ◌++◌, Text, text, text_eq, ◌==◌, is_empty,
  is_control, trim_space, leb, nat_beq, any, all, if◌then◌else◌,
}

pub data ProfileError : Type 0 where
  invalid_name role_required instructions_required : ProfileError
  default_model_required acp_settings_in_regular_mode default_model_in_acp_mode : ProfileError
  cwd_control_chars unsupported_mode empty_tool_ref : ProfileError
  command_required command_control_chars : ProfileError
  empty_arg arg_control_chars duplicate_arg : ProfileError

pub data Checked {ℓ} (A : Type ℓ) : Type ℓ where
  ok : A → Checked A
  err : ProfileError → Checked A

infixl 5 ◌>>=◌ ◌>>◌
abbrev pub ◌>>=◌ {ℓ κ} : {A : Type ℓ} {B : Type κ} → Checked A → (A → Checked B) → Checked B
ok a >>= f = f a
err e >>= f = err e

abbrev pub ◌>>◌ {ℓ} : {B : Type ℓ} → Checked (Unit {0}) → Checked B → Checked B
m >> k = m >>= λ _. k

-- `if bad { return …, error }`
abbrev pub refuse : Bool → ProfileError → Checked (Unit {0})
refuse true e = err e
refuse false e = ok tt

-- `ExecutionMode` is a string: the two modes, the omitted one, and any other text.
abbrev pub mode_regular : Text
mode_regular = text "regular"

abbrev pub mode_acp_stdio : Text
mode_acp_stdio = text "acp-stdio"

pub record AgentCommand : Type 0 where
  pub command : Text
  pub args : List Text

pub record ExecutionSettings : Type 0 where
  pub mode : Text
  pub default_model : Text
  pub agent_command : AgentCommand
  pub cwd : Text

pub record AgentProfile : Type 0 where
  pub name : Text
  pub display_name : Text
  pub role : Text
  pub instructions : Text
  pub tool_refs : List Text
  pub execution_settings : ExecutionSettings
  pub created_at : ℕ
  pub updated_at : ℕ

pub record CreateParams : Type 0 where
  pub name : Text
  pub display_name : Text
  pub role : Text
  pub instructions : Text
  pub tool_refs : List Text
  pub execution_settings : ExecutionSettings

pub record UpdateParams : Type 0 where
  pub display_name : Text
  pub role : Text
  pub instructions : Text
  pub tool_refs : List Text
  pub execution_settings : ExecutionSettings

-- `ModeOrDefault`
unfoldable pub mode_or_default : ExecutionSettings → Text
mode_or_default s = if is_empty (trim_space s.mode) then mode_regular else s.mode

-- `slices.Contains`
unfoldable pub contains : List Text → Text → Bool
contains [] t = false
contains (x ∷ l) t = x == t || contains l t

-- `containsControlChars`
unfoldable pub contains_control_chars : Text → Bool
contains_control_chars s = any is_control s

-- `agentProfileNamePattern`: `^[a-z][a-z0-9-]*$`
unfoldable pub is_lower : ℕ → Bool
is_lower c = leb b'a' c && leb c b'z'

unfoldable pub is_name_char : ℕ → Bool
unfolding is_lower
is_name_char c = is_lower c || (leb b'0' c && leb c b'9') || nat_beq c b'-'

unfoldable pub matches_name_pattern : Text → Bool
unfolding is_name_char is_lower
matches_name_pattern [] = false
matches_name_pattern (c ∷ s) = is_lower c && all is_name_char s

-- The loop of `normalizeToolRefs`; `normalized` is what was kept so far.
unfoldable pub collect_tool_refs : List Text → List Text → Checked (List Text)
collect_tool_refs [] normalized = ok normalized
collect_tool_refs (ref ∷ l) normalized =
    let trimmed = trim_space ref in
    let rest =
      collect_tool_refs l
        (if contains normalized trimmed then normalized else normalized ++ trimmed ∷ []) in
    if is_empty trimmed then err empty_tool_ref else rest

-- `normalizeToolRefs`; a nil list is an empty one.
unfoldable pub normalize_tool_refs : List Text → Checked (List Text)
unfolding collect_tool_refs contains
normalize_tool_refs refs = collect_tool_refs refs []

-- The loop of `normalizeACPStdioAgentCommand`.
unfoldable pub collect_args : List Text → List Text → Checked (List Text)
collect_args [] normalized = ok normalized
collect_args (arg ∷ l) normalized =
    let trimmed = trim_space arg in
    let rest = collect_args l (normalized ++ trimmed ∷ []) in
    if is_empty trimmed
    then err empty_arg
    else if contains_control_chars trimmed
    then err arg_control_chars
    else if contains normalized trimmed
    then err duplicate_arg
    else rest

-- `normalizeACPStdioAgentCommand`
unfoldable pub normalize_agent_command : AgentCommand → Checked AgentCommand
unfolding collect_args contains contains_control_chars
normalize_agent_command c = do
  let command = trim_space c.command
  refuse (is_empty command) command_required
  refuse (contains_control_chars command) command_control_chars
  args ← collect_args c.args []
  ok (record { command = command; args = args })

abbrev pub has_no_args : List Text → Bool
has_no_args [] = true
has_no_args (_ ∷ _) = false

-- `hasACPStdioExecutionSettings`
unfoldable pub has_acp_stdio_execution_settings : ExecutionSettings → Bool
has_acp_stdio_execution_settings s =
    not (is_empty (trim_space s.agent_command.command))
    || (not (has_no_args s.agent_command.args) || not (is_empty s.cwd))

unfoldable pub check_mode : ExecutionSettings → Checked ExecutionSettings
unfolding mode_or_default has_acp_stdio_execution_settings normalize_agent_command
check_mode s =
    if mode_or_default s == mode_regular
    then (do
      refuse (is_empty s.default_model) default_model_required
      refuse (has_acp_stdio_execution_settings s) acp_settings_in_regular_mode
      ok s)
    else if mode_or_default s == mode_acp_stdio
    then (do
      refuse (not (is_empty s.default_model)) default_model_in_acp_mode
      command ← normalize_agent_command s.agent_command
      refuse (contains_control_chars s.cwd) cwd_control_chars
      ok (record s { agent_command = command }))
    else err unsupported_mode

-- `normalizeExecutionSettings`
unfoldable pub normalize_execution_settings : ExecutionSettings → Checked ExecutionSettings
unfolding check_mode
normalize_execution_settings s = check_mode (record s {
  mode = trim_space s.mode;
  default_model = trim_space s.default_model;
  cwd = trim_space s.cwd;
})

-- `normalizeRoleAndInstructions`
unfoldable pub normalize_role_and_instructions : Text → Text → Checked (Text × Text)
normalize_role_and_instructions role instructions = do
  refuse (is_empty (trim_space role)) role_required
  refuse (is_empty (trim_space instructions)) instructions_required
  ok (trim_space role, trim_space instructions)

-- `normalizeCreateParams`
unfoldable pub normalize_create_params : CreateParams → Checked CreateParams
unfolding matches_name_pattern normalize_tool_refs normalize_execution_settings
    normalize_role_and_instructions
normalize_create_params p = do
  let name = trim_space p.name
  refuse (not (matches_name_pattern name)) invalid_name
  refs ← normalize_tool_refs p.tool_refs
  settings ← normalize_execution_settings p.execution_settings
  texts ← normalize_role_and_instructions p.role p.instructions
  ok (record {
    name = name;
    display_name = trim_space p.display_name;
    role = texts.0;
    instructions = texts.1;
    tool_refs = refs;
    execution_settings = settings;
  })

-- `applyProfileUpdate`
unfoldable pub apply_profile_update : AgentProfile → UpdateParams → Checked AgentProfile
unfolding normalize_tool_refs normalize_execution_settings normalize_role_and_instructions
apply_profile_update existing p = do
  refs ← normalize_tool_refs p.tool_refs
  settings ← normalize_execution_settings p.execution_settings
  texts ← normalize_role_and_instructions p.role p.instructions
  ok (record existing {
    display_name = trim_space p.display_name;
    role = texts.0;
    instructions = texts.1;
    tool_refs = refs;
    execution_settings = settings;
  })
