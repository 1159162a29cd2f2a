-- ===== src/ProfileFiles/Restoring.antt =====
-- The frontmatter of a normal profile stands for that profile.
use sonalmod.Base.{
  ◌≡◌, refl, ◌∙◌, ap, true, false, not, ◌&&◌, List, [], ◌∷◌, Text, text_eq, ◌==◌, is_empty,
  trim_space, ◌⊎◌, inl, inr, arith, Bool-cases, text_beq_iff, text_beq,
}
use sonalmod.Profiles.Defs.{
  Checked, ExecutionSettings, AgentProfile, CreateParams, mode_regular, mode_acp_stdio,
  mode_or_default, has_acp_stdio_execution_settings, normalize_create_params, matches_name_pattern,
  has_no_args,
}
use sonalmod.Profiles.Normal.{
  IsNormalSettings, IsNormal, acp_not_regular, normalize_create_params_fixed,
}
use sonalmod.ProfileFiles.Markdown.{
  settings_of, has_settings, frontmatter_of, untimed, body_params, check_frontmatter, ok,
}

-- Settings of which the frontmatter keeps everything: those of ACP, and regular ones whose command
-- is empty rather than blank.
abbrev pub IsKept : ExecutionSettings → Type 0
IsKept s = ((mode_or_default s == mode_acp_stdio) ≡ true) ⊎ (s.agent_command.command ≡ [])

empty_text : (s : Text) → is_empty s ≡ true → s ≡ []
empty_text [] h = refl
empty_text (c ∷ s) h = cc

no_args : (l : List Text) → has_no_args l ≡ true → l ≡ []
no_args [] h = refl
no_args (x ∷ l) h = cc

regular_parts :
    (s : ExecutionSettings)
    → trim_space s.cwd ≡ s.cwd
    → s.agent_command.command ≡ []
    → has_acp_stdio_execution_settings s ≡ false
    → (is_empty s.cwd ≡ true) × (has_no_args s.agent_command.args ≡ true)
unfolding has_acp_stdio_execution_settings
regular_parts s cwd command no_acp = ground arith

-- Regular settings, by whether they name their mode.
settings_of-frontmatter_of-regular :
    (p : AgentProfile)
    → mode_or_default p.execution_settings ≡ mode_regular
    → trim_space p.execution_settings.cwd ≡ p.execution_settings.cwd
    → p.execution_settings.agent_command.command ≡ []
    → has_acp_stdio_execution_settings p.execution_settings ≡ false
    → settings_of (frontmatter_of p) ≡ p.execution_settings
unfolding settings_of frontmatter_of
settings_of-frontmatter_of-regular p mode cwd command no_acp =
    let s = p.execution_settings in
    let parts = regular_parts s cwd command no_acp in
    let regular = (text_beq_iff (mode_or_default s) mode_regular).1 mode in
    elim (Bool-cases (is_empty s.mode)) [
      | inl e ↦ ground (
        arith,
        regular,
        empty_text s.mode e,
        empty_text s.cwd parts.0,
        no_args s.agent_command.args parts.1,
      )
      | inr e ↦
          ground (arith, regular, empty_text s.cwd parts.0, no_args s.agent_command.args parts.1)
    ]

regular_not_acp : (t : Text) → t ≡ mode_regular → (t == mode_acp_stdio) ≡ true → ⊥
unfolding text_beq
regular_not_acp t h e = cc

settings_of-frontmatter_of-acp :
    (p : AgentProfile)
    → mode_or_default p.execution_settings ≡ mode_acp_stdio
    → is_empty p.execution_settings.default_model ≡ true
    → settings_of (frontmatter_of p) ≡ p.execution_settings
unfolding settings_of frontmatter_of
settings_of-frontmatter_of-acp p mode model =
    let s = p.execution_settings in
    let acp = (text_beq_iff (mode_or_default s) mode_acp_stdio).1 mode in
    ground (arith, acp, acp_not_regular (mode_or_default s) mode, empty_text s.default_model model)

settings_of-frontmatter_of :
    (p : AgentProfile)
    → IsNormalSettings p.execution_settings
    → IsKept p.execution_settings
    → settings_of (frontmatter_of p) ≡ p.execution_settings
settings_of-frontmatter_of p v k = elim v.by_mode [
  | inl (mode, model, no_acp) ↦ elim k [
    | inl acp ↦ absurd (regular_not_acp (mode_or_default p.execution_settings) mode acp)
    | inr command ↦ settings_of-frontmatter_of-regular p mode v.cwd_trimmed command no_acp
  ]
  | inr (mode, model, clean, command) ↦ settings_of-frontmatter_of-acp p mode model
]

-- The other fields of the frontmatter.
frontmatter_of-fields :
    (p : AgentProfile)
    → let f = frontmatter_of p in
      (f.name ≡ p.name)
      × (f.display_name ≡ p.display_name)
      × (f.role ≡ p.role)
      × (f.tools ≡ p.tool_refs)
unfolding frontmatter_of
frontmatter_of-fields p = (ground arith, ground arith, ground arith, ground arith)

-- A frontmatter without settings of its own has the model.
frontmatter_of-model :
    (p : AgentProfile)
    → IsNormalSettings p.execution_settings
    → (is_empty (trim_space (frontmatter_of p).model)
        && not (has_settings (frontmatter_of p).execution_settings))
      ≡ false
unfolding frontmatter_of
frontmatter_of-model p v = elim v.by_mode [
  | inl (mode, given, no_acp) ↦ ground (
    arith,
    (text_beq_iff (mode_or_default p.execution_settings) mode_regular).1 mode,
    v.model_trimmed,
  )
  | inr (mode, empty, clean, command) ↦ ground (
    arith,
    (text_beq_iff (mode_or_default p.execution_settings) mode_acp_stdio).1 mode,
    acp_not_regular (mode_or_default p.execution_settings) mode,
  )
]

-- A normal profile as the parameters of a creation.
abbrev pub params_of : AgentProfile → CreateParams
params_of p = record {
  name = p.name;
  display_name = p.display_name;
  role = p.role;
  instructions = p.instructions;
  tool_refs = p.tool_refs;
  execution_settings = p.execution_settings;
}

body_params_lem :
    (p : AgentProfile) (body : Text)
    → IsNormal (params_of p)
    → IsKept p.execution_settings
    → trim_space body ≡ p.instructions
    → body_params (frontmatter_of p) body ≡ params_of p
body_params_lem p body v k b =
    let f = frontmatter_of-fields p in
    let s = settings_of-frontmatter_of p v.settings_normal k in cc

name_given : (s : Text) → matches_name_pattern s ≡ true → is_empty s ≡ false
unfolding matches_name_pattern
name_given [] h = cc
name_given (c ∷ s) h = refl

pub check_frontmatter-frontmatter_of :
    {X : Type 0} (p : AgentProfile) (body : Text)
    → IsNormal (params_of p)
    → IsKept p.execution_settings
    → trim_space body ≡ p.instructions
    → check_frontmatter {X = X} p.name (frontmatter_of p) body ≡ ok (untimed (params_of p))
unfolding check_frontmatter
check_frontmatter-frontmatter_of p body v k b =
    let f = frontmatter_of-fields p in
    let same = body_params_lem p body v k b in
    let model = frontmatter_of-model p v.settings_normal in
    let passed : normalize_create_params (body_params (frontmatter_of p) body)
        ≡ Checked.ok (params_of p) =
      ap normalize_create_params same ∙ normalize_create_params_fixed (params_of p) v in
    let name : trim_space (frontmatter_of p).name ≡ p.name = ap trim_space f.0 ∙ v.name_trimmed in
    let role : trim_space (frontmatter_of p).role ≡ p.role = ap trim_space f.2 ∙ v.role_trimmed in
    ground (
      arith,
      name,
      role,
      b,
      passed,
      model,
      name_given p.name v.name_matches,
      v.role_given,
      v.instructions_given,
      (text_beq_iff p.name p.name).1 refl,
    )
