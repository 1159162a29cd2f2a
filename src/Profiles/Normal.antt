-- ===== src/Profiles/Normal.antt =====
-- What a normalised profile satisfies, and that normalising it again changes nothing.
use sonalmod.Base.{
  ◌≡◌, refl, sym, ◌∙◌, ap, true, false, ◌⊎◌, inl, inr, List, [], Text, text_eq, ◌==◌, is_empty,
  trim_space, trim_space_idem, Bool-cases, arith, text_beq, text_beq_iff,
}
use mathlib.Core.Path.{subst}
use sonalmod.Profiles.Defs.{
  ProfileError, Checked, ok, err, ◌>>=◌, mode_regular, mode_acp_stdio, AgentCommand,
  ExecutionSettings, CreateParams, mode_or_default, contains_control_chars, matches_name_pattern,
  normalize_tool_refs, collect_args, normalize_agent_command, has_acp_stdio_execution_settings,
  check_mode, normalize_execution_settings, normalize_role_and_instructions,
  normalize_create_params,
}
use sonalmod.Profiles.Lists.{
  IsFresh, IsFreshArgs, collect_tool_refs_sound, collect_tool_refs_fixed, collect_args_sound,
  collect_args_fixed,
}

pub >>=-ok {ℓ κ} :
    {A : Type ℓ} {B : Type κ} (m : Checked A) (f : A → Checked B) (b : B)
    → (m >>= f) ≡ ok b
    → (a : A) × (m ≡ ok a) × (f a ≡ ok b)
>>=-ok (ok a) f b h = (a, refl, h)
>>=-ok (err e) f b h = cc

Checked-cases {ℓ} :
    {A : Type ℓ} (m : Checked A) → ((a : A) × (m ≡ ok a)) ⊎ ((e : ProfileError) × (m ≡ err e))
Checked-cases (ok a) = inl (a, refl)
Checked-cases (err e) = inr (e, refl)

trimmed : (s t : Text) → s ≡ trim_space t → trim_space s ≡ s
trimmed s t h = ap trim_space h ∙ trim_space_idem t ∙ sym h

pub record IsNormalCommand (c : AgentCommand) : Type 0 where
  pub trimmed : trim_space c.command ≡ c.command
  pub given : is_empty c.command ≡ false
  pub clean : contains_control_chars c.command ≡ false
  pub fresh_args : IsFreshArgs [] c.args

normalize_agent_command-IsNormalCommand :
    (c d : AgentCommand) → normalize_agent_command c ≡ ok d → IsNormalCommand d
unfolding normalize_agent_command
normalize_agent_command-IsNormalCommand c d h = elim (Checked-cases (collect_args c.args [])) [
  | inr (e, bad) ↦ absurd (ground arith)
  | inl (args, good) ↦
      let r = collect_args_sound c.args [] args good in
      let same : d.args ≡ args = ground arith in
      let head : d.command ≡ trim_space c.command = ground arith in
      record {
        trimmed = ap trim_space head ∙ trim_space_idem c.command ∙ sym head;
        given = ground arith;
        clean = ground arith;
        fresh_args = subst (IsFreshArgs []) (sym (same ∙ r.1)) r.2;
      }
]

normalize_agent_command_fixed :
    (c : AgentCommand) → IsNormalCommand c → normalize_agent_command c ≡ ok c
unfolding normalize_agent_command
normalize_agent_command_fixed c v = ground (arith, collect_args_fixed c.args [] v.fresh_args)

normalize_tool_refs-IsFresh : (l k : List Text) → normalize_tool_refs l ≡ ok k → IsFresh [] k
unfolding normalize_tool_refs
normalize_tool_refs-IsFresh l k h =
    let r = collect_tool_refs_sound l [] k h in subst (IsFresh []) (sym r.1) r.2

normalize_tool_refs_fixed : (l : List Text) → IsFresh [] l → normalize_tool_refs l ≡ ok l
unfolding normalize_tool_refs
normalize_tool_refs_fixed l f = collect_tool_refs_fixed l [] f

-- The settings of a stored profile: a regular one has a model and no command, an ACP one a
-- command and no model.
pub record IsNormalSettings (s : ExecutionSettings) : Type 0 where
  pub mode_trimmed : trim_space s.mode ≡ s.mode
  pub model_trimmed : trim_space s.default_model ≡ s.default_model
  pub cwd_trimmed : trim_space s.cwd ≡ s.cwd
  pub by_mode :
      ((mode_or_default s ≡ mode_regular)
        × (is_empty s.default_model ≡ false)
        × (has_acp_stdio_execution_settings s ≡ false))
      ⊎ ((mode_or_default s ≡ mode_acp_stdio)
          × (is_empty s.default_model ≡ true)
          × (contains_control_chars s.cwd ≡ false)
          × IsNormalCommand s.agent_command)

check_mode-IsNormalSettings :
    (s t : ExecutionSettings)
    → trim_space s.mode ≡ s.mode
    → trim_space s.default_model ≡ s.default_model
    → trim_space s.cwd ≡ s.cwd
    → check_mode s ≡ ok t
    → IsNormalSettings t
unfolding check_mode
check_mode-IsNormalSettings s t m d c h = elim (Bool-cases (mode_or_default s == mode_regular)) [
  | inl regular ↦
      let same : t ≡ s = ground arith in
      let model : is_empty s.default_model ≡ false = ground arith in
      let no_acp : has_acp_stdio_execution_settings s ≡ false = ground arith in
      let mode : mode_or_default s ≡ mode_regular = (text_beq_iff _ _).0 regular in
      subst IsNormalSettings (sym same) (record {
        mode_trimmed = m;
        model_trimmed = d;
        cwd_trimmed = c;
        by_mode = inl (mode, model, no_acp);
      })
  | inr other ↦ elim (Checked-cases (normalize_agent_command s.agent_command)) [
    | inr (e, bad) ↦ absurd (ground arith)
    | inl (command, good) ↦
        let acp : (mode_or_default s == mode_acp_stdio) ≡ true = ground arith in
        let u : ExecutionSettings = record s { agent_command = command } in
        let same : t ≡ u = ground arith in
        let model : is_empty s.default_model ≡ true = ground arith in
        let clean : contains_control_chars s.cwd ≡ false = ground arith in
        let mode : mode_or_default s ≡ mode_acp_stdio = (text_beq_iff _ _).0 acp in
        let v = normalize_agent_command-IsNormalCommand s.agent_command command good in
        subst IsNormalSettings (sym same) (record {
          mode_trimmed = m;
          model_trimmed = d;
          cwd_trimmed = c;
          by_mode = inr (unfold mode_or_default in mode, model, clean, v);
        })
  ]
]

pub acp_not_regular : (t : Text) → t ≡ mode_acp_stdio → (t == mode_regular) ≡ false
acp_not_regular t h = subst (λ x. (x == mode_regular) ≡ false) (sym h) (unfold text_beq in refl)

check_mode_fixed : (s : ExecutionSettings) → IsNormalSettings s → check_mode s ≡ ok s
unfolding check_mode
check_mode_fixed s v = elim v.by_mode [
  | inl (mode, model, no_acp) ↦
      ground (arith, (text_beq_iff (mode_or_default s) mode_regular).1 mode)
  | inr (mode, model, clean, w) ↦
      let acp = (text_beq_iff (mode_or_default s) mode_acp_stdio).1 mode in
      let not_regular = acp_not_regular (mode_or_default s) mode in
      ground (arith, acp, not_regular, normalize_agent_command_fixed s.agent_command w)
]

normalize_execution_settings-IsNormalSettings :
    (s t : ExecutionSettings) → normalize_execution_settings s ≡ ok t → IsNormalSettings t
unfolding normalize_execution_settings
normalize_execution_settings-IsNormalSettings s t h =
    check_mode-IsNormalSettings
      (record s {
        mode = trim_space s.mode;
        default_model = trim_space s.default_model;
        cwd = trim_space s.cwd;
      })
      t (trim_space_idem s.mode) (trim_space_idem s.default_model) (trim_space_idem s.cwd) h

normalize_execution_settings_fixed :
    (s : ExecutionSettings) → IsNormalSettings s → normalize_execution_settings s ≡ ok s
unfolding normalize_execution_settings
normalize_execution_settings_fixed s v =
    ap check_mode (ground (arith, v.mode_trimmed, v.model_trimmed, v.cwd_trimmed))
    ∙ check_mode_fixed s v

-- What every stored profile satisfies: a name of the pattern, texts without space at the ends,
-- a role and instructions, tool references each once, and settings that fit their mode.
pub record IsNormal (p : CreateParams) : Type 0 where
  pub name_trimmed : trim_space p.name ≡ p.name
  pub name_matches : matches_name_pattern p.name ≡ true
  pub display_trimmed : trim_space p.display_name ≡ p.display_name
  pub role_trimmed : trim_space p.role ≡ p.role
  pub role_given : is_empty p.role ≡ false
  pub instructions_trimmed : trim_space p.instructions ≡ p.instructions
  pub instructions_given : is_empty p.instructions ≡ false
  pub refs_fresh : IsFresh [] p.tool_refs
  pub settings_normal : IsNormalSettings p.execution_settings

-- Whatever parameters a client sends, those that the normalisation accepts come out normal.
pub normalize_create_params-IsNormal :
    (p q : CreateParams) → normalize_create_params p ≡ ok q → IsNormal q
unfolding normalize_create_params
normalize_create_params-IsNormal p q h = elim (Checked-cases (normalize_tool_refs p.tool_refs)) [
  | inr (e, bad) ↦ absurd (ground arith)
  | inl (refs, refs_ok) ↦ elim (Checked-cases (normalize_execution_settings p.execution_settings)) [
    | inr (e, bad) ↦ absurd (ground arith)
    | inl (settings, settings_ok) ↦
        let same_refs : q.tool_refs ≡ refs = ground arith in
        let same_settings : q.execution_settings ≡ settings = ground arith in
        let name : q.name ≡ trim_space p.name = ground arith in
        let display : q.display_name ≡ trim_space p.display_name = ground arith in
        let role : q.role ≡ trim_space p.role = ground arith in
        let instructions : q.instructions ≡ trim_space p.instructions = ground arith in
        record {
          name_trimmed = trimmed q.name p.name name;
          name_matches = ground arith;
          display_trimmed = trimmed q.display_name p.display_name display;
          role_trimmed = trimmed q.role p.role role;
          role_given = ground arith;
          instructions_trimmed = trimmed q.instructions p.instructions instructions;
          instructions_given = ground arith;
          refs_fresh =
              subst (IsFresh []) (sym same_refs)
                (normalize_tool_refs-IsFresh p.tool_refs refs refs_ok);
          settings_normal = subst IsNormalSettings (sym same_settings) (
              normalize_execution_settings-IsNormalSettings p.execution_settings settings
                settings_ok);
        }
  ]
]

pub normalize_create_params_fixed :
    (p : CreateParams) → IsNormal p → normalize_create_params p ≡ ok p
unfolding normalize_create_params normalize_role_and_instructions
normalize_create_params_fixed p v = ground (
  arith,
  normalize_tool_refs_fixed p.tool_refs v.refs_fresh,
  normalize_execution_settings_fixed p.execution_settings v.settings_normal,
  v.name_trimmed,
  v.display_trimmed,
  v.role_trimmed,
  v.instructions_trimmed,
)

-- Normalising what the normalisation accepted accepts it again and changes nothing.
pub normalize_create_params_idem :
    (p q : CreateParams) → normalize_create_params p ≡ ok q → normalize_create_params q ≡ ok q
normalize_create_params_idem p q h =
    normalize_create_params_fixed q (normalize_create_params-IsNormal p q h)
