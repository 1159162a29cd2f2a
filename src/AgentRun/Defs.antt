-- ===== src/AgentRun/Defs.antt =====
-- `AgentRunner.Run`, with what it calls outside this module as the fields of `Services`: the
-- session storage, the profile service, the factory steps of `NewAgentRunner`, the ACP executor
-- and the wired LLM runner. A run that starts is described by its `Launch`; session storage is
-- explicit state, since a failed run may have created a session, and the ACP executor records events
-- before it may fail. `M` is a message, `X` an error,
-- `S` the state of the session storage.
use sonalmod.Base.{
  ◌⊎◌, inl, inr, Bool, Option, none, some, List, [], ◌∷◌, ◌++◌, Text, text, text_eq, ◌==◌, is_empty,
  trim_space, if◌then◌else◌,
}
use sonalmod.Profiles.Defs.{AgentProfile, mode_regular, mode_acp_stdio, mode_or_default}

-- `AgentExecErrorKind`
pub data ErrorKind : Type 0 where
  validation not_found unsupported execution : ErrorKind

-- The errors of `Run`; the third-party errors are wrapped whole.
pub data RunError (X : Type 0) : Type 0 where
  session_id_required model_required : RunError X
  -- `session %s: %w` and `create session %s: %w`
  session_failed create_failed : Text → X → RunError X
  -- the steps of `NewAgentRunner`
  build_tools resolve_model create_agent create_executor : X → RunError X
  exec_error : ErrorKind → RunError X
  -- the error of the ACP executor
  acp_failed : X → RunError X

pub record Fragment : Type 0 where
  pub section : Text
  pub content : Text

pub record RunParams (M : Type 0) : Type 0 where
  pub user_id : Text
  pub session_id : Text
  pub message : M
  pub model : Text
  pub profile_name : Text

-- A run as it is handed on.
pub data Launch (M : Type 0) : Type 0 where
  -- the LLM runner that this runner was built with
  wired : RunParams M → Launch M
  -- a child runner: agent name, prompt fragments and model
  child : Text → List Fragment → Text → RunParams M → Launch M
  -- the ACP executor: profile and requested model
  acp : AgentProfile → Text → RunParams M → Launch M

-- The result of a read of the session storage: `missing` is an error whose text has "not found".
pub data Found (X : Type 0) : Type 0 where
  present : Found X
  missing : Found X
  broken : X → Found X

-- The result of `profilesService.Get`.
pub data ProfileResult (X : Type 0) : Type 0 where
  profile : AgentProfile → ProfileResult X
  no_profile : ProfileResult X
  profile_error : X → ProfileResult X

pub record Services (M S X : Type 0) : Type 0 where
  pub get_session : S → Text → Text → Found X
  pub create_session : S → Text → Text → S × Option X
  pub profiles : Option (Text → ProfileResult X)
  pub get_tools : Option X
  pub llm_adapter : Text → Option X
  pub llm_agent : Text → List Fragment → Option X
  pub llm_executor : Text → Option X
  -- `RunACPProfile` and `runACPProfileStdio`, which write session storage before they may fail.
  pub acp_executor : Option (S → AgentProfile → Text → RunParams M → S × Option X)

-- The fields of `AgentRunner` that the dispatch reads.
pub record AgentRunner : Type 0 where
  pub default_agent_name : Text
  pub fragments : List Fragment
  pub is_wired : Bool

pub data RunOutcome (M X : Type 0) : Type 0 where
  launched : Launch M → RunOutcome M X
  refused : RunError X → RunOutcome M X

module _ {M S X : Type 0} (v : Services M S X) where
  -- The result of `Create` in `ensureSession`.
  unfoldable pub created : Text → S × Option X → S × Option (RunError X)
  created sid (s, none) = (s, none)
  created sid (s, some x) = (s, some (create_failed sid x))

  -- `ensureSession` behind its `Get`.
  unfoldable pub ensure_found : S → Text → Text → Found X → S × Option (RunError X)
  unfolding created
  ensure_found s user sid present = (s, none)
  ensure_found s user sid missing = created sid (v.create_session s user sid)
  ensure_found s user sid (broken x) = (s, some (session_failed sid x))

  -- `ensureSession`
  unfoldable pub ensure_session : S → Text → Text → S × Option (RunError X)
  unfolding ensure_found
  ensure_session s user [] = (s, some session_id_required)
  ensure_session s user (c ∷ sid) = ensure_found s user (c ∷ sid) (v.get_session s user (c ∷ sid))

  -- The end of a dispatch: the session is ensured, and the run handed on.
  unfoldable pub start : Launch M → S × Option (RunError X) → S × RunOutcome M X
  start l (s, none) = (s, launched l)
  start l (s, some e) = (s, refused e)

  -- `runWithLLMRunner`
  unfoldable pub run_with_llm_runner : S → RunParams M → S × RunOutcome M X
  unfolding start ensure_session
  run_with_llm_runner s p = start (wired p) (ensure_session s p.user_id p.session_id)

  -- The fragments that `runBuiltIn` gives the child.
  unfoldable pub profile_fragments : List Fragment → Text → List Fragment
  profile_fragments fragments instructions =
      if is_empty (trim_space instructions)
      then fragments
      else fragments
        ++ (record { section = text "Profile Instructions"; content = trim_space instructions })
          ∷ []

  -- `NewAgentRunner` for a child, whose model is not empty: its first error.
  unfoldable pub new_agent_runner : Text → List Fragment → Text → Option (RunError X)
  new_agent_runner name fragments model = elim v.get_tools [
    | some x ↦ some (build_tools x)
    | none ↦ elim (v.llm_adapter model) [
      | some x ↦ some (resolve_model x)
      | none ↦ elim (v.llm_agent name fragments) [
        | some x ↦ some (create_agent x)
        | none ↦ elim (v.llm_executor name) [ some x ↦ some (create_executor x) | none ↦ none ]
      ]
    ]
  ]

  -- `if err != nil { return nil, err }`
  unfoldable pub unless : Option (RunError X) → S → S × RunOutcome M X → S × RunOutcome M X
  unless (some e) s next = (s, refused e)
  unless none s next = next

  -- `runBuiltIn`
  unfoldable pub run_built_in :
      S → List Fragment → RunParams M → Text → Text → Text → S × RunOutcome M X
  unfolding unless start ensure_session profile_fragments new_agent_runner
  run_built_in s fragments p name model instructions =
      let all = profile_fragments fragments instructions in
      unless (new_agent_runner name all model) s
        (start (child name all model p) (ensure_session s p.user_id p.session_id))

  -- `runBuiltIn` behind the test that `Run` makes of its model.
  unfoldable pub run_with_model :
      S → List Fragment → RunParams M → Text → Text → Text → S × RunOutcome M X
  unfolding run_built_in
  run_with_model s fragments p name model instructions =
      if is_empty model
      then (s, refused model_required)
      else run_built_in s fragments p name model instructions

  -- `loadProfile`
  unfoldable pub load_profile : Text → AgentProfile ⊎ RunError X
  load_profile name = elim v.profiles [
    | none ↦ inr (exec_error execution)
    | some get ↦ elim (get name) [
      | profile p ↦ inl p
      | no_profile ↦ inr (exec_error not_found)
      | profile_error x ↦ inr (exec_error execution)
    ]
  ]

  -- What the ACP executor returns.
  unfoldable pub acp_result : Launch M → S × Option X → S × RunOutcome M X
  acp_result l (s, none) = (s, launched l)
  acp_result l (s, some x) = (s, refused (acp_failed x))

  unfoldable pub acp_with :
      S
      → RunParams M
      → AgentProfile
      → Text
      → Option (S → AgentProfile → Text → RunParams M → S × Option X)
      → S × RunOutcome M X
  unfolding acp_result
  acp_with s p prof model none = (s, refused (exec_error execution))
  acp_with s p prof model (some run) = acp_result (acp prof model p) (run s prof model p)

  -- `runACP`
  unfoldable pub run_acp : S → RunParams M → AgentProfile → Text → S × RunOutcome M X
  unfolding acp_with
  run_acp s p prof model = acp_with s p prof model v.acp_executor

  -- The `switch` on the profile's mode.
  unfoldable pub run_profile :
      S → AgentRunner → RunParams M → Text → AgentProfile → S × RunOutcome M X
  unfolding run_with_model run_acp mode_or_default
  run_profile s a p model prof =
      let settings = prof.execution_settings in
      let resolved = if is_empty model then trim_space settings.default_model else model in
      if mode_or_default settings == mode_regular
      then run_with_model s a.fragments p prof.name resolved prof.instructions
      else if mode_or_default settings == mode_acp_stdio
      then run_acp s p prof model
      else (s, refused (exec_error unsupported))

  -- `Run` behind `loadProfile`.
  unfoldable pub run_loaded :
      S → AgentRunner → RunParams M → Text → AgentProfile ⊎ RunError X → S × RunOutcome M X
  unfolding run_profile
  run_loaded s a p model (inr e) = (s, refused e)
  run_loaded s a p model (inl prof) = run_profile s a p model prof

  -- `Run`
  unfoldable pub run : S → AgentRunner → RunParams M → S × RunOutcome M X
  unfolding run_with_llm_runner run_loaded load_profile
  run s a p =
      let name = trim_space p.profile_name in
      let model = trim_space p.model in
      if is_empty p.session_id
      then (s, refused session_id_required)
      else if is_empty name
      then (if a.is_wired
          then run_with_llm_runner s p
          else run_with_model s a.fragments p a.default_agent_name model [])
      else run_loaded s a p model (load_profile name)
