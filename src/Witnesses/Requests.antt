-- ===== src/Witnesses/Requests.antt =====
-- Streams of answers, requests and profiles at concrete inputs.
use sonalmod.Base.{
  ℕ, ◌+◌, ◌≡◌, refl, ◌⊎◌, inl, Bool, true, false, none, some, List, [], ◌∷◌, ◌++◌, Text, text,
  Option,
}
use sonalmod.SessionEvent.{SessionEvent, event_text_parts}
use sonalmod.Background.Iters.{event, failure}
use sonalmod.RunResult.Defs.{
  Pull, default_options, answer, failed, stream_error, consume_events_as_string,
  consume_events_as_string_seq,
}
use sonalmod.RunResult.Answer.{
  IsClean, IsHealthy, IsQuiet, consume_concatenates, consume_first_error,
}
use sonalmod.RunResult.Streaming.{stream_once}
use sonalmod.Profiles.Defs.{
  CreateParams, AgentProfile, ExecutionSettings, ok, normalize_create_params,
}
use sonalmod.Profiles.Normal.{
  IsNormal, normalize_create_params-IsNormal, normalize_create_params_idem,
}
use sonalmod.AgentRun.Defs.{RunParams, AgentRunner, Services, missing, profile, run}
use sonalmod.AgentRun.Dispatch.{Accounts, run-Accounts}

-- An event with a text, and the round of it, partial or final.
abbrev spoken : Text → Bool → SessionEvent ℕ
spoken t partial = record {
  error_code = [];
  error_message = [];
  partial = partial;
  turn_complete = false;
  interrupted = false;
  author = text "model";
  branch = [];
  invocation_id = [];
  content = some (record {
    role = text "model";
    parts = record { text = t; function_call = none; function_response = none } ∷ [];
  });
}

abbrev says : Text → Bool → Pull ℕ ℕ
says t partial = record { item = event (some (spoken t partial)); ctx_err = none }

abbrev stream : List (Pull ℕ ℕ)
stream = says (text "hel") true ∷ says (text "lo") true ∷ says (text "hello") false ∷ []

abbrev healthy :
    {p : Pull ℕ ℕ}
    → (o : Option (SessionEvent ℕ)) → p.item ≡ event o
    → IsQuiet o
    → p.ctx_err ≡ none
    → IsHealthy p
healthy o i q c = (o, i, q, c)

abbrev said : Text → Bool → Option (SessionEvent ℕ)
said t partial = some (spoken t partial)

stream-IsClean : IsClean stream
stream-IsClean = (
  healthy (said (text "hel") true) refl (refl, refl) refl,
  (
    healthy (said (text "lo") true) refl (refl, refl) refl,
    (healthy (said (text "hello") false) refl (refl, refl) refl, tt),
  ),
)

abbrev two_lines : List (Pull ℕ ℕ)
two_lines = says (text "a") false ∷ says (text "b") false ∷ []

two_lines-IsClean : IsClean two_lines
two_lines-IsClean = (
  healthy (said (text "a") false) refl (refl, refl) refl,
  (healthy (said (text "b") false) refl (refl, refl) refl, tt),
)

consume_concatenates_example :
    consume_events_as_string default_options two_lines ≡ answer (text "a" ++ 10 ∷ text "b")
unfolding event_text_parts
consume_concatenates_example = consume_concatenates default_options two_lines refl two_lines-IsClean

abbrev broken : Pull ℕ ℕ
broken = record { item = failure 4; ctx_err = none }

consume_first_error_example :
    consume_events_as_string default_options (stream ++ broken ∷ stream)
    ≡ failed (stream_error [] 4)
consume_first_error_example =
    consume_first_error default_options stream stream broken (stream_error [] 4) stream-IsClean
      (inl (4, refl, refl))

stream_once_example :
    consume_events_as_string_seq stream ≡ event (text "hel") ∷ event (text "lo") ∷ []
unfolding event_text_parts
stream_once_example = stream_once stream stream-IsClean

abbrev settings : Text → ExecutionSettings
settings model = record {
  mode = [];
  default_model = model;
  agent_command = record { command = []; args = [] };
  cwd = [];
}

abbrev sent : CreateParams
sent = record {
  name = text " coder ";
  display_name = text "Coder ";
  role = text "writes code";
  instructions = text " be brief";
  tool_refs = text "grep" ∷ text " grep " ∷ text "edit" ∷ [];
  execution_settings = settings (text " m/x ");
}

abbrev kept : CreateParams
kept = record {
  name = text "coder";
  display_name = text "Coder";
  role = text "writes code";
  instructions = text "be brief";
  tool_refs = text "grep" ∷ text "edit" ∷ [];
  execution_settings = settings (text "m/x");
}

normalize_create_params-IsNormal_example : IsNormal kept
unfolding normalize_create_params sonalmod.Base.trim_space sonalmod.Base.is_space
    sonalmod.Base.text_beq
normalize_create_params-IsNormal_example = normalize_create_params-IsNormal sent kept refl

normalize_create_params_idem_example : normalize_create_params kept ≡ ok kept
unfolding normalize_create_params sonalmod.Base.trim_space sonalmod.Base.is_space
    sonalmod.Base.text_beq
normalize_create_params_idem_example = normalize_create_params_idem sent kept refl

abbrev stored : AgentProfile
stored = record {
  name = text "coder";
  display_name = text "Coder";
  role = text "writes code";
  instructions = text "be brief";
  tool_refs = [];
  execution_settings = settings (text "m/x");
  created_at = 0;
  updated_at = 0;
}

-- A session storage that counts the sessions created in it.
abbrev services : Services ℕ ℕ ℕ
services = record {
  get_session = λ s user sid. missing;
  create_session = λ s user sid. (s + 1, none);
  profiles = some (λ name. profile stored);
  get_tools = none;
  llm_adapter = λ model. none;
  llm_agent = λ name fragments. none;
  llm_executor = λ name. none;
  acp_executor = some (λ s prof model p. (s + 1, some 7));
}

abbrev agent : AgentRunner
agent = record { default_agent_name = text "default"; fragments = []; is_wired = true }

abbrev params : RunParams ℕ
params = record {
  user_id = text "u";
  session_id = text "s";
  message = 3;
  model = [];
  profile_name = text "coder";
}

run-Accounts_example : Accounts agent params 0 (run services 0 agent params)
run-Accounts_example = run-Accounts services agent params 0
