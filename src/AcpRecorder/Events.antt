-- ===== src/AcpRecorder/Events.antt =====
-- The events that the recorder stores: `newUserSessionEvent`, `newADKSessionEvent` and
-- `newGenAIContent`. What `session.NewEvent` adds, an identifier and the time, is left out.
use sonalmod.Base.{
  Bool, true, false, ◌&&◌, Option, none, some, List, [], ◌∷◌, ◌++◌, Text, text, is_empty, map,
  if◌then◌else◌,
}
use sonalmod.SessionEvent.{
  FunctionCall, FunctionResponse, Part, Content, GenAiContent, SessionEvent, AdkEvent,
}

-- `MessageContent`, by the texts of its parts.
pub record MessageContent : Type 0 where
  pub parts : List Text

abbrev pub has_none {ℓ} : {A : Type ℓ} → List A → Bool
has_none [] = true
has_none (_ ∷ _) = false

module _ {J : Type 0} where
  -- The `switch` of `newGenAIContent` on one part; a part with nothing in it is dropped.
  unfoldable pub gen_ai_part :
      Text → Option (FunctionCall J) → Option (FunctionResponse J) → List (Option (Part J))
  gen_ai_part (c ∷ s) call response =
      some (record { text = c ∷ s; function_call = none; function_response = none }) ∷ []
  gen_ai_part [] (some call) response =
      some (record { text = []; function_call = some call; function_response = none }) ∷ []
  gen_ai_part [] none (some response) =
      some (record { text = []; function_call = none; function_response = some response }) ∷ []
  gen_ai_part [] none none = []

  unfoldable pub gen_ai_parts : List (Part J) → List (Option (Part J))
  unfolding gen_ai_part
  gen_ai_parts [] = []
  gen_ai_parts (p ∷ l) = gen_ai_part p.text p.function_call p.function_response ++ gen_ai_parts l

  -- `newGenAIContent`
  unfoldable pub new_gen_ai_content : Option (Content J) → Option (GenAiContent J)
  unfolding gen_ai_parts
  new_gen_ai_content none = none
  new_gen_ai_content (some c) =
      if has_none (gen_ai_parts c.parts) && is_empty c.role
      then none
      else some (record { role = c.role; parts = gen_ai_parts c.parts })

  -- `newADKSessionEvent`
  unfoldable pub new_adk_session_event : SessionEvent J → AdkEvent J
  unfolding new_gen_ai_content
  new_adk_session_event ev = record {
    error_code = ev.error_code;
    error_message = ev.error_message;
    partial = ev.partial;
    turn_complete = ev.turn_complete;
    interrupted = ev.interrupted;
    author = ev.author;
    branch = ev.branch;
    invocation_id = ev.invocation_id;
    content = new_gen_ai_content ev.content;
  }

  abbrev pub text_part : Text → Option (Part J)
  text_part t = some (record { text = t; function_call = none; function_response = none })

  abbrev pub user_event : List Text → AdkEvent J
  user_event parts = record {
    error_code = [];
    error_message = [];
    partial = false;
    turn_complete = true;
    interrupted = false;
    author = text "user";
    branch = [];
    invocation_id = [];
    content = some (record { role = text "user"; parts = map text_part parts });
  }

  -- `newUserSessionEvent`
  unfoldable pub new_user_session_event : Option MessageContent → Option (AdkEvent J)
  new_user_session_event none = none
  new_user_session_event (some m) = if has_none m.parts then none else some (user_event m.parts)

  -- What a session storage keeps of an event: `AppendEvent` passes over a partial one. `form` is
  -- what the storage makes of one that it keeps, such as JSON of it.
  abbrev pub stored : (AdkEvent J → AdkEvent J) → AdkEvent J → List (AdkEvent J)
  stored form e = if e.partial then [] else form e ∷ []

  abbrev pub user_events : (AdkEvent J → AdkEvent J) → Option (AdkEvent J) → List (AdkEvent J)
  user_events form none = []
  user_events form (some e) = stored form e

  -- All that a run adds to its session, in order.
  unfoldable pub agent_events :
      (AdkEvent J → AdkEvent J) → List (Option (SessionEvent J)) → List (AdkEvent J)
  unfolding new_adk_session_event
  agent_events form [] = []
  agent_events form (none ∷ l) = agent_events form l
  agent_events form (some ev ∷ l) = stored form (new_adk_session_event ev) ++ agent_events form l

  unfoldable pub run_events :
      (AdkEvent J → AdkEvent J)
      → Option MessageContent
      → List (Option (SessionEvent J))
      → List (AdkEvent J)
  unfolding new_user_session_event agent_events
  run_events form message events =
      user_events form (new_user_session_event message) ++ agent_events form events
