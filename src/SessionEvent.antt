-- ===== src/SessionEvent.antt =====
-- runtime/internal/session_event.go: session events, and their projection from ADK events.
-- `J` stands for `map[string]any`. A nil pointer is `none`. Of the ADK and GenAI types, which are
-- not in the repository, the records hold the fields that the projection reads.
use sonalmod.Base.{Bool, Option, none, some, List, [], ◌∷◌, ◌++◌, Text, is_empty, if◌then◌else◌}

-- `SessionEventFunctionCall`, `SessionEventFunctionResponse` and their GenAI counterparts.
pub record FunctionCall (J : Type 0) : Type 0 where
  pub id : Text
  pub name : Text
  pub args : J

pub record FunctionResponse (J : Type 0) : Type 0 where
  pub id : Text
  pub name : Text
  pub response : J

-- `SessionEventPart`, and the part of the same shape of a GenAI message.
pub record Part (J : Type 0) : Type 0 where
  pub text : Text
  pub function_call : Option (FunctionCall J)
  pub function_response : Option (FunctionResponse J)

-- `SessionEventContent`
pub record Content (J : Type 0) : Type 0 where
  pub role : Text
  pub parts : List (Part J)

-- A GenAI message, whose parts may be nil.
pub record GenAiContent (J : Type 0) : Type 0 where
  pub role : Text
  pub parts : List (Option (Part J))

-- The fields that events share, over their type of content.
pub record EventOf (C : Type 0) : Type 0 where
  pub error_code : Text
  pub error_message : Text
  pub partial : Bool
  pub turn_complete : Bool
  pub interrupted : Bool
  pub author : Text
  pub branch : Text
  pub invocation_id : Text
  pub content : Option C

abbrev pub SessionEvent : Type 0 → Type 0
SessionEvent J = EventOf (Content J)

abbrev pub AdkEvent : Type 0 → Type 0
AdkEvent J = EventOf (GenAiContent J)

module _ {J : Type 0} where
  -- The `switch` of `sessionEventContentFromGenAI` on one part.
  unfoldable pub project_part :
      Text → Option (FunctionCall J) → Option (FunctionResponse J) → List (Part J)
  project_part (c ∷ s) call response =
      (record { text = c ∷ s; function_call = none; function_response = none }) ∷ []
  project_part [] (some call) response =
      (record { text = []; function_call = some call; function_response = none }) ∷ []
  project_part [] none (some response) =
      (record { text = []; function_call = none; function_response = some response }) ∷ []
  project_part [] none none = []

  unfoldable pub project_parts : List (Option (Part J)) → List (Part J)
  unfolding project_part
  project_parts [] = []
  project_parts (none ∷ l) = project_parts l
  project_parts (some p ∷ l) =
      project_part p.text p.function_call p.function_response ++ project_parts l

  -- `sessionEventContentFromGenAI`
  unfoldable pub session_event_content : Option (GenAiContent J) → Option (Content J)
  unfolding project_parts
  session_event_content none = none
  session_event_content (some c) = some (record { role = c.role; parts = project_parts c.parts })

  -- `MapADKSessionEvent`
  unfoldable pub map_adk_session_event : Option (AdkEvent J) → Option (SessionEvent J)
  unfolding session_event_content
  map_adk_session_event none = none
  map_adk_session_event (some ev) = some (record {
    error_code = ev.error_code;
    error_message = ev.error_message;
    partial = ev.partial;
    turn_complete = ev.turn_complete;
    interrupted = ev.interrupted;
    author = ev.author;
    branch = ev.branch;
    invocation_id = ev.invocation_id;
    content = session_event_content ev.content;
  })

  -- `contentTextParts`: the texts of the parts that have one.
  text_parts : List (Part J) → List Text
  text_parts [] = []
  text_parts (p ∷ l) = let rest = text_parts l in if is_empty p.text then rest else p.text ∷ rest

  unfoldable pub content_text_parts : Option (Content J) → List Text
  unfolding text_parts
  content_text_parts none = []
  content_text_parts (some c) = text_parts c.parts

  -- `eventTextParts`
  unfoldable pub event_text_parts : Option (SessionEvent J) → List Text
  unfolding content_text_parts
  event_text_parts none = []
  event_text_parts (some ev) = content_text_parts ev.content
