-- ===== src/AcpRecorder/Projected.antt =====
-- A stored event is projected to the event of the run.
use sonalmod.Base.{
  ◌≡◌, refl, ◌∙◌, ap, Bool, true, false, not, ◌&&◌, Option, none, some, List, [], ◌∷◌, ◌++◌, Text,
  is_empty, arith,
}
use sonalmod.SessionEvent.{
  FunctionCall, FunctionResponse, Part, Content, SessionEvent, project_part, project_parts,
  session_event_content, map_adk_session_event,
}
use sonalmod.AcpRecorder.Events.{
  gen_ai_part, gen_ai_parts, has_none, new_gen_ai_content, new_adk_session_event,
}

module _ {J : Type 0} where
  -- A part that is one text, one call or one response.
  abbrev single : Text → Option (FunctionCall J) → Option (FunctionResponse J) → Bool
  single (c ∷ s) none none = true
  single [] (some call) none = true
  single [] none (some response) = true
  single [] none none = false
  single [] (some call) (some response) = false
  single (c ∷ s) (some call) response = false
  single (c ∷ s) none (some response) = false

  abbrev pub all_single : List (Part J) → Bool
  all_single [] = true
  all_single (p ∷ l) = single p.text p.function_call p.function_response && all_single l

  project_parts-gen_ai_part :
      (text : Text) (call : Option (FunctionCall J)) (response : Option (FunctionResponse J))
      (l : List (Option (Part J)))
      → single text call response ≡ true
      → project_parts (gen_ai_part text call response ++ l)
        ≡ record { text = text; function_call = call; function_response = response }
          ∷ project_parts l
  unfolding project_parts project_part gen_ai_part
  project_parts-gen_ai_part (c ∷ s) none none l h = refl
  project_parts-gen_ai_part [] (some call) none l h = refl
  project_parts-gen_ai_part [] none (some response) l h = refl
  project_parts-gen_ai_part [] none none l h = cc
  project_parts-gen_ai_part [] (some call) (some response) l h = cc
  project_parts-gen_ai_part (c ∷ s) (some call) response l h = cc
  project_parts-gen_ai_part (c ∷ s) none (some response) l h = cc

  project_parts-gen_ai_parts :
      (l : List (Part J)) → all_single l ≡ true → project_parts (gen_ai_parts l) ≡ l
  unfolding gen_ai_parts project_parts
  project_parts-gen_ai_parts [] h = refl
  project_parts-gen_ai_parts (p ∷ l) h =
      let first : single p.text p.function_call p.function_response ≡ true = ground arith in
      let rest : all_single l ≡ true = ground arith in
      project_parts-gen_ai_part p.text p.function_call p.function_response (gen_ai_parts l) first
      ∙ ap (λ k. p ∷ k) (project_parts-gen_ai_parts l rest)

  -- A content that is missing, or has a role and only parts of one kind each.
  abbrev pub plain_content : Option (Content J) → Bool
  plain_content none = true
  plain_content (some c) = not (is_empty c.role) && all_single c.parts

  session_event_content-new_gen_ai_content :
      (c : Option (Content J))
      → plain_content c ≡ true
      → session_event_content (new_gen_ai_content c) ≡ c
  unfolding session_event_content new_gen_ai_content
  session_event_content-new_gen_ai_content none h = refl
  session_event_content-new_gen_ai_content (some c) h =
      let given : is_empty c.role ≡ false = ground arith in
      let parts : all_single c.parts ≡ true = ground arith in
      let same = project_parts-gen_ai_parts c.parts parts in
      let off : (has_none (gen_ai_parts c.parts) && is_empty c.role) ≡ false = ground arith in
      ground arith

  -- Projecting the event that the recorder stores gives back the event of the run, if its content
  -- is missing or has a role and, in each part, one of a text, a call and a response.
  pub map_adk_session_event-new_adk_session_event :
      (ev : SessionEvent J)
      → plain_content ev.content ≡ true
      → map_adk_session_event (some (new_adk_session_event ev)) ≡ some ev
  unfolding map_adk_session_event new_adk_session_event
  map_adk_session_event-new_adk_session_event ev h =
      ap (λ c. some (record ev { content = c }))
        (session_event_content-new_gen_ai_content ev.content h)
