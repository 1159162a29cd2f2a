-- ===== src/AcpRecorder/Service.antt =====
-- `Record` over a session storage. `S` is the state of the storage, `H` the session object that it
-- hands out and changes, and an error is its message.
use sonalmod.Base.{
  Bool, ◌||◌, Option, none, some, List, [], ◌∷◌, Text, text, is_empty, trim_space, has_prefix,
  if◌then◌else◌,
}
use sonalmod.SessionEvent.{SessionEvent, AdkEvent}
use sonalmod.AcpRecorder.Events.{MessageContent, new_adk_session_event, new_user_session_event}

-- What `Get` and `Create` return: a session, an error, or neither.
pub data Fetched (H : Type 0) : Type 0 where
  session : H → Fetched H
  nothing : Fetched H
  failed : Text → Fetched H

-- `sessionService`, for the application name of the recorder.
pub record SessionService (J H S : Type 0) : Type 0 where
  pub get : Text → Text → S → Fetched H
  pub create : Text → Text → S → Fetched H × S
  pub append_event : H → AdkEvent J → S → Option Text × H × S

pub data RecordError : Type 0 where
  no_user_id no_session_id no_session : RecordError
  get_failed create_failed append_user_failed append_agent_failed : Text → RecordError

-- `ACPRunRequest`, the fields that the recorder reads.
pub record RunRequest : Type 0 where
  pub user_id : Text
  pub session_id : Text
  pub message : Option MessageContent

-- `strings.Contains`
unfoldable pub text_contains : Text → Text → Bool
unfolding has_prefix
text_contains [] sub = has_prefix sub []
text_contains (c ∷ s) sub = has_prefix sub (c ∷ s) || text_contains s sub

module _ {J H S : Type 0} (storage : SessionService J H S) where
  -- The loop over the events of the agent; a nil event is passed over.
  unfoldable pub append_events : List (Option (SessionEvent J)) → H → S → Option RecordError × S
  unfolding new_adk_session_event
  append_events [] h s = (none, s)
  append_events (none ∷ l) h s = append_events l h s
  append_events (some ev ∷ l) h s =
      let step = storage.append_event h (new_adk_session_event ev) s in
      let rest = append_events l step.1 step.2 in
      elim step.0 [ none ↦ rest | some e ↦ (some (append_agent_failed e), step.2) ]

  abbrev pub append_user :
      Option (AdkEvent J) → List (Option (SessionEvent J)) → H → S → Option RecordError × S
  append_user none events h s = append_events events h s
  append_user (some user) events h s =
      let step = storage.append_event h user s in
      elim step.0 [
        | none ↦ append_events events step.1 step.2
        | some e ↦ (some (append_user_failed e), step.2)
      ]

  abbrev pub append_run :
      Option MessageContent → List (Option (SessionEvent J)) → H → S → Option RecordError × S
  append_run message events h s = append_user (new_user_session_event message) events h s

  abbrev pub after_create :
      RunRequest → List (Option (SessionEvent J)) → Fetched H × S → Option RecordError × S
  after_create req events (failed e, s) = (some (create_failed e), s)
  after_create req events (nothing, s) = (some no_session, s)
  after_create req events (session h, s) = append_run req.message events h s

  abbrev pub after_get :
      RunRequest → List (Option (SessionEvent J)) → Fetched H → S → Option RecordError × S
  after_get req events (session h) s = append_run req.message events h s
  after_get req events nothing s = (some no_session, s)
  after_get req events (failed e) s =
      if text_contains e (text "not found")
      then after_create req events (storage.create req.user_id req.session_id s)
      else (some (get_failed e), s)

  -- `Record`
  unfoldable pub record_run :
      RunRequest → List (Option (SessionEvent J)) → S → Option RecordError × S
  unfolding append_events new_user_session_event text_contains
  record_run req events s =
      if is_empty (trim_space req.user_id)
      then (some no_user_id, s)
      else if is_empty (trim_space req.session_id)
      then (some no_session_id, s)
      else after_get req events (storage.get req.user_id req.session_id s) s
