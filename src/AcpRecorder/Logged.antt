-- ===== src/AcpRecorder/Logged.antt =====
-- What `Record` adds to the log of a session.
use sonalmod.Base.{
  ◌≡◌, refl, sym, ◌∙◌, ap, Bool, true, false, Option, none, some, List, [], ◌∷◌, ◌++◌, Text, text,
  is_empty, trim_space, ◌⊎◌, inl, inr, if◌then◌else◌, append-nil, append_assoc,
}
use mathlib.Core.Path.{subst}
use sonalmod.SessionEvent.{SessionEvent, AdkEvent}
use sonalmod.AcpRecorder.Events.{
  new_adk_session_event, new_user_session_event, stored, user_events, agent_events, run_events,
}
use sonalmod.AcpRecorder.Service.{
  Fetched, session, nothing, failed, SessionService, RecordError, RunRequest, append_user_failed,
  append_agent_failed, text_contains, append_events, append_user, append_run, after_create,
  after_get, record_run,
}

-- What the recorder relies on, for one session, whose handles are those that hold it: an append
-- with a handle of the session adds the event to its log, in the form that the storage gives it,
-- unless the event is partial, or fails and adds nothing; `Get` and `Create` of the session return a handle of it; and creating it leaves the
-- log that a missing session counts with.
pub record IsLogged {J H S : Type 0} (storage : SessionService J H S) (user id : Text)
    (Holds : H → Type 0) (form : AdkEvent J → AdkEvent J) (log : S → List (AdkEvent J))
    : Type 0 where
  pub added :
      (h k : H) (e : AdkEvent J) (s t : S)
      → Holds h
      → storage.append_event h e s ≡ (none, k, t)
      → (log t ≡ log s ++ stored form e) × Holds k
  pub kept :
      (h k : H) (e : AdkEvent J) (s t : S) (x : Text)
      → Holds h
      → storage.append_event h e s ≡ (some x, k, t)
      → log t ≡ log s
  pub got : (s : S) (h : H) → storage.get user id s ≡ session h → Holds h
  pub opened : (s : S) (h : H) → (storage.create user id s).0 ≡ session h → Holds h
  pub made : (s : S) → log (storage.create user id s).1 ≡ log s

module _ {J H S : Type 0} (storage : SessionService J H S) (req : RunRequest) (Holds : H → Type 0)
    (form : AdkEvent J → AdkEvent J) (log : S → List (AdkEvent J))
    (laws : IsLogged storage req.user_id req.session_id Holds form log) where
  -- The log grew by all of the events, or there was an error and it grew by the first of them.
  abbrev pub IsRecordedOn : List (AdkEvent J) → List (AdkEvent J) → Option RecordError × S → Type 0
  IsRecordedOn l before r =
      ((r.0 ≡ none) × (log r.1 ≡ before ++ l))
      ⊎ ((e : RecordError) × (done : List (AdkEvent J)) × (rest : List (AdkEvent J)) × (r.0
            ≡ some e)
          × (l ≡ done ++ rest)
          × (log r.1 ≡ before ++ done))

  abbrev pub IsRecorded : List (AdkEvent J) → S → Option RecordError × S → Type 0
  IsRecorded l s r = IsRecordedOn l (log s) r

  IsRecorded-stop :
      (l : List (AdkEvent J)) (s t : S) (e : RecordError)
      → log t ≡ log s
      → IsRecorded l s (some e, t)
  IsRecorded-stop l s t e h = inr (e, [], l, refl, refl, h ∙ sym (append-nil (log s)))

  -- One append in front of a run that is recorded.
  IsRecorded-step :
      (m l : List (AdkEvent J)) (s t : S) (r : Option RecordError × S)
      → log t ≡ log s ++ m
      → IsRecorded l t r
      → IsRecorded (m ++ l) s r
  IsRecorded-step m l s t r step (inl (ok, grown)) =
      inl (ok, grown ∙ ap (λ k. k ++ l) step ∙ append_assoc (log s) m l)
  IsRecorded-step m l s t r step (inr (x, done, rest, stop, parts, grown)) = inr (
    x,
    m ++ done,
    rest,
    stop,
    ap (λ k. m ++ k) parts ∙ sym (append_assoc m done rest),
    grown ∙ ap (λ k. k ++ done) step ∙ append_assoc (log s) m done,
  )

  IsRecorded-if :
      (l : List (AdkEvent J)) (s : S) (b : Bool) (x y : Option RecordError × S)
      → IsRecorded l s x
      → IsRecorded l s y
      → IsRecorded l s (if b then x else y)
  IsRecorded-if l s true x y p q = p
  IsRecorded-if l s false x y p q = q

  -- An append, and what runs after it.
  after_append :
      (l : List (AdkEvent J)) (e : AdkEvent J) (wrap : Text → RecordError)
      (next : H → S → Option RecordError × S) (h : H) (s : S) (step : Option Text × H × S)
      → Holds h
      → storage.append_event h e s ≡ step
      → (Holds step.1 → IsRecorded l step.2 (next step.1 step.2))
      → IsRecorded
          (stored form e ++ l)
          s
          (elim step.0 [ none ↦ next step.1 step.2 | some x ↦ (some (wrap x), step.2) ])
  after_append l e wrap next h s (none, k, t) own eq rest =
      let added = laws.added h k e s t own eq in
      IsRecorded-step (stored form e) l s t (next k t) added.0 (rest added.1)
  after_append l e wrap next h s (some x, k, t) own eq rest =
      IsRecorded-stop (stored form e ++ l) s t (wrap x) (laws.kept h k e s t x own eq)

  append_events-IsRecorded :
      (l : List (Option (SessionEvent J))) (h : H) (s : S)
      → Holds h
      → IsRecorded (agent_events form l) s (append_events storage l h s)
  unfolding append_events agent_events
  append_events-IsRecorded [] h s own = inl (refl, sym (append-nil (log s)))
  append_events-IsRecorded (none ∷ l) h s own = append_events-IsRecorded l h s own
  append_events-IsRecorded (some ev ∷ l) h s own =
      let e = new_adk_session_event ev in
      let step = storage.append_event h e s in
      after_append (agent_events form l) e append_agent_failed (append_events storage l) h s step
        own refl (append_events-IsRecorded l step.1 step.2)

  append_user-IsRecorded :
      (user : Option (AdkEvent J)) (l : List (Option (SessionEvent J))) (h : H) (s : S)
      → Holds h
      → IsRecorded (user_events form user ++ agent_events form l) s (append_user storage user l h s)
  append_user-IsRecorded none l h s own = append_events-IsRecorded l h s own
  append_user-IsRecorded (some e) l h s own =
      let step = storage.append_event h e s in
      after_append (agent_events form l) e append_user_failed (append_events storage l) h s step own
        refl (append_events-IsRecorded l step.1 step.2)

  after_create-IsRecorded :
      (l : List (Option (SessionEvent J))) (s t : S) (made : Fetched H)
      → log t ≡ log s
      → ((h : H) → made ≡ session h → Holds h)
      → IsRecorded (run_events form req.message l) s (after_create storage req l (made, t))
  unfolding run_events
  after_create-IsRecorded l s t (failed e) same own = IsRecorded-stop _ s t _ same
  after_create-IsRecorded l s t nothing same own = IsRecorded-stop _ s t _ same
  after_create-IsRecorded l s t (session h) same own =
      subst
        (λ k. IsRecordedOn (run_events form req.message l) k (append_run storage req.message l h t))
        same (append_user-IsRecorded (new_user_session_event req.message) l h t (own h refl))

  after_get-IsRecorded :
      (l : List (Option (SessionEvent J))) (s : S) (got : Fetched H)
      → ((h : H) → got ≡ session h → Holds h)
      → IsRecorded (run_events form req.message l) s (after_get storage req l got s)
  unfolding run_events
  after_get-IsRecorded l s (session h) own =
      append_user-IsRecorded (new_user_session_event req.message) l h s (own h refl)
  after_get-IsRecorded l s nothing own = IsRecorded-stop _ s s _ refl
  after_get-IsRecorded l s (failed e) own =
      IsRecorded-if (run_events form req.message l) s (text_contains e (text "not found")) _ _
        (after_create-IsRecorded l s _ _ (laws.made s) (laws.opened s))
        (IsRecorded-stop _ s s _ refl)

  -- The log of the session grows by the events of the run that are not partial, in the form that the
  -- storage gives them, the user's first; or `Record` fails and it grows by the first of them, maybe
  -- none. This holds where an append to the session adds its event in that form unless it is
  -- partial, or fails and adds nothing, where `Get` and `Create` return handles of the session, and
  -- where a creation adds no event.
  pub record_run-IsRecorded :
      (l : List (Option (SessionEvent J))) (s : S)
      → IsRecorded (run_events form req.message l) s (record_run storage req l s)
  unfolding record_run
  record_run-IsRecorded l s =
      IsRecorded-if events s (is_empty (trim_space req.user_id)) _ _
        (IsRecorded-stop events s s _ refl)
        (IsRecorded-if events s (is_empty (trim_space req.session_id)) _ _
          (IsRecorded-stop events s s _ refl)
          (after_get-IsRecorded l s (storage.get req.user_id req.session_id s) (laws.got s)))
    where
      events : List (AdkEvent J)
      events = run_events form req.message l
