-- ===== src/Witnesses/Records.antt =====
-- Recorded runs and cut texts at concrete inputs.
use sonalmod.Base.{
  if◌then◌else◌, arith, append-nil, text_eq, trim_space, ℕ, suc, ◌+◌, ◌≤◌, ◌<◌, ◌≡◌, refl, sym, ◌∙◌,
  ap, ◌⊎◌, inl, inr, Bool, true, false, none, some, List, [], ◌∷◌, ◌++◌, Text, text, Option, length,
  drop,
}
use sonalmod.SessionEvent.{SessionEvent, AdkEvent, map_adk_session_event}
use sonalmod.AcpRecorder.Events.{new_adk_session_event, stored, run_events}
use sonalmod.AcpRecorder.Service.{
  Fetched, session, failed, SessionService, RecordError, RunRequest, record_run,
}
use sonalmod.AcpRecorder.Logged.{IsLogged, IsRecorded, record_run-IsRecorded}
use sonalmod.AcpRecorder.Projected.{map_adk_session_event-new_adk_session_event}
use sonalmod.Summarize.Truncating.{TruncatingSummarizer, pos, summarize, max_len_or_default}
use sonalmod.Summarize.Cut.{IsCut, summarize_lem}
use sonalmod.Summarize.Llm.{LlmSummarizer, content, no_content}
use sonalmod.Workspace.Paths.{or_dot, sanitize_relative_path}
use sonalmod.Workspace.Confined.{AreEntries, sanitize_relative_path-AreEntries}
use sonalmod.Workspace.Paths
use sonalmod.Workspace.Read.{Service, ReadTextFileRequest, Root, contents}
use sonalmod.Workspace.Edit
use sonalmod.Workspace.Edit.{compute_first_occurrence_replace}
use sonalmod.Workspace.Replacing.{compute_first_occurrence_replace_lem}

abbrev Log : Type 0
Log = List (AdkEvent ℕ)

abbrev request : RunRequest
request = record {
  user_id = text "ann";
  session_id = text "s1";
  message = some (record { parts = text "hello" ∷ [] });
}

-- The form of a storage that keeps no invocation id.
abbrev filed : AdkEvent ℕ → AdkEvent ℕ
filed e = record e { invocation_id = [] }

-- A storage of one session, of the handles from 3 on, that starts missing; its log is its state.
abbrev log_service : SessionService ℕ ℕ Log
log_service = record {
  get = λ user id s. failed (text "session not found");
  create = λ user id s. (session 3, s);
  append_event = λ h e s. (none, suc h, if e.partial then s else s ++ filed e ∷ []);
}

abbrev the_log : Log → Log
the_log s = s

abbrev Holds : ℕ → Type 0
Holds h = 3 ≤ h

log_service-IsLogged : IsLogged log_service request.user_id request.session_id Holds filed the_log
log_service-IsLogged = record {
  added = λ h k e s t own eq. (grown e s t (sym (ap (λ r. r.2) eq)), held own (ap (λ r. r.1) eq));
  kept = λ h k e s t x own eq. absurd (cc eq);
  got = λ s h eq. absurd (cc eq);
  opened = λ s h eq. ground arith;
  made = λ s. refl;
}
  where
    grown :
        (e : AdkEvent ℕ) (s t : Log)
        → t ≡ (if e.partial then s else s ++ filed e ∷ [])
        → t ≡ s ++ stored filed e
    grown e s t eq = eq ∙ split e.partial (filed e ∷ []) s
      where
        split : (b : Bool) (m s : Log) → (if b then s else s ++ m) ≡ s ++ (if b then [] else m)
        split true m s = sym (append-nil s)
        split false m s = refl

    held : {h k : ℕ} → 3 ≤ h → suc h ≡ k → 3 ≤ k
    held own eq = omega arith

abbrev answer : SessionEvent ℕ
answer = record {
  error_code = [];
  error_message = [];
  partial = false;
  turn_complete = true;
  interrupted = false;
  author = text "agent";
  branch = [];
  invocation_id = text "i1";
  content = some (record {
    role = text "model";
    parts = (record { text = text "hi"; function_call = none; function_response = none }) ∷ [];
  });
}

-- A run of a partial event, a nil one and the whole answer.
abbrev run_of_answer : List (Option (SessionEvent ℕ))
run_of_answer = some (record answer { partial = true }) ∷ none ∷ some answer ∷ []

record_run-IsRecorded_example :
    IsRecorded log_service request Holds filed the_log log_service-IsLogged
      (run_events filed request.message run_of_answer)
      []
      (record_run log_service request run_of_answer [])
record_run-IsRecorded_example =
    record_run-IsRecorded log_service request Holds filed the_log log_service-IsLogged run_of_answer
      []

map_adk_session_event-new_adk_session_event_example :
    map_adk_session_event (some (new_adk_session_event answer)) ≡ some answer
map_adk_session_event-new_adk_session_event_example =
    map_adk_session_event-new_adk_session_event answer refl

abbrev nine : TruncatingSummarizer
nine = record { max_len = pos 9 }

summarize_lem_example :
    ((length (text "say hello again") ≤ max_len_or_default nine.max_len)
      × (summarize nine (text "say hello again") ≡ text "say hello again"))
    ⊎ ((max_len_or_default nine.max_len < length (text "say hello again"))
        × IsCut
            (max_len_or_default nine.max_len)
            (text "say hello again")
            (summarize nine (text "say hello again")))
summarize_lem_example = summarize_lem nine (text "say hello again")

abbrev titled : LlmSummarizer ℕ
titled = record {
  list = inr (
      (record {
        name = text "openai";
        type = text "openai-compatible";
        display_name = [];
        base_url = [];
        api_key = [];
        models = (record { name = text "gpt"; display_name = []; summarization = true }) ∷ [];
        created_at = 1;
        updated_at = 1;
      })
      ∷ []);
  resolve_model =
      λ name. inr (λ prompt. content (some (text " Greeting ") ∷ none ∷ []) ∷ no_content ∷ []);
  fallback = λ s. inr s;
}

sanitize_relative_path-AreEntries_example :
    (parts : List Text) × AreEntries parts × (text "docs/b.md" ≡ or_dot parts)
unfolding sanitize_relative_path sonalmod.Base.has_prefix sonalmod.Base.trim_space
    sonalmod.Base.is_space sonalmod.Base.text_beq
sanitize_relative_path-AreEntries_example =
    sanitize_relative_path-AreEntries (text " docs/a/../b.md ") (text "docs/b.md") refl

compute_first_occurrence_replace_lem_example :
    (before : Text) × (after : Text) × (n : ℕ) × (compute_first_occurrence_replace
        (text "abab")
        (text "b")
        (text "cc")
      ≡ Edit.ok (before ++ (text "cc" ++ after)) n)
    × (text "abab" ≡ before ++ (text "b" ++ after))
    × (length before ≤ length (text "aba"))
    × (1 ≤ n)
compute_first_occurrence_replace_lem_example =
    compute_first_occurrence_replace_lem (text "abab") (text "b") (text "cc") (text "aba") [] refl

abbrev notes : Service ℕ
notes = record {
  by_id = (text "docs", (text "a.txt", contents (text "one\ntwo\nthree\n")) ∷ []) ∷ [];
  max_read_bytes = pos 20;
}

abbrev last_two : ReadTextFileRequest
last_two = record {
  path = text "x/../a.txt";
  workspace = text "docs";
  head = none;
  tail = some (pos 2);
}

abbrev notes_root : Root ℕ
notes_root = (text "a.txt", contents (text "one\ntwo\nthree\n")) ∷ []
