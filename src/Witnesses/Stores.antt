-- ===== src/Witnesses/Stores.antt =====
-- The stores of sessions and tokens at concrete inputs.
use sonalmod.Base.{
  ℕ, suc, ◌≡◌, refl, ◌⊎◌, inr, Bool, true, false, none, some, List, [], ◌∷◌, ◌++◌, Text, text,
  Option, lookup, length, text_eq, Dict, cut_prefix, has_prefix, insert, if◌then◌else◌, ltb, ◌==◌,
  keep, drop, is_empty,
}
use sonalmod.SessionEvent.{AdkEvent}
use sonalmod.Sessions.Metadata.{SessionMetadata, sort_by_updated_at_desc, insert_newest}
use sonalmod.Sessions.Paging.{find}
use sonalmod.Sessions.Sync.{SessionRef, append_event, memory_store}
use sonalmod.Sessions.Sync.Append.{entry, append_event-entry}
use sonalmod.Sessions.StateDelta.{extract_state_deltas, merge_states}
use sonalmod.Sessions.StateDelta.Merge.{merge_states-extract_state_deltas}
use sonalmod.Auth.RefreshStore.{
  Result, ok, err, invalid_refresh_token, Files, CreateAnswers, stored, validate,
}
use sonalmod.Auth.Service.{User, Tokens, Deps, login, refresh}
use sonalmod.Auth.Rotation.{login_sound, refresh_rotates}

abbrev meta : Text → Text → ℕ → SessionMetadata
meta sid title at = record {
  session_id = sid;
  app_name = text "app";
  user_id = text "u";
  title = title;
  created_at = 1;
  updated_at = at;
}

abbrev listed : List SessionMetadata
listed = meta (text "a") (text "first") 3 ∷ meta (text "b") [] 5 ∷ []

abbrev message : AdkEvent ℕ
message = record {
  error_code = [];
  error_message = [];
  partial = false;
  turn_complete = true;
  interrupted = false;
  author = text "user";
  branch = [];
  invocation_id = [];
  content = some (record {
    role = text "user";
    parts =
        some (record { text = text "hello"; function_call = none; function_response = none }) ∷ [];
  });
}

abbrev summarize : Text → ℕ ⊎ Text
summarize t = inr t

abbrev session_a : SessionRef
session_a = record { id = text "a"; app_name = text "app"; user_id = text "u" }

abbrev session_b : SessionRef
session_b = record { id = text "b"; app_name = text "app"; user_id = text "u" }

abbrev appended : Option ℕ × List SessionMetadata
appended =
    append_event (text "user") summarize memory_store 9 3 none (some session_a) (some message)
      listed

append_event-entry_example :
    (appended.0 ≡ none)
    × (entry session_a appended.1
        ≡ some (record (meta (text "a") (text "first") 9) { created_at = 1 }))
    × (entry session_b appended.1 ≡ entry session_b listed)
unfolding find sort_by_updated_at_desc insert_newest sonalmod.Base.text_beq
    sonalmod.Sessions.Sync.title_after_append
append_event-entry_example =
    append_event-entry (text "user") summarize 9 session_a message listed refl refl refl refl
      session_b refl appended refl

abbrev delta : Dict Text ℕ
delta = (text "app:x", 1) ∷ (text "user:x", 2) ∷ (text "temp:x", 3) ∷ (text "x", 4) ∷ []

merge_states-extract_state_deltas_example :
    lookup (text "user:x") (
      merge_states
        (text "app:")
        (text "user:")
        (text "temp:")
        (extract_state_deltas (text "app:") (text "user:") (text "temp:") delta).app
        (extract_state_deltas (text "app:") (text "user:") (text "temp:") delta).user
        (extract_state_deltas (text "app:") (text "user:") (text "temp:") delta).session)
    ≡ some 2
unfolding cut_prefix has_prefix lookup sonalmod.Base.text_beq
merge_states-extract_state_deltas_example =
    merge_states-extract_state_deltas (text "app:") (text "user:") (text "temp:") (text "user:x")
      delta λ k. refl

abbrev hash : Text → Text
hash t = text "h" ++ t

abbrev user : User
user = record { id = text "u1"; username = text "ann"; password_hash = text "secret" }

abbrev deps : Deps ℕ
deps = record {
  get_by_username = λ name. ok user;
  get_by_id = λ id. ok user;
  verify = λ password stored_hash. ok (password == stored_hash);
  generate_access_token = λ id name. ok (text "jwt");
  refresh_token_ttl = 100;
}

abbrev answers : CreateAnswers ℕ
answers = record {
  random = inr (text "new");
  marshal_fault = none;
  mkdir_fault = none;
  write_fault = none;
  rename_fault = none;
}

abbrev files : Files ℕ
files =
    (
      text "hold",
      stored (record {
        user_id = text "u1";
        token_hash = text "hold";
        expires_at = 60;
        created_at = 0;
      }),
    )
    ∷ []

abbrev issued : Tokens
issued = record {
  access = text "jwt";
  refresh = text "new";
  user = record { id = text "u1"; username = text "ann" };
}

abbrev logged_in : Result ℕ Tokens × Files ℕ
logged_in = login hash deps answers 50 (text "ann") (text "secret") files

login_sound_example :
    (u : User) × (deps.get_by_username (text "ann") ≡ ok u)
    × (deps.verify (text "secret") u.password_hash ≡ ok true)
    × (issued.user.id ≡ u.id)
    × (validate hash 140 (text "new") logged_in.1 ≡ ok u.id)
unfolding login sonalmod.Base.text_beq
login_sound_example =
    login_sound hash deps answers 50 (text "ann") (text "secret") files logged_in.1 issued 140 refl
      refl

abbrev refreshed : Result ℕ Tokens × Files ℕ
refreshed = refresh hash deps answers 50 none (text "old") files

refresh_rotates_example :
    ((id : Text) × (validate hash 50 (text "old") files ≡ ok id))
    × (validate hash 140 (text "old") refreshed.1 ≡ err invalid_refresh_token)
    × (validate hash 140 (text "new") refreshed.1 ≡ ok (text "u1"))
    × (validate hash 140 (text "third") refreshed.1 ≡ validate hash 140 (text "third") files)
unfolding refresh lookup sonalmod.Base.text_beq
refresh_rotates_example =
    refresh_rotates hash deps answers 50 none (text "old") (text "third") files refreshed.1 issued
      140 refl refl refl refl refl
