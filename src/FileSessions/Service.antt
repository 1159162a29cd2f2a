-- ===== src/FileSessions/Service.antt =====
-- The operations of `FileSessionService` on a disk.

use sonalmod.Base.{
  ℕ, zero, suc, ◌+◌, ◌-◌, ◌/◌, Bool, true, false, not, ◌||◌, Option, none, some, List, [], ◌∷◌,
  ◌++◌, Text, is_empty, Dict, lookup, erase, FilePath, path_eq, if◌then◌else◌, length, drop, ltb,
  keep, has_prefix,
}
use sonalmod.Sessions.StateDelta.{copy_under, extract_state_deltas, merge_states}
use sonalmod.FileSessions.Disk.{
  Event, Json, Stored, session_file, state_file, Disk, Stage, app_dir, app_state, user_dir,
  user_state, session_dir, marshal, session_write, session_remove, Answer, fine, refused, torn,
  ServiceError, fields_required, event_is_nil, already_exists, not_found, system, Result, ok, err,
  session_path, app_state_path, user_state_path, read_session, read_app_state, write_file, attempt,
  chain, and_then,
}

-- `fileSession`
pub record FileSession (V P : Type 0) : Type 0 where
  pub id : Text
  pub app_name : Text
  pub user_id : Text
  pub state : Dict Text V
  pub events : List (Event V P)
  pub updated_at : ℕ

-- The requests of the ADK, by the fields that the service reads. A negative number of recent
-- events is 0, and the zero time is `none`.
pub record CreateRequest (V : Type 0) : Type 0 where
  pub app_name : Text
  pub user_id : Text
  pub session_id : Text
  pub state : Dict Text V

pub record GetRequest : Type 0 where
  pub app_name : Text
  pub user_id : Text
  pub session_id : Text
  pub num_recent_events : ℕ
  pub after : Option ℕ

pub record DeleteRequest : Type 0 where
  pub app_name : Text
  pub user_id : Text
  pub session_id : Text

module _ {V : Type 0} where
  -- `maps.Copy(dst, src)`
  unfoldable pub copy_into : Dict Text V → Dict Text V → Dict Text V
  unfolding copy_under
  copy_into dst src = copy_under [] src dst

  abbrev pub is_nil : Dict Text V → Bool
  is_nil [] = true
  is_nil (_ ∷ _) = false

module _ {V P : Type 0} where
  abbrev pub is_before : ℕ → List (Event V P) → Bool
  is_before t [] = false
  is_before t (e ∷ _) = ltb e.timestamp t

  -- `sort.Search` for the first index from `low` on, below `high`, whose event is not before a
  -- time; the interval halves, so its length is fuel enough.
  unfoldable pub search_from : ℕ → List (Event V P) → ℕ → ℕ → ℕ → ℕ
  search_from t events zero low high = low
  search_from t events (suc fuel) low high =
      let middle = (low + high) / 2 in
      let right = search_from t events fuel (middle + 1) high in
      let left = search_from t events fuel low middle in
      let next = if is_before t (drop middle events) then right else left in
      if ltb low high then next else low

  -- `NumRecentEvents`
  unfoldable pub recent : ℕ → List (Event V P) → List (Event V P)
  recent zero events = events
  recent (suc n) events = drop (length events - suc n) events

  -- `After`
  unfoldable pub not_before : Option ℕ → List (Event V P) → List (Event V P)
  unfolding search_from
  not_before none events = events
  not_before (some t) events = drop (search_from t events (length events) 0 (length events)) events

module _ {V : Type 0} (app_prefix user_prefix temp_prefix : Text) where
  -- The session part of a stored state.
  abbrev pub session_state : Dict Text V → Dict Text V
  session_state state = (extract_state_deltas app_prefix user_prefix temp_prefix state).session

module _ {V P X : Type 0} where
  -- `os.Remove` of a file that is there.
  unfoldable pub remove_file :
      Answer V P X → FilePath → Disk V P X → Option (ServiceError X) × Disk V P X
  remove_file fine path disk = (none, erase path disk)
  remove_file (refused x) path disk = (some (system session_remove x), disk)
  remove_file (torn x _) path disk = (some (system session_remove x), disk)

module _ {V P X : Type 0} ⦃json : Json V P⦄ where
  -- The update of an app's or a user's state file in `Create` and `applyEventStateDeltas`.
  unfoldable pub update_state :
      Stage
      → Answer V P X
      → Stage
      → Answer V P X
      → FilePath
      → ℕ
      → Dict Text V
      → Disk V P X
      → Option (ServiceError X) × Disk V P X
  unfolding copy_into read_app_state attempt write_file
  update_state dir made at written path now delta disk =
      if is_nil delta
      then (none, disk)
      else chain (λ e d. (some e, d)) (attempt dir made disk)
          λ d.
            write_file at written path (state_file (copy_into (read_app_state path d) delta) now) d

module _ {V P X : Type 0} (app_prefix user_prefix temp_prefix : Text) where
  -- The merge that `Create` stores and `Get` returns, on a disk as it is then.
  unfoldable pub merged_state : Text → Text → Dict Text V → Disk V P X → Dict Text V
  unfolding merge_states read_app_state
  merged_state app user session disk =
      merge_states app_prefix user_prefix temp_prefix (read_app_state (app_state_path app) disk)
        (read_app_state (user_state_path app user) disk) session

  module _ ⦃json : Json V P⦄ (answer : Stage → Answer V P X) (now : ℕ) where
    -- The end of `Create`: the merge, the directory, the file.
    unfoldable pub write_session :
        Text → Text → Text → Dict Text V → Disk V P X → Result X (FileSession V P) × Disk V P X
    unfolding merged_state attempt write_file
    write_session app user sid session disk =
        let merged = merged_state app user session disk in
        let stored : Stored V P = record {
          app_name = app;
          user_id = user;
          session_id = sid;
          state = merged;
          updated_at = now;
          events = [];
        } in
        and_then (attempt session_dir (answer session_dir) disk) λ d.
          and_then (attempt marshal (answer marshal) d) λ d'.
            and_then
              (write_file session_write (answer session_write) (session_path app user sid)
                (session_file stored) d')
              λ d''. (
                ok (record {
                  id = sid;
                  app_name = app;
                  user_id = user;
                  state = merged;
                  events = [];
                  updated_at = now;
                }),
                d'',
              )

    -- The session's id: the request's, or a fresh one.
    abbrev pub chosen_id : Text → Text → Text
    chosen_id [] fresh = fresh
    chosen_id (c ∷ sid) fresh = c ∷ sid

    -- `Create`; `fresh` is what `uuid.NewString` gives.
    unfoldable pub create :
        Text → CreateRequest V → Disk V P X → Result X (FileSession V P) × Disk V P X
    unfolding update_state write_session
    create fresh req disk =
        let sid = chosen_id req.session_id fresh in
        let parts = extract_state_deltas app_prefix user_prefix temp_prefix req.state in
        if is_empty req.app_name || is_empty req.user_id
        then (err fields_required, disk)
        else elim (lookup (session_path req.app_name req.user_id sid) disk) [
          | some _ ↦ (err (already_exists sid), disk)
          | none ↦
              and_then
                (update_state app_dir (answer app_dir) app_state (answer app_state)
                  (app_state_path req.app_name) now parts.app disk)
                λ d.
                  and_then
                    (update_state user_dir (answer user_dir) user_state (answer user_state)
                      (user_state_path req.app_name req.user_id) now parts.user d)
                    λ d'. write_session req.app_name req.user_id sid parts.session d'
        ]

    -- `trimTempDeltaState`
    unfoldable pub trim_temp_delta_state : Event V P → Event V P
    trim_temp_delta_state e = record e {
      state_delta = keep (λ (b : Text × V). not (has_prefix temp_prefix b.0)) e.state_delta;
    }

    -- `applyEventStateDeltas`: its error, the stored session and the disk that it leaves.
    unfoldable pub apply_event_state_deltas :
        FileSession V P
        → Event V P
        → Stored V P
        → Disk V P X
        → Option (ServiceError X) × Disk V P X × Stored V P
    unfolding update_state copy_into
    apply_event_state_deltas fs e stored disk =
        let parts = extract_state_deltas app_prefix user_prefix temp_prefix e.state_delta in
        chain (λ x d. (some x, d, stored))
          (update_state app_dir (answer app_dir) app_state (answer app_state)
            (app_state_path fs.app_name) now parts.app disk)
          λ d.
            chain (λ x d'. (some x, d', stored))
              (update_state user_dir (answer user_dir) user_state (answer user_state)
                (user_state_path fs.app_name fs.user_id) now parts.user d)
              λ d'. (none, d', record stored { state = copy_into stored.state parts.session })

    -- The session in memory and the stored one, with an event appended.
    abbrev pub appended : Event V P → FileSession V P → FileSession V P
    appended e fs = record fs {
      events = fs.events ++ e ∷ [];
      updated_at = e.timestamp;
      state = copy_into fs.state (session_state app_prefix user_prefix temp_prefix e.state_delta);
    }

    abbrev pub appended_stored : Event V P → Stored V P → Stored V P
    appended_stored e s = record s { events = s.events ++ e ∷ []; updated_at = e.timestamp }

    -- The end of `AppendEvent`, which has changed the session in memory already.
    unfoldable pub finish_append :
        FileSession V P
        → Event V P
        → Option (ServiceError X) × Disk V P X × Stored V P
        → Option (ServiceError X) × FileSession V P × Disk V P X
    unfolding attempt write_file copy_into
    finish_append fs e (some x, disk, stored) = (some x, fs, disk)
    finish_append fs e (none, disk, stored) =
        let fs' = appended e fs in
        chain (λ x d. (some x, fs', d)) (attempt marshal (answer marshal) disk)
          λ d.
            let r =
              write_file session_write (answer session_write)
                (session_path fs.app_name fs.user_id fs.id)
                (session_file (appended_stored e stored)) d in
            (r.0, fs', r.1)

    abbrev pub append_read :
        FileSession V P
        → Event V P
        → Result X (Stored V P)
        → Disk V P X
        → Option (ServiceError X) × FileSession V P × Disk V P X
    append_read fs e (err x) disk = (some x, fs, disk)
    append_read fs e (ok stored) disk =
        finish_append fs e (apply_event_state_deltas fs e stored disk)

    -- `AppendEvent` on a session of this service: its error, the session in memory, the disk.
    unfoldable pub append_event :
        Option (Event V P)
        → FileSession V P
        → Disk V P X
        → Option (ServiceError X) × FileSession V P × Disk V P X
    unfolding trim_temp_delta_state apply_event_state_deltas finish_append read_session
    append_event none fs disk = (some event_is_nil, fs, disk)
    append_event (some e) fs disk =
        if e.partial
        then (none, fs, disk)
        else append_read fs (trim_temp_delta_state e)
            (read_session (session_path fs.app_name fs.user_id fs.id) fs.id disk) disk

    -- `Delete`
    unfoldable pub delete : DeleteRequest → Disk V P X → Option (ServiceError X) × Disk V P X
    unfolding remove_file
    delete req disk =
        let path = session_path req.app_name req.user_id req.session_id in
        if is_empty req.app_name || (is_empty req.user_id || is_empty req.session_id)
        then (some fields_required, disk)
        else elim (lookup path disk) [
          | none ↦ (some (not_found req.session_id), disk)
          | some _ ↦ remove_file (answer session_remove) path disk
        ]

  -- `loadSessionMetadata`, and the part of `Get` that it shares.
  unfoldable pub load :
      Text → Text → Text → Result X (Stored V P) → Disk V P X → Result X (FileSession V P)
  unfolding merged_state
  load app user sid (err x) disk = err x
  load app user sid (ok stored) disk = ok (record {
    id = sid;
    app_name = app;
    user_id = user;
    state =
        merged_state app user (session_state app_prefix user_prefix temp_prefix stored.state) disk;
    events = stored.events;
    updated_at = stored.updated_at;
  })

  abbrev pub filtered : GetRequest → Result X (FileSession V P) → Result X (FileSession V P)
  filtered req (err x) = err x
  filtered req (ok s) =
      ok (record s { events = not_before req.after (recent req.num_recent_events s.events) })

  -- `Get`
  unfoldable pub get : GetRequest → Disk V P X → Result X (FileSession V P)
  unfolding read_session load not_before recent
  get req disk =
      if is_empty req.app_name || (is_empty req.user_id || is_empty req.session_id)
      then err fields_required
      else filtered req (
          load req.app_name req.user_id req.session_id
            (read_session (session_path req.app_name req.user_id req.session_id) req.session_id
              disk)
            disk)
