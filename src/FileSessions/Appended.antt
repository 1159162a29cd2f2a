-- ===== src/FileSessions/Appended.antt =====
-- What `Get` reads after `AppendEvent` and `Delete`.
use sonalmod.Base.{
  ℕ, ◌≡◌, refl, sym, ◌∙◌, ap, false, ◌||◌, Option, none, some, [], ◌∷◌, ◌++◌, Text, text, text_eq,
  ◌==◌, is_empty, lookup, map, FilePath, path_eq, path_beq_iff, arith, if_false, Bool-cases,
  Option-cases, inl, inr, lookup-erase, erase,
}
use sonalmod.FileSessions.Disk.{
  Json, reread_event, reread_stored, Event, Disk, Stage, session_remove, Answer, fine, refused,
  torn, ServiceError, not_found, ok, err, session_path, read_session, parse_found,
}
use sonalmod.FileSessions.Service.{
  FileSession, DeleteRequest, load, get, trim_temp_delta_state, apply_event_state_deltas,
  appended_stored, append_read, append_event, remove_file, delete,
}
use sonalmod.FileSessions.Frames.{session-app_state, session-user_state}
use sonalmod.FileSessions.Whole.{whole_session, get_whole}
use sonalmod.FileSessions.Appending.{
  IsTrimmed, apply_keeps, finish_append_ok, append_read_ok, get_events, trimmed,
}

module _ {V P X : Type 0} ⦃json : Json V P⦄ (app_prefix user_prefix temp_prefix : Text)
    (answer : Stage → Answer V P X) (now : ℕ) where
  -- If `AppendEvent` of an event that is not partial succeeds, on a session with an id, an app and
  -- a user that are not empty, then there is an event with the same time, flag and rest, and with
  -- the same state delta less the keys with the temporary prefix, such that: `Get` returned
  -- the session before and returns it after, with that event behind the events that it had, all of
  -- them written and read as JSON, and with the event's time; the session in memory has that event
  -- behind its own; and the file of another session, of an app that is not called `_user`, is as it
  -- was.
  pub get-append_event :
      (fs fs' : FileSession V P) (e : Event V P) (disk d' : Disk V P X) (app user sid j : Text)
      → append_event app_prefix user_prefix temp_prefix answer now (some e) fs disk
        ≡ (none, fs', d')
      → e.partial ≡ false
      → is_empty fs.app_name ≡ false
      → is_empty fs.user_id ≡ false
      → is_empty fs.id ≡ false
      → (text "_user" == app) ≡ false
      → (session_path fs.app_name fs.user_id fs.id == session_path app user sid) ≡ false
      → (e' : Event V P) × (t : FileSession V P) × (t' : FileSession V P) × IsTrimmed temp_prefix j
          e e'
        × (get app_prefix user_prefix temp_prefix (whole_session fs.app_name fs.user_id fs.id) disk
            ≡ ok t)
        × (get app_prefix user_prefix temp_prefix (whole_session fs.app_name fs.user_id fs.id) d'
            ≡ ok t')
        × (t'.events ≡ map reread_event (t.events ++ e' ∷ []))
        × (t'.updated_at ≡ e.timestamp)
        × (fs'.events ≡ fs.events ++ e' ∷ [])
        × (lookup (session_path app user sid) d' ≡ lookup (session_path app user sid) disk)
  unfolding append_event
  get-append_event fs fs' e disk d' app user sid j h whole a u i other apart =
      let path = session_path fs.app_name fs.user_id fs.id in
      let q = session_path app user sid in
      let e' = trim_temp_delta_state app_prefix user_prefix temp_prefix answer now e in
      let read = read_session path fs.id disk in
      let rest : append_read app_prefix user_prefix temp_prefix answer now fs e' read disk
          ≡ (none, fs', d') =
        sym (
          if_false e.partial (none, fs, disk)
            (append_read app_prefix user_prefix temp_prefix answer now fs e' read disk) whole)
        ∙ h in
      let (stored, found, ended) =
        append_read_ok app_prefix user_prefix temp_prefix answer now fs fs' e' read disk d' rest in
      let r =
        apply_event_state_deltas app_prefix user_prefix temp_prefix answer now fs e' stored disk in
      let (memory, written, frame) =
        finish_append_ok app_prefix user_prefix temp_prefix answer now fs fs' e' r d' q apart
          ended in
      let keeps =
        apply_keeps app_prefix user_prefix temp_prefix answer now fs e' stored disk q
          (session-app_state app user sid fs.app_name)
          (session-user_state app user sid fs.app_name fs.user_id other) in
      let new =
        reread_stored (appended_stored app_prefix user_prefix temp_prefix answer now e' r.2) in
      let reread : read_session path fs.id d' ≡ ok new =
        unfold read_session in ap (parse_found fs.id) written in
      let (t, got, events, time) =
        get_events app_prefix user_prefix temp_prefix answer now fs.app_name fs.user_id fs.id stored
          disk a u i found in
      let (t', got', events', time') =
        get_events app_prefix user_prefix temp_prefix answer now fs.app_name fs.user_id fs.id new d'
          a u i reread in
      (
        e',
        t,
        t',
        trimmed app_prefix user_prefix temp_prefix answer now j e,
        got,
        got',
        events' ∙ ap (λ l. map reread_event (l ++ e' ∷ [])) (keeps.1 ∙ sym events),
        time' ∙ unfold trim_temp_delta_state in refl,
        ap (λ x. x.events) memory,
        frame ∙ keeps.0,
      )

  -- What a `Delete` with or without an error leaves.
  abbrev pub Deleted :
      Text → Text → Text → Disk V P X → Disk V P X → FilePath → Option (ServiceError X) → Type 0
  Deleted app user sid disk d' q (some e) = d' ≡ disk
  Deleted app user sid disk d' q none =
      (get app_prefix user_prefix temp_prefix (whole_session app user sid) d' ≡ err (not_found sid))
      × (lookup q d' ≡ lookup q disk)

  remove_file-Deleted :
      (app user sid : Text) (a : Answer V P X) (disk : Disk V P X) (q : FilePath)
      → is_empty app ≡ false
      → is_empty user ≡ false
      → is_empty sid ≡ false
      → (session_path app user sid == q) ≡ false
      → Deleted app user sid disk
          (remove_file a (session_path app user sid) disk).1
          q
          (remove_file a (session_path app user sid) disk).0
  unfolding remove_file
  remove_file-Deleted app user sid (refused x) disk q b u i apart = refl
  remove_file-Deleted app user sid (torn x f) disk q b u i apart = refl
  remove_file-Deleted app user sid fine disk q b u i apart =
      let path = session_path app user sid in
      let d' = erase path disk in
      let self = (path_beq_iff path path).1 refl in
      let gone : lookup path d' ≡ none = ground (arith, lookup-erase path path disk) in
      let read : read_session path sid d' ≡ err (not_found sid) =
        unfold read_session in ap (parse_found sid) gone in
      (
        get_whole app_prefix user_prefix temp_prefix app user sid d' b u i
            ∙ unfold load in
              ap (λ r. load app_prefix user_prefix temp_prefix app user sid r d') read,
        ground (arith, lookup-erase q path disk),
      )

  -- If `Delete` succeeds, `Get` of the session then reports that it is not found, and every other
  -- file is as it was; if it fails, the disk is as it was.
  pub get-delete :
      (req : DeleteRequest) (disk : Disk V P X) (q : FilePath)
      → (session_path req.app_name req.user_id req.session_id == q) ≡ false
      → Deleted req.app_name req.user_id req.session_id disk
          (delete app_prefix user_prefix temp_prefix answer now req disk).1
          q
          (delete app_prefix user_prefix temp_prefix answer now req disk).0
  unfolding delete
  get-delete req disk q apart =
      let path = session_path req.app_name req.user_id req.session_id in
      elim (Bool-cases
        (is_empty req.app_name || (is_empty req.user_id || is_empty req.session_id))) [
          | inl bad ↦ rw bad refl
          | inr good ↦ elim (Option-cases (lookup path disk)) [
            | inl gone ↦ rw (good, gone) refl
            | inr (f, there) ↦
                rw (good, there)
                  (remove_file-Deleted req.app_name req.user_id req.session_id
                    (answer session_remove) disk q (ground arith) (ground arith) (ground arith)
                    apart)
          ]
        ]
