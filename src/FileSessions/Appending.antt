-- ===== src/FileSessions/Appending.antt =====
-- The steps of `AppendEvent`, as far as they succeed.
use sonalmod.Base.{
  ℕ, ◌≡◌, refl, sym, ◌∙◌, ap, false, Option, none, some, [], ◌∷◌, Text, text_eq, ◌==◌, is_empty,
  lookup, has_prefix, keep, not, Dict, text_beq_iff, if◌then◌else◌, FilePath, path_eq, arith,
  Bool-cases, inl, inr,
}
use sonalmod.Sessions.StateDelta.{extract_state_deltas}
use sonalmod.FileSessions.Disk.{
  Json, reread_stored, Event, Stored, File, session_file, Disk, Stage, session_write, marshal,
  Answer, ServiceError, Result, ok, err, session_path, app_state_path, user_state_path,
  read_session, write_file, attempt, app_dir, app_state, user_dir, user_state,
}
use sonalmod.FileSessions.Service.{
  FileSession, update_state, load, get, trim_temp_delta_state, apply_event_state_deltas, appended,
  appended_stored, finish_append, append_read,
}
use sonalmod.FileSessions.Frames.{
  write_file_frame, lookup-write_file, attempt_frame, update_state_frame, chain_ok, chain_either,
}
use sonalmod.FileSessions.Whole.{whole_session, get_whole}

-- An event without the keys of a state delta that have the temporary prefix, as far as a key shows.
pub record IsTrimmed {V P : Type 0} (temp_prefix j : Text) (e e' : Event V P) : Type 0 where
  pub timestamp : e'.timestamp ≡ e.timestamp
  pub partial : e'.partial ≡ e.partial
  pub rest : e'.rest ≡ e.rest
  pub delta :
      lookup j e'.state_delta ≡ (if has_prefix temp_prefix j then none else lookup j e.state_delta)

lookup-keep :
    {V : Type 0} (temp_prefix j : Text) (d : Dict Text V)
    → lookup j (keep (λ (b : Text × V). not (has_prefix temp_prefix b.0)) d)
      ≡ (if has_prefix temp_prefix j then none else lookup j d)
unfolding lookup
lookup-keep temp_prefix j [] = elim (Bool-cases (has_prefix temp_prefix j)) [
  | inl t ↦ rw t refl
  | inr t ↦ rw t refl
]
lookup-keep temp_prefix j ((k, v) ∷ d) =
    let rest = lookup-keep temp_prefix j d in
    elim (Bool-cases (k == j)) [
      | inl same ↦
          let key = ap (has_prefix temp_prefix) ((text_beq_iff k j).0 same) in
          elim (Bool-cases (has_prefix temp_prefix j)) [
            | inl t ↦ ground arith
            | inr t ↦ ground arith
          ]
      | inr other ↦ elim (Bool-cases (has_prefix temp_prefix k)) [
        | inl t ↦ ground arith
        | inr t ↦ ground arith
      ]
    ]

module _ {V P X : Type 0} ⦃json : Json V P⦄ (app_prefix user_prefix temp_prefix : Text)
    (answer : Stage → Answer V P X) (now : ℕ) where
  pub apply_keeps :
      (fs : FileSession V P) (e : Event V P) (stored : Stored V P) (disk : Disk V P X)
      (q : FilePath)
      → (app_state_path fs.app_name == q) ≡ false
      → (user_state_path fs.app_name fs.user_id == q) ≡ false
      → (lookup q
            (apply_event_state_deltas app_prefix user_prefix temp_prefix answer now fs e stored
              disk).1
          ≡ lookup q disk)
        × ((apply_event_state_deltas app_prefix user_prefix temp_prefix answer now fs e stored
              disk).2.events
            ≡ stored.events)
  unfolding apply_event_state_deltas
  apply_keeps fs e stored disk q a u =
      let parts = extract_state_deltas app_prefix user_prefix temp_prefix e.state_delta in
      let r =
        update_state app_dir (answer app_dir) app_state (answer app_state)
          (app_state_path fs.app_name) now parts.app disk in
      let first =
        update_state_frame app_dir (answer app_dir) app_state (answer app_state)
          (app_state_path fs.app_name) q now parts.app disk a in
      let r' =
        update_state user_dir (answer user_dir) user_state (answer user_state)
          (user_state_path fs.app_name fs.user_id) now parts.user r.1 in
      let second =
        update_state_frame user_dir (answer user_dir) user_state (answer user_state)
          (user_state_path fs.app_name fs.user_id) q now parts.user r.1 u in
      chain_either
        (λ (o : Option (ServiceError X) × Disk V P X × Stored V P).
          (lookup q o.1 ≡ lookup q disk) × (o.2.events ≡ stored.events))
        _ r _ (λ x. (first, refl))
        (chain_either
          (λ (o : Option (ServiceError X) × Disk V P X × Stored V P).
            (lookup q o.1 ≡ lookup q disk) × (o.2.events ≡ stored.events))
          _ r' _ (λ x. (second ∙ first, refl)) (second ∙ first, refl))

  pub finish_append_ok :
      (fs fs' : FileSession V P) (e : Event V P)
      (r : Option (ServiceError X) × Disk V P X × Stored V P) (d' : Disk V P X) (q : FilePath)
      → (session_path fs.app_name fs.user_id fs.id == q) ≡ false
      → finish_append app_prefix user_prefix temp_prefix answer now fs e r ≡ (none, fs', d')
      → (fs' ≡ appended app_prefix user_prefix temp_prefix answer now e fs)
        × (lookup (session_path fs.app_name fs.user_id fs.id) d'
            ≡ some (
                session_file (
                  reread_stored
                    (appended_stored app_prefix user_prefix temp_prefix answer now e r.2))))
        × (lookup q d' ≡ lookup q r.1)
  unfolding finish_append
  finish_append_ok fs fs' e (some x, disk, stored) d' q apart h = absurd (ground arith)
  finish_append_ok fs fs' e (none, disk, stored) d' q apart h =
      let path = session_path fs.app_name fs.user_id fs.id in
      let new = appended app_prefix user_prefix temp_prefix answer now e fs in
      let f : File V P X =
        session_file (appended_stored app_prefix user_prefix temp_prefix answer now e stored) in
      let m = attempt marshal (answer marshal) disk in
      let (o, h1) =
        chain_ok (λ x d. (some x, new, d)) m _ (none, fs', d') (λ x d bad. ground arith) h in
      let w = write_file session_write (answer session_write) path f m.1 in
      let written : w.0 ≡ none = ap (λ t. t.0) h1 in
      let left : w.1 ≡ d' = ap (λ t. t.2) h1 in
      (
        sym (ap (λ t. t.1) h1),
        ap (lookup path) (sym left)
            ∙ lookup-write_file session_write (answer session_write) path f m.1 written,
        ap (lookup q) (sym left)
            ∙ write_file_frame session_write (answer session_write) path q f m.1 apart
            ∙ ap (lookup q) (attempt_frame marshal (answer marshal) disk),
      )

  pub append_read_ok :
      (fs fs' : FileSession V P) (e : Event V P) (r : Result X (Stored V P)) (disk d' : Disk V P X)
      → append_read app_prefix user_prefix temp_prefix answer now fs e r disk ≡ (none, fs', d')
      → (stored : Stored V P) × (r ≡ ok stored)
        × (finish_append app_prefix user_prefix temp_prefix answer now fs e (
              apply_event_state_deltas app_prefix user_prefix temp_prefix answer now fs e stored
                disk)
            ≡ (none, fs', d'))
  append_read_ok fs fs' e (err x) disk d' h = absurd (ground arith)
  append_read_ok fs fs' e (ok stored) disk d' h = (stored, refl, h)

  pub get_events :
      (app user sid : Text) (stored : Stored V P) (d : Disk V P X)
      → is_empty app ≡ false
      → is_empty user ≡ false
      → is_empty sid ≡ false
      → read_session (session_path app user sid) sid d ≡ ok stored
      → (t : FileSession V P) × (get app_prefix user_prefix temp_prefix
            (whole_session app user sid)
            d
          ≡ ok t)
        × (t.events ≡ stored.events)
        × (t.updated_at ≡ stored.updated_at)
  unfolding load
  get_events app user sid stored d a u i read = (
    _,
    get_whole app_prefix user_prefix temp_prefix app user sid d a u i
        ∙ ap (λ r. load app_prefix user_prefix temp_prefix app user sid r d) read,
    refl,
    refl,
  )

  pub trimmed :
      (j : Text) (e : Event V P)
      → IsTrimmed temp_prefix j e
          (trim_temp_delta_state app_prefix user_prefix temp_prefix answer now e)
  unfolding trim_temp_delta_state
  trimmed j e = record {
    timestamp = refl;
    partial = refl;
    rest = refl;
    delta = lookup-keep temp_prefix j e.state_delta;
  }
