-- ===== src/FileSessions/Created.antt =====
-- What `Get` reads after `Create`.
use sonalmod.Base.{
  ℕ, ◌≡◌, refl, sym, ◌∙◌, ap, false, ◌||◌, Option, some, [], Text, text, text_eq, ◌==◌, is_empty,
  Dict, lookup, cut_prefix, path_eq, arith, Bool-cases, Option-cases, inl, inr,
}
use sonalmod.Sessions.StateDelta.{extract_state_deltas}
use sonalmod.FileSessions.Disk.{
  Json, reread_state, File, session_file, Disk, Stage, session_write, session_dir, marshal, Answer,
  ServiceError, Result, ok, session_path, app_state_path, user_state_path, read_app_state,
  write_file, attempt, and_then, app_dir, app_state, user_dir, user_state,
}
use sonalmod.FileSessions.Service.{
  FileSession, CreateRequest, session_state, update_state, merged_state, write_session, chosen_id,
  create, get,
}
use sonalmod.FileSessions.Frames.{
  app_state-session, user_state-session, write_file_frame, lookup-write_file, attempt_frame,
  and_then_ok,
}
use sonalmod.FileSessions.Whole.{
  whole_session, loaded_session, merge_again, reread_at, merged_state_cong,
}

module _ {V P X : Type 0} ⦃json : Json V P⦄ (app_prefix user_prefix temp_prefix : Text)
    (answer : Stage → Answer V P X) (now : ℕ) where
  -- What a session file of `Create` holds, and the session that it returns.
  abbrev created_file : Text → Text → Text → Dict Text V → File V P X
  created_file app user sid merged = session_file (record {
    app_name = app;
    user_id = user;
    session_id = sid;
    state = merged;
    updated_at = now;
    events = [];
  })

  abbrev created_session : Text → Text → Text → Dict Text V → FileSession V P
  created_session app user sid merged = record {
    id = sid;
    app_name = app;
    user_id = user;
    state = merged;
    events = [];
    updated_at = now;
  }

  write_session_ok :
      (app user sid : Text) (session : Dict Text V) (disk d' : Disk V P X) (s : FileSession V P)
      → (app == text "_user") ≡ false
      → write_session app_prefix user_prefix temp_prefix answer now app user sid session disk
        ≡ (ok s, d')
      → (s
          ≡ created_session app user sid
              (merged_state app_prefix user_prefix temp_prefix app user session disk))
        × (lookup (session_path app user sid) d'
            ≡ some (
                created_file app user sid (
                  reread_state json.reread_value
                    (merged_state app_prefix user_prefix temp_prefix app user session disk))))
        × (lookup (app_state_path app) d' ≡ lookup (app_state_path app) disk)
        × (lookup (user_state_path app user) d' ≡ lookup (user_state_path app user) disk)
  unfolding write_session
  write_session_ok app user sid session disk d' s named h =
      let merged = merged_state app_prefix user_prefix temp_prefix app user session disk in
      let path = session_path app user sid in
      let f = created_file app user sid merged in
      let (m, h1) = and_then_ok (attempt session_dir (answer session_dir) disk) _ s d' h in
      let d1 = (attempt session_dir (answer session_dir) disk).1 in
      let (n, h2) = and_then_ok (attempt marshal (answer marshal) d1) _ s d' h1 in
      let d2 = (attempt marshal (answer marshal) d1).1 in
      let w = write_file session_write (answer session_write) path f d2 in
      let (o, h3) = and_then_ok w _ s d' h2 in
      let same : d2 ≡ disk =
        attempt_frame marshal (answer marshal) d1
        ∙ attempt_frame session_dir (answer session_dir) disk in
      let left : w.1 ≡ d' = ap (λ r. r.1) h3 in
      let got : s ≡ created_session app user sid merged = ground arith in
      (
        got,
        ap (lookup path) (sym left)
            ∙ lookup-write_file session_write (answer session_write) path f d2 o,
        ap (lookup (app_state_path app)) (sym left)
            ∙ write_file_frame session_write (answer session_write) path (app_state_path app) f d2
                (app_state-session app user sid app)
            ∙ ap (lookup (app_state_path app)) same,
        ap (lookup (user_state_path app user)) (sym left)
            ∙ write_file_frame session_write (answer session_write) path (user_state_path app user)
                f d2 (user_state-session app user sid app user named)
            ∙ ap (lookup (user_state_path app user)) same,
      )

  create_ok :
      (fresh : Text) (req : CreateRequest V) (disk d' : Disk V P X) (s : FileSession V P)
      → create app_prefix user_prefix temp_prefix answer now fresh req disk ≡ (ok s, d')
      → (d : Disk V P X) × (write_session app_prefix user_prefix temp_prefix answer now req.app_name
            req.user_id
            (chosen_id app_prefix user_prefix temp_prefix answer now req.session_id fresh)
            (session_state app_prefix user_prefix temp_prefix req.state)
            d
          ≡ (ok s, d'))
        × (is_empty req.app_name ≡ false)
        × (is_empty req.user_id ≡ false)
  unfolding create
  create_ok fresh req disk d' s h =
      let sid = chosen_id app_prefix user_prefix temp_prefix answer now req.session_id fresh in
      let parts = extract_state_deltas app_prefix user_prefix temp_prefix req.state in
      elim (Bool-cases (is_empty req.app_name || is_empty req.user_id)) [
        | inl bad ↦ absurd (ground arith)
        | inr good ↦ elim (Option-cases (lookup (session_path req.app_name req.user_id sid) disk)) [
          | inr (f, taken) ↦ absurd (ground arith)
          | inl new ↦
              let r =
                update_state app_dir (answer app_dir) app_state (answer app_state)
                  (app_state_path req.app_name) now parts.app disk in
              let q : Disk V P X → Option (ServiceError X) × Disk V P X = λ d.
                update_state user_dir (answer user_dir) user_state (answer user_state)
                  (user_state_path req.app_name req.user_id) now parts.user d in
              let next : Disk V P X → Result X (FileSession V P) × Disk V P X = λ d.
                write_session app_prefix user_prefix temp_prefix answer now req.app_name req.user_id
                  sid parts.session d in
              let (m, h1) = and_then_ok r (λ d. and_then (q d) next) s d' (ground arith) in
              let (n, h2) = and_then_ok (q r.1) next s d' h1 in
              ((q r.1).1, h2, ground arith, ground arith)
        ]
      ]

module _ {V P X : Type 0} ⦃json : Json V P⦄ (app_prefix user_prefix temp_prefix : Text)
    (answer : Stage → Answer V P X) (now : ℕ) where
  -- If `Create` succeeds for an app that is not called `_user` and for a session id that is not
  -- empty, `Get` then returns the session: the same id, no events, the time of the creation, and
  -- at each key of the state what the session that `Create` returned has there, written and read as
  -- JSON unless the key has the prefix of an app or a user.
  pub get-create :
      (fresh j : Text) (req : CreateRequest V) (disk d' : Disk V P X) (s : FileSession V P)
      → create app_prefix user_prefix temp_prefix answer now fresh req disk ≡ (ok s, d')
      → (req.app_name == text "_user") ≡ false
      → is_empty s.id ≡ false
      → (t : FileSession V P) × (get app_prefix user_prefix temp_prefix
            (whole_session req.app_name req.user_id s.id)
            d'
          ≡ ok t)
        × (t.id ≡ s.id)
        × (t.events ≡ [])
        × (t.updated_at ≡ now)
        × (lookup j t.state
            ≡ reread_at json.reread_value
                (cut_prefix app_prefix j)
                (cut_prefix user_prefix j)
                (lookup j s.state))
  get-create fresh j req disk d' s h named i =
      let app = req.app_name in
      let user = req.user_id in
      let sid = chosen_id app_prefix user_prefix temp_prefix answer now req.session_id fresh in
      let (d, written, a, u) =
        create_ok app_prefix user_prefix temp_prefix answer now fresh req disk d' s h in
      let part = session_state app_prefix user_prefix temp_prefix req.state in
      let (got, stored, app_kept, user_kept) =
        write_session_ok app_prefix user_prefix temp_prefix answer now app user sid part d d' s
          named written in
      let merged = merged_state app_prefix user_prefix temp_prefix app user part d in
      let same : s.id ≡ sid = ap (λ x. x.id) got in
      let state : s.state ≡ merged = ap (λ x. x.state) got in
      let kept = reread_state json.reread_value merged in
      let again = session_state app_prefix user_prefix temp_prefix kept in
      let reads =
        merged_state_cong app_prefix user_prefix temp_prefix app user again d' d app_kept
          user_kept in
      let loaded =
        loaded_session app_prefix user_prefix temp_prefix app user sid
          (record {
            app_name = app;
            user_id = user;
            session_id = sid;
            state = kept;
            updated_at = now;
            events = [];
          })
          d' a u (ap is_empty (sym same) ∙ i) stored in
      (
        record {
          id = sid;
          app_name = app;
          user_id = user;
          state = merged_state app_prefix user_prefix temp_prefix app user again d';
          events = [];
          updated_at = now;
        },
        ap (λ x. get app_prefix user_prefix temp_prefix (whole_session app user x) d') same
            ∙ loaded,
        sym same,
        refl,
        refl,
        ap (lookup j) reads
            ∙ unfold merged_state in
              merge_again json.reread_value app_prefix user_prefix temp_prefix j
                (read_app_state (app_state_path app) d)
                (read_app_state (user_state_path app user) d) req.state
              ∙ sym (
                  ap
                    (λ d.
                      reread_at json.reread_value (cut_prefix app_prefix j)
                        (cut_prefix user_prefix j) (lookup j d))
                    state),
      )
