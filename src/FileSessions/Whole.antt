-- ===== src/FileSessions/Whole.antt =====
-- What `Get` without a filter reads, and the merge of states that it makes.
use sonalmod.Base.{
  ◌≡◌, refl, sym, ◌∙◌, ap, false, Option, none, some, [], ◌∷◌, ◌==◌, Text, text_eq, is_empty, Dict,
  lookup, path_eq, arith, Bool-cases, Option-cases, inl, inr, cut_prefix, has_prefix,
}
use mathlib.Core.Path.{ap₂}
use mathlib.Core.Option
use sonalmod.Sessions.Prefixes.{cut_prefix_sound}
use sonalmod.Sessions.StateDelta.{copy_under, merge_states}
use sonalmod.Sessions.StateDelta.Merge.{lookup-copy_under, lookup-copy_under-none, extract-session}
use sonalmod.FileSessions.Disk.{
  reread_state, Stored, session_file, Disk, Result, ok, err, session_path, app_state_path,
  user_state_path, read_app_state, read_session, state_of, parse_found,
}
use sonalmod.FileSessions.Service.{
  FileSession, GetRequest, session_state, merged_state, load, get, filtered, recent, not_before,
}

module _ {V : Type 0} (app_prefix user_prefix temp_prefix : Text) where
  merge_states_outer :
      (j : Text) (a u s : Dict Text V)
      → cut_prefix app_prefix j ≡ none
      → cut_prefix user_prefix j ≡ none
      → lookup j (merge_states app_prefix user_prefix temp_prefix a u s) ≡ lookup j s
  unfolding merge_states
  merge_states_outer j a u s b c =
      lookup-copy_under-none user_prefix j u (copy_under app_prefix a s) c
      ∙ lookup-copy_under-none app_prefix j a s b

  -- What a merge has at a key depends on what the session part has there.
  pub merge_states_cong :
      (j : Text) (a u s s' : Dict Text V)
      → lookup j s ≡ lookup j s'
      → lookup j (merge_states app_prefix user_prefix temp_prefix a u s)
        ≡ lookup j (merge_states app_prefix user_prefix temp_prefix a u s')
  unfolding merge_states
  merge_states_cong j a u s s' e = elim (Option-cases (cut_prefix user_prefix j)) [
    | inl c ↦
        lookup-copy_under-none user_prefix j u (copy_under app_prefix a s) c
        ∙ inner
        ∙ sym (lookup-copy_under-none user_prefix j u (copy_under app_prefix a s') c)
    | inr (k, c) ↦
        let same = cut_prefix_sound user_prefix j k c in
        let left = lookup-copy_under user_prefix k u (copy_under app_prefix a s) in
        let right = lookup-copy_under user_prefix k u (copy_under app_prefix a s') in
        let middle = inner in ground arith
  ]
    where
      inner : lookup j (copy_under app_prefix a s) ≡ lookup j (copy_under app_prefix a s')
      inner = elim (Option-cases (cut_prefix app_prefix j)) [
        | inl c ↦
            lookup-copy_under-none app_prefix j a s c
            ∙ e
            ∙ sym (lookup-copy_under-none app_prefix j a s' c)
        | inr (k, c) ↦
            let same = cut_prefix_sound app_prefix j k c in
            let left = lookup-copy_under app_prefix k a s in
            let right = lookup-copy_under app_prefix k a s' in ground arith
      ]

module _ {V : Type 0} (reread : V → V) where
  pub lookup-reread_state :
      (j : Text) (d : Dict Text V)
      → lookup j (reread_state reread d) ≡ Option.map reread (lookup j d)
  unfolding lookup
  lookup-reread_state j [] = refl
  lookup-reread_state j ((k, v) ∷ d) = elim (Bool-cases (k == j)) [
    | inl same ↦ rw same refl
    | inr other ↦ rw other (lookup-reread_state j d)
  ]

  -- What the state of a session has at a key when the session was written and read: the values of
  -- the app and of the user lie in files of their own.
  abbrev pub reread_at : Option Text → Option Text → Option V → Option V
  reread_at (some _) in_user o = o
  reread_at none (some _) o = o
  reread_at none none o = Option.map reread o

  -- A merge with the session part of what was merged before, written and read.
  pub merge_again :
      (app_prefix user_prefix temp_prefix j : Text) (a u req : Dict Text V)
      → let whole =
          merge_states app_prefix user_prefix temp_prefix a u
            (session_state app_prefix user_prefix temp_prefix req) in
        lookup j (
          merge_states app_prefix user_prefix temp_prefix a u
            (session_state app_prefix user_prefix temp_prefix (reread_state reread whole)))
        ≡ reread_at (cut_prefix app_prefix j) (cut_prefix user_prefix j) (lookup j whole)
  merge_again app_prefix user_prefix temp_prefix j a u req =
      let sd = session_state app_prefix user_prefix temp_prefix req in
      let whole = merge_states app_prefix user_prefix temp_prefix a u sd in
      let read = reread_state reread whole in
      let again = session_state app_prefix user_prefix temp_prefix read in
      let first = extract-session app_prefix user_prefix temp_prefix j req in
      let second = extract-session app_prefix user_prefix temp_prefix j read in
      let value = lookup-reread_state j whole in
      elim (Option-cases (cut_prefix app_prefix j)) [
        | inr (k, b) ↦
            rw b
              (merge_states_cong app_prefix user_prefix temp_prefix j a u again sd (ground arith))
        | inl b ↦ elim (Option-cases (cut_prefix user_prefix j)) [
          | inr (k, c) ↦
              rw (b, c)
                (merge_states_cong app_prefix user_prefix temp_prefix j a u again sd (ground arith))
          | inl c ↦
              let outer = merge_states_outer app_prefix user_prefix temp_prefix j a u sd b c in
              let outer' = merge_states_outer app_prefix user_prefix temp_prefix j a u again b c in
              elim (Bool-cases (has_prefix temp_prefix j)) [
                | inl t ↦ rw (b, c) (ground arith)
                | inr t ↦ rw (b, c) (ground arith)
              ]
        ]
      ]

-- The request of `Get` for all events.
abbrev pub whole_session : Text → Text → Text → GetRequest
whole_session app user sid = record {
  app_name = app;
  user_id = user;
  session_id = sid;
  num_recent_events = 0;
  after = none;
}

module _ {V P X : Type 0} (app_prefix user_prefix temp_prefix : Text) where
  pub filtered_whole :
      (app user sid : Text) (r : Result X (FileSession V P))
      → filtered app_prefix user_prefix temp_prefix (whole_session app user sid) r ≡ r
  unfolding recent not_before
  filtered_whole app user sid (ok s) = refl
  filtered_whole app user sid (err x) = refl

  pub get_whole :
      (app user sid : Text) (d : Disk V P X)
      → is_empty app ≡ false
      → is_empty user ≡ false
      → is_empty sid ≡ false
      → get app_prefix user_prefix temp_prefix (whole_session app user sid) d
        ≡ load app_prefix user_prefix temp_prefix app user sid
            (read_session (session_path app user sid) sid d)
            d
  unfolding get
  get_whole app user sid d a u i =
      rw (a, u, i)
        (filtered_whole app user sid (
          load app_prefix user_prefix temp_prefix app user sid
            (read_session (session_path app user sid) sid d) d))

  pub merged_state_cong :
      (app user : Text) (session : Dict Text V) (d d' : Disk V P X)
      → lookup (app_state_path app) d ≡ lookup (app_state_path app) d'
      → lookup (user_state_path app user) d ≡ lookup (user_state_path app user) d'
      → merged_state app_prefix user_prefix temp_prefix app user session d
        ≡ merged_state app_prefix user_prefix temp_prefix app user session d'
  unfolding merged_state read_app_state
  merged_state_cong app user session d d' p q =
      ap₂
        (λ x y.
          merge_states app_prefix user_prefix temp_prefix (state_of {V = V} {P = P} {X = X} x)
            (state_of {V = V} {P = P} {X = X} y) session)
        p q

  pub loaded_session :
      (app user sid : Text) (f : Stored V P) (d : Disk V P X)
      → is_empty app ≡ false
      → is_empty user ≡ false
      → is_empty sid ≡ false
      → lookup (session_path app user sid) d ≡ some (session_file f)
      → get app_prefix user_prefix temp_prefix (whole_session app user sid) d
        ≡ ok (record {
          id = sid;
          app_name = app;
          user_id = user;
          state =
              merged_state app_prefix user_prefix temp_prefix app user
                (session_state app_prefix user_prefix temp_prefix f.state)
                d;
          events = f.events;
          updated_at = f.updated_at;
        })
  loaded_session app user sid f d a u i found =
      get_whole app user sid d a u i
      ∙ unfold load read_session in
        ap (λ o. load app_prefix user_prefix temp_prefix app user sid (parse_found sid o) d) found
