-- ===== src/Auth/Rotation.antt =====
-- Login and refresh of service.go over the files of refresh_store.go: what a success means.
use sonalmod.Base.{
  ℕ, ◌+◌, ◌≡◌, refl, sym, ◌∙◌, ap, Bool, true, false, Option, none, some, Text, text_eq, ◌==◌,
  text_beq_iff, ltb, lookup, insert, erase, lookup-insert, lookup-erase, arith,
}
use sonalmod.Auth.RefreshStore.{
  TokenFile, stored, AuthError, invalid_refresh_token, Result, ok, err, Files, CreateAnswers,
  create, validate, delete,
}
use sonalmod.Auth.Service.{
  User, Tokens, Deps, login, login_found, login_verified, refresh, refresh_valid, refresh_user,
  refresh_deleted, issue, finish,
}

module _ {X : Type 0} (hash : Text → Text) where
  -- The file of a new token.
  abbrev new_file : Text → ℕ → Text → ℕ → TokenFile X
  new_file token now user ttl =
      stored (record {
        user_id = user;
        token_hash = hash token;
        expires_at = now + ttl;
        created_at = now;
      })

  create-stores :
      (answers : CreateAnswers X) (now ttl : ℕ) (user token : Text) (files files' : Files X)
      → create hash answers now user ttl files ≡ (ok token, files')
      → files' ≡ insert (hash token) (new_file token now user ttl) files
  unfolding create
  create-stores answers now ttl user token files files' h = ground arith

  module _ (deps : Deps X) (answers : CreateAnswers X) (now : ℕ) where
    finish_ok :
        (user : User) (access : Text) (made : Result X Text × Files X) (files' : Files X)
        (t : Tokens)
        → finish hash deps answers now user access made ≡ (ok t, files')
        → (made ≡ (ok t.refresh, files')) × (t.user.id ≡ user.id)
    finish_ok user access (err e, files) files' t h = absurd (ground arith)
    finish_ok user access (ok refresh, files) files' t h = (ground arith, ground arith)

    issue-stores :
        (user : User) (access : Result X Text) (files files' : Files X) (t : Tokens)
        → issue hash deps answers now user access files ≡ (ok t, files')
        → (files'
            ≡ insert (hash t.refresh) (new_file t.refresh now user.id deps.refresh_token_ttl) files)
          × (t.user.id ≡ user.id)
    issue-stores user (err e) files files' t h = absurd (ground arith)
    issue-stores user (ok access) files files' t h =
        let made = create hash answers now user.id deps.refresh_token_ttl files in
        let (c, same) = finish_ok user access made files' t h in
        (create-stores answers now deps.refresh_token_ttl user.id t.refresh files files' c, same)

    login_verified_ok :
        (user : User) (verified : Result X Bool) (files files' : Files X) (t : Tokens)
        → login_verified hash deps answers now user verified files ≡ (ok t, files')
        → (verified ≡ ok true)
          × (files'
              ≡ insert
                  (hash t.refresh)
                  (new_file t.refresh now user.id deps.refresh_token_ttl)
                  files)
          × (t.user.id ≡ user.id)
    login_verified_ok user (err e) files files' t h = absurd (ground arith)
    login_verified_ok user (ok false) files files' t h = absurd (ground arith)
    login_verified_ok user (ok true) files files' t h =
        let (f, same) =
          issue-stores user (deps.generate_access_token user.id user.username) files files' t h in
        (refl, f, same)

    validate_stored :
        (token id : Text) (later : ℕ) (files files' : Files X)
        → files' ≡ insert (hash token) (new_file token now id deps.refresh_token_ttl) files
        → ltb (now + deps.refresh_token_ttl) later ≡ false
        → validate hash later token files' ≡ ok id
    unfolding validate
    validate_stored token id later files files' stores time =
        let file = new_file token now id deps.refresh_token_ttl in
        let here = lookup-insert (hash token) (hash token) file files in
        let eq = (text_beq_iff (hash token) (hash token)).1 refl in ground arith

    login_found_ok :
        (found : Result X User) (password : Text) (files files' : Files X) (t : Tokens)
        → login_found hash deps answers now found password files ≡ (ok t, files')
        → (user : User) × (found ≡ ok user)
          × (deps.verify password user.password_hash ≡ ok true)
          × (files'
              ≡ insert
                  (hash t.refresh)
                  (new_file t.refresh now user.id deps.refresh_token_ttl)
                  files)
          × (t.user.id ≡ user.id)
    login_found_ok (err e) password files files' t h = absurd (ground arith)
    login_found_ok (ok user) password files files' t h =
        let (verified, stores, same) =
          login_verified_ok user (deps.verify password user.password_hash) files files' t h in
        (user, refl, verified, stores, same)

    -- A login that succeeds was of a user that the store has under the name, and whose password the
    -- hasher accepted; until it expires, the refresh token that it gave is valid for that user.
    pub login_sound :
        (username password : Text) (files files' : Files X) (t : Tokens) (later : ℕ)
        → login hash deps answers now username password files ≡ (ok t, files')
        → ltb (now + deps.refresh_token_ttl) later ≡ false
        → (user : User) × (deps.get_by_username username ≡ ok user)
          × (deps.verify password user.password_hash ≡ ok true)
          × (t.user.id ≡ user.id)
          × (validate hash later t.refresh files' ≡ ok user.id)
    unfolding login
    login_sound username password files files' t later h time =
        let (user, at, verified, stores, same) =
          login_found_ok (deps.get_by_username username) password files files' t h in
        (user, at, verified, same, validate_stored t.refresh user.id later files files' stores time)

    refresh_deleted_ok :
        (user : User) (deleted : Option (AuthError X) × Files X) (files' : Files X) (t : Tokens)
        → refresh_deleted hash deps answers now user deleted ≡ (ok t, files')
        → (files'
            ≡ insert
                (hash t.refresh)
                (new_file t.refresh now user.id deps.refresh_token_ttl)
                deleted.1)
          × (deleted.0 ≡ none)
          × (t.user.id ≡ user.id)
    refresh_deleted_ok user (some e, files) files' t h = absurd (ground arith)
    refresh_deleted_ok user (none, files) files' t h =
        let (f, same) =
          issue-stores user (deps.generate_access_token user.id user.username) files files' t h in
        (f, refl, same)

    delete_ok :
        (fault : Option X) (token : Text) (files : Files X)
        → (delete hash fault token files).0 ≡ none
        → (delete hash fault token files).1 ≡ erase (hash token) files
    unfolding delete
    delete_ok none token files h = refl
    delete_ok (some x) token files h = absurd (ground arith)

    refresh_user_ok :
        (fault : Option X) (token : Text) (found : Result X User) (files files' : Files X)
        (t : Tokens)
        → refresh_user hash deps answers now fault token found files ≡ (ok t, files')
        → files'
          ≡ insert
              (hash t.refresh)
              (new_file t.refresh now t.user.id deps.refresh_token_ttl)
              (erase (hash token) files)
    refresh_user_ok fault token (err e) files files' t h = absurd (ground arith)
    refresh_user_ok fault token (ok user) files files' t h =
        let (f, gone, same) = refresh_deleted_ok user (delete hash fault token files) files' t h in
        let erased = delete_ok fault token files gone in
        f
        ∙ ap
            (λ x. insert (hash t.refresh) (new_file t.refresh now user.id deps.refresh_token_ttl) x)
            erased
        ∙ ap
            (λ x.
              insert (hash t.refresh) (new_file t.refresh now x deps.refresh_token_ttl)
                (erase (hash token) files))
            (sym same)

    refresh_valid_ok :
        (fault : Option X) (token : Text) (valid : Result X Text) (files files' : Files X)
        (t : Tokens)
        → refresh_valid hash deps answers now fault token valid files ≡ (ok t, files')
        → (user_id : Text) × (valid ≡ ok user_id)
          × (files'
              ≡ insert
                  (hash t.refresh)
                  (new_file t.refresh now t.user.id deps.refresh_token_ttl)
                  (erase (hash token) files))
    refresh_valid_ok fault token (err e) files files' t h = absurd (ground arith)
    refresh_valid_ok fault token (ok user_id) files files' t h =
        (user_id, refl, refresh_user_ok fault token (deps.get_by_id user_id) files files' t h)

    validate_erased :
        (token fresh : Text) (file : TokenFile X) (files : Files X)
        → (hash fresh == hash token) ≡ false
        → lookup (hash token) (insert (hash fresh) file (erase (hash token) files)) ≡ none
    validate_erased token fresh file files differ =
        let outer = lookup-insert (hash token) (hash fresh) file (erase (hash token) files) in
        let inner = lookup-erase (hash token) (hash token) files in
        let eq = (text_beq_iff (hash token) (hash token)).1 refl in ground arith

    -- If a refresh succeeds and the hash of the new token differs from the hash of the old one, then
    -- the old token was valid and is valid no more; until it expires, the new one is valid for the
    -- user returned; and a token whose hash is neither is as valid as it was.
    pub refresh_rotates :
        (fault : Option X) (token other : Text) (files files' : Files X) (t : Tokens) (later : ℕ)
        → refresh hash deps answers now fault token files ≡ (ok t, files')
        → (hash t.refresh == hash token) ≡ false
        → (hash t.refresh == hash other) ≡ false
        → (hash token == hash other) ≡ false
        → ltb (now + deps.refresh_token_ttl) later ≡ false
        → ((user_id : Text) × (validate hash now token files ≡ ok user_id))
          × (validate hash later token files' ≡ err invalid_refresh_token)
          × (validate hash later t.refresh files' ≡ ok t.user.id)
          × (validate hash later other files' ≡ validate hash later other files)
    unfolding refresh
    refresh_rotates fault token other files files' t later h fresh apart apart' time =
        let (user_id, valid, stores) =
          refresh_valid_ok fault token (validate hash now token files) files files' t h in
        let file = new_file t.refresh now t.user.id deps.refresh_token_ttl in
        let gone = validate_erased token t.refresh file files fresh in
        let kept = lookup-insert (hash other) (hash t.refresh) file (erase (hash token) files) in
        let below = lookup-erase (hash other) (hash token) files in
        (
          (user_id, valid),
          unfold validate in ground arith,
          validate_stored t.refresh t.user.id later (erase (hash token) files) files' stores time,
          unfold validate in ground arith,
        )
