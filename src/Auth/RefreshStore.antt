-- ===== src/Auth/RefreshStore.antt =====
-- refresh_store.go. The files of the token directory are a map from the hash of a token to what a
-- read of its file gives. `X` is an error of the system; SHA-256 is the parameter `hash`.
use sonalmod.Base.{
  ℕ, ◌+◌, Option, none, some, Text, text_eq, ltb, Dict, lookup, insert, erase, ◌⊎◌, inl, inr,
  if◌then◌else◌,
}

pub record RefreshToken : Type 0 where
  pub user_id : Text
  pub token_hash : Text
  pub expires_at : ℕ
  pub created_at : ℕ

-- Where an error was wrapped.
pub data Stage : Type 0 where
  generate_token marshal create_directory write_file rename_file read_file unmarshal delete_file :
      Stage
  get_user verify_password access_token create_refresh validate_refresh delete_old read_directory :
      Stage

pub data AuthError (X : Type 0) : Type 0 where
  invalid_credentials invalid_refresh_token user_not_found : AuthError X
  system : X → AuthError X
  wrapped : Stage → AuthError X → AuthError X

pub data Result (X A : Type 0) : Type 0 where
  ok : A → Result X A
  err : AuthError X → Result X A

-- What a file of the directory holds for a reader.
pub data TokenFile (X : Type 0) : Type 0 where
  unreadable : X → TokenFile X
  garbled : X → TokenFile X
  stored : RefreshToken → TokenFile X

-- What the random source and the file system answer to one `Create`.
pub record CreateAnswers (X : Type 0) : Type 0 where
  pub random : X ⊎ Text
  pub marshal_fault : Option X
  pub mkdir_fault : Option X
  pub write_fault : Option X
  pub rename_fault : Option X

abbrev pub Files : Type 0 → Type 0
Files X = Dict Text (TokenFile X)

module _ {X : Type 0} where
  -- A failure of a stage, or the rest.
  abbrev pub unless :
      {A : Type 0} → Option X → Stage → A × Files X → (AuthError X → A) → Files X → A × Files X
  unless none at rest failed files = rest
  unless (some x) at rest failed files = (failed (wrapped at (system x)), files)

module _ {X : Type 0} (hash : Text → Text) where
  -- `Create`, by what the random source gave. A failed rename removes the temporary file.
  abbrev pub create_from :
      X ⊎ Text → CreateAnswers X → ℕ → Text → ℕ → Files X → Result X Text × Files X
  create_from (inl x) answers now user ttl files = (err (wrapped generate_token (system x)), files)
  create_from (inr token) answers now user ttl files =
      let record_ : RefreshToken = record {
        user_id = user;
        token_hash = hash token;
        expires_at = now + ttl;
        created_at = now;
      } in
      unless answers.marshal_fault marshal
        (unless answers.mkdir_fault create_directory
          (unless answers.write_fault write_file
            (unless answers.rename_fault rename_file
              (ok token, insert (hash token) (stored record_) files) err files)
            err files)
          err files)
        err files

  -- `RefreshTokenStore.Create`
  unfoldable pub create : CreateAnswers X → ℕ → Text → ℕ → Files X → Result X Text × Files X
  create answers now user ttl files = create_from answers.random answers now user ttl files

  abbrev pub validate_file : ℕ → Option (TokenFile X) → Result X Text
  validate_file now none = err invalid_refresh_token
  validate_file now (some (unreadable x)) = err (wrapped read_file (system x))
  validate_file now (some (garbled x)) = err (wrapped unmarshal (system x))
  validate_file now (some (stored r)) =
      if ltb r.expires_at now then err invalid_refresh_token else ok r.user_id

  -- `RefreshTokenStore.Validate`
  unfoldable pub validate : ℕ → Text → Files X → Result X Text
  validate now token files = validate_file now (lookup (hash token) files)

  -- `RefreshTokenStore.Delete`; `fault` is an error of the removal other than a missing file.
  unfoldable pub delete : Option X → Text → Files X → Option (AuthError X) × Files X
  delete none token files = (none, erase (hash token) files)
  delete (some x) token files = (some (wrapped delete_file (system x)), files)
