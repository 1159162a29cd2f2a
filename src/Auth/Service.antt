-- ===== src/Auth/Service.antt =====
-- service.go. The store of users, the password hasher and the access tokens are interfaces, whose
-- answers are parameters; the store of refresh tokens is that of refresh_store.go.
use sonalmod.Base.{ℕ, Bool, true, false, Option, none, some, Text, if◌then◌else◌}
use sonalmod.Auth.RefreshStore.{
  AuthError, invalid_credentials, invalid_refresh_token, user_not_found, system, wrapped, Result,
  ok, err, get_user, verify_password, access_token, create_refresh, validate_refresh, delete_old,
  Files, CreateAnswers, create, validate, delete,
}

pub record User : Type 0 where
  pub id : Text
  pub username : Text
  pub password_hash : Text

pub record UserInfo : Type 0 where
  pub id : Text
  pub username : Text

-- `LoginResult` and `RefreshResult`
pub record Tokens : Type 0 where
  pub access : Text
  pub refresh : Text
  pub user : UserInfo

-- The dependencies of the service.
pub record Deps (X : Type 0) : Type 0 where
  pub get_by_username : Text → Result X User
  pub get_by_id : Text → Result X User
  pub verify : Text → Text → Result X Bool
  pub generate_access_token : Text → Text → Result X Text
  pub refresh_token_ttl : ℕ

module _ {X : Type 0} where
  -- `errors.Is` for the two errors that the service tests.
  unfoldable pub is_user_not_found : AuthError X → Bool
  is_user_not_found user_not_found = true
  is_user_not_found (wrapped at e) = is_user_not_found e
  is_user_not_found invalid_credentials = false
  is_user_not_found invalid_refresh_token = false
  is_user_not_found (system x) = false

  unfoldable pub is_invalid_refresh_token : AuthError X → Bool
  is_invalid_refresh_token invalid_refresh_token = true
  is_invalid_refresh_token (wrapped at e) = is_invalid_refresh_token e
  is_invalid_refresh_token invalid_credentials = false
  is_invalid_refresh_token user_not_found = false
  is_invalid_refresh_token (system x) = false

  module _ (hash : Text → Text) (deps : Deps X) (answers : CreateAnswers X) (now : ℕ) where
    -- The tokens of a user, or the error of the refresh token's creation.
    abbrev pub finish : User → Text → Result X Text × Files X → Result X Tokens × Files X
    finish user access (err e, files) = (err (wrapped create_refresh e), files)
    finish user access (ok refresh, files) = (
      ok (record {
        access = access;
        refresh = refresh;
        user = record { id = user.id; username = user.username };
      }),
      files,
    )

    -- The access token and the refresh token of a user.
    abbrev pub issue : User → Result X Text → Files X → Result X Tokens × Files X
    issue user (err e) files = (err (wrapped access_token e), files)
    issue user (ok access) files =
        finish user access (create hash answers now user.id deps.refresh_token_ttl files)

    abbrev pub login_verified : User → Result X Bool → Files X → Result X Tokens × Files X
    login_verified user (err e) files = (err (wrapped verify_password e), files)
    login_verified user (ok false) files = (err invalid_credentials, files)
    login_verified user (ok true) files =
        issue user (deps.generate_access_token user.id user.username) files

    abbrev pub login_found : Result X User → Text → Files X → Result X Tokens × Files X
    login_found (err e) password files =
        if is_user_not_found e
        then (err invalid_credentials, files)
        else (err (wrapped get_user e), files)
    login_found (ok user) password files =
        login_verified user (deps.verify password user.password_hash) files

    -- `AuthService.Login`
    unfoldable pub login : Text → Text → Files X → Result X Tokens × Files X
    unfolding is_user_not_found create
    login username password files = login_found (deps.get_by_username username) password files

    abbrev pub refresh_deleted : User → Option (AuthError X) × Files X → Result X Tokens × Files X
    refresh_deleted user (some e, files) = (err (wrapped delete_old e), files)
    refresh_deleted user (none, files) =
        issue user (deps.generate_access_token user.id user.username) files

    abbrev pub refresh_user : Option X → Text → Result X User → Files X → Result X Tokens × Files X
    refresh_user fault token (err e) files = (err (wrapped get_user e), files)
    refresh_user fault token (ok user) files = refresh_deleted user (delete hash fault token files)

    abbrev pub refresh_valid : Option X → Text → Result X Text → Files X → Result X Tokens × Files X
    refresh_valid fault token (err e) files =
        if is_invalid_refresh_token e
        then (err invalid_refresh_token, files)
        else (err (wrapped validate_refresh e), files)
    refresh_valid fault token (ok user_id) files =
        refresh_user fault token (deps.get_by_id user_id) files

    -- `AuthService.Refresh`; `fault` is an error of removing the old token's file.
    unfoldable pub refresh : Option X → Text → Files X → Result X Tokens × Files X
    unfolding is_invalid_refresh_token create validate delete
    refresh fault token files = refresh_valid fault token (validate hash now token files) files

  abbrev pub info_of : Result X User → Result X UserInfo
  info_of (err e) = err e
  info_of (ok user) = ok (record { id = user.id; username = user.username })

  -- `AuthService.CurrentUser`
  unfoldable pub current_user : Deps X → Text → Result X UserInfo
  current_user deps user_id = info_of (deps.get_by_id user_id)
