-- ===== src/Auth/UserStore.antt =====
-- `UserStore` of apps/sonalmod/internal/auth/user_store.go: one JSON file for each user, by id. `X`
-- is an error of the system, and of the JSON decoder for a file that does not hold a user. Temporary
-- files, which `List` passes over, are not here: a write replaces a file or leaves it. A call that
-- reads a file can fail to, whatever the file holds: `unread` gives the error of that read.
use sonalmod.Base.{
  ℕ, Option, none, some, List, [], ◌∷◌, Text, text_eq, ◌==◌, Dict, lookup, insert, ◌⊎◌, inl, inr,
  if◌then◌else◌,
}

-- `User`
pub record User : Type 0 where
  pub id : Text
  pub username : Text
  pub password_hash : Text
  pub created_at : ℕ
  pub updated_at : ℕ

-- `CreateUserParams`
pub record CreateUserParams : Type 0 where
  pub username : Text
  pub password_hash : Text

abbrev pub Users : Type 0 → Type 0
Users X = Dict Text (X ⊎ User)

pub data StoreError (X : Type 0) : Type 0 where
  user_not_found username_exists : StoreError X
  read_directory read_file write_file : X → StoreError X

pub data Result (X A : Type 0) : Type 0 where
  ok : A → Result X A
  err : StoreError X → Result X A

unfoldable pub find_username : Text → List User → Option User
find_username name [] = none
find_username name (u ∷ l) =
    let rest = find_username name l in if u.username == name then some u else rest

-- The user that `Create` writes.
abbrev pub new_user : Text → ℕ → CreateUserParams → User
new_user id now p = record {
  id = id;
  username = p.username;
  password_hash = p.password_hash;
  created_at = now;
  updated_at = now;
}

module _ {X : Type 0} where
  -- `writeUser`; `fault` is an error on the way.
  unfoldable pub write_user : Option X → User → Users X → Option (StoreError X) × Users X
  write_user none u users = (none, insert u.id (inr u) users)
  write_user (some x) u users = (some (write_file x), users)

  abbrev pub read_found : Option X → Option (X ⊎ User) → Result X User
  read_found unread none = err user_not_found
  read_found (some x) (some file) = err (read_file x)
  read_found none (some (inl x)) = err (read_file x)
  read_found none (some (inr u)) = ok u

  -- `readUser`, which is `GetByID` too; `unread` is an error of the reading of the file.
  unfoldable pub read_user : Option X → Text → Users X → Result X User
  read_user unread id users = read_found unread (lookup id users)

  -- A file that cannot be read is passed over.
  abbrev pub listed : Result X User → List User → List User
  listed (ok u) rest = u ∷ rest
  listed (err e) rest = rest

  -- The loop of `List`; `unread` gives the errors of the reading of the files, by id.
  unfoldable pub users_of : (Text → Option X) → Users X → List User
  users_of unread [] = []
  users_of unread ((id, file) ∷ users) =
      listed (read_found (unread id) (some file)) (users_of unread users)

  -- `List`; `fault` is an error of the reading of the directory.
  unfoldable pub list : Option X → (Text → Option X) → Users X → Result X (List User)
  unfolding users_of
  list none unread users = ok (users_of unread users)
  list (some x) unread users = err (read_directory x)

  abbrev pub found_or : Option User → Result X User
  found_or none = err user_not_found
  found_or (some u) = ok u

  abbrev pub find_listed : Text → Result X (List User) → Result X User
  find_listed name (err e) = err e
  find_listed name (ok l) = found_or (find_username name l)

  -- `GetByUsername`
  unfoldable pub get_by_username : Option X → (Text → Option X) → Text → Users X → Result X User
  unfolding list find_username
  get_by_username fault unread name users = find_listed name (list fault unread users)

  abbrev pub written : User → Option (StoreError X) × Users X → Result X User × Users X
  written u (some e, users) = (err e, users)
  written u (none, users) = (ok u, users)

  abbrev pub create_checked : Result X User → Option X → User → Users X → Result X User × Users X
  create_checked (ok _) fault u users = (err username_exists, users)
  create_checked (err user_not_found) fault u users = written u (write_user fault u users)
  create_checked (err username_exists) fault u users = (err username_exists, users)
  create_checked (err (read_directory x)) fault u users = (err (read_directory x), users)
  create_checked (err (read_file x)) fault u users = (err (read_file x), users)
  create_checked (err (write_file x)) fault u users = (err (write_file x), users)

  -- `Create`, with the id that the generator gives.
  unfoldable pub create :
      Option X
      → (Text → Option X)
      → Option X
      → Text
      → ℕ
      → CreateUserParams
      → Users X
      → Result X User × Users X
  unfolding get_by_username write_user
  create unlisted unread fault id now p users =
      create_checked (get_by_username unlisted unread p.username users) fault (new_user id now p)
        users

  abbrev pub update_read :
      Option X → Text → ℕ → Result X User → Users X → Option (StoreError X) × Users X
  update_read fault hash now (err e) users = (some e, users)
  update_read fault hash now (ok u) users =
      write_user fault (record u { password_hash = hash; updated_at = now }) users

  -- `UpdatePassword`
  unfoldable pub update_password :
      Option X → Option X → Text → Text → ℕ → Users X → Option (StoreError X) × Users X
  unfolding read_user write_user
  update_password unread fault id hash now users =
      update_read fault hash now (read_user unread id users) users
