-- ===== src/Auth/Usernames.antt =====
-- The names of the users are distinct.
use sonalmod.Base.{
  ℕ, ◌≡◌, refl, sym, ◌∙◌, ap, false, Option, none, some, List, [], ◌∷◌, Text, text_eq, ◌==◌,
  text_beq_iff, lookup, insert, lookup-insert, ◌⊎◌, inl, inr, Bool-cases, if_true,
}
use mathlib.Core.Path.{subst, fun_ext}
use sonalmod.Auth.UserStore.{
  User, CreateUserParams, Users, StoreError, Result, ok, err, user_not_found, username_exists,
  read_directory, read_file, write_file, write_user, read_found, read_user, users_of, list,
  find_username, found_or, get_by_username, written, create_checked, new_user, create, update_read,
  update_password,
}
use sonalmod.Auth.Distinct.{
  IsSound, all_read, insert-IsSound, get_by_username-absent, find_username-none,
  find_username-insert,
}

-- Calls of the store, with the answers that each gets from the system.
pub data Call (X : Type 0) : Type 0 where
  make : Option X → (Text → Option X) → Option X → Text → ℕ → CreateUserParams → Call X
  change_password : Option X → Option X → Text → Text → ℕ → Call X

module _ {X : Type 0} where
  -- The calls of `Create` can read the files of the users there are.
  abbrev pub AreReadable : List (Call X) → Type 0
  AreReadable [] = Unit
  AreReadable (make unlisted unread fault id now p ∷ l) =
      ((i : Text) → unread i ≡ none) × AreReadable l
  AreReadable (change_password unread fault id hash now ∷ l) = AreReadable l

  write_user-IsSound :
      (fault : Option X) (u : User) (users : Users X)
      → IsSound users
      → IsSound (insert u.id (inr u) users)
      → IsSound (write_user fault u users).1
  unfolding write_user
  write_user-IsSound none u users s t = t
  write_user-IsSound (some x) u users s t = s

  written_same : (u : User) (w : Option (StoreError X) × Users X) → (written u w).1 ≡ w.1
  written_same u (some e, users) = refl
  written_same u (none, users) = refl

  create_checked-IsSound :
      (found : Result X User) (unlisted fault : Option X) (u : User) (users : Users X)
      → get_by_username unlisted all_read u.username users ≡ found
      → IsSound users
      → IsSound (create_checked found fault u users).1
  create_checked-IsSound (ok v) unlisted fault u users h s = s
  create_checked-IsSound (err user_not_found) unlisted fault u users h s =
      let absent = get_by_username-absent unlisted u.username users h in
      subst IsSound (sym (written_same u (write_user fault u users))) (
        write_user-IsSound fault u users s (
          insert-IsSound u users s
            (λ i v other there. find_username-none u.username users absent i v there)))
  create_checked-IsSound (err username_exists) unlisted fault u users h s = s
  create_checked-IsSound (err (read_directory x)) unlisted fault u users h s = s
  create_checked-IsSound (err (read_file x)) unlisted fault u users h s = s
  create_checked-IsSound (err (write_file x)) unlisted fault u users h s = s

  update_read-IsSound :
      (unread fault : Option X) (id hash : Text) (now : ℕ) (found : Option (X ⊎ User))
      (users : Users X)
      → lookup id users ≡ found
      → IsSound users
      → IsSound (update_read fault hash now (read_found unread found) users).1
  update_read-IsSound unread fault id hash now none users h s = s
  update_read-IsSound (some x) fault id hash now (some file) users h s = s
  update_read-IsSound none fault id hash now (some (inl x)) users h s = s
  update_read-IsSound none fault id hash now (some (inr u)) users h s =
      let v : User = record u { password_hash = hash; updated_at = now } in
      write_user-IsSound fault v users s (insert-IsSound v users s (free v refl refl))
    where
      free :
          (v : User)
          → v.id ≡ u.id
          → v.username ≡ u.username
          → (i : Text) (w : User) → (v.id == i) ≡ false
          → lookup i users ≡ some (inr w)
          → (w.username == v.username) ≡ false
      free v at name i w other there = elim (Bool-cases (w.username == v.username)) [
        | inr distinct ↦ distinct
        | inl same ↦
            let one =
              s.unique i id w u there h ((text_beq_iff w.username v.username).0 same ∙ name) in
            let here : v.id ≡ i = at ∙ s.own_id id u h ∙ sym one in
            cc (sym other ∙ (text_beq_iff v.id i).1 here)
      ]

  abbrev pub call : Call X → Users X → Users X
  call (make unlisted unread fault id now p) users = (create unlisted unread fault id now p users).1
  call (change_password unread fault id hash now) users =
      (update_password unread fault id hash now users).1

  abbrev pub calls : List (Call X) → Users X → Users X
  calls [] users = users
  calls (c ∷ l) users = calls l (call c users)

  create-IsSound :
      (unlisted : Option X) (unread : Text → Option X) (fault : Option X) (id : Text) (now : ℕ)
      (p : CreateUserParams) (users : Users X)
      → all_read ≡ unread
      → IsSound users
      → IsSound (create unlisted unread fault id now p users).1
  unfolding create
  create-IsSound unlisted unread fault id now p users readable s =
      subst (λ r. IsSound (create unlisted r fault id now p users).1) readable
        (create_checked-IsSound (get_by_username unlisted all_read p.username users) unlisted fault
          (new_user id now p) users refl s)

  calls_keep :
      (l : List (Call X)) (users : Users X)
      → AreReadable l
      → IsSound users
      → IsSound (calls l users)
  unfolding update_password read_user
  calls_keep [] users readable s = s
  calls_keep (make unlisted unread fault id now p ∷ l) users readable s =
      calls_keep l (create unlisted unread fault id now p users).1 readable.1
        (create-IsSound unlisted unread fault id now p users (fun_ext (λ i. sym (readable.0 i))) s)
  calls_keep (change_password unread fault id hash now ∷ l) users readable s =
      calls_keep l (update_password unread fault id hash now users).1 readable
        (update_read-IsSound unread fault id hash now (lookup id users) users refl s)

  -- From an empty store, whatever sequence of `Create` and `UpdatePassword`, with whatever generated
  -- ids, leaves each user under the user's own id and no two users with one name. Reading the
  -- directory, the file of an `UpdatePassword`, and writing may fail; what `Create` lists must be
  -- read.
  pub calls-IsSound : (l : List (Call X)) → AreReadable l → IsSound (calls l [])
  unfolding lookup
  calls-IsSound l readable =
      calls_keep l [] readable
        (record { own_id = λ i u h. absurd (cc h); unique = λ i j u v h k same. absurd (cc h) })

  create_checked-ok :
      (found : Result X User) (fault : Option X) (u v : User) (users d : Users X)
      → create_checked found fault u users ≡ (ok v, d)
      → (found ≡ err user_not_found) × (v ≡ u) × (d ≡ insert u.id (inr u) users)
  unfolding write_user
  create_checked-ok (ok w) fault u v users d h = cc
  create_checked-ok (err user_not_found) none u v users d h = (refl, cc, ap (λ r. r.1) (sym h))
  create_checked-ok (err user_not_found) (some x) u v users d h = cc
  create_checked-ok (err username_exists) fault u v users d h = cc
  create_checked-ok (err (read_directory x)) fault u v users d h = cc
  create_checked-ok (err (read_file x)) fault u v users d h = cc
  create_checked-ok (err (write_file x)) fault u v users d h = cc

  found_after :
      (unlisted fault : Option X) (id : Text) (now : ℕ) (p : CreateUserParams) (u : User)
      (users d : Users X)
      → create unlisted all_read fault id now p users ≡ (ok u, d)
      → (u ≡ new_user id now p)
        × (read_user none id d ≡ ok u)
        × (get_by_username none all_read p.username d ≡ ok u)
  unfolding create read_user get_by_username list
  found_after unlisted fault id now p u users d h =
      let n = new_user id now p in
      let (missing, same, after) =
        create_checked-ok (get_by_username unlisted all_read p.username users) fault n u users d
          h in
      let absent = get_by_username-absent unlisted p.username users missing in
      let there : lookup id (insert id (inr n) users) ≡ some (inr n) =
        lookup-insert id id (inr n) users ∙ if_true (id == id) _ _ ((text_beq_iff id id).1 refl) in
      (
        same,
        ap (λ k. read_found none (lookup id k)) after
            ∙ ap (read_found none) there
            ∙ ap ok (sym same),
        ap (λ k. found_or (find_username p.username (users_of all_read k))) after
            ∙ ap found_or (find_username-insert n users absent)
            ∙ ap ok (sym same),
      )

  -- The user that a `Create` that succeeds returns has the parameters, the id of the generator and
  -- the time of the call, and is then found by that id and by the user's name, when the files can
  -- be read.
  pub get_by_username-create :
      (unlisted : Option X) (unread : Text → Option X) (fault : Option X) (id : Text) (now : ℕ)
      (p : CreateUserParams) (u : User) (users d : Users X)
      → ((i : Text) → unread i ≡ none)
      → create unlisted unread fault id now p users ≡ (ok u, d)
      → (u ≡ new_user id now p)
        × (read_user none id d ≡ ok u)
        × (get_by_username none unread p.username d ≡ ok u)
  get_by_username-create unlisted unread fault id now p u users d readable h =
      subst
        (λ r.
          (u ≡ new_user id now p)
          × (read_user none id d ≡ ok u)
          × (get_by_username none r p.username d ≡ ok u))
        same_reads
        (found_after unlisted fault id now p u users d
          (subst (λ r. create unlisted r fault id now p users ≡ (ok u, d)) (sym same_reads) h))
    where
      same_reads : all_read ≡ unread
      same_reads = fun_ext (λ i. sym (readable i))
