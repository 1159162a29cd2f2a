-- ===== src/FileSessions/Frames.antt =====
-- Which files the steps of `FileSessionService` change.
use sonalmod.Base.{
  ℕ, ◌≡◌, ◌≢◌, refl, false, Option, none, some, [], ◌∷◌, Text, text, text_eq, ◌==◌, Dict, lookup,
  insert, lookup-insert, FilePath, path_eq, path_beq, path_beq_iff, arith,
}
use sonalmod.FileSessions.Disk.{
  Json, encoded, File, state_file, Disk, Stage, Answer, fine, refused, torn, ServiceError, Result,
  ok, err, session_path, app_state_path, user_state_path, read_app_state, write_file, attempt,
  chain, and_then,
}
use sonalmod.FileSessions.Service.{update_state, copy_into}

-- No session of an app of another name than `_user` shares its file with a state.
pub session-app_state : (a u s b : Text) → (app_state_path b == session_path a u s) ≡ false
unfolding session_path app_state_path path_beq
session-app_state a u s b = ground arith

pub session-user_state :
    (a u s b v : Text)
    → (text "_user" == a) ≡ false
    → (user_state_path b v == session_path a u s) ≡ false
unfolding session_path user_state_path path_beq
session-user_state a u s b v h = ground arith

pub app_state-session : (a u s b : Text) → (session_path a u s == app_state_path b) ≡ false
unfolding session_path app_state_path path_beq
app_state-session a u s b = ground arith

pub user_state-session :
    (a u s b v : Text)
    → (a == text "_user") ≡ false
    → (session_path a u s == user_state_path b v) ≡ false
unfolding session_path user_state_path path_beq
user_state-session a u s b v h = ground arith

module _ {V P X : Type 0} where
  pub attempt_frame : (at : Stage) (a : Answer V P X) (d : Disk V P X) → (attempt at a d).1 ≡ d
  unfolding attempt
  attempt_frame at fine d = refl
  attempt_frame at (refused x) d = refl
  attempt_frame at (torn x f) d = refl

module _ {V P X : Type 0} ⦃json : Json V P⦄ where
  write_file_ok :
      (at : Stage) (a : Answer V P X) (path : FilePath) (f : File V P X) (d : Disk V P X)
      → (write_file at a path f d).0 ≡ none
      → (write_file at a path f d).1 ≡ insert path (encoded f) d
  unfolding write_file
  write_file_ok at fine path f d h = refl
  write_file_ok at (refused x) path f d h = cc
  write_file_ok at (torn x g) path f d h = cc

  pub write_file_frame :
      (at : Stage) (a : Answer V P X) (path q : FilePath) (f : File V P X) (d : Disk V P X)
      → (path == q) ≡ false
      → lookup q (write_file at a path f d).1 ≡ lookup q d
  unfolding write_file
  write_file_frame at fine path q f d h = ground (arith, lookup-insert q path (encoded f) d)
  write_file_frame at (refused x) path q f d h = refl
  write_file_frame at (torn x g) path q f d h = ground (arith, lookup-insert q path g d)

  pub lookup-write_file :
      (at : Stage) (a : Answer V P X) (path : FilePath) (f : File V P X) (d : Disk V P X)
      → (write_file at a path f d).0 ≡ none
      → lookup path (write_file at a path f d).1 ≡ some (encoded f)
  lookup-write_file at a path f d h =
      let self = (path_beq_iff path path).1 refl in
      let inserted = write_file_ok at a path f d h in
      ground (arith, lookup-insert path path (encoded f) d)

  pub update_state_frame :
      (dir : Stage) (made : Answer V P X) (at : Stage) (written : Answer V P X) (path q : FilePath)
      (now : ℕ) (delta : Dict Text V) (d : Disk V P X)
      → (path == q) ≡ false
      → lookup q (update_state dir made at written path now delta d).1 ≡ lookup q d
  unfolding update_state
  update_state_frame dir made at written path q now [] d h = refl
  update_state_frame dir fine at written path q now (b ∷ delta) d h =
      write_file_frame at written path q
        (state_file (copy_into (read_app_state path d) (b ∷ delta)) now) d h
  update_state_frame dir (refused x) at written path q now (b ∷ delta) d h = unfold attempt in refl
  update_state_frame dir (torn x g) at written path q now (b ∷ delta) d h = unfold attempt in refl

-- A chain that ends well had its first step end well.
pub chain_ok :
    {V P X R : Type 0} (failed : ServiceError X → Disk V P X → R)
    (r : Option (ServiceError X) × Disk V P X) (next : Disk V P X → R) (out : R)
    → ((e : ServiceError X) (d : Disk V P X) → failed e d ≢ out)
    → chain failed r next ≡ out
    → (r.0 ≡ none) × (next r.1 ≡ out)
chain_ok failed (none, d) next out never h = (refl, h)
chain_ok failed (some e, d) next out never h = absurd (never e d h)

pub and_then_ok :
    {V P X A : Type 0} (r : Option (ServiceError X) × Disk V P X)
    (next : Disk V P X → Result X A × Disk V P X) (a : A) (d : Disk V P X)
    → and_then r next ≡ (ok a, d)
    → (r.0 ≡ none) × (next r.1 ≡ (ok a, d))
and_then_ok r next a d h =
    chain_ok (λ e d'. (err e, d')) r next (ok a, d) (λ e d' bad. ground arith) h

-- What holds after the first step of a chain, whether it failed or not, and after the rest.
pub chain_either :
    {V P X R : Type 0} (Q : R → Type 0) (failed : ServiceError X → Disk V P X → R)
    (r : Option (ServiceError X) × Disk V P X) (next : Disk V P X → R)
    → ((e : ServiceError X) → Q (failed e r.1))
    → Q (next r.1)
    → Q (chain failed r next)
chain_either Q failed (none, d) next f n = n
chain_either Q failed (some e, d) next f n = f e
