-- ===== src/FileSessions/Disk.antt =====
-- The files of `FileSessionService`, as its readers see them. A disk maps paths to contents; a
-- directory exists while it holds a file, so `pruneEmptyDirs` and the state that `MkdirAll` leaves
-- are no operations here. `V` is `any`, `P` the part of an event that the service does not read,
-- `X` an error of the system. The names of apps, users and sessions are single path components.
use sonalmod.Base.{
  ℕ, Bool, Option, none, some, List, [], ◌∷◌, ◌++◌, Text, text, Dict, lookup, insert, FilePath,
  path_eq, map,
}

pub record Event (V P : Type 0) : Type 0 where
  pub timestamp : ℕ
  pub partial : Bool
  pub state_delta : Dict Text V
  pub rest : P

-- `fileSessionStorage`
pub record Stored (V P : Type 0) : Type 0 where
  pub app_name : Text
  pub user_id : Text
  pub session_id : Text
  pub state : Dict Text V
  pub updated_at : ℕ
  pub events : List (Event V P)

-- `json.Marshal` and then `json.Unmarshal` of an `any` and of the rest of an event: an integer
-- comes back as a float64, a struct as a map.
pub record Json (V P : Type 0) : Type 0 where
  pub reread_value : V → V
  pub reread_rest : P → P

-- A state, its values written and read again.
abbrev pub reread_state : {V : Type 0} → (V → V) → Dict Text V → Dict Text V
reread_state reread [] = []
reread_state reread ((k, v) ∷ d) = (k, reread v) ∷ reread_state reread d

module _ {V P : Type 0} ⦃json : Json V P⦄ where
  -- An event, written and read again. Its time and its flag come back as they are.
  abbrev pub reread_event : Event V P → Event V P
  reread_event e = record e {
    state_delta = reread_state json.reread_value e.state_delta;
    rest = json.reread_rest e.rest;
  }

  -- A session likewise.
  abbrev pub reread_stored : Stored V P → Stored V P
  reread_stored s = record s {
    state = reread_state json.reread_value s.state;
    events = map reread_event s.events;
  }

-- What a file holds, by what `json.Unmarshal` gives for it: a session, a state with its time, no
-- JSON object, or nothing that can be read.
pub data File (V P X : Type 0) : Type 0 where
  session_file : Stored V P → File V P X
  state_file : Dict Text V → ℕ → File V P X
  no_object : X → File V P X
  unreadable : X → File V P X

abbrev pub Disk : Type 0 → Type 0 → Type 0 → Type 0
Disk V P X = Dict FilePath (File V P X)

pub data Stage : Type 0 where
  app_dir app_state user_dir user_state session_dir marshal session_write : Stage
  session_read session_parse session_remove : Stage

-- What the system answers to a step. A failed write may leave other contents behind.
pub data Answer (V P X : Type 0) : Type 0 where
  fine : Answer V P X
  refused : X → Answer V P X
  torn : X → File V P X → Answer V P X

pub data ServiceError (X : Type 0) : Type 0 where
  fields_required event_is_nil unexpected_session_type : ServiceError X
  already_exists not_found : Text → ServiceError X
  system : Stage → X → ServiceError X

pub data Result (X A : Type 0) : Type 0 where
  ok : A → Result X A
  err : ServiceError X → Result X A

-- `sessionPath`, `appStatePath` and `userStatePath`, below the base directory.
unfoldable pub session_path : Text → Text → Text → FilePath
session_path app user sid = app ∷ user ∷ (sid ++ text ".json") ∷ []

unfoldable pub app_state_path : Text → FilePath
app_state_path app = text "_app" ∷ (app ++ text ".json") ∷ []

unfoldable pub user_state_path : Text → Text → FilePath
user_state_path app user = text "_user" ∷ app ∷ (user ++ text ".json") ∷ []

module _ {V P X : Type 0} where
  -- `os.ReadFile` and `json.Unmarshal` into a `fileSessionStorage`. A field that the object lacks
  -- is zero, and one that the struct lacks is passed over.
  unfoldable pub parse_stored : File V P X → Result X (Stored V P)
  parse_stored (session_file s) = ok s
  parse_stored (state_file state at) = ok (record {
    app_name = [];
    user_id = [];
    session_id = [];
    state = state;
    updated_at = at;
    events = [];
  })
  parse_stored (no_object x) = err (system session_parse x)
  parse_stored (unreadable x) = err (system session_read x)

  abbrev pub parse_found : Text → Option (File V P X) → Result X (Stored V P)
  parse_found sid none = err (not_found sid)
  parse_found sid (some f) = parse_stored f

  -- The reads of `Get` and `AppendEvent`.
  unfoldable pub read_session : FilePath → Text → Disk V P X → Result X (Stored V P)
  unfolding parse_stored
  read_session path sid disk = parse_found sid (lookup path disk)

  abbrev pub state_of : Option (File V P X) → Dict Text V
  state_of none = []
  state_of (some (session_file s)) = s.state
  state_of (some (state_file state at)) = state
  state_of (some (no_object x)) = []
  state_of (some (unreadable x)) = []

  -- `readAppState`, which is `readUserState` too.
  unfoldable pub read_app_state : FilePath → Disk V P X → Dict Text V
  read_app_state path disk = state_of (lookup path disk)

  -- A step that writes no file of its own: `ensureDir`, `json.MarshalIndent` with its errors.
  unfoldable pub attempt : Stage → Answer V P X → Disk V P X → Option (ServiceError X) × Disk V P X
  attempt at fine disk = (none, disk)
  attempt at (refused x) disk = (some (system at x), disk)
  attempt at (torn x left) disk = (some (system at x), disk)

  -- `if err != nil { return …, err }`, with what is returned beside the error.
  abbrev pub chain :
      {R : Type 0}
      → (ServiceError X → Disk V P X → R)
      → Option (ServiceError X) × Disk V P X
      → (Disk V P X → R)
      → R
  chain failed (none, disk) next = next disk
  chain failed (some e, disk) next = failed e disk

  abbrev pub and_then :
      {A : Type 0}
      → Option (ServiceError X) × Disk V P X
      → (Disk V P X → Result X A × Disk V P X)
      → Result X A × Disk V P X
  and_then r next = chain (λ e disk. (err e, disk)) r next

module _ {V P X : Type 0} ⦃json : Json V P⦄ where
  -- `json.MarshalIndent` of what a file shall hold, by what reading it then gives.
  abbrev pub encoded : File V P X → File V P X
  encoded (session_file s) = session_file (reread_stored s)
  encoded (state_file state at) = state_file (reread_state json.reread_value state) at
  encoded (no_object x) = no_object x
  encoded (unreadable x) = unreadable x

  -- `os.WriteFile` of a value's JSON.
  unfoldable pub write_file :
      Stage
      → Answer V P X
      → FilePath
      → File V P X
      → Disk V P X
      → Option (ServiceError X) × Disk V P X
  write_file at fine path f disk = (none, insert path (encoded f) disk)
  write_file at (refused x) path f disk = (some (system at x), disk)
  write_file at (torn x left) path f disk = (some (system at x), insert path left disk)
