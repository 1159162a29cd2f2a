-- ===== src/Witnesses/Files.antt =====
-- The file services at concrete inputs.
use sonalmod.Base.{
  ℕ, ◌+◌, ◌≡◌, refl, map, if◌then◌else◌, ◌⊎◌, inl, inr, Bool, true, false, not, none, some, List,
  [], ◌∷◌, ◌++◌, Text, text, Option, lookup, text_eq, Dict, FilePath, path_eq, ◌==◌, is_empty, keep,
  ltb, trim_space, arith,
}
use sonalmod.FileSessions.Disk.{
  Json, reread_event, Event, Stored, File, session_file, Disk, Stage, Answer, fine, Result, ok,
  session_path, parse_stored,
}
use sonalmod.FileSessions.Service.{
  FileSession, CreateRequest, DeleteRequest, not_before, create, append_event, delete, get,
}
use sonalmod.FileSessions.Listing.{list, session_id_of}
use sonalmod.FileSessions.Created.{get-create}
use sonalmod.FileSessions.Appending.{IsTrimmed}
use sonalmod.FileSessions.Appended.{get-append_event, get-delete, Deleted}
use sonalmod.FileSessions.Filters.{not_before_lem}
use sonalmod.FileSessions.Unlistable.{list_ok-parses}
use sonalmod.FileSessions.Whole.{whole_session}

abbrev a : Text
a = text "app:"

abbrev u : Text
u = text "user:"

abbrev t : Text
t = text "temp:"

-- Values below 100 are integers, which come back as the floats from 100 on.
instance abbrev numbers : Json ℕ ℕ
numbers = record { reread_value = λ v. if ltb v 100 then v + 100 else v; reread_rest = λ r. r }

abbrev answers : Stage → Answer ℕ ℕ ℕ
answers stage = fine

abbrev cart : CreateRequest ℕ
cart = record {
  app_name = text "shop";
  user_id = text "ann";
  session_id = text "s1";
  state = (text "step", 1) ∷ (text "app:open", 2) ∷ [];
}

abbrev made : FileSession ℕ ℕ
made = record {
  id = text "s1";
  app_name = text "shop";
  user_id = text "ann";
  state = (text "step", 1) ∷ (text "app:open", 102) ∷ [];
  events = [];
  updated_at = 5;
}

abbrev after_create : Disk ℕ ℕ ℕ
after_create = (create a u t answers 5 (text "new") cart []).1

get-create_example :
    (s : FileSession ℕ ℕ) × (get a u t
        (whole_session (text "shop") (text "ann") (text "s1"))
        after_create
      ≡ ok s)
    × (s.id ≡ text "s1")
    × (s.events ≡ [])
    × (s.updated_at ≡ 5)
    × (lookup (text "step") s.state ≡ some 101)
unfolding create lookup sonalmod.Sessions.StateDelta.extract_state_deltas sonalmod.Base.cut_prefix
    sonalmod.Base.has_prefix sonalmod.Base.insert sonalmod.Base.path_beq
    sonalmod.FileSessions.Disk.app_state_path sonalmod.FileSessions.Disk.user_state_path
    sonalmod.Base.text_beq
get-create_example =
    get-create a u t answers 5 (text "new") (text "step") cart [] after_create made refl refl refl

abbrev said : ℕ → Event ℕ ℕ
said at = record {
  timestamp = at;
  partial = false;
  state_delta = (text "temp:x", 1) ∷ [];
  rest = 7;
}

not_before_lem_example :
    not_before (some 4) (said 3 ∷ said 5 ∷ [])
    ≡ keep (λ e. not (ltb e.timestamp 4)) (said 3 ∷ said 5 ∷ [])
not_before_lem_example = not_before_lem 4 (said 3 ∷ said 5 ∷ []) ((omega arith, tt), (tt, tt))

abbrev drop_cart : DeleteRequest
drop_cart = record { app_name = text "shop"; user_id = text "ann"; session_id = text "s1" }

get-delete_example :
    Deleted a u t answers 6
      (text "shop")
      (text "ann")
      (text "s1")
      after_create
      (delete a u t answers 6 drop_cart after_create).1
      (text "other" ∷ [])
      (delete a u t answers 6 drop_cart after_create).0
unfolding sonalmod.Base.path_beq session_path sonalmod.Base.text_beq
get-delete_example = get-delete a u t answers 6 drop_cart after_create (text "other" ∷ []) refl

abbrev appended : FileSession ℕ ℕ × Disk ℕ ℕ ℕ
appended = let r = append_event a u t answers 6 (some (said 8)) made after_create in (r.1, r.2)

get-append_event_example :
    (e : Event ℕ ℕ) × (s : FileSession ℕ ℕ) × (s' : FileSession ℕ ℕ) × IsTrimmed t
      (text "temp:x")
      (said 8)
      e
    × (get a u t (whole_session (text "shop") (text "ann") (text "s1")) after_create ≡ ok s)
    × (get a u t (whole_session (text "shop") (text "ann") (text "s1")) appended.1 ≡ ok s')
    × (s'.events ≡ map reread_event (s.events ++ e ∷ []))
    × (s'.updated_at ≡ 8)
    × (appended.0.events ≡ made.events ++ e ∷ [])
    × (lookup (session_path (text "shop") (text "ann") (text "s2")) appended.1
        ≡ lookup (session_path (text "shop") (text "ann") (text "s2")) after_create)
unfolding append_event lookup create sonalmod.Sessions.StateDelta.extract_state_deltas
    sonalmod.Base.cut_prefix sonalmod.Base.has_prefix sonalmod.Base.insert sonalmod.Base.path_beq
    sonalmod.FileSessions.Disk.app_state_path session_path sonalmod.Base.text_beq
get-append_event_example =
    get-append_event a u t answers 6 made appended.0 (said 8) after_create appended.1 (text "shop")
      (text "ann") (text "s2") (text "temp:x") refl refl refl refl refl refl refl

abbrev shop_file : Stored ℕ ℕ
shop_file = record {
  app_name = text "shop";
  user_id = text "ann";
  session_id = text "s1";
  state = [];
  updated_at = 5;
  events = [];
}

abbrev shop_disk : Disk ℕ ℕ ℕ
shop_disk = ((text "shop" ∷ text "ann" ∷ text "s1.json" ∷ []), session_file shop_file) ∷ []

abbrev shop_session : FileSession ℕ ℕ
shop_session = record {
  id = text "s1";
  app_name = text "shop";
  user_id = text "ann";
  state = [];
  events = [];
  updated_at = 5;
}

list_ok-parses_example : (s : Stored ℕ ℕ) × (parse_stored {X = ℕ} (session_file shop_file) ≡ ok s)
unfolding lookup sonalmod.Base.path_beq sonalmod.Base.text_beq session_id_of list
    sonalmod.FileSessions.Disk.user_state_path sonalmod.FileSessions.Disk.app_state_path
    sonalmod.Sessions.StateDelta.extract_state_deltas
list_ok-parses_example =
    list_ok-parses a u t (text "shop") (text "ann") (text "s1.json") (text "s1")
      (session_file shop_file) shop_disk (shop_session ∷ []) refl refl refl refl refl
