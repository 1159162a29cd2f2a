-- ===== src/Sessions/Metadata.antt =====
-- metadata.go, memory.go and the metadata store of file.go. Times are numbers. An index file is
-- absent, cannot be read or parsed, or holds entries; `X` is the error of the file system.
use sonalmod.Base.{
  ℕ, ◌+◌, ◌-◌, Bool, not, ◌&&◌, ◌||◌, Option, none, some, List, [], ◌∷◌, Text, text_eq, ◌==◌,
  is_empty, ltb, leb, nat_beq, min, length, take, drop, keep, if◌then◌else◌,
}

pub record SessionMetadata : Type 0 where
  pub session_id : Text
  pub app_name : Text
  pub user_id : Text
  pub title : Text
  pub created_at : ℕ
  pub updated_at : ℕ

-- `ListSessionMetadataParams`. A negative limit or offset is refused; `offset_negative` says that
-- the offset is one, and a limit below 1 is 0.
pub record ListParams : Type 0 where
  pub app_name : Text
  pub user_id : Text
  pub limit : ℕ
  pub offset : ℕ
  pub offset_negative : Bool

pub record ListResult : Type 0 where
  pub sessions : List SessionMetadata
  pub total : ℕ

pub data MetaError (X : Type 0) : Type 0 where
  session_id_required app_name_required user_id_required : MetaError X
  app_and_user_required limit_out_of_range offset_out_of_range : MetaError X
  ctx_done read_index_failed write_index_failed : X → MetaError X

pub data Outcome (X A : Type 0) : Type 0 where
  ok : A → Outcome X A
  err : MetaError X → Outcome X A

abbrev pub same_key : SessionMetadata → SessionMetadata → Bool
same_key a b = a.session_id == b.session_id && (a.app_name == b.app_name && a.user_id == b.user_id)

module _ {X : Type 0} where
  -- `ValidateMetadataForSave`
  unfoldable pub validate_metadata_for_save : SessionMetadata → Option (MetaError X)
  validate_metadata_for_save m =
      if is_empty m.session_id
      then some session_id_required
      else if is_empty m.app_name
      then some app_name_required
      else if is_empty m.user_id
      then some user_id_required
      else none

  -- `ValidateListParams`
  unfoldable pub validate_list_params : ListParams → Option (MetaError X)
  validate_list_params p =
      if is_empty p.app_name || is_empty p.user_id
      then some app_and_user_required
      else if ltb p.limit 1 || ltb 100 p.limit
      then some limit_out_of_range
      else if p.offset_negative
      then some offset_out_of_range
      else none

  -- The tests of `Delete`.
  unfoldable pub validate_delete : Text → Text → Text → Option (MetaError X)
  validate_delete app user sid =
      if is_empty app || is_empty user
      then some app_and_user_required
      else if is_empty sid
      then some session_id_required
      else none

  -- `ctx.Err()`, then a validation, then the rest.
  unfoldable pub guarded :
      {A : Type 0} → Option X → Option (MetaError X) → Outcome X A → Outcome X A
  guarded (some x) v r = err (ctx_done x)
  guarded none (some e) r = err e
  guarded none none r = r

-- The loop of `Save`: the first entry of the key is replaced, or the entry appended.
unfoldable pub upsert : SessionMetadata → List SessionMetadata → List SessionMetadata
upsert m [] = m ∷ []
upsert m (e ∷ l) = let rest = upsert m l in if same_key e m then m ∷ l else e ∷ rest

-- `sortByUpdatedAtDesc`. Go leaves the order of equal times open; here they keep theirs.
unfoldable pub insert_newest : SessionMetadata → List SessionMetadata → List SessionMetadata
insert_newest m [] = m ∷ []
insert_newest m (e ∷ l) =
    let rest = insert_newest m l in if leb e.updated_at m.updated_at then m ∷ e ∷ l else e ∷ rest

unfoldable pub sort_by_updated_at_desc : List SessionMetadata → List SessionMetadata
unfolding insert_newest
sort_by_updated_at_desc [] = []
sort_by_updated_at_desc (m ∷ l) = insert_newest m (sort_by_updated_at_desc l)

abbrev pub belongs_to : Text → Text → SessionMetadata → Bool
belongs_to app user m = m.app_name == app && m.user_id == user

-- `matched[start:end]` with its total.
unfoldable pub page : ListParams → List SessionMetadata → ListResult
page p matched =
    let total = length matched in
    let start = min p.offset total in
    let end_ = min (start + p.limit) total in
    record { sessions = take (end_ - start) (drop start matched); total = total }

unfoldable pub list_page : ListParams → List SessionMetadata → ListResult
unfolding page sort_by_updated_at_desc
list_page p entries =
    page p (sort_by_updated_at_desc (keep (belongs_to p.app_name p.user_id) entries))

abbrev pub is_entry : Text → Text → Text → SessionMetadata → Bool
is_entry app user sid m = m.session_id == sid && (m.app_name == app && m.user_id == user)

module _ {X : Type 0} where
  -- `MemorySessionMetadataStore.Save`: the new entries.
  unfoldable pub memory_save :
      Option X → SessionMetadata → List SessionMetadata → Outcome X (List SessionMetadata)
  unfolding guarded validate_metadata_for_save upsert
  memory_save ctx m entries = guarded ctx (validate_metadata_for_save m) (ok (upsert m entries))

  -- `MemorySessionMetadataStore.List`
  unfoldable pub memory_list : Option X → ListParams → List SessionMetadata → Outcome X ListResult
  unfolding guarded validate_list_params list_page
  memory_list ctx p entries = guarded ctx (validate_list_params p) (ok (list_page p entries))

  -- `MemorySessionMetadataStore.Delete`
  unfoldable pub memory_delete :
      Option X → Text → Text → Text → List SessionMetadata → Outcome X (List SessionMetadata)
  unfolding guarded validate_delete
  memory_delete ctx app user sid entries =
      guarded ctx (validate_delete app user sid)
        (ok (keep (λ m. not (is_entry app user sid m)) entries))

-- `_sessions_index.json` of one app and user.
pub data Index (X : Type 0) : Type 0 where
  absent : Index X
  unreadable : X → Index X
  entries : List SessionMetadata → Index X

-- The loop of the file store's `Save`, which compares session ids only.
unfoldable pub upsert_by_id : SessionMetadata → List SessionMetadata → List SessionMetadata
upsert_by_id m [] = m ∷ []
upsert_by_id m (e ∷ l) =
    let rest = upsert_by_id m l in if e.session_id == m.session_id then m ∷ l else e ∷ rest

module _ {X : Type 0} where
  -- `readIndex`
  unfoldable pub read_index : Index X → Outcome X (List SessionMetadata)
  read_index absent = ok []
  read_index (unreadable x) = err (read_index_failed x)
  read_index (entries l) = ok l

  -- `writeIndexAtomic`, whose failure leaves the index as it was.
  unfoldable pub write_index : Option X → List SessionMetadata → Outcome X (Index X)
  write_index none l = ok (entries l)
  write_index (some x) l = err (write_index_failed x)

  abbrev pub then_write :
      (List SessionMetadata → Outcome X (Index X))
      → Outcome X (List SessionMetadata)
      → Outcome X (Index X)
  then_write f (ok l) = f l
  then_write f (err e) = err e

  -- `FileSessionMetadataStore.Save`: the new index, or the error that left it.
  unfoldable pub file_save : Option X → Option X → SessionMetadata → Index X → Outcome X (Index X)
  unfolding guarded validate_metadata_for_save read_index write_index upsert_by_id
  file_save ctx failure m index =
      guarded ctx (validate_metadata_for_save m)
        (then_write (λ l. write_index failure (upsert_by_id m l)) (read_index index))

  abbrev pub page_of : ListParams → Outcome X (List SessionMetadata) → Outcome X ListResult
  page_of p (ok l) = ok (list_page p l)
  page_of p (err e) = err e

  -- `FileSessionMetadataStore.List`
  unfoldable pub file_list : Option X → ListParams → Index X → Outcome X ListResult
  unfolding guarded validate_list_params read_index list_page
  file_list ctx p index = guarded ctx (validate_list_params p) (page_of p (read_index index))

  -- The index is written only if an entry went.
  unfoldable pub write_deleted :
      Option X → Text → Index X → List SessionMetadata → Outcome X (Index X)
  unfolding write_index
  write_deleted failure sid index l =
      let rest = keep (λ m. not (m.session_id == sid)) l in
      if nat_beq (length rest) (length l) then ok index else write_index failure rest

  -- `FileSessionMetadataStore.Delete`
  unfoldable pub file_delete :
      Option X → Option X → Text → Text → Text → Index X → Outcome X (Index X)
  unfolding guarded validate_delete read_index write_deleted
  file_delete ctx failure app user sid index =
      guarded ctx (validate_delete app user sid)
        (then_write (write_deleted failure sid index) (read_index index))
