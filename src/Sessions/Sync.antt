-- ===== src/Sessions/Sync.antt =====
-- `MetadataSyncStorage` of metadata_sync.go, which keeps the listing of sessions in step with the
-- session service it wraps. The wrapped service's own result is an argument of each operation: it
-- is code of the ADK or of a store that the wrapper only calls. The metadata store is an interface
-- that the store in memory fills. An error of the metadata store is logged and goes no further.
pub mod Append
use sonalmod.Base.{
  ℕ, suc, ◌≡◌, refl, Bool, true, false, not, ◌&&◌, ◌||◌, Option, none, some, List, [], ◌∷◌, ◌++◌,
  Text, text_eq, ◌==◌, is_empty, length, if◌then◌else◌, trim_space, ◌⊎◌, inl, inr, arith,
  Bool-cases, text_beq_iff, text,
}
use sonalmod.SessionEvent.{Part, GenAiContent, AdkEvent}
use sonalmod.Sessions.Metadata.{
  SessionMetadata, ListParams, ListResult, MetaError, Outcome, ok, err, memory_save, memory_list,
  memory_delete, upsert, same_key, is_entry, guarded, validate_metadata_for_save,
}
use sonalmod.Sessions.Paging.{
  Search, found, not_found, failed, out_of_fuel, find, find_session_metadata,
  find_session_metadata_lem, request, matched, from_find,
}

-- `SessionMetadataStore`, on a state `S` that a failed operation leaves as it was.
pub record MetadataStore (X S : Type 0) : Type 0 where
  pub save : SessionMetadata → S → Outcome X S
  pub list : ListParams → S → Outcome X ListResult
  pub delete : Text → Text → Text → S → Outcome X S

abbrev pub memory_store : {X : Type 0} → MetadataStore X (List SessionMetadata)
memory_store = record {
  save = memory_save none;
  list = memory_list none;
  delete = memory_delete none;
}

-- What the wrapper reads of a `session.Session`.
pub record SessionRef : Type 0 where
  pub id : Text
  pub app_name : Text
  pub user_id : Text

-- The state after an operation whose error is logged.
abbrev pub logged : {X S : Type 0} → Outcome X S → S → S
logged (ok s) old = s
logged (err e) old = old

module _ {X : Type 0} where
  -- The summary of a text, empty if it fails.
  abbrev pub summary : X ⊎ Text → Text
  summary (inl x) = []
  summary (inr t) = t

module _ {X S : Type 0} (store : MetadataStore X S) (now : ℕ) where
  -- `Create`, after the wrapped service's answer; a nil response or session is `none`.
  unfoldable pub create : X ⊎ Option SessionRef → S → (X ⊎ Option SessionRef) × S
  create (inl x) s = (inl x, s)
  create (inr none) s = (inr none, s)
  create (inr (some r)) s =
      let meta : SessionMetadata = record {
        session_id = r.id;
        app_name = r.app_name;
        user_id = r.user_id;
        title = [];
        created_at = now;
        updated_at = now;
      } in
      (inr (some r), logged (store.save meta s) s)

  -- `Delete`
  unfoldable pub delete : Option X → SessionRef → S → Option X × S
  delete (some x) r s = (some x, s)
  delete none r s = (none, logged (store.delete r.app_name r.user_id r.id s) s)

module _ {J : Type 0} (role_user : Text) where
  -- The loop of `userMessageText`, on what the builder holds.
  unfoldable pub join_texts : List (Option (Part J)) → Text → Text
  join_texts [] b = b
  join_texts (none ∷ l) b = join_texts l b
  join_texts (some p ∷ l) b =
      let unchanged = join_texts l b in
      let first = join_texts l p.text in
      let more = join_texts l (b ++ (text " " ++ p.text)) in
      if is_empty p.text then unchanged else if is_empty b then first else more

  -- `userMessageText`
  unfoldable pub user_message_text : Option (AdkEvent J) → Text
  unfolding join_texts
  user_message_text none = []
  user_message_text (some ev) = elim ev.content [
    | none ↦ []
    | some c ↦ if c.role == role_user then trim_space (join_texts c.parts []) else []
  ]

  module _ {X : Type 0} (summarize : Text → X ⊎ Text) where
    -- `titleAfterAppend`; `none` for an entry that was not found.
    unfoldable pub title_after_append : Option SessionMetadata → Option (AdkEvent J) → Text
    unfolding user_message_text
    title_after_append existing ev =
        let txt = user_message_text ev in
        let fresh = if is_empty txt then [] else summary (summarize txt) in
        elim existing [ none ↦ fresh | some m ↦ if is_empty m.title then fresh else m.title ]

    module _ {S : Type 0} (store : MetadataStore X S) (now : ℕ) where
      -- What `AppendEvent` saves, by the entry found.
      abbrev pub save_after_append :
          SessionRef → Option (AdkEvent J) → Option SessionMetadata → S → S
      save_after_append r ev existing s =
          let meta : SessionMetadata = record {
            session_id = r.id;
            app_name = r.app_name;
            user_id = r.user_id;
            title = title_after_append existing ev;
            created_at = elim existing [ none ↦ now | some m ↦ m.created_at ];
            updated_at = now;
          } in
          logged (store.save meta s) s

      abbrev pub after_search : SessionRef → Option (AdkEvent J) → Search X → S → S
      after_search r ev (found m) s = save_after_append r ev (some m) s
      after_search r ev not_found s = save_after_append r ev none s
      after_search r ev (failed e) s = s
      after_search r ev out_of_fuel s = s

      -- `AppendEvent`, after the wrapped service's answer, with fuel for the search.
      unfoldable pub append_event :
          ℕ → Option X → Option SessionRef → Option (AdkEvent J) → S → Option X × S
      unfolding find_session_metadata title_after_append
      append_event fuel (some x) sess ev s = (some x, s)
      append_event fuel none sess none s = (none, s)
      append_event fuel none none (some ev) s = (none, s)
      append_event fuel none (some r) (some ev) s = if ev.partial then (none, s) else (
        none,
        after_search r (some ev)
            (find_session_metadata (λ offset. store.list (request r.app_name r.user_id offset) s)
              r.id fuel 0)
            s,
      )
