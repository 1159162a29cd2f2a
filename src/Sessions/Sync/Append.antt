-- ===== src/Sessions/Sync/Append.antt =====
-- What `AppendEvent` of metadata_sync.go leaves in a metadata store in memory.
use sonalmod.Base.{
  ℕ, suc, ◌≡◌, refl, Bool, true, false, Option, none, some, List, [], ◌∷◌, Text, text_eq, ◌==◌,
  is_empty, length, if◌then◌else◌, ◌⊎◌, inl, inr, arith, Bool-cases, text_beq_iff, sym, ◌∙◌, ap,
}
use sonalmod.SessionEvent.{AdkEvent}
use sonalmod.Sessions.Metadata.{
  SessionMetadata, memory_save, upsert, same_key, is_entry, guarded, validate_metadata_for_save,
}
use sonalmod.Sessions.Paging.{Search, find, find_session_metadata_lem, matched, from_find}
use sonalmod.Sessions.Sync.{
  SessionRef, memory_store, append_event, title_after_append, after_search,
}

-- The entry of a session.
unfoldable pub entry : SessionRef → List SessionMetadata → Option SessionMetadata
entry r [] = none
entry r (m ∷ l) = if is_entry r.app_name r.user_id r.id m then some m else entry r l

-- Whether metadata are those of a session.
abbrev pub is_of : SessionRef → SessionMetadata → Bool
is_of r m = is_entry r.app_name r.user_id r.id m

fields_of :
    (r : SessionRef) (m : SessionMetadata)
    → is_of r m ≡ true
    → (m.session_id ≡ r.id) × (m.app_name ≡ r.app_name) × (m.user_id ≡ r.user_id)
fields_of r m h = (
  (text_beq_iff m.session_id r.id).0 (ground arith),
  (text_beq_iff m.app_name r.app_name).0 (ground arith),
  (text_beq_iff m.user_id r.user_id).0 (ground arith),
)

same_key_of : (r : SessionRef) (e m : SessionMetadata) → is_of r m ≡ true → same_key e m ≡ is_of r e
same_key_of r e m h =
    let (i, a, u) = fields_of r m h in
    let p = ap (λ x. e.session_id == x) i in
    let q = ap (λ x. e.app_name == x) a in let t = ap (λ x. e.user_id == x) u in ground arith

entry-upsert :
    (r : SessionRef) (m : SessionMetadata) (l : List SessionMetadata)
    → is_of r m ≡ true
    → entry r (upsert m l) ≡ some m
unfolding entry upsert
entry-upsert r m [] h = ground arith
entry-upsert r m (e ∷ l) h = ground (arith, same_key_of r e m h, entry-upsert r m l h)

other_key :
    (r : SessionRef) (e m : SessionMetadata)
    → is_of r m ≡ false
    → same_key e m ≡ true
    → is_of r e ≡ false
other_key r e m h same =
    let i = (text_beq_iff e.session_id m.session_id).0 (ground arith) in
    let a = (text_beq_iff e.app_name m.app_name).0 (ground arith) in
    let u = (text_beq_iff e.user_id m.user_id).0 (ground arith) in
    let p = ap (λ x. x == r.id) i in
    let q = ap (λ x. x == r.app_name) a in let t = ap (λ x. x == r.user_id) u in ground arith

entry-upsert_other :
    (r : SessionRef) (m : SessionMetadata) (l : List SessionMetadata)
    → is_of r m ≡ false
    → entry r (upsert m l) ≡ entry r l
unfolding entry upsert
entry-upsert_other r m [] h = ground arith
entry-upsert_other r m (e ∷ l) h = elim (Bool-cases (same_key e m)) [
  | inl same ↦ ground (arith, other_key r e m h same)
  | inr differ ↦ ground (arith, entry-upsert_other r m l h)
]

module _ {J X : Type 0} (role_user : Text) (summarize : Text → X ⊎ Text) (now : ℕ) where
  -- What an append saves for a session, from the entry found before.
  abbrev pub saved : SessionRef → Option (AdkEvent J) → Option SessionMetadata → SessionMetadata
  saved r ev existing = record {
    session_id = r.id;
    app_name = r.app_name;
    user_id = r.user_id;
    title = title_after_append role_user summarize existing ev;
    created_at = elim existing [ none ↦ now | some m ↦ m.created_at ];
    updated_at = now;
  }

  is_of-saved :
      (r : SessionRef) (ev : Option (AdkEvent J)) (o : Option SessionMetadata)
      → is_of r (saved r ev o) ≡ true
  is_of-saved r ev o =
      let i = (text_beq_iff r.id r.id).1 refl in
      let a = (text_beq_iff r.app_name r.app_name).1 refl in
      let u = (text_beq_iff r.user_id r.user_id).1 refl in ground arith

  after_found :
      (r : SessionRef) (ev : AdkEvent J) (l : List SessionMetadata) (o : Option SessionMetadata)
      → is_empty r.id ≡ false
      → is_empty r.app_name ≡ false
      → is_empty r.user_id ≡ false
      → after_search role_user summarize (memory_store {X = X}) now r (some ev) (from_find o) l
        ≡ upsert (saved r (some ev) o) l
  unfolding memory_save guarded validate_metadata_for_save
  after_found r ev l none i a u = rw (i, a, u) refl
  after_found r ev l (some m) i a u = rw (i, a, u) refl

  append_event_ends :
      (r : SessionRef) (ev : AdkEvent J) (l : List SessionMetadata)
      → is_empty r.id ≡ false
      → is_empty r.app_name ≡ false
      → is_empty r.user_id ≡ false
      → ev.partial ≡ false
      → append_event role_user summarize
          (memory_store {X = X})
          now
          (suc (length (matched r.app_name r.user_id l)))
          none
          (some r)
          (some ev)
          l
        ≡ (none, upsert (saved r (some ev) (find r.id (matched r.app_name r.user_id l))) l)
  unfolding append_event
  append_event_ends r ev l i a u p = rw p (
      ap
        (λ (f : Search X).
          (none, after_search role_user summarize (memory_store {X = X}) now r (some ev) f l))
        (find_session_metadata_lem r.app_name r.user_id l r.id a u)
      ∙ ap (λ x. (none, x)) (after_found r ev l (find r.id (matched r.app_name r.user_id l)) i a u))

  -- For a session whose id, app and user are not empty, over the memory store and with fuel for the
  -- search, appending an event that is not partial reports no error, leaves as the session's entry
  -- the metadata that follow from the newest entry found before, and does not change the entry
  -- of another session.
  pub append_event-entry :
      (r : SessionRef) (ev : AdkEvent J) (l : List SessionMetadata)
      → is_empty r.id ≡ false
      → is_empty r.app_name ≡ false
      → is_empty r.user_id ≡ false
      → ev.partial ≡ false
      → (other : SessionRef)
      → is_of other (saved r (some ev) (find r.id (matched r.app_name r.user_id l))) ≡ false
      → (out : Option X × List SessionMetadata)
      → append_event role_user summarize memory_store now
          (suc (length (matched r.app_name r.user_id l)))
          none
          (some r)
          (some ev)
          l
        ≡ out
      → (out.0 ≡ none)
        × (entry r out.1 ≡ some (saved r (some ev) (find r.id (matched r.app_name r.user_id l))))
        × (entry other out.1 ≡ entry other l)
  append_event-entry r ev l i a u p other differs out e =
      let old = find r.id (matched r.app_name r.user_id l) in
      let whole = sym e ∙ append_event_ends r ev l i a u p in
      (
        ap (λ x. x.0) whole,
        ap (λ x. entry r x.1) whole
            ∙ entry-upsert r (saved r (some ev) old) l (is_of-saved r (some ev) old),
        ap (λ x. entry other x.1) whole
            ∙ entry-upsert_other other (saved r (some ev) old) l differs,
      )
