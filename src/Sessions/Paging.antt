-- ===== src/Sessions/Paging.antt =====
-- `findSessionMetadata` of metadata_sync.go: paging through a listing to find one session.
use sonalmod.Base.{
  ℕ, zero, suc, ◌+◌, ◌-◌, ◌≤◌, ◌<◌, ◌≡◌, refl, sym, ◌∙◌, ap, true, false, Option, none, some, List,
  [], ◌∷◌, ◌++◌, Text, is_empty, text_eq, ◌==◌, leb, min, length, take, drop, keep, length-take,
  length-drop, take-append-drop, take_all, if◌then◌else◌, arith, Bool-cases, Option-cases, inl, inr,
}
use native.Mathlib.Nat.{zero-add, suc-add}
use sonalmod.Sessions.Metadata.{
  SessionMetadata, ListParams, ListResult, MetaError, Outcome, ok, err, memory_list, guarded,
  validate_list_params, page, list_page, sort_by_updated_at_desc, belongs_to,
}

-- `sessionMetadataListPageSize`
abbrev pub page_size : ℕ
page_size = 100

-- The first entry with the id.
unfoldable pub find : Text → List SessionMetadata → Option SessionMetadata
find sid [] = none
find sid (m ∷ l) = if m.session_id == sid then some m else find sid l

pub data Search (X : Type 0) : Type 0 where
  found : SessionMetadata → Search X
  not_found : Search X
  failed : MetaError X → Search X
  out_of_fuel : Search X

module _ {X : Type 0} where
  -- One round of the loop, on a page of a listing with its total.
  abbrev search_round : Text → List SessionMetadata → ℕ → ℕ → Search X → Search X
  search_round sid sessions total offset next = elim (find sid sessions) [
    | some m ↦ found m
    | none ↦ if leb total (offset + length sessions) then not_found else next
  ]

  abbrev pub from_find : Option SessionMetadata → Search X
  from_find (some m) = found m
  from_find none = not_found

  -- The loop, over a listing that does not change meanwhile; `list` is `ListMetadata` by offset.
  unfoldable pub find_session_metadata : (ℕ → Outcome X ListResult) → Text → ℕ → ℕ → Search X
  unfolding find
  find_session_metadata list sid zero offset = out_of_fuel
  find_session_metadata list sid (suc fuel) offset = elim (list offset) [
    | err e ↦ failed e
    | ok res ↦
        let next = find_session_metadata list sid fuel (offset + length res.sessions) in
        elim (find sid res.sessions) [
          | some m ↦ found m
          | none ↦ if leb res.total (offset + length res.sessions) then not_found else next
        ]
  ]

-- The request of each round.
abbrev pub request : Text → Text → ℕ → ListParams
request app user offset = record {
  app_name = app;
  user_id = user;
  limit = page_size;
  offset = offset;
  offset_negative = false;
}

module _ (app user : Text) (entries : List SessionMetadata) where
  -- All entries of the app and user, newest first.
  abbrev pub matched : List SessionMetadata
  matched = sort_by_updated_at_desc (keep (belongs_to app user) entries)

module _ {X : Type 0} (app user : Text) (entries : List SessionMetadata) where
  abbrev listing : ℕ → Outcome X ListResult
  listing offset = ok (list_page (request app user offset) entries)

abbrev or_else : Option SessionMetadata → Option SessionMetadata → Option SessionMetadata
or_else (some m) o = some m
or_else none o = o

find-append :
    (sid : Text) (k l : List SessionMetadata)
    → find sid (k ++ l) ≡ or_else (find sid k) (find sid l)
unfolding find
find-append sid [] l = refl
find-append sid (m ∷ k) l = ground (arith, find-append sid k l)

drop_nil : (n : ℕ) → drop {A = SessionMetadata} n [] ≡ []
drop_nil zero = refl
drop_nil (suc n) = refl

drop-add : (m n : ℕ) (l : List SessionMetadata) → drop (m + n) l ≡ drop n (drop m l)
drop-add zero n l = ap (λ k. drop k l) (zero-add n)
drop-add (suc m) n [] = rw suc-add (sym (drop_nil n))
drop-add (suc m) n (x ∷ l) = rw suc-add (drop-add m n l)

take_clip :
    (n k : ℕ) (l : List SessionMetadata) → min n (length l) ≤ k → k ≤ n → take k l ≡ take n l
take_clip zero zero l h b = refl
take_clip zero (suc k) l h b = absurd (omega arith)
take_clip (suc n) zero [] h b = refl
take_clip (suc n) zero (x ∷ l) h b = absurd (omega arith)
take_clip (suc n) (suc k) [] h b = refl
take_clip (suc n) (suc k) (x ∷ l) h b =
    ap (λ r. x ∷ r) (take_clip n k l (omega arith) (omega arith))

page_at :
    (p : ListParams) (l : List SessionMetadata)
    → p.offset ≤ length l
    → (page p l).sessions ≡ take p.limit (drop p.offset l)
unfolding page
page_at p l h =
    let start = min p.offset (length l) in
    let start_eq : start ≡ p.offset = omega arith in
    let size = length-drop p.offset l in
    rw start_eq (
      take_clip p.limit (min (p.offset + p.limit) (length l) - p.offset) (drop p.offset l)
        (omega arith) (omega arith))

short_of :
    (total offset first rest : ℕ)
    → leb total (offset + first) ≡ true
    → total ≡ offset + rest
    → first ≡ min page_size rest
    → rest ≤ page_size
short_of total offset first rest over size len = ground arith

enough :
    (fuel offset first rest all : ℕ)
    → leb all (offset + first) ≡ false
    → all < suc fuel + offset
    → first ≡ min page_size rest
    → rest ≡ all - offset
    → offset ≤ all
    → all < fuel + (offset + first)
enough fuel offset first rest all more f len size h = ground arith

drop-length-take : (n : ℕ) (l : List SessionMetadata) → drop (length (take n l)) l ≡ drop n l
drop-length-take zero l = refl
drop-length-take (suc n) [] = refl
drop-length-take (suc n) (x ∷ l) = drop-length-take n l

-- One round over a listing `all` from `offset` on.
round_finds :
    {X : Type 0} (sid : Text) (rest : List SessionMetadata) (total offset : ℕ) (next : Search X)
    → total ≡ offset + length rest
    → (leb total (offset + length (take page_size rest)) ≡ false
        → next ≡ from_find (find sid (drop page_size rest)))
    → search_round sid (take page_size rest) total offset next ≡ from_find (find sid rest)
unfolding find
round_finds sid rest total offset next size later = elim (Option-cases (find sid first)) [
  | inr (m, hit) ↦ rw (hit, whole, hit)
  | inl miss ↦ elim (Bool-cases (leb total (offset + length first))) [
    | inr more ↦ rw (miss, more, whole, miss) (later more)
    | inl over ↦
        let short =
          short_of total offset (length first) (length rest) over size
            (length-take page_size rest) in
        let all : first ≡ rest = take_all page_size rest short in
        rw (miss, over) (ap from_find (sym miss ∙ ap (find sid) all))
  ]
]
  where
    first : List SessionMetadata
    first = take page_size rest

    whole : find sid rest ≡ or_else (find sid first) (find sid (drop page_size rest))
    whole =
        ap (find sid) (sym (take-append-drop page_size rest))
        ∙ find-append sid first (drop page_size rest)

module _ {X : Type 0} (app user : Text) (entries : List SessionMetadata) where
  find_from :
      (sid : Text) (fuel offset : ℕ)
      → offset ≤ length (matched app user entries)
      → length (matched app user entries) < fuel + offset
      → find_session_metadata (listing {X = X} app user entries) sid fuel offset
        ≡ from_find (find sid (drop offset (matched app user entries)))
  unfolding find_session_metadata list_page
  find_from sid zero offset h f = absurd (omega arith)
  find_from sid (suc fuel) offset h f =
      let all = matched app user entries in
      let rest = drop offset all in
      let size : length rest ≡ length all - offset = length-drop offset all in
      let got = length-take page_size rest in
      let here : (list_page (request app user offset) entries).sessions ≡ take page_size rest =
        unfold list_page in page_at (request app user offset) all h in
      let next = find_session_metadata (listing {X = X} app user entries) sid fuel in
      ap
        (λ (l : List SessionMetadata).
          search_round sid l (length all) offset (next (offset + length l)))
        here
      ∙ round_finds sid rest (length all) offset (next (offset + length (take page_size rest)))
          (omega arith)
          λ more.
            find_from sid fuel (offset + length (take page_size rest)) (omega arith) (
              enough fuel offset (length (take page_size rest)) (length rest) (length all) more f
                got size h)
            ∙ ap (λ l. from_find (find sid l))
                (drop-add offset (length (take page_size rest)) all
                  ∙ drop-length-take page_size rest)

  memory_listing :
      is_empty app ≡ false
      → is_empty user ≡ false
      → (offset : ℕ)
      → memory_list {X = X} none (request app user offset) entries ≡ listing app user entries offset
  unfolding memory_list guarded validate_list_params
  memory_listing a u offset = ground arith

  pub find_session_metadata_lem :
      (sid : Text)
      → is_empty app ≡ false
      → is_empty user ≡ false
      → find_session_metadata
          (λ offset. memory_list {X = X} none (request app user offset) entries)
          sid
          (suc (length (matched app user entries)))
          0
        ≡ from_find (find sid (matched app user entries))
  find_session_metadata_lem sid a u =
      let fuel = suc (length (matched app user entries)) in
      ap (λ list. find_session_metadata list sid fuel 0) (λ i offset. memory_listing a u offset i)
      ∙ find_from sid fuel 0 (omega arith) (omega arith)
