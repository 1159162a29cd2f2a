-- ===== src/Auth/Distinct.antt =====
-- Maps of users with distinct names.
use sonalmod.Base.{
  ◌≡◌, refl, sym, ◌∙◌, ap, false, Option, none, some, [], ◌∷◌, Text, text_eq, ◌==◌, text_beq_iff,
  lookup, insert, lookup-insert, ◌⊎◌, inl, inr, arith, Bool-cases,
}
use sonalmod.Auth.UserStore.{
  User, Users, err, user_not_found, users_of, list, find_username, found_or, get_by_username,
}

module _ {X : Type 0} where
  -- Each user lies in the file of the user's id, and no two have one name.
  pub record IsSound (users : Users X) : Type 0 where
    pub own_id : (i : Text) (u : User) → lookup i users ≡ some (inr u) → u.id ≡ i
    pub unique :
        (i j : Text) (u v : User)
        → lookup i users ≡ some (inr u)
        → lookup j users ≡ some (inr v)
        → u.username ≡ v.username
        → i ≡ j

  abbrev pub all_read : Text → Option X
  all_read i = none

  -- A name that `List` does not show is of no user.
  pub find_username-none :
      (name : Text) (users : Users X)
      → find_username name (users_of all_read users) ≡ none
      → (i : Text) (u : User) → lookup i users ≡ some (inr u)
      → (u.username == name) ≡ false
  unfolding find_username users_of lookup
  find_username-none name [] h i u there = cc
  find_username-none name ((j, inl x) ∷ users) h i u there =
      let rest : lookup i users ≡ some (inr u) = ground arith in
      find_username-none name users h i u rest
  find_username-none name ((j, inr v) ∷ users) h i u there = elim (Bool-cases (j == i)) [
    | inl same ↦
        let this : v ≡ u = ground arith in ap (λ w. w.username == name) (sym this) ∙ ground arith
    | inr other ↦
        let rest : lookup i users ≡ some (inr u) = ground arith in
        let absent : find_username name (users_of all_read users) ≡ none = ground arith in
        find_username-none name users absent i u rest
  ]

  -- What a lookup finds after a write of a user under the user's id.
  lookup_written :
      (i : Text) (u v : User) (users : Users X)
      → lookup i (insert u.id (inr u) users) ≡ some (inr v)
      → ((i ≡ u.id) × (v ≡ u)) ⊎ (((u.id == i) ≡ false) × (lookup i users ≡ some (inr v)))
  lookup_written i u v users h =
      let there = lookup-insert i u.id (inr u) users in
      elim (Bool-cases (u.id == i)) [
        | inl same ↦ inl (sym ((text_beq_iff u.id i).0 same), ground arith)
        | inr other ↦ inr (other, ground arith)
      ]

  -- A user may be written whose name no user of another id has.
  pub insert-IsSound :
      (u : User) (users : Users X)
      → IsSound users
      → ((i : Text) (v : User)
          → (u.id == i) ≡ false
          → lookup i users ≡ some (inr v)
          → (v.username == u.username) ≡ false)
      → IsSound (insert u.id (inr u) users)
  insert-IsSound u users s free = record { own_id = own; unique = one }
    where
      own : (i : Text) (v : User) → lookup i (insert u.id (inr u) users) ≡ some (inr v) → v.id ≡ i
      own i v h = elim (lookup_written i u v users h) [
        | inl (at, same) ↦ ap (λ w. w.id) same ∙ sym at
        | inr (other, there) ↦ s.own_id i v there
      ]

      clash :
          (i : Text) (v : User)
          → (u.id == i) ≡ false
          → lookup i users ≡ some (inr v)
          → v.username ≡ u.username
          → ⊥
      clash i v other there same =
          cc (sym (free i v other there) ∙ (text_beq_iff v.username u.username).1 same)

      one :
          (i j : Text) (v w : User)
          → lookup i (insert u.id (inr u) users) ≡ some (inr v)
          → lookup j (insert u.id (inr u) users) ≡ some (inr w)
          → v.username ≡ w.username
          → i ≡ j
      one i j v w h k same = elim (lookup_written i u v users h) [
        | inl (at, this) ↦ elim (lookup_written j u w users k) [
          | inl (at2, this2) ↦ at ∙ sym at2
          | inr (other, there) ↦
              absurd (clash j w other there (sym same ∙ ap (λ z. z.username) this))
        ]
        | inr (other, there) ↦ elim (lookup_written j u w users k) [
          | inl (at2, this2) ↦ absurd (clash i v other there (same ∙ ap (λ z. z.username) this2))
          | inr (other2, there2) ↦ s.unique i j v w there there2 same
        ]
      ]

  pub get_by_username-absent :
      (unlisted : Option X) (name : Text) (users : Users X)
      → get_by_username unlisted all_read name users ≡ err user_not_found
      → find_username name (users_of all_read users) ≡ none
  unfolding get_by_username list
  get_by_username-absent none name users h =
      found_or-absent (find_username name (users_of all_read users)) h
    where
      found_or-absent : (o : Option User) → found_or {X = X} o ≡ err user_not_found → o ≡ none
      found_or-absent none e = refl
      found_or-absent (some u) e = cc
  get_by_username-absent (some x) name users h = cc

  pub find_username-insert :
      (u : User) (users : Users X)
      → find_username u.username (users_of all_read users) ≡ none
      → find_username u.username (users_of all_read (insert u.id (inr u) users)) ≡ some u
  unfolding find_username users_of insert
  find_username-insert u [] h = ground (arith, (text_beq_iff u.username u.username).1 refl)
  find_username-insert u ((j, inl x) ∷ users) h =
      ground (arith, (text_beq_iff u.username u.username).1 refl, find_username-insert u users h)
  find_username-insert u ((j, inr v) ∷ users) h =
      let absent : find_username u.username (users_of all_read users) ≡ none = ground arith in
      ground
        (arith, (text_beq_iff u.username u.username).1 refl, find_username-insert u users absent)
