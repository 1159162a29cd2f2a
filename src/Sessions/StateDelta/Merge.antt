-- ===== src/Sessions/StateDelta/Merge.antt =====
-- `mergeStates` of file.go after `extractStateDeltas`.
use sonalmod.Base.{
  ◌≡◌, refl, sym, ◌∙◌, ap, Bool, true, false, Option, none, some, [], ◌∷◌, ◌++◌, Text, text_eq,
  ◌==◌, text_beq_iff, Dict, lookup, lookup-insert, cut_prefix, has_prefix, text_beq, Bool-cases,
  Option-cases, if_false, if_true, inl, inr, if◌then◌else◌, arith,
}
use sonalmod.Sessions.Prefixes.{cut_prefix_sound, prefix-mismatch, mismatch-prefix, prefix-cancel}
use sonalmod.Sessions.StateDelta.{Deltas, copy_under, place, extract_state_deltas, merge_states}

module _ {V : Type 0} where
  abbrev pub or_else : Option V → Option V → Option V
  or_else (some v) o = some v
  or_else none o = o

  pub lookup-copy_under-none :
      (p j : Text) (src dst : Dict Text V)
      → cut_prefix p j ≡ none
      → lookup j (copy_under p src dst) ≡ lookup j dst
  unfolding copy_under
  lookup-copy_under-none p j [] dst h = refl
  lookup-copy_under-none p j ((k, v) ∷ src) dst h =
      lookup-insert j (p ++ k) v (copy_under p src dst)
      ∙ if_false ((p ++ k) == j) (some v) (lookup j (copy_under p src dst))
          (prefix-mismatch p k j h)
      ∙ lookup-copy_under-none p j src dst h

  pub lookup-copy_under :
      (p j : Text) (src dst : Dict Text V)
      → lookup (p ++ j) (copy_under p src dst) ≡ or_else (lookup j src) (lookup (p ++ j) dst)
  unfolding copy_under lookup
  lookup-copy_under p j [] dst = refl
  lookup-copy_under p j ((k, v) ∷ src) dst = ground (
    arith,
    lookup-insert (p ++ j) (p ++ k) v (copy_under p src dst),
    prefix-cancel p k j,
    lookup-copy_under p j src dst,
  )

-- A key that is dropped: one with the prefix of temporary state and neither other prefix.
abbrev pub is_temporary : Text → Text → Text → Text → Bool
is_temporary app_prefix user_prefix temp_prefix j = elim (cut_prefix app_prefix j) [
  | some k ↦ false
  | none ↦ elim (cut_prefix user_prefix j) [ some k ↦ false | none ↦ has_prefix temp_prefix j ]
]

module _ {V : Type 0} where
  or_else-none : (o : Option V) → or_else o none ≡ o
  or_else-none (some v) = refl
  or_else-none none = refl

module _ {V : Type 0} (app_prefix user_prefix temp_prefix : Text) where
  extract-app :
      (k : Text) (d : Dict Text V)
      → lookup k (extract_state_deltas app_prefix user_prefix temp_prefix d).app
        ≡ lookup (app_prefix ++ k) d
  unfolding extract_state_deltas lookup
  extract-app k [] = refl
  extract-app k ((key, v) ∷ d) = elim (Option-cases (cut_prefix app_prefix key)) [
    | inr (stripped, hit) ↦
        let same = cut_prefix_sound app_prefix key stripped hit in
        let m =
          lookup-insert k stripped v
            (extract_state_deltas app_prefix user_prefix temp_prefix d).app in
        let c = prefix-cancel app_prefix stripped k in
        let keys = ap (λ t. text_beq t (app_prefix ++ k)) same in ground (arith, extract-app k d)
    | inl miss ↦
        let other = mismatch-prefix app_prefix k key miss in
        elim (Option-cases (cut_prefix user_prefix key)) [
          | inl u ↦ elim (Bool-cases (has_prefix temp_prefix key)) [
            | inl t ↦ ground (arith, extract-app k d, other)
            | inr t ↦ ground (arith, extract-app k d, other)
          ]
          | inr (stripped, u) ↦ ground (arith, extract-app k d, other)
        ]
  ]

  extract-user :
      (k : Text) (d : Dict Text V)
      → cut_prefix app_prefix (user_prefix ++ k) ≡ none
      → lookup k (extract_state_deltas app_prefix user_prefix temp_prefix d).user
        ≡ lookup (user_prefix ++ k) d
  unfolding extract_state_deltas lookup
  extract-user k [] h = refl
  extract-user k ((key, v) ∷ d) h = elim (Option-cases (cut_prefix app_prefix key)) [
    | inr (stripped, hit) ↦
        let same = cut_prefix_sound app_prefix key stripped hit in
        let other = ap (λ t. text_beq t (user_prefix ++ k)) same in
        let no = prefix-mismatch app_prefix stripped (user_prefix ++ k) h in
        ground (arith, extract-user k d h)
    | inl miss ↦ elim (Option-cases (cut_prefix user_prefix key)) [
      | inl u ↦
          let other = mismatch-prefix user_prefix k key u in
          elim (Bool-cases (has_prefix temp_prefix key)) [
            | inl t ↦ ground (arith, extract-user k d h, other)
            | inr t ↦ ground (arith, extract-user k d h, other)
          ]
      | inr (stripped, u) ↦
          let same = cut_prefix_sound user_prefix key stripped u in
          let m =
            lookup-insert k stripped v
              (extract_state_deltas app_prefix user_prefix temp_prefix d).user in
          let c = prefix-cancel user_prefix stripped k in
          let keys = ap (λ t. text_beq t (user_prefix ++ k)) same in
          ground (arith, extract-user k d h)
    ]
  ]

  -- What of a key is kept in the part of the session.
  abbrev pub kept : Option Text → Option Text → Bool → Option V → Option V
  kept none none false o = o
  kept none none true o = none
  kept none (some k) t o = none
  kept (some k) u t o = none

  kept-none : (ca cu : Option Text) (t : Bool) → none ≡ kept ca cu t none
  kept-none none none false = refl
  kept-none none none true = refl
  kept-none none (some k) t = refl
  kept-none (some k) u t = refl

  place_other :
      (ca cu : Option Text) (t : Bool) (key j : Text) (v : V) (d : Deltas V)
      → (key == j) ≡ false
      → lookup j (place ca cu t key v d).session ≡ lookup j d.session
  unfolding place
  place_other none none false key j v d e = ground (arith, lookup-insert j key v d.session)
  place_other none none true key j v d e = refl
  place_other none (some k) t key j v d e = refl
  place_other (some k) u t key j v d e = refl

  place_same :
      (ca cu : Option Text) (t : Bool) (key j : Text) (v : V) (d : Deltas V) (o : Option V)
      → (key == j) ≡ true
      → lookup j d.session ≡ kept ca cu t o
      → lookup j (place ca cu t key v d).session ≡ kept ca cu t (some v)
  unfolding place
  place_same none none false key j v d o e h = ground (arith, lookup-insert j key v d.session)
  place_same none none true key j v d o e h = h
  place_same none (some k) t key j v d o e h = h
  place_same (some k) u t key j v d o e h = h

  pub extract-session :
      (j : Text) (d : Dict Text V)
      → lookup j (extract_state_deltas app_prefix user_prefix temp_prefix d).session
        ≡ kept
            (cut_prefix app_prefix j)
            (cut_prefix user_prefix j)
            (has_prefix temp_prefix j)
            (lookup j d)
  unfolding extract_state_deltas lookup
  extract-session j [] =
      kept-none (cut_prefix app_prefix j) (cut_prefix user_prefix j) (has_prefix temp_prefix j)
  extract-session j ((key, v) ∷ d) =
      let ca = cut_prefix app_prefix key in
      let cu = cut_prefix user_prefix key in
      let t = has_prefix temp_prefix key in
      let parts = extract_state_deltas app_prefix user_prefix temp_prefix d in
      elim (Bool-cases (key == j)) [
        | inr e ↦
            let step = place_other ca cu t key j v parts e in ground (arith, extract-session j d)
        | inl e ↦
            let equal = (text_beq_iff key j).0 e in
            let ih =
              extract-session j d
              ∙ ap
                  (λ x.
                    kept (cut_prefix app_prefix x) (cut_prefix user_prefix x)
                      (has_prefix temp_prefix x) (lookup j d))
                  (sym equal) in
            let step = place_same ca cu t key j v parts (lookup j d) e ih in
            step
            ∙ ap
                (λ x.
                  kept (cut_prefix app_prefix x) (cut_prefix user_prefix x)
                    (has_prefix temp_prefix x) (some v))
                equal
            ∙ ap
                (kept (cut_prefix app_prefix j) (cut_prefix user_prefix j)
                  (has_prefix temp_prefix j))
                (sym (if_true (key == j) (some v) (lookup j d) e))
      ]

  -- If no key with the prefix of user state has the prefix of application state too, splitting a
  -- state delta into its three parts and merging them gives at each key what the delta has there,
  -- but nothing at a key of temporary state.
  pub merge_states-extract_state_deltas :
      (j : Text) (d : Dict Text V)
      → ((k : Text) → cut_prefix app_prefix (user_prefix ++ k) ≡ none)
      → lookup j (
          merge_states app_prefix user_prefix temp_prefix
            (extract_state_deltas app_prefix user_prefix temp_prefix d).app
            (extract_state_deltas app_prefix user_prefix temp_prefix d).user
            (extract_state_deltas app_prefix user_prefix temp_prefix d).session)
        ≡ (if is_temporary app_prefix user_prefix temp_prefix j then none else lookup j d)
  unfolding merge_states
  merge_states-extract_state_deltas j d apart =
      let parts = extract_state_deltas app_prefix user_prefix temp_prefix d in
      let inner = copy_under app_prefix parts.app parts.session in
      let at_session = extract-session j d in
      elim (Option-cases (cut_prefix user_prefix j)) [
        | inr (k, u) ↦
            let same = cut_prefix_sound user_prefix j k u in
            let no_app = ap (cut_prefix app_prefix) same ∙ apart k in
            let outer = lookup-copy_under user_prefix k parts.user inner in
            let below = lookup-copy_under-none app_prefix j parts.app parts.session no_app in
            let at_user = extract-user k d (apart k) in
            let whole = or_else-none (lookup j d) in ground arith
        | inl u ↦ elim (Option-cases (cut_prefix app_prefix j)) [
          | inr (k, a) ↦
              let same = cut_prefix_sound app_prefix j k a in
              let outer = lookup-copy_under-none user_prefix j parts.user inner u in
              let below = lookup-copy_under app_prefix k parts.app parts.session in
              let at_app = extract-app k d in let whole = or_else-none (lookup j d) in ground arith
          | inl a ↦
              let outer = lookup-copy_under-none user_prefix j parts.user inner u in
              let below = lookup-copy_under-none app_prefix j parts.app parts.session a in
              elim (Bool-cases (has_prefix temp_prefix j)) [
                | inl t ↦ ground arith
                | inr t ↦ ground arith
              ]
        ]
      ]
