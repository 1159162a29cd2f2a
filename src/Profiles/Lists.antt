-- ===== src/Profiles/Lists.antt =====
-- The two loops over lists of texts.
use sonalmod.Base.{
  ◌≡◌, sym, ◌∙◌, ap, false, inl, inr, List, [], ◌∷◌, ◌++◌, append-nil, append_assoc, Text, is_empty,
  trim_space, trim_space_idem, Bool-cases, arith,
}
use sonalmod.Profiles.Defs.{ok, contains, contains_control_chars, collect_tool_refs, collect_args}

-- Texts that are trimmed, not empty, and none of the earlier ones.
abbrev pub IsFresh : List Text → List Text → Type 0
IsFresh acc [] = Unit
IsFresh acc (t ∷ l) =
    (trim_space t ≡ t) × (is_empty t ≡ false) × (contains acc t ≡ false) × IsFresh (acc ++ t ∷ []) l

-- The same, without control characters.
abbrev pub IsFreshArgs : List Text → List Text → Type 0
IsFreshArgs acc [] = Unit
IsFreshArgs acc (t ∷ l) =
    (trim_space t ≡ t)
    × (is_empty t ≡ false)
    × (contains_control_chars t ≡ false)
    × (contains acc t ≡ false)
    × IsFreshArgs (acc ++ t ∷ []) l

pub collect_tool_refs_sound :
    (l acc out : List Text)
    → collect_tool_refs l acc ≡ ok out
    → (k : List Text) × (out ≡ acc ++ k) × IsFresh acc k
unfolding collect_tool_refs
collect_tool_refs_sound [] acc out h = ([], ground (arith, append-nil acc), tt)
collect_tool_refs_sound (ref ∷ l) acc out h = elim (Bool-cases (is_empty (trim_space ref))) [
  | inl e ↦ absurd (ground arith)
  | inr e ↦ elim (Bool-cases (contains acc (trim_space ref))) [
    | inl old ↦ collect_tool_refs_sound l acc out (ground arith)
    | inr new ↦
        let t = trim_space ref in
        let r = collect_tool_refs_sound l (acc ++ t ∷ []) out (ground arith) in
        (t ∷ r.0, r.1 ∙ append_assoc acc (t ∷ []) r.0, (trim_space_idem ref, e, new, r.2))
  ]
]

pub collect_tool_refs_fixed :
    (l acc : List Text) → IsFresh acc l → collect_tool_refs l acc ≡ ok (acc ++ l)
unfolding collect_tool_refs
collect_tool_refs_fixed [] acc h = ap ok (sym (append-nil acc))
collect_tool_refs_fixed (t ∷ l) acc h =
    ground (arith, collect_tool_refs_fixed l (acc ++ t ∷ []) h.3, append_assoc acc (t ∷ []) l)

pub collect_args_sound :
    (l acc out : List Text)
    → collect_args l acc ≡ ok out
    → (k : List Text) × (out ≡ acc ++ k) × IsFreshArgs acc k
unfolding collect_args
collect_args_sound [] acc out h = ([], ground (arith, append-nil acc), tt)
collect_args_sound (arg ∷ l) acc out h = elim (Bool-cases (is_empty (trim_space arg))) [
  | inl e ↦ absurd (ground arith)
  | inr e ↦
      let t = trim_space arg in
      let clean : contains_control_chars t ≡ false = ground arith in
      let new : contains acc t ≡ false = ground arith in
      let r = collect_args_sound l (acc ++ t ∷ []) out (ground arith) in
      (t ∷ r.0, r.1 ∙ append_assoc acc (t ∷ []) r.0, (trim_space_idem arg, e, clean, new, r.2))
]

pub collect_args_fixed :
    (l acc : List Text) → IsFreshArgs acc l → collect_args l acc ≡ ok (acc ++ l)
unfolding collect_args
collect_args_fixed [] acc h = ap ok (sym (append-nil acc))
collect_args_fixed (t ∷ l) acc h =
    ground (arith, collect_args_fixed l (acc ++ t ∷ []) h.4, append_assoc acc (t ∷ []) l)
