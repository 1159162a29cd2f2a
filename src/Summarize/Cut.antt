-- ===== src/Summarize/Cut.antt =====
-- Where `Summarize` cuts a text.
use sonalmod.Base.{
  ℕ, zero, suc, ◌+◌, ◌≤◌, ◌<◌, ◌≡◌, refl, sym, ◌∙◌, ap, Bool, true, false, Option, none, some, [],
  ◌∷◌, ◌++◌, text, take, drop, length, length-take, take-append-drop, leb, nat_beq, nat_beq_iff,
  take-append, if_false, ◌⊎◌, inl, inr, if◌then◌else◌, arith, Option-cases, Bool-cases,
  length-append, append_assoc,
}
use mathlib.Core.Path.{subst}
use sonalmod.Summarize.Truncating.{
  Bytes, ℤ, pos, negsuc, TruncatingSummarizer, max_len_or_default, last_index_byte, cut_at,
  summarize,
}

unfoldable pub has_byte : Bytes → ℕ → Bool
has_byte [] c = false
has_byte (x ∷ s) c = if nat_beq x c then true else has_byte s c

last_index_byte-none : (s : Bytes) (c : ℕ) → last_index_byte s c ≡ none → has_byte s c ≡ false
unfolding last_index_byte has_byte
last_index_byte-none [] c h = refl
last_index_byte-none (x ∷ s) c h = ground (arith, last_index_byte-none s c)

-- The last place of a byte splits the text there, and the byte is not behind it.
last_index_byte-some :
    (s : Bytes) (c i : ℕ)
    → last_index_byte s c ≡ some i
    → (front : Bytes) × (tail : Bytes) × (s ≡ front ++ c ∷ tail)
      × (has_byte tail c ≡ false)
      × (length front ≡ i)
unfolding last_index_byte has_byte
last_index_byte-some [] c i h = cc
last_index_byte-some (x ∷ s) c i h = elim (Option-cases (last_index_byte s c)) [
  | inl e ↦
      let same : nat_beq x c ≡ true = ground arith in
      let first : zero ≡ i = ground arith in
      ([], s, ap (λ y. y ∷ s) ((nat_beq_iff x c).0 same), last_index_byte-none s c e, first)
  | inr (j, e) ↦
      let next : suc j ≡ i = ground arith in
      let (front, tail, parts, clean, size) = last_index_byte-some s c j e in
      (x ∷ front, tail, ap (λ l. x ∷ l) parts, clean, ap suc size ∙ next)
]

max_len_or_default_positive : (n : ℤ) → 1 ≤ max_len_or_default n
unfolding max_len_or_default
max_len_or_default_positive (negsuc n) = omega arith
max_len_or_default_positive (pos zero) = omega arith
max_len_or_default_positive (pos (suc n)) = omega arith

has_byte-drop : (s : Bytes) (c : ℕ) → has_byte s c ≡ false → has_byte (drop 1 s) c ≡ false
unfolding has_byte
has_byte-drop [] c h = refl
has_byte-drop (x ∷ s) c h = ground arith

first_place : (s : Bytes) (c : ℕ) → last_index_byte s c ≡ some zero → has_byte (drop 1 s) c ≡ false
unfolding last_index_byte
first_place [] c h = cc
first_place (x ∷ s) c h = elim (Option-cases (last_index_byte s c)) [
  | inl e ↦ last_index_byte-none s c e
  | inr (j, e) ↦ absurd (ground arith)
]

-- A text that is cut to at most `m` bytes: at its last space, or at `m` where there is no space
-- behind the first byte.
abbrev pub IsCut : ℕ → Bytes → Bytes → Type 0
IsCut m s out =
    (kept : Bytes) × (rest : Bytes) × (s ≡ kept ++ rest)
    × (out ≡ kept ++ text "...")
    × (1 ≤ length kept)
    × (((length kept ≡ m) × (has_byte (drop 1 kept) 32 ≡ false))
        ⊎ ((word : Bytes) × (tail : Bytes) × (rest ≡ 32 ∷ word ++ tail)
            × (has_byte word 32 ≡ false)
            × (suc (length kept + length word) ≡ m)))

cut_at-IsCut :
    (m : ℕ) (o : Option ℕ) (p r : Bytes)
    → length p ≡ m
    → 1 ≤ m
    → last_index_byte p 32 ≡ o
    → IsCut m (p ++ r) (cut_at o p (p ++ r))
cut_at-IsCut m none p r size big h =
    let clean = has_byte-drop p 32 (last_index_byte-none p 32 h) in
    (p, r, refl, refl, omega arith, inl (size, clean))
cut_at-IsCut m (some zero) p r size big h =
    (p, r, refl, refl, omega arith, inl (size, first_place p 32 h))
cut_at-IsCut m (some (suc i)) p r size big h =
    let (front, tail, parts, clean, here) = last_index_byte-some p 32 (suc i) h in
    let whole : p ++ r ≡ front ++ (32 ∷ tail ++ r) =
      ap (λ l. l ++ r) parts ∙ append_assoc front (32 ∷ tail) r in
    let taken : take (suc i) (p ++ r) ≡ front =
      ap (λ n. take n (p ++ r)) (sym here)
      ∙ ap (take (length front)) whole
      ∙ take-append front (32 ∷ tail ++ r) in
    let sizes : length front + suc (length tail) ≡ m =
      sym (length-append front (32 ∷ tail)) ∙ ap length (sym parts) ∙ size in
    (
      front,
      32 ∷ tail ++ r,
      whole,
      ap (λ l. l ++ text "...") taken,
      omega arith,
      inr (tail, r, refl, clean, omega arith),
    )

-- The whole text where it is short enough. Otherwise some of its bytes, at least one and at most
-- the greatest length, and an ellipsis: they end at the last space within that length or, where
-- none is behind the first byte, they have that length.
pub summarize_lem :
    (t : TruncatingSummarizer) (s : Bytes)
    → let m = max_len_or_default t.max_len in
      ((length s ≤ m) × (summarize t s ≡ s)) ⊎ ((m < length s) × IsCut m s (summarize t s))
unfolding summarize
summarize_lem t s = elim (Bool-cases (leb (length s) (max_len_or_default t.max_len))) [
  | inl short ↦ inl (ground arith, ground arith)
  | inr long ↦
      let m = max_len_or_default t.max_len in
      let size : length (take m s) ≡ m = ground (arith, length-take m s) in
      let place = last_index_byte (take m s) 32 in
      let cut : IsCut m s (cut_at place (take m s) s) =
        subst (λ z. IsCut m z (cut_at place (take m s) z)) (take-append-drop m s)
          (cut_at-IsCut m place (take m s) (drop m s) size (max_len_or_default_positive t.max_len)
            refl) in
      inr (
        ground arith,
        subst (IsCut m s) (sym (if_false (leb (length s) m) s (cut_at place (take m s) s) long))
            cut,
      )
]
