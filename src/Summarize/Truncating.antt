-- ===== src/Summarize/Truncating.antt =====
-- `NewTruncatingSummarizer` and `Summarize`. A text is the list of its bytes.
use sonalmod.Base.{
  ℕ, zero, suc, Option, none, some, List, [], ◌∷◌, ◌++◌, text, take, length, leb, nat_beq,
  if◌then◌else◌,
}

abbrev pub Bytes : Type 0
Bytes = List ℕ

-- `int`
pub data ℤ : Type 0 where
  pos negsuc : ℕ → ℤ

-- `TruncatingSummarizer`
pub record TruncatingSummarizer : Type 0 where
  pub max_len : ℤ

-- `WithTruncatingSummarizerMaxLen`
abbrev pub with_max_len : ℤ → TruncatingSummarizer → TruncatingSummarizer
with_max_len n t = record { max_len = n }

abbrev pub default_max_len : ℕ
default_max_len = 50

-- A length that is positive, or the default.
unfoldable pub max_len_or_default : ℤ → ℕ
max_len_or_default (negsuc n) = default_max_len
max_len_or_default (pos zero) = default_max_len
max_len_or_default (pos (suc n)) = suc n

-- The loop over the options; a nil option is passed over.
unfoldable pub apply_options :
    List (Option (TruncatingSummarizer → TruncatingSummarizer))
    → TruncatingSummarizer
    → TruncatingSummarizer
apply_options [] t = t
apply_options (none ∷ opts) t = apply_options opts t
apply_options (some opt ∷ opts) t = apply_options opts (opt t)

-- `NewTruncatingSummarizer`
unfoldable pub new_truncating_summarizer :
    List (Option (TruncatingSummarizer → TruncatingSummarizer)) → TruncatingSummarizer
unfolding apply_options max_len_or_default
new_truncating_summarizer opts =
    let t = apply_options opts (record { max_len = pos 0 }) in
    record { max_len = pos (max_len_or_default t.max_len) }

-- `strings.LastIndexByte`, with `none` for -1.
unfoldable pub last_index_byte : Bytes → ℕ → Option ℕ
last_index_byte [] c = none
last_index_byte (x ∷ s) c =
    let rest = last_index_byte s c in
    elim rest [ some i ↦ some (suc i) | none ↦ if nat_beq x c then some 0 else none ]

-- The cut text, by the place of the last space.
abbrev pub cut_at : Option ℕ → Bytes → Bytes → Bytes
cut_at none prefix s = prefix ++ text "..."
cut_at (some zero) prefix s = prefix ++ text "..."
cut_at (some (suc i)) prefix s = take (suc i) s ++ text "..."

-- `Summarize`
unfoldable pub summarize : TruncatingSummarizer → Bytes → Bytes
unfolding max_len_or_default last_index_byte
summarize t s =
    let max_len = max_len_or_default t.max_len in
    if leb (length s) max_len
    then s
    else cut_at (last_index_byte (take max_len s) 32) (take max_len s) s
