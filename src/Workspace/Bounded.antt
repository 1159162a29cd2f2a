-- ===== src/Workspace/Bounded.antt =====
-- What a read returns fits its limit.
use sonalmod.Base.{ℕ, ◌≤◌, ◌≡◌, Bool, true, false, ◌&&◌, some, Text, text_eq, lookup, length}
use sonalmod.Workspace.Lines.{IsSelected}
use sonalmod.Workspace.Paths.{split_on, join_on, add_char}
use sonalmod.Summarize.Truncating.{pos}
use sonalmod.Workspace.Paths
use sonalmod.Workspace.Read.{contents, Root, Service, ReadTextFileRequest, given, negative}

-- The limits on lines that the guards let through.
record IsAllowed (req : ReadTextFileRequest) : Type 0 where
  not_both : (given req.head && given req.tail) ≡ false
  head : negative req.head ≡ false
  tail : negative req.tail ≡ false

module _ {X : Type 0} where
  -- What a read that succeeds found, and what it returns of it.
  abbrev pub IsRead :
      (Text → Bool) → Service X → ReadTextFileRequest → Root X → Text → Text → Type 0
  IsRead valid s req root name out =
      (m : ℕ) × (data_ : Text) × (s.max_read_bytes ≡ pos m)
      × (lookup name root ≡ some (contents data_))
      × (valid data_ ≡ true)
      × IsSelected req.head req.tail data_ out
      × (length data_ ≤ m)
      × (length out ≤ m)
