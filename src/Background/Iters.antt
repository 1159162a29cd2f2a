-- ===== src/Background/Iters.antt =====
-- `iter.Seq2[*SessionEvent, error]` as the list of what it yields to a consumer that never stops
-- it; a consumer that stops sees a first part of the list.
use sonalmod.Base.{
  ℕ, zero, suc, ◌≡◌, refl, ap, Option, none, some, List, [], ◌∷◌, ◌++◌, length, take,
}

pub data Item (E X : Type 0) : Type 0 where
  event : E → Item E X
  failure : X → Item E X

module _ {E X : Type 0} where
  -- `sliceToIter`
  unfoldable pub slice_to_iter : List E → List (Item E X)
  slice_to_iter [] = []
  slice_to_iter (e ∷ l) = event e ∷ slice_to_iter l

  -- `materializePrefix`: at most `n` events, up to the first error.
  unfoldable pub materialize_prefix : List (Item E X) → ℕ → List E
  materialize_prefix l zero = []
  materialize_prefix [] (suc n) = []
  materialize_prefix (failure x ∷ l) (suc n) = []
  materialize_prefix (event e ∷ l) (suc n) = e ∷ materialize_prefix l n

  -- One loop of `chainIters`, then what follows it: an error is yielded and ends the stream.
  unfoldable pub up_to_failure : List (Item E X) → List (Item E X) → List (Item E X)
  up_to_failure [] next = next
  up_to_failure (event e ∷ l) next = event e ∷ up_to_failure l next
  up_to_failure (failure x ∷ l) next = failure x ∷ []

  -- `chainIters`
  unfoldable pub chain_iters : List (Item E X) → List (Item E X) → List (Item E X)
  unfolding up_to_failure
  chain_iters first second = up_to_failure first (up_to_failure second [])

  -- The count at the start of `Run`: the events up to the first error.
  unfoldable pub count_events : List (Item E X) → ℕ
  count_events [] = 0
  count_events (event e ∷ l) = suc (count_events l)
  count_events (failure x ∷ l) = 0

  -- An optional last error.
  abbrev pub final_items : Option X → List (Item E X)
  final_items none = []
  final_items (some x) = failure x ∷ []

module _ {E : Type 0} (X : Type 0) where
  pub count_events-slice : (l : List E) → count_events (slice_to_iter {X = X} l) ≡ length l
  unfolding count_events slice_to_iter
  count_events-slice [] = refl
  count_events-slice (e ∷ l) = ap suc (count_events-slice l)

  pub materialize_prefix-slice :
      (l : List E) (n : ℕ) → materialize_prefix (slice_to_iter {X = X} l) n ≡ take n l
  unfolding materialize_prefix slice_to_iter
  materialize_prefix-slice l zero = refl
  materialize_prefix-slice [] (suc n) = refl
  materialize_prefix-slice (e ∷ l) (suc n) = ap (λ r. e ∷ r) (materialize_prefix-slice l n)

  pub slice-append :
      (k l : List E) → slice_to_iter (k ++ l) ≡ slice_to_iter {X = X} k ++ slice_to_iter l
  unfolding slice_to_iter
  slice-append [] l = refl
  slice-append (e ∷ k) l = ap (λ r. event e ∷ r) (slice-append k l)

module _ {E X : Type 0} where
  pub up_to_failure-slice :
      (l : List E) (next : List (Item E X))
      → up_to_failure (slice_to_iter l) next ≡ slice_to_iter l ++ next
  unfolding up_to_failure slice_to_iter
  up_to_failure-slice [] next = refl
  up_to_failure-slice (e ∷ l) next = ap (λ r. event e ∷ r) (up_to_failure-slice l next)

  pub up_to_failure-final :
      (l : List E) (err : Option X)
      → up_to_failure (slice_to_iter l ++ final_items err) [] ≡ slice_to_iter l ++ final_items err
  unfolding up_to_failure slice_to_iter
  up_to_failure-final [] none = refl
  up_to_failure-final [] (some x) = refl
  up_to_failure-final (e ∷ l) err = ap (λ r. event e ∷ r) (up_to_failure-final l err)
