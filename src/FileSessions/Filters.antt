-- ===== src/FileSessions/Filters.antt =====
-- The filters of `Get`: its binary search against a plain filter.
use sonalmod.Base.{
  ℕ, zero, suc, ◌+◌, ◌-◌, ◌/◌, ◌≤◌, ◌<◌, ◌≡◌, refl, ◌∙◌, ap, false, not, some, List, [], ◌∷◌,
  length, drop, keep, ltb, if◌then◌else◌, arith, Bool-cases, inl, inr, All,
}
use sonalmod.FileSessions.Disk.{Event}
use sonalmod.FileSessions.Service.{is_before, search_from, not_before}

module _ {V P : Type 0} where
  -- In the order of time, as events are appended.
  abbrev pub IsChronological : List (Event V P) → Type 0
  IsChronological [] = Unit
  IsChronological (e ∷ l) = All (λ f. e.timestamp ≤ f.timestamp) l × IsChronological l

  -- How many events come first that are before a time.
  leading : ℕ → List (Event V P) → ℕ
  leading t [] = 0
  leading t (e ∷ l) = let n = suc (leading t l) in if ltb e.timestamp t then n else 0

  leading_late :
      (t low : ℕ) (l : List (Event V P))
      → All (λ f. low ≤ f.timestamp) l
      → ltb low t ≡ false
      → leading t l ≡ 0
  unfolding leading
  leading_late t low [] later h = refl
  leading_late t low (e ∷ l) later h = ground arith

  keep_late :
      (t low : ℕ) (l : List (Event V P))
      → All (λ f. low ≤ f.timestamp) l
      → ltb low t ≡ false
      → keep (λ e. not (ltb e.timestamp t)) l ≡ l
  keep_late t low [] later h = refl
  keep_late t low (e ∷ l) later h = ground (arith, keep_late t low l later.1 h)

  leading-le : (t : ℕ) (l : List (Event V P)) → leading t l ≤ length l
  unfolding leading
  leading-le t [] = omega arith
  leading-le t (e ∷ l) = ground (arith, leading-le t l)

  before_at :
      (t m : ℕ) (l : List (Event V P))
      → IsChronological l
      → m < length l
      → is_before t (drop m l) ≡ ltb m (leading t l)
  unfolding leading
  before_at t m [] order h = absurd (omega arith)
  before_at t zero (e ∷ l) order h = ground arith
  before_at t (suc m) (e ∷ l) order h =
      ground (arith, before_at t m l order.1, leading_late t e.timestamp l order.0)

  search_from_lem :
      (t : ℕ) (l : List (Event V P)) (fuel low high : ℕ)
      → IsChronological l
      → low ≤ leading t l
      → leading t l ≤ high
      → high ≤ length l
      → high - low ≤ fuel
      → search_from t l fuel low high ≡ leading t l
  unfolding search_from
  search_from_lem t l zero low high order a b c f = omega arith
  search_from_lem t l (suc fuel) low high order a b c f =
      let middle = (low + high) / 2 in
      elim (Bool-cases (ltb low high)) [
        | inr done ↦ ground arith
        | inl more ↦
            let here = before_at t middle l order (ground arith) in
            elim (Bool-cases (is_before t (drop middle l))) [
              | inl e ↦
                  rw (more, e)
                    (search_from_lem t l fuel (middle + 1) high order (ground arith) b c
                      (ground arith))
              | inr e ↦
                  rw (more, e)
                    (search_from_lem t l fuel low middle order a (ground arith) (ground arith)
                      (ground arith))
            ]
      ]

  drop-leading :
      (t : ℕ) (l : List (Event V P))
      → IsChronological l
      → drop (leading t l) l ≡ keep (λ e. not (ltb e.timestamp t)) l
  unfolding leading
  drop-leading t [] order = refl
  drop-leading t (e ∷ l) order =
      ground (arith, drop-leading t l order.1, keep_late t e.timestamp l order.0)

  -- On events in the order of time, the search of `Get` for a first event that is not before a
  -- time leaves the events that are not before it, all of them and in order.
  pub not_before_lem :
      (t : ℕ) (l : List (Event V P))
      → IsChronological l
      → not_before (some t) l ≡ keep (λ e. not (ltb e.timestamp t)) l
  unfolding not_before
  not_before_lem t l order =
      ap (λ n. drop n l)
        (search_from_lem t l (length l) 0 (length l) order (omega arith) (leading-le t l)
          (omega arith) (omega arith))
      ∙ drop-leading t l order
