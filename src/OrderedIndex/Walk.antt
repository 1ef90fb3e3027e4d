-- ===== src/OrderedIndex/Walk.antt =====
-- Reading all pages of a listing of internal/orderedindex/orderedindex.go, each behind the last row
-- of the one before.
use pgstore.Prelude.{
  ℕ, zero, suc, ◌≡◌, ◌≤◌, ◌<◌, refl, ap, ◌∙◌, Bool, Option, none, some, List, [], ◌∷◌, ◌++◌, length,
  drop, take, last, arith, inl, inr, Bool-cases, ltb, if◌then◌else◌,
}
use pgstore.OrderedIndex.Keyset.{IsTotalOrder, IsKeyed, behind_position, page_after}

module _ {A : Type 0} where
  pub take-append-drop : (n : ℕ) (xs : List A) → take n xs ++ drop n xs ≡ xs
  unfolding take
  take-append-drop zero xs = refl
  take-append-drop (suc n) [] = refl
  take-append-drop (suc n) (x ∷ xs) = ap (λ ys. x ∷ ys) (take-append-drop n xs)

  pub take-take : (n : ℕ) (xs : List A) → take n (take (suc n) xs) ≡ take n xs
  unfolding take
  take-take zero xs = refl
  take-take (suc n) [] = refl
  take-take (suc n) (x ∷ xs) = ap (λ ys. x ∷ ys) (take-take n xs)

  -- The row beyond the limit tells whether there are more.
  pub more : (n : ℕ) (xs : List A) → ltb n (length (take (suc n) xs)) ≡ ltb n (length xs)
  unfolding take
  more zero [] = refl
  more zero (x ∷ xs) = ground arith
  more (suc n) [] = refl
  more (suc n) (x ∷ xs) = ground (arith, more n xs)

  pub take-all : (n : ℕ) (xs : List A) → length xs ≤ n → take n xs ≡ xs
  unfolding take
  take-all zero [] h = refl
  take-all zero (x ∷ xs) h = absurd (omega arith)
  take-all (suc n) [] h = refl
  take-all (suc n) (x ∷ xs) h = ap (λ ys. x ∷ ys) (take-all n xs (omega arith))

  pub last-some :
      (n : ℕ) (xs : List A) → 0 < n → 0 < length xs → (x : A) × (last (take n xs) ≡ some x)
  unfolding take
  last-some zero xs p h = absurd (omega arith)
  last-some (suc n) [] p h = absurd (omega arith)
  last-some (suc zero) (x ∷ xs) p h = (x, refl)
  last-some (suc (suc n)) (x ∷ []) p h = (x, refl)
  last-some (suc (suc n)) (x ∷ y ∷ ys) p h = last-some (suc n) (y ∷ ys) (omega arith) (omega arith)

  pub length-drop : (n : ℕ) (xs : List A) → 0 < n → 0 < length xs → length (drop n xs) < length xs
  length-drop zero xs p h = absurd (omega arith)
  length-drop (suc n) [] p h = absurd (omega arith)
  length-drop (suc zero) (x ∷ xs) p h = omega arith
  length-drop (suc (suc n)) (x ∷ []) p h = omega arith
  length-drop (suc (suc n)) (x ∷ y ∷ ys) p h =
      let shorter = length-drop (suc n) (y ∷ ys) (omega arith) (omega arith) in
      omega (arith, shorter)

module _ {A K : Type 0} (fetch : Option K → List A) (key : A → K) (limit : ℕ) where
  abbrev next : Option A → Option K
  next none = none
  next (some x) = some (key x)

  -- The rows of the pages, as a caller gets them who goes on as long as there is a cursor, for so
  -- many pages.
  unfoldable pub walk : ℕ → Option K → List A
  walk zero position = []
  walk (suc pages) position =
      let rows = fetch position in
      let rest = walk pages (next (last (take limit rows))) in
      if ltb limit (length rows) then take limit rows ++ rest else rows

module _ {A K : Type 0} (key : A → K) (le : K → K → Bool) (order : IsTotalOrder le) (xs : List A)
    (keyed : IsKeyed key le order xs) (limit : ℕ) (positive : 0 < limit) where
  -- A page statement with its limit.
  abbrev pub page_of_position : Option K → List A
  page_of_position position = take (suc limit) (behind_position key le order position xs)

  -- The pages put together are the whole listing.
  pub walk-all :
      (pages : ℕ) (position : Option K)
      → length (behind_position key le order position xs) < pages
      → walk page_of_position key limit pages position ≡ behind_position key le order position xs
  unfolding walk
  walk-all zero position h = absurd (omega arith)
  walk-all (suc pages) position h =
      let rows = behind_position key le order position xs in
      elim (Bool-cases (ltb limit (length rows))) [
        | inl e ↦
            let (x, found) = last-some limit rows positive (ground (arith, e)) in
            let rest = page_after key le order limit position xs x keyed found in
            let shorter = length-drop limit rows positive (ground (arith, e)) in
            let later = walk-all pages (some (key x)) (rw rest (omega (arith, shorter))) in
            rw (more limit rows, e, take-take limit rows, found)
              (ap (λ ys. take limit rows ++ ys) (later ∙ rest) ∙ take-append-drop limit rows)
        | inr e ↦ rw (more limit rows, e) (take-all (suc limit) rows (ground (arith, e)))
      ]
