-- ===== src/OrderedIndex/Keyset.antt =====
-- Keyset pages of internal/orderedquery/orderedquery.go: what follows the last row of a page is what
-- the page has left out.
use pgstore.Prelude.{
  ℕ, zero, suc, subst, ◌≡◌, ◌≢◌, refl, sym, ap, ◌∙◌, Bool, true, false, not, Option, none, some,
  List, [], ◌∷◌, drop, keep, take, last, All, arith, inl, inr, Bool-cases, if◌then◌else◌, All-if,
  All-keep, All-map, All-take, keep-and, keep-passes, keep_every, last-All, last-cases, drop-all,
}
use pgstore.OrderedIndex.Query.{insert_by, order_by, is_after}

pub record IsTotalOrder {K : Type 0} (le : K → K → Bool) : Type 0 where
  pub trans : (a b c : K) → le a b ≡ true → le b c ≡ true → le a c ≡ true
  pub total : (a b : K) → le a b ≡ false → le b a ≡ true
  pub antisymm : (a b : K) → le a b ≡ true → le b a ≡ true → a ≡ b

module _ {A K : Type 0} (key : A → K) (le : K → K → Bool) (order : IsTotalOrder le) where
  -- Strictly before.
  abbrev Lt : A → A → Type 0
  Lt x y = le (key y) (key x) ≡ false

  -- In strictly ascending order.
  abbrev pub IsAscending : List A → Type 0
  IsAscending [] = Unit
  IsAscending (x ∷ xs) = All (Lt x) xs × IsAscending xs

  -- No two entries have the same key.
  abbrev pub IsKeyed : List A → Type 0
  IsKeyed [] = Unit
  IsKeyed (x ∷ xs) = All (λ y. key x ≢ key y) xs × IsKeyed xs

  All-insert_by :
      (P : A → Type 0) (x : A) (xs : List A) → P x → All P xs → All P (insert_by key le x xs)
  unfolding insert_by
  All-insert_by P x [] p q = (p, tt)
  All-insert_by P x (y ∷ ys) p q =
      All-if P (le (key x) (key y)) _ _ (λ _. (p, q)) λ _. (q.0, All-insert_by P x ys p q.1)

  pub All-order_by : (P : A → Type 0) (xs : List A) → All P xs → All P (order_by key le xs)
  unfolding order_by
  All-order_by P [] p = tt
  All-order_by P (x ∷ xs) p = All-insert_by P x (order_by key le xs) p.0 (All-order_by P xs p.1)

  less : (a b : K) → le a b ≡ true → a ≢ b → le b a ≡ false
  less a b h n = elim (Bool-cases (le b a)) [
    | inl e ↦ absurd (n (order.antisymm a b h e))
    | inr e ↦ e
  ]

  less_trans : (a b c : K) → le b a ≡ false → le c b ≡ false → le c a ≡ false
  less_trans a b c h k = elim (Bool-cases (le c a)) [
    | inl e ↦ let bad : le b a ≡ true = order.trans b c a (order.total c b k) e in absurd (cc)
    | inr e ↦ e
  ]

  behind :
      (x y : A) (ys : List A)
      → le (key x) (key y) ≡ true
      → key x ≢ key y
      → All (Lt y) ys
      → All (Lt x) ys
  behind x y ys e n =
      All-map (Lt y) (Lt x) ys
        λ z h. less_trans (key x) (key y) (key z) (less (key x) (key y) e n) h

  insert_by-IsAscending :
      (x : A) (xs : List A)
      → All (λ y. key x ≢ key y) xs
      → IsAscending xs
      → IsAscending (insert_by key le x xs)
  unfolding insert_by
  insert_by-IsAscending x [] n s = (tt, tt)
  insert_by-IsAscending x (y ∷ ys) n s = elim (Bool-cases (le (key x) (key y))) [
    | inl e ↦ rw e ((less (key x) (key y) e n.0, behind x y ys e n.0 s.0), s)
    | inr e ↦ rw e (All-insert_by (Lt y) x ys e s.0, insert_by-IsAscending x ys n.1 s.1)
  ]

  pub order_by-IsAscending : (xs : List A) → IsKeyed xs → IsAscending (order_by key le xs)
  unfolding order_by
  order_by-IsAscending [] n = tt
  order_by-IsAscending (x ∷ xs) n =
      insert_by-IsAscending x (order_by key le xs) (All-order_by (λ y. key x ≢ key y) xs n.0)
        (order_by-IsAscending xs n.1)

  pub keep-IsKeyed : (f : A → Bool) (xs : List A) → IsKeyed xs → IsKeyed (keep f xs)
  unfolding keep
  keep-IsKeyed f [] n = tt
  keep-IsKeyed f (x ∷ xs) n = elim (Bool-cases (f x)) [
    | inl e ↦ rw e (All-keep (λ y. key x ≢ key y) f xs n.0, keep-IsKeyed f xs n.1)
    | inr e ↦ rw e (keep-IsKeyed f xs n.1)
  ]

  insert_by-front : (x : A) (xs : List A) → All (Lt x) xs → insert_by key le x xs ≡ x ∷ xs
  unfolding insert_by
  insert_by-front x [] p = refl
  insert_by-front x (y ∷ ys) p = rw (order.total (key y) (key x) p.0) refl

  keep-insert_by :
      (f : A → Bool) (x : A) (xs : List A)
      → All (λ y. key x ≢ key y) xs
      → IsAscending xs
      → keep f (insert_by key le x xs) ≡ (if f x then insert_by key le x (keep f xs) else keep f xs)
  unfolding insert_by keep
  keep-insert_by f x [] n s = refl
  keep-insert_by f x (y ∷ ys) n s = elim (Bool-cases (le (key x) (key y))) [
    | inl e ↦
        let front : insert_by key le x (keep f ys) ≡ x ∷ keep f ys =
          insert_by-front x (keep f ys) (All-keep (Lt x) f ys (behind x y ys e n.0 s.0)) in
        ground (arith, e, front)
    | inr e ↦ ground (arith, e, keep-insert_by f x ys n.1 s.1)
  ]

  pub keep-order_by :
      (f : A → Bool) (xs : List A)
      → IsKeyed xs
      → keep f (order_by key le xs) ≡ order_by key le (keep f xs)
  unfolding order_by keep
  keep-order_by f [] n = refl
  keep-order_by f (x ∷ xs) n =
      keep-insert_by f x (order_by key le xs) (All-order_by (λ y. key x ≢ key y) xs n.0)
        (order_by-IsAscending xs n.1)
      ∙ ground (arith, keep-order_by f xs n.1)

  irreflexive : (k : K) → le k k ≡ true
  irreflexive k = elim (Bool-cases (le k k)) [ inl e ↦ e | inr e ↦ order.total k k e ]

  -- What comes after the last of the first entries is the rest.
  pub keep-after :
      (n : ℕ) (xs : List A) (x : A)
      → IsAscending xs
      → last (take n xs) ≡ some x
      → keep (is_after key le (some (key x))) xs ≡ drop n xs
  unfolding take keep is_after
  keep-after zero xs x s h = absurd (cc)
  keep-after (suc n) [] x s h = absurd (cc)
  keep-after (suc n) (y ∷ ys) x s h = elim (last-cases y (take n ys) x h) [
    | inl (none_left, same) ↦
        subst (λ z. keep (is_after key le (some (key z))) (y ∷ ys) ≡ drop n ys) same
          (rw (irreflexive (key y)) (
            keep_every (is_after key le (some (key y))) ys
              (All-map (Lt y) (λ z. not (le (key z) (key y)) ≡ true) ys (λ z e. ap not e) s.0)
            ∙ sym (drop-all n ys none_left)))
    | inr later ↦
        let ahead = last-All (Lt y) (take n ys) x later (All-take (Lt y) n ys s.0) in
        rw (order.total (key x) (key y) ahead) (keep-after n ys x s.1 later)
  ]

  -- The rows behind a position, in order: what a page statement returns without its limit.
  abbrev pub behind_position : Option K → List A → List A
  behind_position position xs = order_by key le (keep (is_after key le position) xs)

  passes-none : (xs : List A) → keep (is_after key le none) xs ≡ xs
  unfolding keep is_after
  passes-none [] = refl
  passes-none (x ∷ xs) = ap (λ ys. x ∷ ys) (passes-none xs)

  -- Without a position everything is behind it.
  pub behind_position-none : (xs : List A) → behind_position none xs ≡ order_by key le xs
  behind_position-none xs = ap (order_by key le) (passes-none xs)

  after_later :
      (position : Option K) (x y : A)
      → is_after key le position x ≡ true
      → is_after key le (some (key x)) y ≡ true
      → is_after key le position y ≡ true
  unfolding is_after
  after_later none x y h k = refl
  after_later (some p) x y h k = ground (arith, less_trans p (key x) (key y), h, k)

  -- The page after the last row of a page goes on where that page stopped.
  pub page_after :
      (n : ℕ) (position : Option K) (xs : List A) (x : A)
      → IsKeyed xs
      → last (take n (behind_position position xs)) ≡ some x
      → behind_position (some (key x)) xs ≡ drop n (behind_position position xs)
  page_after n position xs x keyed h =
      let rows = behind_position position xs in
      ap (order_by key le) (
        sym (
          keep-and (is_after key le position) (is_after key le (some (key x))) xs λ y.
            after_later position x y (
              last-All (λ z. is_after key le position z ≡ true) (take n rows) x h
                (All-take (λ z. is_after key le position z ≡ true) n rows
                  (All-order_by (λ z. is_after key le position z ≡ true)
                    (keep (is_after key le position) xs)
                    (keep-passes (is_after key le position) xs))))))
      ∙ sym (
          keep-order_by (is_after key le (some (key x))) (keep (is_after key le position) xs)
            (keep-IsKeyed (is_after key le position) xs keyed))
      ∙ keep-after n rows x
          (order_by-IsAscending (keep (is_after key le position) xs)
            (keep-IsKeyed (is_after key le position) xs keyed))
          h
