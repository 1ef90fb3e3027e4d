-- ===== src/OrderedIndex/OrderWalk.antt =====
-- The listing by order of internal/orderedindex/orderedindex.go: its pages go on behind an order, not
-- behind a row, and lose none because orders are distinct.
use pgstore.Prelude.{
  ℕ, zero, suc, ◌≡◌, ◌≢◌, ◌<◌, refl, sym, ap, ◌∙◌, Bool, true, false, ◌&&◌, Option, none, some,
  List, [], ◌∷◌, ◌++◌, length, All, keep, take, drop, last, arith, inl, inr, Bool-cases, ltb, leb,
  ◌==◌,
}
use pgstore.Text.{Text, text_eq, text_eq_iff}
use pgstore.Records.{id_eq, id_eq_iff}
use pgstore.OrderedIndex.Sql.{Row, Tables, find_record}
use pgstore.OrderedIndex.Query.{
  ordered, is_ordered, is_after, order_key, position_le, order_by, insert_by,
}
use pgstore.OrderedIndex.Keyset.{
  IsTotalOrder, IsKeyed, behind_position, page_after, All-order_by, keep-IsKeyed,
}
use pgstore.OrderedIndex.View.{IsPrimary}
use pgstore.OrderedIndex.Listing.{rows_of_page}
use pgstore.OrderedIndex.Walk.{take-append-drop, last-some, length-drop}
use pgstore.OrderedIndex.Order.{IsNumbered}

abbrev order_of : Row → ℕ
order_of r = r.order_id

abbrev is_here : Text → Text → Row → Bool
is_here namespace scope r = text_eq r.id.namespace namespace && text_eq r.id.ordering_scope scope

-- The rows of an ordering scope, as they stand in the table.
abbrev pub rows_of_scope : Text → Text → Tables → List Row
rows_of_scope namespace scope d = keep (is_here namespace scope) d.records

leb-IsTotalOrder : IsTotalOrder leb
leb-IsTotalOrder = record {
  trans = λ a b c h k. ground arith;
  total = λ a b h. ground arith;
  antisymm = λ a b h k. ground arith;
}

-- By order and by order and key is the same where orders are distinct.
abbrev Apart : Row → Row → Type 0
Apart x y = order_of x ≢ order_of y

key-Apart :
    (x y : Row) → Apart x y → position_le (order_key x) (order_key y) ≡ leb x.order_id y.order_id
unfolding position_le
key-Apart x y n = elim (Bool-cases (x.order_id == y.order_id)) [
  | inl e ↦ absurd (n (ground (arith, e)))
  | inr e ↦ ground (arith, e)
]

insert_by-order :
    (x : Row) (ys : List Row)
    → All (Apart x) ys
    → insert_by order_key position_le x ys ≡ insert_by order_of leb x ys
unfolding insert_by
insert_by-order x [] p = refl
insert_by-order x (y ∷ ys) p = rw (key-Apart x y p.0, insert_by-order x ys p.1) refl

order_by-order :
    (xs : List Row)
    → IsKeyed order_of leb leb-IsTotalOrder xs
    → order_by order_key position_le xs ≡ order_by order_of leb xs
unfolding order_by
order_by-order [] p = refl
order_by-order (x ∷ xs) p = rw (order_by-order xs p.1) (
    insert_by-order x (order_by order_of leb xs)
      (All-order_by order_of leb leb-IsTotalOrder (Apart x) xs p.0))

keep-is_ordered :
    (namespace scope : Text) (after : ℕ) (rs : List Row)
    → keep (is_ordered namespace scope after) rs
      ≡ keep (is_after order_of leb (some after)) (keep (is_here namespace scope) rs)
unfolding keep is_after
keep-is_ordered namespace scope after [] = refl
keep-is_ordered namespace scope after (r ∷ rs) =
    ground (arith, keep-is_ordered namespace scope after rs)

-- In a table with unique identities a row is found under its own.
abbrev Found : List Row → Row → Type 0
Found rs r = find_record r.id rs ≡ some r

Found-later :
    (r : Row) (rs xs : List Row)
    → All (λ (x : Row). r.id ≢ x.id) xs
    → All (Found rs) xs
    → All (Found (r ∷ rs)) xs
unfolding find_record
Found-later r rs [] p q = tt
Found-later r rs (x ∷ xs) p q = (
  elim (Bool-cases (id_eq r.id x.id)) [
    | inl e ↦ absurd (p.0 ((id_eq_iff r.id x.id).0 e))
    | inr e ↦ rw e q.0
  ],
  Found-later r rs xs p.1 q.1,
)

Found-All : (rs : List Row) → IsPrimary rs → All (Found rs) rs
unfolding find_record
Found-All [] p = tt
Found-All (r ∷ rs) p =
    (rw ((id_eq_iff r.id r.id).1 refl) refl, Found-later r rs rs p.0 (Found-All rs p.1))

module _ (namespace scope : Text) (d : Tables) (numbered : IsNumbered d) where
  named :
      (r : Row)
      → is_here namespace scope r ≡ true
      → (r.id.namespace ≡ namespace) × (r.id.ordering_scope ≡ scope)
  named r h =
      ground (arith, text_eq_iff r.id.namespace namespace, text_eq_iff r.id.ordering_scope scope)

  apart :
      (r x : Row)
      → is_here namespace scope r ≡ true
      → is_here namespace scope x ≡ true
      → Found d.records r
      → Found d.records x
      → r.id ≢ x.id
      → Apart r x
  apart r x h k p q n same =
      let (rn, rs) = named r h in
      let (xn, xs) = named x k in
      n (numbered.distinct r.id x.id r x (rn ∙ sym xn) (rs ∙ sym xs) p q same)

  Apart-All :
      (r : Row) (xs : List Row)
      → is_here namespace scope r ≡ true
      → Found d.records r
      → All (Found d.records) xs
      → All (λ (x : Row). r.id ≢ x.id) xs
      → All (Apart r) (keep (is_here namespace scope) xs)
  unfolding keep
  Apart-All r [] h p q n = tt
  Apart-All r (x ∷ xs) h p q n = elim (Bool-cases (is_here namespace scope x)) [
    | inl e ↦ rw e (apart r x h e p q.0 n.0, Apart-All r xs h p q.1 n.1)
    | inr e ↦ rw e (Apart-All r xs h p q.1 n.1)
  ]

  orders-IsKeyed :
      (rs : List Row)
      → All (Found d.records) rs
      → IsPrimary rs
      → IsKeyed order_of leb leb-IsTotalOrder (keep (is_here namespace scope) rs)
  unfolding keep
  orders-IsKeyed [] q p = tt
  orders-IsKeyed (r ∷ rs) q p = elim (Bool-cases (is_here namespace scope r)) [
    | inl e ↦ rw e (Apart-All r rs e q.0 q.1 p.0, orders-IsKeyed rs q.1 p.1)
    | inr e ↦ rw e (orders-IsKeyed rs q.1 p.1)
  ]

  -- The rows behind an order, as the page statement lists them without its limit.
  abbrev rows_behind : ℕ → List Row
  rows_behind after =
      order_by order_key position_le (keep (is_ordered namespace scope after) d.records)

  module _ (primary : IsPrimary d.records) where
    keyed : IsKeyed order_of leb leb-IsTotalOrder (rows_of_scope namespace scope d)
    keyed = orders-IsKeyed d.records (Found-All d.records primary) primary

    rows_behind_lem :
        (after : ℕ)
        → rows_behind after
          ≡ behind_position order_of leb leb-IsTotalOrder
              (some after)
              (rows_of_scope namespace scope d)
    rows_behind_lem after = rw (keep-is_ordered namespace scope after d.records) (
        order_by-order (keep (is_after order_of leb (some after)) (rows_of_scope namespace scope d))
          (keep-IsKeyed order_of leb leb-IsTotalOrder (is_after order_of leb (some after))
            (rows_of_scope namespace scope d) keyed))

    -- The page behind the order of a page's last row goes on where that page stopped.
    next_rows :
        (after n : ℕ) (x : Row)
        → last (take n (rows_behind after)) ≡ some x
        → rows_behind x.order_id ≡ drop n (rows_behind after)
    next_rows after n x h =
        rows_behind_lem x.order_id
        ∙ page_after order_of leb leb-IsTotalOrder n (some after) (rows_of_scope namespace scope d)
            x keyed (rw (rows_behind_lem after) at h)
        ∙ ap (drop n) (sym (rows_behind_lem after))

-- page.NextAfterOrder
abbrev order_or_zero : Option Row → ℕ
order_or_zero none = 0
order_or_zero (some x) = x.order_id

abbrev continued : List Row → Option Row → List Row → List Row
continued rows none rest = rows
continued rows (some x) rest = rows ++ rest

-- The rows that a caller gets who asks for the page behind the last order until a page is empty, for
-- so many pages.
unfoldable pub walk_orders : (ℕ → List Row) → ℕ → ℕ → List Row
walk_orders fetch zero after = []
walk_orders fetch (suc pages) after =
    let rows = fetch after in
    let rest = walk_orders fetch pages (order_or_zero (last rows)) in
    continued rows (last rows) rest

no_rows : (rows : List Row) → ltb 0 (length rows) ≡ false → rows ≡ []
no_rows [] h = refl
no_rows (r ∷ rs) h = ground arith

nothing :
    (limit : ℕ) (rest : List Row)
    → continued (take limit []) (last {A = Row} (take limit [])) rest ≡ []
unfolding take
nothing zero rest = refl
nothing (suc limit) rest = refl

-- The pages of the statement by order, each behind the order of the last row of the one before and cut
-- at a limit that is not 0, put together are every row of the ordering scope with an order behind the
-- first one, once, in ascending order, if identities are unique in the table, orders are distinct in
-- every scope and not above its counter, as the writes keep them, and more pages are read than there
-- are such rows.
pub ordered-all :
    (namespace scope : Text) (after limit clock pages : ℕ) (d : Tables)
    → 0 < limit
    → IsNumbered d
    → length (order_by order_key position_le (keep (is_ordered namespace scope after) d.records))
      < pages
    → walk_orders (λ k. rows_of_page (ordered namespace scope k limit clock d)) pages after
      ≡ order_by order_key position_le (keep (is_ordered namespace scope after) d.records)
unfolding ordered walk_orders take
ordered-all namespace scope after limit clock zero d positive numbered enough = absurd (omega arith)
ordered-all namespace scope after limit clock (suc pages) d positive numbered enough =
    let rows = rows_behind namespace scope d numbered after in
    elim (Bool-cases (ltb 0 (length rows))) [
      | inl e ↦
          let (x, found) = last-some limit rows positive (ground (arith, e)) in
          let next = next_rows namespace scope d numbered numbered.primary after limit x found in
          let shorter = length-drop limit rows positive (ground (arith, e)) in
          let later =
            ordered-all namespace scope x.order_id limit clock pages d positive numbered
              (rw next (omega (arith, shorter))) in
          rw found (ap (λ ys. take limit rows ++ ys) (later ∙ next) ∙ take-append-drop limit rows)
      | inr e ↦ rw (no_rows rows e) (nothing limit _)
    ]
