-- ===== src/OrderedIndex/Listing.antt =====
-- The listings by rank and by due time of internal/orderedindex/orderedindex.go: the order of their
-- rows, and all their pages together.
use pgstore.Prelude.{
  ℕ, ◌≡◌, ◌≢◌, ◌<◌, sym, ◌∙◌, Bool, true, false, none, List, [], ◌∷◌, length, All, keep, arith, inl,
  inr, Bool-cases,
}
use pgstore.Prelude.Int.{ℤ, int_eq, ltb_ℤ, int_eq_iff}
use pgstore.Text.{Text, text_eq_iff, text_le_trans, text_le_total, text_le_antisymm}
use pgstore.Errors.{Result, ok, err}
use pgstore.OrderedIndex.Sql.{Row, Tables}
use pgstore.OrderedIndex.Query.{
  Position, position_le, position_ge, name_le, ranked_key, due_key, order_by, is_ranked, is_due,
  ranked, due,
}
use pgstore.OrderedIndex.View.{IsPrimary}
use pgstore.OrderedIndex.Keyset.{behind_position-none, IsTotalOrder, IsKeyed}
use pgstore.OrderedIndex.Walk.{walk, walk-all}

ltb_ℤ_trans : (a b c : ℤ) → ltb_ℤ a b ≡ true → ltb_ℤ b c ≡ true → ltb_ℤ a c ≡ true
ltb_ℤ_trans a b c h k = ground arith

ltb_ℤ_total : (a b : ℤ) → ltb_ℤ a b ≡ false → int_eq a b ≡ false → ltb_ℤ b a ≡ true
ltb_ℤ_total a b h k = ground arith

ltb_ℤ_asymm : (a b : ℤ) → ltb_ℤ a b ≡ true → (ltb_ℤ b a ≡ false) × (int_eq b a ≡ false)
ltb_ℤ_asymm a b h = ground arith

name_le_trans : (a b c : Position) → name_le a b ≡ true → name_le b c ≡ true → name_le a c ≡ true
name_le_trans a b c h k = ground (
  arith,
  text_eq_iff a.stable_key b.stable_key,
  text_eq_iff b.stable_key c.stable_key,
  text_eq_iff a.stable_key c.stable_key,
  text_le_trans b.stable_key c.stable_key a.stable_key,
  text_le_trans c.stable_key a.stable_key b.stable_key,
  text_le_total b.stable_key a.stable_key,
  text_le_total c.stable_key b.stable_key,
  text_le_antisymm a.stable_key b.stable_key,
  text_le_trans a.ordering_scope b.ordering_scope c.ordering_scope,
)

name_le_total : (a b : Position) → name_le a b ≡ false → name_le b a ≡ true
name_le_total a b h = ground (
  arith,
  text_eq_iff a.stable_key b.stable_key,
  text_eq_iff b.stable_key a.stable_key,
  text_le_total a.ordering_scope b.ordering_scope,
  text_le_total b.stable_key a.stable_key,
  text_le_antisymm a.stable_key b.stable_key,
)

name_le_antisymm :
    (a b : Position)
    → name_le a b ≡ true
    → name_le b a ≡ true
    → (a.stable_key ≡ b.stable_key) × (a.ordering_scope ≡ b.ordering_scope)
name_le_antisymm a b h k = ground (
  arith,
  text_eq_iff a.stable_key b.stable_key,
  text_eq_iff b.stable_key a.stable_key,
  text_le_total a.stable_key b.stable_key,
  text_le_antisymm a.ordering_scope b.ordering_scope,
)

pub position_le-IsTotalOrder : IsTotalOrder position_le
unfolding position_le
position_le-IsTotalOrder = record {
  trans = λ a b c h k. ground (
    arith,
    ltb_ℤ_trans a.number b.number c.number,
    int_eq_iff a.number b.number,
    int_eq_iff b.number c.number,
    int_eq_iff a.number c.number,
    name_le_trans a b c,
  );
  total = λ a b h. ground (
    arith,
    ltb_ℤ_total a.number b.number,
    int_eq_iff a.number b.number,
    int_eq_iff b.number a.number,
    name_le_total a b,
  );
  antisymm = λ a b h k. ground (
    arith,
    ltb_ℤ_asymm a.number b.number,
    ltb_ℤ_asymm b.number a.number,
    int_eq_iff a.number b.number,
    name_le_antisymm a b,
  );
}

pub position_ge-IsTotalOrder : IsTotalOrder position_ge
position_ge-IsTotalOrder = record {
  trans = λ a b c h k. position_le-IsTotalOrder.trans c b a k h;
  total = λ a b h. position_le-IsTotalOrder.total b a h;
  antisymm = λ a b h k. position_le-IsTotalOrder.antisymm a b k h;
}

module _ (key : Row → Position) (le : Position → Position → Bool) (order : IsTotalOrder le)
    (f : Row → Bool) (namespace : Text)
    (names : (r : Row) → f r ≡ true → r.id.namespace ≡ namespace)
    (told : (r x : Row) → r.id.namespace ≡ x.id.namespace → key r ≡ key x → r.id ≡ x.id) where
  keys_apart :
      (r : Row) (rs : List Row)
      → r.id.namespace ≡ namespace
      → All (λ (x : Row). r.id ≢ x.id) rs
      → All (λ x. key r ≢ key x) (keep f rs)
  unfolding keep
  keys_apart r [] named p = tt
  keys_apart r (x ∷ xs) named (apart, rest) = elim (Bool-cases (f x)) [
    | inl e ↦
        rw e ((λ same. apart (told r x (named ∙ sym (names x e)) same)), keys_apart r xs named rest)
    | inr e ↦ rw e (keys_apart r xs named rest)
  ]

  -- In one namespace the keys tell the rows apart.
  pub listed-IsKeyed : (rs : List Row) → IsPrimary rs → IsKeyed key le order (keep f rs)
  unfolding keep
  listed-IsKeyed [] p = tt
  listed-IsKeyed (r ∷ rs) p = elim (Bool-cases (f r)) [
    | inl e ↦ rw e (keys_apart r rs (names r e) p.0, listed-IsKeyed rs p.1)
    | inr e ↦ rw e (listed-IsKeyed rs p.1)
  ]

abbrev pub rows_of_page : Result (List Row × Tables) → List Row
rows_of_page (ok (rows, d)) = rows
rows_of_page (err e) = []

ranked-IsKeyed :
    (namespace scope : Text) (d : Tables)
    → IsPrimary d.records
    → IsKeyed ranked_key position_ge position_ge-IsTotalOrder
        (keep (is_ranked namespace scope) d.records)
ranked-IsKeyed namespace scope d p =
    listed-IsKeyed ranked_key position_ge position_ge-IsTotalOrder (is_ranked namespace scope)
      namespace (λ r h. ground (arith, text_eq_iff r.id.namespace namespace)) (λ r x n h. cc)
      d.records p

due-IsKeyed :
    (namespace : Text) (bound : ℤ) (d : Tables)
    → IsPrimary d.records
    → IsKeyed due_key position_le position_le-IsTotalOrder (keep (is_due namespace bound) d.records)
due-IsKeyed namespace bound d p =
    listed-IsKeyed due_key position_le position_le-IsTotalOrder (is_due namespace bound) namespace
      (λ r h. ground (arith, text_eq_iff r.id.namespace namespace)) (λ r x n h. cc) d.records p

-- The pages of the ranked statement, each behind the last row of the one before and cut at a limit that
-- is not 0, put together are every live ranked row of the namespace and the ranking scope, once, from
-- the highest rank down, if identities are unique in the table and more pages are read than there are
-- such rows.
pub ranked-all :
    (namespace scope : Text) (limit clock pages : ℕ) (d : Tables)
    → 0 < limit
    → IsPrimary d.records
    → length (order_by ranked_key position_ge (keep (is_ranked namespace scope) d.records)) < pages
    → walk
        (λ position. rows_of_page (ranked namespace scope position limit clock d))
        ranked_key
        limit
        pages
        none
      ≡ order_by ranked_key position_ge (keep (is_ranked namespace scope) d.records)
unfolding ranked
ranked-all namespace scope limit clock pages d positive primary enough =
    let rows = keep (is_ranked namespace scope) d.records in
    let first = behind_position-none ranked_key position_ge position_ge-IsTotalOrder rows in
    walk-all ranked_key position_ge position_ge-IsTotalOrder rows
      (ranked-IsKeyed namespace scope d primary) limit positive pages none (rw first enough)
    ∙ first

-- The pages of the due statement, each behind the last row of the one before and cut at a limit that is
-- not 0, put together are every live row of the namespace that is due at the bound or before it, once,
-- from the earliest due time up, if identities are unique in the table and more pages are read than
-- there are such rows.
pub due-all :
    (namespace : Text) (bound : ℤ) (limit clock pages : ℕ) (d : Tables)
    → 0 < limit
    → IsPrimary d.records
    → length (order_by due_key position_le (keep (is_due namespace bound) d.records)) < pages
    → walk
        (λ position. rows_of_page (due namespace bound position limit clock d))
        due_key
        limit
        pages
        none
      ≡ order_by due_key position_le (keep (is_due namespace bound) d.records)
unfolding due
due-all namespace bound limit clock pages d positive primary enough =
    let rows = keep (is_due namespace bound) d.records in
    let first = behind_position-none due_key position_le position_le-IsTotalOrder rows in
    walk-all due_key position_le position_le-IsTotalOrder rows
      (due-IsKeyed namespace bound d primary) limit positive pages none (rw first enough)
    ∙ first
