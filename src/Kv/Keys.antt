-- ===== src/Kv/Keys.antt =====
-- KV.Keys of internal/kv/kv.go: the listing by prefix.
use pgstore.Prelude.{
  suc, ◌≡◌, ◌∙◌, refl, Bool, true, false, ◌&&◌, ◌||◌, Option, none, some, List, [], ◌∷◌, map, keep,
  arith,
}
use pgstore.Text.{Text, text_eq, text_eq_iff, text_le, text_le_total, is_prefix}
use pgstore.Errors.{ok}
use pgstore.Driver.{Driver, World, delivered, pool_query, stream}
use pgstore.Storage.{Storage}
use pgstore.Guard.Defs.{Context, bound}
use pgstore.Kv.Sql.{Row, Table, find_row, insert_sorted, order_by, select_keys}
use pgstore.Kv.{Store, keys}

abbrev pub contains : Text → List Text → Bool
contains k [] = false
contains k (j ∷ js) = text_eq j k || contains k js

-- In bytewise order.
abbrev pub IsSorted : List Text → Type 0
IsSorted [] = Unit
IsSorted (k ∷ []) = Unit
IsSorted (k ∷ j ∷ js) = (text_le k j ≡ true) × IsSorted (j ∷ js)

abbrev is_there : Option Row → Bool
is_there none = false
is_there (some r) = true

abbrev pub present : Table → Text → Bool
present d key = is_there (find_row key d)

contains-insert_sorted :
    (k x : Text) (js : List Text) → contains k (insert_sorted x js) ≡ (text_eq x k || contains k js)
unfolding insert_sorted
contains-insert_sorted k x [] = refl
contains-insert_sorted k x (j ∷ js) = ground (arith, contains-insert_sorted k x js)

contains-order_by : (k : Text) (js : List Text) → contains k (order_by js) ≡ contains k js
unfolding order_by
contains-order_by k [] = refl
contains-order_by k (j ∷ js) =
    ground (arith, contains-order_by k js, contains-insert_sorted k j (order_by js))

insert_sorted-IsSorted : (x : Text) (js : List Text) → IsSorted js → IsSorted (insert_sorted x js)
unfolding insert_sorted
insert_sorted-IsSorted x [] s = tt
insert_sorted-IsSorted x (j ∷ []) s = ground (arith, text_le_total x j)
insert_sorted-IsSorted x (j ∷ i ∷ is) s =
    ground (arith, text_le_total x j, insert_sorted-IsSorted x (i ∷ is))

order_by-IsSorted : (js : List Text) → IsSorted (order_by js)
unfolding order_by
order_by-IsSorted [] = tt
order_by-IsSorted (j ∷ js) = insert_sorted-IsSorted j (order_by js) (order_by-IsSorted js)

contains-keep :
    (prefix k : Text) (d : Table)
    → contains k (keep (is_prefix prefix) (map (λ (r : Row). r.key) d))
      ≡ (is_prefix prefix k && present d k)
unfolding keep find_row
contains-keep prefix k [] = ground arith
contains-keep prefix k (r ∷ rs) = ground (arith, contains-keep prefix k rs, text_eq_iff r.key k)

module _ (driver : Driver Table) (storage : Storage) (s : Store) where
  -- Keys, outside a transaction and its rows delivered, returns in bytewise order the keys of the
  -- table that have the prefix, and no other key, and leaves the table as it met it.
  pub keys_listing :
      (c : Context) (prefix k : Text) (w : World Table)
      → w.locked ≡ false
      → driver.outcome (suc w.now) ≡ delivered
      → driver.outcome (suc (suc w.now)) ≡ delivered
      → let before = driver.others (suc w.now) w.db in
        (listing : List Text) × ((keys driver storage s (some c) prefix w).0 ≡ ok listing)
        × IsSorted listing
        × (contains k listing ≡ (is_prefix prefix k && present before k))
        × ((keys driver storage s (some c) prefix w).1.db ≡ before)
  unfolding keys bound pool_query stream select_keys
  keys_listing c prefix k w free up rows =
      let before = driver.others (suc w.now) w.db in
      let found : List Text = keep (is_prefix prefix) (map (λ (r : Row). r.key) before) in
      (
        order_by found,
        ground arith,
        order_by-IsSorted found,
        contains-order_by k found ∙ contains-keep prefix k before,
        ground arith,
      )
