-- ===== src/Kv/Lemmas.antt =====
-- Lemmas on the rows of the table kv and on the calls that internal/kv/kv.go makes.
use pgstore.Prelude.{ℕ, ◌+◌, ◌<◌, ◌≡◌, Option, none, some, List, [], ◌∷◌, arith, if◌then◌else◌, All}
use pgstore.Text.{Text, text_eq, text_eq_iff}
use pgstore.Kv.Sql.{Row, Table, find_row, write_row, remove_row}

abbrev bump : List ℕ → Option Row → Option Row
bump value none = none
bump value (some r) = some (record r { revision = r.revision + 1; value = value })

pub find-write :
    (k j : Text) (value : List ℕ) (d : Table)
    → find_row j (write_row k value d)
      ≡ (if text_eq k j then bump value (find_row j d) else find_row j d)
unfolding find_row write_row
find-write k j value [] = ground arith
find-write k j value (r ∷ rs) =
    ground
      (arith, find-write k j value rs, text_eq_iff r.key k, text_eq_iff r.key j, text_eq_iff k j)

pub find-remove :
    (k j : Text) (d : Table)
    → find_row j (remove_row k d) ≡ (if text_eq k j then none else find_row j d)
unfolding find_row remove_row
find-remove k j [] = ground arith
find-remove k j (r ∷ rs) =
    ground (arith, find-remove k j rs, text_eq_iff r.key k, text_eq_iff r.key j, text_eq_iff k j)

-- A row that is found has the key that was looked for.
pub find-key : (k : Text) (d : Table) (r : Row) → find_row k d ≡ some r → r.key ≡ k
unfolding find_row
find-key k [] r h = ground arith
find-key k (x ∷ rs) r h = ground (arith, find-key k rs r, text_eq_iff x.key k)

pub find-positive :
    (k : Text) (d : Table) (r : Row)
    → All (λ (x : Row). 0 < x.revision) d
    → find_row k d ≡ some r
    → 0 < r.revision
unfolding find_row
find-positive k [] r p h = absurd (cc)
find-positive k (x ∷ rs) r p h = ground (arith, find-positive k rs r p.1)
