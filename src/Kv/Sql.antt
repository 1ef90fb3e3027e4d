-- ===== src/Kv/Sql.antt =====
-- The table kv of migrations/0001_ledger_kv.sql and the statements of internal/kv/kv.go on it.
use pgstore.Prelude.{
  ℕ, ◌+◌, ◌-◌, ◌^◌, Option, none, some, List, [], ◌∷◌, map, keep, ltb, leb, ◌==◌, if◌then◌else◌,
}
use pgstore.Text.{Text, Bytes, text_eq, text_le, is_prefix}
use pgstore.Errors.{Result, ok, err, no_rows, pg_error}
use pgstore.Driver.{Stmt}

abbrev pub bigint_max : ℕ
bigint_max = 2 ^ 63 - 1

pub record Row : Type 0 where
  pub key : Text
  pub revision : ℕ
  pub value : List ℕ

abbrev pub Table : Type 0
Table = List Row

unfoldable pub find_row : Text → Table → Option Row
find_row key [] = none
find_row key (r ∷ rs) = if text_eq r.key key then some r else find_row key rs

-- SET revision = revision + 1, value = ... WHERE key = ...
unfoldable pub write_row : Text → List ℕ → Table → Table
write_row key value [] = []
write_row key value (r ∷ rs) =
    (if text_eq r.key key then record r { revision = r.revision + 1; value = value } else r)
    ∷ write_row key value rs

unfoldable pub remove_row : Text → Table → Table
remove_row key [] = []
remove_row key (r ∷ rs) =
    let rest = remove_row key rs in if text_eq r.key key then rest else r ∷ rest

abbrev found_row : Table → Option Row → Result ((Bytes × ℕ) × Table)
found_row d none = err no_rows
found_row d (some r) = ok ((some r.value, r.revision), d)

-- SELECT value, revision FROM kv WHERE key = $1
abbrev pub select_row : Text → Stmt Table (Bytes × ℕ)
select_row key clock d = found_row d (find_row key d)

abbrev found_one : Table → Option Row → Result (ℕ × Table)
found_one d none = err no_rows
found_one d (some r) = ok (1, d)

-- SELECT 1 FROM kv WHERE key = $1
abbrev pub select_present : Text → Stmt Table ℕ
select_present key clock d = found_one d (find_row key d)

abbrev inserted : Text → List ℕ → Table → Option Row → Result (ℕ × Table)
inserted key value d none = ok (1, record { key = key; revision = 1; value = value } ∷ d)
inserted key value d (some r) = err no_rows

-- INSERT INTO kv VALUES ($1, 1, $2) ON CONFLICT (key) DO NOTHING RETURNING revision. A nil slice
-- is NULL, which the column refuses (SQLSTATE 23502).
abbrev pub insert_row : Text → Bytes → Stmt Table ℕ
insert_row key none clock d = err (pg_error "23502")
insert_row key (some value) clock d = inserted key value d (find_row key d)

abbrev updated : Text → ℕ → List ℕ → Table → Option Row → Result (ℕ × Table)
updated key expected value d none = err no_rows
updated key expected value d (some r) =
    if r.revision == expected
    then if ltb r.revision bigint_max
      then ok (r.revision + 1, write_row key value d)
      else err (pg_error "22003")
    else err no_rows

-- UPDATE kv SET revision = revision + 1, value = $3 WHERE key = $1 AND revision = $2 RETURNING
-- revision. A number past bigint is refused (SQLSTATE 22003).
abbrev pub update_row : Text → ℕ → Bytes → Stmt Table ℕ
update_row key expected none clock d = err (pg_error "23502")
update_row key expected (some value) clock d =
    if leb expected bigint_max
    then updated key expected value d (find_row key d)
    else err (pg_error "22003")

-- DELETE FROM kv WHERE key = $1
abbrev pub delete_row : Text → Stmt Table (Unit {0})
delete_row key clock d = ok (tt, remove_row key d)

-- ORDER BY key COLLATE "C"
unfoldable pub insert_sorted : Text → List Text → List Text
insert_sorted k [] = k ∷ []
insert_sorted k (j ∷ js) = if text_le k j then k ∷ j ∷ js else j ∷ insert_sorted k js

unfoldable pub order_by : List Text → List Text
unfolding insert_sorted
order_by [] = []
order_by (k ∷ ks) = insert_sorted k (order_by ks)

-- SELECT key FROM kv WHERE left(key, length($1)) = $1 ORDER BY key COLLATE "C"
unfoldable pub select_keys : Text → Stmt Table (List Text)
unfolding order_by
select_keys prefix clock d = ok (order_by (keep (is_prefix prefix) (map (λ (r : Row). r.key) d)), d)
