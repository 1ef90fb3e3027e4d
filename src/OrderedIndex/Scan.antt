-- ===== src/OrderedIndex/Scan.antt =====
-- scanRecord, recordsEqual and the values that internal/orderedindex/orderedindex.go stores.
use pgstore.Prelude.{
  ℕ, ◌^◌, ◌<◌, ◌≡◌, refl, arith, Bool, true, false, ◌&&◌, Option, none, some, List, [], ltb, ◌==◌,
  if◌then◌else◌,
}
use pgstore.Prelude.Int.{int_eq, int_eq_iff}
use pgstore.Text.{Bytes, content, text_eq, text_eq_iff, bytes_equal}
use pgstore.Records.{Rank, Due, OrderedRecord, id_eq, id_eq_iff}
use pgstore.Errors.{Error, Result, ok, err, redacted, and_then}
use pgstore.Storage.{OrderedStorage}
use pgstore.OrderedIndex.Sql.{Row}
use pgstore.OrderedIndex.Decimal.{format_uint, parse_uint, parse_uint-format}

-- databaseValue
abbrev pub database_value : Bytes → List ℕ × Bool
database_value none = ([], true)
database_value (some bs) = (bs, false)

-- cloneValue
abbrev pub clone_value : Bytes → Bytes
clone_value value = value

abbrev pub scanned_value : List ℕ → Bool → Bytes
scanned_value value true = none
scanned_value value false = some value

pub stored_value : (v : Bytes) → scanned_value (database_value v).0 (database_value v).1 ≡ v
stored_value none = refl
stored_value (some bs) = refl

-- The fields of a row, as scanRecord puts them into a record.
abbrev pub record_of : Row → ℕ → ℕ → OrderedRecord
record_of r revision order = record {
  id = r.id;
  ranking_scope = r.ranking_scope;
  revision = revision;
  order = order;
  value = scanned_value r.value r.value_is_nil;
  rank = record { ranked = r.ranked; value = r.rank_value };
  due = record { state = r.due_state; unix_millis = r.due_at };
  deleted = r.deleted;
}

-- The numeric columns come as text.
unfoldable pub decoded : Row → Result OrderedRecord
decoded r = and_then (parse_uint (format_uint r.revision)) λ revision.
    and_then (parse_uint (format_uint r.order_id)) λ order. ok (record_of r revision order)

abbrev validated : Option Error → OrderedRecord → Result OrderedRecord
validated none r = ok r
validated (some e) r = err e

-- The driver has put the state into an int16.
unfoldable pub scan_record : OrderedStorage → Row → Result OrderedRecord
scan_record storage row = and_then (decoded row) λ r.
    if ltb 255 row.due_state
    then err (redacted "ordered due-state decode")
    else validated (storage.validate_ordered_record r) r

pub scan_record-decoded :
    (storage : OrderedStorage) (row : Row) (r : OrderedRecord)
    → scan_record storage row ≡ ok r
    → decoded row ≡ ok r
unfolding scan_record
scan_record-decoded storage row r h = ground arith

pub decoded-fits :
    (row : Row)
    → row.revision < 2 ^ 64
    → row.order_id < 2 ^ 64
    → decoded row ≡ ok (record_of row row.revision row.order_id)
unfolding decoded
decoded-fits row revision order =
    rw
      (
        (parse_uint-format row.revision (format_uint row.revision) revision).1 refl,
        (parse_uint-format row.order_id (format_uint row.order_id) order).1 refl,
      )
      refl

abbrev pub same_bool : Bool → Bool → Bool
same_bool true b = b
same_bool false true = false
same_bool false false = true

abbrev pub rank_eq : Rank → Rank → Bool
rank_eq a b = same_bool a.ranked b.ranked && int_eq a.value b.value

abbrev pub due_eq : Due → Due → Bool
due_eq a b = a.state == b.state && int_eq a.unix_millis b.unix_millis

abbrev pub is_nil : Bytes → Bool
is_nil none = true
is_nil (some bs) = false

-- recordsEqual, and mutationMatchesExactPostState
unfoldable pub records_equal : OrderedRecord → OrderedRecord → Bool
records_equal a b =
    id_eq a.id b.id
    && text_eq a.ranking_scope b.ranking_scope
    && a.revision == b.revision
    && a.order == b.order
    && due_eq a.due b.due
    && rank_eq a.rank b.rank
    && bytes_equal a.value b.value
    && same_bool (is_nil a.value) (is_nil b.value)
    && same_bool a.deleted b.deleted

value_eq : (a b : Bytes) → bytes_equal a b ≡ true → same_bool (is_nil a) (is_nil b) ≡ true → a ≡ b
value_eq a b h k = ground (arith, text_eq_iff (content a) (content b))

rank_eq-eq : (a b : Rank) → rank_eq a b ≡ true → a ≡ b
rank_eq-eq a b h = ground (arith, int_eq_iff a.value b.value)

due_eq-eq : (a b : Due) → due_eq a b ≡ true → a ≡ b
due_eq-eq a b h = ground (arith, int_eq_iff a.unix_millis b.unix_millis)

pub records_equal-eq : (a b : OrderedRecord) → records_equal a b ≡ true → a ≡ b
unfolding records_equal
records_equal-eq a b h = ground (
  arith,
  id_eq_iff a.id b.id,
  text_eq_iff a.ranking_scope b.ranking_scope,
  rank_eq-eq a.rank b.rank,
  due_eq-eq a.due b.due,
  value_eq a.value b.value,
)
