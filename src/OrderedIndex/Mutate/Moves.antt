-- ===== src/OrderedIndex/Mutate/Moves.antt =====
-- How an Update or a Delete of internal/orderedindex/orderedindex.go moves the committed tables: by
-- whole rewritings of a row that is at the expected revision, between what other clients commit.
use pgstore.Prelude.{
  ℕ, zero, suc, ◌+◌, ◌<◌, ◌^◌, ◌≡◌, refl, ◌∙◌, true, false, some, List, [], ◌∷◌, arith,
}
use pgstore.Records.{OrderedId, OrderedRecord, id_eq_iff}
use pgstore.Errors.{ok}
use pgstore.Driver.{Driver, Stmt, tables_of}
use pgstore.OrderedIndex.Sql.{
  Tables, Row, find_record, set_record, is_valid_row, updated_row, deleted_row, update_record,
  delete_record,
}
use pgstore.OrderedIndex.Scan.{decoded, decoded-fits, record_of, database_value, stored_value}
use pgstore.OrderedIndex.Mutate.{Change, updated_record, deleted_record}

-- The tables after a rewriting of the row of an identity.
abbrev pub rewritten : OrderedId → Row → Tables → Tables
rewritten id r d = record d { records = set_record id r d.records }

-- From `start`, with so many rewritings by `f` of this caller.
pub data Mutates (driver : Driver Tables) (id : OrderedId) (expected : ℕ) (f : Row → Row)
    (start : Tables) : ℕ → Tables → Type 0 where
  here : Mutates driver id expected f start zero start
  other :
      {k : ℕ} {d : Tables} (n : ℕ)
      → Mutates driver id expected f start k d
      → Mutates driver id expected f start k (driver.others n d)
  mutate :
      {k : ℕ} {d : Tables} (row : Row)
      → find_record id d.records ≡ some row
      → row.deleted ≡ false
      → row.revision ≡ expected
      → Mutates driver id expected f start k d
      → Mutates driver id expected f start (suc k) (rewritten id (f row) d)

pub find_record-id :
    (id : OrderedId) (rs : List Row) (row : Row) → find_record id rs ≡ some row → row.id ≡ id
unfolding find_record
find_record-id id [] row h = absurd (cc)
find_record-id id (x ∷ xs) row h = ground (arith, find_record-id id xs row, id_eq_iff x.id id)

-- A statement that rewrites a row by `f`, and the record that the code expects of it.
pub record Rewrites (id : OrderedId) (f : Row → Row) (next : OrderedRecord → OrderedRecord)
    (statement : Stmt Tables (Unit {0})) : Type 0 where
  pub keeps_id : (row : Row) → (f row).id ≡ row.id
  pub writes :
      (clock : ℕ) (d x : Tables) (row : Row) (a : Unit {0})
      → find_record id d.records ≡ some row
      → statement clock d ≡ ok (a, x)
      → (tables_of d (statement clock d) ≡ rewritten id (f row) d) × (is_valid_row (f row) ≡ true)
  pub expects :
      (row : Row) (r : OrderedRecord)
      → is_valid_row (f row) ≡ true
      → decoded row ≡ ok r
      → (decoded (f row) ≡ ok (next r)) × (r.revision ≡ row.revision) × (r.deleted ≡ row.deleted)

-- The numbers of a row whose rewriting is valid fit a uint64.
fits :
    (row new : Row)
    → is_valid_row new ≡ true
    → new.revision ≡ row.revision + 1
    → new.order_id ≡ row.order_id
    → (row.revision + 1 < 2 ^ 64) × (row.order_id < 2 ^ 64)
fits row new v revision order = ground arith

decoded-row :
    (row : Row) (r : OrderedRecord)
    → row.revision < 2 ^ 64
    → row.order_id < 2 ^ 64
    → decoded row ≡ ok r
    → r ≡ record_of row row.revision row.order_id
decoded-row row r revision order h = cc (decoded-fits row revision order, h)

pub update_record-Rewrites :
    (id : OrderedId) (c : Change)
    → Rewrites id
        (updated_row (database_value c.value).0 (database_value c.value).1 c.rank c.due)
        (updated_record c)
        (update_record id (database_value c.value).0 (database_value c.value).1 c.rank c.due)
update_record-Rewrites id c = record {
  keeps_id = λ row. refl;
  writes = λ clock d x row a found h. ground (arith, found);
  expects = λ row r v h.
      let new =
        updated_row (database_value c.value).0 (database_value c.value).1 c.rank c.due row in
      let (revision, order) = fits row new v refl refl in
      rw (decoded-row row r (omega arith) order h)
        (decoded-fits new revision order ∙ rw (stored_value c.value) refl, refl, refl);
}

pub delete_record-Rewrites :
    (id : OrderedId) → Rewrites id deleted_row deleted_record (delete_record id)
delete_record-Rewrites id = record {
  keeps_id = λ row. refl;
  writes = λ clock d x row a found h. ground (arith, found);
  expects = λ row r v h.
      let (revision, order) = fits row (deleted_row row) v refl refl in
      rw (decoded-row row r (omega arith) order h)
        (decoded-fits (deleted_row row) revision order, refl, refl);
}
