-- ===== src/OrderedIndex/Pages.antt =====
-- ListOrdered, ListRanked and ListDue of internal/orderedindex/orderedindex.go, and scanRecords.
pub mod Cut
pub mod Shown
use pgstore.Prelude.{
  ℕ, Option, none, some, List, [], ◌∷◌, length, take, last, ltb, String, if◌then◌else◌,
}
use pgstore.Prelude.Int.{ℤ}
use pgstore.Text.{Text}
use pgstore.Records.{OrderedRecord}
use pgstore.Errors.{Error, Result, ok, err, and_then, panicked, redacted}
use pgstore.Driver.{
  Driver, Exec, Stmt, Stream, complete, scan_failed, broken, returned, caught, checked, pool_query,
  stream, ◌>>=◌, ◌>>◌,
}
use pgstore.Storage.{OrderedStorage}
use pgstore.Guard.Defs.{Context, bound, failure}
use pgstore.OrderedIndex.Sql.{Row, Tables}
use pgstore.OrderedIndex.Scan.{scan_record}
use pgstore.OrderedIndex.Query.{ordered, ranked, due}
use pgstore.OrderedIndex.Cursor.{
  Json, encode_ranked_cursor, encode_due_cursor, decode_ranked_cursor, decode_due_cursor,
}
use pgstore.OrderedIndex.{Store}

-- storage.OrderedPage
pub record OrderedPage : Type 0 where
  pub records : List OrderedRecord
  pub next_after_order : ℕ

-- storage.RankedPage, storage.DuePage
pub record Page : Type 0 where
  pub records : List OrderedRecord
  pub next_cursor : Text

abbrev next_order : Option OrderedRecord → ℕ
next_order none = 0
next_order (some r) = r.order

abbrev pub ordered_page : List OrderedRecord → OrderedPage
ordered_page records = record { records = records; next_after_order = next_order (last records) }

-- `last := records[len(records)-1]` and the cursor behind it.
abbrev turn :
    List OrderedRecord → (OrderedRecord → Result Text) → Option OrderedRecord → Result Page
turn records encode none = err (panicked "index out of range")
turn records encode (some r) =
    and_then (encode r) λ cursor. ok (record { records = records; next_cursor = cursor })

-- The page of the records that were read, one more than the limit where there are more.
unfoldable pub page_of : ℕ → (OrderedRecord → Result Text) → List OrderedRecord → Result Page
page_of limit encode records =
    if ltb limit (length records)
    then turn (take limit records) encode (last (take limit records))
    else ok (record { records = records; next_cursor = [] })

-- The rows that are read, up to the first that is not a record.
unfoldable pub scan_rows : OrderedStorage → List Row → Result (List OrderedRecord)
scan_rows storage [] = ok []
scan_rows storage (r ∷ rs) =
    and_then (scan_record storage r) λ a. and_then (scan_rows storage rs) λ later. ok (a ∷ later)

-- scanRecords: each of its errors becomes the same failure.
unfoldable pub scan_records : OrderedStorage → List Row → Stream → Result (List OrderedRecord)
scan_records storage rows complete = scan_rows storage rows
scan_records storage rows scan_failed = err (redacted "rows")
scan_records storage rows broken = err (redacted "rows")

module _ (driver : Driver Tables) (storage : OrderedStorage) (s : Store) where
  scan_reply : Context → String → Result (List OrderedRecord) → Exec Tables (List OrderedRecord)
  scan_reply ctx operation (ok records) = returned (ok records)
  scan_reply ctx operation (err e) = failure ctx operation

  query_reply : Context → String → Result (List Row) → Exec Tables (List OrderedRecord)
  unfolding scan_reply
  query_reply ctx operation (err e) = failure ctx operation
  query_reply ctx operation (ok rows) = do
    end ← stream driver
    scan_reply ctx operation (scan_records storage rows end)

  -- s.pool.Query and scanRecords, which the three listings share.
  unfoldable pub query_records :
      Context → String → Stmt Tables (List Row) → Exec Tables (List OrderedRecord)
  unfolding query_reply pool_query
  query_records ctx operation statement = do
    r ← caught (pool_query driver statement)
    query_reply ctx operation r

  unfoldable pub list_ordered : Option Context → Text → Text → ℕ → ℕ → Exec Tables OrderedPage
  unfolding bound
  list_ordered ctx namespace scope after_order limit = do
    ctx ← bound driver ctx "OrderedIndex.ListOrdered" s.operation_timeout
    checked (storage.validate_name namespace)
    checked (storage.validate_name scope)
    checked (storage.validate_ordered_limit limit)
    records ← query_records ctx "ordered list order" (ordered namespace scope after_order limit)
    returned (ok (ordered_page records))

  module _ (json : Json) where
    unfoldable pub list_ranked : Option Context → Text → Text → Text → ℕ → Exec Tables Page
    unfolding bound
    list_ranked ctx namespace scope after limit = do
      ctx ← bound driver ctx "OrderedIndex.ListRanked" s.operation_timeout
      checked (storage.validate_name namespace)
      checked (storage.validate_name scope)
      checked (storage.validate_ordered_limit limit)
      position ← returned (decode_ranked_cursor storage json after namespace scope)
      records ← query_records ctx "ordered list ranked" (ranked namespace scope position limit)
      returned (page_of limit (encode_ranked_cursor storage json namespace scope) records)

    unfoldable pub list_due : Option Context → Text → ℤ → Text → ℕ → Exec Tables Page
    unfolding bound
    list_due ctx namespace due_at_or_before after limit = do
      ctx ← bound driver ctx "OrderedIndex.ListDue" s.operation_timeout
      checked (storage.validate_name namespace)
      checked (storage.validate_ordered_limit limit)
      position ← returned (decode_due_cursor storage json after namespace due_at_or_before)
      records ← query_records ctx "ordered list due" (due namespace due_at_or_before position limit)
      returned (page_of limit (encode_due_cursor storage json namespace due_at_or_before) records)
