-- ===== src/OrderedIndex/Pages/Shown.antt =====
-- A page of ListRanked or ListDue of internal/orderedindex/orderedindex.go: the rows it shows and the
-- cursor behind it.
use pgstore.Prelude.{ℕ, suc, ◌≡◌, refl, Option, List, keep, take, String}
use pgstore.Prelude.Int.{ℤ}
use pgstore.Text.{Text}
use pgstore.Records.{OrderedRecord}
use pgstore.Errors.{Result, ok, err}
use pgstore.Driver.{
  Driver, World, Stream, complete, scan_failed, broken, returned, checked, stream, ◌>>=◌,
}
use pgstore.Driver.Triples.{
  Triple, Post-ok, Always, AnyError, Triple-then, Triple-bind, Triple-try, Triple-returned,
  Triple-fact,
}
use pgstore.Driver.Rules.{Triple-pool}
use pgstore.Storage.{OrderedStorage}
use pgstore.Guard.Defs.{Context, bound}
use pgstore.OrderedIndex.Sql.{Row, Tables}
use pgstore.OrderedIndex.Query.{
  Position, position_le, position_ge, ranked_key, due_key, is_ranked, is_due, ranked, due,
}
use pgstore.OrderedIndex.Cursor.{
  Json, encode_ranked_cursor, encode_due_cursor, decode_ranked_cursor, decode_due_cursor,
}
use pgstore.OrderedIndex.Keyset.{behind_position}
use pgstore.OrderedIndex.Listing.{position_le-IsTotalOrder, position_ge-IsTotalOrder}
use pgstore.OrderedIndex.{Store}
use pgstore.OrderedIndex.Pages.{
  Page, page_of, scan_rows, scan_records, query_records, query_reply, scan_reply, list_ranked,
  list_due,
}
use pgstore.OrderedIndex.Pages.Cut.{Shows, page_of-Shows}

module _ (driver : Driver Tables) (storage : OrderedStorage) (s : Store) where
  stream-Read :
      (ctx : Context) (operation : String) (g : Tables → List Row) (rows : List Row)
      → Triple
          (λ w. g w.db ≡ rows)
          (query_reply driver storage s ctx operation (ok rows))
          (λ records w. scan_rows storage (g w.db) ≡ ok records)
          AnyError
  unfolding query_reply scan_reply stream scan_records
  stream-Read ctx operation g rows =
      Triple-bind (λ _ w. g w.db ≡ rows) (stream driver) _ (record { at = λ w p. p }) ended
    where
      replied :
          (r : Result (List OrderedRecord))
          → scan_rows storage rows ≡ r
          → Triple
              (λ w. g w.db ≡ rows)
              (scan_reply driver storage s ctx operation r)
              (λ records w. scan_rows storage (g w.db) ≡ ok records)
              AnyError
      replied (ok records) h = record { at = λ w p. rw p h }
      replied (err e) h = record { at = λ w p. tt }

      ended :
          (end : Stream)
          → Triple
              (λ w. g w.db ≡ rows)
              (scan_reply driver storage s ctx operation (scan_records storage rows end))
              (λ records w. scan_rows storage (g w.db) ≡ ok records)
              AnyError
      ended complete = replied (scan_rows storage rows) refl
      ended scan_failed = record { at = λ w p. tt }
      ended broken = record { at = λ w p. tt }

  query_records-Read :
      (ctx : Context) (operation : String) (g : Tables → List Row)
      → Triple Always
          (query_records driver storage s ctx operation (λ clock d. ok (g d, d)))
          (λ records w. scan_rows storage (g w.db) ≡ ok records)
          AnyError
  unfolding query_records query_reply
  query_records-Read ctx operation g =
      Triple-try (λ rows w. g w.db ≡ rows) AnyError _ (query_reply driver storage s ctx operation)
        (Triple-pool driver (λ clock d. ok (g d, d)) (λ w rows d p h. cc) (λ e w p. tt)
          (λ e w p. tt))
        (stream-Read ctx operation g) λ e. record { at = λ w p. tt }

  -- The end of a listing: the position, the rows behind it, and the page of their records.
  listed-Shows :
      {K : Type 0} (position : Result (Option K)) (ctx : Context) (operation : String) (limit : ℕ)
      (rows : Option K → Tables → List Row) (encode : OrderedRecord → Result Text)
      → Triple Always
          (do
            p ← returned position
            records ←
                query_records driver storage s ctx operation
                  (λ clock d. ok (take (suc limit) (rows p d), d))
            returned (page_of limit encode records))
          (λ page w.
            (p : Option K) × (position ≡ ok p) × Shows storage encode limit (rows p w.db) page)
          AnyError
  listed-Shows position ctx operation limit rows encode =
      Triple-bind (λ p _. position ≡ ok p) (returned position) _
        (Triple-returned position (λ p w h _. h) (λ e w h p. tt))
        λ p.
          Triple-bind
            (λ records w.
              (position ≡ ok p) × (scan_rows storage (take (suc limit) (rows p w.db)) ≡ ok records))
            _ _
            (Triple-fact (position ≡ ok p) _
              (query_records-Read ctx operation λ d. take (suc limit) (rows p d)))
            λ records.
              Triple-returned (page_of limit encode records)
                (λ page w h (from, read).
                  (p, from, page_of-Shows storage encode limit (rows p w.db) records page read h))
                (λ e w h q. tt)

-- A page that ListRanked returns shows the first of the live ranked rows of the namespace and the
-- ranking scope that are behind the position of its cursor, from the highest rank down and up to the
-- limit, in the tables as the call leaves them. It has a next cursor, that of its last record, just
-- where there are more such rows than the limit.
pub list_ranked-Shows :
    (driver : Driver Tables) (storage : OrderedStorage) (s : Store) (json : Json)
    (ctx : Option Context) (namespace scope after : Text) (limit : ℕ) (w : World Tables)
    (page : Page)
    → (list_ranked driver storage s json ctx namespace scope after limit w).0 ≡ ok page
    → let d = (list_ranked driver storage s json ctx namespace scope after limit w).1.db in
      (p : Option Position) × (decode_ranked_cursor storage json after namespace scope ≡ ok p)
      × Shows storage
          (encode_ranked_cursor storage json namespace scope)
          limit
          (behind_position ranked_key position_ge position_ge-IsTotalOrder p
            (keep (is_ranked namespace scope) d.records))
          page
unfolding list_ranked ranked
list_ranked-Shows driver storage s json ctx namespace scope after limit w page h =
    Post-ok _ AnyError _ page (shown.at w tt) h
  where
    shown :
        Triple Always
          (list_ranked driver storage s json ctx namespace scope after limit)
          (λ page w.
            (p : Option Position) × (decode_ranked_cursor storage json after namespace scope ≡ ok p)
            × Shows storage
                (encode_ranked_cursor storage json namespace scope)
                limit
                (behind_position ranked_key position_ge position_ge-IsTotalOrder p
                  (keep (is_ranked namespace scope) w.db.records))
                page)
          AnyError
    shown = Triple-then (bound driver ctx "OrderedIndex.ListRanked" s.operation_timeout) _ λ ctx'.
        Triple-then (checked (storage.validate_name namespace)) _ λ _.
          Triple-then (checked (storage.validate_name scope)) _ λ _.
            Triple-then (checked (storage.validate_ordered_limit limit)) _ λ _.
              listed-Shows driver storage s
                (decode_ranked_cursor storage json after namespace scope) ctx' "ordered list ranked"
                limit
                (λ p d.
                  behind_position ranked_key position_ge position_ge-IsTotalOrder p
                    (keep (is_ranked namespace scope) d.records))
                (encode_ranked_cursor storage json namespace scope)

-- A page that ListDue returns shows the first of the live rows of the namespace that are due at the
-- bound or before it and behind the position of its cursor, from the earliest due time up and up to the
-- limit, in the tables as the call leaves them. It has a next cursor, that of its last record, just
-- where there are more such rows than the limit.
pub list_due-Shows :
    (driver : Driver Tables) (storage : OrderedStorage) (s : Store) (json : Json)
    (ctx : Option Context) (namespace : Text) (due_at_or_before : ℤ) (after : Text) (limit : ℕ)
    (w : World Tables) (page : Page)
    → (list_due driver storage s json ctx namespace due_at_or_before after limit w).0 ≡ ok page
    → let d = (list_due driver storage s json ctx namespace due_at_or_before after limit w).1.db in
      (p : Option Position) × (decode_due_cursor storage json after namespace due_at_or_before
        ≡ ok p)
      × Shows storage
          (encode_due_cursor storage json namespace due_at_or_before)
          limit
          (behind_position due_key position_le position_le-IsTotalOrder p
            (keep (is_due namespace due_at_or_before) d.records))
          page
unfolding list_due due
list_due-Shows driver storage s json ctx namespace due_at_or_before after limit w page h =
    Post-ok _ AnyError _ page (shown.at w tt) h
  where
    shown :
        Triple Always
          (list_due driver storage s json ctx namespace due_at_or_before after limit)
          (λ page w.
            (p : Option Position) × (decode_due_cursor storage json after namespace due_at_or_before
              ≡ ok p)
            × Shows storage
                (encode_due_cursor storage json namespace due_at_or_before)
                limit
                (behind_position due_key position_le position_le-IsTotalOrder p
                  (keep (is_due namespace due_at_or_before) w.db.records))
                page)
          AnyError
    shown = Triple-then (bound driver ctx "OrderedIndex.ListDue" s.operation_timeout) _ λ ctx'.
        Triple-then (checked (storage.validate_name namespace)) _ λ _.
          Triple-then (checked (storage.validate_ordered_limit limit)) _ λ _.
            listed-Shows driver storage s
              (decode_due_cursor storage json after namespace due_at_or_before) ctx'
              "ordered list due" limit
              (λ p d.
                behind_position due_key position_le position_le-IsTotalOrder p
                  (keep (is_due namespace due_at_or_before) d.records))
              (encode_due_cursor storage json namespace due_at_or_before)
