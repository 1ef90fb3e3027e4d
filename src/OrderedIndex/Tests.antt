-- ===== src/OrderedIndex/Tests.antt =====
-- Runs of the listings and cursors of internal/orderedindex/orderedindex.go on small tables, and the
-- theorems at inputs that meet their hypotheses.
use pgstore.Prelude.{
  ◌≡◌, ◌⊎◌, inl, inr, ◌↔◌, refl, true, false, Option, none, some, [], ◌∷◌, keep, take, arith,
}
use pgstore.Prelude.Int.{pos}
use pgstore.Text.{codes, text_eq, text_le}
use pgstore.Records.{id_eq_iff, OrderedId, OrderedRecord, unranked, not_due, ranked_kind}
use pgstore.Errors.{ok}
use pgstore.Driver.{pool_query, stream}
use pgstore.Postgres.{RetryableAborts, retryable}
use pgstore.Guard.Defs.{bound}
use pgstore.OrderedIndex.Sql.{Row, find_record, find_scope}
use pgstore.OrderedIndex.Decimal.{format_uint, parse_uint, read_uint, parse_uint-format}
use pgstore.OrderedIndex.Scan.{scan_record, decoded}
use pgstore.OrderedIndex.Fixtures.{
  store, any_record, background, id_of, three_rows, row_of, documents, healthy,
}
use pgstore.OrderedIndex.Query.{
  Position, ranked, ordered, order_by, insert_by, is_after, is_ranked, position_le, position_ge,
  ranked_key,
}
use pgstore.OrderedIndex.Base64.{encode, decode}
use pgstore.OrderedIndex.Cursor.{
  Envelope, envelope_position, ranked_envelope, ranked_position, encode_ranked_cursor,
  encode_cursor, decode_ranked_cursor, decode_cursor,
}
use pgstore.OrderedIndex.Cursor.Laws.{ReadsBack, decode_ranked_cursor-encode}
use pgstore.OrderedIndex.Cursor.Bound.{Accepted, ranked_cursor_bound}
use pgstore.OrderedIndex.Pages.{Page, list_ranked, page_of, query_records, scan_records, scan_rows}
use pgstore.OrderedIndex.Pages.Cut.{Shows}
use pgstore.OrderedIndex.Pages.Shown.{list_ranked-Shows}
use pgstore.OrderedIndex.View.{IsPrimary}
use pgstore.OrderedIndex.Listing.{ranked-all, rows_of_page, position_ge-IsTotalOrder}
use pgstore.OrderedIndex.Keyset.{behind_position}
use pgstore.OrderedIndex.Walk.{walk}
use pgstore.OrderedIndex.OrderWalk.{walk_orders, ordered-all}
use pgstore.OrderedIndex.Create.{Candidate, create}
use pgstore.OrderedIndex.Mutate.{Change, update, delete}
use pgstore.OrderedIndex.Order.{IsNumbered, writes-IsNumbered}

parse_uint-format_example : (parse_uint (codes "120") ≡ ok 120) ↔ (codes "120" ≡ format_uint 120)
parse_uint-format_example = parse_uint-format 120 (codes "120") (omega arith)

healthy-RetryableAborts : RetryableAborts healthy
unfolding retryable
healthy-RetryableAborts = record { lost_final = λ n f e. absurd (cc) }

-- A row is one of the three.
found_row :
    (id : OrderedId) (r : Row)
    → find_record id three_rows.db.records ≡ some r
    → ((id ≡ id_of (codes "b")) × (r.order_id ≡ 3))
      ⊎ (((id ≡ id_of (codes "c")) × (r.order_id ≡ 1))
          ⊎ ((id ≡ id_of (codes "a")) × (r.order_id ≡ 2)))
unfolding find_record
found_row id r h = ground (
  arith,
  id_eq_iff (id_of (codes "b")) id,
  id_eq_iff (id_of (codes "c")) id,
  id_eq_iff (id_of (codes "a")) id,
)

three_rows-IsPrimary : IsPrimary three_rows.db.records
three_rows-IsPrimary = ground arith

three_rows-IsNumbered : IsNumbered three_rows.db
unfolding find_scope text_eq
three_rows-IsNumbered = record {
  primary = three_rows-IsPrimary;
  bounded = λ id r h. elim (found_row id r h) [
    | inl (e, o) ↦ rw (e, o) (omega arith)
    | inr (inl (e, o)) ↦ rw (e, o) (omega arith)
    | inr (inr (e, o)) ↦ rw (e, o) (omega arith)
  ];
  distinct = λ a b r t n s h k same. ground (arith, found_row a r h, found_row b t k, same);
}

abbrev candidate : Candidate
candidate = record { ranking_scope = codes "r"; value = none; rank = unranked; due = not_due }

abbrev change : Change
change = record { value = none; rank = unranked; due = not_due }

writes-IsNumbered_example :
    IsNumbered
      (create healthy any_record store
        (some background)
        (id_of (codes "d"))
        candidate
        three_rows).1.db
    × IsNumbered
        (update healthy any_record store
          (some background)
          (id_of (codes "d"))
          4
          change
          three_rows).1.db
    × IsNumbered
        (delete healthy any_record store (some background) (id_of (codes "d")) 4 three_rows).1.db
writes-IsNumbered_example =
    writes-IsNumbered healthy any_record store (some background) (id_of (codes "d")) candidate 4
      change three_rows healthy-RetryableAborts (λ n d v. v) three_rows-IsNumbered

ranked-all_example :
    walk
      (λ position. rows_of_page (ranked (codes "n") (codes "r") position 2 0 three_rows.db))
      ranked_key
      2
      4
      none
    ≡ row_of (codes "b") 1 3 ∷ row_of (codes "a") 1 2 ∷ row_of (codes "c") 4 1 ∷ []
unfolding order_by insert_by keep position_le text_eq
ranked-all_example =
    ranked-all (codes "n") (codes "r") 2 0 4 three_rows.db (omega arith) three_rows-IsPrimary
      (omega arith)

ordered-all_example :
    walk_orders (λ k. rows_of_page (ordered (codes "n") (codes "o") k 2 0 three_rows.db)) 4 0
    ≡ row_of (codes "c") 4 1 ∷ row_of (codes "a") 1 2 ∷ row_of (codes "b") 1 3 ∷ []
unfolding order_by insert_by keep position_le text_eq
ordered-all_example =
    ordered-all (codes "n") (codes "o") 0 2 0 4 three_rows.db (omega arith) three_rows-IsNumbered
      (omega arith)

abbrev last_record : OrderedRecord
last_record = record {
  id = id_of (codes "a");
  ranking_scope = codes "r";
  revision = 1;
  order = 2;
  value = some (5 ∷ []);
  rank = record { ranked = true; value = pos 2 };
  due = record { state = 1; unix_millis = pos 2 };
  deleted = false;
}

abbrev page : Page
page = record {
  records =
      record last_record {
        id = id_of (codes "b");
        order = 3;
        rank = record { ranked = true; value = pos 3 };
        due = record { state = 1; unix_millis = pos 3 };
      }
      ∷ last_record
      ∷ [];
  next_cursor = encode (2 ∷ codes "a");
}

first_page :
    (list_ranked healthy any_record store documents
      (some background)
      (codes "n")
      (codes "r")
      []
      2
      three_rows).0
    ≡ ok page
unfolding list_ranked query_records scan_records scan_rows scan_record decoded page_of take
    encode_ranked_cursor encode_cursor decode_ranked_cursor ranked order_by insert_by is_after keep
    position_le text_eq text_le pool_query stream bound format_uint parse_uint read_uint
first_page = refl

list_ranked-Shows_example :
    (p : Option Position) × (decode_ranked_cursor any_record documents [] (codes "n") (codes "r")
      ≡ ok p)
    × Shows any_record
        (encode_ranked_cursor any_record documents (codes "n") (codes "r"))
        2
        (behind_position ranked_key position_ge position_ge-IsTotalOrder p (
          keep
            (is_ranked (codes "n") (codes "r"))
            (list_ranked healthy any_record store documents
              (some background)
              (codes "n")
              (codes "r")
              []
              2
              three_rows).1.db.records))
        page
list_ranked-Shows_example =
    list_ranked-Shows healthy any_record store documents (some background) (codes "n") (codes "r")
      [] 2 three_rows page first_page

documents-ReadsBack :
    ReadsBack documents
      (ranked_envelope any_record (codes "n") (codes "r") (ranked_position last_record))
      (2 ∷ codes "a")
documents-ReadsBack = record {
  marshalled = refl;
  bytes = (omega arith, (omega arith, tt));
  not_empty = omega arith;
  header_read = refl;
  envelope_read = refl;
}

decode_ranked_cursor-encode_example :
    (encode_ranked_cursor any_record documents (codes "n") (codes "r") last_record
      ≡ ok (encode (2 ∷ codes "a")))
    × (decode_ranked_cursor any_record documents (encode (2 ∷ codes "a")) (codes "n") (codes "r")
        ≡ ok (some (ranked_position last_record)))
decode_ranked_cursor-encode_example =
    decode_ranked_cursor-encode any_record documents (codes "n") (codes "r") last_record
      (2 ∷ codes "a") documents-ReadsBack (omega arith) refl (omega arith)

cursor_read :
    decode_ranked_cursor any_record documents (encode (2 ∷ codes "a")) (codes "n") (codes "r")
    ≡ ok (some (ranked_position last_record))
unfolding decode_ranked_cursor decode_cursor encode decode keep text_eq
cursor_read = refl

ranked_cursor_bound_example :
    (e : Envelope) × Accepted any_record documents (encode (2 ∷ codes "a")) ranked_kind e
    × (e.namespace ≡ codes "n")
    × (e.ranking_scope ≡ codes "r")
    × (e.due_bound ≡ none)
    × (ranked_position last_record ≡ envelope_position e)
ranked_cursor_bound_example =
    ranked_cursor_bound any_record documents (encode (2 ∷ codes "a")) (codes "n") (codes "r")
      (ranked_position last_record) cursor_read

-- A line end within a cursor is passed over: the text is not the one that was handed out, and stands
-- for the same position.
line_end_accepted : decode (10 ∷ encode (2 ∷ codes "a")) ≡ some (2 ∷ codes "a")
unfolding encode decode keep
line_end_accepted = refl
