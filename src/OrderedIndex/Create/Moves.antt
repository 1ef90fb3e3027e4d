-- ===== src/OrderedIndex/Create/Moves.antt =====
-- How a Create of internal/orderedindex/orderedindex.go moves the committed tables: by whole
-- creations of an identity that is not there, each with the next order of its scope, between what
-- other clients commit.
use pgstore.Prelude.{ℕ, zero, suc, ◌≤◌, ◌<◌, ◌≡◌, refl, ◌∙◌, none, some, ◌∷◌, arith}
use pgstore.Text.{text_eq_iff}
use pgstore.Records.{OrderedId, id_eq_iff}
use pgstore.Errors.{ok}
use pgstore.Driver.{Driver, tables_of}
use pgstore.OrderedIndex.Sql.{
  Tables, Row, uint64_max, find_record, set_scope, with_scope, advance_order, insert_record,
}
use pgstore.OrderedIndex.Scan.{decoded, decoded-fits, stored_value}
use pgstore.OrderedIndex.View.{order_at, view, find_scope-with}
use pgstore.OrderedIndex.Create.{Candidate, new_row, new_record}

-- The scopes after a creation.
abbrev pub counted : OrderedId → Tables → Tables
counted id d =
    let e = with_scope id.namespace id.ordering_scope d in
    record e {
      scopes =
          set_scope id.namespace id.ordering_scope (suc (order_at d id.namespace id.ordering_scope))
            e.scopes;
    }

-- The tables after one creation.
abbrev pub created : OrderedId → Candidate → Tables → Tables
created id c d = record {
  scopes = (counted id d).scopes;
  records = new_row id c (suc (order_at d id.namespace id.ordering_scope)) ∷ d.records;
}

-- From `start`, with so many creations of this caller.
pub data Creates (driver : Driver Tables) (id : OrderedId) (c : Candidate) (start : Tables)
    : ℕ → Tables → Type 0 where
  here : Creates driver id c start zero start
  other :
      {k : ℕ} {d : Tables} (n : ℕ)
      → Creates driver id c start k d
      → Creates driver id c start k (driver.others n d)
  creation :
      {k : ℕ} {d : Tables}
      → find_record id d.records ≡ none
      → order_at d id.namespace id.ordering_scope < uint64_max
      → Creates driver id c start k d
      → Creates driver id c start (suc k) (created id c d)

pub advance_order-ok :
    (id : OrderedId) (clock n : ℕ) (d x : Tables)
    → advance_order id.namespace id.ordering_scope clock
        (with_scope id.namespace id.ordering_scope d)
      ≡ ok (n, x)
    → (n ≡ suc (order_at d id.namespace id.ordering_scope))
      × (n ≤ uint64_max)
      × (tables_of (with_scope id.namespace id.ordering_scope d) (
            advance_order id.namespace id.ordering_scope clock
              (with_scope id.namespace id.ordering_scope d))
          ≡ counted id d)
advance_order-ok id clock n d x h = ground (
  arith,
  find_scope-with id.namespace id.ordering_scope id.namespace id.ordering_scope d,
  text_eq_iff id.namespace id.namespace,
  text_eq_iff id.ordering_scope id.ordering_scope,
)

pub insert_record-ok :
    (r : Row) (clock : ℕ) (d x : Tables) {a : Unit {0}}
    → insert_record r clock d ≡ ok (a, x)
    → (find_record r.id d.records ≡ none)
      × (tables_of d (insert_record r clock d) ≡ record d { records = r ∷ d.records })
insert_record-ok r clock d x h = ground arith

pub decoded-new_row :
    (id : OrderedId) (c : Candidate) (order : ℕ)
    → order ≤ uint64_max
    → decoded (new_row id c order) ≡ ok (new_record id c order)
decoded-new_row id c order h =
    decoded-fits (new_row id c order) (omega arith) (omega arith) ∙ rw (stored_value c.value) refl

pub view-created :
    (id : OrderedId) (c : Candidate) (d : Tables)
    → order_at d id.namespace id.ordering_scope < uint64_max
    → view (created id c d) id
      ≡ some (ok (new_record id c (suc (order_at d id.namespace id.ordering_scope))))
unfolding find_record
view-created id c d h = ground (
  arith,
  id_eq_iff id id,
  decoded-new_row id c (suc (order_at d id.namespace id.ordering_scope)) (omega arith),
)
