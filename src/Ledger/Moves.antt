-- ===== src/Ledger/Moves.antt =====
-- How an Append of internal/ledger/ledger.go moves the committed tables: by whole appends, each at
-- the expected tip, between what other clients commit.
use pgstore.Prelude.{ℕ, zero, suc, ◌≤◌, ◌≡◌, refl, Option, none, some, List, arith}
use pgstore.Text.{Text, Bytes, content}
use pgstore.Errors.{ok}
use pgstore.Driver.{Driver, tables_of}
use pgstore.Ledger.Sql.{
  Tables, bigint_max, find_tip, find_payload, row, with_scope, with_record, with_tip, insert_record,
  update_tip,
}
use pgstore.Ledger.{next_seq}

abbrev or_zero : Option ℕ → ℕ
or_zero none = 0
or_zero (some tip) = tip

-- The tip of a name as Tip reports it: 0 for a name without a scope.
abbrev pub tip_at : Tables → Text → ℕ
tip_at d name = or_zero (find_tip name d.scopes)

abbrev pub payload_at : Tables → Text → ℕ → Option (List ℕ)
payload_at d name seq = find_payload name seq d.records

pub tables_of-row : {A : Type 0} (d : Tables) (o : Option A) → tables_of d (row d o) ≡ d
tables_of-row d none = refl
tables_of-row d (some a) = refl

pub row-some :
    {A : Type 0} (d : Tables) (o : Option A) (a : A) (d' : Tables)
    → row d o ≡ ok (a, d')
    → o ≡ some a
row-some d none a d' h = absurd (cc)
row-some d (some b) a d' h = cc

pub records-with_scope : (name : Text) (d : Tables) → (with_scope name d).records ≡ d.records
records-with_scope name d = ground arith

pub insert_record-ok :
    (name : Text) (seq : ℕ) (payload : Bytes) (clock : ℕ) (x d : Tables) {a : Unit {0}}
    → insert_record name seq payload clock x ≡ ok (a, d)
    → (tables_of x (insert_record name seq payload clock x)
        ≡ with_record name seq (content payload) x)
      × (seq ≤ bigint_max)
      × (find_payload name seq x.records ≡ none)
insert_record-ok name seq payload clock x d h = ground arith

pub update_tip-ok :
    (name : Text) (tip clock : ℕ) (x d : Tables) {a : Unit {0}}
    → update_tip name tip clock x ≡ ok (a, d)
    → tables_of x (update_tip name tip clock x) ≡ with_tip name tip x
update_tip-ok name tip clock x d h = ground arith

-- The tables after one append.
abbrev pub appended : Text → ℕ → Bytes → Tables → Tables
appended name expected payload d =
    with_tip name (next_seq expected)
      (with_record name (next_seq expected) (content payload) (with_scope name d))

-- An append is due: the tip is the expected one, the next sequence fits, and its place is free.
pub record IsDue (name : Text) (expected : ℕ) (d : Tables) : Type 0 where
  pub tip : tip_at d name ≡ expected
  pub fits : next_seq expected ≤ bigint_max
  pub free : payload_at d name (next_seq expected) ≡ none

-- From `start`, with so many appends of this caller.
pub data Moves (driver : Driver Tables) (name : Text) (expected : ℕ) (payload : Bytes)
    (start : Tables) : ℕ → Tables → Type 0 where
  here : Moves driver name expected payload start zero start
  other :
      {k : ℕ} {d : Tables} (n : ℕ)
      → Moves driver name expected payload start k d
      → Moves driver name expected payload start k (driver.others n d)
  append :
      {k : ℕ} {d : Tables}
      → Moves driver name expected payload start k d
      → IsDue name expected d
      → Moves driver name expected payload start (suc k) (appended name expected payload d)
