-- ===== src/Ledger/Sql.antt =====
-- The tables ledger_scopes and ledger_records of migrations/0001_ledger_kv.sql, and the statements
-- of internal/ledger/ledger.go on them.
use pgstore.Prelude.{
  ℕ, ◌-◌, ◌^◌, ◌&&◌, not, Option, none, some, List, [], ◌∷◌, leb, ◌==◌, if◌then◌else◌,
}
use pgstore.Text.{Text, Bytes, text_eq}
use pgstore.Errors.{Result, ok, err, no_rows, pg_error}
use pgstore.Driver.{Stmt}

abbrev pub bigint_max : ℕ
bigint_max = 2 ^ 63 - 1

pub record Scope : Type 0 where
  pub name : Text
  pub tip : ℕ

pub record Entry : Type 0 where
  pub name : Text
  pub seq : ℕ
  pub payload : List ℕ

pub record Tables : Type 0 where
  pub scopes : List Scope
  pub records : List Entry

unfoldable pub find_tip : Text → List Scope → Option ℕ
find_tip name [] = none
find_tip name (s ∷ ss) = if text_eq s.name name then some s.tip else find_tip name ss

unfoldable pub find_payload : Text → ℕ → List Entry → Option (List ℕ)
find_payload name seq [] = none
find_payload name seq (r ∷ rs) =
    if text_eq r.name name && r.seq == seq then some r.payload else find_payload name seq rs

unfoldable pub set_tip : Text → ℕ → List Scope → List Scope
set_tip name tip [] = []
set_tip name tip (s ∷ ss) =
    (if text_eq s.name name then record s { tip = tip } else s) ∷ set_tip name tip ss

unfoldable pub without_scope : Text → List Scope → List Scope
without_scope name [] = []
without_scope name (s ∷ ss) =
    let rest = without_scope name ss in if text_eq s.name name then rest else s ∷ rest

unfoldable pub without_records : Text → List Entry → List Entry
without_records name [] = []
without_records name (r ∷ rs) =
    let rest = without_records name rs in if text_eq r.name name then rest else r ∷ rest

abbrev scope_added : Text → Tables → Option ℕ → Tables
scope_added name d none = record d { scopes = record { name = name; tip = 0 } ∷ d.scopes }
scope_added name d (some tip) = d

abbrev pub with_scope : Text → Tables → Tables
with_scope name d = scope_added name d (find_tip name d.scopes)

-- INSERT INTO ledger_scopes (name, tip) VALUES ($1, 0) ON CONFLICT (name) DO NOTHING
abbrev pub insert_scope : Text → Stmt Tables (Unit {0})
insert_scope name clock d = ok (tt, with_scope name d)

abbrev pub row : {A : Type 0} → Tables → Option A → Result (A × Tables)
row d none = err no_rows
row d (some a) = ok (a, d)

-- SELECT tip FROM ledger_scopes WHERE name = $1, with or without FOR UPDATE
abbrev pub select_tip : Text → Stmt Tables ℕ
select_tip name clock d = row d (find_tip name d.scopes)

abbrev pub with_record : Text → ℕ → List ℕ → Tables → Tables
with_record name seq payload d = record d {
  records = record { name = name; seq = seq; payload = payload } ∷ d.records;
}

abbrev record_added :
    Text → ℕ → List ℕ → Tables → Option (List ℕ) → Option ℕ → Result (Unit {0} × Tables)
record_added name seq payload d none (some tip) = ok (tt, with_record name seq payload d)
record_added name seq payload d none none = err (pg_error "23503")
record_added name seq payload d (some taken) scope = err (pg_error "23505")

-- INSERT INTO ledger_records (name, seq, payload) VALUES ($1, $2, $3), with the columns' rules: NOT
-- NULL (a nil slice is NULL), bigint, CHECK (seq > 0), the primary key, the reference to the scope.
abbrev pub insert_record : Text → ℕ → Bytes → Stmt Tables (Unit {0})
insert_record name seq none clock d = err (pg_error "23502")
insert_record name seq (some payload) clock d =
    if not (leb seq bigint_max)
    then err (pg_error "22003")
    else if seq == 0
    then err (pg_error "23514")
    else record_added name seq payload d (find_payload name seq d.records) (find_tip name d.scopes)

abbrev pub with_tip : Text → ℕ → Tables → Tables
with_tip name tip d = record d { scopes = set_tip name tip d.scopes }

-- UPDATE ledger_scopes SET tip = $2 WHERE name = $1
abbrev pub update_tip : Text → ℕ → Stmt Tables (Unit {0})
update_tip name tip clock d =
    if leb tip bigint_max then ok (tt, with_tip name tip d) else err (pg_error "22003")

abbrev find_stored : Option (List ℕ) → Option Bytes
find_stored none = none
find_stored (some payload) = some (some payload)

-- SELECT payload FROM ledger_records WHERE name = $1 AND seq = $2
abbrev pub select_payload : Text → ℕ → Stmt Tables Bytes
select_payload name seq clock d =
    if leb seq bigint_max
    then row d (find_stored (find_payload name seq d.records))
    else err (pg_error "22003")

unfoldable pub insert_by_seq : Entry → List Entry → List Entry
insert_by_seq r [] = r ∷ []
insert_by_seq r (x ∷ xs) = if leb r.seq x.seq then r ∷ x ∷ xs else x ∷ insert_by_seq r xs

-- ... WHERE name = $1 AND seq >= $2 ORDER BY seq
unfoldable pub records_from : Text → ℕ → List Entry → List Entry
unfolding insert_by_seq
records_from name from [] = []
records_from name from (r ∷ rs) =
    let rest = records_from name from rs in
    if text_eq r.name name && leb from r.seq then insert_by_seq r rest else rest

-- SELECT seq, payload FROM ledger_records WHERE name = $1 AND seq >= $2 ORDER BY seq
abbrev pub select_records : Text → ℕ → Stmt Tables (List Entry)
select_records name from clock d =
    if leb from bigint_max then ok (records_from name from d.records, d) else err (pg_error "22003")

-- DELETE FROM ledger_scopes WHERE name = $1, and ON DELETE CASCADE
abbrev pub without : Text → Tables → Tables
without name d = record {
  scopes = without_scope name d.scopes;
  records = without_records name d.records;
}

abbrev pub delete_scope : Text → Stmt Tables (Unit {0})
delete_scope name clock d = ok (tt, without name d)

abbrev one_of : Option ℕ → Option ℕ
one_of none = none
one_of (some tip) = some 1

-- SELECT 1 FROM ledger_scopes WHERE name = $1
abbrev pub select_present : Text → Stmt Tables ℕ
select_present name clock d = row d (one_of (find_tip name d.scopes))
