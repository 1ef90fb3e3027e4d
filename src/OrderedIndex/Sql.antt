-- ===== src/OrderedIndex/Sql.antt =====
-- The tables ordered_scopes and ordered_records of migrations/0003_ordered_index.sql and the
-- statements of internal/orderedindex/orderedindex.go on single rows. The columns namespace,
-- ordering_scope and stable_key, the primary key, are the field `id`.
use pgstore.Prelude.{
  ℕ, ◌+◌, ◌-◌, ◌^◌, Bool, true, false, ◌&&◌, ◌||◌, not, Option, none, some, List, [], ◌∷◌, ltb, leb,
  ◌==◌, length, if◌then◌else◌,
}
use pgstore.Prelude.Int.{ℤ, pos, int_eq}
use pgstore.Text.{Text, text_eq}
use pgstore.Records.{OrderedId, Rank, Due, id_eq}
use pgstore.Errors.{Result, ok, err, no_rows, pg_error}
use pgstore.Driver.{Stmt}

-- 18446744073709551615
abbrev pub uint64_max : ℕ
uint64_max = 2 ^ 64 - 1

-- octet_length(value) <= 1048576
abbrev pub max_value_bytes : ℕ
max_value_bytes = 1048576

pub record Scope : Type 0 where
  pub namespace : Text
  pub ordering_scope : Text
  pub next_order : ℕ

pub record Row : Type 0 where
  pub id : OrderedId
  pub ranking_scope : Text
  pub revision : ℕ
  pub order_id : ℕ
  pub value : List ℕ
  pub value_is_nil : Bool
  pub ranked : Bool
  pub rank_value : ℤ
  pub due_state : ℕ
  pub due_at : ℤ
  pub deleted : Bool

pub record Tables : Type 0 where
  pub scopes : List Scope
  pub records : List Row

abbrev pub in_scope : Text → Text → Scope → Bool
in_scope namespace scope s = text_eq s.namespace namespace && text_eq s.ordering_scope scope

unfoldable pub find_scope : Text → Text → List Scope → Option ℕ
find_scope namespace scope [] = none
find_scope namespace scope (s ∷ ss) =
    if in_scope namespace scope s then some s.next_order else find_scope namespace scope ss

unfoldable pub set_scope : Text → Text → ℕ → List Scope → List Scope
set_scope namespace scope order [] = []
set_scope namespace scope order (s ∷ ss) =
    (if in_scope namespace scope s then record s { next_order = order } else s)
    ∷ set_scope namespace scope order ss

unfoldable pub find_record : OrderedId → List Row → Option Row
find_record id [] = none
find_record id (r ∷ rs) = if id_eq r.id id then some r else find_record id rs

-- UPDATE ... WHERE namespace = $1 AND ordering_scope = $2 AND stable_key = $3
unfoldable pub set_record : OrderedId → Row → List Row → List Row
set_record id r [] = []
set_record id r (x ∷ xs) = (if id_eq x.id id then r else x) ∷ set_record id r xs

abbrev pub selected : {A : Type 0} → Tables → Option A → Result (A × Tables)
selected d none = err no_rows
selected d (some a) = ok (a, d)

-- SELECT ... FROM ordered_records WHERE namespace = $1 AND ordering_scope = $2 AND stable_key = $3,
-- with or without FOR UPDATE
abbrev pub select_record : OrderedId → Stmt Tables Row
select_record id clock d = selected d (find_record id d.records)

abbrev scope_added : Text → Text → Tables → Option ℕ → Tables
scope_added namespace scope d none = record d {
  scopes = record { namespace = namespace; ordering_scope = scope; next_order = 0 } ∷ d.scopes;
}
scope_added namespace scope d (some order) = d

abbrev pub with_scope : Text → Text → Tables → Tables
with_scope namespace scope d = scope_added namespace scope d (find_scope namespace scope d.scopes)

-- INSERT INTO ordered_scopes (namespace, ordering_scope, next_order) VALUES ($1, $2, 0) ON CONFLICT
-- (namespace, ordering_scope) DO NOTHING
abbrev pub insert_scope : Text → Text → Stmt Tables (Unit {0})
insert_scope namespace scope clock d = ok (tt, with_scope namespace scope d)

-- SELECT next_order::text FROM ordered_scopes WHERE ... FOR UPDATE
abbrev pub select_order : Text → Text → Stmt Tables ℕ
select_order namespace scope clock d = selected d (find_scope namespace scope d.scopes)

abbrev order_advanced : Text → Text → Tables → Option ℕ → Result (ℕ × Tables)
order_advanced namespace scope d none = err no_rows
order_advanced namespace scope d (some order) =
    if ltb order uint64_max
    then ok (order + 1, record d { scopes = set_scope namespace scope (order + 1) d.scopes })
    else err (pg_error "23514")

-- UPDATE ordered_scopes SET next_order = next_order + 1 WHERE ... RETURNING next_order::text
abbrev pub advance_order : Text → Text → Stmt Tables ℕ
advance_order namespace scope clock d =
    order_advanced namespace scope d (find_scope namespace scope d.scopes)

-- The CHECK constraints on a row.
abbrev pub is_valid_row : Row → Bool
is_valid_row r =
    ltb 0 r.revision
    && leb r.revision uint64_max
    && ltb 0 r.order_id
    && leb r.order_id uint64_max
    && leb (length r.value) max_value_bytes
    && (r.due_state == 0 && int_eq r.due_at (pos 0) || r.due_state == 1)
    && (not r.deleted || not r.ranked && r.due_state == 0 && int_eq r.due_at (pos 0))

abbrev record_added : Row → Tables → Option Row → Result (Unit {0} × Tables)
record_added r d none = ok (tt, record d { records = r ∷ d.records })
record_added r d (some taken) = err (pg_error "23505")

-- INSERT INTO ordered_records (...) VALUES (...)
abbrev pub insert_record : Row → Stmt Tables (Unit {0})
insert_record r clock d =
    if is_valid_row r then record_added r d (find_record r.id d.records) else err (pg_error "23514")

abbrev pub rewritten : OrderedId → Row → Tables → Result (Unit {0} × Tables)
rewritten id r d =
    if is_valid_row r
    then ok (tt, record d { records = set_record id r d.records })
    else err (pg_error "23514")

abbrev pub updated_row : List ℕ → Bool → Rank → Due → Row → Row
updated_row value value_is_nil rank due r = record r {
  revision = r.revision + 1;
  value = value;
  value_is_nil = value_is_nil;
  ranked = rank.ranked;
  rank_value = rank.value;
  due_state = due.state;
  due_at = due.unix_millis;
}

abbrev record_updated :
    OrderedId → List ℕ → Bool → Rank → Due → Tables → Option Row → Result (Unit {0} × Tables)
record_updated id value value_is_nil rank due d none = ok (tt, d)
record_updated id value value_is_nil rank due d (some r) =
    rewritten id (updated_row value value_is_nil rank due r) d

-- UPDATE ordered_records SET revision = revision + 1, value = $4, value_is_nil = $5, ranked = $6,
-- rank_value = $7, due_state = $8, due_at = $9 WHERE ...
abbrev pub update_record : OrderedId → List ℕ → Bool → Rank → Due → Stmt Tables (Unit {0})
update_record id value value_is_nil rank due clock d =
    record_updated id value value_is_nil rank due d (find_record id d.records)

abbrev pub deleted_row : Row → Row
deleted_row r = record r {
  revision = r.revision + 1;
  ranked = false;
  rank_value = pos 0;
  due_state = 0;
  due_at = pos 0;
  deleted = true;
}

abbrev record_deleted : OrderedId → Tables → Option Row → Result (Unit {0} × Tables)
record_deleted id d none = ok (tt, d)
record_deleted id d (some r) = rewritten id (deleted_row r) d

-- UPDATE ordered_records SET revision = revision + 1, ranked = false, rank_value = 0, due_state = 0,
-- due_at = 0, deleted = true WHERE ...
abbrev pub delete_record : OrderedId → Stmt Tables (Unit {0})
delete_record id clock d = record_deleted id d (find_record id d.records)
