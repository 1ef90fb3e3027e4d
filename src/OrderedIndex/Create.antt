-- ===== src/OrderedIndex/Create.antt =====
-- Create of internal/orderedindex/orderedindex.go: createOnce and resolveCreate.
pub mod Moves
pub mod Steps
pub mod Attempt
pub mod Results
mod Tests
use pgstore.Prelude.{ℕ, Bool, true, false, Option, ◌==◌, if◌then◌else◌}
use pgstore.Text.{Text, Bytes}
use pgstore.Records.{OrderedId, Rank, Due, OrderedRecord, ordered_create}
use pgstore.Errors.{
  Error, Result, ok, err, is_no_rows, redacted, order_exhausted, ordered_ambiguous,
}
use pgstore.Driver.{
  Driver, Exec, pure, raise, returned, caught, checked, tx_query, lock_query, begin_tx, commit_tx,
  with_rollback, ◌>>=◌, ◌>>◌,
}
use pgstore.Storage.{OrderedStorage}
use pgstore.Guard.Defs.{Context, bound, safe_cause, failure}
use pgstore.Postgres.{attempts, retryable, set_local_timeouts}
use pgstore.OrderedIndex.Decimal.{format_uint, parse_uint}
use pgstore.OrderedIndex.Sql.{
  Row, Tables, uint64_max, insert_scope, select_order, advance_order, insert_record,
}
use pgstore.OrderedIndex.Scan.{database_value, clone_value, records_equal}
use pgstore.OrderedIndex.{Store, Attempted, done, unknown, get_record, get_from, retry_loop}

-- What Create is given beside the identity.
pub record Candidate : Type 0 where
  pub ranking_scope : Text
  pub value : Bytes
  pub rank : Rank
  pub due : Due

abbrev pub new_record : OrderedId → Candidate → ℕ → OrderedRecord
new_record id c order = record {
  id = id;
  ranking_scope = c.ranking_scope;
  revision = 1;
  order = order;
  value = clone_value c.value;
  rank = c.rank;
  due = c.due;
  deleted = false;
}

-- The values of the INSERT.
abbrev pub new_row : OrderedId → Candidate → ℕ → Row
new_row id c order = record {
  id = id;
  ranking_scope = c.ranking_scope;
  revision = 1;
  order_id = order;
  value = (database_value c.value).0;
  value_is_nil = (database_value c.value).1;
  ranked = c.rank.ranked;
  rank_value = c.rank.value;
  due_state = c.due.state;
  due_at = c.due.unix_millis;
  deleted = false;
}

abbrev Created : Type 0
Created = OrderedRecord × Bool

module _ (driver : Driver Tables) (storage : OrderedStorage) (s : Store) where
  -- validateCandidate
  pub validate_candidate : Candidate → Exec Tables (Unit {0})
  validate_candidate c = do
    checked (storage.validate_name c.ranking_scope)
    checked (storage.validate_ordered_value c.value)
    checked (storage.validate_due c.due)

  -- The outcome of a commit, for Create.
  pub create_committed :
      Context → OrderedRecord → Result (Unit {0}) → Exec Tables (Attempted Created)
  create_committed ctx r (ok _) = pure (done (r, true))
  create_committed ctx r (err e) =
      if retryable e
      then raise e
      else do cause ← safe_cause ctx "ordered create commit"; pure (unknown r cause)

  pub create_at : Context → OrderedId → Candidate → ℕ → Exec Tables (Attempted Created)
  unfolding create_committed
  create_at ctx id c order = do
    tx_query driver (insert_record (new_row id c order))
    r ← caught (commit_tx driver)
    create_committed ctx (new_record id c order) r

  -- `if err != nil || order == 0`
  pub create_ordered : Context → OrderedId → Candidate → Result ℕ → Exec Tables (Attempted Created)
  create_ordered ctx id c (err e) = raise (redacted "ordered order decode")
  create_ordered ctx id c (ok order) =
      if order == 0 then raise (redacted "ordered order decode") else create_at ctx id c order

  pub create_advanced : Context → OrderedId → Candidate → Result ℕ → Exec Tables (Attempted Created)
  create_advanced ctx id c (err e) = if is_no_rows e then raise order_exhausted else raise e
  create_advanced ctx id c (ok order) = create_ordered ctx id c (parse_uint (format_uint order))

  pub create_counted : Context → OrderedId → Candidate → ℕ → Exec Tables (Attempted Created)
  create_counted ctx id c current = if current == uint64_max then raise order_exhausted else do
    r ← caught (tx_query driver (advance_order id.namespace id.ordering_scope))
    create_advanced ctx id c r

  -- An identity that is there is returned as it is.
  pub create_absent :
      Result OrderedRecord → Exec Tables (Attempted Created) → Exec Tables (Attempted Created)
  create_absent (ok r) rest = pure (done (r, false))
  create_absent (err e) rest = if is_no_rows e then rest else raise e

  pub create_locked : Context → OrderedId → Candidate → ℕ → Exec Tables (Attempted Created)
  create_locked ctx id c order = do
    r ← caught (get_from driver storage s id)
    create_absent r
        do current ← returned (parse_uint (format_uint order)); create_counted ctx id c current

  pub create_scoped : Context → OrderedId → Candidate → Exec Tables (Attempted Created)
  create_scoped ctx id c = do
    tx_query driver (insert_scope id.namespace id.ordering_scope)
    order ← lock_query driver (select_order id.namespace id.ordering_scope)
    create_locked ctx id c order

  pub create_once : Context → OrderedId → Candidate → Exec Tables (Attempted Created)
  create_once ctx id c = with_rollback driver do
    begin_tx driver
    set_local_timeouts driver s.statement_timeout s.lock_timeout
    r ← caught (get_from driver storage s id)
    create_absent r (create_scoped ctx id c)

  pub resolve_create_reply :
      OrderedId → OrderedRecord → Error → Result OrderedRecord → Exec Tables Created
  resolve_create_reply id want cause (ok got) =
      if records_equal got want
      then pure (got, true)
      else raise (ordered_ambiguous ordered_create id cause)
  resolve_create_reply id want cause (err e) = raise (ordered_ambiguous ordered_create id cause)

  pub resolve_create : OrderedId → OrderedRecord → Error → Exec Tables Created
  resolve_create id want cause = do
    r ← caught (get_record driver storage s id)
    resolve_create_reply id want cause r

  pub create_loop : Context → OrderedId → Candidate → ℕ → Exec Tables Created
  create_loop ctx id c left =
      retry_loop "ordered create" (create_once ctx id c) (resolve_create id) ctx left

  pub create_looked : Context → OrderedId → Candidate → Result OrderedRecord → Exec Tables Created
  create_looked ctx id c (ok existing) = pure (existing, false)
  create_looked ctx id c (err e) =
      if is_no_rows e
      then (do validate_candidate c; create_loop ctx id c attempts)
      else failure ctx "ordered create lookup"

  pub create : Option Context → OrderedId → Candidate → Exec Tables Created
  unfolding bound
  create ctx id c = do
    ctx ← bound driver ctx "OrderedIndex.Create" s.operation_timeout
    checked (storage.validate_ordered_id id)
    r ← caught (get_record driver storage s id)
    create_looked ctx id c r
