-- ===== src/OrderedIndex/Mutate.antt =====
-- Update and Delete of internal/orderedindex/orderedindex.go: updateOnce, deleteOnce and
-- resolveMutation.
pub mod Moves
pub mod Attempt
pub mod Outcome
pub mod Results
mod Tests
use pgstore.Prelude.{ℕ, ◌+◌, true, not, Option, ◌==◌, if◌then◌else◌}
use pgstore.Text.{Bytes}
use pgstore.Records.{
  OrderedId, Rank, Due, OrderedRecord, Operation, ordered_update, ordered_delete, unranked, not_due,
}
use pgstore.Errors.{
  Error, Result, ok, err, is_no_rows, ordered_ambiguous, ordered_not_found, ordered_deleted,
  ordered_revision_conflict, ordered_revision_exhausted,
}
use pgstore.Driver.{
  Driver, Exec, Stmt, pure, raise, caught, checked, tx_query, begin_tx, commit_tx, with_rollback,
  ◌>>=◌, ◌>>◌,
}
use pgstore.Storage.{OrderedStorage}
use pgstore.Guard.Defs.{Context, bound, safe_cause}
use pgstore.Postgres.{attempts, retryable, set_local_timeouts}
use pgstore.OrderedIndex.Sql.{Tables, uint64_max, update_record, delete_record}
use pgstore.OrderedIndex.Scan.{database_value, clone_value, records_equal}
use pgstore.OrderedIndex.{Store, Attempted, done, unknown, get_record, get_for_update, retry_loop}
use Prim.Native.String.{String}

-- What Update is given beside the identity and the revision.
pub record Change : Type 0 where
  pub value : Bytes
  pub rank : Rank
  pub due : Due

-- next := current, with what Update sets.
abbrev pub updated_record : Change → OrderedRecord → OrderedRecord
updated_record c current = record current {
  revision = current.revision + 1;
  value = clone_value c.value;
  rank = c.rank;
  due = c.due;
}

-- next := current, with what Delete sets.
abbrev pub deleted_record : OrderedRecord → OrderedRecord
deleted_record current = record current {
  revision = current.revision + 1;
  deleted = true;
  rank = unranked;
  due = not_due;
}

module _ (driver : Driver Tables) (storage : OrderedStorage) (s : Store) where
  -- The outcome of a commit, for Update and Delete.
  pub mutate_committed :
      Context → String → OrderedRecord → Result (Unit {0}) → Exec Tables (Attempted OrderedRecord)
  mutate_committed ctx operation next (ok _) = pure (done next)
  mutate_committed ctx operation next (err e) =
      if retryable e
      then raise e
      else do cause ← safe_cause ctx operation; pure (unknown next cause)

  -- The end of updateOnce and deleteOnce, from the test of the revision on.
  pub mutate_current :
      Context
      → String
      → OrderedId
      → ℕ
      → Stmt Tables (Unit {0})
      → (OrderedRecord → OrderedRecord)
      → OrderedRecord
      → Exec Tables (Attempted OrderedRecord)
  unfolding mutate_committed
  mutate_current ctx operation id expected statement next current =
      if not (current.revision == expected)
      then raise (ordered_revision_conflict id expected current.revision)
      else if current.revision == uint64_max
      then raise (ordered_revision_exhausted id current.revision)
      else do
        tx_query driver statement
        r ← caught (commit_tx driver)
        mutate_committed ctx operation (next current) r

  pub update_current :
      Context → OrderedId → ℕ → Change → OrderedRecord → Exec Tables (Attempted OrderedRecord)
  update_current ctx id expected c current =
      mutate_current ctx "ordered update commit" id expected
        (update_record id (database_value c.value).0 (database_value c.value).1 c.rank c.due)
        (updated_record c) current

  pub update_found :
      Context
      → OrderedId
      → ℕ
      → Change
      → Result OrderedRecord
      → Exec Tables (Attempted OrderedRecord)
  update_found ctx id expected c (err e) =
      if is_no_rows e then raise (ordered_not_found id) else raise e
  update_found ctx id expected c (ok current) =
      if current.deleted then raise (ordered_deleted id) else do
        checked (storage.validate_ordered_value c.value)
        checked (storage.validate_due c.due)
        update_current ctx id expected c current

  pub update_once : Context → OrderedId → ℕ → Change → Exec Tables (Attempted OrderedRecord)
  update_once ctx id expected c = with_rollback driver do
    begin_tx driver
    set_local_timeouts driver s.statement_timeout s.lock_timeout
    r ← caught (get_for_update driver storage s id)
    update_found ctx id expected c r

  pub delete_current :
      Context → OrderedId → ℕ → OrderedRecord → Exec Tables (Attempted OrderedRecord)
  delete_current ctx id expected current =
      mutate_current ctx "ordered delete commit" id expected (delete_record id) deleted_record
        current

  pub delete_found :
      Context → OrderedId → ℕ → Result OrderedRecord → Exec Tables (Attempted OrderedRecord)
  delete_found ctx id expected (err e) =
      if is_no_rows e then raise (ordered_not_found id) else raise e
  delete_found ctx id expected (ok current) =
      if current.deleted then pure (done current) else delete_current ctx id expected current

  pub delete_once : Context → OrderedId → ℕ → Exec Tables (Attempted OrderedRecord)
  delete_once ctx id expected = with_rollback driver do
    begin_tx driver
    set_local_timeouts driver s.statement_timeout s.lock_timeout
    r ← caught (get_for_update driver storage s id)
    delete_found ctx id expected r

  pub resolve_mutation_reply :
      Operation
      → OrderedId
      → OrderedRecord
      → Error
      → Result OrderedRecord
      → Exec Tables OrderedRecord
  resolve_mutation_reply operation id want cause (ok got) =
      if records_equal got want then pure got else raise (ordered_ambiguous operation id cause)
  resolve_mutation_reply operation id want cause (err e) =
      raise (ordered_ambiguous operation id cause)

  pub resolve_mutation : Operation → OrderedId → OrderedRecord → Error → Exec Tables OrderedRecord
  resolve_mutation operation id want cause = do
    r ← caught (get_record driver storage s id)
    resolve_mutation_reply operation id want cause r

  pub update : Option Context → OrderedId → ℕ → Change → Exec Tables OrderedRecord
  unfolding bound
  update ctx id expected c = do
    ctx ← bound driver ctx "OrderedIndex.Update" s.operation_timeout
    checked (storage.validate_ordered_id id)
    retry_loop "ordered update" (update_once ctx id expected c) (resolve_mutation ordered_update id)
        ctx attempts

  pub delete : Option Context → OrderedId → ℕ → Exec Tables OrderedRecord
  unfolding bound
  delete ctx id expected = do
    ctx ← bound driver ctx "OrderedIndex.Delete" s.operation_timeout
    checked (storage.validate_ordered_id id)
    retry_loop "ordered delete" (delete_once ctx id expected) (resolve_mutation ordered_delete id)
        ctx attempts
