-- ===== src/OrderedIndex.antt =====
-- internal/orderedindex/orderedindex.go: records with an order, a rank and a due time. This file has
-- Get, and the loop that Create, Update and Delete run; they and the listings are below it.
pub mod Decimal
pub mod Sql
pub mod Scan
mod Retry
pub mod View
mod Reading
mod Fixtures
mod Tests
pub mod Create
pub mod Mutate
pub mod Order
pub mod Query
pub mod Keyset
pub mod Base64
pub mod Cursor
pub mod Pages
pub mod Walk
pub mod Listing
pub mod OrderWalk
use pgstore.Prelude.{
  ℕ, zero, suc, Bool, true, false, ◌==◌, Option, none, some, List, String, if◌then◌else◌,
}
use pgstore.Records.{OrderedId, OrderedRecord}
use pgstore.Errors.{
  Error, Result, ok, err, panicked, is_no_rows, invalid_name, invalid_due, value_too_large,
  ordered_not_found, ordered_deleted, ordered_revision_conflict, ordered_revision_exhausted,
  order_exhausted,
}
use pgstore.Driver.{
  Driver, Exec, pure, raise, returned, caught, checked, pool_query, tx_query, lock_query, ◌>>=◌,
  ◌>>◌,
}
use pgstore.Storage.{OrderedStorage}
use pgstore.Guard.Defs.{Context, bound, ctx_err, failure, default_operation_timeout}
use pgstore.Options.{timeouts}
use pgstore.Postgres.{retryable}
use Sql.{Tables, select_record}
use Scan.{scan_record}

-- The fields that the operations read beside the pool and the names of the tables.
pub record Store : Type 0 where
  pub operation_timeout : ℕ
  pub statement_timeout : ℕ
  pub lock_timeout : ℕ

-- New
abbrev pub new : List ℕ → Store
new operation_timeouts = record {
  operation_timeout = default_operation_timeout;
  statement_timeout = (timeouts operation_timeouts).0;
  lock_timeout = (timeouts operation_timeouts).1;
}

-- WithOperationTimeout
abbrev pub with_operation_timeout : Store → ℕ → Store
with_operation_timeout s timeout = record s { operation_timeout = timeout }

-- What createOnce, updateOnce and deleteOnce return: a result, or the record that a commit of
-- unknown outcome would have stored, with the cause (commitOutcomeError). Any other error is raised.
pub data Attempted (A : Type 0) : Type 0 where
  done : A → Attempted A
  unknown : OrderedRecord → Error → Attempted A

-- isContractError
unfoldable pub is_contract_error : Error → Bool
is_contract_error (ordered_not_found id) = true
is_contract_error (ordered_deleted id) = true
is_contract_error (ordered_revision_conflict id expected actual) = true
is_contract_error (ordered_revision_exhausted id revision) = true
is_contract_error order_exhausted = true
is_contract_error (invalid_name name) = true
is_contract_error invalid_due = true
is_contract_error value_too_large = true
is_contract_error _ = false

module _ (driver : Driver Tables) (storage : OrderedStorage) (s : Store) where
  -- getFrom on the pool, on a transaction, and with FOR UPDATE.
  unfoldable pub get_record : OrderedId → Exec Tables OrderedRecord
  unfolding pool_query
  get_record id = do row ← pool_query driver (select_record id); returned (scan_record storage row)

  unfoldable pub get_from : OrderedId → Exec Tables OrderedRecord
  unfolding tx_query
  get_from id = do row ← tx_query driver (select_record id); returned (scan_record storage row)

  unfoldable pub get_for_update : OrderedId → Exec Tables OrderedRecord
  get_for_update id = do
    row ← lock_query driver (select_record id)
    returned (scan_record storage row)

  get_reply : Context → OrderedId → Result OrderedRecord → Exec Tables OrderedRecord
  get_reply ctx id (ok r) = pure r
  get_reply ctx id (err e) =
      if is_no_rows e then raise (ordered_not_found id) else failure ctx "ordered get"

  pub get : Option Context → OrderedId → Exec Tables OrderedRecord
  unfolding get_reply bound get_record
  get ctx id = do
    ctx ← bound driver ctx "OrderedIndex.Get" s.operation_timeout
    checked (storage.validate_ordered_id id)
    r ← caught (get_record id)
    get_reply ctx id r

module _ {A : Type 0} (operation : String) (once : Exec Tables (Attempted A))
    (resolve : OrderedRecord → Error → Exec Tables A) (ctx : Context) where
  -- `if ctxErr := ctx.Err(); ctxErr != nil { return ctxErr }; return failure(ctx, operation)`
  give_up : Option Error → Exec Tables A
  give_up (some e) = raise e
  give_up none = failure ctx operation

  -- The rest of `Retryable(err) && ctx.Err() == nil && attempt+1 < Attempts()`.
  retry_or_give_up : Bool → Exec Tables A → Option Error → Exec Tables A
  unfolding give_up
  retry_or_give_up last again (some e) = do c ← ctx_err ctx; give_up c
  retry_or_give_up last again none = if last then (do c ← ctx_err ctx; give_up c) else again

  pub attempt_failed : Bool → Exec Tables A → Error → Exec Tables A
  unfolding give_up retry_or_give_up
  attempt_failed last again e =
      if is_contract_error e
      then raise e
      else if retryable e
      then (do c ← ctx_err ctx; retry_or_give_up last again c)
      else do c ← ctx_err ctx; give_up c

  pub attempt_reply : Bool → Exec Tables A → Result (Attempted A) → Exec Tables A
  attempt_reply last again (ok (done a)) = pure a
  attempt_reply last again (ok (unknown want cause)) = resolve want cause
  attempt_reply last again (err e) = attempt_failed last again e

  -- `for attempt := 0; attempt < Attempts(); attempt++`, by the attempts that are left.
  pub retry_loop : ℕ → Exec Tables A
  unfolding attempt_reply
  retry_loop zero = raise (panicked "unreachable")
  retry_loop (suc left) = do r ← caught once; attempt_reply (left == 0) (λ w. retry_loop left w) r
