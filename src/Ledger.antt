-- ===== src/Ledger.antt =====
-- internal/ledger/ledger.go: the append-only log of a name. `Sql` has its tables and statements.
pub mod Sql
pub mod Moves
pub mod Attempt
pub mod Append
pub mod Contiguous
pub mod Reads
pub mod Delete
mod Tests
use pgstore.Prelude.{
  ℕ, zero, suc, ◌+◌, ◌%◌, ◌^◌, Bool, true, false, ◌||◌, not, Option, none, some, List, String,
  get_elem?, length, ltb, leb, ◌==◌, if◌then◌else◌,
}
use pgstore.Text.{Text, Bytes, bytes_equal}
use pgstore.Errors.{
  Error, Result, ok, err, redacted, conflict, ambiguous, commit_outcome, end_of_file, panicked,
  is_no_rows,
}
use pgstore.Driver.{
  Driver, Exec, Stream, complete, scan_failed, broken, pure, raise, caught, checked, pool_query,
  tx_query, lock_query, begin_tx, commit_tx, with_rollback, stream, ◌>>=◌, ◌>>◌,
}
use pgstore.Storage.{Storage}
use pgstore.Guard.Defs.{Context, bound, ctx_err, failure, safe_cause, default_operation_timeout}
use pgstore.Options.{timeouts}
use pgstore.Postgres.{attempts, retryable, set_local_timeouts}
use Sql.{
  Tables, Entry, insert_scope, select_tip, insert_record, update_tip, select_payload,
  select_records, delete_scope, select_present,
}

-- The fields that the operations read beside the pool and the names of the tables.
pub record Store : Type 0 where
  pub operation_timeout : ℕ
  pub statement_timeout : ℕ
  pub lock_timeout : ℕ

-- New
abbrev pub new : List ℕ → Store
new operation_timeouts = record {
  operation_timeout = default_operation_timeout;
  statement_timeout = (timeouts operation_timeouts).0;
  lock_timeout = (timeouts operation_timeouts).1;
}

-- WithOperationTimeout
abbrev pub with_operation_timeout : Store → ℕ → Store
with_operation_timeout s timeout = record s { operation_timeout = timeout }

-- expected + 1 on uint64
abbrev pub next_seq : ℕ → ℕ
next_seq expected = (expected + 1) % 2 ^ 64

-- errors.As(err, &commitErr)
abbrev pub outcome_cause : Error → Option Error
outcome_cause (commit_outcome cause) = some cause
outcome_cause _ = none

-- errors.As(err, &conflict)
abbrev pub is_conflict : Error → Bool
is_conflict (conflict name expected) = true
is_conflict (commit_outcome cause) = is_conflict cause
is_conflict _ = false

pub record Cursor : Type 0 where
  pub operation_timeout : ℕ
  pub records : List Entry
  pub position : ℕ
  pub closed : Bool

module _ (driver : Driver Tables) (storage : Storage) (s : Store) where
  commit_reply : Result (Unit {0}) → Exec Tables (Unit {0})
  commit_reply (ok _) = pure tt
  commit_reply (err e) = if retryable e then raise e else raise (commit_outcome e)

  append_locked : Text → ℕ → Bytes → ℕ → Exec Tables (Unit {0})
  unfolding commit_reply
  append_locked name expected payload tip =
      if not (tip == expected) then raise (conflict name expected) else do
        tx_query driver (insert_record name (next_seq expected) payload)
        tx_query driver (update_tip name (next_seq expected))
        r ← caught (commit_tx driver)
        commit_reply r

  pub append_once : Text → ℕ → Bytes → Exec Tables (Unit {0})
  append_once name expected payload = with_rollback driver do
    begin_tx driver
    set_local_timeouts driver s.statement_timeout s.lock_timeout
    tx_query driver (insert_scope name)
    tip ← lock_query driver (select_tip name)
    append_locked name expected payload tip

  resolve_append_reply : Text → ℕ → Bytes → Error → Result Bytes → Exec Tables (Unit {0})
  resolve_append_reply name expected payload cause (ok stored) =
      if bytes_equal stored payload then pure tt else raise (conflict name expected)
  resolve_append_reply name expected payload cause (err e) = raise (ambiguous name expected cause)

  pub resolve_append : Text → ℕ → Bytes → Error → Exec Tables (Unit {0})
  unfolding resolve_append_reply pool_query
  resolve_append name expected payload cause = do
    r ← caught (pool_query driver (select_payload name (next_seq expected)))
    resolve_append_reply name expected payload cause r

  -- The end of the loop's body: `last` is attempt+1 == Attempts().
  give_up : Bool → Exec Tables (Unit {0}) → Error → Option Error → Exec Tables (Unit {0})
  give_up last again e (some ctx_error) = raise ctx_error
  give_up last again e none =
      if not (retryable e) || last then raise (redacted "ledger append") else again

  retry_or_give_up :
      Context → Bool → Exec Tables (Unit {0}) → Error → Option Error → Exec Tables (Unit {0})
  unfolding give_up
  retry_or_give_up ctx last again e (some ctx_error) = raise ctx_error
  retry_or_give_up ctx last again e none =
      if last then (do c ← ctx_err ctx; give_up last again e c) else again

  -- After an error that leaves the log as it was.
  pub append_failed : Context → Bool → Exec Tables (Unit {0}) → Error → Exec Tables (Unit {0})
  unfolding give_up retry_or_give_up
  append_failed ctx last again e =
      if is_conflict e
      then raise e
      else if retryable e
      then (do c ← ctx_err ctx; retry_or_give_up ctx last again e c)
      else do c ← ctx_err ctx; give_up last again e c

  append_error :
      Context
      → Text
      → ℕ
      → Bytes
      → Bool
      → Exec Tables (Unit {0})
      → Error
      → Option Error
      → Exec Tables (Unit {0})
  append_error ctx name expected payload last again e (some cause) =
      resolve_append name expected payload cause
  append_error ctx name expected payload last again e none = append_failed ctx last again e

  pub append_reply :
      Context
      → Text
      → ℕ
      → Bytes
      → Bool
      → Exec Tables (Unit {0})
      → Result (Unit {0})
      → Exec Tables (Unit {0})
  unfolding append_error
  append_reply ctx name expected payload last again (ok _) = pure tt
  append_reply ctx name expected payload last again (err e) =
      append_error ctx name expected payload last again e (outcome_cause e)

  -- `for attempt := 0; attempt < Attempts(); attempt++`, by the attempts that are left.
  pub append_loop : ℕ → Context → Text → ℕ → Bytes → Exec Tables (Unit {0})
  append_loop zero ctx name expected payload = raise (panicked "unreachable")
  append_loop (suc left) ctx name expected payload = do
    r ← caught (append_once name expected payload)
    append_reply ctx name expected payload (left == 0)
        (λ w. append_loop left ctx name expected payload w) r

  pub append : Option Context → Text → ℕ → Bytes → Exec Tables (Unit {0})
  append ctx name expected payload = do
    ctx ← bound driver ctx "Ledger.Append" s.operation_timeout
    checked (storage.validate_name name)
    append_loop attempts ctx name expected payload

  read_reply : Context → List Entry → Stream → Exec Tables Cursor
  read_reply ctx records complete = pure (record {
    operation_timeout = s.operation_timeout;
    records = records;
    position = 0;
    closed = false;
  })
  read_reply ctx records scan_failed = raise (redacted "ledger read")
  read_reply ctx records broken = failure ctx "ledger read"

  read_rows : Context → Result (List Entry) → Exec Tables Cursor
  unfolding read_reply stream
  read_rows ctx (err e) = failure ctx "ledger read"
  read_rows ctx (ok records) = do end ← stream driver; read_reply ctx records end

  pub read : Option Context → Text → ℕ → Exec Tables Cursor
  unfolding read_rows bound pool_query
  read ctx name from = do
    ctx ← bound driver ctx "Ledger.Read" s.operation_timeout
    checked (storage.validate_name name)
    r ← caught (pool_query driver (select_records name (if ltb from 1 then 1 else from)))
    read_rows ctx r

  tip_reply : Context → Result ℕ → Exec Tables ℕ
  tip_reply ctx (ok tip) = pure tip
  tip_reply ctx (err e) = if is_no_rows e then pure 0 else failure ctx "ledger tip"

  pub tip : Option Context → Text → Exec Tables ℕ
  unfolding tip_reply bound pool_query
  tip ctx name = do
    ctx ← bound driver ctx "Ledger.Tip" s.operation_timeout
    checked (storage.validate_name name)
    r ← caught (pool_query driver (select_tip name))
    tip_reply ctx r

  pub delete_once : Text → Exec Tables (Unit {0})
  unfolding pool_query
  delete_once name = pool_query driver (delete_scope name)

  resolve_delete_reply : Error → Result ℕ → Exec Tables (Unit {0})
  resolve_delete_reply cause (ok present) = raise cause
  resolve_delete_reply cause (err e) =
      if is_no_rows e then pure tt else raise (redacted "ledger delete outcome resolution")

  pub resolve_delete : Text → Error → Exec Tables (Unit {0})
  unfolding resolve_delete_reply pool_query
  resolve_delete name cause = do
    r ← caught (pool_query driver (select_present name))
    resolve_delete_reply cause r

  delete_reply : Context → Text → Result (Unit {0}) → Exec Tables (Unit {0})
  delete_reply ctx name (ok _) = pure tt
  delete_reply ctx name (err e) = do
    cause ← safe_cause ctx "ledger delete"
    resolve_delete name cause

  pub delete : Option Context → Text → Exec Tables (Unit {0})
  unfolding delete_reply bound
  delete ctx name = do
    ctx ← bound driver ctx "Ledger.Delete" s.operation_timeout
    checked (storage.validate_name name)
    r ← caught (delete_once name)
    delete_reply ctx name r

-- The cursor of Read: Next serves what was fetched. The error leaves the cursor as it was.
abbrev served : Cursor → Option Entry → Result (Entry × Cursor)
served c none = err end_of_file
served c (some r) = ok (r, record c { position = c.position + 1 })

unfoldable pub advance : Cursor → Result (Entry × Cursor)
advance c =
    if c.closed || leb (length c.records) c.position
    then err end_of_file
    else served c (get_elem? c.records c.position)

pub next : {D : Type 0} → Driver D → Option Context → Cursor → Exec D (Entry × Cursor)
unfolding bound
next driver ctx c = do
  bound driver ctx "Ledger.Cursor.Next" c.operation_timeout
  λ w. (advance c, w)

unfoldable pub close : Cursor → Cursor
close c = record c { closed = true }
