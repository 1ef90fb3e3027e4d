-- ===== src/Errors.antt =====
-- Go's `error` values that the source makes, returns or tells apart. A constructor per type, with
-- the fields that the source sets; errors of the driver are told apart by what the source asks.
use pgstore.Prelude.{ℕ, Bool, true, false, String}
use pgstore.Text.{Text}
use pgstore.Records.{OrderedId, Operation, CursorKind, CursorRule}

-- An error of the driver, which is never ErrNoRows: one whose chain holds a *pgconn.PgError with
-- this SQLSTATE, or any other.
pub data Fault : Type 0 where
  sql_state : String → Fault
  other_fault : Fault

pub data Error : Type 0 where
  -- pgx.ErrNoRows
  no_rows : Error
  driver_fault : Fault → Error
  -- context.Canceled, context.DeadlineExceeded
  canceled deadline_exceeded : Error
  -- internal/postgres RedactedError(operation)
  redacted : String → Error
  -- internal/guard
  deadline_required not_implemented : String → Error
  -- storage.InvalidNameError
  invalid_name : Text → Error
  -- storage.KeyNotFoundError, storage.ConflictError, storage.AmbiguousError
  key_not_found : Text → Error
  conflict : Text → ℕ → Error
  ambiguous : Text → ℕ → Error → Error
  -- internal/ledger commitOutcomeError
  commit_outcome : Error → Error
  -- panic(...), with its text
  panicked : String → Error
  -- pgstore.OptionsError, field and reason
  options_error : String → String → Error
  -- errors.New, with its text
  new_error : String → Error
  -- the fmt.Errorf of migrate, with its two versions
  schema_version : ℕ → ℕ → Error
  -- io.EOF
  end_of_file : Error
  -- storage.LeaseHeldError, storage.LeaseLostError
  lease_held lease_lost : Text → ℕ → Error
  -- storage.InvalidDueError, OrderedValueTooLargeError, InvalidOrderedLimitError
  invalid_due value_too_large invalid_limit : Error
  -- storage.OrderedRecordNotFoundError, OrderedDeletedError
  ordered_not_found ordered_deleted : OrderedId → Error
  -- storage.OrderedRevisionConflictError, OrderedRevisionExhaustedError
  ordered_revision_conflict : OrderedId → ℕ → ℕ → Error
  ordered_revision_exhausted : OrderedId → ℕ → Error
  -- internal/orderedindex orderExhaustedError
  order_exhausted : Error
  -- storage.OrderedAmbiguousError
  ordered_ambiguous : Operation → OrderedId → Error → Error
  -- storage.NewInvalidOrderedCursorError
  invalid_cursor : CursorKind → Text → CursorRule → Error

pub data Result {ℓ} (A : Type ℓ) : Type ℓ where
  ok : A → Result A
  err : Error → Result A

-- `if err != nil { return ..., err }` where nothing else can happen.
abbrev pub and_then {ℓ κ} : {A : Type ℓ} {B : Type κ} → Result A → (A → Result B) → Result B
and_then (ok a) f = f a
and_then (err e) f = err e

abbrev pub pg_error : String → Error
pg_error code = driver_fault (sql_state code)

-- err == pgx.ErrNoRows
abbrev pub is_no_rows : Error → Bool
is_no_rows no_rows = true
is_no_rows _ = false
