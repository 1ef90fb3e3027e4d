-- ===== src/Postgres.antt =====
-- internal/postgres/postgres.go: identifiers, retry policy and transaction-local limits.
pub mod Quote
use pgstore.Prelude.{
  ℕ, ◌*◌, ◌≡◌, Bool, false, ◌||◌, Option, none, some, [], ◌∷◌, ◌++◌, String, str_eq, ◌==◌,
  if◌then◌else◌,
}
use pgstore.Text.{Text}
use pgstore.Errors.{Error, Fault, ok, driver_fault, sql_state, commit_outcome, redacted}
use pgstore.Driver.{Driver, Exec, lost, tx_query}

-- maxTransactionAttempts, Attempts()
abbrev pub attempts : ℕ
attempts = 4

-- AuthoritativeReadTimeout(), in nanoseconds
abbrev pub authoritative_read_timeout : ℕ
authoritative_read_timeout = 5 * 1000000000

-- strings.ReplaceAll(identifier, `"`, `""`)
unfoldable pub double_quotes : Text → Text
double_quotes [] = []
double_quotes (c ∷ cs) = if c == b'"' then b'"' ∷ b'"' ∷ double_quotes cs else c ∷ double_quotes cs

unfoldable pub quote_identifier : Text → Text
unfolding double_quotes
quote_identifier identifier = b'"' ∷ (double_quotes identifier ++ b'"' ∷ [])

unfoldable pub qualified : Text → Text → Text
unfolding quote_identifier
qualified schema table = quote_identifier schema ++ b'.' ∷ quote_identifier table

-- errors.As(err, &pgErr): the SQLSTATE of the PgError in the chain. Of the errors that the source
-- makes, only the ledger's commitOutcomeError has an Unwrap.
unfoldable pub pg_code : Error → Option String
pg_code (driver_fault (sql_state code)) = some code
pg_code (commit_outcome cause) = pg_code cause
pg_code _ = none

abbrev is_retry_code : Option String → Bool
is_retry_code none = false
is_retry_code (some code) = str_eq code "40001" || str_eq code "40P01"

unfoldable pub retryable : Error → Bool
unfolding pg_code
retryable e = is_retry_code (pg_code e)

-- SELECT set_config(...), set_config(...): the tables stay as they are. The limits act through the
-- outcomes of the later statements.
unfoldable pub set_local_timeouts : {D : Type 0} → Driver D → ℕ → ℕ → Exec D (Unit {0})
unfolding tx_query
set_local_timeouts driver statement_timeout lock_timeout = tx_query driver (λ clock d. ok (tt, d))

unfoldable pub redacted_error : String → Error
redacted_error operation = redacted operation

-- PostgreSQL reports a serialization failure or a deadlock only of a transaction that it has
-- rolled back.
pub record RetryableAborts {D : Type 0} (driver : Driver D) : Type 0 where
  pub lost_final :
      (n : ℕ) (f : Fault) → driver.outcome n ≡ lost f → retryable (driver_fault f) ≡ false
