-- ===== src/Migrations.antt =====
-- migrations.go: the schema migrations. `Files` has the embedded scripts, `Render` their rendering,
-- `Sql` the database and the statements.
pub mod Files
pub mod Sql
pub mod Render
pub mod Keys
pub mod Passes
pub mod Inert
pub mod Rendering
pub mod Steps
pub mod Loop
pub mod Upgrades
pub mod Outcome
mod Tests
use pgstore.Prelude.{
  ℕ, suc, Bool, true, false, not, Option, none, some, List, [], ◌∷◌, ltb, leb, ◌==◌, if◌then◌else◌,
}
use pgstore.Text.{Text}
use pgstore.Errors.{Result, ok, err, new_error, schema_version}
use pgstore.Driver.{
  Driver, Exec, pure, raise, caught, tx_query, lock_query, begin_tx, commit_tx, with_rollback,
  ◌>>=◌, ◌>>◌,
}
use pgstore.Guard.Defs.{Context, failure}
use pgstore.Postgres.{set_local_timeouts}
use pgstore.Options.{migration_validate, migration_disabled}
use Files.{Embedded, entries, number_of, read_file}
use Sql.{
  Catalog, lock_owners, create_schema, create_versions, select_version, insert_version,
  run_statement,
}
use Render.{Token, replacement, rendered}

abbrev pub current_schema_version : ℕ
current_schema_version = 3

-- What migrate runs with beside its arguments: the embedded files, what a script does to the
-- database's objects, the order in which Go walks the map of replacements for each migration.
pub record Setting (S : Type 0) : Type 0 where
  pub files : Embedded
  pub run : Text → S → Result S
  pub order : ℕ → List Token

module _ {S : Type 0} (driver : Driver (Catalog S)) (setting : Setting S) where
  pub or_fail : {A : Type 0} → Context → Result A → Exec (Catalog S) A
  or_fail ctx (ok a) = pure a
  or_fail ctx (err e) = failure ctx "schema migration"

  -- `if err != nil { return migrationFailure(ctx) }`
  pub attempted : {A : Type 0} → Context → Exec (Catalog S) A → Exec (Catalog S) A
  unfolding or_fail
  attempted ctx m = do r ← caught m; or_fail ctx r

  pub commit_migration : Context → Exec (Catalog S) (Unit {0})
  unfolding attempted commit_tx
  commit_migration ctx = attempted ctx (commit_tx driver)

  pub apply_script :
      Context → Text → Text → ℕ → (ℕ → Exec (Catalog S) ℕ) → Option Text → Exec (Catalog S) ℕ
  unfolding attempted tx_query
  apply_script ctx schema prefix n next none =
      raise (new_error "pgstore: embedded migration unavailable")
  apply_script ctx schema prefix n next (some sql) = do
    let statement = rendered (replacement schema prefix) (setting.order n) sql
    attempted ctx (tx_query driver (run_statement setting.run statement))
    attempted ctx (tx_query driver (insert_version n))
    next n

  pub apply_numbered :
      Context → Text → Text → Text → ℕ → (ℕ → Exec (Catalog S) ℕ) → Option ℕ → Exec (Catalog S) ℕ
  unfolding apply_script
  apply_numbered ctx schema prefix path version next none = next version
  apply_numbered ctx schema prefix path version next (some n) =
      if leb n version
      then next version
      else if not (n == suc version)
      then raise (new_error "pgstore: embedded migrations are not monotonic")
      else apply_script ctx schema prefix n next (read_file setting.files path)

  -- The loop over the entries: the version that it reaches.
  pub apply_entries : Context → Text → Text → List Text → ℕ → Exec (Catalog S) ℕ
  unfolding apply_numbered
  apply_entries ctx schema prefix [] version = pure version
  apply_entries ctx schema prefix (path ∷ paths) version =
      apply_numbered ctx schema prefix path version (λ v. apply_entries ctx schema prefix paths v)
        (number_of path)

  pub finish : Context → ℕ → Exec (Catalog S) (Unit {0})
  unfolding commit_migration
  finish ctx version =
      if not (version == current_schema_version)
      then raise (new_error "pgstore: embedded migrations did not reach current version")
      else commit_migration ctx

  pub validate : Context → ℕ → Exec (Catalog S) (Unit {0})
  unfolding commit_migration
  validate ctx version =
      if not (version == current_schema_version)
      then raise (schema_version version current_schema_version)
      else commit_migration ctx

  -- From the version of the database on.
  pub migrate_from : Context → Text → Text → ℕ → ℕ → Exec (Catalog S) (Unit {0})
  unfolding validate apply_entries finish
  migrate_from ctx schema prefix mode version =
      if ltb current_schema_version version
      then raise (new_error "pgstore: database schema is newer than this pgstore build")
      else if mode == migration_validate
      then validate ctx version
      else apply_entries ctx schema prefix (entries setting.files) version >>= λ v. finish ctx v

  unfoldable pub migrate : Context → Text → Text → ℕ → ℕ → ℕ → Exec (Catalog S) (Unit {0})
  unfolding migrate_from attempted begin_tx set_local_timeouts lock_query tx_query with_rollback
  migrate ctx schema prefix mode statement_timeout lock_timeout =
      if mode == migration_disabled
      then pure tt
      else with_rollback driver do
        attempted ctx (begin_tx driver)
        attempted ctx (set_local_timeouts driver statement_timeout lock_timeout)
        attempted ctx (lock_query driver lock_owners)
        attempted ctx (tx_query driver create_schema)
        attempted ctx (tx_query driver create_versions)
        version ← attempted ctx (tx_query driver select_version)
        migrate_from ctx schema prefix mode version
