-- ===== src/Migrations/Sql.antt =====
-- The statements of migrate of migrations.go: what they read and write of the database, whose
-- objects are a parameter, as is what a script does to them.
use pgstore.Prelude.{
  ℕ, Bool, true, false, ◌||◌, Option, none, some, List, [], ◌∷◌, ltb, ◌==◌, if◌then◌else◌,
}
use pgstore.Text.{Text}
use pgstore.Errors.{Result, ok, err, pg_error}
use pgstore.Driver.{Stmt}

-- Whether the schema exists, the rows of the version table once it does, and the rest.
pub record Catalog (S : Type 0) : Type 0 where
  pub has_schema : Bool
  pub versions : Option (List ℕ)
  pub objects : S

abbrev pub rows_of : Option (List ℕ) → List ℕ
rows_of none = []
rows_of (some rows) = rows

-- COALESCE(MAX(version), 0)
unfoldable pub max_version : List ℕ → ℕ
max_version [] = 0
max_version (n ∷ rows) = let rest = max_version rows in if ltb rest n then n else rest

unfoldable pub has_row : ℕ → List ℕ → Bool
has_row n [] = false
has_row n (m ∷ rows) = n == m || has_row n rows

module _ {S : Type 0} where
  -- pg_advisory_xact_lock(hashtextextended($1, 0))
  abbrev pub lock_owners : Stmt (Catalog S) (Unit {0})
  lock_owners clock d = ok (tt, d)

  -- CREATE SCHEMA IF NOT EXISTS
  abbrev pub create_schema : Stmt (Catalog S) (Unit {0})
  create_schema clock d = ok (tt, record d { has_schema = true })

  -- CREATE TABLE IF NOT EXISTS; without the schema, 3F000 (invalid_schema_name)
  abbrev pub create_versions : Stmt (Catalog S) (Unit {0})
  create_versions clock d =
      if d.has_schema
      then ok (tt, record d { versions = some (rows_of d.versions) })
      else err (pg_error "3F000")

  abbrev pub version_answer : Catalog S → Option (List ℕ) → Result (ℕ × Catalog S)
  version_answer d none = err (pg_error "42P01")
  version_answer d (some rows) = ok (max_version rows, d)

  -- SELECT COALESCE(MAX(version), 0); without the table, 42P01 (undefined_table)
  abbrev pub select_version : Stmt (Catalog S) ℕ
  select_version clock d = version_answer d d.versions

  abbrev pub insert_answer : ℕ → Catalog S → Option (List ℕ) → Result (Unit {0} × Catalog S)
  insert_answer n d none = err (pg_error "42P01")
  insert_answer n d (some rows) =
      if has_row n rows
      then err (pg_error "23505")
      else ok (tt, record d { versions = some (n ∷ rows) })

  -- INSERT of a version, the primary key
  abbrev pub insert_version : ℕ → Stmt (Catalog S) (Unit {0})
  insert_version n clock d = insert_answer n d d.versions

  abbrev pub script_answer : Catalog S → Result S → Result (Unit {0} × Catalog S)
  script_answer d (ok objects) = ok (tt, record d { objects = objects })
  script_answer d (err e) = err e

  -- A migration's statements. They touch neither the schema nor the version table.
  abbrev pub run_statement : (Text → S → Result S) → Text → Stmt (Catalog S) (Unit {0})
  run_statement run statement clock d = script_answer d (run statement d.objects)
