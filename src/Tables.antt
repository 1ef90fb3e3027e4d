-- ===== src/Tables.antt =====
-- The names of the tables: table() of internal/kv/kv.go and internal/lease/lease.go, scopesTable()
-- and recordsTable() of internal/orderedindex/orderedindex.go, the names in appendOnce of
-- internal/ledger/ledger.go and in migrate of migrations.go.
use pgstore.Prelude.{ℕ, ◌≤◌, ◌≡◌, true, [], ◌∷◌, ◌++◌, arith, length, length-append}
use mathlib.Core.List.{append_cancel_left}
use pgstore.Text.{Text, codes}
use pgstore.Options.{valid_identifier, max_table_prefix_bytes, max_postgres_identifier_bytes}
use pgstore.Postgres.{qualified}
use pgstore.Postgres.Quote.{qualified-injective}

pub data Table : Type 0 where
  schema_migrations ledger_scopes ledger_records kv leases ordered_scopes ordered_records : Table

abbrev pub suffix : Table → Text
suffix schema_migrations = codes "schema_migrations"
suffix ledger_scopes = codes "ledger_scopes"
suffix ledger_records = codes "ledger_records"
suffix kv = codes "kv"
suffix leases = codes "leases"
suffix ordered_scopes = codes "ordered_scopes"
suffix ordered_records = codes "ordered_records"

pub table_name : Text → Text → Table → Text
table_name schema prefix t = qualified schema (prefix ++ suffix t)

suffix-injective : (t u : Table) → suffix t ≡ suffix u → t ≡ u
suffix-injective t u h = ground arith

valid_identifier-length :
    (name : Text) (max_bytes : ℕ) → valid_identifier name max_bytes ≡ true → length name ≤ max_bytes
unfolding valid_identifier
valid_identifier-length [] max_bytes h = omega arith
valid_identifier-length (c ∷ cs) max_bytes h = ground arith

suffix_bound : (t : Table) → length (suffix t) ≤ 23
suffix_bound t = ground arith

-- With a valid prefix no table's name exceeds the 63 bytes after which PostgreSQL truncates, and
-- two tables of one schema and prefix never have the same qualified name.
pub table_names :
    (schema prefix : Text) (t u : Table)
    → valid_identifier prefix max_table_prefix_bytes ≡ true
    → (length (prefix ++ suffix t) ≤ max_postgres_identifier_bytes)
      × (table_name schema prefix t ≡ table_name schema prefix u → t ≡ u)
unfolding table_name
table_names schema prefix t u h = (
  omega
      (arith, length-append prefix (suffix t), suffix_bound t, valid_identifier-length prefix 40 h),
  λ e. suffix-injective t u (
      append_cancel_left prefix (suffix t) (suffix u)
        (qualified-injective schema (prefix ++ suffix t) schema (prefix ++ suffix u) e).1),
)
