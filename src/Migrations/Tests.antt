-- ===== src/Migrations/Tests.antt =====
-- Runs of migrate of migrations.go, and its theorems at concrete inputs.
use pgstore.Prelude.{ℕ, ◌≡◌, ◌≢◌, refl, true, false, none, some, List, [], ◌∷◌, length, inl, inr}
use pgstore.Text.{codes}
use pgstore.Errors.{Result, ok, err, new_error, schema_version}
use pgstore.Driver.{Driver, World, delivered}
use pgstore.Driver.Triples.{Post}
use pgstore.Guard.Defs.{Context}
use pgstore.Options.{
  valid_identifier, default_schema, default_table_prefix, migration_validate, migration_apply,
  migration_disabled,
}
use pgstore.Migrations.Files.{
  ledger_kv, create_leases, migration_files, entries, number_of, read_file,
}
use pgstore.Migrations.Sql.{Catalog, max_version, has_row}
use pgstore.Migrations.Render.{
  Token, in_schema, ledger_scopes, ledger_records, kv, leases, ordered_scopes, ordered_records,
  ordered_order_idx, ordered_rank_idx, ordered_due_idx, keys, replacement, rendered, pass_from,
  one_pass,
}
use pgstore.Migrations.Rendering.{Lists, rendered_lem}
use pgstore.Migrations.Loop.{IsSound}
use pgstore.Migrations.Outcome.{Ended, Failed, migrate_lem}
use pgstore.Migrations.{Setting, migrate}

-- Another order than that of the source.
abbrev walk : List Token
walk =
    ordered_due_idx ∷ leases ∷ ordered_rank_idx ∷ ordered_order_idx ∷ ordered_records ∷ kv
    ∷ ordered_scopes ∷ ledger_records ∷ ledger_scopes ∷ in_schema ∷ []

walk_complete : (t : Token) → Lists t walk
walk_complete ordered_due_idx = inl refl
walk_complete leases = inr (inl refl)
walk_complete ordered_rank_idx = inr (inr (inl refl))
walk_complete ordered_order_idx = inr (inr (inr (inl refl)))
walk_complete ordered_records = inr (inr (inr (inr (inl refl))))
walk_complete kv = inr (inr (inr (inr (inr (inl refl)))))
walk_complete ordered_scopes = inr (inr (inr (inr (inr (inr (inl refl))))))
walk_complete ledger_records = inr (inr (inr (inr (inr (inr (inr (inl refl)))))))
walk_complete ledger_scopes = inr (inr (inr (inr (inr (inr (inr (inr (inl refl))))))))
walk_complete in_schema = inr (inr (inr (inr (inr (inr (inr (inr (inr (inl refl)))))))))

index_renders :
    one_pass
      (replacement default_schema default_table_prefix)
      keys
      (codes "CREATE INDEX {{ordered_due_idx}} ON {{schema}}.{{ordered_records}}")
    ≡ codes "CREATE INDEX \"looprig_ordered_due_idx\" ON \"looprig\".\"looprig_ordered_records\""
unfolding pass_from replacement
index_renders = refl

rendered_example :
    rendered (replacement default_schema default_table_prefix) walk create_leases
    ≡ one_pass (replacement default_schema default_table_prefix) keys create_leases
unfolding valid_identifier
rendered_example =
    rendered_lem default_schema default_table_prefix walk create_leases refl refl walk_complete

-- The numbers of the scripts that have run, the last first, by their lengths.
abbrev setting : Setting (List ℕ)
setting = record {
  files = migration_files;
  run = λ statement ran. ok (length statement ∷ ran);
  order = λ n. walk;
}

setting-IsSound : IsSound setting default_schema default_table_prefix
unfolding valid_identifier
setting-IsSound = record {
  embedded = refl;
  schema_ok = refl;
  prefix_ok = refl;
  complete = λ n t. walk_complete t;
}

abbrev quiet : Driver (Catalog (List ℕ))
quiet = record {
  outcome = λ n. delivered;
  others = λ n d. d;
  server_clock = λ n. n;
  local_clock = λ n. n;
}

abbrev background : Context
background = record { deadline = none; err_at = λ n. none }

abbrev empty : World (Catalog (List ℕ))
empty = record {
  db = record { has_schema = false; versions = none; objects = [] };
  writes = λ d. d;
  locked = false;
  now = 0;
}

abbrev at_version : List ℕ → World (Catalog (List ℕ))
at_version rows = record {
  db = record { has_schema = true; versions = some rows; objects = [] };
  writes = λ d. d;
  locked = false;
  now = 0;
}

abbrev run : ℕ → World (Catalog (List ℕ)) → Result (Unit {0}) × World (Catalog (List ℕ))
run mode w = migrate quiet setting background default_schema default_table_prefix mode 30 5 w

empty_is_upgraded : (run migration_apply empty).1.db.versions ≡ some (3 ∷ 2 ∷ 1 ∷ [])
unfolding migrate entries number_of read_file rendered replacement ledger_kv max_version has_row
empty_is_upgraded = refl

empty_is_not_valid :
    run migration_validate empty ≡ (err (schema_version 0 3), record empty { now = 6 })
unfolding migrate max_version
empty_is_not_valid = refl

newer_is_refused :
    (run migration_apply (at_version (4 ∷ []))).0
    ≡ err (new_error "pgstore: database schema is newer than this pgstore build")
unfolding migrate max_version
newer_is_refused = refl

migrate_fresh :
    (migration_apply ≡ migration_disabled
      → migrate quiet setting background default_schema default_table_prefix migration_apply 30 5
          empty
        ≡ (ok tt, empty))
    × ((migration_apply ≢ migration_disabled)
        → Post
            (Ended quiet setting background default_schema default_table_prefix migration_apply
              empty.db)
            (Failed quiet setting background default_schema default_table_prefix migration_apply
              empty.db)
            (migrate quiet setting background default_schema default_table_prefix migration_apply 30
              5 empty))
migrate_fresh =
    migrate_lem quiet setting background default_schema default_table_prefix migration_apply 30 5
      empty setting-IsSound
