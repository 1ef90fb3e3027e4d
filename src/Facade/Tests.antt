-- ===== src/Facade/Tests.antt =====
-- Open and Close of pgstore.go on a fresh database.
use pgstore.Prelude.{ℕ, ◌*◌, ◌≡◌, refl, true, false, none, some, List, [], ◌∷◌, length}
use pgstore.Prelude.Int.{pos}
use pgstore.Text.{codes}
use pgstore.Errors.{Result, ok, err, options_error, schema_version}
use pgstore.Driver.{Driver, World, delivered}
use pgstore.Guard.Defs.{Context}
use pgstore.Options.{
  Network, PoolConfig, Options, ResolvedOptions, second, migration_apply, migration_validate,
}
use pgstore.Migrations.Files.{migration_files, entries, number_of, read_file}
use pgstore.Migrations.Sql.{Catalog, max_version, has_row}
use pgstore.Migrations.Render.{keys}
use pgstore.Migrations.Rendering.{Lists-keys}
use pgstore.Migrations.{Setting}
use pgstore.Facade.Opening.{Opens, open_store_lem}
use pgstore.Facade.{Store, Pool, no_pool, pool_open, pool_closed, opened, open_bound, open_store}

abbrev verified : PoolConfig
verified = record {
  tls = some false;
  host = codes "db";
  runtime_params = [];
  min_conns = 0;
  max_conns = 4;
  exec_mode = false;
}

abbrev network : Network
network = record { parse_config = λ dsn. some verified; is_loopback_ip = λ host. false }

abbrev defaults : Options
defaults = record {
  dsn = codes "postgres://db";
  min_conns = pos 2;
  max_conns = pos 0;
  schema = [];
  table_prefix = [];
  statement_timeout = pos 0;
  lock_timeout = pos 0;
  lease_ttl = pos 0;
  lease_renew_interval = pos 0;
  migrations = migration_apply;
  default_operation_timeout = pos 0;
  allow_insecure_localhost_only = false;
}

abbrev setting : Setting (List ℕ)
setting = record {
  files = migration_files;
  run = λ statement ran. ok (length statement ∷ ran);
  order = λ n. keys;
}

abbrev quiet : Driver (Catalog (List ℕ))
quiet = record {
  outcome = λ n. delivered;
  others = λ n d. d;
  server_clock = λ n. n;
  local_clock = λ n. n;
}

abbrev background : Context
background = record { deadline = none; err_at = λ n. none }

abbrev empty : World (Catalog (List ℕ))
empty = record {
  db = record { has_schema = false; versions = none; objects = [] };
  writes = λ d. d;
  locked = false;
  now = 0;
}

abbrev resolved : ResolvedOptions
resolved = record {
  pool_config = record verified { min_conns = 2; max_conns = 10; exec_mode = true };
  min_conns = 2;
  max_conns = 10;
  schema = codes "looprig";
  table_prefix = codes "looprig_";
  statement_timeout = 30 * second;
  lock_timeout = 5 * second;
  lease_ttl = 15 * second;
  lease_renew_interval = 5 * second;
  migrations = migration_apply;
  operation_timeout = 30 * second;
}

rejected_pool :
    (open_bound network (λ config. false) quiet setting resolved (ok background) empty).0
    ≡ ok (no_pool, err (options_error "DSN" "PostgreSQL pool configuration was rejected"))
unfolding open_bound
rejected_pool = refl

-- The database is older, and the mode only validates: the pool is closed again.
stale_database :
    (open_bound network
      (λ config. true)
      quiet
      setting
      (record resolved { migrations = migration_validate })
      (ok background)
      empty).0
    ≡ ok (pool_closed, err (schema_version 0 3))
unfolding open_bound max_version
stale_database = refl

fresh_database :
    (open_bound network (λ config. true) quiet setting resolved (ok background) empty).0
    ≡ ok (pool_open, ok (opened resolved))
unfolding open_bound max_version entries number_of read_file has_row
fresh_database = refl

open_store_example :
    (r : Pool × Result Store) × ((open_store network
        (λ config. true)
        quiet
        setting
        (some background)
        defaults
        empty).0
      ≡ ok r)
    × Opens network
        (λ config. true)
        quiet
        setting
        defaults
        empty.db
        r
        (open_store network (λ config. true) quiet setting (some background) defaults empty).1
open_store_example =
    open_store_lem network (λ config. true) quiet setting (some background) defaults empty refl
      (λ n t. Lists-keys t)
