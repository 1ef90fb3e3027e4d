-- ===== src/Options/Tests.antt =====
-- Options of options.go that resolve, and the theorems at inputs that meet their hypotheses.
use pgstore.Prelude.{
  ◌*◌, ◌≤◌, ◌≡◌, refl, leb, true, false, none, some, [], ◌∷◌, ◌++◌, length, if◌then◌else◌,
}
use pgstore.Prelude.Int.{pos, negsuc}
use pgstore.Text.{codes, text_eq}
use pgstore.Errors.{ok, err, options_error, deadline_required, deadline_exceeded, canceled}
use pgstore.Driver.{Driver, World, delivered}
use pgstore.Guard.Defs.{Context, bound, with_timeout}
use pgstore.Postgres.{quote_identifier}
use pgstore.Postgres.Quote.{read_identifier, read_identifier-quote}
use pgstore.Tables.{kv, leases, table_name, table_names}
use pgstore.Options.{
  Options, Network, PoolConfig, ResolvedOptions, resolve, pooled, resolve_timeout,
  resolve_max_conns, resolve_min_conns, resolve_identifier, validate_tls, is_blank,
  valid_identifier, without_param, second, default_schema,
}
use pgstore.Options.Valid.{IsValid, resolve-IsValid}

abbrev verified : PoolConfig
verified = record {
  tls = some false;
  host = codes "db";
  runtime_params = (codes "lock_timeout", codes "0") ∷ (codes "app", codes "x") ∷ [];
  min_conns = 0;
  max_conns = 4;
  exec_mode = false;
}

abbrev network : Network
network = record { parse_config = λ dsn. some verified; is_loopback_ip = λ host. false }

abbrev defaults : Options
defaults = record {
  dsn = codes "postgres://db";
  min_conns = pos 2;
  max_conns = pos 0;
  schema = [];
  table_prefix = codes "t_";
  statement_timeout = pos 0;
  lock_timeout = pos 0;
  lease_ttl = pos 0;
  lease_renew_interval = pos 0;
  migrations = 1;
  default_operation_timeout = pos 0;
  allow_insecure_localhost_only = false;
}

abbrev resolved : ResolvedOptions
resolved = record {
  pool_config = record verified {
    runtime_params = (codes "app", codes "x") ∷ [];
    min_conns = 2;
    max_conns = 10;
    exec_mode = true;
  };
  min_conns = 2;
  max_conns = 10;
  schema = default_schema;
  table_prefix = codes "t_";
  statement_timeout = 30 * second;
  lock_timeout = 5 * second;
  lease_ttl = 15 * second;
  lease_renew_interval = 5 * second;
  migrations = 1;
  operation_timeout = 30 * second;
}

defaults-resolve : resolve network defaults ≡ ok resolved
unfolding resolve pooled resolve_timeout resolve_max_conns resolve_min_conns resolve_identifier
    validate_tls is_blank without_param text_eq
defaults-resolve = refl

resolve-IsValid_example : IsValid network defaults resolved
resolve-IsValid_example = resolve-IsValid network defaults resolved defaults-resolve

negative_refused :
    resolve network (record defaults { lease_ttl = negsuc 0 })
    ≡ err (options_error "LeaseTTL" "must be positive or zero for the default")
unfolding resolve pooled resolve_timeout resolve_max_conns resolve_min_conns resolve_identifier
    validate_tls is_blank without_param text_eq
negative_refused = refl

prefix_valid : valid_identifier (codes "t_") 40 ≡ true
unfolding valid_identifier
prefix_valid = refl

table_names_example :
    (length (codes "t_kv") ≤ 63)
    × (table_name (codes "s") (codes "t_") kv ≡ table_name (codes "s") (codes "t_") leases
        → kv ≡ leases)
table_names_example = table_names (codes "s") (codes "t_") kv leases prefix_valid

read_identifier-quote_example :
    read_identifier (quote_identifier (codes "a\"b") ++ codes ".c")
    ≡ some (codes "a\"b", codes ".c")
read_identifier-quote_example = read_identifier-quote (codes "a\"b") (codes ".c") refl

abbrev clockwork : Driver (Unit {0})
clockwork = record {
  outcome = λ n. delivered;
  others = λ n d. d;
  server_clock = λ n. n;
  local_clock = λ n. n;
}

abbrev canceled_late : Context
canceled_late = record { deadline = none; err_at = λ n. if leb 9 n then some canceled else none }

abbrev idle : World (Unit {0})
idle = record { db = tt; writes = λ d. d; locked = false; now = 2 }

nil_context_refused : (bound clockwork none "Open" 5 idle).0 ≡ err (deadline_required "Open")
unfolding bound
nil_context_refused = refl

-- The default bound runs from the reading 2; the caller's cancellation comes first where it does.
bound_ends :
    ((with_timeout clockwork canceled_late 5 2).err_at 6 ≡ none)
    × ((with_timeout clockwork canceled_late 5 2).err_at 7 ≡ some deadline_exceeded)
    × ((with_timeout clockwork canceled_late 5 2).err_at 9 ≡ some canceled)
bound_ends = (refl, refl, refl)
