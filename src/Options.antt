-- ===== src/Options.antt =====
-- options.go: the validation of Options. Durations are in nanoseconds; the checked ones are no
-- longer negative, so they are plain numbers. pgx's ParseConfig and net.ParseIP are parameters.
pub mod Valid
mod Tests
use pgstore.Prelude.{
  ℕ, ◌-◌, ◌*◌, ◌+◌, Bool, true, false, ◌&&◌, ◌||◌, not, Option, none, some, List, [], ◌∷◌, ◌++◌,
  map, String, ltb, leb, ◌==◌, length, if◌then◌else◌,
}
use pgstore.Prelude.Int.{ℤ, pos, negsuc}
use pgstore.Text.{Text, codes, text_eq}
use pgstore.Errors.{Error, Result, ok, err, options_error}
use pgstore.Guard.Defs.{default_operation_timeout}

abbrev pub millisecond : ℕ
millisecond = 1000000

abbrev pub second : ℕ
second = 1000 * millisecond

abbrev pub default_max_conns : ℕ
default_max_conns = 10

abbrev pub default_schema : Text
default_schema = codes "looprig"

abbrev pub default_table_prefix : Text
default_table_prefix = codes "looprig_"

abbrev pub default_statement_timeout : ℕ
default_statement_timeout = 30 * second

abbrev pub default_lock_timeout : ℕ
default_lock_timeout = 5 * second

abbrev pub default_lease_ttl : ℕ
default_lease_ttl = 15 * second

abbrev pub default_lease_renew_interval : ℕ
default_lease_renew_interval = 5 * second

-- The statement and lock timeouts that a store is made with: the two that are given, or the
-- defaults.
abbrev pub timeouts : List ℕ → ℕ × ℕ
timeouts (statement_timeout ∷ lock_timeout ∷ []) = (statement_timeout, lock_timeout)
timeouts _ = (30 * second, 5 * second)

abbrev pub max_postgres_identifier_bytes : ℕ
max_postgres_identifier_bytes = 63

abbrev pub max_table_suffix_bytes : ℕ
max_table_suffix_bytes = 23

abbrev pub max_table_prefix_bytes : ℕ
max_table_prefix_bytes = max_postgres_identifier_bytes - max_table_suffix_bytes

-- MigrationMode is a uint8.
abbrev pub migration_validate : ℕ
migration_validate = 0

abbrev pub migration_apply : ℕ
migration_apply = 1

abbrev pub migration_disabled : ℕ
migration_disabled = 2

pub record Options : Type 0 where
  pub dsn : Text
  pub min_conns : ℤ
  pub max_conns : ℤ
  pub schema : Text
  pub table_prefix : Text
  pub statement_timeout : ℤ
  pub lock_timeout : ℤ
  pub lease_ttl : ℤ
  pub lease_renew_interval : ℤ
  pub migrations : ℕ
  pub default_operation_timeout : ℤ
  pub allow_insecure_localhost_only : Bool

-- What the source reads and sets of a *pgxpool.Config: the TLS configuration with its
-- InsecureSkipVerify, the host, the session parameters, the pool's bounds, whether the query mode
-- is QueryExecModeExec.
pub record PoolConfig : Type 0 where
  pub tls : Option Bool
  pub host : Text
  pub runtime_params : List (Text × Text)
  pub min_conns : ℕ
  pub max_conns : ℕ
  pub exec_mode : Bool

-- pgxpool.ParseConfig, and whether net.ParseIP reads a loopback address.
pub record Network : Type 0 where
  pub parse_config : Text → Option PoolConfig
  pub is_loopback_ip : Text → Bool

pub record ResolvedOptions : Type 0 where
  pub pool_config : PoolConfig
  pub min_conns : ℕ
  pub max_conns : ℕ
  pub schema : Text
  pub table_prefix : Text
  pub statement_timeout : ℕ
  pub lock_timeout : ℕ
  pub lease_ttl : ℕ
  pub lease_renew_interval : ℕ
  pub migrations : ℕ
  pub operation_timeout : ℕ

infixl 10 ◌>>=◌ ◌>>◌
abbrev pub ◌>>=◌ : {A B : Type 0} → Result A → (A → Result B) → Result B
ok a >>= f = f a
err e >>= f = err e

abbrev pub ◌>>◌ : {B : Type 0} → Result (Unit {0}) → Result B → Result B
m >> k = m >>= λ _. k

abbrev pub invalid_option : {A : Type 0} → String → String → Result A
invalid_option field reason = err (options_error field reason)

-- `if wrong { return ..., invalidOption(field, reason) }`
abbrev pub refuse_if : Bool → String → String → Result (Unit {0})
refuse_if true field reason = invalid_option field reason
refuse_if false field reason = ok tt

-- unicode.IsSpace
is_space : ℕ → Bool
is_space c =
    (leb 9 c && leb c 13)
    || c == 32
    || c == 0x85
    || c == 0xa0
    || c == 0x1680
    || (leb 0x2000 c && leb c 0x200a)
    || c == 0x2028
    || c == 0x2029
    || c == 0x202f
    || c == 0x205f
    || c == 0x3000

-- strings.TrimSpace(text) == ""
pub is_blank : Text → Bool
unfolding is_space
is_blank [] = true
is_blank (c ∷ cs) = is_space c && is_blank cs

-- Simple case folding, on the letters of "localhost": U+017F folds to s.
fold_case : ℕ → ℕ
fold_case c = if leb 65 c && leb c 90 then c + 32 else if c == 0x17f then 115 else c

-- strings.Trim(host, "[]"), from the left and then, reversed, from the right
trim_left : Text → Text
trim_left [] = []
trim_left (c ∷ cs) = let rest = trim_left cs in if c == b'[' || c == b']' then rest else c ∷ cs

reverse_onto : Text → Text → Text
reverse_onto [] acc = acc
reverse_onto (c ∷ cs) acc = reverse_onto cs (c ∷ acc)

trim_brackets : Text → Text
unfolding trim_left reverse_onto
trim_brackets host = reverse_onto (trim_left (reverse_onto (trim_left host) [])) []

pub is_loopback_host : Network → Text → Bool
unfolding fold_case trim_brackets
is_loopback_host net host =
    text_eq (map fold_case host) (codes "localhost") || net.is_loopback_ip (trim_brackets host)

abbrev pub is_secure : Option Bool → Bool
is_secure none = false
is_secure (some insecure_skip_verify) = not insecure_skip_verify

abbrev pub is_plain : Option Bool → Bool
is_plain none = true
is_plain (some _) = false

pub validate_tls : Network → PoolConfig → Bool → Result (Unit {0})
validate_tls net config allow_insecure_local =
    if is_secure config.tls
    then ok tt
    else if allow_insecure_local && is_loopback_host net config.host && is_plain config.tls
    then ok tt
    else invalid_option "DSN"
        "must require verified TLS; plaintext is allowed only for an explicitly enabled loopback test database"

abbrev pub is_lower : ℕ → Bool
is_lower c = leb b'a' c && leb c b'z'

abbrev pub is_identifier_byte : ℕ → Bool
is_identifier_byte c = is_lower c || (leb b'0' c && leb c b'9') || c == b'_'

unfoldable pub all_identifier_bytes : Text → Bool
all_identifier_bytes [] = true
all_identifier_bytes (c ∷ cs) = is_identifier_byte c && all_identifier_bytes cs

unfoldable pub valid_identifier : Text → ℕ → Bool
unfolding all_identifier_bytes
valid_identifier [] max_bytes = false
valid_identifier (c ∷ cs) max_bytes =
    leb (length (c ∷ cs)) max_bytes && is_lower c && all_identifier_bytes cs

pub resolve_timeout : String → ℤ → ℕ → Result ℕ
resolve_timeout field (negsuc n) fallback =
    invalid_option field "must be positive or zero for the default"
resolve_timeout field (pos n) fallback =
    if n == 0
    then ok fallback
    else if ltb n millisecond
    then invalid_option field "must be at least one millisecond"
    else ok n

pub resolve_max_conns : ℤ → Result ℕ
resolve_max_conns (negsuc n) = invalid_option "MaxConns" "must be positive or zero for the default"
resolve_max_conns (pos n) = if n == 0 then ok default_max_conns else ok n

pub resolve_min_conns : ℤ → ℕ → Result ℕ
resolve_min_conns (negsuc n) max_conns = invalid_option "MinConns" "must not be negative"
resolve_min_conns (pos n) max_conns =
    if ltb max_conns n then invalid_option "MinConns" "must not exceed MaxConns" else ok n

abbrev pub or_default : Text → Text → Text
or_default [] fallback = fallback
or_default (c ∷ cs) fallback = c ∷ cs

pub resolve_identifier : String → String → Text → Text → ℕ → Result Text
unfolding valid_identifier
resolve_identifier field reason requested fallback max_bytes =
    let name = or_default requested fallback in
    if valid_identifier name max_bytes then ok name else invalid_option field reason

abbrev pub or_invalid : Option PoolConfig → Result PoolConfig
or_invalid none = invalid_option "DSN" "invalid PostgreSQL connection string"
or_invalid (some config) = ok config

-- delete(params, name)
pub without_param : Text → List (Text × Text) → List (Text × Text)
without_param name [] = []
without_param name ((k, v) ∷ ps) =
    let rest = without_param name ps in if text_eq k name then rest else (k, v) ∷ rest

pub pooled : PoolConfig → ℕ → ℕ → PoolConfig
pooled config min_conns max_conns = record config {
  min_conns = min_conns;
  max_conns = max_conns;
  runtime_params =
      without_param (codes "lock_timeout")
        (without_param (codes "statement_timeout") config.runtime_params);
  exec_mode = true;
}

pub resolve : Network → Options → Result ResolvedOptions
resolve net o = do
  refuse_if (is_blank o.dsn) "DSN" "must be set"
  config ← or_invalid (net.parse_config o.dsn)
  validate_tls net config o.allow_insecure_localhost_only
  max_conns ← resolve_max_conns o.max_conns
  min_conns ← resolve_min_conns o.min_conns max_conns
  schema ←
      resolve_identifier "Schema" "must be a lowercase PostgreSQL identifier of at most 63 bytes"
        o.schema default_schema max_postgres_identifier_bytes
  table_prefix ←
      resolve_identifier "TablePrefix"
        "must be a lowercase identifier prefix of at most 40 bytes, leaving room for the longest table suffix within PostgreSQL's 63-byte identifier limit"
        o.table_prefix default_table_prefix max_table_prefix_bytes
  statement_timeout ←
      resolve_timeout "StatementTimeout" o.statement_timeout default_statement_timeout
  lock_timeout ← resolve_timeout "LockTimeout" o.lock_timeout default_lock_timeout
  refuse_if (ltb statement_timeout lock_timeout) "LockTimeout" "must not exceed StatementTimeout"
  lease_ttl ← resolve_timeout "LeaseTTL" o.lease_ttl default_lease_ttl
  lease_renew_interval ←
      resolve_timeout "LeaseRenewInterval" o.lease_renew_interval default_lease_renew_interval
  refuse_if (leb lease_ttl lease_renew_interval) "LeaseRenewInterval"
      "must be shorter than LeaseTTL"
  operation_timeout ←
      resolve_timeout "DefaultOperationTimeout" o.default_operation_timeout
        default_operation_timeout
  refuse_if (ltb migration_disabled o.migrations) "Migrations" "has an unknown mode"
  ok (record {
    pool_config = pooled config min_conns max_conns;
    min_conns = min_conns;
    max_conns = max_conns;
    schema = schema;
    table_prefix = table_prefix;
    statement_timeout = statement_timeout;
    lock_timeout = lock_timeout;
    lease_ttl = lease_ttl;
    lease_renew_interval = lease_renew_interval;
    migrations = o.migrations;
    operation_timeout = operation_timeout;
  })
