-- ===== src/Migrations/Files.antt =====
-- The embedded files of migrations.go: the three scripts under migrations/ with their paths, and
-- what migrate reads of them: fs.Glob, sort.Strings, the version in a name, ReadFile.
use pgstore.Prelude.{
  ℕ, ◌+◌, ◌*◌, ◌-◌, Bool, true, false, ◌&&◌, not, Option, none, some, List, [], ◌∷◌, ◌++◌, String,
  length, drop, take, keep, map, leb, ◌==◌, if◌then◌else◌,
}
use pgstore.Text.{Text, codes, text_eq, text_le, is_prefix}

-- A file's lines, each with its line feed.
joined : List String → Text
joined [] = []
joined (line ∷ lines) = codes line ++ b'\n' ∷ joined lines

-- migrations/0001_ledger_kv.sql
unfoldable pub ledger_kv : Text
unfolding joined
ledger_kv = joined (
    "CREATE TABLE {{schema}}.{{ledger_scopes}} (" ∷ "    name text PRIMARY KEY,"
    ∷ "    tip bigint NOT NULL CHECK (tip >= 0)" ∷ ");" ∷ ""
    ∷ "CREATE TABLE {{schema}}.{{ledger_records}} ("
    ∷ "    name text NOT NULL REFERENCES {{schema}}.{{ledger_scopes}}(name) ON DELETE CASCADE,"
    ∷ "    seq bigint NOT NULL CHECK (seq > 0)," ∷ "    payload bytea NOT NULL,"
    ∷ "    PRIMARY KEY (name, seq)" ∷ ");" ∷ "" ∷ "CREATE TABLE {{schema}}.{{kv}} ("
    ∷ "    key text PRIMARY KEY," ∷ "    revision bigint NOT NULL CHECK (revision > 0),"
    ∷ "    value bytea NOT NULL" ∷ ");" ∷ [])

-- migrations/0002_leases.sql
unfoldable pub create_leases : Text
unfolding joined
create_leases = joined (
    "CREATE TABLE {{schema}}.{{leases}} (" ∷ "    name text PRIMARY KEY,"
    ∷ "    epoch bigint NOT NULL CHECK (epoch >= 0)," ∷ "    holder bytea,"
    ∷ "    expires_at timestamptz," ∷ "    revision bigint NOT NULL CHECK (revision >= 0),"
    ∷ "    CHECK ((holder IS NULL) = (expires_at IS NULL))" ∷ ");" ∷ [])

-- migrations/0003_ordered_index.sql
unfoldable pub ordered_index : Text
unfolding joined
ordered_index = joined (
    "CREATE TABLE {{schema}}.{{ordered_scopes}} (" ∷ "    namespace text COLLATE \"C\" NOT NULL,"
    ∷ "    ordering_scope text COLLATE \"C\" NOT NULL,"
    ∷ "    next_order numeric(20, 0) NOT NULL CHECK (next_order >= 0 AND next_order <= 18446744073709551615),"
    ∷ "    PRIMARY KEY (namespace, ordering_scope)" ∷ ");" ∷ ""
    ∷ "CREATE TABLE {{schema}}.{{ordered_records}} (" ∷ "    namespace text COLLATE \"C\" NOT NULL,"
    ∷ "    ordering_scope text COLLATE \"C\" NOT NULL," ∷ "    stable_key bytea NOT NULL,"
    ∷ "    ranking_scope text COLLATE \"C\" NOT NULL,"
    ∷ "    revision numeric(20, 0) NOT NULL CHECK (revision > 0 AND revision <= 18446744073709551615),"
    ∷ "    order_id numeric(20, 0) NOT NULL CHECK (order_id > 0 AND order_id <= 18446744073709551615),"
    ∷ "    value bytea NOT NULL CHECK (octet_length(value) <= 1048576),"
    ∷ "    value_is_nil boolean NOT NULL," ∷ "    ranked boolean NOT NULL,"
    ∷ "    rank_value bigint NOT NULL," ∷ "    due_state smallint NOT NULL,"
    ∷ "    due_at bigint NOT NULL," ∷ "    deleted boolean NOT NULL DEFAULT false,"
    ∷ "    PRIMARY KEY (namespace, ordering_scope, stable_key),"
    ∷ "    CHECK ((due_state = 0 AND due_at = 0) OR due_state = 1),"
    ∷ "    CHECK (NOT deleted OR (NOT ranked AND due_state = 0 AND due_at = 0))" ∷ ");" ∷ ""
    ∷ "CREATE INDEX {{ordered_order_idx}}"
    ∷ "    ON {{schema}}.{{ordered_records}} (namespace, ordering_scope, order_id, stable_key);"
    ∷ "" ∷ "CREATE INDEX {{ordered_rank_idx}}"
    ∷ "    ON {{schema}}.{{ordered_records}} (namespace, ranking_scope, rank_value DESC, stable_key DESC, ordering_scope DESC)"
    ∷ "    WHERE ranked AND NOT deleted;" ∷ ""
    ∷ "-- ListDue has no scope filter in Storage v0.6.0. The complete key after the"
    ∷ "-- namespace and canonical due-state discriminator is its released total order."
    ∷ "CREATE INDEX {{ordered_due_idx}}"
    ∷ "    ON {{schema}}.{{ordered_records}} (namespace, due_state, due_at, stable_key, ordering_scope)"
    ∷ "    WHERE due_state = 1 AND NOT deleted;" ∷ [])

abbrev pub migrations_dir : Text
migrations_dir = codes "migrations/"

-- An embed.FS: the paths, with what the files hold.
abbrev pub Embedded : Type 0
Embedded = List (Text × Text)

-- migrationFiles, by the pattern migrations/*.sql
abbrev pub migration_files : Embedded
migration_files =
    (codes "migrations/0001_ledger_kv.sql", ledger_kv)
    ∷ (codes "migrations/0002_leases.sql", create_leases)
    ∷ (codes "migrations/0003_ordered_index.sql", ordered_index)
    ∷ []

is_digit : ℕ → Bool
is_digit c = leb b'0' c && leb c b'9'

-- `*.sql`: any bytes but a slash, and the suffix.
is_sql_name : Text → Bool
unfolding text_eq
is_sql_name [] = false
is_sql_name (c ∷ cs) =
    let rest = is_sql_name cs in
    if text_eq (c ∷ cs) (codes ".sql") then true else not (c == b'/') && rest

-- `[0-9][0-9][0-9][0-9]_*.sql`
is_numbered : Text → Bool
unfolding is_digit is_sql_name
is_numbered (a ∷ b ∷ c ∷ d ∷ e ∷ rest) =
    is_digit a && is_digit b && is_digit c && is_digit d && e == b'_' && is_sql_name rest
is_numbered _ = false

-- The pattern of fs.Glob on a path.
pub is_migration : Text → Bool
unfolding is_prefix is_numbered
is_migration path = is_prefix migrations_dir path && is_numbered (drop (length migrations_dir) path)

insert_path : Text → List Text → List Text
unfolding text_le
insert_path p [] = p ∷ []
insert_path p (q ∷ qs) = let rest = insert_path p qs in if text_le p q then p ∷ q ∷ qs else q ∷ rest

-- sort.Strings
sorted : List Text → List Text
unfolding insert_path
sorted [] = []
sorted (p ∷ ps) = insert_path p (sorted ps)

-- The sorted `entries`.
unfoldable pub entries : Embedded → List Text
unfolding is_migration keep sorted
entries files = sorted (keep is_migration (map (λ f. f.0) files))

-- strings.TrimPrefix(path, "migrations/")
abbrev base_name : Text → Text
base_name path = if is_prefix migrations_dir path then drop (length migrations_dir) path else path

-- strconv.Atoi, on digits: the glob lets no sign through.
atoi_onto : ℕ → Text → Option ℕ
unfolding is_digit
atoi_onto n [] = some n
atoi_onto n (c ∷ cs) = if is_digit c then atoi_onto (n * 10 + (c - b'0')) cs else none

atoi : Text → Option ℕ
unfolding atoi_onto
atoi [] = none
atoi (c ∷ cs) = atoi_onto 0 (c ∷ cs)

-- strconv.Atoi(base[:4])
unfoldable pub number_of : Text → Option ℕ
unfolding is_prefix atoi take
number_of path = atoi (take 4 (base_name path))

-- migrationFiles.ReadFile
unfoldable pub read_file : Embedded → Text → Option Text
unfolding text_eq
read_file [] path = none
read_file ((p, sql) ∷ files) path =
    let rest = read_file files path in if text_eq p path then some sql else rest
