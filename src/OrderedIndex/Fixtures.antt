-- ===== src/OrderedIndex/Fixtures.antt =====
-- Small tables and drivers for the tests of internal/orderedindex/orderedindex.go.
use pgstore.Prelude.{ℕ, Option, List, Bool, true, false, none, some, [], ◌∷◌, ◌==◌, if◌then◌else◌}
use pgstore.Prelude.Int.{ℤ, pos, negsuc}
use pgstore.Text.{Text, codes}
use pgstore.Records.{OrderedId, ranked_kind, due_kind}
use pgstore.Driver.{Driver, World, Outcome, delivered}
use pgstore.Storage.{OrderedStorage}
use pgstore.Guard.Defs.{Context}
use pgstore.OrderedIndex.Sql.{Row, Tables}
use pgstore.OrderedIndex.Cursor.{Envelope, Json}
use pgstore.OrderedIndex.{Store}

abbrev pub store : Store
store = record { operation_timeout = 30; statement_timeout = 30; lock_timeout = 5 }

abbrev pub any_record : OrderedStorage
any_record = record {
  validate_name = λ name. none;
  validate_stable_key = λ key. none;
  validate_ordered_id = λ id. none;
  validate_ordered_value = λ value. none;
  validate_due = λ due. none;
  validate_ordered_limit = λ limit. none;
  validate_ordered_record = λ r. none;
  kind_name = λ kind. elim kind [ ranked_kind ↦ codes "ranked" | due_kind ↦ codes "due" ];
}

abbrev pub troubled : ℕ → Outcome → Driver Tables
troubled moment trouble = record {
  outcome = λ n. if n == moment then trouble else delivered;
  others = λ n d. d;
  server_clock = λ n. n;
  local_clock = λ n. n;
}

abbrev pub background : Context
background = record { deadline = none; err_at = λ n. none }

abbrev pub id_of : Text → OrderedId
id_of key = record { namespace = codes "n"; ordering_scope = codes "o"; stable_key = key }

abbrev pub counted_scope : World Tables
counted_scope = record {
  db = record {
    scopes = record { namespace = codes "n"; ordering_scope = codes "o"; next_order = 3 } ∷ [];
    records = [];
  };
  writes = λ d. d;
  locked = false;
  now = 0;
}

abbrev pub row_of : Text → ℕ → ℕ → Row
row_of key revision order = record {
  id = id_of key;
  ranking_scope = codes "r";
  revision = revision;
  order_id = order;
  value = 5 ∷ [];
  value_is_nil = false;
  ranked = true;
  rank_value = pos order;
  due_state = 1;
  due_at = pos order;
  deleted = false;
}

abbrev pub three_rows : World Tables
three_rows = record counted_scope {
  db = record {
    scopes = counted_scope.db.scopes;
    records = row_of (codes "b") 1 3 ∷ row_of (codes "c") 4 1 ∷ row_of (codes "a") 1 2 ∷ [];
  };
}

-- A writer of documents that name the position and the key only, for one query.
abbrev magnitude : ℤ → ℕ
magnitude (pos n) = n
magnitude (negsuc n) = 0

abbrev read_document : List ℕ → Option (Envelope × Bool)
read_document [] = none
read_document (p ∷ key) = some (
  record {
    version = pos 1;
    kind = codes "ranked";
    namespace = codes "n";
    ranking_scope = codes "r";
    due_bound = none;
    position = pos p;
    stable_key = key;
    ordering_scope = codes "o";
  },
  false,
)

abbrev pub documents : Json
documents = record {
  marshal = λ e. some (magnitude e.position ∷ e.stable_key);
  header = λ raw. some (some (pos 1), some (codes "ranked"));
  strict = read_document;
}

abbrev pub healthy : Driver Tables
healthy = record {
  outcome = λ n. delivered;
  others = λ n d. d;
  server_clock = λ n. n;
  local_clock = λ n. n;
}
