-- ===== src/Kv/Tests.antt =====
-- Runs of internal/kv/kv.go on small tables, and the theorems at inputs that meet their hypotheses.
use pgstore.Prelude.{
  ℕ, ◌≡◌, refl, false, none, some, List, [], ◌∷◌, arith, ◌==◌, if◌then◌else◌, eq_iff, true,
}
use pgstore.Text.{Text, codes, text_eq, is_prefix}
use pgstore.Errors.{ok, err, other_fault, key_not_found, redacted}
use pgstore.Driver.{Driver, World, Outcome, delivered, failed, lost}
use pgstore.Storage.{Storage}
use pgstore.Guard.Defs.{Context}
use pgstore.Kv.Sql.{Table, Row, find_row, write_row, remove_row}
use pgstore.Kv.Put.{view, put_acknowledged}
use pgstore.Kv.Swap.{put_swaps}
use pgstore.Kv.Definite.{put_definite}
use pgstore.Kv.Keys.{keys_listing, IsSorted, contains}
use pgstore.Kv.Delete.{get_reads, delete_acknowledged}
use pgstore.Kv.{Store, put, get, keys, delete, put_once, resolve_put, delete_once, resolve_delete}

abbrev store : Store
store = record { operation_timeout = 30 }

abbrev any_name : Storage
any_name = record { validate_name = λ name. none }

-- The answer of one round trip is lost, or the statement fails.
abbrev troubled : ℕ → Outcome → Driver Table
troubled moment trouble = record {
  outcome = λ n. if n == moment then trouble else delivered;
  others = λ n d. d;
  server_clock = λ n. n;
  local_clock = λ n. n;
}

abbrev healthy : Driver Table
healthy = record {
  outcome = λ n. delivered;
  others = λ n d. d;
  server_clock = λ n. n;
  local_clock = λ n. n;
}

abbrev background : Context
background = record { deadline = none; err_at = λ n. none }

abbrev row_of : Text → ℕ → List ℕ → Row
row_of key revision value = record { key = key; revision = revision; value = value }

abbrev two_keys : World Table
two_keys = record {
  db = row_of (codes "b/1") 3 (7 ∷ []) ∷ row_of (codes "a") 1 [] ∷ [];
  writes = λ d. d;
  locked = false;
  now = 0;
}

put_lost :
    (put
      (troubled 1 (lost other_fault))
      any_name
      store
      (some background)
      (codes "a")
      1
      (some (9 ∷ []))
      two_keys).0
    ≡ ok 2
unfolding put put_once resolve_put find_row write_row text_eq
put_lost = refl

put_acknowledged_example :
    view
      (put
        (troubled 1 (lost other_fault))
        any_name
        store
        (some background)
        (codes "a")
        1
        (some (9 ∷ []))
        two_keys).1.db
      (codes "a")
    ≡ some (2, 9 ∷ [])
put_acknowledged_example =
    (put_acknowledged (troubled 1 (lost other_fault)) any_name store (some background) (codes "a") 1
      (some (9 ∷ [])) two_keys 2 (omega arith) put_lost).1

put_swaps_example :
    (put healthy any_name store (some background) (codes "b/1") 3 (some (9 ∷ [])) two_keys).0 ≡ ok 4
unfolding find_row text_eq
put_swaps_example =
    (put_swaps healthy any_name store background (codes "b/1") (codes "a") 3 (some (9 ∷ []))
      two_keys refl refl refl (omega arith) (omega arith)).0

put_failed :
    (put
      (troubled 1 (failed other_fault))
      any_name
      store
      (some background)
      (codes "a")
      1
      (some (9 ∷ []))
      two_keys).0
    ≡ err (redacted "kv put")
unfolding put put_once resolve_put find_row write_row text_eq
put_failed = refl

put_definite_example :
    (put
      (troubled 1 (failed other_fault))
      any_name
      store
      (some background)
      (codes "a")
      1
      (some (9 ∷ []))
      two_keys).1.db
    ≡ two_keys.db
put_definite_example =
    put_definite (troubled 1 (failed other_fault)) any_name store (some background) (codes "a") 1
      (some (9 ∷ [])) two_keys (redacted "kv put") (record { quiet = λ n d. refl }) (omega arith)
      put_failed (λ e. ground (arith, eq_iff "kv put" "kv put outcome resolution"))

keys_listing_example :
    (listing : List Text) × ((keys healthy any_name store (some background) (codes "b") two_keys).0
      ≡ ok listing)
    × IsSorted listing
    × (contains (codes "b/1") listing ≡ true)
    × ((keys healthy any_name store (some background) (codes "b") two_keys).1.db ≡ two_keys.db)
unfolding find_row text_eq is_prefix
keys_listing_example =
    keys_listing healthy any_name store background (codes "b") (codes "b/1") two_keys refl refl refl

get_reads_example :
    (get healthy any_name store (some background) (codes "c") two_keys).0
    ≡ err (key_not_found (codes "c"))
unfolding find_row text_eq
get_reads_example =
    (get_reads healthy any_name store background (codes "c") two_keys refl refl refl).0

delete_lost :
    (delete (troubled 1 (lost other_fault)) any_name store (some background) (codes "a") two_keys).0
    ≡ ok tt
unfolding delete delete_once resolve_delete find_row remove_row text_eq
delete_lost = refl

delete_acknowledged_example :
    view
      (delete
        (troubled 1 (lost other_fault))
        any_name
        store
        (some background)
        (codes "a")
        two_keys).1.db
      (codes "a")
    ≡ none
delete_acknowledged_example =
    delete_acknowledged (troubled 1 (lost other_fault)) any_name store (some background) (codes "a")
      two_keys delete_lost
