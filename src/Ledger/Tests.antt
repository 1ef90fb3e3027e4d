-- ===== src/Ledger/Tests.antt =====
-- Runs of internal/ledger/ledger.go on small tables, and the theorems at inputs that meet their
-- hypotheses.
use pgstore.Prelude.{ℕ, ◌≡◌, ◌⊎◌, refl, false, none, some, [], ◌∷◌, arith, ◌==◌, if◌then◌else◌}
use pgstore.Text.{codes, text_eq}
use pgstore.Errors.{ok, other_fault, end_of_file}
use pgstore.Driver.{
  Driver, World, Outcome, delivered, lost, begin_tx, commit_tx, lock_query, with_rollback,
}
use pgstore.Postgres.{RetryableAborts, retryable, set_local_timeouts}
use pgstore.Storage.{Storage}
use pgstore.Guard.Defs.{Context, bound}
use pgstore.Ledger.Sql.{Tables, find_tip, find_payload, set_tip, without_scope}
use pgstore.Ledger.Moves.{Moves, payload_at}
use pgstore.Ledger.Append.{append_once_at_most, append_acknowledged}
use pgstore.Ledger.Contiguous.{IsLog, append-IsLog}
use pgstore.Ledger.Reads.{Increasing, listed, read_listing, tip_reads, drain, drain_lem}
use pgstore.Ledger.Delete.{delete_log_acknowledged}
use pgstore.Ledger.{
  Store, Cursor, append, append_once, append_loop, append_reply, append_locked, resolve_append,
  read, tip, delete, delete_once, resolve_delete,
}

abbrev store : Store
store = record { operation_timeout = 30; statement_timeout = 30; lock_timeout = 5 }

abbrev any_name : Storage
any_name = record { validate_name = λ name. none }

abbrev troubled : ℕ → Outcome → Driver Tables
troubled moment trouble = record {
  outcome = λ n. if n == moment then trouble else delivered;
  others = λ n d. d;
  server_clock = λ n. n;
  local_clock = λ n. n;
}

-- The answer to the commit is lost.
abbrev lossy : Driver Tables
lossy = troubled 7 (lost other_fault)

abbrev background : Context
background = record { deadline = none; err_at = λ n. none }

abbrev one_record : World Tables
one_record = record {
  db = record {
    scopes = record { name = codes "s"; tip = 1 } ∷ [];
    records = record { name = codes "s"; seq = 1; payload = 5 ∷ [] } ∷ [];
  };
  writes = λ d. d;
  locked = false;
  now = 0;
}

append-lossy :
    (append lossy any_name store (some background) (codes "s") 1 (some (6 ∷ [])) one_record).0
    ≡ ok tt
unfolding append append_loop append_once append_reply append_locked resolve_append begin_tx
    set_local_timeouts lock_query commit_tx with_rollback bound find_tip find_payload set_tip
    text_eq retryable
append-lossy = refl

lossy-RetryableAborts : RetryableAborts lossy
unfolding retryable
lossy-RetryableAborts = record { lost_final = λ n f e. ground arith }

append_acknowledged_example :
    payload_at
      (append lossy any_name store (some background) (codes "s") 1 (some (6 ∷ [])) one_record).1.db
      (codes "s")
      2
    ≡ some (6 ∷ [])
append_acknowledged_example =
    append_acknowledged lossy any_name store (some background) (codes "s") 1 (some (6 ∷ []))
      one_record lossy-RetryableAborts append-lossy

append_once_at_most_example :
    let after =
      (append lossy any_name store
        (some background)
        (codes "s")
        1
        (some (6 ∷ []))
        one_record).1.db in
    (Moves lossy (codes "s") 1 (some (6 ∷ [])) one_record.db 0 after)
    ⊎ (Moves lossy (codes "s") 1 (some (6 ∷ [])) one_record.db 1 after)
append_once_at_most_example =
    append_once_at_most lossy any_name store (some background) (codes "s") 1 (some (6 ∷ []))
      one_record lossy-RetryableAborts

one_record-IsLog : IsLog one_record.db
unfolding find_tip find_payload
one_record-IsLog = record { contiguous = λ name seq. ground arith; fits = λ name. ground arith }

append-IsLog_example :
    IsLog
      (append lossy any_name store (some background) (codes "s") 1 (some (6 ∷ [])) one_record).1.db
append-IsLog_example =
    append-IsLog lossy any_name store (some background) (codes "s") 1 (some (6 ∷ [])) one_record
      lossy-RetryableAborts (λ n x log. log) one_record-IsLog

tip_reads_example : (tip lossy any_name store (some background) (codes "s") one_record).0 ≡ ok 1
unfolding find_tip text_eq
tip_reads_example = tip_reads lossy any_name store background (codes "s") one_record refl refl refl

read_listing_example :
    (cursor : Cursor) × ((read lossy any_name store (some background) (codes "s") 0 one_record).0
      ≡ ok cursor)
    × (cursor.closed ≡ false)
    × (cursor.position ≡ 0)
    × Increasing 1 cursor.records
    × (listed 1 cursor.records ≡ some (5 ∷ []))
unfolding find_payload text_eq
read_listing_example =
    read_listing lossy any_name store background (codes "s") 0 1 one_record refl refl refl refl
      (omega arith)

abbrev at_start : Cursor
at_start = record {
  operation_timeout = 30;
  records = one_record.db.records;
  position = 0;
  closed = false;
}

drain_lem_example : drain 2 at_start ≡ (one_record.db.records, some end_of_file)
drain_lem_example = drain_lem 2 at_start refl (omega arith) (omega arith)

delete_lost :
    (delete
      (troubled 1 (lost other_fault))
      any_name
      store
      (some background)
      (codes "s")
      one_record).0
    ≡ ok tt
unfolding delete delete_once resolve_delete find_tip without_scope text_eq
delete_lost = refl

delete_log_acknowledged_example :
    find_tip
      (codes "s")
      (delete
        (troubled 1 (lost other_fault))
        any_name
        store
        (some background)
        (codes "s")
        one_record).1.db.scopes
    ≡ none
delete_log_acknowledged_example =
    delete_log_acknowledged (troubled 1 (lost other_fault)) any_name store (some background)
      (codes "s") one_record delete_lost
