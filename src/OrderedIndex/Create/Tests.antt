-- ===== src/OrderedIndex/Create/Tests.antt =====
-- Runs of Create of internal/orderedindex/orderedindex.go on small tables, and the theorems at inputs
-- that meet their hypotheses.
use pgstore.Prelude.{◌≡◌, ◌⊎◌, refl, true, some, [], ◌∷◌, arith}
use pgstore.Prelude.Int.{pos}
use pgstore.Text.{codes, text_eq}
use pgstore.Records.{not_due}
use pgstore.Errors.{ok, other_fault}
use pgstore.Driver.{
  Driver, lost, pool_query, tx_query, begin_tx, commit_tx, lock_query, with_rollback,
}
use pgstore.Postgres.{RetryableAborts, retryable, set_local_timeouts}
use pgstore.Guard.Defs.{bound}
use pgstore.OrderedIndex.Sql.{Tables, find_record, find_scope, set_scope}
use pgstore.OrderedIndex.Decimal.{format_uint, parse_uint, read_uint}
use pgstore.OrderedIndex.Scan.{scan_record, decoded, records_equal}
use pgstore.OrderedIndex.View.{view}
use pgstore.OrderedIndex.Fixtures.{store, any_record, troubled, background, id_of, counted_scope}
use pgstore.OrderedIndex.{get_record, get_from, retry_loop, attempt_reply}
use pgstore.OrderedIndex.Create.Moves.{Creates}
use pgstore.OrderedIndex.Create.Results.{create_once_at_most, create_acknowledged}
use pgstore.OrderedIndex.Create.{
  Candidate, create, create_looked, create_loop, create_once, create_scoped, create_locked,
  create_counted, create_advanced, create_ordered, create_at, create_committed, create_absent,
  resolve_create, resolve_create_reply, validate_candidate, new_record,
}

-- The answer to the commit is lost.
abbrev lossy : Driver Tables
lossy = troubled 10 (lost other_fault)

abbrev candidate : Candidate
candidate = record {
  ranking_scope = codes "r";
  value = some (9 ∷ []);
  rank = record { ranked = true; value = pos 7 };
  due = not_due;
}

create-lossy :
    (create lossy any_record store (some background) (id_of (codes "a")) candidate counted_scope).0
    ≡ ok (new_record (id_of (codes "a")) candidate 4, true)
unfolding create create_looked create_loop create_once create_scoped create_locked create_counted
    create_advanced create_ordered create_at create_committed create_absent resolve_create
    resolve_create_reply validate_candidate retry_loop attempt_reply get_record get_from scan_record
    decoded records_equal find_record find_scope set_scope text_eq begin_tx commit_tx lock_query
    with_rollback bound set_local_timeouts retryable format_uint parse_uint read_uint pool_query
    tx_query
create-lossy = refl

lossy-RetryableAborts : RetryableAborts lossy
unfolding retryable
lossy-RetryableAborts = record { lost_final = λ n f e. ground arith }

create_acknowledged_example :
    let after =
      (create lossy any_record store
        (some background)
        (id_of (codes "a"))
        candidate
        counted_scope).1.db in
    view after (id_of (codes "a")) ≡ some (ok (new_record (id_of (codes "a")) candidate 4))
create_acknowledged_example =
    (create_acknowledged lossy any_record store (some background) (id_of (codes "a")) candidate
      counted_scope (new_record (id_of (codes "a")) candidate 4) true lossy-RetryableAborts
      create-lossy).0

create_once_at_most_example :
    let after =
      (create lossy any_record store
        (some background)
        (id_of (codes "a"))
        candidate
        counted_scope).1.db in
    (Creates lossy (id_of (codes "a")) candidate counted_scope.db 0 after)
    ⊎ (Creates lossy (id_of (codes "a")) candidate counted_scope.db 1 after)
create_once_at_most_example =
    create_once_at_most lossy any_record store (some background) (id_of (codes "a")) candidate
      counted_scope lossy-RetryableAborts
