-- ===== src/OrderedIndex/Mutate/Tests.antt =====
-- Runs of Update and Delete of internal/orderedindex/orderedindex.go on small tables, and the theorems
-- at inputs that meet their hypotheses.
use pgstore.Prelude.{◌≡◌, ◌⊎◌, refl, true, false, none, some, [], ◌∷◌, arith}
use pgstore.Prelude.Int.{pos}
use pgstore.Text.{codes, text_eq}
use pgstore.Records.{OrderedRecord, unranked, not_due}
use pgstore.Errors.{ok, err, other_fault, ordered_revision_conflict}
use pgstore.Driver.{
  Driver, lost, pool_query, tx_query, begin_tx, commit_tx, lock_query, with_rollback,
}
use pgstore.Postgres.{RetryableAborts, retryable, set_local_timeouts}
use pgstore.Guard.Defs.{bound}
use pgstore.OrderedIndex.Sql.{Tables, find_record, set_record}
use pgstore.OrderedIndex.Decimal.{format_uint, parse_uint, read_uint}
use pgstore.OrderedIndex.Scan.{scan_record, decoded, records_equal}
use pgstore.OrderedIndex.View.{view}
use pgstore.OrderedIndex.Fixtures.{store, any_record, troubled, background, id_of, three_rows}
use pgstore.OrderedIndex.{
  get_record, get_for_update, retry_loop, attempt_reply, attempt_failed, is_contract_error,
}
use pgstore.OrderedIndex.Mutate.Moves.{Mutates}
use pgstore.OrderedIndex.Mutate.Results.{
  update_row, mutations_once, update_record_acknowledged, delete_record_acknowledged,
}
use pgstore.OrderedIndex.Mutate.{
  Change, update, update_once, update_found, update_current, mutate_current, mutate_committed,
  delete, delete_once, delete_found, delete_current, resolve_mutation, resolve_mutation_reply,
}

-- The answer to the commit is lost.
abbrev lossy : Driver Tables
lossy = troubled 5 (lost other_fault)

lossy-RetryableAborts : RetryableAborts lossy
unfolding retryable
lossy-RetryableAborts = record { lost_final = λ n f e. ground arith }

abbrev change : Change
change = record { value = none; rank = record { ranked = true; value = pos 2 }; due = not_due }

abbrev found : OrderedRecord
found = record {
  id = id_of (codes "c");
  ranking_scope = codes "r";
  revision = 4;
  order = 1;
  value = some (5 ∷ []);
  rank = record { ranked = true; value = pos 1 };
  due = record { state = 1; unix_millis = pos 1 };
  deleted = false;
}

abbrev changed : OrderedRecord
changed = record found { revision = 5; value = none; rank = change.rank; due = change.due }

abbrev gone : OrderedRecord
gone = record found { revision = 5; rank = unranked; due = not_due; deleted = true }

update-lossy :
    (update lossy any_record store (some background) (id_of (codes "c")) 4 change three_rows).0
    ≡ ok changed
unfolding update update_once update_found update_current mutate_current mutate_committed
    resolve_mutation resolve_mutation_reply retry_loop attempt_reply get_record get_for_update
    scan_record decoded records_equal find_record set_record text_eq begin_tx commit_tx lock_query
    with_rollback bound set_local_timeouts retryable format_uint parse_uint read_uint pool_query
    tx_query
update-lossy = refl

delete-lossy :
    (delete lossy any_record store (some background) (id_of (codes "c")) 4 three_rows).0 ≡ ok gone
unfolding delete delete_once delete_found delete_current mutate_current mutate_committed
    resolve_mutation resolve_mutation_reply retry_loop attempt_reply get_record get_for_update
    scan_record decoded records_equal find_record set_record text_eq begin_tx commit_tx lock_query
    with_rollback bound set_local_timeouts retryable format_uint parse_uint read_uint pool_query
    tx_query
delete-lossy = refl

-- A revision that is not the stored one is refused.
update-stale :
    (update lossy any_record store (some background) (id_of (codes "c")) 3 change three_rows).0
    ≡ err (ordered_revision_conflict (id_of (codes "c")) 3 4)
unfolding update update_once update_found update_current mutate_current mutate_committed
    resolve_mutation resolve_mutation_reply retry_loop attempt_reply attempt_failed get_record
    get_for_update scan_record decoded records_equal find_record set_record text_eq begin_tx
    commit_tx lock_query with_rollback bound set_local_timeouts retryable format_uint parse_uint
    read_uint pool_query tx_query is_contract_error
update-stale = refl

update_record_acknowledged_example :
    let after =
      (update lossy any_record store
        (some background)
        (id_of (codes "c"))
        4
        change
        three_rows).1.db in
    view after (id_of (codes "c")) ≡ some (ok changed)
update_record_acknowledged_example =
    (update_record_acknowledged lossy any_record store (some background) (id_of (codes "c")) 4
      change three_rows changed lossy-RetryableAborts update-lossy).0

delete_record_acknowledged_example :
    let after =
      (delete lossy any_record store (some background) (id_of (codes "c")) 4 three_rows).1.db in
    view after (id_of (codes "c")) ≡ some (ok gone)
delete_record_acknowledged_example =
    (delete_record_acknowledged lossy any_record store (some background) (id_of (codes "c")) 4
      three_rows gone lossy-RetryableAborts delete-lossy).0

mutations_once_example :
    let updated =
      (update lossy any_record store
        (some background)
        (id_of (codes "c"))
        4
        change
        three_rows).1.db in
    (Mutates lossy (id_of (codes "c")) 4 (update_row change) three_rows.db 0 updated)
    ⊎ (Mutates lossy (id_of (codes "c")) 4 (update_row change) three_rows.db 1 updated)
mutations_once_example =
    (mutations_once lossy any_record store (some background) (id_of (codes "c")) 4 change three_rows
      lossy-RetryableAborts).0
