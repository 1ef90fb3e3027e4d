-- ===== src/Lease/Tests.antt =====
-- Runs of internal/lease/lease.go on small tables, and the theorems at inputs that meet their
-- hypotheses.
use pgstore.Prelude.{
  ℕ, ◌+◌, ◌<◌, ◌≤◌, ◌≡◌, ◌≢◌, ◌⊎◌, refl, true, false, none, some, [], ◌∷◌, arith, ◌==◌,
  if◌then◌else◌,
}
use pgstore.Text.{codes, text_eq}
use pgstore.Errors.{ok, err, other_fault, lease_held}
use pgstore.Driver.{
  Driver, World, Outcome, delivered, lost, begin_tx, commit_tx, tx_query, pool_query, lock_query,
  with_rollback, time_now,
}
use pgstore.Postgres.{set_local_timeouts}
use pgstore.Storage.{Storage}
use pgstore.Guard.Defs.{Context, bound}
use pgstore.Lease.Sql.{Table, Row, find_lease, set_lease}
use pgstore.Lease.Grants.{Grants, epoch_at, lease_at, held_at}
use pgstore.Lease.Epochs.{
  acquire_once_at_most, acquire_acknowledged, acquire_fences, acquire_epochs, acquire_excludes,
}
use pgstore.Lease.{
  Store, Host, Lease, acquire, acquire_token, acquire_seen, take_over, acquire_reply,
  resolve_acquire, resolve_acquire_reply, proven_lease, attempted, or_fail, new_lease,
  conservative_remaining, draw,
}

abbrev store : Store
store = record {
  operation_timeout = 30;
  lease_ttl = 9000000;
  statement_timeout = 30;
  lock_timeout = 5;
}

abbrev host : Host
host = record { token = λ n. some (7 ∷ n ∷ []); after = λ c. c + 1 }

abbrev any_name : Storage
any_name = record { validate_name = λ name. none }

-- The answer at one moment, with the server's clock stopped.
abbrev troubled : ℕ → Outcome → Driver Table
troubled moment trouble = record {
  outcome = λ n. if n == moment then trouble else delivered;
  others = λ n d. d;
  server_clock = λ n. 100;
  local_clock = λ n. n;
}

-- The answer to the commit is lost.
abbrev lossy : Driver Table
lossy = troubled 7 (lost other_fault)

abbrev background : Context
background = record { deadline = none; err_at = λ n. none }

abbrev with_row : Row → World Table
with_row r = record { db = r ∷ []; writes = λ d. d; locked = false; now = 0 }

abbrev expired_row : World Table
expired_row = with_row (record {
  name = codes "l";
  epoch = 4;
  holder = some (1 ∷ []);
  expires_at = some 100;
  revision = 8;
})

abbrev current_row : World Table
current_row = with_row (record {
  name = codes "l";
  epoch = 4;
  holder = some (1 ∷ []);
  expires_at = some 101;
  revision = 8;
})

abbrev taken : Lease
taken = record {
  name = codes "l";
  epoch = 5;
  holder = 7 ∷ 1 ∷ [];
  safe_until = 9000010;
  released = false;
  release_complete = false;
  lost = false;
  done = false;
}

acquire-lossy :
    (acquire lossy any_name host store (some background) (codes "l") expired_row).0 ≡ ok taken
unfolding acquire acquire_token acquire_seen take_over acquire_reply resolve_acquire
    resolve_acquire_reply proven_lease attempted or_fail new_lease conservative_remaining draw
    begin_tx set_local_timeouts lock_query tx_query pool_query commit_tx with_rollback time_now
    bound find_lease set_lease text_eq
acquire-lossy = refl

acquire-held :
    (acquire lossy any_name host store (some background) (codes "l") current_row).0
    ≡ err (lease_held (codes "l") 4)
unfolding acquire acquire_token acquire_seen take_over acquire_reply resolve_acquire
    resolve_acquire_reply proven_lease attempted or_fail new_lease conservative_remaining draw
    begin_tx set_local_timeouts lock_query tx_query pool_query commit_tx with_rollback time_now
    bound find_lease set_lease text_eq
acquire-held = refl

acquire_once_at_most_example :
    let after =
      (acquire lossy any_name host store (some background) (codes "l") expired_row).1.db in
    (Grants lossy host (codes "l") 9 expired_row.db 0 after)
    ⊎ (Grants lossy host (codes "l") 9 expired_row.db 1 after)
acquire_once_at_most_example =
    acquire_once_at_most lossy any_name host store (some background) (codes "l") expired_row

acquire_acknowledged_example :
    lease_at
      (acquire lossy any_name host store (some background) (codes "l") expired_row).1.db
      (codes "l")
    ≡ (5, 7 ∷ 1 ∷ [])
acquire_acknowledged_example =
    acquire_acknowledged lossy any_name host store (some background) (codes "l") expired_row taken
      acquire-lossy

acquire_fences_example : epoch_at expired_row.db (codes "l") < 5
acquire_fences_example =
    acquire_fences lossy any_name host store (some background) (codes "l") expired_row taken
      (λ n d. omega arith) acquire-lossy

acquire_epochs_example :
    epoch_at expired_row.db (codes "l")
    ≤ epoch_at
        (acquire lossy any_name host store (some background) (codes "l") expired_row).1.db
        (codes "l")
acquire_epochs_example =
    acquire_epochs lossy any_name host store (some background) (codes "l") (codes "l") expired_row
      λ n d. omega arith

acquire_excludes_example :
    let after =
      (acquire lossy any_name host store (some background) (codes "l") current_row).1.db in
    ((epoch_at after (codes "l") ≡ 4) × ((n : ℕ) → held_at after (codes "l") 100 ≡ true))
    × ((l : Lease)
        → (acquire lossy any_name host store (some background) (codes "l") current_row).0 ≢ ok l)
unfolding find_lease text_eq
acquire_excludes_example =
    acquire_excludes lossy any_name host store (some background) (codes "l") current_row 4
      (λ n d h. h) (refl, λ n. refl)
