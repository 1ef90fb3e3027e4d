-- ===== src/Lease/Life/Tests.antt =====
-- Runs of Release and a renewal round of internal/lease/lease.go, and the theorems at inputs that
-- meet their hypotheses.
use pgstore.Prelude.{
  ℕ, arith, ◌+◌, ◌≡◌, ◌⊎◌, refl, Bool, true, false, none, some, [], ◌∷◌, ◌==◌, if◌then◌else◌,
}
use pgstore.Prelude.Int.{pos}
use pgstore.Text.{codes, text_eq}
use pgstore.Errors.{ok, other_fault}
use pgstore.Driver.{
  Driver, World, delivered, lost, begin_tx, commit_tx, tx_query, pool_query, update_query,
  with_rollback, time_now,
}
use pgstore.Postgres.{set_local_timeouts}
use pgstore.Storage.{Storage}
use pgstore.Guard.Defs.{Context, bound}
use pgstore.Lease.Sql.{Row, Table, find_lease, set_lease}
use pgstore.Lease.Grants.{lease_at}
use pgstore.Lease.Life.Release.{is_possessed, release_acknowledged}
use pgstore.Lease.Life.Renewal.{renew_round_lem}
use pgstore.Lease.Life.Timing.{Covers, observe_conservative}
use pgstore.Lease.Life.{
  renew_due, stopped, release, release_bound, release_reply, release_failed, release_resolved,
  renew_round, completed, ended,
}
use pgstore.Lease.{
  Store, Host, Lease, release_row, resolve_release, resolve_release_reply, observe, observe_reply,
  conservative_remaining,
}

abbrev store : Store
store = record {
  operation_timeout = 30;
  lease_ttl = 9000000;
  statement_timeout = 30;
  lock_timeout = 5;
}

abbrev host : Host
host = record { token = λ n. some (7 ∷ n ∷ []); after = λ c. c + 1 }

abbrev any_name : Storage
any_name = record { validate_name = λ name. none }

-- The answer to the commit is lost.
abbrev lossy : Driver Table
lossy = record {
  outcome = λ n. if n == 4 then lost other_fault else delivered;
  others = λ n d. d;
  server_clock = λ n. 100;
  local_clock = λ n. n;
}

abbrev background : Context
background = record { deadline = none; err_at = λ n. none }

abbrev leased : World Table
leased = record {
  db =
      record {
        name = codes "l";
        epoch = 4;
        holder = some (1 ∷ []);
        expires_at = some 110;
        revision = 8;
      }
      ∷ [];
  writes = λ d. d;
  locked = false;
  now = 0;
}

abbrev lease : Lease
lease = record {
  name = codes "l";
  epoch = 4;
  holder = 1 ∷ [];
  safe_until = 90;
  released = false;
  release_complete = false;
  lost = false;
  done = false;
}

release-lossy :
    (release lossy any_name host store (some background) lease leased).0
    ≡ ok (completed (ended lease), none)
unfolding release release_bound release_reply release_failed release_resolved release_row
    resolve_release resolve_release_reply begin_tx commit_tx tx_query pool_query update_query
    with_rollback set_local_timeouts bound find_lease set_lease text_eq
release-lossy = refl

release_acknowledged_example :
    (n : ℕ) × (is_possessed
        (release lossy any_name host store (some background) lease leased).1.db
        lease
        (lossy.server_clock n)
      ≡ false)
release_acknowledged_example =
    release_acknowledged lossy any_name host store (some background) lease (completed (ended lease))
      leased (λ n d h. h) refl release-lossy

renew_round_lem_example :
    (l' : Lease) × (again : Bool) × ((renew_round lossy any_name host store lease renew_due
        leased).0
      ≡ ok (l', again))
    × (((again ≡ true)
          × (lease.released ≡ false)
          × (lease_at
                (renew_round lossy any_name host store lease renew_due leased).1.db
                (codes "l")
              ≡ (4, 1 ∷ [])))
        ⊎ ((again ≡ false)
            × ((l'.lost ≡ true) ⊎ ((lease.released ≡ true) ⊎ (renew_due ≡ stopped)))))
renew_round_lem_example = renew_round_lem lossy any_name host store lease renew_due leased

observe-leased : (observe lossy any_name host store lease leased).0 ≡ ok (pos 8)
unfolding observe observe_reply conservative_remaining pool_query time_now find_lease text_eq
observe-leased = refl

observe_conservative_example :
    (row : Row) × (find_lease (codes "l") (observe lossy any_name host store lease leased).1.db
      ≡ some row)
    × Covers lease 100 100 8 row
observe_conservative_example =
    observe_conservative lossy any_name host store lease leased 8 (omega arith) observe-leased
