-- ===== src/Lease/Life/Registry/Tests.antt =====
-- Close of internal/lease/lease.go on a store with a lease, and its theorem at an input.
use pgstore.Prelude.{
  ℕ, ◌+◌, ◌≡◌, refl, true, false, none, some, [], ◌∷◌, arith, get_elem?, if◌then◌else◌,
}
use pgstore.Text.{codes, text_eq}
use pgstore.Errors.{ok, other_fault}
use pgstore.Driver.{
  Driver, World, delivered, failed, begin_tx, commit_tx, tx_query, pool_query, lock_query,
  with_rollback, time_now,
}
use pgstore.Storage.{Storage}
use pgstore.Guard.Defs.{Context, bound}
use pgstore.Lease.Sql.{Table, find_lease, set_lease}
use pgstore.Postgres.{set_local_timeouts}
use pgstore.Lease.{
  Store, Host, Lease, acquire_token, acquire_seen, take_over, acquire_reply, resolve_acquire,
  resolve_acquire_reply, proven_lease, attempted, or_fail, new_lease, conservative_remaining, draw,
}
use pgstore.Lease.Life.{renew_due, store_closed}
use pgstore.Lease.Life.Registry.Live.{IsPossible}
use pgstore.Lease.Life.Registry.Closed.{Runs, begun, called, acquires}
use pgstore.Lease.Life.Registry.Ending.{IsCut, Ended, close_lem}
use pgstore.Lease.Life.Registry.{
  UnderStore, Leases, new, shut, close, start_lease, acquire_registered, round_at,
}

abbrev held : Lease
held = record {
  name = codes "a";
  epoch = 1;
  holder = 7 ∷ [];
  safe_until = 50;
  released = false;
  release_complete = false;
  lost = false;
  done = false;
}

abbrev idle : Leases
idle = record { heap = []; registered = []; canceled = false }

close_shuts : close (start_lease held idle) ≡ record {
  heap = record held { lost = true; done = true } ∷ [];
  registered = 0 ∷ [];
  canceled = true;
}
unfolding close
close_shuts = refl

abbrev host : Host
host = record { token = λ n. some (7 ∷ n ∷ []); after = λ c. c + 1 }

abbrev any_name : Storage
any_name = record { validate_name = λ name. none }

abbrev answering : Driver Table
answering = record {
  outcome = λ n. delivered;
  others = λ n d. d;
  server_clock = λ n. 100;
  local_clock = λ n. n;
}

abbrev canceled : Driver Table
canceled = record answering { outcome = λ n. failed other_fault }

-- Answers come until the store's context is canceled.
abbrev drivers : UnderStore
drivers b = if b then canceled else answering

canceled-IsCut : IsCut (drivers true)
canceled-IsCut = record { fault = λ n. other_fault; cut = λ n. refl }

abbrev background : Context
background = record { deadline = none; err_at = λ n. none }

abbrev blank : World Table
blank = record { db = []; writes = λ d. d; locked = false; now = 0 }

abbrev timed : Store × Leases
timed = new 9000000 (30 ∷ 5 ∷ [])

abbrev taken : Lease
taken = record held { holder = 7 ∷ 1 ∷ []; safe_until = 9000005 }

acquire-takes :
    (acquire_registered answering any_name host timed.0
      (some background)
      (codes "a")
      timed.1
      blank).0
    ≡ ok (start_lease taken timed.1)
unfolding acquire_registered new acquire_token acquire_seen take_over acquire_reply resolve_acquire
    resolve_acquire_reply proven_lease attempted or_fail new_lease conservative_remaining draw
    begin_tx set_local_timeouts lock_query tx_query pool_query commit_tx with_rollback time_now
    bound find_lease set_lease text_eq
acquire-takes = refl

abbrev one_lease : Runs any_name host timed.0 timed.1 (start_lease taken timed.1)
one_lease = called begun (acquires answering (some background) (codes "a") blank acquire-takes)

shut_found : get_elem? (close (start_lease taken timed.1)).heap 0 ≡ some (shut taken)
unfolding close new
shut_found = refl

renew_due-IsPossible :
    IsPossible (close (start_lease taken timed.1)).canceled renew_due (shut taken)
renew_due-IsPossible = ((λ e. absurd (ground arith)), (λ e. absurd (ground arith)))

close_lem_example :
    ((q : ℕ) (k : Lease)
      → get_elem? (close (start_lease taken timed.1)).heap q ≡ some k
      → k.lost ≡ true)
    × IsPossible (close (start_lease taken timed.1)).canceled store_closed (shut taken)
    × (t' : Leases) × ((round_at drivers any_name host timed.0 0 renew_due
          (close (start_lease taken timed.1))
          blank).0
        ≡ ok t')
    × Ended 0 t'
close_lem_example =
    close_lem any_name host 9000000 (30 ∷ 5 ∷ []) (start_lease taken timed.1)
      (close (start_lease taken timed.1)) drivers 0 renew_due (shut taken) blank one_lease begun
      shut_found renew_due-IsPossible canceled-IsCut
