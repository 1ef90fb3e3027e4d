-- ===== src/Lease/Life/Timing.antt =====
-- The remaining time that observe of internal/lease/lease.go reports.
use pgstore.Prelude.{ℕ, suc, ◌+◌, ◌≤◌, ◌<◌, ◌≡◌, some, arith, inl, inr, Option-cases}
use pgstore.Prelude.Int.{pos}
use pgstore.Text.{content, text_eq_iff}
use pgstore.Errors.{ok}
use pgstore.Driver.{Driver, World, arrive, pool_query, time_now}
use pgstore.Storage.{Storage}
use pgstore.Lease.Sql.{Row, Table, find_lease}
use pgstore.Lease.{Store, Host, Lease, observe, observe_reply, conservative_remaining}

-- The row is the lease's: its epoch and token, and an expiry behind the reading `now`, which a span
-- counted from the reading `last` does not pass.
pub record Covers (l : Lease) (now last span : ℕ) (row : Row) : Type 0 where
  pub same_epoch : row.epoch ≡ l.epoch
  pub same_holder : content row.holder ≡ l.holder
  pub expiry : ℕ
  pub expires : row.expires_at ≡ some expiry
  pub unexpired : now < expiry
  pub covered : last + span ≤ expiry

-- When observe reports a remaining time that is not negative, the row that it has read is the
-- lease's own, with its epoch and token, and had not expired at the query. The time counts from
-- where observe returns: whatever passed since the query, the server's clock then and the remaining
-- time together do not go beyond the row's expiry. This if between the query and the return the
-- server's clock advances by no more than the local one does from before the query.
pub observe_conservative :
    (driver : Driver Table) (storage : Storage) (host : Host) (s : Store) (l : Lease)
    (w : World Table) (n : ℕ)
    → driver.server_clock (suc (suc w.now)) + driver.local_clock w.now
      ≤ driver.server_clock (suc w.now) + driver.local_clock (suc (suc w.now))
    → (observe driver storage host s l w).0 ≡ ok (pos n)
    → (row : Row) × (find_lease l.name (observe driver storage host s l w).1.db ≡ some row)
      × Covers l (driver.server_clock (suc w.now)) (driver.server_clock (suc (suc w.now))) n row
unfolding observe observe_reply conservative_remaining pool_query time_now
observe_conservative driver storage host s l w n rate h =
    elim (Option-cases (find_lease l.name (arrive driver (record w { now = suc w.now })).db)) [
      | inl e ↦ absurd (ground (arith, e, h))
      | inr (r, e) ↦ elim (Option-cases r.expires_at) [
        | inl never ↦ absurd (ground (arith, e, h, never))
        | inr (expiry, expires) ↦
            let facts : (r.epoch ≡ l.epoch)
                × (content r.holder ≡ l.holder)
                × (driver.server_clock (suc w.now) < expiry)
                × (driver.server_clock (suc (suc w.now)) + n ≤ expiry) =
              ground (arith, e, h, expires, rate, text_eq_iff (content r.holder) l.holder) in
            (
              r,
              ground (arith, e, h),
              record {
                same_epoch = facts.0;
                same_holder = facts.1;
                expiry = expiry;
                expires = expires;
                unexpired = facts.2;
                covered = facts.3;
              },
            )
      ]
    ]
