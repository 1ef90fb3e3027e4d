-- ===== src/Lease/Life.antt =====
-- The life of a lease of internal/lease/lease.go after Acquire: Epoch, Release, and renewLoop, one
-- round for each wake-up of its select. The lease's mutexes make Release and a round take turns on
-- its fields; the rounds here run one after the other.
pub mod Release
pub mod Renewal
pub mod Timing
pub mod Registry
mod Tests
use pgstore.Prelude.{ℕ, Bool, true, false, Option, none, some, List, [], ◌∷◌, leb, if◌then◌else◌}
use pgstore.Prelude.Int.{ℤ}
use pgstore.Errors.{Error, Result, ok, err}
use pgstore.Driver.{Driver, Exec, pure, caught, time_now, ◌>>=◌}
use pgstore.Storage.{Storage}
use pgstore.Guard.Defs.{Context, bound, ctx_err}
use pgstore.Lease.Sql.{Table}
use pgstore.Lease.{
  Store, Host, Lease, add, is_over, release_row, resolve_release, renew_row, observe,
}

-- What ends the wait of a round.
pub data Wake : Type 0 where
  stopped store_closed expired renew_due : Wake

-- Epoch; the epoch is never negative.
pub epoch : Lease → ℕ
epoch l = l.epoch

-- markLost closes the channel `lost` once.
abbrev pub mark_lost : Lease → Lease
mark_lost l = record l { lost = true }

-- stop closes the channel `done` once.
abbrev pub stop : Lease → Lease
stop l = record l { done = true }

-- The first attempt stops the renewals; later ones find that done.
abbrev pub ended : Lease → Lease
ended l = if l.released then l else mark_lost (stop (record l { released = true }))

abbrev pub completed : Lease → Lease
completed l = record l { release_complete = true }

-- safeUntil = time.Now().Add(remaining)
abbrev extended : Lease → ℕ → ℤ → Lease
extended l now remaining = record l { safe_until = add now remaining }

module _ (driver : Driver Table) (storage : Storage) (host : Host) (s : Store) where
  pub release_resolved : Lease → Result (Unit {0}) → Exec Table (Lease × Option Error)
  release_resolved l (ok _) = pure (completed l, none)
  release_resolved l (err e) = pure (l, some e)

  pub release_failed : Lease → Option Error → Exec Table (Lease × Option Error)
  unfolding release_resolved
  release_failed l (some e) = pure (l, some e)
  release_failed l none = do
    r ← caught (resolve_release driver storage host s l)
    release_resolved l r

  pub release_reply : Context → Lease → Result (Unit {0}) → Exec Table (Lease × Option Error)
  release_reply ctx l (ok _) = pure (completed l, none)
  release_reply ctx l (err e) = do c ← ctx_err ctx; release_failed l c

  pub release_bound : Lease → Result Context → Exec Table (Lease × Option Error)
  unfolding release_reply
  release_bound l (err e) = pure (l, some e)
  release_bound l (ok ctx) = if l.release_complete then pure (l, none) else do
    r ← caught (release_row driver storage host s (ended l))
    release_reply ctx (ended l) r

  -- Release: the lease as it leaves it, and the error that it returns.
  pub release : Option Context → Lease → Exec Table (Lease × Option Error)
  unfolding bound release_bound
  release ctx l = do
    r ← caught (bound driver ctx "Lease.Release" s.operation_timeout)
    release_bound l r

  -- The end of a round: whether the loop goes on.
  pub round_over : Lease → Result ℤ → Exec Table (Lease × Bool)
  unfolding time_now
  round_over l (err e) = pure (mark_lost l, false)
  round_over l (ok remaining) =
      if is_over remaining
      then pure (mark_lost l, false)
      else do now ← time_now driver; pure (extended l now remaining, true)

  pub round_renewed : Lease → Result ℤ → Exec Table (Lease × Bool)
  unfolding round_over
  round_renewed l (ok remaining) = round_over l (ok remaining)
  round_renewed l (err e) = do r ← caught (observe driver storage host s l); round_over l r

  pub woken : Lease → Wake → Exec Table (Lease × Bool)
  woken l stopped = pure (l, false)
  woken l store_closed = pure (mark_lost l, false)
  woken l expired = pure (mark_lost l, false)
  woken l renew_due = do r ← caught (renew_row driver storage host s l); round_renewed l r

  pub renew_round : Lease → Wake → Exec Table (Lease × Bool)
  unfolding woken time_now
  renew_round l wake = if l.released then pure (l, false) else do
    now ← time_now driver
    if leb l.safe_until now then pure (mark_lost l, false) else woken l wake

  next_round : (Lease → Exec Table (Lease × Bool)) → Lease × Bool → Exec Table (Lease × Bool)
  next_round again (l, false) = pure (l, false)
  next_round again (l, true) = again l

  -- `for`, by the wake-ups that come: whether the loop still runs after them.
  pub renew_loop : List Wake → Lease → Exec Table (Lease × Bool)
  unfolding next_round
  renew_loop [] l = pure (l, true)
  renew_loop (wake ∷ wakes) l = do r ← renew_round l wake; next_round (λ l'. renew_loop wakes l') r
