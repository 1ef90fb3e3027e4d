-- ===== src/Lease/Life/Registry.antt =====
-- The leases of a Store of internal/lease/lease.go: the objects that Acquire has made, each at its
-- address, the registry of those whose renewLoop runs, and Close. The store's and the leases'
-- mutexes order the changes; Release, a round of renewLoop and Close are each one step here.
pub mod Fresh
pub mod Live
pub mod Tended
pub mod Closed
pub mod Ending
mod Tests
use pgstore.Prelude.{
  ℕ, zero, suc, Bool, true, false, Option, none, some, List, [], ◌∷◌, ◌++◌, length, get_elem?, keep,
  not, ◌==◌, if◌then◌else◌,
}
use pgstore.Text.{Text}
use pgstore.Errors.{Error}
use pgstore.Driver.{Driver, Exec, pure, ◌>>=◌}
use pgstore.Storage.{Storage}
use pgstore.Guard.Defs.{Context, default_operation_timeout}
use pgstore.Options.{timeouts}
use pgstore.Lease.Sql.{Table}
use pgstore.Lease.{Store, Host, Lease, acquire}
use pgstore.Lease.Life.{Wake, mark_lost, stop, release, renew_round}

-- The leases at the addresses 0, 1, ..., the registered addresses, whether `ctx` is canceled.
pub record Leases : Type 0 where
  pub heap : List Lease
  pub registered : List ℕ
  pub canceled : Bool

-- New
unfoldable pub new : ℕ → List ℕ → Store × Leases
new lease_ttl operation_timeouts = (
  record {
    operation_timeout = default_operation_timeout;
    lease_ttl = lease_ttl;
    statement_timeout = (timeouts operation_timeouts).0;
    lock_timeout = (timeouts operation_timeouts).1;
  },
  record { heap = []; registered = []; canceled = false },
)

-- The leases with the one at an address changed.
unfoldable pub changed : (Lease → Lease) → ℕ → List Lease → List Lease
changed f p [] = []
changed f zero (l ∷ ls) = f l ∷ ls
changed f (suc p) (l ∷ ls) = l ∷ changed f p ls

abbrev pub register : ℕ → Leases → Leases
register p s = record s { registered = p ∷ s.registered }

abbrev pub unregister : ℕ → Leases → Leases
unregister p s = record s { registered = keep (λ q. not (q == p)) s.registered }

-- newLease: a new object, registered, whose renewLoop starts.
abbrev pub start_lease : Lease → Leases → Leases
start_lease l s = register (length s.heap) (record s { heap = s.heap ++ l ∷ [] })

-- lease.stop(); lease.markLost()
abbrev pub shut : Lease → Lease
shut l = mark_lost (stop l)

unfoldable pub shut_all : List ℕ → List Lease → List Lease
unfolding changed
shut_all [] heap = heap
shut_all (p ∷ ps) heap = shut_all ps (changed shut p heap)

-- Close
unfoldable pub close : Leases → Leases
unfolding shut_all
close s = record s { heap = shut_all s.registered s.heap; canceled = true }

-- The first attempt of a Release unregisters the lease.
abbrev pub after_release : ℕ → Lease → Lease → Leases → Leases
after_release p l l' s =
    let s' = record s { heap = changed (λ _. l') p s.heap } in
    if l.released then s' else if l'.released then unregister p s' else s'

-- `defer l.store.unregister(l)`, when the loop ends.
abbrev pub after_round : ℕ → Lease × Bool → Leases → Leases
after_round p (l', goes_on) s =
    let s' = record s { heap = changed (λ _. l') p s.heap } in
    if goes_on then s' else unregister p s'

module _ (driver : Driver Table) (storage : Storage) (host : Host) (store : Store) where
  -- Acquire, with the registration of its lease.
  unfoldable pub acquire_registered : Option Context → Text → Leases → Exec Table Leases
  unfolding acquire
  acquire_registered ctx name s = do
    l ← acquire driver storage host store ctx name
    pure (start_lease l s)

  release_found : Option Context → ℕ → Leases → Option Lease → Exec Table (Leases × Option Error)
  unfolding release
  release_found ctx p s none = pure (s, none)
  release_found ctx p s (some l) = do
    r ← release driver storage host store ctx l
    pure (after_release p l r.0 s, r.1)

  -- Release of the lease at an address.
  unfoldable pub release_at : Option Context → ℕ → Leases → Exec Table (Leases × Option Error)
  unfolding release_found
  release_at ctx p s = release_found ctx p s (get_elem? s.heap p)

-- What the driver does for calls under a context derived from the store's, which is canceled or not.
abbrev pub UnderStore : Type 0
UnderStore = Bool → Driver Table

module _ (drivers : UnderStore) (storage : Storage) (host : Host) (store : Store) where
  round_found : ℕ → Wake → Leases → Option Lease → Exec Table Leases
  unfolding renew_round
  round_found p wake s none = pure s
  round_found p wake s (some l) = do
    r ← renew_round (drivers s.canceled) storage host store l wake
    pure (after_round p r s)

  -- A round of the renewLoop of the lease at an address. Its calls run under the store's context.
  unfoldable pub round_at : ℕ → Wake → Leases → Exec Table Leases
  unfolding round_found
  round_at p wake s = round_found p wake s (get_elem? s.heap p)
