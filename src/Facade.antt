-- ===== src/Facade.antt =====
-- pgstore.go: Open and Close. pgxpool.NewWithConfig is a parameter, which says whether it takes a
-- configuration.
pub mod Opening
mod Tests
use pgstore.Prelude.{ℕ, Bool, true, false, not, Option, none, some, [], ◌∷◌, if◌then◌else◌}
use pgstore.Errors.{Error, Result, ok, err, options_error}
use pgstore.Driver.{Driver, Exec, pure, caught, ◌>>=◌}
use pgstore.Guard.Defs.{Context, bound}
use pgstore.Options.{Network, PoolConfig, Options, ResolvedOptions, resolve, invalid_option}
use pgstore.Migrations.Sql.{Catalog}
use pgstore.Migrations.{Setting, migrate}
use pgstore.Ledger
use pgstore.Kv
use pgstore.Lease
use pgstore.Lease.Life.Registry
use pgstore.Lease.Life.Registry.{Leases}
use pgstore.OrderedIndex

-- The four primitives, the lease store's leases, `closeOnce` and the pool that `closePool` closes.
pub record Store : Type 0 where
  pub ledger : Ledger.Store
  pub leaser : Lease.Store
  pub kv : Kv.Store
  pub ordered_index : OrderedIndex.Store
  pub leases : Leases
  pub closed : Bool
  pub pool_closed : Bool

-- What Open leaves of a pool.
pub data Pool : Type 0 where
  no_pool pool_open pool_closed : Pool

-- The stores that Open makes, each with the resolved limits.
unfoldable pub opened : ResolvedOptions → Store
unfolding Registry.new
opened o =
    let limits = o.statement_timeout ∷ o.lock_timeout ∷ [] in
    record {
      ledger = Ledger.with_operation_timeout (Ledger.new limits) o.operation_timeout;
      leaser = Lease.with_operation_timeout (Registry.new o.lease_ttl limits).0 o.operation_timeout;
      kv = Kv.with_operation_timeout Kv.new o.operation_timeout;
      ordered_index =
          OrderedIndex.with_operation_timeout (OrderedIndex.new limits) o.operation_timeout;
      leases = (Registry.new o.lease_ttl limits).1;
      closed = false;
      pool_closed = false;
    }

-- closeOnce.Do(closePool): leaseStore.Close, then pool.Close.
close_pool : Store → Store
unfolding Registry.close
close_pool s =
    if s.closed
    then s
    else record s { leases = Registry.close s.leases; closed = true; pool_closed = true }

-- Close, also of a nil Store.
unfoldable pub close : Option Store → Option Store
unfolding close_pool
close none = none
close (some s) = some (close_pool s)

module _ {S : Type 0} (net : Network) (new_pool : PoolConfig → Bool) (driver : Driver (Catalog S))
    (setting : Setting S) where
  pub open_migrated : ResolvedOptions → Result (Unit {0}) → Exec (Catalog S) (Pool × Result Store)
  unfolding opened
  open_migrated o (err e) = pure (pool_closed, err e)
  open_migrated o (ok _) = pure (pool_open, ok (opened o))

  pub open_bound : ResolvedOptions → Result Context → Exec (Catalog S) (Pool × Result Store)
  unfolding open_migrated migrate
  open_bound o (err e) = pure (no_pool, err e)
  open_bound o (ok ctx) =
      if not (new_pool o.pool_config)
      then pure (no_pool, invalid_option "DSN" "PostgreSQL pool configuration was rejected")
      else do
        r ← caught (
            migrate driver setting ctx o.schema o.table_prefix o.migrations o.statement_timeout
              o.lock_timeout)
        open_migrated o r

  pub open_resolved :
      Option Context → Result ResolvedOptions → Exec (Catalog S) (Pool × Result Store)
  unfolding open_bound bound
  open_resolved ctx (err e) = pure (no_pool, err e)
  open_resolved ctx (ok o) = do
    c ← caught (bound driver ctx "Open" o.operation_timeout)
    open_bound o c

  -- Open: what is left of its pool, and what it returns.
  pub open_store : Option Context → Options → Exec (Catalog S) (Pool × Result Store)
  unfolding open_resolved
  open_store ctx options = open_resolved ctx (resolve net options)
