-- ===== src/Lease/Life/Registry/Fresh.antt =====
-- What Acquire of internal/lease/lease.go returns is neither stopped nor released.
use pgstore.Prelude.{ℕ, suc, ◌≡◌, refl, false, Option, none, some, List, ◌==◌}
use pgstore.Prelude.Int.{ℤ}
use pgstore.Text.{Text}
use pgstore.Errors.{Result, ok, err}
use pgstore.Driver.{
  Driver, World, Exec, time_now, checked, caught, pool_query, tx_query, lock_query, begin_tx,
  commit_tx,
}
use pgstore.Driver.Triples.{Triple, Always, AnyError, Triple-then, Triple-if, Triple-raise}
use pgstore.Driver.Rules.{Triple-rollback}
use pgstore.Postgres.{set_local_timeouts}
use pgstore.Storage.{Storage}
use pgstore.Guard.Defs.{Context, bound}
use pgstore.Lease.Sql.{Table, Seen, bigint_max, insert_lease, select_lease, grant_lease}
use pgstore.Lease.{
  Store, Host, Lease, new_lease, proven_lease, resolve_acquire_reply, resolve_acquire,
  acquire_reply, attempted, take_over, acquire_seen, acquire_token, acquire, draw, is_held, is_ours,
  milliseconds,
}

abbrev pub IsFresh : Lease → World Table → Type 0
IsFresh l w = (l.done ≡ false) × (l.released ≡ false)

module _ (driver : Driver Table) (storage : Storage) (host : Host) (s : Store) where
  abbrev Starts : Exec Table Lease → Type 0
  Starts m = Triple Always m IsFresh AnyError

  new_lease-IsFresh :
      (name : Text) (epoch : ℕ) (holder : List ℕ) (remaining : ℤ)
      → Starts (new_lease driver storage host s name epoch holder remaining)
  unfolding new_lease time_now
  new_lease-IsFresh name epoch holder remaining = record { at = λ w p. (refl, refl) }

  proven_lease-IsFresh :
      (name : Text) (epoch : ℕ) (holder : List ℕ) (started expires_at now : ℕ)
      → Starts (proven_lease driver storage host s name epoch holder started expires_at now)
  unfolding proven_lease
  proven_lease-IsFresh name epoch holder started expires_at now =
      Triple-then _ _ (λ r. new_lease-IsFresh name epoch holder r)

  resolve_acquire-IsFresh :
      (name : Text) (epoch : ℕ) (holder : List ℕ)
      → Starts (resolve_acquire driver storage host s name epoch holder)
  unfolding resolve_acquire resolve_acquire_reply
  resolve_acquire-IsFresh name epoch holder =
      Triple-then (time_now driver) _
        (λ t. Triple-then (caught (pool_query driver (select_lease name))) _ (λ r. reply t r))
    where
      reply :
          (started : ℕ) (r : Result Seen)
          → Starts (resolve_acquire_reply driver storage host s name epoch holder started r)
      reply started (err e) = Triple-raise _
      reply started (ok seen) =
          Triple-if (is_ours epoch holder seen) _ _
            (λ _. proven_lease-IsFresh name epoch holder started _ _)
            (λ _. Triple-if (is_held seen) _ _ (λ _. Triple-raise _) (λ _. Triple-raise _))

  acquire_reply-IsFresh :
      (name : Text) (epoch : ℕ) (holder : List ℕ) (started : ℕ) (times : ℕ × ℕ)
      (r : Result (Unit {0}))
      → Starts (acquire_reply driver storage host s name epoch holder started times r)
  unfolding acquire_reply
  acquire_reply-IsFresh name epoch holder started (expires_at, now) (ok _) =
      proven_lease-IsFresh name epoch holder started expires_at now
  acquire_reply-IsFresh name epoch holder started times (err e) =
      resolve_acquire-IsFresh name epoch holder

  acquire_seen-IsFresh :
      (ctx : Context) (name : Text) (holder : List ℕ) (seen : Seen)
      → Starts (acquire_seen driver storage host s ctx name holder seen)
  unfolding acquire_seen take_over
  acquire_seen-IsFresh ctx name holder seen =
      Triple-if (is_held seen) _ _ (λ _. Triple-raise _)
        (λ _.
          Triple-if (seen.epoch == bigint_max) _ _ (λ _. Triple-raise _)
            (λ _. Triple-then (time_now driver) _ λ started.
              Triple-then
                (attempted driver storage host s ctx (
                  tx_query driver (
                    grant_lease host.after name (suc seen.epoch) holder
                      (milliseconds s.lease_ttl))))
                _
                λ times.
                  Triple-then (caught (commit_tx driver)) _
                    λ r. acquire_reply-IsFresh name (suc seen.epoch) holder started times r))

  acquire_token-IsFresh :
      (ctx : Context) (name : Text) (token : Option (List ℕ))
      → Starts (acquire_token driver storage host s ctx name token)
  unfolding acquire_token
  acquire_token-IsFresh ctx name none = Triple-raise _
  acquire_token-IsFresh ctx name (some holder) = Triple-rollback driver _ (
      Triple-then (attempted driver storage host s ctx (begin_tx driver)) _ λ _.
        Triple-then
          (attempted driver storage host s ctx
            (set_local_timeouts driver s.statement_timeout s.lock_timeout))
          _
          λ _.
            Triple-then (attempted driver storage host s ctx (tx_query driver (insert_lease name)))
              _
              λ _.
                Triple-then
                  (attempted driver storage host s ctx (lock_query driver (select_lease name))) _
                  λ seen. acquire_seen-IsFresh ctx name holder seen)

  pub acquire-IsFresh :
      (ctx : Option Context) (name : Text) → Starts (acquire driver storage host s ctx name)
  unfolding acquire
  acquire-IsFresh ctx name =
      Triple-then (bound driver ctx "Leaser.Acquire" s.operation_timeout) _ λ c.
        Triple-then (checked (storage.validate_name name)) _ λ _.
          Triple-then (draw driver storage host s) _ λ token. acquire_token-IsFresh c name token
