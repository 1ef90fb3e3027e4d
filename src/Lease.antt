-- ===== src/Lease.antt =====
-- internal/lease/lease.go: renewable leases with epochs. `Sql` has the table and its statements.
-- The column's CHECK excludes a negative epoch, so the two tests for one are not here.
pub mod Sql
pub mod Grants
pub mod Acquire
pub mod Epochs
pub mod Life
mod Tests
use pgstore.Prelude.{
  ℕ, suc, ◌+◌, ◌-◌, ◌/◌, Bool, true, false, ◌&&◌, ◌||◌, not, Option, none, some, List, ltb, leb,
  ◌==◌, if◌then◌else◌,
}
use pgstore.Prelude.Int.{ℤ, pos, negsuc}
use pgstore.Text.{Text, Bytes, bytes_equal}
use pgstore.Errors.{Error, Result, ok, err, redacted, lease_held, lease_lost, is_no_rows}
use pgstore.Driver.{
  Driver, Exec, pure, raise, caught, checked, pool_query, tx_query, lock_query, update_query,
  begin_tx, commit_tx, with_rollback, time_now, ◌>>=◌, ◌>>◌,
}
use pgstore.Storage.{Storage}
use pgstore.Guard.Defs.{Context, bound, ctx_err, failure}
use pgstore.Postgres.{set_local_timeouts}
use Sql.{
  Table, Seen, bigint_max, is_after, insert_lease, select_lease, grant_lease, renew_lease,
  clear_lease,
}

-- The fields that the operations read beside the pool and the name of the table.
pub record Store : Type 0 where
  pub operation_timeout : ℕ
  pub lease_ttl : ℕ
  pub statement_timeout : ℕ
  pub lock_timeout : ℕ

-- crypto/rand.Read of a holder token at a moment, and the server's next clock reading.
pub record Host : Type 0 where
  pub token : ℕ → Option (List ℕ)
  pub after : ℕ → ℕ

pub record Lease : Type 0 where
  pub name : Text
  pub epoch : ℕ
  pub holder : List ℕ
  pub safe_until : ℕ
  pub released : Bool
  pub release_complete : Bool
  pub lost : Bool
  pub done : Bool

-- WithOperationTimeout
abbrev pub with_operation_timeout : Store → ℕ → Store
with_operation_timeout s timeout = record s { operation_timeout = timeout }

-- leaseTTL.Milliseconds()
abbrev pub milliseconds : ℕ → ℕ
milliseconds ttl = ttl / 1000000

-- a - b as a time.Duration
abbrev difference : ℕ → ℕ → ℤ
difference a b = if leb b a then pos (a - b) else negsuc (b - suc a)

-- Time.Add; no clock here reads before 0.
abbrev pub add : ℕ → ℤ → ℕ
add t (pos n) = t + n
add t (negsuc n) = t - suc n

-- remaining <= 0
abbrev pub is_over : ℤ → Bool
is_over (pos n) = n == 0
is_over (negsuc n) = true

-- expiresAt != nil && expiresAt.After(databaseNow)
abbrev pub is_current : Seen → Bool
is_current seen = is_after seen.expires_at seen.database_now

abbrev is_some : {A : Type 0} → Option A → Bool
is_some none = false
is_some (some a) = true

-- currentHolder != nil && expiresAt != nil && expiresAt.After(databaseNow)
abbrev pub is_held : Seen → Bool
is_held seen = is_some seen.holder && is_current seen

-- The row still has this epoch and holder, and has not expired.
abbrev pub is_ours : ℕ → List ℕ → Seen → Bool
is_ours epoch holder seen =
    seen.epoch == epoch && bytes_equal seen.holder (some holder) && is_current seen

abbrev pub or_zero : Option ℕ → ℕ
or_zero none = 0
or_zero (some t) = t

module _ (driver : Driver Table) (storage : Storage) (host : Host) (s : Store) where
  -- expiresAt.Sub(databaseNow) - time.Since(proofStarted)
  pub conservative_remaining : ℕ → ℕ → ℕ → Exec Table ℤ
  unfolding time_now
  conservative_remaining proof_started expires_at database_now = do
    now ← time_now driver
    pure (difference (expires_at + proof_started) (database_now + now))

  -- The lease starts neither released nor lost.
  pub new_lease : Text → ℕ → List ℕ → ℤ → Exec Table Lease
  unfolding time_now
  new_lease name epoch holder remaining = do
    now ← time_now driver
    pure (record {
      name = name;
      epoch = epoch;
      holder = holder;
      safe_until = add now remaining;
      released = false;
      release_complete = false;
      lost = false;
      done = false;
    })

  -- newLease(..., conservativeRemaining(...))
  pub proven_lease : Text → ℕ → List ℕ → ℕ → ℕ → ℕ → Exec Table Lease
  proven_lease name epoch holder proof_started expires_at database_now = do
    remaining ← conservative_remaining proof_started expires_at database_now
    new_lease name epoch holder remaining

  pub resolve_acquire_reply : Text → ℕ → List ℕ → ℕ → Result Seen → Exec Table Lease
  resolve_acquire_reply name epoch holder proof_started (err e) =
      raise (redacted "lease acquire outcome resolution")
  resolve_acquire_reply name epoch holder proof_started (ok seen) =
      if is_ours epoch holder seen
      then proven_lease name epoch holder proof_started (or_zero seen.expires_at) seen.database_now
      else if is_held seen
      then raise (lease_held name seen.epoch)
      else raise (redacted "lease acquire outcome resolution")

  pub resolve_acquire : Text → ℕ → List ℕ → Exec Table Lease
  unfolding resolve_acquire_reply pool_query time_now
  resolve_acquire name epoch holder = do
    proof_started ← time_now driver
    r ← caught (pool_query driver (select_lease name))
    resolve_acquire_reply name epoch holder proof_started r

  pub acquire_reply : Text → ℕ → List ℕ → ℕ → ℕ × ℕ → Result (Unit {0}) → Exec Table Lease
  acquire_reply name epoch holder proof_started (expires_at, database_now) (ok _) =
      proven_lease name epoch holder proof_started expires_at database_now
  acquire_reply name epoch holder proof_started times (err e) = resolve_acquire name epoch holder

  pub or_fail : {A : Type 0} → Context → Result A → Exec Table A
  or_fail ctx (ok a) = pure a
  or_fail ctx (err e) = failure ctx "lease acquire"

  -- `if err != nil { return nil, leaseFailure(ctx, "lease acquire") }`
  pub attempted : {A : Type 0} → Context → Exec Table A → Exec Table A
  unfolding or_fail
  attempted ctx m = do r ← caught m; or_fail ctx r

  pub take_over : Context → Text → ℕ → List ℕ → Exec Table Lease
  take_over ctx name epoch holder = do
    proof_started ← time_now driver
    times ←
        attempted ctx
          (tx_query driver (grant_lease host.after name epoch holder (milliseconds s.lease_ttl)))
    r ← caught (commit_tx driver)
    acquire_reply name epoch holder proof_started times r

  pub acquire_seen : Context → Text → List ℕ → Seen → Exec Table Lease
  acquire_seen ctx name holder seen =
      if is_held seen
      then raise (lease_held name seen.epoch)
      else if seen.epoch == bigint_max
      then raise (redacted "lease epoch exhausted")
      else take_over ctx name (suc seen.epoch) holder

  pub acquire_token : Context → Text → Option (List ℕ) → Exec Table Lease
  acquire_token ctx name none = raise (redacted "lease holder token")
  acquire_token ctx name (some holder) = with_rollback driver do
    attempted ctx (begin_tx driver)
    attempted ctx (set_local_timeouts driver s.statement_timeout s.lock_timeout)
    attempted ctx (tx_query driver (insert_lease name))
    seen ← attempted ctx (lock_query driver (select_lease name))
    acquire_seen ctx name holder seen

  -- rand.Read
  pub draw : Exec Table (Option (List ℕ))
  draw w = (ok (host.token w.now), w)

  pub acquire : Option Context → Text → Exec Table Lease
  unfolding bound draw
  acquire ctx name = do
    ctx ← bound driver ctx "Leaser.Acquire" s.operation_timeout
    checked (storage.validate_name name)
    holder ← draw
    acquire_token ctx name holder

  pub renew_committed : ℕ → ℕ × ℕ → Exec Table ℤ
  unfolding conservative_remaining
  renew_committed proof_started (expires_at, database_now) = do
    commit_tx driver
    conservative_remaining proof_started expires_at database_now

  -- The renewal's `remaining`.
  pub renew_row : Lease → Exec Table ℤ
  unfolding renew_committed
  renew_row l = with_rollback driver do
    begin_tx driver
    set_local_timeouts driver s.statement_timeout s.lock_timeout
    proof_started ← time_now driver
    times ←
        update_query driver (λ _. true)
          (renew_lease host.after l.name l.epoch l.holder (milliseconds s.lease_ttl))
    renew_committed proof_started times

  pub observe_reply : Lease → ℕ → Seen → Exec Table ℤ
  unfolding conservative_remaining
  observe_reply l proof_started seen =
      if not (is_ours l.epoch l.holder seen)
      then raise (lease_lost l.name l.epoch)
      else conservative_remaining proof_started (or_zero seen.expires_at) seen.database_now

  pub observe : Lease → Exec Table ℤ
  unfolding observe_reply time_now pool_query
  observe l = do
    proof_started ← time_now driver
    seen ← pool_query driver (select_lease l.name)
    observe_reply l proof_started seen

  pub release_row : Lease → Exec Table (Unit {0})
  release_row l = with_rollback driver do
    begin_tx driver
    set_local_timeouts driver s.statement_timeout s.lock_timeout
    update_query driver (λ rows. ltb 0 rows) (clear_lease l.name l.epoch l.holder)
    commit_tx driver

  resolve_release_reply : Lease → Result Seen → Exec Table (Unit {0})
  resolve_release_reply l (ok seen) =
      if not (is_ours l.epoch l.holder seen)
      then pure tt
      else raise (redacted "lease release outcome resolution")
  resolve_release_reply l (err e) =
      if is_no_rows e then pure tt else raise (redacted "lease release outcome resolution")

  pub resolve_release : Lease → Exec Table (Unit {0})
  unfolding resolve_release_reply pool_query
  resolve_release l = do
    r ← caught (pool_query driver (select_lease l.name))
    resolve_release_reply l r
