-- ===== src/Kv.antt =====
-- internal/kv/kv.go: the revision-CAS key-value store. `Sql` has its statements.
pub mod Sql
mod Lemmas
pub mod Put
pub mod Swap
pub mod Definite
pub mod Keys
pub mod Delete
mod Tests
use pgstore.Prelude.{ℕ, ◌+◌, ◌%◌, ◌^◌, ◌&&◌, Option, none, some, List, [], ◌==◌, if◌then◌else◌}
use pgstore.Text.{Text, Bytes, bytes_equal}
use pgstore.Errors.{Error, Result, ok, err, redacted, key_not_found, conflict, is_no_rows}
use pgstore.Driver.{
  Driver, Exec, Stream, complete, scan_failed, broken, pure, raise, caught, checked, pool_query,
  stream, ◌>>=◌, ◌>>◌,
}
use pgstore.Storage.{Storage}
use pgstore.Guard.Defs.{Context, bound, failure, safe_cause, default_operation_timeout}
use Sql.{Table, select_row, select_present, insert_row, update_row, delete_row, select_keys}

-- The fields that the operations read beside the pool; the table's name is in `Tables`.
pub record Store : Type 0 where
  pub operation_timeout : ℕ

-- New
abbrev pub new : Store
new = record { operation_timeout = default_operation_timeout }

-- WithOperationTimeout
abbrev pub with_operation_timeout : Store → ℕ → Store
with_operation_timeout s timeout = record s { operation_timeout = timeout }

-- bytes.Clone keeps nil nil.
abbrev clone : Bytes → Bytes
clone value = value

-- `if value == nil { value = []byte{} }`
abbrev pub non_nil : Bytes → Bytes
non_nil none = some []
non_nil (some bs) = some bs

-- x + 1 on uint64
abbrev pub next_revision : ℕ → ℕ
next_revision expected = (expected + 1) % 2 ^ 64

module _ (driver : Driver Table) (storage : Storage) (s : Store) where
  get_reply : Context → Text → Result (Bytes × ℕ) → Exec Table (Bytes × ℕ)
  get_reply ctx key (ok (value, revision)) = pure (clone value, revision)
  get_reply ctx key (err e) =
      if is_no_rows e then raise (key_not_found key) else failure ctx "kv get"

  pub get : Option Context → Text → Exec Table (Bytes × ℕ)
  unfolding get_reply bound pool_query
  get ctx key = do
    ctx ← bound driver ctx "KV.Get" s.operation_timeout
    checked (storage.validate_name key)
    r ← caught (pool_query driver (select_row key))
    get_reply ctx key r

  pub put_once : Text → ℕ → Bytes → Exec Table ℕ
  unfolding pool_query
  put_once key expected value =
      if expected == 0
      then pool_query driver (insert_row key (non_nil value))
      else pool_query driver (update_row key expected (non_nil value))

  resolve_put_reply : Text → ℕ → Bytes → Error → Result (Bytes × ℕ) → Exec Table ℕ
  resolve_put_reply key expected value cause (ok (stored, revision)) =
      if revision == next_revision expected && bytes_equal stored value
      then pure revision
      else if revision == expected
      then raise cause
      else raise (conflict key expected)
  resolve_put_reply key expected value cause (err e) =
      if is_no_rows e then raise cause else raise (redacted "kv put outcome resolution")

  pub resolve_put : Text → ℕ → Bytes → Error → Exec Table ℕ
  unfolding resolve_put_reply pool_query
  resolve_put key expected value cause = do
    r ← caught (pool_query driver (select_row key))
    resolve_put_reply key expected value cause r

  put_reply : Context → Text → ℕ → Bytes → Result ℕ → Exec Table ℕ
  put_reply ctx key expected value (ok revision) = pure revision
  put_reply ctx key expected value (err e) =
      if is_no_rows e
      then raise (conflict key expected)
      else do cause ← safe_cause ctx "kv put"; resolve_put key expected value cause

  pub put : Option Context → Text → ℕ → Bytes → Exec Table ℕ
  unfolding put_reply bound
  put ctx key expected value = do
    ctx ← bound driver ctx "KV.Put" s.operation_timeout
    checked (storage.validate_name key)
    r ← caught (put_once key expected value)
    put_reply ctx key expected value r

  keys_reply : Context → List Text → Stream → Exec Table (List Text)
  keys_reply ctx keys complete = pure keys
  keys_reply ctx keys scan_failed = raise (redacted "kv keys")
  keys_reply ctx keys broken = failure ctx "kv keys"

  keys_rows : Context → Result (List Text) → Exec Table (List Text)
  unfolding keys_reply stream
  keys_rows ctx (err e) = failure ctx "kv keys"
  keys_rows ctx (ok keys) = do s ← stream driver; keys_reply ctx keys s

  pub keys : Option Context → Text → Exec Table (List Text)
  unfolding keys_rows bound pool_query
  keys ctx prefix = do
    ctx ← bound driver ctx "KV.Keys" s.operation_timeout
    r ← caught (pool_query driver (select_keys prefix))
    keys_rows ctx r

  pub delete_once : Text → Exec Table (Unit {0})
  unfolding pool_query
  delete_once key = pool_query driver (delete_row key)

  resolve_delete_reply : Error → Result ℕ → Exec Table (Unit {0})
  resolve_delete_reply cause (ok present) = raise cause
  resolve_delete_reply cause (err e) =
      if is_no_rows e then pure tt else raise (redacted "kv delete outcome resolution")

  pub resolve_delete : Text → Error → Exec Table (Unit {0})
  unfolding resolve_delete_reply pool_query
  resolve_delete key cause = do
    r ← caught (pool_query driver (select_present key))
    resolve_delete_reply cause r

  delete_reply : Context → Text → Result (Unit {0}) → Exec Table (Unit {0})
  delete_reply ctx key (ok _) = pure tt
  delete_reply ctx key (err e) = do cause ← safe_cause ctx "kv delete"; resolve_delete key cause

  pub delete : Option Context → Text → Exec Table (Unit {0})
  unfolding delete_reply bound
  delete ctx key = do
    ctx ← bound driver ctx "KV.Delete" s.operation_timeout
    checked (storage.validate_name key)
    r ← caught (delete_once key)
    delete_reply ctx key r
