-- ===== src/Kv/Swap.antt =====
-- KV.Put of internal/kv/kv.go as a compare-and-swap on what a client sees, and what its errors
-- say of the table.
use pgstore.Prelude.{
  ℕ, suc, ◌+◌, ◌<◌, ◌≡◌, false, ◌&&◌, Option, none, some, List, arith, ◌==◌, if◌then◌else◌,
  Option-cases, inl, inr, All,
}
use pgstore.Text.{Text, Bytes, content, text_eq, text_eq_iff}
use pgstore.Errors.{ok, err, conflict, no_rows}
use pgstore.Driver.{Driver, World, delivered, pool_query, arrive}
use pgstore.Storage.{Storage}
use pgstore.Guard.Defs.{Context, bound}
use pgstore.Kv.Sql.{Table, find_row, bigint_max}
use pgstore.Kv.Lemmas.{find-write, find-positive}
use pgstore.Kv.Put.{view}
use pgstore.Kv.{Store, put, put_once}

-- The revision that a caller must expect: 0 for a key that is absent.
abbrev pub current : Option (ℕ × List ℕ) → ℕ
current none = 0
current (some (revision, value)) = revision

-- The constraint revision > 0 of the table.
abbrev pub IsPositive : Table → Type 0
IsPositive = All (λ r. 0 < r.revision)

module _ (driver : Driver Table) (storage : Storage) (s : Store) where
  put_once-swaps :
      (key j : Text) (expected : ℕ) (value : Bytes) (w : World Table)
      → driver.outcome w.now ≡ delivered
      → expected < bigint_max
      → IsPositive (arrive driver w).db
      → let hit = current (view (arrive driver w).db key) == expected in
        let run = put_once driver storage s key expected value w in
        (view run.1.db j ≡ (
          if hit && text_eq key j
          then some (expected + 1, content value)
          else view (arrive driver w).db j))
  unfolding put_once pool_query find_row
  put_once-swaps key j expected value w up b p =
      let d = (arrive driver w).db in
      let write = find-write key j (content value) d in
      elim (Option-cases (find_row key d)) [
        | inl e ↦ ground (arith, e, text_eq_iff key j, write)
        | inr (r, e) ↦ ground (arith, e, text_eq_iff key j, write, find-positive key d r p e)
      ]

  put_once-reply :
      (key : Text) (expected : ℕ) (value : Bytes) (w : World Table)
      → driver.outcome w.now ≡ delivered
      → expected < bigint_max
      → IsPositive (arrive driver w).db
      → (put_once driver storage s key expected value w).0 ≡ (
          if current (view (arrive driver w).db key) == expected
          then ok (expected + 1)
          else err no_rows)
  unfolding put_once pool_query
  put_once-reply key expected value w up b p =
      let d = (arrive driver w).db in
      elim (Option-cases (find_row key d)) [
        | inl e ↦ ground (arith, e)
        | inr (r, e) ↦ ground (arith, e, find-positive key d r p e)
      ]

  -- The statement of Put on a valid key, outside a transaction and its answer delivered, is a
  -- compare-and-swap on the tables that it meets, where all revisions are positive and the expected
  -- one is below the largest bigint: it returns the next revision if the key is at the expected one
  -- (0: absent), and a conflict if not; then the key shows the new revision and value, or all is as
  -- it was.
  pub put_swaps :
      (c : Context) (key j : Text) (expected : ℕ) (value : Bytes) (w : World Table)
      → storage.validate_name key ≡ none
      → w.locked ≡ false
      → driver.outcome (suc w.now) ≡ delivered
      → expected < bigint_max
      → IsPositive (driver.others (suc w.now) w.db)
      → let before = driver.others (suc w.now) w.db in
        let hit = current (view before key) == expected in
        let run = put driver storage s (some c) key expected value w in
        (run.0 ≡ (if hit then ok (expected + 1) else err (conflict key expected)))
        × (view run.1.db j
            ≡ (if hit && text_eq key j then some (expected + 1, content value) else view before j))
  unfolding put bound
  put_swaps c key j expected value w valid free up b p =
      let w' : World Table = record w { now = suc w.now } in
      ground (
        arith,
        put_once-reply key expected value w' up b (rw free p),
        put_once-swaps key j expected value w' up b (rw free p),
      )
