-- ===== src/Kv/Put.antt =====
-- KV.Put of internal/kv/kv.go: compare-and-swap on the revision, whatever the driver reports.
use pgstore.Prelude.{ℕ, ◌+◌, ◌^◌, ◌<◌, ◌≡◌, Option, none, some, List, arith, Option-cases, inl, inr}
use pgstore.Text.{Text, Bytes, content, text_eq_iff}
use pgstore.Errors.{Error, ok, err, conflict, is_no_rows}
use pgstore.Driver.{Driver, World, pool_query, arrive}
use pgstore.Driver.Triples.{
  Triple, Always, AnyError, Post-ok, Triple-then, Triple-try, Triple-if, Triple-raise,
}
use pgstore.Storage.{Storage}
use pgstore.Guard.{Triple-entry}
use pgstore.Guard.Defs.{Context, safe_cause}
use pgstore.Kv.Sql.{Row, Table, find_row}
use pgstore.Kv.Lemmas.{find-write}
use pgstore.Kv.{Store, put, put_once, put_reply, resolve_put}

-- What a client sees of a key: its revision and its value.
abbrev shown : Option Row → Option (ℕ × List ℕ)
shown none = none
shown (some r) = some (r.revision, r.value)

abbrev pub view : Table → Text → Option (ℕ × List ℕ)
view d key = shown (find_row key d)

module _ (driver : Driver Table) (storage : Storage) (s : Store) where
  -- What a returned revision says of the tables.
  abbrev Stored : Text → ℕ → Bytes → ℕ → World Table → Type 0
  Stored key expected value revision w =
      (revision ≡ expected + 1) × (view w.db key ≡ some (revision, content value))

  put_once-Stored :
      (key : Text) (expected : ℕ) (value : Bytes)
      → Triple Always
          (put_once driver storage s key expected value)
          (Stored key expected value)
          AnyError
  unfolding put_once pool_query find_row
  put_once-Stored key expected value = record {
    at = λ w _.
        ground
          (arith, text_eq_iff key key, find-write key key (content value) (arrive driver w).db);
  }

  resolve_put-Stored :
      (key : Text) (expected : ℕ) (value : Bytes) (cause : Error)
      → expected + 1 < 2 ^ 64
      → Triple Always
          (resolve_put driver storage s key expected value cause)
          (Stored key expected value)
          AnyError
  unfolding resolve_put
  resolve_put-Stored key expected value cause b = record {
    at = λ w _. elim (Option-cases (find_row key (arrive driver w).db)) [
      | inl e ↦ ground (arith, e)
      | inr (r, e) ↦ ground (arith, e, text_eq_iff r.value (content value))
    ];
  }

  put_reply-Stored :
      (ctx : Context) (key : Text) (expected : ℕ) (value : Bytes) (e : Error)
      → expected + 1 < 2 ^ 64
      → Triple
          (AnyError e)
          (put_reply driver storage s ctx key expected value (err e))
          (Stored key expected value)
          AnyError
  unfolding put_reply
  put_reply-Stored ctx key expected value e b =
      Triple-if (is_no_rows e) _ _ (λ _. Triple-raise (conflict key expected))
        λ _.
          Triple-then (safe_cause ctx "kv put") _
            λ cause. resolve_put-Stored key expected value cause b

  -- A revision that Put returns is the expected one plus 1, where that fits a uint64, and the key
  -- then holds that revision and the caller's value: whatever the driver reports, and whatever
  -- others commit meanwhile.
  pub put_acknowledged :
      (ctx : Option Context) (key : Text) (expected : ℕ) (value : Bytes) (w : World Table)
      (revision : ℕ)
      → expected + 1 < 2 ^ 64
      → (put driver storage s ctx key expected value w).0 ≡ ok revision
      → (revision ≡ expected + 1)
        × (view (put driver storage s ctx key expected value w).1.db key
            ≡ some (revision, content value))
  unfolding put
  put_acknowledged ctx key expected value w revision b =
      Post-ok (Stored key expected value) AnyError _ revision (triple.at w tt)
    where
      triple :
          Triple Always
            (put driver storage s ctx key expected value)
            (Stored key expected value)
            AnyError
      triple =
          Triple-entry driver ctx "KV.Put" s.operation_timeout (storage.validate_name key) _
            (λ _ _ _. tt) (λ _ _ _. tt)
            λ ctx'.
              Triple-try (Stored key expected value) AnyError
                (put_once driver storage s key expected value)
                (put_reply driver storage s ctx' key expected value)
                (put_once-Stored key expected value) (λ r. record { at = λ w' h. h })
                λ e. put_reply-Stored ctx' key expected value e b
