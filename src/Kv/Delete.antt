-- ===== src/Kv/Delete.antt =====
-- KV.Delete and KV.Get of internal/kv/kv.go.
use pgstore.Prelude.{ℕ, suc, ◌≡◌, false, Option, none, some, List, arith, Option-cases, inl, inr}
use pgstore.Text.{Text, Bytes, text_eq_iff}
use pgstore.Errors.{Error, Result, ok, err, key_not_found}
use pgstore.Driver.{Driver, World, delivered, arrive, pool_query}
use pgstore.Driver.Triples.{Triple, Always, AnyError, Post-ok, Triple-then, Triple-try}
use pgstore.Storage.{Storage}
use pgstore.Guard.{Triple-entry}
use pgstore.Guard.Defs.{Context, safe_cause}
use pgstore.Kv.Sql.{Table, find_row}
use pgstore.Kv.Lemmas.{find-remove}
use pgstore.Kv.Put.{view}
use pgstore.Kv.{Store, get, delete, delete_once, delete_reply, resolve_delete}

abbrev read : Text → Option (ℕ × List ℕ) → Result (Bytes × ℕ)
read key none = err (key_not_found key)
read key (some (revision, value)) = ok (some value, revision)

module _ (driver : Driver Table) (storage : Storage) (s : Store) where
  abbrev Absent : Text → Unit {0} → World Table → Type 0
  Absent key _ w = view w.db key ≡ none

  delete_once-Absent :
      (key : Text) → Triple Always (delete_once driver storage s key) (Absent key) AnyError
  unfolding delete_once pool_query
  delete_once-Absent key = record {
    at = λ w _. ground (arith, text_eq_iff key key, find-remove key key (arrive driver w).db);
  }

  resolve_delete-Absent :
      (key : Text) (cause : Error)
      → Triple Always (resolve_delete driver storage s key cause) (Absent key) AnyError
  unfolding resolve_delete
  resolve_delete-Absent key cause = record {
    at = λ w _. elim (Option-cases (find_row key (arrive driver w).db)) [
      | inl e ↦ ground (arith, e)
      | inr (r, e) ↦ ground (arith, e)
    ];
  }

  delete_reply-Absent :
      (c : Context) (key : Text) (e : Error)
      → Triple (AnyError e) (delete_reply driver storage s c key (err e)) (Absent key) AnyError
  unfolding delete_reply
  delete_reply-Absent c key e =
      Triple-then (safe_cause c "kv delete") _ λ cause. resolve_delete-Absent key cause

  -- When Delete reports success the key is gone, also when the driver lost the answer of the
  -- statement and whatever others commit meanwhile.
  pub delete_acknowledged :
      (ctx : Option Context) (key : Text) (w : World Table)
      → (delete driver storage s ctx key w).0 ≡ ok tt
      → view (delete driver storage s ctx key w).1.db key ≡ none
  unfolding delete
  delete_acknowledged ctx key w = Post-ok (Absent key) AnyError _ tt (triple.at w tt)
    where
      triple : Triple Always (delete driver storage s ctx key) (Absent key) AnyError
      triple =
          Triple-entry driver ctx "KV.Delete" s.operation_timeout (storage.validate_name key) _
            (λ _ _ _. tt) (λ _ _ _. tt)
            λ c.
              Triple-try (Absent key) AnyError (delete_once driver storage s key)
                (delete_reply driver storage s c key) (delete_once-Absent key)
                (λ r. record { at = λ w' h. h }) (delete_reply-Absent c key)

  -- Get of a valid key, outside a transaction and its answer delivered, returns the value and
  -- revision that the tables show, or that the key is not found, and writes nothing.
  pub get_reads :
      (c : Context) (key : Text) (w : World Table)
      → storage.validate_name key ≡ none
      → w.locked ≡ false
      → driver.outcome (suc w.now) ≡ delivered
      → let before = driver.others (suc w.now) w.db in
        ((get driver storage s (some c) key w).0 ≡ read key (view before key))
        × ((get driver storage s (some c) key w).1.db ≡ before)
  unfolding get
  get_reads c key w valid free up =
      elim (Option-cases (find_row key (driver.others (suc w.now) w.db))) [
        | inl e ↦ ground (arith, e)
        | inr (r, e) ↦ ground (arith, e)
      ]
