-- ===== src/Ledger/Delete.antt =====
-- Delete of internal/ledger/ledger.go.
use pgstore.Prelude.{◌≡◌, refl, List, [], ◌∷◌, Option, none, arith, Option-cases, inl, inr}
use pgstore.Text.{Text}
use pgstore.Errors.{Error, ok, err}
use pgstore.Driver.{Driver, World, arrive, pool_query}
use pgstore.Driver.Triples.{Triple, Always, AnyError, Post-ok, Triple-then, Triple-try}
use pgstore.Storage.{Storage}
use pgstore.Guard.{Triple-entry}
use pgstore.Guard.Defs.{Context, safe_cause}
use pgstore.Ledger.Sql.{Tables, Scope, find_tip, without_scope}
use pgstore.Ledger.{Store, delete, delete_once, delete_reply, resolve_delete}

find_tip-without : (name : Text) (ss : List Scope) → find_tip name (without_scope name ss) ≡ none
unfolding find_tip without_scope
find_tip-without name [] = refl
find_tip-without name (x ∷ ss) = ground (arith, find_tip-without name ss)

module _ (driver : Driver Tables) (storage : Storage) (s : Store) where
  abbrev Absent : Text → Unit {0} → World Tables → Type 0
  Absent name _ w = find_tip name w.db.scopes ≡ none

  delete_once-Absent :
      (name : Text) → Triple Always (delete_once driver storage s name) (Absent name) AnyError
  unfolding delete_once pool_query
  delete_once-Absent name = record {
    at = λ w _. ground (arith, find_tip-without name (arrive driver w).db.scopes);
  }

  resolve_delete-Absent :
      (name : Text) (cause : Error)
      → Triple Always (resolve_delete driver storage s name cause) (Absent name) AnyError
  unfolding resolve_delete
  resolve_delete-Absent name cause = record {
    at = λ w _. elim (Option-cases (find_tip name (arrive driver w).db.scopes)) [
      | inl e ↦ ground (arith, e)
      | inr (t, e) ↦ ground (arith, e)
    ];
  }

  delete_reply-Absent :
      (c : Context) (name : Text) (e : Error)
      → Triple (AnyError e) (delete_reply driver storage s c name (err e)) (Absent name) AnyError
  unfolding delete_reply
  delete_reply-Absent c name e =
      Triple-then (safe_cause c "ledger delete") _ λ cause. resolve_delete-Absent name cause

  -- When Delete reports success the name has no scope, also when the
  -- driver lost the answer of the statement and whatever others commit meanwhile.
  pub delete_log_acknowledged :
      (ctx : Option Context) (name : Text) (w : World Tables)
      → (delete driver storage s ctx name w).0 ≡ ok tt
      → find_tip name (delete driver storage s ctx name w).1.db.scopes ≡ none
  unfolding delete
  delete_log_acknowledged ctx name w = Post-ok (Absent name) AnyError _ tt (triple.at w tt)
    where
      triple : Triple Always (delete driver storage s ctx name) (Absent name) AnyError
      triple =
          Triple-entry driver ctx "Ledger.Delete" s.operation_timeout (storage.validate_name name) _
            (λ _ _ _. tt) (λ _ _ _. tt)
            λ c.
              Triple-try (Absent name) AnyError (delete_once driver storage s name)
                (delete_reply driver storage s c name) (delete_once-Absent name)
                (λ r. record { at = λ w' h. h }) (delete_reply-Absent c name)
