-- ===== src/OrderedIndex/Create/Results.antt =====
-- Create of internal/orderedindex/orderedindex.go: what it returns and what it leaves, through its
-- first lookup, its retries and the reread after an unknown commit.
use pgstore.Prelude.{◌≡◌, Bool, true, false, Option, none, some, ◌⊎◌, inl, inr}
use pgstore.Records.{OrderedId, OrderedRecord}
use pgstore.Errors.{Error, ok, is_no_rows}
use pgstore.Driver.{Driver, World, arrive, checked}
use pgstore.Driver.Triples.{Triple, Post, Post-both, Post-ok, Triple-bind, Triple-try, Triple-if}
use pgstore.Storage.{OrderedStorage}
use pgstore.Guard.{Triple-entry}
use pgstore.Guard.Defs.{Context}
use pgstore.Postgres.{RetryableAborts, attempts}
use pgstore.OrderedIndex.Sql.{Tables}
use pgstore.OrderedIndex.Scan.{records_equal, records_equal-eq}
use pgstore.OrderedIndex.View.{view}
use pgstore.OrderedIndex.Retry.{Triple-retry}
use pgstore.OrderedIndex.Reading.{get_record-Seen}
use pgstore.OrderedIndex.{Store, get_record}
use pgstore.OrderedIndex.Create.Moves.{Creates, here}
use pgstore.OrderedIndex.Create.Steps.{Moved, Once, Returned, Wanted, arrive-Moved}
use pgstore.OrderedIndex.Create.Attempt.{create_once-Attempt}
use pgstore.OrderedIndex.Create.{
  Candidate, Created, new_record, resolve_create, resolve_create_reply, create_looked, create_loop,
  validate_candidate, create,
}

module _ (driver : Driver Tables) (storage : OrderedStorage) (s : Store) (id : OrderedId)
    (c : Candidate) (start : Tables) where
  abbrev Start : World Tables → Type 0
  Start = Moved driver storage s id c start 0

  abbrev AtMost : World Tables → Type 0
  AtMost = Once driver storage s id c start

  abbrev Result' : Created → World Tables → Type 0
  Result' = Returned driver storage s id c start

  arrive-AtMost : (w : World Tables) → AtMost w → AtMost (arrive driver w)
  arrive-AtMost w (inl m) = inl (arrive-Moved driver storage s id c start 0 w m)
  arrive-AtMost w (inr m) = inr (arrive-Moved driver storage s id c start 1 w m)

  resolve_create-Returned :
      (want : OrderedRecord) (cause : Error)
      → Triple
          (Wanted driver storage s id c start want)
          (resolve_create driver storage s id want cause)
          Result'
          (λ _. AtMost)
  unfolding resolve_create resolve_create_reply
  resolve_create-Returned want cause =
      Triple-try (λ r w. Wanted driver storage s id c start want w × (view w.db id ≡ some (ok r)))
        (λ _. Wanted driver storage s id c start want) (get_record driver storage s id)
        (resolve_create_reply driver storage s id want cause)
        (get_record-Seen driver storage s id {P = Wanted driver storage s id c start want}
          λ w p. (arrive-AtMost w p.0, p.1))
        (λ got.
          Triple-if (records_equal got want) _ _
            (λ same. record {
              at = λ w p.
                  (p.0.0, p.1, (λ _. rw (records_equal-eq got want same) p.0.1), λ h. absurd (cc));
            })
            λ _. record { at = λ w p. p.0.0 })
        λ e. record { at = λ w p. p.0 }

  create_loop-Returned :
      (ctx : Context)
      → RetryableAborts driver
      → Triple Start (create_loop driver storage s ctx id c attempts) Result' (λ _. AtMost)
  unfolding create_loop
  create_loop-Returned ctx aborts =
      Triple-retry "ordered create" _ _ ctx (λ w n p. p) (λ e w p. inl p)
        {U = Wanted driver storage s id c start} attempts
        (create_once-Attempt driver storage s id c start ctx aborts) resolve_create-Returned

  candidate-Start : Triple Start (validate_candidate driver storage s c) (λ _. Start) (λ _. AtMost)
  unfolding validate_candidate
  candidate-Start =
      Triple-bind (λ _. Start) _ _ (check (storage.validate_name c.ranking_scope))
        λ _.
          Triple-bind (λ _. Start) _ _ (check (storage.validate_ordered_value c.value))
            λ _. check (storage.validate_due c.due)
    where
      check : (r : Option Error) → Triple Start (checked r) (λ _. Start) (λ _. AtMost)
      check none = record { at = λ w p. p }
      check (some e) = record { at = λ w p. inl p }

  create-Returned :
      (ctx : Option Context)
      → RetryableAborts driver
      → Triple Start (create driver storage s ctx id c) Result' (λ _. AtMost)
  unfolding create create_looked
  create-Returned ctx aborts =
      Triple-entry driver ctx "OrderedIndex.Create" s.operation_timeout
        (storage.validate_ordered_id id) _ (λ w n p. p) (λ e w p. inl p)
        λ ctx'.
          Triple-try (λ r w. Start w × (view w.db id ≡ some (ok r))) (λ _. Start)
            (get_record driver storage s id) (create_looked driver storage s ctx' id c)
            (get_record-Seen driver storage s id {P = Start}
              (arrive-Moved driver storage s id c start 0))
            (λ r. record { at = λ w p. (inl p.0, p.1, (λ h. absurd (cc)), λ _. p.0) })
            λ e.
              Triple-if (is_no_rows e) _ _
                (λ _.
                  Triple-bind (λ _. Start) _ _ candidate-Start
                    λ _. create_loop-Returned ctx' aborts)
                λ _. record { at = λ w p. inl p }

module _ (driver : Driver Tables) (storage : OrderedStorage) (s : Store) (ctx : Option Context)
    (id : OrderedId) (c : Candidate) (w : World Tables) (aborts : RetryableAborts driver) where
  run :
      Post
        (Returned driver storage s id c w.db)
        (λ _. Once driver storage s id c w.db)
        (create driver storage s ctx id c w)
  run = (create-Returned driver storage s id c w.db ctx aborts).at w here

-- A Create moves the committed tables by at most one whole creation, of an identity that was not
-- there and with the order after the last of its scope, and by what others commit: through every
-- failure, retry and lost answer, if the server aborts what it calls retryable.
pub create_once_at_most :
    (driver : Driver Tables) (storage : OrderedStorage) (s : Store) (ctx : Option Context)
    (id : OrderedId) (c : Candidate) (w : World Tables)
    → RetryableAborts driver
    → let after = (create driver storage s ctx id c w).1.db in
      (Creates driver id c w.db 0 after) ⊎ (Creates driver id c w.db 1 after)
create_once_at_most driver storage s ctx id c w aborts =
    Post-both (Returned driver storage s id c w.db) (Once driver storage s id c w.db) _
      (λ r w p. p.0) (run driver storage s ctx id c w aborts)

-- When Create returns a record the tables show it under its identity, whatever the driver reported
-- and whatever others commit meanwhile, if the server aborts what it calls retryable. A record that
-- is reported as new is the caller's, with revision 1 and some order; one that is not is as it was
-- found, and the call has created nothing.
pub create_acknowledged :
    (driver : Driver Tables) (storage : OrderedStorage) (s : Store) (ctx : Option Context)
    (id : OrderedId) (c : Candidate) (w : World Tables) (r : OrderedRecord) (new : Bool)
    → RetryableAborts driver
    → (create driver storage s ctx id c w).0 ≡ ok (r, new)
    → let after = (create driver storage s ctx id c w).1.db in
      (view after id ≡ some (ok r))
      × (new ≡ true → r ≡ new_record id c r.order)
      × (new ≡ false → Creates driver id c w.db 0 after)
create_acknowledged driver storage s ctx id c w r new aborts h =
    let p =
      Post-ok (Returned driver storage s id c w.db) _ _ (r, new)
        (run driver storage s ctx id c w aborts) h in
    (p.1, p.2, p.3)
