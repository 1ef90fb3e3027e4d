-- ===== src/OrderedIndex/Mutate/Results.antt =====
-- Update and Delete of internal/orderedindex/orderedindex.go: what they return and what they leave,
-- through their retries and the reread after an unknown commit.
use pgstore.Prelude.{ℕ, ◌+◌, ◌≡◌, refl, ap, true, false, Option, none, some, ◌⊎◌, inl, inr}
use pgstore.Records.{OrderedId, OrderedRecord, ordered_update, ordered_delete}
use pgstore.Errors.{Error, ok, is_no_rows}
use pgstore.Driver.{Driver, World, Exec, Stmt, checked, ◌>>◌}
use pgstore.Driver.Triples.{Triple, Triple-mono, Post-both, Post-ok, Triple-if}
use pgstore.Storage.{OrderedStorage}
use pgstore.Guard.{Triple-entry}
use pgstore.Guard.Defs.{Context}
use pgstore.Postgres.{RetryableAborts, attempts}
use pgstore.OrderedIndex.Sql.{Row, Tables, update_record, delete_record, updated_row, deleted_row}
use pgstore.OrderedIndex.Scan.{database_value}
use pgstore.OrderedIndex.View.{view}
use pgstore.OrderedIndex.Retry.{Tried, Triple-retry}
use pgstore.OrderedIndex.{Store, Attempted, done, unknown}
use pgstore.OrderedIndex.Mutate.Moves.{
  Mutates, Rewrites, here, update_record-Rewrites, delete_record-Rewrites,
}
use pgstore.OrderedIndex.Mutate.Attempt.{Moved, Once, Wanted, Stored, Held, mutate_current-Attempt}
use pgstore.OrderedIndex.Mutate.Outcome.{once-Tried, resolve_mutation-Now}
use pgstore.OrderedIndex.Mutate.{
  Change, updated_record, deleted_record, update_current, update_found, update_once, delete_current,
  delete_found, delete_once, update, delete,
}

-- What an update of a row sets.
abbrev pub update_row : Change → Row → Row
update_row c = updated_row (database_value c.value).0 (database_value c.value).1 c.rank c.due

module _ (driver : Driver Tables) (storage : OrderedStorage) (s : Store) (id : OrderedId)
    (expected : ℕ) (c : Change) (start : Tables) (aborts : RetryableAborts driver) where
  abbrev statement : Stmt Tables (Unit {0})
  statement = update_record id (database_value c.value).0 (database_value c.value).1 c.rank c.due

  abbrev rewrites : Rewrites id (update_row c) (updated_record c) statement
  rewrites = update_record-Rewrites id c

  abbrev Start : World Tables → Type 0
  Start =
      Moved driver storage s id expected (update_row c) (updated_record c) statement rewrites start
        0

  abbrev Current : OrderedRecord → World Tables → Type 0
  Current =
      Held driver storage s id expected (update_row c) (updated_record c) statement rewrites start

  abbrev Expected : OrderedRecord → World Tables → Type 0
  Expected =
      Wanted driver storage s id expected (update_row c) (updated_record c) statement rewrites start

  abbrev Now : OrderedRecord → World Tables → Type 0
  Now =
      Stored driver storage s id expected (update_row c) (updated_record c) statement rewrites start

  update_valid :
      (ctx : Context) (current : OrderedRecord) (r : Option Error)
      → {rest : Exec Tables (Attempted OrderedRecord)}
      → Triple (Current current) rest (Tried Now Expected) (λ _. Start)
      → Triple (Current current) (checked r >> rest) (Tried Now Expected) (λ _. Start)
  update_valid ctx current none t = record { at = t.at }
  update_valid ctx current (some e) t = record { at = λ w (row, p, read). p.0 }

  update_once-Tried :
      (ctx : Context)
      → Triple Start
          (update_once driver storage s ctx id expected c)
          (Tried Now Expected)
          (λ _. Start)
  unfolding update_once update_found update_current
  update_once-Tried ctx =
      once-Tried driver storage s id expected (update_row c) (updated_record c) statement rewrites
        start (update_found driver storage s ctx id expected c) (λ r w h. h)
        (λ e.
          Triple-if (is_no_rows e) _ _ (λ _. record { at = λ w p. p })
            λ _. record { at = λ w p. p })
        λ r.
          Triple-if r.deleted _ _ (λ _. record { at = λ w (row, p, read). p.0 })
            λ live. update_valid ctx r (storage.validate_ordered_value c.value) (
              update_valid ctx r (storage.validate_due c.due) (
                mutate_current-Attempt driver storage s id expected (update_row c)
                  (updated_record c) statement rewrites start ctx "ordered update commit" r live
                  aborts))

  abbrev AtMost : World Tables → Type 0
  AtMost =
      Once driver storage s id expected (update_row c) (updated_record c) statement rewrites start

  update-Now :
      (ctx : Option Context)
      → Triple Start (update driver storage s ctx id expected c) Now (λ _. AtMost)
  unfolding update
  update-Now ctx =
      Triple-entry driver ctx "OrderedIndex.Update" s.operation_timeout
        (storage.validate_ordered_id id) _ (λ w n p. p) (λ e w p. inl p)
        λ ctx'.
          Triple-retry "ordered update" _ _ ctx' (λ w n p. p) (λ e w p. inl p) {U = Expected}
            attempts (update_once-Tried ctx')
            (resolve_mutation-Now driver storage s id expected (update_row c) (updated_record c)
              statement rewrites start ordered_update)

module _ (driver : Driver Tables) (storage : OrderedStorage) (s : Store) (id : OrderedId)
    (expected : ℕ) (start : Tables) (aborts : RetryableAborts driver) where
  abbrev removes : Rewrites id deleted_row deleted_record (delete_record id)
  removes = delete_record-Rewrites id

  abbrev Start' : World Tables → Type 0
  Start' =
      Moved driver storage s id expected deleted_row deleted_record (delete_record id) removes start
        0

  abbrev Expected' : OrderedRecord → World Tables → Type 0
  Expected' =
      Wanted driver storage s id expected deleted_row deleted_record (delete_record id) removes
        start

  abbrev AtMost' : World Tables → Type 0
  AtMost' =
      Once driver storage s id expected deleted_row deleted_record (delete_record id) removes start

  -- What a returned record is: deleted by this call, or found deleted.
  abbrev Gone : OrderedRecord → World Tables → Type 0
  Gone r w =
      AtMost' w
      × (r.deleted ≡ true)
      × (view w.db id ≡ some (ok r))
      × ((r.revision ≡ expected + 1) ⊎ Start' w)

  gone :
      (r : OrderedRecord) (w : World Tables)
      → Stored driver storage s id expected deleted_row deleted_record
          (delete_record id)
          removes
          start
          r
          w
      → Gone r w
  gone r w (once, (current, same, revision, live, shown), seen) =
      (once, rw same refl, seen, inl (rw (same, revision) refl))

  delete_once-Tried :
      (ctx : Context)
      → Triple Start'
          (delete_once driver storage s ctx id expected)
          (Tried Gone Expected')
          (λ _. Start')
  unfolding delete_once delete_found delete_current
  delete_once-Tried ctx =
      once-Tried driver storage s id expected deleted_row deleted_record (delete_record id) removes
        start (delete_found driver storage s ctx id expected) (λ r w h. h)
        (λ e.
          Triple-if (is_no_rows e) _ _ (λ _. record { at = λ w p. p })
            λ _. record { at = λ w p. p })
        λ r.
          Triple-if r.deleted _ _
            (λ dead. record {
              at = λ w (row, p, read). (inl p.0, dead, rw p.3 (ap some read), inr p.0);
            })
            λ live.
              Triple-mono _ attempted (λ _ _ h. h)
                (mutate_current-Attempt driver storage s id expected deleted_row deleted_record
                  (delete_record id) removes start ctx "ordered delete commit" r live aborts)
    where
      attempted :
          (a : Attempted OrderedRecord) (w : World Tables)
          → Tried
              (Stored driver storage s id expected deleted_row deleted_record
                (delete_record id)
                removes
                start)
              Expected'
              a
              w
          → Tried Gone Expected' a w
      attempted (done r) w h = gone r w h
      attempted (unknown want cause) w h = h

  delete-Gone :
      (ctx : Option Context)
      → Triple Start' (delete driver storage s ctx id expected) Gone (λ _. AtMost')
  unfolding delete
  delete-Gone ctx =
      Triple-entry driver ctx "OrderedIndex.Delete" s.operation_timeout
        (storage.validate_ordered_id id) _ (λ w n p. p) (λ e w p. inl p)
        λ ctx'.
          Triple-retry "ordered delete" _ _ ctx' (λ w n p. p) (λ e w p. inl p) {U = Expected'}
            attempts (delete_once-Tried ctx')
            λ want cause.
              Triple-mono _ gone (λ _ _ h. h)
                (resolve_mutation-Now driver storage s id expected deleted_row deleted_record
                  (delete_record id) removes start ordered_delete want cause)

-- When Update returns a record the tables show it under its identity, whatever the driver reported
-- and whatever others commit meanwhile, if the server aborts what it calls retryable. It replaced a
-- record that the tables showed before the call wrote anything, at the expected revision and not
-- deleted, and has the revision after that one, the value, the rank and the due time of the call,
-- and the identity, the ranking scope and the order of the record that it replaced.
pub update_record_acknowledged :
    (driver : Driver Tables) (storage : OrderedStorage) (s : Store) (ctx : Option Context)
    (id : OrderedId) (expected : ℕ) (c : Change) (w : World Tables) (r : OrderedRecord)
    → RetryableAborts driver
    → (update driver storage s ctx id expected c w).0 ≡ ok r
    → (view (update driver storage s ctx id expected c w).1.db id ≡ some (ok r))
      × (current : OrderedRecord) × (d : Tables) × Mutates driver id expected
          (update_row c)
          w.db
          0
          d
      × (view d id ≡ some (ok current))
      × (current.revision ≡ expected)
      × (current.deleted ≡ false)
      × (r ≡ record {
        id = current.id;
        ranking_scope = current.ranking_scope;
        revision = expected + 1;
        order = current.order;
        value = c.value;
        rank = c.rank;
        due = c.due;
        deleted = false;
      })
update_record_acknowledged driver storage s ctx id expected c w r aborts h =
    let (once, (current, same, revision, live, (d, moved, shown)), seen) =
      Post-ok (Now driver storage s id expected c w.db aborts) _ _ r
        ((update-Now driver storage s id expected c w.db aborts ctx).at w here) h in
    (seen, current, d, moved, shown, revision, live, cc (same, revision, live))

-- When Delete returns a record, the record is deleted and the tables show it under its identity,
-- whatever the driver reported and whatever others commit meanwhile, if the server aborts what it
-- calls retryable. Either it has the revision after the expected one, or it was found deleted and
-- the call has written nothing.
pub delete_record_acknowledged :
    (driver : Driver Tables) (storage : OrderedStorage) (s : Store) (ctx : Option Context)
    (id : OrderedId) (expected : ℕ) (w : World Tables) (r : OrderedRecord)
    → RetryableAborts driver
    → (delete driver storage s ctx id expected w).0 ≡ ok r
    → let after = (delete driver storage s ctx id expected w).1.db in
      (view after id ≡ some (ok r))
      × (r.deleted ≡ true)
      × ((r.revision ≡ expected + 1) ⊎ Mutates driver id expected deleted_row w.db 0 after)
delete_record_acknowledged driver storage s ctx id expected w r aborts h =
    let (once, dead, seen, how) =
      Post-ok (Gone driver storage s id expected w.db aborts) _ _ r
        ((delete-Gone driver storage s id expected w.db aborts ctx).at w here) h in
    (seen, dead, how)

-- An Update moves the committed tables by at most one whole rewriting, and a Delete by at most one whole
-- deletion, of the row of the identity, which was not deleted and at the expected revision, and by what
-- others commit: through every failure, retry and lost answer, if the server aborts what it calls
-- retryable.
pub mutations_once :
    (driver : Driver Tables) (storage : OrderedStorage) (s : Store) (ctx : Option Context)
    (id : OrderedId) (expected : ℕ) (c : Change) (w : World Tables)
    → RetryableAborts driver
    → let updated = (update driver storage s ctx id expected c w).1.db in
      let deleted = (delete driver storage s ctx id expected w).1.db in
      ((Mutates driver id expected (update_row c) w.db 0 updated)
        ⊎ (Mutates driver id expected (update_row c) w.db 1 updated))
      × ((Mutates driver id expected deleted_row w.db 0 deleted)
          ⊎ (Mutates driver id expected deleted_row w.db 1 deleted))
mutations_once driver storage s ctx id expected c w aborts = (
  Post-both (Now driver storage s id expected c w.db aborts)
      (AtMost driver storage s id expected c w.db aborts) _ (λ r w p. p.0)
      ((update-Now driver storage s id expected c w.db aborts ctx).at w here),
  Post-both (Gone driver storage s id expected w.db aborts)
      (AtMost' driver storage s id expected w.db aborts) _ (λ r w p. p.0)
      ((delete-Gone driver storage s id expected w.db aborts ctx).at w here),
)
