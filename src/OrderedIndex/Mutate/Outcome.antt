-- ===== src/OrderedIndex/Mutate/Outcome.antt =====
-- updateOnce, deleteOnce and resolveMutation of internal/orderedindex/orderedindex.go: what they
-- return and what they leave.
use pgstore.Prelude.{ℕ, ◌≡◌, some}
use pgstore.Records.{OrderedId, OrderedRecord, Operation}
use pgstore.Errors.{Error, Result, ok, err}
use pgstore.Driver.{
  Driver, World, Exec, Stmt, rolled_back, caught, begin_tx, with_rollback, ◌>>=◌, ◌>>◌,
}
use pgstore.Driver.Triples.{Triple, Triple-mono, Triple-bind, Triple-try, Triple-if}
use pgstore.Driver.Rules.{Triple-rollback}
use pgstore.Storage.{OrderedStorage}
use pgstore.Postgres.{set_local_timeouts}
use pgstore.OrderedIndex.Sql.{Row, Tables}
use pgstore.OrderedIndex.Scan.{records_equal, records_equal-eq}
use pgstore.OrderedIndex.View.{view}
use pgstore.OrderedIndex.Retry.{Tried}
use pgstore.OrderedIndex.Reading.{get_record-Seen}
use pgstore.OrderedIndex.{Store, Attempted, done, unknown, get_record, get_for_update}
use pgstore.OrderedIndex.Mutate.Moves.{Rewrites}
use pgstore.OrderedIndex.Mutate.Attempt.{
  Moved, Once, Wanted, Stored, Held, arrive-Once, begin-Open, limits-Open, get_for_update-Held,
}
use pgstore.OrderedIndex.Mutate.{resolve_mutation, resolve_mutation_reply}

module _ (driver : Driver Tables) (storage : OrderedStorage) (s : Store) (id : OrderedId)
    (expected : ℕ) (f : Row → Row) (next : OrderedRecord → OrderedRecord)
    (statement : Stmt Tables (Unit {0})) (rewrites : Rewrites id f next statement)
    (start : Tables) where
  abbrev Start : World Tables → Type 0
  Start = Moved driver storage s id expected f next statement rewrites start 0

  abbrev Expected : OrderedRecord → World Tables → Type 0
  Expected = Wanted driver storage s id expected f next statement rewrites start

  abbrev Now : OrderedRecord → World Tables → Type 0
  Now = Stored driver storage s id expected f next statement rewrites start

  -- A transaction that locks the record and goes on by `found`.
  pub once-Tried :
      {Q : OrderedRecord → World Tables → Type 0}
      (found : Result OrderedRecord → Exec Tables (Attempted OrderedRecord))
      → ((r : OrderedRecord) (w : World Tables) → Q r w → Q r (rolled_back driver w))
      → ((e : Error) → Triple Start (found (err e)) (Tried Q Expected) (λ _. Start))
      → ((r : OrderedRecord)
          → Triple
              (Held driver storage s id expected f next statement rewrites start r)
              (found (ok r))
              (Tried Q Expected)
              (λ _. Start))
      → Triple Start
          (with_rollback driver do
            begin_tx driver
            set_local_timeouts driver s.statement_timeout s.lock_timeout
            r ← caught (get_for_update driver storage s id)
            found r)
          (Tried Q Expected)
          (λ _. Start)
  once-Tried {Q} found keep missing there = Triple-rollback driver _ (
      Triple-mono _ undone (λ _ _ h. h)
        (Triple-bind _ _ _ (begin-Open driver storage s id expected f next statement rewrites start)
          λ _.
            Triple-bind _ _ _
              (limits-Open driver storage s id expected f next statement rewrites start)
              λ _.
                Triple-try (Held driver storage s id expected f next statement rewrites start)
                  (λ _. Start) (get_for_update driver storage s id) found
                  (get_for_update-Held driver storage s id expected f next statement rewrites start)
                  there missing))
    where
      undone :
          (a : Attempted OrderedRecord) (w : World Tables)
          → Tried Q Expected a w
          → Tried Q Expected a (rolled_back driver w)
      undone (done r) w h = keep r w h
      undone (unknown want cause) w h = h

  -- The reread after an unknown commit.
  pub resolve_mutation-Now :
      (operation : Operation) (want : OrderedRecord) (cause : Error)
      → Triple
          (Expected want)
          (resolve_mutation driver storage s operation id want cause)
          Now
          (λ _. Once driver storage s id expected f next statement rewrites start)
  unfolding resolve_mutation resolve_mutation_reply
  resolve_mutation-Now operation want cause =
      Triple-try (λ r w. Expected want w × (view w.db id ≡ some (ok r))) (λ _. Expected want)
        (get_record driver storage s id)
        (resolve_mutation_reply driver storage s operation id want cause)
        (get_record-Seen driver storage s id {P = Expected want} λ w p.
          (arrive-Once driver storage s id expected f next statement rewrites start w p.0, p.1))
        (λ got.
          Triple-if (records_equal got want) _ _
            (λ same. record { at = λ w p. (p.0.0, rw (records_equal-eq got want same) p.0.1, p.1) })
            λ _. record { at = λ w p. p.0.0 })
        λ e. record { at = λ w p. p.0 }
