-- ===== src/Driver.antt =====
-- The pgx driver and the server behind it, as one parameter, and the programs that call it.
-- A world holds the committed tables; every round trip, clock reading and look at a context takes
-- one moment. Before a statement arrives, other clients may have committed anything (`others`),
-- except while this client holds the row lock of a SELECT ... FOR UPDATE. What comes back is up to
-- `outcome`: the answer, a failure before the statement ran, or a failure after it.
-- The writes of a transaction stay apart until its commit.
pub mod Triples
pub mod Rules
use pgstore.Prelude.{
  ℕ, suc, ◌≡◌, arith, ◌+◌, Bool, true, false, ◌||◌, Option, none, some, String, leb, if◌then◌else◌,
}
use pgstore.Errors.{Error, Fault, driver_fault, Result, ok, err}

pub data Outcome : Type 0 where
  delivered : Outcome
  failed lost : Fault → Outcome

-- How the reading of a result's rows ends.
pub data Stream : Type 0 where
  complete scan_failed broken : Stream

pub record Driver (D : Type 0) : Type 0 where
  pub outcome : ℕ → Outcome
  pub others : ℕ → D → D
  pub server_clock : ℕ → ℕ
  pub local_clock : ℕ → ℕ

pub record World (D : Type 0) : Type 0 where
  pub db : D
  pub writes : D → D
  pub locked : Bool
  pub now : ℕ

-- A statement at a reading of clock_timestamp(): its rows and the new tables, or its error.
abbrev pub Stmt : Type 0 → Type 0 → Type 0
Stmt D A = ℕ → D → Result (A × D)

abbrev pub Exec : Type 0 → Type 0 → Type 0
Exec D A = World D → Result A × World D

-- Every answer arrives.
pub record IsHealthy {D : Type 0} (driver : Driver D) : Type 0 where
  pub up : (n : ℕ) → driver.outcome n ≡ delivered

-- No other client writes.
pub record IsAlone {D : Type 0} (driver : Driver D) : Type 0 where
  pub quiet : (n : ℕ) (d : D) → driver.others n d ≡ d

module _ {D A B : Type 0} where
  abbrev pub continue : Result A × World D → (A → Exec D B) → Result B × World D
  continue (ok a, w) f = f a w
  continue (err e, w) f = (err e, w)

  infixl 10 ◌>>=◌ ◌>>◌
  -- Go's `if err != nil { return ..., err }`.
  abbrev pub ◌>>=◌ : Exec D A → (A → Exec D B) → Exec D B
  ◌>>=◌ m f w = continue (m w) f

  abbrev pub ◌>>◌ : Exec D A → Exec D B → Exec D B
  m >> n = m >>= λ _. n

module _ {D A : Type 0} where
  abbrev pub pure : A → Exec D A
  pure a w = (ok a, w)

  abbrev pub raise : Error → Exec D A
  raise e w = (err e, w)

  abbrev pub returned : Result A → Exec D A
  returned r w = (r, w)

  -- The result of a call as a value, for code that inspects the error.
  abbrev pub caught : Exec D A → Exec D (Result A)
  caught m w = let (r, w') = m w in (ok r, w')

-- `if err := validate(...); err != nil { return err }`
abbrev pub checked : {D : Type 0} → Option Error → Exec D (Unit {0})
checked none w = (ok tt, w)
checked (some e) w = (err e, w)

abbrev pub rows_of : {D A : Type 0} → Result (A × D) → Result A
rows_of (ok (a, d)) = ok a
rows_of (err e) = err e

abbrev pub tables_of : {D A : Type 0} → D → Result (A × D) → D
tables_of d (ok (a, d')) = d'
tables_of d (err e) = d

module _ {D : Type 0} (driver : Driver D) where
  -- The world in which the next statement runs.
  abbrev pub arrive : World D → World D
  arrive w = record w { db = if w.locked then w.db else driver.others w.now w.db; now = suc w.now }

  pub arrive-alone : IsAlone driver → (w : World D) → (arrive w).db ≡ w.db
  arrive-alone alone w = ground (arith, alone.quiet w.now w.db)

  abbrev answer : {A : Type 0} → Outcome → World D → Result (A × D) → Result A × World D
  answer delivered w r = (rows_of r, record w { db = tables_of w.db r })
  answer (failed e) w r = (err (driver_fault e), w)
  answer (lost e) w r = (err (driver_fault e), record w { db = tables_of w.db r })

  -- pool.QueryRow(...).Scan, pool.Exec: a transaction of its own.
  unfoldable pub pool_query : {A : Type 0} → Stmt D A → Exec D A
  pool_query f w =
      answer (driver.outcome w.now) (arrive w) (f (driver.server_clock w.now) (arrive w).db)

  abbrev tx_answer :
      {A : Type 0} → Outcome → World D → (D → D) → Result (A × D) → Result A × World D
  tx_answer delivered w f r = (rows_of r, record w { writes = f })
  tx_answer (failed e) w f r = (err (driver_fault e), w)
  tx_answer (lost e) w f r = (err (driver_fault e), w)

  -- tx.QueryRow(...).Scan, tx.Exec.
  unfoldable pub tx_query : {A : Type 0} → Stmt D A → Exec D A
  tx_query f w =
      let run = f (driver.server_clock w.now) in
      tx_answer (driver.outcome w.now) (arrive w) (λ d. tables_of (w.writes d) (run (w.writes d)))
        (run (w.writes (arrive w).db))

  abbrev pub rolled_back : World D → World D
  rolled_back w = record w { writes = λ d. d; locked = false }

  abbrev begin_answer : Outcome → World D → Result (Unit {0}) × World D
  begin_answer delivered w = (ok tt, rolled_back w)
  begin_answer (failed e) w = (err (driver_fault e), w)
  begin_answer (lost e) w = (err (driver_fault e), w)

  -- pool.BeginTx
  unfoldable pub begin_tx : Exec D (Unit {0})
  begin_tx w = begin_answer (driver.outcome w.now) (arrive w)

  abbrev pub committed : World D → World D
  committed w = record w { db = w.writes w.db; writes = λ d. d; locked = false }

  abbrev commit_answer : Outcome → World D → Result (Unit {0}) × World D
  commit_answer delivered w = (ok tt, committed w)
  commit_answer (failed e) w = (err (driver_fault e), rolled_back w)
  commit_answer (lost e) w = (err (driver_fault e), committed w)

  -- tx.Commit
  unfoldable pub commit_tx : Exec D (Unit {0})
  commit_tx w = commit_answer (driver.outcome w.now) (arrive w)

  -- A SELECT ... FOR UPDATE: once its row is locked the others wait.
  unfoldable pub lock_query : {A : Type 0} → Stmt D A → Exec D A
  unfolding tx_query
  lock_query f w = let (r, w') = tx_query f w in (r, record w' { locked = true })

  abbrev pub touches : {A : Type 0} → (A → Bool) → Result A → Bool
  touches touched (ok a) = touched a
  touches touched (err e) = false

  -- An UPDATE locks the row that it changes.
  unfoldable pub update_query : {A : Type 0} → (A → Bool) → Stmt D A → Exec D A
  unfolding tx_query
  update_query touched f w =
      let (r, w') = tx_query f w in (r, record w' { locked = w'.locked || touches touched r })

  -- `defer tx.Rollback`: without effect after a commit.
  unfoldable pub with_rollback : {A : Type 0} → Exec D A → Exec D A
  with_rollback m w = let (r, w') = m w in (r, rolled_back w')

  abbrev stream_answer : Outcome → Stream
  stream_answer delivered = complete
  stream_answer (failed e) = broken
  stream_answer (lost e) = scan_failed

  -- The loop over rows.Next() with rows.Scan, and rows.Err() behind it.
  unfoldable pub stream : Exec D Stream
  stream w = (ok (stream_answer (driver.outcome w.now)), record w { now = suc w.now })

  -- time.Now()
  unfoldable pub time_now : Exec D ℕ
  time_now w = (ok (driver.local_clock w.now), record w { now = suc w.now })
