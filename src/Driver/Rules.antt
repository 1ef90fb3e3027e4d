-- ===== src/Driver/Rules.antt =====
-- A rule for each call of the driver, on any outcome.
use pgstore.Prelude.{◌≡◌, refl, Bool, true, ◌||◌, ◌⊎◌, inl, inr}
use pgstore.Errors.{Error, Fault, driver_fault, Result, ok, err}
use pgstore.Driver.{
  Driver, World, Stmt, Exec, Outcome, delivered, failed, lost, arrive, tables_of, rows_of,
  rolled_back, committed, begin_tx, commit_tx, pool_query, tx_query, lock_query, update_query,
  touches, with_rollback,
}
use pgstore.Driver.Triples.{Triple, AnyError, Post}

pub Result-cases :
    {A : Type 0} (r : Result A) → ((a : A) × (r ≡ ok a)) ⊎ ((e : Error) × (r ≡ err e))
Result-cases (ok a) = inl (a, refl)
Result-cases (err e) = inr (e, refl)

Outcome-cases :
    (o : Outcome)
    → (o ≡ delivered) ⊎ (((f : Fault) × (o ≡ failed f)) ⊎ ((f : Fault) × (o ≡ lost f)))
Outcome-cases delivered = inl refl
Outcome-cases (failed f) = inr (inl (f, refl))
Outcome-cases (lost f) = inr (inr (f, refl))

-- The world after a statement of a transaction.
abbrev pub written : {D A : Type 0} → Driver D → Stmt D A → World D → World D
written driver f w = record (arrive driver w) {
  writes = λ d. tables_of (w.writes d) (f (driver.server_clock w.now) (w.writes d));
}

module _ {D : Type 0} (driver : Driver D) {P : World D → Type 0}
    {E : Error → World D → Type 0} where
  pub Triple-begin :
      {Q : Unit {0} → World D → Type 0}
      → ((w : World D) → P w → Q tt (rolled_back driver (arrive driver w)))
      → ((e : Error) (w : World D) → P w → E e (arrive driver w))
      → Triple P (begin_tx driver) Q E
  unfolding begin_tx
  Triple-begin q e = record {
    at = λ w p. elim (Outcome-cases (driver.outcome w.now)) [
      | inl o ↦ rw o (q w p)
      | inr (inl (f, o)) ↦ rw o (e _ w p)
      | inr (inr (f, o)) ↦ rw o (e _ w p)
    ];
  }

  pub Triple-commit :
      {Q : Unit {0} → World D → Type 0}
      → ((w : World D) → P w → Q tt (committed driver (arrive driver w)))
      → ((f : Fault) (w : World D)
          → P w
          → E (driver_fault f) (rolled_back driver (arrive driver w)))
      → ((f : Fault) (w : World D)
          → P w
          → driver.outcome w.now ≡ lost f
          → E (driver_fault f) (committed driver (arrive driver w)))
      → Triple P (commit_tx driver) Q E
  unfolding commit_tx
  Triple-commit q e l = record {
    at = λ w p. elim (Outcome-cases (driver.outcome w.now)) [
      | inl o ↦ rw o (q w p)
      | inr (inl (f, o)) ↦ rw o (e f w p)
      | inr (inr (f, o)) ↦ rw o (l f w p o)
    ];
  }

module _ {D A : Type 0} (driver : Driver D) where
  tx_answered :
      (Q : A → World D → Type 0) (E : Error → World D → Type 0) (f : Stmt D A) (w : World D)
      (r : Result (A × D))
      → f (driver.server_clock w.now) (w.writes (arrive driver w).db) ≡ r
      → ((a : A) (d : D)
          → f (driver.server_clock w.now) (w.writes (arrive driver w).db) ≡ ok (a, d)
          → Q a (written driver f w))
      → ((e : Error) → E e (written driver f w))
      → Post Q E (rows_of r, written driver f w)
  tx_answered Q E f w (ok (a, d)) h q e = q a d h
  tx_answered Q E f w (err x) h q e = e x

module _ {D A : Type 0} (driver : Driver D) {P : World D → Type 0} {Q : A → World D → Type 0}
    {E : Error → World D → Type 0} where
  pub Triple-tx :
      (f : Stmt D A)
      → ((w : World D) (a : A) (d : D)
          → P w
          → f (driver.server_clock w.now) (w.writes (arrive driver w).db) ≡ ok (a, d)
          → Q a (written driver f w))
      → ((e : Error) (w : World D) → P w → E e (written driver f w))
      → ((e : Error) (w : World D) → P w → E e (arrive driver w))
      → Triple P (tx_query driver f) Q E
  unfolding tx_query
  Triple-tx f q e b = record {
    at = λ w p. elim (Outcome-cases (driver.outcome w.now)) [
      | inl o ↦ rw o (
          tx_answered driver Q E f w (f (driver.server_clock w.now) (w.writes (arrive driver w).db))
            refl (λ a d. q w a d p) (λ x. e x w p))
      | inr (inl (g, o)) ↦ rw o (b _ w p)
      | inr (inr (g, o)) ↦ rw o (b _ w p)
    ];
  }

  pub Triple-lock :
      (f : Stmt D A)
      → Triple P
          (tx_query driver f)
          (λ a w. Q a (record w { locked = true }))
          (λ e w. E e (record w { locked = true }))
      → Triple P (lock_query driver f) Q E
  unfolding lock_query
  Triple-lock f t = record { at = λ w p. lock (tx_query driver f w) (t.at w p) }
    where
      lock :
          (r : Result A × World D)
          → Post
              (λ a w. Q a (record w { locked = true }))
              (λ e w. E e (record w { locked = true }))
              r
          → Post Q E (r.0, record r.1 { locked = true })
      lock (ok a, w) h = h
      lock (err e, w) h = h

  pub Triple-rollback :
      (m : Exec D A)
      → Triple P m (λ a w. Q a (rolled_back driver w)) (λ e w. E e (rolled_back driver w))
      → Triple P (with_rollback driver m) Q E
  unfolding with_rollback
  Triple-rollback m t = record { at = λ w p. undo (m w) (t.at w p) }
    where
      undo :
          (r : Result A × World D)
          → Post (λ a w. Q a (rolled_back driver w)) (λ e w. E e (rolled_back driver w)) r
          → Post Q E (r.0, rolled_back driver r.1)
      undo (ok a, w) h = h
      undo (err e, w) h = h

-- The world after a statement outside a transaction.
abbrev pub queried : {D A : Type 0} → Driver D → Stmt D A → World D → World D
queried driver f w = record (arrive driver w) {
  db = tables_of (arrive driver w).db (f (driver.server_clock w.now) (arrive driver w).db);
}

module _ {D A : Type 0} (driver : Driver D) {P : World D → Type 0} {Q : A → World D → Type 0}
    {E : Error → World D → Type 0} where
  pub Triple-pool :
      (f : Stmt D A)
      → ((w : World D) (a : A) (d : D)
          → P w
          → f (driver.server_clock w.now) (arrive driver w).db ≡ ok (a, d)
          → Q a (queried driver f w))
      → ((e : Error) (w : World D) → P w → E e (queried driver f w))
      → ((e : Error) (w : World D) → P w → E e (arrive driver w))
      → Triple P (pool_query driver f) Q E
  unfolding pool_query
  Triple-pool f q e b = record {
    at = λ w p. elim (Outcome-cases (driver.outcome w.now)) [
      | inl o ↦ rw o (answered w p (f (driver.server_clock w.now) (arrive driver w).db) refl)
      | inr (inl (g, o)) ↦ rw o (b _ w p)
      | inr (inr (g, o)) ↦ rw o (e _ w p)
    ];
  }
    where
      answered :
          (w : World D)
          → P w
          → (r : Result (A × D)) → f (driver.server_clock w.now) (arrive driver w).db ≡ r
          → Post Q E (rows_of r, queried driver f w)
      answered w p (ok (a, d)) h = q w a d p h
      answered w p (err x) h = e x w p

module _ {D A : Type 0} (driver : Driver D) {P : World D → Type 0} {Q : A → World D → Type 0} where
  pub Triple-update :
      (touched : A → Bool) (f : Stmt D A)
      → Triple P
          (tx_query driver f)
          (λ a w. Q a (record w { locked = w.locked || touched a }))
          AnyError
      → Triple P (update_query driver touched f) Q AnyError
  unfolding update_query
  Triple-update touched f t = record { at = λ w p. lock (tx_query driver f w) (t.at w p) }
    where
      lock :
          (r : Result A × World D)
          → Post (λ a w. Q a (record w { locked = w.locked || touched a })) AnyError r
          → Post Q AnyError (r.0, record r.1 { locked = r.1.locked || touches driver touched r.0 })
      lock (ok a, w) h = h
      lock (err e, w) h = tt
