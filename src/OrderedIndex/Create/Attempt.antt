-- ===== src/OrderedIndex/Create/Attempt.antt =====
-- One attempt of Create, createOnce of internal/orderedindex/orderedindex.go: what it leaves of the
-- committed tables, and what it returns.
use pgstore.Prelude.{ℕ, ◌<◌, ◌^◌, ◌≡◌, refl, true, false, arith, ◌==◌, ◌⊎◌, inl, inr}
use pgstore.Records.{OrderedId, OrderedRecord}
use pgstore.Errors.{Error, Result, ok, err, is_no_rows}
use pgstore.Driver.{Driver, World, Exec, arrive, committed, rolled_back, returned, commit_tx, ◌>>=◌}
use pgstore.Driver.Triples.{
  Triple, Triple-mono, Triple-bind, Triple-try, Triple-if, Triple-returned,
}
use pgstore.Driver.Rules.{Triple-commit, Triple-rollback}
use pgstore.Storage.{OrderedStorage}
use pgstore.Guard.Defs.{Context}
use pgstore.Postgres.{RetryableAborts, retryable}
use pgstore.OrderedIndex.Decimal.{format_uint, parse_uint, parse_uint-format}
use pgstore.OrderedIndex.Sql.{Tables, uint64_max}
use pgstore.OrderedIndex.Retry.{Tried}
use pgstore.OrderedIndex.{Store, Attempted, done, unknown, get_from}
use pgstore.OrderedIndex.Create.Steps
use pgstore.OrderedIndex.Create.Moves.{creation, view-created}
use pgstore.OrderedIndex.Create.{
  Candidate, Created, new_record, create_committed, create_at, create_ordered, create_advanced,
  create_counted, create_absent, create_locked, create_scoped, create_once,
}

module _ (driver : Driver Tables) (storage : OrderedStorage) (s : Store) (id : OrderedId)
    (c : Candidate) (start : Tables) where
  abbrev Moved : ℕ → World Tables → Type 0
  Moved = Steps.Moved driver storage s id c start

  abbrev Once : World Tables → Type 0
  Once = Steps.Once driver storage s id c start

  abbrev Returned : Created → World Tables → Type 0
  Returned = Steps.Returned driver storage s id c start

  abbrev Wanted : OrderedRecord → World Tables → Type 0
  Wanted = Steps.Wanted driver storage s id c start

  abbrev Found : OrderedRecord → World Tables → Type 0
  Found = Steps.Found driver storage s id c start

  abbrev Open : (Tables → Tables) → World Tables → Type 0
  Open = Steps.Open driver storage s id c start

  abbrev Locked : ℕ → World Tables → Type 0
  Locked = Steps.Locked driver storage s id c start

  abbrev Advanced : ℕ → World Tables → Type 0
  Advanced = Steps.Advanced driver storage s id c start

  abbrev Written : ℕ → World Tables → Type 0
  Written = Steps.Written driver storage s id c start

  committed-Returned :
      (order : ℕ) (w : World Tables)
      → Written order w
      → Returned (new_record id c order, true) (committed driver (arrive driver w))
  committed-Returned order w p =
      rw (p.2, p.1)
        (
          inr (creation p.5 (omega (arith, p.3, p.4)) p.0),
          rw p.3 (view-created id c w.db (omega (arith, p.3, p.4))),
          (λ _. refl),
          λ h. absurd (cc),
        )

  commit-Returned :
      (order : ℕ)
      → RetryableAborts driver
      → Triple
          (Written order)
          (commit_tx driver)
          (λ _. Returned (new_record id c order, true))
          (λ e w. Moved 0 w ⊎ ((retryable e ≡ false) × Once w))
  commit-Returned order aborts =
      Triple-commit driver (λ w p. committed-Returned order w p)
        (λ f w p. inl ((Steps.arrive-Moved driver storage s id c start) 0 w p.0))
        (λ f w p o. inr (aborts.lost_final w.now f o, (committed-Returned order w p).0))

  abbrev Attempt : Attempted Created → World Tables → Type 0
  Attempt = Tried Returned Wanted

  create_committed-Attempt :
      (ctx : Context) (order : ℕ) (e : Error)
      → Triple
          (λ w. Moved 0 w ⊎ ((retryable e ≡ false) × Once w))
          (create_committed driver storage s ctx (new_record id c order) (err e))
          Attempt
          (λ _. Moved 0)
  unfolding create_committed
  create_committed-Attempt ctx order e =
      Triple-if (retryable e) _ _ (λ again. record { at = λ w p. kept w again p })
        λ final. record { at = λ w p. (either w p, refl) }
    where
      kept :
          (w : World Tables)
          → retryable e ≡ true
          → Moved 0 w ⊎ ((retryable e ≡ false) × Once w)
          → Moved 0 w
      kept w again (inl m) = m
      kept w again (inr (final, m)) = absurd (cc)

      either : (w : World Tables) → Moved 0 w ⊎ ((retryable e ≡ false) × Once w) → Once w
      either w (inl m) = inl m
      either w (inr (final, m)) = m

  create_at-Attempt :
      (ctx : Context) (order : ℕ)
      → RetryableAborts driver
      → Triple (Advanced order) (create_at driver storage s ctx id c order) Attempt (λ _. Moved 0)
  unfolding create_at create_committed
  create_at-Attempt ctx order aborts =
      Triple-bind (λ _. Written order) _ _
        ((Steps.insert-Written driver storage s id c start) order)
        λ _.
          Triple-try (λ _. Returned (new_record id c order, true))
            (λ e w. Moved 0 w ⊎ ((retryable e ≡ false) × Once w)) (commit_tx driver)
            (create_committed driver storage s ctx (new_record id c order))
            (commit-Returned order aborts) (λ _. record { at = λ w p. p })
            (create_committed-Attempt ctx order)

  create_ordered-Attempt :
      (ctx : Context) (order : ℕ) (r : Result ℕ)
      → r ≡ parse_uint (format_uint order)
      → RetryableAborts driver
      → Triple (Advanced order) (create_ordered driver storage s ctx id c r) Attempt (λ _. Moved 0)
  unfolding create_ordered
  create_ordered-Attempt ctx order (err e) read aborts = record { at = λ w p. p.0 }
  create_ordered-Attempt ctx order (ok n) read aborts =
      Triple-if (n == 0) _ _ (λ _. record { at = λ w p. p.0 })
        λ _. record {
          at = λ w p.
              (create_at-Attempt ctx n aborts).at w (rw (same n (omega (arith, p.4)) read) p);
        }
    where
      same : (n : ℕ) → order < 2 ^ 64 → ok n ≡ parse_uint (format_uint order) → n ≡ order
      same n fits read =
          ground (arith, (parse_uint-format order (format_uint order) fits).1 refl, read)

  create_counted-Attempt :
      (ctx : Context) (order current : ℕ)
      → RetryableAborts driver
      → Triple
          (Locked order)
          (create_counted driver storage s ctx id c current)
          Attempt
          (λ _. Moved 0)
  unfolding create_counted create_advanced
  create_counted-Attempt ctx order current aborts =
      Triple-if (current == uint64_max) _ _ (λ _. record { at = λ w p. p.0 })
        λ _.
          Triple-try Advanced (λ _. Moved 0) _ (create_advanced driver storage s ctx id c)
            ((Steps.advance-Advanced driver storage s id c start) order)
            (λ n. create_ordered-Attempt ctx n (parse_uint (format_uint n)) refl aborts)
            λ e.
              Triple-if (is_no_rows e) _ _ (λ _. record { at = λ w p. p })
                λ _. record { at = λ w p. p }

  abbrev After : (World Tables → Type 0) → Result OrderedRecord → World Tables → Type 0
  After P (ok r) w = Found r w
  After P (err e) w = P w

  create_absent-Attempt :
      {P : World Tables → Type 0} (rest : Exec Tables (Attempted Created))
      (r : Result OrderedRecord)
      → ((w : World Tables) → P w → Moved 0 w)
      → Triple P rest Attempt (λ _. Moved 0)
      → Triple (After P r) (create_absent driver storage s r rest) Attempt (λ _. Moved 0)
  unfolding create_absent
  create_absent-Attempt rest (ok r) base t = record {
    at = λ w p. (inl p.0, p.1, (λ h. absurd (cc)), λ _. p.0);
  }
  create_absent-Attempt rest (err e) base t =
      Triple-if (is_no_rows e) _ _ (λ _. t) λ _. record { at = λ w p. base w p }

  counting-Attempt :
      (ctx : Context) (order : ℕ)
      → RetryableAborts driver
      → Triple
          (Locked order)
          (returned (parse_uint (format_uint order)) >>= create_counted driver storage s ctx id c)
          Attempt
          (λ _. Moved 0)
  counting-Attempt ctx order aborts =
      Triple-bind (λ _. Locked order) (returned (parse_uint (format_uint order))) _
        (Triple-returned (parse_uint (format_uint order)) (λ _ w h p. p) (λ e w h p. p.0))
        λ current. create_counted-Attempt ctx order current aborts

  create_locked-Attempt :
      (ctx : Context) (order : ℕ)
      → RetryableAborts driver
      → Triple (Locked order) (create_locked driver storage s ctx id c order) Attempt (λ _. Moved 0)
  unfolding create_locked
  create_locked-Attempt ctx order aborts =
      let rest = counting-Attempt ctx order aborts in
      Triple-try Found (λ _. Locked order) (get_from driver storage s id)
        (λ r.
          create_absent driver storage s r (
            returned (parse_uint (format_uint order)) >>= create_counted driver storage s ctx id c))
        ((Steps.get_from-Locked driver storage s id c start) order)
        (λ r. create_absent-Attempt {P = Locked order} _ (ok r) (λ w p. p.0) rest)
        λ e. create_absent-Attempt {P = Locked order} _ (err e) (λ w p. p.0) rest

  create_scoped-Attempt :
      (ctx : Context)
      → RetryableAborts driver
      → Triple (Open (λ d. d)) (create_scoped driver storage s ctx id c) Attempt (λ _. Moved 0)
  unfolding create_scoped
  create_scoped-Attempt ctx aborts =
      Triple-bind _ _ _ (Steps.scope-Open driver storage s id c start) λ _.
        Triple-bind _ _ _ (Steps.order-Locked driver storage s id c start)
          λ order. create_locked-Attempt ctx order aborts

  undone :
      (a : Attempted Created) (w : World Tables) → Attempt a w → Attempt a (rolled_back driver w)
  undone (done r) w h = h
  undone (unknown want cause) w h = h

  -- The transaction, from whatever the others have left.
  pub create_once-Attempt :
      (ctx : Context)
      → RetryableAborts driver
      → Triple (Moved 0) (create_once driver storage s ctx id c) Attempt (λ _. Moved 0)
  unfolding create_once
  create_once-Attempt ctx aborts = Triple-rollback driver _ (
      Triple-mono _ undone (λ _ _ h. h)
        (Triple-bind _ _ _ (Steps.begin-Open driver storage s id c start) λ _.
          Triple-bind _ _ _ (Steps.limits-Open driver storage s id c start) λ _.
            Triple-try Found (λ _. Open (λ d. d)) (get_from driver storage s id)
              (λ r. create_absent driver storage s r (create_scoped driver storage s ctx id c))
              (Steps.get_from-Found driver storage s id c start)
              (λ r.
                create_absent-Attempt {P = Open (λ d. d)} _ (ok r) (λ w p. p.0)
                  (create_scoped-Attempt ctx aborts))
              λ e.
                create_absent-Attempt {P = Open (λ d. d)} _ (err e) (λ w p. p.0)
                  (create_scoped-Attempt ctx aborts)))
