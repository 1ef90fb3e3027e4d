-- ===== src/OrderedIndex/Mutate/Attempt.antt =====
-- One attempt of Update or Delete, updateOnce or deleteOnce of internal/orderedindex/orderedindex.go,
-- and the reread after an unknown commit.
use pgstore.Prelude.{
  ℕ, ◌≡◌, refl, sym, ap, ◌∙◌, true, false, not, some, arith, ◌==◌, ◌⊎◌, inl, inr, Bool-cases,
  String,
}
use pgstore.Records.{OrderedId, OrderedRecord, id_eq_iff}
use pgstore.Errors.{Error, ok, err}
use pgstore.Driver.{Driver, World, Stmt, arrive, committed, tx_query, begin_tx, commit_tx}
use pgstore.Driver.Triples.{
  Triple, Triple-bind, Triple-try, Triple-if, Triple-known, Triple-returned,
}
use pgstore.Driver.Rules.{Triple-begin, Triple-commit, Triple-tx, Triple-lock}
use pgstore.Storage.{OrderedStorage}
use pgstore.Guard.Defs.{Context}
use pgstore.Postgres.{RetryableAborts, retryable, set_local_timeouts}
use pgstore.OrderedIndex.Sql.{Row, Tables, uint64_max, find_record, select_record}
use pgstore.OrderedIndex.Scan.{decoded, scan_record, scan_record-decoded}
use pgstore.OrderedIndex.View.{view, tables_of-selected, selected-some, find_record-set}
use pgstore.OrderedIndex.Retry.{Tried}
use pgstore.OrderedIndex.{Store, Attempted, get_for_update}
use pgstore.OrderedIndex.Mutate.Moves.{Mutates, Rewrites, other, mutate, rewritten, find_record-id}
use pgstore.OrderedIndex.Mutate.{mutate_committed, mutate_current}

module _ (driver : Driver Tables) (storage : OrderedStorage) (s : Store) (id : OrderedId)
    (expected : ℕ) (f : Row → Row) (next : OrderedRecord → OrderedRecord)
    (statement : Stmt Tables (Unit {0})) (rewrites : Rewrites id f next statement)
    (start : Tables) where
  abbrev pub Moved : ℕ → World Tables → Type 0
  Moved k w = Mutates driver id expected f start k w.db

  pub arrive-Moved : (k : ℕ) (w : World Tables) → Moved k w → Moved k (arrive driver w)
  arrive-Moved k w m = elim (Bool-cases w.locked) [ inl e ↦ rw e m | inr e ↦ rw e (other w.now m) ]

  -- At most one rewriting.
  abbrev pub Once : World Tables → Type 0
  Once w = Moved 0 w ⊎ Moved 1 w

  pub arrive-Once : (w : World Tables) → Once w → Once (arrive driver w)
  arrive-Once w (inl m) = inl (arrive-Moved 0 w m)
  arrive-Once w (inr m) = inr (arrive-Moved 1 w m)

  -- The tables showed this record before the call wrote anything.
  abbrev pub Shown : OrderedRecord → Type 0
  Shown current =
      (d : Tables) × Mutates driver id expected f start 0 d × (view d id ≡ some (ok current))

  -- The record is what the code expects of one that it found at the expected revision.
  abbrev pub IsNext : OrderedRecord → Type 0
  IsNext r =
      (current : OrderedRecord) × (r ≡ next current)
      × (current.revision ≡ expected)
      × (current.deleted ≡ false)
      × Shown current

  abbrev pub Wanted : OrderedRecord → World Tables → Type 0
  Wanted want w = Once w × IsNext want

  abbrev pub Stored : OrderedRecord → World Tables → Type 0
  Stored r w = Once w × IsNext r × (view w.db id ≡ some (ok r))

  abbrev Open : World Tables → Type 0
  Open w = Moved 0 w × ((d : Tables) → w.writes d ≡ d) × (w.locked ≡ false)

  abbrev Locked : Row → World Tables → Type 0
  Locked row w =
      Moved 0 w
      × (w.writes w.db ≡ w.db)
      × (w.locked ≡ true)
      × (find_record id w.db.records ≡ some row)

  -- The row is locked and reads as `current`.
  abbrev pub Held : OrderedRecord → World Tables → Type 0
  Held current w = (row : Row) × Locked row w × (decoded row ≡ ok current)

  abbrev Written : OrderedRecord → World Tables → Type 0
  Written r w =
      Moved 0 w
      × (w.locked ≡ true)
      × (row : Row) × (find_record id w.db.records ≡ some row)
      × (row.deleted ≡ false)
      × (row.revision ≡ expected)
      × (w.writes w.db ≡ rewritten id (f row) w.db)
      × (decoded (f row) ≡ ok r)

  pub begin-Open : Triple (Moved 0) (begin_tx driver) (λ _. Open) (λ _. Moved 0)
  begin-Open =
      Triple-begin driver (λ w p. (arrive-Moved 0 w p, λ d. refl, refl))
        (λ e w p. arrive-Moved 0 w p)

  pub limits-Open :
      Triple Open
        (set_local_timeouts driver s.statement_timeout s.lock_timeout)
        (λ _. Open)
        (λ _. Moved 0)
  unfolding set_local_timeouts
  limits-Open =
      Triple-tx driver (λ clock d. ok (tt, d)) (λ w a d p h. (arrive-Moved 0 w p.0, p.1, p.2))
        (λ e w p. arrive-Moved 0 w p.0) (λ e w p. arrive-Moved 0 w p.0)

  pub get_for_update-Held : Triple Open (get_for_update driver storage s id) Held (λ _. Moved 0)
  unfolding get_for_update
  get_for_update-Held =
      Triple-bind Locked _ _
        (Triple-lock driver (select_record id) (
          Triple-tx driver (select_record id)
            (λ w row d p h. (
              arrive-Moved 0 w p.0,
              rw p.1 (tables_of-selected (arrive driver w).db _),
              refl,
              selected-some _ _ row d (rw p.1 at h),
            ))
            (λ e w p. arrive-Moved 0 w p.0) (λ e w p. arrive-Moved 0 w p.0)))
        λ row.
          Triple-returned (scan_record storage row)
            (λ r w h p. (row, p, scan_record-decoded storage row r h)) (λ e w h p. p.0)

  statement-Written :
      (current : OrderedRecord)
      → current.revision ≡ expected
      → current.deleted ≡ false
      → Triple
          (Held current)
          (tx_query driver statement)
          (λ _. Written (next current))
          (λ _. Moved 0)
  statement-Written current same live =
      Triple-tx driver statement
        (λ w a d (row, p, read) h. rw p.2 (
          let (made, valid) =
            rewrites.writes (driver.server_clock w.now) w.db d row a p.3
              (rw (p.1) at (rw p.2 at h)) in
          let (new, revision, deleted) = rewrites.expects row current valid read in
          (p.0, refl, row, p.3, sym deleted ∙ live, sym revision ∙ same, rw p.1 made, new)))
        (λ e w (row, p, read). arrive-Moved 0 w p.0) (λ e w (row, p, read). arrive-Moved 0 w p.0)

  committed-Stored :
      (r : OrderedRecord)
      → IsNext r
      → (w : World Tables) → Written r w
      → Stored r (committed driver (arrive driver w))
  committed-Stored r next w (m, locked, row, found, live, same, made, read) =
      let id-eq = rewrites.keeps_id row ∙ find_record-id id w.db.records row found in
      rw (locked, made)
        (
          inr (mutate row found live same m),
          next,
          ground (
            arith,
            find_record-set id id (f row) w.db.records id-eq,
            id_eq_iff id id,
            found,
            read,
          ),
        )

  commit-Stored :
      (r : OrderedRecord)
      → IsNext r
      → RetryableAborts driver
      → Triple
          (Written r)
          (commit_tx driver)
          (λ _. Stored r)
          (λ e w. Moved 0 w ⊎ ((retryable e ≡ false) × Wanted r w))
  commit-Stored r next aborts =
      Triple-commit driver (λ w p. committed-Stored r next w p)
        (λ f w p. inl (arrive-Moved 0 w p.0))
        (λ f w p o. inr (aborts.lost_final w.now f o, ((committed-Stored r next w p).0, next)))

  abbrev pub Attempt : Attempted OrderedRecord → World Tables → Type 0
  Attempt = Tried Stored Wanted

  mutate_committed-Attempt :
      (ctx : Context) (operation : String) (r : OrderedRecord)
      → IsNext r
      → (e : Error)
      → Triple
          (λ w. Moved 0 w ⊎ ((retryable e ≡ false) × Wanted r w))
          (mutate_committed driver storage s ctx operation r (err e))
          Attempt
          (λ _. Moved 0)
  unfolding mutate_committed
  mutate_committed-Attempt ctx operation r next e =
      Triple-if (retryable e) _ _ (λ again. record { at = λ w p. kept w again p })
        λ final. record { at = λ w p. either w p }
    where
      kept :
          (w : World Tables)
          → retryable e ≡ true
          → Moved 0 w ⊎ ((retryable e ≡ false) × Wanted r w)
          → Moved 0 w
      kept w again (inl m) = m
      kept w again (inr (final, m)) = absurd (cc)

      either : (w : World Tables) → Moved 0 w ⊎ ((retryable e ≡ false) × Wanted r w) → Wanted r w
      either w (inl m) = (inl m, next)
      either w (inr (final, m)) = m

  pub mutate_current-Attempt :
      (ctx : Context) (operation : String) (current : OrderedRecord)
      → current.deleted ≡ false
      → RetryableAborts driver
      → Triple
          (Held current)
          (mutate_current driver storage s ctx operation id expected statement next current)
          Attempt
          (λ _. Moved 0)
  unfolding mutate_current mutate_committed
  mutate_current-Attempt ctx operation current live aborts =
      Triple-known (Shown current) _ (λ w (row, p, read). (w.db, p.0, rw p.3 (ap some read)))
        λ shown.
          Triple-if (not (current.revision == expected)) _ _
            (λ _. record { at = λ w (row, p, read). p.0 })
            λ same.
              let is_next : IsNext (next current) =
                (current, refl, ground (arith, same), live, shown) in
              Triple-if (current.revision == uint64_max) _ _
                (λ _. record { at = λ w (row, p, read). p.0 })
                λ _.
                  Triple-bind (λ _. Written (next current)) _ _
                    (statement-Written current is_next.2 live)
                    λ _.
                      Triple-try (λ _. Stored (next current))
                        (λ e w. Moved 0 w ⊎ ((retryable e ≡ false) × Wanted (next current) w))
                        (commit_tx driver)
                        (mutate_committed driver storage s ctx operation (next current))
                        (commit-Stored (next current) is_next aborts)
                        (λ _. record { at = λ w p. p })
                        (mutate_committed-Attempt ctx operation (next current) is_next)
