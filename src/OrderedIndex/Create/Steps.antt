-- ===== src/OrderedIndex/Create/Steps.antt =====
-- The steps of createOnce of internal/orderedindex/orderedindex.go: what each statement of its
-- transaction leaves.
use pgstore.Prelude.{
  ℕ, suc, ◌≤◌, ◌≡◌, refl, ap, ◌∙◌, true, false, none, some, arith, ◌⊎◌, inl, inr, Bool-cases,
}
use pgstore.Text.{text_eq_iff}
use pgstore.Records.{OrderedId, OrderedRecord}
use pgstore.Errors.{ok}
use pgstore.Driver.{Driver, World, arrive, tx_query, lock_query, begin_tx}
use pgstore.Driver.Triples.{Triple, Triple-bind, Triple-returned}
use pgstore.Driver.Rules.{Triple-begin, Triple-tx, Triple-lock}
use pgstore.Storage.{OrderedStorage}
use pgstore.Postgres.{set_local_timeouts}
use pgstore.OrderedIndex.Sql.{
  Row, Tables, uint64_max, find_record, with_scope, insert_scope, select_order, select_record,
  advance_order, insert_record,
}
use pgstore.OrderedIndex.Scan.{scan_record, scan_record-decoded}
use pgstore.OrderedIndex.View.{
  view, order_at, tables_of-selected, selected-some, find_scope-with, records-with_scope,
}
use pgstore.OrderedIndex.{Store, get_from}
use pgstore.OrderedIndex.Create.Moves.{
  Creates, other, created, counted, advance_order-ok, insert_record-ok,
}
use pgstore.OrderedIndex.Create.{Candidate, Created, new_row, new_record}

module _ (driver : Driver Tables) (storage : OrderedStorage) (s : Store) (id : OrderedId)
    (c : Candidate) (start : Tables) where
  abbrev pub Moved : ℕ → World Tables → Type 0
  Moved k w = Creates driver id c start k w.db

  pub arrive-Moved : (k : ℕ) (w : World Tables) → Moved k w → Moved k (arrive driver w)
  arrive-Moved k w m = elim (Bool-cases w.locked) [ inl e ↦ rw e m | inr e ↦ rw e (other w.now m) ]

  -- At most one creation.
  abbrev pub Once : World Tables → Type 0
  Once w = Moved 0 w ⊎ Moved 1 w

  -- What a result of Create says.
  abbrev pub Returned : Created → World Tables → Type 0
  Returned (r, new) w =
      Once w
      × (view w.db id ≡ some (ok r))
      × (new ≡ true → r ≡ new_record id c r.order)
      × (new ≡ false → Moved 0 w)

  -- What the record of an unknown commit says.
  abbrev pub Wanted : OrderedRecord → World Tables → Type 0
  Wanted want w = Once w × (want ≡ new_record id c want.order)

  abbrev pub Found : OrderedRecord → World Tables → Type 0
  Found r w = Moved 0 w × (view w.db id ≡ some (ok r))

  -- The transaction so far, before the lock.
  abbrev pub Open : (Tables → Tables) → World Tables → Type 0
  Open f w = Moved 0 w × ((d : Tables) → w.writes d ≡ f d) × (w.locked ≡ false)

  abbrev pub Locked : ℕ → World Tables → Type 0
  Locked order w =
      Moved 0 w
      × (w.writes w.db ≡ with_scope id.namespace id.ordering_scope w.db)
      × (w.locked ≡ true)
      × (order ≡ order_at w.db id.namespace id.ordering_scope)

  abbrev pub Advanced : ℕ → World Tables → Type 0
  Advanced order w =
      Moved 0 w
      × (w.writes w.db ≡ counted id w.db)
      × (w.locked ≡ true)
      × (order ≡ suc (order_at w.db id.namespace id.ordering_scope))
      × (order ≤ uint64_max)

  abbrev pub Written : ℕ → World Tables → Type 0
  Written order w =
      Moved 0 w
      × (w.writes w.db ≡ created id c w.db)
      × (w.locked ≡ true)
      × (order ≡ suc (order_at w.db id.namespace id.ordering_scope))
      × (order ≤ uint64_max)
      × (find_record id w.db.records ≡ none)

  pub begin-Open : Triple (Moved 0) (begin_tx driver) (λ _. Open (λ d. d)) (λ _. Moved 0)
  begin-Open =
      Triple-begin driver (λ w p. (arrive-Moved 0 w p, λ d. refl, refl))
        (λ e w p. arrive-Moved 0 w p)

  pub limits-Open :
      Triple
        (Open (λ d. d))
        (set_local_timeouts driver s.statement_timeout s.lock_timeout)
        (λ _. Open (λ d. d))
        (λ _. Moved 0)
  unfolding set_local_timeouts
  limits-Open =
      Triple-tx driver (λ clock d. ok (tt, d)) (λ w a d p h. (arrive-Moved 0 w p.0, p.1, p.2))
        (λ e w p. arrive-Moved 0 w p.0) (λ e w p. arrive-Moved 0 w p.0)

  -- A row that is read decodes to the record that is returned.
  shown :
      (d : Tables) (row : Row) (r : OrderedRecord)
      → find_record id d.records ≡ some row
      → scan_record storage row ≡ ok r
      → view d id ≡ some (ok r)
  shown d row r found h = rw found (ap some (scan_record-decoded storage row r h))

  pub get_from-Found :
      Triple (Open (λ d. d)) (get_from driver storage s id) Found (λ _. Open (λ d. d))
  unfolding get_from
  get_from-Found =
      Triple-bind (λ row w. Open (λ d. d) w × (find_record id w.db.records ≡ some row)) _ _
        (Triple-tx driver (select_record id)
          (λ w row d p h. (
            (arrive-Moved 0 w p.0, λ x. rw p.1 (tables_of-selected x _), p.2),
            selected-some _ _ row d (rw p.1 at h),
          ))
          (λ e w p. (arrive-Moved 0 w p.0, λ x. rw p.1 (tables_of-selected x _), p.2))
          (λ e w p. (arrive-Moved 0 w p.0, p.1, p.2)))
        λ row.
          Triple-returned (scan_record storage row) (λ r w h p. (p.0.0, shown w.db row r p.1 h))
            (λ e w h p. p.0)

  pub get_from-Locked :
      (order : ℕ) → Triple (Locked order) (get_from driver storage s id) Found (λ _. Locked order)
  unfolding get_from
  get_from-Locked order =
      Triple-bind (λ row w. Locked order w × (find_record id w.db.records ≡ some row)) _ _
        (Triple-tx driver (select_record id)
          (λ w row d p h. rw p.2 (
            (p.0, tables_of-selected _ _ ∙ p.1, refl, p.3),
            selected-some _ _ row d (rw (p.1, records-with_scope) at (rw p.2 at h)),
          ))
          (λ e w p. rw p.2 (p.0, tables_of-selected _ _ ∙ p.1, refl, p.3))
          (λ e w p. rw p.2 (p.0, p.1, refl, p.3)))
        λ row.
          Triple-returned (scan_record storage row) (λ r w h p. (p.0.0, shown w.db row r p.1 h))
            (λ e w h p. p.0)

  pub scope-Open :
      Triple
        (Open (λ d. d))
        (tx_query driver (insert_scope id.namespace id.ordering_scope))
        (λ _. Open (with_scope id.namespace id.ordering_scope))
        (λ _. Moved 0)
  scope-Open =
      Triple-tx driver (insert_scope id.namespace id.ordering_scope)
        (λ w a d p h.
          (arrive-Moved 0 w p.0, λ x. ap (with_scope id.namespace id.ordering_scope) (p.1 x), p.2))
        (λ e w p. arrive-Moved 0 w p.0) (λ e w p. arrive-Moved 0 w p.0)

  order-with_scope :
      (d x : Tables) (order clock : ℕ)
      → select_order id.namespace id.ordering_scope clock
          (with_scope id.namespace id.ordering_scope d)
        ≡ ok (order, x)
      → order ≡ order_at d id.namespace id.ordering_scope
  order-with_scope d x order clock h = ground (
    arith,
    find_scope-with id.namespace id.ordering_scope id.namespace id.ordering_scope d,
    text_eq_iff id.namespace id.namespace,
    text_eq_iff id.ordering_scope id.ordering_scope,
  )

  pub order-Locked :
      Triple
        (Open (with_scope id.namespace id.ordering_scope))
        (lock_query driver (select_order id.namespace id.ordering_scope))
        Locked
        (λ _. Moved 0)
  order-Locked = Triple-lock driver (select_order id.namespace id.ordering_scope) (
      Triple-tx driver (select_order id.namespace id.ordering_scope)
        (λ w order d p h. (
          arrive-Moved 0 w p.0,
          tables_of-selected _ _ ∙ p.1 (arrive driver w).db,
          refl,
          order-with_scope (arrive driver w).db d order (driver.server_clock w.now)
              (rw (p.1 (arrive driver w).db) at h),
        ))
        (λ e w p. arrive-Moved 0 w p.0) (λ e w p. arrive-Moved 0 w p.0))

  pub advance-Advanced :
      (current : ℕ)
      → Triple
          (Locked current)
          (tx_query driver (advance_order id.namespace id.ordering_scope))
          Advanced
          (λ _. Moved 0)
  advance-Advanced current =
      Triple-tx driver (advance_order id.namespace id.ordering_scope)
        (λ w order d p h. rw p.2 (
          let (next, fits, made) =
            advance_order-ok id (driver.server_clock w.now) order w.db d
              (rw (p.1) at (rw p.2 at h)) in
          (p.0, rw p.1 made, refl, next, fits)))
        (λ e w p. arrive-Moved 0 w p.0) (λ e w p. arrive-Moved 0 w p.0)

  pub insert-Written :
      (order : ℕ)
      → Triple
          (Advanced order)
          (tx_query driver (insert_record (new_row id c order)))
          (λ _. Written order)
          (λ _. Moved 0)
  insert-Written order =
      Triple-tx driver (insert_record (new_row id c order))
        (λ w a d p h. rw p.2 (
          let (free, made) =
            insert_record-ok (new_row id c order) (driver.server_clock w.now) (counted id w.db) d
              (rw (p.1) at (rw p.2 at h)) in
          (
            p.0,
            rw p.1 (made ∙ rw p.3 (rw records-with_scope refl)),
            refl,
            p.3,
            p.4,
            rw records-with_scope at free,
          )))
        (λ e w p. arrive-Moved 0 w p.0) (λ e w p. arrive-Moved 0 w p.0)
