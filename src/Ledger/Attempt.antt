-- ===== src/Ledger/Attempt.antt =====
-- One attempt of Append of internal/ledger/ledger.go, appendOnce: what it leaves of the committed
-- tables, and what its errors say.
use pgstore.Prelude.{
  ℕ, suc, ◌≡◌, ◌≢◌, refl, ap, ◌∙◌, true, false, not, none, some, arith, ◌==◌, ◌⊎◌, inl, inr,
  Bool-cases,
}
use pgstore.Text.{Text, Bytes, content, text_eq_iff}
use pgstore.Errors.{Error, ok, err, commit_outcome}
use pgstore.Driver.{
  Driver, World, Exec, arrive, committed, tx_query, lock_query, begin_tx, commit_tx,
}
use pgstore.Driver.Triples.{Triple, Post-mono, Triple-bind, Triple-try, Triple-if}
use pgstore.Driver.Rules.{Triple-begin, Triple-commit, Triple-tx, Triple-lock, Triple-rollback}
use pgstore.Postgres.{RetryableAborts, retryable, set_local_timeouts}
use pgstore.Storage.{Storage}
use pgstore.Ledger.Sql.{
  Tables, find_tip, find_payload, with_scope, with_record, with_tip, insert_scope, select_tip,
  insert_record, update_tip,
}
use pgstore.Ledger.{Store, append_once, append_locked, commit_reply, next_seq, outcome_cause}
use pgstore.Ledger.Moves.{
  Moves, other, append, IsDue, appended, tip_at, payload_at, tables_of-row, row-some,
  records-with_scope, insert_record-ok, update_tip-ok,
}

module _ (driver : Driver Tables) (storage : Storage) (s : Store) (name : Text) (expected : ℕ)
    (payload : Bytes) (start : Tables) (k : ℕ) where
  abbrev Moved : ℕ → World Tables → Type 0
  Moved n w = Moves driver name expected payload start n w.db

  arrive-Moved : (n : ℕ) (w : World Tables) → Moved n w → Moved n (arrive driver w)
  arrive-Moved n w m = elim (Bool-cases w.locked) [ inl e ↦ rw e m | inr e ↦ rw e (other w.now m) ]

  abbrev Failed : Error → World Tables → Type 0
  Failed e w = Moved k w × (w.locked ≡ w.locked)

  -- The transaction so far, before the lock.
  abbrev Open : (Tables → Tables) → World Tables → Type 0
  Open f w = Moved k w × ((d : Tables) → w.writes d ≡ f d) × (w.locked ≡ false)

  abbrev Locked : ℕ → World Tables → Type 0
  Locked tip w =
      Moved k w
      × (w.writes w.db ≡ with_scope name w.db)
      × (w.locked ≡ true)
      × (tip_at w.db name ≡ tip)

  abbrev Written : (Tables → Tables) → World Tables → Type 0
  Written f w = Moved k w × (w.writes w.db ≡ f w.db) × (w.locked ≡ true) × IsDue name expected w.db

  tip_at-with_scope :
      (d : Tables) (tip : ℕ)
      → find_tip name (with_scope name d).scopes ≡ some tip
      → tip_at d name ≡ tip
  unfolding find_tip
  tip_at-with_scope d tip h = ground (arith, text_eq_iff name name)

  Keeps-Moved : Error → World Tables → Type 0
  Keeps-Moved e w = Moved k w

  -- An attempt that fails has appended only if it reports an unknown outcome.
  abbrev Attempted : Error → World Tables → Type 0
  Attempted e w = Moved k w ⊎ ((outcome_cause e ≢ none) × Moved (suc k) w)

  weaken :
      {A : Type 0} {P : World Tables → Type 0} {Q : A → World Tables → Type 0} {m : Exec Tables A}
      → Triple P m Q (λ _. Moved k)
      → Triple P m Q Attempted
  weaken {m = m} t = record {
    at = λ w p. Post-mono (m w) (λ a w' q. q) (λ e w' q. inl q) (t.at w p);
  }

  begin-Open : Triple (Moved k) (begin_tx driver) (λ _. Open (λ d. d)) (λ _. Moved k)
  begin-Open =
      Triple-begin driver (λ w p. (arrive-Moved k w p, λ d. refl, refl))
        (λ e w p. arrive-Moved k w p)

  limits-Open :
      Triple
        (Open (λ d. d))
        (set_local_timeouts driver s.statement_timeout s.lock_timeout)
        (λ _. Open (λ d. d))
        (λ _. Moved k)
  unfolding set_local_timeouts
  limits-Open =
      Triple-tx driver (λ clock d. ok (tt, d)) (λ w a d p h. (arrive-Moved k w p.0, p.1, p.2))
        (λ e w p. arrive-Moved k w p.0) (λ e w p. arrive-Moved k w p.0)

  scope-Open :
      Triple
        (Open (λ d. d))
        (tx_query driver (insert_scope name))
        (λ _. Open (with_scope name))
        (λ _. Moved k)
  scope-Open =
      Triple-tx driver (insert_scope name)
        (λ w a d p h. (arrive-Moved k w p.0, λ d'. ap (with_scope name) (p.1 d'), p.2))
        (λ e w p. arrive-Moved k w p.0) (λ e w p. arrive-Moved k w p.0)

  tip-Locked :
      Triple (Open (with_scope name)) (lock_query driver (select_tip name)) Locked (λ _. Moved k)
  tip-Locked = Triple-lock driver (select_tip name) (
      Triple-tx driver (select_tip name)
        (λ w tip d p h. (
          arrive-Moved k w p.0,
          tables_of-row _ _ ∙ p.1 (arrive driver w).db,
          refl,
          tip_at-with_scope (arrive driver w).db tip
              (row-some _ _ tip d (rw (p.1 (arrive driver w).db) at h)),
        ))
        (λ e w p. arrive-Moved k w p.0) (λ e w p. arrive-Moved k w p.0))

  insert-Written :
      (tip : ℕ)
      → tip ≡ expected
      → Triple
          (Locked tip)
          (tx_query driver (insert_record name (next_seq expected) payload))
          (λ _.
            Written
              (λ d. with_record name (next_seq expected) (content payload) (with_scope name d)))
          (λ _. Moved k)
  insert-Written tip e =
      Triple-tx driver (insert_record name (next_seq expected) payload)
        (λ w a d p h.
          let (made, fits, free) =
            insert_record-ok name (next_seq expected) payload _ (w.writes w.db) d (rw p.2 at h) in
          rw p.2 (
            p.0,
            made ∙ ap (with_record name (next_seq expected) (content payload)) p.1,
            refl,
            record { tip = p.3 ∙ e; fits = fits; free = rw (p.1, records-with_scope) at free },
          ))
        (λ e w p. arrive-Moved k w p.0) (λ e w p. arrive-Moved k w p.0)

  update-Written :
      Triple
        (Written (λ d. with_record name (next_seq expected) (content payload) (with_scope name d)))
        (tx_query driver (update_tip name (next_seq expected)))
        (λ _. Written (appended name expected payload))
        (λ _. Moved k)
  update-Written =
      Triple-tx driver (update_tip name (next_seq expected))
        (λ w a d p h. rw p.2 (
          p.0,
          update_tip-ok name (next_seq expected) (driver.server_clock w.now) (w.writes w.db) d
                (rw p.2 at h)
              ∙ ap (with_tip name (next_seq expected)) p.1,
          refl,
          p.3,
        ))
        (λ e w p. arrive-Moved k w p.0) (λ e w p. arrive-Moved k w p.0)

  abbrev Stored : World Tables → Type 0
  Stored w = payload_at w.db name (next_seq expected) ≡ some (content payload)

  abbrev Done : World Tables → Type 0
  Done w = Moved (suc k) w × Stored w

  -- A commit that fails has been made or not: what the code calls an unknown outcome.
  abbrev Unknown : Error → World Tables → Type 0
  Unknown e w = Moved k w ⊎ ((retryable e ≡ false) × Moved (suc k) w)

  appended-Stored :
      (d : Tables)
      → payload_at (appended name expected payload d) name (next_seq expected)
        ≡ some (content payload)
  unfolding find_payload
  appended-Stored d = ground (arith, text_eq_iff name name)

  commit-Done :
      RetryableAborts driver
      → Triple (Written (appended name expected payload)) (commit_tx driver) (λ _. Done) Unknown
  commit-Done aborts =
      Triple-commit driver (λ w p. made w p) (λ f w p. inl (arrive-Moved k w p.0))
        (λ f w p o. inr (aborts.lost_final w.now f o, (made w p).0))
    where
      made :
          (w : World Tables)
          → Written (appended name expected payload) w
          → Done (committed driver (arrive driver w))
      made w p = rw (p.2, p.1) (append p.0 p.3, appended-Stored w.db)

  commit_reply-Attempted :
      (e : Error) → Triple (Unknown e) (commit_reply driver storage s (err e)) (λ _. Done) Attempted
  unfolding commit_reply
  commit_reply-Attempted e = record {
    at = λ w p. elim (Bool-cases (retryable e)) [
      | inl again ↦ rw again (kept again w p)
      | inr final ↦ rw final (reported w p)
    ];
  }
    where
      kept : retryable e ≡ true → (w : World Tables) → Unknown e w → Attempted e w
      kept again w (inl m) = inl m
      kept again w (inr (final, m)) = absurd (cc)

      reported : (w : World Tables) → Unknown e w → Attempted (commit_outcome e) w
      reported w (inl m) = inl m
      reported w (inr (final, m)) = inr (λ q. cc, m)

  append_locked-Attempted :
      (tip : ℕ)
      → RetryableAborts driver
      → Triple
          (Locked tip)
          (append_locked driver storage s name expected payload tip)
          (λ _. Done)
          Attempted
  unfolding append_locked
  append_locked-Attempted tip aborts =
      Triple-if (not (tip == expected)) _ _ (λ _. record { at = λ w p. inl p.0 })
        λ due. Triple-bind _ _ _ (weaken (insert-Written tip (ground arith))) λ _.
          Triple-bind _ _ _ (weaken update-Written) λ _.
            Triple-try (λ _. Done) Unknown (commit_tx driver) (commit_reply driver storage s)
              (commit-Done aborts) (λ r. record { at = λ w p. p }) commit_reply-Attempted

  -- One attempt, from whatever the others have left.
  pub append_once-Attempted :
      RetryableAborts driver
      → Triple (Moved k) (append_once driver storage s name expected payload) (λ _. Done) Attempted
  unfolding append_once
  append_once-Attempted aborts = Triple-rollback driver _ (
      Triple-bind _ _ _ (weaken begin-Open) λ _. Triple-bind _ _ _ (weaken limits-Open) λ _.
        Triple-bind _ _ _ (weaken scope-Open)
          λ _. Triple-bind _ _ _ (weaken tip-Locked) λ tip. append_locked-Attempted tip aborts)
