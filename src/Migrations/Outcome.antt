-- ===== src/Migrations/Outcome.antt =====
-- migrate of migrations.go: what it leaves in the database, and what its results say of that.
use pgstore.Prelude.{ℕ, ◌≡◌, ◌≢◌, refl, false, arith, ◌==◌, inl}
use pgstore.Text.{Text}
use pgstore.Errors.{Error, ok}
use pgstore.Driver.{Driver, World, Exec, lock_query, begin_tx, with_rollback, ◌>>◌, arrive}
use pgstore.Driver.Triples.{Triple, Post, Triple-bind, Triple-mono, Post-mono}
use pgstore.Driver.Rules.{Triple-begin, Triple-tx, Triple-rollback}
use pgstore.Guard.Defs.{Context}
use pgstore.Postgres.{set_local_timeouts}
use pgstore.Options.{migration_disabled}
use pgstore.Migrations.Sql.{Catalog, lock_owners}
use pgstore.Migrations.Steps.{Follows, same, Owns, arrive-Follows, Triple-owners, Triple-attempted}
use pgstore.Migrations.Loop.{IsSound}
use pgstore.Migrations.Upgrades.{Migrated, Settled, after_lock, owned}
use pgstore.Migrations.{Setting, attempted, migrate}

module _ {S : Type 0} (driver : Driver (Catalog S)) (setting : Setting S) (ctx : Context)
    (schema prefix : Text) where
  -- The transaction has begun, has written nothing and holds no lock.
  abbrev Fresh : Catalog S → World (Catalog S) → Type 0
  Fresh first w = Follows driver first w.db × ((c : Catalog S) → w.writes c ≡ c)

  -- From a database that follows the first one: it is upgraded or it stays.
  abbrev pub Ended : ℕ → Catalog S → Unit {0} → World (Catalog S) → Type 0
  Ended mode first a w =
      (d : Catalog S) × Follows driver first d
      × Migrated driver setting ctx schema prefix mode d w.db

  abbrev pub Failed : ℕ → Catalog S → Error → World (Catalog S) → Type 0
  Failed mode first e w =
      (d : Catalog S) × Follows driver first d × Settled driver setting ctx schema prefix mode d e w

  abbrev Locked : Catalog S → World (Catalog S) → Type 0
  Locked first w = (d : Catalog S) × Follows driver first d × Owns d (λ c. c ≡ d) w

  module _ (sound : IsSound setting schema prefix) where
    locked :
        (mode : ℕ) (first : Catalog S)
        → Triple
            (Locked first)
            (after_lock driver setting ctx schema prefix mode)
            (Ended mode first)
            (Failed mode first)
    locked mode first = record {
      at = λ w (d, f, o).
          Post-mono {Q' = Ended mode first} {E' = Failed mode first}
            (after_lock driver setting ctx schema prefix mode w) (λ a w q. (d, f, q))
            (λ e w q. (d, f, q)) ((owned driver setting ctx schema prefix sound mode d).at w o);
    }

    migrate_open :
        (mode statement_timeout lock_timeout : ℕ) (first : Catalog S)
        → Triple
            (λ w. w.db ≡ first)
            (with_rollback driver do
              attempted driver setting ctx (begin_tx driver)
              attempted driver setting ctx
                  (set_local_timeouts driver statement_timeout lock_timeout)
              attempted driver setting ctx (lock_query driver lock_owners)
              after_lock driver setting ctx schema prefix mode)
            (Ended mode first)
            (Failed mode first)
    unfolding set_local_timeouts
    migrate_open mode statement_timeout lock_timeout first = Triple-rollback driver _ (
        Triple-bind (λ _. Fresh first) _ _
          (early (Triple-begin driver (λ w h. (at_start w h, λ c. refl)) (λ e w h. at_start w h)))
          λ _.
            Triple-bind (λ _. Fresh first) _ _
              (early (
                Triple-tx driver (λ clock d. ok (tt, d))
                  (λ w a c h e. (arrive-Follows driver first w h.0, λ c. h.1 c))
                  (λ e w h. arrive-Follows driver first w h.0)
                  (λ e w h. arrive-Follows driver first w h.0)))
              λ _.
                Triple-bind (λ _. Locked first) _ _
                  (early (Triple-owners driver lock_owners (λ clock a c c' e. cc)))
                  λ _. locked mode first)
      where
        at_start :
            (w : World (Catalog S)) → w.db ≡ first → Follows driver first (arrive driver w).db
        at_start w h = arrive-Follows driver first w (rw h same)

        early :
            {A : Type 0} {P : World (Catalog S) → Type 0} {Q : A → World (Catalog S) → Type 0}
            {m : Exec (Catalog S) A}
            → Triple P m Q (λ _ w. Follows driver first w.db)
            → Triple P (attempted driver setting ctx m) Q (Failed mode first)
        early {m = m} t =
            Triple-mono _ (λ a w q. q) (λ e w (r, q). (w.db, q, (inl r, inl refl)))
              (Triple-attempted driver setting (λ c. Follows driver first c) ctx m t)

-- Over any driver, with the repository's scripts and valid names: a nil from migrate means that the
-- database is what a whole upgrade makes of one that the others left when the lock was taken (each
-- missing version's script, every key replaced where it stands, run once and in turn up to version
-- 3, which in the mode that only validates was there before). After an error it is still that
-- database or, where the answer to the commit was lost, the whole upgrade; the error is the
-- context's, the redacted one, the refusal of a version above 3, or, in the mode that only
-- validates, of one below it, and never one about the embedded files. The disabled mode does
-- nothing and returns nil.
pub migrate_lem :
    {S : Type 0} (driver : Driver (Catalog S)) (setting : Setting S) (ctx : Context)
    (schema prefix : Text) (mode statement_timeout lock_timeout : ℕ) (w : World (Catalog S))
    → IsSound setting schema prefix
    → (mode ≡ migration_disabled
        → migrate driver setting ctx schema prefix mode statement_timeout lock_timeout w
          ≡ (ok tt, w))
      × ((mode ≢ migration_disabled)
          → Post
              (Ended driver setting ctx schema prefix mode w.db)
              (Failed driver setting ctx schema prefix mode w.db)
              (migrate driver setting ctx schema prefix mode statement_timeout lock_timeout w))
unfolding migrate
migrate_lem driver setting ctx schema prefix mode statement_timeout lock_timeout w sound = (
  (λ h. ground arith),
  (λ h.
      let open_mode : (mode == migration_disabled) ≡ false = ground arith in
      rw open_mode (
        (migrate_open driver setting ctx schema prefix sound mode statement_timeout lock_timeout
            w.db).at
          w refl)),
)
