-- ===== src/Facade/Opening.antt =====
-- Open and Close of pgstore.go: the options, the pool and the migration together.
use pgstore.Prelude.{
  ℕ, ◌≡◌, ◌≢◌, refl, subst, Bool, true, false, not, Option, none, some, arith, ◌==◌, ◌⊎◌, inl, inr,
  Bool-cases,
}
use pgstore.Errors.{Error, Result, ok, err}
use pgstore.Driver.{Driver, World}
use pgstore.Driver.Triples.{Triple, Post, Post-mono, Triple-try, Triple-if}
use pgstore.Guard.Defs.{Context, bound}
use pgstore.Options.{Network, PoolConfig, Options, ResolvedOptions, resolve, migration_disabled}
use pgstore.Options.Valid.{IsValid, resolve-IsValid}
use pgstore.Migrations.Files.{migration_files}
use pgstore.Migrations.Sql.{Catalog}
use pgstore.Migrations.Render.{Token}
use pgstore.Migrations.Rendering.{Lists}
use pgstore.Migrations.Loop.{IsSound}
use pgstore.Migrations.Outcome.{Ended, Failed, migrate_lem}
use pgstore.Migrations.{Setting, migrate}
use pgstore.Facade.{
  Store, Pool, pool_open, opened, open_migrated, open_bound, open_resolved, open_store, close,
}

-- The stores have the limits of the options, and nothing is closed.
pub record IsOpened (o : ResolvedOptions) (s : Store) : Type 0 where
  pub operation_timeouts :
      (s.ledger.operation_timeout ≡ o.operation_timeout)
      × (s.leaser.operation_timeout ≡ o.operation_timeout)
      × (s.kv.operation_timeout ≡ o.operation_timeout)
      × (s.ordered_index.operation_timeout ≡ o.operation_timeout)
  pub statement_timeouts :
      (s.ledger.statement_timeout ≡ o.statement_timeout)
      × (s.leaser.statement_timeout ≡ o.statement_timeout)
      × (s.ordered_index.statement_timeout ≡ o.statement_timeout)
  pub lock_timeouts :
      (s.ledger.lock_timeout ≡ o.lock_timeout)
      × (s.leaser.lock_timeout ≡ o.lock_timeout)
      × (s.ordered_index.lock_timeout ≡ o.lock_timeout)
  pub lease_ttl : s.leaser.lease_ttl ≡ o.lease_ttl
  pub open_still : (s.closed ≡ false) × (s.pool_closed ≡ false) × (s.leases.canceled ≡ false)

opened-IsOpened : (o : ResolvedOptions) → IsOpened o (opened o)
unfolding opened
opened-IsOpened o = record {
  operation_timeouts = (refl, refl, refl, refl);
  statement_timeouts = (refl, refl, refl);
  lock_timeouts = (refl, refl, refl);
  lease_ttl = refl;
  open_still = (refl, refl, refl);
}

module _ {S : Type 0} (net : Network) (new_pool : PoolConfig → Bool) (driver : Driver (Catalog S))
    (setting : Setting S) (options : Options) (d : Catalog S) where
  -- The migration of resolved options has ended, or there was none to do.
  abbrev Ready : ResolvedOptions → World (Catalog S) → Type 0
  Ready o w =
      ((o.migrations ≡ migration_disabled) × (w.db ≡ d))
      ⊎ ((ctx : Context) × Ended driver setting ctx o.schema o.table_prefix o.migrations d tt w)

  abbrev Unready : Error → World (Catalog S) → Type 0
  Unready e w =
      (w.db ≡ d)
      ⊎ ((o : ResolvedOptions) × (resolve net options ≡ ok o)
          × (ctx : Context) × Failed driver setting ctx o.schema o.table_prefix o.migrations d e w)

  abbrev pub Opens : Pool × Result Store → World (Catalog S) → Type 0
  Opens (pool, ok s) w =
      (pool ≡ pool_open)
      × ((o : ResolvedOptions) × (resolve net options ≡ ok o)
          × IsValid net options o
          × IsOpened o s
          × Ready o w)
  Opens (pool, err e) w = (pool ≢ pool_open) × Unready e w

  abbrev Never : Error → World (Catalog S) → Type 0
  Never e w = true ≡ false

  module _ (embedded : setting.files ≡ migration_files)
      (complete : (n : ℕ) (t : Token) → Lists t (setting.order n)) where
    migrated :
        (o : ResolvedOptions) (ctx : Context)
        → IsValid net options o
        → Triple
            (λ w. w.db ≡ d)
            (migrate driver setting ctx o.schema o.table_prefix o.migrations o.statement_timeout
              o.lock_timeout)
            (λ _ w. Ready o w)
            (λ e w. Failed driver setting ctx o.schema o.table_prefix o.migrations d e w)
    migrated o ctx valid = record {
      at = λ w h. run w h (Bool-cases (o.migrations == migration_disabled));
    }
      where
        run :
            (w : World (Catalog S))
            → w.db ≡ d
            → ((o.migrations == migration_disabled) ≡ true)
              ⊎ ((o.migrations == migration_disabled) ≡ false)
            → Post
                (λ _ w. Ready o w)
                (λ e w. Failed driver setting ctx o.schema o.table_prefix o.migrations d e w)
                (migrate driver setting ctx o.schema o.table_prefix o.migrations o.statement_timeout
                  o.lock_timeout w)
        run w h split =
            let sound : IsSound setting o.schema o.table_prefix = record {
              embedded = embedded;
              schema_ok = valid.schema;
              prefix_ok = valid.table_prefix;
              complete = complete;
            } in
            let both =
              migrate_lem driver setting ctx o.schema o.table_prefix o.migrations
                o.statement_timeout o.lock_timeout w sound in
            elim split [
              | inl e ↦
                  let off : o.migrations ≡ migration_disabled = ground arith in
                  rw (both.0 off) (inl (off, h))
              | inr e ↦
                  let on : o.migrations ≢ migration_disabled = λ q. ground arith in
                  Post-mono {Q' = λ _ w. Ready o w}
                    {E' = λ e w.
                      Failed driver setting ctx o.schema o.table_prefix o.migrations d e w}
                    _ (λ a w q. inr (ctx, q)) (λ e w q. q)
                    (subst
                      (λ c.
                        Post (Ended driver setting ctx o.schema o.table_prefix o.migrations c)
                          (Failed driver setting ctx o.schema o.table_prefix o.migrations c)
                          (migrate driver setting ctx o.schema o.table_prefix o.migrations
                            o.statement_timeout o.lock_timeout w))
                      h (both.1 on))
            ]

    open_bound-Opens :
        (o : ResolvedOptions) (c : Result Context)
        → resolve net options ≡ ok o
        → Triple (λ w. w.db ≡ d) (open_bound net new_pool driver setting o c) Opens Never
    unfolding open_bound open_migrated
    open_bound-Opens o (err e) h = record { at = λ w p. ((λ q. absurd (ground arith)), inl p) }
    open_bound-Opens o (ok ctx) h =
        Triple-if (not (new_pool o.pool_config)) _ _
          (λ _. record { at = λ w p. ((λ q. absurd (ground arith)), inl p) })
          (λ _.
            Triple-try (λ _ w. Ready o w)
              (λ e w. Failed driver setting ctx o.schema o.table_prefix o.migrations d e w) _
              (open_migrated net new_pool driver setting o) (migrated o ctx valid)
              (λ a. record { at = λ w r. (refl, (o, h, valid, opened-IsOpened o, r)) })
              (λ e. record { at = λ w f. ((λ q. absurd (ground arith)), inr (o, h, ctx, f)) }))
      where
        valid : IsValid net options o
        valid = resolve-IsValid net options o h

    bound-still :
        (ctx : Option Context) (timeout : ℕ)
        → Triple
            (λ w. w.db ≡ d)
            (bound driver ctx "Open" timeout)
            (λ _ w. w.db ≡ d)
            (λ _ w. w.db ≡ d)
    unfolding bound
    bound-still none timeout = record { at = λ w p. p }
    bound-still (some ctx) timeout = record { at = λ w p. p }

    open_resolved-Opens :
        (ctx : Option Context) (r : Result ResolvedOptions)
        → resolve net options ≡ r
        → Triple (λ w. w.db ≡ d) (open_resolved net new_pool driver setting ctx r) Opens Never
    unfolding open_resolved bound
    open_resolved-Opens ctx (err e) h = record { at = λ w p. ((λ q. absurd (ground arith)), inl p) }
    open_resolved-Opens ctx (ok o) h =
        Triple-try (λ _ w. w.db ≡ d) (λ _ w. w.db ≡ d) (bound driver ctx "Open" o.operation_timeout)
          (open_bound net new_pool driver setting o) (bound-still ctx o.operation_timeout)
          (λ c. open_bound-Opens o (ok c) h) (λ e. open_bound-Opens o (err e) h)

-- Over any driver, any pgxpool and any options, with the repository's scripts and walks of the map
-- of replacements that reach every key: Open returns. A Store comes with options that resolve and
-- are valid, whose limits its four primitives have, with an open pool and a database that a whole
-- upgrade has made of one that the others left, or, in the disabled mode, one as it was. With an
-- error no pool is left open, and the database is as it was, or is one that the others left or, the
-- answer to the commit lost, a whole upgrade of one.
pub open_store_lem :
    {S : Type 0} (net : Network) (new_pool : PoolConfig → Bool) (driver : Driver (Catalog S))
    (setting : Setting S) (ctx : Option Context) (options : Options) (w : World (Catalog S))
    → setting.files ≡ migration_files
    → ((n : ℕ) (t : Token) → Lists t (setting.order n))
    → (r : Pool × Result Store) × ((open_store net new_pool driver setting ctx options w).0 ≡ ok r)
      × Opens net new_pool driver setting options w.db r
          (open_store net new_pool driver setting ctx options w).1
unfolding open_store
open_store_lem {S = S} net new_pool driver setting ctx options w embedded complete =
    settle (open_resolved net new_pool driver setting ctx (resolve net options) w) (
      (open_resolved-Opens net new_pool driver setting options w.db embedded complete ctx
          (resolve net options) refl).at
        w refl)
  where
    settle :
        (x : Result (Pool × Result Store) × World (Catalog S))
        → Post
            (Opens net new_pool driver setting options w.db)
            (Never net new_pool driver setting options w.db)
            x
        → (r : Pool × Result Store) × (x.0 ≡ ok r)
          × Opens net new_pool driver setting options w.db r x.1
    settle (ok r, w') h = (r, refl, h)
    settle (err e, w') h = absurd (ground arith)

-- A second Close changes nothing.
close_twice : (s : Option Store) → close (close s) ≡ close s
unfolding close
close_twice none = refl
close_twice (some s) = ground arith
