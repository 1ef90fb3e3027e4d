-- ===== src/Migrations/Steps.antt =====
-- What a migration of migrations.go does to the database, as a relation of whole steps, and the
-- rules for its calls once the advisory lock is held.
use pgstore.Prelude.{
  ℕ, zero, suc, ◌≤◌, ◌≡◌, refl, sym, ap, ◌∙◌, Bool, true, false, Option, none, some, ◌∷◌, ◌⊎◌, inl,
  inr, Option-cases, if◌then◌else◌,
}
use pgstore.Text.{Text}
use pgstore.Errors.{Error, Result, ok, redacted}
use pgstore.Driver.{Driver, World, Stmt, Exec, arrive, tables_of, tx_query, lock_query, commit_tx}
use pgstore.Driver.Triples.{Triple, Triple-try}
use pgstore.Driver.Rules.{Triple-tx, Triple-lock, Triple-commit, written}
use pgstore.Guard.Defs.{Context, or_redacted}
use pgstore.Migrations.Files.{ledger_kv, create_leases, ordered_index}
use pgstore.Migrations.Sql.{Catalog, rows_of, max_version}
use pgstore.Migrations.Render.{replacement, keys, one_pass}
use pgstore.Migrations.{Setting, attempted, or_fail}

-- The script of each version.
abbrev pub script : ℕ → Option Text
script (suc zero) = some ledger_kv
script (suc (suc zero)) = some create_leases
script (suc (suc (suc zero))) = some ordered_index
script _ = none

-- A database that other clients may have made of the first one.
pub data Follows {D : Type 0} (driver : Driver D) (d : D) : D → Type 0 where
  same : Follows driver d d
  other : {c : D} (n : ℕ) → Follows driver d c → Follows driver d (driver.others n c)

module _ {S : Type 0} (run : Text → S → Result S) (schema prefix : Text) where
  -- From a version to a later one: each version's script, with every key replaced where it stands
  -- in the file, runs once and in turn, and its row follows it.
  pub data Steps (from : ℕ) (d : Catalog S) : ℕ → Catalog S → Type 0 where
    start : Steps from d from d
    step :
        {n : ℕ} {c : Catalog S} {sql : Text} {objects : S}
        → Steps from d n c
        → script (suc n) ≡ some sql
        → run (one_pass (replacement schema prefix) keys sql) c.objects ≡ ok objects
        → Steps from d
            (suc n)
            (record c { versions = some (suc n ∷ rows_of c.versions); objects = objects })

  abbrev pub version_of : Catalog S → ℕ
  version_of d = max_version (rows_of d.versions)

  -- The schema and the version table, which are there or are made.
  abbrev pub prepared : Catalog S → Catalog S
  prepared d = record d { has_schema = true; versions = some (rows_of d.versions) }

  -- A whole upgrade, from any version up to 3.
  abbrev pub Upgrade : Catalog S → Catalog S → Type 0
  Upgrade d c = (version_of d ≤ 3) × Steps (version_of d) (prepared d) 3 c

-- The lock is held on the database `d`, and what the transaction makes of it meets `R`.
pub record Owns {D : Type 0} (d : D) (R : D → Type 0) (w : World D) : Type 0 where
  pub held : w.locked ≡ true
  pub same : w.db ≡ d
  pub made : R (w.writes d)

module _ {D : Type 0} (driver : Driver D) where
  arrive-held : (w : World D) → w.locked ≡ true → (arrive driver w).db ≡ w.db
  arrive-held w h = rw h refl

  pub arrive-Follows :
      (d : D) (w : World D) → Follows driver d w.db → Follows driver d (arrive driver w).db
  arrive-Follows d w f = split w.locked
    where
      split : (b : Bool) → Follows driver d (if b then w.db else driver.others w.now w.db)
      split true = f
      split false = other w.now f

  pub Triple-owned :
      {A : Type 0} {d : D} {R : D → Type 0} {R' : A → D → Type 0} (f : Stmt D A)
      → ((clock : ℕ) (a : A) (c c' : D) → R c → f clock c ≡ ok (a, c') → R' a c')
      → Triple (Owns d R) (tx_query driver f) (λ a. Owns d (R' a)) (λ e w. w.db ≡ d)
  Triple-owned {A} {d} {R} {R'} f keep =
      Triple-tx driver f
        (λ w a c h e.
          owned w a c h
            (ap (λ x. f (driver.server_clock w.now) (w.writes x)) (sym (still w h)) ∙ e))
        (λ e w h. still w h) (λ e w h. still w h)
    where
      still : (w : World D) → Owns d R w → (arrive driver w).db ≡ d
      still w h = arrive-held w h.held ∙ h.same

      owned :
          (w : World D) (a : A) (c : D)
          → Owns d R w
          → f (driver.server_clock w.now) (w.writes d) ≡ ok (a, c)
          → Owns d (R' a) (written driver f w)
      owned w a c h e = record {
        held = h.held;
        same = still w h;
        made = rw e (keep (driver.server_clock w.now) a (w.writes d) c h.made e);
      }

  -- The statement that takes the lock, from a database that follows the first one.
  pub Triple-owners :
      {A : Type 0} {first : D} (f : Stmt D A)
      → ((clock : ℕ) (a : A) (c c' : D) → f clock c ≡ ok (a, c') → c' ≡ c)
      → Triple
          (λ w. Follows driver first w.db × ((c : D) → w.writes c ≡ c))
          (lock_query driver f)
          (λ a w. (d : D) × Follows driver first d × Owns d (λ c. c ≡ d) w)
          (λ e w. Follows driver first w.db)
  Triple-owners {A} {first} f keep = Triple-lock driver f (
      Triple-tx driver f
        (λ w a c h e. (
          (arrive driver w).db,
          arrive-Follows first w h.0,
          record { held = refl; same = refl; made = taken w a c h.1 e },
        ))
        (λ e w h. arrive-Follows first w h.0) (λ e w h. arrive-Follows first w h.0))
    where
      taken :
          (w : World D) (a : A) (c : D)
          → ((c : D) → w.writes c ≡ c)
          → f (driver.server_clock w.now) (w.writes (arrive driver w).db) ≡ ok (a, c)
          → tables_of
              (w.writes (arrive driver w).db)
              (f (driver.server_clock w.now) (w.writes (arrive driver w).db))
            ≡ (arrive driver w).db
      taken w a c h e = rw e (
          keep (driver.server_clock w.now) a (w.writes (arrive driver w).db) c e
          ∙ h (arrive driver w).db)

  -- The commit of what the transaction made: all of it or nothing.
  pub Triple-settle :
      {d : D} {R : D → Type 0}
      → Triple (Owns d R) (commit_tx driver) (λ _ w. R w.db) (λ e w. (w.db ≡ d) ⊎ R w.db)
  Triple-settle {d} {R} =
      Triple-commit driver (λ w h. settled w h) (λ f w h. inl (arrive-held w h.held ∙ h.same))
        (λ f w h o. inr (settled w h))
    where
      settled : (w : World D) → Owns d R w → R (w.writes (arrive driver w).db)
      settled w h = rw (arrive-held w h.held, h.same) h.made

-- What migrationFailure returns: an error of the context, or the redacted one.
abbrev pub Reported : Context → Error → Type 0
Reported ctx e = ((n : ℕ) × (ctx.err_at n ≡ some e)) ⊎ (e ≡ redacted "schema migration")

-- A precondition that holds for some value.
pub Triple-some :
    {D A I : Type 0} {P : I → World D → Type 0} {Q : A → World D → Type 0}
    {E : Error → World D → Type 0} (m : Exec D A)
    → ((i : I) → Triple (P i) m Q E)
    → Triple (λ w. (i : I) × P i w) m Q E
Triple-some m t = record { at = λ w p. (t p.0).at w p.1 }

module _ {S : Type 0} (driver : Driver (Catalog S)) (setting : Setting S) where
  -- The error that migrationFailure makes of a call's own says the same of the database.
  pub Triple-attempted :
      {A : Type 0} {P : World (Catalog S) → Type 0} {Q : A → World (Catalog S) → Type 0}
      (E : Catalog S → Type 0) (ctx : Context) (m : Exec (Catalog S) A)
      → Triple P m Q (λ _ w. E w.db)
      → Triple P (attempted driver setting ctx m) Q (λ e w. Reported ctx e × E w.db)
  unfolding attempted or_fail
  Triple-attempted {A} {P} {Q} E ctx m t =
      Triple-try Q (λ _ w. E w.db) m (or_fail driver setting ctx) t (λ a. record { at = λ w h. h })
        (λ e. record { at = λ w h. (reported w, h) })
    where
      reported :
          (w : World (Catalog S)) → Reported ctx (or_redacted "schema migration" (ctx.err_at w.now))
      reported w = elim (Option-cases (ctx.err_at w.now)) [
        | inl n ↦ rw n (inr refl)
        | inr (e, q) ↦ rw q (inl (w.now, q))
      ]
