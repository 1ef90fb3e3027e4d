-- ===== src/Migrations/Upgrades.antt =====
-- The transaction of migrate of migrations.go from the lock on: a whole upgrade or none.
use pgstore.Prelude.{
  ℕ, ◌≤◌, ◌<◌, ◌≡◌, ◌≢◌, refl, sym, ap, subst, ◌∙◌, true, false, not, arith, ltb, ltb→lt, ◌==◌, ◌⊎◌,
  inl, inr,
}
use pgstore.Text.{Text}
use pgstore.Errors.{Error, ok, new_error, schema_version}
use pgstore.Driver.{Driver, World, Exec, tx_query, ◌>>=◌, ◌>>◌}
use pgstore.Driver.Triples.{Triple, Triple-bind, Triple-if, Triple-mono}
use pgstore.Guard.Defs.{Context}
use pgstore.Options.{migration_validate}
use pgstore.Migrations.Files.{entries}
use pgstore.Migrations.Sql.{Catalog, create_schema, create_versions, select_version}
use pgstore.Migrations.Steps.{
  Steps, start, version_of, prepared, Upgrade, Owns, Triple-owned, Triple-settle, Triple-attempted,
  Reported,
}
use pgstore.Migrations.Loop.{IsSound, Made, Done, three_entries}
use pgstore.Migrations.{
  Setting, attempted, commit_migration, apply_entries, finish, validate, migrate_from,
}

Triple-from :
    {D A : Type 0} {P P' : World D → Type 0} {Q : A → World D → Type 0}
    {E : Error → World D → Type 0} (m : Exec D A)
    → ((w : World D) → P w → P' w)
    → Triple P' m Q E
    → Triple P m Q E
Triple-from m f t = record { at = λ w p. t.at w (f w p) }

Owns-mono :
    {D : Type 0} {d : D} {R R' : D → Type 0} (w : World D)
    → ((c : D) → R c → R' c)
    → Owns d R w
    → Owns d R' w
Owns-mono w f o = record { held = o.held; same = o.same; made = f _ o.made }

module _ {S : Type 0} (driver : Driver (Catalog S)) (setting : Setting S) (ctx : Context)
    (schema prefix : Text) where
  -- The transaction from the lock on.
  abbrev pub after_lock : ℕ → Exec (Catalog S) (Unit {0})
  after_lock mode = do
    attempted driver setting ctx (tx_query driver create_schema)
    attempted driver setting ctx (tx_query driver create_versions)
    version ← attempted driver setting ctx (tx_query driver select_version)
    migrate_from driver setting ctx schema prefix mode version

  module _ (mode : ℕ) (d : Catalog S) where
    -- A whole upgrade; in the mode that only validates, one that had nothing to do.
    abbrev pub Migrated : Catalog S → Type 0
    Migrated c =
        Upgrade setting.run schema prefix d c
        × (mode ≡ migration_validate → version_of setting.run schema prefix d ≡ 3)

    -- Why migrate fails: a call failed or the context ended, the database is newer, or it is older
    -- and the mode only validates.
    abbrev pub Reason : Error → Type 0
    Reason e =
        Reported ctx e
        ⊎ (((3 < version_of setting.run schema prefix d)
              × (e ≡ new_error "pgstore: database schema is newer than this pgstore build"))
            ⊎ ((mode ≡ migration_validate)
                × (version_of setting.run schema prefix d < 3)
                × (e ≡ schema_version (version_of setting.run schema prefix d) 3)))

    abbrev pub Settled : Error → World (Catalog S) → Type 0
    Settled e w = Reason e × ((w.db ≡ d) ⊎ Migrated w.db)

    abbrev pub Read : ℕ → Catalog S → Type 0
    Read v c =
        (v ≡ version_of setting.run schema prefix d) × (c ≡ prepared setting.run schema prefix d)

  module _ (sound : IsSound setting schema prefix) where
    module _ (mode : ℕ) (d : Catalog S) where
      committed :
          Triple
            (Owns d (Migrated mode d))
            (commit_migration driver setting ctx)
            (λ _ w. Migrated mode d w.db)
            (Settled mode d)
      unfolding commit_migration
      committed =
          Triple-mono _ (λ a w q. q) (λ e w (r, q). (inl r, q))
            (Triple-attempted driver setting (λ c. (c ≡ d) ⊎ Migrated mode d c) ctx _
              (Triple-settle driver))

      validated :
          (v : ℕ)
          → mode ≡ migration_validate
          → v ≤ 3
          → Triple
              (Owns d (Read mode d v))
              (validate driver setting ctx v)
              (λ _ w. Migrated mode d w.db)
              (Settled mode d)
      unfolding validate
      validated v m low =
          Triple-if (not (v == 3)) _ _
            (λ h. record {
              at = λ w o. (
                inr (
                    inr (
                      m,
                      omega (arith, o.made.0, apart_from v h),
                      ap (λ n. schema_version n 3) o.made.0,
                    )),
                inl o.same,
              );
            })
            (λ h. Triple-from _ (λ w. Owns-mono w (current (ground arith))) committed)
        where
          apart_from : (n : ℕ) → not (n == 3) ≡ true → n ≢ 3
          apart_from n h e = ground arith

          current : v ≡ 3 → (c : Catalog S) → Read mode d v c → Migrated mode d c
          current e c (f, g) =
              let three : version_of setting.run schema prefix d ≡ 3 = sym f ∙ e in
              (
                (
                  omega arith,
                  rw g (
                      subst
                        (λ n.
                          Steps setting.run schema prefix (version_of setting.run schema prefix d)
                            (prepared setting.run schema prefix d) n
                            (prepared setting.run schema prefix d))
                        three start),
                ),
                λ _. three,
              )

      finished :
          (mode == migration_validate) ≡ false
          → version_of setting.run schema prefix d ≤ 3
          → (v : ℕ)
          → Triple
              (Done driver setting ctx schema prefix sound d v)
              (finish driver setting ctx v)
              (λ _ w. Migrated mode d w.db)
              (Settled mode d)
      unfolding finish
      finished h low v =
          Triple-if (not (v == 3)) _ _ (λ e. record { at = λ w o. absurd (ground arith) })
            (λ e. Triple-from _ (λ w o. Owns-mono w (whole o.0) o.1) committed)
        where
          whole :
              v ≡ 3
              → (c : Catalog S) → Made driver setting ctx schema prefix sound d v c
              → Migrated mode d c
          whole e c m = (
            (
              low,
              subst
                  (λ n.
                    Steps setting.run schema prefix (version_of setting.run schema prefix d)
                      (prepared setting.run schema prefix d) n c)
                  e m,
            ),
            λ q. absurd (ground arith),
          )

      applied_from :
          (v : ℕ)
          → (mode == migration_validate) ≡ false
          → v ≤ 3
          → Triple
              (Owns d (Read mode d v))
              (apply_entries driver setting ctx schema prefix (entries setting.files) v >>= λ v.
                finish driver setting ctx v)
              (λ _ w. Migrated mode d w.db)
              (Settled mode d)
      applied_from v h low = record {
        at = λ w o.
            (Triple-bind (Done driver setting ctx schema prefix sound d) _ _
                (Triple-mono _ (λ v w o. o) (λ e w (r, h). (inl r, inl h))
                  (three_entries driver setting ctx schema prefix sound d v low))
                (finished h (known o.made.0))).at
              w (Owns-mono w (begun o.made.0) o);
      }
        where
          known :
              v ≡ version_of setting.run schema prefix d
              → version_of setting.run schema prefix d ≤ 3
          known e = omega arith

          begun :
              v ≡ version_of setting.run schema prefix d
              → (c : Catalog S) → Read mode d v c
              → Made driver setting ctx schema prefix sound d v c
          begun e c (f, g) = rw g (
              subst
                (λ n.
                  Steps setting.run schema prefix (version_of setting.run schema prefix d)
                    (prepared setting.run schema prefix d) n (prepared setting.run schema prefix d))
                (sym f) start)

      from_version :
          (v : ℕ)
          → Triple
              (Owns d (Read mode d v))
              (migrate_from driver setting ctx schema prefix mode v)
              (λ _ w. Migrated mode d w.db)
              (Settled mode d)
      unfolding migrate_from
      from_version v =
          Triple-if (ltb 3 v) _ _
            (λ h. record {
              at = λ w o. (inr (inl (omega (arith, o.made.0, ltb→lt 3 v h), refl)), inl o.same);
            })
            (λ h.
              Triple-if (mode == migration_validate) _ _
                (λ e. validated v (ground arith) (ground arith))
                (λ e. applied_from v e (ground arith)))

      pub owned :
          Triple
            (Owns d (λ c. c ≡ d))
            (after_lock mode)
            (λ _ w. Migrated mode d w.db)
            (Settled mode d)
      owned =
          Triple-bind (λ _. Owns d (λ c. c ≡ record d { has_schema = true })) _ _
            (unchanged
              (Triple-owned driver create_schema (λ clock a c c' r h. grind (arith, r, h))))
            λ _.
              Triple-bind (λ _. Owns d (λ c. c ≡ prepared setting.run schema prefix d)) _ _
                (unchanged
                  (Triple-owned driver create_versions (λ clock a c c' r h. made clock a c c' r h)))
                λ _.
                  Triple-bind (λ v. Owns d (Read mode d v)) _ _
                    (unchanged (
                      Triple-owned driver select_version
                        (λ clock v c c' r h. read clock v c c' r h)))
                    λ v. from_version v
        where
          unchanged :
              {A : Type 0} {P : World (Catalog S) → Type 0} {Q : A → World (Catalog S) → Type 0}
              {m : Exec (Catalog S) A}
              → Triple P m Q (λ _ w. w.db ≡ d)
              → Triple P (attempted driver setting ctx m) Q (Settled mode d)
          unchanged {m = m} t =
              Triple-mono _ (λ a w q. q) (λ e w (r, q). (inl r, inl q))
                (Triple-attempted driver setting (λ c. c ≡ d) ctx m t)

          made :
              (clock : ℕ) (a : Unit {0}) (c c' : Catalog S)
              → c ≡ record d { has_schema = true }
              → create_versions clock c ≡ ok (a, c')
              → c' ≡ prepared setting.run schema prefix d
          made clock a c c' r h =
              let e : create_versions clock (record d { has_schema = true }) ≡ ok (a, c') =
                ap (create_versions clock) (sym r) ∙ h in
              cc

          read :
              (clock v : ℕ) (c c' : Catalog S)
              → c ≡ prepared setting.run schema prefix d
              → select_version clock c ≡ ok (v, c')
              → Read mode d v c'
          read clock v c c' r h =
              let e : select_version clock (prepared setting.run schema prefix d) ≡ ok (v, c') =
                ap (select_version clock) (sym r) ∙ h in
              (cc, cc)
