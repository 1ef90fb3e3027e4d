-- ===== src/Migrations/Loop.antt =====
-- The loop over the entries of migrate of migrations.go: it takes the version step by step to 3.
use pgstore.Prelude.{
  ℕ, suc, ◌≤◌, ◌≡◌, refl, sym, ap, subst, ◌∙◌, true, not, Option, none, some, List, [], ◌∷◌, map,
  drop, arith, leb, ◌==◌, inl, inr, leb→le, Bool-cases,
}
use pgstore.Text.{Text, codes}
use pgstore.Errors.{Error, Result, ok, err}
use pgstore.Driver.{Driver, World, Exec}
use pgstore.Driver.Triples.{Triple, Triple-bind, Triple-if}
use pgstore.Guard.Defs.{Context}
use pgstore.Options.{valid_identifier, max_postgres_identifier_bytes, max_table_prefix_bytes}
use pgstore.Migrations.Files.{
  ledger_kv, create_leases, ordered_index, migration_files, entries, number_of, read_file,
}
use pgstore.Migrations.Sql.{
  Catalog, rows_of, has_row, insert_version, run_statement, script_answer, insert_answer,
}
use pgstore.Migrations.Render.{Token, replacement, rendered, keys, one_pass}
use pgstore.Migrations.Rendering.{Lists, rendered_lem}
use pgstore.Migrations.Steps.{
  script, Steps, step, version_of, prepared, Owns, Triple-owned, Triple-attempted, Reported,
}
use pgstore.Migrations.{Setting, apply_script, apply_numbered, apply_entries}

-- The files are the repository's, the names pass Options, and the map's order reaches every key.
pub record IsSound {S : Type 0} (setting : Setting S) (schema prefix : Text) : Type 0 where
  pub embedded : setting.files ≡ migration_files
  pub schema_ok : valid_identifier schema max_postgres_identifier_bytes ≡ true
  pub prefix_ok : valid_identifier prefix max_table_prefix_bytes ≡ true
  pub complete : (n : ℕ) (t : Token) → Lists t (setting.order n)

inserted :
    {S : Type 0} (n : ℕ) (a : Unit {0}) (c c' : Catalog S) (rows : Option (List ℕ))
    → insert_answer n c rows ≡ ok (a, c')
    → c' ≡ record c { versions = some (n ∷ rows_of rows) }
inserted n a c c' none h = absurd cc
inserted n a c c' (some rows) h = elim (Bool-cases (has_row n rows)) [
  | inl q ↦ absurd (ground arith)
  | inr q ↦ ground arith
]

abbrev paths : List Text
paths = map (λ f. f.0) migration_files

sorted_paths : entries migration_files ≡ paths
unfolding entries
sorted_paths = refl

module _ {S : Type 0} (driver : Driver (Catalog S)) (setting : Setting S) (ctx : Context)
    (schema prefix : Text) (sound : IsSound setting schema prefix) (d : Catalog S) where
  abbrev pub Made : ℕ → Catalog S → Type 0
  Made v c =
      Steps setting.run schema prefix (version_of setting.run schema prefix d)
        (prepared setting.run schema prefix d) v c

  abbrev Ran : ℕ → Text → Catalog S → Type 0
  Ran v sql c =
      (b : Catalog S) × (objects : S) × Made v b
      × (setting.run (one_pass (replacement schema prefix) keys sql) b.objects ≡ ok objects)
      × (c ≡ record b { objects = objects })

  ran :
      (v n : ℕ) (sql : Text) (clock : ℕ) (a : Unit {0}) (c c' : Catalog S)
      → Made v c
      → run_statement setting.run
          (rendered (replacement schema prefix) (setting.order n) sql)
          clock
          c
        ≡ ok (a, c')
      → Ran v sql c'
  ran v n sql clock a c c' h e =
      go (setting.run (one_pass (replacement schema prefix) keys sql) c.objects) refl
    where
      same :
          rendered (replacement schema prefix) (setting.order n) sql
          ≡ one_pass (replacement schema prefix) keys sql
      same =
          rendered_lem schema prefix (setting.order n) sql sound.schema_ok sound.prefix_ok
            (sound.complete n)

      there :
          script_answer c (setting.run (one_pass (replacement schema prefix) keys sql) c.objects)
          ≡ ok (a, c')
      there = ap (λ s. script_answer c (setting.run s c.objects)) (sym same) ∙ e

      go :
          (r : Result S)
          → setting.run (one_pass (replacement schema prefix) keys sql) c.objects ≡ r
          → Ran v sql c'
      go (ok objects) q =
          let both : script_answer c (ok objects) ≡ ok (a, c') =
            ap (script_answer c) (sym q) ∙ there in
          (c, objects, h, q, cc)
      go (err x) q =
          let both : script_answer c (err x) ≡ ok (a, c') = ap (script_answer c) (sym q) ∙ there in
          absurd (cc)

  recorded :
      (v : ℕ) (sql : Text)
      → script (suc v) ≡ some sql
      → (clock : ℕ) (a : Unit {0}) (c c' : Catalog S) → Ran v sql c
      → insert_version (suc v) clock c ≡ ok (a, c')
      → Made (suc v) c'
  recorded v sql q clock a c c' (b, objects, made, done, e) h =
      let same : c' ≡ record b { versions = some (suc v ∷ rows_of b.versions); objects = objects } =
        inserted (suc v) a c c' c.versions h
        ∙ ap (λ (c : Catalog S). record c { versions = some (suc v ∷ rows_of c.versions) }) e in
      rw same (step made q done)

  abbrev pub Kept : Error → World (Catalog S) → Type 0
  Kept e w = Reported ctx e × (w.db ≡ d)

  abbrev pub Done : ℕ → World (Catalog S) → Type 0
  Done v w = (v ≡ 3) × Owns d (Made v) w

  -- From a version up to 3 that the transaction has reached, these entries lead to version 3.
  abbrev Leads : List Text → ℕ → Type 0
  Leads paths least =
      (v : ℕ)
      → least ≤ v
      → v ≤ 3
      → Triple (Owns d (Made v)) (apply_entries driver setting ctx schema prefix paths v) Done Kept

  applied :
      (v : ℕ) (sql : Text) (next : ℕ → Exec (Catalog S) ℕ)
      → script (suc v) ≡ some sql
      → Triple (Owns d (Made (suc v))) (next (suc v)) Done Kept
      → Triple
          (Owns d (Made v))
          (apply_script driver setting ctx schema prefix (suc v) next (some sql))
          Done
          Kept
  unfolding apply_script
  applied v sql next q t =
      Triple-bind (λ _. Owns d (Ran v sql)) _ _
        (Triple-attempted driver setting (λ c. c ≡ d) ctx _
          (Triple-owned driver
            (run_statement setting.run
              (rendered (replacement schema prefix) (setting.order (suc v)) sql))
            (ran v (suc v) sql)))
        λ _.
          Triple-bind (λ _. Owns d (Made (suc v))) _ _
            (Triple-attempted driver setting (λ c. c ≡ d) ctx _
              (Triple-owned driver (insert_version (suc v)) (recorded v sql q)))
            λ _. t

  entry :
      (n : ℕ) (path sql : Text) (paths : List Text)
      → number_of path ≡ some (suc n)
      → read_file setting.files path ≡ some sql
      → script (suc n) ≡ some sql
      → n ≤ 2
      → Leads paths (suc n)
      → Leads (path ∷ paths) n
  unfolding apply_entries apply_numbered
  entry n path sql paths number file q bound rest v lower upper = rw number (
      Triple-if (leb (suc n) v) _ _ (λ h. rest v (leb→le (suc n) v h) upper)
        (λ h.
          Triple-if (not (suc n == suc v)) _ _ (λ e. absurd (ground arith))
            (λ e.
              let same : n ≡ v = ground arith in
              rw (← same, file)
                (applied n sql (λ x. apply_entries driver setting ctx schema prefix paths x) q
                  (rest (suc n) (omega arith) (omega arith))))))

  pub three_entries :
      (v : ℕ)
      → v ≤ 3
      → Triple
          (Owns d (Made v))
          (apply_entries driver setting ctx schema prefix (entries setting.files) v)
          Done
          Kept
  unfolding number_of read_file apply_entries
  three_entries v h =
      subst
        (λ ps.
          Triple (Owns d (Made v)) (apply_entries driver setting ctx schema prefix ps v) Done Kept)
        (sym (ap entries sound.embedded ∙ sorted_paths))
        (entry 0 _ _ (drop 1 paths) refl
          (file (codes "migrations/0001_ledger_kv.sql") ledger_kv refl) refl (omega arith)
          (entry 1 _ _ (drop 2 paths) refl
            (file (codes "migrations/0002_leases.sql") create_leases refl) refl (omega arith)
            (entry 2 _ _ [] refl
              (file (codes "migrations/0003_ordered_index.sql") ordered_index refl) refl
              (omega arith) (λ v lower upper. record { at = λ w o. (omega arith, o) })))
          v (omega arith) h)
    where
      file :
          (path sql : Text)
          → read_file migration_files path ≡ some sql
          → read_file setting.files path ≡ some sql
      file path sql e = ap (λ f. read_file f path) sound.embedded ∙ e
