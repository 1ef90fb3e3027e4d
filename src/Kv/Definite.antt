-- ===== src/Kv/Definite.antt =====
-- What an error of KV.Put says of the table, with no other writer: internal/kv/kv.go resolvePut.
use pgstore.Prelude.{
  ℕ, suc, ◌+◌, ◌^◌, ◌<◌, ◌≡◌, ◌≢◌, refl, false, Option, some, arith, Option-cases, ◌⊎◌, inl, inr,
}
use pgstore.Text.{Text, Bytes, content, text_eq_iff}
use pgstore.Errors.{Error, err, is_no_rows, redacted}
use pgstore.Driver.{Driver, World, arrive, arrive-alone, IsAlone, pool_query}
use pgstore.Driver.Triples.{Triple, Post-err, Triple-try}
use pgstore.Storage.{Storage}
use pgstore.Guard.{Triple-entry}
use pgstore.Guard.Defs.{Context, or_redacted}
use pgstore.Kv.Sql.{Table, find_row}
use pgstore.Kv.Lemmas.{find-write}
use pgstore.Kv.Put.{view}
use pgstore.Kv.{Store, put, put_once, put_reply, resolve_put}

abbrev pub unresolved : Error
unresolved = redacted "kv put outcome resolution"

module _ (driver : Driver Table) (storage : Storage) (s : Store) (alone : IsAlone driver)
    (d : Table) (key : Text) (expected : ℕ) (value : Bytes) where
  abbrev Same : World Table → Type 0
  Same w = w.db ≡ d

  -- The write has been made, or has not.
  abbrev Either : World Table → Type 0
  Either w = (w.db ≡ d) ⊎ (view w.db key ≡ some (expected + 1, content value))

  abbrev Sent : Error → World Table → Type 0
  Sent e w =
      (w.db ≡ d) ⊎ ((is_no_rows e ≡ false) × (view w.db key ≡ some (expected + 1, content value)))

  abbrev Reported : Error → World Table → Type 0
  Reported e w = (e ≡ unresolved) ⊎ (w.db ≡ d)

  put_once-Sent : Triple Same (put_once driver storage s key expected value) (λ _ _. Unit) Sent
  unfolding put_once pool_query find_row
  put_once-Sent = record {
    at = λ w p. ground (
      arith,
      text_eq_iff key key,
      find-write key key (content value) (arrive driver w).db,
      arrive-alone driver alone w,
    );
  }

  resolve_put-Reported :
      (cause : Error)
      → expected + 1 < 2 ^ 64
      → Triple Either (resolve_put driver storage s key expected value cause) (λ _ _. Unit) Reported
  unfolding resolve_put
  resolve_put-Reported cause b = record {
    at = λ w p. elim (Option-cases (find_row key (arrive driver w).db)) [
      | inl e ↦ ground (arith, e, arrive-alone driver alone w)
      | inr (r, e) ↦
          ground (arith, e, text_eq_iff r.value (content value), arrive-alone driver alone w)
    ];
  }

  put_reply-Reported :
      (ctx : Context) (e : Error)
      → expected + 1 < 2 ^ 64
      → Triple
          (Sent e)
          (put_reply driver storage s ctx key expected value (err e))
          (λ _ _. Unit)
          Reported
  unfolding put_reply
  put_reply-Reported ctx e b = record {
    at = λ w p.
        let resolved =
          (resolve_put-Reported (or_redacted "kv put" (ctx.err_at w.now)) b).at
            (record w { now = suc w.now }) in
        ground (arith, resolved);
  }

  put-Reported :
      (ctx : Option Context)
      → expected + 1 < 2 ^ 64
      → Triple Same (put driver storage s ctx key expected value) (λ _ _. Unit) Reported
  unfolding put
  put-Reported ctx b =
      Triple-entry driver ctx "KV.Put" s.operation_timeout (storage.validate_name key) _
        (λ w n p. p) (λ e w p. inr p)
        λ c.
          Triple-try (λ _ _. Unit) Sent (put_once driver storage s key expected value)
            (put_reply driver storage s c key expected value) put_once-Sent
            (λ r. record { at = λ w h. tt }) λ e. put_reply-Reported c e b

-- With no other writer, and expected plus 1 within a uint64, an error of Put other than "outcome
-- resolution failed" means that nothing was written, even if the driver lost the answer of the
-- statement.
pub put_definite :
    (driver : Driver Table) (storage : Storage) (s : Store) (ctx : Option Context) (key : Text)
    (expected : ℕ) (value : Bytes) (w : World Table) (e : Error)
    → IsAlone driver
    → expected + 1 < 2 ^ 64
    → (put driver storage s ctx key expected value w).0 ≡ err e
    → e ≢ unresolved
    → (put driver storage s ctx key expected value w).1.db ≡ w.db
put_definite driver storage s ctx key expected value w e alone b h other =
    elim (Post-err (λ _ _. Unit) (Reported driver storage s alone w.db key expected value) _ e
      ((put-Reported driver storage s alone w.db key expected value ctx b).at w refl) h) [
        | inl same ↦ absurd (other same)
        | inr same ↦ same
      ]
