-- ===== src/Ledger/Append.antt =====
-- Append of internal/ledger/ledger.go: its retries and the reread after an unknown commit.
use pgstore.Prelude.{
  ℕ, zero, suc, ◌≡◌, ◌≢◌, refl, Bool, not, ◌||◌, Option, none, some, arith, ◌==◌, ◌⊎◌, inl, inr,
  Bool-cases, Option-cases,
}
use pgstore.Text.{Text, Bytes, content, text_eq_iff}
use pgstore.Errors.{Error, Result, ok, err}
use pgstore.Driver.{Driver, World, Exec, arrive}
use pgstore.Driver.Triples.{Triple, Post, Post-ok, Triple-bind, Triple-try, Triple-if}
use pgstore.Postgres.{RetryableAborts, retryable, attempts}
use pgstore.Storage.{Storage}
use pgstore.Guard.{Triple-entry}
use pgstore.Guard.Defs.{Context, ctx_err}
use pgstore.Ledger.Sql.{Tables, find_payload}
use pgstore.Ledger.Moves.{Moves, here, other, payload_at}
use pgstore.Ledger.Attempt.{append_once-Attempted}
use pgstore.Ledger.{
  Store, append, append_once, append_loop, append_reply, append_failed, give_up, retry_or_give_up,
  append_error, resolve_append, next_seq, outcome_cause, is_conflict,
}

module _ (driver : Driver Tables) (storage : Storage) (s : Store) (name : Text) (expected : ℕ)
    (payload : Bytes) (start : Tables) where
  abbrev Moved : ℕ → World Tables → Type 0
  Moved n w = Moves driver name expected payload start n w.db

  -- At most one append.
  abbrev Once : World Tables → Type 0
  Once w = Moved 0 w ⊎ Moved 1 w

  abbrev Stored : World Tables → Type 0
  Stored w = payload_at w.db name (next_seq expected) ≡ some (content payload)

  abbrev Done : World Tables → Type 0
  Done w = Once w × Stored w

  arrive-Once : (w : World Tables) → Once w → Once (arrive driver w)
  arrive-Once w p = elim (Bool-cases w.locked) [ inl e ↦ rw e p | inr e ↦ rw e (others p) ]
    where
      others :
          Once w
          → Moves driver name expected payload start 0 (driver.others w.now w.db)
            ⊎ Moves driver name expected payload start 1 (driver.others w.now w.db)
      others (inl m) = inl (other w.now m)
      others (inr m) = inr (other w.now m)

  resolve_append-db :
      (cause : Error) (w : World Tables)
      → ((resolve_append driver storage s name expected payload cause w).1.db
          ≡ (arrive driver w).db)
        × ((resolve_append driver storage s name expected payload cause w).0 ≡ ok tt
            → payload_at (arrive driver w).db name (next_seq expected) ≡ some (content payload))
  unfolding resolve_append
  resolve_append-db cause w =
      elim (Option-cases (find_payload name (next_seq expected) (arrive driver w).db.records)) [
        | inl e ↦ (ground (arith, e), λ h. ground (arith, e))
        | inr (stored, e) ↦
            (ground (arith, e), λ h. ground (arith, e, text_eq_iff stored (content payload)))
      ]

  look : (ctx : Context) → Triple (Moved 0) (ctx_err ctx) (λ _. Moved 0) (λ _. Once)
  look ctx = record { at = λ w p. p }

  stop : (e : Error) → Triple (Moved 0) (λ w. (err e, w)) (λ (_ : Unit {0}). Done) (λ _. Once)
  stop e = record { at = λ w p. inl p }

  module _ (last : Bool) (again : Exec Tables (Unit {0})) where
    give_up-Done :
        (e : Error) (c : Option Error)
        → Triple (Moved 0) again (λ _. Done) (λ _. Once)
        → Triple (Moved 0) (give_up driver storage s last again e c) (λ _. Done) (λ _. Once)
    unfolding give_up
    give_up-Done e (some c) t = stop c
    give_up-Done e none t = Triple-if (not (retryable e) || last) _ again (λ _. stop _) (λ _. t)

    retry_or_give_up-Done :
        (ctx : Context) (e : Error) (c : Option Error)
        → Triple (Moved 0) again (λ _. Done) (λ _. Once)
        → Triple
            (Moved 0)
            (retry_or_give_up driver storage s ctx last again e c)
            (λ _. Done)
            (λ _. Once)
    unfolding retry_or_give_up
    retry_or_give_up-Done ctx e (some c) t = stop c
    retry_or_give_up-Done ctx e none t =
        Triple-if last _ again
          (λ _. Triple-bind (λ _. Moved 0) (ctx_err ctx) _ (look ctx) λ c. give_up-Done e c t)
          (λ _. t)

    append_failed-Done :
        (ctx : Context) (e : Error)
        → Triple (Moved 0) again (λ _. Done) (λ _. Once)
        → Triple (Moved 0) (append_failed driver storage s ctx last again e) (λ _. Done) (λ _. Once)
    unfolding append_failed
    append_failed-Done ctx e t =
        Triple-if (is_conflict e) _ _ (λ _. stop e)
          λ _.
            Triple-if (retryable e) _ _
              (λ _.
                Triple-bind (λ _. Moved 0) (ctx_err ctx) _ (look ctx)
                  λ c. retry_or_give_up-Done ctx e c t)
              (λ _. Triple-bind (λ _. Moved 0) (ctx_err ctx) _ (look ctx) λ c. give_up-Done e c t)

    -- What a failed attempt leaves, by whether it reports an unknown outcome.
    abbrev Tried : Option Error → World Tables → Type 0
    Tried c w = Moved 0 w ⊎ ((c ≢ none) × Moved 1 w)

    resolve_append-Done :
        (cause : Error)
        → Triple
            (Tried (some cause))
            (resolve_append driver storage s name expected payload cause)
            (λ _. Done)
            (λ _. Once)
    resolve_append-Done cause = record {
      at = λ w p. found w (arrive-Once w (once w p)) _ refl (resolve_append-db cause w);
    }
      where
        once : (w : World Tables) → Tried (some cause) w → Once w
        once w (inl m) = inl m
        once w (inr m) = inr m.1

        found :
            (w : World Tables)
            → Once (arrive driver w)
            → (r : Result (Unit {0}) × World Tables)
            → resolve_append driver storage s name expected payload cause w ≡ r
            → (r.1.db ≡ (arrive driver w).db)
              × (r.0 ≡ ok tt
                  → payload_at (arrive driver w).db name (next_seq expected)
                    ≡ some (content payload))
            → Post (λ _. Done) (λ _. Once) r
        found w p (ok tt, w') _ (same, stored) = rw same (p, stored refl)
        found w p (err e, w') _ (same, stored) = rw same p

    append_error-Done :
        (ctx : Context) (e : Error) (c : Option Error)
        → Triple (Moved 0) again (λ _. Done) (λ _. Once)
        → Triple
            (Tried c)
            (append_error driver storage s ctx name expected payload last again e c)
            (λ _. Done)
            (λ _. Once)
    unfolding append_error
    append_error-Done ctx e (some cause) t = resolve_append-Done cause
    append_error-Done ctx e none t = record {
      at = λ w p.
          (append_failed-Done ctx e t).at w (elim p [ inl m ↦ m | inr m ↦ absurd (m.0 refl) ]);
    }

  append_loop-Done :
      (left : ℕ) (ctx : Context)
      → RetryableAborts driver
      → Triple
          (Moved 0)
          (append_loop driver storage s left ctx name expected payload)
          (λ _. Done)
          (λ _. Once)
  unfolding append_loop append_reply
  append_loop-Done zero ctx aborts = stop _
  append_loop-Done (suc left) ctx aborts =
      let again =
        λ (w : World Tables). append_loop driver storage s left ctx name expected payload w in
      Triple-try (λ _. λ (w : World Tables). Moved 1 w × Stored w)
        (λ e. Tried (left == 0) again (outcome_cause e))
        (append_once driver storage s name expected payload)
        (append_reply driver storage s ctx name expected payload (left == 0) again)
        (append_once-Attempted driver storage s name expected payload start 0 aborts)
        (λ _. record { at = λ w p. (inr p.0, p.1) })
        (λ e.
          append_error-Done (left == 0) again ctx e (outcome_cause e)
            (append_loop-Done left ctx aborts))

  pub append-Done :
      (ctx : Option Context)
      → RetryableAborts driver
      → Triple (Moved 0) (append driver storage s ctx name expected payload) (λ _. Done) (λ _. Once)
  unfolding append
  append-Done ctx aborts =
      Triple-entry driver ctx "Ledger.Append" s.operation_timeout (storage.validate_name name) _
        (λ w n p. p) (λ e w p. inl p) (λ c. append_loop-Done attempts c aborts)

module _ (driver : Driver Tables) (storage : Storage) (s : Store) (ctx : Option Context) where
  -- An Append moves the committed tables by at most one whole append, made when the tip was the
  -- expected one, and by what others commit: through every failure, retry and lost answer, if the
  -- server aborts what it calls retryable.
  pub append_once_at_most :
      (name : Text) (expected : ℕ) (payload : Bytes) (w : World Tables)
      → RetryableAborts driver
      → let after = (append driver storage s ctx name expected payload w).1.db in
        (Moves driver name expected payload w.db 0 after)
        ⊎ (Moves driver name expected payload w.db 1 after)
  append_once_at_most name expected payload w aborts =
      moved _ ((append-Done driver storage s name expected payload w.db ctx aborts).at w here)
    where
      moved :
          (r : Result (Unit {0}) × World Tables)
          → Post
              (λ _. Done driver storage s name expected payload w.db)
              (λ _. Once driver storage s name expected payload w.db)
              r
          → Once driver storage s name expected payload w.db r.1
      moved (ok _, w') p = p.0
      moved (err e, w') p = p

  -- When Append returns nil, the caller's payload stands at the sequence after the expected tip,
  -- whatever the driver reported and whatever others commit meanwhile, if the server aborts what it
  -- calls retryable.
  pub append_acknowledged :
      (name : Text) (expected : ℕ) (payload : Bytes) (w : World Tables)
      → RetryableAborts driver
      → let run = append driver storage s ctx name expected payload w in
        run.0 ≡ ok tt → payload_at run.1.db name (next_seq expected) ≡ some (content payload)
  append_acknowledged name expected payload w aborts h =
      (Post-ok (λ _. Done driver storage s name expected payload w.db)
        (λ _. Once driver storage s name expected payload w.db) _ tt
        ((append-Done driver storage s name expected payload w.db ctx aborts).at w here) h).1
