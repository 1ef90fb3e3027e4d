-- ===== src/OrderedIndex/Retry.antt =====
-- A rule for the loop of Create, Update and Delete in internal/orderedindex/orderedindex.go.
use pgstore.Prelude.{ℕ, zero, suc, Bool, Option, none, some, String, ◌==◌}
use pgstore.Records.{OrderedRecord}
use pgstore.Errors.{Error, ok}
use pgstore.Driver.{World, Exec, ◌>>=◌}
use pgstore.Driver.Triples.{Triple, Triple-bind, Triple-try, Triple-if}
use pgstore.Guard.Defs.{Context, ctx_err}
use pgstore.Postgres.{retryable}
use pgstore.OrderedIndex.Sql.{Tables}
use pgstore.OrderedIndex.{
  Attempted, done, unknown, give_up, retry_or_give_up, attempt_failed, attempt_reply, retry_loop,
  is_contract_error,
}

-- What an attempt leaves: a result, or a commit of unknown outcome.
abbrev pub Tried :
    {A : Type 0}
    → (A → World Tables → Type 0)
    → (OrderedRecord → World Tables → Type 0)
    → Attempted A
    → World Tables
    → Type 0
Tried Q U (done a) w = Q a w
Tried Q U (unknown r cause) w = U r w

Triple-ctx_err :
    {P : World Tables → Type 0} {E : Error → World Tables → Type 0} (ctx : Context)
    → ((w : World Tables) (n : ℕ) → P w → P (record w { now = n }))
    → Triple P (ctx_err ctx) (λ _. P) E
Triple-ctx_err ctx still = record { at = λ w p. still w _ p }

-- `P` holds at the start of every attempt, and after each that fails.
module _ {A : Type 0} (operation : String) (once : Exec Tables (Attempted A))
    (resolve : OrderedRecord → Error → Exec Tables A) (ctx : Context) {P : World Tables → Type 0}
    {Q : A → World Tables → Type 0} {E : Error → World Tables → Type 0}
    (still : (w : World Tables) (n : ℕ) → P w → P (record w { now = n }))
    (quit : (e : Error) (w : World Tables) → P w → E e w) where
  Triple-give_up : (c : Option Error) → Triple P (give_up operation once resolve ctx c) Q E
  unfolding give_up
  Triple-give_up (some e) = record { at = λ w p. quit e w p }
  Triple-give_up none = record { at = λ w p. quit _ _ (still w _ p) }

  Triple-gave_up : Triple P (do c ← ctx_err ctx; give_up operation once resolve ctx c) Q E
  Triple-gave_up = Triple-bind (λ _. P) (ctx_err ctx) _ (Triple-ctx_err ctx still) Triple-give_up

  Triple-failed :
      (last : Bool) (again : Exec Tables A) (e : Error)
      → Triple P again Q E
      → Triple P (attempt_failed operation once resolve ctx last again e) Q E
  unfolding attempt_failed retry_or_give_up
  Triple-failed last again e t =
      Triple-if (is_contract_error e) _ _ (λ _. record { at = λ w p. quit e w p })
        λ _.
          Triple-if (retryable e) _ _
            (λ _. Triple-bind (λ _. P) (ctx_err ctx) _ (Triple-ctx_err ctx still) retry)
            λ _. Triple-gave_up
    where
      retry :
          (c : Option Error)
          → Triple P (retry_or_give_up operation once resolve ctx last again c) Q E
      retry (some e) = Triple-gave_up
      retry none = Triple-if last _ _ (λ _. Triple-gave_up) λ _. t

  pub Triple-retry :
      {U : OrderedRecord → World Tables → Type 0} (left : ℕ)
      → Triple P once (Tried Q U) (λ _. P)
      → ((want : OrderedRecord) (cause : Error) → Triple (U want) (resolve want cause) Q E)
      → Triple P (retry_loop operation once resolve ctx left) Q E
  unfolding retry_loop attempt_reply
  Triple-retry zero t r = record { at = λ w p. quit _ w p }
  Triple-retry {U} (suc left) t r =
      let again = Triple-retry {U = U} left t r in
      Triple-try (Tried Q U) (λ _. P) once
        (attempt_reply operation once resolve ctx (left == 0)
          (λ w. retry_loop operation once resolve ctx left w))
        t (reply again) λ e. Triple-failed (left == 0) _ e (record { at = again.at })
    where
      reply :
          Triple P (retry_loop operation once resolve ctx left) Q E
          → (a : Attempted A)
          → Triple
              (Tried Q U a)
              (attempt_reply operation once resolve ctx
                (left == 0)
                (λ w. retry_loop operation once resolve ctx left w)
                (ok a))
              Q
              E
      reply again (done a) = record { at = λ w q. q }
      reply again (unknown want cause) = r want cause
