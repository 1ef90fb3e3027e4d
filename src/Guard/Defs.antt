-- ===== src/Guard/Defs.antt =====
-- internal/guard/guard.go, and the helpers `failure`, `safeCause`, `operationFailure`,
-- `leaseFailure` and `migrationFailure`, which are one function in each package.
use pgstore.Prelude.{ℕ, suc, ◌+◌, ◌*◌, Option, none, some, String, leb, if◌then◌else◌}
use pgstore.Errors.{Error, deadline_exceeded, redacted, deadline_required, ok}
use pgstore.Driver.{Driver, Exec, pure, raise, ◌>>=◌}

-- 30 * time.Second, in nanoseconds
abbrev pub default_operation_timeout : ℕ
default_operation_timeout = 30 * 1000000000

pub record Context : Type 0 where
  pub deadline : Option ℕ
  pub err_at : ℕ → Option Error

-- what a context with a deadline of its own reports, given what its parent reports
abbrev expiring : ℕ → ℕ → Option Error → Option Error
expiring deadline clock (some e) = some e
expiring deadline clock none = if leb deadline clock then some deadline_exceeded else none

module _ {D : Type 0} (driver : Driver D) where
  -- context.WithTimeout of a parent without a deadline, at a moment
  abbrev pub with_timeout : Context → ℕ → ℕ → Context
  with_timeout parent timeout moment =
      let deadline = driver.local_clock moment + timeout in
      record {
        deadline = some deadline;
        err_at = λ n. expiring deadline (driver.local_clock n) (parent.err_at n);
      }

  abbrev pub bound_context : Context → Option ℕ → ℕ → ℕ → Context
  bound_context ctx (some deadline) timeout moment = ctx
  bound_context ctx none timeout moment = with_timeout ctx timeout moment

  unfoldable pub bound : Option Context → String → ℕ → Exec D Context
  bound none operation timeout w = raise (deadline_required operation) w
  bound (some ctx) operation timeout w =
      (ok (bound_context ctx ctx.deadline timeout w.now), record w { now = suc w.now })

-- ctx.Err()
abbrev pub ctx_err : {D : Type 0} → Context → Exec D (Option Error)
ctx_err ctx w = (ok (ctx.err_at w.now), record w { now = suc w.now })

abbrev pub or_redacted : String → Option Error → Error
or_redacted operation (some e) = e
or_redacted operation none = redacted operation

-- `if err := ctx.Err(); err != nil { return err }; return RedactedError(operation)`
abbrev pub safe_cause : {D : Type 0} → Context → String → Exec D Error
safe_cause ctx operation = do e ← ctx_err ctx; pure (or_redacted operation e)

abbrev pub failure : {D A : Type 0} → Context → String → Exec D A
failure ctx operation = do e ← safe_cause ctx operation; raise e
