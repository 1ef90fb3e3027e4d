-- ===== src/Guard.antt =====
-- internal/guard/guard.go: `Defs` has contexts and the default bound on an operation; this file
-- has the rule for the lines that open every operation.
pub mod Defs
use pgstore.Prelude.{ℕ, ◌+◌, ◌≡◌, refl, Option, none, some, String, arith, leb, if◌then◌else◌}
use pgstore.Text.{Text}
use pgstore.Errors.{Error, Result, ok, err, deadline_required, deadline_exceeded}
use pgstore.Driver.{Driver, World, Exec, checked, ◌>>=◌, ◌>>◌}
use pgstore.Driver.Triples.{Triple, Always, AnyError, Post}
use pgstore.Guard.Defs.{Context, bound, with_timeout}

module _ {D A : Type 0} (driver : Driver D) where
  -- `Bound`, then a check of the arguments, then the body: what holds at the start holds of the
  -- body's start and of each early return.
  pub Triple-entry :
      {P : World D → Type 0} {Q : A → World D → Type 0} {E : Error → World D → Type 0}
      (ctx : Option Context) (operation : String) (timeout : ℕ) (check : Option Error)
      (body : Context → Exec D A)
      → ((w : World D) (n : ℕ) → P w → P (record w { now = n }))
      → ((e : Error) (w : World D) → P w → E e w)
      → ((c : Context) → Triple P (body c) Q E)
      → Triple P (bound driver ctx operation timeout >>= λ c. checked check >> body c) Q E
  unfolding bound
  Triple-entry none operation timeout check body still quit t = record { at = λ w p. quit _ w p }
  Triple-entry (some ctx) operation timeout none body still quit t = record {
    at = λ w p. (t _).at _ (still w _ p);
  }
  Triple-entry (some ctx) operation timeout (some e) body still quit t = record {
    at = λ w p. quit e _ (still w _ p);
  }
