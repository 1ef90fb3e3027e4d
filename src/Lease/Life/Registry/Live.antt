-- ===== src/Lease/Life/Registry/Live.antt =====
-- One lease of internal/lease/lease.go through a round of its renewLoop and through Release.
use pgstore.Prelude.{
  ◌≡◌, refl, Bool, true, false, Option, none, some, arith, leb, inl, inr, Bool-cases,
}
use pgstore.Prelude.Int.{ℤ}
use pgstore.Errors.{Error, Result, ok, err}
use pgstore.Driver.{Driver, World, Exec, time_now, caught, pure}
use pgstore.Driver.Triples.{Triple, Always, AnyError, Triple-then, Triple-if}
use pgstore.Storage.{Storage}
use pgstore.Guard.Defs.{Context, bound, ctx_err}
use pgstore.Lease.Sql.{Table}
use pgstore.Lease.{Store, Host, Lease, is_over, release_row, resolve_release, renew_row, observe}
use pgstore.Lease.Life.{
  Wake, stopped, store_closed, expired, renew_due, mark_lost, ended, completed, release,
  release_bound, release_reply, release_failed, release_resolved, renew_round, woken, round_renewed,
  round_over,
}

-- A stopped or released lease is lost.
abbrev pub IsSettled : Lease → Type 0
IsSettled l = (l.done ≡ true → l.lost ≡ true) × (l.released ≡ true → l.lost ≡ true)

-- A select takes the case of `done` only if that is closed, and that of the store's context only if
-- it is canceled.
abbrev pub IsPossible : Bool → Wake → Lease → Type 0
IsPossible canceled wake l =
    (wake ≡ stopped → l.done ≡ true) × (wake ≡ store_closed → canceled ≡ true)

module _ (driver : Driver Table) (storage : Storage) (host : Host) (store : Store) where
  -- A round keeps a lost lease lost, and the loop ends only on one.
  abbrev pub Rounded : Lease → Lease × Bool → World Table → Type 0
  Rounded l (l', goes_on) w =
      IsSettled l' × (goes_on ≡ false → l'.lost ≡ true) × (l.lost ≡ true → l'.lost ≡ true)

  abbrev Rounds : Lease → Exec Table (Lease × Bool) → Type 0
  Rounds l m = Triple Always m (Rounded l) AnyError

  lost-Rounded : (l : Lease) → Rounds l (pure (mark_lost l, false))
  lost-Rounded l = record { at = λ w p. (((λ _. refl), (λ _. refl)), (λ _. refl), (λ _. refl)) }

  round_over-Rounded :
      (l : Lease) (r : Result ℤ) → IsSettled l → Rounds l (round_over driver storage host store l r)
  unfolding round_over time_now
  round_over-Rounded l (err e) h = lost-Rounded l
  round_over-Rounded l (ok remaining) h =
      Triple-if (is_over remaining) _ _ (λ _. lost-Rounded l)
        (λ _. record { at = λ w p. (h, (λ e. absurd (ground arith)), λ e. e) })

  round_renewed-Rounded :
      (l : Lease) (r : Result ℤ)
      → IsSettled l
      → Rounds l (round_renewed driver storage host store l r)
  unfolding round_renewed
  round_renewed-Rounded l (ok remaining) h = round_over-Rounded l (ok remaining) h
  round_renewed-Rounded l (err e) h =
      Triple-then (caught (observe driver storage host store l)) _ λ r. round_over-Rounded l r h

  woken-Rounded :
      (l : Lease) (wake : Wake)
      → IsSettled l
      → (wake ≡ stopped → l.done ≡ true)
      → Rounds l (woken driver storage host store l wake)
  unfolding woken
  woken-Rounded l stopped h q = record { at = λ w p. (h, (λ _. h.0 (q refl)), λ e. e) }
  woken-Rounded l store_closed h q = lost-Rounded l
  woken-Rounded l expired h q = lost-Rounded l
  woken-Rounded l renew_due h q =
      Triple-then (caught (renew_row driver storage host store l)) _
        λ r. round_renewed-Rounded l r h

  pub renew_round-Rounded :
      (l : Lease) (wake : Wake)
      → IsSettled l
      → (wake ≡ stopped → l.done ≡ true)
      → Rounds l (renew_round driver storage host store l wake)
  unfolding renew_round
  renew_round-Rounded l wake h q =
      Triple-if l.released _ _ (λ r. record { at = λ w p. (h, (λ _. h.1 r), λ e. e) })
        (λ _. Triple-then (time_now driver) _ λ now.
          Triple-if (leb l.safe_until now) _ _ (λ _. lost-Rounded l)
            (λ _. woken-Rounded l wake h q))

  -- A Release leaves the lease as it is, or released and lost.
  abbrev pub Released : Lease → Lease × Option Error → World Table → Type 0
  Released l (l', e) w = IsSettled l' × (l'.released ≡ false → l' ≡ l)

  ended-IsSettled : (l : Lease) → IsSettled l → IsSettled (ended l) × ((ended l).released ≡ true)
  ended-IsSettled l h = elim (Bool-cases l.released) [
    | inl r ↦ rw r (((λ d. h.0 d), (λ _. h.1 r)), refl)
    | inr r ↦ rw r (((λ _. refl), (λ _. refl)), refl)
  ]

  release_bound-Released :
      (l : Lease) (r : Result Context)
      → IsSettled l
      → Triple Always (release_bound driver storage host store l r) (Released l) AnyError
  unfolding release_bound release_reply release_failed release_resolved
  release_bound-Released l (err e) h = record { at = λ w p. (h, λ _. refl) }
  release_bound-Released l (ok ctx) h =
      Triple-if l.release_complete _ _ (λ _. record { at = λ w p. (h, λ _. refl) })
        (λ _.
          Triple-then (caught (release_row driver storage host store (ended l))) _ λ r. replied r)
    where
      over : IsSettled (ended l) × ((ended l).released ≡ true)
      over = ended-IsSettled l h

      released_now : (ended l).released ≡ false → ended l ≡ l
      released_now f = absurd (ground (arith, over.1))

      completed_now : (ended l).released ≡ false → completed (ended l) ≡ l
      completed_now f = absurd (ground (arith, over.1))

      resolved :
          (r : Result (Unit {0}))
          → Triple Always
              (release_resolved driver storage host store (ended l) r)
              (Released l)
              AnyError
      resolved (ok _) = record { at = λ w p. (over.0, completed_now) }
      resolved (err e) = record { at = λ w p. (over.0, released_now) }

      failed_with :
          (c : Option Error)
          → Triple Always
              (release_failed driver storage host store (ended l) c)
              (Released l)
              AnyError
      failed_with (some e) = record { at = λ w p. (over.0, released_now) }
      failed_with none =
          Triple-then (caught (resolve_release driver storage host store (ended l))) _ resolved

      replied :
          (r : Result (Unit {0}))
          → Triple Always
              (release_reply driver storage host store ctx (ended l) r)
              (Released l)
              AnyError
      replied (ok _) = record { at = λ w p. (over.0, completed_now) }
      replied (err e) = Triple-then (ctx_err ctx) _ failed_with

  pub release-Released :
      (ctx : Option Context) (l : Lease)
      → IsSettled l
      → Triple Always (release driver storage host store ctx l) (Released l) AnyError
  unfolding release
  release-Released ctx l h =
      Triple-then (caught (bound driver ctx "Lease.Release" store.operation_timeout)) _
        λ r. release_bound-Released l r h
