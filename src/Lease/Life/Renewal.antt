-- ===== src/Lease/Life/Renewal.antt =====
-- renewRow, observe and a round of renewLoop of internal/lease/lease.go.
use pgstore.Prelude.{
  ℕ, ◌*◌, ◌+◌, ◌≡◌, refl, Bool, true, false, not, some, List, arith, leb, ◌⊎◌, inl, inr,
  Option-cases,
}
use pgstore.Prelude.Int.{ℤ}
use pgstore.Text.{Text, content, text_eq_iff}
use pgstore.Errors.{Result, ok, err, lease_lost}
use pgstore.Driver.{
  Driver, World, raise, pure, arrive, commit_tx, update_query, pool_query, tables_of, time_now,
}
use pgstore.Driver.Triples.{
  Triple, Always, AnyError, Post, Triple-bind, Triple-try, Triple-if, Triple-always,
}
use pgstore.Driver.Rules.{
  Triple-begin, Triple-commit, Triple-tx, Triple-update, Triple-rollback, Triple-pool,
}
use pgstore.Postgres.{set_local_timeouts}
use pgstore.Storage.{Storage}
use pgstore.Lease.Sql.{Table, Seen, find_lease, renew_lease, select_lease}
use pgstore.Lease.Grants.{lease_at, lease_at-set_lease, select_lease-ok, tables_of-select}
use pgstore.Lease.Life.{
  Wake, mark_lost, stopped, store_closed, expired, renew_due, renew_round, woken, round_renewed,
  round_over,
}
use pgstore.Lease.{
  Store, Host, Lease, renew_row, renew_committed, observe, observe_reply, conservative_remaining,
  is_ours, is_over, or_zero, milliseconds,
}

renew_lease-ok :
    (after : ℕ → ℕ) (name : Text) (epoch : ℕ) (holder : List ℕ) (ms clock : ℕ) (x d : Table)
    (times : ℕ × ℕ)
    → renew_lease after name epoch holder ms clock x ≡ ok (times, d)
    → lease_at (tables_of x (renew_lease after name epoch holder ms clock x)) name ≡ (epoch, holder)
renew_lease-ok after name epoch holder ms clock x d times h =
    elim (Option-cases (find_lease name x)) [
      | inl e ↦ absurd (ground (arith, e))
      | inr (r, e) ↦
          ground (
            arith,
            e,
            lease_at-set_lease name epoch holder (some (after clock + ms * 1000000)) x r e,
          )
    ]

module _ (driver : Driver Table) (storage : Storage) (host : Host) (s : Store) (l : Lease) where
  -- The row has the lease's epoch and token.
  abbrev pub Backed : World Table → Type 0
  Backed w = lease_at w.db l.name ≡ (l.epoch, l.holder)

  abbrev Open : World Table → Type 0
  Open w = ((d : Table) → w.writes d ≡ d) × (w.locked ≡ false)

  abbrev Renewed : World Table → Type 0
  Renewed w = (w.locked ≡ true) × (lease_at (w.writes w.db) l.name ≡ (l.epoch, l.holder))

  renew-Renewed :
      Triple Open
        (update_query driver
          (λ _. true)
          (renew_lease host.after l.name l.epoch l.holder (milliseconds s.lease_ttl)))
        (λ _. Renewed)
        AnyError
  renew-Renewed = Triple-update driver _ _ (
      Triple-tx driver (renew_lease host.after l.name l.epoch l.holder (milliseconds s.lease_ttl))
        (λ w times d p h. (
          rw p.1 refl,
          rw p.0 (
              renew_lease-ok host.after l.name l.epoch l.holder (milliseconds s.lease_ttl)
                (driver.server_clock w.now) (arrive driver w).db d times (rw p.0 at h)),
        ))
        (λ e w p. tt) (λ e w p. tt))

  renew_row-Backed : Triple Always (renew_row driver storage host s l) (λ _. Backed) AnyError
  unfolding renew_row set_local_timeouts time_now renew_committed conservative_remaining
  renew_row-Backed = Triple-rollback driver _ (
      Triple-bind (λ _. Open) _ _ (Triple-begin driver (λ w p. (λ d. refl, refl)) (λ e w p. tt))
        λ _.
          Triple-bind (λ _. Open) _ _
            (Triple-tx driver (λ clock d. ok (tt, d)) (λ w a d p h. p) (λ e w p. tt) (λ e w p. tt))
            λ _.
              Triple-bind (λ _. Open) (time_now driver) _ (record { at = λ w p. p })
                λ started. Triple-bind _ _ _ renew-Renewed λ times.
                  Triple-bind (λ _. Backed) (commit_tx driver)
                    (λ _. conservative_remaining driver storage host s started times.0 times.1)
                    (Triple-commit driver (λ w p. rw p.0 p.1) (λ f w p. tt) (λ f w p o. tt))
                    λ _. record { at = λ w p. p })

  -- What the observed row is.
  abbrev Observed : Seen → World Table → Type 0
  Observed seen w = lease_at w.db l.name ≡ (seen.epoch, content seen.holder)

  observe-Backed : Triple Always (observe driver storage host s l) (λ _. Backed) AnyError
  unfolding observe time_now observe_reply conservative_remaining
  observe-Backed =
      Triple-bind (λ _. Always) (time_now driver) _ (record { at = λ w p. p })
        λ started.
          Triple-bind Observed (pool_query driver (select_lease l.name)) _
            (Triple-pool driver (select_lease l.name)
              (λ w seen d p h.
                let (r, found, e) = select_lease-ok l.name _ _ d seen h in
                rw
                  (
                    tables_of-select l.name (driver.server_clock w.now) (arrive driver w).db,
                    found,
                    e,
                  )
                  refl)
              (λ e w p. tt) (λ e w p. tt))
            λ seen.
              Triple-if (not (is_ours l.epoch l.holder seen)) (raise (lease_lost l.name l.epoch))
                (conservative_remaining driver storage host s started (or_zero seen.expires_at)
                  seen.database_now)
                (λ _. record { at = λ w p. tt })
                λ ours. record {
                  at = λ w p. ground (arith, ours, p, text_eq_iff (content seen.holder) l.holder);
                }

  -- How a round ends: with a proven row, or with the lease lost, or because it was being released.
  abbrev Ended : Wake → Lease × Bool → World Table → Type 0
  Ended wake (l', again) w =
      ((again ≡ true) × (l.released ≡ false) × Backed w)
      ⊎ ((again ≡ false) × ((l'.lost ≡ true) ⊎ ((l.released ≡ true) ⊎ (wake ≡ stopped))))

  round_over-Ended :
      (wake : Wake) (r : Result ℤ) (P : World Table → Type 0)
      → l.released ≡ false
      → ((remaining : ℤ) (w : World Table) → r ≡ ok remaining → P w → Backed w)
      → Triple P (round_over driver storage host s l r) (Ended wake) (λ _ _. ⊥)
  unfolding round_over time_now
  round_over-Ended wake (err e) P live backed = record { at = λ w p. inr (refl, inl refl) }
  round_over-Ended wake (ok remaining) P live backed =
      Triple-if (is_over remaining) _ _ (λ _. record { at = λ w p. inr (refl, inl refl) })
        λ _. record { at = λ w p. inl (refl, live, backed remaining w refl p) }

  woken-Ended :
      (wake : Wake)
      → l.released ≡ false
      → Triple Always (woken driver storage host s l wake) (Ended wake) (λ _ _. ⊥)
  unfolding woken round_renewed
  woken-Ended stopped live = record { at = λ w p. inr (refl, inr (inr refl)) }
  woken-Ended store_closed live = record { at = λ w p. inr (refl, inl refl) }
  woken-Ended expired live = record { at = λ w p. inr (refl, inl refl) }
  woken-Ended renew_due live =
      Triple-try (λ _. Backed) AnyError (renew_row driver storage host s l)
        (round_renewed driver storage host s l) renew_row-Backed
        (λ remaining. round_over-Ended renew_due (ok remaining) Backed live (λ _ w _ p. p))
        λ e. Triple-always _ (
          Triple-try (λ _. Backed) AnyError (observe driver storage host s l)
            (round_over driver storage host s l) observe-Backed
            (λ remaining. round_over-Ended renew_due (ok remaining) Backed live (λ _ w _ p. p))
            λ x. round_over-Ended renew_due (err x) Always live (λ _ w h p. absurd (cc)))

  renew_round-Ended :
      (wake : Wake)
      → Triple Always (renew_round driver storage host s l wake) (Ended wake) (λ _ _. ⊥)
  unfolding renew_round time_now
  renew_round-Ended wake =
      Triple-if l.released _ _ (λ done. record { at = λ w p. inr (refl, inr (inl done)) })
        λ live.
          Triple-bind (λ _. Always) (time_now driver) _ (record { at = λ w p. p })
            λ now.
              Triple-if (leb l.safe_until now) (pure (mark_lost l, false)) _
                (λ _. record { at = λ w p. inr (refl, inl refl) }) λ _. woken-Ended wake live

  -- A round of the renewal loop never fails, and it ends in one of two ways: the loop goes on, the
  -- lease was not released, and the row has its epoch and token; or the loop stops, and the lease is
  -- marked lost unless it was released or stopped. This whatever the driver reports.
  pub renew_round_lem :
      (wake : Wake) (w : World Table)
      → (l' : Lease) × (again : Bool) × ((renew_round driver storage host s l wake w).0
          ≡ ok (l', again))
        × (((again ≡ true)
              × (l.released ≡ false)
              × (lease_at (renew_round driver storage host s l wake w).1.db l.name
                  ≡ (l.epoch, l.holder)))
            ⊎ ((again ≡ false) × ((l'.lost ≡ true) ⊎ ((l.released ≡ true) ⊎ (wake ≡ stopped)))))
  renew_round_lem wake w = split _ ((renew_round-Ended wake).at w tt)
    where
      split :
          (run : Result (Lease × Bool) × World Table)
          → Post (Ended wake) (λ _ _. ⊥) run
          → (l' : Lease) × (again : Bool) × (run.0 ≡ ok (l', again)) × Ended wake (l', again) run.1
      split (ok (l', again), w') h = (l', again, refl, h)
      split (err e, w') h = absurd h
