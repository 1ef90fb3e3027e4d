-- ===== src/Lease/Acquire.antt =====
-- Acquire of internal/lease/lease.go, and the reread after an unknown commit.
use pgstore.Prelude.{
  ℕ, suc, ◌≡◌, refl, ap, sym, ◌∙◌, Option, some, List, arith, ◌==◌, ◌⊎◌, inl, inr, Option-cases,
}
use pgstore.Text.{Text, content, text_eq_iff}
use pgstore.Errors.{ok}
use pgstore.Driver.{Driver, World, Exec, arrive, committed, commit_tx, pool_query, time_now}
use pgstore.Driver.Triples.{Triple, Triple-bind, Triple-try, Triple-if}
use pgstore.Driver.Rules.{Triple-commit, Triple-rollback, Triple-pool}
use pgstore.Storage.{Storage}
use pgstore.Guard.{Triple-entry}
use pgstore.Guard.Defs.{Context}
use pgstore.Lease.Sql.{Table, Seen, bigint_max, select_lease}
use pgstore.Lease.Grants.{
  Grants, grant, Moved, Locked, Vacant, Taken, epoch_at, lease_at, arrive-Moved, begin-Open,
  limits-Open, insert-Open, select-Locked, grant-Taken, lease_at-granted, select_lease-ok,
  tables_of-select,
}
use pgstore.Lease.{
  Store, Host, Lease, acquire, acquire_token, acquire_seen, take_over, acquire_reply,
  resolve_acquire, proven_lease, attempted, new_lease, or_fail, resolve_acquire_reply, is_ours,
  or_zero, conservative_remaining, draw, is_held, milliseconds,
}

module _ (driver : Driver Table) (storage : Storage) (host : Host) (s : Store) (name : Text)
    (start : Table) where
  Start : ℕ → World Table → Type 0
  Start = Moved driver host s name start

  -- At most one grant.
  abbrev pub Once : World Table → Type 0
  Once w = Moved driver host s name start 0 w ⊎ Moved driver host s name start 1 w

  -- The epoch follows one that the table had before any grant of this call.
  abbrev Follows : ℕ → Type 0
  Follows epoch =
      (d : Table) × Grants driver host name (milliseconds s.lease_ttl) start 0 d
      × (epoch ≡ suc (epoch_at d name))

  abbrev Unknown : ℕ → World Table → Type 0
  Unknown epoch w = Once w × Follows epoch

  -- What a lease that Acquire returns says of the table.
  abbrev pub Acquired : Lease → World Table → Type 0
  Acquired l w = Unknown l.epoch w × (lease_at w.db name ≡ (l.epoch, l.holder))

  attempted-Once :
      {A : Type 0} {P : World Table → Type 0} {Q : A → World Table → Type 0} (ctx : Context)
      (m : Exec Table A)
      → Triple P m Q (λ _. Moved driver host s name start 0)
      → Triple P (attempted driver storage host s ctx m) Q (λ _. Once)
  unfolding attempted
  attempted-Once {P} {Q} ctx m t =
      Triple-try Q (λ _. Moved driver host s name start 0) m (or_fail driver storage host s ctx) t
        (λ a. record { at = λ w h. h }) λ e. record { at = λ w h. inl h }

  proven_lease-Acquired :
      (epoch : ℕ) (holder : List ℕ) (proof_started expires_at database_now : ℕ)
      → Triple
          (λ w. Unknown epoch w × (lease_at w.db name ≡ (epoch, holder)))
          (proven_lease driver storage host s name epoch holder proof_started expires_at
            database_now)
          Acquired
          (λ _. Once)
  unfolding proven_lease conservative_remaining new_lease time_now
  proven_lease-Acquired epoch holder proof_started expires_at database_now = record {
    at = λ w h. h;
  }

  arrive-Once : (w : World Table) → Once w → Once (arrive driver w)
  arrive-Once w (inl m) = inl (arrive-Moved driver host s name start 0 w m)
  arrive-Once w (inr m) = inr (arrive-Moved driver host s name start 1 w m)

  -- What the reread shows.
  abbrev Reread : ℕ → Seen → World Table → Type 0
  Reread epoch seen w = Unknown epoch w × (lease_at w.db name ≡ (seen.epoch, content seen.holder))

  select-Reread :
      (epoch : ℕ)
      → Triple (Unknown epoch) (pool_query driver (select_lease name)) (Reread epoch) (λ _. Once)
  select-Reread epoch =
      Triple-pool driver (select_lease name)
        (λ w seen d p h.
          let (r, found, e) = select_lease-ok name _ _ d seen h in
          rw (tables_of-select name (driver.server_clock w.now) (arrive driver w).db, found, e)
            ((arrive-Once w p.0, p.1), refl))
        (λ e w p.
          rw (tables_of-select name (driver.server_clock w.now) (arrive driver w).db)
            (arrive-Once w p.0))
        (λ e w p. arrive-Once w p.0)

  resolve_acquire_reply-Acquired :
      (epoch : ℕ) (holder : List ℕ) (proof_started : ℕ) (seen : Seen)
      → Triple
          (Reread epoch seen)
          (resolve_acquire_reply driver storage host s name epoch holder proof_started (ok seen))
          Acquired
          (λ _. Once)
  unfolding resolve_acquire_reply
  resolve_acquire_reply-Acquired epoch holder proof_started seen =
      Triple-if (is_ours epoch holder seen) _ _
        (λ ours. record {
          at = λ w p.
              (proven_lease-Acquired epoch holder proof_started (or_zero seen.expires_at)
                  seen.database_now).at
                w (p.0, ground (arith, ours, p.1, text_eq_iff (content seen.holder) holder));
        })
        λ _. record { at = λ w p. ground (arith, p.0) }

  resolve_acquire-Acquired :
      (epoch : ℕ) (holder : List ℕ)
      → Triple
          (Unknown epoch)
          (resolve_acquire driver storage host s name epoch holder)
          Acquired
          (λ _. Once)
  unfolding resolve_acquire time_now
  resolve_acquire-Acquired epoch holder =
      Triple-bind (λ _. Unknown epoch) (time_now driver) _ (record { at = λ w p. p })
        λ proof_started.
          Triple-try (Reread epoch) (λ _. Once) (pool_query driver (select_lease name))
            (resolve_acquire_reply driver storage host s name epoch holder proof_started)
            (select-Reread epoch) (resolve_acquire_reply-Acquired epoch holder proof_started)
            λ e. record { at = λ w p. p }

  commit-Taken :
      (epoch : ℕ) (holder : List ℕ) (i : ℕ)
      → host.token i ≡ some holder
      → Triple
          (Taken driver host s name start epoch holder)
          (commit_tx driver)
          (λ _ w. Unknown epoch w × (lease_at w.db name ≡ (epoch, holder)))
          (λ _. Unknown epoch)
  commit-Taken epoch holder i drawn =
      Triple-commit driver (λ w p. made w p)
        (λ f w p. (inl (arrive-Moved driver host s name start 0 w p.0), (w.db, p.0, p.2)))
        (λ f w p o. (made w p).0)
    where
      made :
          (w : World Table)
          → Taken driver host s name start epoch holder w
          → Unknown epoch (committed driver (arrive driver w))
            × (lease_at (committed driver (arrive driver w)).db name ≡ (epoch, holder))
      made w (m, l, e, n, vacant, k, writes) =
          rw (l, writes)
            (
              (inr (grant i n k drawn vacant m), (w.db, m, e)),
              rw e (lease_at-granted name holder _ w.db),
            )

  take_over-Acquired :
      (ctx : Context) (epoch : ℕ) (holder : List ℕ) (i : ℕ)
      → host.token i ≡ some holder
      → Triple
          (Vacant driver host s name start epoch)
          (take_over driver storage host s ctx name epoch holder)
          Acquired
          (λ _. Once)
  unfolding take_over time_now acquire_reply
  take_over-Acquired ctx epoch holder i drawn =
      Triple-bind (λ _. Vacant driver host s name start epoch) (time_now driver) _
        (record { at = λ w p. p })
        λ proof_started.
          Triple-bind (λ _. Taken driver host s name start epoch holder) _ _
            (attempted-Once ctx _ (grant-Taken driver host s name start epoch holder))
            λ times.
              Triple-try (λ _ w. Unknown epoch w × (lease_at w.db name ≡ (epoch, holder)))
                (λ _. Unknown epoch) (commit_tx driver)
                (acquire_reply driver storage host s name epoch holder proof_started times)
                (commit-Taken epoch holder i drawn)
                (λ _. proven_lease-Acquired epoch holder proof_started times.0 times.1)
                λ e. resolve_acquire-Acquired epoch holder

  acquire_seen-Acquired :
      (ctx : Context) (holder : List ℕ) (i : ℕ) (seen : Seen)
      → host.token i ≡ some holder
      → Triple
          (Locked driver host s name start seen)
          (acquire_seen driver storage host s ctx name holder seen)
          Acquired
          (λ _. Once)
  unfolding acquire_seen
  acquire_seen-Acquired ctx holder i seen drawn =
      Triple-if (is_held seen) _ _ (λ _. record { at = λ w p. inl p.0 })
        λ vacant.
          Triple-if (seen.epoch == bigint_max) _ _ (λ _. record { at = λ w p. inl p.0 })
            λ _. record {
              at = λ w p.
                  (take_over-Acquired ctx (suc seen.epoch) holder i drawn).at w
                    (p.0, p.1, p.2, ap suc p.3, p.4, sym p.5 ∙ vacant);
            }

  acquire_token-Acquired :
      (ctx : Context) (i : ℕ)
      → Triple
          (Moved driver host s name start 0)
          (acquire_token driver storage host s ctx name (host.token i))
          Acquired
          (λ _. Once)
  unfolding acquire_token
  acquire_token-Acquired ctx i = elim (Option-cases (host.token i)) [
    | inl e ↦ rw e (record { at = λ w p. inl p })
    | inr (holder, e) ↦ rw e (
        Triple-rollback driver _ (
          Triple-bind _ _ _ (attempted-Once ctx _ (begin-Open driver host s name start)) λ _.
            Triple-bind _ _ _ (attempted-Once ctx _ (limits-Open driver host s name start)) λ _.
              Triple-bind _ _ _ (attempted-Once ctx _ (insert-Open driver host s name start)) λ _.
                Triple-bind _ _ _ (attempted-Once ctx _ (select-Locked driver host s name start))
                  λ seen. acquire_seen-Acquired ctx holder i seen e))
  ]

  pub acquire-Acquired :
      (ctx : Option Context)
      → Triple
          (Moved driver host s name start 0)
          (acquire driver storage host s ctx name)
          Acquired
          (λ _. Once)
  unfolding acquire draw
  acquire-Acquired ctx =
      Triple-entry driver ctx "Leaser.Acquire" s.operation_timeout (storage.validate_name name) _
        (λ w n p. p) (λ e w p. inl p)
        λ c. record { at = λ w p. (acquire_token-Acquired c w.now).at w p }
