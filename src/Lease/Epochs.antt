-- ===== src/Lease/Epochs.antt =====
-- What Acquire of internal/lease/lease.go guarantees: one grant at most, the row behind a lease that
-- it returns, epochs that only grow, and no grant while another holds the lease.
use pgstore.Prelude.{
  ℕ, suc, ◌≤◌, ◌<◌, ◌≡◌, ◌≢◌, refl, ◌∙◌, sym, ap, true, false, Option, some, List, [], ◌∷◌, arith,
  ◌⊎◌, inl, inr, Bool-cases, ◌+◌, ◌*◌,
}
use pgstore.Text.{Text, Bytes, text_eq, text_eq_iff}
use pgstore.Errors.{Result, ok, err}
use pgstore.Driver.{Driver, World}
use pgstore.Driver.Triples.{Post, Post-ok}
use pgstore.Storage.{Storage}
use pgstore.Guard.Defs.{Context}
use pgstore.Lease.Sql.{Table, find_lease, set_lease, with_lease}
use pgstore.Lease.Grants.{
  Grants, here, other, grant, epoch_at, lease_at, held_at, granted, lease_at-granted,
}
use pgstore.Lease.Acquire.{Acquired, Once, acquire-Acquired}
use pgstore.Lease.{Store, Host, Lease, acquire, milliseconds}

epoch_at-set_lease :
    (k j : Text) (epoch : ℕ) (holder : Bytes) (expires_at : Option ℕ) (d : Table)
    → text_eq k j ≡ false
    → epoch_at (set_lease k epoch holder expires_at d) j ≡ epoch_at d j
unfolding find_lease set_lease
epoch_at-set_lease k j epoch holder expires_at [] other_name = refl
epoch_at-set_lease k j epoch holder expires_at (x ∷ xs) other_name = ground (
  arith,
  epoch_at-set_lease k j epoch holder expires_at xs other_name,
  text_eq_iff x.name k,
  text_eq_iff x.name j,
  text_eq_iff k j,
)

epoch_at-with_lease : (k j : Text) (d : Table) → epoch_at (with_lease k d) j ≡ epoch_at d j
unfolding find_lease
epoch_at-with_lease k j d = ground (arith, text_eq_iff k j)

lease_at-epoch : (d : Table) (name : Text) → (lease_at d name).0 ≡ epoch_at d name
lease_at-epoch d name = ground arith

-- A grant of a name takes its next epoch.
epoch_at-granted_own :
    (name : Text) (holder : List ℕ) (expires_at : ℕ) (d : Table)
    → epoch_at (granted name holder expires_at d) name ≡ suc (epoch_at d name)
epoch_at-granted_own name holder expires_at d =
    sym (lease_at-epoch (granted name holder expires_at d) name)
    ∙ ap (λ (x : ℕ × List ℕ). x.0) (lease_at-granted name holder expires_at d)

epoch_at-granted :
    (k j : Text) (holder : List ℕ) (expires_at : ℕ) (d : Table)
    → epoch_at d j ≤ epoch_at (granted k holder expires_at d) j
epoch_at-granted k j holder expires_at d = elim (Bool-cases (text_eq k j)) [
  | inl e ↦ rw (← (text_eq_iff k j).0 e, epoch_at-granted_own k holder expires_at d) (omega arith)
  | inr e ↦
      rw
        (
          epoch_at-set_lease k j (suc (epoch_at d k)) (some holder) (some expires_at)
              (with_lease k d) e,
          epoch_at-with_lease k j d,
        )
        (omega arith)
]

module _ (driver : Driver Table) (host : Host) (name : Text) (ms : ℕ) (start : Table) where
  epoch_at-Grants :
      (j : Text)
      → ((n : ℕ) (d : Table) → epoch_at d j ≤ epoch_at (driver.others n d) j)
      → {k : ℕ} {d : Table} → Grants driver host name ms start k d
      → epoch_at start j ≤ epoch_at d j
  epoch_at-Grants j grow here = omega arith
  epoch_at-Grants j grow (other {d = d} n g) = omega (arith, epoch_at-Grants j grow g, grow n d)
  epoch_at-Grants j grow (grant {d = d} {holder = holder} i n m drawn vacant g) = omega (
    arith,
    epoch_at-Grants j grow g,
    epoch_at-granted name j holder (host.after (driver.server_clock m) + ms * 1000000) d,
  )

  -- No grant is made while the lease is held.
  Grants-held :
      (P : Table → Type 0)
      → ((n : ℕ) (d : Table) → P d → P (driver.others n d))
      → ((n : ℕ) (d : Table) → P d → held_at d name (driver.server_clock n) ≡ true)
      → P start
      → {k : ℕ} {d : Table} → Grants driver host name ms start k d
      → (k ≡ 0) × P d
  Grants-held P keep held p here = (refl, p)
  Grants-held P keep held p (other {d = d} n g) =
      let (none_yet, q) = Grants-held P keep held p g in (none_yet, keep n d q)
  Grants-held P keep held p (grant {d = d} i n m drawn vacant g) =
      let (none_yet, q) = Grants-held P keep held p g in absurd (clash (sym (held n d q) ∙ vacant))
    where
      clash : true ≡ false → ⊥
      clash h = cc

module _ (driver : Driver Table) (storage : Storage) (host : Host) (s : Store) where
  acquired :
      (ctx : Option Context) (name : Text) (w : World Table)
      → Post
          (Acquired driver storage host s name w.db)
          (λ _. Once driver storage host s name w.db)
          (acquire driver storage host s ctx name w)
  acquired ctx name w = (acquire-Acquired driver storage host s name w.db ctx).at w here

  -- An Acquire moves the committed table by at most one whole grant of the lease, made when the
  -- lease was seen vacant and at its next epoch, and by what others commit: through every failure
  -- and lost answer.
  pub acquire_once_at_most :
      (ctx : Option Context) (name : Text) (w : World Table)
      → let after = (acquire driver storage host s ctx name w).1.db in
        (Grants driver host name (milliseconds s.lease_ttl) w.db 0 after)
        ⊎ (Grants driver host name (milliseconds s.lease_ttl) w.db 1 after)
  acquire_once_at_most ctx name w = moved _ (acquired ctx name w)
    where
      moved :
          (r : Result Lease × World Table)
          → Post
              (Acquired driver storage host s name w.db)
              (λ _. Once driver storage host s name w.db)
              r
          → Once driver storage host s name w.db r.1
      moved (ok l, w') h = h.0.0
      moved (err e, w') h = h

  -- When Acquire returns a lease, the row of the name has its epoch and its holder's token, whatever
  -- the driver reported and whatever others commit meanwhile.
  pub acquire_acknowledged :
      (ctx : Option Context) (name : Text) (w : World Table) (l : Lease)
      → (acquire driver storage host s ctx name w).0 ≡ ok l
      → lease_at (acquire driver storage host s ctx name w).1.db name ≡ (l.epoch, l.holder)
  acquire_acknowledged ctx name w l h =
      (Post-ok (Acquired driver storage host s name w.db) _ _ l (acquired ctx name w) h).1

  -- If the other clients never lower an epoch, a lease that Acquire returns has a larger epoch than
  -- every lease of the name before the call.
  pub acquire_fences :
      (ctx : Option Context) (name : Text) (w : World Table) (l : Lease)
      → ((n : ℕ) (d : Table) → epoch_at d name ≤ epoch_at (driver.others n d) name)
      → (acquire driver storage host s ctx name w).0 ≡ ok l
      → epoch_at w.db name < l.epoch
  acquire_fences ctx name w l grow h =
      let (d, g, e) =
        (Post-ok (Acquired driver storage host s name w.db) _ _ l (acquired ctx name w) h).0.1 in
      omega (arith, e, epoch_at-Grants driver host name (milliseconds s.lease_ttl) w.db name grow g)

  -- Acquire of one name never lowers the epoch of any name, if the other clients do not.
  pub acquire_epochs :
      (ctx : Option Context) (name j : Text) (w : World Table)
      → ((n : ℕ) (d : Table) → epoch_at d j ≤ epoch_at (driver.others n d) j)
      → epoch_at w.db j ≤ epoch_at (acquire driver storage host s ctx name w).1.db j
  acquire_epochs ctx name j w grow = elim (acquire_once_at_most ctx name w) [
    | inl g ↦ epoch_at-Grants driver host name (milliseconds s.lease_ttl) w.db j grow g
    | inr g ↦ epoch_at-Grants driver host name (milliseconds s.lease_ttl) w.db j grow g
  ]

  -- While a lease of the name is held at some epoch, at every reading of the server's clock and
  -- through what the others commit, Acquire returns no lease and leaves it held at that epoch.
  pub acquire_excludes :
      (ctx : Option Context) (name : Text) (w : World Table) (epoch : ℕ)
      → let Held = λ (d : Table).
        (epoch_at d name ≡ epoch) × ((n : ℕ) → held_at d name (driver.server_clock n) ≡ true) in
        ((n : ℕ) (d : Table) → Held d → Held (driver.others n d))
        → Held w.db
        → Held (acquire driver storage host s ctx name w).1.db
          × ((l : Lease) → (acquire driver storage host s ctx name w).0 ≢ ok l)
  acquire_excludes ctx name w epoch keep held = (kept (acquire_once_at_most ctx name w), refused)
    where
      Held : Table → Type 0
      Held d = (epoch_at d name ≡ epoch) × ((n : ℕ) → held_at d name (driver.server_clock n) ≡ true)

      still :
          {k : ℕ} {d : Table}
          → Grants driver host name (milliseconds s.lease_ttl) w.db k d
          → (k ≡ 0) × Held d
      still g =
          Grants-held driver host name (milliseconds s.lease_ttl) w.db Held keep (λ n d h. h.1 n)
            held g

      kept :
          Once driver storage host s name w.db (acquire driver storage host s ctx name w).1
          → Held (acquire driver storage host s ctx name w).1.db
      kept (inl g) = (still g).1
      kept (inr g) = (still g).1

      refused : (l : Lease) → (acquire driver storage host s ctx name w).0 ≢ ok l
      refused l h =
          let (d, g, e) =
            (Post-ok (Acquired driver storage host s name w.db) _ _ l (acquired ctx name w)
              h).0.1 in
          let row = acquire_acknowledged ctx name w l h in
          let epoch_after = (kept (acquire_once_at_most ctx name w)).0 in
          let before = (still g).1.0 in
          let named = lease_at-epoch (acquire driver storage host s ctx name w).1.db name in
          omega (arith, e, ap (λ (x : ℕ × List ℕ). x.0) row, named, epoch_after, before)
