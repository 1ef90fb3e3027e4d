-- ===== src/Lease/Grants.antt =====
-- How an Acquire of internal/lease/lease.go moves the committed table: by whole grants, each of a
-- vacant lease at the next epoch, between what other clients commit.
use pgstore.Prelude.{
  ℕ, zero, suc, ◌+◌, ◌*◌, ◌≡◌, refl, ap, ◌∙◌, Bool, true, false, Option, none, some, List, [], ◌∷◌,
  arith, ltb, inl, inr, Bool-cases, Option-cases,
}
use pgstore.Text.{Text, Bytes, content, text_eq_iff}
use pgstore.Errors.{ok}
use pgstore.Driver.{Driver, World, arrive, tables_of, tx_query, lock_query, begin_tx}
use pgstore.Driver.Triples.{Triple}
use pgstore.Driver.Rules.{Triple-begin, Triple-tx, Triple-lock}
use pgstore.Postgres.{set_local_timeouts}
use pgstore.Lease.Sql.{
  Row, Table, Seen, find_lease, set_lease, with_lease, insert_lease, select_lease, seen_row,
  grant_lease,
}
use pgstore.Lease.{Store, Host, is_held, milliseconds}

abbrev epoch_of : Option Row → ℕ
epoch_of none = 0
epoch_of (some r) = r.epoch

-- The epoch of a name: 0 where it has never been leased.
abbrev pub epoch_at : Table → Text → ℕ
epoch_at d name = epoch_of (find_lease name d)

-- The epoch and the holder's token of a name.
abbrev lease_of : Option Row → ℕ × List ℕ
lease_of none = (0, [])
lease_of (some r) = (r.epoch, content r.holder)

abbrev pub lease_at : Table → Text → ℕ × List ℕ
lease_at d name = lease_of (find_lease name d)

abbrev leased : Bytes → Option ℕ → ℕ → Bool
leased none expires_at clock = false
leased (some h) none clock = false
leased (some h) (some t) clock = ltb clock t

abbrev held : ℕ → Option Row → Bool
held clock none = false
held clock (some r) = leased r.holder r.expires_at clock

-- Someone has the lease of a name at a clock reading: a holder, and an expiry beyond it.
abbrev pub held_at : Table → Text → ℕ → Bool
held_at d name clock = held clock (find_lease name d)

-- The table after a grant of a name to a holder: the next epoch, and the row's new expiry.
abbrev pub granted : Text → List ℕ → ℕ → Table → Table
granted name holder expires_at d =
    set_lease name (suc (epoch_at d name)) (some holder) (some expires_at) (with_lease name d)

pub lease_at-set_lease :
    (name : Text) (epoch : ℕ) (holder : List ℕ) (expires_at : Option ℕ) (d : Table) (r : Row)
    → find_lease name d ≡ some r
    → lease_at (set_lease name epoch (some holder) expires_at d) name ≡ (epoch, holder)
unfolding find_lease set_lease
lease_at-set_lease name epoch holder expires_at [] r h = absurd (cc)
lease_at-set_lease name epoch holder expires_at (x ∷ xs) r h =
    ground (arith, lease_at-set_lease name epoch holder expires_at xs r, text_eq_iff x.name name)

find-with_lease :
    (name : Text) (d : Table) → (r : Row) × (find_lease name (with_lease name d) ≡ some r)
unfolding find_lease
find-with_lease name d = elim (Option-cases (find_lease name d)) [
  | inl e ↦ rw e (
    record { name = name; epoch = 0; holder = none; expires_at = none; revision = 0 },
    ground (arith, text_eq_iff name name),
  )
  | inr (r, e) ↦ rw e (r, e)
]

-- What the transaction reads after its insert is what the table shows.
shown-with_lease :
    (name : Text) (clock : ℕ) (d : Table) (r : Row)
    → find_lease name (with_lease name d) ≡ some r
    → (r.epoch ≡ epoch_at d name) × (is_held (seen_row clock r) ≡ held_at d name clock)
unfolding find_lease
shown-with_lease name clock d r h = ground (arith, text_eq_iff name name)

grant_lease-ok :
    (after : ℕ → ℕ) (name : Text) (epoch : ℕ) (holder : List ℕ) (ms clock : ℕ) (x d : Table)
    (times : ℕ × ℕ)
    → grant_lease after name epoch holder ms clock x ≡ ok (times, d)
    → tables_of x (grant_lease after name epoch holder ms clock x)
      ≡ set_lease name epoch (some holder) (some (after clock + ms * 1000000)) x
grant_lease-ok after name epoch holder ms clock x d times h = ground arith

pub select_lease-ok :
    (name : Text) (clock : ℕ) (x d : Table) (seen : Seen)
    → select_lease name clock x ≡ ok (seen, d)
    → (r : Row) × (find_lease name x ≡ some r) × (seen ≡ seen_row clock r)
select_lease-ok name clock x d seen h = elim (Option-cases (find_lease name x)) [
  | inl e ↦ absurd (ground (arith, e))
  | inr (r, e) ↦ (r, e, ground (arith, e))
]

pub tables_of-select :
    (name : Text) (clock : ℕ) (x : Table) → tables_of x (select_lease name clock x) ≡ x
tables_of-select name clock x = ground arith

-- From `start`, with so many grants of this caller.
pub data Grants (driver : Driver Table) (host : Host) (name : Text) (ms : ℕ) (start : Table)
    : ℕ → Table → Type 0 where
  here : Grants driver host name ms start zero start
  other :
      {k : ℕ} {d : Table} (n : ℕ)
      → Grants driver host name ms start k d
      → Grants driver host name ms start k (driver.others n d)
  -- a token drawn at i, a lease seen vacant at n, an update at m
  grant :
      {k : ℕ} {d : Table} {holder : List ℕ} (i n m : ℕ)
      → host.token i ≡ some holder
      → held_at d name (driver.server_clock n) ≡ false
      → Grants driver host name ms start k d
      → Grants driver host name ms start
          (suc k)
          (granted name holder (host.after (driver.server_clock m) + ms * 1000000) d)

module _ (driver : Driver Table) (host : Host) (s : Store) (name : Text) (start : Table) where
  abbrev pub Moved : ℕ → World Table → Type 0
  Moved k w = Grants driver host name (milliseconds s.lease_ttl) start k w.db

  pub arrive-Moved : (k : ℕ) (w : World Table) → Moved k w → Moved k (arrive driver w)
  arrive-Moved k w m = elim (Bool-cases w.locked) [ inl e ↦ rw e m | inr e ↦ rw e (other w.now m) ]

  -- The transaction so far, before the lock.
  abbrev pub Open : (Table → Table) → World Table → Type 0
  Open f w = Moved 0 w × ((d : Table) → w.writes d ≡ f d) × (w.locked ≡ false)

  abbrev pub Locked : Seen → World Table → Type 0
  Locked seen w =
      Moved 0 w
      × (w.writes w.db ≡ with_lease name w.db)
      × (w.locked ≡ true)
      × (seen.epoch ≡ epoch_at w.db name)
      × (n : ℕ) × (is_held seen ≡ held_at w.db name (driver.server_clock n))

  -- The lease is vacant and the caller's to take, at this epoch.
  abbrev pub Vacant : ℕ → World Table → Type 0
  Vacant epoch w =
      Moved 0 w
      × (w.writes w.db ≡ with_lease name w.db)
      × (w.locked ≡ true)
      × (epoch ≡ suc (epoch_at w.db name))
      × (n : ℕ) × (held_at w.db name (driver.server_clock n) ≡ false)

  abbrev pub Taken : ℕ → List ℕ → World Table → Type 0
  Taken epoch holder w =
      Moved 0 w
      × (w.locked ≡ true)
      × (epoch ≡ suc (epoch_at w.db name))
      × (n : ℕ) × (held_at w.db name (driver.server_clock n) ≡ false)
      × (m : ℕ) × (w.writes w.db
          ≡ granted name holder
              (host.after (driver.server_clock m) + milliseconds s.lease_ttl * 1000000) w.db)

  pub begin-Open : Triple (Moved 0) (begin_tx driver) (λ _. Open (λ d. d)) (λ _. Moved 0)
  begin-Open =
      Triple-begin driver (λ w p. (arrive-Moved 0 w p, λ d. refl, refl))
        (λ e w p. arrive-Moved 0 w p)

  pub limits-Open :
      Triple
        (Open (λ d. d))
        (set_local_timeouts driver s.statement_timeout s.lock_timeout)
        (λ _. Open (λ d. d))
        (λ _. Moved 0)
  unfolding set_local_timeouts
  limits-Open =
      Triple-tx driver (λ clock d. ok (tt, d)) (λ w a d p h. (arrive-Moved 0 w p.0, p.1, p.2))
        (λ e w p. arrive-Moved 0 w p.0) (λ e w p. arrive-Moved 0 w p.0)

  pub insert-Open :
      Triple
        (Open (λ d. d))
        (tx_query driver (insert_lease name))
        (λ _. Open (with_lease name))
        (λ _. Moved 0)
  insert-Open =
      Triple-tx driver (insert_lease name)
        (λ w a d p h. (arrive-Moved 0 w p.0, λ d'. ap (with_lease name) (p.1 d'), p.2))
        (λ e w p. arrive-Moved 0 w p.0) (λ e w p. arrive-Moved 0 w p.0)

  pub select-Locked :
      Triple (Open (with_lease name)) (lock_query driver (select_lease name)) Locked (λ _. Moved 0)
  select-Locked = Triple-lock driver (select_lease name) (
      Triple-tx driver (select_lease name)
        (λ w seen d p h.
          let (r, found, e) =
            select_lease-ok name _ _ d seen (rw (p.1 (arrive driver w).db) at h) in
          let shown =
            shown-with_lease name (driver.server_clock w.now) (arrive driver w).db r found in
          (
            arrive-Moved 0 w p.0,
            tables_of-select name _ _ ∙ p.1 (arrive driver w).db,
            refl,
            rw e shown.0,
            w.now,
            rw e shown.1,
          ))
        (λ e w p. arrive-Moved 0 w p.0) (λ e w p. arrive-Moved 0 w p.0))

  pub grant-Taken :
      (epoch : ℕ) (holder : List ℕ)
      → Triple
          (Vacant epoch)
          (tx_query driver (grant_lease host.after name epoch holder (milliseconds s.lease_ttl)))
          (λ _. Taken epoch holder)
          (λ _. Moved 0)
  grant-Taken epoch holder =
      Triple-tx driver (grant_lease host.after name epoch holder (milliseconds s.lease_ttl))
        (λ w times d p h. rw p.2 (
          p.0,
          refl,
          p.3,
          p.4,
          p.5,
          w.now,
          grant_lease-ok host.after name epoch holder _ _ (w.writes w.db) d times (rw p.2 at h)
              ∙ rw (p.1, p.3) refl,
        ))
        (λ e w p. arrive-Moved 0 w p.0) (λ e w p. arrive-Moved 0 w p.0)

pub lease_at-granted :
    (name : Text) (holder : List ℕ) (expires_at : ℕ) (d : Table)
    → lease_at (granted name holder expires_at d) name ≡ (suc (epoch_at d name), holder)
lease_at-granted name holder expires_at d =
    let (r, found) = find-with_lease name d in
    lease_at-set_lease name (suc (epoch_at d name)) holder (some expires_at) (with_lease name d) r
      found
