-- ===== src/Lease/Life/Release.antt =====
-- Release of internal/lease/lease.go: what it reports of the row.
use pgstore.Prelude.{
  ℕ, ◌≡◌, refl, sym, ◌∙◌, [], ◌∷◌, Bool, true, false, ◌&&◌, Option, none, some, arith, ltb, ◌⊎◌,
  inl, inr, Bool-cases, Option-cases,
}
use pgstore.Text.{Text, content, text_eq_iff}
use pgstore.Errors.{Error, ok}
use pgstore.Driver.{
  Driver, World, arrive, commit_tx, update_query, pool_query, tables_of, caught, ◌>>=◌,
}
use pgstore.Driver.Triples.{
  Triple, Always, AnyError, Post, Post-ok, Post-mono, Triple-bind, Triple-try, Triple-if,
}
use pgstore.Driver.Rules.{Triple-begin, Triple-commit, Triple-tx, Triple-update, Triple-rollback}
use pgstore.Postgres.{set_local_timeouts}
use pgstore.Storage.{Storage}
use pgstore.Guard.Defs.{Context, bound, bound_context}
use pgstore.Lease.Sql.{Row, Table, find_lease, set_lease, clear_lease, is_own, is_after}
use pgstore.Lease.Life.{
  release, release_bound, release_reply, release_failed, release_resolved, ended,
}
use pgstore.Lease.{Store, Host, Lease, release_row, resolve_release}

abbrev own_row : Lease → Option Row → Bool
own_row l none = false
own_row l (some r) = is_own l.epoch l.holder r

-- The row of a lease's name has its epoch and token.
abbrev pub is_own_at : Table → Lease → Bool
is_own_at d l = own_row l (find_lease l.name d)

abbrev possessed_row : Lease → ℕ → Option Row → Bool
possessed_row l clock none = false
possessed_row l clock (some r) = is_own l.epoch l.holder r && is_after r.expires_at clock

-- ... and has not expired at a clock reading.
abbrev pub is_possessed : Table → Lease → ℕ → Bool
is_possessed d l clock = possessed_row l clock (find_lease l.name d)

clear_lease-keeps :
    (l : Lease) (clock : ℕ) (d : Table)
    → is_own_at d l ≡ false
    → tables_of d (clear_lease l.name l.epoch l.holder clock d) ≡ d
clear_lease-keeps l clock d h = ground arith

find-set_none :
    (name : Text) (epoch : ℕ) (d : Table) (l : Lease)
    → l.name ≡ name
    → is_own_at (set_lease name epoch none none d) l ≡ false
unfolding find_lease set_lease
find-set_none name epoch [] l h = refl
find-set_none name epoch (x ∷ xs) l h =
    ground (arith, find-set_none name epoch xs l h, text_eq_iff x.name name, h)

clear_lease-ok :
    (l : Lease) (clock : ℕ) (x d : Table) (rows : ℕ)
    → clear_lease l.name l.epoch l.holder clock x ≡ ok (rows, d)
    → ((ltb 0 rows ≡ true)
        × (is_own_at (tables_of x (clear_lease l.name l.epoch l.holder clock x)) l ≡ false))
      ⊎ (is_own_at x l ≡ false)
clear_lease-ok l clock x d rows h = elim (Option-cases (find_lease l.name x)) [
  | inl e ↦ inr (ground (arith, e))
  | inr (r, e) ↦ ground (arith, e, find-set_none l.name r.epoch x l refl)
]

module _ (driver : Driver Table) (storage : Storage) (host : Host) (s : Store) (l : Lease)
    (forge : (n : ℕ) (d : Table)
      → is_own_at d l ≡ false
      → is_own_at (driver.others n d) l ≡ false) where
  abbrev Gone : World Table → Type 0
  Gone w = is_own_at w.db l ≡ false

  abbrev Open : World Table → Type 0
  Open w = ((d : Table) → w.writes d ≡ d) × (w.locked ≡ false)

  -- The row has been cleared under its lock, or is no longer the lease's.
  abbrev Cleared : World Table → Type 0
  Cleared w =
      ((w.locked ≡ true) × (is_own_at (w.writes w.db) l ≡ false))
      ⊎ (Gone w × ((d : Table) → is_own_at d l ≡ false → w.writes d ≡ d))

  arrive-Gone : (w : World Table) → Gone w → Gone (arrive driver w)
  arrive-Gone w g = elim (Bool-cases w.locked) [
    | inl e ↦ rw e g
    | inr e ↦ rw e (forge w.now w.db g)
  ]

  clear-Cleared :
      Triple Open
        (update_query driver (λ rows. ltb 0 rows) (clear_lease l.name l.epoch l.holder))
        (λ _. Cleared)
        AnyError
  clear-Cleared = Triple-update driver _ _ (
      Triple-tx driver (clear_lease l.name l.epoch l.holder)
        (λ w rows d p h.
          elim (clear_lease-ok l (driver.server_clock w.now) (arrive driver w).db d rows
            (rw p.0 at h)) [
              | inl (changed, gone) ↦ inl (rw p.1 changed, rw p.0 gone)
              | inr gone ↦
                  inr (gone, λ d' g. rw p.0 (clear_lease-keeps l (driver.server_clock w.now) d' g))
            ])
        (λ e w p. tt) (λ e w p. tt))

  commit-Gone : Triple Cleared (commit_tx driver) (λ _. Gone) AnyError
  commit-Gone = Triple-commit driver (λ w p. made w p) (λ f w p. tt) (λ f w p o. tt)
    where
      made : (w : World Table) → Cleared w → is_own_at (w.writes (arrive driver w).db) l ≡ false
      made w (inl (locked, gone)) = rw locked gone
      made w (inr (gone, same)) = rw (same _ (arrive-Gone w gone)) (arrive-Gone w gone)

  release_row-Gone : Triple Always (release_row driver storage host s l) (λ _. Gone) AnyError
  unfolding release_row set_local_timeouts
  release_row-Gone = Triple-rollback driver _ (
      Triple-bind (λ _. Open) _ _ (Triple-begin driver (λ w p. (λ d. refl, refl)) (λ e w p. tt))
        λ _.
          Triple-bind (λ _. Open) _ _
            (Triple-tx driver (λ clock d. ok (tt, d)) (λ w a d p h. p) (λ e w p. tt) (λ e w p. tt))
            λ _. Triple-bind _ _ _ clear-Cleared λ _. commit-Gone)

  -- At some reading of the server's clock.
  abbrev Over : World Table → Type 0
  Over w = (n : ℕ) × (is_possessed w.db l (driver.server_clock n) ≡ false)

  resolve_release-over :
      (w : World Table)
      → Post
          (λ _ w'. is_possessed w'.db l (driver.server_clock w.now) ≡ false)
          AnyError
          (resolve_release driver storage host s l w)
  unfolding resolve_release pool_query
  resolve_release-over w = elim (Option-cases (find_lease l.name (arrive driver w).db)) [
    | inl e ↦ ground (arith, e)
    | inr (r, e) ↦ ground (arith, e, text_eq_iff (content r.holder) l.holder)
  ]

  resolve_release-Over :
      Triple Always (resolve_release driver storage host s l) (λ _. Over) AnyError
  resolve_release-Over = record {
    at = λ w _.
        Post-mono (resolve_release driver storage host s l w) (λ _ w' h. (w.now, h)) (λ _ _ h. h)
          (resolve_release-over w);
  }

  Gone-Over : (w : World Table) → Gone w → Over w
  Gone-Over w h = (
    0,
    elim (Option-cases (find_lease l.name w.db)) [
      | inl e ↦ ground (arith, e)
      | inr (r, e) ↦ ground (arith, e)
    ],
  )

  -- What Release's error says.
  abbrev Reported : Lease × Option Error → World Table → Type 0
  Reported (l', e) w = e ≡ none → Over w

  release_failed-Reported :
      (c : Option Error)
      → Triple Always (release_failed driver storage host s l c) Reported AnyError
  unfolding release_failed
  release_failed-Reported (some e) = record { at = λ w p h. absurd (cc) }
  release_failed-Reported none =
      Triple-try (λ _. Over) AnyError (resolve_release driver storage host s l)
        (release_resolved driver storage host s l) resolve_release-Over
        (λ _. record { at = λ w p h. p }) λ e. record { at = λ w p h. absurd (cc) }

  release_reply-Reported :
      (ctx : Context)
      → Triple Always
          (caught (release_row driver storage host s l)
            >>= release_reply driver storage host s ctx l)
          Reported
          AnyError
  unfolding release_reply
  release_reply-Reported ctx =
      Triple-try (λ _. Gone) AnyError (release_row driver storage host s l)
        (release_reply driver storage host s ctx l) release_row-Gone
        (λ _. record { at = λ w p h. Gone-Over w p })
        λ e. record { at = λ w p. (release_failed-Reported (ctx.err_at w.now)).at _ tt }

is_own_at-ended : (d : Table) (l : Lease) → is_own_at d (ended l) ≡ is_own_at d l
is_own_at-ended d l = elim (Bool-cases l.released) [ inl e ↦ rw e refl | inr e ↦ rw e refl ]

is_possessed-ended :
    (d : Table) (l : Lease) (clock : ℕ) → is_possessed d (ended l) clock ≡ is_possessed d l clock
is_possessed-ended d l clock = elim (Bool-cases l.released) [
  | inl e ↦ rw e refl
  | inr e ↦ rw e refl
]

module _ (driver : Driver Table) (storage : Storage) (host : Host) (s : Store) (l : Lease)
    (forge : (n : ℕ) (d : Table) → is_own_at d l ≡ false → is_own_at (driver.others n d) l ≡ false)
    (fresh : l.release_complete ≡ false) where
  forge-ended :
      (n : ℕ) (d : Table)
      → is_own_at d (ended l) ≡ false
      → is_own_at (driver.others n d) (ended l) ≡ false
  forge-ended n d g =
      is_own_at-ended (driver.others n d) l ∙ forge n d (sym (is_own_at-ended d l) ∙ g)

  release_bound-Reported :
      (ctx : Context)
      → Triple Always
          (release_bound driver storage host s l (ok ctx))
          (Reported driver storage host s (ended l) forge-ended)
          AnyError
  unfolding release_bound
  release_bound-Reported ctx =
      Triple-if l.release_complete _ _ (λ complete. absurd (clash (sym complete ∙ fresh)))
        λ _. release_reply-Reported driver storage host s (ended l) forge-ended ctx
    where
      clash : true ≡ false → ⊥
      clash h = cc

  release-Reported :
      (ctx : Option Context)
      → Triple Always
          (release driver storage host s ctx l)
          (Reported driver storage host s (ended l) forge-ended)
          AnyError
  unfolding release bound release_bound
  release-Reported none = record { at = λ w _ h. absurd (cc) }
  release-Reported (some ctx) = record {
    at = λ w _.
        (release_bound-Reported
            (bound_context driver ctx ctx.deadline s.operation_timeout w.now)).at
          _ tt;
  }

-- When a Release that is not already complete reports success, the row of the name no longer had
-- the lease's epoch and token, or had expired, at some reading of the server's clock, whatever the
-- driver lost: if no other client can write the lease's token.
pub release_acknowledged :
    (driver : Driver Table) (storage : Storage) (host : Host) (s : Store) (ctx : Option Context)
    (l l' : Lease) (w : World Table)
    → ((n : ℕ) (d : Table) → is_own_at d l ≡ false → is_own_at (driver.others n d) l ≡ false)
    → l.release_complete ≡ false
    → (release driver storage host s ctx l w).0 ≡ ok (l', none)
    → (n : ℕ) × (is_possessed (release driver storage host s ctx l w).1.db l (driver.server_clock n)
        ≡ false)
release_acknowledged driver storage host s ctx l l' w forge fresh h =
    let (n, over) =
      Post-ok
        (Reported driver storage host s (ended l) (forge-ended driver storage host s l forge fresh))
        AnyError _ (l', none) ((release-Reported driver storage host s l forge fresh ctx).at w tt) h
        refl in
    (n, sym (is_possessed-ended _ l (driver.server_clock n)) ∙ over)
