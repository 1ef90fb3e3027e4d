-- ===== src/Lease/Life/Registry/Ending.antt =====
-- How the renewLoops of internal/lease/lease.go end once Close has canceled the store's context.
use pgstore.Prelude.{
  ℕ, suc, ◌≡◌, refl, sym, ap, subst, ◌∙◌, Bool, true, false, not, some, List, [], ◌∷◌, arith,
  get_elem?, keep, leb, ◌==◌, inl, inr, Bool-cases,
}
use pgstore.Errors.{Error, Fault, driver_fault, Result, ok, err}
use pgstore.Driver.{
  Driver, World, Exec, failed, begin_tx, pool_query, with_rollback, time_now, caught, pure,
  continue,
}
use pgstore.Storage.{Storage}
use pgstore.Lease.Sql.{Table}
use pgstore.Lease.{Store, Host, Lease, renew_row, observe}
use pgstore.Lease.Life.{
  Wake, stopped, store_closed, expired, renew_due, mark_lost, renew_round, woken, round_renewed,
  round_over,
}
use pgstore.Lease.Life.Registry.Live.{IsSettled, IsPossible}
use pgstore.Lease.Life.Registry.Tended.{has, IsTended, get-changed}
use pgstore.Lease.Life.Registry.Closed.{
  Runs, Runs-Follows, close-lost, close-canceled, close-IsTended,
}
use pgstore.Lease.Life.Registry.{UnderStore, Leases, new, close, after_round, round_found, round_at}

-- Under a canceled context pgx fails every call before it reaches the server.
pub record IsCut {D : Type 0} (driver : Driver D) : Type 0 where
  pub fault : ℕ → Fault
  pub cut : (n : ℕ) → driver.outcome n ≡ failed (fault n)

continue-err :
    {D A B : Type 0} (r : Result (Result A) × World D) (f : Result A → Exec D B) (e : Error)
    → r.0 ≡ ok (err e)
    → continue r f ≡ f (err e) r.1
continue-err (ok (err x), w) f e h = let same : x ≡ e = cc in rw same refl
continue-err (ok (ok a), w) f e h = absurd cc
continue-err (err x, w) f e h = absurd cc

continue-ok :
    (r : Result (Lease × Bool) × World Table) (p : ℕ) (s : Leases) (l : Lease)
    → r.0 ≡ ok (l, false)
    → (continue r (λ x. pure (after_round p x s))).0 ≡ ok (after_round p (l, false) s)
continue-ok (ok x, w) p s l h = let same : x ≡ (l, false) = cc in rw same refl
continue-ok (err e, w) p s l h = absurd cc

module _ (driver : Driver Table) (cut : IsCut driver) (storage : Storage) (host : Host)
    (store : Store) where
  renew_row-cut :
      (l : Lease) (w : World Table)
      → (renew_row driver storage host store l w).0 ≡ err (driver_fault (cut.fault w.now))
  unfolding renew_row with_rollback begin_tx
  renew_row-cut l w = rw (cut.cut w.now) refl

  observe-cut :
      (l : Lease) (w : World Table)
      → (observe driver storage host store l w).0 ≡ err (driver_fault (cut.fault (suc w.now)))
  unfolding observe time_now pool_query
  observe-cut l w = rw (cut.cut (suc w.now)) refl

  -- The loop ends, on a lost lease.
  abbrev pub Ends : Result (Lease × Bool) × World Table → Type 0
  Ends r = (l : Lease) × (r.0 ≡ ok (l, false)) × (l.lost ≡ true)

  renewal-Ends :
      (l : Lease) (w : World Table) → Ends (woken driver storage host store l renew_due w)
  unfolding woken round_renewed round_over
  renewal-Ends l w =
      let renewed = caught (renew_row driver storage host store l) w in
      let observed = caught (observe driver storage host store l) renewed.1 in
      (
        mark_lost l,
        ap (λ r. r.0)
            (continue-err renewed (λ r. round_renewed driver storage host store l r) _
                (ap ok (renew_row-cut l w))
              ∙ continue-err observed (λ r. round_over driver storage host store l r) _
                  (ap ok (observe-cut l renewed.1))),
        refl,
      )

  woken-Ends :
      (l : Lease) (wake : Wake) (w : World Table)
      → IsSettled l
      → (wake ≡ stopped → l.done ≡ true)
      → Ends (woken driver storage host store l wake w)
  unfolding woken
  woken-Ends l stopped w h q = (l, refl, h.0 (q refl))
  woken-Ends l store_closed w h q = (mark_lost l, refl, refl)
  woken-Ends l expired w h q = (mark_lost l, refl, refl)
  woken-Ends l renew_due w h q = renewal-Ends l w

  renew_round-Ends :
      (l : Lease) (wake : Wake) (w : World Table)
      → IsSettled l
      → (wake ≡ stopped → l.done ≡ true)
      → Ends (renew_round driver storage host store l wake w)
  unfolding renew_round time_now
  renew_round-Ends l wake w h q = elim (Bool-cases l.released) [
    | inl r ↦ (l, ground (arith, r), h.1 r)
    | inr r ↦ elim (Bool-cases (leb l.safe_until (driver.local_clock w.now))) [
      | inl over ↦ (mark_lost l, ground (arith, r, over), refl)
      | inr more ↦
          let rest = woken-Ends l wake (record w { now = suc w.now }) h q in
          (rest.0, ground (arith, r, more, rest.1), rest.2)
    ]
  ]

has-keep_self : (p : ℕ) (ps : List ℕ) → has p (keep (λ q. not (q == p)) ps) ≡ false
unfolding has keep
has-keep_self p [] = refl
has-keep_self p (q ∷ qs) = ground (arith, has-keep_self p qs)

-- The store after a round that has ended.
abbrev pub Ended : ℕ → Leases → Type 0
Ended p s =
    (has p s.registered ≡ false) × ((l : Lease) → get_elem? s.heap p ≡ some l → l.lost ≡ true)

after_round-Ended :
    (s : Leases) (p : ℕ) (l : Lease) → l.lost ≡ true → Ended p (after_round p (l, false) s)
after_round-Ended s p l lost = (
  has-keep_self p s.registered,
  λ k found. elim (get-changed (λ _. l) p p s.heap k found) [
    | inl (same, old, at_p, made) ↦ rw made lost
    | inr (apart, at_p) ↦ absurd (apart refl)
  ],
)

new-IsTended : (lease_ttl : ℕ) (limits : List ℕ) → IsTended (new lease_ttl limits).1
unfolding new
new-IsTended lease_ttl limits p l h = absurd (ground arith)

-- Whatever calls came before it, Close leaves every lease of the store lost, whose Lost channel is
-- closed. Whatever calls follow, an Acquire that was under way among them, the select of any lease's
-- renewLoop has a ready case; and whichever ready case it takes, the round ends the loop with the
-- lease lost and unregistered, as long as the calls under a canceled context fail.
pub close_lem :
    (storage : Storage) (host : Host) (lease_ttl : ℕ) (limits : List ℕ) (s t : Leases)
    (drivers : UnderStore) (p : ℕ) (wake : Wake) (l : Lease) (w : World Table)
    → Runs storage host (new lease_ttl limits).0 (new lease_ttl limits).1 s
    → Runs storage host (new lease_ttl limits).0 (close s) t
    → get_elem? t.heap p ≡ some l
    → IsPossible t.canceled wake l
    → IsCut (drivers true)
    → ((q : ℕ) (k : Lease) → get_elem? (close s).heap q ≡ some k → k.lost ≡ true)
      × IsPossible t.canceled store_closed l
      × (t' : Leases) × ((round_at drivers storage host (new lease_ttl limits).0 p wake t w).0
          ≡ ok t')
      × Ended p t'
unfolding round_at round_found
close_lem storage host lease_ttl limits s t drivers p wake l w before after found possible cut =
    let store = (new lease_ttl limits).0 in
    let tended : IsTended s =
      (Runs-Follows storage host store before (new-IsTended lease_ttl limits)).0 in
    let (still, kept) = Runs-Follows storage host store after (close-IsTended s tended) in
    let canceled : t.canceled ≡ true = kept (close-canceled s) in
    let last =
      renew_round-Ends (drivers true) cut storage host store l wake w (still p l found).0
        possible.0 in
    (
      close-lost s tended,
      ((λ e. absurd (ground arith)), (λ _. canceled)),
      after_round p (last.0, false) t,
      rw found (
          subst
            (λ b.
              (continue (renew_round (drivers b) storage host store l wake w)
                (λ x. pure (after_round p x t))).0
              ≡ ok (after_round p (last.0, false) t))
            (sym canceled)
            (continue-ok (renew_round (drivers true) storage host store l wake w) p t last.0
              last.1)),
      after_round-Ended t p last.0 last.2,
    )
