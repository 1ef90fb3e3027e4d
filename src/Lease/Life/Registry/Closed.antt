-- ===== src/Lease/Life/Registry/Closed.antt =====
-- Close of internal/lease/lease.go: no lease of the store outlives it.
use pgstore.Prelude.{
  ℕ, ◌≡◌, refl, ◌∙◌, sym, true, false, Option, some, List, [], ◌∷◌, arith, get_elem?, ==_iff, ◌⊎◌,
  inl, inr, Bool-cases,
}
use pgstore.Text.{Text}
use pgstore.Errors.{Error, ok}
use pgstore.Driver.{Driver, World}
use pgstore.Driver.Triples.{Post-ok}
use pgstore.Storage.{Storage}
use pgstore.Guard.Defs.{Context}
use pgstore.Lease.Sql.{Table}
use pgstore.Lease.{Store, Host, Lease}
use pgstore.Lease.Life.{Wake}
use pgstore.Lease.Life.Registry.Live.{IsPossible}
use pgstore.Lease.Life.Registry.Tended.{
  has, IsTended, get-changed, round_at-IsTended, release_at-IsTended, acquire_registered-IsTended,
}
use pgstore.Lease.Life.Registry.{
  UnderStore, Leases, changed, shut, shut_all, close, acquire_registered, release_at, round_at,
}

module _ (storage : Storage) (host : Host) (store : Store) where
  -- A call of the store or of one of its leases that leaves the leases changed: at any world, with
  -- whatever the driver answers.
  pub data Calls (s : Leases) : Leases → Type 0 where
    acquires :
        {s' : Leases} (driver : Driver Table) (ctx : Option Context) (name : Text) (w : World Table)
        → (acquire_registered driver storage host store ctx name s w).0 ≡ ok s'
        → Calls s s'
    releases :
        {s' : Leases} (driver : Driver Table) (ctx : Option Context) (p : ℕ) (e : Option Error)
        (w : World Table)
        → (release_at driver storage host store ctx p s w).0 ≡ ok (s', e)
        → Calls s s'
    renews :
        {s' : Leases} (drivers : UnderStore) (p : ℕ) (wake : Wake) (w : World Table)
        → ((l : Lease) → get_elem? s.heap p ≡ some l → IsPossible s.canceled wake l)
        → (round_at drivers storage host store p wake s w).0 ≡ ok s'
        → Calls s s'
    closes : Calls s (close s)

  pub data Runs (s : Leases) : Leases → Type 0 where
    begun : Runs s s
    called : {t u : Leases} → Runs s t → Calls t u → Runs s u

shut_all-found :
    (ps : List ℕ) (heap : List Lease) (p : ℕ) (l : Lease)
    → get_elem? (shut_all ps heap) p ≡ some l
    → (l.lost ≡ true) ⊎ ((get_elem? heap p ≡ some l) × (has p ps ≡ false))
unfolding shut_all has
shut_all-found [] heap p l h = inr (h, refl)
shut_all-found (q ∷ ps) heap p l h = elim (shut_all-found ps (changed shut q heap) p l h) [
  | inl lost ↦ inl lost
  | inr (found, absent) ↦ elim (get-changed shut q p heap l found) [
    | inl (same, k, at_p, made) ↦ inl (rw made refl)
    | inr (apart, at_p) ↦
        inr (at_p, ground (arith, absent, ==_iff p q, λ (e : p ≡ q). apart (sym e)))
  ]
]

-- After Close every lease that the store has made is lost.
pub close-lost :
    (s : Leases)
    → IsTended s
    → (p : ℕ) (l : Lease) → get_elem? (close s).heap p ≡ some l
    → l.lost ≡ true
unfolding close
close-lost s t p l h = elim (shut_all-found s.registered s.heap p l h) [
  | inl lost ↦ lost
  | inr (found, absent) ↦ elim (Bool-cases l.lost) [
    | inl lost ↦ lost
    | inr open_still ↦ absurd (ground (arith, (t p l found).1 open_still))
  ]
]

-- Close has canceled the store's context.
pub close-canceled : (s : Leases) → (close s).canceled ≡ true
unfolding close
close-canceled s = refl

pub close-IsTended : (s : Leases) → IsTended s → IsTended (close s)
close-IsTended s t p l h =
    let lost = close-lost s t p l h in (((λ _. lost), (λ _. lost)), (λ e. absurd (ground arith)))

module _ (storage : Storage) (host : Host) (store : Store) where
  -- The leases stay tended, and a canceled context stays canceled.
  abbrev Follows : Leases → Leases → Type 0
  Follows s s' = IsTended s' × (s.canceled ≡ true → s'.canceled ≡ true)

  Calls-Follows : {s s' : Leases} → Calls storage host store s s' → IsTended s → Follows s s'
  Calls-Follows {s} (acquires driver ctx name w e) t =
      let (tended, same) =
        Post-ok _ _ _ _
          ((acquire_registered-IsTended driver storage host store s ctx name t).at w tt) e in
      (tended, λ c. same ∙ c)
  Calls-Follows {s} (releases driver ctx p x w e) t =
      let (tended, same) =
        Post-ok _ _ _ _ ((release_at-IsTended driver storage host store s p ctx t).at w tt) e in
      (tended, λ c. same ∙ c)
  Calls-Follows {s} (renews drivers p wake w q e) t =
      let (tended, same) =
        Post-ok _ _ _ _ ((round_at-IsTended drivers storage host store s p wake t q).at w tt) e in
      (tended, λ c. same ∙ c)
  Calls-Follows {s} closes t = (close-IsTended s t, λ _. close-canceled s)

  pub Runs-Follows : {s s' : Leases} → Runs storage host store s s' → IsTended s → Follows s s'
  Runs-Follows begun t = (t, λ c. c)
  Runs-Follows (called r c) t =
      let (tended, kept) = Runs-Follows r t in
      let (tended', kept') = Calls-Follows c tended in (tended', λ e. kept' (kept e))
