-- ===== src/Lease/Life/Registry/Tended.antt =====
-- The leases of a Store of internal/lease/lease.go through any calls of it: none is left that Close
-- would not reach.
use pgstore.Prelude.{
  ℕ, zero, suc, ◌≡◌, ◌≢◌, refl, ap, ◌∙◌, Bool, true, false, ◌||◌, not, Option, some, List, [], ◌∷◌,
  ◌++◌, arith, length, get_elem?, keep, ◌==◌, ==_iff, ◌⊎◌, inl, inr, Bool-cases, Option-cases,
  if◌then◌else◌,
}
use pgstore.Text.{Text}
use pgstore.Driver.{Driver, World, Exec}
use pgstore.Driver.Triples.{Triple, Always, AnyError, Triple-bind}
use pgstore.Storage.{Storage}
use pgstore.Guard.Defs.{Context}
use pgstore.Lease.Sql.{Table}
use pgstore.Lease.{Store, Host, Lease, acquire}
use pgstore.Lease.Life.{Wake, release, renew_round}
use pgstore.Lease.Life.Registry.Fresh.{IsFresh, acquire-IsFresh}
use pgstore.Lease.Life.Registry.Live.{
  IsSettled, IsPossible, Rounded, Released, renew_round-Rounded, release-Released,
}
use pgstore.Lease.Life.Registry.{
  UnderStore, Leases, changed, start_lease, after_release, after_round, acquire_registered,
  release_found, release_at, round_found, round_at,
}

unfoldable pub has : ℕ → List ℕ → Bool
has p [] = false
has p (q ∷ qs) = q == p || has p qs

-- Every lease is settled, and is registered until it is lost.
abbrev pub IsTended : Leases → Type 0
IsTended s =
    (p : ℕ) (l : Lease)
    → get_elem? s.heap p ≡ some l
    → IsSettled l × (l.lost ≡ false → has p s.registered ≡ true)

pub get-changed :
    (f : Lease → Lease) (p q : ℕ) (heap : List Lease) (l : Lease)
    → get_elem? (changed f p heap) q ≡ some l
    → ((p ≡ q) × (k : Lease) × (get_elem? heap q ≡ some k) × (l ≡ f k))
      ⊎ ((p ≢ q) × (get_elem? heap q ≡ some l))
unfolding changed
get-changed f p q [] l h = absurd (ground arith)
get-changed f zero zero (x ∷ xs) l h = inl (refl, x, refl, ground arith)
get-changed f zero (suc q) (x ∷ xs) l h = inr ((λ e. omega (arith, e)), h)
get-changed f (suc p) zero (x ∷ xs) l h = inr ((λ e. omega (arith, e)), h)
get-changed f (suc p) (suc q) (x ∷ xs) l h = elim (get-changed f p q xs l h) [
  | inl (e, k, found, made) ↦ inl (ap suc e, k, found, made)
  | inr (n, found) ↦ inr ((λ e. n (omega (arith, e))), found)
]

get-append :
    (heap : List Lease) (new l : Lease) (p : ℕ)
    → get_elem? (heap ++ new ∷ []) p ≡ some l
    → ((p ≡ length heap) × (l ≡ new)) ⊎ (get_elem? heap p ≡ some l)
get-append [] new l zero h = inl (refl, ground arith)
get-append [] new l (suc p) h = absurd (ground arith)
get-append (x ∷ xs) new l zero h = inr h
get-append (x ∷ xs) new l (suc p) h = elim (get-append xs new l p h) [
  | inl (e, same) ↦ inl (ap suc e, same)
  | inr found ↦ inr found
]

has-keep : (p q : ℕ) (ps : List ℕ) → p ≢ q → has q (keep (λ r. not (r == p)) ps) ≡ has q ps
unfolding has keep
has-keep p q [] h = refl
has-keep p q (r ∷ rs) h = elim (Bool-cases (r == p)) [
  | inl e ↦ ground (arith, has-keep p q rs h, (==_iff r p).0 e, h)
  | inr e ↦ ground (arith, has-keep p q rs h)
]

chosen-IsTended :
    (b : Bool) (s s' : Leases)
    → (b ≡ true → IsTended s)
    → (b ≡ false → IsTended s')
    → IsTended (if b then s else s')
chosen-IsTended true s s' h k = h refl
chosen-IsTended false s s' h k = k refl

-- A lease that changes, and is unregistered only when it is lost.
changed-IsTended :
    (s : Leases) (p : ℕ) (l : Lease) (ps : List ℕ)
    → IsTended s
    → IsSettled l
    → (l.lost ≡ false → has p s.registered ≡ true → has p ps ≡ true)
    → ((q : ℕ) → p ≢ q → has q s.registered ≡ true → has q ps ≡ true)
    → ((k : Lease) → get_elem? s.heap p ≡ some k → l.lost ≡ false → k.lost ≡ false)
    → IsTended (record s { heap = changed (λ _. l) p s.heap; registered = ps })
changed-IsTended s p l ps t h own others kept q m e = elim (get-changed (λ _. l) p q s.heap m e) [
  | inl (same, k, found, made) ↦
      let at_p : get_elem? s.heap p ≡ some k = rw same found in
      rw (made, ← same) (h, λ lost. own lost ((t p k at_p).1 (kept k at_p lost)))
  | inr (apart, found) ↦ ((t q m found).0, λ lost. others q apart ((t q m found).1 lost))
]

after_round-canceled :
    (p : ℕ) (r : Lease × Bool) (s : Leases) → (after_round p r s).canceled ≡ s.canceled
after_round-canceled p (l, true) s = refl
after_round-canceled p (l, false) s = refl

after_release-canceled :
    (p : ℕ) (l l' : Lease) (s : Leases) → (after_release p l l' s).canceled ≡ s.canceled
after_release-canceled p l l' s = ground arith

start_lease-IsTended :
    (s : Leases) (l : Lease)
    → IsTended s
    → l.done ≡ false
    → l.released ≡ false
    → IsTended (start_lease l s)
unfolding has
start_lease-IsTended s l t d r p m e = elim (get-append s.heap l m p e) [
  | inl (same, made) ↦
      rw (made, same)
        (((λ h. absurd (ground arith)), (λ h. absurd (ground arith))), λ _. ground arith)
  | inr found ↦ ((t p m found).0, λ lost. ground (arith, (t p m found).1 lost))
]

module _ (driver : Driver Table) (storage : Storage) (host : Host) (store : Store) where
  -- The leases stay tended, and the store's context as it is.
  abbrev Tends : Leases → Exec Table Leases → Type 0
  Tends s m = Triple Always m (λ s' w. IsTended s' × (s'.canceled ≡ s.canceled)) AnyError

  after_round-IsTended :
      (s : Leases) (p : ℕ) (l : Lease) (r : Lease × Bool) (w : World Table)
      → IsTended s
      → get_elem? s.heap p ≡ some l
      → Rounded driver storage host store l r w
      → IsTended (after_round p r s)
  after_round-IsTended s p l (l', true) w t e h =
      changed-IsTended s p l' s.registered t h.0 (λ _ r. r) (λ q n r. r)
        (λ k f lost. ground (arith, h.2))
  after_round-IsTended s p l (l', false) w t e h =
      changed-IsTended s p l' (keep (λ q. not (q == p)) s.registered) t h.0
        (λ lost r. absurd (ground (arith, h.1 refl))) (λ q n r. has-keep p q s.registered n ∙ r)
        (λ k f lost. absurd (ground (arith, h.1 refl)))

  after_release-IsTended :
      (s : Leases) (p : ℕ) (l l' : Lease)
      → IsTended s
      → get_elem? s.heap p ≡ some l
      → IsSettled l'
      → (l'.released ≡ false → l' ≡ l)
      → IsTended (after_release p l l' s)
  after_release-IsTended s p l l' t e h same =
      chosen-IsTended l.released _ _
        (λ r.
          changed-IsTended s p l' s.registered t h (λ _ r. r) (λ q n r. r)
            (λ k f lost. absurd (ground (arith, released_too r, h.1))))
        (λ r.
          chosen-IsTended l'.released _ _
            (λ r'.
              changed-IsTended s p l' (keep (λ q. not (q == p)) s.registered) t h
                (λ lost r. absurd (ground (arith, h.1 r')))
                (λ q n r. has-keep p q s.registered n ∙ r)
                (λ k f lost. absurd (ground (arith, h.1 r'))))
            (λ r'.
              changed-IsTended s p l' s.registered t h (λ _ r. r) (λ q n r. r)
                (λ k f lost. ground (arith, same r'))))
    where
      released_too : l.released ≡ true → l'.released ≡ true
      released_too r = elim (Bool-cases l'.released) [
        | inl r' ↦ r'
        | inr r' ↦ absurd (ground (arith, ap (λ (x : Lease). x.released) (same r')))
      ]

  pub release_at-IsTended :
      (s : Leases) (p : ℕ) (ctx : Option Context)
      → IsTended s
      → Triple Always
          (release_at driver storage host store ctx p s)
          (λ r w. IsTended r.0 × (r.0.canceled ≡ s.canceled))
          AnyError
  unfolding release_at release_found
  release_at-IsTended s p ctx t = elim (Option-cases (get_elem? s.heap p)) [
    | inl e ↦ rw e (record { at = λ w h. (t, refl) })
    | inr (l, e) ↦ rw e (
        Triple-bind (Released driver storage host store l) (release driver storage host store ctx l)
          _ (release-Released driver storage host store ctx l (t p l e).0)
          (λ r. record {
            at = λ w h.
                (after_release-IsTended s p l r.0 t e h.0 h.1, after_release-canceled p l r.0 s);
          }))
  ]

  pub acquire_registered-IsTended :
      (s : Leases) (ctx : Option Context) (name : Text)
      → IsTended s
      → Tends s (acquire_registered driver storage host store ctx name s)
  unfolding acquire_registered
  acquire_registered-IsTended s ctx name t =
      Triple-bind IsFresh (acquire driver storage host store ctx name) _
        (acquire-IsFresh driver storage host store ctx name)
        (λ l. record { at = λ w h. (start_lease-IsTended s l t h.0 h.1, refl) })

module _ (drivers : UnderStore) (storage : Storage) (host : Host) (store : Store) where
  pub round_at-IsTended :
      (s : Leases) (p : ℕ) (wake : Wake)
      → IsTended s
      → ((l : Lease) → get_elem? s.heap p ≡ some l → IsPossible s.canceled wake l)
      → Tends
          (drivers s.canceled)
          storage
          host
          store
          s
          (round_at drivers storage host store p wake s)
  unfolding round_at round_found
  round_at-IsTended s p wake t q =
      let driver = drivers s.canceled in
      elim (Option-cases (get_elem? s.heap p)) [
        | inl e ↦ rw e (record { at = λ w h. (t, refl) })
        | inr (l, e) ↦ rw e (
            Triple-bind (Rounded driver storage host store l)
              (renew_round driver storage host store l wake) _
              (renew_round-Rounded driver storage host store l wake (t p l e).0 (q l e).0)
              (λ r. record {
                at = λ w h. (
                  after_round-IsTended driver storage host store s p l r w t e h,
                  after_round-canceled p r s,
                );
              }))
      ]
