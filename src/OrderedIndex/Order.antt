-- ===== src/OrderedIndex/Order.antt =====
-- The orders of internal/orderedindex/orderedindex.go: in an ordering scope no two records have the
-- same one, and none is above the counter of the scope, though no index of
-- migrations/0003_ordered_index.sql says so.
use pgstore.Prelude.{
  All, List, [], ◌∷◌, none, ◌≢◌, ℕ, suc, Option, ◌⊎◌, ◌≡◌, refl, sym, ◌∙◌, ◌≤◌, true, some, arith,
  inl, inr, Bool-cases, if◌then◌else◌,
}
use pgstore.Text.{Text, text_eq_iff}
use pgstore.Records.{OrderedId, id_eq, id_eq_iff}
use pgstore.Driver.{Driver, World}
use pgstore.Storage.{OrderedStorage}
use pgstore.Guard.Defs.{Context}
use pgstore.Postgres.{RetryableAborts}
use pgstore.OrderedIndex.{Store}
use pgstore.OrderedIndex.Create.Results.{create_once_at_most}
use pgstore.OrderedIndex.Mutate.{Change, update, delete}
use pgstore.OrderedIndex.Mutate.Results.{update_row, mutations_once}
use pgstore.OrderedIndex.Sql.{set_record, Row, deleted_row, Tables, find_record, with_scope}
use pgstore.OrderedIndex.View.{
  IsPrimary, order_at, same_scope, find_scope-set, find_scope-with, find_record-set,
}
use pgstore.OrderedIndex.Create.{Candidate, new_row, create}
use pgstore.OrderedIndex.Create.Moves.{Creates, here, other, creation, created}
use pgstore.OrderedIndex.Mutate.Moves.{
  Mutates, here as unmoved, other as moved, mutate, rewritten, find_record-id,
}

pub record IsNumbered (d : Tables) : Type 0 where
  pub primary : IsPrimary d.records
  pub bounded :
      (id : OrderedId) (r : Row)
      → find_record id d.records ≡ some r
      → r.order_id ≤ order_at d id.namespace id.ordering_scope
  pub distinct :
      (a b : OrderedId) (r t : Row)
      → a.namespace ≡ b.namespace
      → a.ordering_scope ≡ b.ordering_scope
      → find_record a d.records ≡ some r
      → find_record b d.records ≡ some t
      → r.order_id ≡ t.order_id
      → a ≡ b

-- What other clients commit keeps it.
abbrev pub OthersNumber : Driver Tables → Type 0
OthersNumber driver = (n : ℕ) (d : Tables) → IsNumbered d → IsNumbered (driver.others n d)

order_at-created :
    (id : OrderedId) (c : Candidate) (d : Tables) (n s : Text)
    → order_at (created id c d) n s ≡ (
        if same_scope id.namespace id.ordering_scope n s
        then suc (order_at d id.namespace id.ordering_scope)
        else order_at d n s)
order_at-created id c d n s = ground (
  arith,
  find_scope-set id.namespace id.ordering_scope n s
      (suc (order_at d id.namespace id.ordering_scope))
      (with_scope id.namespace id.ordering_scope d).scopes,
  find_scope-with id.namespace id.ordering_scope n s d,
  text_eq_iff id.namespace n,
  text_eq_iff id.ordering_scope s,
)

find_record-created :
    (id : OrderedId) (c : Candidate) (d : Tables) (j : OrderedId)
    → find_record j (created id c d).records ≡ (
        if id_eq id j
        then some (new_row id c (suc (order_at d id.namespace id.ordering_scope)))
        else find_record j d.records)
unfolding find_record
find_record-created id c d j = refl

-- A record after a creation is the new one, or one that was there.
created-cases :
    (id : OrderedId) (c : Candidate) (d : Tables) (j : OrderedId) (r : Row)
    → find_record j (created id c d).records ≡ some r
    → ((j ≡ id) × (r.order_id ≡ suc (order_at d id.namespace id.ordering_scope)))
      ⊎ (find_record j d.records ≡ some r)
created-cases id c d j r h = ground (arith, find_record-created id c d j, id_eq_iff id j)

same_scope-eq :
    (namespace scope n s : Text)
    → same_scope namespace scope n s ≡ true
    → (namespace ≡ n) × (scope ≡ s)
same_scope-eq namespace scope n s h = ground (arith, text_eq_iff namespace n, text_eq_iff scope s)

counter-here :
    (id : OrderedId) (c : Candidate) (d : Tables)
    → order_at (created id c d) id.namespace id.ordering_scope
      ≡ suc (order_at d id.namespace id.ordering_scope)
counter-here id c d =
    order_at-created id c d id.namespace id.ordering_scope
    ∙ rw
        (
          (text_eq_iff id.namespace id.namespace).1 refl,
          (text_eq_iff id.ordering_scope id.ordering_scope).1 refl,
        )
        refl

counter_mono :
    (id : OrderedId) (c : Candidate) (d : Tables) (n s : Text)
    → order_at d n s ≤ order_at (created id c d) n s
counter_mono id c d n s = elim (Bool-cases (same_scope id.namespace id.ordering_scope n s)) [
  | inl e ↦
      let (en, es) = same_scope-eq id.namespace id.ordering_scope n s e in
      rw (sym en, sym es) (rw (counter-here id c d) (omega arith))
  | inr e ↦ rw (order_at-created id c d n s) (rw e (omega arith))
]

fresh :
    (id : OrderedId) (rs : List Row) → find_record id rs ≡ none → All (λ (x : Row). id ≢ x.id) rs
unfolding find_record
fresh id [] h = tt
fresh id (r ∷ rs) h = elim (Bool-cases (id_eq r.id id)) [
  | inl e ↦ absurd (ground (arith, h, e))
  | inr e ↦ (
    (λ same. absurd (ground (arith, id_eq_iff r.id id, e, same))),
    fresh id rs (ground (arith, h, e)),
  )
]

apart-set_record :
    (i id : OrderedId) (new : Row) (rs : List Row)
    → new.id ≡ id
    → All (λ (x : Row). i ≢ x.id) rs
    → All (λ (x : Row). i ≢ x.id) (set_record id new rs)
unfolding set_record
apart-set_record i id new [] n p = tt
apart-set_record i id new (r ∷ rs) n p = elim (Bool-cases (id_eq r.id id)) [
  | inl e ↦
      rw e (
        (λ same. p.0 (same ∙ n ∙ sym ((id_eq_iff r.id id).0 e))),
        apart-set_record i id new rs n p.1,
      )
  | inr e ↦ rw e (p.0, apart-set_record i id new rs n p.1)
]

set_record-IsPrimary :
    (id : OrderedId) (new : Row) (rs : List Row)
    → new.id ≡ id
    → IsPrimary rs
    → IsPrimary (set_record id new rs)
unfolding set_record
set_record-IsPrimary id new [] n p = tt
set_record-IsPrimary id new (r ∷ rs) n p =
    let rest = set_record-IsPrimary id new rs n p.1 in
    let apart = apart-set_record r.id id new rs n p.0 in
    elim (Bool-cases (id_eq r.id id)) [
      | inl e ↦ rw e (rw (n ∙ sym ((id_eq_iff r.id id).0 e)) apart, rest)
      | inr e ↦ rw e (apart, rest)
    ]

created-IsNumbered :
    (id : OrderedId) (c : Candidate) (d : Tables)
    → find_record id d.records ≡ none
    → IsNumbered d
    → IsNumbered (created id c d)
created-IsNumbered id c d free v = record {
  primary = (fresh id d.records free, v.primary);
  bounded = λ j r h. elim (created-cases id c d j r h) [
    | inl (e, o) ↦ rw e (rw (o, counter-here id c d) (omega arith))
    | inr old ↦ omega (arith, v.bounded j r old, counter_mono id c d j.namespace j.ordering_scope)
  ];
  distinct = λ a b r t n s h k same. elim (created-cases id c d a r h) [
    | inl (ea, o) ↦ elim (created-cases id c d b t k) [
      | inl (eb, p) ↦ cc
      | inr old ↦ absurd (above b t (cc) (cc) old (cc))
    ]
    | inr found ↦ elim (created-cases id c d b t k) [
      | inl (eb, p) ↦ absurd (above a r (cc) (cc) found (cc))
      | inr old ↦ v.distinct a b r t n s found old same
    ]
  ];
}
  where
    above :
        (j : OrderedId) (r : Row)
        → j.namespace ≡ id.namespace
        → j.ordering_scope ≡ id.ordering_scope
        → find_record j d.records ≡ some r
        → r.order_id ≡ suc (order_at d id.namespace id.ordering_scope)
        → ⊥
    above j r n s found e =
        let low : r.order_id ≤ order_at d id.namespace id.ordering_scope =
          rw (sym n, sym s) (v.bounded j r found) in
        omega (arith, low, e)

-- A row after a rewriting stands for one that was there with the same order.
rewritten-cases :
    (id : OrderedId) (d : Tables) (row new : Row)
    → find_record id d.records ≡ some row
    → new.id ≡ id
    → new.order_id ≡ row.order_id
    → (j : OrderedId) (r : Row) → find_record j (rewritten id new d).records ≡ some r
    → (old : Row) × (find_record j d.records ≡ some old) × (r.order_id ≡ old.order_id)
rewritten-cases id d row new found e o j r h = elim (Bool-cases (id_eq id j)) [
  | inl hit ↦
      let same : id ≡ j = ground (arith, id_eq_iff id j, hit) in
      (
        row,
        rw (sym same) found,
        ground (arith, find_record-set id j new d.records e, o, hit, rw same at found, h),
      )
  | inr miss ↦ (r, ground (arith, find_record-set id j new d.records e, miss, h), refl)
]

rewritten-IsNumbered :
    (id : OrderedId) (d : Tables) (row new : Row)
    → find_record id d.records ≡ some row
    → new.id ≡ id
    → new.order_id ≡ row.order_id
    → IsNumbered d
    → IsNumbered (rewritten id new d)
rewritten-IsNumbered id d row new found e o v = record {
  primary = set_record-IsPrimary id new d.records e v.primary;
  bounded = λ j r h.
      let (old, there, same) = rewritten-cases id d row new found e o j r h in
      rw same (v.bounded j old there);
  distinct = λ a b r t n s h k same.
      let (x, xh, xo) = rewritten-cases id d row new found e o a r h in
      let (y, yh, yo) = rewritten-cases id d row new found e o b t k in
      v.distinct a b x y n s xh yh (cc);
}

Creates-IsNumbered :
    (driver : Driver Tables) (id : OrderedId) (c : Candidate) (start : Tables)
    → OthersNumber driver
    → IsNumbered start
    → {k : ℕ} {d : Tables} → Creates driver id c start k d
    → IsNumbered d
Creates-IsNumbered driver id c start others v here = v
Creates-IsNumbered driver id c start others v (other n m) =
    others n _ (Creates-IsNumbered driver id c start others v m)
Creates-IsNumbered driver id c start others v (creation free room m) =
    created-IsNumbered id c _ free (Creates-IsNumbered driver id c start others v m)

Mutates-IsNumbered :
    (driver : Driver Tables) (id : OrderedId) (expected : ℕ) (f : Row → Row) (start : Tables)
    → ((row : Row) → (f row).id ≡ row.id)
    → ((row : Row) → (f row).order_id ≡ row.order_id)
    → OthersNumber driver
    → IsNumbered start
    → {k : ℕ} {d : Tables} → Mutates driver id expected f start k d
    → IsNumbered d
Mutates-IsNumbered driver id expected f start ids orders others v unmoved = v
Mutates-IsNumbered driver id expected f start ids orders others v (moved n m) =
    others n _ (Mutates-IsNumbered driver id expected f start ids orders others v m)
Mutates-IsNumbered driver id expected f start ids orders others v (mutate row found live same m) =
    rewritten-IsNumbered id _ row (f row) found (ids row ∙ find_record-id id _ row found)
      (orders row) (Mutates-IsNumbered driver id expected f start ids orders others v m)

-- Create, Update and Delete keep identities unique in the table and the orders of every scope distinct
-- and not above its counter, whatever fails and whatever the driver reports, if the server aborts what
-- it calls retryable and what the other clients commit keeps them so.
pub writes-IsNumbered :
    (driver : Driver Tables) (storage : OrderedStorage) (s : Store) (ctx : Option Context)
    (id : OrderedId) (c : Candidate) (expected : ℕ) (change : Change) (w : World Tables)
    → RetryableAborts driver
    → OthersNumber driver
    → IsNumbered w.db
    → IsNumbered (create driver storage s ctx id c w).1.db
      × IsNumbered (update driver storage s ctx id expected change w).1.db
      × IsNumbered (delete driver storage s ctx id expected w).1.db
writes-IsNumbered driver storage s ctx id c expected change w aborts others v =
    let (updated, deleted) = mutations_once driver storage s ctx id expected change w aborts in
    (
      either (create_once_at_most driver storage s ctx id c w aborts)
          (λ k m. Creates-IsNumbered driver id c w.db others v {k = k} m),
      either updated (λ k m.
          Mutates-IsNumbered driver id expected (update_row change) w.db (λ _. refl) (λ _. refl)
            others v {k = k} m),
      either deleted (λ k m.
          Mutates-IsNumbered driver id expected deleted_row w.db (λ _. refl) (λ _. refl) others v
            {k = k} m),
    )
  where
    either : {R : ℕ → Type 0} {B : Type 0} → R 0 ⊎ R 1 → ((k : ℕ) → R k → B) → B
    either (inl m) f = f 0 m
    either (inr m) f = f 1 m
