-- ===== src/OrderedIndex/View.antt =====
-- What the tables of internal/orderedindex/orderedindex.go show of an identity and of an order scope,
-- and lemmas on the rows.
use pgstore.Prelude.{
  ℕ, ◌≡◌, refl, Bool, true, false, Option, none, some, List, [], ◌∷◌, All, ◌≢◌, arith,
  if◌then◌else◌,
}
use pgstore.Text.{Text, text_eq_iff}
use pgstore.Records.{OrderedId, OrderedRecord, id_eq, id_eq_iff}
use pgstore.Errors.{Result, ok}
use pgstore.Driver.{tables_of}
use pgstore.OrderedIndex.Sql.{
  Row, Scope, Tables, find_record, find_scope, set_record, set_scope, with_scope, selected,
  in_scope,
}
use pgstore.OrderedIndex.Scan.{decoded}

abbrev or_zero : Option ℕ → ℕ
or_zero none = 0
or_zero (some order) = order

-- The last order that a scope has given out: 0 before the first.
abbrev pub order_at : Tables → Text → Text → ℕ
order_at d namespace scope = or_zero (find_scope namespace scope d.scopes)

abbrev pub is_some : {A : Type 0} → Option A → Bool
is_some none = false
is_some (some a) = true

abbrev decoded_row : Option Row → Option (Result OrderedRecord)
decoded_row none = none
decoded_row (some r) = some (decoded r)

-- The record that the tables show of an identity, if its numbers can be read.
abbrev pub view : Tables → OrderedId → Option (Result OrderedRecord)
view d id = decoded_row (find_record id d.records)

pub tables_of-selected : {A : Type 0} (d : Tables) (o : Option A) → tables_of d (selected d o) ≡ d
tables_of-selected d none = refl
tables_of-selected d (some a) = refl

pub selected-some :
    {A : Type 0} (d : Tables) (o : Option A) (a : A) (d' : Tables)
    → selected d o ≡ ok (a, d')
    → o ≡ some a
selected-some d none a d' h = absurd (cc)
selected-some d (some b) a d' h = cc

pub records-with_scope :
    (namespace scope : Text) (d : Tables) → (with_scope namespace scope d).records ≡ d.records
records-with_scope namespace scope d = ground arith

-- The name of a scope as a pair, to compare two scopes by one test.
abbrev pub same_scope : Text → Text → Text → Text → Bool
same_scope namespace scope n s =
    in_scope n s (record { namespace = namespace; ordering_scope = scope; next_order = 0 })

pub find_scope-set :
    (namespace scope n s : Text) (order : ℕ) (ss : List Scope)
    → find_scope n s (set_scope namespace scope order ss) ≡ (
        if same_scope namespace scope n s
        then (if is_some (find_scope n s ss) then some order else none)
        else find_scope n s ss)
unfolding find_scope set_scope
find_scope-set namespace scope n s order [] = ground arith
find_scope-set namespace scope n s order (x ∷ xs) = ground (
  arith,
  find_scope-set namespace scope n s order xs,
  text_eq_iff x.namespace namespace,
  text_eq_iff x.ordering_scope scope,
  text_eq_iff x.namespace n,
  text_eq_iff x.ordering_scope s,
  text_eq_iff namespace n,
  text_eq_iff scope s,
)

pub find_scope-with :
    (namespace scope n s : Text) (d : Tables)
    → find_scope n s (with_scope namespace scope d).scopes
      ≡ (if same_scope namespace scope n s then some (order_at d n s) else find_scope n s d.scopes)
unfolding find_scope
find_scope-with namespace scope n s d = ground (arith, text_eq_iff namespace n, text_eq_iff scope s)

pub find_record-set :
    (id j : OrderedId) (r : Row) (rs : List Row)
    → r.id ≡ id
    → find_record j (set_record id r rs) ≡ (
        if id_eq id j
        then (if is_some (find_record j rs) then some r else none)
        else find_record j rs)
unfolding find_record set_record
find_record-set id j r [] e = ground arith
find_record-set id j r (x ∷ xs) e = ground (
  arith,
  e,
  find_record-set id j r xs e,
  id_eq_iff x.id id,
  id_eq_iff x.id j,
  id_eq_iff id j,
  id_eq_iff r.id j,
)

-- The primary key: no two rows have the same identity.
abbrev pub IsPrimary : List Row → Type 0
IsPrimary [] = Unit
IsPrimary (r ∷ rs) = All (λ (x : Row). r.id ≢ x.id) rs × IsPrimary rs
