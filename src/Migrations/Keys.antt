-- ===== src/Migrations/Keys.antt =====
-- Which keys of the map in migrate of migrations.go can stand where: two never overlap in a
-- statement, and none is made by a replacement.
use pgstore.Prelude.{
  ◌≡◌, refl, Bool, true, false, ◌&&◌, ◌||◌, not, List, [], ◌∷◌, ◌++◌, arith, drop, length, ◌==◌,
  inl, inr, Bool-cases, ℕ,
}
use pgstore.Text.{Text, text_eq, text_eq_iff, is_prefix}
use pgstore.Migrations.Render.{
  Token, in_schema, ledger_scopes, ledger_records, kv, leases, ordered_scopes, ordered_records,
  ordered_order_idx, ordered_rank_idx, ordered_due_idx, key, keys,
}

-- Two texts that differ at a position of both.
unfoldable pub clash : Text → Text → Bool
clash [] b = false
clash (x ∷ xs) [] = false
clash (x ∷ xs) (y ∷ ys) = not (x == y) || clash xs ys

-- Every end of the first text clashes with the second, and starts with no quote.
unfoldable pub clashes : Text → Text → Bool
unfolding clash
clashes [] b = true
clashes (x ∷ xs) b = not (x == b'"') && (clash (x ∷ xs) b && clashes xs b)

all_keys : (Token → Bool) → List Token → Bool
all_keys p [] = true
all_keys p (t ∷ ts) = p t && all_keys p ts

all_keys-at : (p : Token → Bool) → all_keys p keys ≡ true → (t : Token) → p t ≡ true
unfolding all_keys
all_keys-at p h in_schema = ground arith
all_keys-at p h ledger_scopes = ground arith
all_keys-at p h ledger_records = ground arith
all_keys-at p h kv = ground arith
all_keys-at p h leases = ground arith
all_keys-at p h ordered_scopes = ground arith
all_keys-at p h ordered_records = ground arith
all_keys-at p h ordered_order_idx = ground arith
all_keys-at p h ordered_rank_idx = ground arith
all_keys-at p h ordered_due_idx = ground arith

-- A key without its first brace.
abbrev pub body : Token → Text
body t = drop 1 (key t)

pub key-body : (t : Token) → key t ≡ b'{' ∷ body t
key-body t = ground arith

pub clashes-body : (t u : Token) → clashes (body t) (key u) ≡ true
unfolding clash clashes all_keys
clashes-body t u =
    all_keys-at (λ u. clashes (body t) (key u))
      (all_keys-at (λ t. all_keys (λ u. clashes (body t) (key u)) keys) refl t) u

apart : Token → Token → Bool
unfolding clash text_eq
apart t u = clash (key t) (key u) || text_eq (key t) (key u)

apart_keys : (t u : Token) → apart t u ≡ true
unfolding apart all_keys
apart_keys t u = all_keys-at (apart t) (all_keys-at (λ t. all_keys (apart t) keys) refl t) u

key-injective : (t u : Token) → key t ≡ key u → t ≡ u
key-injective t u h = ground arith

-- A text that starts with one of two clashing texts does not start with the other.
pub is_prefix-clash :
    (a k s : Text) → clash a k ≡ true → is_prefix k s ≡ true → is_prefix a s ≡ false
unfolding clash is_prefix
is_prefix-clash [] k s h p = absurd (ground arith)
is_prefix-clash (x ∷ xs) [] s h p = absurd (ground arith)
is_prefix-clash (x ∷ xs) (y ∷ ys) [] h p = refl
is_prefix-clash (x ∷ xs) (y ∷ ys) (c ∷ cs) h p = ground (arith, is_prefix-clash xs ys cs)

pub is_prefix-clash_append : (a k rest : Text) → clash a k ≡ true → is_prefix k (a ++ rest) ≡ false
unfolding clash is_prefix
is_prefix-clash_append [] k rest h = absurd (ground arith)
is_prefix-clash_append (x ∷ xs) [] rest h = absurd (ground arith)
is_prefix-clash_append (x ∷ xs) (y ∷ ys) rest h = ground (arith, is_prefix-clash_append xs ys rest)

pub clash-clashes :
    (x : ℕ) (xs k : Text)
    → clashes (x ∷ xs) k ≡ true
    → (clash (x ∷ xs) k ≡ true) × (clashes xs k ≡ true) × ((x == b'"') ≡ false)
unfolding clash clashes
clash-clashes x xs k h = ground arith

-- At most one key stands at the head of a text.
pub key_unique :
    (t u : Token) (s : Text) → is_prefix (key t) s ≡ true → is_prefix (key u) s ≡ true → t ≡ u
unfolding apart
key_unique t u s p q = elim (Bool-cases (clash (key t) (key u))) [
  | inl c ↦ absurd (ground (arith, is_prefix-clash (key t) (key u) s c q))
  | inr d ↦ key-injective t u ((text_eq_iff (key t) (key u)).0 (ground (arith, apart_keys t u)))
]

pub is_prefix-drop : (a s : Text) → is_prefix a s ≡ true → s ≡ a ++ drop (length a) s
unfolding is_prefix
is_prefix-drop [] s h = refl
is_prefix-drop (x ∷ xs) [] h = absurd (ground arith)
is_prefix-drop (x ∷ xs) (c ∷ cs) h = ground (arith, is_prefix-drop xs cs)

pub is_prefix-append : (a rest : Text) → is_prefix a (a ++ rest) ≡ true
unfolding is_prefix
is_prefix-append [] rest = refl
is_prefix-append (x ∷ xs) rest = ground (arith, is_prefix-append xs rest)

pub drop-append : (a rest : Text) → drop (length a) (a ++ rest) ≡ rest
drop-append [] rest = refl
drop-append (x ∷ xs) rest = drop-append xs rest
