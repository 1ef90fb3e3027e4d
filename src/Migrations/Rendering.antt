-- ===== src/Migrations/Rendering.antt =====
-- The statement that migrate of migrations.go renders, in whatever order Go walks the map.
use pgstore.Prelude.{
  ℕ, zero, suc, ◌≤◌, ◌≡◌, refl, sym, ap, subst, ◌∙◌, Bool, true, false, none, some, List, [], ◌∷◌,
  ◌++◌, arith, length, length-append, drop, ◌⊎◌, inl, inr, Bool-cases, Option-cases,
}
use pgstore.Text.{Text, is_prefix}
use pgstore.Options.{valid_identifier, max_postgres_identifier_bytes, max_table_prefix_bytes}
use pgstore.Migrations.Render.{
  Token, in_schema, ledger_scopes, ledger_records, kv, leases, ordered_scopes, ordered_records,
  ordered_order_idx, ordered_rank_idx, ordered_due_idx, key, keys, replacement, replace_from,
  replace_all, rendered, first_match, pass_from, one_pass,
}
use pgstore.Migrations.Keys.{body, key-body, clashes-body, is_prefix-drop, is_prefix-append}
use pgstore.Migrations.Inert.{replacement-IsInert}
use pgstore.Migrations.Passes.{
  IsInert, first_match-some, first_match-cons, replace-free, replace-match, pass-none, pass-match,
  pass-copy, is_prefix-pass,
}

abbrev pub Lists : Token → List Token → Type 0
Lists t [] = ◌≡◌ {A = Bool} true false
Lists t (u ∷ us) = (t ≡ u) ⊎ Lists t us

first_match-Lists :
    (ts : List Token) (t : Token) (s : Text)
    → Lists t ts
    → is_prefix (key t) s ≡ true
    → first_match ts s ≡ some t
unfolding first_match
first_match-Lists [] t s m p = absurd (ground arith)
first_match-Lists (u ∷ us) t s (inl e) p =
    let q : is_prefix (key u) s ≡ true = rw (← e) p in ground arith
first_match-Lists (u ∷ us) t s (inr m) p = first_match-cons u t us s (first_match-Lists us t s m p)

pub Lists-keys : (t : Token) → Lists t keys
Lists-keys in_schema = inl refl
Lists-keys ledger_scopes = inr (inl refl)
Lists-keys ledger_records = inr (inr (inl refl))
Lists-keys kv = inr (inr (inr (inl refl)))
Lists-keys leases = inr (inr (inr (inr (inl refl))))
Lists-keys ordered_scopes = inr (inr (inr (inr (inr (inl refl)))))
Lists-keys ordered_records = inr (inr (inr (inr (inr (inr (inl refl))))))
Lists-keys ordered_order_idx = inr (inr (inr (inr (inr (inr (inr (inl refl)))))))
Lists-keys ordered_rank_idx = inr (inr (inr (inr (inr (inr (inr (inr (inl refl))))))))
Lists-keys ordered_due_idx = inr (inr (inr (inr (inr (inr (inr (inr (inr (inl refl)))))))))

-- Lists that hold every key find the same one at the head of a text.
first_match_complete :
    (ts : List Token)
    → ((t : Token) → Lists t ts)
    → (s : Text) → first_match ts s ≡ first_match keys s
first_match_complete ts h s = elim (Option-cases (first_match keys s)) [
  | inr (t, m) ↦ rw m (first_match-Lists ts t s (h t) (first_match-some keys s t m))
  | inl m ↦ elim (Option-cases (first_match ts s)) [
    | inl n ↦ rw (m, n) refl
    | inr (t, n) ↦
        let found : first_match keys s ≡ some t =
          first_match-Lists keys t s (Lists-keys t) (first_match-some ts s t n) in
        absurd (ground arith)
  ]
]

one_pass-nil : (new : Token → Text) (s : Text) → one_pass new [] s ≡ s
unfolding pass_from first_match
one_pass-nil new [] = refl
one_pass-nil new (c ∷ cs) = ap (λ r. c ∷ r) (one_pass-nil new cs)

module _ (new : Token → Text) (inert : (t : Token) → IsInert (new t)) where
  abbrev replaced : Token → Text → Text
  replaced t s = replace_all (key t) (new t) s

  replaced-copy :
      (t : Token) (ts : List Token) (rest : Text)
      → first_match ts (key t ++ rest) ≡ none
      → replaced t (one_pass new ts rest) ≡ one_pass new (t ∷ ts) rest
      → replaced t (one_pass new ts (key t ++ rest)) ≡ one_pass new (t ∷ ts) (key t ++ rest)
  unfolding first_match
  replaced-copy t ts rest m again =
      let hit : first_match (t ∷ ts) (key t ++ rest) ≡ some t =
        rw (is_prefix-append (key t) rest) refl in
      let copied : one_pass new ts (key t ++ rest) ≡ key t ++ one_pass new ts rest =
        ap (λ k. one_pass new ts (k ++ rest)) (key-body t)
        ∙ pass-none new inert ts b'{' (body t ++ rest)
            (ap (λ k. first_match ts (k ++ rest)) (sym (key-body t)) ∙ m)
        ∙ ap (λ r. b'{' ∷ r) (pass-copy new inert ts (body t) rest (clashes-body t))
        ∙ ap (λ k. k ++ one_pass new ts rest) (sym (key-body t)) in
      ap (replaced t) copied
      ∙ replace-match t (new t) (one_pass new ts rest)
      ∙ ap (λ r. new t ++ r) again
      ∙ sym (pass-match new inert (t ∷ ts) t rest hit)

  replaced-match :
      (t u : Token) (ts : List Token) (rest : Text)
      → first_match ts (key u ++ rest) ≡ some u
      → replaced t (one_pass new ts rest) ≡ one_pass new (t ∷ ts) rest
      → replaced t (one_pass new ts (key u ++ rest)) ≡ one_pass new (t ∷ ts) (key u ++ rest)
  replaced-match t u ts rest m again =
      ap (replaced t) (pass-match new inert ts u rest m)
      ∙ replace-free t (new t) (new u) (one_pass new ts rest) (inert u).free
      ∙ ap (λ r. new u ++ r) again
      ∙ sym (pass-match new inert (t ∷ ts) u rest (first_match-cons t u ts (key u ++ rest) m))

  replaced-none :
      (t : Token) (ts : List Token) (c : ℕ) (cs : Text)
      → first_match ts (c ∷ cs) ≡ none
      → is_prefix (key t) (c ∷ cs) ≡ false
      → replaced t (one_pass new ts cs) ≡ one_pass new (t ∷ ts) cs
      → replaced t (one_pass new ts (c ∷ cs)) ≡ one_pass new (t ∷ ts) (c ∷ cs)
  unfolding first_match is_prefix replace_from pass_from
  replaced-none t ts c cs m p again =
      let none_too : first_match (t ∷ ts) (c ∷ cs) ≡ none = rw p m in
      let same : is_prefix (body t) (one_pass new ts cs) ≡ is_prefix (body t) cs =
        is_prefix-pass new inert ts (body t) cs (clashes-body t) in
      let start : is_prefix (b'{' ∷ body t) (c ∷ cs) ≡ false =
        ap (λ k. is_prefix k (c ∷ cs)) (sym (key-body t)) ∙ p in
      let miss : is_prefix (key t) (c ∷ one_pass new ts cs) ≡ false =
        ap (λ k. is_prefix k (c ∷ one_pass new ts cs)) (key-body t) ∙ rw same start in
      ap (replaced t) (pass-none new inert ts c cs m)
      ∙ rw (replace_from, miss) (ap (λ r. c ∷ r) again)
      ∙ sym (pass-none new inert (t ∷ ts) c cs none_too)

  shorter :
      (t : Token) (s : Text) (n : ℕ)
      → is_prefix (key t) s ≡ true
      → length s ≤ suc n
      → length (drop (length (key t)) s) ≤ n
  shorter t s n p h =
      let e : length s ≡ length (key t ++ drop (length (key t)) s) =
        ap length (is_prefix-drop (key t) s p) in
      omega (arith, e, length-append (key t) (drop (length (key t)) s), ap length (key-body t), h)

  -- One more replacement is one more key for the pass.
  replaced-pass :
      (t : Token) (ts : List Token) (n : ℕ) (s : Text)
      → length s ≤ n
      → replaced t (one_pass new ts s) ≡ one_pass new (t ∷ ts) s
  unfolding pass_from replace_from
  replaced-pass t ts n [] h = refl
  replaced-pass t ts zero (c ∷ cs) h = absurd (omega arith)
  replaced-pass t ts (suc n) (c ∷ cs) h = elim (Option-cases (first_match ts (c ∷ cs))) [
    | inr (u, m) ↦
        let p = first_match-some ts (c ∷ cs) u m in
        let e = is_prefix-drop (key u) (c ∷ cs) p in
        subst (λ s. replaced t (one_pass new ts s) ≡ one_pass new (t ∷ ts) s) (sym e)
          (replaced-match t u ts (drop (length (key u)) (c ∷ cs)) (ap (first_match ts) (sym e) ∙ m)
            (replaced-pass t ts n (drop (length (key u)) (c ∷ cs)) (shorter u (c ∷ cs) n p h)))
    | inl m ↦ elim (Bool-cases (is_prefix (key t) (c ∷ cs))) [
      | inl p ↦
          let e = is_prefix-drop (key t) (c ∷ cs) p in
          subst (λ s. replaced t (one_pass new ts s) ≡ one_pass new (t ∷ ts) s) (sym e)
            (replaced-copy t ts (drop (length (key t)) (c ∷ cs)) (ap (first_match ts) (sym e) ∙ m)
              (replaced-pass t ts n (drop (length (key t)) (c ∷ cs)) (shorter t (c ∷ cs) n p h)))
      | inr p ↦ replaced-none t ts c cs m p (replaced-pass t ts n cs (omega arith))
    ]
  ]

  pass-same :
      (ts us : List Token)
      → ((s : Text) → first_match ts s ≡ first_match us s)
      → (skip : ℕ) (s : Text) → pass_from new ts skip s ≡ pass_from new us skip s
  unfolding pass_from
  pass-same ts us h skip [] = refl
  pass-same ts us h (suc skip) (c ∷ cs) = pass-same ts us h skip cs
  pass-same ts us h zero (c ∷ cs) = elim (Option-cases (first_match us (c ∷ cs))) [
    | inl m ↦ rw (pass_from, h (c ∷ cs), m) (ap (λ r. c ∷ r) (pass-same ts us h zero cs))
    | inr (t, m) ↦
        rw (pass_from, h (c ∷ cs), m)
          (ap (λ r. new t ++ r) (pass-same ts us h (length (drop 1 (key t))) cs))
  ]

  rendered-pass :
      (order ts : List Token) (s : Text)
      → ((t : Token) → Lists t order ⊎ Lists t ts)
      → rendered new order (one_pass new ts s) ≡ one_pass new keys s
  unfolding rendered
  rendered-pass [] ts s h = pass-same ts keys (first_match_complete ts (λ t. listed t (h t))) zero s
    where
      listed : (t : Token) → Lists t [] ⊎ Lists t ts → Lists t ts
      listed t (inl e) = absurd (ground arith)
      listed t (inr m) = m
  rendered-pass (u ∷ order) ts s h =
      rw (replaced-pass u ts (length s) s (omega arith))
        (rendered-pass order (u ∷ ts) s (λ t. moved t (h t)))
    where
      moved : (t : Token) → Lists t (u ∷ order) ⊎ Lists t ts → Lists t order ⊎ Lists t (u ∷ ts)
      moved t (inl (inl e)) = inr (inl e)
      moved t (inl (inr m)) = inl m
      moved t (inr m) = inr (inr m)

-- For a valid schema and table prefix, whatever the order in which Go walks the map, as long as it
-- reaches every key, the replacements one after the other make of any statement what a single pass
-- makes that replaces every key where it stands in the original.
pub rendered_lem :
    (schema prefix : Text) (order : List Token) (statement : Text)
    → valid_identifier schema max_postgres_identifier_bytes ≡ true
    → valid_identifier prefix max_table_prefix_bytes ≡ true
    → ((t : Token) → Lists t order)
    → rendered (replacement schema prefix) order statement
      ≡ one_pass (replacement schema prefix) keys statement
rendered_lem schema prefix order statement s p h =
    let new = replacement schema prefix in
    ap (rendered new order) (sym (one_pass-nil new statement))
    ∙ rendered-pass new (replacement-IsInert schema prefix s p) order [] statement (λ t. inl (h t))
