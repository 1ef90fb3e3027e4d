-- ===== src/Migrations/Passes.antt =====
-- The replacements of migrate of migrations.go one after the other, against one pass over the
-- statement.
use pgstore.Prelude.{
  ℕ, ◌≡◌, refl, sym, ap, ◌∙◌, Bool, true, false, ◌&&◌, not, none, some, List, [], ◌∷◌, ◌++◌, arith,
  length, drop, ◌==◌, inl, inr, Bool-cases, Option-cases,
}
use pgstore.Text.{Text, is_prefix}
use pgstore.Migrations.Render.{
  Token, key, replace_from, replace_all, first_match, pass_from, one_pass,
}
use pgstore.Migrations.Keys.{
  clash, clashes, body, key-body, is_prefix-clash, is_prefix-clash_append, clash-clashes,
  key_unique, is_prefix-drop, is_prefix-append,
}

unfoldable pub no_brace : Text → Bool
no_brace [] = true
no_brace (c ∷ cs) = not (c == b'{') && no_brace cs

-- A text that can make no key: it starts with a quote and holds no opening brace.
pub record IsInert (s : Text) : Type 0 where
  pub rest : Text
  pub quoted : s ≡ b'"' ∷ rest
  pub free : no_brace s ≡ true

pub first_match-some :
    (ts : List Token) (s : Text) (t : Token)
    → first_match ts s ≡ some t
    → is_prefix (key t) s ≡ true
unfolding first_match
first_match-some [] s t h = absurd (ground arith)
first_match-some (u ∷ ts) s t h = elim (Bool-cases (is_prefix (key u) s)) [
  | inl p ↦ let e : u ≡ t = ground arith in rw (← e) p
  | inr p ↦ first_match-some ts s t (ground arith)
]

pub first_match-cons :
    (t u : Token) (ts : List Token) (s : Text)
    → first_match ts s ≡ some u
    → first_match (t ∷ ts) s ≡ some u
unfolding first_match
first_match-cons t u ts s h = elim (Bool-cases (is_prefix (key t) s)) [
  | inl p ↦ let e : t ≡ u = key_unique t u s p (first_match-some ts s u h) in ground arith
  | inr p ↦ ground arith
]

first_match-clash :
    (ts : List Token) (a rest : Text)
    → ((u : Token) → clash a (key u) ≡ true)
    → first_match ts (a ++ rest) ≡ none
unfolding first_match
first_match-clash [] a rest h = refl
first_match-clash (t ∷ ts) a rest h =
    ground (arith, is_prefix-clash_append a (key t) rest (h t), first_match-clash ts a rest h)

replace-skip :
    (old new a rest : Text) → replace_from old new (length a) (a ++ rest) ≡ replace_all old new rest
unfolding replace_from
replace-skip old new [] rest = refl
replace-skip old new (x ∷ xs) rest = replace-skip old new xs rest

pub replace-free :
    (t : Token) (new i rest : Text)
    → no_brace i ≡ true
    → replace_all (key t) new (i ++ rest) ≡ i ++ replace_all (key t) new rest
unfolding replace_from no_brace is_prefix
replace-free t new [] rest h = refl
replace-free t new (c ∷ cs) rest h =
    let miss : is_prefix (key t) (c ∷ (cs ++ rest)) ≡ false = rw (key-body t) (ground arith) in
    rw (replace_from, miss) (ap (λ r. c ∷ r) (replace-free t new cs rest (ground arith)))

pub replace-match :
    (t : Token) (new rest : Text)
    → replace_all (key t) new (key t ++ rest) ≡ new ++ replace_all (key t) new rest
unfolding replace_from
replace-match t new rest =
    let hit : is_prefix (b'{' ∷ body t) (b'{' ∷ (body t ++ rest)) ≡ true =
      is_prefix-append (b'{' ∷ body t) rest in
    rw (key-body t)
      (rw (replace_from, hit) (ap (λ r. new ++ r) (replace-skip (b'{' ∷ body t) new (body t) rest)))

module _ (new : Token → Text) (inert : (t : Token) → IsInert (new t)) (ts : List Token) where
  pass-skip : (a rest : Text) → pass_from new ts (length a) (a ++ rest) ≡ one_pass new ts rest
  unfolding pass_from
  pass-skip [] rest = refl
  pass-skip (x ∷ xs) rest = pass-skip xs rest

  pub pass-none :
      (c : ℕ) (cs : Text)
      → first_match ts (c ∷ cs) ≡ none
      → one_pass new ts (c ∷ cs) ≡ c ∷ one_pass new ts cs
  unfolding pass_from
  pass-none c cs h = rw (pass_from, h) refl

  pub pass-match :
      (t : Token) (rest : Text)
      → first_match ts (key t ++ rest) ≡ some t
      → one_pass new ts (key t ++ rest) ≡ new t ++ one_pass new ts rest
  unfolding pass_from
  pass-match t rest h =
      let hit : first_match ts (b'{' ∷ (body t ++ rest)) ≡ some t =
        ap (λ k. first_match ts (k ++ rest)) (sym (key-body t)) ∙ h in
      let skipped : pass_from new ts (length (body t)) (body t ++ rest) ≡ one_pass new ts rest =
        pass-skip (body t) rest in
      ap (λ k. one_pass new ts (k ++ rest)) (key-body t)
      ∙ rw (pass_from, hit) (ap (λ r. new t ++ r) skipped)

  -- Where no key can start, the pass copies.
  pub pass-copy :
      (a rest : Text)
      → ((u : Token) → clashes a (key u) ≡ true)
      → one_pass new ts (a ++ rest) ≡ a ++ one_pass new ts rest
  pass-copy [] rest h = refl
  pass-copy (x ∷ xs) rest h =
      pass-none x (xs ++ rest)
        (first_match-clash ts (x ∷ xs) rest (λ u. (clash-clashes x xs (key u) (h u)).0))
      ∙ ap (λ r. x ∷ r) (pass-copy xs rest (λ u. (clash-clashes x xs (key u) (h u)).1))

  -- The pass makes no end of a key appear or vanish at the head of a text.
  pub is_prefix-pass :
      (a s : Text)
      → ((u : Token) → clashes a (key u) ≡ true)
      → is_prefix a (one_pass new ts s) ≡ is_prefix a s
  unfolding is_prefix pass_from
  is_prefix-pass [] s h = refl
  is_prefix-pass (x ∷ xs) [] h = refl
  is_prefix-pass (x ∷ xs) (c ∷ cs) h = elim (Option-cases (first_match ts (c ∷ cs))) [
    | inl m ↦
        rw (pass-none c cs m) (
          ap (λ b. (x == c) && b)
            (is_prefix-pass xs cs (λ u. (clash-clashes x xs (key u) (h u)).1)))
    | inr (u, m) ↦
        let p = first_match-some ts (c ∷ cs) u m in
        let e = is_prefix-drop (key u) (c ∷ cs) p in
        let facts = clash-clashes x xs (key u) (h u) in
        let made : one_pass new ts (c ∷ cs)
            ≡ b'"' ∷ ((inert u).rest ++ one_pass new ts (drop (length (key u)) (c ∷ cs))) =
          ap (one_pass new ts) e
          ∙ pass-match u (drop (length (key u)) (c ∷ cs)) (ap (first_match ts) (sym e) ∙ m)
          ∙ ap (λ r. r ++ one_pass new ts (drop (length (key u)) (c ∷ cs))) (inert u).quoted in
        let miss : is_prefix (x ∷ xs) (c ∷ cs) ≡ false =
          is_prefix-clash (x ∷ xs) (key u) (c ∷ cs) facts.0 p in
        ap (is_prefix (x ∷ xs)) made ∙ rw facts.2 (sym miss)
  ]
