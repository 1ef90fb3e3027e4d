-- ===== src/Prelude/Entries.antt =====
-- Lemmas on the entries of a list, by predicates and tests.
use Prim.Native.Nat.{ℕ, zero, suc}
use mathlib.Core.Path.{◌≡◌, refl}
use mathlib.Core.Logic.{◌⊎◌, inl, inr}
use mathlib.Core.List.{List, [], ◌∷◌}
use mathlib.Core.Option.{Option, some}
use mathlib.Core.Bool.{Bool, true, false}
use native.Mathlib.Omega.{arith}
use pgstore.Prelude.Tests.{if◌then◌else◌, Bool-cases}
use pgstore.Prelude.Lists.{All, keep, take, drop, last}

module _ {A : Type 0} where
  pub All-if :
      (P : A → Type 0) (b : Bool) (xs ys : List A)
      → (b ≡ true → All P xs)
      → (b ≡ false → All P ys)
      → All P (if b then xs else ys)
  All-if P true xs ys here there = here refl
  All-if P false xs ys here there = there refl

  pub All-keep : (P : A → Type 0) (f : A → Bool) (xs : List A) → All P xs → All P (keep f xs)
  unfolding keep
  All-keep P f [] p = tt
  All-keep P f (x ∷ xs) p =
      All-if P (f x) _ _ (λ _. (p.0, All-keep P f xs p.1)) λ _. All-keep P f xs p.1

  pub All-map : (P Q : A → Type 0) (xs : List A) → ((x : A) → P x → Q x) → All P xs → All Q xs
  All-map P Q [] h p = tt
  All-map P Q (x ∷ xs) h p = (h x p.0, All-map P Q xs h p.1)

  pub keep-and :
      (f g : A → Bool) (xs : List A)
      → ((x : A) → g x ≡ true → f x ≡ true)
      → keep g (keep f xs) ≡ keep g xs
  unfolding keep
  keep-and f g [] h = refl
  keep-and f g (x ∷ xs) h = ground (arith, keep-and f g xs h, h x)

  pub keep-passes : (f : A → Bool) (xs : List A) → All (λ x. f x ≡ true) (keep f xs)
  unfolding keep
  keep-passes f [] = tt
  keep-passes f (x ∷ xs) = elim (Bool-cases (f x)) [
    | inl e ↦ rw e (e, keep-passes f xs)
    | inr e ↦ rw e (keep-passes f xs)
  ]

  pub keep_every : (f : A → Bool) (xs : List A) → All (λ x. f x ≡ true) xs → keep f xs ≡ xs
  unfolding keep
  keep_every f [] p = refl
  keep_every f (x ∷ xs) p = ground (arith, keep_every f xs p.1)

  pub last-All : (P : A → Type 0) (xs : List A) (x : A) → last xs ≡ some x → All P xs → P x
  last-All P [] x h p = absurd (cc)
  last-All P (y ∷ []) x h p = rw (← one y x h) p.0
    where
      one : (y x : A) → ◌≡◌ {A = Option A} (some y) (some x) → y ≡ x
      one y x h = cc
  last-All P (y ∷ z ∷ zs) x h p = last-All P (z ∷ zs) x h p.1

  pub All-take : (P : A → Type 0) (n : ℕ) (xs : List A) → All P xs → All P (take n xs)
  unfolding take
  All-take P zero xs p = tt
  All-take P (suc n) [] p = tt
  All-take P (suc n) (x ∷ xs) p = (p.0, All-take P n xs p.1)

  pub last-cases :
      (y : A) (rest : List A) (x : A)
      → last (y ∷ rest) ≡ some x
      → ((rest ≡ []) × (y ≡ x)) ⊎ (last rest ≡ some x)
  last-cases y [] x h = inl (refl, cc)
  last-cases y (z ∷ zs) x h = inr h

  pub drop-all : (n : ℕ) (xs : List A) → take n xs ≡ [] → drop n xs ≡ xs
  unfolding take
  drop-all zero xs h = refl
  drop-all (suc n) [] h = refl
  drop-all (suc n) (x ∷ xs) h = absurd (cc)
