-- ===== src/Driver/Triples.antt =====
-- Hoare triples for programs over a driver: from a world that meets `P`, a result meets `Q`, an
-- error meets `E`.
use pgstore.Prelude.{◌≡◌, refl, Bool, true, false, if◌then◌else◌}
use pgstore.Errors.{Error, Result, ok, err}
use pgstore.Driver.{World, Exec, raise, returned, caught, continue, ◌>>=◌}

abbrev pub Always : {D : Type 0} → World D → Type 0
Always w = Unit

abbrev pub AnyError : {D : Type 0} → Error → World D → Type 0
AnyError e w = Unit

abbrev pub Post :
    {D A : Type 0}
    → (A → World D → Type 0)
    → (Error → World D → Type 0)
    → Result A × World D
    → Type 0
Post Q E (ok a, w) = Q a w
Post Q E (err e, w) = E e w

pub record Triple {D A : Type 0} (P : World D → Type 0) (m : Exec D A) (Q : A → World D → Type 0)
    (E : Error → World D → Type 0) : Type 0 where
  pub at : (w : World D) → P w → Post Q E (m w)

module _ {D A : Type 0} where
  pub Post-ok :
      (Q : A → World D → Type 0) (E : Error → World D → Type 0) (r : Result A × World D) (a : A)
      → Post Q E r
      → r.0 ≡ ok a
      → Q a r.1
  Post-ok Q E (ok b, w) a h e = rw (← value b a e) h
    where
      value : (b a : A) → ◌≡◌ {A = Result A} (ok b) (ok a) → b ≡ a
      value b a e = cc
  Post-ok Q E (err x, w) a h e = absurd (cc)

  pub Post-err :
      (Q : A → World D → Type 0) (E : Error → World D → Type 0) (r : Result A × World D) (e : Error)
      → Post Q E r
      → r.0 ≡ err e
      → E e r.1
  Post-err Q E (ok b, w) e h q = absurd (cc)
  Post-err Q E (err x, w) e h q = rw (← error x e q) h
    where
      error : (x e : Error) → ◌≡◌ {A = Result A} (err x) (err e) → x ≡ e
      error x e q = cc

  -- What both a result and an error say of the world.
  pub Post-both :
      (Q : A → World D → Type 0) (R : World D → Type 0) (r : Result A × World D)
      → ((a : A) (w : World D) → Q a w → R w)
      → Post Q (λ _. R) r
      → R r.1
  Post-both Q R (ok a, w) q h = q a w h
  Post-both Q R (err x, w) q h = h

  pub Post-mono :
      {Q Q' : A → World D → Type 0} {E E' : Error → World D → Type 0} (r : Result A × World D)
      → ((a : A) (w : World D) → Q a w → Q' a w)
      → ((e : Error) (w : World D) → E e w → E' e w)
      → Post Q E r
      → Post Q' E' r
  Post-mono (ok a, w) q e h = q a w h
  Post-mono (err x, w) q e h = e x w h

  pub Triple-mono :
      {P : World D → Type 0} {Q Q' : A → World D → Type 0} {E E' : Error → World D → Type 0}
      (m : Exec D A)
      → ((a : A) (w : World D) → Q a w → Q' a w)
      → ((e : Error) (w : World D) → E e w → E' e w)
      → Triple P m Q E
      → Triple P m Q' E'
  Triple-mono m q e t = record { at = λ w p. Post-mono (m w) q e (t.at w p) }

  pub Triple-any : (m : Exec D A) → Triple Always m (λ _. Always) AnyError
  Triple-any m = record { at = λ w p. any (m w) }
    where
      any : (r : Result A × World D) → Post (λ _. Always) AnyError r
      any (ok a, w) = tt
      any (err e, w) = tt

  pub Triple-always :
      {P : World D → Type 0} {Q : A → World D → Type 0} {E : Error → World D → Type 0}
      (m : Exec D A)
      → Triple Always m Q E
      → Triple P m Q E
  Triple-always m t = record { at = λ w p. t.at w tt }

  -- A fact that does not depend on the world, beside what a call does.
  pub Triple-fact :
      (F : Type 0) {Q : A → World D → Type 0} {E : Error → World D → Type 0} (m : Exec D A)
      → Triple Always m Q E
      → Triple (λ _. F) m (λ a w. F × Q a w) E
  Triple-fact F {Q} {E} m t = record { at = λ w f. beside f (m w) (t.at w tt) }
    where
      beside : F → (r : Result A × World D) → Post Q E r → Post (λ a w. F × Q a w) E r
      beside f (ok a, w) h = (f, h)
      beside f (err e, w) h = h

  -- A fact that the start gives, whatever the world is later.
  pub Triple-known :
      {P : World D → Type 0} {Q : A → World D → Type 0} {E : Error → World D → Type 0} (F : Type 0)
      (m : Exec D A)
      → ((w : World D) → P w → F)
      → (F → Triple P m Q E)
      → Triple P m Q E
  Triple-known F m f t = record { at = λ w p. (t (f w p)).at w p }

  pub Triple-returned :
      {P : World D → Type 0} {Q : A → World D → Type 0} {E : Error → World D → Type 0}
      (r : Result A)
      → ((a : A) (w : World D) → r ≡ ok a → P w → Q a w)
      → ((e : Error) (w : World D) → r ≡ err e → P w → E e w)
      → Triple P (returned r) Q E
  Triple-returned (ok a) q e = record { at = λ w p. q a w refl p }
  Triple-returned (err x) q e = record { at = λ w p. e x w refl p }

  -- An error that the property says nothing of.
  pub Triple-raise :
      {P : World D → Type 0} {Q : A → World D → Type 0} (e : Error) → Triple P (raise e) Q AnyError
  Triple-raise e = record { at = λ w p. tt }

  pub Triple-if :
      {P : World D → Type 0} {Q : A → World D → Type 0} {E : Error → World D → Type 0} (b : Bool)
      (m n : Exec D A)
      → (b ≡ true → Triple P m Q E)
      → (b ≡ false → Triple P n Q E)
      → Triple P (if b then m else n) Q E
  Triple-if true m n tm tn = tm refl
  Triple-if false m n tm tn = tn refl

module _ {D A B : Type 0} where
  Post-continue :
      (Q : A → World D → Type 0) (R : B → World D → Type 0) (E : Error → World D → Type 0)
      (f : A → Exec D B) (r : Result A × World D)
      → ((a : A) → Triple (Q a) (f a) R E)
      → Post Q E r
      → Post R E (continue r f)
  Post-continue Q R E f (ok a, w) t h = (t a).at w h
  Post-continue Q R E f (err e, w) t h = h

  pub Triple-bind :
      {P : World D → Type 0} (Q : A → World D → Type 0) {R : B → World D → Type 0}
      {E : Error → World D → Type 0} (m : Exec D A) (f : A → Exec D B)
      → Triple P m Q E
      → ((a : A) → Triple (Q a) (f a) R E)
      → Triple P (m >>= f) R E
  Triple-bind {P} Q {R} {E} m f tm tf = record {
    at = λ w p. Post-continue Q R E f (m w) tf (tm.at w p);
  }

  -- What holds of every world that the rest may start from.
  pub Triple-then :
      {R : B → World D → Type 0} (m : Exec D A) (f : A → Exec D B)
      → ((a : A) → Triple Always (f a) R AnyError)
      → Triple Always (m >>= f) R AnyError
  Triple-then {R} m f tf = Triple-bind (λ _. Always) m f (Triple-any m) tf

  -- A call whose error the rest inspects.
  pub Triple-try :
      {P : World D → Type 0} (Q : A → World D → Type 0) (E : Error → World D → Type 0)
      {R : B → World D → Type 0} {F : Error → World D → Type 0} (m : Exec D A)
      (f : Result A → Exec D B)
      → Triple P m Q E
      → ((a : A) → Triple (Q a) (f (ok a)) R F)
      → ((e : Error) → Triple (E e) (f (err e)) R F)
      → Triple P (caught m >>= f) R F
  Triple-try {P} Q E {R} {F} m f tm ta te = record { at = λ w p. split (m w) (tm.at w p) }
    where
      split : (r : Result A × World D) → Post Q E r → Post R F (f r.0 r.1)
      split (ok a, w) h = (ta a).at w h
      split (err e, w) h = (te e).at w h
