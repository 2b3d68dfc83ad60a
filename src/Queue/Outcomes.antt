-- ===== src/Queue/Outcomes.antt =====
-- What an action leaves behind, by how it ends: the rules for reading off a block of Monad.antt.
use fileagent.Prelude.{String, ◌≡◌, refl, subst, Bool, true, false, List, if◌then◌else◌}
use fileagent.Queue.Types.{Tables}
use fileagent.Queue.Monad.{Error, Result, ok, err, World, M, pure, continue, ◌>>=◌}
use fileagent.Queue.Keeps.{Property, Keeps}

ok-injective {ℓ} : {A : Type ℓ} (a b : A) → ok a ≡ ok b → a ≡ b
ok-injective a b e = cc

-- From `P`, an answer `a` comes with `R a`.
pub record Ensures {A : Type 0} (P : Property) (m : M A) (R : A → Property) : Type 0 where
  pub at :
      (w : World) {a : A}
      → P w.tables w.released
      → (m w).0 ≡ ok a
      → R a (m w).1.tables (m w).1.released

module _ {A B : Type 0} {S : A → Property} {R : B → Property} where
  continue-Ensures :
      (f : A → M B) (r : Result A) (w : World) {b : B}
      → ((a : A) → Ensures (S a) (f a) R)
      → ((a : A) → r ≡ ok a → S a w.tables w.released)
      → (continue r f w).0 ≡ ok b
      → R b (continue r f w).1.tables (continue r f w).1.released
  continue-Ensures f (ok a) w k h e = (k a).at w (h a refl) e
  continue-Ensures f (err x) w k h e = absurd (cc)

module _ {A B : Type 0} {P : Property} {S : A → Property} {R : B → Property} where
  pub Ensures-bind :
      (m : M A) (f : A → M B)
      → Ensures P m S
      → ((a : A) → Ensures (S a) (f a) R)
      → Ensures P (m >>= f) R
  Ensures-bind m f km kf = record {
    at = λ w p e. continue-Ensures f (m w).0 (m w).1 kf (λ a q. km.at w p q) e;
  }

module _ {A : Type 0} {P : Property} where
  pub Ensures-of_Keeps : (m : M A) → Keeps P m → Ensures P m (λ _. P)
  Ensures-of_Keeps m k = record { at = λ w p e. k.at w p }

  pub Ensures-pure :
      {R : A → Property} (a : A)
      → ((t : Tables) (rel : List String) → P t rel → R a t rel)
      → Ensures P (pure a) R
  Ensures-pure {R = R} a k = record {
    at = λ w p e.
        subst (λ b. R b w.tables w.released) (ok-injective a _ e) (k w.tables w.released p);
  }

-- From `P`, the outcome `r`, an answer or an error, comes with `R r`.
pub record Meets {A : Type 0} (P : Property) (m : M A) (R : Result A → Property) : Type 0 where
  pub at : (w : World) → P w.tables w.released → R (m w).0 (m w).1.tables (m w).1.released

module _ {A : Type 0} {P : Property} where
  pub Meets-of_Keeps : (m : M A) → Keeps P m → Meets P m (λ _. P)
  Meets-of_Keeps m k = record { at = k.at }

  pub Meets-pure :
      {R : Result A → Property} (a : A)
      → ((t : Tables) (rel : List String) → P t rel → R (ok a) t rel)
      → Meets P (pure a) R
  Meets-pure a k = record { at = λ w p. k w.tables w.released p }

  pub Meets-if :
      {R : Result A → Property} (b : Bool) (m n : M A)
      → Meets P m R
      → Meets P n R
      → Meets P (if b then m else n) R
  Meets-if true m n km kn = km
  Meets-if false m n km kn = kn

module _ {A B : Type 0} (S : Result A → Property) (R : Result B → Property) where
  continue-Meets :
      (f : A → M B) (r : Result A) (w : World)
      → ((a : A) → Meets (S (ok a)) (f a) R)
      → ((e : Error) (t : Tables) (rel : List String) → S (err e) t rel → R (err e) t rel)
      → S r w.tables w.released
      → R (continue r f w).0 (continue r f w).1.tables (continue r f w).1.released
  continue-Meets f (ok a) w k fault h = (k a).at w h
  continue-Meets f (err x) w k fault h = fault x w.tables w.released h

module _ {A B : Type 0} {P : Property} {S : Result A → Property} {R : Result B → Property} where
  pub Meets-bind :
      (m : M A) (f : A → M B)
      → Meets P m S
      → ((a : A) → Meets (S (ok a)) (f a) R)
      → ((e : Error) (t : Tables) (rel : List String) → S (err e) t rel → R (err e) t rel)
      → Meets P (m >>= f) R
  Meets-bind m f km kf fault = record {
    at = λ w p. continue-Meets S R f (m w).0 (m w).1 kf fault (km.at w p);
  }
