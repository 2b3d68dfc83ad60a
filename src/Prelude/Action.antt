-- ===== src/Prelude/Action.antt =====
-- Actions on a state that answer with a value or an error, and the rules by which a property of the
-- state is carried through a block of them.
use mathlib.Core.Path.{◌≡◌, refl}
use mathlib.Core.Bool.{Bool, true, false}
use fileagent.Prelude.Tests.{if◌then◌else◌}

pub data Result (E A : Type 0) : Type 0 where
  ok : A → Result E A
  err : E → Result E A

abbrev pub Action : Type 0 → Type 0 → Type 0 → Type 0
Action S E A = S → Result E A × S

module _ {S E A : Type 0} where
  abbrev pub pure : A → Action S E A
  pure a w = (ok a, w)

  abbrev pub raise : E → Action S E A
  raise e w = (err e, w)

  -- The error becomes a value.
  abbrev pub attempt : Action S E A → Action S E (Result E A)
  attempt m w = let (r, w') = m w in (ok r, w')

module _ {S E A B : Type 0} where
  abbrev pub continue : Result E A → (A → Action S E B) → Action S E B
  continue (ok a) f w = f a w
  continue (err e) f w = (err e, w)

  infixl 5 ◌>>=◌
  abbrev pub ◌>>=◌ : Action S E A → (A → Action S E B) → Action S E B
  ◌>>=◌ m f w = let (r, w') = m w in continue r f w'

infixl 5 ◌>>◌
abbrev pub ◌>>◌ : {S E A B : Type 0} → Action S E A → Action S E B → Action S E B
m >> k = m >>= λ _. k

-- Whatever the action meets, it keeps `Q`.
pub record Keeps {S E A : Type 0} (Q : S → Type 0) (m : Action S E A) : Type 0 where
  pub at : (w : S) → Q w → Q (m w).1

module _ {S E A : Type 0} {Q : S → Type 0} where
  pub Keeps-pure : (a : A) → Keeps {E = E} Q (pure a)
  Keeps-pure a = record { at = λ w h. h }

  pub Keeps-raise : (e : E) → Keeps {A = A} Q (raise e)
  Keeps-raise e = record { at = λ w h. h }

  pub Keeps-attempt : (m : Action S E A) → Keeps Q m → Keeps Q (attempt m)
  Keeps-attempt m k = record { at = k.at }

  pub Keeps-if :
      (b : Bool) (m n : Action S E A) → Keeps Q m → Keeps Q n → Keeps Q (if b then m else n)
  Keeps-if true m n km kn = km
  Keeps-if false m n km kn = kn

module _ {S E A B : Type 0} {Q : S → Type 0} where
  continue-Keeps :
      (f : A → Action S E B) (r : Result E A) (w : S)
      → ((a : A) → Keeps Q (f a))
      → Q w
      → Q (continue r f w).1
  continue-Keeps f (ok a) w k h = (k a).at w h
  continue-Keeps f (err e) w k h = h

  pub Keeps-bind :
      (m : Action S E A) (f : A → Action S E B)
      → Keeps Q m
      → ((a : A) → Keeps Q (f a))
      → Keeps Q (m >>= f)
  Keeps-bind m f km kf = record { at = λ w h. continue-Keeps f (m w).0 (m w).1 kf (km.at w h) }

-- How an action ends: `Good` of its answer and the state it leaves, or `Bad` of the state alone.
module _ {S E : Type 0} (Bad : S → Type 0) where
  abbrev pub Ends : {A : Type 0} → (A → S → Type 0) → Result E A × S → Type 0
  Ends Good (ok a, w) = Good a w
  Ends Good (err e, w) = Bad w

  continue-Ends :
      {A B : Type 0} (Mid : A → S → Type 0) (Good : B → S → Type 0) (f : A → Action S E B)
      (r : Result E A) (w : S)
      → Ends Mid (r, w)
      → ((a : A) (w' : S) → Mid a w' → Ends Good (f a w'))
      → Ends Good (continue r f w)
  continue-Ends Mid Good f (ok a) w h k = k a w h
  continue-Ends Mid Good f (err e) w h k = h

  pub bind-Ends :
      {A B : Type 0} (Mid : A → S → Type 0) (Good : B → S → Type 0) (m : Action S E A)
      (f : A → Action S E B) (w : S)
      → Ends Mid (m w)
      → ((a : A) (w' : S) → Mid a w' → Ends Good (f a w'))
      → Ends Good ((m >>= f) w)
  bind-Ends Mid Good m f w = continue-Ends Mid Good f (m w).0 (m w).1

  pub if-Ends :
      {A : Type 0} (Good : A → S → Type 0) (b : Bool) (x y : Result E A × S)
      → Ends Good x
      → Ends Good y
      → Ends Good (if b then x else y)
  if-Ends Good true x y p q = p
  if-Ends Good false x y p q = q

  pub choice-Ends :
      {A : Type 0} (Good : A → S → Type 0) (b : Bool) (m n : Action S E A) (w : S)
      → (b ≡ true → Ends Good (m w))
      → (b ≡ false → Ends Good (n w))
      → Ends Good ((if b then m else n) w)
  choice-Ends Good true m n w p q = p refl
  choice-Ends Good false m n w p q = q refl

  -- The error becomes a value, of whichever nothing is known.
  pub attempt-Ends :
      {A : Type 0} (m : Action S E A) (w : S) → Ends (λ a w'. Bad w') (m w) → Bad (attempt m w).1
  attempt-Ends m w h = recovered (m w).0 (m w).1 h
    where
      recovered : {A : Type 0} (r : Result E A) (w' : S) → Ends (λ a w''. Bad w'') (r, w') → Bad w'
      recovered (ok a) w' h = h
      recovered (err e) w' h = h

pub Ends-map :
    {S E A : Type 0} (Bad Bad' : S → Type 0) (Mid Good : A → S → Type 0) (x : Result E A × S)
    → ((w : S) → Bad w → Bad' w)
    → ((a : A) (w : S) → Mid a w → Good a w)
    → Ends Bad Mid x
    → Ends Bad' Good x
Ends-map Bad Bad' Mid Good (ok a, w) b k h = k a w h
Ends-map Bad Bad' Mid Good (err e, w) b k h = b w h

-- What an action keeps, it leaves however it ends.
pub kept-Ends :
    {S E A : Type 0} (Q : S → Type 0) (x : Result E A × S) → Q x.1 → Ends Q (λ _ w. Q w) x
kept-Ends Q (ok a, w) h = h
kept-Ends Q (err e, w) h = h
