-- ===== src/Queue/Keeps.antt =====
-- Properties of the tables, and of the uploads released, that an action keeps whatever fails in it:
-- one rule for each way in which Monad.antt builds an action.
use fileagent.Prelude.{
  String, ◌≡◌, refl, Bool, true, false, List, if◌then◌else◌, Bool-cases, inl, inr,
}
use fileagent.Queue.Types.{Tables}
use fileagent.Queue.Monad.{
  Error, Result, ok, err, World, M, pure, raise, attempt, continue, ◌>>=◌, now, now_millis, exec,
  query, Ending, commit, rollback, finish, transaction, next,
}

abbrev pub Property : Type 1
Property = Tables → List String → Type 0

pub record Keeps {A : Type 0} (Q : Property) (m : M A) : Type 0 where
  pub at : (w : World) → Q w.tables w.released → Q (m w).1.tables (m w).1.released

module _ {A : Type 0} {Q : Property} where
  pub Keeps-pure : (a : A) → Keeps Q (pure a)
  Keeps-pure a = record { at = λ w h. h }

  pub Keeps-raise : (e : Error) → Keeps Q (raise {A = A} e)
  Keeps-raise e = record { at = λ w h. h }

  pub Keeps-attempt : (m : M A) → Keeps Q m → Keeps Q (attempt m)
  Keeps-attempt m k = record { at = k.at }

  pub Keeps-query : (f : Tables → A) → Keeps Q (query f)
  unfolding query
  Keeps-query f = record {
    at = λ w h. elim (Bool-cases (w.fails w.turn)) [ inl e ↦ rw e h | inr e ↦ rw e h ];
  }

  -- A statement that runs to its end writes `g t`.
  pub Keeps-write :
      (a : Tables → A) (g : Tables → Tables)
      → ((t : Tables) (rel : List String) → Q t rel → Q (g t) rel)
      → Keeps Q (exec (λ t. ok (a t, g t)))
  unfolding exec
  Keeps-write a g k = record {
    at = λ w h. elim (Bool-cases (w.fails w.turn)) [
      | inl e ↦ rw e h
      | inr e ↦ rw e (k w.tables w.released h)
    ];
  }

  pub Keeps-if : (b : Bool) (m n : M A) → Keeps Q m → Keeps Q n → Keeps Q (if b then m else n)
  Keeps-if true m n km kn = km
  Keeps-if false m n km kn = kn

module _ {A B : Type 0} {Q : Property} where
  continue-Keeps :
      (f : A → M B) (r : Result A) (w : World)
      → ((a : A) → Keeps Q (f a))
      → Q w.tables w.released
      → Q (continue r f w).1.tables (continue r f w).1.released
  continue-Keeps f (ok a) w k h = (k a).at w h
  continue-Keeps f (err e) w k h = h

  pub Keeps-bind :
      (m : M A) (f : A → M B) → Keeps Q m → ((a : A) → Keeps Q (f a)) → Keeps Q (m >>= f)
  Keeps-bind m f km kf = record { at = λ w h. continue-Keeps f (m w).0 (m w).1 kf (km.at w h) }

module _ {Q : Property} where
  pub Keeps-now : Keeps Q now
  unfolding now
  Keeps-now = record { at = λ w h. h }

  pub Keeps-now_millis : Keeps Q now_millis
  unfolding now_millis
  Keeps-now_millis = record { at = λ w h. h }

-- The uploads released stay `rel`.
abbrev pub Released : List String → Property
Released rel t r = r ≡ rel

module _ {A : Type 0} (Q : Property) where
  finish-Keeps :
      (before : Tables) (r : Result (Ending A)) (w : World)
      → Q before w.released
      → Q w.tables w.released
      → Q (finish before r w).1.tables (finish before r w).1.released
  finish-Keeps before (ok (commit a)) w h k = elim (Bool-cases (w.fails w.turn)) [
    | inl e ↦ rw e h
    | inr e ↦ rw e k
  ]
  finish-Keeps before (ok (rollback a)) w h k = h
  finish-Keeps before (err e) w h k = h

module _ {A : Type 0} {Q : Property} where
  -- A rollback puts the tables back, and the body has released nothing.
  pub Keeps-transaction :
      (body : M (Ending A))
      → ((rel : List String) → Keeps (Released rel) body)
      → Keeps Q body
      → Keeps Q (transaction body)
  unfolding transaction
  Keeps-transaction body frame k = record {
    at = λ w h. elim (Bool-cases (w.fails w.turn)) [
      | inl e ↦ rw e h
      | inr e ↦ rw e (
          finish-Keeps Q w.tables (body (next w)).0 (body (next w)).1
            (rw ((frame w.released).at (next w) refl) h) (k.at (next w) h))
    ];
  }

pub ruleset keeps_rules = (
  Keeps-pure, Keeps-raise, Keeps-attempt, Keeps-query, Keeps-if, Keeps-bind, Keeps-now,
  Keeps-now_millis,
)

module _ {A : Type 0} {P Q : Property} where
  pub Keeps-and : (m : M A) → Keeps P m → Keeps Q m → Keeps (λ t rel. P t rel × Q t rel) m
  Keeps-and m p q = record { at = λ w h. (p.at w h.0, q.at w h.1) }
