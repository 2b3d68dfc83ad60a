-- ===== src/Filer/Keeps.antt =====
-- Rules for carrying a property of a host through a block of Host.antt, and for reading off what a
-- block that answers has done.
use fileagent.Prelude.{◌≡◌, refl, Bool-cases, inl, inr}
pub use fileagent.Prelude.Action.{
  Keeps, Keeps-pure, Keeps-raise, Keeps-attempt, Keeps-if, Keeps-bind,
}
use fileagent.Filer.Host.{Result, ok, err, Host, M, next, continue, ask, write, set, sleep, ◌>>=◌}

-- A property that does not read the turn.
abbrev pub Timeless : (Host → Type 0) → Type 0
Timeless Q = (w : Host) → Q w → Q (next w)

module _ {A : Type 0} {Q : Host → Type 0} where
  pub Keeps-ask : (f : Host → A) → Timeless Q → Keeps Q (ask f)
  unfolding ask
  Keeps-ask f t = record { at = t }

module _ {Q : Host → Type 0} where
  pub Keeps-set : (f : Host → Host) → ((w : Host) → Q w → Q (f w)) → Keeps Q (set f)
  unfolding set
  Keeps-set f k = record { at = k }

  pub Keeps-write :
      (f : Host → Host) → Timeless Q → ((w : Host) → Q w → Q (f w)) → Keeps Q (write f)
  unfolding write
  Keeps-write f t k = record {
    at = λ w h. elim (Bool-cases (w.store_fails w.turn)) [
      | inl e ↦ rw e (t w h)
      | inr e ↦ rw e (k (next w) (t w h))
    ];
  }

  pub Keeps-sleep : Timeless Q → Keeps Q sleep
  unfolding sleep
  Keeps-sleep t = record {
    at = λ w h. elim (Bool-cases (w.is_cancelled w.turn)) [
      | inl e ↦ rw e (t w h)
      | inr e ↦ rw e (t w h)
    ];
  }

-- What a block that answers has done: its first action answered, and then the rest.
module _ {A B : Type 0} where
  continue_ok :
      (r : Result A) (f : A → M B) (w : Host) {b : B}
      → (continue r f w).0 ≡ ok b
      → (a : A) × (r ≡ ok a) × ((f a w).0 ≡ ok b) × (continue r f w ≡ f a w)
  continue_ok (ok a) f w h = (a, refl, h, refl)
  continue_ok (err e) f w h = absurd (cc)

  pub bind_ok :
      (m : M A) (f : A → M B) (w : Host) {b : B}
      → ((m >>= f) w).0 ≡ ok b
      → (a : A) × ((m w).0 ≡ ok a) × ((f a (m w).1).0 ≡ ok b) × ((m >>= f) w ≡ f a (m w).1)
  bind_ok m f w h = continue_ok (m w).0 f (m w).1 h

module _ {A B : Type 0} (Q : Host → Type 0) where
  continue_either :
      (r : Result A) (f : A → M B) (w : Host)
      → ((a : A) → r ≡ ok a → Q (f a w).1)
      → Q w
      → Q (continue r f w).1
  continue_either (ok a) f w k h = k a refl
  continue_either (err e) f w k h = h

  -- A block leaves `Q` if its first action does, and what follows an answer does.
  pub bind_either :
      (m : M A) (f : A → M B) (w : Host)
      → ((a : A) → (m w).0 ≡ ok a → Q (f a (m w).1).1)
      → Q (m w).1
      → Q ((m >>= f) w).1
  bind_either m f w = continue_either (m w).0 f (m w).1
