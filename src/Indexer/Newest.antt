-- ===== src/Indexer/Newest.antt =====
-- What the statements of Ledger.antt do to the row of each key.
use fileagent.Prelude.{
  String, ◌≡◌, refl, ap, subst, ◌⊎◌, Bool, true, false, ◌&&◌, Option, none, some, List, [], ◌∷◌,
  arith, Bool-cases, inl, inr,
}
use fileagent.Prelude.Int.{ℤ, pos, negsuc, leb_ℤ, ◌=ℤ◌, leb_ℤ_trans, leb_ℤ_total}
use fileagent.Filer.Paths.{Text}
use fileagent.Indexer.Types.{FileEntry}
use fileagent.Indexer.Ledger.{is_newer, is_entry, write_row, find_entry}

-- The row is there, and its observation is not before the time.
abbrev pub since : ℤ → Option FileEntry → Bool
since at none = false
since at (some fe) = leb_ℤ at fe.observed_at

equal_ordered : (a b : ℤ) → (a =ℤ b) ≡ true → leb_ℤ b a ≡ true
equal_ordered (pos a) (pos b) h = ground arith
equal_ordered (negsuc a) (negsuc b) h = ground arith
equal_ordered (pos a) (negsuc b) h = absurd (cc)
equal_ordered (negsuc a) (pos b) h = absurd (cc)

and_left : (a b : Bool) → (a && b) ≡ true → a ≡ true
and_left a b h = ground arith

-- What passes the guard is not before the row, and what does not is not after it.
pub is_newer_ordered :
    (seq_leb : Text → Text → Bool) (at : ℤ) (seq : Option Text) (fe : FileEntry)
    → is_newer seq_leb at seq fe ≡ true
    → leb_ℤ fe.observed_at at ≡ true
unfolding is_newer
is_newer_ordered seq_leb at seq fe h = elim (Bool-cases (leb_ℤ at fe.observed_at)) [
  | inl e ↦ equal_ordered at fe.observed_at (and_left _ _ (rw e at h))
  | inr e ↦ leb_ℤ_total at fe.observed_at e
]

pub not_newer_ordered :
    (seq_leb : Text → Text → Bool) (at : ℤ) (seq : Option Text) (fe : FileEntry)
    → is_newer seq_leb at seq fe ≡ false
    → leb_ℤ at fe.observed_at ≡ true
unfolding is_newer
not_newer_ordered seq_leb at seq fe h = ground arith

module _ (hk guard : FileEntry → Bool) (set : FileEntry → FileEntry)
    (missing : List FileEntry × Option FileEntry) (at : ℤ) (bucket : String) (path : Text) where
  pub write_row-since :
      ((fe : FileEntry) → is_entry bucket path (set fe) ≡ is_entry bucket path fe)
      → ((fe : FileEntry) → guard fe ≡ true → leb_ℤ fe.observed_at (set fe).observed_at ≡ true)
      → (l : List FileEntry) → since at (find_entry bucket path l) ≡ true
      → since at (find_entry bucket path (write_row hk guard set missing l).0) ≡ true
  unfolding find_entry write_row
  write_row-since keeps later [] h = absurd (cc)
  write_row-since keeps later (fe ∷ l) h = elim (Bool-cases (hk fe)) [
    | inr e ↦ rw e (elim (Bool-cases (is_entry bucket path fe)) [
      | inl f ↦ rw f (rw f at h)
      | inr f ↦ rw f (write_row-since keeps later l (rw f at h))
    ])
    | inl e ↦ rw e (elim (Bool-cases (guard fe)) [
      | inr g ↦ rw g h
      | inl g ↦
          rw (g, keeps fe)
            (elim (Bool-cases (is_entry bucket path fe)) [
              | inl f ↦
                  rw f (leb_ℤ_trans at fe.observed_at (set fe).observed_at (rw f at h) (later fe g))
              | inr f ↦ rw f (rw f at h)
            ])
    ])
  ]

module _ (guard : FileEntry → Bool) (set : FileEntry → FileEntry)
    (missing : List FileEntry × Option FileEntry) (bucket : String) (path : Text) where
  -- The row that a statement returns is then the row of the key, and is new or was set.
  pub write_row_found :
      (Good : FileEntry → Type 0)
      → ((fe : FileEntry) → is_entry bucket path fe ≡ true → is_entry bucket path (set fe) ≡ true)
      → ((fe : FileEntry) → guard fe ≡ true → Good (set fe))
      → (r : FileEntry)
      → (missing.1 ≡ some r → (find_entry bucket path missing.0 ≡ some r) × Good r)
      → (l : List FileEntry) → (write_row (is_entry bucket path) guard set missing l).1 ≡ some r
      → (find_entry bucket path (write_row (is_entry bucket path) guard set missing l).0 ≡ some r)
        × Good r
  unfolding find_entry write_row
  write_row_found Good keeps good r m [] h = m h
  write_row_found Good keeps good r m (fe ∷ l) h = elim (Bool-cases (is_entry bucket path fe)) [
    | inr e ↦ rw e (rw e (write_row_found Good keeps good r m l (rw e at h)))
    | inl e ↦ elim (Bool-cases (guard fe)) [
      | inl g ↦
          let same : some (set fe) ≡ some r = rw (e, g) at h in
          rw (e, g, keeps fe e) (same, subst Good (cc) (good fe g))
      | inr g ↦ let same : none ≡ some r = rw (e, g) at h in absurd (cc)
    ]
  ]

  -- A statement that returns no row has changed nothing: there is no row of the key, or it is
  -- guarded.
  pub write_row-none :
      (missing.1 ≡ none → missing.0 ≡ [])
      → (l : List FileEntry) → (write_row (is_entry bucket path) guard set missing l).1 ≡ none
      → ((write_row (is_entry bucket path) guard set missing l).0 ≡ l)
        × (((find_entry bucket path l ≡ none) × (missing.1 ≡ none))
            ⊎ ((fe : FileEntry) × (find_entry bucket path l ≡ some fe) × (guard fe ≡ false)))
  unfolding find_entry write_row
  write_row-none m [] h = (m h, inl (refl, h))
  write_row-none m (fe ∷ l) h = elim (Bool-cases (is_entry bucket path fe)) [
    | inr e ↦ rw e (let (a, b) = write_row-none m l (rw e at h) in (ap (λ t. fe ∷ t) a, b))
    | inl e ↦ elim (Bool-cases (guard fe)) [
      | inr g ↦ rw (e, g) (refl, inr (fe, refl, g))
      | inl g ↦ let same : some (set fe) ≡ none = rw (e, g) at h in absurd (cc)
    ]
  ]
