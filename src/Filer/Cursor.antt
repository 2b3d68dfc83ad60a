-- ===== src/Filer/Cursor.antt =====
-- controlplane/internal/storage/seaweedfs/cursor.go: where a subscription resumes. Times and
-- margins are numbers of nanoseconds.
use fileagent.Prelude.{◌≡◌, refl, Bool, true, ◌&&◌, arith, leb, if◌then◌else◌, Bool-cases, inl, inr}
use fileagent.Prelude.Int.{
  ℤ, pos, negsuc, leb_ℤ, ltb_ℤ, ◌-ℤ◌, leb_ℤ_refl, leb_ℤ_trans, leb_ℤ_total, sub-leb_ℤ, max_int64,
  wrap_int64, sub_int64,
}

-- A negative margin counts as none.
abbrev pub margin_of : ℤ → ℤ
margin_of m = if ltb_ℤ m (pos 0) then pos 0 else m

-- For a declared value that is not negative, as the filer gives them, the difference is an int64.
unfoldable pub resume_from : ℤ → ℤ → ℤ
unfolding ◌-ℤ◌
resume_from declared margin =
    let resume = declared -ℤ margin_of margin in if ltb_ℤ resume (pos 0) then pos 0 else resume

unfoldable pub gap_window : ℤ → ℤ → ℤ → ℤ × ℤ
unfolding ◌-ℤ◌ wrap_int64
gap_window c h margin =
    if ltb_ℤ h c
    then (wrap_int64 (h -ℤ margin_of margin), c)
    else (wrap_int64 (c -ℤ margin_of margin), h)

sub_margin : (a m : ℤ) → leb_ℤ (a -ℤ margin_of m) a ≡ true
sub_margin a (pos m) = elim (Bool-cases (leb 0 m)) [
  | inl e ↦ rw e (sub-leb_ℤ a m)
  | inr e ↦ absurd (ground arith)
]
sub_margin a (negsuc m) = sub-leb_ℤ a 0

-- A subscription never resumes after the declared value, nor before 0: where the declared value is
-- not negative, it resumes between 0 and the declared value.
pub resume_from_bounds :
    (declared margin : ℤ)
    → leb_ℤ (pos 0) declared ≡ true
    → (leb_ℤ (pos 0) (resume_from declared margin) ≡ true)
      × (leb_ℤ (resume_from declared margin) declared ≡ true)
unfolding resume_from
resume_from_bounds declared margin h =
    elim (Bool-cases (leb_ℤ (pos 0) (declared -ℤ margin_of margin))) [
      | inl e ↦ rw e (e, sub_margin declared margin)
      | inr e ↦ rw e (refl, h)
    ]

-- What is between 0 and the largest int64.
abbrev pub is_time : ℤ → Bool
is_time x = leb_ℤ (pos 0) x && leb_ℤ x max_int64

-- A time less a margin is an int64.
sub-margin_int64 :
    (a margin : ℤ)
    → is_time a ≡ true
    → leb_ℤ margin max_int64 ≡ true
    → wrap_int64 (a -ℤ margin_of margin) ≡ a -ℤ margin_of margin
sub-margin_int64 (pos a) (pos m) h k = elim (Bool-cases (leb 0 m)) [
  | inl e ↦ rw e (sub_int64 a m (ground (arith, h)) (ground (arith, k)))
  | inr e ↦ absurd (ground arith)
]
sub-margin_int64 (pos a) (negsuc m) h k = sub_int64 a 0 (ground (arith, h)) (omega arith)
sub-margin_int64 (negsuc a) m h k = absurd (cc)

-- The window of a gap contains both ends of the break, whichever way the clock of the filer went and
-- whatever the margin, where both ends are times that are not negative and all are int64.
pub gap_window_bounds :
    (c h margin : ℤ)
    → is_time c ≡ true
    → is_time h ≡ true
    → leb_ℤ margin max_int64 ≡ true
    → (leb_ℤ (gap_window c h margin).0 c ≡ true)
      × (leb_ℤ (gap_window c h margin).0 h ≡ true)
      × (leb_ℤ c (gap_window c h margin).1 ≡ true)
      × (leb_ℤ h (gap_window c h margin).1 ≡ true)
unfolding gap_window
gap_window_bounds c h margin tc th tm = elim (Bool-cases (leb_ℤ c h)) [
  | inl e ↦
      rw (e, sub-margin_int64 c margin tc tm)
        (sub_margin c margin, leb_ℤ_trans _ c h (sub_margin c margin) e, e, leb_ℤ_refl h)
  | inr e ↦
      let back : leb_ℤ h c ≡ true = leb_ℤ_total c h e in
      rw (e, sub-margin_int64 h margin th tm)
        (leb_ℤ_trans _ h c (sub_margin h margin) back, sub_margin h margin, leb_ℤ_refl c, back)
]
