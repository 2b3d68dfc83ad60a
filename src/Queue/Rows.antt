-- ===== src/Queue/Rows.antt =====
-- Laws of the statements of Sql.antt, for the proofs about the queue.
use mathlib.Core.List.{Memᴰ}
use fileagent.Prelude.{
  ℕ, zero, suc, ◌+◌, ◌<◌, ◌≡◌, refl, ap, inl, inr, Bool, true, false, ◌&&◌, ◌||◌, not, List, [],
  ◌∷◌, ◌++◌, arith, if◌then◌else◌, any, count_where, ◌==◌, length, take, Bool-cases,
}
use fileagent.Queue.Sql.{select, update, delete, insert_by, order_by}

module _ {ℓ} {A : Type ℓ} where
  pub any-append : (p : A → Bool) (xs ys : List A) → any p (xs ++ ys) ≡ (any p xs || any p ys)
  unfolding any
  any-append p [] ys = refl
  any-append p (x ∷ xs) ys = ground (arith, any-append p xs ys)

  -- A property that the update keeps row by row is still found.
  pub any-update :
      (p q : A → Bool) (f : A → A) (l : List A)
      → ((x : A) → q x ≡ true → p x ≡ true → q (f x) ≡ true)
      → any q l ≡ true
      → any q (update p f l) ≡ true
  unfolding any update
  any-update p q f [] keep h = h
  any-update p q f (x ∷ xs) keep h = ground (arith, keep x, any-update p q f xs keep)

  -- If no updated row has the property, it is found afterwards exactly if it was.
  pub any-update_reach :
      (p q : A → Bool) (f : A → A) (l : List A)
      → ((x : A) → p x ≡ true → q (f x) ≡ true)
      → any p l ≡ true
      → any q (update p f l) ≡ true
  unfolding any update
  any-update_reach p q f [] set h = ground arith
  any-update_reach p q f (x ∷ xs) set h = ground (arith, set x, any-update_reach p q f xs set)

  -- No row has the property after the update.
  pub any-update_clear :
      (p q : A → Bool) (f : A → A) (l : List A)
      → ((x : A) → q (if p x then f x else x) ≡ false)
      → any q (update p f l) ≡ false
  unfolding any update
  any-update_clear p q f [] clear = refl
  any-update_clear p q f (x ∷ xs) clear = ground (arith, clear x, any-update_clear p q f xs clear)

  -- The update leaves the property of every row as it is.
  pub any-update_same :
      (p q : A → Bool) (f : A → A) (l : List A)
      → ((x : A) → q (f x) ≡ q x)
      → any q (update p f l) ≡ any q l
  unfolding any update
  any-update_same p q f [] same = refl
  any-update_same p q f (x ∷ xs) same = elim (Bool-cases (p x)) [
    | inl e ↦ rw (e, same x, any-update_same p q f xs same)
    | inr e ↦ rw (e, any-update_same p q f xs same)
  ]

  pub update_none : (p : A → Bool) (f : A → A) (l : List A) → any p l ≡ false → update p f l ≡ l
  unfolding any update
  update_none p f [] h = refl
  update_none p f (x ∷ xs) h = ground (arith, update_none p f xs)

  pub count-zero : (p : A → Bool) (l : List A) → count_where p l ≡ 0 → any p l ≡ false
  unfolding any count_where
  count-zero p [] h = refl
  count-zero p (x ∷ xs) h = ground (arith, count-zero p xs)

  pub count-pos : (p : A → Bool) (l : List A) → any p l ≡ true → 0 < count_where p l
  unfolding any count_where
  count-pos p [] h = ground arith
  count-pos p (x ∷ xs) h = ground (arith, count-pos p xs)

  -- What is not deleted is still found.
  pub any-delete :
      (p q : A → Bool) (l : List A)
      → ((x : A) → q x ≡ true → p x ≡ false)
      → any q l ≡ true
      → any q (delete p l) ≡ true
  unfolding any delete
  any-delete p q [] keep h = h
  any-delete p q (x ∷ xs) keep h = ground (arith, keep x, any-delete p q xs keep)

  pub any-delete_clear :
      (p q : A → Bool) (l : List A) → any q l ≡ false → any q (delete p l) ≡ false
  unfolding any delete
  any-delete_clear p q [] h = h
  any-delete_clear p q (x ∷ xs) h = ground (arith, any-delete_clear p q xs)

  pub any-delete_self : (p : A → Bool) (l : List A) → any p (delete p l) ≡ false
  unfolding any delete
  any-delete_self p [] = refl
  any-delete_self p (x ∷ xs) = ground (arith, any-delete_self p xs)

  pub length-delete : (p : A → Bool) (l : List A) → length (delete p l) + count_where p l ≡ length l
  unfolding delete count_where
  length-delete p [] = omega arith
  length-delete p (x ∷ xs) = ground (arith, length-delete p xs)

  pub length-update : (p : A → Bool) (f : A → A) (l : List A) → length (update p f l) ≡ length l
  unfolding update
  length-update p f [] = refl
  length-update p f (x ∷ xs) = ap suc (length-update p f xs)

  pub count-delete :
      (p q : A → Bool) (l : List A)
      → ((x : A) → p x ≡ true → q x ≡ true)
      → count_where q (delete p l) + count_where p l ≡ count_where q l
  unfolding delete count_where
  count-delete p q [] inc = omega arith
  count-delete p q (x ∷ xs) inc = ground (arith, inc x, count-delete p q xs inc)

  -- Every row of a list has the property.
  abbrev pub Every : (A → Type 0) → List A → Type 0
  Every P [] = Unit
  Every P (x ∷ xs) = P x × Every P xs

  pub Every-select :
      (P : A → Type 0) (p : A → Bool) (l : List A)
      → ((x : A) → Memᴰ x l → p x ≡ true → P x)
      → Every P (select p l)
  unfolding select
  Every-select P p [] h = tt
  Every-select P p (x ∷ xs) h = elim (Bool-cases (p x)) [
    | inl e ↦ rw e (h x (Memᴰ.head refl) e, Every-select P p xs (λ y m e'. h y (Memᴰ.tail m) e'))
    | inr e ↦ rw e (Every-select P p xs (λ y m e'. h y (Memᴰ.tail m) e'))
  ]

  Every-insert_by :
      (P : A → Type 0) (before : A → A → Bool) (x : A) (l : List A)
      → P x
      → Every P l
      → Every P (insert_by before x l)
  unfolding insert_by
  Every-insert_by P before x [] h hs = (h, tt)
  Every-insert_by P before x (y ∷ ys) h hs = elim (Bool-cases (before y x)) [
    | inl e ↦ rw e (hs.0, Every-insert_by P before x ys h hs.1)
    | inr e ↦ rw e (h, hs)
  ]

  pub Every-order_by :
      (P : A → Type 0) (before : A → A → Bool) (l : List A)
      → Every P l
      → Every P (order_by before l)
  unfolding order_by
  Every-order_by P before [] hs = tt
  Every-order_by P before (x ∷ xs) hs =
      Every-insert_by P before x (order_by before xs) hs.0 (Every-order_by P before xs hs.1)

  pub Every-take : (P : A → Type 0) (n : ℕ) (l : List A) → Every P l → Every P (take n l)
  Every-take P zero l hs = tt
  Every-take P (suc n) [] hs = tt
  Every-take P (suc n) (x ∷ xs) hs = (hs.0, Every-take P n xs hs.1)

  pub any-mem : (p : A → Bool) (l : List A) {t : A} → Memᴰ t l → p t ≡ true → any p l ≡ true
  unfolding any
  any-mem p [] m h = elim m [ ]
  any-mem p (x ∷ xs) {t = t} (Memᴰ.head e) h = rw (← e, h)
  any-mem p (x ∷ xs) {t = t} (Memᴰ.tail m) h = ground (arith, any-mem p xs m h)

  -- Where no row is in `s`, the rows that `p` finds do not have the property `q`: what is done to
  -- them does not lose it.
  pub any-update_apart :
      (s p q : A → Bool) (f : A → A) (l : List A)
      → ((x : A) → s x ≡ false → p x ≡ true → q x ≡ false)
      → any s l ≡ false
      → any q l ≡ true
      → any q (update p f l) ≡ true
  unfolding any update
  any-update_apart s p q f [] apart none_in h = h
  any-update_apart s p q f (x ∷ xs) apart none_in h =
      ground (arith, apart x, any-update_apart s p q f xs apart)

  pub any-delete_apart :
      (s p q : A → Bool) (l : List A)
      → ((x : A) → s x ≡ false → p x ≡ true → q x ≡ false)
      → any s l ≡ false
      → any q l ≡ true
      → any q (delete p l) ≡ true
  unfolding any delete
  any-delete_apart s p q [] apart none_in h = h
  any-delete_apart s p q (x ∷ xs) apart none_in h =
      ground (arith, apart x, any-delete_apart s p q xs apart)

  pub any-eq-count : (p : A → Bool) (l : List A) → any p l ≡ not (count_where p l == 0)
  unfolding any count_where
  any-eq-count p [] = refl
  any-eq-count p (x ∷ xs) = ground (arith, any-eq-count p xs)

  pub any-false_of_imp :
      (p q : A → Bool) (l : List A)
      → ((x : A) → q x ≡ true → p x ≡ true)
      → any p l ≡ false
      → any q l ≡ false
  unfolding any
  any-false_of_imp p q [] inc h = h
  any-false_of_imp p q (x ∷ xs) inc h = ground (arith, inc x, any-false_of_imp p q xs inc)

  pub any-update-false :
      (p q : A → Bool) (f : A → A) (l : List A)
      → ((x : A) → p x ≡ true → q (f x) ≡ false)
      → any q l ≡ false
      → any q (update p f l) ≡ false
  unfolding any update
  any-update-false p q f [] clear h = h
  any-update-false p q f (x ∷ xs) clear h = ground (arith, clear x, any-update-false p q f xs clear)

  -- A selection by what the update keeps is updated in turn.
  pub select-update :
      (s p : A → Bool) (f : A → A) (l : List A)
      → ((x : A) → s (f x) ≡ s x)
      → select s (update p f l) ≡ update p f (select s l)
  unfolding select update
  select-update s p f [] same = refl
  select-update s p f (x ∷ xs) same = elim (Bool-cases (p x)) [
    | inl e ↦ elim (Bool-cases (s x)) [
      | inl k ↦ rw (e, same x, k, select-update s p f xs same, e)
      | inr k ↦ rw (e, same x, k, select-update s p f xs same)
    ]
    | inr e ↦ elim (Bool-cases (s x)) [
      | inl k ↦ rw (e, k, select-update s p f xs same, e)
      | inr k ↦ rw (e, k, select-update s p f xs same)
    ]
  ]

  pub select-head :
      (p : A → Bool) (l : List A) {t : A} {ts : List A} → select p l ≡ t ∷ ts → p t ≡ true
  unfolding select
  select-head p [] h = absurd (cc)
  select-head p (x ∷ xs) {t = t} h = elim (Bool-cases (p x)) [
    | inl e ↦ let same : x ≡ t = ground arith in rw (← same) e
    | inr e ↦ select-head p xs (rw e at h)
  ]

  pub any-select :
      (p q : A → Bool) (l : List A) {t : A} {ts : List A}
      → select p l ≡ t ∷ ts
      → q t ≡ true
      → any (λ x. p x && q x) l ≡ true
  unfolding select any
  any-select p q [] h k = absurd (cc)
  any-select p q (x ∷ xs) {t = t} h k = elim (Bool-cases (p x)) [
    | inl e ↦ let same : x ≡ t = ground arith in rw (e, same, k)
    | inr e ↦ rw e (any-select p q xs (rw e at h) k)
  ]
