-- ===== src/Filer/Split.antt =====
-- splitObjectPath of translate.go: which paths are objects.
use fileagent.Prelude.{
  ℕ, ◌≡◌, refl, ap, ◌∙◌, Bool, true, false, not, ◌&&◌, Option, none, some, [], ◌∷◌, ◌++◌, ◌==◌,
  arith, Bool-cases, inl, inr,
}
use fileagent.Filer.Paths.{
  Text, is_empty, cut_prefix, cut, before_that, contains, slash, buckets_prefix, is_hidden,
  is_uploads_staging, object_of, cut_object, split_object_path,
}

cut_prefix-append : (p s : Text) → cut_prefix p (p ++ s) ≡ some s
unfolding cut_prefix
cut_prefix-append [] s = refl
cut_prefix-append (c ∷ p) s = ground (arith, cut_prefix-append p s)

cut_prefix_sound : (p s : Text) {r : Text} → cut_prefix p s ≡ some r → s ≡ p ++ r
unfolding cut_prefix
cut_prefix_sound [] s h = ground arith
cut_prefix_sound (c ∷ p) [] h = absurd (cc)
cut_prefix_sound (c ∷ p) (d ∷ s) {r = r} h = elim (Bool-cases (c == d)) [
  | inl e ↦ let ih : s ≡ p ++ r = cut_prefix_sound p s (rw e at h) in ground arith
  | inr e ↦ absurd (ground arith)
]

cut-append : (x : ℕ) (b k : Text) → contains x b ≡ false → cut x (b ++ x ∷ k) ≡ some (b, k)
unfolding cut contains
cut-append x [] k h = ground arith
cut-append x (c ∷ b) k h = ground (arith, cut-append x b k)

cut_here :
    (x c : ℕ) (s : Text) {b k : Text}
    → (c == x) ≡ true
    → ◌≡◌ {A = Option (Text × Text)} (some ([], s)) (some (b, k))
    → (c ∷ s ≡ b ++ x ∷ k) × (contains x b ≡ false)
unfolding contains
cut_here x c s e h = ground arith

cut_later :
    (x c : ℕ) (o : Option (Text × Text)) {s b k : Text}
    → (c == x) ≡ false
    → ((b' k' : Text) → o ≡ some (b', k') → (s ≡ b' ++ x ∷ k') × (contains x b' ≡ false))
    → before_that c o ≡ some (b, k)
    → (c ∷ s ≡ b ++ x ∷ k) × (contains x b ≡ false)
unfolding contains
cut_later x c none e ih h = absurd (cc)
cut_later x c (some (b', k')) {s = s} e ih h = let (whole, clear) = ih b' k' refl in ground arith

cut_sound :
    (x : ℕ) (s : Text) {b k : Text}
    → cut x s ≡ some (b, k)
    → (s ≡ b ++ x ∷ k) × (contains x b ≡ false)
unfolding cut contains
cut_sound x [] h = absurd (cc)
cut_sound x (c ∷ s) {b = b} {k = k} h = elim (Bool-cases (c == x)) [
  | inl e ↦ cut_here x c s e (rw e at h)
  | inr e ↦ cut_later x c (cut x s) e (λ b' k' p. cut_sound x s p) (rw e at h)
]

-- A bucket with a slash-free, visible name, and a key that is not multipart staging.
abbrev pub is_object : Text → Text → Bool
is_object b k =
    not (is_empty b)
    && not (is_empty k)
    && not (contains slash b)
    && not (is_hidden b)
    && not (is_uploads_staging k)

abbrev pub path_of : Text → Text → Text
path_of b k = buckets_prefix ++ (b ++ slash ∷ k)

object_of_object : (b k : Text) → is_object b k ≡ true → object_of (some (b, k)) ≡ some (b, k)
object_of_object b k h = ground arith

-- The path of an object in a bucket splits into that bucket and that key.
pub split_object_path-path_of :
    (b k : Text) → is_object b k ≡ true → split_object_path (path_of b k) ≡ some (b, k)
unfolding split_object_path
split_object_path-path_of b k h =
    ap cut_object (cut_prefix-append buckets_prefix (b ++ slash ∷ k))
    ∙ ap object_of (cut-append slash b k (ground arith))
    ∙ object_of_object b k h

object_of_sound :
    (o : Option (Text × Text)) {b k : Text}
    → object_of o ≡ some (b, k)
    → (o ≡ some (b, k))
      × ((not (is_empty b) && not (is_empty k) && not (is_hidden b) && not (is_uploads_staging k))
          ≡ true)
object_of_sound none h = absurd (cc)
object_of_sound (some (b', k')) h = ground arith

-- Only the path of an object splits: what comes out names it exactly.
pub split_object_path_sound :
    (full : Text) {b k : Text}
    → split_object_path full ≡ some (b, k)
    → (full ≡ path_of b k) × (is_object b k ≡ true)
unfolding split_object_path
split_object_path_sound full {b = b} {k = k} h = go (cut_prefix buckets_prefix full) refl h
  where
    go :
        (o : Option Text)
        → cut_prefix buckets_prefix full ≡ o
        → cut_object o ≡ some (b, k)
        → (full ≡ path_of b k) × (is_object b k ≡ true)
    go none e p = absurd (cc)
    go (some rest) e p =
        let (cuts, visible) = object_of_sound (cut slash rest) p in
        let (whole, clear) = cut_sound slash rest cuts in
        (cut_prefix_sound buckets_prefix full e ∙ ap (λ r. buckets_prefix ++ r) whole, ground arith)
