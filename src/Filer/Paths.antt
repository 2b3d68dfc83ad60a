-- ===== src/Filer/Paths.antt =====
-- controlplane/internal/storage/seaweedfs/translate.go: paths, as lists of characters. The separators
-- are ASCII, so cutting a text at its bytes and at its characters is the same.
use Prim.Native.Char.{code}
use fileagent.Prelude.{
  ℕ, String, Bool, true, false, ◌&&◌, ◌||◌, Option, none, some, List, [], ◌∷◌, ◌++◌, ◌==◌,
  if◌then◌else◌,
}

abbrev pub Text : Type 0
Text = List ℕ

abbrev pub codes : String → Text
codes String.[] = []
codes (String.◌∷◌ c s) = code c ∷ codes s

abbrev pub is_empty : Text → Bool
is_empty [] = true
is_empty (_ ∷ _) = false

unfoldable pub text_eq : Text → Text → Bool
text_eq [] [] = true
text_eq (a ∷ s) (b ∷ t) = a == b && text_eq s t
text_eq _ _ = false

-- strings.CutPrefix
unfoldable pub cut_prefix : Text → Text → Option Text
cut_prefix [] s = some s
cut_prefix (p ∷ ps) [] = none
cut_prefix (p ∷ ps) (c ∷ s) = let rest = cut_prefix ps s in if p == c then rest else none

abbrev pub has_prefix : Text → Text → Bool
has_prefix p s = elim (cut_prefix p s) [ none ↦ false | some _ ↦ true ]

-- strings.Cut at one character: what is before and after its first occurrence.
abbrev pub before_that : ℕ → Option (Text × Text) → Option (Text × Text)
before_that c none = none
before_that c (some (b, a)) = some (c ∷ b, a)

unfoldable pub cut : ℕ → Text → Option (Text × Text)
cut sep [] = none
cut sep (c ∷ s) = let rest = before_that c (cut sep s) in if c == sep then some ([], s) else rest

-- strings.HasSuffix(s, "/")
unfoldable pub ends_with : ℕ → Text → Bool
ends_with x [] = false
ends_with x (c ∷ []) = c == x
ends_with x (c ∷ d ∷ s) = ends_with x (d ∷ s)

abbrev pub slash : ℕ
slash = b'/'

abbrev pub dot : ℕ
dot = b'.'

abbrev pub buckets_prefix : Text
buckets_prefix = codes "/buckets/"

unfoldable pub join_path : Text → Text → Text
unfolding ends_with
join_path dir name =
    if is_empty dir
    then slash ∷ name
    else if ends_with slash dir
    then dir ++ name
    else dir ++ slash ∷ name

-- strings.HasPrefix(bucket, ".")
unfoldable pub is_hidden : Text → Bool
is_hidden [] = false
is_hidden (c ∷ _) = c == dot

unfoldable pub is_uploads_staging : Text → Bool
unfolding text_eq cut_prefix
is_uploads_staging key = text_eq key (codes ".uploads") || has_prefix (codes ".uploads/") key

abbrev pub object_of : Option (Text × Text) → Option (Text × Text)
object_of none = none
object_of (some (b, k)) =
    if is_empty b || is_empty k
    then none
    else if is_hidden b || is_uploads_staging k
    then none
    else some (b, k)

abbrev pub cut_object : Option Text → Option (Text × Text)
cut_object none = none
cut_object (some rest) = object_of (cut slash rest)

unfoldable pub split_object_path : Text → Option (Text × Text)
unfolding cut_prefix cut is_hidden is_uploads_staging
split_object_path full = cut_object (cut_prefix buckets_prefix full)

unfoldable pub contains : ℕ → Text → Bool
contains x [] = false
contains x (c ∷ s) = c == x || contains x s

abbrev pub root_of : Option Text → Option Text
root_of none = none
root_of (some rest) =
    if is_empty rest || contains slash rest || is_hidden rest then none else some rest

unfoldable pub bucket_root : Text → Option Text
unfolding cut_prefix contains is_hidden
bucket_root full = root_of (cut_prefix buckets_prefix full)
