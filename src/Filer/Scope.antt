-- ===== src/Filer/Scope.antt =====
-- translate.go: what the changes of an event may name.
use fileagent.Prelude.{
  ◌≡◌, refl, Bool, true, false, not, ◌&&◌, ◌||◌, Option, none, some, List, [], ◌∷◌, ◌++◌, arith,
  if◌then◌else◌, inl, inr, Option-cases,
}
use fileagent.Prelude.Int.{ℤ, pos}
use fileagent.Filer.Paths.{
  Text, is_empty, contains, slash, is_hidden, split_object_path, bucket_root, root_of, cut_prefix,
  buckets_prefix, join_path, text_eq,
}
use fileagent.Filer.Split.{is_object, split_object_path_sound}
use fileagent.Filer.Translate.{
  ChangeKind, created, removed, bucket_removed, Change, Entry, EventNotification, Event, Response,
  represents_object, new_dir, file_size, change_at, root_removed, on_create, on_delete, on_move,
  on_entries, nil_entry, append_one, append_all, translate,
}

-- A change names an object of a visible bucket, outside multipart staging, or a bucket as a whole.
abbrev pub is_in_scope : Change → Bool
is_in_scope c = elim c.kind [
  | bucket_removed ↦
      is_empty c.key
      && c.is_directory
      && (not (is_empty c.bucket) && not (contains slash c.bucket) && not (is_hidden c.bucket))
  | _ ↦ is_object c.bucket c.key && not c.is_directory
]

abbrev pub InScope : List Change → Type 0
InScope [] = Unit
InScope (c ∷ cs) = (is_in_scope c ≡ true) × InScope cs

InScope-append : (l m : List Change) → InScope l → InScope m → InScope (l ++ m)
InScope-append [] m h k = k
InScope-append (c ∷ l) m h k = (h.0, InScope-append l m h.1 k)

abbrev is_object_kind : ChangeKind → Bool
is_object_kind created = true
is_object_kind removed = true
is_object_kind bucket_removed = false

object_in_scope :
    (kind : ChangeKind) (size ts : ℤ) (b k : Text)
    → is_object_kind kind ≡ true
    → is_object b k ≡ true
    → is_in_scope
        (record { kind = kind; bucket = b; key = k; size = size; ts_ns = ts; is_directory = false })
      ≡ true
object_in_scope created size ts b k obj h = ground (arith, h)
object_in_scope removed size ts b k obj h = ground (arith, h)
object_in_scope bucket_removed size ts b k obj h = absurd (cc)

change_at-InScope :
    (kind : ChangeKind) (size ts : ℤ) (full : Text)
    → is_object_kind kind ≡ true
    → InScope (change_at kind size ts full)
unfolding change_at
change_at-InScope kind size ts full obj = elim (Option-cases (split_object_path full)) [
  | inl e ↦ rw e tt
  | inr ((b, k), e) ↦
      rw e (object_in_scope kind size ts b k obj (split_object_path_sound full e).1, tt)
]

root_of-is_visible :
    (o : Option Text) {b : Text}
    → root_of o ≡ some b
    → (is_empty b || contains slash b || is_hidden b) ≡ false
root_of-is_visible none h = absurd (cc)
root_of-is_visible (some rest) h = ground arith

bucket_root-is_visible :
    (full : Text) {b : Text}
    → bucket_root full ≡ some b
    → (not (is_empty b) && not (contains slash b) && not (is_hidden b)) ≡ true
unfolding bucket_root
bucket_root-is_visible full e =
    ground (arith, root_of-is_visible (cut_prefix buckets_prefix full) e)

root_removed-InScope : (ts : ℤ) (full : Text) → InScope (root_removed ts full)
unfolding root_removed
root_removed-InScope ts full = elim (Option-cases (bucket_root full)) [
  | inl e ↦ rw e tt
  | inr (b, e) ↦ rw e (bucket_root-is_visible full e, tt)
]

InScope-if : (b : Bool) (l m : List Change) → InScope l → InScope m → InScope (if b then l else m)
InScope-if true l m h k = h
InScope-if false l m h k = k

on_create-InScope :
    (resp : Event) (n : EventNotification) (neu : Entry) → InScope (on_create resp n neu)
unfolding on_create
on_create-InScope resp n neu =
    InScope-if (represents_object neu) _ _
      (change_at-InScope created (file_size neu) resp.ts_ns (join_path (new_dir resp n) neu.name)
        refl)
      tt

on_delete-InScope : (resp : Event) (old : Entry) → InScope (on_delete resp old)
unfolding on_delete
on_delete-InScope resp old =
    let full = join_path resp.directory old.name in
    InScope-if (represents_object old) _ _ (change_at-InScope removed (pos 0) resp.ts_ns full refl)
      (root_removed-InScope resp.ts_ns full)

on_move-InScope :
    (resp : Event) (n : EventNotification) (old neu : Entry) → InScope (on_move resp n old neu)
unfolding on_move
on_move-InScope resp n old neu =
    let old_full = join_path resp.directory old.name in
    let new_full = join_path (new_dir resp n) neu.name in
    let creates = change_at-InScope created (file_size neu) resp.ts_ns new_full refl in
    InScope-if (not (represents_object old) && not (represents_object neu)) _ _ tt (
      InScope-if (text_eq old_full new_full) _ _
        (InScope-if (represents_object neu) _ _ creates
          (change_at-InScope removed (pos 0) resp.ts_ns new_full refl))
        (InScope-append _ _
          (InScope-if (represents_object old) _ _
            (change_at-InScope removed (pos 0) resp.ts_ns old_full refl) tt)
          (InScope-if (represents_object neu) _ _ creates tt)))

on_entries-InScope :
    (resp : Event) (n : EventNotification) (old neu : Option Entry)
    → InScope (on_entries resp n old neu)
unfolding on_entries
on_entries-InScope resp n none none = on_move-InScope resp n nil_entry nil_entry
on_entries-InScope resp n none (some neu) = on_create-InScope resp n neu
on_entries-InScope resp n (some old) none = on_delete-InScope resp old
on_entries-InScope resp n (some old) (some neu) = on_move-InScope resp n old neu

append_one-InScope :
    (changes : List Change) (resp : Event) → InScope changes → InScope (append_one changes resp)
unfolding append_one
append_one-InScope changes resp h = go resp.notification
  where
    go :
        (o : Option EventNotification)
        → InScope (elim o [
          | none ↦ changes
          | some n ↦ changes ++ on_entries resp n n.old_entry n.new_entry
        ])
    go none = h
    go (some n) = InScope-append changes _ h (on_entries-InScope resp n n.old_entry n.new_entry)

append_all-InScope :
    (changes : List Change) (l : List Event) → InScope changes → InScope (append_all changes l)
unfolding append_all
append_all-InScope changes [] h = h
append_all-InScope changes (m ∷ ms) h =
    append_all-InScope (append_one changes m) ms (append_one-InScope changes m h)

-- Every change that a response translates to is in scope: it creates or removes an object of a
-- visible bucket with a slash-free name, outside multipart staging, or it is the removal of a
-- visible bucket as a whole.
pub translate-InScope : (r : Option Response) → InScope (translate r)
unfolding translate
translate-InScope none = tt
translate-InScope (some resp) =
    append_all-InScope (append_one [] resp.envelope) resp.events
      (append_one-InScope [] resp.envelope tt)
