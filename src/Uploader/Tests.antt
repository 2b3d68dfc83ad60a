-- ===== src/Uploader/Tests.antt =====
-- The theorems of the uploader at a concrete object store, which keeps one object and its parts.
use fileagent.Prelude.{
  ℕ, zero, suc, ◌+◌, String, ◌≡◌, refl, ap, Bool, true, false, Bool-cases, inl, inr, Option, none,
  some, List, [], ◌∷◌, ◌++◌, ◌==◌, arith, if◌then◌else◌, count_where,
}
use fileagent.Prelude.Int.{pos}
use fileagent.Filer.Paths.{Text, codes}
use fileagent.Queue.Types.{running}
use fileagent.Queue.Lifecycle.{save_multipart_progress}
use fileagent.Queue.Samples.{some_task, running_world}
use fileagent.Uploader.Types.{
  CompletePart, answer, refusal, other, ObjectStore, Config, Delivered, Site, ok,
}
use fileagent.Uploader.Etags.{normalize_etag, etag_is_comparable, part_range}
use fileagent.Uploader.Laws.{Contents, Assembles, nothing, part_then, StoreLaws, NoCollision}
use fileagent.Uploader.Faithful.{Describes}
use fileagent.Uploader.Multipart.{slice, etag_of, discard_stale_upload}
use fileagent.Uploader.File.{upload_file}
use fileagent.Uploader.Reports.{upload_file-Describes}
use fileagent.Uploader.Discard.{Discarded, discard_stale_upload-Discarded}

normalize_etag_of_quoted : normalize_etag (codes "\"AB1\"") ≡ codes "ab1"
unfolding normalize_etag
normalize_etag_of_quoted = refl

record Shelf : Type 0 where
  object : Option (List ℕ)
  parts : List (ℕ × List ℕ)

abbrev lookup : ℕ → List (ℕ × List ℕ) → Option (List ℕ)
lookup n [] = none
lookup n (p ∷ ps) = if p.0 == n then some p.1 else lookup n ps

abbrev bytes_of : Option (List ℕ) → List ℕ
bytes_of none = []
bytes_of (some b) = b

abbrev assembled : Shelf → List CompletePart → List ℕ
assembled s [] = []
assembled s (p ∷ ps) = bytes_of (lookup p.part_number s.parts) ++ assembled s ps

eq_refl : (n : ℕ) → (n == n) ≡ true
eq_refl n = ground arith

eq_sound : (a b : ℕ) → (a == b) ≡ true → a ≡ b
eq_sound a b h = ground arith

abbrev sum : List ℕ → ℕ
sum [] = 0
sum (n ∷ l) = n + sum l

-- A digest of 32 digits that takes two values.
abbrev digest : List ℕ → Text
digest l =
    if sum l == 3
    then codes "33333333333333333333333333333333"
    else codes "00000000000000000000000000000000"

digest-normalized :
    (l : List ℕ) → (normalize_etag (digest l) ≡ digest l) × (etag_is_comparable (digest l) ≡ true)
unfolding normalize_etag etag_is_comparable
digest-normalized l = elim (Bool-cases (sum l == 3)) [
  | inl e ↦ rw e (refl, refl)
  | inr e ↦ rw e (refl, refl)
]

abbrev listed : Option (List ℕ) → List CompletePart
listed none = []
listed (some l) = record { part_number = 1; etag = digest l } ∷ []

listed_lem :
    (o : Option (List ℕ)) (num : ℕ) (etag : Text)
    → etag_of num (listed o) ≡ some etag
    → (l : List ℕ) × (num ≡ 1) × (o ≡ some l) × (digest l ≡ etag)
unfolding etag_of
listed_lem none num etag h = absurd (cc)
listed_lem (some l) num etag h = elim (Bool-cases (1 == num)) [
  | inl e ↦
      let same : some (digest l) ≡ some etag = rw e at h in
      (l, omega (arith, eq_sound 1 num e), refl, cc)
  | inr e ↦ let gone : ◌≡◌ {A = Option Text} none (some etag) = rw e at h in absurd (cc)
]

-- A store whose answers to uploads carry no MD5, and which lists the first part only.
abbrev shelf : ObjectStore Shelf
shelf = record {
  put_object = λ b o body n s. (answer [], record s { object = some body });
  new_multipart_upload = λ b o s. (answer "u1", s);
  put_object_part = λ b o id num body n s. (answer [], record s { parts = (num, body) ∷ s.parts });
  list_object_parts = λ b o id s. (answer (listed (lookup 1 s.parts)), s);
  complete_multipart_upload =
      λ b o id ps s. (answer [], record s { object = some (assembled s ps) });
  abort_multipart_upload = λ b o id s. (refusal other, s);
}

abbrev shelf_view : Contents Shelf
shelf_view = record { object = λ s _ _. s.object; part = λ s _ n. lookup n s.parts }

assembled-Assembles :
    (s : Shelf) (id : String) (k : ℕ) (ps : List CompletePart) (bytes : List ℕ)
    → Assembles shelf_view s id k ps bytes
    → assembled s ps ≡ bytes
assembled-Assembles s id k ps bytes nothing = refl
assembled-Assembles s id k ps bytes (part_then p rest b bs below here more) =
    rw (here, assembled-Assembles s id k rest bs more) refl

abbrev identity : List ℕ → List ℕ
identity b = b

shelf_laws : StoreLaws shelf shelf_view digest
shelf_laws = record {
  put_object_law = λ b o body n s h. refl;
  put_part_law = λ b o id num body n s h. rw (eq_refl num) refl;
  put_part_frame = λ b o id num body n s m ne. ground arith;
  list_law = λ b o id s l num etag h found comparable.
      (let same : listed (lookup 1 s.parts) ≡ l = cc in
        let (bytes, first, there, e) =
          listed_lem (lookup 1 s.parts) num etag (rw (← same) at found) in
        (bytes, rw first there, rw (← e) ((digest-normalized bytes).0)));
  complete_law = λ b o id ps bytes k s h a. ap some (assembled-Assembles s id k ps bytes a);
}

abbrev config : Config
config = record {
  part_size = 2;
  threshold = 2;
  has_queue = true;
  marshal_parts = λ _. "[]";
  sha256 = identity;
  md5 = digest;
}

abbrev file : List ℕ
file = 1 ∷ 2 ∷ 3 ∷ 4 ∷ 5 ∷ []

-- The first part of the file is at the store from an earlier attempt.
abbrev site : Site Shelf
site = record {
  turn = 0;
  task = record (some_task "t1" "u1" running) { parts_file_mtime = pos 7; parts_file_size = pos 5 };
  queue = running_world;
  store = record { object = none; parts = (1, 1 ∷ 2 ∷ []) ∷ [] };
  read = λ _. some file;
  stat = λ _. some (pos 7, 5);
}

abbrev report : Delivered
report = record {
  storage_path = "remote";
  bucket = "bucket";
  sha256 = 1 ∷ 2 ∷ 3 ∷ 4 ∷ 5 ∷ [];
  etag = [];
  size_bytes = 5;
}

-- The first part is checked and kept, and the other two are sent.
upload_file_ok : (upload_file shelf config site).0 ≡ ok report
unfolding upload_file save_multipart_progress count_where
upload_file_ok = refl

sent_parts : count_where (λ _. true) (upload_file shelf config site).1.store.parts ≡ 3
unfolding upload_file save_multipart_progress count_where
sent_parts = refl

abbrev starts_with_three : Text → Bool
starts_with_three [] = false
starts_with_three (c ∷ s) = c == b'3'

not_three :
    {P : Type 0}
    → codes "33333333333333333333333333333333" ≡ codes "00000000000000000000000000000000"
    → P
not_three h = let clash : true ≡ false = ap starts_with_three h in absurd (cc)

-- The digest tells the first part from every other start of the file.
start_apart :
    (size : ℕ) → digest (1 ∷ 2 ∷ []) ≡ digest (slice 0 size file) → 1 ∷ 2 ∷ [] ≡ slice 0 size file
unfolding slice
start_apart zero h = not_three h
start_apart (suc zero) h = not_three h
start_apart (suc (suc zero)) h = refl
start_apart (suc (suc (suc zero))) h = not_three h
start_apart (suc (suc (suc (suc zero)))) h = not_three h
start_apart (suc (suc (suc (suc (suc zero))))) h = not_three h
start_apart (suc (suc (suc (suc (suc (suc n)))))) h = not_three h

first_range : (total offset size : ℕ) → part_range 1 total 2 ≡ some (offset, size) → offset ≡ 0
unfolding part_range
first_range total offset size h = ground arith

site_apart : NoCollision shelf config shelf_view site
site_apart = record {
  apart = λ num turn offset size total content part there reads range same.
      (elim (Bool-cases (1 == num)) [
        | inl e ↦
            let first : num ≡ 1 = omega (arith, eq_sound 1 num e) in
            let start : offset ≡ 0 = first_range total offset size (rw first at range) in
            let held : some (1 ∷ 2 ∷ []) ≡ some part = rw e at there in
            let is : 1 ∷ 2 ∷ [] ≡ part = cc in
            let whole : file ≡ content = cc in
            rw (← is, start, ← whole) (start_apart size (rw (← is, start, ← whole) at same))
        | inr e ↦
            let gone : ◌≡◌ {A = Option (List ℕ)} none (some part) = rw e at there in absurd (cc)
      ]);
}

upload_file-Describes_example :
    Describes config shelf_view (upload_file shelf config site).1.store report
upload_file-Describes_example =
    upload_file-Describes shelf config shelf_view shelf_laws site report site_apart upload_file_ok

discard_stale_upload-Discarded_example :
    Discarded shelf config "u1" site (discard_stale_upload shelf config "u1" site)
discard_stale_upload-Discarded_example = discard_stale_upload-Discarded shelf config refl "u1" site
