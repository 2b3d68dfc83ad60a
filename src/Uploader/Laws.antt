-- ===== src/Uploader/Laws.antt =====
-- What the uploader relies on of an object store, as S3 documents it, and of MD5; and how a block of
-- Types.antt that answers is read.
use fileagent.Prelude.{
  ℕ, ◌<◌, String, ◌≡◌, ◌≢◌, refl, true, Option, some, List, [], ◌∷◌, ◌++◌, arith,
}
use fileagent.Filer.Paths.{Text, text_eq}
use fileagent.Uploader.Types.{
  CompletePart, answer, ObjectStore, Config, Site, Attempt, ok, err, M, continue, ◌>>=◌,
}
use fileagent.Uploader.Etags.{normalize_etag, etag_is_comparable, part_range}
use fileagent.Uploader.Multipart.{etag_of, slice}

-- The object under a key, and the content of a part of an upload.
pub record Contents (S : Type 0) : Type 0 where
  pub object : S → String → String → Option (List ℕ)
  pub part : S → String → ℕ → Option (List ℕ)

module _ {S : Type 0} (view : Contents S) where
  -- The parts of the list, all numbered below `k`, hold these bytes one after the other.
  pub data Assembles (s : S) (id : String) (k : ℕ) : List CompletePart → List ℕ → Type 0 where
    nothing : Assembles s id k [] []
    part_then :
        (p : CompletePart) (ps : List CompletePart) (bytes rest : List ℕ)
        → p.part_number < k
        → view.part s id p.part_number ≡ some bytes
        → Assembles s id k ps rest
        → Assembles s id k (p ∷ ps) (bytes ++ rest)

-- An object that is put has the bytes delivered; a part that is put has them and the other parts of
-- the upload stay; a listed part whose etag is an MD5 has a content with that MD5; and a completed
-- upload is the contents of the listed parts in their order.
pub record StoreLaws {S : Type 0} (store : ObjectStore S) (view : Contents S) (md5 : List ℕ → Text)
    : Type 0 where
  pub put_object_law :
      (b o : String) (body : List ℕ) (n : ℕ) (s : S) {etag : Text}
      → (store.put_object b o body n s).0 ≡ answer etag
      → view.object (store.put_object b o body n s).1 b o ≡ some body
  pub put_part_law :
      (b o id : String) (num : ℕ) (body : List ℕ) (n : ℕ) (s : S) {etag : Text}
      → (store.put_object_part b o id num body n s).0 ≡ answer etag
      → view.part (store.put_object_part b o id num body n s).1 id num ≡ some body
  pub put_part_frame :
      (b o id : String) (num : ℕ) (body : List ℕ) (n : ℕ) (s : S) (m : ℕ)
      → m ≢ num
      → view.part (store.put_object_part b o id num body n s).1 id m ≡ view.part s id m
  pub list_law :
      (b o id : String) (s : S) (l : List CompletePart) (num : ℕ) (etag : Text)
      → (store.list_object_parts b o id s).0 ≡ answer l
      → etag_of num l ≡ some etag
      → etag_is_comparable etag ≡ true
      → (bytes : List ℕ) × (view.part (store.list_object_parts b o id s).1 id num ≡ some bytes)
        × (normalize_etag etag ≡ md5 bytes)
  pub complete_law :
      (b o id : String) (ps : List CompletePart) (bytes : List ℕ) (k : ℕ) (s : S) {etag : Text}
      → (store.complete_multipart_upload b o id ps s).0 ≡ answer etag
      → Assembles view s id k ps bytes
      → view.object (store.complete_multipart_upload b o id ps s).1 b o ≡ some bytes

-- MD5 tells apart what a resumption from a site compares: a part that the store has when the upload
-- of the task is listed, and the range of that part in a reading of the file.
pub record NoCollision {S : Type 0} (store : ObjectStore S) (cfg : Config) (view : Contents S)
    (s : Site S) : Type 0 where
  pub apart :
      (num turn offset size total : ℕ) (content part : List ℕ)
      → view.part
          (store.list_object_parts s.task.bucket s.task.storage_path s.task.upload_id s.store).1
          s.task.upload_id
          num
        ≡ some part
      → s.read turn ≡ some content
      → part_range num total cfg.part_size ≡ some (offset, size)
      → cfg.md5 part ≡ cfg.md5 (slice offset size content)
      → part ≡ slice offset size content

module _ {S A B : Type 0} where
  continue_ok :
      (r : Attempt A) (f : A → M S B) (s : Site S) {b : B}
      → (continue r f s).0 ≡ ok b
      → (a : A) × (r ≡ ok a) × ((f a s).0 ≡ ok b) × (continue r f s ≡ f a s)
  continue_ok (ok a) f s h = (a, refl, h, refl)
  continue_ok (err e) f s h = absurd (cc)

  pub bind_ok :
      (m : M S A) (f : A → M S B) (s : Site S) {b : B}
      → ((m >>= f) s).0 ≡ ok b
      → (a : A) × ((m s).0 ≡ ok a) × ((f a (m s).1).0 ≡ ok b) × ((m >>= f) s ≡ f a (m s).1)
  bind_ok m f s h = continue_ok (m s).0 f (m s).1 h

pub text_eq_sound : (a b : Text) → text_eq a b ≡ true → a ≡ b
unfolding text_eq
text_eq_sound [] [] h = refl
text_eq_sound [] (c ∷ s) h = absurd (cc)
text_eq_sound (c ∷ s) [] h = absurd (cc)
text_eq_sound (c ∷ s) (d ∷ t) h = ground (arith, text_eq_sound s t)
