-- ===== src/Uploader/Parts.antt =====
-- The order law of multipart.go: the bytes fed to the digest are those of the parts, in order.
use fileagent.Prelude.{
  ℕ, ◌+◌, ◌≤◌, ◌<◌, String, ◌≡◌, ◌≢◌, refl, sym, subst, ◌∙◌, ap, true, Option, none, some, List, [],
  ◌∷◌, ◌++◌, arith, length,
}
use mathlib.Core.List.{append-nil, append_assoc}
use fileagent.Filer.Paths.{Text}
use fileagent.Uploader.Types.{
  CompletePart, Answer, answer, refusal, ObjectStore, Config, Site, ok, Failure, M, ask, call,
  get_task, pure, raise,
}
use fileagent.Uploader.Etags.{normalize_etag, etag_is_comparable, offset_of, length_of, part_range}
use fileagent.Uploader.Laws.{
  Contents, Assembles, nothing, part_then, StoreLaws, bind_ok, text_eq_sound,
}
use fileagent.Uploader.Multipart.{
  slice, matches_md5, checked_bytes, checked_range, hash_resume_part, verify_all, after_put,
  put_bytes,
}

pub length-append : (a b : List ℕ) → length (a ++ b) ≡ length a + length b
length-append [] b = omega arith
length-append (x ∷ a) b = omega (arith, length-append a b)

module _ {S : Type 0} (view : Contents S) where
  pub Assembles-append :
      (s : S) (id : String) (k : ℕ) (ps : List CompletePart) (fed : List ℕ) (p : CompletePart)
      (bytes : List ℕ)
      → p.part_number < k
      → view.part s id p.part_number ≡ some bytes
      → Assembles view s id k ps fed
      → Assembles view s id k (ps ++ p ∷ []) (fed ++ bytes)
  Assembles-append s id k [] fed p bytes lt e nothing =
      subst (Assembles view s id k (p ∷ [])) (append-nil bytes)
        (part_then p [] bytes [] lt e nothing)
  Assembles-append s id k (q ∷ qs) fed p bytes lt e (part_then _ _ first rest ql qe a) =
      subst (Assembles view s id k (q ∷ (qs ++ p ∷ []))) (sym (append_assoc first rest bytes)) (
        part_then q (qs ++ p ∷ []) first (rest ++ bytes) ql qe
          (Assembles-append s id k qs rest p bytes lt e a))

  -- The parts below `k` are read alike in another state.
  pub Assembles-frame :
      (s s' : S) (id : String) (k m : ℕ) (ps : List CompletePart) (fed : List ℕ)
      → k ≤ m
      → ((n : ℕ) → n < k → view.part s' id n ≡ view.part s id n)
      → Assembles view s id k ps fed
      → Assembles view s' id m ps fed
  Assembles-frame s s' id k m ps fed le f nothing = nothing
  Assembles-frame s s' id k m ps fed le f (part_then p qs bytes rest lt e a) =
      part_then p qs bytes rest (omega arith) (f p.part_number lt ∙ e)
        (Assembles-frame s s' id k m qs rest le f a)

-- The bytes are those of the range in a reading of the file.
abbrev pub ReadFrom : (ℕ → Option (List ℕ)) → Option (ℕ × ℕ) → List ℕ → Type 0
ReadFrom read range bytes =
    (turn : ℕ) × (offset : ℕ) × (size : ℕ) × (content : List ℕ) × (read turn ≡ some content)
    × (range ≡ some (offset, size))
    × (bytes ≡ slice offset size content)

checked_bytes_lem :
    (cfg : Config) (offset size : ℕ) (etag : Text) (o : Option (List ℕ)) {range : List ℕ}
    → checked_bytes cfg offset size etag o ≡ some range
    → (etag_is_comparable etag ≡ true)
      × (normalize_etag etag ≡ cfg.md5 range)
      × ((content : List ℕ) × (o ≡ some content) × (range ≡ slice offset size content))
unfolding checked_bytes
checked_bytes_lem cfg offset size etag none h = absurd (cc)
checked_bytes_lem cfg offset size etag (some bytes) {range = range} h =
    let e : (slice offset size bytes ≡ range)
        × (etag_is_comparable etag ≡ true)
        × (matches_md5 cfg etag (slice offset size bytes) ≡ true) =
      ground arith in
    (e.1, text_eq_sound _ _ e.2 ∙ ap cfg.md5 e.0, (bytes, refl, sym e.0))

module _ {S : Type 0} (cfg : Config) where
  checked_lem :
      (o : Option (List ℕ)) (s : Site S) {bytes : List ℕ}
      → (elim o as (λ _. M S (List ℕ)) [
        | some range ↦ pure range
        | none ↦ raise Failure.stale_remote_parts
      ]
          s).0
        ≡ ok bytes
      → (o ≡ some bytes)
        × ((elim o as (λ _. M S (List ℕ)) [
          | some range ↦ pure range
          | none ↦ raise Failure.stale_remote_parts
        ]
              s).1
            ≡ s)
  checked_lem none s h = absurd (cc)
  checked_lem (some range) s h = (cc, refl)

  checked_range_lem :
      (etag : Text) (o : Option (ℕ × ℕ)) (s : Site S) {bytes : List ℕ}
      → (checked_range cfg etag o s).0 ≡ ok bytes
      → ((checked_range cfg etag o s).1.store ≡ s.store)
        × ((checked_range cfg etag o s).1.read ≡ s.read)
        × (etag_is_comparable etag ≡ true)
        × (normalize_etag etag ≡ cfg.md5 bytes)
        × ReadFrom s.read o bytes
  unfolding ask
  checked_range_lem etag none s h = absurd (cc)
  checked_range_lem etag (some (offset, size)) s {bytes = bytes} h =
      let (e, same) = checked_lem (checked_bytes cfg offset size etag (s.read s.turn)) _ h in
      let facts = checked_bytes_lem cfg offset size etag (s.read s.turn) e in
      let (comparable, digest, (content, reads, range)) = facts in
      (
        ap Site.store same,
        ap Site.read same,
        comparable,
        digest,
        (s.turn, offset, size, content, reads, refl, range),
      )

  pub hash_resume_part_lem :
      (size num : ℕ) (etag : Text) (s : Site S) {bytes : List ℕ}
      → (hash_resume_part cfg size num etag s).0 ≡ ok bytes
      → ((hash_resume_part cfg size num etag s).1.store ≡ s.store)
        × ((hash_resume_part cfg size num etag s).1.read ≡ s.read)
        × (etag_is_comparable etag ≡ true)
        × (normalize_etag etag ≡ cfg.md5 bytes)
        × ReadFrom s.read (part_range num size cfg.part_size) bytes
  unfolding hash_resume_part
  hash_resume_part_lem size num etag s h =
      checked_range_lem etag (part_range num size cfg.part_size) s h

  pub verify_all-same :
      (size : ℕ) (ps : List CompletePart) (s : Site S)
      → (verify_all cfg size ps s).0 ≡ ok tt
      → ((verify_all cfg size ps s).1.store ≡ s.store)
        × ((verify_all cfg size ps s).1.read ≡ s.read)
  unfolding verify_all
  verify_all-same size [] s h = (refl, refl)
  verify_all-same size (p ∷ ps) s h =
      let (_, h0, h1, e) =
        bind_ok (hash_resume_part cfg size p.part_number p.etag) (λ _. verify_all cfg size ps) s
          h in
      let (stored, read, _, _, _) = hash_resume_part_lem size p.part_number p.etag s h0 in
      let rest = verify_all-same size ps _ h1 in rw e (rest.0 ∙ stored, rest.1 ∙ read)

module _ {S : Type 0} (store : ObjectStore S) (cfg : Config) (view : Contents S)
    (laws : StoreLaws store view cfg.md5) where
  after_put_lem :
      (declared : ℕ) (bytes : List ℕ) (a : Answer Text) (s : Site S) {etag : Text}
      → (after_put store cfg declared bytes a s).0 ≡ ok etag
      → (a ≡ answer etag) × ((after_put store cfg declared bytes a s).1 ≡ s)
  after_put_lem declared bytes (refusal x) s h = absurd (cc)
  after_put_lem declared bytes (answer etag) s h = ground arith

  -- A part that is sent holds the bytes that are fed to the digest, and the other parts stay.
  pub put_bytes_lem :
      (id : String) (num size : ℕ) (o : Option (List ℕ)) (s : Site S) {bytes : List ℕ} {etag : Text}
      → (put_bytes store cfg id num size o s).0 ≡ ok (bytes, etag)
      → (view.part (put_bytes store cfg id num size o s).1.store id num ≡ some bytes)
        × ((m : ℕ)
            → m ≢ num
            → view.part (put_bytes store cfg id num size o s).1.store id m ≡ view.part s.store id m)
        × ((put_bytes store cfg id num size o s).1.read ≡ s.read)
  unfolding get_task call
  put_bytes_lem id num size none s h = absurd (cc)
  put_bytes_lem id num size (some content) s {bytes = bytes} h =
      let declared = length_of size cfg.part_size num in
      let range = slice (offset_of cfg.part_size num) declared content in
      let t = s.task in
      let put = store.put_object_part t.bucket t.storage_path id num range declared s.store in
      let s1 : Site S = record s { store = put.1 } in
      let (got, h0, h1, e) =
        bind_ok (after_put store cfg declared range put.0) (λ x. pure (range, x)) s1 h in
      let (answered, same) = after_put_lem declared range put.0 s1 h0 in
      let fed : range ≡ bytes = cc in
      rw (e, same)
        (
          laws.put_part_law t.bucket t.storage_path id num range declared s.store answered
              ∙ ap some fed,
          λ m ne. laws.put_part_frame t.bucket t.storage_path id num range declared s.store m ne,
          refl,
        )
