-- ===== src/Uploader/Reports.antt =====
-- What UploadFile reports, against what the store then holds; and discarding an upload.
use fileagent.Prelude.{
  ℕ, ◌≡◌, refl, subst, Bool, true, false, ◌&&◌, Option, none, some, List, arith, length, ltb,
  str_eq, Bool-cases, inl, inr, if◌then◌else◌,
}
use fileagent.Prelude.Int.{ℤ, pos, ltb_ℤ}
use fileagent.Filer.Paths.{Text}
use fileagent.Queue.Types.{UploadTask, FileVersion}
use fileagent.Uploader.Types.{
  Answer, answer, refusal, ObjectStore, Config, Delivered, Failure, stale_remote_parts, Site,
  Attempt, ok, err, M, raise, ask, call, get_task, set_task, ◌>>=◌,
}
use fileagent.Uploader.Laws.{Contents, StoreLaws, NoCollision, bind_ok}
use fileagent.Uploader.Multipart.{slice, multipart_upload, discard_stale_upload}
use fileagent.Uploader.Etags.{Refusal, can_resume_parts}
use fileagent.Uploader.Remote.{Ready}
use fileagent.Uploader.Faithful.{Describes, multipart_upload-Describes}
use fileagent.Uploader.File.{
  is_tail, delivered, forget, unless_resumable, put_whole, single_part_upload, discard_and_forget,
  resume_gate, or_start_over, upload_content, upload_stated, upload_file,
}

module _ {S : Type 0} (store : ObjectStore S) (cfg : Config) (view : Contents S)
    (laws : StoreLaws store view cfg.md5) (s0 : Site S) (md5 : NoCollision store cfg view s0) where
  abbrev IsReady : Site S → Type 0
  IsReady = Ready store cfg view laws s0

  -- An action that answers leaves what it reports.
  record Faithful (m : M S Delivered) : Type 0 where
    at :
        (s : Site S) (r : Delivered)
        → IsReady s
        → (m s).0 ≡ ok r
        → Describes cfg view (m s).1.store r

  -- An action that answers leaves the site ready.
  record Readies {A : Type 0} (m : M S A) : Type 0 where
    at : (s : Site S) (a : A) → IsReady s → (m s).0 ≡ ok a → IsReady (m s).1

  Faithful-raise : (e : Failure) → Faithful (raise e)
  Faithful-raise e = record { at = λ s r ready h. absurd (cc) }

  Faithful-if :
      (b : Bool) (m n : M S Delivered) → Faithful m → Faithful n → Faithful (if b then m else n)
  Faithful-if true m n km kn = km
  Faithful-if false m n km kn = kn

  Faithful-bind :
      {A : Type 0} (m : M S A) (f : A → M S Delivered)
      → Readies m
      → ((a : A) → Faithful (f a))
      → Faithful (m >>= f)
  Faithful-bind m f q k = record {
    at = λ s r ready h.
        (let (a, h0, h1, e) = bind_ok m f s h in rw e ((k a).at (m s).1 r (q.at s a ready h0) h1));
  }

  ask-Readies : {A : Type 0} (f : Site S → A) → Readies (ask f)
  unfolding ask
  ask-Readies f = record { at = λ s a ready h. ready }

  get_task-Readies : Readies get_task
  unfolding get_task
  get_task-Readies = record { at = λ s a ready h. ready }

  -- After an upload was discarded there is none to list.
  discarded-Ready :
      (s : Site S)
      → (discard_and_forget store cfg s).0 ≡ ok tt
      → IsReady (discard_and_forget store cfg s).1
  unfolding discard_and_forget get_task set_task
  discarded-Ready s h =
      let (_, h0, h1, e) =
        bind_ok (discard_stale_upload store cfg s.task.upload_id) (λ _. set_task (forget store cfg))
          s h in
      rw e (λ named. absurd (cc))

  unless_resumable-Readies : (o : Option Refusal) → Readies (unless_resumable store cfg o)
  unless_resumable-Readies none = record { at = λ s a ready h. ready }
  unless_resumable-Readies (some x) = record { at = λ s _ ready h. discarded-Ready s h }

  resume_gate-Readies : (fv : FileVersion) (b : Bool) → Readies (resume_gate store cfg fv b)
  unfolding resume_gate get_task
  resume_gate-Readies fv b = record {
    at = λ s a ready h. (elim (Bool-cases (str_eq s.task.upload_id "")) [
      | inl e ↦ rw e ready
      | inr e ↦
          rw e (
            (unless_resumable-Readies (can_resume_parts s.task fv true b)).at s a ready (rw e at h))
    ]);
  }

  delivered-Describes :
      (t : UploadTask) (bytes : List ℕ) (size : ℕ) (a : Answer Text) (s : Site S) (r : Delivered)
      → ((etag : Text) → a ≡ answer etag → view.object s.store t.bucket t.storage_path ≡ some bytes)
      → (delivered store cfg t bytes size a s).0 ≡ ok r
      → Describes cfg view (delivered store cfg t bytes size a s).1.store r
  delivered-Describes t bytes size (refusal x) s r stored h = absurd (cc)
  delivered-Describes t bytes size (answer etag) s r stored h =
      let result : Delivered = record {
        storage_path = t.storage_path;
        bucket = t.bucket;
        sha256 = cfg.sha256 bytes;
        etag = etag;
        size_bytes = length bytes;
      } in
      let e : ((delivered store cfg t bytes size (answer etag) s).1 ≡ s) × (result ≡ r) =
        ground arith in
      rw (e.0) (subst (Describes cfg view s.store) e.1 (bytes, stored etag refl, refl, refl))

  put_whole-Faithful : (size : ℕ) (o : Option (List ℕ)) → Faithful (put_whole store cfg size o)
  unfolding get_task call
  put_whole-Faithful size none = Faithful-raise Failure.read_failed
  put_whole-Faithful size (some content) = record {
    at = λ s r ready h.
        let t = s.task in
        let bytes = slice 0 size content in
        let put = store.put_object t.bucket t.storage_path bytes size s.store in
        delivered-Describes t bytes size put.0 (record s { store = put.1 }) r
          (λ etag answered. laws.put_object_law t.bucket t.storage_path bytes size s.store answered)
          h;
  }

  single_part_upload-Faithful : (size : ℕ) → Faithful (single_part_upload store cfg size)
  unfolding single_part_upload
  single_part_upload-Faithful size =
      Faithful-bind (ask (λ s. s.read s.turn)) (put_whole store cfg size)
        (ask-Readies (λ s. s.read s.turn)) (put_whole-Faithful size)

  multipart_upload-Faithful :
      (fv : FileVersion) (size : ℕ) → Faithful (multipart_upload store cfg fv size)
  multipart_upload-Faithful fv size = record {
    at = λ s r ready h. multipart_upload-Describes store cfg view laws s0 md5 fv size s ready h;
  }

  -- The first attempt answers, or is started over.
  started-Describes :
      (fv : FileVersion) (size : ℕ) (a : Attempt Delivered) (s : Site S) (r : Delivered)
      → ((d : Delivered) → a ≡ ok d → Describes cfg view s.store d)
      → (or_start_over store cfg fv size a s).0 ≡ ok r
      → Describes cfg view (or_start_over store cfg fv size a s).1.store r
  started-Describes fv size (ok d) s r k h =
      let e : d ≡ r = cc in subst (Describes cfg view s.store) e (k d refl)
  started-Describes fv size (err stale_remote_parts) s r k h =
      let (_, h0, h1, e) =
        bind_ok (discard_and_forget store cfg) (λ _. multipart_upload store cfg fv size) s h in
      rw e (
        (multipart_upload-Faithful fv size).at (discard_and_forget store cfg s).1 r
          (discarded-Ready s h0) h1)
  started-Describes fv size (err Failure.stat_failed) s r k h = absurd (cc)
  started-Describes fv size (err Failure.tail_refused) s r k h = absurd (cc)
  started-Describes fv size (err Failure.discard_failed) s r k h = absurd (cc)
  started-Describes fv size (err Failure.verify_failed) s r k h = absurd (cc)
  started-Describes fv size (err Failure.initiate_failed) s r k h = absurd (cc)
  started-Describes fv size (err Failure.persist_failed) s r k h = absurd (cc)
  started-Describes fv size (err Failure.read_failed) s r k h = absurd (cc)
  started-Describes fv size (err Failure.put_failed) s r k h = absurd (cc)
  started-Describes fv size (err Failure.count_mismatch) s r k h = absurd (cc)
  started-Describes fv size (err Failure.etag_mismatch) s r k h = absurd (cc)
  started-Describes fv size (err Failure.complete_failed) s r k h = absurd (cc)

  upload_content-Faithful :
      (fv : FileVersion) (size : ℕ) → Faithful (upload_content store cfg fv size)
  unfolding upload_content
  upload_content-Faithful fv size =
      Faithful-bind (resume_gate store cfg fv (ltb cfg.threshold size)) _
        (resume_gate-Readies fv (ltb cfg.threshold size))
        (λ _.
          Faithful-if (ltb cfg.threshold size) _ _
            (record {
              at = λ s r ready h.
                  started-Describes fv size (multipart_upload store cfg fv size s).0
                    (multipart_upload store cfg fv size s).1 r
                    (λ d e. multipart_upload-Describes store cfg view laws s0 md5 fv size s ready e)
                    h;
            })
            (single_part_upload-Faithful size))

  upload_stated-Faithful : (o : Option (ℤ × ℕ)) → Faithful (upload_stated store cfg o)
  upload_stated-Faithful none = Faithful-raise Failure.stat_failed
  upload_stated-Faithful (some (mtime, size)) = Faithful-bind get_task _ get_task-Readies (λ t.
      Faithful-if (is_tail store cfg t.append_mode && ltb_ℤ (pos 0) t.file_offset) _ _
        (Faithful-raise Failure.tail_refused)
        (upload_content-Faithful (record { mtime = mtime; size = pos size }) size))

-- An upload that reports success has left under its key an object with the digest and the size that
-- it reports: in one piece or in parts, fresh, resumed or started over, whatever the file turns into
-- meanwhile, of an object store that keeps its laws. Where an upload is resumed, MD5 must tell the
-- parts that the store lists at its start from the ranges of the file that they are compared with.
pub upload_file-Describes :
    {S : Type 0} (store : ObjectStore S) (cfg : Config) (view : Contents S)
    → StoreLaws store view cfg.md5
    → (s : Site S) (r : Delivered) → NoCollision store cfg view s
    → (upload_file store cfg s).0 ≡ ok r
    → Describes cfg view (upload_file store cfg s).1.store r
unfolding upload_file
upload_file-Describes store cfg view laws s r md5 h =
    (Faithful-bind store cfg view laws s md5 (ask (λ v. v.stat v.turn)) (upload_stated store cfg)
        (ask-Readies store cfg view laws s md5 (λ v. v.stat v.turn))
        (upload_stated-Faithful store cfg view laws s md5)).at
      s r (λ named. (refl, refl, refl)) h
