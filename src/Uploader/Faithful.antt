-- ===== src/Uploader/Faithful.antt =====
-- What multipart.go reports of a finished upload, against what the store then holds.
use fileagent.Prelude.{
  ℕ, zero, suc, ◌+◌, String, ◌≡◌, ◌≢◌, refl, sym, subst, ◌∙◌, ap, Option, none, some, List, ◌==◌,
  arith, length, Bool-cases, inl, inr,
}
use fileagent.Filer.Paths.{Text}
use fileagent.Queue.Types.{FileVersion}
use fileagent.Uploader.Types.{
  CompletePart, Answer, answer, refusal, ObjectStore, Config, Delivered, Site, ok, ask, call,
  get_task, pure, ◌>>◌,
}
use fileagent.Uploader.Laws.{Contents, Assembles, nothing, StoreLaws, NoCollision, bind_ok}
use fileagent.Uploader.Parts.{
  length-append, Assembles-append, Assembles-frame, hash_resume_part_lem, put_bytes_lem,
}
use fileagent.Uploader.Remote.{Ready, Remote, Remote-put, resume_or_start-Remote}
use fileagent.Uploader.Multipart.{
  etag_of, Progress, extend, hash_resume_part, record_progress, upload_part, one_part, part_loop,
  after_complete, complete, no_progress, total_parts, resume_or_start, multipart_upload,
}

module _ {S : Type 0} (cfg : Config) (view : Contents S) where
  -- The store holds an object under the key of the result, with the size and the digest of the result.
  abbrev pub Describes : S → Delivered → Type 0
  Describes t r =
      (bytes : List ℕ) × (view.object t r.bucket r.storage_path ≡ some bytes)
      × (r.sha256 ≡ cfg.sha256 bytes)
      × (r.size_bytes ≡ length bytes)

module _ {S : Type 0} (store : ObjectStore S) (cfg : Config) (view : Contents S)
    (laws : StoreLaws store view cfg.md5) (s0 : Site S) (md5 : NoCollision store cfg view s0) where
  record_progress-same :
      (fv : FileVersion) (ps : List CompletePart) (s : Site S)
      → ((record_progress store cfg fv ps s).1.store ≡ s.store)
        × ((record_progress store cfg fv ps s).1.read ≡ s.read)
  unfolding record_progress
  record_progress-same fv ps s = elim (Bool-cases cfg.has_queue) [
    | inl e ↦ rw e (refl, refl)
    | inr e ↦ rw e (refl, refl)
  ]

  upload_part_lem :
      (id : String) (size num : ℕ) (s : Site S) {bytes : List ℕ} {etag : Text}
      → (upload_part store cfg id size num s).0 ≡ ok (bytes, etag)
      → (view.part (upload_part store cfg id size num s).1.store id num ≡ some bytes)
        × ((m : ℕ)
            → m ≢ num
            → view.part (upload_part store cfg id size num s).1.store id m ≡ view.part s.store id m)
        × ((upload_part store cfg id size num s).1.read ≡ s.read)
  unfolding upload_part ask
  upload_part_lem id size num s h =
      put_bytes_lem store cfg view laws id num size (s.read s.turn) (record s { turn = suc s.turn })
        h

  -- The digest has been fed the parts below `num`, in their order.
  record Ordered (t : S) (read : ℕ → Option (List ℕ)) (id : String) (done : List CompletePart)
      (num : ℕ) (pr : Progress) : Type 0 where
    remote : Remote store cfg view laws s0 t read id done
    assembled : Assembles view t id num pr.parts pr.fed
    counted : pr.hashed ≡ length pr.fed

  extend-Ordered :
      (t : S) (read : ℕ → Option (List ℕ)) (id : String) (done : List CompletePart) (num : ℕ)
      (pr : Progress) (etag : Text) (bytes : List ℕ)
      → Remote store cfg view laws s0 t read id done
      → Assembles view t id (suc num) pr.parts pr.fed
      → pr.hashed ≡ length pr.fed
      → view.part t id num ≡ some bytes
      → Ordered t read id done (suc num) (extend pr num etag bytes)
  extend-Ordered t read id done num pr etag bytes r a n there = record {
    remote = r;
    assembled =
        Assembles-append view t id (suc num) pr.parts pr.fed
          (record { part_number = num; etag = etag }) bytes (omega arith) there a;
    counted = omega (arith, n, length-append pr.fed bytes);
  }

  one_part-Ordered :
      (fv : FileVersion) (size : ℕ) (id : String) (done : List CompletePart) (num : ℕ)
      (pr : Progress) (o : Option Text) (s : Site S) {pr' : Progress}
      → etag_of num done ≡ o
      → Ordered s.store s.read id done num pr
      → (one_part store cfg fv size id num pr o s).0 ≡ ok pr'
      → Ordered
          (one_part store cfg fv size id num pr o s).1.store
          (one_part store cfg fv size id num pr o s).1.read
          id
          done
          (suc num)
          pr'
  one_part-Ordered fv size id done num pr (some etag) s {pr' = pr'} listed k h =
      let (bytes, h0, h1, e) =
        bind_ok (hash_resume_part cfg size num etag) (λ b. pure (extend pr num etag b)) s h in
      let (same, same_read, comparable, digest, (turn, offset, sz, file, reads, range, is)) =
        hash_resume_part_lem cfg size num etag s h0 in
      let (content, there, content_md5, then, reading) = k.remote.at num etag listed comparable in
      let equal : content ≡ bytes =
        md5.apart num turn offset sz size file content then (rw (← reading) reads) range
          (sym content_md5 ∙ digest ∙ ap cfg.md5 is)
        ∙ sym is in
      let next : extend pr num etag bytes ≡ pr' = cc in
      rw (e, same, same_read, ← next)
        (extend-Ordered s.store s.read id done num pr etag bytes k.remote
          (Assembles-frame view s.store s.store id num (suc num) pr.parts pr.fed (omega arith)
            (λ n lt. refl) k.assembled)
          k.counted (there ∙ ap some equal))
  one_part-Ordered fv size id done num pr none s {pr' = pr'} listed k h =
      let (sent, h0, h1, e) =
        bind_ok (upload_part store cfg id size num)
          (λ x.
            record_progress store cfg fv (extend pr num x.1 x.0).parts
            >> pure (extend pr num x.1 x.0))
          s h in
      let s1 = (upload_part store cfg id size num s).1 in
      let reached = extend pr num sent.1 sent.0 in
      let (_, _, h2, e2) =
        bind_ok (record_progress store cfg fv reached.parts) (λ _. pure reached) s1 h1 in
      let (there, frame, same_read) = upload_part_lem id size num s h0 in
      let next : reached ≡ pr' = cc in
      let recorded = record_progress-same fv reached.parts s1 in
      rw (e, e2, recorded.0, recorded.1, ← next)
        (extend-Ordered s1.store s1.read id done num pr sent.1 sent.0
          (Remote-put store cfg view laws s0 s.store s1.store s.read s1.read id done num same_read
            listed frame k.remote)
          (Assembles-frame view s.store s1.store id num (suc num) pr.parts pr.fed (omega arith)
            (λ n lt. frame n (λ q. omega (arith, q))) k.assembled)
          k.counted there)

  part_loop-Ordered :
      (left : ℕ) (fv : FileVersion) (size : ℕ) (id : String) (done : List CompletePart) (num : ℕ)
      (pr : Progress) (s : Site S) {pr' : Progress}
      → Ordered s.store s.read id done num pr
      → (part_loop store cfg left fv size id done num pr s).0 ≡ ok pr'
      → Ordered
          (part_loop store cfg left fv size id done num pr s).1.store
          (part_loop store cfg left fv size id done num pr s).1.read
          id
          done
          (num + left)
          pr'
  unfolding part_loop
  part_loop-Ordered zero fv size id done num pr s {pr' = pr'} k h =
      let e : pr ≡ pr' = cc in
      subst (λ n. Ordered s.store s.read id done n pr') (omega arith)
        (subst (Ordered s.store s.read id done num) e k)
  part_loop-Ordered (suc left) fv size id done num pr s {pr' = pr'} k h =
      let (next, h0, h1, e) =
        bind_ok (one_part store cfg fv size id num pr (etag_of num done))
          (part_loop store cfg left fv size id done (suc num)) s h in
      let s1 = (one_part store cfg fv size id num pr (etag_of num done) s).1 in
      rw e (
        subst
          (λ n.
            Ordered (part_loop store cfg left fv size id done (suc num) next s1).1.store
              (part_loop store cfg left fv size id done (suc num) next s1).1.read id done n pr')
          (omega arith)
          (part_loop-Ordered left fv size id done (suc num) next s1
            (one_part-Ordered fv size id done num pr (etag_of num done) s refl k h0) h1))

  after_complete-Describes :
      (pr : Progress) (s : Site S) (a : Answer Text) {r : Delivered}
      → ((etag : Text)
          → a ≡ answer etag
          → view.object s.store s.task.bucket s.task.storage_path ≡ some pr.fed)
      → pr.hashed ≡ length pr.fed
      → (after_complete store cfg pr a s).0 ≡ ok r
      → Describes cfg view (after_complete store cfg pr a s).1.store r
  unfolding get_task
  after_complete-Describes pr s (refusal x) stored n h = absurd (cc)
  after_complete-Describes pr s (answer etag) {r = r} stored n h =
      let result : Delivered = record {
        storage_path = s.task.storage_path;
        bucket = s.task.bucket;
        sha256 = cfg.sha256 pr.fed;
        etag = etag;
        size_bytes = pr.hashed;
      } in
      let e : result ≡ r = cc in
      subst (Describes cfg view s.store) e (pr.fed, stored etag refl, refl, n)

  complete-Describes :
      (size num : ℕ) (id : String) (done : List CompletePart) (pr : Progress) (s : Site S)
      {r : Delivered}
      → Ordered s.store s.read id done num pr
      → (complete store cfg size id pr s).0 ≡ ok r
      → Describes cfg view (complete store cfg size id pr s).1.store r
  unfolding complete get_task call
  complete-Describes size num id done pr s k h = elim (Bool-cases (pr.hashed == size)) [
    | inl e ↦
        let t = s.task in
        let put = store.complete_multipart_upload t.bucket t.storage_path id pr.parts s.store in
        rw e (
          after_complete-Describes pr (record s { store = put.1 }) put.0
            (λ etag answered.
              laws.complete_law t.bucket t.storage_path id pr.parts pr.fed num s.store answered
                k.assembled)
            k.counted (rw e at h))
    | inr e ↦ absurd (ground arith)
  ]

  -- Whatever the file turns into meanwhile, an upload in parts that reports success has
  -- left under its key an object with the digest and the size that it reports.
  pub multipart_upload-Describes :
      (fv : FileVersion) (size : ℕ) (s : Site S) {r : Delivered}
      → Ready store cfg view laws s0 s
      → (multipart_upload store cfg fv size s).0 ≡ ok r
      → Describes cfg view (multipart_upload store cfg fv size s).1.store r
  unfolding multipart_upload
  multipart_upload-Describes fv size s ready h =
      let (start, h0, h1, e) = bind_ok (resume_or_start store cfg fv size) _ s h in
      let s1 = (resume_or_start store cfg fv size s).1 in
      let loop =
        part_loop store cfg (total_parts store cfg size) fv size start.0 start.1 1
          (no_progress store cfg) in
      let (pr, h2, h3, e2) = bind_ok loop (complete store cfg size start.0) s1 h1 in
      rw (e, e2)
        (complete-Describes size (1 + total_parts store cfg size) start.0 start.1 pr (loop s1).1
          (part_loop-Ordered (total_parts store cfg size) fv size start.0 start.1 1
            (no_progress store cfg) s1
            (record {
              remote = resume_or_start-Remote store cfg view laws s0 fv size s ready h0;
              assembled = nothing;
              counted = refl;
            })
            h2)
          h3)
