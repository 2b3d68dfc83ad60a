-- ===== src/Uploader/Remote.antt =====
-- agent/internal/uploader/multipart.go: what is known of the parts with which an upload is resumed.
use fileagent.Prelude.{
  ℕ, String, ◌≡◌, ◌≢◌, refl, subst, ◌∙◌, true, false, Option, none, some, List, [], str_eq,
  Bool-cases, inl, inr,
}
use fileagent.Filer.Paths.{Text}
use fileagent.Queue.Types.{FileVersion}
use fileagent.Uploader.Types.{
  CompletePart, Answer, answer, refusal, no_such_upload, other, ObjectStore, Config, Site, ok, call,
  get_task, pure,
}
use fileagent.Uploader.Etags.{normalize_etag, etag_is_comparable}
use fileagent.Uploader.Laws.{Contents, StoreLaws, bind_ok}
use fileagent.Uploader.Parts.{verify_all-same}
use fileagent.Uploader.Multipart.{
  etag_of, verify_all, initiate, resume_or_start, after_listing, start_fresh,
}

module _ {S : Type 0} (store : ObjectStore S) (cfg : Config) (view : Contents S)
    (laws : StoreLaws store view cfg.md5) (s0 : Site S) where
  -- A site at which the upload that the attempt found may be listed.
  abbrev pub Ready : Site S → Type 0
  Ready s =
      str_eq s.task.upload_id "" ≡ false
      → (s.task ≡ s0.task) × (s.store ≡ s0.store) × (s.read ≡ s0.read)

  -- The listed parts whose etag is an MD5 are there with that content, which they had when they were
  -- listed, and the file is read as it was then.
  pub record Remote (t : S) (read : ℕ → Option (List ℕ)) (id : String) (done : List CompletePart)
      : Type 0 where
    pub at :
        (num : ℕ) (etag : Text)
        → etag_of num done ≡ some etag
        → etag_is_comparable etag ≡ true
        → (bytes : List ℕ) × (view.part t id num ≡ some bytes)
          × (normalize_etag etag ≡ cfg.md5 bytes)
          × (view.part
                (store.list_object_parts s0.task.bucket s0.task.storage_path s0.task.upload_id
                  s0.store).1
                s0.task.upload_id
                num
              ≡ some bytes)
          × (read ≡ s0.read)

  pub Remote-put :
      (t t' : S) (read read' : ℕ → Option (List ℕ)) (id : String) (done : List CompletePart)
      (num : ℕ)
      → read' ≡ read
      → etag_of num done ≡ none
      → ((m : ℕ) → m ≢ num → view.part t' id m ≡ view.part t id m)
      → Remote t read id done
      → Remote t' read' id done
  Remote-put t t' read read' id done num same_read absent frame r = record {
    at = λ n etag e comparable.
        let (bytes, there, same, listed, reading) = r.at n etag e comparable in
        let apart : n ≢ num = λ q. (let clash : etag_of num done ≡ some etag = rw (← q) e in cc) in
        (bytes, frame n apart ∙ there, same, listed, same_read ∙ reading);
  }

  no_parts-Remote : (t : S) (read : ℕ → Option (List ℕ)) (id : String) → Remote t read id []
  unfolding etag_of
  no_parts-Remote t read id = record { at = λ num etag e comparable. absurd (cc) }

  listed-Remote :
      (s : Site S) (l : List CompletePart)
      → (s.task ≡ s0.task) × (s.store ≡ s0.store) × (s.read ≡ s0.read)
      → (store.list_object_parts s.task.bucket s.task.storage_path s.task.upload_id s.store).0
        ≡ answer l
      → Remote
          (store.list_object_parts s.task.bucket s.task.storage_path s.task.upload_id s.store).1
          s.read
          s.task.upload_id
          l
  listed-Remote s l (task, stored, reading) h = record {
    at = λ num etag e comparable.
        let (bytes, there, digest) =
          laws.list_law s.task.bucket s.task.storage_path s.task.upload_id s.store l num etag h e
            comparable in
        (bytes, there, digest, rw (← task, ← stored) there, reading);
  }

  start_fresh-Remote :
      (fv : FileVersion) (s : Site S) {id : String} {done : List CompletePart}
      → (start_fresh store cfg fv s).0 ≡ ok (id, done)
      → Remote (start_fresh store cfg fv s).1.store (start_fresh store cfg fv s).1.read id done
  start_fresh-Remote fv s {id = id} {done = done} h =
      let (fresh, _, h1, _) = bind_ok (initiate store cfg fv) (λ x. pure (x, [])) s h in
      let e : ◌≡◌ {A = List CompletePart} [] done = cc in
      subst (Remote (start_fresh store cfg fv s).1.store (start_fresh store cfg fv s).1.read id) e
        (no_parts-Remote _ _ id)

  after_listing-Remote :
      (fv : FileVersion) (size : ℕ) (listed : String) (a : Answer (List CompletePart)) (s : Site S)
      {id : String} {done : List CompletePart}
      → ((l : List CompletePart) → a ≡ answer l → Remote s.store s.read listed l)
      → (after_listing store cfg fv size listed a s).0 ≡ ok (id, done)
      → Remote
          (after_listing store cfg fv size listed a s).1.store
          (after_listing store cfg fv size listed a s).1.read
          id
          done
  after_listing-Remote fv size listed (refusal no_such_upload) s r h = start_fresh-Remote fv s h
  after_listing-Remote fv size listed (refusal other) s r h = absurd (cc)
  after_listing-Remote fv size listed (answer l) s {id = id} {done = done} r h =
      let (_, h0, h1, e) = bind_ok (verify_all cfg size l) (λ _. pure (listed, l)) s h in
      let same = verify_all-same cfg size l s h0 in
      let ids : listed ≡ id = cc in
      let lists : l ≡ done = cc in rw (e, same.0, same.1, ← ids, ← lists) (r l refl)

  pub resume_or_start-Remote :
      (fv : FileVersion) (size : ℕ) (s : Site S) {id : String} {done : List CompletePart}
      → Ready s
      → (resume_or_start store cfg fv size s).0 ≡ ok (id, done)
      → Remote
          (resume_or_start store cfg fv size s).1.store
          (resume_or_start store cfg fv size s).1.read
          id
          done
  unfolding resume_or_start get_task call
  resume_or_start-Remote fv size s ready h = elim (Bool-cases (str_eq s.task.upload_id "")) [
    | inl e ↦ rw e (start_fresh-Remote fv s (rw e at h))
    | inr e ↦
        let list =
          store.list_object_parts s.task.bucket s.task.storage_path s.task.upload_id s.store in
        rw e (
          after_listing-Remote fv size s.task.upload_id list.0 (record s { store = list.1 })
            (λ l. listed-Remote s l (ready e)) (rw e at h))
  ]
