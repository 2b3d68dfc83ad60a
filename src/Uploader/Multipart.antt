-- ===== src/Uploader/Multipart.antt =====
-- agent/internal/uploader/multipart.go: an upload in parts, resumed where the parts can be trusted.
use fileagent.Prelude.{
  ℕ, zero, suc, ◌+◌, ◌-◌, ◌/◌, String, Bool, not, ◌&&◌, Option, none, some, List, [], ◌∷◌, ◌++◌,
  ◌==◌, str_eq, if◌then◌else◌, length, take,
}
use fileagent.Filer.Paths.{Text, text_eq}
use fileagent.Queue.Types.{FileVersion}
use fileagent.Queue.Monad as Q
use fileagent.Queue.Lifecycle.{save_multipart_progress}
use fileagent.Queue.Aborts.{enqueue_multipart_abort, delete_multipart_abort}
use fileagent.Queue.Tasks.{abort_of}
use fileagent.Uploader.Types.{
  CompletePart, no_such_upload, other, Answer, answer, refusal, ObjectStore, Config, Delivered,
  discard_failed, verify_failed, stale_remote_parts, initiate_failed, persist_failed, read_failed,
  put_failed, count_mismatch, etag_mismatch, complete_failed, M, pure, raise, ask, call, queued,
  get_task, set_task, ◌>>=◌, ◌>>◌,
}
use fileagent.Uploader.Etags.{normalize_etag, etag_is_comparable, offset_of, length_of, part_range}

abbrev skip : ℕ → List ℕ → List ℕ
skip zero l = l
skip (suc n) [] = []
skip (suc n) (x ∷ l) = skip n l

-- The bytes of a range, as many as the file has of them.
unfoldable pub slice : ℕ → ℕ → List ℕ → List ℕ
slice offset size bytes = take size (skip offset bytes)

-- The entry of a part in `remoteETags`: the last one wins.
unfoldable pub etag_of : ℕ → List CompletePart → Option Text
etag_of num [] = none
etag_of num (p ∷ ps) =
    let here = if p.part_number == num then some p.etag else none in
    elim (etag_of num ps) [ some e ↦ some e | none ↦ here ]

-- What the loop over the parts carries: the list for CompleteMultipartUpload, the bytes fed to the
-- digest, and their count.
pub record Progress : Type 0 where
  pub parts : List CompletePart
  pub fed : List ℕ
  pub hashed : ℕ

abbrev pub matches_md5 : Config → Text → List ℕ → Bool
matches_md5 cfg etag bytes = text_eq (normalize_etag etag) (cfg.md5 bytes)

abbrev pub extend : Progress → ℕ → Text → List ℕ → Progress
extend pr num etag bytes = record {
  parts = pr.parts ++ record { part_number = num; etag = etag } ∷ [];
  fed = pr.fed ++ bytes;
  hashed = pr.hashed + length bytes;
}

-- The same bytes are checked against the etag and fed to the digest.
unfoldable pub checked_bytes : Config → ℕ → ℕ → Text → Option (List ℕ) → Option (List ℕ)
unfolding slice etag_is_comparable text_eq normalize_etag
checked_bytes cfg offset size etag none = none
checked_bytes cfg offset size etag (some bytes) =
    let range = slice offset size bytes in
    if length range == size && etag_is_comparable etag && matches_md5 cfg etag range
    then some range
    else none

-- hashResumePartChecked, and verifyResumePartETag, which feeds no digest.
abbrev pub checked_range : {S : Type 0} → Config → Text → Option (ℕ × ℕ) → M S (List ℕ)
checked_range cfg etag none = raise stale_remote_parts
checked_range cfg etag (some (offset, size)) = do
  bytes ← ask (λ s. s.read s.turn)
  elim (checked_bytes cfg offset size etag bytes) [
    | some range ↦ pure range
    | none ↦ raise stale_remote_parts
  ]

unfoldable pub hash_resume_part : {S : Type 0} → Config → ℕ → ℕ → Text → M S (List ℕ)
unfolding part_range ask checked_bytes
hash_resume_part cfg size num etag = checked_range cfg etag (part_range num size cfg.part_size)

unfoldable pub verify_all : {S : Type 0} → Config → ℕ → List CompletePart → M S (Unit {0})
unfolding hash_resume_part
verify_all cfg size [] = pure tt
verify_all cfg size (p ∷ ps) = do
  hash_resume_part cfg size p.part_number p.etag
  verify_all cfg size ps

module _ {S : Type 0} (store : ObjectStore S) (cfg : Config) where
  unfoldable pub abort : String → M S (Answer (Unit {0}))
  unfolding get_task call
  abort upload_id = do
    t ← get_task
    call (store.abort_multipart_upload t.bucket t.storage_path upload_id)

  -- The first record of the upload: where it fails, the upload is aborted and forgotten.
  abbrev pub after_first_persist : String → Q.Result (Unit {0}) → M S (Unit {0})
  after_first_persist id (Q.ok _) = pure tt
  after_first_persist id (Q.err _) = do
    abort id
    set_task (λ t. record t { upload_id = "" })
    raise persist_failed

  unfoldable pub persist_initiation : FileVersion → String → M S (Unit {0})
  unfolding get_task queued set_task abort
  persist_initiation fv id =
      if cfg.has_queue
      then (do
        t ← get_task
        saved ← queued (save_multipart_progress t.id id "" fv)
        after_first_persist id saved)
      else pure tt

  abbrev pub after_initiation : FileVersion → Answer String → M S String
  after_initiation fv (refusal _) = raise initiate_failed
  after_initiation fv (answer id) = do
    set_task (λ t. record t { upload_id = id })
    persist_initiation fv id
    pure id

  unfoldable pub initiate : FileVersion → M S String
  unfolding get_task call set_task persist_initiation
  initiate fv = do
    t ← get_task
    a ← call (store.new_multipart_upload t.bucket t.storage_path)
    after_initiation fv a

  abbrev pub start_fresh : FileVersion → M S (String × List CompletePart)
  start_fresh fv = do id ← initiate fv; pure (id, [])

  -- The parts that the store has are the ones to resume: only NoSuchUpload starts over.
  abbrev pub after_listing :
      FileVersion → ℕ → String → Answer (List CompletePart) → M S (String × List CompletePart)
  after_listing fv size id (refusal no_such_upload) = start_fresh fv
  after_listing fv size id (refusal other) = raise verify_failed
  after_listing fv size id (answer parts) = do verify_all cfg size parts; pure (id, parts)

  unfoldable pub resume_or_start : FileVersion → ℕ → M S (String × List CompletePart)
  unfolding get_task call initiate verify_all
  resume_or_start fv size = do
    t ← get_task
    if str_eq t.upload_id "" then start_fresh fv else (do
      parts ← call (store.list_object_parts t.bucket t.storage_path t.upload_id)
      after_listing fv size t.upload_id parts)

  -- SaveMultipartProgress after each part that was sent; its failure is only logged.
  unfoldable pub record_progress : FileVersion → List CompletePart → M S (Unit {0})
  unfolding set_task get_task queued
  record_progress fv parts =
      if cfg.has_queue
      then (do
        set_task (λ t. record t { completed_parts = cfg.marshal_parts parts })
        t ← get_task
        queued (save_multipart_progress t.id t.upload_id t.completed_parts fv)
        pure tt)
      else pure tt

  abbrev pub after_put : ℕ → List ℕ → Answer Text → M S Text
  after_put declared bytes (refusal _) = raise put_failed
  after_put declared bytes (answer etag) =
      if not (length bytes == declared)
      then raise count_mismatch
      else if etag_is_comparable etag && not (matches_md5 cfg etag bytes)
      then raise etag_mismatch
      else pure etag

  abbrev pub put_bytes : String → ℕ → ℕ → Option (List ℕ) → M S (List ℕ × Text)
  put_bytes id num size none = raise read_failed
  put_bytes id num size (some bytes) = do
    t ← get_task
    let range = slice (offset_of cfg.part_size num) (length_of size cfg.part_size num) bytes
    a ← call (
        store.put_object_part t.bucket t.storage_path id num range
          (length_of size cfg.part_size num))
    etag ← after_put (length_of size cfg.part_size num) range a
    pure (range, etag)

  unfoldable pub upload_part : String → ℕ → ℕ → M S (List ℕ × Text)
  unfolding ask get_task call slice etag_is_comparable normalize_etag text_eq
  upload_part id size num = do bytes ← ask (λ s. s.read s.turn); put_bytes id num size bytes

  -- One part, skipped or sent, at its place in the order of the parts.
  abbrev pub one_part : FileVersion → ℕ → String → ℕ → Progress → Option Text → M S Progress
  one_part fv size id num pr (some etag) = do
    bytes ← hash_resume_part cfg size num etag
    pure (extend pr num etag bytes)
  one_part fv size id num pr none = do
    sent ← upload_part id size num
    let pr' = extend pr num sent.1 sent.0
    record_progress fv pr'.parts
    pure pr'

  unfoldable pub part_loop :
      ℕ → FileVersion → ℕ → String → List CompletePart → ℕ → Progress → M S Progress
  unfolding upload_part record_progress hash_resume_part etag_of
  part_loop zero fv size id done num pr = pure pr
  part_loop (suc left) fv size id done num pr = do
    pr' ← one_part fv size id num pr (etag_of num done)
    part_loop left fv size id done (suc num) pr'

  abbrev pub after_complete : Progress → Answer Text → M S Delivered
  after_complete pr (refusal _) = raise complete_failed
  after_complete pr (answer etag) = do
    t ← get_task
    pure (record {
      storage_path = t.storage_path;
      bucket = t.bucket;
      sha256 = cfg.sha256 pr.fed;
      etag = etag;
      size_bytes = pr.hashed;
    })

  unfoldable pub complete : ℕ → String → Progress → M S Delivered
  unfolding get_task call
  complete size id pr = if not (pr.hashed == size) then raise count_mismatch else (do
    t ← get_task
    a ← call (store.complete_multipart_upload t.bucket t.storage_path id pr.parts)
    after_complete pr a)

  abbrev pub total_parts : ℕ → ℕ
  total_parts size = (size + cfg.part_size - 1) / cfg.part_size

  abbrev pub no_progress : Progress
  no_progress = record { parts = []; fed = []; hashed = 0 }

  unfoldable pub multipart_upload : FileVersion → ℕ → M S Delivered
  unfolding resume_or_start part_loop complete
  multipart_upload fv size = do
    (id, done) ← resume_or_start fv size
    pr ← part_loop (total_parts size) fv size id done 1 no_progress
    complete size id pr

  -- discardStaleUpload: the intent to abort is recorded before anything is destroyed.
  abbrev pub forget_intent : String → Answer (Unit {0}) → M S (Unit {0})
  forget_intent id (refusal other) = pure tt
  forget_intent id _ =
      if cfg.has_queue then (do queued (delete_multipart_abort id); pure tt) else pure tt

  abbrev pub after_intent : String → Q.Result (Unit {0}) → M S (Unit {0})
  after_intent id (Q.err _) = raise discard_failed
  after_intent id (Q.ok _) = do a ← abort id; forget_intent id a

  unfoldable pub discard_stale_upload : String → M S (Unit {0})
  unfolding get_task queued abort
  discard_stale_upload id =
      if cfg.has_queue
      then (do
        t ← get_task
        recorded ← queued (enqueue_multipart_abort (abort_of (record t { upload_id = id }) 0))
        after_intent id recorded)
      else (do a ← abort id; forget_intent id a)
