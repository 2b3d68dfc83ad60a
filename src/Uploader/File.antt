-- ===== src/Uploader/File.antt =====
-- agent/internal/uploader/uploader.go: UploadFile, the upload in one piece, and AbandonUpload.
use fileagent.Prelude.{
  ℕ, Bool, true, false, not, ◌&&◌, Option, none, some, List, ◌==◌, ltb, str_eq, if◌then◌else◌,
  length,
}
use fileagent.Prelude.Int.{ℤ, pos, ltb_ℤ}
use fileagent.Filer.Paths.{Text, text_eq}
use fileagent.Queue.Types.{AppendMode, overwrite, tail, close_wait, UploadTask, FileVersion}
use fileagent.Uploader.Types.{
  no_such_upload, other, Answer, answer, refusal, ObjectStore, Config, Delivered, stat_failed,
  tail_refused, stale_remote_parts, read_failed, put_failed, count_mismatch, etag_mismatch, Attempt,
  ok, err, M, pure, raise, attempt, ask, call, get_task, set_task, ◌>>=◌, ◌>>◌,
}
use fileagent.Uploader.Etags.{Refusal, normalize_etag, etag_is_comparable, can_resume_parts}
use fileagent.Uploader.Multipart.{slice, matches_md5, abort, multipart_upload, discard_stale_upload}

abbrev pub is_gone : Answer (Unit {0}) → Bool
is_gone (answer _) = true
is_gone (refusal no_such_upload) = true
is_gone (refusal other) = false

module _ {S : Type 0} (store : ObjectStore S) (cfg : Config) where
  abbrev pub delivered : UploadTask → List ℕ → ℕ → Answer Text → M S Delivered
  delivered t bytes size (refusal _) = raise put_failed
  delivered t bytes size (answer etag) =
      if not (length bytes == size)
      then raise count_mismatch
      else if etag_is_comparable etag && not (matches_md5 cfg etag bytes)
      then raise etag_mismatch
      else pure (record {
        storage_path = t.storage_path;
        bucket = t.bucket;
        sha256 = cfg.sha256 bytes;
        etag = etag;
        size_bytes = length bytes;
      })

  abbrev pub put_whole : ℕ → Option (List ℕ) → M S Delivered
  put_whole size none = raise read_failed
  put_whole size (some content) = do
    t ← get_task
    let bytes = slice 0 size content
    a ← call (store.put_object t.bucket t.storage_path bytes size)
    delivered t bytes size a

  -- singlePartUpload, from the start of the file.
  unfoldable pub single_part_upload : ℕ → M S Delivered
  unfolding ask get_task call slice normalize_etag etag_is_comparable text_eq
  single_part_upload size = ask (λ s. s.read s.turn) >>= put_whole size

  abbrev pub forget : UploadTask → UploadTask
  forget t = record t { upload_id = ""; completed_parts = "" }

  unfoldable pub discard_and_forget : M S (Unit {0})
  unfolding get_task set_task discard_stale_upload
  discard_and_forget = do t ← get_task; discard_stale_upload store cfg t.upload_id; set_task forget

  abbrev pub unless_resumable : Option Refusal → M S (Unit {0})
  unless_resumable none = pure tt
  unless_resumable (some _) = discard_and_forget

  unfoldable pub resume_gate : FileVersion → Bool → M S (Unit {0})
  unfolding get_task can_resume_parts discard_and_forget
  resume_gate current is_multipart = do
    t ← get_task
    if str_eq t.upload_id ""
        then pure tt
        else unless_resumable (can_resume_parts t current true is_multipart)

  -- errors.Is(err, errStaleRemoteParts): once more, from scratch.
  abbrev pub or_start_over : FileVersion → ℕ → Attempt Delivered → M S Delivered
  or_start_over current size (ok r) = pure r
  or_start_over current size (err stale_remote_parts) =
      discard_and_forget >> multipart_upload store cfg current size
  or_start_over current size (err failure) = raise failure

  unfoldable pub upload_content : FileVersion → ℕ → M S Delivered
  unfolding resume_gate single_part_upload multipart_upload discard_and_forget
  upload_content current size = do
    resume_gate current (ltb cfg.threshold size)
    if ltb cfg.threshold size
        then attempt (multipart_upload store cfg current size) >>= or_start_over current size
        else single_part_upload size

  abbrev pub is_tail : AppendMode → Bool
  is_tail tail = true
  is_tail overwrite = false
  is_tail close_wait = false

  abbrev pub upload_stated : Option (ℤ × ℕ) → M S Delivered
  upload_stated none = raise stat_failed
  upload_stated (some (mtime, size)) = do
    t ← get_task
    if is_tail t.append_mode && ltb_ℤ (pos 0) t.file_offset
        then raise tail_refused
        else upload_content (record { mtime = mtime; size = pos size }) size

  unfoldable pub upload_file : M S Delivered
  unfolding ask get_task upload_content
  upload_file = ask (λ s. s.stat s.turn) >>= upload_stated

  -- AbandonUpload: whether there is nothing left to clean up.
  unfoldable pub abandon_upload : M S Bool
  unfolding get_task abort
  abandon_upload = do
    t ← get_task
    if str_eq t.upload_id ""
        then pure true
        else (do a ← abort store cfg t.upload_id; pure (is_gone a))
