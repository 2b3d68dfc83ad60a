-- ===== src/Queue/Lifecycle.antt =====
-- agent/internal/queue/queue.go: dequeue, reset after a restart, progress and status of upload_tasks.
use fileagent.Prelude.{ℕ, ◌+◌, String, Option, none, some, List, [], ◌∷◌, ◌==◌, if◌then◌else◌, take}
use fileagent.Prelude.Int.{ℤ, pos}
use fileagent.Queue.Types.{
  Status, pending, running, failed, status_eq, next_retry_never, UploadTask, FileVersion, Tables,
}
use fileagent.Queue.Monad.{
  not_found, M, pure, raise, now, exec, query, commit, transaction, ◌>>=◌, ◌>>◌,
}
use fileagent.Queue.Sql.{select, order_by}
use fileagent.Queue.Tasks.{has_id, older, update_tasks}

abbrev pub by_status : Status → Tables → List UploadTask
by_status s t = order_by older (select (λ r. status_eq r.status s) t.upload_tasks)

unfoldable pub list_by_status : Status → M (List UploadTask)
unfolding query
list_by_status s = query (by_status s)

abbrev pub with_status : Status → ℕ → UploadTask → UploadTask
with_status s n t = record t { status = s; updated_at = n }

-- The first statement of `DequeuePending`, and the loop that marks the rows it found. They are two
-- statements outside a transaction.
unfoldable pub select_pending : ℕ → M (List UploadTask)
unfolding query
select_pending limit = query (λ t. take limit (by_status pending t))

unfoldable pub mark_running : ℕ → List UploadTask → M (List UploadTask)
unfolding update_tasks exec
mark_running n [] = pure []
mark_running n (t ∷ ts) = do
  update_tasks (has_id t.id) (with_status running n)
  rest ← mark_running n ts
  pure (with_status running n t ∷ rest)

unfoldable pub dequeue_pending : ℕ → M (List UploadTask)
unfolding select_pending now
dequeue_pending limit = do tasks ← select_pending limit; n ← now; mark_running n tasks

-- No row affected: the task was evicted.
abbrev pub found : ℕ → M (Unit {0})
found n = if n == 0 then raise not_found else pure tt

unfoldable pub update_by_id : String → (ℕ → UploadTask → UploadTask) → M (Unit {0})
unfolding now update_tasks exec
update_by_id id f = do n ← now; rows ← update_tasks (has_id id) (f n); found rows

unfoldable pub update_status : String → Status → M (Unit {0})
unfolding update_by_id
update_status id s = update_by_id id (with_status s)

abbrev pub with_progress : String → String → FileVersion → ℕ → UploadTask → UploadTask
with_progress upload_id parts fv n t = record t {
  upload_id = upload_id;
  completed_parts = parts;
  parts_file_mtime = fv.mtime;
  parts_file_size = fv.size;
  updated_at = n;
}

unfoldable pub save_multipart_progress : String → String → String → FileVersion → M (Unit {0})
unfolding update_by_id
save_multipart_progress id upload_id parts fv = update_by_id id (with_progress upload_id parts fv)

abbrev pub with_failure : ℤ → String → ℕ → UploadTask → UploadTask
with_failure stamp msg n t = record t {
  status = failed;
  retry_count = t.retry_count + 1;
  next_retry_at = stamp;
  last_error = msg;
  updated_at = n;
}

-- `none` is the zero time, which stamps NextRetryNever.
abbrev pub retry_stamp : Option ℕ → ℤ
retry_stamp none = next_retry_never
retry_stamp (some at) = pos at

unfoldable pub mark_failed : String → String → Option ℕ → M (Unit {0})
unfolding update_by_id
mark_failed id msg next_retry_at = update_by_id id (with_failure (retry_stamp next_retry_at) msg)

-- os.Stat: size and modification time, or an error.
abbrev pub Stat : Type 0
Stat = String → Option (ℤ × ℤ)

abbrev pub with_metadata : ℤ → ℤ → ℕ → UploadTask → UploadTask
with_metadata size mtime n t = record t { file_size = size; file_mtime = mtime; updated_at = n }

unfoldable pub refresh_one : UploadTask → Option (ℤ × ℤ) → M (Unit {0})
unfolding now update_tasks exec
refresh_one t none = pure tt
refresh_one t (some (size, mtime)) = do
  n ← now
  update_tasks (has_id t.id) (with_metadata size mtime n)
  pure tt

unfoldable pub refresh_all : Stat → List UploadTask → M (Unit {0})
unfolding refresh_one
refresh_all stat [] = pure tt
refresh_all stat (t ∷ ts) = do refresh_one t (stat t.local_path); refresh_all stat ts

unfoldable pub flip_running : M ℕ
unfolding now update_tasks exec
flip_running = do n ← now; update_tasks (λ r. status_eq r.status running) (with_status pending n)

unfoldable pub reset_running_to_pending : Stat → M ℕ
unfolding transaction list_by_status refresh_all flip_running
reset_running_to_pending stat =
    transaction
      (do rows ← list_by_status running; refresh_all stat rows; n ← flip_running; pure (commit n))
