-- ===== src/Executor/Failure.antt =====
-- agent/internal/executor/executor.go and reports.go: persistResult, handleFailure and the retry.
use fileagent.Prelude.{ℕ, ◌+◌, String, true, false, Option, none, some, leb, if◌then◌else◌}
use fileagent.Queue.Types.{pending, UploadTask}
use fileagent.Queue.Monad.{
  Error, not_found, unavailable, constraint, no_rows, index_range, malformed, Result, ok, err, M,
  pure, raise, attempt, now, ◌>>=◌, ◌>>◌,
}
use fileagent.Queue.Lifecycle.{update_status, mark_failed}
use fileagent.Queue.Aborts.{mark_failed_abandoned}
use fileagent.Queue.Reports.{save_report}
use fileagent.Executor.Types.{UploadResult, UploadError, UploadReport, Executor}
use fileagent.Executor.Abandon.{abandon_task_upload, retry_delay}

abbrev pub failure_report : UploadTask → String → ℕ → UploadReport
failure_report task msg n = record {
  task_id = task.id;
  rule_id = task.rule_id;
  local_path = task.local_path;
  storage_path = task.storage_path;
  bucket = task.bucket;
  size_bytes = task.file_size;
  file_mtime = task.file_mtime;
  uploaded_at = n;
  retry_count = task.retry_count;
  success = false;
  sha256 = "";
  etag = "";
  error_message = msg;
}

abbrev pub success_report : UploadTask → UploadResult → ℕ → UploadReport
success_report task result n = record (failure_report task "" n) {
  success = true;
  sha256 = result.sha256;
  etag = result.etag;
  size_bytes = result.size_bytes;
  storage_path = result.storage_path;
  bucket = result.bucket;
}

unfoldable pub save_payload : String → Option String → M (Unit {0})
unfolding save_report
save_payload id none = pure tt
save_payload id (some payload) = do attempt (save_report id payload); pure tt

-- `persistResult` is called with a result and no error, or with an error and no result.
unfoldable pub persist_result : Executor → UploadTask → (ℕ → UploadReport) → M (Unit {0})
unfolding now save_payload
persist_result e task report = do n ← now; save_payload task.id (e.marshal (report n))

-- `task` has its retry count already raised.
unfoldable pub abandon_and_report : Executor → UploadTask → String → M (Option Error)
unfolding abandon_task_upload persist_result
abandon_and_report e task msg = do
  abandon_task_upload e task
  persist_result e task (failure_report task msg)
  pure none

-- Abandoned for good, or evicted meanwhile: release and report. Any other error is handed back.
unfoldable pub after_marking : Executor → UploadTask → String → Result (Unit {0}) → M (Option Error)
unfolding abandon_and_report
after_marking e task msg (ok _) = abandon_and_report e task msg
after_marking e task msg (err not_found) = abandon_and_report e task msg
after_marking e task msg (err unavailable) = pure (some unavailable)
after_marking e task msg (err constraint) = pure (some constraint)
after_marking e task msg (err no_rows) = pure (some no_rows)
after_marking e task msg (err index_range) = pure (some index_range)
after_marking e task msg (err malformed) = pure (some malformed)

unfoldable pub give_up : Executor → UploadTask → String → M (Option Error)
unfolding mark_failed_abandoned after_marking
give_up e task msg = do
  marked ← attempt (mark_failed_abandoned task msg)
  after_marking e (record task { retry_count = task.retry_count + 1 }) msg marked

-- The timer that is armed: seconds to wait before `requeue`.
unfoldable pub stamp_retry : UploadTask → String → Option ℕ → M (Option ℕ)
unfolding now mark_failed
stamp_retry task msg none = raise index_range
stamp_retry task msg (some delay) = do
  n ← now
  attempt (mark_failed task.id msg (some (n + delay)))
  pure (some delay)

unfoldable pub schedule_retry : UploadTask → String → M (Option ℕ)
unfolding stamp_retry retry_delay
schedule_retry task msg = stamp_retry task msg (retry_delay (task.retry_count + 1))

abbrev pub unless_given_up :
    (String → M (Option ℕ)) → Executor → String → Option Error → M (Option ℕ)
unless_given_up retry e msg none = pure none
unless_given_up retry e msg (some failure) = retry (e.wrap msg failure)

unfoldable pub retry_or_give_up : Executor → UploadTask → String → M (Option ℕ)
unfolding give_up schedule_retry
retry_or_give_up e task msg =
    if leb e.retry_max (task.retry_count + 1)
    then (do g ← give_up e task msg; unless_given_up (schedule_retry task) e msg g)
    else schedule_retry task msg

-- `some delay`: the task waits in `failed` and is requeued after the delay.
unfoldable pub handle_failure : Executor → UploadTask → UploadError → M (Option ℕ)
unfolding give_up retry_or_give_up
handle_failure e task error =
    if error.terminal
    then (do
      g ← give_up e task error.message
      unless_given_up (retry_or_give_up e task) e error.message g)
    else retry_or_give_up e task error.message

unfoldable pub after_requeue : Executor → UploadTask → Result (Unit {0}) → M (Unit {0})
unfolding abandon_task_upload
after_requeue e task (err not_found) = abandon_task_upload e task
after_requeue e task _ = pure tt

-- What the retry goroutine does when its timer fires.
unfoldable pub requeue : Executor → UploadTask → M (Unit {0})
unfolding update_status after_requeue
requeue e task = do r ← attempt (update_status task.id pending); after_requeue e task r
