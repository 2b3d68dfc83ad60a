-- ===== src/Executor/Abandon.antt =====
-- agent/internal/executor/executor.go: giving up on multipart uploads, and the abort worker.
use fileagent.Prelude.{
  ℕ, ◌+◌, ◌-◌, String, Bool, true, false, not, ◌||◌, Option, none, some, List, [], ◌∷◌, leb, str_eq,
  if◌then◌else◌, length, get_elem?,
}
use fileagent.Queue.Types.{UploadTask, AbortOutboxEntry}
use fileagent.Queue.Monad.{
  index_range, Result, ok, err, M, next, pure, raise, attempt, now, ◌>>=◌, ◌>>◌,
}
use fileagent.Queue.Tasks.{abort_of}
use fileagent.Queue.Aborts.{
  enqueue_multipart_abort, due_multipart_aborts, record_multipart_abort_attempt,
  delete_multipart_abort,
}
use fileagent.Executor.Types.{Executor, default_retry_delays}

-- `e.abandon(actx, task)`: the remote side answers, and has released the upload if it succeeds.
unfoldable pub call_abandon : String → M Bool
call_abandon upload_id w =
    if w.abort_succeeds w.turn
    then (ok true, record (next w) { released = upload_id ∷ w.released })
    else (ok false, next w)

unfoldable pub after_abort : String → Bool → M (Unit {0})
unfolding delete_multipart_abort
after_abort upload_id false = pure tt
after_abort upload_id true = do attempt (delete_multipart_abort upload_id); pure tt

unfoldable pub abandon_task_upload : Executor → UploadTask → M (Unit {0})
unfolding enqueue_multipart_abort call_abandon after_abort
abandon_task_upload e task = if not e.has_abandon || str_eq task.upload_id "" then pure tt else (do
  attempt (enqueue_multipart_abort (abort_of task 0))
  succeeded ← call_abandon task.upload_id
  after_abort task.upload_id succeeded)

-- `delays[min(idx, len(delays) - 1)]`; with no delays the index is out of range.
abbrev pub delay_at : List ℕ → ℕ → Option ℕ
delay_at delays idx =
    if leb (length delays) idx
    then (if leb (length delays) 0 then none else get_elem? delays (length delays - 1))
    else get_elem? delays idx

unfoldable pub abort_backoff_delay : ℕ → Option ℕ
abort_backoff_delay attempts = delay_at default_retry_delays attempts

unfoldable pub retry_delay : ℕ → Option ℕ
retry_delay attempt_no = delay_at default_retry_delays (attempt_no - 1)

unfoldable pub abort_failed : AbortOutboxEntry → String → Option ℕ → M (Unit {0})
unfolding now record_multipart_abort_attempt
abort_failed entry msg none = raise index_range
abort_failed entry msg (some delay) = do
  n ← now
  attempt (record_multipart_abort_attempt entry.upload_id (n + delay) msg)
  pure tt

unfoldable pub abort_attempted : AbortOutboxEntry → String → Bool → M (Unit {0})
unfolding after_abort abort_failed abort_backoff_delay
abort_attempted entry msg true = after_abort entry.upload_id true
abort_attempted entry msg false = abort_failed entry msg (abort_backoff_delay entry.attempts)

-- The loop over the due records; `msg` is the text of a failed abort.
unfoldable pub drain_entries : String → List AbortOutboxEntry → M (Unit {0})
unfolding call_abandon abort_attempted
drain_entries msg [] = pure tt
drain_entries msg (entry ∷ entries) = do
  succeeded ← call_abandon entry.upload_id
  abort_attempted entry msg succeeded
  drain_entries msg entries

abbrev pub or_none : Result (List AbortOutboxEntry) → List AbortOutboxEntry
or_none (ok l) = l
or_none (err _) = []

unfoldable pub drain_abort_outbox : Executor → String → M (Unit {0})
unfolding now due_multipart_aborts drain_entries
drain_abort_outbox e msg =
    if e.has_abandon
    then (do
      n ← now
      entries ← attempt (due_multipart_aborts n 100)
      drain_entries msg (or_none entries))
    else pure tt
