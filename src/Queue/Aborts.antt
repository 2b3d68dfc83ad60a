-- ===== src/Queue/Aborts.antt =====
-- agent/internal/queue/aborts.go: the durable outbox of multipart aborts.
use fileagent.Prelude.{
  ℕ, ◌+◌, String, Bool, some, List, ◌==◌, leb, ltb, str_eq, if◌then◌else◌, take, length,
  count_where,
}
use fileagent.Queue.Types.{completed, next_retry_never, UploadTask, AbortOutboxEntry}
use fileagent.Queue.Monad.{ok, M, pure, now, exec, query, Ending, commit, transaction, ◌>>=◌, ◌>>◌}
use fileagent.Queue.Sql.{select, update, delete, order_by}
use fileagent.Queue.Tasks.{has_id, update_tasks, insert_abort, record_abort_intent}
use fileagent.Queue.Lifecycle.{found, with_failure, with_status}

abbrev pub of_upload : String → AbortOutboxEntry → Bool
of_upload upload_id e = str_eq e.upload_id upload_id

unfoldable pub enqueue_multipart_abort : AbortOutboxEntry → M (Unit {0})
unfolding now insert_abort
enqueue_multipart_abort e =
    if e.created_at == 0
    then (do n ← now; insert_abort (record e { created_at = n }))
    else insert_abort e

unfoldable pub due_multipart_aborts : ℕ → ℕ → M (List AbortOutboxEntry)
unfolding query
due_multipart_aborts at limit = query (λ t. take limit (
    order_by (λ a b. ltb a.created_at b.created_at)
      (select (λ e. leb e.next_attempt_at at) t.multipart_abort_outbox)))

unfoldable pub record_multipart_abort_attempt : String → ℕ → String → M (Unit {0})
unfolding exec
record_multipart_abort_attempt upload_id next_attempt_at msg = do
  n ← exec (λ t. ok (
    count_where (of_upload upload_id) t.multipart_abort_outbox,
    record t {
      multipart_abort_outbox =
          update (of_upload upload_id)
            (λ e. record e {
              attempts = e.attempts + 1;
              next_attempt_at = next_attempt_at;
              last_error = some msg;
            })
            t.multipart_abort_outbox;
    },
  ))
  found n

unfoldable pub delete_multipart_abort : String → M (Unit {0})
unfolding exec
delete_multipart_abort upload_id = exec (λ t. ok (
  tt,
  record t { multipart_abort_outbox = delete (of_upload upload_id) t.multipart_abort_outbox },
))

unfoldable pub count_multipart_aborts : M ℕ
unfolding query
count_multipart_aborts = query (λ t. length t.multipart_abort_outbox)

-- The body that both transactions share: the row becomes final, and the intent is recorded.
unfoldable pub finalise : UploadTask → (ℕ → UploadTask → UploadTask) → M (Ending (Unit {0}))
unfolding now update_tasks exec record_abort_intent
finalise task change = do
  n ← now
  rows ← update_tasks (has_id task.id) (change n)
  found rows
  record_abort_intent task
  pure (commit tt)

unfoldable pub mark_failed_abandoned : UploadTask → String → M (Unit {0})
unfolding transaction finalise
mark_failed_abandoned task msg = transaction (finalise task (with_failure next_retry_never msg))

unfoldable pub mark_completed_abandoning_upload : UploadTask → M (Unit {0})
unfolding transaction finalise
mark_completed_abandoning_upload task = transaction (finalise task (with_status completed))
