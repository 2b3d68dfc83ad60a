-- ===== src/Executor/Tests.antt =====
-- The theorems on the executor, applied to concrete queues.
use fileagent.Prelude.{ℕ, ◌≡◌, ◌≤◌, refl, true, false, none, some, [], ◌∷◌, any, count_where, arith}
use fileagent.Prelude.Int.{pos}
use fileagent.Queue.Types.{failed, next_retry_never}
use fileagent.Queue.Monad.{World, ok, query, now, exec, transaction}
use fileagent.Queue.Samples.{
  reported_task, some_task, tables_of, world_of, multipart_task, running_world, waiting_world,
}
use fileagent.Queue.Tracking.{tracked}
use fileagent.Executor.Types.{UploadError, Executor}
use fileagent.Executor.Abandon.{retry_delay, abort_backoff_delay, drain_abort_outbox}
use fileagent.Executor.Failure.{success_report, handle_failure}
use fileagent.Executor.Process.{finished, enforce_capacity}
use fileagent.Executor.Recovery.{recover_failed_tasks, acknowledge, handle_acknowledgement}
use fileagent.Queue.Sql.{select, update, delete}
use fileagent.Queue.Tasks.{update_tasks}
use fileagent.Queue.Reports.{
  get_report, complete_reported, complete_rows, insert_processed, acknowledge_rows,
}
use fileagent.Executor.Once.{handle_acknowledgement_once}
use fileagent.Executor.Delays.{retry_delay_bounds}
use fileagent.Executor.Releases.{drain_abort_outbox-tracked}
use fileagent.Executor.Capacity.{Present, enforce_capacity_keeps_new}
use fileagent.Executor.Termination.{enforce_capacity_ends}
use fileagent.Executor.Resurrection.{resurrected, recover_failed_tasks_dead}
use fileagent.Executor.NoLoss.{handle_failure-tracked}

abbrev small_executor : Executor
small_executor = record {
  queue_max_size = 1;
  retry_max = 3;
  has_abandon = true;
  report_timeout = 30000;
  marshal = λ r. some r.task_id;
  unmarshal = λ p. none;
  wrap = λ m e. m;
}

abbrev broken : UploadError
broken = record { terminal = false; message = "broken" }

handle_failure-tracked_example :
    tracked "u1" (handle_failure small_executor multipart_task broken running_world).1 ≡ true
unfolding any
handle_failure-tracked_example =
    handle_failure-tracked "u1" small_executor multipart_task broken running_world refl refl refl

abbrev outbox_world : World
outbox_world = world_of (record (tables_of []) {
  multipart_abort_outbox =
      record {
        upload_id = "u1";
        task_id = "t1";
        bucket = "bucket";
        storage_path = "remote";
        attempts = 0;
        next_attempt_at = 0;
        last_error = none;
        created_at = 3;
      }
      ∷ [];
})

drain_abort_outbox-tracked_example :
    tracked "u1" (drain_abort_outbox small_executor "refused" outbox_world).1 ≡ true
unfolding any
drain_abort_outbox-tracked_example =
    drain_abort_outbox-tracked "u1" small_executor "refused" outbox_world refl

enforce_capacity_ends_example :
    (enforce_capacity 3 small_executor "t2" waiting_world).0 ≡ ok finished
enforce_capacity_ends_example =
    enforce_capacity_ends 3 small_executor "t2" waiting_world (omega arith)

enforce_capacity_keeps_new_example :
    Present "t2"
      (λ _. true)
      (enforce_capacity 3 small_executor "t2" waiting_world).1.tables.upload_tasks
unfolding any
enforce_capacity_keeps_new_example =
    enforce_capacity_keeps_new "t2" (λ _. true) 3 small_executor waiting_world refl

abbrev abandoned_world : World
abandoned_world =
    world_of
      (tables_of (record (some_task "t1" "u1" failed) { next_retry_at = next_retry_never } ∷ []))

recover_failed_tasks_dead_example :
    any
      (resurrected "t1")
      (recover_failed_tasks small_executor abandoned_world).1.tables.upload_tasks
    ≡ false
unfolding any
recover_failed_tasks_dead_example =
    recover_failed_tasks_dead small_executor "t1" abandoned_world refl

retry_delay_bounds_example :
    (d : ℕ) × (retry_delay 2 ≡ some d) × (abort_backoff_delay 1 ≡ some d) × (60 ≤ d) × (d ≤ 3600)
retry_delay_bounds_example = retry_delay_bounds 1

-- A stored report of the reported task, and an executor that reads it.
abbrev reading_executor : Executor
reading_executor = record small_executor {
  unmarshal = λ p. some (
      success_report reported_task
        (record {
          sha256 = p;
          etag = "";
          size_bytes = pos 10;
          storage_path = "remote";
          bucket = "bucket";
        })
        4);
}

abbrev acked_world : World
acked_world = world_of (record (tables_of (reported_task ∷ [])) {
  upload_reports = record { task_id = "t1"; payload = "sum"; last_reported_at = 0 } ∷ [];
})

handle_acknowledgement_once_example :
    let w' =
      (handle_acknowledgement reading_executor
        (some (record { success = true; ref_message_id = "t1" }))
        acked_world).1 in
    (handle_acknowledgement reading_executor
      (some (record { success = true; ref_message_id = "t1" }))
      w').1.tables
    ≡ w'.tables
unfolding handle_acknowledgement acknowledge get_report complete_reported complete_rows
    insert_processed acknowledge_rows transaction query now update_tasks exec count_where update
    select delete any
handle_acknowledgement_once_example =
    handle_acknowledgement_once reading_executor "t1" true acked_world refl
