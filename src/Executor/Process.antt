-- ===== src/Executor/Process.antt =====
-- agent/internal/executor/executor.go: processTask, Submit and enforceCapacity.
use fileagent.Prelude.{
  ℕ, zero, suc, String, Bool, true, false, Option, none, some, List, [], leb, str_eq, if◌then◌else◌,
}
use fileagent.Queue.Types.{completed, AppendMode, overwrite, tail, close_wait, UploadTask}
use fileagent.Queue.Monad.{not_found, Result, ok, err, M, pure, attempt, ◌>>=◌, ◌>>◌}
use fileagent.Queue.Tasks.{enqueue_if_no_active, count_active, delete_oldest_evictable}
use fileagent.Queue.Lifecycle.{update_status}
use fileagent.Queue.Files.{is_processed}
use fileagent.Queue.Aborts.{mark_completed_abandoning_upload}
use fileagent.Executor.Types.{
  Outcome, uploaded, nil_result, upload_failed, UploadError, UploadFunc, Executor,
}
use fileagent.Executor.Abandon.{abandon_task_upload}
use fileagent.Executor.Failure.{success_report, persist_result, handle_failure}

abbrev pub is_tail : AppendMode → Bool
is_tail tail = true
is_tail overwrite = false
is_tail close_wait = false

abbrev or_false : Result Bool → Bool
or_false (ok b) = b
or_false (err _) = false

-- The error of the gate on append_mode=tail; its text stands for the long message.
abbrev pub tail_disabled : UploadError
tail_disabled = record { terminal = true; message = "append_mode=tail is disabled" }

unfoldable pub after_dedup : Executor → UploadTask → Result (Unit {0}) → M (Option ℕ)
unfolding abandon_task_upload handle_failure
after_dedup e task (ok _) = do abandon_task_upload e task; pure none
after_dedup e task (err not_found) = do abandon_task_upload e task; pure none
after_dedup e task (err failure) =
    handle_failure e task (record {
      terminal = false;
      message = e.wrap "dedup completion could not be recorded" failure;
    })

unfoldable pub complete_duplicate : Executor → UploadTask → M (Option ℕ)
unfolding update_status mark_completed_abandoning_upload after_dedup
complete_duplicate e task =
    if str_eq task.upload_id ""
    then (do attempt (update_status task.id completed); pure none)
    else (do r ← attempt (mark_completed_abandoning_upload task); after_dedup e task r)

abbrev run_upload : UploadFunc → UploadTask → M (UploadTask × Outcome)
run_upload upload task w = let (r, w') = upload task w in (ok r, w')

unfoldable pub after_upload : Executor → UploadTask × Outcome → M (Option ℕ)
unfolding handle_failure persist_result
after_upload e (task, uploaded result) = do
  persist_result e task (success_report task result)
  pure none
after_upload e (task, nil_result) =
    handle_failure e task (record { terminal = false; message = "uploader returned nil result" })
after_upload e (task, upload_failed error) = handle_failure e task error

unfoldable pub upload_task : Executor → UploadFunc → UploadTask → M (Option ℕ)
unfolding handle_failure after_upload
upload_task e upload task =
    if is_tail task.append_mode
    then handle_failure e task tail_disabled
    else (do r ← run_upload upload task; after_upload e r)

unfoldable pub process_task : Executor → UploadFunc → UploadTask → M (Option ℕ)
unfolding is_processed complete_duplicate upload_task
process_task e upload task = do
  already ← attempt (is_processed task.rule_id task.local_path task.file_mtime task.file_size)
  if or_false already then complete_duplicate e task else upload_task e upload task

abbrev or_empty : Result (List UploadTask) → List UploadTask
or_empty (ok l) = l
or_empty (err _) = []

-- How a loop of the executor ends.
pub data Loop : Type 0 where
  finished out_of_fuel : Loop

abbrev pub after_count : Executor → Result ℕ → Bool
after_count e (ok n) = leb n e.queue_max_size
after_count e (err _) = true

abbrev pub dropped_or_none : Result (Option UploadTask) → M (Option UploadTask)
dropped_or_none (ok d) = pure d
dropped_or_none (err _) = pure none

abbrev pub next_round : M Loop → Executor → Option UploadTask → M Loop
next_round later e none = pure finished
next_round later e (some t) = abandon_task_upload e t >>= λ _. later

-- One round of the loop: `none` ends it, `some t` has dropped `t`.
unfoldable pub capacity_round : Executor → String → M (Option UploadTask)
unfolding count_active
capacity_round e new_id = do
  n ← attempt count_active
  if after_count e n
      then pure none
      else (do dropped ← attempt (delete_oldest_evictable new_id); dropped_or_none dropped)

unfoldable pub capacity_loop : ℕ → Executor → String → M Loop
capacity_loop zero e new_id = pure out_of_fuel
capacity_loop (suc fuel) e new_id =
    let later = capacity_loop fuel e new_id in capacity_round e new_id >>= next_round later e

unfoldable pub enforce_capacity : ℕ → Executor → String → M Loop
unfolding capacity_loop capacity_round
enforce_capacity fuel e new_id =
    if leb e.queue_max_size 0 then pure finished else capacity_loop fuel e new_id

-- `uuid` is the identifier that uuid.New() makes.
abbrev pub with_id : String → UploadTask → UploadTask
with_id uuid task = record task { id = if str_eq task.id "" then uuid else task.id }

unfoldable pub submit : ℕ → Executor → String → UploadTask → M Loop
unfolding enqueue_if_no_active enforce_capacity
submit fuel e uuid task = do
  enqueued ← enqueue_if_no_active (with_id uuid task)
  if enqueued then enforce_capacity fuel e (with_id uuid task).id else pure finished
