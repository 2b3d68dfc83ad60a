-- ===== src/Executor/Gate.antt =====
-- processTask of executor.go: the gate on append_mode=tail, and the skipping of duplicates.
use fileagent.Prelude.{◌≡◌, true}
use fileagent.Queue.Types.{tail, UploadTask}
use fileagent.Queue.Monad.{World, ok}
use fileagent.Queue.Files.{is_processed}
use fileagent.Executor.Types.{UploadFunc, Executor}
use fileagent.Executor.Process.{upload_task, process_task}

-- No tail task reaches the uploader: what happens to one is the same whatever the uploader is.
pub process_task_tail :
    (e : Executor) (upload other : UploadFunc) (task : UploadTask) (w : World)
    → task.append_mode ≡ tail
    → process_task e upload task w ≡ process_task e other task w
unfolding process_task upload_task
process_task_tail e upload other task w h = rw h

-- A task whose file has been processed does not reach the uploader either.
pub process_task_duplicate :
    (e : Executor) (upload other : UploadFunc) (task : UploadTask) (w : World)
    → (is_processed task.rule_id task.local_path task.file_mtime task.file_size w).0 ≡ ok true
    → process_task e upload task w ≡ process_task e other task w
unfolding process_task
process_task_duplicate e upload other task w h = rw h
