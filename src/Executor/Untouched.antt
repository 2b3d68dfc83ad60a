-- ===== src/Executor/Untouched.antt =====
-- abandonTaskUpload of executor.go: what it writes to upload_tasks, and what it returns.
use fileagent.Prelude.{String, ◌≡◌, arith, Bool, true, false, List, Bool-cases, inl, inr}
use fileagent.Queue.Types.{UploadTask}
use fileagent.Queue.Monad.{World, ok}
use fileagent.Queue.Keeps.{Keeps, Keeps-pure, Keeps-attempt, Keeps-if, Keeps-bind}
use fileagent.Queue.Tasks.{abort_of}
use fileagent.Queue.Changes.{OnTasks, enqueue-OnTasks, delete-OnTasks}
use fileagent.Executor.Types.{Executor}
use fileagent.Executor.Abandon.{call_abandon, after_abort, abandon_task_upload}

module _ (Z : List UploadTask → Type 0) where
  call_abandon-OnTasks : (u : String) → Keeps (OnTasks Z) (call_abandon u)
  unfolding call_abandon
  call_abandon-OnTasks u = record {
    at = λ w h. elim (Bool-cases (w.abort_succeeds w.turn)) [ inl e ↦ rw e h | inr e ↦ rw e h ];
  }

  after_abort-OnTasks : (u : String) (b : Bool) → Keeps (OnTasks Z) (after_abort u b)
  unfolding after_abort
  after_abort-OnTasks u false = Keeps-pure tt
  after_abort-OnTasks u true =
      Keeps-bind _ _ (Keeps-attempt _ (delete-OnTasks Z u)) (λ _. Keeps-pure tt)

  pub abandon-OnTasks :
      (e : Executor) (task : UploadTask) → Keeps (OnTasks Z) (abandon_task_upload e task)
  unfolding abandon_task_upload
  abandon-OnTasks e task = Keeps-if _ _ _ (Keeps-pure tt) (
      Keeps-bind _ _ (Keeps-attempt _ (enqueue-OnTasks Z (abort_of task 0))) (λ _.
        Keeps-bind _ _ (call_abandon-OnTasks task.upload_id) (after_abort-OnTasks task.upload_id)))

-- It never fails.
pub abandon-answers :
    (e : Executor) (task : UploadTask) (w : World) → (abandon_task_upload e task w).0 ≡ ok tt
unfolding abandon_task_upload
abandon-answers e task w = ground arith
