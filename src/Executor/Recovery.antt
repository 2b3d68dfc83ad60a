-- ===== src/Executor/Recovery.antt =====
-- agent/internal/executor/executor.go: recoverFailedTasks; reports.go: the report replay.
use fileagent.Prelude.{
  ℕ, ◌-◌, String, Bool, ◌&&◌, ◌||◌, not, Option, none, some, List, [], ◌∷◌, ◌++◌, leb, str_eq,
  if◌then◌else◌,
}
use fileagent.Prelude.Int.{pos, ◌=ℤ◌, leb_ℤ}
use fileagent.Queue.Types.{pending, failed, next_retry_never, UploadTask, Report}
use fileagent.Queue.Monad.{
  no_rows, malformed, Result, ok, err, M, pure, raise, attempt, now, now_millis, ◌>>=◌, ◌>>◌,
}
use fileagent.Queue.Tasks.{abort_of}
use fileagent.Queue.Lifecycle.{list_by_status, update_status}
use fileagent.Queue.Aborts.{enqueue_multipart_abort}
use fileagent.Queue.Reports.{due_reports, touch_report, get_report, complete_reported}
use fileagent.Executor.Types.{UploadReport, Executor}

pub data Recovery : Type 0 where
  skip legacy requeue_now requeue_later : Recovery

-- What `recoverFailedTasks` does with one failed row at the time `n`.
unfoldable pub classify : Executor → ℕ → UploadTask → Recovery
classify e n t =
    if leb e.retry_max t.retry_count || (t.next_retry_at =ℤ next_retry_never)
    then skip
    else if t.next_retry_at =ℤ pos 0
    then legacy
    else if leb_ℤ t.next_retry_at (pos n)
    then requeue_now
    else requeue_later

-- The timers that are armed: tasks with a future schedule.
unfoldable pub recover_one : Executor → UploadTask → Recovery → M (List UploadTask)
unfolding update_status enqueue_multipart_abort
recover_one e t skip = pure []
recover_one e t legacy =
    if e.has_abandon && not (str_eq t.upload_id "")
    then (do attempt (enqueue_multipart_abort (abort_of t 0)); pure [])
    else pure []
recover_one e t requeue_now = do attempt (update_status t.id pending); pure []
recover_one e t requeue_later = pure (t ∷ [])

unfoldable pub recover_all : Executor → ℕ → List UploadTask → M (List UploadTask)
unfolding recover_one classify
recover_all e n [] = pure []
recover_all e n (t ∷ ts) = do
  timers ← recover_one e t (classify e n t)
  rest ← recover_all e n ts
  pure (timers ++ rest)

abbrev pub or_empty : Result (List UploadTask) → List UploadTask
or_empty (ok l) = l
or_empty (err _) = []

unfoldable pub recover_failed_tasks : Executor → M (List UploadTask)
unfolding list_by_status now recover_all
recover_failed_tasks e = do
  rows ← attempt (list_by_status failed)
  n ← now
  recover_all e n (or_empty rows)

-- One due report: its timer is set before it is handed to the sender. The result lists what is sent.
unfoldable pub send_payload : Report → Option UploadReport → M (List UploadReport)
unfolding touch_report now_millis
send_payload r none = pure []
send_payload r (some report) = do
  n ← now_millis
  touched ← attempt (touch_report r.task_id n)
  elim touched [ ok _ ↦ pure (report ∷ []) | err _ ↦ pure [] ]

unfoldable pub send_all : Executor → List Report → M (List UploadReport)
unfolding send_payload
send_all e [] = pure []
send_all e (r ∷ rs) = do
  sent ← send_payload r (e.unmarshal r.payload)
  rest ← send_all e rs
  pure (sent ++ rest)

abbrev reports_or_empty : Result (List Report) → List Report
reports_or_empty (ok l) = l
reports_or_empty (err _) = []

unfoldable pub send_due_reports : Executor → M (List UploadReport)
unfolding now_millis due_reports send_all
send_due_reports e = do
  n ← now_millis
  due ← attempt (due_reports (n - e.report_timeout))
  send_all e (reports_or_empty due)

-- agentv1.Acknowledgement
pub record Acknowledgement : Type 0 where
  pub success : Bool
  pub ref_message_id : String

abbrev pub acknowledged : String → Option UploadReport → M (Unit {0})
acknowledged id none = raise malformed
acknowledged id (some report) = complete_reported id report.success report.sha256

unfoldable pub acknowledge : Executor → String → Result String → M (Unit {0})
acknowledge e id (err no_rows) = pure tt
acknowledge e id (err failure) = raise failure
acknowledge e id (ok payload) = acknowledged id (e.unmarshal payload)

unfoldable pub handle_acknowledgement : Executor → Option Acknowledgement → M (Unit {0})
unfolding get_report acknowledge
handle_acknowledgement e none = pure tt
handle_acknowledgement e (some ack) =
    if ack.success
    then (do
      payload ← attempt (get_report ack.ref_message_id)
      acknowledge e ack.ref_message_id payload)
    else pure tt
