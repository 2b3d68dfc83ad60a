-- ===== src/Executor/Failing.antt =====
-- The steps of handleFailure in executor.go: what each leaves of an upload, on any schedule of failures.
use fileagent.Prelude.{
  ℕ, suc, ◌/◌, String, ◌≡◌, Bool, true, false, ◌&&◌, Option, none, some, List, ◌==◌, arith, str_eq,
  any, Bool-cases, inl, inr,
}
use fileagent.Queue.Types.{reported, next_retry_never, UploadTask, Tables}
use fileagent.Queue.Monad.{not_found, World, Result, ok, err, transaction_error, commit}
use fileagent.Queue.Sql.{update}
use fileagent.Queue.Rows.{any-update_apart, any-update_clear, any-update-false, any-false_of_imp}
use fileagent.Queue.Keeps.{
  Property, Keeps, Keeps-pure, Keeps-raise, Keeps-attempt, Keeps-write, Keeps-if, Keeps-bind,
  Keeps-now, Keeps-transaction, Released,
}
use fileagent.Queue.Tasks.{has_id, update_tasks}
use fileagent.Queue.Lifecycle.{with_failure, with_status}
use fileagent.Queue.Aborts.{finalise, mark_failed_abandoned}
use fileagent.Queue.Reports.{is_reportable, put_report, save_report_body, save_report}
use fileagent.Queue.Tracking.{
  is_live, holds, stale, or_map, finalise-committed, finalise_not_found, committed,
  mark_failed_abandoned-tracked,
}
use fileagent.Executor.Types.{UploadReport, Executor}
use fileagent.Executor.Releases.{Tracked}
use fileagent.Executor.Failure.{save_payload, persist_result}

-- A row with this id that will run again.
abbrev pub lives : String → UploadTask → Bool
lives id r = has_id id r && is_live r.status r.next_retry_at

abbrev pub Final : String → String → Property
Final u id t rel = Tracked u t rel × (any (lives id) t.upload_tasks ≡ false)

-- Reporting a task of which no row will run again loses nothing.
holds-report :
    (u id : String) (n : ℕ) (l : List UploadTask)
    → any (lives id) l ≡ false
    → any (holds u) l ≡ true
    → any (holds u) (update (λ r. has_id id r && is_reportable r.status) (with_status reported n) l)
      ≡ true
holds-report u id n l =
    any-update_apart (lives id) _ (holds u) (with_status reported n) l (λ x idle p. ground arith)

lives-report :
    (id : String) (n : ℕ) (l : List UploadTask)
    → any (lives id) l ≡ false
    → any
        (lives id)
        (update (λ r. has_id id r && is_reportable r.status) (with_status reported n) l)
      ≡ false
lives-report id n l h =
    any-update-false _ (lives id) (with_status reported n) l (λ x p. ground arith) h

-- The first write of SaveReport.
abbrev mark_reported : String → ℕ → Tables → Tables
mark_reported id n t = record t {
  upload_tasks =
      update (λ r. has_id id r && is_reportable r.status) (with_status reported n) t.upload_tasks;
}

-- SaveReport, for a property that its two writes keep.
save_report_body-Keeps :
    (Q : Property) (id payload : String)
    → ((n : ℕ) (t : Tables) (rel : List String) → Q t rel → Q (mark_reported id n t) rel)
    → ((t : Tables) (rel : List String)
        → Q t rel
        → Q (record t { upload_reports = put_report id payload t.upload_reports }) rel)
    → Keeps Q (save_report_body id payload)
unfolding update_tasks
save_report_body-Keeps Q id payload mark put = Keeps-bind _ _ Keeps-now (λ n.
    Keeps-bind _ _ (Keeps-write _ (mark_reported id n) (mark n)) (λ rows.
      Keeps-bind _ _ (Keeps-if (rows == 0) _ _ (Keeps-raise _) (Keeps-pure tt))
        (λ _. Keeps-bind _ _ (Keeps-write _ _ put) (λ _. Keeps-pure (commit tt)))))

save_report-Keeps : (u id payload : String) → Keeps (Final u id) (save_report id payload)
unfolding save_report
save_report-Keeps u id payload =
    Keeps-transaction _
      (λ rel. save_report_body-Keeps (Released rel) id payload (λ n t r h. h) (λ t r h. h))
      (save_report_body-Keeps (Final u id) id payload
        (λ n t rel h. (
          or_map _ _ _ _ (or_map _ _ _ _ (holds-report u id n t.upload_tasks h.1) (λ a. a)) (λ b. b)
              h.0,
          lives-report id n t.upload_tasks h.1,
        ))
        (λ t rel h. h))

save_payload-Keeps : (u id : String) (o : Option String) → Keeps (Final u id) (save_payload id o)
unfolding save_payload
save_payload-Keeps u id none = Keeps-pure tt
save_payload-Keeps u id (some payload) =
    Keeps-bind _ _ (Keeps-attempt _ (save_report-Keeps u id payload)) (λ _. Keeps-pure tt)

pub persist_result-Keeps :
    (u : String) (e : Executor) (task : UploadTask) (report : ℕ → UploadReport)
    → Keeps (Final u task.id) (persist_result e task report)
unfolding persist_result
persist_result-Keeps u e task report =
    Keeps-bind _ _ Keeps-now (λ n. save_payload-Keeps u task.id (e.marshal (report n)))

-- Before the failure is recorded: the upload is tracked, and the rows of the task record the upload
-- that the caller's copy carries.
abbrev pub Before : String → UploadTask → Property
Before u task t rel = Tracked u t rel × (any (stale task) t.upload_tasks ≡ false)

-- How the attempt to mark the task ends.
abbrev pub Marked : String → UploadTask → Result (Unit {0}) → Property
Marked u task (ok _) = Final u task.id
Marked u task (err not_found) = Final u task.id
Marked u task (err _) = Before u task

never_lives :
    (task : UploadTask) (msg : String) (n : ℕ) (l : List UploadTask)
    → any (lives task.id) (update (has_id task.id) (with_failure next_retry_never msg n) l) ≡ false
never_lives task msg n l =
    any-update_clear (has_id task.id) (lives task.id) (with_failure next_retry_never msg n) l
      (λ x. ground arith)

no_row_no_life :
    (id : String) (l : List UploadTask) → any (has_id id) l ≡ false → any (lives id) l ≡ false
no_row_no_life id l = any-false_of_imp (has_id id) (lives id) l (λ x h. ground arith)

committed-lives :
    (task : UploadTask) (msg : String) (w : World)
    → any (lives task.id) (committed task (with_failure next_retry_never msg) w).upload_tasks
      ≡ false
committed-lives task msg w = elim (Bool-cases (str_eq task.upload_id "")) [
  | inl e ↦ rw e (never_lives task msg (w.clock (suc w.turn) / 1000) w.tables.upload_tasks)
  | inr e ↦ rw e (never_lives task msg (w.clock (suc w.turn) / 1000) w.tables.upload_tasks)
]

module _ (u : String) (named : str_eq u "" ≡ false) (task : UploadTask) (msg : String) (w : World)
    (h : Before u task w.tables w.released) where
  abbrev pub after : World
  after = (mark_failed_abandoned task msg w).1

  kept : Tracked u after.tables after.released
  kept = mark_failed_abandoned-tracked u task msg w named h.1 h.0

  pub marked :
      (r : Result (Unit {0}))
      → (mark_failed_abandoned task msg w).0 ≡ r
      → Marked u task r after.tables after.released
  unfolding mark_failed_abandoned
  marked (ok _) e = (
    kept,
    rw (finalise-committed task (with_failure next_retry_never msg) w e)
        (committed-lives task msg w),
  )
  marked (err not_found) e = (
    kept,
    rw (transaction_error (finalise task (with_failure next_retry_never msg)) w e) (
        no_row_no_life task.id w.tables.upload_tasks
          (finalise_not_found task (with_failure next_retry_never msg) w e)),
  )
  marked (err x) e =
      (kept, rw (transaction_error (finalise task (with_failure next_retry_never msg)) w e) h.1)
