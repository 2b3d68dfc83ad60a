-- ===== src/Queue/Reports.antt =====
-- agent/internal/queue/reports.go: results that wait for an acknowledgement.
use fileagent.Prelude.{
  ℕ, String, Bool, true, false, ◌&&◌, List, [], ◌∷◌, ◌++◌, ◌==◌, leb, ltb, str_eq, text_lt,
  if◌then◌else◌, take, any,
}
use fileagent.Queue.Types.{
  Status, running, reported, completed, failed, status_eq, UploadTask, ProcessedFile, Report,
}
use fileagent.Queue.Monad.{
  no_rows, constraint, Result, ok, err, M, pure, raise, now, exec, query, Ending, commit, rollback,
  transaction, ◌>>=◌, ◌>>◌,
}
use fileagent.Queue.Sql.{select, update, delete, order_by}
use fileagent.Queue.Tasks.{has_id, update_tasks}
use fileagent.Queue.Lifecycle.{found, with_status}
use fileagent.Queue.Files.{same_key, set_files}

abbrev pub of_task : String → Report → Bool
of_task id r = str_eq r.task_id id

abbrev pub is_reportable : Status → Bool
is_reportable running = true
is_reportable failed = true
is_reportable _ = false

-- INSERT … ON CONFLICT(task_id) DO UPDATE
abbrev pub put_report : String → String → List Report → List Report
put_report id payload l =
    if any (of_task id) l
    then update (of_task id) (λ r. record r { payload = payload; last_reported_at = 0 }) l
    else l ++ record { task_id = id; payload = payload; last_reported_at = 0 } ∷ []

abbrev pub save_report_body : String → String → M (Ending (Unit {0}))
save_report_body id payload = do
  n ← now
  rows ← update_tasks (λ r. has_id id r && is_reportable r.status) (with_status reported n)
  found rows
  exec (λ t. ok (tt, record t { upload_reports = put_report id payload t.upload_reports }))
  pure (commit tt)

unfoldable pub save_report : String → String → M (Unit {0})
unfolding transaction now update_tasks exec
save_report id payload = transaction (save_report_body id payload)

-- ORDER BY last_reported_at, task_id
abbrev earlier : Report → Report → Bool
earlier a b =
    if a.last_reported_at == b.last_reported_at
    then text_lt a.task_id b.task_id
    else ltb a.last_reported_at b.last_reported_at

-- `before` is a time in milliseconds.
unfoldable pub due_reports : ℕ → M (List Report)
unfolding query
due_reports before = query (λ t.
    take 100 (order_by earlier (select (λ r. leb r.last_reported_at before) t.upload_reports)))

unfoldable pub touch_report : String → ℕ → M (Unit {0})
unfolding exec
touch_report id millis = exec (λ t. ok (
  tt,
  record t {
    upload_reports =
        update (of_task id) (λ r. record r { last_reported_at = millis }) t.upload_reports;
  },
))

unfoldable pub reset_report_timers : M (Unit {0})
unfolding exec
reset_report_timers = exec (λ t. ok (
  tt,
  record t {
    upload_reports = update (λ _. true) (λ r. record r { last_reported_at = 0 }) t.upload_reports;
  },
))

abbrev pub first_payload : List Report → M String
first_payload [] = raise no_rows
first_payload (r ∷ _) = pure r.payload

unfoldable pub get_report : String → M String
unfolding query
get_report id = do rows ← query (λ t. select (of_task id) t.upload_reports); first_payload rows

-- INSERT INTO processed_files … SELECT … FROM upload_tasks … ON CONFLICT(rule_id, local_path) DO
-- UPDATE: the id of an existing row stays. A new row may not take the id of another.
abbrev pub processed_of : ℕ → UploadTask → ProcessedFile
processed_of n t = record {
  id = t.id;
  rule_id = t.rule_id;
  local_path = t.local_path;
  file_size = t.file_size;
  file_mtime = t.file_mtime;
  sha256 = t.sha256;
  uploaded_at = n;
}

abbrev pub refreshed : ProcessedFile → ProcessedFile → ProcessedFile
refreshed f r = record r {
  file_size = f.file_size;
  file_mtime = f.file_mtime;
  sha256 = f.sha256;
  uploaded_at = f.uploaded_at;
}

abbrev pub acknowledge_file : ProcessedFile → List ProcessedFile → Result (List ProcessedFile)
acknowledge_file f l =
    if any (same_key f.rule_id f.local_path) l
    then ok (update (same_key f.rule_id f.local_path) (refreshed f) l)
    else if any (λ r. str_eq r.id f.id) l
    then err constraint
    else ok (l ++ f ∷ [])

unfoldable pub acknowledge_rows :
    ℕ → List UploadTask → List ProcessedFile → Result (List ProcessedFile)
acknowledge_rows n [] l = ok l
acknowledge_rows n (t ∷ ts) l = elim (acknowledge_file (processed_of n t) l) [
  | ok l' ↦ acknowledge_rows n ts l'
  | err e ↦ err e
]

unfoldable pub insert_processed : String → Bool → M (Unit {0})
unfolding now exec acknowledge_rows select
insert_processed id false = pure tt
insert_processed id true = do
  n ← now
  exec (λ t. set_files t (acknowledge_rows n (select (has_id id) t.upload_tasks) t.processed_files))

abbrev pub with_completion : String → ℕ → UploadTask → UploadTask
with_completion sha n t = record t { status = completed; sha256 = sha; updated_at = n }

unfoldable pub complete_rows : String → Bool → ℕ → M (Ending (Unit {0}))
unfolding insert_processed exec
complete_rows id uploaded rows = if rows == 0 then pure (rollback tt) else (do
  insert_processed id uploaded
  exec (λ t. ok (tt, record t { upload_reports = delete (of_task id) t.upload_reports }))
  pure (commit tt))

unfoldable pub complete_reported : String → Bool → String → M (Unit {0})
unfolding transaction now update_tasks complete_rows
complete_reported id uploaded sha = transaction (do
  n ← now
  rows ← update_tasks (λ r. has_id id r && status_eq r.status reported) (with_completion sha n)
  complete_rows id uploaded rows)
