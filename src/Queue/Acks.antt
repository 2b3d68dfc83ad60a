-- ===== src/Queue/Acks.antt =====
-- reports.go: saving, reading back and acknowledging a report.
use fileagent.Prelude.{
  ℕ, suc, ◌/◌, String, ◌≡◌, refl, subst, Bool, true, false, ◌&&◌, Option, none, some, List, [], ◌∷◌,
  ◌++◌, arith, any, Bool-cases, inl, inr, eq_iff,
}
use fileagent.Prelude.Int.{=ℤ_refl}
use fileagent.Queue.Types.{reported, status_eq, UploadTask, ProcessedFile, Report}
use fileagent.Queue.Monad.{World, ok}
use fileagent.Queue.Sql.{select, update}
use fileagent.Queue.Rows.{
  any-eq-count, any-append, any-update_reach, any-update_clear, any-select, select-update,
  select-head,
}
use fileagent.Queue.Tasks.{has_id}
use fileagent.Queue.Files.{same_key, is_file}
use fileagent.Queue.Reports.{
  of_task, put_report, save_report, get_report, complete_reported, with_completion, processed_of,
  refreshed, acknowledge_file, acknowledge_rows,
}

first : List Report → Option String
first [] = none
first (r ∷ _) = some r.payload

select-of_task :
    (id payload : String) (l : List Report)
    → any (of_task id) l ≡ true
    → first (
        select
          (of_task id)
          (update (of_task id) (λ r. record r { payload = payload; last_reported_at = 0 }) l))
      ≡ some payload
unfolding any select update first
select-of_task id payload [] h = ground arith
select-of_task id payload (x ∷ xs) h = ground (arith, select-of_task id payload xs)

select-append_new :
    (id payload : String) (l : List Report)
    → any (of_task id) l ≡ false
    → first (
        select
          (of_task id)
          (l ++ record { task_id = id; payload = payload; last_reported_at = 0 } ∷ []))
      ≡ some payload
unfolding any select first
select-append_new id payload [] h = ground (arith, eq_iff id id)
select-append_new id payload (x ∷ xs) h = ground (arith, select-append_new id payload xs)

first-put_report :
    (id payload : String) (l : List Report)
    → first (select (of_task id) (put_report id payload l)) ≡ some payload
first-put_report id payload l = elim (Bool-cases (any (of_task id) l)) [
  | inl e ↦ rw e (select-of_task id payload l e)
  | inr e ↦ rw e (select-append_new id payload l e)
]

save_report_committed :
    (id payload : String) (w : World)
    → (save_report id payload w).0 ≡ ok tt
    → (save_report id payload w).1.tables.upload_reports
      ≡ put_report id payload w.tables.upload_reports
unfolding save_report
save_report_committed id payload w h = ground arith

get_report-first :
    (id payload : String) (w : World)
    → w.fails w.turn ≡ false
    → first (select (of_task id) w.tables.upload_reports) ≡ some payload
    → (get_report id w).0 ≡ ok payload
unfolding get_report first
get_report-first id payload w fine h = ground arith

-- The payload that is read back for a task is the one that was last saved for it.
pub get_report-save_report :
    (id payload : String) (w : World)
    → (save_report id payload w).0 ≡ ok tt
    → let w' = (save_report id payload w).1 in
      w'.fails w'.turn ≡ false → (get_report id w').0 ≡ ok payload
get_report-save_report id payload w saved fine =
    get_report-first id payload (save_report id payload w).1 fine (
      rw (save_report_committed id payload w saved)
        (first-put_report id payload w.tables.upload_reports))

abbrev pub awaits : String → UploadTask → Bool
awaits id r = has_id id r && status_eq r.status reported

completed-clear :
    (id sha : String) (n : ℕ) (l : List UploadTask)
    → any (awaits id) (update (awaits id) (with_completion sha n) l) ≡ false
completed-clear id sha n l =
    any-update_clear (awaits id) (awaits id) (with_completion sha n) l (λ x. ground arith)

-- An acknowledgement that is carried out leaves no row of the task waiting for one.
pub complete_reported_clear :
    (id : String) (uploaded : Bool) (sha : String) (w : World)
    → (complete_reported id uploaded sha w).0 ≡ ok tt
    → any (awaits id) (complete_reported id uploaded sha w).1.tables.upload_tasks ≡ false
unfolding complete_reported
complete_reported_clear id false sha w h = ground (
  arith,
  completed-clear id sha (w.clock (suc w.turn) / 1000) w.tables.upload_tasks,
  any-eq-count (awaits id) w.tables.upload_tasks,
)
complete_reported_clear id true sha w h = ground (
  arith,
  completed-clear id sha (w.clock (suc w.turn) / 1000) w.tables.upload_tasks,
  any-eq-count (awaits id) w.tables.upload_tasks,
)

-- Where no row waits, nothing changes.
pub complete_reported_nothing :
    (id : String) (uploaded : Bool) (sha : String) (w : World)
    → any (awaits id) w.tables.upload_tasks ≡ false
    → (complete_reported id uploaded sha w).1.tables ≡ w.tables
unfolding complete_reported
complete_reported_nothing id uploaded sha w none_waits =
    ground (arith, any-eq-count (awaits id) w.tables.upload_tasks)

-- An acknowledgement works once: after one that is carried out, a second for the same task, whatever
-- it says, leaves every table as it is.
pub complete_reported_once :
    (id : String) (uploaded again? : Bool) (sha sha' : String) (w : World)
    → (complete_reported id uploaded sha w).0 ≡ ok tt
    → (complete_reported id again? sha' (complete_reported id uploaded sha w).1).1.tables
      ≡ (complete_reported id uploaded sha w).1.tables
complete_reported_once id uploaded again? sha sha' w h =
    complete_reported_nothing id again? sha' (complete_reported id uploaded sha w).1
      (complete_reported_clear id uploaded sha w h)

complete_reported_files :
    (id sha : String) (w : World)
    → (complete_reported id true sha w).0 ≡ ok tt
    → any (awaits id) w.tables.upload_tasks ≡ true
    → acknowledge_rows
        (w.clock (suc (suc (suc w.turn))) / 1000)
        (select (has_id id) (
          update
            (awaits id)
            (with_completion sha (w.clock (suc w.turn) / 1000))
            w.tables.upload_tasks))
        w.tables.processed_files
      ≡ ok (complete_reported id true sha w).1.tables.processed_files
unfolding complete_reported
complete_reported_files id sha w h waits =
    ground (arith, any-eq-count (awaits id) w.tables.upload_tasks)

abbrev pub file_of : ProcessedFile → ProcessedFile → Bool
file_of f = is_file f.rule_id f.local_path f.file_mtime f.file_size

refreshed-file_of :
    (f x : ProcessedFile)
    → same_key f.rule_id f.local_path x ≡ true
    → file_of f (refreshed f x) ≡ true
refreshed-file_of f x h = ground (arith, =ℤ_refl f.file_mtime, =ℤ_refl f.file_size)

file_of_self : (f : ProcessedFile) → file_of f f ≡ true
file_of_self f = ground (
  arith,
  =ℤ_refl f.file_mtime,
  =ℤ_refl f.file_size,
  eq_iff f.rule_id f.rule_id,
  eq_iff f.local_path f.local_path,
)

new-file_of : (f : ProcessedFile) (l : List ProcessedFile) → any (file_of f) (l ++ f ∷ []) ≡ true
unfolding any
new-file_of f l = ground (arith, any-append (file_of f) l (f ∷ []), file_of_self f)

acknowledge_file-file_of :
    (f : ProcessedFile) (l : List ProcessedFile) {l' : List ProcessedFile}
    → acknowledge_file f l ≡ ok l'
    → any (file_of f) l' ≡ true
acknowledge_file-file_of f l h = elim (Bool-cases (any (same_key f.rule_id f.local_path) l)) [
  | inl e ↦ ground (
    arith,
    any-update_reach (same_key f.rule_id f.local_path) (file_of f) (refreshed f) l
        (refreshed-file_of f) e,
  )
  | inr e ↦ ground (arith, new-file_of f l)
]

one_row-file_of :
    (n : ℕ) (t : UploadTask) (l : List ProcessedFile) {l' : List ProcessedFile}
    → acknowledge_rows n (t ∷ []) l ≡ ok l'
    → any (file_of (processed_of n t)) l' ≡ true
unfolding acknowledge_rows
one_row-file_of n t l h = acknowledge_file-file_of (processed_of n t) l (ground arith)

-- The version of the file that a task carries.
abbrev pub version_of : UploadTask → ProcessedFile → Bool
version_of t = is_file t.rule_id t.local_path t.file_mtime t.file_size

-- The acknowledged row, alone in the selection of its id.
select-acked :
    (id sha : String) (n : ℕ) (t : UploadTask) (l : List UploadTask)
    → select (has_id id) l ≡ t ∷ []
    → t.status ≡ reported
    → select (has_id id) (update (awaits id) (with_completion sha n) l)
      ≡ with_completion sha n t ∷ []
unfolding update
select-acked id sha n t l only is_reported = rw (
  select-update (has_id id) (awaits id) (with_completion sha n) l (λ x. refl),
  only,
  select-head (has_id id) l only,
  is_reported,
)

-- An acknowledged upload is not made again: when the only row of the task is reported, a successful
-- acknowledgement that is carried out leaves its version of the file among the processed files.
pub complete_reported-is_file :
    (id sha : String) (t : UploadTask) (w : World)
    → (complete_reported id true sha w).0 ≡ ok tt
    → select (has_id id) w.tables.upload_tasks ≡ t ∷ []
    → t.status ≡ reported
    → any (version_of t) (complete_reported id true sha w).1.tables.processed_files ≡ true
complete_reported-is_file id sha t w h only is_reported =
    let n = w.clock (suc w.turn) / 1000 in
    let k = w.clock (suc (suc (suc w.turn))) / 1000 in
    one_row-file_of k (with_completion sha n t) w.tables.processed_files (
      subst
        (λ rows.
          acknowledge_rows k rows w.tables.processed_files
          ≡ ok (complete_reported id true sha w).1.tables.processed_files)
        (select-acked id sha n t w.tables.upload_tasks only is_reported)
        (complete_reported_files id sha w h (
          any-select (has_id id) (λ r. status_eq r.status reported) w.tables.upload_tasks only
            (rw is_reported))))
