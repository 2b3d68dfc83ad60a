-- ===== src/Queue/Types.antt =====
-- The rows of the agent's SQLite queue: agent/internal/queue/queue.go, aborts.go, reports.go.
use fileagent.Prelude.{ℕ, String, Bool, true, false, Option, List, []}
use fileagent.Prelude.Int.{ℤ, negsuc}

-- The status column holds one of the five `Status…` constants.
pub data Status : Type 0 where
  pending running reported completed failed : Status

abbrev pub status_eq : Status → Status → Bool
status_eq pending pending = true
status_eq running running = true
status_eq reported reported = true
status_eq completed completed = true
status_eq failed failed = true
status_eq _ _ = false

pub data AppendMode : Type 0 where
  overwrite tail close_wait : AppendMode

-- `NextRetryNever`, -1
abbrev pub next_retry_never : ℤ
next_retry_never = negsuc 0

-- Wall-clock columns are seconds since 1970 and not negative; file times, sizes, offsets and the
-- retry schedule are signed.
pub record UploadTask : Type 0 where
  pub id : String
  pub rule_id : String
  pub local_path : String
  pub storage_path : String
  pub bucket : String
  pub upload_id : String
  pub completed_parts : String
  pub parts_file_mtime : ℤ
  pub parts_file_size : ℤ
  pub file_size : ℤ
  pub file_mtime : ℤ
  pub sha256 : String
  pub status : Status
  pub retry_count : ℕ
  pub next_retry_at : ℤ
  pub last_error : String
  pub created_at : ℕ
  pub updated_at : ℕ
  pub file_offset : ℤ
  pub append_mode : AppendMode

pub record FileVersion : Type 0 where
  pub mtime : ℤ
  pub size : ℤ

pub record ProcessedFile : Type 0 where
  pub id : String
  pub rule_id : String
  pub local_path : String
  pub file_size : ℤ
  pub file_mtime : ℤ
  pub sha256 : String
  pub uploaded_at : ℕ

pub record Rule : Type 0 where
  pub id : String
  pub payload : String
  pub updated_at : ℕ

pub record AbortOutboxEntry : Type 0 where
  pub upload_id : String
  pub task_id : String
  pub bucket : String
  pub storage_path : String
  pub attempts : ℕ
  pub next_attempt_at : ℕ
  pub last_error : Option String
  pub created_at : ℕ

-- A row of upload_reports. The payload is the marshalled protobuf message, taken as a text.
pub record Report : Type 0 where
  pub task_id : String
  pub payload : String
  pub last_reported_at : ℕ

-- The five tables of `schema`, each in the order of its row ids.
pub record Tables : Type 0 where
  pub upload_tasks : List UploadTask
  pub upload_reports : List Report
  pub processed_files : List ProcessedFile
  pub multipart_abort_outbox : List AbortOutboxEntry
  pub rules : List Rule

-- The tables of a database that `Open` has just created.
abbrev pub schema : Tables
schema = record {
  upload_tasks = [];
  upload_reports = [];
  processed_files = [];
  multipart_abort_outbox = [];
  rules = [];
}
