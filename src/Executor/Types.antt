-- ===== src/Executor/Types.antt =====
-- agent/internal/executor: the configuration of an Executor, and what goes in and out of it.
use fileagent.Prelude.{ℕ, String, Bool, Option, List, [], ◌∷◌}
use fileagent.Prelude.Int.{ℤ}
use fileagent.Queue.Types.{UploadTask}
use fileagent.Queue.Monad.{Error, World}

-- uploader.UploadResult
pub record UploadResult : Type 0 where
  pub sha256 : String
  pub etag : String
  pub size_bytes : ℤ
  pub storage_path : String
  pub bucket : String

-- An `error` of an upload: whether `errors.Is(err, ErrTerminalUpload)`, and its text.
pub record UploadError : Type 0 where
  pub terminal : Bool
  pub message : String

pub data Outcome : Type 0 where
  uploaded : UploadResult → Outcome
  nil_result : Outcome
  upload_failed : UploadError → Outcome

-- An UploadFunc may change the task that it is given and the world.
abbrev pub UploadFunc : Type 0
UploadFunc = UploadTask → World → (UploadTask × Outcome) × World

-- The message agentv1.UploadResult that is persisted and sent.
pub record UploadReport : Type 0 where
  pub task_id : String
  pub rule_id : String
  pub local_path : String
  pub storage_path : String
  pub bucket : String
  pub size_bytes : ℤ
  pub file_mtime : ℤ
  pub uploaded_at : ℕ
  pub retry_count : ℕ
  pub success : Bool
  pub sha256 : String
  pub etag : String
  pub error_message : String

-- `queue_max_size` is 0 where the Go value is 0 or negative. `has_abandon` is `e.abandon != nil`.
-- `marshal` and `unmarshal` are the protobuf library's, `wrap` is the text that fmt.Errorf makes of
-- an error's text and of a failure to record it. `report_timeout` is in milliseconds.
pub record Executor : Type 0 where
  pub queue_max_size : ℕ
  pub retry_max : ℕ
  pub has_abandon : Bool
  pub report_timeout : ℕ
  pub marshal : UploadReport → Option String
  pub unmarshal : String → Option UploadReport
  pub wrap : String → Error → String

-- In seconds.
abbrev pub default_retry_delays : List ℕ
default_retry_delays = 60 ∷ 300 ∷ 900 ∷ 3600 ∷ []
