-- ===== src/Indexer/Types.antt =====
-- controlplane/internal/indexer and controlplane/internal/db/ingest.sql.go: the rows, the parameters
-- and what the indexer meets outside. Every statement takes the next turn, and the oracles say what
-- it meets there. Times are integers of one clock.
use fileagent.Prelude.{ℕ, suc, String, Bool, Option, List}
use fileagent.Prelude.Int.{ℤ}
use fileagent.Prelude.Action.{Action}
use fileagent.Filer.Paths.{Text}

-- db.FileStatus
pub data FileStatus : Type 0 where
  uploading completed failed deleted : FileStatus

-- db.FileEntry
pub record FileEntry : Type 0 where
  pub id : String
  pub org_id : String
  pub file_type_id : Option String
  pub agent_id : Option String
  pub rule_id : Option String
  pub bucket_id : String
  pub storage_path : Text
  pub original_path : Option Text
  pub file_name : Text
  pub size_bytes : ℤ
  pub sha256 : Option Text
  pub etag : Option Text
  pub content_type : Option Text
  pub file_mtime : Option ℤ
  pub status : FileStatus
  pub uploaded_at : Option ℤ
  pub created_at : ℤ
  pub updated_at : ℤ
  pub observed_at : ℤ
  pub source : String
  pub event_seq : Option Text
  pub meta_incomplete : Bool

-- db.UpsertIndexedFileParams; `observed_at` is not read where the source is agent or api.
pub record UpsertIndexedFileParams : Type 0 where
  pub org_id : String
  pub file_type_id : Option String
  pub agent_id : Option String
  pub rule_id : Option String
  pub bucket_id : String
  pub storage_path : Text
  pub original_path : Option Text
  pub file_name : Text
  pub size_bytes : ℤ
  pub sha256 : Option Text
  pub etag : Option Text
  pub content_type : Option Text
  pub file_mtime : Option ℤ
  pub status : FileStatus
  pub uploaded_at : Option ℤ
  pub source : String
  pub observed_at : ℤ
  pub event_seq : Option Text
  pub meta_incomplete : Bool

-- db.DeleteIndexedFileParams
pub record DeleteIndexedFileParams : Type 0 where
  pub bucket_id : String
  pub storage_path : Text
  pub observed_at : ℤ
  pub event_seq : Option Text
  pub source : String

-- A row of file_tags.
pub record FileTag : Type 0 where
  pub file_entry_id : String
  pub key : Text
  pub value : Text
  pub source : String

-- A row of pending_tag_values.
pub record PendingTagValue : Type 0 where
  pub org_id : String
  pub tag_key_id : String
  pub extracted_value : Text
  pub source : String
  pub source_rule_id : Option String
  pub suggested_value : Option Text
  pub hit_count : ℕ

-- CreateUploadLogParams
pub record UploadLog : Type 0 where
  pub org_id : String
  pub agent_id : String
  pub file_entry_id : Option String
  pub rule_id : Option String
  pub original_path : Text
  pub storage_path : Text
  pub size_bytes : ℤ
  pub bytes_transferred : ℤ
  pub status : String
  pub error_message : Option Text
  pub retry_count : ℕ
  pub started_at : ℤ
  pub finished_at : ℤ

-- The messages of publishFileUploaded and publishFileDeleted, by the row they are made of and what
-- else they carry.
pub data Published : Type 0 where
  file_uploaded : FileEntry → String → Text → Published
  file_deleted : FileEntry → Published

pub record FileTypeRule : Type 0 where
  pub file_type_id : String
  pub path_pattern : Text
  pub priority : ℤ

-- RuleTagInfo
pub record RuleTagInfo : Type 0 where
  pub agent_id : String
  pub metadata : Text
  pub dest_path_template : Text

-- ruleMetadata: a map of the source is a list of its entries, in the order of an iteration.
pub record RuleMetadata : Type 0 where
  pub file_type : Text
  pub static_tags : List (Text × Text)
  pub path_tag_map : List (Text × Text)

-- TagKeyInfo
pub record TagKeyInfo : Type 0 where
  pub id : String
  pub value_controlled : Bool
  pub allow_path_var : Bool

-- The tables that the indexer only reads, and the functions of other packages. `unmarshal` gives
-- whether the JSON was read without an error, and what was read of it; `path_values` is Parse of
-- pkg/trollsift, with the raw texts of the variables; `seq_leb` is the order of texts of the database.
pub record Outside : Type 0 where
  pub fails : ℕ → Bool
  pub now : ℕ → ℤ
  pub fresh_id : ℕ → String
  pub has_publisher : Bool
  pub publish_fails : ℕ → Bool
  pub bucket_id : String → Text → Option String
  pub file_type_rules : List FileTypeRule
  pub path_matches : Text → Text → Bool
  pub rule_tag_info : String → String → Option RuleTagInfo
  pub file_type_id : String → Text → Option String
  pub parse_uuid : String → Option String
  pub unmarshal : Text → Bool × RuleMetadata
  pub path_values : Text → Text → Option (List (Text × Text))
  pub tag_key : String → Text → Option TagKeyInfo
  pub tag_value_exists : String → Text → Bool
  pub similar_tag_value : String → Text → Text
  pub seq_leb : Text → Text → Bool

pub record World : Type 0 where
  pub entries : List FileEntry
  pub tags : List FileTag
  pub pending_tag_values : List PendingTagValue
  pub upload_logs : List UploadLog
  pub published : List Published
  pub suppressed_writes : ℕ
  pub absent_deletes : ℕ
  pub turn : ℕ
  pub outside : Outside

-- `no_rows` is sql.ErrNoRows, `unknown_bucket` is ErrUnknownBucket, `statement_failed` any other
-- failure.
pub data Error : Type 0 where
  no_rows unknown_bucket statement_failed : Error

abbrev pub M : Type 0 → Type 0
M A = Action World Error A

abbrev pub next : World → World
next w = record w { turn = suc w.turn }
