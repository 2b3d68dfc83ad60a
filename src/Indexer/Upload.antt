-- ===== src/Indexer/Upload.antt =====
-- controlplane/internal/indexer/indexer.go: HandleUploadResult.
use fileagent.Prelude.{
  ℕ, String, Bool, true, false, not, Option, none, some, [], ◌∷◌, str_eq, if◌then◌else◌,
}
use fileagent.Prelude.Int.{ℤ, pos}
use fileagent.Prelude.Action.{pure, ◌>>=◌, ◌>>◌}
use fileagent.Filer.Paths.{Text, is_empty}
use fileagent.Indexer.Types.{
  completed, FileEntry, UpsertIndexedFileParams, UploadLog, file_uploaded, RuleTagInfo,
  RuleMetadata, World, M,
}
use fileagent.Indexer.Ledger.{clock, query, execute, ask, one_row, upsert_observed_file}
use fileagent.Indexer.PathVars.{apply_path_var_tags}
use fileagent.Indexer.Tags.{null_text, apply_static_tags}
use fileagent.Indexer.Effects.{publish, count_suppressed}
use fileagent.Indexer.Classify.{file_name_from_path, classify_file_type, get_bucket_by_name}

-- agentv1.UploadResult
pub record UploadResult : Type 0 where
  pub bucket : Text
  pub rule_id : String
  pub storage_path : Text
  pub local_path : Text
  pub success : Bool
  pub file_mtime : Option ℤ
  pub uploaded_at : Option ℤ
  pub size_bytes : ℤ
  pub sha256 : Text
  pub etag : Text
  pub error_message : Text
  pub retry_count : ℕ

-- What the lookup of the rule leaves: the rule, its declarations and `metaIncomplete`.
pub record Declared : Type 0 where
  pub rule_id : Option String
  pub meta : RuleMetadata
  pub template : Text
  pub meta_incomplete : Bool

abbrev pub no_metadata : RuleMetadata
no_metadata = record { file_type = []; static_tags = []; path_tag_map = [] }

abbrev pub undeclared : Declared
undeclared = record { rule_id = none; meta = no_metadata; template = []; meta_incomplete = true }

abbrev pub declared : (Text → Bool × RuleMetadata) → String → RuleTagInfo → Declared
declared unmarshal rule info =
    if is_empty info.metadata
    then record {
      rule_id = some rule;
      meta = no_metadata;
      template = info.dest_path_template;
      meta_incomplete = false;
    }
    else record {
      rule_id = some rule;
      meta = (unmarshal info.metadata).1;
      template = info.dest_path_template;
      meta_incomplete = not (unmarshal info.metadata).0;
    }

abbrev pub of_owner : (Text → Bool × RuleMetadata) → String → String → Option RuleTagInfo → Declared
of_owner unmarshal agent rule none = undeclared
of_owner unmarshal agent rule (some info) =
    if str_eq info.agent_id agent then declared unmarshal rule info else undeclared

-- The validation of the rule of an upload; only a failing database is an error.
unfoldable pub validate_rule : String → String → Option String → M Declared
unfolding query
validate_rule agent org none = pure undeclared
validate_rule agent org (some rule) =
    query (λ w. of_owner w.outside.unmarshal agent rule (w.outside.rule_tag_info org rule))

abbrev pub parsed_rule : String → World → Option String
parsed_rule text w = if str_eq text "" then none else w.outside.parse_uuid text

unfoldable pub rule_of : String → String → String → M Declared
unfolding validate_rule
rule_of agent org text w = validate_rule agent org (parsed_rule text w) w

abbrev pub or_now : Option ℤ → M ℤ
or_now (some at) = pure at
or_now none = ask clock

abbrev pub entry_of_result :
    String → String → UploadResult → String → Declared → Option String → ℤ → UpsertIndexedFileParams
entry_of_result agent org r bucket d file_type at = record {
  org_id = org;
  source = "agent";
  meta_incomplete = d.meta_incomplete;
  file_type_id = file_type;
  agent_id = some agent;
  rule_id = d.rule_id;
  bucket_id = bucket;
  storage_path = r.storage_path;
  original_path = null_text r.local_path;
  file_name = file_name_from_path r.storage_path;
  size_bytes = r.size_bytes;
  sha256 = null_text r.sha256;
  etag = null_text r.etag;
  content_type = none;
  file_mtime = r.file_mtime;
  status = completed;
  uploaded_at = some at;
  observed_at = pos 0;
  event_seq = none;
}

-- CreateUploadLog
abbrev pub add_log : UploadLog → World → World
add_log l w = record w { upload_logs = l ∷ w.upload_logs }

unfoldable pub create_upload_log : UploadLog → M (Unit {0})
unfolding execute
create_upload_log l = execute (add_log l)

abbrev pub log_of : String → String → UploadResult → Declared → Option FileEntry → ℤ → ℤ → UploadLog
log_of agent org r d fe started finished = record {
  org_id = org;
  agent_id = agent;
  file_entry_id = elim fe [ none ↦ none | some e ↦ some e.id ];
  rule_id = d.rule_id;
  original_path = r.local_path;
  storage_path = r.storage_path;
  size_bytes = r.size_bytes;
  bytes_transferred = r.size_bytes;
  status = if r.success then "completed" else "failed";
  error_message = if r.success then none else null_text r.error_message;
  retry_count = r.retry_count;
  started_at = started;
  finished_at = finished;
}

unfoldable pub log_upload :
    String → String → UploadResult → Declared → Option FileEntry → M (Unit {0})
unfolding ask create_upload_log
log_upload agent org r d fe = do
  started ← ask clock
  finished ← ask clock
  create_upload_log (log_of agent org r d fe started finished)

-- What follows the write of the row.
abbrev pub after_entry : String → String → UploadResult → Declared → FileEntry × Bool → M (Unit {0})
after_entry agent org r d (fe, true) = count_suppressed
after_entry agent org r d (fe, false) = do
  apply_static_tags fe.id d.meta.static_tags
  apply_path_var_tags org fe.id r.storage_path d.template d.meta.path_tag_map d.rule_id
  log_upload agent org r d (some fe)
  publish (file_uploaded fe agent r.sha256)

unfoldable pub record_result :
    String → String → UploadResult → String → Declared → Option String → ℤ → M (Unit {0})
unfolding upsert_observed_file count_suppressed apply_static_tags apply_path_var_tags log_upload
    publish file_name_from_path
record_result agent org r bucket d file_type at =
    if r.success
    then upsert_observed_file (entry_of_result agent org r bucket d file_type at)
      >>= after_entry agent org r d
    else log_upload agent org r d none

-- HandleUploadResult
unfoldable pub handle_upload_result : String → String → UploadResult → M (Unit {0})
unfolding get_bucket_by_name rule_of classify_file_type ask record_result
handle_upload_result agent org r = do
  row ← get_bucket_by_name org r.bucket
  bucket ← one_row row
  d ← rule_of agent org r.rule_id
  file_type ← classify_file_type org r.storage_path d.meta.file_type
  at ← or_now r.uploaded_at
  record_result agent org r bucket d file_type at
