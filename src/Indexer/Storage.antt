-- ===== src/Indexer/Storage.antt =====
-- controlplane/internal/indexer/indexer.go: IndexUploadReporting, IndexDeletionReporting and RowState.
use fileagent.Prelude.{String, Bool, true, false, Option, none, some, []}
use fileagent.Prelude.Int.{ℤ, pos}
use fileagent.Prelude.Action.{pure, raise, ◌>>=◌, ◌>>◌}
use fileagent.Filer.Host.{RowState}
use fileagent.Filer.Paths.{Text, codes}
use fileagent.Indexer.Types.{
  FileStatus, uploading, completed, failed, deleted, FileEntry, UpsertIndexedFileParams,
  file_deleted, unknown_bucket, M,
}
use fileagent.Indexer.Ledger.{
  upsert_observed_file, mark_observed_file_deleted, get_indexed_file_by_key, Deletion, absent,
  stale, applied,
}
use fileagent.Indexer.Tags.{null_text}
use fileagent.Indexer.Effects.{publish, count_suppressed, count_absent}
use fileagent.Indexer.Classify.{file_name_from_path, classify, classify_or_nil, get_bucket_by_name}

-- bootstrap.DefaultOrgID
abbrev pub default_org_id : String
default_org_id = "00000000-0000-0000-0000-000000000001"

abbrev pub known_bucket : Option String → M String
known_bucket none = raise unknown_bucket
known_bucket (some id) = pure id

abbrev pub entry_of_event :
    String → Option String → Text → ℤ → Text → ℤ → Text → String → UpsertIndexedFileParams
entry_of_event bucket file_type key size etag at seq source = record {
  org_id = default_org_id;
  source = source;
  observed_at = at;
  event_seq = null_text seq;
  meta_incomplete = true;
  file_type_id = file_type;
  agent_id = none;
  rule_id = none;
  bucket_id = bucket;
  storage_path = key;
  original_path = none;
  file_name = file_name_from_path key;
  size_bytes = size;
  sha256 = none;
  etag = null_text etag;
  content_type = none;
  file_mtime = none;
  status = completed;
  uploaded_at = some at;
}

abbrev pub report_upload : FileEntry × Bool → M Bool
report_upload (fe, true) = count_suppressed >> pure true
report_upload (fe, false) = pure false

-- IndexUploadReporting
unfoldable pub index_upload_reporting : Text → Text → ℤ → Text → ℤ → Text → String → M Bool
unfolding get_bucket_by_name classify upsert_observed_file count_suppressed file_name_from_path
index_upload_reporting bucket_name key size etag at seq source = do
  row ← get_bucket_by_name default_org_id bucket_name
  bucket ← known_bucket row
  file_type ← classify_or_nil key
  written ← upsert_observed_file (entry_of_event bucket file_type key size etag at seq source)
  report_upload written

abbrev pub report_deletion : Deletion → M Bool
report_deletion absent = count_absent >> pure false
report_deletion (stale fe) = count_suppressed >> pure true
report_deletion (applied fe) = publish (file_deleted fe) >> pure false

-- IndexDeletionReporting
unfoldable pub index_deletion_reporting : Text → Text → ℤ → Text → String → M Bool
unfolding get_bucket_by_name mark_observed_file_deleted count_suppressed count_absent publish
index_deletion_reporting bucket_name key at seq source = do
  row ← get_bucket_by_name default_org_id bucket_name
  bucket ← known_bucket row
  done ← mark_observed_file_deleted (record {
    bucket_id = bucket;
    storage_path = key;
    observed_at = at;
    event_seq = null_text seq;
    source = source;
  })
  report_deletion done

-- IndexUpload and IndexDeletion
unfoldable pub index_upload : Text → Text → ℤ → Text → ℤ → Text → String → M (Unit {0})
unfolding index_upload_reporting
index_upload bucket key size etag at seq source =
    index_upload_reporting bucket key size etag at seq source >> pure tt

unfoldable pub index_deletion : Text → Text → ℤ → Text → String → M (Unit {0})
unfolding index_deletion_reporting
index_deletion bucket key at seq source =
    index_deletion_reporting bucket key at seq source >> pure tt

abbrev pub status_text : FileStatus → Text
status_text uploading = codes "uploading"
status_text completed = codes "completed"
status_text failed = codes "failed"
status_text deleted = codes "deleted"

abbrev pub or_empty : Option Text → Text
or_empty none = []
or_empty (some t) = t

abbrev pub row_state_of : Option FileEntry → RowState
row_state_of none = record { found = false; status = []; size = pos 0; etag = [] }
row_state_of (some fe) = record {
  found = true;
  status = status_text fe.status;
  size = fe.size_bytes;
  etag = or_empty fe.etag;
}

abbrev pub row_state_in : Text → Option String → M RowState
row_state_in key none = pure (row_state_of none)
row_state_in key (some bucket) = do fe ← get_indexed_file_by_key bucket key; pure (row_state_of fe)

-- RowState
unfoldable pub row_state : Text → Text → M RowState
unfolding get_bucket_by_name get_indexed_file_by_key
row_state bucket_name key = do
  bucket ← get_bucket_by_name default_org_id bucket_name
  row_state_in key bucket
