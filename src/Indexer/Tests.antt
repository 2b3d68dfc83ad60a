-- ===== src/Indexer/Tests.antt =====
-- The theorems on the indexer, applied to a concrete ledger.
use fileagent.Prelude.{◌+◌, ◌≡◌, refl, length, true, false, none, some, [], ◌∷◌}
use fileagent.Prelude.Int.{pos}
use fileagent.Prelude.Action.{Ends, err, ok}
use fileagent.Filer.Paths.{codes, text_eq}
use fileagent.Filer.Host as Host
use fileagent.Filer.Host.{StorageEvent, RowState, Config, Host, confirmed}
use fileagent.Indexer.Types.{FileTag, Outside, World}
use fileagent.Indexer.Ledger.{find_entry}
use fileagent.Indexer.Tags.{find_tag}
use fileagent.Filer.Subscribe.{after_apply}
use fileagent.Indexer.PathVars.{template_var_name, apply_path_var_tags}
use fileagent.Indexer.Classify.{file_name_from_path}
use fileagent.Indexer.Upload.{UploadResult, handle_upload_result}
use fileagent.Indexer.Storage.{row_state}
use fileagent.Indexer.Sink.{index_sink_apply, suppression_aware_apply, suppressed}
use fileagent.Indexer.History.{from_webhook, upload_result, perform_all, Since, perform_all-Since}
use fileagent.Indexer.Sinks.{Agree, sinks-Agree}
use fileagent.Indexer.ReadBack.{event_of, answered, if_ok}
use fileagent.Indexer.Handled.{Settled, handled-Holds}
use fileagent.Indexer.Explicit.{HasTag, apply_path_var_tags-HasTag}
use fileagent.Indexer.Accounted.{Silent, Accounted}
use fileagent.Indexer.Liveness.{handle_upload_result_ok}
use fileagent.Indexer.Accounts.{handle_upload_result-Accounted}

abbrev outside : Outside
outside = record {
  fails = λ _. false;
  now = λ n. pos (100 + n);
  fresh_id = λ _. "new";
  has_publisher = true;
  publish_fails = λ _. false;
  bucket_id = λ _ _. some "b1";
  file_type_rules = [];
  path_matches = λ _ _. false;
  rule_tag_info = λ _ _.
      some
        (record { agent_id = "a1"; metadata = codes "m"; dest_path_template = codes "/{site}/f" });
  file_type_id = λ _ _. none;
  parse_uuid = λ t. some t;
  unmarshal = λ _. (
    true,
    record {
      file_type = [];
      static_tags = (codes "site", codes "kyoto") ∷ [];
      path_tag_map = (codes "site", codes "{site}") ∷ [];
    },
  );
  path_values = λ _ _. some ((codes "site", codes "osaka") ∷ []);
  tag_key = λ _ _. none;
  tag_value_exists = λ _ _. false;
  similar_tag_value = λ _ _. [];
  seq_leb = λ _ _. true;
}

abbrev empty_world : World
empty_world = record {
  entries = [];
  tags = [];
  pending_tag_values = [];
  upload_logs = [];
  published = [];
  suppressed_writes = 0;
  absent_deletes = 0;
  turn = 0;
  outside = outside;
}

abbrev result : UploadResult
result = record {
  bucket = codes "data";
  rule_id = "r1";
  storage_path = codes "osaka/f";
  local_path = codes "/in/f";
  success = true;
  file_mtime = none;
  uploaded_at = none;
  size_bytes = pos 3;
  sha256 = [];
  etag = codes "e1";
  error_message = [];
  retry_count = 0;
}

-- The object was read at 50, before the agent's result was recorded.
abbrev read : StorageEvent
read = record {
  kind = Host.object_created;
  bucket = codes "data";
  key = codes "osaka/f";
  size = pos 3;
  etag = codes "e1";
  observed_at = pos 50;
}

abbrev kyoto : FileTag
kyoto = record {
  file_entry_id = "new";
  key = codes "site";
  value = codes "kyoto";
  source = "rule_static";
}

handle_upload_result-Accounted_example :
    Ends
      (Silent empty_world)
      (λ _ x. Accounted "a1" "o1" result empty_world x)
      (handle_upload_result "a1" "o1" result empty_world)
handle_upload_result-Accounted_example = handle_upload_result-Accounted "a1" "o1" result empty_world

handle_upload_result_ok_example : (handle_upload_result "a1" "o1" result empty_world).0 ≡ ok tt
handle_upload_result_ok_example =
    handle_upload_result_ok "a1" "o1" result "b1" empty_world (λ _. refl) refl

-- The ledger after the agent's result.
abbrev recorded : World
recorded = perform_all (upload_result "a1" "o1" result ∷ []) empty_world

recorded_once : length recorded.published ≡ 1
unfolding perform_all text_eq
recorded_once = refl

-- The static tag of the rule wins over what the path says.
recorded_tag : HasTag "new" (codes "site") kyoto recorded
unfolding perform_all find_tag text_eq
recorded_tag = refl

apply_path_var_tags-HasTag_example :
    HasTag "new"
      (codes "site")
      kyoto
      (apply_path_var_tags "o1" "new"
        (codes "osaka/f")
        (codes "{site}/f")
        ((codes "site", codes "{site}") ∷ [])
        none
        recorded).1
apply_path_var_tags-HasTag_example =
    apply_path_var_tags-HasTag "o1" "new" (codes "osaka/f") (codes "{site}/f")
      ((codes "site", codes "{site}") ∷ []) none "new" (codes "site") kyoto recorded recorded_tag

sinks-Agree_example :
    Agree recorded
      (suppression_aware_apply (event_of read) recorded)
      (index_sink_apply (event_of read) recorded)
sinks-Agree_example = sinks-Agree (event_of read) recorded

-- What was read is older than the row.
read_suppressed : (suppression_aware_apply (event_of read) recorded).0 ≡ err suppressed
unfolding perform_all suppression_aware_apply text_eq
read_suppressed = refl

recorded-Since : Since (codes "data") (codes "osaka/f") (pos 50) recorded.outside recorded.entries
unfolding perform_all find_entry text_eq
recorded-Since = refl

perform_all-Since_example :
    Since
      (codes "data")
      (codes "osaka/f")
      (pos 50)
      (perform_all (from_webhook (event_of read) ∷ []) recorded).outside
      (perform_all (from_webhook (event_of read) ∷ []) recorded).entries
perform_all-Since_example =
    perform_all-Since (codes "data") (codes "osaka/f") (pos 50) (from_webhook (event_of read) ∷ [])
      recorded recorded-Since

-- The ledger after the sink has been asked.
abbrev asked : World
asked = (suppression_aware_apply (event_of read) recorded).1

abbrev host : Host
host = record {
  turn = 0;
  cursor = none;
  last_declared = pos 0;
  last_flush = none;
  marks = [];
  epoch = 0;
  unknown_buckets = 0;
  handled = [];
  is_cancelled = λ _. false;
  store_fails = λ _. false;
  db_now = λ _. none;
  local_now = λ _. pos 0;
  stat = λ _ _ _. Host.absent;
  sink = λ _ _. Host.ok tt;
  row_state = λ _ bucket key. if_ok (row_state bucket key asked).0;
  active_entries = λ _ _. 0;
  dial_fails = λ _. false;
  subscribe_fails = λ _. false;
  deliver = λ _ _. [];
  first_entry = λ _ _. none;
}

abbrev config : Config
config = record {
  resume_margin = pos 0;
  apply_max_retries = 1;
  cursor_flush_interval = pos 0;
  has_reporter = true;
}

abbrev seen : RowState
seen = record { found = true; status = codes "completed"; size = pos 3; etag = codes "e1" }

row_read :
    host.row_state 0 (codes "data") (codes "osaka/f")
    ≡ if_ok (row_state (codes "data") (codes "osaka/f") (perform_all [] asked)).0
unfolding perform_all
row_read = refl

read_confirmed :
    (after_apply config read (answered (suppression_aware_apply (event_of read) recorded).0) host).0
    ≡ Host.ok (some (confirmed read seen))
unfolding perform_all suppression_aware_apply row_state after_apply
read_confirmed = refl

handled-Holds_example : Settled read asked (perform_all [] asked) (confirmed read seen)
handled-Holds_example =
    handled-Holds config read [] recorded host (confirmed read seen) row_read read_confirmed

var_of_reference : template_var_name (codes " {site:fmt} ") ≡ codes "site"
unfolding template_var_name
var_of_reference = refl

two_references : template_var_name (codes "{a}{b}") ≡ []
unfolding template_var_name
two_references = refl

base_of_path : file_name_from_path (codes "a/b//") ≡ codes "b"
unfolding file_name_from_path
base_of_path = refl
