-- ===== src/Queue/Samples.antt =====
-- Concrete rows and worlds for the tests of the queue and of the executor.
use fileagent.Prelude.{String, false, List, [], ◌∷◌}
use fileagent.Prelude.Int.{pos}
use fileagent.Queue.Types.{Status, pending, running, reported, overwrite, UploadTask, Tables}
use fileagent.Queue.Monad.{World}

abbrev pub some_task : String → String → Status → UploadTask
some_task id upload_id s = record {
  id = id;
  rule_id = "rule";
  local_path = id;
  storage_path = "remote";
  bucket = "bucket";
  upload_id = upload_id;
  completed_parts = "";
  parts_file_mtime = pos 0;
  parts_file_size = pos 0;
  file_size = pos 10;
  file_mtime = pos 7;
  sha256 = "";
  status = s;
  retry_count = 0;
  next_retry_at = pos 0;
  last_error = "";
  created_at = 3;
  updated_at = 3;
  file_offset = pos 0;
  append_mode = overwrite;
}

abbrev pub tables_of : List UploadTask → Tables
tables_of l = record {
  upload_tasks = l;
  upload_reports = [];
  processed_files = [];
  multipart_abort_outbox = [];
  rules = [];
}

-- Statements succeed, remote aborts do not.
abbrev pub world_of : Tables → World
world_of t = record {
  tables = t;
  turn = 0;
  fails = λ _. false;
  clock = λ n. 5000000;
  abort_succeeds = λ _. false;
  released = [];
}

abbrev pub multipart_task : UploadTask
multipart_task = some_task "t1" "u1" running

abbrev pub running_world : World
running_world = world_of (tables_of (multipart_task ∷ []))

-- A pending task that holds an upload, and a later one.
abbrev pub waiting_world : World
waiting_world = world_of (tables_of (some_task "t1" "u1" pending ∷ some_task "t2" "" pending ∷ []))

abbrev pub reported_task : UploadTask
reported_task = some_task "t1" "" reported

abbrev pub reported_world : World
reported_world = world_of (tables_of (reported_task ∷ []))

abbrev pub empty_world : World
empty_world = world_of (tables_of [])
