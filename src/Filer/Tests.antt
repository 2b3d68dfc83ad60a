-- ===== src/Filer/Tests.antt =====
-- The theorems on paths and on events, applied to concrete ones.
use fileagent.Prelude.{ℕ, any, ◌≡◌, refl, true, false, some, none, [], ◌∷◌}
use fileagent.Filer.Paths.{
  codes, text_eq, cut_prefix, cut, contains, is_hidden, is_uploads_staging, split_object_path,
}
use fileagent.Filer.Split.{is_object, path_of, split_object_path-path_of, split_object_path_sound}
use fileagent.Prelude.Int.{ℤ, pos, leb_ℤ}
use fileagent.Filer.Translate.{Event, Response, translate, is_idle_heartbeat}
use fileagent.Filer.Scope.{InScope, translate-InScope}
use fileagent.Filer.Cursor.{resume_from, gap_window, resume_from_bounds, gap_window_bounds}
use fileagent.Filer.LogName.{log_start}
use fileagent.Filer.Host as Host
use fileagent.Filer.Host.{absent, Config, Host}
use fileagent.Filer.Complete.{Covers, CursorComplete}
use fileagent.Filer.Run.{run}
use fileagent.Filer.Restart.{run-CursorComplete}
use fileagent.Filer.Heartbeat.{is_idle_heartbeat-translate}

split_object_path-path_of_example :
    split_object_path (path_of (codes "data") (codes "a/b")) ≡ some (codes "data", codes "a/b")
unfolding contains is_hidden is_uploads_staging text_eq cut_prefix
split_object_path-path_of_example = split_object_path-path_of (codes "data") (codes "a/b") refl

split_object_path_sound_example :
    (codes "/buckets/data/a" ≡ path_of (codes "data") (codes "a"))
    × (is_object (codes "data") (codes "a") ≡ true)
unfolding split_object_path cut contains is_hidden is_uploads_staging text_eq cut_prefix
split_object_path_sound_example =
    split_object_path_sound (codes "/buckets/data/a") {b = codes "data"} {k = codes "a"} refl

-- The deletion of an object.
abbrev deletion : Event
deletion = record {
  directory = codes "/buckets/data";
  ts_ns = pos 9;
  notification = some (record {
    old_entry =
        some (record { name = codes "a"; is_directory = false; file_size = none; marked = false });
    new_entry = none;
    new_parent_path = [];
  });
}

abbrev deletions : Response
deletions = record { envelope = deletion; events = [] }

translate-InScope_example : InScope (translate (some deletions))
translate-InScope_example = translate-InScope (some deletions)

abbrev heartbeat : Response
heartbeat = record {
  envelope = record { directory = []; ts_ns = pos 9; notification = none };
  events = [];
}

is_idle_heartbeat-translate_example :
    (translate (some heartbeat) ≡ []) × (pos 9 ≡ pos 9) × (leb_ℤ (pos 9) (pos 0) ≡ false)
unfolding is_idle_heartbeat
is_idle_heartbeat-translate_example = is_idle_heartbeat-translate heartbeat {ts = pos 9} refl

log_start_of_day : log_start (codes "1970-01-02") ≡ some (pos 86400000000000)
unfolding log_start
log_start_of_day = refl

log_start_of_minute :
    log_start (codes " /topics/.system/log/2026-10-15/14-23.0123abcd/")
    ≡ some (pos 1792074180000000000)
unfolding log_start
log_start_of_minute = refl

log_start_of_no_date : log_start (codes "2026-02-30") ≡ none
unfolding log_start
log_start_of_no_date = refl

resume_from_bounds_example :
    (leb_ℤ (pos 0) (resume_from (pos 9) (pos 4)) ≡ true)
    × (leb_ℤ (resume_from (pos 9) (pos 4)) (pos 9) ≡ true)
resume_from_bounds_example = resume_from_bounds (pos 9) (pos 4) refl

gap_window_bounds_example :
    (leb_ℤ (gap_window (pos 9) (pos 5) (pos 2)).0 (pos 9) ≡ true)
    × (leb_ℤ (gap_window (pos 9) (pos 5) (pos 2)).0 (pos 5) ≡ true)
    × (leb_ℤ (pos 9) (gap_window (pos 9) (pos 5) (pos 2)).1 ≡ true)
    × (leb_ℤ (pos 5) (gap_window (pos 9) (pos 5) (pos 2)).1 ≡ true)
gap_window_bounds_example = gap_window_bounds (pos 9) (pos 5) (pos 2) refl refl refl

-- Every call succeeds, every object is gone, and each stream brings the deletion and a heartbeat.
abbrev host : Host
host = record {
  turn = 0;
  cursor = none;
  last_declared = pos 0;
  last_flush = none;
  marks = [];
  epoch = 0;
  unknown_buckets = 0;
  handled = [];
  is_cancelled = λ _. false;
  store_fails = λ _. false;
  db_now = λ _. some (pos 9);
  local_now = λ _. pos 9;
  stat = λ _ _ _. absent;
  sink = λ _ _. Host.ok tt;
  row_state = λ _ _ _. none;
  active_entries = λ _ _. 0;
  dial_fails = λ _. false;
  subscribe_fails = λ _. false;
  deliver = λ _ _. deletions ∷ heartbeat ∷ [];
  first_entry = λ _ _. none;
}

abbrev config : Config
config = record {
  resume_margin = pos 2;
  apply_max_retries = 1;
  cursor_flush_interval = pos 0;
  has_reporter = true;
}

-- The deletion was logged at 5.
host_delivers : (n : ℕ) (since : ℤ) → Covers (λ _. true) (pos 5) since false (host.deliver n since)
unfolding is_idle_heartbeat translate any
host_delivers n since = ((λ _ _. refl), tt)

host-CursorComplete : CursorComplete (λ _. true) (pos 5) host
host-CursorComplete = record {
  persisted = λ c e. absurd (cc);
  cursor_not_negative = λ c e. absurd (cc);
}

run-CursorComplete_example : CursorComplete (λ _. true) (pos 5) (run 1 1 config host).1
run-CursorComplete_example =
    run-CursorComplete (λ _. true) (pos 5) refl 1 1 config host host_delivers host-CursorComplete

-- The run has persisted the time of the heartbeat.
run_persists : (run 1 1 config host).1.cursor ≡ some (pos 9)
unfolding run translate
run_persists = refl
