-- ===== src/Queue/Tests.antt =====
-- The theorems on the queue, applied to concrete tables.
use fileagent.Prelude.{◌≡◌, refl, true, false, none, [], ◌∷◌, any, count_where}
use fileagent.Queue.Types.{pending, running}
use fileagent.Queue.Monad.{ok, now, exec, query, transaction}
use fileagent.Queue.Sql.{select, update, delete, order_by, insert_by}
use fileagent.Queue.Samples.{
  some_task, multipart_task, running_world, waiting_world, reported_task, reported_world,
}
use fileagent.Queue.Tasks.{update_tasks, enqueue_if_no_active, delete_oldest_evictable}
use fileagent.Queue.Lifecycle.{
  Stat, with_status, list_by_status, refresh_one, refresh_all, flip_running, select_pending,
  mark_running, reset_running_to_pending, dequeue_pending,
}
use fileagent.Queue.Aborts.{mark_failed_abandoned, mark_completed_abandoning_upload}
use fileagent.Queue.Reports.{
  save_report, complete_rows, insert_processed, acknowledge_rows, get_report, complete_reported,
}
use fileagent.Queue.Tracking.{
  tracked, mark_failed_abandoned-tracked, mark_completed_abandoning_upload-tracked,
}
use fileagent.Queue.Eviction.{
  Evicts, delete_oldest_evictable-Evicts, delete_oldest_evictable-tracked,
}
use fileagent.Queue.Dedup.{ActiveUnique, enqueue_if_no_active-ActiveUnique}
use fileagent.Queue.Restart.{
  runs, waits, two_workers, reset_running_to_pending_all, two_workers_same,
  dequeue_pending_exclusive,
}
use fileagent.Queue.Acks.{
  version_of, get_report-save_report, complete_reported_once, complete_reported-is_file,
}

mark_failed_abandoned-tracked_example :
    tracked "u1" (mark_failed_abandoned multipart_task "broken" running_world).1 ≡ true
unfolding any
mark_failed_abandoned-tracked_example =
    mark_failed_abandoned-tracked "u1" multipart_task "broken" running_world refl refl refl

mark_completed_abandoning_upload-tracked_example :
    tracked "u1" (mark_completed_abandoning_upload multipart_task running_world).1 ≡ true
unfolding any
mark_completed_abandoning_upload-tracked_example =
    mark_completed_abandoning_upload-tracked "u1" multipart_task running_world refl refl refl

delete_oldest_evictable-tracked_example :
    tracked "u1" (delete_oldest_evictable "t2" waiting_world).1 ≡ true
unfolding any
delete_oldest_evictable-tracked_example =
    delete_oldest_evictable-tracked "u1" "t2" waiting_world refl (refl, (refl, tt)) refl

delete_oldest_evictable-Evicts_example :
    Evicts "t2" waiting_world.tables waiting_world.released
      (delete_oldest_evictable "t2" waiting_world).0
      (delete_oldest_evictable "t2" waiting_world).1
delete_oldest_evictable-Evicts_example = delete_oldest_evictable-Evicts "t2" waiting_world

enqueue_if_no_active-ActiveUnique_example :
    ActiveUnique
      (enqueue_if_no_active (some_task "t3" "" pending) waiting_world).1.tables.upload_tasks
unfolding any
enqueue_if_no_active-ActiveUnique_example =
    enqueue_if_no_active-ActiveUnique (some_task "t3" "" pending) waiting_world
      ((λ _. refl), ((λ _. refl), tt))

abbrev no_stat : Stat
no_stat path = none

reset_running_to_pending_all_example :
    (1 ≡ count_where runs running_world.tables.upload_tasks)
    × (any runs (reset_running_to_pending no_stat running_world).1.tables.upload_tasks ≡ false)
unfolding reset_running_to_pending transaction list_by_status query refresh_all refresh_one
    flip_running now update_tasks exec select order_by insert_by count_where
reset_running_to_pending_all_example =
    reset_running_to_pending_all no_stat running_world {n = 1} refl

two_workers_same_example :
    (two_workers 5000 waiting_world).0
    ≡ ok (
      with_status running 5000 (some_task "t1" "u1" pending) ∷ [],
      with_status running 5000 (some_task "t1" "u1" pending) ∷ [],
    )
unfolding select order_by insert_by
two_workers_same_example =
    two_workers_same 5000 waiting_world {t = some_task "t1" "u1" pending}
      {ts = some_task "t2" "" pending ∷ []} (λ _. refl) refl

dequeue_pending_exclusive_example :
    (running ≡ running)
    × (any (waits "t1") (dequeue_pending 1 waiting_world).1.tables.upload_tasks ≡ false)
unfolding dequeue_pending select_pending mark_running now update_tasks exec query select order_by
    insert_by
dequeue_pending_exclusive_example =
    dequeue_pending_exclusive waiting_world
      {t = with_status running 5000 (some_task "t1" "u1" pending)} refl

get_report-save_report_example :
    (get_report "t1" (save_report "t1" "done" running_world).1).0 ≡ ok "done"
unfolding save_report transaction now update_tasks exec count_where update
get_report-save_report_example = get_report-save_report "t1" "done" running_world refl refl

complete_reported_once_example :
    (complete_reported "t1" false "" (complete_reported "t1" true "sum" reported_world).1).1.tables
    ≡ (complete_reported "t1" true "sum" reported_world).1.tables
unfolding complete_reported complete_rows insert_processed acknowledge_rows transaction now
    update_tasks exec count_where update select delete any
complete_reported_once_example = complete_reported_once "t1" true false "sum" "" reported_world refl

complete_reported-is_file_example :
    any
      (version_of reported_task)
      (complete_reported "t1" true "sum" reported_world).1.tables.processed_files
    ≡ true
unfolding complete_reported complete_rows insert_processed acknowledge_rows transaction now
    update_tasks exec count_where update select delete any
complete_reported-is_file_example =
    complete_reported-is_file "t1" "sum" reported_task reported_world refl refl refl
