-- ===== src/Queue/Tasks.antt =====
-- agent/internal/queue/queue.go: the operations on upload_tasks.
use fileagent.Prelude.{
  ℕ, zero, suc, String, Bool, true, false, not, ◌&&◌, Option, none, some, List, [], ◌∷◌, ◌++◌, ◌==◌,
  ltb, str_eq, if◌then◌else◌, take, any, count_where,
}
use fileagent.Prelude.Int.{pos, ◌=ℤ◌}
use fileagent.Queue.Types.{
  Status, pending, running, reported, completed, failed, status_eq, UploadTask, AbortOutboxEntry,
  Tables,
}
use fileagent.Queue.Monad.{
  constraint, Result, ok, err, M, pure, now, exec, query, Ending, commit, rollback, transaction,
  ◌>>=◌, ◌>>◌,
}
use fileagent.Queue.Sql.{select, update, delete, order_by}

-- The tests of the WHERE clauses.
abbrev pub has_id : String → UploadTask → Bool
has_id id t = str_eq t.id id

abbrev pub is_active : Status → Bool
is_active pending = true
is_active running = true
is_active reported = true
is_active completed = false
is_active failed = false

abbrev pub is_evictable : Status → Bool
is_evictable pending = true
is_evictable failed = true
is_evictable running = false
is_evictable reported = false
is_evictable completed = false

abbrev pub same_file : UploadTask → UploadTask → Bool
same_file a b =
    str_eq a.rule_id b.rule_id
    && str_eq a.local_path b.local_path
    && (a.file_mtime =ℤ b.file_mtime)
    && (a.file_size =ℤ b.file_size)

-- ORDER BY created_at ASC
abbrev pub older : UploadTask → UploadTask → Bool
older a b = ltb a.created_at b.created_at

-- The statements: UPDATE … WHERE, and the number of rows that it changed.
unfoldable pub update_tasks : (UploadTask → Bool) → (UploadTask → UploadTask) → M ℕ
update_tasks p f =
    exec (λ t.
      ok (count_where p t.upload_tasks, record t { upload_tasks = update p f t.upload_tasks }))

-- INSERT INTO upload_tasks names neither the retry schedule nor the version of the parts: these
-- columns take their defaults.
abbrev pub stored : UploadTask → UploadTask
stored t = record t { next_retry_at = pos 0; parts_file_mtime = pos 0; parts_file_size = pos 0 }

abbrev insert_row : UploadTask → Tables → Result (ℕ × Tables)
insert_row task t =
    if any (has_id task.id) t.upload_tasks
    then err constraint
    else ok (1, record t { upload_tasks = t.upload_tasks ++ stored task ∷ [] })

abbrev pub with_defaults : ℕ → UploadTask → UploadTask
with_defaults n task = record task {
  created_at = if task.created_at == 0 then n else task.created_at;
  updated_at = if task.updated_at == 0 then n else task.updated_at;
  status = pending;
}

unfoldable pub prepare_enqueue : UploadTask → M UploadTask
unfolding now
prepare_enqueue task = do n ← now; pure (with_defaults n task)

unfoldable pub enqueue : UploadTask → M (Unit {0})
unfolding prepare_enqueue exec
enqueue task = do t ← prepare_enqueue task; exec (insert_row t); pure tt

-- The test and the insertion are one statement.
abbrev insert_if_no_active : UploadTask → Tables → Result (ℕ × Tables)
insert_if_no_active task t =
    if any (λ r. same_file r task && is_active r.status) t.upload_tasks
    then ok (0, t)
    else insert_row task t

unfoldable pub enqueue_if_no_active : UploadTask → M Bool
unfolding prepare_enqueue exec
enqueue_if_no_active task = do
  t ← prepare_enqueue task
  inserted ← exec (insert_if_no_active t)
  pure (not (inserted == 0))

unfoldable pub count_pending : M ℕ
count_pending = query (λ t. count_where (λ r. status_eq r.status pending) t.upload_tasks)

abbrev pub is_counted : Status → Bool
is_counted completed = false
is_counted pending = true
is_counted running = true
is_counted failed = true
is_counted reported = true

unfoldable pub count_active : M ℕ
unfolding query
count_active = query (λ t. count_where (λ r. is_counted r.status) t.upload_tasks)

-- INSERT INTO multipart_abort_outbox … ON CONFLICT(upload_id) DO NOTHING
abbrev pub add_abort : AbortOutboxEntry → List AbortOutboxEntry → List AbortOutboxEntry
add_abort e l = if any (λ r. str_eq r.upload_id e.upload_id) l then l else l ++ e ∷ []

unfoldable pub insert_abort : AbortOutboxEntry → M (Unit {0})
unfolding exec
insert_abort e =
    exec (λ t. ok (tt, record t { multipart_abort_outbox = add_abort e t.multipart_abort_outbox }))

abbrev pub abort_of : UploadTask → ℕ → AbortOutboxEntry
abort_of t n = record {
  upload_id = t.upload_id;
  task_id = t.id;
  bucket = t.bucket;
  storage_path = t.storage_path;
  attempts = 0;
  next_attempt_at = 0;
  last_error = none;
  created_at = n;
}

-- `if task.UploadID != ""`: the abort intent that three transactions write.
unfoldable pub record_abort_intent : UploadTask → M (Unit {0})
unfolding now insert_abort
record_abort_intent t =
    if str_eq t.upload_id "" then pure tt else (do n ← now; insert_abort (abort_of t n))

pub data Choice : Type 0 where
  settled : Option UploadTask → Choice
  again : Choice

abbrev pub can_evict : String → UploadTask → Bool
can_evict exclude_id r = is_evictable r.status && not (str_eq r.id exclude_id)

abbrev pub still_evictable : UploadTask → UploadTask → Bool
still_evictable t r = str_eq r.id t.id && is_evictable r.status

unfoldable pub delete_evictable : UploadTask → M ℕ
unfolding exec
delete_evictable t = exec (λ s. ok (
  count_where (still_evictable t) s.upload_tasks,
  record s { upload_tasks = delete (still_evictable t) s.upload_tasks },
))

unfoldable pub evict_selected : List UploadTask → M (Ending Choice)
unfolding record_abort_intent delete_evictable
evict_selected [] = pure (rollback (settled none))
evict_selected (t ∷ _) = do
  record_abort_intent t
  n ← delete_evictable t
  pure (if n == 0 then rollback again else commit (settled (some t)))

abbrev pub oldest_evictable : String → Tables → List UploadTask
oldest_evictable exclude_id t =
    take 1 (order_by older (select (can_evict exclude_id) t.upload_tasks))

unfoldable pub evict_once : String → M Choice
unfolding evict_selected transaction query
evict_once exclude_id =
    transaction (do tasks ← query (oldest_evictable exclude_id); evict_selected tasks)

-- The rounds left of `maxAttempts`.
unfoldable pub evict_loop : ℕ → String → M (Option UploadTask)
evict_loop zero exclude_id = pure none
evict_loop (suc k) exclude_id =
    evict_once exclude_id >>= λ c. elim c [ settled r ↦ pure r | again ↦ evict_loop k exclude_id ]

unfoldable pub delete_oldest_evictable : String → M (Option UploadTask)
unfolding evict_loop
delete_oldest_evictable = evict_loop 8
