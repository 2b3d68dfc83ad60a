-- ===== src/Queue/Changes.antt =====
-- What the updates of upload_tasks keep, and what the statements on the other tables leave alone.
use fileagent.Prelude.{ℕ, String, Bool, List, ◌==◌, count_where}
use fileagent.Queue.Types.{UploadTask, AbortOutboxEntry, Tables}
use fileagent.Queue.Monad.{not_found, now, pure, raise, ◌>>=◌}
use fileagent.Queue.Sql.{update}
use fileagent.Queue.Keeps.{
  Property, Keeps, Keeps-pure, Keeps-raise, Keeps-write, Keeps-if, Keeps-bind, Keeps-now,
  Keeps-query,
}
use fileagent.Queue.Tasks.{has_id, update_tasks, insert_abort, count_active}
use fileagent.Queue.Lifecycle.{found, update_by_id}
use fileagent.Queue.Aborts.{enqueue_multipart_abort, delete_multipart_abort}

abbrev pub with_tasks : (List UploadTask → List UploadTask) → Tables → Tables
with_tasks f t = record t { upload_tasks = f t.upload_tasks }

pub update_tasks-Keeps :
    (Q : Property) (p : UploadTask → Bool) (f : UploadTask → UploadTask)
    → ((t : Tables) (rel : List String) → Q t rel → Q (with_tasks (update p f) t) rel)
    → Keeps Q (update_tasks p f)
unfolding update_tasks
update_tasks-Keeps Q p f k =
    Keeps-write (λ t. count_where p t.upload_tasks) (with_tasks (update p f)) k

pub found-Keeps : (Q : Property) (n : ℕ) → Keeps Q (found n)
found-Keeps Q n =
    Keeps-if (n == 0) (raise not_found) (pure tt) (Keeps-raise not_found) (Keeps-pure tt)

pub update_by_id-Keeps :
    (Q : Property) (id : String) (f : ℕ → UploadTask → UploadTask)
    → ((n : ℕ) (t : Tables) (rel : List String)
        → Q t rel
        → Q (with_tasks (update (has_id id) (f n)) t) rel)
    → Keeps Q (update_by_id id f)
unfolding update_by_id
update_by_id-Keeps Q id f k =
    Keeps-bind now (λ n. update_tasks (has_id id) (f n) >>= found) Keeps-now
      (λ n.
        Keeps-bind (update_tasks (has_id id) (f n)) found
          (update_tasks-Keeps Q (has_id id) (f n) (k n)) (found-Keeps Q))

-- A property of upload_tasks alone.
abbrev pub OnTasks : (List UploadTask → Type 0) → Property
OnTasks Z t rel = Z t.upload_tasks

module _ (Z : List UploadTask → Type 0) where
  insert_abort-OnTasks : (e : AbortOutboxEntry) → Keeps (OnTasks Z) (insert_abort e)
  unfolding insert_abort
  insert_abort-OnTasks e = Keeps-write _ _ (λ t rel h. h)

  pub enqueue-OnTasks : (e : AbortOutboxEntry) → Keeps (OnTasks Z) (enqueue_multipart_abort e)
  unfolding enqueue_multipart_abort
  enqueue-OnTasks e =
      Keeps-if _ _ _
        (Keeps-bind _ _ Keeps-now (λ n. insert_abort-OnTasks (record e { created_at = n })))
        (insert_abort-OnTasks e)

  pub delete-OnTasks : (u : String) → Keeps (OnTasks Z) (delete_multipart_abort u)
  unfolding delete_multipart_abort
  delete-OnTasks u = Keeps-write _ _ (λ t rel h. h)

  pub count_active-OnTasks : Keeps (OnTasks Z) count_active
  unfolding count_active
  count_active-OnTasks = Keeps-query _
