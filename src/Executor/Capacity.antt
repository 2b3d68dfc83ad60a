-- ===== src/Executor/Capacity.antt =====
-- enforceCapacity of executor.go: the task that has just been submitted.
use fileagent.Prelude.{
  ℕ, zero, suc, String, ◌≡◌, Bool, true, ◌&&◌, Option, none, some, List, arith, leb, str_eq, any,
  Bool-cases, inl, inr, eq_iff,
}
use fileagent.Queue.Types.{UploadTask, Tables}
use fileagent.Queue.Monad.{World, Result, ok, err, M}
use fileagent.Queue.Sql.{delete}
use fileagent.Queue.Rows.{any-delete}
use fileagent.Queue.Keeps.{Keeps, Keeps-pure, Keeps-attempt, Keeps-if, Keeps-bind}
use fileagent.Queue.Changes.{OnTasks, count_active-OnTasks}
use fileagent.Queue.Tasks.{has_id, still_evictable, can_evict, delete_oldest_evictable}
use fileagent.Queue.Eviction.{Evicts, nothing, drops, evicted, delete_oldest_evictable-Evicts}
use fileagent.Executor.Types.{Executor}
use fileagent.Executor.Abandon.{abandon_task_upload}
use fileagent.Executor.Untouched.{abandon-OnTasks}
use fileagent.Executor.Process.{
  Loop, finished, out_of_fuel, after_count, dropped_or_none, next_round, capacity_round,
  capacity_loop, enforce_capacity,
}

-- Some row has the id and the property.
abbrev pub Present : String → (UploadTask → Bool) → List UploadTask → Type 0
Present id q l = any (λ r. has_id id r && q r) l ≡ true

pub evicted_tasks :
    (t : UploadTask) (k : ℕ) (s : Tables) (Z : List UploadTask → Type 0)
    → Z (delete (still_evictable t) s.upload_tasks)
    → Z (evicted t k s).upload_tasks
evicted_tasks t k s Z h = elim (Bool-cases (str_eq t.upload_id "")) [
  | inl e ↦ rw e h
  | inr e ↦ rw e h
]

module _ (id : String) (q : UploadTask → Bool) where
  -- The excluded task is not the victim.
  Present-delete :
      (t : UploadTask) (l : List UploadTask)
      → can_evict id t ≡ true
      → Present id q l
      → Present id q (delete (still_evictable t) l)
  Present-delete t l other h =
      any-delete (still_evictable t) (λ r. has_id id r && q r) l
        (λ x e. ground (arith, eq_iff x.id id, eq_iff x.id t.id, eq_iff t.id id)) h

  Present-Evicts :
      {s : Tables} {rel : List String} {r : Result (Option UploadTask)} {w : World}
      → Evicts id s rel r w
      → Present id q s.upload_tasks
      → Present id q w.tables.upload_tasks
  Present-Evicts (nothing _ same _) h = rw same h
  Present-Evicts {s = s} (drops t k _ victim tables _ _) h =
      rw tables (evicted_tasks t k s (Present id q) (Present-delete t s.upload_tasks victim.1 h))

  evict-Keeps : Keeps (OnTasks (Present id q)) (delete_oldest_evictable id)
  evict-Keeps = record { at = λ w h. Present-Evicts (delete_oldest_evictable-Evicts id w) h }

  dropped-Keeps :
      (r : Result (Option UploadTask)) → Keeps (OnTasks (Present id q)) (dropped_or_none r)
  dropped-Keeps (ok d) = Keeps-pure d
  dropped-Keeps (err x) = Keeps-pure none

  round-Keeps : (e : Executor) → Keeps (OnTasks (Present id q)) (capacity_round e id)
  unfolding capacity_round
  round-Keeps e = Keeps-bind _ _ (Keeps-attempt _ (count_active-OnTasks (Present id q))) (λ n.
      Keeps-if (after_count e n) _ _ (Keeps-pure none)
        (Keeps-bind _ _ (Keeps-attempt _ evict-Keeps) dropped-Keeps))

  next-Keeps :
      (e : Executor) (later : M Loop) (d : Option UploadTask)
      → Keeps (OnTasks (Present id q)) later
      → Keeps (OnTasks (Present id q)) (next_round later e d)
  next-Keeps e later none k = Keeps-pure finished
  next-Keeps e later (some t) k =
      Keeps-bind (abandon_task_upload e t) (λ _. later) (abandon-OnTasks (Present id q) e t)
        (λ _. k)

  loop-Keeps : (fuel : ℕ) (e : Executor) → Keeps (OnTasks (Present id q)) (capacity_loop fuel e id)
  unfolding capacity_loop
  loop-Keeps zero e = Keeps-pure out_of_fuel
  loop-Keeps (suc fuel) e =
      Keeps-bind _ _ (round-Keeps e)
        (λ d. next-Keeps e (capacity_loop fuel e id) d (loop-Keeps fuel e))

  -- The trimming of the queue never drops the task that has just been submitted.
  pub enforce_capacity_keeps_new :
      (fuel : ℕ) (e : Executor) (w : World)
      → Present id q w.tables.upload_tasks
      → Present id q (enforce_capacity fuel e id w).1.tables.upload_tasks
  unfolding enforce_capacity
  enforce_capacity_keeps_new fuel e w h =
      (Keeps-if {Q = OnTasks (Present id q)} (leb e.queue_max_size 0) _ _ (Keeps-pure finished)
          (loop-Keeps fuel e)).at
        w h
