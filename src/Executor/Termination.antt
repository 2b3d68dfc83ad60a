-- ===== src/Executor/Termination.antt =====
-- The loop of enforceCapacity in executor.go: `for` without a bound, here with fuel.
use fileagent.Prelude.{
  ℕ, zero, suc, ◌<◌, ◌≤◌, String, ◌≡◌, refl, subst, Option, none, some, List, arith, leb, length,
  Bool-cases, inl, inr,
}
use fileagent.Queue.Types.{UploadTask, Tables}
use fileagent.Queue.Monad.{World, Result, ok, err, M, continue}
use fileagent.Queue.Rows.{length-delete}
use fileagent.Queue.Changes.{count_active-OnTasks}
use fileagent.Queue.Tasks.{still_evictable, count_active, delete_oldest_evictable}
use fileagent.Queue.Eviction.{Evicts, nothing, drops, delete_oldest_evictable-Evicts}
use fileagent.Executor.Types.{Executor}
use fileagent.Executor.Abandon.{abandon_task_upload}
use fileagent.Executor.Untouched.{abandon-OnTasks, abandon-answers}
use fileagent.Executor.Capacity.{evicted_tasks}
use fileagent.Executor.Process.{
  Loop, finished, after_count, dropped_or_none, next_round, capacity_round, capacity_loop,
  enforce_capacity,
}

-- Dropping a task makes the table shorter.
Evicts-shorter :
    {x : String} {s : Tables} {rel : List String} {r : Result (Option UploadTask)} {w : World}
    {t : UploadTask}
    → Evicts x s rel r w
    → r ≡ ok (some t)
    → length w.tables.upload_tasks < length s.upload_tasks
Evicts-shorter {t = t} (nothing never _ _) e = absurd (never t e)
Evicts-shorter {s = s} (drops t k _ _ tables found _) e = rw tables (
    evicted_tasks t k s (λ l. length l < length s.upload_tasks)
      (omega (arith, length-delete (still_evictable t) s.upload_tasks, found)))

-- The outcome of a round: it never fails, and if it drops a task the table gets shorter.
abbrev Shrinks : ℕ → Result (Option UploadTask) → List UploadTask → Type 0
Shrinks n (ok none) l = Unit
Shrinks n (ok (some t)) l = length l < n
Shrinks n (err e) l = ⊥

dropped-Shrinks :
    (n : ℕ) (r : Result (Option UploadTask)) (w : World)
    → ((t : UploadTask) → r ≡ ok (some t) → length w.tables.upload_tasks < n)
    → Shrinks n (dropped_or_none r w).0 (dropped_or_none r w).1.tables.upload_tasks
dropped-Shrinks n (ok none) w h = tt
dropped-Shrinks n (ok (some t)) w h = h t refl
dropped-Shrinks n (err e) w h = tt

round-Shrinks :
    (e : Executor) (id : String) (w : World)
    → Shrinks
        (length w.tables.upload_tasks)
        (capacity_round e id w).0
        (capacity_round e id w).1.tables.upload_tasks
unfolding capacity_round
round-Shrinks e id w = elim (Bool-cases (after_count e (count_active w).0)) [
  | inl done ↦ rw done tt
  | inr over ↦ rw over (
      dropped-Shrinks (length w.tables.upload_tasks)
        (delete_oldest_evictable id (count_active w).1).0
        (delete_oldest_evictable id (count_active w).1).1
        (λ t p.
          subst
            (λ n. length (delete_oldest_evictable id (count_active w).1).1.tables.upload_tasks < n)
            ((count_active-OnTasks (λ l. length l ≡ length w.tables.upload_tasks)).at w refl)
            (Evicts-shorter (delete_oldest_evictable-Evicts id (count_active w).1) p)))
]

-- One round and what follows, by the outcome of the round.
rest_ends :
    (later : M Loop) (e : Executor) (m n : ℕ) (r : Result (Option UploadTask)) (w : World)
    → m ≤ n
    → Shrinks m r w.tables.upload_tasks
    → ((w' : World) → length w'.tables.upload_tasks < n → (later w').0 ≡ ok finished)
    → (continue r (next_round later e) w).0 ≡ ok finished
rest_ends later e m n (ok none) w le s ih = refl
rest_ends later e m n (ok (some t)) w le s ih = rw (abandon-answers e t w) (
    ih (abandon_task_upload e t w).1 ((abandon-OnTasks (λ l. length l < n) e t).at w (omega arith)))
rest_ends later e m n (err x) w le s ih = absurd s

loop_ends :
    (fuel : ℕ) (e : Executor) (id : String) (w : World)
    → length w.tables.upload_tasks < fuel
    → (capacity_loop fuel e id w).0 ≡ ok finished
unfolding capacity_loop
loop_ends zero e id w h = elim h [ ]
loop_ends (suc fuel) e id w h =
    rest_ends (capacity_loop fuel e id) e (length w.tables.upload_tasks) fuel
      (capacity_round e id w).0 (capacity_round e id w).1 (omega arith) (round-Shrinks e id w)
      (loop_ends fuel e id)

-- The trimming of the queue ends, whatever fails, within as many rounds as there are rows, and one.
pub enforce_capacity_ends :
    (fuel : ℕ) (e : Executor) (id : String) (w : World)
    → length w.tables.upload_tasks < fuel
    → (enforce_capacity fuel e id w).0 ≡ ok finished
unfolding enforce_capacity
enforce_capacity_ends fuel e id w h = elim (Bool-cases (leb e.queue_max_size 0)) [
  | inl off ↦ rw off
  | inr on ↦ rw on (loop_ends fuel e id w h)
]
