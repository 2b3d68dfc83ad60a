-- ===== src/Queue/Restart.antt =====
-- Dequeue and restart in queue.go: DequeuePending and ResetRunningToPending.
use fileagent.Prelude.{
  ℕ, suc, ◌/◌, String, ◌≡◌, refl, sym, ap, ◌∙◌, Bool, false, ◌&&◌, Option, none, some, List, [],
  ◌∷◌, arith, any, count_where, take, Bool-cases, inl, inr,
}
use fileagent.Prelude.Int.{ℤ}
use fileagent.Queue.Types.{pending, running, status_eq, UploadTask}
use fileagent.Queue.Monad.{
  World, M, ok, transaction_ok, next, Ending, commit, rollback, ◌>>=◌, ◌>>◌, pure,
}
use fileagent.Queue.Keeps.{
  Property, Keeps, Keeps-pure, Keeps-bind, Keeps-now, Keeps-write, Keeps-query,
}
use fileagent.Queue.Outcomes.{Ensures, Ensures-bind, Ensures-of_Keeps, Ensures-pure}
use fileagent.Queue.Sql.{update}
use fileagent.Queue.Rows.{any-update_clear}
use fileagent.Queue.Tasks.{has_id, update_tasks}
use fileagent.Queue.Lifecycle.{
  by_status, with_status, Stat, list_by_status, refresh_one, refresh_all, flip_running,
  reset_running_to_pending, with_metadata, select_pending, mark_running, dequeue_pending,
}

-- The count of rows with a status is kept by a change that keeps the status.
count-update :
    (p q : UploadTask → Bool) (f : UploadTask → UploadTask) (l : List UploadTask)
    → ((x : UploadTask) → q (f x) ≡ q x)
    → count_where q (update p f l) ≡ count_where q l
unfolding count_where update
count-update p q f [] same = refl
count-update p q f (x ∷ xs) same = elim (Bool-cases (p x)) [
  | inl e ↦ rw (e, same x, count-update p q f xs same)
  | inr e ↦ rw (e, count-update p q f xs same)
]

abbrev pub runs : UploadTask → Bool
runs r = status_eq r.status running

-- `n` rows are running.
abbrev Running : ℕ → Property
Running n t rel = count_where runs t.upload_tasks ≡ n

-- An update of the rows of one task that keeps their status keeps the count.
update_tasks-Keeps :
    (c : ℕ) (p : UploadTask → Bool) (f : UploadTask → UploadTask)
    → ((x : UploadTask) → runs (f x) ≡ runs x)
    → Keeps (Running c) (update_tasks p f)
unfolding update_tasks
update_tasks-Keeps c p f same =
    Keeps-write _ _ (λ t rel h. count-update p runs f t.upload_tasks same ∙ h)

refresh_one-Keeps :
    (c : ℕ) (t : UploadTask) (o : Option (ℤ × ℤ)) → Keeps (Running c) (refresh_one t o)
unfolding refresh_one
refresh_one-Keeps c t none = Keeps-pure tt
refresh_one-Keeps c t (some (size, mtime)) = Keeps-bind _ _ Keeps-now (λ n.
    Keeps-bind _ _ (update_tasks-Keeps c (has_id t.id) (with_metadata size mtime n) (λ x. refl))
      (λ _. Keeps-pure tt))

refresh_all-Keeps :
    (c : ℕ) (stat : Stat) (ts : List UploadTask) → Keeps (Running c) (refresh_all stat ts)
unfolding refresh_all
refresh_all-Keeps c stat [] = Keeps-pure tt
refresh_all-Keeps c stat (t ∷ ts) =
    Keeps-bind _ _ (refresh_one-Keeps c t (stat t.local_path)) (λ _. refresh_all-Keeps c stat ts)

no_runs-update :
    (n : ℕ) (l : List UploadTask) → any runs (update runs (with_status pending n) l) ≡ false
unfolding any
no_runs-update n l = any-update_clear runs runs (with_status pending n) l (λ x. ground arith)

-- After the status flip no row runs, and the answer counts those that did.
flip_running_lem :
    (w : World) {n : ℕ}
    → (flip_running w).0 ≡ ok n
    → (n ≡ count_where runs w.tables.upload_tasks)
      × (any runs (flip_running w).1.tables.upload_tasks ≡ false)
unfolding flip_running
flip_running_lem w h = ground (arith, no_runs-update (w.clock w.turn / 1000) w.tables.upload_tasks)

abbrev AllReset : ℕ → ℕ → Property
AllReset c n t rel = (n ≡ c) × (any runs t.upload_tasks ≡ false)

flip-Ensures : (c : ℕ) → Ensures (Running c) flip_running (AllReset c)
flip-Ensures c = record {
  at = λ w h e. let (counted, none_left) = flip_running_lem w e in (counted ∙ h, none_left);
}

-- The body of the transaction.
abbrev reset_body : Stat → M (Ending ℕ)
reset_body stat = do
  rows ← list_by_status running
  refresh_all stat rows
  n ← flip_running
  pure (commit n)

abbrev Committed : {A : Type 0} → (A → Property) → Ending A → Property
Committed R (commit a) = R a
Committed R (rollback a) = λ t rel. ⊥

reset_body-Ensures :
    (stat : Stat) (c : ℕ) → Ensures (Running c) (reset_body stat) (Committed (AllReset c))
unfolding list_by_status
reset_body-Ensures stat c =
    Ensures-bind {S = λ _. Running c} _ _ (Ensures-of_Keeps _ (Keeps-query _)) (λ rows.
      Ensures-bind {S = λ _. Running c} _ _ (Ensures-of_Keeps _ (refresh_all-Keeps c stat rows))
        (λ _.
          Ensures-bind {S = AllReset c} _ _ (flip-Ensures c)
            (λ n. Ensures-pure (commit n) (λ t rel h. h))))

-- A reset that answers `n` leaves no running task, and `n` tasks were running before it.
pub reset_running_to_pending_all :
    (stat : Stat) (w : World) {n : ℕ}
    → (reset_running_to_pending stat w).0 ≡ ok n
    → (n ≡ count_where runs w.tables.upload_tasks)
      × (any runs (reset_running_to_pending stat w).1.tables.upload_tasks ≡ false)
unfolding reset_running_to_pending
reset_running_to_pending_all stat w h = elim (transaction_ok (reset_body stat) w h) [
  | inl (answer, same) ↦
      rw same
        ((reset_body-Ensures stat (count_where runs w.tables.upload_tasks)).at (next w) refl answer)
  | inr (answer, same) ↦
      absurd
        ((reset_body-Ensures stat (count_where runs w.tables.upload_tasks)).at (next w) refl answer)
]

-- Two workers, whose statements interleave: each selects before either has marked what it selected.
unfoldable pub two_workers : ℕ → M (List UploadTask × List UploadTask)
unfolding select_pending mark_running
two_workers n = do
  mine ← select_pending 1
  yours ← select_pending 1
  taken_by_me ← mark_running n mine
  taken_by_you ← mark_running n yours
  pure (taken_by_me, taken_by_you)

-- Whenever a task is pending and no statement fails, two workers whose dequeues interleave so are
-- both given the same task, the oldest pending one, as running.
pub two_workers_same :
    (n : ℕ) (w : World) {t : UploadTask} {ts : List UploadTask}
    → ((k : ℕ) → w.fails k ≡ false)
    → by_status pending w.tables ≡ t ∷ ts
    → (two_workers n w).0 ≡ ok (with_status running n t ∷ [], with_status running n t ∷ [])
unfolding two_workers
two_workers_same n w fine rows =
    ground (
      arith,
      fine w.turn,
      fine (suc w.turn),
      fine (suc (suc w.turn)),
      fine (suc (suc (suc w.turn))),
    )

-- `has_id id` and pending.
abbrev pub waits : String → UploadTask → Bool
waits id r = has_id id r && status_eq r.status pending

mark_one-clear :
    (n : ℕ) (id : String) (l : List UploadTask)
    → any (waits id) (update (has_id id) (with_status running n) l) ≡ false
unfolding any
mark_one-clear n id l =
    any-update_clear (has_id id) (waits id) (with_status running n) l (λ x. ground arith)

mark_one_lem :
    (n : ℕ) (l : List UploadTask) (w : World) {t : UploadTask}
    → (mark_running n (take 1 l) w).0 ≡ ok (t ∷ [])
    → (t.status ≡ running)
      × (any (waits t.id) (mark_running n (take 1 l) w).1.tables.upload_tasks ≡ false)
unfolding mark_running
mark_one_lem n [] w h = absurd (cc)
mark_one_lem n (x ∷ xs) w {t = t} h = elim (Bool-cases (w.fails w.turn)) [
  | inl e ↦ absurd (ground arith)
  | inr e ↦
      let same : with_status running n x ≡ t = ground arith in
      (
        ap UploadTask.status (sym same),
        rw (e, ← same) (mark_one-clear n x.id w.tables.upload_tasks),
      )
]

-- A dequeue that runs by itself and answers with one task leaves no pending row with its id, so
-- that the next dequeue does not give it out again.
pub dequeue_pending_exclusive :
    (w : World) {t : UploadTask}
    → (dequeue_pending 1 w).0 ≡ ok (t ∷ [])
    → (t.status ≡ running) × (any (waits t.id) (dequeue_pending 1 w).1.tables.upload_tasks ≡ false)
unfolding dequeue_pending select_pending
dequeue_pending_exclusive w h = elim (Bool-cases (w.fails w.turn)) [
  | inl e ↦ absurd (ground arith)
  | inr e ↦ rw e (
      mark_one_lem (w.clock (suc w.turn) / 1000) (by_status pending w.tables) (next (next w))
        (rw e at h))
]
