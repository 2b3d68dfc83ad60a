-- ===== src/Executor/Resurrection.antt =====
-- recoverFailedTasks of executor.go: what becomes of an abandoned task at a restart.
use mathlib.Core.List.{Memᴰ}
use fileagent.Prelude.{
  ℕ, suc, ◌/◌, String, ◌≡◌, ◌≢◌, refl, Bool, true, false, ◌&&◌, ◌||◌, not, List, [], ◌∷◌, ◌++◌,
  arith, str_eq, any, Bool-cases, inl, inr, eq_iff,
}
use fileagent.Prelude.Int.{pos, ◌=ℤ◌}
use fileagent.Queue.Types.{failed, pending, status_eq, next_retry_never, UploadTask, Tables}
use fileagent.Queue.Monad.{World, next}
use fileagent.Queue.Sql.{update}
use fileagent.Queue.Rows.{any-update-false, any-mem, Every, Every-select, Every-order_by}
use fileagent.Queue.Keeps.{Keeps, Keeps-pure, Keeps-attempt, Keeps-if, Keeps-bind}
use fileagent.Queue.Changes.{OnTasks, enqueue-OnTasks, update_by_id-Keeps}
use fileagent.Queue.Tasks.{has_id, older, abort_of}
use fileagent.Queue.Lifecycle.{by_status, update_status, with_status}
use fileagent.Executor.Types.{Executor}
use fileagent.Executor.Recovery.{
  Recovery, skip, legacy, requeue_now, requeue_later, classify, recover_one, recover_all,
  recover_failed_tasks,
}

-- Failed, and marked as never to be retried or, by an older build, with no schedule.
abbrev pub is_abandoned : UploadTask → Bool
is_abandoned r =
    status_eq r.status failed
    && ((r.next_retry_at =ℤ next_retry_never) || (r.next_retry_at =ℤ pos 0))

-- A row of the id that is not abandoned.
abbrev pub resurrected : String → UploadTask → Bool
resurrected id r = has_id id r && not (is_abandoned r)

abbrev Dead : String → List UploadTask → Type 0
Dead id l = any (resurrected id) l ≡ false

-- A row that is requeued is not one of the id.
abbrev Apart : Executor → String → UploadTask → Type 0
Apart e id t = (n : ℕ) → classify e n t ≡ requeue_now → str_eq t.id id ≡ false

abandoned_not_requeued :
    (e : Executor) (n : ℕ) (t : UploadTask)
    → ((t.next_retry_at =ℤ next_retry_never) || (t.next_retry_at =ℤ pos 0)) ≡ true
    → classify e n t ≢ requeue_now
unfolding classify
abandoned_not_requeued e n t h = ground arith

status_ok-Dead :
    (id other : String) (n : ℕ) (l : List UploadTask)
    → str_eq other id ≡ false
    → Dead id l
    → Dead id (update (has_id other) (with_status pending n) l)
status_ok-Dead id other n l ne h =
    any-update-false (has_id other) (resurrected id) (with_status pending n) l
      (λ x p. ground (arith, eq_iff x.id id, eq_iff x.id other, eq_iff other id)) h

module _ (e : Executor) (id : String) where
  one-Keeps :
      (t : UploadTask) (r : Recovery)
      → (r ≡ requeue_now → str_eq t.id id ≡ false)
      → Keeps (OnTasks (Dead id)) (recover_one e t r)
  unfolding recover_one update_status
  one-Keeps t skip h = Keeps-pure []
  one-Keeps t legacy h =
      Keeps-if _ _ _
        (Keeps-bind _ _ (Keeps-attempt _ (enqueue-OnTasks (Dead id) (abort_of t 0)))
          (λ _. Keeps-pure []))
        (Keeps-pure [])
  one-Keeps t requeue_now h =
      Keeps-bind _ _
        (Keeps-attempt _ (
          update_by_id-Keeps (OnTasks (Dead id)) t.id (with_status pending)
            (λ n s rel. status_ok-Dead id t.id n s.upload_tasks (h refl))))
        (λ _. Keeps-pure [])
  one-Keeps t requeue_later h = Keeps-pure (t ∷ [])

  all-Keeps :
      (n : ℕ) (l : List UploadTask)
      → Every (Apart e id) l
      → Keeps (OnTasks (Dead id)) (recover_all e n l)
  unfolding recover_all
  all-Keeps n [] h = Keeps-pure []
  all-Keeps n (t ∷ ts) h =
      Keeps-bind _ _ (one-Keeps t (classify e n t) (h.0 n))
        (λ timers. Keeps-bind _ _ (all-Keeps n ts h.1) (λ rest. Keeps-pure (timers ++ rest)))

  -- A failed row of a dead id is abandoned, so it is not requeued.
  row-Apart :
      (l : List UploadTask) (x : UploadTask)
      → Dead id l
      → Memᴰ x l
      → status_eq x.status failed ≡ true
      → Apart e id x
  row-Apart l x dead m is_failed n now? = elim (Bool-cases (str_eq x.id id)) [
    | inl same ↦
        elim (Bool-cases ((x.next_retry_at =ℤ next_retry_never) || (x.next_retry_at =ℤ pos 0))) [
          | inl gone ↦ absurd (abandoned_not_requeued e n x gone now?)
          | inr alive ↦
              let there : any (resurrected id) l ≡ true =
                any-mem (resurrected id) l m (rw (same, is_failed, alive)) in
              absurd (cc)
        ]
    | inr ne ↦ ne
  ]

  failed-Apart : (t : Tables) → Dead id t.upload_tasks → Every (Apart e id) (by_status failed t)
  failed-Apart t dead = Every-order_by (Apart e id) older _ (
      Every-select (Apart e id) (λ r. status_eq r.status failed) t.upload_tasks
        (λ x m is_failed. row-Apart t.upload_tasks x dead m is_failed))

  -- No restart resurrects an abandoned task: if every row of the id is failed and abandoned, then so
  -- it is after the recovery, whatever fails in it.
  pub recover_failed_tasks_dead :
      (w : World)
      → any (resurrected id) w.tables.upload_tasks ≡ false
      → any (resurrected id) (recover_failed_tasks e w).1.tables.upload_tasks ≡ false
  unfolding recover_failed_tasks
  recover_failed_tasks_dead w dead = elim (Bool-cases (w.fails w.turn)) [
    | inl down ↦ rw down dead
    | inr up ↦ rw up (
        (all-Keeps (w.clock (suc w.turn) / 1000) (by_status failed w.tables)
            (failed-Apart w.tables dead)).at
          (next (next w)) dead)
  ]
