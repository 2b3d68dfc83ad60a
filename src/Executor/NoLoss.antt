-- ===== src/Executor/NoLoss.antt =====
-- handleFailure of executor.go: what becomes of a tracked upload, on any schedule of failures.
use fileagent.Prelude.{
  ℕ, zero, suc, ◌+◌, ◌<◌, String, ◌≡◌, refl, true, false, Option, none, some, List, arith, leb,
  str_eq, any,
}
use fileagent.Prelude.Int.{pos}
use fileagent.Queue.Types.{failed, UploadTask}
use fileagent.Queue.Monad.{
  Error, not_found, unavailable, constraint, no_rows, index_range, malformed, World, Result, ok,
  err, M, attempt,
}
use fileagent.Queue.Sql.{update}
use fileagent.Queue.Rows.{any-update}
use fileagent.Queue.Keeps.{
  Property, Keeps, Keeps-pure, Keeps-raise, Keeps-attempt, Keeps-bind, Keeps-now, Keeps-and,
}
use fileagent.Queue.Outcomes.{Meets, Meets-bind, Meets-of_Keeps, Meets-pure, Meets-if}
use fileagent.Queue.Changes.{update_by_id-Keeps}
use fileagent.Queue.Tasks.{has_id}
use fileagent.Queue.Lifecycle.{mark_failed, with_failure}
use fileagent.Queue.Aborts.{mark_failed_abandoned}
use fileagent.Queue.Tracking.{is_live, holds, tracked, stale, or_map}
use fileagent.Executor.Types.{UploadError, Executor}
use fileagent.Executor.Abandon.{abandon_task_upload, retry_delay}
use fileagent.Executor.Delays.{retry_delay_bounds}
use fileagent.Executor.Releases.{Tracked, abandon-Keeps}
use fileagent.Executor.Untouched.{abandon-OnTasks}
use fileagent.Executor.Failing.{lives, Final, Before, Marked, marked, persist_result-Keeps}
use fileagent.Executor.Failure.{
  failure_report, abandon_and_report, after_marking, give_up, stamp_retry, schedule_retry,
  unless_given_up, retry_or_give_up, handle_failure,
}

-- A retry that is scheduled keeps the row alive.
live_schedule : (k : ℕ) → 0 < k → is_live failed (pos k) ≡ true
live_schedule zero h = elim h [ ]
live_schedule (suc k) h = refl

holds-schedule :
    (u id msg : String) (k n : ℕ) (l : List UploadTask)
    → 0 < k
    → any (holds u) l ≡ true
    → any (holds u) (update (has_id id) (with_failure (pos k) msg n) l) ≡ true
holds-schedule u id msg k n l h =
    any-update (has_id id) (holds u) (with_failure (pos k) msg n) l
      (λ x q p. ground (arith, live_schedule k h))

mark_failed-Keeps :
    (u id msg : String) (k : ℕ) → 0 < k → Keeps (Tracked u) (mark_failed id msg (some k))
unfolding mark_failed
mark_failed-Keeps u id msg k h =
    update_by_id-Keeps (Tracked u) id (with_failure (pos k) msg) (λ n t rel.
      or_map _ _ _ _ (or_map _ _ _ _ (holds-schedule u id msg k n t.upload_tasks h) (λ a. a))
        (λ b. b))

stamp_retry-Keeps :
    (u : String) (task : UploadTask) (msg : String) (o : Option ℕ)
    → ((d : ℕ) → o ≡ some d → 0 < d)
    → Keeps (Tracked u) (stamp_retry task msg o)
unfolding stamp_retry
stamp_retry-Keeps u task msg none h = Keeps-raise _
stamp_retry-Keeps u task msg (some d) h = Keeps-bind _ _ Keeps-now (λ n.
    Keeps-bind _ _
      (Keeps-attempt _ (mark_failed-Keeps u task.id msg (n + d) (omega (arith, h d refl))))
      (λ _. Keeps-pure (some d)))

delay_pos : (n d : ℕ) → retry_delay (n + 1) ≡ some d → 0 < d
delay_pos n d e = let (k, is_k, _, low, _) = retry_delay_bounds n in ground (arith, is_k, low)

schedule_retry-Keeps :
    (u : String) (task : UploadTask) (msg : String) → Keeps (Tracked u) (schedule_retry task msg)
unfolding schedule_retry
schedule_retry-Keeps u task msg = stamp_retry-Keeps u task msg _ (delay_pos task.retry_count)

-- `none`: the task is given up. `some e`: nothing is recorded, and all is as before.
abbrev GivenUp : String → UploadTask → Result (Option Error) → Property
GivenUp u task (ok none) = Tracked u
GivenUp u task (ok (some e)) = Before u task
GivenUp u task (err e) = Tracked u

-- Abandoned and reported, with the retry count raised or not.
report-Meets :
    (u : String) (e : Executor) (task retried : UploadTask) (msg : String)
    → retried.id ≡ task.id
    → Meets (Final u retried.id) (abandon_and_report e retried msg) (GivenUp u task)
unfolding abandon_and_report
report-Meets u e task retried msg same =
    Meets-bind {S = λ _. Final u retried.id} (abandon_task_upload e retried) _
      (Meets-of_Keeps _ (
        Keeps-and _ (abandon-Keeps u e retried)
          (abandon-OnTasks (λ l. any (lives retried.id) l ≡ false) e retried)))
      (λ _.
        Meets-bind {S = λ _. Final u retried.id} _ _
          (Meets-of_Keeps _ (persist_result-Keeps u e retried (failure_report retried msg)))
          (λ _. Meets-pure none (λ t rel h. h.0)) (λ x t rel h. h.0))
      (λ x t rel h. h.0)

abbrev raised : UploadTask → UploadTask
raised task = record task { retry_count = task.retry_count + 1 }

after_marking-Meets :
    (u : String) (e : Executor) (task : UploadTask) (msg : String) (r : Result (Unit {0}))
    → Meets (Marked u task r) (after_marking e (raised task) msg r) (GivenUp u task)
unfolding after_marking
after_marking-Meets u e task msg (ok _) = report-Meets u e task (raised task) msg refl
after_marking-Meets u e task msg (err not_found) = report-Meets u e task (raised task) msg refl
after_marking-Meets u e task msg (err unavailable) = Meets-pure _ (λ t rel h. h)
after_marking-Meets u e task msg (err constraint) = Meets-pure _ (λ t rel h. h)
after_marking-Meets u e task msg (err no_rows) = Meets-pure _ (λ t rel h. h)
after_marking-Meets u e task msg (err index_range) = Meets-pure _ (λ t rel h. h)
after_marking-Meets u e task msg (err malformed) = Meets-pure _ (λ t rel h. h)

abbrev Attempted : String → UploadTask → Result (Result (Unit {0})) → Property
Attempted u task (ok r) = Marked u task r
Attempted u task (err x) = Tracked u

module _ (u : String) (named : str_eq u "" ≡ false) (e : Executor) (task : UploadTask) where
  give_up-Meets : (msg : String) → Meets (Before u task) (give_up e task msg) (GivenUp u task)
  unfolding give_up
  give_up-Meets msg =
      Meets-bind {S = Attempted u task} (attempt (mark_failed_abandoned task msg)) _
        (record {
          at = λ w h. marked u named task msg w h (mark_failed_abandoned task msg w).0 refl;
        })
        (after_marking-Meets u e task msg) (λ x t rel h. h)

  -- After giving up, a retry is made only if nothing was recorded.
  unless-Meets :
      (retry : String → M (Option ℕ)) (msg : String)
      → ((m : String) → Meets (Before u task) (retry m) (λ _. Tracked u))
      → (g : Option Error)
      → Meets (GivenUp u task (ok g)) (unless_given_up retry e msg g) (λ _. Tracked u)
  unless-Meets retry msg k none = Meets-pure none (λ t rel h. h)
  unless-Meets retry msg k (some x) = k (e.wrap msg x)

  schedule-Meets : (m : String) → Meets (Before u task) (schedule_retry task m) (λ _. Tracked u)
  schedule-Meets m = record { at = λ w h. (schedule_retry-Keeps u task m).at w h.0 }

  retry-Meets : (m : String) → Meets (Before u task) (retry_or_give_up e task m) (λ _. Tracked u)
  unfolding retry_or_give_up
  retry-Meets m =
      Meets-if (leb e.retry_max (task.retry_count + 1)) _ _
        (Meets-bind {S = GivenUp u task} _ _ (give_up-Meets m)
          (unless-Meets (schedule_retry task) m schedule-Meets) (λ x t rel h. h))
        (schedule-Meets m)

  handle-Meets :
      (error : UploadError) → Meets (Before u task) (handle_failure e task error) (λ _. Tracked u)
  unfolding handle_failure
  handle-Meets error =
      Meets-if error.terminal _ _
        (Meets-bind {S = GivenUp u task} _ _ (give_up-Meets error.message)
          (unless-Meets (retry_or_give_up e task) error.message retry-Meets) (λ x t rel h. h))
        (retry-Meets error.message)

-- A failed upload loses no multipart upload: terminal or not, with retries left or not, whichever
-- statements and remote aborts fail, an upload that was tracked before is tracked after it,
-- provided that the row of the task records the upload that the caller's copy of the task carries.
pub handle_failure-tracked :
    (u : String) (e : Executor) (task : UploadTask) (error : UploadError) (w : World)
    → str_eq u "" ≡ false
    → any (stale task) w.tables.upload_tasks ≡ false
    → tracked u w ≡ true
    → tracked u (handle_failure e task error w).1 ≡ true
handle_failure-tracked u e task error w named own h =
    (handle-Meets u named e task error).at w (h, own)
