-- ===== src/Queue/Tracking.antt =====
-- What tracks a multipart upload that is in flight in queue.go and aborts.go: a row that can be
-- retried, an abort record, or a finished abort.
use fileagent.Prelude.{
  ℕ, zero, suc, String, ◌≡◌, refl, subst, Bool, true, false, ◌&&◌, ◌||◌, not, List, [], ◌∷◌, ◌/◌,
  arith, str_eq, if◌then◌else◌, any, Bool-cases, inl, inr, eq_iff,
}
use fileagent.Prelude.Int.{ℤ, pos, negsuc}
use fileagent.Queue.Types.{
  Status, pending, running, reported, completed, failed, next_retry_never, UploadTask,
  AbortOutboxEntry, Tables,
}
use fileagent.Queue.Monad.{not_found, World, transaction, transaction_error, Result, ok, err}
use fileagent.Queue.Sql.{update}
use fileagent.Queue.Rows.{any-append, any-update_apart, any-eq-count}
use fileagent.Queue.Tasks.{has_id, add_abort, abort_of}
use fileagent.Queue.Lifecycle.{with_failure, with_status}
use fileagent.Queue.Aborts.{
  of_upload, finalise, mark_failed_abandoned, mark_completed_abandoning_upload,
}

-- The row will run again: it waits, runs, or has a retry scheduled.
abbrev pub is_live : Status → ℤ → Bool
is_live pending at = true
is_live running at = true
is_live failed (pos (suc n)) = true
is_live failed (pos zero) = false
is_live failed (negsuc n) = false
is_live reported at = false
is_live completed at = false

abbrev pub holds : String → UploadTask → Bool
holds u t = str_eq t.upload_id u && is_live t.status t.next_retry_at

abbrev pub tracked_in : String → Tables → Bool
tracked_in u t = any (holds u) t.upload_tasks || any (of_upload u) t.multipart_abort_outbox

abbrev pub tracked : String → World → Bool
tracked u w = tracked_in u w.tables || any (λ r. str_eq r u) w.released

-- Some row with the id of `task` records another upload than `task` does.
abbrev pub stale : UploadTask → UploadTask → Bool
stale task r = has_id task.id r && not (str_eq r.upload_id task.upload_id)

pub any-add_abort :
    (u : String) (e : AbortOutboxEntry) (l : List AbortOutboxEntry)
    → any (of_upload u) l ≡ true
    → any (of_upload u) (add_abort e l) ≡ true
any-add_abort u e l h = ground (arith, any-append (of_upload u) l (e ∷ []))

pub any-add_abort_self :
    (e : AbortOutboxEntry) (l : List AbortOutboxEntry)
    → any (of_upload e.upload_id) (add_abort e l) ≡ true
unfolding any
any-add_abort_self e l =
    ground (arith, any-append (of_upload e.upload_id) l (e ∷ []), eq_iff e.upload_id e.upload_id)

-- A row that a final change reaches does not hold another upload.
pub other_upload :
    (u : String) (task x : UploadTask)
    → str_eq task.upload_id u ≡ false
    → stale task x ≡ false
    → has_id task.id x ≡ true
    → holds u x ≡ false
other_upload u task x ne own found = elim (Bool-cases (str_eq x.upload_id u)) [
  | inl e ↦
      ground
        (arith, eq_iff x.upload_id task.upload_id, eq_iff x.upload_id u, eq_iff task.upload_id u)
  | inr e ↦ rw e
]

-- The final change of the rows of `task`, and its abort intent.
abbrev pub finalised : UploadTask → (UploadTask → UploadTask) → ℕ → Tables → Tables
finalised task f n t = record t {
  upload_tasks = update (has_id task.id) f t.upload_tasks;
  multipart_abort_outbox = add_abort (abort_of task n) t.multipart_abort_outbox;
}

holds-update :
    (u : String) (task : UploadTask) (f : UploadTask → UploadTask) (l : List UploadTask)
    → str_eq task.upload_id u ≡ false
    → any (stale task) l ≡ false
    → any (holds u) l ≡ true
    → any (holds u) (update (has_id task.id) f l) ≡ true
holds-update u task f l ne =
    any-update_apart (stale task) (has_id task.id) (holds u) f l
      (λ x own found. other_upload u task x ne own found)

pub or_intro_right : (a b : Bool) → b ≡ true → (a || b) ≡ true
or_intro_right a b h = ground arith

pub or_map :
    (a b c d : Bool)
    → (a ≡ true → c ≡ true)
    → (b ≡ true → d ≡ true)
    → (a || b) ≡ true
    → (c || d) ≡ true
or_map a b c d f g h = ground arith

tracked-finalised :
    (u : String) (task : UploadTask) (f : UploadTask → UploadTask) (n : ℕ) (t : Tables)
    → any (stale task) t.upload_tasks ≡ false
    → tracked_in u t ≡ true
    → tracked_in u (finalised task f n t) ≡ true
tracked-finalised u task f n t own h = elim (Bool-cases (str_eq task.upload_id u)) [
  | inl same ↦ or_intro_right _ _ (
      subst (λ v. any (of_upload v) (add_abort (abort_of task n) t.multipart_abort_outbox) ≡ true)
        ((eq_iff task.upload_id u).0 same)
        (any-add_abort_self (abort_of task n) t.multipart_abort_outbox))
  | inr ne ↦
      or_map _ _ _ _ (holds-update u task f t.upload_tasks ne own)
        (any-add_abort u (abort_of task n) t.multipart_abort_outbox) h
]

-- A task with no upload leaves every upload but "" where it is.
tracked-unchanged :
    (u : String) (task : UploadTask) (f : UploadTask → UploadTask) (t : Tables)
    → str_eq task.upload_id u ≡ false
    → any (stale task) t.upload_tasks ≡ false
    → tracked_in u t ≡ true
    → tracked_in u (record t { upload_tasks = update (has_id task.id) f t.upload_tasks }) ≡ true
tracked-unchanged u task f t ne own h =
    or_map _ _ _ _ (holds-update u task f t.upload_tasks ne own) (λ b. b) h

-- What a committed `finalise` has done, with the two readings of the clock.
abbrev pub committed : UploadTask → (ℕ → UploadTask → UploadTask) → World → Tables
committed task f w =
    let n = w.clock (suc w.turn) / 1000 in
    let k = w.clock (suc (suc (suc w.turn))) / 1000 in
    if str_eq task.upload_id ""
    then record w.tables { upload_tasks = update (has_id task.id) (f n) w.tables.upload_tasks }
    else finalised task (f n) k w.tables

module _ (task : UploadTask) (f : ℕ → UploadTask → UploadTask) (w : World) where
  pub finalise-committed :
      (transaction (finalise task f) w).0 ≡ ok tt
      → (transaction (finalise task f) w).1.tables ≡ committed task f w
  unfolding transaction finalise
  finalise-committed h = ground arith

  pub finalise_found :
      (transaction (finalise task f) w).0 ≡ ok tt
      → any (has_id task.id) w.tables.upload_tasks ≡ true
  unfolding transaction finalise
  finalise_found h = ground (arith, any-eq-count (has_id task.id) w.tables.upload_tasks)

  pub finalise_not_found :
      (transaction (finalise task f) w).0 ≡ err not_found
      → any (has_id task.id) w.tables.upload_tasks ≡ false
  unfolding transaction finalise
  finalise_not_found h = ground (arith, any-eq-count (has_id task.id) w.tables.upload_tasks)

  pub finalise_released : (transaction (finalise task f) w).1.released ≡ w.released
  unfolding transaction finalise
  finalise_released = ground arith

module _ (u : String) (task : UploadTask) (f : ℕ → UploadTask → UploadTask) (w : World)
    (named : str_eq u "" ≡ false) (own : any (stale task) w.tables.upload_tasks ≡ false)
    (h : tracked u w ≡ true) where
  tracked-committed : tracked_in u w.tables ≡ true → tracked_in u (committed task f w) ≡ true
  tracked-committed in_tables = elim (Bool-cases (str_eq task.upload_id "")) [
    | inl e ↦ rw e (
        tracked-unchanged u task (f (w.clock (suc w.turn) / 1000)) w.tables
          (ground (arith, eq_iff task.upload_id "", eq_iff u "", eq_iff task.upload_id u)) own
          in_tables)
    | inr e ↦
        rw e (tracked-finalised u task (f (w.clock (suc w.turn) / 1000)) _ w.tables own in_tables)
  ]

  tracked-finalise : tracked u (transaction (finalise task f) w).1 ≡ true
  tracked-finalise = go (transaction (finalise task f) w).0 refl
    where
      go :
          (r : Result (Unit {0}))
          → (transaction (finalise task f) w).0 ≡ r
          → tracked u (transaction (finalise task f) w).1 ≡ true
      go (ok _) e =
          rw (finalise-committed task f w e, finalise_released task f w)
            (or_map _ _ _ _ tracked-committed (λ b. b) h)
      go (err x) e = rw (transaction_error (finalise task f) w e, finalise_released task f w) h

-- Giving a task up loses no upload: whatever statement of the transaction fails, an upload that was
-- tracked before is tracked after it, provided that the row of the task records the upload that the
-- caller's copy of the task carries.
pub mark_failed_abandoned-tracked :
    (u : String) (task : UploadTask) (msg : String) (w : World)
    → str_eq u "" ≡ false
    → any (stale task) w.tables.upload_tasks ≡ false
    → tracked u w ≡ true
    → tracked u (mark_failed_abandoned task msg w).1 ≡ true
unfolding mark_failed_abandoned
mark_failed_abandoned-tracked u task msg w =
    tracked-finalise u task (with_failure next_retry_never msg) w

-- Completing a duplicate that carries an upload loses no upload: whatever statement of the
-- transaction fails, an upload that was tracked before is tracked after it, provided that the row of
-- the task records the upload that the caller's copy of the task carries.
pub mark_completed_abandoning_upload-tracked :
    (u : String) (task : UploadTask) (w : World)
    → str_eq u "" ≡ false
    → any (stale task) w.tables.upload_tasks ≡ false
    → tracked u w ≡ true
    → tracked u (mark_completed_abandoning_upload task w).1 ≡ true
unfolding mark_completed_abandoning_upload
mark_completed_abandoning_upload-tracked u task w =
    tracked-finalise u task (with_status completed) w
