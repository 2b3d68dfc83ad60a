-- ===== src/Queue/Dedup.antt =====
-- EnqueueIfNoActive of queue.go: active tasks for one version of a file.
use fileagent.Prelude.{
  ◌/◌, String, ◌≡◌, refl, Bool, true, false, ◌&&◌, List, [], ◌∷◌, ◌++◌, arith, str_eq, any, eq_iff,
}
use fileagent.Prelude.Int.{=ℤ_sym}
use fileagent.Queue.Types.{UploadTask}
use fileagent.Queue.Monad.{World, Result, ok, err}
use fileagent.Queue.Rows.{any-append}
use fileagent.Queue.Tasks.{
  has_id, is_active, same_file, stored, with_defaults, enqueue_if_no_active,
}

-- `r` is active for the version of the file that `t` has.
abbrev pub blocks : UploadTask → UploadTask → Bool
blocks t r = same_file r t && is_active r.status

abbrev pub ActiveUnique : List UploadTask → Type 0
ActiveUnique [] = Unit
ActiveUnique (t ∷ ts) = (is_active t.status ≡ true → any (blocks t) ts ≡ false) × ActiveUnique ts

str_eq_sym : (a b : String) → str_eq a b ≡ str_eq b a
str_eq_sym a b = ground (arith, eq_iff a b, eq_iff b a)

same_file_sym : (a b : UploadTask) → same_file a b ≡ same_file b a
same_file_sym a b = rw (
  str_eq_sym a.rule_id b.rule_id,
  str_eq_sym a.local_path b.local_path,
  =ℤ_sym a.file_mtime b.file_mtime,
  =ℤ_sym a.file_size b.file_size,
)

ActiveUnique-append :
    (l : List UploadTask) (t : UploadTask)
    → ActiveUnique l
    → any (blocks t) l ≡ false
    → ActiveUnique (l ++ t ∷ [])
unfolding any
ActiveUnique-append [] t u h = ground arith
ActiveUnique-append (x ∷ xs) t u h = (
  (λ act. rw any-append (ground (arith, u.0 act, same_file_sym x t))),
  ActiveUnique-append xs t u.1 (ground arith),
)

module _ (task : UploadTask) (w : World) where
  abbrev entered : UploadTask
  entered = stored (with_defaults (w.clock w.turn / 1000) task)

  -- After the answer `true` the new row is the last one, no row had its id, and no active row had its
  -- version of the file.
  enqueue_if_no_active-true :
      (enqueue_if_no_active task w).0 ≡ ok true
      → (any (blocks task) w.tables.upload_tasks ≡ false)
        × (any (has_id task.id) w.tables.upload_tasks ≡ false)
        × ((enqueue_if_no_active task w).1.tables.upload_tasks
            ≡ w.tables.upload_tasks ++ entered ∷ [])
  unfolding enqueue_if_no_active
  enqueue_if_no_active-true h = ground arith

  -- On every other answer, errors included, the tables stay.
  enqueue_if_no_active_other :
      ((enqueue_if_no_active task w).0 ≡ ok true → ⊥)
      → (enqueue_if_no_active task w).1.tables ≡ w.tables
  unfolding enqueue_if_no_active
  enqueue_if_no_active_other h = ground arith

  -- The answer is `false` only where an active row for the same version of the file was there.
  enqueue_if_no_active-false :
      (enqueue_if_no_active task w).0 ≡ ok false → any (blocks task) w.tables.upload_tasks ≡ true
  unfolding enqueue_if_no_active
  enqueue_if_no_active-false h = ground arith

  -- At most one active task for each version of a file, before and so after, whatever the answer.
  pub enqueue_if_no_active-ActiveUnique :
      ActiveUnique w.tables.upload_tasks
      → ActiveUnique (enqueue_if_no_active task w).1.tables.upload_tasks
  enqueue_if_no_active-ActiveUnique u = go (enqueue_if_no_active task w).0 refl
    where
      go :
          (r : Result Bool)
          → (enqueue_if_no_active task w).0 ≡ r
          → ActiveUnique (enqueue_if_no_active task w).1.tables.upload_tasks
      go (ok true) e =
          let (free, _, same) = enqueue_if_no_active-true e in
          rw same (ActiveUnique-append w.tables.upload_tasks entered u free)
      go (ok false) e = rw (enqueue_if_no_active_other (λ p. cc)) u
      go (err x) e = rw (enqueue_if_no_active_other (λ p. cc)) u
