-- ===== src/Executor/Releases.antt =====
-- abandonTaskUpload and drainAbortOutbox of executor.go: what becomes of a tracked upload.
use fileagent.Prelude.{
  ℕ, String, ◌≡◌, subst, Bool, true, false, ◌||◌, Option, none, some, List, [], ◌∷◌, arith, str_eq,
  any, Bool-cases, inl, inr, eq_iff,
}
use fileagent.Queue.Types.{UploadTask, AbortOutboxEntry, Tables}
use fileagent.Queue.Monad.{World, M, next, ◌>>=◌}
use fileagent.Queue.Sql.{delete}
use fileagent.Queue.Rows.{any-update, any-delete}
use fileagent.Queue.Keeps.{
  Property, Keeps, Keeps-pure, Keeps-raise, Keeps-attempt, Keeps-query, Keeps-write, Keeps-if,
  Keeps-bind, Keeps-now, keeps_rules,
}
use fileagent.Queue.Outcomes.{Meets, Meets-bind, Meets-of_Keeps}
use fileagent.Queue.Tasks.{insert_abort, abort_of}
use fileagent.Queue.Aborts.{
  of_upload, enqueue_multipart_abort, due_multipart_aborts, record_multipart_abort_attempt,
  delete_multipart_abort,
}
use fileagent.Queue.Tracking.{tracked_in, tracked, any-add_abort, or_map, or_intro_right}
use fileagent.Executor.Types.{Executor}
use fileagent.Executor.Abandon.{
  call_abandon, after_abort, abandon_task_upload, abort_failed, abort_attempted,
  abort_backoff_delay, drain_entries, drain_abort_outbox, or_none,
}

abbrev pub is_released : String → List String → Bool
is_released u rel = any (λ r. str_eq r u) rel

-- The upload `u` is not lost; `tracked` of a world, as a property of its tables and releases.
abbrev pub Tracked : String → Property
Tracked u t rel = (tracked_in u t || is_released u rel) ≡ true

-- Releases only grow, and so does the outbox but for what is released.
abbrev Releasing : String → String → Property
Releasing u v t rel = Tracked u t rel × (is_released v rel ≡ true)

tracked-delete :
    (u v : String) (t : Tables) (rel : List String)
    → Releasing u v t rel
    → Tracked u
        (record t { multipart_abort_outbox = delete (of_upload v) t.multipart_abort_outbox })
        rel
tracked-delete u v t rel h = elim (Bool-cases (str_eq v u)) [
  | inl same ↦ or_intro_right _ _ (subst (λ x. is_released x rel ≡ true) ((eq_iff v u).0 same) h.1)
  | inr ne ↦
      or_map _ _ _ _
        (or_map _ _ _ _ (λ a. a)
          (any-delete (of_upload v) (of_upload u) t.multipart_abort_outbox
            (λ x e. ground (arith, eq_iff x.upload_id u, eq_iff x.upload_id v, eq_iff v u))))
        (λ b. b) h.0
]

delete-Keeps : (u v : String) → Keeps (Releasing u v) (delete_multipart_abort v)
unfolding delete_multipart_abort
delete-Keeps u v = Keeps-write _ _ (λ t rel h. (tracked-delete u v t rel h, h.1))

after_abort-Keeps : (u v : String) (b : Bool) → Keeps (Releasing u v) (after_abort v b)
unfolding after_abort
after_abort-Keeps u v false = Keeps-pure tt
after_abort-Keeps u v true =
    Keeps-bind _ _ (Keeps-attempt _ (delete-Keeps u v)) (λ _. Keeps-pure tt)

after_abort-Meets : (u v : String) → Meets (Releasing u v) (after_abort v true) (λ _. Tracked u)
after_abort-Meets u v = record { at = λ w h. ((after_abort-Keeps u v true).at w h).0 }

insert_abort-Keeps : (u : String) (e : AbortOutboxEntry) → Keeps (Tracked u) (insert_abort e)
unfolding insert_abort
insert_abort-Keeps u e = Keeps-write _ _ (λ t rel h.
    or_map _ _ _ _ (or_map _ _ _ _ (λ a. a) (any-add_abort u e t.multipart_abort_outbox)) (λ b. b)
      h)

pub enqueue-Keeps :
    (u : String) (e : AbortOutboxEntry) → Keeps (Tracked u) (enqueue_multipart_abort e)
unfolding enqueue_multipart_abort
enqueue-Keeps u e =
    Keeps-if _ _ _
      (Keeps-bind _ _ Keeps-now (λ n. insert_abort-Keeps u (record e { created_at = n })))
      (insert_abort-Keeps u e)

Tracked-released :
    (u v : String) (t : Tables) (rel : List String) → Tracked u t rel → Tracked u t (v ∷ rel)
unfolding any
Tracked-released u v t rel h = ground arith

released_self : (v : String) (rel : List String) → is_released v (v ∷ rel) ≡ true
unfolding any
released_self v rel = ground (arith, eq_iff v v)

-- After a successful call the upload is released; what follows may delete its record.
call_abandon-Keeps :
    (u v : String) (f : Bool → M (Unit {0}))
    → Keeps (Tracked u) (f false)
    → Meets (Releasing u v) (f true) (λ _. Tracked u)
    → Keeps (Tracked u) (call_abandon v >>= f)
unfolding call_abandon
call_abandon-Keeps u v f failed succeeded = record {
  at = λ w h. elim (Bool-cases (w.abort_succeeds w.turn)) [
    | inl e ↦ rw e (
        succeeded.at (record (next w) { released = v ∷ w.released })
          (Tracked-released u v w.tables w.released h, released_self v w.released))
    | inr e ↦ rw e (failed.at (next w) h)
  ];
}

-- Abandoning an upload keeps every upload tracked.
pub abandon-Keeps :
    (u : String) (e : Executor) (task : UploadTask) → Keeps (Tracked u) (abandon_task_upload e task)
unfolding abandon_task_upload
abandon-Keeps u e task = Keeps-if _ _ _ (Keeps-pure tt) (
    Keeps-bind _ _ (Keeps-attempt _ (enqueue-Keeps u (abort_of task 0))) (λ _.
      call_abandon-Keeps u task.upload_id (after_abort task.upload_id) (Keeps-pure tt)
        (after_abort-Meets u task.upload_id)))

record_attempt-Keeps :
    (u v : String) (at : ℕ) (msg : String)
    → Keeps (Tracked u) (record_multipart_abort_attempt v at msg)
unfolding record_multipart_abort_attempt
record_attempt-Keeps u v at msg =
    Keeps-bind _ _
      (Keeps-write _ _ (λ t rel h.
        or_map _ _ _ _
          (or_map _ _ _ _ (λ a. a)
            (any-update (of_upload v) (of_upload u) _ t.multipart_abort_outbox (λ x q p. q)))
          (λ b. b) h))
      (λ n. Keeps-if _ _ _ (Keeps-raise _) (Keeps-pure tt))

abort_failed-Keeps :
    (u : String) (entry : AbortOutboxEntry) (msg : String) (o : Option ℕ)
    → Keeps (Tracked u) (abort_failed entry msg o)
unfolding abort_failed
abort_failed-Keeps u entry msg none = Keeps-raise _
abort_failed-Keeps u entry msg (some d) = search (keeps_rules, record_attempt-Keeps u)

drain_entries-Keeps :
    (u msg : String) (l : List AbortOutboxEntry) → Keeps (Tracked u) (drain_entries msg l)
unfolding drain_entries abort_attempted
drain_entries-Keeps u msg [] = Keeps-pure tt
drain_entries-Keeps u msg (entry ∷ l) =
    call_abandon-Keeps u entry.upload_id
      (λ ok?. abort_attempted entry msg ok? >>= λ _. drain_entries msg l)
      (Keeps-bind _ _ (abort_failed-Keeps u entry msg (abort_backoff_delay entry.attempts))
        (λ _. drain_entries-Keeps u msg l))
      (Meets-bind (after_abort entry.upload_id true) _ (after_abort-Meets u entry.upload_id)
        (λ _. Meets-of_Keeps _ (drain_entries-Keeps u msg l)) (λ x t rel h. h))

due-Keeps : (u : String) (n limit : ℕ) → Keeps (Tracked u) (due_multipart_aborts n limit)
unfolding due_multipart_aborts
due-Keeps u n limit = Keeps-query _

drain-Keeps :
    (u : String) (e : Executor) (msg : String) → Keeps (Tracked u) (drain_abort_outbox e msg)
unfolding drain_abort_outbox
drain-Keeps u e msg =
    Keeps-if e.has_abandon _ _
      (Keeps-bind _ _ Keeps-now (λ n.
        Keeps-bind _ _ (Keeps-attempt _ (due-Keeps u n 100))
          (λ entries. drain_entries-Keeps u msg (or_none entries))))
      (Keeps-pure tt)

-- A round of the abort worker loses no upload: each upload that is tracked before is tracked after
-- it, whichever remote aborts and statements fail.
pub drain_abort_outbox-tracked :
    (u : String) (e : Executor) (msg : String) (w : World)
    → tracked u w ≡ true
    → tracked u (drain_abort_outbox e msg w).1 ≡ true
drain_abort_outbox-tracked u e msg w h = (drain-Keeps u e msg).at w h
