-- ===== src/Uploader/Discard.antt =====
-- Discarding an upload that cannot be resumed: what it destroys, and what it leaves owed.
use fileagent.Prelude.{
  String, ◌≡◌, refl, sym, subst, Bool, true, ◌/◌, ◌==◌, arith, any, if◌then◌else◌, ◌⊎◌, Bool-cases,
  inl, inr,
}
use fileagent.Queue.Types.{AbortOutboxEntry}
use fileagent.Queue.Monad as Q
use fileagent.Queue.Tasks.{abort_of, insert_abort}
use fileagent.Queue.Aborts.{of_upload, enqueue_multipart_abort}
use fileagent.Queue.Tracking.{any-add_abort_self}
use fileagent.Uploader.Types.{
  no_such_upload, other, Answer, answer, refusal, ObjectStore, Config, discard_failed, Site,
  Attempt, ok, err, M, ◌>>=◌, get_task, call, queued,
}
use fileagent.Uploader.Multipart.{abort, forget_intent, after_intent, discard_stale_upload}
use fileagent.Uploader.File.{is_gone}

-- An abort record of the upload is in the outbox.
abbrev pub is_owed : String → Q.World → Bool
is_owed id w = any (of_upload id) w.tables.multipart_abort_outbox

insert_abort-is_owed :
    (e : AbortOutboxEntry) (w : Q.World)
    → ((insert_abort e w).0 ≡ Q.ok tt)
    → is_owed e.upload_id (insert_abort e w).1 ≡ true
unfolding insert_abort Q.exec
insert_abort-is_owed e w h = elim (Bool-cases (w.fails w.turn)) [
  | inl bad ↦ absurd (ground arith)
  | inr good ↦ rw good (any-add_abort_self e w.tables.multipart_abort_outbox)
]

enqueue_multipart_abort-is_owed :
    (e : AbortOutboxEntry) (w : Q.World)
    → (enqueue_multipart_abort e w).0 ≡ Q.ok tt
    → is_owed e.upload_id (enqueue_multipart_abort e w).1 ≡ true
unfolding enqueue_multipart_abort Q.now
enqueue_multipart_abort-is_owed e w h = elim (Bool-cases (e.created_at == 0)) [
  | inl fresh ↦ rw fresh (
      insert_abort-is_owed (record e { created_at = w.clock w.turn / 1000 }) (Q.next w)
        (rw fresh at h))
  | inr dated ↦ rw dated (insert_abort-is_owed e w (rw dated at h))
]

module _ {S : Type 0} (store : ObjectStore S) (cfg : Config) where
  -- What the object store answers to the abort of the upload.
  abbrev pub abort_answer : String → Site S → Answer (Unit {0})
  abort_answer id s = (store.abort_multipart_upload s.task.bucket s.task.storage_path id s.store).0

  forgotten :
      (id : String) (a : Answer (Unit {0})) (s : Site S)
      → is_owed id s.queue ≡ true
      → ((forget_intent store cfg id a s).0 ≡ ok tt)
        × ((is_gone a ≡ true) ⊎ (is_owed id (forget_intent store cfg id a s).1.queue ≡ true))
  unfolding queued
  forgotten id (refusal other) s h = (refl, inr h)
  forgotten id (refusal no_such_upload) s h = (ground arith, inl refl)
  forgotten id (answer u) s h = (ground arith, inl refl)

  -- The discard failed before the object store was asked for anything, or it has succeeded, and then
  -- the store has answered that the upload is gone, or the upload is owed.
  abbrev pub Discarded : String → Site S → Attempt (Unit {0}) × Site S → Type 0
  Discarded id s r =
      ((r.0 ≡ err discard_failed) × (r.1.store ≡ s.store))
      ⊎ ((r.0 ≡ ok tt) × ((is_gone (abort_answer id s) ≡ true) ⊎ (is_owed id r.1.queue ≡ true)))

  intended :
      (id : String) (r : Q.Result (Unit {0})) (s : Site S)
      → (r ≡ Q.ok tt → is_owed id s.queue ≡ true)
      → Discarded id s (after_intent store cfg id r s)
  unfolding abort get_task call
  intended id (Q.err e) s h = inl (refl, refl)
  intended id (Q.ok u) s h =
      inr (forgotten id (abort_answer id s) (abort store cfg id s).1 (h refl))

  abbrev recording : String → M S (Unit {0})
  recording id = do
    t ← get_task
    recorded ← queued (enqueue_multipart_abort (abort_of (record t { upload_id = id }) 0))
    after_intent store cfg id recorded

  -- With a queue, discarding an upload either fails before the object store has been asked for
  -- anything, or succeeds, and then the store has answered that the upload is gone or an abort record
  -- of it is in the outbox.
  pub discard_stale_upload-Discarded :
      cfg.has_queue ≡ true
      → (id : String) (s : Site S) → Discarded id s (discard_stale_upload store cfg id s)
  unfolding discard_stale_upload get_task queued
  discard_stale_upload-Discarded q id s =
      let e : AbortOutboxEntry = abort_of (record s.task { upload_id = id }) 0 in
      let run = enqueue_multipart_abort e s.queue in
      subst
        (λ b.
          Discarded id s
            ((if b then recording id else (abort store cfg id >>= forget_intent store cfg id)) s))
        (sym q)
        (intended id run.0 (record s { queue = run.1 }) (enqueue_multipart_abort-is_owed e s.queue))
