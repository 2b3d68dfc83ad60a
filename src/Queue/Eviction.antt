-- ===== src/Queue/Eviction.antt =====
-- DeleteOldestEvictable of queue.go: whom it drops, and what becomes of the upload of the row.
use mathlib.Core.List.{Memᴰ}
use mathlib.Core.Option.{some-injective}
use fileagent.Prelude.{
  ℕ, zero, suc, ◌/◌, ◌<◌, String, ◌≡◌, ◌≢◌, refl, subst, subst₂, sym, true, false, ◌||◌, Option,
  none, some, List, [], ◌∷◌, arith, str_eq, if◌then◌else◌, any, count_where, Bool-cases, inl, inr,
  eq_iff,
}
use fileagent.Queue.Types.{UploadTask, Tables}
use fileagent.Queue.Monad.{World, transaction, Result, ok, err, ◌>>=◌, query, continue, pure}
use fileagent.Queue.Sql.{delete}
use fileagent.Queue.Rows.{
  any-delete_apart, any-false_of_imp, any-mem, Every, Every-select, Every-order_by, Every-take,
}
use fileagent.Queue.Tasks.{
  has_id, older, add_abort, abort_of, can_evict, still_evictable, Choice, settled, again,
  oldest_evictable, evict_selected, evict_once, evict_loop, delete_oldest_evictable,
}
use fileagent.Queue.Aborts.{of_upload}
use fileagent.Queue.Tracking.{
  holds, tracked_in, tracked, stale, any-add_abort, any-add_abort_self, other_upload, or_map,
  or_intro_right,
}

-- PRIMARY KEY of upload_tasks.
abbrev pub UniqueIds : List UploadTask → Type 0
UniqueIds [] = Unit
UniqueIds (t ∷ ts) = (any (has_id t.id) ts ≡ false) × UniqueIds ts

str_ne_of_eq : (a b : String) → str_eq a b ≡ true → str_eq b "" ≡ false → str_eq a "" ≡ false
str_ne_of_eq a b same ne = ground (arith, eq_iff a b, eq_iff a "", eq_iff b "")

unique_stale :
    (l : List UploadTask) {t : UploadTask} → UniqueIds l → Memᴰ t l → any (stale t) l ≡ false
unfolding any
unique_stale [] u m = refl
unique_stale (x ∷ xs) {t = t} u (Memᴰ.head e) =
    subst (λ y. any (stale y) (x ∷ xs) ≡ false) (sym e)
      (ground (
        arith,
        eq_iff x.upload_id x.upload_id,
        any-false_of_imp (has_id x.id) (stale x) xs (λ y h. ground arith) u.0,
      ))
unique_stale (x ∷ xs) {t = t} u (Memᴰ.tail m) =
    ground
      (arith, unique_stale xs u.1 m, any-mem (has_id x.id) xs m, eq_iff t.id x.id, eq_iff x.id t.id)

-- The oldest evictable task is a row of the table, may be evicted, and is not excluded.
abbrev pub IsVictim : String → List UploadTask → UploadTask → Type 0
IsVictim exclude_id l t = Memᴰ t l × (can_evict exclude_id t ≡ true)

oldest-Every :
    (exclude_id : String) (t : Tables)
    → Every (IsVictim exclude_id t.upload_tasks) (oldest_evictable exclude_id t)
oldest-Every exclude_id t = Every-take _ 1 _ (
    Every-order_by _ older _
      (Every-select _ (can_evict exclude_id) t.upload_tasks (λ x m e. (m, e))))

abbrev first : List UploadTask → Option UploadTask
first [] = none
first (t ∷ _) = some t

first-Every :
    (P : UploadTask → Type 0) (l : List UploadTask) {t : UploadTask}
    → Every P l
    → first l ≡ some t
    → P t
first-Every P [] hs e = cc
first-Every P (x ∷ xs) hs e = subst P (some-injective _ _ e) hs.0

abbrev dropped? : Result Choice → Option UploadTask
dropped? (ok (settled r)) = r
dropped? (ok again) = none
dropped? (err _) = none

-- A committed eviction of `t`.
abbrev pub evicted : UploadTask → ℕ → Tables → Tables
evicted t k s =
    let kept = delete (still_evictable t) s.upload_tasks in
    if str_eq t.upload_id "" then record s { upload_tasks = kept } else record s {
      upload_tasks = kept;
      multipart_abort_outbox = add_abort (abort_of t k) s.multipart_abort_outbox;
    }

abbrev evict_from : (Tables → List UploadTask) → World → Result Choice × World
evict_from g = transaction (query g >>= evict_selected)

module _ (g : Tables → List UploadTask) (w : World) where
  evict_from_dropped :
      {t : UploadTask}
      → dropped? (evict_from g w).0 ≡ some t
      → (first (g w.tables) ≡ some t)
        × ((evict_from g w).1.tables ≡ evicted t (w.clock (suc (suc w.turn)) / 1000) w.tables)
        × (0 < count_where (still_evictable t) w.tables.upload_tasks)
  unfolding transaction query evict_selected
  evict_from_dropped h = ground arith

  evict_from_kept : dropped? (evict_from g w).0 ≡ none → (evict_from g w).1.tables ≡ w.tables
  unfolding transaction query evict_selected
  evict_from_kept h = ground arith

  evict_from_released : (evict_from g w).1.released ≡ w.released
  unfolding transaction query evict_selected
  evict_from_released = ground arith

-- Either nothing is dropped and the tables stay, or an evictable row is, with its abort intent.
pub data Evicts (x : String) (s : Tables) (rel : List String)
    : Result (Option UploadTask) → World → Type 0 where
  nothing :
      {r : Result (Option UploadTask)} {w : World}
      → ((t : UploadTask) → r ≢ ok (some t))
      → w.tables ≡ s
      → w.released ≡ rel
      → Evicts x s rel r w
  drops :
      {r : Result (Option UploadTask)} {w : World} (t : UploadTask) (k : ℕ)
      → r ≡ ok (some t)
      → IsVictim x s.upload_tasks t
      → w.tables ≡ evicted t k s
      → 0 < count_where (still_evictable t) s.upload_tasks
      → w.released ≡ rel
      → Evicts x s rel r w

abbrev loop_rest : ℕ → String → Result Choice → World → Result (Option UploadTask) × World
loop_rest k x r = continue r (λ c. elim c [ settled o ↦ pure o | again ↦ evict_loop k x ])

-- One round and the rounds that follow it, by the result of the round.
evict_round-Evicts :
    (k : ℕ) (x : String) (w : World) (r : Result Choice)
    → (evict_once x w).0 ≡ r
    → Evicts x
        (evict_once x w).1.tables
        (evict_once x w).1.released
        (evict_loop k x (evict_once x w).1).0
        (evict_loop k x (evict_once x w).1).1
    → Evicts x w.tables w.released
        (loop_rest k x r (evict_once x w).1).0
        (loop_rest k x r (evict_once x w).1).1
unfolding evict_once
evict_round-Evicts k x w (err failure) e later =
    nothing (λ t p. cc) (evict_from_kept (oldest_evictable x) w (rw e))
      (evict_from_released (oldest_evictable x) w)
evict_round-Evicts k x w (ok (settled none)) e later =
    nothing (λ t p. cc) (evict_from_kept (oldest_evictable x) w (rw e))
      (evict_from_released (oldest_evictable x) w)
evict_round-Evicts k x w (ok (settled (some t))) e later =
    let (chosen, tables, found) = evict_from_dropped (oldest_evictable x) w {t = t} (rw e) in
    drops t (w.clock (suc (suc w.turn)) / 1000) refl
      (first-Every (IsVictim x w.tables.upload_tasks) _ (oldest-Every x w.tables) chosen) tables
      found (evict_from_released (oldest_evictable x) w)
evict_round-Evicts k x w (ok again) e later =
    subst₂
      (λ s rel.
        Evicts x s rel (loop_rest k x (ok again) (evict_from (oldest_evictable x) w).1).0
          (loop_rest k x (ok again) (evict_from (oldest_evictable x) w).1).1)
      (evict_from_kept (oldest_evictable x) w (rw e)) (evict_from_released (oldest_evictable x) w)
      later

evict_loop-Evicts :
    (k : ℕ) (x : String) (w : World)
    → Evicts x w.tables w.released (evict_loop k x w).0 (evict_loop k x w).1
unfolding evict_loop
evict_loop-Evicts zero x w = nothing (λ t e. cc) refl refl
evict_loop-Evicts (suc k) x w =
    evict_round-Evicts k x w (evict_once x w).0 refl (evict_loop-Evicts k x (evict_once x w).1)

-- An eviction that answers with a task has removed the evictable rows with its id and recorded its
-- abort intent, the task being an evictable row other than the excluded; on every other answer,
-- errors included, the tables stay.
pub delete_oldest_evictable-Evicts :
    (x : String) (w : World)
    → Evicts x w.tables w.released (delete_oldest_evictable x w).0 (delete_oldest_evictable x w).1
unfolding delete_oldest_evictable
delete_oldest_evictable-Evicts x w = evict_loop-Evicts 8 x w

module _ (u : String) (t : UploadTask) (k : ℕ) (s : Tables) (ids : UniqueIds s.upload_tasks)
    (m : Memᴰ t s.upload_tasks) where
  holds-delete :
      str_eq t.upload_id u ≡ false
      → any (holds u) s.upload_tasks ≡ true
      → any (holds u) (delete (still_evictable t) s.upload_tasks) ≡ true
  holds-delete ne =
      any-delete_apart (stale t) (still_evictable t) (holds u) s.upload_tasks
        (λ y own found. other_upload u t y ne own (ground arith))
        (unique_stale s.upload_tasks ids m)

  tracked-evicted :
      str_eq u "" ≡ false → tracked_in u s ≡ true → tracked_in u (evicted t k s) ≡ true
  tracked-evicted named h = elim (Bool-cases (str_eq t.upload_id u)) [
    | inl same ↦ rw (str_ne_of_eq t.upload_id u same named) (
        or_intro_right _ _ (
          subst (λ v. any (of_upload v) (add_abort (abort_of t k) s.multipart_abort_outbox) ≡ true)
            ((eq_iff t.upload_id u).0 same)
            (any-add_abort_self (abort_of t k) s.multipart_abort_outbox)))
    | inr ne ↦ elim (Bool-cases (str_eq t.upload_id "")) [
      | inl e ↦ rw e (or_map _ _ _ _ (holds-delete ne) (λ b. b) h)
      | inr e ↦ rw e (
          or_map _ _ _ _ (holds-delete ne) (any-add_abort u (abort_of t k) s.multipart_abort_outbox)
            h)
    ]
  ]

tracked-Evicts :
    (u x : String) (s : Tables) (rel : List String) {r : Result (Option UploadTask)} {w : World}
    → str_eq u "" ≡ false
    → UniqueIds s.upload_tasks
    → Evicts x s rel r w
    → (tracked_in u s || any (λ o. str_eq o u) rel) ≡ true
    → tracked u w ≡ true
tracked-Evicts u x s rel named ids (nothing _ same kept) h = rw (same, kept) h
tracked-Evicts u x s rel named ids (drops t k _ victim tables _ kept) h =
    rw (tables, kept) (or_map _ _ _ _ (tracked-evicted u t k s ids victim.0 named) (λ b. b) h)

-- Eviction loses no upload: an upload that was tracked before is tracked after it, whatever fails,
-- in a table whose ids are unique.
pub delete_oldest_evictable-tracked :
    (u exclude_id : String) (w : World)
    → str_eq u "" ≡ false
    → UniqueIds w.tables.upload_tasks
    → tracked u w ≡ true
    → tracked u (delete_oldest_evictable exclude_id w).1 ≡ true
delete_oldest_evictable-tracked u x w named ids h =
    tracked-Evicts u x w.tables w.released named ids (delete_oldest_evictable-Evicts x w) h
