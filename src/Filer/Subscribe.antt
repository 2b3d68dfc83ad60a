-- ===== src/Filer/Subscribe.antt =====
-- controlplane/internal/storage/seaweedfs/subscribe.go and readback.go: the subscription loop.
use fileagent.Prelude.{
  ℕ, zero, suc, ◌+◌, Bool, true, false, ◌&&◌, ◌||◌, not, Option, none, some, List, [], ◌∷◌,
  if◌then◌else◌,
}
use fileagent.Prelude.Int.{ℤ, pos, leb_ℤ, ltb_ℤ, ◌=ℤ◌, ◌-ℤ◌}
use fileagent.Filer.Paths.{Text, codes, text_eq}
use fileagent.Filer.Translate.{
  ChangeKind, created, removed, bucket_removed, Change, Response, translate, is_idle_heartbeat,
}
use fileagent.Filer.Cursor.{resume_from, gap_window}
use fileagent.Filer.Host.{
  object_created, object_removed, StorageEvent, RowState, Stat, present, absent, failed,
  unknown_bucket, suppressed, cancelled, outside, Result, ok, err, Mark, gap, bucket_removed_mark,
  Handling, applied, foreign_bucket, confirmed, bucket_marked, Config, M, pure, raise, attempt, ask,
  write, set, sleep, ◌>>=◌, ◌>>◌,
}

-- readBack: the clock of the database first, and then the object.
abbrev pub fact : Change → ℤ → Stat → Result StorageEvent
fact c at (present info) = ok (record {
  kind = object_created;
  bucket = c.bucket;
  key = c.key;
  size = info.size;
  etag = info.etag;
  observed_at = at;
})
fact c at absent = ok (record {
  kind = object_removed;
  bucket = c.bucket;
  key = c.key;
  size = pos 0;
  etag = [];
  observed_at = at;
})
fact c at failed = err outside

abbrev pub return : {A : Type 0} → Result A → M A
return (ok a) = pure a
return (err e) = raise e

abbrev pub stat_at : Change → Option ℤ → M StorageEvent
stat_at c none = raise outside
stat_at c (some at) = ask (λ w. w.stat w.turn c.bucket c.key) >>= λ s. return (fact c at s)

unfoldable pub read_back : Change → M StorageEvent
unfolding ask
read_back c = ask (λ w. w.db_now w.turn) >>= stat_at c

unfoldable pub same_state_as_fact : StorageEvent → RowState → Bool
unfolding text_eq
same_state_as_fact e st = elim e.kind [
  | object_created ↦
      st.found
      && text_eq st.status (codes "completed")
      && (st.size =ℤ e.size)
      && text_eq st.etag e.etag
  | object_removed ↦ not st.found || text_eq st.status (codes "deleted")
]

-- What one attempt settles: `none` asks for another.
abbrev pub after_row_state : StorageEvent → Option RowState → Option Handling
after_row_state e none = none
after_row_state e (some st) = if same_state_as_fact e st then some (confirmed e st) else none

unfoldable pub after_apply : Config → StorageEvent → Result (Unit {0}) → M (Option Handling)
unfolding same_state_as_fact ask set
after_apply cfg e (ok _) = pure (some (applied e))
after_apply cfg e (err unknown_bucket) = do
  set (λ w. record w { unknown_buckets = w.unknown_buckets + 1 })
  pure (some (foreign_bucket e))
after_apply cfg e (err suppressed) =
    if cfg.has_reporter
    then (do st ← ask (λ w. w.row_state w.turn e.bucket e.key); pure (after_row_state e st))
    else pure none
after_apply cfg e (err cancelled) = pure none
after_apply cfg e (err outside) = pure none

unfoldable pub after_read_back : Config → Result StorageEvent → M (Option Handling)
unfolding after_apply ask
after_read_back cfg (err _) = pure none
after_read_back cfg (ok e) = do r ← ask (λ w. w.sink w.turn e); after_apply cfg e r

unfoldable pub try_change : Config → Change → M (Option Handling)
unfolding read_back after_read_back
try_change cfg c = do e ← attempt (read_back c); after_read_back cfg e

-- The change is processed: for the theorems, it is listed with the reason.
unfoldable pub settle : Change → Handling → M (Unit {0})
unfolding set
settle c h = set (λ w. record w { handled = (c, h) ∷ w.handled })

abbrev pub settle_or : Change → M (Unit {0}) → Option Handling → M (Unit {0})
settle_or c again (some h) = settle c h
settle_or c again none = again

-- The attempts that are left; all but the first wait.
unfoldable pub change_loop : ℕ → Config → Bool → Change → M (Unit {0})
unfolding try_change settle sleep
change_loop zero cfg first? c = raise outside
change_loop (suc left) cfg first? c =
    let later = change_loop left cfg false c in
    (if first? then pure tt else sleep) >> (try_change cfg c >>= settle_or c later)

-- CountActiveEntries fails as any statement does.
unfoldable pub count_active_entries : Text → M ℕ
unfolding write ask
count_active_entries bucket = do write (λ w. w); ask (λ w. w.active_entries w.turn bucket)

unfoldable pub record_mark : Mark → M (Unit {0})
unfolding write
record_mark m = write (λ w. record w { marks = m ∷ w.marks })

unfoldable pub handle_bucket_removed : Change → M (Unit {0})
unfolding count_active_entries record_mark settle
handle_bucket_removed c = do
  n ← count_active_entries c.bucket
  record_mark (bucket_removed_mark c.bucket n)
  settle c (bucket_marked n)

abbrev pub is_bucket_removed : ChangeKind → Bool
is_bucket_removed bucket_removed = true
is_bucket_removed created = false
is_bucket_removed removed = false

unfoldable pub process_change : Config → Change → M (Unit {0})
unfolding change_loop handle_bucket_removed
process_change cfg c =
    if is_bucket_removed c.kind
    then handle_bucket_removed c
    else change_loop (suc cfg.apply_max_retries) cfg true c

unfoldable pub process_all : Config → List Change → M (Unit {0})
unfolding process_change
process_all cfg [] = pure tt
process_all cfg (c ∷ cs) = do process_change cfg c; process_all cfg cs

unfoldable pub record_gap_window : Config → ℤ → M (Unit {0})
unfolding record_mark set gap_window
record_gap_window cfg h w =
    let (from, to) = gap_window w.last_declared h cfg.resume_margin in record_mark (gap from to) w

-- `!a.lastFlush.IsZero() && time.Since(a.lastFlush) < a.cfg.CursorFlushInterval`
abbrev pub is_throttled : Config → Option ℤ → ℤ → Bool
is_throttled cfg none now = false
is_throttled cfg (some flushed) now = ltb_ℤ (now -ℤ flushed) cfg.cursor_flush_interval

-- SaveCursor keeps the persisted value monotonic, as its contract asks.
abbrev pub saved : ℤ → Option ℤ → Option ℤ
saved ts none = some ts
saved ts (some old) = if leb_ℤ old ts then some ts else some old

unfoldable pub persist_cursor : Config → ℤ → M (Unit {0})
unfolding ask write set ◌-ℤ◌
persist_cursor cfg ts w =
    if leb_ℤ ts w.last_declared
    then (ok tt, w)
    else (do
      now ← ask (λ v. v.local_now v.turn)
      if is_throttled cfg w.last_flush now then pure tt else (do
        write (λ v. record v { cursor = saved ts v.cursor })
        flushed ← ask (λ v. v.local_now v.turn)
        set (λ v. record v { last_declared = ts; last_flush = some flushed })))
        w

-- The loop of runStream over what the stream delivers, until Recv fails.
abbrev pub gap_first : Config → Bool → ℤ → M (Unit {0})
gap_first cfg first? ts = if first? then record_gap_window cfg ts else pure tt

unfoldable pub stream_loop : Config → Bool → List Response → M (Unit {0})
unfolding record_gap_window persist_cursor process_all is_idle_heartbeat
stream_loop cfg first? [] = raise outside
stream_loop cfg first? (r ∷ rs) = elim (is_idle_heartbeat (some r)) [
  | some ts ↦ do gap_first cfg first? ts; persist_cursor cfg ts; stream_loop cfg false rs
  | none ↦ do process_all cfg (translate (some r)); stream_loop cfg first? rs
]

abbrev pub unless : Bool → M (Unit {0})
unless true = raise outside
unless false = pure tt

unfoldable pub run_stream : Config → M (Unit {0})
unfolding stream_loop ask set resume_from
run_stream cfg = do
  refused ← ask (λ w. w.dial_fails w.turn)
  unless refused
  set (λ w. record w { epoch = w.epoch + 1 })
  rejected ← ask (λ w. w.subscribe_fails w.turn)
  unless rejected
  rs ← ask (λ w. w.deliver w.turn (resume_from w.last_declared cfg.resume_margin))
  stream_loop cfg true rs
