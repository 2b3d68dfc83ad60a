-- ===== src/Filer/Host.antt =====
-- What the adapter of controlplane/internal/storage/seaweedfs keeps, and what it meets outside: the
-- database, the object store, the filer and the clock. Every outside call takes the next turn, and
-- the oracles say what it meets there, so that a theorem over all hosts is over all schedules of
-- failures.
use fileagent.Prelude.{ℕ, suc, Bool, Option, List, if◌then◌else◌}
use fileagent.Prelude.Action
pub use fileagent.Prelude.Action.{ok, err, pure, raise, attempt, continue, ◌>>=◌, ◌>>◌}
use fileagent.Prelude.Int.{ℤ}
use fileagent.Filer.Paths.{Text}
use fileagent.Filer.Translate.{Change, Response}

-- storageevent.Kind
pub data Kind : Type 0 where
  object_created object_removed : Kind

-- storageevent.Event, from a read-back: its `Seq` is empty and its `Source` is storage_readback.
pub record StorageEvent : Type 0 where
  pub kind : Kind
  pub bucket : Text
  pub key : Text
  pub size : ℤ
  pub etag : Text
  pub observed_at : ℤ

-- storageevent.RowState
pub record RowState : Type 0 where
  pub found : Bool
  pub status : Text
  pub size : ℤ
  pub etag : Text

pub record ObjectInfo : Type 0 where
  pub size : ℤ
  pub etag : Text

-- How StatObject answers: `absent` is ErrObjectAbsent.
pub data Stat : Type 0 where
  present : ObjectInfo → Stat
  absent : Stat
  failed : Stat

-- `unknown_bucket` is indexer.ErrUnknownBucket, `suppressed` is storageevent.ErrSuppressed,
-- `cancelled` is the error of the context, `outside` any other failure.
pub data Error : Type 0 where
  unknown_bucket suppressed cancelled outside : Error

abbrev pub Result : Type 0 → Type 0
Result A = Action.Result Error A

-- The rows of storage_event_marks, by their reason: the window of a gap, the cursor that is too old
-- with the earliest log, and the bucket with its live rows.
pub data Mark : Type 0 where
  gap : ℤ → ℤ → Mark
  cursor_before_earliest_log : ℤ → Text → Mark
  bucket_removed_mark : Text → ℕ → Mark

-- Why processChange counts a change as processed.
pub data Handling : Type 0 where
  applied : StorageEvent → Handling
  foreign_bucket : StorageEvent → Handling
  confirmed : StorageEvent → RowState → Handling
  bucket_marked : ℕ → Handling

-- `has_reporter` is `a.reporter != nil`. The margin and the interval are in nanoseconds.
pub record Config : Type 0 where
  pub resume_margin : ℤ
  pub apply_max_retries : ℕ
  pub cursor_flush_interval : ℤ
  pub has_reporter : Bool

-- `handled` lists what processChange has processed, the newest first: the code does not keep it, and
-- the theorems read it. `last_declared` is the variable that Run shares with its streams.
pub record Host : Type 0 where
  pub turn : ℕ
  pub cursor : Option ℤ
  pub last_declared : ℤ
  pub last_flush : Option ℤ
  pub marks : List Mark
  pub epoch : ℕ
  pub unknown_buckets : ℕ
  pub handled : List (Change × Handling)
  pub is_cancelled : ℕ → Bool
  pub store_fails : ℕ → Bool
  pub db_now : ℕ → Option ℤ
  pub local_now : ℕ → ℤ
  pub stat : ℕ → Text → Text → Stat
  pub sink : ℕ → StorageEvent → Result (Unit {0})
  pub row_state : ℕ → Text → Text → Option RowState
  pub active_entries : ℕ → Text → ℕ
  pub dial_fails : ℕ → Bool
  pub subscribe_fails : ℕ → Bool
  -- the responses of a stream that is opened at this turn from this time, until it breaks
  pub deliver : ℕ → ℤ → List Response
  -- the first entry of a directory of the filer, and nothing where the listing fails
  pub first_entry : ℕ → Text → Option Text

abbrev pub M : Type 0 → Type 0
M A = Action.Action Host Error A

abbrev pub next : Host → Host
next w = record w { turn = suc w.turn }

module _ {A : Type 0} where
  -- A call that reads at its turn.
  unfoldable pub ask : (Host → A) → M A
  ask f w = (ok (f w), next w)

-- A statement against the database: it fails, or it writes.
unfoldable pub write : (Host → Host) → M (Unit {0})
write f w = if w.store_fails w.turn then (err outside, next w) else (ok tt, f (next w))

-- A variable of the adapter is set.
unfoldable pub set : (Host → Host) → M (Unit {0})
set f w = (ok tt, f w)

-- a.sleep: the context may be cancelled meanwhile.
unfoldable pub sleep : M (Unit {0})
sleep w = if w.is_cancelled w.turn then (err cancelled, next w) else (ok tt, next w)
