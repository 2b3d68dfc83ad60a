-- ===== src/Uploader/Types.antt =====
-- agent/internal/uploader: what an attempt to upload works on. The object store is a parameter: a
-- record of its calls over a state of its own. So are the hashes, the file and the clock.
use fileagent.Prelude.{ℕ, suc, String, Bool, Option, List}
use fileagent.Prelude.Int.{ℤ}
use fileagent.Filer.Paths.{Text}
use fileagent.Queue.Types.{UploadTask}
use fileagent.Queue.Monad as Q

-- minio.CompletePart
pub record CompletePart : Type 0 where
  pub part_number : ℕ
  pub etag : Text

-- `no_such_upload` is a response of the code NoSuchUpload.
pub data StoreError : Type 0 where
  no_such_upload other : StoreError

pub data Answer (A : Type 0) : Type 0 where
  answer : A → Answer A
  refusal : StoreError → Answer A

-- The interface ObjectStore: bucket, object, and what each call needs besides. A call that takes a
-- body takes the bytes that are delivered to it and their declared number.
pub record ObjectStore (S : Type 0) : Type 0 where
  pub put_object : String → String → List ℕ → ℕ → S → Answer Text × S
  pub new_multipart_upload : String → String → S → Answer String × S
  pub put_object_part : String → String → String → ℕ → List ℕ → ℕ → S → Answer Text × S
  pub list_object_parts : String → String → String → S → Answer (List CompletePart) × S
  pub complete_multipart_upload : String → String → String → List CompletePart → S → Answer Text × S
  pub abort_multipart_upload : String → String → String → S → Answer (Unit {0}) × S

-- Sizes are in bytes. `has_queue` is `u.queue != nil`; `marshal_parts` is the JSON text of a list of
-- parts; `sha256` and `md5` are the digests in hexadecimal.
pub record Config : Type 0 where
  pub part_size : ℕ
  pub threshold : ℕ
  pub has_queue : Bool
  pub marshal_parts : List CompletePart → String
  pub sha256 : List ℕ → Text
  pub md5 : List ℕ → Text

-- uploader.UploadResult
pub record Delivered : Type 0 where
  pub storage_path : String
  pub bucket : String
  pub sha256 : Text
  pub etag : Text
  pub size_bytes : ℕ

-- The errors of an attempt, by where they arise; `stale_remote_parts` is errStaleRemoteParts.
pub data Failure : Type 0 where
  stat_failed tail_refused discard_failed verify_failed stale_remote_parts initiate_failed : Failure
  persist_failed read_failed put_failed count_mismatch etag_mismatch complete_failed : Failure

-- `read` is what a reading of the file gives at its turn, and nothing where it cannot be opened;
-- `stat` is its modification time and size. `task` is the task that the attempt may change.
pub record Site (S : Type 0) : Type 0 where
  pub turn : ℕ
  pub task : UploadTask
  pub queue : Q.World
  pub store : S
  pub read : ℕ → Option (List ℕ)
  pub stat : ℕ → Option (ℤ × ℕ)

pub data Attempt (A : Type 0) : Type 0 where
  ok : A → Attempt A
  err : Failure → Attempt A

abbrev pub M : Type 0 → Type 0 → Type 0
M S A = Site S → Attempt A × Site S

module _ {S : Type 0} where
  abbrev pub next : Site S → Site S
  next s = record s { turn = suc s.turn }

module _ {S A : Type 0} where
  abbrev pub pure : A → M S A
  pure a s = (ok a, s)

  abbrev pub raise : Failure → M S A
  raise e s = (err e, s)

  -- The error becomes a value.
  abbrev pub attempt : M S A → M S (Attempt A)
  attempt m s = let (r, s') = m s in (ok r, s')

module _ {S A B : Type 0} where
  abbrev pub continue : Attempt A → (A → M S B) → M S B
  continue (ok a) f s = f a s
  continue (err e) f s = (err e, s)

  infixl 5 ◌>>=◌ ◌>>◌
  abbrev pub ◌>>=◌ : M S A → (A → M S B) → M S B
  ◌>>=◌ m f s = let (r, s') = m s in continue r f s'

  abbrev pub ◌>>◌ : M S A → M S B → M S B
  m >> k = m >>= λ _. k

module _ {S A : Type 0} where
  -- A reading of the file, or of its state.
  unfoldable pub ask : (Site S → A) → M S A
  ask f s = (ok (f s), record s { turn = suc s.turn })

  -- A call of the object store.
  unfoldable pub call : (S → Answer A × S) → M S (Answer A)
  call f s = let (a, t) = f s.store in (ok a, record s { store = t })

  -- A call of the queue.
  unfoldable pub queued : Q.M A → M S (Q.Result A)
  queued m s = let (r, w) = m s.queue in (ok r, record s { queue = w })

module _ {S : Type 0} where
  unfoldable pub get_task : M S UploadTask
  get_task s = (ok s.task, s)

  unfoldable pub set_task : (UploadTask → UploadTask) → M S (Unit {0})
  set_task f s = (ok tt, record s { task = f s.task })
