-- ===== src/Queue/Monad.antt =====
-- Statements against the database, with their failures: what `db.Exec`, `db.Query`, `db.Begin`,
-- `tx.Commit` and `tx.Rollback` do to the tables in agent/internal/queue. Every outside call (a
-- statement, a begin, a commit, a reading of the clock, a remote abort) takes the next turn, and
-- the oracles say for each turn whether the statement fails, what the clock shows, and whether the
-- remote abort succeeds. A theorem over all worlds is a theorem over all schedules of failures.
use fileagent.Prelude.{
  ℕ, suc, ◌/◌, String, Bool, ◌≡◌, refl, ◌⊎◌, inl, inr, List, if◌then◌else◌, arith, Bool-cases,
}
use fileagent.Queue.Types.{Tables}

-- `not_found` is ErrTaskNotFound, `no_rows` is sql.ErrNoRows, `unavailable` any failure of SQLite
-- itself, `constraint` a violated PRIMARY KEY, `index_range` the panic of an index out of range and
-- `malformed` a payload that protobuf does not read.
pub data Error : Type 0 where
  unavailable constraint not_found no_rows index_range malformed : Error

pub data Result {ℓ} (A : Type ℓ) : Type ℓ where
  ok : A → Result A
  err : Error → Result A

pub record World : Type 0 where
  pub tables : Tables
  pub turn : ℕ
  pub fails : ℕ → Bool
  -- milliseconds since 1970
  pub clock : ℕ → ℕ
  -- whether the remote abort made at this turn succeeds
  pub abort_succeeds : ℕ → Bool
  -- the uploads that a remote abort has released
  pub released : List String

abbrev pub M : Type 0 → Type 0
M A = World → Result A × World

abbrev pub next : World → World
next w = record w { turn = suc w.turn }

module _ {A : Type 0} where
  abbrev pub pure : A → M A
  pure a w = (ok a, w)

  abbrev pub raise : Error → M A
  raise e w = (err e, w)

  -- The error becomes a value, as a caller sees it that tests `err != nil`.
  abbrev pub attempt : M A → M (Result A)
  attempt m w = let (r, w') = m w in (ok r, w')

module _ {A B : Type 0} where
  abbrev pub continue : Result A → (A → M B) → M B
  continue (ok a) f w = f a w
  continue (err e) f w = (err e, w)

  infixl 5 ◌>>=◌
  abbrev pub ◌>>=◌ : M A → (A → M B) → M B
  ◌>>=◌ m f w = let (r, w') = m w in continue r f w'

infixl 5 ◌>>◌
abbrev pub ◌>>◌ : {A B : Type 0} → M A → M B → M B
m >> k = m >>= λ _. k

-- time.Now().Unix()
unfoldable pub now : M ℕ
now w = (ok (w.clock w.turn / 1000), next w)

-- time.Now().UnixMilli()
unfoldable pub now_millis : M ℕ
now_millis w = (ok (w.clock w.turn), next w)

-- A statement: SQLite refuses it, or it runs as a whole.
module _ {A : Type 0} where
  abbrev settle : Result (A × Tables) → World → Result A × World
  settle (ok (a, t)) w = (ok a, record w { tables = t })
  settle (err e) w = (err e, w)

  unfoldable pub exec : (Tables → Result (A × Tables)) → M A
  exec f w = if w.fails w.turn then (err unavailable, next w) else settle (f w.tables) (next w)

  -- A statement that only reads.
  unfoldable pub query : (Tables → A) → M A
  query f w = if w.fails w.turn then (err unavailable, next w) else (ok (f w.tables), next w)

-- How the body of a transaction ends when no statement failed.
pub data Ending (A : Type 0) : Type 0 where
  commit : A → Ending A
  rollback : A → Ending A

module _ {A : Type 0} where
  -- `before` are the tables before the begin: they come back unless the commit succeeds.
  abbrev pub finish : Tables → Result (Ending A) → World → Result A × World
  finish before (ok (commit a)) w =
      if w.fails w.turn
      then (err unavailable, record (next w) { tables = before })
      else (ok a, next w)
  finish before (ok (rollback a)) w = (ok a, record w { tables = before })
  finish before (err e) w = (err e, record w { tables = before })

  unfoldable pub transaction : M (Ending A) → M A
  transaction body w =
      if w.fails w.turn
      then (err unavailable, next w)
      else let (r, w') = body (next w) in finish w.tables r w'

  -- Atomicity: a transaction that returns an error leaves every table as it was.
  pub transaction_error :
      (body : M (Ending A)) (w : World) {e : Error}
      → (transaction body w).0 ≡ err e
      → (transaction body w).1.tables ≡ w.tables
  unfolding transaction
  transaction_error body w h = ground arith

  -- A transaction that answers has committed what its body wrote, or has rolled back.
  transaction_answer :
      (before : Tables) (r : Result (Ending A)) (w : World) {a : A}
      → (finish before r w).0 ≡ ok a
      → ((r ≡ ok (commit a)) × ((finish before r w).1.tables ≡ w.tables))
        ⊎ ((r ≡ ok (rollback a)) × ((finish before r w).1.tables ≡ before))
  transaction_answer before (ok (commit b)) w h = elim (Bool-cases (w.fails w.turn)) [
    | inl e ↦ inl (cc, ground arith)
    | inr e ↦ inl (ground arith, ground arith)
  ]
  transaction_answer before (ok (rollback b)) w h = inr (cc, refl)
  transaction_answer before (err x) w h = inl (cc, cc)

  pub transaction_ok :
      (body : M (Ending A)) (w : World) {a : A}
      → (transaction body w).0 ≡ ok a
      → (((body (next w)).0 ≡ ok (commit a))
          × ((transaction body w).1.tables ≡ (body (next w)).1.tables))
        ⊎ (((body (next w)).0 ≡ ok (rollback a)) × ((transaction body w).1.tables ≡ w.tables))
  unfolding transaction
  transaction_ok body w h = elim (Bool-cases (w.fails w.turn)) [
    | inl e ↦ inl (ground arith, ground arith)
    | inr e ↦ rw e (transaction_answer w.tables (body (next w)).0 (body (next w)).1 (rw e at h))
  ]

-- What a block that answers has done: its first action answered, and then the rest.
module _ {A B : Type 0} where
  continue_ok :
      (r : Result A) (f : A → M B) (w : World) {b : B}
      → (continue r f w).0 ≡ ok b
      → (a : A) × (r ≡ ok a) × ((f a w).0 ≡ ok b) × (continue r f w ≡ f a w)
  continue_ok (ok a) f w h = (a, refl, h, refl)
  continue_ok (err e) f w h = absurd (cc)

  pub bind_ok :
      (m : M A) (f : A → M B) (w : World) {b : B}
      → ((m >>= f) w).0 ≡ ok b
      → (a : A) × ((m w).0 ≡ ok a) × ((f a (m w).1).0 ≡ ok b) × ((m >>= f) w ≡ f a (m w).1)
  bind_ok m f w h = continue_ok (m w).0 f (m w).1 h
