-- ===== src/Indexer/Ledger.antt =====
-- controlplane/internal/db/ingest.sql.go and ingest.go: the statements on file_entries, whose rows
-- are unique by bucket and path, and the guard by which an older observation is dropped.
use fileagent.Prelude.{
  ℕ, zero, suc, ◌-◌, String, Bool, true, false, ◌&&◌, ◌||◌, Option, none, some, List, [], ◌∷◌,
  length, take, leb, str_eq, if◌then◌else◌,
}
use fileagent.Prelude.Int.{ℤ, ltb_ℤ, ◌=ℤ◌}
use fileagent.Prelude.Action.{ok, err, pure, raise, ◌>>=◌}
use fileagent.Filer.Paths.{Text, text_eq}
use fileagent.Indexer.Types.{
  deleted, FileEntry, UpsertIndexedFileParams, DeleteIndexedFileParams, World, no_rows,
  statement_failed, M, next,
}

-- A statement that reads, and one that writes: each may fail.
unfoldable pub query : {A : Type 0} → (World → A) → M A
query f w = if w.outside.fails w.turn then (err statement_failed, next w) else (ok (f w), next w)

unfoldable pub execute : (World → World) → M (Unit {0})
execute f w = if w.outside.fails w.turn then (err statement_failed, next w) else (ok tt, f (next w))

-- A clock or a fresh identifier is read.
unfoldable pub ask : {A : Type 0} → (World → A) → M A
ask f w = (ok (f w), next w)

abbrev pub clock : World → ℤ
clock w = w.outside.now w.turn

abbrev pub padding : ℕ → Text → Text
padding zero t = t
padding (suc n) t = b'0' ∷ padding n t

-- lpad(t, 32, '0'), which cuts off what is past 32 characters.
abbrev pub lpad : Text → Text
lpad t = if leb 32 (length t) then take 32 t else padding (32 - length t) t

abbrev pub seq_admits : (Text → Text → Bool) → Option Text → Option Text → Bool
seq_admits seq_leb none old = true
seq_admits seq_leb (some new) none = true
seq_admits seq_leb (some new) (some old) = seq_leb (lpad old) (lpad new)

-- The guard of both statements: the observation is after that of the row, or at the same time and
-- not before it in the order of the sequence numbers.
unfoldable pub is_newer : (Text → Text → Bool) → ℤ → Option Text → FileEntry → Bool
is_newer seq_leb at seq fe =
    ltb_ℤ fe.observed_at at || (at =ℤ fe.observed_at) && seq_admits seq_leb seq fe.event_seq

abbrev pub is_entry : String → Text → FileEntry → Bool
is_entry bucket path fe = str_eq fe.bucket_id bucket && text_eq fe.storage_path path

abbrev pub coalesce : {A : Type 0} → Option A → Option A → Option A
coalesce none old = old
coalesce (some new) old = some new

abbrev pub is_own : String → Bool
is_own source = str_eq source "agent" || str_eq source "api"

-- The row of the VALUES clause.
abbrev pub fresh_entry : String → ℤ → ℤ → UpsertIndexedFileParams → FileEntry
fresh_entry id now at p = record {
  id = id;
  org_id = p.org_id;
  file_type_id = p.file_type_id;
  agent_id = p.agent_id;
  rule_id = p.rule_id;
  bucket_id = p.bucket_id;
  storage_path = p.storage_path;
  original_path = p.original_path;
  file_name = p.file_name;
  size_bytes = p.size_bytes;
  sha256 = p.sha256;
  etag = p.etag;
  content_type = p.content_type;
  file_mtime = p.file_mtime;
  status = p.status;
  uploaded_at = p.uploaded_at;
  created_at = now;
  updated_at = now;
  observed_at = at;
  source = p.source;
  event_seq = p.event_seq;
  meta_incomplete = p.meta_incomplete;
}

-- The SET clause of the conflict.
abbrev pub overwritten : ℤ → ℤ → UpsertIndexedFileParams → FileEntry → FileEntry
overwritten now at p fe = record fe {
  file_type_id = coalesce p.file_type_id fe.file_type_id;
  agent_id = coalesce p.agent_id fe.agent_id;
  rule_id = coalesce p.rule_id fe.rule_id;
  original_path = coalesce p.original_path fe.original_path;
  file_name = p.file_name;
  size_bytes = p.size_bytes;
  sha256 = coalesce p.sha256 fe.sha256;
  etag = coalesce p.etag fe.etag;
  content_type = coalesce p.content_type fe.content_type;
  file_mtime = coalesce p.file_mtime fe.file_mtime;
  status = p.status;
  uploaded_at = coalesce p.uploaded_at fe.uploaded_at;
  updated_at = now;
  observed_at = at;
  source = p.source;
  event_seq = p.event_seq;
  meta_incomplete = if is_own p.source then p.meta_incomplete else fe.meta_incomplete;
}

abbrev pub soft_deleted : ℤ → DeleteIndexedFileParams → FileEntry → FileEntry
soft_deleted now p fe = record fe {
  status = deleted;
  updated_at = now;
  observed_at = p.observed_at;
  event_seq = p.event_seq;
  source = p.source;
}

-- A statement gives the table after it, and the row that it returns.
abbrev pub after_row :
    FileEntry → List FileEntry × Option FileEntry → List FileEntry × Option FileEntry
after_row fe (l, r) = (fe ∷ l, r)

abbrev pub written_row :
    Bool → FileEntry → FileEntry → List FileEntry → List FileEntry × Option FileEntry
written_row true new fe l = (new ∷ l, some new)
written_row false new fe l = (fe ∷ l, none)

-- The walk to the row of a key, which is written where it passes the guard; `missing` is what comes
-- of a table without the row.
unfoldable pub write_row :
    (FileEntry → Bool)
    → (FileEntry → Bool)
    → (FileEntry → FileEntry)
    → List FileEntry × Option FileEntry
    → List FileEntry
    → List FileEntry × Option FileEntry
write_row has_key guard set missing [] = missing
write_row has_key guard set missing (fe ∷ l) =
    let rest = after_row fe (write_row has_key guard set missing l) in
    if has_key fe then written_row (guard fe) (set fe) fe l else rest

-- The time that the row is to carry.
abbrev pub observation_time : ℤ → UpsertIndexedFileParams → ℤ
observation_time now p = if is_own p.source then now else p.observed_at

abbrev pub upserted :
    String
    → ℤ
    → (Text → Text → Bool)
    → UpsertIndexedFileParams
    → List FileEntry
    → List FileEntry × Option FileEntry
upserted id now seq_leb p l =
    let at = observation_time now p in
    let new = fresh_entry id now at p in
    write_row (is_entry p.bucket_id p.storage_path) (is_newer seq_leb at p.event_seq)
      (overwritten now at p) (new ∷ [], some new) l

abbrev pub marked :
    ℤ
    → (Text → Text → Bool)
    → DeleteIndexedFileParams
    → List FileEntry
    → List FileEntry × Option FileEntry
marked now seq_leb p l =
    write_row (is_entry p.bucket_id p.storage_path) (is_newer seq_leb p.observed_at p.event_seq)
      (soft_deleted now p) ([], none) l

-- A statement that writes the ledger: it fails, or it answers with the row that it returns.
unfoldable pub write_entries : (World → List FileEntry × Option FileEntry) → M (Option FileEntry)
write_entries f w =
    if w.outside.fails w.turn
    then (err statement_failed, next w)
    else (ok (f w).1, record (next w) { entries = (f w).0 })

-- UpsertIndexedFile; `none` is the answer without a row.
unfoldable pub upsert_indexed_file : UpsertIndexedFileParams → M (Option FileEntry)
unfolding write_entries write_row is_newer
upsert_indexed_file p =
    write_entries (λ w.
      upserted (w.outside.fresh_id w.turn) (w.outside.now w.turn) w.outside.seq_leb p w.entries)

-- DeleteIndexedFile
unfoldable pub delete_indexed_file : DeleteIndexedFileParams → M (Option FileEntry)
unfolding write_entries write_row is_newer
delete_indexed_file p =
    write_entries (λ w. marked (w.outside.now w.turn) w.outside.seq_leb p w.entries)

unfoldable pub find_entry : String → Text → List FileEntry → Option FileEntry
find_entry bucket path [] = none
find_entry bucket path (fe ∷ l) =
    let rest = find_entry bucket path l in if is_entry bucket path fe then some fe else rest

-- GetIndexedFileByKey
unfoldable pub get_indexed_file_by_key : String → Text → M (Option FileEntry)
unfolding query find_entry
get_indexed_file_by_key bucket path = query (λ w. find_entry bucket path w.entries)

-- A missing row is the error of the driver.
abbrev pub one_row : {A : Type 0} → Option A → M A
one_row none = raise no_rows
one_row (some a) = pure a

abbrev pub after_upsert : UpsertIndexedFileParams → Option FileEntry → M (FileEntry × Bool)
after_upsert p (some fe) = pure (fe, false)
after_upsert p none = do
  o ← get_indexed_file_by_key p.bucket_id p.storage_path
  fe ← one_row o
  pure (fe, true)

-- UpsertObservedFile: the row, and whether the write was suppressed.
unfoldable pub upsert_observed_file : UpsertIndexedFileParams → M (FileEntry × Bool)
unfolding upsert_indexed_file get_indexed_file_by_key
upsert_observed_file p = upsert_indexed_file p >>= after_upsert p

-- What MarkObservedFileDeleted answers.
pub data Deletion : Type 0 where
  absent : Deletion
  stale applied : FileEntry → Deletion

abbrev pub stale_or_absent : Option FileEntry → Deletion
stale_or_absent none = absent
stale_or_absent (some fe) = stale fe

abbrev pub after_mark : DeleteIndexedFileParams → Option FileEntry → M Deletion
after_mark p (some fe) = pure (applied fe)
after_mark p none = do
  o ← get_indexed_file_by_key p.bucket_id p.storage_path
  pure (stale_or_absent o)

unfoldable pub mark_observed_file_deleted : DeleteIndexedFileParams → M Deletion
unfolding delete_indexed_file get_indexed_file_by_key
mark_observed_file_deleted p = delete_indexed_file p >>= after_mark p
