-- ===== src/Indexer/History.antt =====
-- Histories of the indexer: results of agents and events of the storage, in any order.
use fileagent.Prelude.{
  ℕ, String, ◌≡◌, refl, Bool, true, false, Option, none, some, List, [], ◌∷◌, str_eq,
}
use fileagent.Prelude.Int.{ℤ}
use fileagent.Prelude.Action.{Keeps, Keeps-pure, Keeps-raise, Keeps-if, Keeps-bind}
use fileagent.Filer.Paths.{Text}
use fileagent.Indexer.Types.{
  FileEntry, UpsertIndexedFileParams, DeleteIndexedFileParams, Outside, World, M,
}
use fileagent.Indexer.Ledger.{
  find_entry, upserted, marked, is_entry, is_newer, overwritten, soft_deleted, observation_time,
  fresh_entry,
}
use fileagent.Indexer.Upload.{UploadResult, handle_upload_result}
use fileagent.Indexer.Storage.{default_org_id, index_upload, index_deletion}
use fileagent.Indexer.Sink.{
  lifted, unsupported_kind, empty_source, suppressed, Kind, object_created, object_removed,
  bucket_removed, other, Event, route, route_reporting, surface, index_sink_apply,
  suppression_aware_apply,
}
use fileagent.Indexer.Newest.{since, is_newer_ordered, write_row-since}
use fileagent.Indexer.Keeps.{OnLedger}
use fileagent.Indexer.Writes.{
  handle_upload_result-Keeps, index_upload_reporting-Keeps, index_deletion_reporting-Keeps,
}

-- What the program may do with the ledger next.
pub data Op : Type 0 where
  upload_result : String → String → UploadResult → Op
  from_webhook from_read_back : Event → Op

unfoldable pub perform : Op → World → World
unfolding handle_upload_result index_sink_apply suppression_aware_apply
perform (upload_result agent org r) w = (handle_upload_result agent org r w).1
perform (from_webhook ev) w = (index_sink_apply ev w).1
perform (from_read_back ev) w = (suppression_aware_apply ev w).1

unfoldable pub perform_all : List Op → World → World
unfolding perform
perform_all [] w = w
perform_all (op ∷ ops) w = perform_all ops (perform op w)

module _ (R : Outside → List FileEntry → Type 0)
    (upserts : (o : Outside) (n : ℕ) (p : UpsertIndexedFileParams) (l : List FileEntry)
      → R o l
      → R o (upserted (o.fresh_id n) (o.now n) o.seq_leb p l).0)
    (marks : (o : Outside) (n : ℕ) (p : DeleteIndexedFileParams) (l : List FileEntry)
      → R o l
      → R o (marked (o.now n) o.seq_leb p l).0) where
  lifted-Keeps : {A : Type 0} (m : M A) → Keeps (OnLedger R) m → Keeps (OnLedger R) (lifted m)
  lifted-Keeps m k = record { at = k.at }

  route-Keeps : (ev : Event) (k : Kind) → Keeps (OnLedger R) (route ev k)
  unfolding index_upload index_deletion
  route-Keeps ev object_created =
      lifted-Keeps (index_upload ev.bucket ev.key ev.size ev.etag ev.observed_at ev.seq ev.source) (
        Keeps-bind _ _
          (index_upload_reporting-Keeps R upserts marks ev.bucket ev.key ev.size ev.etag
            ev.observed_at ev.seq ev.source)
          (λ _. Keeps-pure tt))
  route-Keeps ev object_removed =
      lifted-Keeps (index_deletion ev.bucket ev.key ev.observed_at ev.seq ev.source) (
        Keeps-bind _ _
          (index_deletion_reporting-Keeps R upserts marks ev.bucket ev.key ev.observed_at ev.seq
            ev.source)
          (λ _. Keeps-pure tt))
  route-Keeps ev bucket_removed = Keeps-raise unsupported_kind
  route-Keeps ev other = Keeps-raise unsupported_kind

  surface-Keeps : (b : Bool) → Keeps (OnLedger R) (surface b)
  surface-Keeps true = Keeps-raise suppressed
  surface-Keeps false = Keeps-pure tt

  route_reporting-Keeps : (ev : Event) (k : Kind) → Keeps (OnLedger R) (route_reporting ev k)
  route_reporting-Keeps ev object_created =
      Keeps-bind _ _
        (lifted-Keeps _ (
          index_upload_reporting-Keeps R upserts marks ev.bucket ev.key ev.size ev.etag
            ev.observed_at ev.seq ev.source))
        surface-Keeps
  route_reporting-Keeps ev object_removed =
      Keeps-bind _ _
        (lifted-Keeps _ (
          index_deletion_reporting-Keeps R upserts marks ev.bucket ev.key ev.observed_at ev.seq
            ev.source))
        surface-Keeps
  route_reporting-Keeps ev bucket_removed = Keeps-raise unsupported_kind
  route_reporting-Keeps ev other = Keeps-raise unsupported_kind

  perform-Keeps : (op : Op) (w : World) → OnLedger R w → OnLedger R (perform op w)
  unfolding perform index_sink_apply suppression_aware_apply
  perform-Keeps (upload_result agent org r) w h =
      (handle_upload_result-Keeps R upserts marks agent org r).at w h
  perform-Keeps (from_webhook ev) w h =
      (Keeps-if (str_eq ev.source "") _ _ (Keeps-raise empty_source) (route-Keeps ev ev.kind)).at w
        h
  perform-Keeps (from_read_back ev) w h =
      (Keeps-if (str_eq ev.source "") _ _ (Keeps-raise empty_source)
          (route_reporting-Keeps ev ev.kind)).at
        w h

  pub perform_all-Keeps :
      (ops : List Op) (w : World) → OnLedger R w → OnLedger R (perform_all ops w)
  unfolding perform_all
  perform_all-Keeps [] w h = h
  perform_all-Keeps (op ∷ ops) w h = perform_all-Keeps ops (perform op w) (perform-Keeps op w h)

-- The row of a key, in the bucket with this id.
abbrev pub row_in : Option String → Text → List FileEntry → Option FileEntry
row_in none key l = none
row_in (some id) key l = find_entry id key l

-- The row of a key, in the bucket with this name.
abbrev pub row_of : Text → Text → Outside → List FileEntry → Option FileEntry
row_of bucket key o l = row_in (o.bucket_id default_org_id bucket) key l

abbrev pub Since : Text → Text → ℤ → Outside → List FileEntry → Type 0
Since bucket key at o l = since at (row_of bucket key o l) ≡ true

upserted-since :
    (b : Option String) (key : Text) (at : ℤ) (o : Outside) (n : ℕ) (p : UpsertIndexedFileParams)
    (l : List FileEntry)
    → since at (row_in b key l) ≡ true
    → since at (row_in b key (upserted (o.fresh_id n) (o.now n) o.seq_leb p l).0) ≡ true
upserted-since none key at o n p l h = h
upserted-since (some id) key at o n p l h =
    let now = o.now n in
    let new = fresh_entry (o.fresh_id n) now (observation_time now p) p in
    write_row-since (is_entry p.bucket_id p.storage_path)
      (is_newer o.seq_leb (observation_time now p) p.event_seq)
      (overwritten now (observation_time now p) p) (new ∷ [], some new) at id key (λ fe. refl)
      (λ fe g. is_newer_ordered o.seq_leb (observation_time now p) p.event_seq fe g) l h

marked-since :
    (b : Option String) (key : Text) (at : ℤ) (o : Outside) (n : ℕ) (p : DeleteIndexedFileParams)
    (l : List FileEntry)
    → since at (row_in b key l) ≡ true
    → since at (row_in b key (marked (o.now n) o.seq_leb p l).0) ≡ true
marked-since none key at o n p l h = h
marked-since (some id) key at o n p l h =
    write_row-since (is_entry p.bucket_id p.storage_path)
      (is_newer o.seq_leb p.observed_at p.event_seq) (soft_deleted (o.now n) p) ([], none) at id key
      (λ fe. refl) (λ fe g. is_newer_ordered o.seq_leb p.observed_at p.event_seq fe g) l h

-- A row that was observed at a time or later stays so through every history of results of agents and
-- events of the storage, whatever fails in it.
pub perform_all-Since :
    (bucket key : Text) (at : ℤ) (ops : List Op) (w : World)
    → Since bucket key at w.outside w.entries
    → Since bucket key at (perform_all ops w).outside (perform_all ops w).entries
perform_all-Since bucket key at ops w h =
    perform_all-Keeps (Since bucket key at)
      (λ o n p l k. upserted-since (o.bucket_id default_org_id bucket) key at o n p l k)
      (λ o n p l k. marked-since (o.bucket_id default_org_id bucket) key at o n p l k) ops w h
