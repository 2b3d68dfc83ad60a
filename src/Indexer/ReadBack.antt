-- ===== src/Indexer/ReadBack.antt =====
-- The adapter of the filer on top of the ledger: what a change that counts as handled has left there.
use fileagent.Prelude.{
  String, ◌≡◌, refl, ap, ◌⊎◌, inr, Bool, true, ◌&&◌, ◌||◌, not, Option, none, some, [], arith,
}
use fileagent.Prelude.Int.{ℤ, pos, negsuc, leb_ℤ, ◌=ℤ◌}
use fileagent.Prelude.Action.{Result, ok, err, Ends, Ends-map, bind-Ends, pure}
use fileagent.Filer.Paths.{Text, codes, is_empty, text_eq}
use fileagent.Filer.Host as Host
use fileagent.Filer.Host.{
  StorageEvent, RowState, Config, Host, Handling, applied, foreign_bucket, confirmed, bucket_marked,
}
use fileagent.Filer.Subscribe.{same_state_as_fact}
use fileagent.Uploader.Laws.{text_eq_sound}
use fileagent.Indexer.Types.{
  FileStatus, uploading, completed, failed, deleted, FileEntry, World, Error, unknown_bucket,
  no_rows, statement_failed,
}
use fileagent.Indexer.Ledger.{find_entry, get_indexed_file_by_key}
use fileagent.Indexer.Classify.{get_bucket_by_name}
use fileagent.Indexer.Storage.{
  default_org_id, row_state, row_state_in, row_state_of, status_text, or_empty,
}
use fileagent.Indexer.Sink.{
  Kind, object_created, object_removed, Event, SinkError, suppressed, of_indexer, unsupported_kind,
  empty_source,
}
use fileagent.Indexer.Newest.{since}
use fileagent.Indexer.History.{row_of}
use fileagent.Indexer.Outcomes.{Untouched, Untouched-refl, query-Ends}
use fileagent.Indexer.Reports.{found_bucket}

abbrev pub kind_of : Host.Kind → Kind
kind_of Host.object_created = object_created
kind_of Host.object_removed = object_removed

-- The event that the adapter hands to its sink.
abbrev pub event_of : StorageEvent → Event
event_of e = record {
  kind = kind_of e.kind;
  bucket = e.bucket;
  key = e.key;
  size = e.size;
  etag = e.etag;
  observed_at = e.observed_at;
  seq = [];
  source = "storage_readback";
}

-- What the adapter tells apart of the answers of the sink, and of the state of a row.
abbrev pub answered : Result SinkError (Unit {0}) → Host.Result (Unit {0})
answered (ok _) = Host.ok tt
answered (err suppressed) = Host.err Host.suppressed
answered (err (of_indexer unknown_bucket)) = Host.err Host.unknown_bucket
answered (err (of_indexer no_rows)) = Host.err Host.outside
answered (err (of_indexer statement_failed)) = Host.err Host.outside
answered (err unsupported_kind) = Host.err Host.outside
answered (err empty_source) = Host.err Host.outside

abbrev pub if_ok : {A : Type 0} → Result Error A → Option A
if_ok (ok a) = some a
if_ok (err _) = none

-- The row records the fact, and its observation is not before it.
pub record Records (e : StorageEvent) (fe : FileEntry) : Type 0 where
  pub status : fe.status ≡ completed
  pub size : fe.size_bytes ≡ e.size
  pub etag : (is_empty e.etag ≡ true) ⊎ (or_empty fe.etag ≡ e.etag)

abbrev pub HoldsFor : Host.Kind → StorageEvent → Option FileEntry → Type 0
HoldsFor Host.object_created e none = ⊥
HoldsFor Host.object_created e (some fe) =
    Records e fe × (leb_ℤ e.observed_at fe.observed_at ≡ true)
HoldsFor Host.object_removed e none = Unit
HoldsFor Host.object_removed e (some fe) =
    (fe.status ≡ deleted) × (leb_ℤ e.observed_at fe.observed_at ≡ true)

abbrev pub Holds : StorageEvent → World → Type 0
Holds e w = HoldsFor e.kind e (row_of e.bucket e.key w.outside w.entries)

is_completed : (s : FileStatus) → text_eq (status_text s) (codes "completed") ≡ true → s ≡ completed
unfolding text_eq
is_completed completed h = refl
is_completed uploading h = absurd (cc)
is_completed failed h = absurd (cc)
is_completed deleted h = absurd (cc)

is_deleted : (s : FileStatus) → text_eq (status_text s) (codes "deleted") ≡ true → s ≡ deleted
unfolding text_eq
is_deleted deleted h = refl
is_deleted uploading h = absurd (cc)
is_deleted failed h = absurd (cc)
is_deleted completed h = absurd (cc)

=ℤ_sound : (a b : ℤ) → (a =ℤ b) ≡ true → a ≡ b
=ℤ_sound (pos a) (pos b) h = ground arith
=ℤ_sound (negsuc a) (negsuc b) h = ground arith
=ℤ_sound (pos a) (negsuc b) h = absurd (cc)
=ℤ_sound (negsuc a) (pos b) h = absurd (cc)

and_split : (a b : Bool) → (a && b) ≡ true → (a ≡ true) × (b ≡ true)
and_split a b h = ground arith

abbrev pub same_for : Host.Kind → StorageEvent → RowState → Bool
unfolding text_eq
same_for Host.object_created e st =
    st.found
    && text_eq st.status (codes "completed")
    && (st.size =ℤ e.size)
    && text_eq st.etag e.etag
same_for Host.object_removed e st = not st.found || text_eq st.status (codes "deleted")

pub same_state-same_for :
    (e : StorageEvent) (st : RowState) → same_state_as_fact e st ≡ same_for e.kind e st
unfolding same_state_as_fact same_for
same_state-same_for e st =
    elim e.kind
      as (λ k.
        elim k [
          | Host.object_created ↦
              st.found
              && text_eq st.status (codes "completed")
              && (st.size =ℤ e.size)
              && text_eq st.etag e.etag
          | Host.object_removed ↦ not st.found || text_eq st.status (codes "deleted")
        ]
        ≡ same_for k e st) [ Host.object_created ↦ refl | Host.object_removed ↦ refl ]

-- A row that is in the state of the fact, and is not before it, holds the fact.
pub same_for-HoldsFor :
    (k : Host.Kind) (e : StorageEvent) (row : Option FileEntry)
    → since e.observed_at row ≡ true
    → same_for k e (row_state_of row) ≡ true
    → HoldsFor k e row
unfolding same_for
same_for-HoldsFor k e none s h = absurd (cc)
same_for-HoldsFor Host.object_created e (some fe) s h =
    let (rest, etag) = and_split _ _ h in
    let (status, size) = and_split _ _ rest in
    (
      record {
        status = is_completed fe.status status;
        size = =ℤ_sound fe.size_bytes e.size size;
        etag = inr (text_eq_sound (or_empty fe.etag) e.etag etag);
      },
      s,
    )
same_for-HoldsFor Host.object_removed e (some fe) s h = (is_deleted fe.status h, s)

-- The answer of RowState is the state of the row.
pub row_state-Ends :
    (bucket key : Text) (w : World)
    → Ends
        (λ _. Unit {0})
        (λ st v. st ≡ row_state_of (row_of bucket key w.outside w.entries))
        (row_state bucket key w)
unfolding row_state get_bucket_by_name get_indexed_file_by_key
row_state-Ends bucket key w =
    bind-Ends (λ _. Unit {0}) (λ o v. (o ≡ found_bucket bucket w) × Untouched w v)
      (λ st v. st ≡ row_state_of (row_of bucket key w.outside w.entries))
      (get_bucket_by_name default_org_id bucket) (row_state_in key) w
      (Ends-map (Untouched w) (λ _. Unit {0}) (λ o v. (o ≡ found_bucket bucket w) × Untouched w v)
        (λ o v. (o ≡ found_bucket bucket w) × Untouched w v)
        (get_bucket_by_name default_org_id bucket w) (λ _ _. tt) (λ o v h. h)
        (query-Ends (found_bucket bucket) w w (Untouched-refl w)))
      (λ o v h. state_of_row o v h.0 h.1)
  where
    state_of_row :
        (o : Option String) (v : World)
        → o ≡ found_bucket bucket w
        → Untouched w v
        → Ends
            (λ _. Unit {0})
            (λ st u. st ≡ row_state_of (row_of bucket key w.outside w.entries))
            (row_state_in key o v)
    state_of_row none v e u = rw (← e) refl
    state_of_row (some id) v e u =
        Ends-map (Untouched v) (λ _. Unit {0})
          (λ st u'. st ≡ row_state_of (find_entry id key v.entries))
          (λ st u'. st ≡ row_state_of (row_of bucket key w.outside w.entries))
          (row_state_in key (some id) v) (λ _ _. tt) (λ st u' h. rw (← e, ← u.entries) h)
          (bind-Ends (Untouched v) (λ r u'. (r ≡ find_entry id key v.entries) × Untouched v u')
            (λ st u'. st ≡ row_state_of (find_entry id key v.entries))
            (get_indexed_file_by_key id key) (λ r. pure (row_state_of r)) v
            (query-Ends (λ x. find_entry id key x.entries) v v (Untouched-refl v))
            (λ r u' h. ap row_state_of h.0))
