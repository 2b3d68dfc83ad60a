-- ===== src/Indexer/Sink.antt =====
-- controlplane/internal/storageevent/sink.go: the two sinks over the indexer.
use fileagent.Prelude.{String, Bool, true, false, str_eq, if◌then◌else◌}
use fileagent.Prelude.Int.{ℤ}
use fileagent.Prelude.Action.{Result, ok, err, Action, pure, raise, ◌>>=◌}
use fileagent.Filer.Paths.{Text}
use fileagent.Indexer.Types.{World, M, Error}
use fileagent.Indexer.Storage.{
  index_upload, index_deletion, index_upload_reporting, index_deletion_reporting,
}

-- storageevent.Kind; `other` is any number that is none of the three.
pub data Kind : Type 0 where
  object_created object_removed bucket_removed other : Kind

-- storageevent.Event
pub record Event : Type 0 where
  pub kind : Kind
  pub bucket : Text
  pub key : Text
  pub size : ℤ
  pub etag : Text
  pub observed_at : ℤ
  pub seq : Text
  pub source : String

-- The errors of a sink: its sentinels, and those of the indexer.
pub data SinkError : Type 0 where
  unsupported_kind empty_source suppressed : SinkError
  of_indexer : Error → SinkError

abbrev pub SinkM : Type 0 → Type 0
SinkM A = Action World SinkError A

module _ {A : Type 0} where
  abbrev pub lifted_result : Result Error A → Result SinkError A
  lifted_result (ok a) = ok a
  lifted_result (err e) = err (of_indexer e)

  -- The errors of the indexer are passed on.
  abbrev pub lifted : M A → SinkM A
  lifted m w = (lifted_result (m w).0, (m w).1)

abbrev pub route : Event → Kind → SinkM (Unit {0})
route ev object_created =
    lifted (index_upload ev.bucket ev.key ev.size ev.etag ev.observed_at ev.seq ev.source)
route ev object_removed = lifted (index_deletion ev.bucket ev.key ev.observed_at ev.seq ev.source)
route ev bucket_removed = raise unsupported_kind
route ev other = raise unsupported_kind

-- indexSink.Apply
unfoldable pub index_sink_apply : Event → SinkM (Unit {0})
unfolding index_upload index_deletion
index_sink_apply ev = if str_eq ev.source "" then raise empty_source else route ev ev.kind

abbrev pub surface : Bool → SinkM (Unit {0})
surface true = raise suppressed
surface false = pure tt

abbrev pub route_reporting : Event → Kind → SinkM (Unit {0})
route_reporting ev object_created =
    lifted (index_upload_reporting ev.bucket ev.key ev.size ev.etag ev.observed_at ev.seq ev.source)
    >>= surface
route_reporting ev object_removed =
    lifted (index_deletion_reporting ev.bucket ev.key ev.observed_at ev.seq ev.source) >>= surface
route_reporting ev bucket_removed = raise unsupported_kind
route_reporting ev other = raise unsupported_kind

-- suppressionAwareIndexSink.Apply; the indexer reports suppression, so `sr` is never nil.
unfoldable pub suppression_aware_apply : Event → SinkM (Unit {0})
unfolding index_upload_reporting index_deletion_reporting
suppression_aware_apply ev =
    if str_eq ev.source "" then raise empty_source else route_reporting ev ev.kind
