-- ===== src/Indexer/Sinks.antt =====
-- The two sinks, compared.
use fileagent.Prelude.{◌≡◌, refl, ◌⊎◌, inl, inr, Bool, true, false, str_eq, Bool-cases}
use fileagent.Prelude.Action.{Result, ok, err, Ends, Ends-map, continue, pure}
use fileagent.Indexer.Types.{World, Error}
use fileagent.Indexer.Storage.{
  index_upload, index_deletion, index_upload_reporting, index_deletion_reporting,
}
use fileagent.Indexer.Sink.{
  Kind, object_created, object_removed, bucket_removed, other, Event, SinkError, suppressed,
  lifted_result, route, route_reporting, surface, index_sink_apply, suppression_aware_apply,
}
use fileagent.Indexer.Outcomes.{Untouched}
use fileagent.Indexer.Reports.{Counted, Uploaded, index_upload_reporting-Ends}
use fileagent.Indexer.Removals.{Deleted, index_deletion_reporting-Ends}

-- Both leave the same world. Either they answer the same, and no suppression is counted; or one
-- answers that the write was suppressed and the other that all is well, and the suppression is
-- counted and nothing else is changed.
abbrev pub Agree :
    World → Result SinkError (Unit {0}) × World → Result SinkError (Unit {0}) × World → Type 0
Agree w (r, v) (s, u) =
    (v ≡ u)
    × (((r ≡ s) × (v.suppressed_writes ≡ w.suppressed_writes))
        ⊎ ((r ≡ err suppressed) × (s ≡ ok tt) × Counted w v))

-- What a report says of the count.
abbrev Counts : World → Bool → World → Type 0
Counts w true v = Counted w v
Counts w false v = v.suppressed_writes ≡ w.suppressed_writes

Uploaded-Counts :
    (ev : Event) (w : World) (b : Bool) (v : World)
    → Uploaded ev.bucket ev.key ev.size ev.etag ev.observed_at ev.seq ev.source w b v
    → Counts w b v
Uploaded-Counts ev w true v (id, ft, e, c, g) = c
Uploaded-Counts ev w false v (id, ft, fe, e, h) = h.suppressed_writes

Deleted-Counts :
    (ev : Event) (w : World) (b : Bool) (v : World)
    → Deleted ev.bucket ev.key ev.observed_at ev.seq ev.source w b v
    → Counts w b v
Deleted-Counts ev w true v (id, e, c, g) = c
Deleted-Counts ev w false v (id, e, inl (u, _)) = u.suppressed_writes
Deleted-Counts ev w false v (id, e, inr r) = r.suppressed_writes

reports-Agree :
    (w : World) (x : Result Error Bool) (v : World)
    → Ends (λ u. u.suppressed_writes ≡ w.suppressed_writes) (Counts w) (x, v)
    → Agree w
        (continue (lifted_result x) surface v)
        (lifted_result (continue x (λ _. pure tt) v).0, (continue x (λ _. pure tt) v).1)
reports-Agree w (ok true) v h = (refl, inr (refl, refl, h))
reports-Agree w (ok false) v h = (refl, inl (refl, h))
reports-Agree w (err e) v h = (refl, inl (refl, h))

routes-Agree : (ev : Event) (w : World) (k : Kind) → Agree w (route_reporting ev k w) (route ev k w)
unfolding index_upload index_deletion
routes-Agree ev w object_created = reports-Agree w _ _ (
    Ends-map (Untouched w) (λ u. u.suppressed_writes ≡ w.suppressed_writes)
      (Uploaded ev.bucket ev.key ev.size ev.etag ev.observed_at ev.seq ev.source w) (Counts w)
      (index_upload_reporting ev.bucket ev.key ev.size ev.etag ev.observed_at ev.seq ev.source w)
      (λ u h. h.suppressed_writes) (Uploaded-Counts ev w)
      (index_upload_reporting-Ends ev.bucket ev.key ev.size ev.etag ev.observed_at ev.seq ev.source
        w))
routes-Agree ev w object_removed = reports-Agree w _ _ (
    Ends-map (Untouched w) (λ u. u.suppressed_writes ≡ w.suppressed_writes)
      (Deleted ev.bucket ev.key ev.observed_at ev.seq ev.source w) (Counts w)
      (index_deletion_reporting ev.bucket ev.key ev.observed_at ev.seq ev.source w)
      (λ u h. h.suppressed_writes) (Deleted-Counts ev w)
      (index_deletion_reporting-Ends ev.bucket ev.key ev.observed_at ev.seq ev.source w))
routes-Agree ev w bucket_removed = (refl, inl (refl, refl))
routes-Agree ev w other = (refl, inl (refl, refl))

-- On every event, whatever fails, the sink of the read-back and that of the webhook leave the same
-- world. Either they answer the same, and no suppression is counted; or the first answers that the
-- write was suppressed and the second that it was processed, and the suppression is counted and no
-- row, tag, log or message is changed.
pub sinks-Agree :
    (ev : Event) (w : World) → Agree w (suppression_aware_apply ev w) (index_sink_apply ev w)
unfolding suppression_aware_apply index_sink_apply
sinks-Agree ev w = elim (Bool-cases (str_eq ev.source "")) [
  | inl e ↦ rw e (refl, inl (refl, refl))
  | inr e ↦ rw e (routes-Agree ev w ev.kind)
]
