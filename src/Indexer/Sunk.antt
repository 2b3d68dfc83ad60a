-- ===== src/Indexer/Sunk.antt =====
-- What the sink of a fact has left in the ledger, by its answer.
use fileagent.Prelude.{◌≡◌, refl, ap, ◌⊎◌, inl, inr, Bool, true, false, Option, none, [], ◌∷◌}
use fileagent.Prelude.Int.{leb_ℤ_refl}
use fileagent.Prelude.Action.{Result, ok, err, Ends, Ends-map, continue}
use fileagent.Filer.Paths.{Text, is_empty}
use fileagent.Filer.Host as Host
use fileagent.Filer.Host.{StorageEvent}
use fileagent.Indexer.Types.{World, Error}
use fileagent.Indexer.Tags.{null_text}
use fileagent.Indexer.Storage.{or_empty, index_upload_reporting, index_deletion_reporting}
use fileagent.Indexer.Sink.{
  route_reporting, SinkError, suppressed, of_indexer, unsupported_kind, empty_source, surface,
  lifted_result, suppression_aware_apply,
}
use fileagent.Indexer.History.{row_of, Since}
use fileagent.Indexer.Outcomes.{Untouched}
use fileagent.Indexer.Reports.{Uploaded, index_upload_reporting-Ends}
use fileagent.Indexer.Removals.{Deleted, index_deletion_reporting-Ends}
use fileagent.Indexer.ReadBack.{event_of, HoldsFor, kind_of}

-- The row of the key is there, and not before the fact.
abbrev pub Later : StorageEvent → World → Type 0
Later e w = Since e.bucket e.key e.observed_at w.outside w.entries

-- What the sink has left, by its answer.
abbrev pub Sunk : Host.Kind → StorageEvent → Result SinkError (Unit {0}) × World → Type 0
Sunk k e (ok _, w) = HoldsFor k e (row_of e.bucket e.key w.outside w.entries)
Sunk k e (err suppressed, w) = Later e w
Sunk k e (err unsupported_kind, w) = Unit
Sunk k e (err empty_source, w) = Unit
Sunk k e (err (of_indexer _), w) = Unit

abbrev Reported : Host.Kind → StorageEvent → Bool → World → Type 0
Reported k e true w = Later e w
Reported k e false w = HoldsFor k e (row_of e.bucket e.key w.outside w.entries)

report-Sunk :
    (k : Host.Kind) (e : StorageEvent) (x : Result Error Bool) (v : World)
    → Ends (λ _. Unit {0}) (Reported k e) (x, v)
    → Sunk k e (continue (lifted_result x) surface v)
report-Sunk k e (ok true) v h = h
report-Sunk k e (ok false) v h = h
report-Sunk k e (err x) v h = tt

kept_etag :
    (t : Text) (o : Option Text)
    → (null_text t ≡ none) ⊎ (o ≡ null_text t)
    → (is_empty t ≡ true) ⊎ (or_empty o ≡ t)
kept_etag [] o h = inl refl
kept_etag (c ∷ t) o (inl h) = absurd (cc)
kept_etag (c ∷ t) o (inr h) = inr (ap or_empty h)

Uploaded-Reported :
    (e : StorageEvent) (w : World) (b : Bool) (v : World)
    → Uploaded e.bucket e.key e.size e.etag e.observed_at [] "storage_readback" w b v
    → Reported Host.object_created e b v
Uploaded-Reported e w true v (id, ft, i, c, (n, g)) = rw (c.outside, c.entries, i) g
Uploaded-Reported e w false v (id, ft, fe, i, h) =
    rw (h.outside, i, h.found)
      (
        record {
          status = h.wrote.status;
          size = h.wrote.size_bytes;
          etag = kept_etag e.etag fe.etag h.wrote.etag;
        },
        rw (h.wrote.observed_at.1) (leb_ℤ_refl e.observed_at),
      )

Deleted-Reported :
    (e : StorageEvent) (w : World) (b : Bool) (v : World)
    → Deleted e.bucket e.key e.observed_at [] "storage_readback" w b v
    → Reported Host.object_removed e b v
Deleted-Reported e w true v (id, i, c, g) = rw (c.outside, c.entries, i) g
Deleted-Reported e w false v (id, i, inl (u, n)) = rw (u.outside, i, n) tt
Deleted-Reported e w false v (id, i, inr r) =
    rw (r.outside, i, r.found) (r.status, rw r.observed_at (leb_ℤ_refl e.observed_at))

route-Sunk :
    (k : Host.Kind) (e : StorageEvent) (w : World)
    → Sunk k e (route_reporting (event_of e) (kind_of k) w)
route-Sunk Host.object_created e w =
    report-Sunk Host.object_created e
      (index_upload_reporting e.bucket e.key e.size e.etag e.observed_at [] "storage_readback" w).0
      (index_upload_reporting e.bucket e.key e.size e.etag e.observed_at [] "storage_readback" w).1
      (Ends-map (Untouched w) (λ _. Unit {0})
        (Uploaded e.bucket e.key e.size e.etag e.observed_at [] "storage_readback" w)
        (Reported Host.object_created e)
        (index_upload_reporting e.bucket e.key e.size e.etag e.observed_at [] "storage_readback" w)
        (λ _ _. tt) (Uploaded-Reported e w)
        (index_upload_reporting-Ends e.bucket e.key e.size e.etag e.observed_at []
          "storage_readback" w))
route-Sunk Host.object_removed e w =
    report-Sunk Host.object_removed e
      (index_deletion_reporting e.bucket e.key e.observed_at [] "storage_readback" w).0
      (index_deletion_reporting e.bucket e.key e.observed_at [] "storage_readback" w).1
      (Ends-map (Untouched w) (λ _. Unit {0})
        (Deleted e.bucket e.key e.observed_at [] "storage_readback" w)
        (Reported Host.object_removed e)
        (index_deletion_reporting e.bucket e.key e.observed_at [] "storage_readback" w) (λ _ _. tt)
        (Deleted-Reported e w)
        (index_deletion_reporting-Ends e.bucket e.key e.observed_at [] "storage_readback" w))

pub sink-Sunk :
    (e : StorageEvent) (w : World) → Sunk e.kind e (suppression_aware_apply (event_of e) w)
unfolding suppression_aware_apply
sink-Sunk e w = route-Sunk e.kind e w
