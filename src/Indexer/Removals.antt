-- ===== src/Indexer/Removals.antt =====
-- How IndexDeletionReporting ends: what it leaves of the world before.
use fileagent.Prelude.{ℕ, String, ◌≡◌, ◌⊎◌, inl, inr, Bool, true, false, none, some, List, ◌∙◌}
use fileagent.Prelude.Int.{ℤ}
use fileagent.Prelude.Action.{Ends, bind-Ends, Ends-map}
use fileagent.Filer.Paths.{Text}
use fileagent.Indexer.Types.{
  Outside, deleted, file_deleted, FileEntry, DeleteIndexedFileParams, World,
}
use fileagent.Indexer.Ledger.{
  mark_observed_file_deleted, Deletion, absent, stale, applied, find_entry,
}
use fileagent.Indexer.Tags.{null_text}
use fileagent.Indexer.Effects.{publish, publish_only, count_suppressed, count_absent}
use fileagent.Indexer.Classify.{get_bucket_by_name}
use fileagent.Indexer.Storage.{
  default_org_id, known_bucket, report_deletion, index_deletion_reporting,
}
use fileagent.Indexer.Outcomes.{Untouched, Untouched-refl, query-Ends}
use fileagent.Indexer.Marks.{Ended, mark_observed_file_deleted-Ends}
use fileagent.Indexer.Newest.{since}
use fileagent.Indexer.Reports.{
  Untouched-trans, known_bucket-Ends, found_bucket, Counted, count_suppressed-Counted,
}

Untouched-from-Ended :
    (w v u : World) (p : DeleteIndexedFileParams) (d : Deletion)
    → Untouched w v
    → Ended v p d u
    → Ended w p d u
Untouched-from-Ended w v u p absent a b = (Untouched-trans w v u a b.0, rw (← a.entries) b.1)
Untouched-from-Ended w v u p (stale fe) a b = (Untouched-trans w v u a b.0, rw (← a.entries) b.1)
Untouched-from-Ended w v u p (applied fe) a b = record {
  found = b.found;
  status = b.status;
  observed_at = b.observed_at;
  published = b.published ∙ a.published;
  suppressed_writes = b.suppressed_writes ∙ a.suppressed_writes;
  outside = b.outside ∙ a.outside;
}

mark-Ends :
    (w v : World) (p : DeleteIndexedFileParams)
    → Untouched w v
    → Ends (Untouched w) (Ended w p) (mark_observed_file_deleted p v)
mark-Ends w v p a =
    Ends-map (Untouched v) (Untouched w) (Ended v p) (Ended w p) (mark_observed_file_deleted p v)
      (λ u b. Untouched-trans w v u a b) (λ d u b. Untouched-from-Ended w v u p d a b)
      (mark_observed_file_deleted-Ends v p)

absent_counted : (w v : World) → Untouched w v → Untouched w (count_absent v).1
unfolding count_absent
absent_counted w v a = record {
  entries = a.entries;
  tags = a.tags;
  upload_logs = a.upload_logs;
  published = a.published;
  suppressed_writes = a.suppressed_writes;
  outside = a.outside;
}

-- The row of the key is marked, and no suppression is counted.
pub record Removed (w : World) (id : String) (key : Text) (at : ℤ) (l : List FileEntry) (n : ℕ)
    (o : Outside) : Type 0 where
  pub fe : FileEntry
  pub found : find_entry id key l ≡ some fe
  pub status : fe.status ≡ deleted
  pub observed_at : fe.observed_at ≡ at
  pub suppressed_writes : n ≡ w.suppressed_writes
  pub outside : o ≡ w.outside

module _ (bucket key : Text) (at : ℤ) (seq : Text) (source : String) (w : World) where
  abbrev pub deletion_of : String → DeleteIndexedFileParams
  deletion_of id = record {
    bucket_id = id;
    storage_path = key;
    observed_at = at;
    event_seq = null_text seq;
    source = source;
  }

  -- Suppressed, or there is no row, or it is marked.
  abbrev pub Deleted : Bool → World → Type 0
  Deleted true w' =
      (id : String) × (w.outside.bucket_id default_org_id bucket ≡ some id)
      × Counted w w'
      × (since at (find_entry id key w.entries) ≡ true)
  Deleted false w' =
      (id : String) × (w.outside.bucket_id default_org_id bucket ≡ some id)
      × ((Untouched w w' × (find_entry id key w'.entries ≡ none))
          ⊎ Removed w id key at w'.entries w'.suppressed_writes w'.outside)

  report_deletion-Ends :
      (id : String) (d : Deletion) (v : World)
      → w.outside.bucket_id default_org_id bucket ≡ some id
      → Ended w (deletion_of id) d v
      → Ends (Untouched w) Deleted (report_deletion d v)
  unfolding count_suppressed count_absent publish
  report_deletion-Ends id absent v e h = (id, e, inl (absent_counted w v h.0, rw h.0.entries h.1))
  report_deletion-Ends id (stale fe) v e h = (id, e, count_suppressed-Counted w v h.0, h.1)
  report_deletion-Ends id (applied fe) v e h = (
    id,
    e,
    inr (
        publish_only (Removed w id key at) (file_deleted fe) v (record {
          fe = fe;
          found = h.found;
          status = h.status;
          observed_at = h.observed_at;
          suppressed_writes = h.suppressed_writes;
          outside = h.outside;
        })),
  )

  pub index_deletion_reporting-Ends :
      Ends (Untouched w) Deleted (index_deletion_reporting bucket key at seq source w)
  unfolding index_deletion_reporting get_bucket_by_name
  index_deletion_reporting-Ends =
      bind-Ends (Untouched w) (λ o v. (o ≡ found_bucket bucket w) × Untouched w v) Deleted
        (get_bucket_by_name default_org_id bucket) _ w
        (query-Ends (found_bucket bucket) w w (Untouched-refl w))
        (λ o v h.
          bind-Ends (Untouched w) (λ id v'. (found_bucket bucket w ≡ some id) × Untouched w v')
            Deleted (known_bucket o) _ v (known_bucket-Ends bucket w v o h)
            (λ id v1 k.
              bind-Ends (Untouched w) (Ended w (deletion_of id)) Deleted
                (mark_observed_file_deleted (deletion_of id)) report_deletion v1
                (mark-Ends w v1 (deletion_of id) k.1)
                (λ d v2 m. report_deletion-Ends id d v2 k.0 m)))
