-- ===== src/Indexer/Reports.antt =====
-- How IndexUploadReporting ends: what it leaves of the world before.
use fileagent.Prelude.{suc, String, ◌≡◌, sym, ap, Bool, true, false, Option, none, some, ◌∙◌}
use fileagent.Prelude.Int.{ℤ}
use fileagent.Prelude.Action.{Ends, bind-Ends, Ends-map}
use fileagent.Filer.Paths.{Text}
use fileagent.Indexer.Types.{FileEntry, UpsertIndexedFileParams, World}
use fileagent.Indexer.Ledger.{upsert_observed_file}
use fileagent.Indexer.Effects.{count_suppressed}
use fileagent.Indexer.Classify.{matched, classify, classify_or_nil, get_bucket_by_name}
use fileagent.Indexer.Storage.{
  default_org_id, known_bucket, entry_of_event, report_upload, index_upload_reporting,
}
use fileagent.Indexer.Outcomes.{
  Untouched, Untouched-refl, query-Ends, query-Untouched, Written, Upserted, Guarded,
  upsert_observed_file-Ends,
}

pub Untouched-trans : (w v u : World) → Untouched w v → Untouched v u → Untouched w u
Untouched-trans w v u a b = record {
  entries = b.entries ∙ a.entries;
  tags = b.tags ∙ a.tags;
  upload_logs = b.upload_logs ∙ a.upload_logs;
  published = b.published ∙ a.published;
  suppressed_writes = b.suppressed_writes ∙ a.suppressed_writes;
  outside = b.outside ∙ a.outside;
}

Upserted-from :
    (w v u : World) (p : UpsertIndexedFileParams) (x : FileEntry × Bool)
    → Untouched w v
    → Upserted v p x u
    → Upserted w p x u
Upserted-from w v u p (fe, true) a b = record {
  untouched = Untouched-trans w v u a b.untouched;
  guarded = rw (← a.outside, ← a.entries) b.guarded;
}
Upserted-from w v u p (fe, false) a b = record {
  found = b.found;
  wrote = rw (← a.outside) b.wrote;
  tags = b.tags ∙ a.tags;
  upload_logs = b.upload_logs ∙ a.upload_logs;
  published = b.published ∙ a.published;
  suppressed_writes = b.suppressed_writes ∙ a.suppressed_writes;
  outside = b.outside ∙ a.outside;
}

pub upsert-Ends :
    (w v : World) (p : UpsertIndexedFileParams)
    → Untouched w v
    → Ends (Untouched w) (Upserted w p) (upsert_observed_file p v)
upsert-Ends w v p a =
    Ends-map (Untouched v) (Untouched w) (Upserted v p) (Upserted w p) (upsert_observed_file p v)
      (λ u b. Untouched-trans w v u a b) (λ x u b. Upserted-from w v u p x a b)
      (upsert_observed_file-Ends v p)

pub classify-Ends :
    (path : Text) (w v : World)
    → Untouched w v
    → Ends (Untouched w) (λ _ u. Untouched w u) (classify_or_nil path v)
unfolding classify
classify-Ends path w v a = query-Untouched (matched path) w v a

-- The write was suppressed: it is counted, and nothing else is changed.
pub record Counted (w w' : World) : Type 0 where
  pub entries : w'.entries ≡ w.entries
  pub tags : w'.tags ≡ w.tags
  pub upload_logs : w'.upload_logs ≡ w.upload_logs
  pub published : w'.published ≡ w.published
  pub suppressed_writes : w'.suppressed_writes ≡ suc w.suppressed_writes
  pub outside : w'.outside ≡ w.outside

pub count_suppressed-Counted : (w v : World) → Untouched w v → Counted w (count_suppressed v).1
unfolding count_suppressed
count_suppressed-Counted w v a = record {
  entries = a.entries;
  tags = a.tags;
  upload_logs = a.upload_logs;
  published = a.published;
  suppressed_writes = ap suc a.suppressed_writes;
  outside = a.outside;
}

abbrev pub found_bucket : Text → World → Option String
found_bucket bucket w = w.outside.bucket_id default_org_id bucket

-- The lookup of a bucket that is known.
pub known_bucket-Ends :
    (bucket : Text) (w w' : World) (o : Option String)
    → (o ≡ found_bucket bucket w) × Untouched w w'
    → Ends
        (Untouched w)
        (λ id v. (found_bucket bucket w ≡ some id) × Untouched w v)
        (known_bucket o w')
known_bucket-Ends bucket w w' none (e, a) = a
known_bucket-Ends bucket w w' (some id) (e, a) = (sym e, a)

module _ (bucket key : Text) (size : ℤ) (etag : Text) (at : ℤ) (seq : Text) (source : String)
    (w : World) where
  -- Suppressed, or written.
  abbrev pub Uploaded : Bool → World → Type 0
  Uploaded true w' =
      (id : String) × (ft : Option String) × (w.outside.bucket_id default_org_id bucket ≡ some id)
      × Counted w w'
      × Guarded w (entry_of_event id ft key size etag at seq source)
  Uploaded false w' =
      (id : String) × (ft : Option String) × (fe : FileEntry) × (w.outside.bucket_id default_org_id
          bucket
        ≡ some id)
      × Written w (entry_of_event id ft key size etag at seq source) fe w'

  report_upload-Ends :
      (id : String) (ft : Option String) (x : FileEntry × Bool) (v : World)
      → w.outside.bucket_id default_org_id bucket ≡ some id
      → Upserted w (entry_of_event id ft key size etag at seq source) x v
      → Ends (Untouched w) Uploaded (report_upload x v)
  unfolding count_suppressed
  report_upload-Ends id ft (fe, true) v e h =
      (id, ft, e, count_suppressed-Counted w v h.untouched, h.guarded)
  report_upload-Ends id ft (fe, false) v e h = (id, ft, fe, e, h)

  pub index_upload_reporting-Ends :
      Ends (Untouched w) Uploaded (index_upload_reporting bucket key size etag at seq source w)
  unfolding index_upload_reporting get_bucket_by_name
  index_upload_reporting-Ends =
      bind-Ends (Untouched w) (λ o v. (o ≡ found_bucket bucket w) × Untouched w v) Uploaded
        (get_bucket_by_name default_org_id bucket) _ w
        (query-Ends (found_bucket bucket) w w (Untouched-refl w))
        (λ o v h.
          bind-Ends (Untouched w) (λ id v'. (found_bucket bucket w ≡ some id) × Untouched w v')
            Uploaded (known_bucket o) _ v (known_bucket-Ends bucket w v o h)
            (λ id v1 k.
              bind-Ends (Untouched w) (λ ft v'. Untouched w v') Uploaded (classify_or_nil key) _ v1
                (classify-Ends key w v1 k.1)
                (λ ft v2 u.
                  bind-Ends (Untouched w)
                    (Upserted w (entry_of_event id ft key size etag at seq source)) Uploaded
                    (upsert_observed_file (entry_of_event id ft key size etag at seq source))
                    report_upload v2
                    (upsert-Ends w v2 (entry_of_event id ft key size etag at seq source) u)
                    (λ x v3 d. report_upload-Ends id ft x v3 k.0 d))))
