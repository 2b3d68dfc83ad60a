-- ===== src/Indexer/Writes.antt =====
-- The operations of the indexer on the ledger, by the two statements that write it.
use fileagent.Prelude.{ℕ, String, Bool, true, false, Option, none, some, List}
use fileagent.Prelude.Int.{ℤ}
use fileagent.Prelude.Action.{
  Result, ok, Keeps, Keeps-pure, Keeps-raise, Keeps-attempt, Keeps-if, Keeps-bind,
}
use fileagent.Filer.Paths.{Text, is_empty}
use fileagent.Indexer.Types.{
  FileEntry, UpsertIndexedFileParams, DeleteIndexedFileParams, file_uploaded, file_deleted, Outside,
  World, Error, next, unknown_bucket,
}
use fileagent.Indexer.Ledger.{
  clock, upserted, marked, after_upsert, upsert_observed_file, upsert_indexed_file,
  delete_indexed_file, after_mark, mark_observed_file_deleted, get_indexed_file_by_key, Deletion,
  absent, stale, applied,
}
use fileagent.Indexer.Classify.{
  or_nil, classify, classify_or_nil, or_classify, classify_file_type, get_bucket_by_name,
}
use fileagent.Indexer.Effects.{count_suppressed, count_absent}
use fileagent.Indexer.Upload.{
  UploadResult, Declared, rule_of, validate_rule, or_now, parsed_rule, add_log, log_of,
  entry_of_result, log_upload, create_upload_log, after_entry, record_result, handle_upload_result,
}
use fileagent.Indexer.Storage.{
  default_org_id, entry_of_event, index_upload_reporting, index_deletion_reporting, known_bucket,
  report_upload, report_deletion,
}
use fileagent.Indexer.Keeps.{
  OnLedger, either, Keeps-query, Keeps-execute, Keeps-ask, Keeps-one_row, publish-Keeps,
  apply_static_tags-Keeps, apply_path_var_tags-Keeps,
}

-- The world after a statement that writes the ledger.
abbrev wrote : World → List FileEntry × Option FileEntry → Result Error (Option FileEntry) × World
wrote w (l, r) = (ok r, record (next w) { entries = l })

module _ (R : Outside → List FileEntry → Type 0) where
  validate_rule-Keeps :
      (agent org : String) (o : Option String) → Keeps (OnLedger R) (validate_rule agent org o)
  unfolding validate_rule
  validate_rule-Keeps agent org none = Keeps-pure _
  validate_rule-Keeps agent org (some rule) = Keeps-query R _

module _ (R : Outside → List FileEntry → Type 0)
    (upserts : (o : Outside) (n : ℕ) (p : UpsertIndexedFileParams) (l : List FileEntry)
      → R o l
      → R o (upserted (o.fresh_id n) (o.now n) o.seq_leb p l).0)
    (marks : (o : Outside) (n : ℕ) (p : DeleteIndexedFileParams) (l : List FileEntry)
      → R o l
      → R o (marked (o.now n) o.seq_leb p l).0) where
  upsert_indexed_file-Keeps :
      (p : UpsertIndexedFileParams) → Keeps (OnLedger R) (upsert_indexed_file p)
  unfolding upsert_indexed_file
  upsert_indexed_file-Keeps p = record {
    at = λ w h.
        either R (w.outside.fails w.turn) _ (wrote w _) h (upserts w.outside w.turn p w.entries h);
  }

  after_upsert-Keeps :
      (p : UpsertIndexedFileParams) (o : Option FileEntry) → Keeps (OnLedger R) (after_upsert p o)
  unfolding get_indexed_file_by_key
  after_upsert-Keeps p (some fe) = Keeps-pure (fe, false)
  after_upsert-Keeps p none =
      Keeps-bind _ _ (Keeps-query R _)
        (λ o. Keeps-bind _ _ (Keeps-one_row R o) (λ fe. Keeps-pure (fe, true)))

  upsert_observed_file-Keeps :
      (p : UpsertIndexedFileParams) → Keeps (OnLedger R) (upsert_observed_file p)
  unfolding upsert_observed_file
  upsert_observed_file-Keeps p = Keeps-bind _ _ (upsert_indexed_file-Keeps p) (after_upsert-Keeps p)

  delete_indexed_file-Keeps :
      (p : DeleteIndexedFileParams) → Keeps (OnLedger R) (delete_indexed_file p)
  unfolding delete_indexed_file
  delete_indexed_file-Keeps p = record {
    at = λ w h.
        either R (w.outside.fails w.turn) _ (wrote w _) h (marks w.outside w.turn p w.entries h);
  }

  after_mark-Keeps :
      (p : DeleteIndexedFileParams) (o : Option FileEntry) → Keeps (OnLedger R) (after_mark p o)
  unfolding get_indexed_file_by_key
  after_mark-Keeps p (some fe) = Keeps-pure (applied fe)
  after_mark-Keeps p none = Keeps-bind _ _ (Keeps-query R _) (λ o. Keeps-pure _)

  mark_observed_file_deleted-Keeps :
      (p : DeleteIndexedFileParams) → Keeps (OnLedger R) (mark_observed_file_deleted p)
  unfolding mark_observed_file_deleted
  mark_observed_file_deleted-Keeps p =
      Keeps-bind _ _ (delete_indexed_file-Keeps p) (after_mark-Keeps p)

  get_bucket_by_name-Keeps :
      (org : String) (name : Text) → Keeps (OnLedger R) (get_bucket_by_name org name)
  unfolding get_bucket_by_name
  get_bucket_by_name-Keeps org name = Keeps-query R _

  classify_or_nil-Keeps : (path : Text) → Keeps (OnLedger R) (classify_or_nil path)
  unfolding classify
  classify_or_nil-Keeps path =
      Keeps-bind _ _ (Keeps-attempt _ (Keeps-query R _)) (λ r. Keeps-pure (or_nil r))

  or_classify-Keeps : (path : Text) (o : Option String) → Keeps (OnLedger R) (or_classify path o)
  or_classify-Keeps path (some id) = Keeps-pure _
  or_classify-Keeps path none = classify_or_nil-Keeps path

  classify_file_type-Keeps :
      (org : String) (path declared : Text)
      → Keeps (OnLedger R) (classify_file_type org path declared)
  unfolding classify_file_type
  classify_file_type-Keeps org path declared =
      Keeps-if (is_empty declared) _ _ (classify_or_nil-Keeps path) (
        Keeps-bind _ _ (Keeps-attempt _ (Keeps-query R _)) (λ r. or_classify-Keeps path (or_nil r)))

  rule_of-Keeps : (agent org text : String) → Keeps (OnLedger R) (rule_of agent org text)
  unfolding rule_of
  rule_of-Keeps agent org text = record {
    at = λ w h. (validate_rule-Keeps R agent org (parsed_rule text w)).at w h;
  }

  log_upload-Keeps :
      (agent org : String) (r : UploadResult) (d : Declared) (fe : Option FileEntry)
      → Keeps (OnLedger R) (log_upload agent org r d fe)
  unfolding log_upload create_upload_log
  log_upload-Keeps agent org r d fe = Keeps-bind _ _ (Keeps-ask R clock) (λ s.
      Keeps-bind _ _ (Keeps-ask R clock)
        (λ f. Keeps-execute R (add_log (log_of agent org r d fe s f)) (λ w h. h)))

  counted-Keeps : Keeps (OnLedger R) count_suppressed
  unfolding count_suppressed
  counted-Keeps = record { at = λ w h. h }

  after_entry-Keeps :
      (agent org : String) (r : UploadResult) (d : Declared) (fe : FileEntry × Bool)
      → Keeps (OnLedger R) (after_entry agent org r d fe)
  after_entry-Keeps agent org r d (fe, true) = counted-Keeps
  after_entry-Keeps agent org r d (fe, false) =
      Keeps-bind _ _ (apply_static_tags-Keeps R fe.id d.meta.static_tags) (λ _.
        Keeps-bind _ _
          (apply_path_var_tags-Keeps R org fe.id r.storage_path d.template d.meta.path_tag_map
            d.rule_id)
          (λ _.
            Keeps-bind _ _ (log_upload-Keeps agent org r d (some fe))
              (λ _. publish-Keeps R (file_uploaded fe agent r.sha256))))

  or_now-Keeps : (o : Option ℤ) → Keeps (OnLedger R) (or_now o)
  or_now-Keeps (some at) = Keeps-pure at
  or_now-Keeps none = Keeps-ask R clock

  pub handle_upload_result-Keeps :
      (agent org : String) (r : UploadResult)
      → Keeps (OnLedger R) (handle_upload_result agent org r)
  unfolding handle_upload_result record_result
  handle_upload_result-Keeps agent org r =
      Keeps-bind _ _ (get_bucket_by_name-Keeps org r.bucket) (λ row.
        Keeps-bind _ _ (Keeps-one_row R row) (λ bucket.
          Keeps-bind _ _ (rule_of-Keeps agent org r.rule_id) (λ d.
            Keeps-bind _ _ (classify_file_type-Keeps org r.storage_path d.meta.file_type) (λ ft.
              Keeps-bind _ _ (or_now-Keeps r.uploaded_at) (λ at.
                Keeps-if r.success _ _
                  (Keeps-bind _ _
                    (upsert_observed_file-Keeps (entry_of_result agent org r bucket d ft at))
                    (after_entry-Keeps agent org r d))
                  (log_upload-Keeps agent org r d none))))))

  known_bucket-Keeps : (o : Option String) → Keeps (OnLedger R) (known_bucket o)
  known_bucket-Keeps none = Keeps-raise unknown_bucket
  known_bucket-Keeps (some id) = Keeps-pure id

  report_upload-Keeps : (fe : FileEntry × Bool) → Keeps (OnLedger R) (report_upload fe)
  report_upload-Keeps (fe, true) = Keeps-bind _ _ counted-Keeps (λ _. Keeps-pure true)
  report_upload-Keeps (fe, false) = Keeps-pure false

  pub index_upload_reporting-Keeps :
      (bucket key : Text) (size : ℤ) (etag : Text) (at : ℤ) (seq : Text) (source : String)
      → Keeps (OnLedger R) (index_upload_reporting bucket key size etag at seq source)
  unfolding index_upload_reporting
  index_upload_reporting-Keeps bucket key size etag at seq source =
      Keeps-bind _ _ (get_bucket_by_name-Keeps default_org_id bucket) (λ row.
        Keeps-bind _ _ (known_bucket-Keeps row) (λ id.
          Keeps-bind _ _ (classify_or_nil-Keeps key) (λ ft.
            Keeps-bind _ _
              (upsert_observed_file-Keeps (entry_of_event id ft key size etag at seq source))
              report_upload-Keeps)))

  absent-Keeps : Keeps (OnLedger R) count_absent
  unfolding count_absent
  absent-Keeps = record { at = λ w h. h }

  report_deletion-Keeps : (d : Deletion) → Keeps (OnLedger R) (report_deletion d)
  report_deletion-Keeps absent = Keeps-bind _ _ absent-Keeps (λ _. Keeps-pure false)
  report_deletion-Keeps (stale fe) = Keeps-bind _ _ counted-Keeps (λ _. Keeps-pure true)
  report_deletion-Keeps (applied fe) =
      Keeps-bind _ _ (publish-Keeps R (file_deleted fe)) (λ _. Keeps-pure false)

  pub index_deletion_reporting-Keeps :
      (bucket key : Text) (at : ℤ) (seq : Text) (source : String)
      → Keeps (OnLedger R) (index_deletion_reporting bucket key at seq source)
  unfolding index_deletion_reporting
  index_deletion_reporting-Keeps bucket key at seq source =
      Keeps-bind _ _ (get_bucket_by_name-Keeps default_org_id bucket) (λ row.
        Keeps-bind _ _ (known_bucket-Keeps row)
          (λ id. Keeps-bind _ _ (mark_observed_file_deleted-Keeps _) report_deletion-Keeps))
