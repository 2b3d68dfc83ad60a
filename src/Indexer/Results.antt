-- ===== src/Indexer/Results.antt =====
-- How the writing and the logging of a result end.
use fileagent.Prelude.{
  String, ◌≡◌, refl, ap, inl, inr, Bool, true, false, Option, none, some, ◌∷◌, ◌∙◌, arith,
  if◌then◌else◌, not,
}
use fileagent.Prelude.Int.{ℤ}
use fileagent.Prelude.Action.{◌>>=◌, Ends, bind-Ends, choice-Ends, Ends-map, kept-Ends, Keeps}
use fileagent.Indexer.Types.{M, FileEntry, completed, file_uploaded, World, next}
use fileagent.Indexer.Ledger.{find_entry, upsert_observed_file}
use fileagent.Indexer.Tags.{apply_static_tags}
use fileagent.Indexer.PathVars.{apply_path_var_tags}
use fileagent.Indexer.Effects.{publish, after_publish, with_published, count_suppressed}
use fileagent.Indexer.Upload.{
  UploadResult, Declared, entry_of_result, log_of, log_upload, after_entry, record_result,
}
use fileagent.Indexer.Outcomes.{Untouched, Upserted}
use fileagent.Indexer.Reports.{count_suppressed-Counted, upsert-Ends}
use fileagent.Indexer.Accounted.{
  Silent, PublishedOnce, Accounted, Untouched-Silent, Framed, static_tags-Framed,
  path_var_tags-Framed,
}
use fileagent.Indexer.Logged.{LogAdded, Silent-refl, Silent-trans, log_upload-Ends}

module _ (agent org : String) (r : UploadResult) (w : World) where
  -- A success that is logged, and published at most once.
  succeeded :
      (d : Declared) (fe : FileEntry) (bucket : String) (v x : World) (s f : ℤ)
      → r.success ≡ true
      → w.outside.bucket_id org r.bucket ≡ some bucket
      → find_entry bucket r.storage_path v.entries ≡ some fe
      → fe.status ≡ completed
      → fe.size_bytes ≡ r.size_bytes
      → x.upload_logs ≡ log_of agent org r d (some fe) s f ∷ w.upload_logs
      → x.suppressed_writes ≡ w.suppressed_writes
      → x.entries ≡ v.entries
      → PublishedOnce (file_uploaded fe agent r.sha256) w x
      → Accounted agent org r w x
  succeeded d fe bucket v x s f success known found status size logs count entries messages =
      inr (record {
        log = log_of agent org r d (some fe) s f;
        upload_logs = logs;
        status = refl;
        suppressed_writes = count;
        effects = inl (record {
          success = success;
          fe = fe;
          bucket = bucket;
          bucket_id = known;
          found = rw entries found;
          status = status;
          size_bytes = size;
          file_entry_id = refl;
          published = messages;
        });
      })

  after_publish-Accounted :
      (d : Declared) (fe : FileEntry) (bucket : String) (v v' : World)
      → r.success ≡ true
      → w.outside.bucket_id org r.bucket ≡ some bucket
      → find_entry bucket r.storage_path v.entries ≡ some fe
      → fe.status ≡ completed
      → fe.size_bytes ≡ r.size_bytes
      → LogAdded agent org r d (some fe) w v v'
      → Accounted agent org r w (after_publish (file_uploaded fe agent r.sha256) v')
  unfolding after_publish
  after_publish-Accounted d fe bucket v v' success known found status size
        (s, f, logs, messages, count, entries, tags, outside) =
      let p = file_uploaded fe agent r.sha256 in
      chosen (not v'.outside.has_publisher) v'
        (if v'.outside.publish_fails v'.turn then next v' else with_published p v')
        (λ none.
          succeeded d fe bucket v v' s f success known found status size logs count entries
            (inl (rw (← outside) (ground arith), messages)))
        (λ some_there.
          let there : w.outside.has_publisher ≡ true = rw (← outside) (ground arith) in
          chosen (v'.outside.publish_fails v'.turn) (next v') (with_published p v')
            (λ fails.
              succeeded d fe bucket v (next v') s f success known found status size logs count
                entries (inr (v'.turn, there, refl, rw (← outside, fails) messages)))
            (λ works.
              succeeded d fe bucket v (with_published p v') s f success known found status size logs
                count entries
                (inr (v'.turn, there, refl, rw (← outside, works) (ap (λ t. p ∷ t) messages)))))
    where
      chosen :
          (b : Bool) (x y : World)
          → (b ≡ true → Accounted agent org r w x)
          → (b ≡ false → Accounted agent org r w y)
          → Accounted agent org r w (if b then x else y)
      chosen true x y h k = h refl
      chosen false x y h k = k refl

  Framed-Ends :
      {A : Type 0} (u v : World) (m : M A)
      → Silent w u
      → Keeps (Framed u) m
      → Framed u v
      → Ends (Silent w) (λ _ v'. Framed u v') (m v)
  Framed-Ends u v m h k q =
      Ends-map (Framed u) (Silent w) (λ _ v'. Framed u v') (λ _ v'. Framed u v') (m v)
        (λ x f. Silent-trans w u x h f.1) (λ a x f. f) (kept-Ends (Framed u) (m v) (k.at v q))

  -- A row that was written is tagged, logged and published.
  written-Ends :
      (d : Declared) (fe : FileEntry) (bucket : String) (v : World)
      → r.success ≡ true
      → w.outside.bucket_id org r.bucket ≡ some bucket
      → Silent w v
      → find_entry bucket r.storage_path v.entries ≡ some fe
      → fe.status ≡ completed
      → fe.size_bytes ≡ r.size_bytes
      → Ends
          (Silent w)
          (λ _ v'. Accounted agent org r w v')
          (after_entry agent org r d (fe, false) v)
  unfolding publish
  written-Ends d fe bucket v success known h found status size =
      bind-Ends (Silent w) (λ _ v'. Framed v v') (λ _ v'. Accounted agent org r w v')
        (apply_static_tags fe.id d.meta.static_tags) _ v
        (Framed-Ends v v (apply_static_tags fe.id d.meta.static_tags) h
          (static_tags-Framed v fe.id d.meta.static_tags) (refl, Silent-refl v))
        (λ _ v1 k1.
          bind-Ends (Silent w) (λ _ v'. Framed v v') (λ _ v'. Accounted agent org r w v')
            (apply_path_var_tags org fe.id r.storage_path d.template d.meta.path_tag_map d.rule_id)
            _ v1
            (Framed-Ends v v1
              (apply_path_var_tags org fe.id r.storage_path d.template d.meta.path_tag_map
                d.rule_id)
              h
              (path_var_tags-Framed v org fe.id r.storage_path d.template d.meta.path_tag_map
                d.rule_id)
              k1)
            (λ _ v2 k2.
              bind-Ends (Silent w) (λ _ v'. LogAdded agent org r d (some fe) w v2 v')
                (λ _ v'. Accounted agent org r w v') (log_upload agent org r d (some fe)) _ v2
                (log_upload-Ends agent org r w d (some fe) v2 (Silent-trans w v v2 h k2.1))
                (λ _ v3 l.
                  after_publish-Accounted d fe bucket v2 v3 success known (rw (k2.0) found) status
                    size l)))

  after_entry-Ends :
      (d : Declared) (bucket : String) (ft : Option String) (at : ℤ) (x : FileEntry × Bool)
      (v : World)
      → r.success ≡ true
      → w.outside.bucket_id org r.bucket ≡ some bucket
      → Upserted w (entry_of_result agent org r bucket d ft at) x v
      → Ends (Silent w) (λ _ v'. Accounted agent org r w v') (after_entry agent org r d x v)
  unfolding count_suppressed
  after_entry-Ends d bucket ft at (fe, true) v success known h =
      inl (success, count_suppressed-Counted w v h.untouched)
  after_entry-Ends d bucket ft at (fe, false) v success known h =
      written-Ends d fe bucket v success known
        (record {
          upload_logs = h.upload_logs;
          published = h.published;
          suppressed_writes = h.suppressed_writes;
          outside = h.outside;
        })
        h.found h.wrote.status h.wrote.size_bytes

  -- A failure that is logged.
  failed_logged :
      (d : Declared) (v v' : World)
      → r.success ≡ false
      → Untouched w v
      → LogAdded agent org r d none w v v'
      → Accounted agent org r w v'
  failed_logged d v v' failure u (s, f, logs, messages, count, entries, tags, outside) =
      inr (record {
        log = log_of agent org r d none s f;
        upload_logs = logs;
        status = refl;
        suppressed_writes = count;
        effects = inr (record {
          success = failure;
          entries = entries ∙ u.entries;
          tags = tags ∙ u.tags;
          published = messages;
        });
      })

  pub record_result-Ends :
      (bucket : String) (d : Declared) (ft : Option String) (at : ℤ) (v : World)
      → w.outside.bucket_id org r.bucket ≡ some bucket
      → Untouched w v
      → Ends
          (Silent w)
          (λ _ v'. Accounted agent org r w v')
          (record_result agent org r bucket d ft at v)
  unfolding record_result
  record_result-Ends bucket d ft at v known u =
      choice-Ends (Silent w) (λ _ v'. Accounted agent org r w v') r.success
        (upsert_observed_file (entry_of_result agent org r bucket d ft at)
          >>= after_entry agent org r d)
        (log_upload agent org r d none) v
        (λ success.
          bind-Ends (Silent w) (Upserted w (entry_of_result agent org r bucket d ft at))
            (λ _ v'. Accounted agent org r w v')
            (upsert_observed_file (entry_of_result agent org r bucket d ft at))
            (after_entry agent org r d) v
            (Ends-map (Untouched w) (Silent w)
              (Upserted w (entry_of_result agent org r bucket d ft at))
              (Upserted w (entry_of_result agent org r bucket d ft at))
              (upsert_observed_file (entry_of_result agent org r bucket d ft at) v)
              (Untouched-Silent w) (λ x v' k. k)
              (upsert-Ends w v (entry_of_result agent org r bucket d ft at) u))
            (λ x v' k. after_entry-Ends d bucket ft at x v' success known k))
        (λ failure.
          Ends-map (Silent w) (Silent w) (λ _ v'. LogAdded agent org r d none w v v')
            (λ _ v'. Accounted agent org r w v') (log_upload agent org r d none v) (λ v' k. k)
            (λ _ v' k. failed_logged d v v' failure u k)
            (log_upload-Ends agent org r w d none v (Untouched-Silent w v u)))

  pub read-Ends :
      {A : Type 0} (m : M A) (v : World)
      → Untouched w (m v).1
      → Ends (Silent w) (λ _ v'. Untouched w v') (m v)
  read-Ends m v u =
      Ends-map (Untouched w) (Silent w) (λ _ v'. Untouched w v') (λ _ v'. Untouched w v') (m v)
        (Untouched-Silent w) (λ a x h. h) (kept-Ends (Untouched w) (m v) u)
