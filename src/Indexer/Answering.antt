-- ===== src/Indexer/Answering.antt =====
-- The statements on the ledger and on the logs, where no statement fails.
use fileagent.Prelude.{ℕ, String, ◌≡◌, refl, sym, Bool, true, false, Option, none, some}
use fileagent.Prelude.Action.{Result, ok, err, pure, ◌>>=◌, Ends, bind-Ends}
use fileagent.Indexer.Types.{
  FileEntry, UpsertIndexedFileParams, Outside, World, Error, file_uploaded, Published,
}
use fileagent.Indexer.Ledger.{
  query, ask, clock, find_entry, one_row, upsert_observed_file, upsert_indexed_file, after_upsert,
  get_indexed_file_by_key,
}
use fileagent.Indexer.Outcomes.{Untouched, Untouched-refl, Evicted}
use fileagent.Indexer.Ledger.{write_entries}
use fileagent.Indexer.Reports.{Untouched-trans}
use fileagent.Indexer.Effects.{publish, publish_only, count_suppressed}
use fileagent.Indexer.Upload.{
  UploadResult, Declared, log_of, add_log, log_upload, create_upload_log, after_entry,
}
use fileagent.Indexer.Outcomes.{Answered, upsert_indexed_file-Ends, query-Ends}
use fileagent.Indexer.Total.{
  Answers, Answers-bind, Outer, no_failure, Answers-query, Answers-execute, static_tags-Answers,
  path_var_tags-Answers,
}

-- What is known of an end, and that it is an answer.
pub both_Ends :
    {A : Type 0} (Bad : World → Type 0) (G H : A → World → Type 0) (x : Result Error A × World)
    → Ends Bad G x
    → Ends (λ _. ⊥) H x
    → Ends (λ _. ⊥) (λ a w. G a w × H a w) x
both_Ends Bad G H (ok a, w) g h = (g, h)
both_Ends Bad G H (err e, w) g h = h

module _ (o : Outside) (calm : (n : ℕ) → o.fails n ≡ false) where
  abbrev Live : {A : Type 0} → A → World → Type 0
  Live a w = Outer o w

  abbrev LiveEntry : FileEntry × Bool → World → Type 0
  LiveEntry x w = Outer o w

  -- The row that guards is found.
  guarding_row :
      (p : UpsertIndexedFileParams) (w w' : World) (r : Option FileEntry)
      → Evicted w p w'
      → r ≡ find_entry p.bucket_id p.storage_path w'.entries
      → Outer o w'
      → Ends (λ _. ⊥) LiveEntry ((one_row r >>= λ fe. pure (fe, true)) w')
  guarding_row p w w' none e f h =
      let row : find_entry p.bucket_id p.storage_path w.entries ≡ none =
        rw (← e.untouched.entries) (sym f) in
      let (n, g) = e.guarded in absurd (no_row n (rw row at g))
    where
      no_row : (n : ℕ) → false ≡ true → ⊥
      no_row n q = cc
  guarding_row p w w' (some fe) e f h = h

  after_upsert-Live :
      (p : UpsertIndexedFileParams) (w w' : World) (r : Option FileEntry)
      → Answered w p r w'
      → Outer o w'
      → Ends (λ _. ⊥) LiveEntry (after_upsert p r w')
  unfolding get_indexed_file_by_key
  after_upsert-Live p w w' (some fe) a h = h
  after_upsert-Live p w w' none a h =
      bind-Ends (λ _. ⊥)
        (λ r v.
          ((r ≡ find_entry p.bucket_id p.storage_path w'.entries) × Untouched w' v) × Outer o v)
        LiveEntry (query (λ v. find_entry p.bucket_id p.storage_path v.entries))
        (λ r. one_row r >>= λ fe. pure (fe, true)) w'
        (both_Ends (Untouched w')
          (λ r v. (r ≡ find_entry p.bucket_id p.storage_path w'.entries) × Untouched w' v) Live
          (query (λ v. find_entry p.bucket_id p.storage_path v.entries) w')
          (query-Ends (λ v. find_entry p.bucket_id p.storage_path v.entries) w' w'
            (Untouched-refl w'))
          ((Answers-query o calm (λ v. find_entry p.bucket_id p.storage_path v.entries)).at w' h))
        (λ r v k.
          guarding_row p w v r (later_evicted w w' v p a k.0.1) (rw k.0.1.entries (k.0.0)) k.1)
    where
      later_evicted :
          (w w' v : World) (p : UpsertIndexedFileParams)
          → Evicted w p w'
          → Untouched w' v
          → Evicted w p v
      later_evicted w w' v p e u = record {
        untouched = Untouched-trans w w' v e.untouched u;
        guarded = e.guarded;
      }

  upsert_indexed_file-Answers : (p : UpsertIndexedFileParams) → Answers o (upsert_indexed_file p)
  unfolding upsert_indexed_file write_entries
  upsert_indexed_file-Answers p = record { at = λ w h. rw (no_failure o calm w h) h }

  pub upsert_observed_file-Answers :
      (p : UpsertIndexedFileParams) → Answers o (upsert_observed_file p)
  unfolding upsert_observed_file
  upsert_observed_file-Answers p = record {
    at = λ w h.
        bind-Ends (λ _. ⊥) (λ r v. Answered w p r v × Outer o v) LiveEntry (upsert_indexed_file p)
          (after_upsert p) w
          (both_Ends (Untouched w) (Answered w p) Live (upsert_indexed_file p w)
            (upsert_indexed_file-Ends w p) ((upsert_indexed_file-Answers p).at w h))
          (λ r v k. after_upsert-Live p w v r k.0 k.1);
  }

  pub ask-Answers : Answers o (ask clock)
  unfolding ask
  ask-Answers = record { at = λ w h. h }

  pub log_upload-Answers :
      (agent org : String) (r : UploadResult) (d : Declared) (fe : Option FileEntry)
      → Answers o (log_upload agent org r d fe)
  unfolding log_upload create_upload_log
  log_upload-Answers agent org r d fe = Answers-bind o _ _ ask-Answers (λ s.
      Answers-bind o _ _ ask-Answers
        (λ f. Answers-execute o calm (add_log (log_of agent org r d fe s f)) (λ w. refl)))

  publish-Answers : (p : Published) → Answers o (publish p)
  unfolding publish
  publish-Answers p = record { at = λ w h. publish_only (λ _ _ o'. o' ≡ o) p w h }

  pub after_entry-Answers :
      (agent org : String) (r : UploadResult) (d : Declared) (x : FileEntry × Bool)
      → Answers o (after_entry agent org r d x)
  unfolding count_suppressed
  after_entry-Answers agent org r d (fe, true) = record { at = λ w h. h }
  after_entry-Answers agent org r d (fe, false) =
      Answers-bind o _ _ (static_tags-Answers o calm fe.id d.meta.static_tags) (λ _.
        Answers-bind o _ _
          (path_var_tags-Answers o calm org fe.id r.storage_path d.template d.meta.path_tag_map
            d.rule_id)
          (λ _.
            Answers-bind o _ _ (log_upload-Answers agent org r d (some fe))
              (λ _. publish-Answers (file_uploaded fe agent r.sha256))))
