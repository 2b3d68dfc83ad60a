-- ===== src/Indexer/Accounts.antt =====
-- HandleUploadResult from its start: what it reads, and then what is in Results.antt.
use fileagent.Prelude.{String, ◌≡◌, sym, Option, none, some}
use fileagent.Prelude.Int.{ℤ}
use fileagent.Prelude.Action.{
  ◌>>=◌, Ends, bind-Ends, Ends-map, Keeps, Keeps-pure, Keeps-raise, Keeps-attempt, Keeps-if,
  Keeps-bind,
}
use fileagent.Filer.Paths.{Text, is_empty}
use fileagent.Indexer.Types.{no_rows, M, World, next}
use fileagent.Indexer.Ledger.{query, ask, one_row}
use fileagent.Indexer.TagKeeps
use fileagent.Indexer.Classify.{
  matched, or_nil, classify, classify_or_nil, or_classify, classify_file_type, get_bucket_by_name,
}
use fileagent.Indexer.Upload.{
  UploadResult, rule_of, validate_rule, parsed_rule, or_now, handle_upload_result,
}
use fileagent.Indexer.Outcomes.{Untouched, Untouched-refl, Untouched-next, query-Ends}
use fileagent.Indexer.Accounted.{Silent, Accounted, Untouched-Silent}
use fileagent.Indexer.Results.{read-Ends, record_result-Ends}

-- What is read leaves the world as it was.
module _ (w : World) where
  query-Reads : {A : Type 0} (f : World → A) → Keeps (Untouched w) (query f)
  query-Reads f = TagKeeps.query-Keeps (Untouched-next w) f

  one_row-Reads : {A : Type 0} (o : Option A) → Keeps (Untouched w) (one_row o)
  one_row-Reads none = Keeps-raise no_rows
  one_row-Reads (some a) = Keeps-pure a

  get_bucket_by_name-Reads :
      (org : String) (name : Text) → Keeps (Untouched w) (get_bucket_by_name org name)
  unfolding get_bucket_by_name
  get_bucket_by_name-Reads org name = query-Reads _

  validate_rule-Reads :
      (agent org : String) (o : Option String) → Keeps (Untouched w) (validate_rule agent org o)
  unfolding validate_rule
  validate_rule-Reads agent org none = Keeps-pure _
  validate_rule-Reads agent org (some rule) = query-Reads _

  rule_of-Reads : (agent org text : String) → Keeps (Untouched w) (rule_of agent org text)
  unfolding rule_of
  rule_of-Reads agent org text = record {
    at = λ v h. (validate_rule-Reads agent org (parsed_rule text v)).at v h;
  }

  classify_or_nil-Reads : (path : Text) → Keeps (Untouched w) (classify_or_nil path)
  unfolding classify
  classify_or_nil-Reads path =
      Keeps-bind _ _ (Keeps-attempt _ (query-Reads (matched path))) (λ r. Keeps-pure (or_nil r))

  or_classify-Reads : (path : Text) (o : Option String) → Keeps (Untouched w) (or_classify path o)
  or_classify-Reads path (some id) = Keeps-pure _
  or_classify-Reads path none = classify_or_nil-Reads path

  classify_file_type-Reads :
      (org : String) (path declared : Text)
      → Keeps (Untouched w) (classify_file_type org path declared)
  unfolding classify_file_type
  classify_file_type-Reads org path declared =
      Keeps-if (is_empty declared) _ _ (classify_or_nil-Reads path)
        (Keeps-bind _ _ (Keeps-attempt _ (query-Reads _)) (λ r. or_classify-Reads path (or_nil r)))

  or_now-Reads : (o : Option ℤ) → Keeps (Untouched w) (or_now o)
  unfolding ask
  or_now-Reads (some at) = Keeps-pure at
  or_now-Reads none = record { at = Untouched-next w }

module _ (agent org : String) (r : UploadResult) (w : World) where
  -- A step that reads, and what follows it.
  after_reading :
      {A : Type 0} (m : M A) (f : A → M (Unit {0})) (v : World)
      → Keeps (Untouched w) m
      → Untouched w v
      → ((a : A) (v' : World)
          → Untouched w v'
          → Ends (Silent w) (λ _ x. Accounted agent org r w x) (f a v'))
      → Ends (Silent w) (λ _ x. Accounted agent org r w x) ((m >>= f) v)
  after_reading m f v k u next =
      bind-Ends (Silent w) (λ _ v'. Untouched w v') (λ _ x. Accounted agent org r w x) m f v
        (read-Ends agent org r w m v (k.at v u)) next

  -- The bucket is looked up by its name.
  bucket-Ends :
      Ends
        (Silent w)
        (λ o v. (o ≡ w.outside.bucket_id org r.bucket) × Untouched w v)
        (get_bucket_by_name org r.bucket w)
  unfolding get_bucket_by_name
  bucket-Ends =
      Ends-map (Untouched w) (Silent w)
        (λ o v. (o ≡ w.outside.bucket_id org r.bucket) × Untouched w v)
        (λ o v. (o ≡ w.outside.bucket_id org r.bucket) × Untouched w v)
        (query (λ v. v.outside.bucket_id org r.bucket) w) (Untouched-Silent w) (λ o v h. h)
        (query-Ends (λ v. v.outside.bucket_id org r.bucket) w w (Untouched-refl w))

  one_row-Ends :
      (o : Option String) (v : World)
      → (o ≡ w.outside.bucket_id org r.bucket) × Untouched w v
      → Ends
          (Silent w)
          (λ b v'. (w.outside.bucket_id org r.bucket ≡ some b) × Untouched w v')
          (one_row o v)
  one_row-Ends none v h = Untouched-Silent w v h.1
  one_row-Ends (some b) v h = (sym h.0, h.1)

  -- Whatever fails, a result of an agent is accounted for, or it is refused with an error, and then no
  -- upload is logged, no message is published and no suppression is counted. It is accounted for in
  -- one of three ways. A success whose write is suppressed is counted, and no row, tag, log or message
  -- is changed. Any other success is logged once as completed; its row is in the ledger, under the
  -- bucket that has the name in the result, completed, with the size of the result, and the log names
  -- it; and where there is a publisher and its call does not fail, its message is published, once, and
  -- otherwise none is. A failure is logged once as failed, and no row, tag
  -- or message is changed.
  pub handle_upload_result-Accounted :
      Ends (Silent w) (λ _ x. Accounted agent org r w x) (handle_upload_result agent org r w)
  unfolding handle_upload_result
  handle_upload_result-Accounted =
      bind-Ends (Silent w) (λ o v. (o ≡ w.outside.bucket_id org r.bucket) × Untouched w v)
        (λ _ x. Accounted agent org r w x) (get_bucket_by_name org r.bucket) _ w (bucket-Ends)
        (λ row v1 k1.
          bind-Ends (Silent w) (λ b v. (w.outside.bucket_id org r.bucket ≡ some b) × Untouched w v)
            (λ _ x. Accounted agent org r w x) (one_row row) _ v1 (one_row-Ends row v1 k1)
            (λ bucket v2 k2.
              after_reading (rule_of agent org r.rule_id) _ v2 (rule_of-Reads w agent org r.rule_id)
                k2.1
                (λ d v3 u3.
                  after_reading (classify_file_type org r.storage_path d.meta.file_type) _ v3
                    (classify_file_type-Reads w org r.storage_path d.meta.file_type) u3
                    (λ ft v4 u4.
                      after_reading (or_now r.uploaded_at) _ v4 (or_now-Reads w r.uploaded_at) u4
                        (λ at v5 u5. record_result-Ends agent org r w bucket d ft at v5 k2.0 u5)))))
