-- ===== src/Indexer/Liveness.antt =====
-- HandleUploadResult where no statement fails.
use fileagent.Prelude.{ℕ, String, ◌≡◌, refl, sym, false, Option, none, some}
use fileagent.Prelude.Int.{ℤ}
use fileagent.Prelude.Action.{Result, ok, err, Ends, bind-Ends}
use fileagent.Filer.Paths.{Text, is_empty}
use fileagent.Indexer.Types.{Outside, World, Error}
use fileagent.Indexer.Ledger.{query, one_row}
use fileagent.Indexer.Outcomes.{Untouched, Untouched-refl}
use fileagent.Indexer.Classify.{
  matched, or_nil, classify, classify_or_nil, or_classify, classify_file_type, get_bucket_by_name,
}
use fileagent.Indexer.Upload.{
  UploadResult, Declared, rule_of, validate_rule, parsed_rule, or_now, entry_of_result,
  record_result, handle_upload_result,
}
use fileagent.Indexer.Outcomes.{query-Ends}
use fileagent.Indexer.Total.{
  Answers, Answers-pure, Answers-bind, Answers-if, Outer, Answers-query, read_through,
}
use fileagent.Indexer.Answering.{
  both_Ends, upsert_observed_file-Answers, after_entry-Answers, log_upload-Answers, ask-Answers,
}

module _ (o : Outside) (calm : (n : ℕ) → o.fails n ≡ false) where
  record_result-Answers :
      (agent org : String) (r : UploadResult) (bucket : String) (d : Declared) (ft : Option String)
      (at : ℤ)
      → Answers o (record_result agent org r bucket d ft at)
  unfolding record_result
  record_result-Answers agent org r bucket d ft at =
      Answers-if o r.success _ _
        (Answers-bind o _ _
          (upsert_observed_file-Answers o calm (entry_of_result agent org r bucket d ft at))
          (after_entry-Answers o calm agent org r d))
        (log_upload-Answers o calm agent org r d none)

  or_now-Answers : (t : Option ℤ) → Answers o (or_now t)
  or_now-Answers (some at) = Answers-pure o at
  or_now-Answers none = ask-Answers o calm

  classify_or_nil-Answers : (path : Text) → Answers o (classify_or_nil path)
  unfolding classify
  classify_or_nil-Answers path =
      Answers-bind o _ _ (read_through o calm (matched path)) (λ r. Answers-pure o (or_nil r))

  or_classify-Answers : (path : Text) (t : Option String) → Answers o (or_classify path t)
  or_classify-Answers path (some id) = Answers-pure o (some id)
  or_classify-Answers path none = classify_or_nil-Answers path

  classify_file_type-Answers :
      (org : String) (path declared : Text) → Answers o (classify_file_type org path declared)
  unfolding classify_file_type
  classify_file_type-Answers org path declared =
      Answers-if o (is_empty declared) _ _ (classify_or_nil-Answers path) (
        Answers-bind o _ _ (read_through o calm (λ w. w.outside.file_type_id org declared))
          (λ r. or_classify-Answers path (or_nil r)))

  validate_rule-Answers :
      (agent org : String) (t : Option String) → Answers o (validate_rule agent org t)
  unfolding validate_rule
  validate_rule-Answers agent org none = Answers-pure o _
  validate_rule-Answers agent org (some rule) = Answers-query o calm _

  rule_of-Answers : (agent org text : String) → Answers o (rule_of agent org text)
  unfolding rule_of
  rule_of-Answers agent org text = record {
    at = λ w h. (validate_rule-Answers agent org (parsed_rule text w)).at w h;
  }

  -- The row of a bucket that is there.
  bucket_row-Answers :
      (org : String) (name : Text) (id : String) (w : World) (row : Option String)
      → o.bucket_id org name ≡ some id
      → row ≡ w.outside.bucket_id org name
      → w.outside ≡ o
      → Answers o (one_row row)
  bucket_row-Answers org name id w none e f h =
      let row : o.bucket_id org name ≡ none = rw (← h) (sym f) in absurd (cc)
  bucket_row-Answers org name id w (some b) e f h = Answers-pure o b

  handle_upload_result-Answers :
      (agent org : String) (r : UploadResult) (id : String) (w : World)
      → o.bucket_id org r.bucket ≡ some id
      → w.outside ≡ o
      → Ends (λ _. ⊥) (λ _ w'. w'.outside ≡ o) (handle_upload_result agent org r w)
  unfolding handle_upload_result get_bucket_by_name
  handle_upload_result-Answers agent org r id w known h =
      bind-Ends (λ _. ⊥)
        (λ row v. ((row ≡ w.outside.bucket_id org r.bucket) × Untouched w v) × Outer o v)
        (λ _ w'. w'.outside ≡ o) (query (λ v. v.outside.bucket_id org r.bucket)) _ w
        (both_Ends (Untouched w) (λ row v. (row ≡ w.outside.bucket_id org r.bucket) × Untouched w v)
          (λ _ v. Outer o v) (query (λ v. v.outside.bucket_id org r.bucket) w)
          (query-Ends (λ v. v.outside.bucket_id org r.bucket) w w (Untouched-refl w))
          ((Answers-query o calm (λ v. v.outside.bucket_id org r.bucket)).at w h))
        (λ row v k.
          (Answers-bind o (one_row row) _ (bucket_row-Answers org r.bucket id w row known k.0.0 h)
              (λ bucket. Answers-bind o _ _ (rule_of-Answers agent org r.rule_id) (λ d.
                Answers-bind o _ _ (classify_file_type-Answers org r.storage_path d.meta.file_type)
                  (λ ft.
                    Answers-bind o _ _ (or_now-Answers r.uploaded_at)
                      (λ at. record_result-Answers agent org r bucket d ft at))))).at
            v k.1)

answered_ok :
    {A : Type 0} (Good : A → World → Type 0) (x : Result Error A × World)
    → Ends (λ _. ⊥) Good x
    → (a : A) × (x.0 ≡ ok a)
answered_ok Good (ok a, w) h = (a, refl)
answered_ok Good (err e, w) h = absurd h

unit_ok : (x : Result Error (Unit {0})) → (a : Unit {0}) × (x ≡ ok a) → x ≡ ok tt
unit_ok x (tt, h) = h

-- Where the bucket of a result is known and no statement fails, the result is not refused, whatever
-- its rule, its tags and the rows are.
pub handle_upload_result_ok :
    (agent org : String) (r : UploadResult) (id : String) (w : World)
    → ((n : ℕ) → w.outside.fails n ≡ false)
    → w.outside.bucket_id org r.bucket ≡ some id
    → (handle_upload_result agent org r w).0 ≡ ok tt
handle_upload_result_ok agent org r id w calm known =
    unit_ok (handle_upload_result agent org r w).0 (
      answered_ok (λ _ w'. w'.outside ≡ w.outside) (handle_upload_result agent org r w)
        (handle_upload_result-Answers w.outside calm agent org r id w known refl))
