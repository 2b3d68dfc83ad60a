-- ===== src/Indexer/Classify.antt =====
-- controlplane/internal/indexer/classifier.go, and indexer.go: classifyFileType; the lookup of a bucket.
use fileagent.Prelude.{
  String, Bool, ◌&&◌, ◌||◌, Option, none, some, List, [], ◌∷◌, ◌==◌, if◌then◌else◌,
}
use fileagent.Prelude.Int.{ltb_ℤ}
use fileagent.Prelude.Action.{Result, ok, err, pure, attempt, ◌>>=◌}
use fileagent.Queue.Sql.{order_by}
use fileagent.Filer.Paths.{Text, codes, is_empty, slash}
use fileagent.Indexer.Types.{World, FileTypeRule, M}
use fileagent.Indexer.Ledger.{query}

-- filepath.Base: trailing separators are cut off, and what is left is read from the last separator.
strip_slashes : Text → Text
strip_slashes [] = []
strip_slashes (c ∷ s) =
    let rest = strip_slashes s in if c == slash && is_empty rest then [] else c ∷ rest

last_element : Text → Text → Text
last_element acc [] = acc
last_element acc (c ∷ s) =
    let rest = last_element s s in if c == slash then rest else last_element acc s

abbrev or_slash : Text → Text
or_slash [] = slash ∷ []
or_slash (c ∷ s) = c ∷ s

-- fileNameFromPath
unfoldable pub file_name_from_path : Text → Text
unfolding strip_slashes last_element
file_name_from_path [] = codes "."
file_name_from_path (c ∷ s) =
    or_slash (last_element (strip_slashes (c ∷ s)) (strip_slashes (c ∷ s)))

unfoldable pub first_match : (Text → Text → Bool) → Text → List FileTypeRule → Option String
unfolding file_name_from_path
first_match matches path [] = none
first_match matches path (r ∷ rs) =
    let rest = first_match matches path rs in
    if matches r.path_pattern path || matches r.path_pattern (file_name_from_path path)
    then some r.file_type_id
    else rest

abbrev pub matched : Text → World → Option String
unfolding first_match order_by
matched path w =
    first_match w.outside.path_matches path
      (order_by (λ a b. ltb_ℤ b.priority a.priority) w.outside.file_type_rules)

-- Classify: the rules in the order of ListFileTypeRules.
unfoldable pub classify : Text → M (Option String)
unfolding query first_match order_by
classify path = query (matched path)

abbrev pub or_nil : {E : Type 0} → Result E (Option String) → Option String
or_nil (ok id) = id
or_nil (err _) = none

abbrev pub classify_or_nil : Text → M (Option String)
classify_or_nil path = do id ← attempt (classify path); pure (or_nil id)

abbrev pub or_classify : Text → Option String → M (Option String)
or_classify path (some id) = pure (some id)
or_classify path none = classify_or_nil path

-- classifyFileType
unfoldable pub classify_file_type : String → Text → Text → M (Option String)
unfolding classify query
classify_file_type org path declared = if is_empty declared then classify_or_nil path else (do
  id ← attempt (query (λ w. w.outside.file_type_id org declared))
  or_classify path (or_nil id))

-- GetBucketByName
unfoldable pub get_bucket_by_name : String → Text → M (Option String)
unfolding query
get_bucket_by_name org name = query (λ w. w.outside.bucket_id org name)
