-- ===== src/Indexer/PathVars.antt =====
-- controlplane/internal/indexer: indexer.go, templateVarName, applyPathVarTags and
-- queuePendingIfUnregistered, with the statement of queries.go on pending_tag_values.
use fileagent.Prelude.{
  ℕ, suc, String, Bool, true, false, not, ◌&&◌, ◌||◌, Option, none, some, List, [], ◌∷◌, ◌==◌,
  length, leb, ltb, str_eq, if◌then◌else◌,
}
use fileagent.Prelude.Action.{Result, ok, err, pure, attempt, ◌>>=◌, ◌>>◌}
use fileagent.Filer.Paths.{Text, is_empty, text_eq, ends_with, contains, cut, slash}
use fileagent.Filer.LogName.{trim}
use fileagent.Indexer.Types.{PendingTagValue, TagKeyInfo, World, M}
use fileagent.Indexer.Ledger.{query, execute}
use fileagent.Indexer.Tags.{
  tag_within_limits, path_var_tag, insert_file_tag_if_absent, logged, null_text,
}

-- unicode.IsSpace of an ASCII character
abbrev pub is_space : ℕ → Bool
is_space c = c == 32 || leb 9 c && leb c 13

abbrev pub without_format : Text → Option (Text × Text) → Text
without_format inner none = inner
without_format inner (some (name, format)) = name

abbrev pub is_bare : Text → Bool
is_bare inner = not (contains b'{' inner || contains b'}' inner)

-- The text without its last character.
abbrev pub init : Text → Text
init [] = []
init (c ∷ []) = []
init (c ∷ d ∷ s) = c ∷ init (d ∷ s)

abbrev pub var_in_braces : Text → Text
var_in_braces [] = []
var_in_braces (c ∷ s) =
    if ltb (length (c ∷ s)) 3 || not (c == b'{') || not (ends_with b'}' (c ∷ s))
    then []
    else if is_bare (init s)
    then trim is_space (without_format (init s) (cut b':' (init s)))
    else []

-- templateVarName
unfoldable pub template_var_name : Text → Text
unfolding contains cut ends_with trim
template_var_name ref = var_in_braces (trim is_space ref)

-- trollsift.NormalizeTemplate and NormalizeObjectKey
unfoldable pub normalize : Text → Text
normalize [] = []
normalize (c ∷ s) = let rest = normalize s in if c == slash then rest else c ∷ s

unfoldable pub value_of : Text → List (Text × Text) → Option Text
value_of name [] = none
value_of name ((n, v) ∷ l) = let rest = value_of name l in if text_eq n name then some v else rest

abbrev pub is_pending : String → Text → PendingTagValue → Bool
is_pending tag_key value p = str_eq p.tag_key_id tag_key && text_eq p.extracted_value value

-- ON CONFLICT (tag_key_id, extracted_value) DO UPDATE
unfoldable pub put_pending : PendingTagValue → List PendingTagValue → List PendingTagValue
put_pending new [] = new ∷ []
put_pending new (p ∷ l) =
    let rest = p ∷ put_pending new l in
    if is_pending new.tag_key_id new.extracted_value p
    then record p { hit_count = suc p.hit_count } ∷ l
    else rest

abbrev pub set_pending : PendingTagValue → World → World
set_pending p w = record w { pending_tag_values = put_pending p w.pending_tag_values }

unfoldable pub upsert_pending_tag_value : PendingTagValue → M (Unit {0})
unfolding execute put_pending
upsert_pending_tag_value p = execute (set_pending p)

abbrev pub suggestion : {E : Type 0} → Result E Text → Option Text
suggestion (ok v) = null_text v
suggestion (err _) = none

abbrev pub pending_of : String → TagKeyInfo → Text → Option String → Option Text → PendingTagValue
pending_of org info value rule suggested = record {
  org_id = org;
  tag_key_id = info.id;
  extracted_value = value;
  source = "path_var";
  source_rule_id = rule;
  suggested_value = suggested;
  hit_count = 1;
}

abbrev pub after_exists :
    {E : Type 0} → String → TagKeyInfo → Text → Option String → Result E Bool → M (Unit {0})
after_exists org info value rule (err _) = pure tt
after_exists org info value rule (ok true) = pure tt
after_exists org info value rule (ok false) = do
  similar ← attempt (query (λ w. w.outside.similar_tag_value info.id value))
  logged (upsert_pending_tag_value (pending_of org info value rule (suggestion similar)))

-- queuePendingIfUnregistered
unfoldable pub queue_pending_if_unregistered :
    String → TagKeyInfo → Text → Option String → M (Unit {0})
unfolding query upsert_pending_tag_value
queue_pending_if_unregistered org info value rule = do
  exists ← attempt (query (λ w. w.outside.tag_value_exists info.id value))
  after_exists org info value rule exists

abbrev pub is_controlled : Option TagKeyInfo → Bool
is_controlled none = false
is_controlled (some info) = info.value_controlled

abbrev pub queue_of : String → Option TagKeyInfo → Text → Option String → M (Unit {0})
queue_of org none value rule = pure tt
queue_of org (some info) value rule = queue_pending_if_unregistered org info value rule

abbrev pub after_insert :
    {E : Type 0} → String → Option TagKeyInfo → Text → Option String → Result E Bool → M (Unit {0})
after_insert org info value rule (err _) = pure tt
after_insert org info value rule (ok inserted) =
    if inserted && is_controlled info then queue_of org info value rule else pure tt

abbrev pub forbids : Option TagKeyInfo → Bool
forbids none = false
forbids (some info) = not info.allow_path_var

abbrev pub after_key :
    {E : Type 0}
    → String
    → String
    → Text
    → Text
    → Option String
    → Result E (Option TagKeyInfo)
    → M (Unit {0})
after_key org file key value rule (err _) = pure tt
after_key org file key value rule (ok info) = if forbids info then pure tt else (do
  inserted ← attempt (insert_file_tag_if_absent (path_var_tag file key value))
  after_insert org info value rule inserted)

abbrev pub tag_with_value : String → String → Text → Option String → Option Text → M (Unit {0})
tag_with_value org file key rule none = pure tt
tag_with_value org file key rule (some value) =
    if is_empty value || not (tag_within_limits key value) then pure tt else (do
      info ← attempt (query (λ w. w.outside.tag_key org key))
      after_key org file key value rule info)

-- One round of the loop of applyPathVarTags.
unfoldable pub apply_path_var_tag :
    String → String → List (Text × Text) → Option String → Text × Text → M (Unit {0})
unfolding insert_file_tag_if_absent queue_pending_if_unregistered query value_of template_var_name
    tag_within_limits
apply_path_var_tag org file vals rule (key, ref) =
    if is_empty key || is_empty (template_var_name ref)
    then pure tt
    else tag_with_value org file key rule (value_of (template_var_name ref) vals)

unfoldable pub apply_path_var_loop :
    String → String → List (Text × Text) → Option String → List (Text × Text) → M (Unit {0})
unfolding apply_path_var_tag
apply_path_var_loop org file vals rule [] = pure tt
apply_path_var_loop org file vals rule (t ∷ ts) =
    apply_path_var_tag org file vals rule t >> apply_path_var_loop org file vals rule ts

abbrev pub with_values :
    String
    → String
    → Option String
    → List (Text × Text)
    → Option (List (Text × Text))
    → M (Unit {0})
with_values org file rule tag_map none = pure tt
with_values org file rule tag_map (some vals) = apply_path_var_loop org file vals rule tag_map

abbrev pub has_none : {A : Type 0} → List A → Bool
has_none [] = true
has_none (_ ∷ _) = false

-- The values of the variables in the path, by the parser.
abbrev pub reverse_parse : Text → Text → World → Option (List (Text × Text))
reverse_parse template path w = w.outside.path_values (normalize template) (normalize path)

-- applyPathVarTags
unfoldable pub apply_path_var_tags :
    String → String → Text → Text → List (Text × Text) → Option String → M (Unit {0})
unfolding apply_path_var_loop normalize
apply_path_var_tags org file path template tag_map rule w =
    if has_none tag_map || is_empty template
    then (ok tt, w)
    else with_values org file rule tag_map (reverse_parse template path w) w
