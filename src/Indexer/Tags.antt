-- ===== src/Indexer/Tags.antt =====
-- controlplane/internal/indexer: indexer.go, tagWithinLimits and applyStaticTags, with the statements
-- of queries.go on file_tags.
use fileagent.Prelude.{
  ℕ, String, Bool, true, false, not, ◌&&◌, ◌||◌, Option, none, some, List, [], ◌∷◌, ◌++◌, length,
  leb, str_eq, if◌then◌else◌,
}
use fileagent.Prelude.Action.{ok, err, pure, attempt, ◌>>◌}
use fileagent.Filer.Paths.{Text, is_empty, text_eq}
use fileagent.Indexer.Types.{FileTag, World, M, next, statement_failed}
use fileagent.Indexer.Ledger.{execute}

abbrev pub max_tag_key_len : ℕ
max_tag_key_len = 64

abbrev pub max_tag_value_len : ℕ
max_tag_value_len = 128

unfoldable pub tag_within_limits : Text → Text → Bool
tag_within_limits key value =
    leb (length key) max_tag_key_len && leb (length value) max_tag_value_len

abbrev pub tag_source_rule_static : String
tag_source_rule_static = "rule_static"

abbrev pub tag_source_path_var : String
tag_source_path_var = "path_var"

abbrev pub is_tag : String → Text → FileTag → Bool
is_tag file key t = str_eq t.file_entry_id file && text_eq t.key key

-- The tag of a file under a key.
unfoldable pub find_tag : String → Text → List FileTag → Option FileTag
find_tag file key [] = none
find_tag file key (t ∷ l) =
    let rest = find_tag file key l in if is_tag file key t then some t else rest

-- ON CONFLICT (file_entry_id, key) DO UPDATE
unfoldable pub put_tag : FileTag → List FileTag → List FileTag
put_tag new [] = new ∷ []
put_tag new (t ∷ l) =
    let rest = t ∷ put_tag new l in if is_tag new.file_entry_id new.key t then new ∷ l else rest

abbrev pub set_tag : FileTag → World → World
set_tag t w = record w { tags = put_tag t w.tags }

unfoldable pub upsert_file_tag : FileTag → M (Unit {0})
unfolding execute put_tag
upsert_file_tag t = execute (set_tag t)

abbrev pub insert_tag : FileTag → Option FileTag → World → World
insert_tag t (some old) w = w
insert_tag t none w = record w { tags = w.tags ++ t ∷ [] }

abbrev pub is_none : {A : Type 0} → Option A → Bool
is_none none = true
is_none (some _) = false

-- ON CONFLICT (file_entry_id, key) DO NOTHING: whether a row was inserted.
unfoldable pub insert_file_tag_if_absent : FileTag → M Bool
unfolding find_tag
insert_file_tag_if_absent t w = if w.outside.fails w.turn then (err statement_failed, next w) else (
  ok (is_none (find_tag t.file_entry_id t.key w.tags)),
  insert_tag t (find_tag t.file_entry_id t.key w.tags) (next w),
)

-- A failure that is logged and passed over.
abbrev pub logged : {A : Type 0} → M A → M (Unit {0})
logged m = attempt m >> pure tt

abbrev pub static_tag : String → Text → Text → FileTag
static_tag file key value = record {
  file_entry_id = file;
  key = key;
  value = value;
  source = tag_source_rule_static;
}

abbrev pub path_var_tag : String → Text → Text → FileTag
path_var_tag file key value = record {
  file_entry_id = file;
  key = key;
  value = value;
  source = tag_source_path_var;
}

abbrev pub is_usable : Text → Text → Bool
is_usable key value = not (is_empty key || is_empty value)

unfoldable pub apply_static_tag : String → Text × Text → M (Unit {0})
unfolding tag_within_limits upsert_file_tag
apply_static_tag file (key, value) =
    if is_usable key value && tag_within_limits key value
    then logged (upsert_file_tag (static_tag file key value))
    else pure tt

unfoldable pub apply_static_tags : String → List (Text × Text) → M (Unit {0})
unfolding apply_static_tag
apply_static_tags file [] = pure tt
apply_static_tags file (t ∷ ts) = apply_static_tag file t >> apply_static_tags file ts

abbrev pub null_text : Text → Option Text
null_text t = if is_empty t then none else some t
