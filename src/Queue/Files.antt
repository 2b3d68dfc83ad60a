-- ===== src/Queue/Files.antt =====
-- agent/internal/queue/queue.go: processed_files and rules.
use fileagent.Prelude.{
  String, Bool, not, ◌&&◌, Option, none, some, List, [], ◌∷◌, ◌++◌, ◌==◌, ltb, str_eq,
  if◌then◌else◌, any, count_where,
}
use fileagent.Prelude.Int.{ℤ, ◌=ℤ◌}
use fileagent.Queue.Types.{ProcessedFile, Rule, Tables}
use fileagent.Queue.Monad.{
  constraint, no_rows, Result, ok, err, M, pure, raise, now, exec, query, ◌>>=◌,
}
use fileagent.Queue.Sql.{select, update}

-- The UNIQUE columns (rule_id, local_path).
abbrev pub same_key : String → String → ProcessedFile → Bool
same_key rule path r = str_eq r.rule_id rule && str_eq r.local_path path

-- `offsets[path] = size` for each row, a later row over an earlier one.
unfoldable pub offset_map : List ProcessedFile → String → Option ℤ
offset_map [] path = none
offset_map (r ∷ rs) path = elim (offset_map rs path) [
  | some size ↦ some size
  | none ↦ if str_eq r.local_path path then some r.file_size else none
]

unfoldable pub tail_offsets : String → M (String → Option ℤ)
unfolding query
tail_offsets rule_id =
    query (λ t. offset_map (select (λ r. str_eq r.rule_id rule_id) t.processed_files))

abbrev pub excluded : ProcessedFile → ProcessedFile → ProcessedFile
excluded f r = record r {
  id = f.id;
  file_size = f.file_size;
  file_mtime = f.file_mtime;
  sha256 = f.sha256;
  uploaded_at = f.uploaded_at;
}

-- ON CONFLICT(rule_id, local_path) DO UPDATE; an id that another row has violates PRIMARY KEY.
abbrev pub upsert_file : ProcessedFile → List ProcessedFile → Result (List ProcessedFile)
upsert_file f l =
    if any (λ r. str_eq r.id f.id && not (same_key f.rule_id f.local_path r)) l
    then err constraint
    else if any (same_key f.rule_id f.local_path) l
    then ok (update (same_key f.rule_id f.local_path) (excluded f) l)
    else ok (l ++ f ∷ [])

abbrev pub set_files : Tables → Result (List ProcessedFile) → Result (Unit {0} × Tables)
set_files t (ok l) = ok (tt, record t { processed_files = l })
set_files t (err e) = err e

unfoldable pub upsert_processed_file : ProcessedFile → M (Unit {0})
unfolding exec now
upsert_processed_file f =
    if f.uploaded_at == 0
    then (do
      n ← now
      exec (λ t. set_files t (upsert_file (record f { uploaded_at = n }) t.processed_files)))
    else exec (λ t. set_files t (upsert_file f t.processed_files))

abbrev pub is_file : String → String → ℤ → ℤ → ProcessedFile → Bool
is_file rule path mtime size r =
    str_eq r.rule_id rule
    && str_eq r.local_path path
    && (r.file_mtime =ℤ mtime)
    && (r.file_size =ℤ size)

unfoldable pub is_processed : String → String → ℤ → ℤ → M Bool
unfolding query
is_processed rule path mtime size =
    query (λ t. ltb 0 (count_where (is_file rule path mtime size) t.processed_files))

-- INSERT … ON CONFLICT(id) DO UPDATE
abbrev pub put_rule : Rule → List Rule → List Rule
put_rule r l =
    if any (λ o. str_eq o.id r.id) l
    then update (λ o. str_eq o.id r.id)
        (λ o. record o { payload = r.payload; updated_at = r.updated_at }) l
    else l ++ r ∷ []

unfoldable pub upsert_rule : Rule → M (Unit {0})
unfolding exec now
upsert_rule r =
    if r.updated_at == 0
    then (do
      n ← now
      exec (λ t. ok (tt, record t { rules = put_rule (record r { updated_at = n }) t.rules })))
    else exec (λ t. ok (tt, record t { rules = put_rule r t.rules }))

abbrev first_rule : List Rule → M Rule
first_rule [] = raise no_rows
first_rule (r ∷ _) = pure r

unfoldable pub get_rule : String → M Rule
unfolding query
get_rule id = do rows ← query (λ t. select (λ o. str_eq o.id id) t.rules); first_rule rows
