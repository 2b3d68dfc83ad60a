-- ===== src/Indexer/TagKeeps.antt =====
-- What tagging does to a property of the world: it sets tags, inserts tags that are absent, and queues
-- values, and each of these may fail.
use fileagent.Prelude.{
  String, Bool, true, false, Option, none, some, List, [], ◌∷◌, not, ◌&&◌, ◌||◌, if◌then◌else◌,
}
use fileagent.Prelude.Action.{
  Result, ok, err, attempt, Keeps, Keeps-pure, Keeps-attempt, Keeps-if, Keeps-bind,
}
use fileagent.Filer.Paths.{Text, is_empty}
use fileagent.Indexer.Types.{
  FileTag, TagKeyInfo, PendingTagValue, World, Error, next, statement_failed, M,
}
use fileagent.Indexer.Ledger.{query, execute}
use fileagent.Indexer.Tags.{
  logged, static_tag, set_tag, upsert_file_tag, apply_static_tag, apply_static_tags,
  insert_file_tag_if_absent, insert_tag, find_tag, is_usable, path_var_tag, tag_within_limits,
}
use fileagent.Indexer.PathVars.{
  apply_path_var_tag, apply_path_var_loop, apply_path_var_tags, tag_with_value, after_key,
  after_insert, queue_of, set_pending, is_controlled, forbids, suggestion, pending_of,
  reverse_parse, template_var_name, value_of, queue_pending_if_unregistered, after_exists,
  upsert_pending_tag_value, has_none, with_values,
}

pub either :
    {S E A : Type 0} (Q : S → Type 0) (b : Bool) (x y : Result E A × S)
    → Q x.1
    → Q y.1
    → Q (if b then x else y).1
either Q true x y p q = p
either Q false x y p q = q

logged-Keeps : {A : Type 0} {Q : World → Type 0} (m : M A) → Keeps Q m → Keeps Q (logged m)
logged-Keeps m k = Keeps-bind (attempt m) _ (Keeps-attempt m k) (λ _. Keeps-pure tt)

module _ {Q : World → Type 0} (timeless : (w : World) → Q w → Q (next w)) where
  pub query-Keeps : {A : Type 0} (f : World → A) → Keeps Q (query f)
  unfolding query
  query-Keeps f = record {
    at = λ w h.
        either Q (w.outside.fails w.turn) (err statement_failed, next w) (ok (f w), next w)
          (timeless w h) (timeless w h);
  }

  pub execute-Keeps : (f : World → World) → ((w : World) → Q w → Q (f w)) → Keeps Q (execute f)
  unfolding execute
  execute-Keeps f k = record {
    at = λ w h.
        either Q (w.outside.fails w.turn) (err statement_failed, next w) (ok tt, f (next w))
          (timeless w h) (k (next w) (timeless w h));
  }

module _ {Q : World → Type 0} (timeless : (w : World) → Q w → Q (next w))
    (tagged : (t : FileTag) (w : World) → Q w → Q (set_tag t w)) where
  apply_static_tag-Keeps : (file : String) (t : Text × Text) → Keeps Q (apply_static_tag file t)
  unfolding apply_static_tag upsert_file_tag
  apply_static_tag-Keeps file (key, value) =
      Keeps-if (is_usable key value && tag_within_limits key value) _ _
        (logged-Keeps (upsert_file_tag (static_tag file key value)) (
          execute-Keeps timeless (set_tag (static_tag file key value))
            (λ w h. tagged (static_tag file key value) w h)))
        (Keeps-pure tt)

  pub apply_static_tags-Keeps :
      (file : String) (ts : List (Text × Text)) → Keeps Q (apply_static_tags file ts)
  unfolding apply_static_tags
  apply_static_tags-Keeps file [] = Keeps-pure tt
  apply_static_tags-Keeps file (t ∷ ts) =
      Keeps-bind _ _ (apply_static_tag-Keeps file t) (λ _. apply_static_tags-Keeps file ts)

module _ {Q : World → Type 0} (timeless : (w : World) → Q w → Q (next w))
    (inserted : (t : FileTag) (w : World)
      → Q w
      → Q (insert_tag t (find_tag t.file_entry_id t.key w.tags) w))
    (queued : (p : PendingTagValue) (w : World) → Q w → Q (set_pending p w)) where
  pub insert_file_tag_if_absent-Keeps : (t : FileTag) → Keeps Q (insert_file_tag_if_absent t)
  unfolding insert_file_tag_if_absent
  insert_file_tag_if_absent-Keeps t = record {
    at = λ w h.
        either Q _ (err statement_failed, next w) _ (timeless w h)
          (inserted t (next w) (timeless w h));
  }

  pub upsert_pending-Keeps : (p : PendingTagValue) → Keeps Q (upsert_pending_tag_value p)
  unfolding upsert_pending_tag_value
  upsert_pending-Keeps p = execute-Keeps timeless (set_pending p) (λ w h. queued p w h)

  after_exists-Keeps :
      (org : String) (info : TagKeyInfo) (value : Text) (rule : Option String)
      (r : Result Error Bool)
      → Keeps Q (after_exists org info value rule r)
  after_exists-Keeps org info value rule (err _) = Keeps-pure tt
  after_exists-Keeps org info value rule (ok true) = Keeps-pure tt
  after_exists-Keeps org info value rule (ok false) =
      Keeps-bind _ _ (Keeps-attempt _ (query-Keeps timeless _)) (λ s.
        logged-Keeps (upsert_pending_tag_value (pending_of org info value rule (suggestion s)))
          (upsert_pending-Keeps (pending_of org info value rule (suggestion s))))

  queue_of-Keeps :
      (org : String) (o : Option TagKeyInfo) (value : Text) (rule : Option String)
      → Keeps Q (queue_of org o value rule)
  unfolding queue_pending_if_unregistered
  queue_of-Keeps org none value rule = Keeps-pure tt
  queue_of-Keeps org (some info) value rule =
      Keeps-bind _ _ (Keeps-attempt _ (query-Keeps timeless _))
        (after_exists-Keeps org info value rule)

  after_insert-Keeps :
      (org : String) (o : Option TagKeyInfo) (value : Text) (rule : Option String)
      (r : Result Error Bool)
      → Keeps Q (after_insert org o value rule r)
  after_insert-Keeps org o value rule (err _) = Keeps-pure tt
  after_insert-Keeps org o value rule (ok b) =
      Keeps-if (b && is_controlled o) _ _ (queue_of-Keeps org o value rule) (Keeps-pure tt)

  after_key-Keeps :
      (org file : String) (key value : Text) (rule : Option String)
      (r : Result Error (Option TagKeyInfo))
      → Keeps Q (after_key org file key value rule r)
  after_key-Keeps org file key value rule (err _) = Keeps-pure tt
  after_key-Keeps org file key value rule (ok o) = Keeps-if (forbids o) _ _ (Keeps-pure tt) (
      Keeps-bind _ _
        (Keeps-attempt _ (insert_file_tag_if_absent-Keeps (path_var_tag file key value)))
        (after_insert-Keeps org o value rule))

  tag_with_value-Keeps :
      (org file : String) (key : Text) (rule : Option String) (o : Option Text)
      → Keeps Q (tag_with_value org file key rule o)
  tag_with_value-Keeps org file key rule none = Keeps-pure tt
  tag_with_value-Keeps org file key rule (some value) =
      Keeps-if (is_empty value || not (tag_within_limits key value)) _ _ (Keeps-pure tt) (
        Keeps-bind _ _ (Keeps-attempt _ (query-Keeps timeless _))
          (after_key-Keeps org file key value rule))

  apply_path_var_loop-Keeps :
      (org file : String) (vals : List (Text × Text)) (rule : Option String)
      (ts : List (Text × Text))
      → Keeps Q (apply_path_var_loop org file vals rule ts)
  unfolding apply_path_var_loop apply_path_var_tag
  apply_path_var_loop-Keeps org file vals rule [] = Keeps-pure tt
  apply_path_var_loop-Keeps org file vals rule ((key, ref) ∷ ts) =
      Keeps-bind _ _
        (Keeps-if (is_empty key || is_empty (template_var_name ref)) _ _ (Keeps-pure tt)
          (tag_with_value-Keeps org file key rule (value_of (template_var_name ref) vals)))
        (λ _. apply_path_var_loop-Keeps org file vals rule ts)

  with_values-Keeps :
      (org file : String) (rule : Option String) (ts : List (Text × Text))
      (o : Option (List (Text × Text)))
      → Keeps Q (with_values org file rule ts o)
  with_values-Keeps org file rule ts none = Keeps-pure tt
  with_values-Keeps org file rule ts (some vals) = apply_path_var_loop-Keeps org file vals rule ts

  pub apply_path_var_tags-Keeps :
      (org file : String) (path template : Text) (ts : List (Text × Text)) (rule : Option String)
      → Keeps Q (apply_path_var_tags org file path template ts rule)
  unfolding apply_path_var_tags
  apply_path_var_tags-Keeps org file path template ts rule = record {
    at = λ w h.
        either Q (has_none ts || is_empty template) (ok tt, w) _ h
          ((with_values-Keeps org file rule ts (reverse_parse template path w)).at w h);
  }
