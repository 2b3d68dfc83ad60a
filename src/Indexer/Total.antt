-- ===== src/Indexer/Total.antt =====
-- Tagging and reading, where no statement fails.
use fileagent.Prelude.{
  ℕ, String, ◌≡◌, Bool, true, false, not, ◌&&◌, ◌||◌, Option, none, some, List, [], ◌∷◌, ◌∙◌,
  if◌then◌else◌,
}
use fileagent.Prelude.Action.{
  Result, ok, err, pure, attempt, ◌>>=◌, Ends, bind-Ends, if-Ends, Keeps,
}
use fileagent.Filer.Paths.{Text, is_empty}
use fileagent.Indexer.Types.{FileTag, TagKeyInfo, Outside, World, Error, M, next}
use fileagent.Indexer.Ledger.{query, execute}
use fileagent.Indexer.Tags.{
  logged, static_tag, path_var_tag, set_tag, upsert_file_tag, apply_static_tag, apply_static_tags,
  insert_file_tag_if_absent, insert_tag, find_tag, is_usable, tag_within_limits,
}
use fileagent.Indexer.PathVars.{
  apply_path_var_tag, apply_path_var_loop, apply_path_var_tags, tag_with_value, after_key,
  after_insert, forbids, suggestion, pending_of, reverse_parse, template_var_name, value_of,
  queue_pending_if_unregistered, after_exists, upsert_pending_tag_value, has_none, with_values,
}
use fileagent.Indexer.TagKeeps

-- Whatever state an action starts in, with these things outside, it answers.
pub record Answers {A : Type 0} (o : Outside) (m : M A) : Type 0 where
  pub at : (w : World) → w.outside ≡ o → Ends (λ _. ⊥) (λ _ w'. w'.outside ≡ o) (m w)

module _ (o : Outside) where
  pub Answers-pure : {A : Type 0} (a : A) → Answers o (pure a)
  Answers-pure a = record { at = λ w h. h }

  pub Answers-bind :
      {A B : Type 0} (m : M A) (f : A → M B)
      → Answers o m
      → ((a : A) → Answers o (f a))
      → Answers o (m >>= f)
  Answers-bind m f km kf = record {
    at = λ w h.
        bind-Ends (λ _. ⊥) (λ _ w'. w'.outside ≡ o) (λ _ w'. w'.outside ≡ o) m f w (km.at w h)
          (λ a w' k. (kf a).at w' k);
  }

  pub Answers-if :
      {A : Type 0} (b : Bool) (m n : M A)
      → Answers o m
      → Answers o n
      → Answers o (if b then m else n)
  Answers-if true m n p q = p
  Answers-if false m n p q = q

  -- What is outside does not change.
  abbrev pub Outer : World → Type 0
  Outer w = w.outside ≡ o

  pub Answers-attempt : {A : Type 0} (m : M A) → Keeps Outer m → Answers o (attempt m)
  Answers-attempt m k = record { at = k.at }

module _ (o : Outside) (calm : (n : ℕ) → o.fails n ≡ false) where
  pub no_failure : (w : World) → w.outside ≡ o → w.outside.fails w.turn ≡ false
  no_failure w h = rw h (calm w.turn)

  pub Answers-query : {A : Type 0} (f : World → A) → Answers o (query f)
  unfolding query
  Answers-query f = record { at = λ w h. rw (no_failure w h) h }

  pub Answers-execute :
      (f : World → World) → ((w : World) → (f w).outside ≡ w.outside) → Answers o (execute f)
  unfolding execute
  Answers-execute f k = record { at = λ w h. rw (no_failure w h) (k (next w) ∙ h) }

  Outer-insert :
      (t : FileTag) (x : Option FileTag) (w : World) → Outer o w → Outer o (insert_tag t x w)
  Outer-insert t none w h = h
  Outer-insert t (some old) w h = h

  Answers-logged : {A : Type 0} (m : M A) → Keeps (Outer o) m → Answers o (logged m)
  Answers-logged m k = Answers-bind o (attempt m) _ (Answers-attempt o m k) (λ _. Answers-pure o tt)

  pub read_through : {A : Type 0} (f : World → A) → Answers o (attempt (query f))
  read_through f = Answers-attempt o (query f) (TagKeeps.query-Keeps {Q = Outer o} (λ w h. h) f)

  pub static_tags-Answers :
      (file : String) (ts : List (Text × Text)) → Answers o (apply_static_tags file ts)
  unfolding apply_static_tags apply_static_tag upsert_file_tag
  static_tags-Answers file [] = Answers-pure o tt
  static_tags-Answers file ((key, value) ∷ ts) =
      Answers-bind o _ _
        (Answers-if o (is_usable key value && tag_within_limits key value) _ _
          (Answers-logged (execute (set_tag (static_tag file key value))) (
            TagKeeps.execute-Keeps {Q = Outer o} (λ w h. h) (set_tag (static_tag file key value))
              (λ w h. h)))
          (Answers-pure o tt))
        (λ _. static_tags-Answers file ts)

  after_exists-Answers :
      (org : String) (info : TagKeyInfo) (value : Text) (rule : Option String)
      (r : Result Error Bool)
      → Answers o (after_exists org info value rule r)
  after_exists-Answers org info value rule (err _) = Answers-pure o tt
  after_exists-Answers org info value rule (ok true) = Answers-pure o tt
  after_exists-Answers org info value rule (ok false) =
      Answers-bind o _ _ (read_through (λ w. w.outside.similar_tag_value info.id value)) (λ s.
        Answers-logged (upsert_pending_tag_value (pending_of org info value rule (suggestion s))) (
          TagKeeps.upsert_pending-Keeps {Q = Outer o} (λ w h. h)
            (λ t w h. Outer-insert t (find_tag t.file_entry_id t.key w.tags) w h) (λ p w h. h)
            (pending_of org info value rule (suggestion s))))

  after_insert-Answers :
      (org : String) (i : Option TagKeyInfo) (value : Text) (rule : Option String)
      (r : Result Error Bool)
      → Answers o (after_insert org i value rule r)
  unfolding queue_pending_if_unregistered
  after_insert-Answers org i value rule (err _) = Answers-pure o tt
  after_insert-Answers org none value rule (ok b) =
      Answers-if o (b && false) _ _ (Answers-pure o tt) (Answers-pure o tt)
  after_insert-Answers org (some info) value rule (ok b) =
      Answers-if o (b && info.value_controlled) _ _
        (Answers-bind o _ _ (read_through (λ w. w.outside.tag_value_exists info.id value))
          (after_exists-Answers org info value rule))
        (Answers-pure o tt)

  after_key-Answers :
      (org file : String) (key value : Text) (rule : Option String)
      (r : Result Error (Option TagKeyInfo))
      → Answers o (after_key org file key value rule r)
  after_key-Answers org file key value rule (err _) = Answers-pure o tt
  after_key-Answers org file key value rule (ok i) =
      Answers-if o (forbids i) _ _ (Answers-pure o tt) (
        Answers-bind o _ _
          (Answers-attempt o (insert_file_tag_if_absent (path_var_tag file key value)) (
            TagKeeps.insert_file_tag_if_absent-Keeps {Q = Outer o} (λ w h. h)
              (λ t w h. Outer-insert t (find_tag t.file_entry_id t.key w.tags) w h) (λ p w h. h)
              (path_var_tag file key value)))
          (after_insert-Answers org i value rule))

  tag_with_value-Answers :
      (org file : String) (key : Text) (rule : Option String) (v : Option Text)
      → Answers o (tag_with_value org file key rule v)
  tag_with_value-Answers org file key rule none = Answers-pure o tt
  tag_with_value-Answers org file key rule (some value) =
      Answers-if o (is_empty value || not (tag_within_limits key value)) _ _ (Answers-pure o tt) (
        Answers-bind o _ _ (read_through (λ w. w.outside.tag_key org key))
          (after_key-Answers org file key value rule))

  path_var_loop-Answers :
      (org file : String) (vals : List (Text × Text)) (rule : Option String)
      (ts : List (Text × Text))
      → Answers o (apply_path_var_loop org file vals rule ts)
  unfolding apply_path_var_loop apply_path_var_tag
  path_var_loop-Answers org file vals rule [] = Answers-pure o tt
  path_var_loop-Answers org file vals rule ((key, ref) ∷ ts) =
      Answers-bind o _ _
        (Answers-if o (is_empty key || is_empty (template_var_name ref)) _ _ (Answers-pure o tt)
          (tag_with_value-Answers org file key rule (value_of (template_var_name ref) vals)))
        (λ _. path_var_loop-Answers org file vals rule ts)

  with_values-Answers :
      (org file : String) (rule : Option String) (ts : List (Text × Text))
      (v : Option (List (Text × Text)))
      → Answers o (with_values org file rule ts v)
  with_values-Answers org file rule ts none = Answers-pure o tt
  with_values-Answers org file rule ts (some vals) = path_var_loop-Answers org file vals rule ts

  pub path_var_tags-Answers :
      (org file : String) (path template : Text) (ts : List (Text × Text)) (rule : Option String)
      → Answers o (apply_path_var_tags org file path template ts rule)
  unfolding apply_path_var_tags
  path_var_tags-Answers org file path template ts rule = record {
    at = λ w h.
        if-Ends (λ _. ⊥) (λ _ w'. w'.outside ≡ o) (has_none ts || is_empty template) (ok tt, w)
          (with_values org file rule ts (reverse_parse template path w) w) h
          ((with_values-Answers org file rule ts (reverse_parse template path w)).at w h);
  }
