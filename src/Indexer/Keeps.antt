-- ===== src/Indexer/Keeps.antt =====
-- What the operations of the indexer do to the ledger: they write it by two statements only, so what
-- these keep is kept by each operation.
use fileagent.Prelude.{String, Bool, true, false, Option, none, some, List, if◌then◌else◌}
use fileagent.Prelude.Action.{
  Result, attempt, Keeps, Keeps-pure, Keeps-raise, Keeps-attempt, Keeps-bind,
}
use fileagent.Filer.Paths.{Text}
use fileagent.Indexer.Types.{FileEntry, FileTag, Published, Outside, World, Error, no_rows, M}
use fileagent.Indexer.Ledger.{query, execute, ask, one_row}
use fileagent.Indexer.Tags.{logged, apply_static_tags, insert_tag, find_tag}
use fileagent.Indexer.PathVars.{apply_path_var_tags}
use fileagent.Indexer.Effects.{publish, publish_only}
use fileagent.Indexer.TagKeeps

-- A property of the ledger alone, and of what is outside.
abbrev pub OnLedger : (Outside → List FileEntry → Type 0) → World → Type 0
OnLedger R w = R w.outside w.entries

module _ (R : Outside → List FileEntry → Type 0) where
  pub either :
      {A : Type 0} (b : Bool) (x y : Result Error A × World)
      → OnLedger R x.1
      → OnLedger R y.1
      → OnLedger R (if b then x else y).1
  either true x y p q = p
  either false x y p q = q

  pub Keeps-query : {A : Type 0} (f : World → A) → Keeps (OnLedger R) (query f)
  unfolding query
  Keeps-query f = record { at = λ w h. either _ _ _ h h }

  pub Keeps-execute :
      (f : World → World)
      → ((w : World) → OnLedger R w → OnLedger R (f w))
      → Keeps (OnLedger R) (execute f)
  unfolding execute
  Keeps-execute f k = record { at = λ w h. either _ _ _ h (k _ h) }

  pub Keeps-ask : {A : Type 0} (f : World → A) → Keeps (OnLedger R) (ask f)
  unfolding ask
  Keeps-ask f = record { at = λ w h. h }

  pub Keeps-one_row : {A : Type 0} (o : Option A) → Keeps (OnLedger R) (one_row o)
  Keeps-one_row none = Keeps-raise no_rows
  Keeps-one_row (some a) = Keeps-pure a

  pub Keeps-logged : {A : Type 0} (m : M A) → Keeps (OnLedger R) m → Keeps (OnLedger R) (logged m)
  Keeps-logged m k = Keeps-bind (attempt m) _ (Keeps-attempt m k) (λ _. Keeps-pure tt)

  pub publish-Keeps : (p : Published) → Keeps (OnLedger R) (publish p)
  unfolding publish
  publish-Keeps p = record { at = λ w h. publish_only (λ l _ o. R o l) p w h }

  pub apply_static_tags-Keeps :
      (file : String) (ts : List (Text × Text)) → Keeps (OnLedger R) (apply_static_tags file ts)
  apply_static_tags-Keeps file ts =
      TagKeeps.apply_static_tags-Keeps {Q = OnLedger R} (λ w h. h) (λ t w h. h) file ts

  inserted_keeps :
      (t : FileTag) (o : Option FileTag) (w : World) → OnLedger R w → OnLedger R (insert_tag t o w)
  inserted_keeps t none w h = h
  inserted_keeps t (some old) w h = h

  pub apply_path_var_tags-Keeps :
      (org file : String) (path template : Text) (ts : List (Text × Text)) (rule : Option String)
      → Keeps (OnLedger R) (apply_path_var_tags org file path template ts rule)
  apply_path_var_tags-Keeps org file path template ts rule =
      TagKeeps.apply_path_var_tags-Keeps {Q = OnLedger R} (λ w h. h)
        (λ t w h. inserted_keeps t (find_tag t.file_entry_id t.key w.tags) w h) (λ p w h. h) org
        file path template ts rule
