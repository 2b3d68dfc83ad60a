-- ===== src/Indexer/Explicit.antt =====
-- The tags that a file has, and those that its path gives.
use fileagent.Prelude.{String, ◌≡◌, Option, none, some, List, [], ◌∷◌, ◌++◌, Bool-cases, inl, inr}
use fileagent.Filer.Paths.{Text}
use fileagent.Indexer.Types.{FileTag, World}
use fileagent.Indexer.Tags.{find_tag, is_tag, insert_tag}
use fileagent.Indexer.PathVars.{apply_path_var_tags}
use fileagent.Indexer.TagKeeps

-- The file has this tag under the key.
abbrev pub HasTag : String → Text → FileTag → World → Type 0
HasTag file key t w = find_tag file key w.tags ≡ some t

find_tag-append :
    (file : String) (key : Text) (t : FileTag) (l : List FileTag) (new : FileTag)
    → find_tag file key l ≡ some t
    → find_tag file key (l ++ new ∷ []) ≡ some t
unfolding find_tag
find_tag-append file key t [] new h = absurd (cc)
find_tag-append file key t (x ∷ l) new h = elim (Bool-cases (is_tag file key x)) [
  | inl e ↦ rw e (rw e at h)
  | inr e ↦ rw e (find_tag-append file key t l new (rw e at h))
]

insert_tag-HasTag :
    (file : String) (key : Text) (t new : FileTag) (o : Option FileTag) (w : World)
    → HasTag file key t w
    → HasTag file key t (insert_tag new o w)
insert_tag-HasTag file key t new none w h = find_tag-append file key t w.tags new h
insert_tag-HasTag file key t new (some old) w h = h

-- Whatever the template and the path say, and whatever fails, every tag that any file has before the
-- path variables are applied it has afterwards, with the same value and source.
pub apply_path_var_tags-HasTag :
    (org file : String) (path template : Text) (ts : List (Text × Text)) (rule : Option String)
    (other : String) (key : Text) (t : FileTag) (w : World)
    → HasTag other key t w
    → HasTag other key t (apply_path_var_tags org file path template ts rule w).1
apply_path_var_tags-HasTag org file path template ts rule other key t w h =
    (TagKeeps.apply_path_var_tags-Keeps {Q = HasTag other key t} (λ w k. k)
        (λ new w k.
          insert_tag-HasTag other key t new (find_tag new.file_entry_id new.key w.tags) w k)
        (λ p w k. k) org file path template ts rule).at
      w h
