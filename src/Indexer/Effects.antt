-- ===== src/Indexer/Effects.antt =====
-- What the indexer counts and publishes.
use fileagent.Prelude.{ℕ, Bool, true, false, List, suc, not, ◌∷◌, if◌then◌else◌}
use fileagent.Prelude.Action.{ok}
use fileagent.Indexer.Types.{FileEntry, Outside, World, Published, M, next}

-- A message of the publisher; without a publisher there is none, and a failure is logged.
abbrev pub with_published : Published → World → World
with_published p w = record (next w) { published = p ∷ w.published }

unfoldable pub after_publish : Published → World → World
after_publish p w =
    if not w.outside.has_publisher
    then w
    else if w.outside.publish_fails w.turn
    then next w
    else with_published p w

unfoldable pub publish : Published → M (Unit {0})
unfolding after_publish
publish p w = (ok tt, after_publish p w)

-- Publishing changes neither the rows nor the count of suppressed writes.
pub publish_only :
    (P : List FileEntry → ℕ → Outside → Type 0) (p : Published) (v : World)
    → P v.entries v.suppressed_writes v.outside
    → P
        (after_publish p v).entries
        (after_publish p v).suppressed_writes
        (after_publish p v).outside
unfolding after_publish
publish_only P p v h =
    chosen (not v.outside.has_publisher) v
      (if v.outside.publish_fails v.turn then next v else with_published p v) h
      (chosen (v.outside.publish_fails v.turn) (next v) (with_published p v) h h)
  where
    chosen :
        (b : Bool) (x y : World)
        → P x.entries x.suppressed_writes x.outside
        → P y.entries y.suppressed_writes y.outside
        → P
            (if b then x else y).entries
            (if b then x else y).suppressed_writes
            (if b then x else y).outside
    chosen true x y p q = p
    chosen false x y p q = q

unfoldable pub count_suppressed : M (Unit {0})
count_suppressed w = (ok tt, record w { suppressed_writes = suc w.suppressed_writes })

unfoldable pub count_absent : M (Unit {0})
count_absent w = (ok tt, record w { absent_deletes = suc w.absent_deletes })
