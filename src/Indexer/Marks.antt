-- ===== src/Indexer/Marks.antt =====
-- How MarkObservedFileDeleted ends.
use fileagent.Prelude.{◌≡◌, refl, sym, ◌⊎◌, inl, inr, true, Option, none, some, List, []}
use fileagent.Prelude.Action.{ok, err, pure, Ends, bind-Ends, if-Ends}
use fileagent.Indexer.Types.{
  FileEntry, DeleteIndexedFileParams, World, statement_failed, next, deleted,
}
use fileagent.Indexer.Ledger.{
  find_entry, marked, is_newer, soft_deleted, get_indexed_file_by_key, delete_indexed_file,
  after_mark, mark_observed_file_deleted, Deletion, absent, stale, applied, stale_or_absent,
}
use fileagent.Indexer.Newest.{since, not_newer_ordered, write_row_found, write_row-none}
use fileagent.Indexer.Outcomes.{
  Untouched, Untouched-refl, Untouched-next, Untouched-same, query-Ends,
}

-- A deletion has marked the row.
pub record Marked (w : World) (p : DeleteIndexedFileParams) (fe : FileEntry) (w' : World)
    : Type 0 where
  pub found : find_entry p.bucket_id p.storage_path w'.entries ≡ some fe
  pub status : fe.status ≡ deleted
  pub observed_at : fe.observed_at ≡ p.observed_at
  pub published : w'.published ≡ w.published
  pub suppressed_writes : w'.suppressed_writes ≡ w.suppressed_writes
  pub outside : w'.outside ≡ w.outside

abbrev row : World → DeleteIndexedFileParams → Option FileEntry
row w p = find_entry p.bucket_id p.storage_path w.entries

abbrev pub Ended : World → DeleteIndexedFileParams → Deletion → World → Type 0
Ended w p absent w' = Untouched w w' × (row w p ≡ none)
Ended w p (stale fe) w' = Untouched w w' × (since p.observed_at (row w p) ≡ true)
Ended w p (applied fe) w' = Marked w p fe w'

abbrev Answered : World → DeleteIndexedFileParams → Option FileEntry → World → Type 0
Answered w p (some fe) w' = Marked w p fe w'
Answered w p none w' = Untouched w w' × ((row w p ≡ none) ⊎ (since p.observed_at (row w p) ≡ true))

module _ (w : World) (p : DeleteIndexedFileParams) where
  abbrev table : List FileEntry × Option FileEntry
  table = marked (w.outside.now w.turn) w.outside.seq_leb p w.entries

  answer_of_table :
      (r : Option FileEntry) → table.1 ≡ r → Answered w p r (record (next w) { entries = table.0 })
  answer_of_table (some fe) h =
      let (found, good) =
        write_row_found (is_newer w.outside.seq_leb p.observed_at p.event_seq)
          (soft_deleted (w.outside.now w.turn) p) ([], none) p.bucket_id p.storage_path
          (λ fe. (fe.status ≡ deleted) × (fe.observed_at ≡ p.observed_at)) (λ fe h. h)
          (λ fe g. (refl, refl)) fe (λ e. absurd (cc)) w.entries h in
      record {
        found = found;
        status = good.0;
        observed_at = good.1;
        published = refl;
        suppressed_writes = refl;
        outside = refl;
      }
  answer_of_table none h =
      let (same, why) =
        write_row-none (is_newer w.outside.seq_leb p.observed_at p.event_seq)
          (soft_deleted (w.outside.now w.turn) p) ([], none) p.bucket_id p.storage_path (λ e. refl)
          w.entries h in
      (
        Untouched-same w table.0 same,
        elim why [
          | inl (e, _) ↦ inl e
          | inr (fe, found, g) ↦
              inr (rw found (not_newer_ordered w.outside.seq_leb p.observed_at p.event_seq fe g))
        ],
      )

  delete_indexed_file-Ends : Ends (Untouched w) (Answered w p) (delete_indexed_file p w)
  unfolding delete_indexed_file
  delete_indexed_file-Ends =
      if-Ends (Untouched w) (Answered w p) (w.outside.fails w.turn) (err statement_failed, next w)
        (ok table.1, record (next w) { entries = table.0 }) (Untouched-next w w (Untouched-refl w))
        (answer_of_table table.1 refl)

  stale_or_absent-Ended :
      (o : Option FileEntry) (w' : World)
      → o ≡ row w p
      → Untouched w w'
      → (row w p ≡ none) ⊎ (since p.observed_at (row w p) ≡ true)
      → Ended w p (stale_or_absent o) w'
  stale_or_absent-Ended none w' e u why = (u, sym e)
  stale_or_absent-Ended (some fe) w' e u (inl n) = absurd (cc)
  stale_or_absent-Ended (some fe) w' e u (inr s) = (u, s)

  after_mark-Ends :
      (r : Option FileEntry) (w' : World)
      → Answered w p r w'
      → Ends (Untouched w) (Ended w p) (after_mark p r w')
  unfolding get_indexed_file_by_key
  after_mark-Ends (some fe) w' h = h
  after_mark-Ends none w' (u, why) =
      bind-Ends (Untouched w)
        (λ o w''. (o ≡ find_entry p.bucket_id p.storage_path w'.entries) × Untouched w w'')
        (Ended w p) (get_indexed_file_by_key p.bucket_id p.storage_path)
        (λ o. pure (stale_or_absent o)) w'
        (query-Ends (λ v. find_entry p.bucket_id p.storage_path v.entries) w w' u)
        (λ o w'' k. stale_or_absent-Ended o w'' (rw (← u.entries) k.0) k.1 why)

  pub mark_observed_file_deleted-Ends :
      Ends (Untouched w) (Ended w p) (mark_observed_file_deleted p w)
  unfolding mark_observed_file_deleted
  mark_observed_file_deleted-Ends =
      bind-Ends (Untouched w) (Answered w p) (Ended w p) (delete_indexed_file p) (after_mark p) w
        delete_indexed_file-Ends after_mark-Ends
