-- ===== src/Indexer/Outcomes.antt =====
-- How the statements of Ledger.antt end, for the counters, the messages and the row of the key.
use fileagent.Prelude.{
  ℕ, ◌≡◌, refl, ◌⊎◌, inl, inr, Bool, true, false, Option, none, some, List, [], ◌∷◌, eq_iff, arith,
  subst, if◌then◌else◌,
}
use fileagent.Prelude.Int.{ℤ}
use fileagent.Prelude.Action.{Result, ok, err, pure, ◌>>=◌, Ends, bind-Ends, if-Ends}
use fileagent.Filer.Paths.{Text, text_eq}
use fileagent.Indexer.Types.{
  FileEntry, UpsertIndexedFileParams, Outside, World, statement_failed, Error, next,
}
use fileagent.Indexer.Ledger.{
  query, find_entry, coalesce, upserted, is_entry, is_newer, overwritten, observation_time,
  fresh_entry, one_row, after_upsert, upsert_indexed_file, upsert_observed_file,
  get_indexed_file_by_key,
}
use fileagent.Indexer.Newest.{since, not_newer_ordered, write_row_found, write_row-none}

-- What a statement that only reads leaves as it was.
pub record Untouched (w w' : World) : Type 0 where
  pub entries : w'.entries ≡ w.entries
  pub tags : w'.tags ≡ w.tags
  pub upload_logs : w'.upload_logs ≡ w.upload_logs
  pub published : w'.published ≡ w.published
  pub suppressed_writes : w'.suppressed_writes ≡ w.suppressed_writes
  pub outside : w'.outside ≡ w.outside

pub Untouched-refl : (w : World) → Untouched w w
Untouched-refl w = record {
  entries = refl;
  tags = refl;
  upload_logs = refl;
  published = refl;
  suppressed_writes = refl;
  outside = refl;
}

pub Untouched-next : (w w' : World) → Untouched w w' → Untouched w (next w')
Untouched-next w w' h = record {
  entries = h.entries;
  tags = h.tags;
  upload_logs = h.upload_logs;
  published = h.published;
  suppressed_writes = h.suppressed_writes;
  outside = h.outside;
}

pub Untouched-same :
    (w : World) (l : List FileEntry) → l ≡ w.entries → Untouched w (record (next w) { entries = l })
Untouched-same w l h = record {
  entries = h;
  tags = refl;
  upload_logs = refl;
  published = refl;
  suppressed_writes = refl;
  outside = refl;
}

pub query-Ends :
    {A : Type 0} (f : World → A) (w0 w : World)
    → Untouched w0 w
    → Ends (Untouched w0) (λ a w'. (a ≡ f w) × Untouched w0 w') (query f w)
unfolding query
query-Ends f w0 w h =
    if-Ends (Untouched w0) _ (w.outside.fails w.turn) (err statement_failed, next w)
      (ok (f w), next w) (Untouched-next w0 w h) (refl, Untouched-next w0 w h)

pub query-Untouched :
    {A : Type 0} (f : World → A) (w0 w : World) → Untouched w0 w → Untouched w0 (query f w).1
unfolding query
query-Untouched f w0 w h =
    chosen (w.outside.fails w.turn) (err statement_failed, next w) (ok (f w), next w)
      (Untouched-next w0 w h) (Untouched-next w0 w h)
  where
    chosen :
        {A : Type 0} (b : Bool) (x y : Result Error A × World)
        → Untouched w0 x.1
        → Untouched w0 y.1
        → Untouched w0 (if b then x else y).1
    chosen true x y p q = p
    chosen false x y p q = q

-- The row that a write of the key leaves.
pub record Wrote (o : Outside) (p : UpsertIndexedFileParams) (fe : FileEntry) : Type 0 where
  pub status : fe.status ≡ p.status
  pub size_bytes : fe.size_bytes ≡ p.size_bytes
  pub etag : (p.etag ≡ none) ⊎ (fe.etag ≡ p.etag)
  pub observed_at : (n : ℕ) × (fe.observed_at ≡ observation_time (o.now n) p)

-- An upsert has written its row.
pub record Written (w : World) (p : UpsertIndexedFileParams) (fe : FileEntry) (w' : World)
    : Type 0 where
  pub found : find_entry p.bucket_id p.storage_path w'.entries ≡ some fe
  pub wrote : Wrote w.outside p fe
  pub tags : w'.tags ≡ w.tags
  pub upload_logs : w'.upload_logs ≡ w.upload_logs
  pub published : w'.published ≡ w.published
  pub suppressed_writes : w'.suppressed_writes ≡ w.suppressed_writes
  pub outside : w'.outside ≡ w.outside

-- The row of the key is not before the observation.
abbrev pub Guarded : World → UpsertIndexedFileParams → Type 0
Guarded w p =
    (n : ℕ) × (since (observation_time (w.outside.now n) p)
        (find_entry p.bucket_id p.storage_path w.entries)
      ≡ true)

-- An upsert was suppressed.
pub record Evicted (w : World) (p : UpsertIndexedFileParams) (w' : World) : Type 0 where
  pub untouched : Untouched w w'
  pub guarded : Guarded w p

abbrev pub Upserted : World → UpsertIndexedFileParams → FileEntry × Bool → World → Type 0
Upserted w p (fe, true) w' = Evicted w p w'
Upserted w p (fe, false) w' = Written w p fe w'

abbrev pub Answered : World → UpsertIndexedFileParams → Option FileEntry → World → Type 0
Answered w p (some fe) w' = Written w p fe w'
Answered w p none w' = Evicted w p w'

text_eq_refl : (t : Text) → text_eq t t ≡ true
unfolding text_eq
text_eq_refl [] = refl
text_eq_refl (c ∷ t) = ground (arith, text_eq_refl t)

is_entry_refl : (fe : FileEntry) → is_entry fe.bucket_id fe.storage_path fe ≡ true
is_entry_refl fe = rw ((eq_iff fe.bucket_id fe.bucket_id).1 refl, text_eq_refl fe.storage_path)

coalesced : (new old : Option Text) → (new ≡ none) ⊎ (coalesce new old ≡ new)
coalesced none old = inl refl
coalesced (some t) old = inr refl

module _ (w : World) (p : UpsertIndexedFileParams) where
  abbrev at : ℤ
  at = observation_time (w.outside.now w.turn) p

  abbrev new : FileEntry
  new = fresh_entry (w.outside.fresh_id w.turn) (w.outside.now w.turn) at p

  abbrev table : List FileEntry × Option FileEntry
  table = upserted (w.outside.fresh_id w.turn) (w.outside.now w.turn) w.outside.seq_leb p w.entries

  new-Wrote : Wrote w.outside p new
  new-Wrote = record {
    status = refl;
    size_bytes = refl;
    etag = inr refl;
    observed_at = (w.turn, refl);
  }

  overwritten-Wrote :
      (fe : FileEntry) → Wrote w.outside p (overwritten (w.outside.now w.turn) at p fe)
  overwritten-Wrote fe = record {
    status = refl;
    size_bytes = refl;
    etag = coalesced p.etag fe.etag;
    observed_at = (w.turn, refl);
  }

  inserted :
      (r : FileEntry)
      → some new ≡ some r
      → (find_entry p.bucket_id p.storage_path (new ∷ []) ≡ some r) × Wrote w.outside p r
  unfolding find_entry
  inserted r h =
      let same : new ≡ r = cc in
      (rw (is_entry_refl new) h, subst (Wrote w.outside p) same new-Wrote)

  answer_of_table :
      (r : Option FileEntry) → table.1 ≡ r → Answered w p r (record (next w) { entries = table.0 })
  answer_of_table (some fe) h =
      let (found, wrote) =
        write_row_found (is_newer w.outside.seq_leb at p.event_seq)
          (overwritten (w.outside.now w.turn) at p) (new ∷ [], some new) p.bucket_id p.storage_path
          (Wrote w.outside p) (λ fe h. h) (λ fe g. overwritten-Wrote fe) fe (inserted fe) w.entries
          h in
      record {
        found = found;
        wrote = wrote;
        tags = refl;
        upload_logs = refl;
        published = refl;
        suppressed_writes = refl;
        outside = refl;
      }
  answer_of_table none h =
      let (same, why) =
        write_row-none (is_newer w.outside.seq_leb at p.event_seq)
          (overwritten (w.outside.now w.turn) at p) (new ∷ [], some new) p.bucket_id p.storage_path
          (λ e. absurd (cc)) w.entries h in
      record {
        untouched = Untouched-same w table.0 same;
        guarded = elim why [
          | inl (_, e) ↦ absurd (cc)
          | inr (fe, found, g) ↦
              (w.turn, rw found (not_newer_ordered w.outside.seq_leb at p.event_seq fe g))
        ];
      }

  pub upsert_indexed_file-Ends : Ends (Untouched w) (Answered w p) (upsert_indexed_file p w)
  unfolding upsert_indexed_file
  upsert_indexed_file-Ends =
      if-Ends (Untouched w) (Answered w p) (w.outside.fails w.turn) (err statement_failed, next w)
        (ok table.1, record (next w) { entries = table.0 }) (Untouched-next w w (Untouched-refl w))
        (answer_of_table table.1 refl)

  row_or_error :
      (o : Option FileEntry) (w' : World)
      → Evicted w p w'
      → Ends (Untouched w) (Upserted w p) ((one_row o >>= λ fe. pure (fe, true)) w')
  row_or_error none w' h = h.untouched
  row_or_error (some fe) w' h = h

  after_upsert-Ends :
      (r : Option FileEntry) (w' : World)
      → Answered w p r w'
      → Ends (Untouched w) (Upserted w p) (after_upsert p r w')
  unfolding get_indexed_file_by_key
  after_upsert-Ends (some fe) w' h = h
  after_upsert-Ends none w' h =
      bind-Ends (Untouched w)
        (λ o w''. (o ≡ find_entry p.bucket_id p.storage_path w'.entries) × Untouched w w'')
        (Upserted w p) (get_indexed_file_by_key p.bucket_id p.storage_path) _ w'
        (query-Ends (λ v. find_entry p.bucket_id p.storage_path v.entries) w w' h.untouched)
        (λ o w'' k. row_or_error o w'' (record { untouched = k.1; guarded = h.guarded }))

  pub upsert_observed_file-Ends : Ends (Untouched w) (Upserted w p) (upsert_observed_file p w)
  unfolding upsert_observed_file
  upsert_observed_file-Ends =
      bind-Ends (Untouched w) (Answered w p) (Upserted w p) (upsert_indexed_file p) (after_upsert p)
        w upsert_indexed_file-Ends after_upsert-Ends
