-- ===== src/Indexer/Handled.antt =====
-- What a change that counts as handled has left in the ledger.
use fileagent.Prelude.{◌≡◌, refl, subst, inl, inr, Option, none, some, List, Bool-cases}
use fileagent.Prelude.Action.{Result, ok, err, Ends}
use fileagent.Filer.Host as Host
use fileagent.Filer.Host.{
  StorageEvent, RowState, ask, set, Config, Host, Handling, applied, foreign_bucket, confirmed,
  bucket_marked,
}
use fileagent.Filer.Subscribe.{same_state_as_fact, after_row_state, after_apply}
use fileagent.Indexer.Types.{World, Error, unknown_bucket, no_rows, statement_failed}
use fileagent.Indexer.Storage.{row_state, row_state_of}
use fileagent.Indexer.Sink.{
  SinkError, suppressed, of_indexer, unsupported_kind, empty_source, suppression_aware_apply,
}
use fileagent.Indexer.History.{Op, perform_all, row_of, perform_all-Since}
use fileagent.Indexer.ReadBack.{
  event_of, answered, if_ok, Holds, same_state-same_for, same_for-HoldsFor, row_state-Ends,
}
use fileagent.Indexer.Sunk.{Later, Sunk, sink-Sunk}

-- What is in the ledger when a change counts as handled: after the sink, or when its row was read.
abbrev pub Settled : StorageEvent → World → World → Handling → Type 0
Settled e applied_in read_in (applied _) = Holds e applied_in
Settled e applied_in read_in (confirmed _ _) = Holds e read_in
Settled e applied_in read_in (foreign_bucket _) = Unit
Settled e applied_in read_in (bucket_marked _) = Unit

row_state-Settled :
    (e : StorageEvent) (w1 w2 : World) (k : Handling)
    → Later e w2
    → after_row_state e (if_ok (row_state e.bucket e.key w2).0) ≡ some k
    → Settled e w1 w2 k
row_state-Settled e w1 w2 k later h =
    by_answer (row_state e.bucket e.key w2).0 (row_state e.bucket e.key w2).1
      (row_state-Ends e.bucket e.key w2) h
  where
    by_answer :
        (a : Result Error RowState) (v : World)
        → Ends
            (λ _. Unit {0})
            (λ st u. st ≡ row_state_of (row_of e.bucket e.key w2.outside w2.entries))
            (a, v)
        → after_row_state e (if_ok a) ≡ some k
        → Settled e w1 w2 k
    by_answer (err x) v p q = absurd (cc)
    by_answer (ok st) v p q = elim (Bool-cases (same_state_as_fact e st)) [
      | inr n ↦ let none_found : none ≡ some k = rw n at q in absurd (cc)
      | inl y ↦
          let found : some (confirmed e st) ≡ some k = rw y at q in
          let same : confirmed e st ≡ k = cc in
          subst (Settled e w1 w2) same (
            same_for-HoldsFor e.kind e (row_of e.bucket e.key w2.outside w2.entries) later (
              rw
                (
                  ← same_state-same_for e
                      (row_state_of (row_of e.bucket e.key w2.outside w2.entries)),
                  ← p,
                )
                y))
    ]

-- The answer that asks for another attempt.
abbrev not_yet : Host.Result (Option Handling)
not_yet = Host.ok none

abbrev counted : Handling → Host.Result (Option Handling)
counted k = Host.ok (some k)

-- A change that counts as handled because of the row that was read.
after_apply_suppressed :
    (cfg : Config) (e : StorageEvent) (h : Host) (k : Handling)
    → (after_apply cfg e (Host.err Host.suppressed) h).0 ≡ Host.ok (some k)
    → after_row_state e (h.row_state h.turn e.bucket e.key) ≡ some k
unfolding after_apply ask
after_apply_suppressed cfg e h k p = elim (Bool-cases cfg.has_reporter) [
  | inl r ↦
      let q : Host.ok (after_row_state e (h.row_state h.turn e.bucket e.key)) ≡ Host.ok (some k) =
        rw r at p in
      cc
  | inr r ↦ let q : not_yet ≡ Host.ok (some k) = rw r at p in absurd (cc)
]

-- The change counts as handled at once.
Settled-by :
    (e : StorageEvent) (w1 w2 : World) (k' k : Handling)
    → counted k' ≡ counted k
    → Settled e w1 w2 k'
    → Settled e w1 w2 k
Settled-by e w1 w2 k' k p = let same : k' ≡ k = cc in subst (Settled e w1 w2) same

not_handled : {P : Type 0} (k : Handling) → not_yet ≡ Host.ok (some k) → P
not_handled k p = absurd (cc)

answer-Settled :
    (cfg : Config) (e : StorageEvent) (w1 w2 : World) (h : Host) (k : Handling)
    (r : Result SinkError (Unit {0}))
    → Sunk e.kind e (r, w1)
    → (r ≡ err suppressed → Later e w2)
    → h.row_state h.turn e.bucket e.key ≡ if_ok (row_state e.bucket e.key w2).0
    → (after_apply cfg e (answered r) h).0 ≡ Host.ok (some k)
    → Settled e w1 w2 k
unfolding after_apply set
answer-Settled cfg e w1 w2 h k (ok _) sunk later row done =
    Settled-by e w1 w2 (applied e) k done sunk
answer-Settled cfg e w1 w2 h k (err suppressed) sunk later row done =
    row_state-Settled e w1 w2 k (later refl) (rw row at (after_apply_suppressed cfg e h k done))
answer-Settled cfg e w1 w2 h k (err (of_indexer unknown_bucket)) sunk later row done =
    Settled-by e w1 w2 (foreign_bucket e) k done tt
answer-Settled cfg e w1 w2 h k (err (of_indexer no_rows)) sunk later row done = not_handled k done
answer-Settled cfg e w1 w2 h k (err (of_indexer statement_failed)) sunk later row done =
    not_handled k done
answer-Settled cfg e w1 w2 h k (err unsupported_kind) sunk later row done = not_handled k done
answer-Settled cfg e w1 w2 h k (err empty_source) sunk later row done = not_handled k done

Later-after :
    (e : StorageEvent) (r : Result SinkError (Unit {0})) (w1 : World) (ops : List Op)
    → Sunk e.kind e (r, w1)
    → r ≡ err suppressed
    → Later e (perform_all ops w1)
Later-after e (err suppressed) w1 ops sunk p =
    perform_all-Since e.bucket e.key e.observed_at ops w1 sunk
Later-after e (ok _) w1 ops sunk p = absurd (cc)
Later-after e (err unsupported_kind) w1 ops sunk p = absurd (cc)
Later-after e (err empty_source) w1 ops sunk p = absurd (cc)
Later-after e (err (of_indexer _)) w1 ops sunk p = absurd (cc)

-- Let the adapter hand a fact to its sink over the ledger, and then, whatever the indexer does in
-- between, read the state of the row where it was told that the write was suppressed. If the change
-- then counts as handled, and not because its bucket is unknown, the ledger holds the fact. For an
-- object that was read: the row of its key is completed, with its size and, if it has one, its etag.
-- For an object that is gone: there is no row of its key, or the row is deleted. In both cases the
-- observation of the row is not before that of the fact.
pub handled-Holds :
    (cfg : Config) (e : StorageEvent) (between : List Op) (w : World) (h : Host) (k : Handling)
    → h.row_state h.turn e.bucket e.key
      ≡ if_ok
          (row_state e.bucket e.key
            (perform_all between (suppression_aware_apply (event_of e) w).1)).0
    → (after_apply cfg e (answered (suppression_aware_apply (event_of e) w).0) h).0
      ≡ Host.ok (some k)
    → Settled e
        (suppression_aware_apply (event_of e) w).1
        (perform_all between (suppression_aware_apply (event_of e) w).1)
        k
handled-Holds cfg e between w h k =
    let sunk = suppression_aware_apply (event_of e) w in
    answer-Settled cfg e sunk.1 (perform_all between sunk.1) h k sunk.0 (sink-Sunk e w)
      (Later-after e sunk.0 sunk.1 between (sink-Sunk e w))
