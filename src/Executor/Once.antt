-- ===== src/Executor/Once.antt =====
-- HandleAcknowledgement of reports.go: an acknowledgement that comes again.
use fileagent.Prelude.{
  String, ◌≡◌, refl, ◌∙◌, Bool, true, false, Option, none, some, List, [], ◌∷◌, arith, any, ◌⊎◌,
  Bool-cases, Option-cases, inl, inr,
}
use fileagent.Queue.Types.{Report}
use fileagent.Queue.Monad.{
  unavailable, constraint, not_found, no_rows, index_range, malformed, World, Result, ok, err, next,
}
use fileagent.Queue.Sql.{select}
use fileagent.Queue.Reports.{of_task, first_payload, get_report}
use fileagent.Queue.Acks.{awaits, complete_reported_clear, complete_reported_nothing}
use fileagent.Executor.Types.{UploadReport, Executor}
use fileagent.Executor.Recovery.{acknowledged, acknowledge, handle_acknowledgement}

get_report-tables : (id : String) (w : World) → (get_report id w).1.tables ≡ w.tables
unfolding get_report
get_report-tables id w = elim (Bool-cases (w.fails w.turn)) [
  | inl e ↦ rw e refl
  | inr e ↦ rw e (rows_tables (select (of_task id) w.tables.upload_reports))
]
  where
    rows_tables : (l : List Report) → (first_payload l (next w)).1.tables ≡ w.tables
    rows_tables [] = refl
    rows_tables (r ∷ rs) = refl

-- Where no row waits for it, an acknowledgement changes no table.
acknowledge_nothing :
    (e : Executor) (id : String) (r : Result String) (w : World)
    → any (awaits id) w.tables.upload_tasks ≡ false
    → (acknowledge e id r w).1.tables ≡ w.tables
unfolding acknowledge
acknowledge_nothing e id (err no_rows) w h = refl
acknowledge_nothing e id (err unavailable) w h = refl
acknowledge_nothing e id (err constraint) w h = refl
acknowledge_nothing e id (err not_found) w h = refl
acknowledge_nothing e id (err index_range) w h = refl
acknowledge_nothing e id (err malformed) w h = refl
acknowledge_nothing e id (ok payload) w h = elim (Option-cases (e.unmarshal payload)) [
  | inl q ↦ rw (q, acknowledge) refl
  | inr (report, q) ↦
      rw (q, acknowledge) (complete_reported_nothing id report.success report.sha256 w h)
]

-- Where no report is stored, either.
get_report-no_rows :
    (id : String) (w : World)
    → select (of_task id) w.tables.upload_reports ≡ []
    → ((get_report id w).0 ≡ err no_rows) ⊎ ((get_report id w).0 ≡ err unavailable)
unfolding get_report
get_report-no_rows id w h = elim (Bool-cases (w.fails w.turn)) [
  | inl e ↦ inr (rw e refl)
  | inr e ↦ inl (rw (e, h) refl)
]

no_rows_lem :
    (id : String) (w : World)
    → (get_report id w).0 ≡ err no_rows
    → select (of_task id) w.tables.upload_reports ≡ []
unfolding get_report
no_rows_lem id w h = elim (Bool-cases (w.fails w.turn)) [
  | inl e ↦ absurd (ground arith)
  | inr e ↦ rows_lem (select (of_task id) w.tables.upload_reports) (rw e at h)
]
  where
    rows_lem : (l : List Report) → (first_payload l (next w)).0 ≡ err no_rows → l ≡ []
    rows_lem [] p = refl
    rows_lem (r ∷ rs) p = absurd (cc)

-- Nothing is left to acknowledge: no row waits, or no report is stored.
abbrev Settled : String → World → Type 0
Settled id w =
    (any (awaits id) w.tables.upload_tasks ≡ false)
    ⊎ (select (of_task id) w.tables.upload_reports ≡ [])

acknowledge-Settled :
    (e : Executor) (id : String) (r : Result String) (w : World)
    → (r ≡ err no_rows → select (of_task id) w.tables.upload_reports ≡ [])
    → (acknowledge e id r w).0 ≡ ok tt
    → Settled id (acknowledge e id r w).1
unfolding acknowledge
acknowledge-Settled e id (err no_rows) w none_stored h = inr (none_stored refl)
acknowledge-Settled e id (err unavailable) w none_stored h = absurd (cc)
acknowledge-Settled e id (err constraint) w none_stored h = absurd (cc)
acknowledge-Settled e id (err not_found) w none_stored h = absurd (cc)
acknowledge-Settled e id (err index_range) w none_stored h = absurd (cc)
acknowledge-Settled e id (err malformed) w none_stored h = absurd (cc)
acknowledge-Settled e id (ok payload) w none_stored h = go (e.unmarshal payload) h
  where
    go :
        (o : Option UploadReport)
        → (acknowledged id o w).0 ≡ ok tt
        → Settled id (acknowledged id o w).1
    go none p = absurd (cc)
    go (some report) p = inl (complete_reported_clear id report.success report.sha256 w p)

again-tables :
    (e : Executor) (id : String) (w : World)
    → Settled id w
    → (acknowledge e id (get_report id w).0 (get_report id w).1).1.tables ≡ w.tables
unfolding acknowledge
again-tables e id w (inl clear) =
    acknowledge_nothing e id (get_report id w).0 (get_report id w).1
      (rw (get_report-tables id w) clear)
    ∙ get_report-tables id w
again-tables e id w (inr empty) = elim (get_report-no_rows id w empty) [
  | inl r ↦ rw r (get_report-tables id w)
  | inr r ↦ rw r (get_report-tables id w)
]

-- A successful acknowledgement that the executor carries out settles the task: one that comes for
-- the same task afterwards, whatever it says and whatever fails, leaves every table as it is.
pub handle_acknowledgement_once :
    (e : Executor) (id : String) (again : Bool) (w : World)
    → (handle_acknowledgement e (some (record { success = true; ref_message_id = id })) w).0 ≡ ok tt
    → let w' =
        (handle_acknowledgement e (some (record { success = true; ref_message_id = id })) w).1 in
      (handle_acknowledgement e
        (some (record { success = again; ref_message_id = id }))
        w').1.tables
      ≡ w'.tables
unfolding handle_acknowledgement
handle_acknowledgement_once e id false w h = refl
handle_acknowledgement_once e id true w h =
    again-tables e id
      (handle_acknowledgement e (some (record { success = true; ref_message_id = id })) w).1
      (acknowledge-Settled e id (get_report id w).0 (get_report id w).1
        (λ r. rw (get_report-tables id w) (no_rows_lem id w r)) h)
