-- ===== src/Indexer/Logged.antt =====
-- How the insert of an upload log ends.
use fileagent.Prelude.{String, ◌≡◌, refl, ap, Option, ◌∷◌, ◌∙◌}
use fileagent.Prelude.Int.{ℤ}
use fileagent.Prelude.Action.{ok, err, Ends, if-Ends}
use fileagent.Indexer.Types.{FileEntry, World, statement_failed, next}
use fileagent.Indexer.Ledger.{clock, execute, ask}
use fileagent.Indexer.Upload.{
  UploadResult, Declared, log_of, add_log, log_upload, create_upload_log,
}
use fileagent.Indexer.Accounted.{Silent, Silent-timeless}

-- One log is added.
abbrev pub LogAdded :
    String → String → UploadResult → Declared → Option FileEntry → World → World → World → Type 0
LogAdded agent org r d fe w v v' =
    (s : ℤ) × (f : ℤ) × (v'.upload_logs ≡ log_of agent org r d fe s f ∷ w.upload_logs)
    × (v'.published ≡ w.published)
    × (v'.suppressed_writes ≡ w.suppressed_writes)
    × (v'.entries ≡ v.entries)
    × (v'.tags ≡ v.tags)
    × (v'.outside ≡ w.outside)

pub Silent-refl : (v : World) → Silent v v
Silent-refl v = record {
  upload_logs = refl;
  published = refl;
  suppressed_writes = refl;
  outside = refl;
}

pub Silent-trans : (w v u : World) → Silent w v → Silent v u → Silent w u
Silent-trans w v u a b = record {
  upload_logs = b.upload_logs ∙ a.upload_logs;
  published = b.published ∙ a.published;
  suppressed_writes = b.suppressed_writes ∙ a.suppressed_writes;
  outside = b.outside ∙ a.outside;
}

module _ (agent org : String) (r : UploadResult) (w : World) where
  pub log_upload-Ends :
      (d : Declared) (fe : Option FileEntry) (v : World)
      → Silent w v
      → Ends (Silent w) (λ _ v'. LogAdded agent org r d fe w v v') (log_upload agent org r d fe v)
  unfolding log_upload ask create_upload_log execute
  log_upload-Ends d fe v h =
      let s = clock v in
      let f = clock (next v) in
      let u : World = next (next v) in
      if-Ends (Silent w) (λ _ v'. LogAdded agent org r d fe w v v') (u.outside.fails u.turn)
        (err statement_failed, next u) (ok tt, add_log (log_of agent org r d fe s f) (next u))
        (Silent-timeless w u (Silent-timeless w (next v) (Silent-timeless w v h)))
        (
          s,
          f,
          ap (λ t. log_of agent org r d fe s f ∷ t) h.upload_logs,
          h.published,
          h.suppressed_writes,
          refl,
          refl,
          h.outside,
        )
