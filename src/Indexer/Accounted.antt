-- ===== src/Indexer/Accounted.antt =====
-- How HandleUploadResult ends.
use fileagent.Prelude.{
  ℕ, suc, String, ◌≡◌, ◌⊎◌, true, false, Option, none, some, List, ◌∷◌, if◌then◌else◌,
}
use fileagent.Prelude.Action.{Keeps}
use fileagent.Filer.Paths.{Text}
use fileagent.Indexer.Types.{
  FileEntry, FileTag, PendingTagValue, completed, UploadLog, Published, file_uploaded, World, next,
}
use fileagent.Indexer.Ledger.{find_entry}
use fileagent.Indexer.Tags.{put_tag, insert_tag, find_tag, apply_static_tags}
use fileagent.Indexer.PathVars.{put_pending, apply_path_var_tags}
use fileagent.Indexer.TagKeeps
use fileagent.Indexer.Upload.{UploadResult}
use fileagent.Indexer.Outcomes.{Untouched}
use fileagent.Indexer.Reports.{Counted}

-- No log, no message and no suppression is added; what is outside stays.
pub record Silent (w w' : World) : Type 0 where
  pub upload_logs : w'.upload_logs ≡ w.upload_logs
  pub published : w'.published ≡ w.published
  pub suppressed_writes : w'.suppressed_writes ≡ w.suppressed_writes
  pub outside : w'.outside ≡ w.outside

-- Without a publisher no message is added. With one, its call is the last outside call, and the
-- message is added just where that call does not fail.
abbrev pub PublishedOnce : Published → World → World → Type 0
PublishedOnce p w w' =
    ((w.outside.has_publisher ≡ false) × (w'.published ≡ w.published))
    ⊎ ((t : ℕ) × (w.outside.has_publisher ≡ true)
        × (w'.turn ≡ suc t)
        × (w'.published ≡ (if w.outside.publish_fails t then w.published else p ∷ w.published)))

-- The upload was a success: its row is in the ledger, under the bucket that the organisation has by
-- the name in the result, and the log and the message name it.
pub record Succeeded (agent org : String) (r : UploadResult) (l : UploadLog) (w w' : World)
    : Type 0 where
  pub success : r.success ≡ true
  pub fe : FileEntry
  pub bucket : String
  pub bucket_id : w.outside.bucket_id org r.bucket ≡ some bucket
  pub found : find_entry bucket r.storage_path w'.entries ≡ some fe
  pub status : fe.status ≡ completed
  pub size_bytes : fe.size_bytes ≡ r.size_bytes
  pub file_entry_id : l.file_entry_id ≡ some fe.id
  pub published : PublishedOnce (file_uploaded fe agent r.sha256) w w'

-- The upload failed: neither the rows nor the tags nor the messages are changed.
pub record Failed (r : UploadResult) (w w' : World) : Type 0 where
  pub success : r.success ≡ false
  pub entries : w'.entries ≡ w.entries
  pub tags : w'.tags ≡ w.tags
  pub published : w'.published ≡ w.published

-- The upload is logged once, with its status.
pub record Logged (agent org : String) (r : UploadResult) (w w' : World) : Type 0 where
  pub log : UploadLog
  pub upload_logs : w'.upload_logs ≡ log ∷ w.upload_logs
  pub status : log.status ≡ (if r.success then "completed" else "failed")
  pub suppressed_writes : w'.suppressed_writes ≡ w.suppressed_writes
  pub effects : Succeeded agent org r log w w' ⊎ Failed r w w'

abbrev pub Accounted : String → String → UploadResult → World → World → Type 0
Accounted agent org r w w' = ((r.success ≡ true) × Counted w w') ⊎ Logged agent org r w w'

pub Untouched-Silent : (w w' : World) → Untouched w w' → Silent w w'
Untouched-Silent w w' u = record {
  upload_logs = u.upload_logs;
  published = u.published;
  suppressed_writes = u.suppressed_writes;
  outside = u.outside;
}

pub Silent-timeless : (w v : World) → Silent w v → Silent w (next v)
Silent-timeless w v h = record {
  upload_logs = h.upload_logs;
  published = h.published;
  suppressed_writes = h.suppressed_writes;
  outside = h.outside;
}

-- What tagging leaves as it is.
abbrev pub Framed : World → World → Type 0
Framed u v = (v.entries ≡ u.entries) × Silent u v

Framed-insert :
    (u v : World) (t : FileTag) (o : Option FileTag) → Framed u v → Framed u (insert_tag t o v)
Framed-insert u v t none h = (
  h.0,
  record {
    upload_logs = h.1.upload_logs;
    published = h.1.published;
    suppressed_writes = h.1.suppressed_writes;
    outside = h.1.outside;
  },
)
Framed-insert u v t (some old) h = h

pub Framed-next : (u v : World) → Framed u v → Framed u (next v)
Framed-next u v h = (h.0, Silent-timeless u v h.1)

Framed-tags : (u v : World) (l : List FileTag) → Framed u v → Framed u (record v { tags = l })
Framed-tags u v l h = (
  h.0,
  record {
    upload_logs = h.1.upload_logs;
    published = h.1.published;
    suppressed_writes = h.1.suppressed_writes;
    outside = h.1.outside;
  },
)

Framed-pending :
    (u v : World) (l : List PendingTagValue)
    → Framed u v
    → Framed u (record v { pending_tag_values = l })
Framed-pending u v l h = (
  h.0,
  record {
    upload_logs = h.1.upload_logs;
    published = h.1.published;
    suppressed_writes = h.1.suppressed_writes;
    outside = h.1.outside;
  },
)

pub static_tags-Framed :
    (u : World) (file : String) (ts : List (Text × Text))
    → Keeps (Framed u) (apply_static_tags file ts)
static_tags-Framed u file ts =
    TagKeeps.apply_static_tags-Keeps {Q = Framed u} (Framed-next u)
      (λ t v h. Framed-tags u v (put_tag t v.tags) h) file ts

pub path_var_tags-Framed :
    (u : World) (org file : String) (path template : Text) (ts : List (Text × Text))
    (rule : Option String)
    → Keeps (Framed u) (apply_path_var_tags org file path template ts rule)
path_var_tags-Framed u org file path template ts rule =
    TagKeeps.apply_path_var_tags-Keeps {Q = Framed u} (Framed-next u)
      (λ t v h. Framed-insert u v t (find_tag t.file_entry_id t.key v.tags) h)
      (λ p v h. Framed-pending u v (put_pending p v.pending_tag_values) h) org file path template ts
      rule
