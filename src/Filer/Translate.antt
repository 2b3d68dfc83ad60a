-- ===== src/Filer/Translate.antt =====
-- controlplane/internal/storage/seaweedfs/translate.go: events to changes.
use fileagent.Prelude.{
  ℕ, Bool, true, false, not, ◌&&◌, ◌||◌, Option, none, some, List, [], ◌∷◌, ◌++◌, if◌then◌else◌,
}
use fileagent.Prelude.Int.{ℤ, pos, leb_ℤ, to_int64}
use fileagent.Filer.Paths.{Text, is_empty, text_eq, join_path, split_object_path, bucket_root}

pub data ChangeKind : Type 0 where
  created removed bucket_removed : ChangeKind

pub record Change : Type 0 where
  pub kind : ChangeKind
  pub bucket : Text
  pub key : Text
  pub size : ℤ
  pub ts_ns : ℤ
  pub is_directory : Bool

-- filerpb.Entry: `marked` is the presence of the x-seaweedfs-prefix-object key in `Extended`, and
-- `file_size` is absent where the entry carries no attributes.
pub record Entry : Type 0 where
  pub name : Text
  pub is_directory : Bool
  pub marked : Bool
  pub file_size : Option ℕ

pub record EventNotification : Type 0 where
  pub old_entry : Option Entry
  pub new_entry : Option Entry
  pub new_parent_path : Text

-- filerpb.SubscribeMetadataResponse without its `Events`.
pub record Event : Type 0 where
  pub directory : Text
  pub notification : Option EventNotification
  pub ts_ns : ℤ

-- A response is its first event with the members of its batch, whose own `Events` nothing reads.
pub record Response : Type 0 where
  pub envelope : Event
  pub events : List Event

unfoldable pub file_size : Entry → ℤ
file_size e = elim e.file_size [ none ↦ pos 0 | some n ↦ to_int64 n ]

unfoldable pub is_prefix_object : Entry → Bool
is_prefix_object e = e.is_directory && e.marked

unfoldable pub represents_object : Entry → Bool
unfolding is_prefix_object
represents_object e = not e.is_directory || is_prefix_object e

unfoldable pub new_dir : Event → EventNotification → Text
new_dir resp n = if is_empty n.new_parent_path then resp.directory else n.new_parent_path

-- `if b, k, ok := splitObjectPath(full); ok { append }`
unfoldable pub change_at : ChangeKind → ℤ → ℤ → Text → List Change
unfolding split_object_path
change_at kind size ts full = elim (split_object_path full) [
  | none ↦ []
  | some (b, k) ↦
      record { kind = kind; bucket = b; key = k; size = size; ts_ns = ts; is_directory = false }
      ∷ []
]

unfoldable pub root_removed : ℤ → Text → List Change
unfolding bucket_root
root_removed ts full = elim (bucket_root full) [
  | none ↦ []
  | some b ↦
      record {
        kind = bucket_removed;
        bucket = b;
        key = [];
        size = pos 0;
        ts_ns = ts;
        is_directory = true;
      }
      ∷ []
]

unfoldable pub on_create : Event → EventNotification → Entry → List Change
unfolding represents_object new_dir change_at file_size join_path
on_create resp n neu =
    if represents_object neu
    then change_at created (file_size neu) resp.ts_ns (join_path (new_dir resp n) neu.name)
    else []

unfoldable pub on_delete : Event → Entry → List Change
unfolding represents_object change_at root_removed join_path
on_delete resp old =
    let full = join_path resp.directory old.name in
    if represents_object old
    then change_at removed (pos 0) resp.ts_ns full
    else root_removed resp.ts_ns full

-- The last case of the switch: overwrite, demotion, or rename.
unfoldable pub on_move : Event → EventNotification → Entry → Entry → List Change
unfolding represents_object new_dir change_at file_size join_path text_eq
on_move resp n old neu =
    let old_full = join_path resp.directory old.name in
    let new_full = join_path (new_dir resp n) neu.name in
    if not (represents_object old) && not (represents_object neu)
    then []
    else if text_eq old_full new_full
    then (if represents_object neu
        then change_at created (file_size neu) resp.ts_ns new_full
        else change_at removed (pos 0) resp.ts_ns new_full)
    else (if represents_object old then change_at removed (pos 0) resp.ts_ns old_full else [])
      ++ (if represents_object neu
          then change_at created (file_size neu) resp.ts_ns new_full
          else [])

-- What the getters read of an entry that is not there.
abbrev pub nil_entry : Entry
nil_entry = record { name = []; is_directory = false; marked = false; file_size = none }

-- The last case of the switch takes an event with neither entry, too.
unfoldable pub on_entries : Event → EventNotification → Option Entry → Option Entry → List Change
unfolding on_create on_delete on_move
on_entries resp n none (some neu) = on_create resp n neu
on_entries resp n (some old) none = on_delete resp old
on_entries resp n (some old) (some neu) = on_move resp n old neu
on_entries resp n none none = on_move resp n nil_entry nil_entry

unfoldable pub append_one : List Change → Event → List Change
unfolding on_entries
append_one changes resp = elim resp.notification [
  | none ↦ changes
  | some n ↦ changes ++ on_entries resp n n.old_entry n.new_entry
]

unfoldable pub append_all : List Change → List Event → List Change
unfolding append_one
append_all changes [] = changes
append_all changes (m ∷ ms) = append_all (append_one changes m) ms

unfoldable pub translate : Option Response → List Change
unfolding append_all append_one
translate none = []
translate (some resp) = append_all (append_one [] resp.envelope) resp.events

abbrev pub heartbeat_of : Response → Option EventNotification → List Event → Option ℤ
heartbeat_of resp none [] =
    if leb_ℤ resp.envelope.ts_ns (pos 0) then none else some resp.envelope.ts_ns
heartbeat_of resp _ _ = none

unfoldable pub is_idle_heartbeat : Option Response → Option ℤ
is_idle_heartbeat none = none
is_idle_heartbeat (some resp) = heartbeat_of resp resp.envelope.notification resp.events
