-- ===== src/Uploader/Etags.antt =====
-- agent/internal/uploader: etags, part ranges and the gate on resuming.
use fileagent.Prelude.{
  ℕ, ◌+◌, ◌-◌, ◌*◌, Bool, true, not, ◌&&◌, ◌||◌, Option, none, some, [], ◌∷◌, ◌==◌, leb, ltb,
  if◌then◌else◌, length,
}
use fileagent.Prelude.Int.{pos, ◌=ℤ◌}
use fileagent.Filer.Paths.{Text}
use fileagent.Queue.Types.{UploadTask, FileVersion}

abbrev quote : ℕ
quote = 34

trim_quotes : Text → Text
trim_quotes [] = []
trim_quotes (c ∷ s) = if c == quote then trim_quotes s else c ∷ s

onto : Text → Text → Text
onto [] acc = acc
onto (c ∷ s) acc = onto s (c ∷ acc)

lower : ℕ → ℕ
lower c = if leb b'A' c && leb c b'Z' then c + 32 else c

lower_all : Text → Text
unfolding lower
lower_all [] = []
lower_all (c ∷ s) = lower c ∷ lower_all s

-- strings.ToLower of ASCII letters, after strings.Trim of quotes.
unfoldable pub normalize_etag : Text → Text
unfolding trim_quotes onto lower_all
normalize_etag etag = lower_all (onto (trim_quotes (onto (trim_quotes etag) [])) [])

all_hex : Text → Bool
all_hex [] = true
all_hex (c ∷ s) = ((leb b'0' c && leb c b'9') || (leb b'a' c && leb c b'f')) && all_hex s

unfoldable pub etag_is_comparable : Text → Bool
unfolding normalize_etag all_hex
etag_is_comparable etag = length (normalize_etag etag) == 32 && all_hex (normalize_etag etag)

-- partRange: the offset and the length of a part, by its number, which starts at 1. Number 0 has a
-- negative offset in the source, from which nothing is skipped.
abbrev pub offset_of : ℕ → ℕ → ℕ
offset_of part_size num = (num - 1) * part_size

abbrev pub length_of : ℕ → ℕ → ℕ → ℕ
length_of total part_size num =
    if num == 0
    then part_size
    else if ltb (total - offset_of part_size num) part_size
    then total - offset_of part_size num
    else part_size

unfoldable pub part_range : ℕ → ℕ → ℕ → Option (ℕ × ℕ)
part_range num total part_size =
    if length_of total part_size num == 0 || (leb total (offset_of part_size num) && not (num == 0))
    then none
    else some (offset_of part_size num, length_of total part_size num)

-- Why the recorded parts cannot be resumed.
pub data Refusal : Type 0 where
  legacy_row stat_failed version_changed not_multipart : Refusal

-- canResumeParts: `none` allows it.
unfoldable pub can_resume_parts : UploadTask → FileVersion → Bool → Bool → Option Refusal
can_resume_parts task current stat_ok is_multipart =
    if (task.parts_file_mtime =ℤ pos 0) && (task.parts_file_size =ℤ pos 0)
    then some legacy_row
    else if not stat_ok
    then some stat_failed
    else if not ((current.mtime =ℤ task.parts_file_mtime) && (current.size =ℤ task.parts_file_size))
    then some version_changed
    else if not is_multipart
    then some not_multipart
    else none
