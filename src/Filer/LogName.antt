-- ===== src/Filer/LogName.antt =====
-- CursorBeforeEarliestLog of cursor.go: whether a cursor is older than the earliest log file, by the
-- name of that file. White space is the ASCII one, and times are unbounded.
use fileagent.Prelude.{
  ℕ, zero, suc, ◌+◌, ◌-◌, ◌*◌, ◌/◌, ◌%◌, Bool, true, false, not, ◌&&◌, ◌||◌, Option, none, some, [],
  ◌∷◌, ◌==◌, leb, if◌then◌else◌,
}
use fileagent.Prelude.Int.{ℤ, pos, ltb_ℤ, ◌-ℤ◌}
use fileagent.Filer.Paths.{Text, codes, is_empty, slash, dot, cut, cut_prefix, contains}

abbrev dash : ℕ
dash = b'-'

-- `systemLogDir`
abbrev pub system_log_dir : Text
system_log_dir = codes "/topics/.system/log"

is_space : ℕ → Bool
is_space c = c == 32 || (leb 9 c && leb c 13)

trim_left : (ℕ → Bool) → Text → Text
trim_left p [] = []
trim_left p (c ∷ s) = if p c then trim_left p s else c ∷ s

reverse_onto : Text → Text → Text
reverse_onto [] acc = acc
reverse_onto (c ∷ s) acc = reverse_onto s (c ∷ acc)

-- strings.TrimSpace, and strings.Trim at one character.
unfoldable pub trim : (ℕ → Bool) → Text → Text
unfolding trim_left reverse_onto
trim p s = reverse_onto (trim_left p (reverse_onto (trim_left p s) [])) []

-- strings.TrimPrefix
abbrev kept_or_cut : Text → Option Text → Text
kept_or_cut s none = s
kept_or_cut s (some rest) = rest

is_digit : ℕ → Bool
is_digit c = leb b'0' c && leb c b'9'

is_hex : ℕ → Bool
unfolding is_digit
is_hex c = is_digit c || (leb b'a' c && leb c b'f') || (leb b'A' c && leb c b'F')

abbrev two : ℕ → ℕ → ℕ
two a b = (a - b'0') * 10 + (b - b'0')

-- The number of days from the first of January of the year 0, in the calendar of package time.
is_leap : ℕ → Bool
is_leap y = y % 4 == 0 && (not (y % 100 == 0) || y % 400 == 0)

unfoldable pub days_in_month : ℕ → ℕ → ℕ
unfolding is_leap
days_in_month y m =
    if m == 2
    then (if is_leap y then 29 else 28)
    else if m == 4 || m == 6 || m == 9 || m == 11
    then 30
    else 31

-- The days of the months before month `suc k`.
days_before : ℕ → ℕ → ℕ
unfolding days_in_month
days_before y zero = 0
days_before y (suc k) = days_before y k + days_in_month y (suc k)

unfoldable pub day_number : ℕ → ℕ → ℕ → ℕ
unfolding days_before
day_number y m d =
    365 * y + (y + 3) / 4 - (y + 99) / 100 + (y + 399) / 400 + days_before y (m - 1) + (d - 1)

abbrev second_ns : ℕ
second_ns = 1000000000

-- 1970-01-01 is day 719528.
abbrev pub day_ns : ℕ → ℤ
day_ns n = pos (n * 86400 * second_ns) -ℤ pos (719528 * 86400 * second_ns)

-- parseDayDir: ten characters that denote a real date.
unfoldable pub parse_day_dir : Text → Option ℕ
unfolding is_digit days_in_month day_number
parse_day_dir (a ∷ b ∷ c ∷ d ∷ s ∷ e ∷ f ∷ t ∷ g ∷ h ∷ []) =
    let y = two a b * 100 + two c d in
    let m = two e f in
    let day = two g h in
    if is_digit a
      && is_digit b
      && is_digit c
      && is_digit d
      && s == dash
      && is_digit e
      && is_digit f
      && t == dash
      && is_digit g
      && is_digit h
      && (leb 1 m && leb m 12)
      && (leb 1 day && leb day (days_in_month y m))
    then some (day_number y m day)
    else none
parse_day_dir _ = none

-- The suffix that `minuteFileRe` allows: a dot and 1 to 16 hexadecimal digits.
all_hex : ℕ → Text → Bool
unfolding is_hex
all_hex left [] = true
all_hex zero (c ∷ s) = false
all_hex (suc left) (c ∷ s) = is_hex c && all_hex left s

is_suffix : Text → Bool
unfolding all_hex
is_suffix [] = true
is_suffix (c ∷ []) = false
is_suffix (c ∷ h ∷ s) = c == dot && all_hex 16 (h ∷ s)

-- parseMinuteFile: minutes after midnight.
unfoldable pub parse_minute_file : Text → Option ℕ
unfolding is_digit is_suffix
parse_minute_file (a ∷ b ∷ s ∷ c ∷ d ∷ rest) =
    if is_digit a
      && is_digit b
      && s == dash
      && is_digit c
      && is_digit d
      && is_suffix rest
      && leb (two a b) 23
      && leb (two c d) 59
    then some (two a b * 60 + two c d)
    else none
parse_minute_file _ = none

-- The start of the window of a log, in nanoseconds since 1970.
abbrev minute_of : Option ℕ → ℕ → Option ℤ
minute_of none n = none
minute_of (some m) n =
    some (pos (n * 86400 * second_ns + m * 60 * second_ns) -ℤ pos (719528 * 86400 * second_ns))

abbrev log_of_day : Option ℕ → Option Text → Option ℤ
log_of_day none file = none
log_of_day (some n) none = some (day_ns n)
log_of_day (some n) (some file) = minute_of (parse_minute_file file) n

abbrev log_of_parts : Text → Option (Text × Text) → Option ℤ
log_of_parts name none = log_of_day (parse_day_dir name) none
log_of_parts name (some (day, file)) =
    if contains slash file || is_empty file
    then none
    else log_of_day (parse_day_dir day) (some file)

unfoldable pub log_start : Text → Option ℤ
unfolding trim cut_prefix cut contains parse_day_dir parse_minute_file ◌-ℤ◌ is_space
log_start earliest =
    let spaceless = trim is_space earliest in
    let name =
      trim (λ c. c == slash) (kept_or_cut spaceless (cut_prefix system_log_dir spaceless)) in
    if is_empty name then none else log_of_parts name (cut slash name)

-- `none` where the source returns an error.
abbrev older_than : ℤ → Option ℤ → Option Bool
older_than cursor none = none
older_than cursor (some ts) = some (ltb_ℤ cursor ts)

unfoldable pub cursor_before_earliest_log : ℤ → Text → Option Bool
unfolding log_start
cursor_before_earliest_log cursor earliest = older_than cursor (log_start earliest)
