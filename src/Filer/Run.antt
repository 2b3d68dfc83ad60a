-- ===== src/Filer/Run.antt =====
-- Run and selfCheck of subscribe.go: loading the cursor, the check of its range, and the streams.
use fileagent.Prelude.{
  ℕ, zero, suc, Bool, true, false, Option, none, some, ◌∷◌, ◌++◌, if◌then◌else◌,
}
use fileagent.Prelude.Int.{ℤ, pos}
use fileagent.Filer.Paths.{Text, slash, is_empty, contains}
use fileagent.Filer.LogName.{system_log_dir, cursor_before_earliest_log}
use fileagent.Filer.Host.{
  cancelled, outside, Result, ok, err, cursor_before_earliest_log as too_old, Config, M, pure,
  raise, attempt, ask, write, set, sleep, ◌>>=◌, ◌>>◌,
}
use fileagent.Filer.Subscribe.{record_mark, run_stream}

-- The reading of the cursor fails as any statement does.
unfoldable pub declared_cursor : M (Option ℤ)
unfolding write ask
declared_cursor = write (λ w. w) >> ask (λ w. w.cursor)

-- The tries that are left.
abbrev pub retry_load : M (Option ℤ) → Result (Option ℤ) → M (Option ℤ)
retry_load later (ok c) = pure c
retry_load later (err _) = do
  done ← ask (λ w. w.is_cancelled w.turn)
  if done then raise cancelled else sleep >> later

unfoldable pub load_cursor : ℕ → M (Option ℤ)
unfolding declared_cursor ask sleep
load_cursor zero = raise outside
load_cursor (suc tries) =
    let later = load_cursor tries in attempt declared_cursor >>= retry_load later

-- The first minute file of the earliest day, or the day where it cannot be listed or is empty.
abbrev pub in_day : Text → Option Text → Text
in_day day none = day
in_day day (some file) = if is_empty file then day else day ++ slash ∷ file

unfoldable pub earliest_log : Text → M Text
unfolding ask contains
earliest_log earliest = if contains slash earliest then pure earliest else (do
  file ← ask (λ w. w.first_entry w.turn (system_log_dir ++ slash ∷ earliest))
  pure (in_day earliest file))

abbrev pub mark_if_old : ℤ → Text → Option Bool → M (Unit {0})
mark_if_old cursor name (some true) = do attempt (record_mark (too_old cursor name)); pure tt
mark_if_old cursor name (some false) = pure tt
mark_if_old cursor name none = pure tt

abbrev pub check_listed : ℤ → Option Text → M (Unit {0})
check_listed cursor none = pure tt
check_listed cursor (some earliest) = do
  name ← earliest_log earliest
  mark_if_old cursor name (cursor_before_earliest_log cursor name)

unfoldable pub self_check : ℤ → M (Unit {0})
unfolding ask earliest_log record_mark cursor_before_earliest_log
self_check cursor = do
  refused ← ask (λ w. w.dial_fails w.turn)
  if refused then pure tt else (do
    earliest ← ask (λ w. w.first_entry w.turn system_log_dir)
    check_listed cursor earliest)

unfoldable pub start_from : Option ℤ → M (Unit {0})
unfolding self_check set
start_from none = set (λ w. record w { last_declared = pos 0 })
start_from (some declared) = self_check declared >> set (λ w. record w { last_declared = declared })

-- The streams that are observed: Run itself goes on until its context is cancelled.
unfoldable pub run_streams : ℕ → Config → M (Unit {0})
unfolding run_stream ask sleep
run_streams zero cfg = pure tt
run_streams (suc n) cfg =
    let later = run_streams n cfg in
    (do
      done ← ask (λ w. w.is_cancelled w.turn)
      if done then raise cancelled else (do attempt (run_stream cfg); sleep; later))

unfoldable pub run : ℕ → ℕ → Config → M (Unit {0})
unfolding load_cursor start_from run_streams
run tries streams cfg = do found ← load_cursor tries; start_from found; run_streams streams cfg
