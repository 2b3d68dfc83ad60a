-- ===== src/Filer/Restart.antt =====
-- Run of subscribe.go: what a whole run leaves of the completeness of the cursor.
use fileagent.Prelude.{
  ℕ, zero, suc, ◌≡◌, refl, ◌∙◌, Bool, true, false, Option, none, some, List, ◌∷◌, ◌++◌,
  if◌then◌else◌, arith,
}
use fileagent.Prelude.Int.{ℤ, pos, ltb_ℤ}
use fileagent.Filer.Paths.{Text, slash, contains}
use fileagent.Filer.LogName.{system_log_dir, cursor_before_earliest_log}
use fileagent.Filer.Translate.{Change}
use fileagent.Filer.Host.{
  cancelled, outside, Result, ok, err, Mark, cursor_before_earliest_log as too_old, Config, Host, M,
  next, raise, attempt, ask, write, set, sleep, ◌>>◌,
}
use fileagent.Filer.Keeps.{
  Keeps, Timeless, Keeps-pure, Keeps-raise, Keeps-attempt, Keeps-ask, Keeps-if, Keeps-set,
  Keeps-write, Keeps-sleep, Keeps-bind, bind_ok, bind_either,
}
use fileagent.Filer.Subscribe.{record_mark, run_stream}
use fileagent.Filer.Stream.{run_stream-Complete}
use fileagent.Filer.Complete.{Covers, CursorComplete, Sound, Complete, Sound-timeless, timeless}
use fileagent.Filer.Run.{
  declared_cursor, retry_load, load_cursor, in_day, earliest_log, mark_if_old, check_listed,
  self_check, start_from, run_streams, run,
}

-- The reading of the cursor, tried again until it succeeds, leaves what does not read the turn.
module _ {Q : Host → Type 0} (t : Timeless Q) where
  declared_cursor-Keeps : Keeps Q declared_cursor
  unfolding declared_cursor
  declared_cursor-Keeps = Keeps-bind _ _ (Keeps-write _ t (λ w h. h)) (λ _. Keeps-ask _ t)

  retry_load-Keeps :
      (later : M (Option ℤ)) (r : Result (Option ℤ)) → Keeps Q later → Keeps Q (retry_load later r)
  retry_load-Keeps later (ok c) k = Keeps-pure c
  retry_load-Keeps later (err x) k =
      Keeps-bind (ask (λ w. w.is_cancelled w.turn)) _ (Keeps-ask _ t) (λ done.
        Keeps-if done _ _ (Keeps-raise cancelled) (Keeps-bind _ _ (Keeps-sleep t) (λ _. k)))

  load_cursor-Keeps : (tries : ℕ) → Keeps Q (load_cursor tries)
  unfolding load_cursor
  load_cursor-Keeps zero = Keeps-raise outside
  load_cursor-Keeps (suc n) =
      Keeps-bind _ _ (Keeps-attempt _ declared_cursor-Keeps)
        (λ r. retry_load-Keeps (load_cursor n) r (load_cursor-Keeps n))

  record_mark-Keeps :
      (m : Mark)
      → ((w : Host) (l : List Mark) → Q w → Q (record w { marks = l }))
      → Keeps Q (record_mark m)
  unfolding record_mark
  record_mark-Keeps m marked = Keeps-write _ t (λ w. marked w (m ∷ w.marks))

  mark_if_old-Keeps :
      (cursor : ℤ) (name : Text) (o : Option Bool)
      → ((w : Host) (l : List Mark) → Q w → Q (record w { marks = l }))
      → Keeps Q (mark_if_old cursor name o)
  mark_if_old-Keeps cursor name none marked = Keeps-pure tt
  mark_if_old-Keeps cursor name (some false) marked = Keeps-pure tt
  mark_if_old-Keeps cursor name (some true) marked =
      Keeps-bind _ _ (Keeps-attempt _ (record_mark-Keeps (too_old cursor name) marked))
        (λ _. Keeps-pure tt)

  earliest_log-Keeps : (earliest : Text) → Keeps Q (earliest_log earliest)
  unfolding earliest_log
  earliest_log-Keeps earliest = Keeps-if (contains slash earliest) _ _ (Keeps-pure earliest) (
      Keeps-bind (ask (λ w. w.first_entry w.turn (system_log_dir ++ slash ∷ earliest))) _
        (Keeps-ask _ t) (λ file. Keeps-pure (in_day earliest file)))

  check_listed-Keeps :
      (cursor : ℤ) (o : Option Text)
      → ((w : Host) (l : List Mark) → Q w → Q (record w { marks = l }))
      → Keeps Q (check_listed cursor o)
  check_listed-Keeps cursor none marked = Keeps-pure tt
  check_listed-Keeps cursor (some earliest) marked =
      Keeps-bind _ _ (earliest_log-Keeps earliest)
        (λ name. mark_if_old-Keeps cursor name (cursor_before_earliest_log cursor name) marked)

  self_check-Keeps :
      (cursor : ℤ)
      → ((w : Host) (l : List Mark) → Q w → Q (record w { marks = l }))
      → Keeps Q (self_check cursor)
  unfolding self_check
  self_check-Keeps cursor marked =
      Keeps-bind (ask (λ w. w.dial_fails w.turn)) _ (Keeps-ask _ t) (λ refused.
        Keeps-if refused _ _ (Keeps-pure tt) (
          Keeps-bind (ask (λ w. w.first_entry w.turn system_log_dir)) _ (Keeps-ask _ t)
            (λ earliest. check_listed-Keeps cursor earliest marked)))

declared_cursor_lem : (w : Host) {c : Option ℤ} → (declared_cursor w).0 ≡ ok c → w.cursor ≡ c
unfolding declared_cursor write ask
declared_cursor_lem w h = ground arith

retry_load_lem :
    (later : M (Option ℤ)) (r : Result (Option ℤ)) (o c : Option ℤ) (w : Host)
    → w.cursor ≡ o
    → (r ≡ ok c → o ≡ c)
    → ((w' : Host) → w'.cursor ≡ o → (later w').0 ≡ ok c → o ≡ c)
    → (retry_load later r w).0 ≡ ok c
    → o ≡ c
unfolding ask
retry_load_lem later (ok d) o c w e now? ih h = now? h
retry_load_lem later (err x) o c w e now? ih h =
    let (done, _, h1, _) =
      bind_ok (ask (λ v. v.is_cancelled v.turn))
        (λ b. if b then raise cancelled else sleep >> later) w h in
    waited done h1
  where
    waited :
        (b : Bool) → ((if b then raise cancelled else sleep >> later) (next w)).0 ≡ ok c → o ≡ c
    waited true q = absurd (cc)
    waited false q =
        let (_, _, h2, _) = bind_ok sleep (λ _. later) (next w) q in
        ih (sleep (next w)).1 ((Keeps-sleep {Q = λ v. v.cursor ≡ o} (λ v k. k)).at (next w) e) h2

-- What is loaded is the persisted cursor.
load_cursor_lem :
    (tries : ℕ) (o c : Option ℤ) (w : Host) → w.cursor ≡ o → (load_cursor tries w).0 ≡ ok c → o ≡ c
unfolding load_cursor
load_cursor_lem zero o c w e h = absurd (cc)
load_cursor_lem (suc n) o c w e h =
    retry_load_lem (load_cursor n) (declared_cursor w).0 o c (declared_cursor w).1
      ((declared_cursor-Keeps {Q = λ v. v.cursor ≡ o} (λ v k. k)).at w e)
      (λ q. ground (arith, declared_cursor_lem w q)) (λ w' e' h'. load_cursor_lem n o c w' e' h') h

module _ (p : Change → Bool) (ts : ℤ) (positive : ltb_ℤ (pos 0) ts ≡ true) where
  marked-Sound : (w : Host) (l : List Mark) → Sound p ts w → Sound p ts (record w { marks = l })
  marked-Sound w l k = record {
    persisted = k.persisted;
    cursor_not_negative = k.cursor_not_negative;
    delivers = k.delivers;
  }

  declare-Sound : (d : ℤ) (w : Host) → Sound p ts w → Sound p ts (record w { last_declared = d })
  declare-Sound d w k = record {
    persisted = k.persisted;
    cursor_not_negative = k.cursor_not_negative;
    delivers = k.delivers;
  }

  start_from-Sound : (o : Option ℤ) → Keeps (Sound p ts) (start_from o)
  unfolding start_from
  start_from-Sound none = Keeps-set _ (declare-Sound (pos 0))
  start_from-Sound (some d) =
      Keeps-bind _ _ (self_check-Keeps (Sound-timeless p ts) d marked-Sound)
        (λ _. Keeps-set _ (declare-Sound d))

  start_from-Complete :
      (o : Option ℤ) (w : Host)
      → w.cursor ≡ o
      → Sound p ts w
      → (start_from o w).0 ≡ ok tt
      → Complete p ts (start_from o w).1
  unfolding start_from set
  start_from-Complete none w e k h = record {
    sound = declare-Sound (pos 0) w k;
    not_negative = refl;
    declared = λ le. absurd (ground arith);
  }
  start_from-Complete (some d) w e k h =
      let (_, _, _, s) =
        bind_ok (self_check d) (λ _. set (λ v. record v { last_declared = d })) w h in
      let w' = (self_check d w).1 in
      let k' = (self_check-Keeps (Sound-timeless p ts) d marked-Sound).at w k in
      let e' = (self_check-Keeps {Q = λ v. v.cursor ≡ some d} (λ v q. q) d (λ v l q. q)).at w e in
      rw s (record {
        sound = declare-Sound d w' k';
        not_negative = k'.cursor_not_negative d e';
        declared = k'.persisted d e';
      })

  run_streams-Complete : (n : ℕ) (cfg : Config) → Keeps (Complete p ts) (run_streams n cfg)
  unfolding run_streams
  run_streams-Complete zero cfg = Keeps-pure tt
  run_streams-Complete (suc n) cfg =
      Keeps-bind (ask (λ w. w.is_cancelled w.turn)) _ (Keeps-ask _ (timeless p ts)) (λ done.
        Keeps-if done _ _ (Keeps-raise cancelled) (
          Keeps-bind (attempt (run_stream cfg)) _ (Keeps-attempt _ (run_stream-Complete p ts cfg))
            (λ _.
              Keeps-bind sleep _ (Keeps-sleep (timeless p ts)) (λ _. run_streams-Complete n cfg))))

  run-Sound :
      (tries streams : ℕ) (cfg : Config) (w : Host)
      → Sound p ts w
      → Sound p ts (run tries streams cfg w).1
  unfolding run
  run-Sound tries streams cfg w k =
      bind_either (Sound p ts) (load_cursor tries) _ w
        (λ found e.
          let w1 = (load_cursor tries w).1 in
          let k1 = (load_cursor-Keeps (Sound-timeless p ts) tries).at w k in
          let e1 =
            (load_cursor-Keeps {Q = λ v. v.cursor ≡ w.cursor} (λ v q. q) tries).at w refl
            ∙ load_cursor_lem tries w.cursor found w refl e in
          bind_either (Sound p ts) (start_from found) (λ _. run_streams streams cfg) w1
            (λ _ started.
              ((run_streams-Complete streams cfg).at (start_from found w1).1
                (start_from-Complete found w1 e1 k1 started)).sound)
            ((start_from-Sound found).at w1 k1))
        ((load_cursor-Keeps (Sound-timeless p ts) tries).at w k)

  -- The persisted cursor is a claim of completeness, across restarts: where a change that the filer has
  -- logged at `ts`, a time after 0, has been handled if the persisted cursor, which is not negative, is
  -- at or after `ts`, so it has been after a whole run, whatever fails in it and whenever it stops. The
  -- filer is taken to deliver the change, on every stream that starts before `ts`, ahead of any
  -- heartbeat at or after `ts`.
  pub run-CursorComplete :
      (tries streams : ℕ) (cfg : Config) (w : Host)
      → ((n : ℕ) (since : ℤ) → Covers p ts since false (w.deliver n since))
      → CursorComplete p ts w
      → CursorComplete p ts (run tries streams cfg w).1
  run-CursorComplete tries streams cfg w delivers k =
      let s : Sound p ts (run tries streams cfg w).1 = run-Sound tries streams cfg w (record {
        persisted = k.persisted;
        cursor_not_negative = k.cursor_not_negative;
        delivers = delivers;
      }) in
      record { persisted = s.persisted; cursor_not_negative = s.cursor_not_negative }
