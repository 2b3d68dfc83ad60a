-- ===== src/Filer/Stream.antt =====
-- The loop of runStream in subscribe.go: what it keeps of the completeness of the cursor.
use fileagent.Prelude.{
  ◌+◌, ◌≡◌, refl, Bool, true, false, ◌||◌, some, List, [], ◌∷◌, any, arith, Bool-cases,
  Option-cases, ◌⊎◌, inl, inr,
}
use fileagent.Prelude.Int.{ℤ, pos, leb_ℤ, ltb_ℤ, leb_ℤ_trans, leb_ℤ_total}
use fileagent.Filer.Translate.{Change, Response, translate, is_idle_heartbeat}
use fileagent.Filer.Heartbeat.{is_idle_heartbeat-translate}
use fileagent.Filer.Cursor.{resume_from, resume_from_bounds}
use fileagent.Filer.Host.{outside, ok, Config, Host, next, ask, set, ◌>>=◌}
use fileagent.Filer.Keeps.{
  Keeps, Keeps-pure, Keeps-raise, Keeps-ask, Keeps-set, Keeps-bind, bind_either,
}
use fileagent.Filer.Subscribe.{
  process_all, persist_cursor, gap_first, stream_loop, unless, run_stream,
}
use fileagent.Filer.Handled.{seen, process_all-Seen, process_all-any}
use fileagent.Filer.Complete.{
  Covers, Complete, timeless, same, process_all-Complete, Claims, persist_cursor-Claims,
  heartbeat-Claims,
}

module _ (p : Change → Bool) (ts : ℤ) where
  -- The stream started after `since`, and `came` tells whether the change has come on it.
  abbrev Due : ℤ → Bool → Type 0
  Due since came = (ltb_ℤ since ts ≡ false) ⊎ (came ≡ true)

  record Streams (since : ℤ) (came : Bool) (w : Host) : Type 0 where
    complete : (Complete p ts) w
    listed : Due since came → seen p w ≡ true

  claim :
      (since h : ℤ) (came : Bool) (w : Host)
      → (ltb_ℤ since ts ≡ true → leb_ℤ ts h ≡ true → came ≡ true)
      → Streams since came w
      → (Claims p ts) (Due since came) h w
  claim since h came w covered k = record {
    complete = k.complete;
    kept = k.listed;
    claimed = λ le. elim (Bool-cases (ltb_ℤ since ts)) [
      | inl after ↦ k.listed (inr (covered after le))
      | inr before ↦ k.listed (inl before)
    ];
  }

  or_true : (a b : Bool) → (a || b) ≡ true → (a ≡ true) ⊎ (b ≡ true)
  or_true true b h = inl refl
  or_true false b h = inr h

  changes-Streams :
      (cfg : Config) (since : ℤ) (came : Bool) (cs : List Change) (w : Host)
      → (process_all cfg cs w).0 ≡ ok tt
      → Streams since came w
      → Streams since (came || any p cs) (process_all cfg cs w).1
  changes-Streams cfg since came cs w done k = record {
    complete = ((process_all-Complete p ts) cfg cs).at w k.complete;
    listed = λ due. elim due [
      | inl before ↦ (process_all-Seen p cfg cs).at w (k.listed (inl before))
      | inr came' ↦ elim (or_true came (any p cs) came') [
        | inl a ↦ (process_all-Seen p cfg cs).at w (k.listed (inr a))
        | inr b ↦ process_all-any p cfg cs w b done
      ]
    ];
  }

  Claims-Streams :
      (since h : ℤ) (came : Bool) (w : Host)
      → (Claims p ts) (Due since came) h w
      → Streams since came w
  Claims-Streams since h came w k = record { complete = k.complete; listed = k.kept }

  stream_loop-Complete :
      (cfg : Config) (rs : List Response) (first? : Bool) (since : ℤ) (came : Bool) (w : Host)
      → (Covers p ts) since came rs
      → Streams since came w
      → (Complete p ts) (stream_loop cfg first? rs w).1
  unfolding stream_loop
  stream_loop-Complete cfg [] first? since came w covers k = k.complete
  stream_loop-Complete cfg (r ∷ rs) first? since came w covers k =
      elim (Option-cases (is_idle_heartbeat (some r))) [
        | inl e ↦
            let cs = translate (some r) in
            rw (e, stream_loop)
              (bind_either (Complete p ts) (process_all cfg cs) (λ _. stream_loop cfg first? rs) w
                (λ _ done.
                  stream_loop-Complete cfg rs first? since (came || any p cs)
                    (process_all cfg cs w).1 (rw (e, Covers) at covers)
                    (changes-Streams cfg since came cs w done k))
                (((process_all-Complete p ts) cfg cs).at w k.complete))
        | inr (h, e) ↦
            let covers' : (ltb_ℤ since ts ≡ true → leb_ℤ ts h ≡ true → came ≡ true)
                × (Covers p ts) since came rs =
              rw (e, Covers) at covers in
            let w1 = (gap_first cfg first? h w).1 in
            let k1 =
              ((heartbeat-Claims p ts) (Due since came) cfg first? h).at w
                (claim since h came w covers'.0 k) in
            let later = (is_idle_heartbeat-translate r e).2 in
            let k2 =
              ((persist_cursor-Claims p ts) (Due since came) cfg h (leb_ℤ_total h (pos 0) later)).at
                w1 k1 in
            rw (e, stream_loop)
              (bind_either (Complete p ts) (gap_first cfg first? h) _ w
                (λ _ _.
                  bind_either (Complete p ts) (persist_cursor cfg h) (λ _. stream_loop cfg false rs)
                    w1
                    (λ _ _.
                      stream_loop-Complete cfg rs false since came (persist_cursor cfg h w1).1
                        covers'.1 (Claims-Streams since h came _ k2))
                    k2.complete)
                k1.complete)
      ]

  unless-Complete : (b : Bool) → Keeps (Complete p ts) (unless b)
  unless-Complete true = Keeps-raise outside
  unless-Complete false = Keeps-pure tt

  -- A fresh stream starts no later than the declared value, so what it leaves out has been handled.
  fresh :
      (cfg : Config) (w : Host)
      → (Complete p ts) w
      → Streams (resume_from w.last_declared cfg.resume_margin) false w
  fresh cfg w k = record {
    complete = k;
    listed = λ due. elim due [
      | inl before ↦ k.declared (
          leb_ℤ_trans ts (resume_from w.last_declared cfg.resume_margin) w.last_declared
            (ground arith) (resume_from_bounds w.last_declared cfg.resume_margin k.not_negative).1)
      | inr e ↦ absurd (cc)
    ];
  }

  open_stream-Complete :
      (cfg : Config)
      → Keeps (Complete p ts) (
          ask (λ w. w.deliver w.turn (resume_from w.last_declared cfg.resume_margin))
          >>= stream_loop cfg true)
  unfolding ask
  open_stream-Complete cfg = record {
    at = λ w k.
        stream_loop-Complete cfg (w.deliver w.turn (resume_from w.last_declared cfg.resume_margin))
          true (resume_from w.last_declared cfg.resume_margin) false (next w)
          (k.sound.delivers w.turn (resume_from w.last_declared cfg.resume_margin))
          (fresh cfg (next w) ((timeless p ts) w k));
  }

  pub run_stream-Complete : (cfg : Config) → Keeps (Complete p ts) (run_stream cfg)
  unfolding run_stream
  run_stream-Complete cfg =
      Keeps-bind (ask (λ w. w.dial_fails w.turn)) _ (Keeps-ask _ (timeless p ts)) (λ refused.
        Keeps-bind (unless refused) _ (unless-Complete refused) (λ _.
          Keeps-bind (set (λ w. record w { epoch = w.epoch + 1 })) _
            (Keeps-set _ (λ w. (same p ts) w _ refl refl refl refl))
            (λ _.
              Keeps-bind (ask (λ w. w.subscribe_fails w.turn)) _ (Keeps-ask _ (timeless p ts))
                (λ rejected.
                  Keeps-bind (unless rejected) _ (unless-Complete rejected)
                    (λ _. open_stream-Complete cfg)))))
