-- ===== src/Filer/Complete.antt =====
-- The cursor of subscribe.go as a claim of completeness: what the filer has logged at or before it has
-- been handled.
use fileagent.Prelude.{
  ℕ, ◌≡◌, refl, Bool, true, false, ◌||◌, Option, none, some, List, [], ◌∷◌, any, arith, Bool-cases,
  ◌⊎◌, inl, inr,
}
use fileagent.Prelude.Int.{ℤ, pos, leb_ℤ, ltb_ℤ}
use fileagent.Filer.Translate.{Change, Response, translate, is_idle_heartbeat}
use fileagent.Filer.Cursor.{gap_window}
use fileagent.Filer.Host.{gap, Config, Host, next, ask}
use fileagent.Filer.Keeps.{
  Keeps, Timeless, Keeps-pure, Keeps-ask, Keeps-if, Keeps-set, Keeps-write, Keeps-bind,
}
use fileagent.Filer.Subscribe.{
  process_all, record_mark, record_gap_window, is_throttled, saved, persist_cursor, gap_first,
}
use fileagent.Filer.Handled.{seen, process_all-Keeps}

module _ (p : Change → Bool) (ts : ℤ) where
  -- What the filer documents of a stream that starts after `since`: a heartbeat at or after `ts`
  -- comes only after a response with the change, where the change was logged after `since`. `came`
  -- tells whether it has come.
  abbrev pub Covers : ℤ → Bool → List Response → Type 0
  Covers since came [] = Unit
  Covers since came (r ∷ rs) = elim (is_idle_heartbeat (some r)) [
    | some h ↦ (ltb_ℤ since ts ≡ true → leb_ℤ ts h ≡ true → came ≡ true) × Covers since came rs
    | none ↦ Covers since (came || any p (translate (some r))) rs
  ]

  -- A change that was logged at `ts`, at or before the persisted cursor, has been handled.
  pub record CursorComplete (w : Host) : Type 0 where
    pub persisted : (c : ℤ) → w.cursor ≡ some c → leb_ℤ ts c ≡ true → seen p w ≡ true
    pub cursor_not_negative : (c : ℤ) → w.cursor ≡ some c → leb_ℤ (pos 0) c ≡ true

  -- With what the filer delivers.
  pub record Sound (w : Host) : Type 0 where
    pub persisted : (c : ℤ) → w.cursor ≡ some c → leb_ℤ ts c ≡ true → seen p w ≡ true
    pub cursor_not_negative : (c : ℤ) → w.cursor ≡ some c → leb_ℤ (pos 0) c ≡ true
    pub delivers : (n : ℕ) (since : ℤ) → Covers since false (w.deliver n since)

  -- The same of the declared value that the adapter holds in memory.
  pub record Complete (w : Host) : Type 0 where
    pub sound : Sound w
    pub not_negative : leb_ℤ (pos 0) w.last_declared ≡ true
    pub declared : leb_ℤ ts w.last_declared ≡ true → seen p w ≡ true

  grow-Sound :
      (w w' : Host)
      → (seen p w ≡ true → seen p w' ≡ true)
      → w'.cursor ≡ w.cursor
      → w'.deliver ≡ w.deliver
      → Sound w
      → Sound w'
  grow-Sound w w' more c s k = record {
    persisted = λ v e h. more (k.persisted v (rw c at e) h);
    cursor_not_negative = λ v e. k.cursor_not_negative v (rw c at e);
    delivers = rw s k.delivers;
  }

  pub Sound-timeless : Timeless Sound
  Sound-timeless w = grow-Sound w (next w) (λ h. h) refl refl

  grow :
      (w w' : Host)
      → (seen p w ≡ true → seen p w' ≡ true)
      → w'.last_declared ≡ w.last_declared
      → w'.cursor ≡ w.cursor
      → w'.deliver ≡ w.deliver
      → Complete w
      → Complete w'
  grow w w' more d c s k = record {
    sound = grow-Sound w w' more c s k.sound;
    not_negative = rw d k.not_negative;
    declared = λ h. more (k.declared (rw d at h));
  }

  pub same :
      (w w' : Host)
      → w'.handled ≡ w.handled
      → w'.last_declared ≡ w.last_declared
      → w'.cursor ≡ w.cursor
      → w'.deliver ≡ w.deliver
      → Complete w
      → Complete w'
  same w w' e = grow w w' (λ h. rw e h)

  pub timeless : Timeless Complete
  timeless w = same w (next w) refl refl refl refl

  pub process_all-Complete : (cfg : Config) (cs : List Change) → Keeps Complete (process_all cfg cs)
  unfolding any
  process_all-Complete =
      process_all-Keeps {Q = Complete} timeless (λ w n. same w _ refl refl refl refl)
        (λ w c h. grow w _ (λ e. ground arith) refl refl refl) (λ w m. same w _ refl refl refl refl)

  -- What the heartbeat `h` claims has been handled, and what `S` says has been as well.
  pub record Claims (S : Type 0) (h : ℤ) (w : Host) : Type 0 where
    pub complete : Complete w
    pub kept : S → seen p w ≡ true
    pub claimed : leb_ℤ ts h ≡ true → seen p w ≡ true

  Claims-timeless : (S : Type 0) (h : ℤ) → Timeless (Claims S h)
  Claims-timeless S h w k = record {
    complete = timeless w k.complete;
    kept = k.kept;
    claimed = k.claimed;
  }

  saved-cursor : (h c : ℤ) (o : Option ℤ) → saved h o ≡ some c → (c ≡ h) ⊎ (o ≡ some c)
  saved-cursor h c none e = inl (cc)
  saved-cursor h c (some old) e = elim (Bool-cases (leb_ℤ old h)) [
    | inl le ↦ inl (ground arith)
    | inr gt ↦ inr (ground arith)
  ]

  write_cursor-Claims :
      (S : Type 0) (h : ℤ)
      → leb_ℤ (pos 0) h ≡ true
      → (w : Host) → Claims S h w
      → Claims S h (record w { cursor = saved h w.cursor })
  write_cursor-Claims S h nonneg w k = record {
    complete = record {
      sound = record {
        persisted = λ c e le. elim (saved-cursor h c w.cursor e) [
          | inl q ↦ k.claimed (rw (← q) le)
          | inr q ↦ k.complete.sound.persisted c q le
        ];
        cursor_not_negative = λ c e. elim (saved-cursor h c w.cursor e) [
          | inl q ↦ rw q nonneg
          | inr q ↦ k.complete.sound.cursor_not_negative c q
        ];
        delivers = k.complete.sound.delivers;
      };
      not_negative = k.complete.not_negative;
      declared = k.complete.declared;
    };
    kept = k.kept;
    claimed = k.claimed;
  }

  declare-Claims :
      (S : Type 0) (h : ℤ) (o : Option ℤ) (w : Host)
      → leb_ℤ (pos 0) h ≡ true
      → Claims S h w
      → Claims S h (record w { last_declared = h; last_flush = o })
  declare-Claims S h o w nonneg k = record {
    complete = record {
      sound = grow-Sound w _ (λ e. e) refl refl k.complete.sound;
      not_negative = nonneg;
      declared = k.claimed;
    };
    kept = k.kept;
    claimed = k.claimed;
  }

  pub persist_cursor-Claims :
      (S : Type 0) (cfg : Config) (h : ℤ)
      → leb_ℤ (pos 0) h ≡ true
      → Keeps (Claims S h) (persist_cursor cfg h)
  unfolding persist_cursor
  persist_cursor-Claims S cfg h nonneg = record {
    at = λ w k. elim (Bool-cases (leb_ℤ h w.last_declared)) [
      | inl old ↦ rw old k
      | inr new ↦ rw new (
          (Keeps-bind {Q = Claims S h} (ask (λ v. v.local_now v.turn)) _
              (Keeps-ask _ (Claims-timeless S h))
              (λ now. Keeps-if (is_throttled cfg w.last_flush now) _ _ (Keeps-pure tt) (
                Keeps-bind _ _
                  (Keeps-write _ (Claims-timeless S h) (write_cursor-Claims S h nonneg))
                  (λ _.
                    Keeps-bind (ask (λ v. v.local_now v.turn)) _ (Keeps-ask _ (Claims-timeless S h))
                      (λ flushed.
                        Keeps-set _ (λ v. declare-Claims S h (some flushed) v nonneg)))))).at
            w k)
    ];
  }

  pub heartbeat-Claims :
      (S : Type 0) (cfg : Config) (first? : Bool) (h : ℤ)
      → Keeps (Claims S h) (gap_first cfg first? h)
  unfolding record_gap_window record_mark
  heartbeat-Claims S cfg false h = Keeps-pure tt
  heartbeat-Claims S cfg true h = record {
    at = λ w k.
        let (from, to) = gap_window w.last_declared h cfg.resume_margin in
        (Keeps-write {Q = Claims S h} (λ v. record v { marks = gap from to ∷ v.marks })
            (Claims-timeless S h)
            (λ v c. record {
              complete = same v _ refl refl refl refl c.complete;
              kept = c.kept;
              claimed = c.claimed;
            })).at
          w k;
  }
