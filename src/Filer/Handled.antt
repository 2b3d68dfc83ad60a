-- ===== src/Filer/Handled.antt =====
-- processChange of subscribe.go: what is listed as handled, and what the listing changes.
use fileagent.Prelude.{
  ℕ, zero, suc, ◌+◌, ◌≡◌, Bool, true, false, Option, none, some, List, [], ◌∷◌, if◌then◌else◌, any,
  arith, Bool-cases, inl, inr,
}
use fileagent.Filer.Paths.{Text}
use fileagent.Filer.Translate.{Change}
use fileagent.Filer.Host.{
  StorageEvent, unknown_bucket, suppressed, cancelled, outside, Result, ok, err, Handling, Config,
  Host, M, Mark, bucket_removed_mark, foreign_bucket, bucket_marked, pure, ask, sleep, ◌>>=◌,
}
use fileagent.Filer.Keeps.{
  Keeps, Timeless, Keeps-pure, Keeps-raise, Keeps-attempt, Keeps-ask, Keeps-if, Keeps-set,
  Keeps-write, Keeps-sleep, Keeps-bind, bind_ok,
}
use fileagent.Filer.Subscribe.{
  return, stat_at, read_back, fact, after_row_state, after_apply, after_read_back, try_change,
  settle, settle_or, change_loop, count_active_entries, record_mark, handle_bucket_removed,
  is_bucket_removed, process_change, process_all,
}

-- A change that passes the test is listed.
abbrev pub seen : (Change → Bool) → Host → Bool
seen p w = any (λ e. p e.0) w.handled

module _ {Q : Host → Type 0} (timeless : Timeless Q)
    (counted : (w : Host) (n : ℕ) → Q w → Q (record w { unknown_buckets = n }))
    (listed : (w : Host) (c : Change) (h : Handling)
      → Q w
      → Q (record w { handled = (c, h) ∷ w.handled }))
    (marked : (w : Host) (m : List Mark) → Q w → Q (record w { marks = m })) where
  return-Keeps : {A : Type 0} (r : Result A) → Keeps Q (return r)
  return-Keeps (ok a) = Keeps-pure a
  return-Keeps (err e) = Keeps-raise e

  stat_at-Keeps : (c : Change) (o : Option _) → Keeps Q (stat_at c o)
  stat_at-Keeps c none = Keeps-raise outside
  stat_at-Keeps c (some at) =
      Keeps-bind _ _ (Keeps-ask _ timeless) (λ s. return-Keeps (fact c at s))

  read_back-Keeps : (c : Change) → Keeps Q (read_back c)
  unfolding read_back
  read_back-Keeps c = Keeps-bind _ _ (Keeps-ask _ timeless) (stat_at-Keeps c)

  after_apply-Keeps :
      (cfg : Config) (e : StorageEvent) (r : Result (Unit {0})) → Keeps Q (after_apply cfg e r)
  unfolding after_apply
  after_apply-Keeps cfg e (ok _) = Keeps-pure _
  after_apply-Keeps cfg e (err unknown_bucket) =
      Keeps-bind _ _ (Keeps-set _ (λ w h. counted w (w.unknown_buckets + 1) h))
        (λ _. Keeps-pure (some (foreign_bucket e)))
  after_apply-Keeps cfg e (err suppressed) =
      Keeps-if cfg.has_reporter _ _
        (Keeps-bind (ask (λ w. w.row_state w.turn e.bucket e.key)) _ (Keeps-ask _ timeless)
          (λ st. Keeps-pure (after_row_state e st)))
        (Keeps-pure none)
  after_apply-Keeps cfg e (err cancelled) = Keeps-pure none
  after_apply-Keeps cfg e (err outside) = Keeps-pure none

  after_read_back-Keeps : (cfg : Config) (r : Result StorageEvent) → Keeps Q (after_read_back cfg r)
  unfolding after_read_back
  after_read_back-Keeps cfg (err _) = Keeps-pure none
  after_read_back-Keeps cfg (ok e) =
      Keeps-bind _ _ (Keeps-ask _ timeless) (λ r. after_apply-Keeps cfg e r)

  try_change-Keeps : (cfg : Config) (c : Change) → Keeps Q (try_change cfg c)
  unfolding try_change
  try_change-Keeps cfg c =
      Keeps-bind _ _ (Keeps-attempt _ (read_back-Keeps c)) (λ e. after_read_back-Keeps cfg e)

  settle-Keeps : (c : Change) (h : Handling) → Keeps Q (settle c h)
  unfolding settle
  settle-Keeps c h = Keeps-set _ (λ w q. listed w c h q)

  settle_or-Keeps :
      (c : Change) (again : M (Unit {0})) (o : Option Handling)
      → Keeps Q again
      → Keeps Q (settle_or c again o)
  settle_or-Keeps c again none k = k
  settle_or-Keeps c again (some h) k = settle-Keeps c h

  change_loop-Keeps :
      (left : ℕ) (cfg : Config) (first? : Bool) (c : Change)
      → Keeps Q (change_loop left cfg first? c)
  unfolding change_loop
  change_loop-Keeps zero cfg first? c = Keeps-raise outside
  change_loop-Keeps (suc left) cfg first? c =
      Keeps-bind _ _ (Keeps-if first? _ _ (Keeps-pure tt) (Keeps-sleep timeless)) (λ _.
        Keeps-bind _ _ (try_change-Keeps cfg c)
          (λ o. settle_or-Keeps c _ o (change_loop-Keeps left cfg false c)))

  record_mark-Keeps : (m : Mark) → Keeps Q (record_mark m)
  unfolding record_mark
  record_mark-Keeps m = Keeps-write _ timeless (λ w h. marked w (m ∷ w.marks) h)

  count_active_entries-Keeps : (bucket : Text) → Keeps Q (count_active_entries bucket)
  unfolding count_active_entries
  count_active_entries-Keeps bucket =
      Keeps-bind _ _ (Keeps-write _ timeless (λ w h. h)) (λ _. Keeps-ask _ timeless)

  handle_bucket_removed-Keeps : (c : Change) → Keeps Q (handle_bucket_removed c)
  unfolding handle_bucket_removed
  handle_bucket_removed-Keeps c = Keeps-bind _ _ (count_active_entries-Keeps c.bucket) (λ n.
      Keeps-bind _ _ (record_mark-Keeps (bucket_removed_mark c.bucket n))
        (λ _. settle-Keeps c (bucket_marked n)))

  process_change-Keeps : (cfg : Config) (c : Change) → Keeps Q (process_change cfg c)
  unfolding process_change
  process_change-Keeps cfg c =
      Keeps-if (is_bucket_removed c.kind) _ _ (handle_bucket_removed-Keeps c)
        (change_loop-Keeps (suc cfg.apply_max_retries) cfg true c)

  pub process_all-Keeps : (cfg : Config) (cs : List Change) → Keeps Q (process_all cfg cs)
  unfolding process_all
  process_all-Keeps cfg [] = Keeps-pure tt
  process_all-Keeps cfg (c ∷ cs) =
      Keeps-bind _ _ (process_change-Keeps cfg c) (λ _. process_all-Keeps cfg cs)

module _ (p : Change → Bool) where
  abbrev Seen : Host → Type 0
  Seen w = seen p w ≡ true

  any-nil : any p [] ≡ true → ⊥
  unfolding any
  any-nil h = cc

  any-tail : (c : Change) (cs : List Change) → p c ≡ false → any p (c ∷ cs) ≡ true → any p cs ≡ true
  unfolding any
  any-tail c cs n h = ground arith

  pub process_all-Seen : (cfg : Config) (cs : List Change) → Keeps Seen (process_all cfg cs)
  unfolding any
  process_all-Seen =
      process_all-Keeps {Q = Seen} (λ w h. h) (λ w n h. h) (λ w c h k. ground arith) (λ w m h. h)

  settle-Seen : (c : Change) (h : Handling) (w : Host) → p c ≡ true → seen p (settle c h w).1 ≡ true
  unfolding settle any
  settle-Seen c h w e = ground arith

  settle_or-Seen :
      (c : Change) (again : M (Unit {0})) (o : Option Handling) (w : Host)
      → p c ≡ true
      → (settle_or c again o w).0 ≡ ok tt
      → ((w' : Host) → (again w').0 ≡ ok tt → seen p (again w').1 ≡ true)
      → seen p (settle_or c again o w).1 ≡ true
  settle_or-Seen c again none w e h k = k w h
  settle_or-Seen c again (some x) w e h k = settle-Seen c x w e

  change_loop-Seen :
      (left : ℕ) (cfg : Config) (first? : Bool) (c : Change) (w : Host)
      → p c ≡ true
      → (change_loop left cfg first? c w).0 ≡ ok tt
      → seen p (change_loop left cfg first? c w).1 ≡ true
  unfolding change_loop
  change_loop-Seen zero cfg first? c w e h = absurd (cc)
  change_loop-Seen (suc left) cfg first? c w e h =
      let later = change_loop left cfg false c in
      let (_, _, h1, s1) =
        bind_ok (if first? then pure tt else sleep) (λ _. try_change cfg c >>= settle_or c later) w
          h in
      let w1 = ((if first? then pure tt else sleep) w).1 in
      let (o, _, h2, s2) = bind_ok (try_change cfg c) (settle_or c later) w1 h1 in
      rw (s1, s2)
        (settle_or-Seen c later o (try_change cfg c w1).1 e h2
          (λ w' h'. change_loop-Seen left cfg false c w' e h'))

  handle_bucket_removed-Seen :
      (c : Change) (w : Host)
      → p c ≡ true
      → (handle_bucket_removed c w).0 ≡ ok tt
      → seen p (handle_bucket_removed c w).1 ≡ true
  unfolding handle_bucket_removed
  handle_bucket_removed-Seen c w e h =
      let (n, _, h1, s1) = bind_ok (count_active_entries c.bucket) _ w h in
      let w1 = (count_active_entries c.bucket w).1 in
      let (_, _, h2, s2) = bind_ok (record_mark (bucket_removed_mark c.bucket n)) _ w1 h1 in
      rw (s1, s2)
        (settle-Seen c (bucket_marked n) (record_mark (bucket_removed_mark c.bucket n) w1).1 e)

  process_change-Seen :
      (cfg : Config) (c : Change) (w : Host)
      → p c ≡ true
      → (process_change cfg c w).0 ≡ ok tt
      → seen p (process_change cfg c w).1 ≡ true
  unfolding process_change
  process_change-Seen cfg c w e h = elim (Bool-cases (is_bucket_removed c.kind)) [
    | inl b ↦ rw b (handle_bucket_removed-Seen c w e (rw b at h))
    | inr b ↦ rw b (change_loop-Seen (suc cfg.apply_max_retries) cfg true c w e (rw b at h))
  ]

  -- Once a list of changes is processed, each of them is listed.
  pub process_all-any :
      (cfg : Config) (cs : List Change) (w : Host)
      → any p cs ≡ true
      → (process_all cfg cs w).0 ≡ ok tt
      → seen p (process_all cfg cs w).1 ≡ true
  unfolding process_all
  process_all-any cfg [] w e h = absurd (any-nil e)
  process_all-any cfg (c ∷ cs) w e h =
      let (_, h0, h1, s1) = bind_ok (process_change cfg c) (λ _. process_all cfg cs) w h in
      let w1 = (process_change cfg c w).1 in
      elim (Bool-cases (p c)) [
        | inl here ↦ rw s1 ((process_all-Seen cfg cs).at w1 (process_change-Seen cfg c w here h0))
        | inr there ↦ rw s1 (process_all-any cfg cs w1 (any-tail c cs there e) h1)
      ]
