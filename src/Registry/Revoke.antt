-- ===== src/Registry/Revoke.antt =====
-- RevokeConn of registry.go: what the end of a connection says of the command that was sent on it.
use fileagent.Prelude.{
  ℕ, zero, suc, ◌+◌, ◌<◌, String, ◌≡◌, refl, sym, ◌∙◌, ap, Bool, true, false, not, some, List, [],
  ◌∷◌, ◌++◌, ◌==◌, ◌⊎◌, ◌≤◌, ◌&&◌, leb, get_elem?, arith, length, ltb, Bool-cases, inl, inr,
}
use fileagent.Registry.Conns.{
  idle, Conn, Registry, put, owns_entry, accept, enqueue, send_sync, stop_conn, disconnect_conn,
  capacity,
}
use fileagent.Registry.Schedule.{
  Action, takes, sends_out, notes, perform, perform_all, wait_for_write, finish_revoke, await,
  revoke_conn,
}
use fileagent.Registry.Fifo.{held, Fifo}
use fileagent.Registry.Lawful.{
  is_some_of_lem, is_over, Lawful, put-Lawful, accept-Gentle, cancelled-is_over,
}
use fileagent.Registry.Invariant.{perform_all-steps}
use fileagent.Registry.Later.{perform_all-Later}

get_elem?-last : {A : Type 0} (l : List A) (a : A) → get_elem? (l ++ a ∷ []) (length l) ≡ some a
get_elem?-last [] a = refl
get_elem?-last (x ∷ l) a = get_elem?-last l a

get_elem?-within :
    {A : Type 0} (l k : List A) (i : ℕ) → i < length l → get_elem? (l ++ k) i ≡ get_elem? l i
get_elem?-within [] k i h = absurd (omega arith)
get_elem?-within (x ∷ l) k zero h = refl
get_elem?-within (x ∷ l) k (suc i) h = get_elem?-within l k i (omega arith)

reached : (a b : ℕ) → a ≤ b → (leb a b && not false) ≡ true
reached a b h = ground arith

module _ {Msg : Type 0} where
  -- A message whose sequence number has been reached has been written at its place.
  written_at :
      (x : Conn Msg) (i : ℕ) (m : Msg)
      → Fifo x
      → get_elem? x.accepted i ≡ some m
      → suc i ≤ x.sent_seq
      → get_elem? x.written i ≡ some m
  written_at x i m k at le =
      let n = k.sent in
      let here : get_elem? (x.written ++ (held x.writer ++ x.send_ch)) i ≡ some m =
        rw k.order at at in
      sym (get_elem?-within x.written (held x.writer ++ x.send_ch) i (omega arith)) ∙ here

  -- How the revocation of the connection `c` has ended, where what was accepted on it before has the
  -- length `i`: gracefully, and the message has been written at the place `i`, or by force.
  abbrev pub Ended : ℕ → Msg → ℕ → Bool × Registry Msg → Type 0
  Ended c m i (graceful, r) =
      ((graceful ≡ true)
        × ((r.conns c).is_stopping ≡ true)
        × (get_elem? (r.conns c).written i ≡ some m))
      ⊎ ((graceful ≡ false) × (is_over (r.conns c) ≡ true))

  finish-false : (c i : ℕ) (m : Msg) (r : Registry Msg) → Ended c m i (finish_revoke c false r)
  unfolding disconnect_conn
  finish-false c i m r =
      let t : (c == c) ≡ true = ground arith in inr (refl, rw t (cancelled-is_over (r.conns c)))

  finish-true :
      (c i : ℕ) (m : Msg) (r : Registry Msg)
      → get_elem? (r.conns c).written i ≡ some m
      → Ended c m i (finish_revoke c true r)
  unfolding stop_conn
  finish-true c i m r h = let t : (c == c) ≡ true = ground arith in inl (refl, rw t refl, rw t h)

  -- The wait for a message that was accepted at the place `i` with the number after it.
  awaited :
      (c i : ℕ) (m : Msg) (b : Bool) (r : Registry Msg)
      → Lawful r
      → get_elem? (r.conns c).accepted i ≡ some m
      → Ended c m i (finish_revoke c (wait_for_write c (suc i) b r) r)
  awaited c i m b r k at = elim (Bool-cases (wait_for_write c (suc i) b r)) [
    | inl e ↦ rw e (finish-true c i m r (written_at (r.conns c) i m (k.fifo c) at (ground arith)))
    | inr e ↦ rw e (finish-false c i m r)
  ]

  enqueued :
      (c : ℕ) (m : Msg) (l : List (Action Msg)) (b : Bool) (r : Registry Msg)
      → Lawful r
      → c < r.allocated
      → (r.conns c).is_closed ≡ false
      → Ended c m (length (r.conns c).accepted) (await c l b (enqueue c m r))
  unfolding enqueue
  enqueued c m l b r k lt still = elim (Bool-cases (ltb (length (r.conns c).send_ch) capacity)) [
    | inl e ↦
        let i = length (r.conns c).accepted in
        let r2 = put c (accept m) r in
        let k2 = put-Lawful c (accept m) r (accept-Gentle m) k in
        let t : (c == c) ≡ true = ground arith in
        let at : get_elem? (r2.conns c).accepted i ≡ some m =
          rw t (get_elem?-last (r.conns c).accepted m) in
        rw (still, e, (k.fifo c).queued)
          (awaited c i m b (perform_all l r2) (perform_all-steps l r2 k2)
            ((perform_all-Later l r2).kept c lt i m at))
    | inr e ↦ rw (still, e) (finish-false c (length (r.conns c).accepted) m r)
  ]

  -- In a registry as every schedule of its goroutines leaves it, a revocation of an agent with a
  -- connection, whatever the goroutines do before and during the wait, ends in one of two ways: it
  -- answers that it was graceful, and then that connection is asked to stop and the command has been
  -- written on it, at the place after all that its channel had accepted before; or it answers that it
  -- was not, and then that connection is closed or cancelled, if it has a function to cancel it.
  pub revoke_conn-Ended :
      (agent : String) (c : ℕ) (m : Msg) (before meanwhile : List (Action Msg)) (gives_up : Bool)
      (r : Registry Msg)
      → Lawful r
      → r.entries agent ≡ some c
      → Ended c m
          (length ((perform_all before r).conns c).accepted)
          (revoke_conn agent m before meanwhile gives_up r)
  unfolding revoke_conn send_sync
  revoke_conn-Ended agent c m before meanwhile b r k e =
      let r1 = perform_all before r in
      let k1 = perform_all-steps before r k in
      elim (Bool-cases (owns_entry r1 c)) [
        | inl own ↦
            let o =
              k1.owner (r1.conns c).agent_id c
                (is_some_of_lem (r1.entries (r1.conns c).agent_id) c own) in
            rw (e, own) (enqueued c m meanwhile b r1 k1 o.0 o.2)
        | inr gone ↦ rw (e, gone) (finish-false c (length (r1.conns c).accepted) m r1)
      ]

  append_nil : (l : List Msg) → l ++ [] ≡ l
  append_nil [] = refl
  append_nil (x ∷ l) = ap (λ k. x ∷ k) (append_nil l)

  -- The three steps of the writer for one message.
  abbrev pub one_write : ℕ → List (Action Msg)
  one_write c = takes c ∷ sends_out c ∷ notes c ∷ []

  -- An idle writer with nothing to send has counted all that was accepted.
  idle-counted :
      (x : Conn Msg) → Fifo x → x.writer ≡ idle → x.send_ch ≡ [] → x.queued_seq ≡ x.sent_seq
  idle-counted x k w q =
      let o : x.accepted ≡ x.written ++ [] = rw (w, q) at k.order in
      let s : length x.written ≡ x.sent_seq + 0 = rw w at k.sent in
      let n : length x.accepted ≡ length x.written = ap length (o ∙ append_nil x.written) in
      let t = k.queued in omega arith

  one_write_lem :
      (c : ℕ) (m : Msg) (r : Registry Msg)
      → (r.conns c).writer ≡ idle
      → (r.conns c).send_ch ≡ m ∷ []
      → ((perform_all (one_write c) r).conns c).sent_seq ≡ suc (r.conns c).sent_seq
  unfolding perform_all perform
  one_write_lem c m r w q = let t : (c == c) ≡ true = ground arith in rw (t, w, q) refl

  -- In a registry as every schedule of its goroutines leaves it, where the send goroutine of the
  -- connection of the agent is idle and its channel is empty, a revocation during which this goroutine
  -- writes one message, and nothing is given up, is graceful.
  pub revoke_conn_idle :
      (agent : String) (c : ℕ) (m : Msg) (r : Registry Msg)
      → Lawful r
      → r.entries agent ≡ some c
      → (r.conns c).writer ≡ idle
      → (r.conns c).send_ch ≡ []
      → (revoke_conn agent m [] (one_write c) false r).0 ≡ true
  unfolding revoke_conn send_sync enqueue perform_all perform
  revoke_conn_idle agent c m r k e w q =
      let o = k.owner agent c e in
      let t : (c == c) ≡ true = ground arith in
      let n = idle-counted (r.conns c) (k.fifo c) w q in
      let own : owns_entry r c ≡ true = rw (o.1, e) t in
      let r2 = put c (accept m) r in
      let counted : ((perform_all (one_write c) r2).conns c).sent_seq ≡ suc (r.conns c).sent_seq =
        one_write_lem c m r2 (rw t w) (rw (t, q) refl) ∙ rw t refl in
      let r3 = perform_all (one_write c) r2 in
      let waited : wait_for_write c (suc (r.conns c).queued_seq) false r3 ≡ true =
        reached (suc (r.conns c).queued_seq) (r3.conns c).sent_seq (omega arith) in
      rw (e, own, o.2, q) (ap (λ b. (finish_revoke c b r3).0) waited)
