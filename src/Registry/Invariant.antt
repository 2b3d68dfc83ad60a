-- ===== src/Registry/Invariant.antt =====
-- What holds after every schedule of the goroutines of the registry.
use fileagent.Prelude.{ℕ, ◌≡◌, refl, ◌∙◌, false, List, [], ◌∷◌, arith, Bool-cases, inl, inr}
use fileagent.Registry.Conns.{
  Writer, not_started, idle, noting, sending, stopped, Conn, Registry, new_registry, cancelled,
  owns_entry, unregister, send, requested, stop_conn, disconnect_conn, stop, disconnect,
}
use fileagent.Registry.Schedule.{
  started, taken, taken_from, sent_out, noted, failed, quitted, Action, registers, unregisters,
  starts, takes, sends_out, notes, fails, quits, sends, syncs, stops_conn, disconnects_conn, stops,
  disconnects, on_writer, perform, perform_all,
}
use fileagent.Registry.Fifo.{
  Fifo, new_conn-Fifo, started-Fifo, taken-Fifo, sent_out-Fifo, noted-Fifo, failed-Fifo,
  quitted-Fifo,
}
use fileagent.Registry.Lawful.{
  is_some_of_lem, is_over, Lawful, put-Lawful, cancelled-Gentle, requested-Gentle, send_to-Lawful,
  send_sync-Lawful, stop_entry-Lawful, disconnect_entry-Lawful,
}
use fileagent.Registry.Membership.{remove-Lawful, register-Lawful}

module _ {Msg : Type 0} where
  -- What a step of the writer leaves as it is.
  pub record Frame (x y : Conn Msg) : Type 0 where
    pub agent : y.agent_id ≡ x.agent_id
    pub closed : y.is_closed ≡ x.is_closed
    pub over : is_over y ≡ is_over x
    pub accepted : y.accepted ≡ x.accepted

  same : (x : Conn Msg) → Frame x x
  same x = record { agent = refl; closed = refl; over = refl; accepted = refl }

  pub started-Frame : (w : Writer Msg) (x : Conn Msg) → Frame x (started w x)
  started-Frame not_started x = record { agent = refl; closed = refl; over = refl; accepted = refl }
  started-Frame idle x = same x
  started-Frame noting x = same x
  started-Frame (sending m) x = same x
  started-Frame (stopped o) x = same x

  taken_from-Frame : (q : List Msg) (x : Conn Msg) → Frame x (taken_from q x)
  taken_from-Frame [] x = same x
  taken_from-Frame (m ∷ ms) x = record { agent = refl; closed = refl; over = refl; accepted = refl }

  pub taken-Frame : (w : Writer Msg) (x : Conn Msg) → Frame x (taken w x)
  taken-Frame idle x = taken_from-Frame x.send_ch x
  taken-Frame not_started x = same x
  taken-Frame noting x = same x
  taken-Frame (sending m) x = same x
  taken-Frame (stopped o) x = same x

  pub sent_out-Frame : (w : Writer Msg) (x : Conn Msg) → Frame x (sent_out w x)
  sent_out-Frame (sending m) x = record {
    agent = refl;
    closed = refl;
    over = refl;
    accepted = refl;
  }
  sent_out-Frame not_started x = same x
  sent_out-Frame idle x = same x
  sent_out-Frame noting x = same x
  sent_out-Frame (stopped o) x = same x

  pub noted-Frame : (w : Writer Msg) (x : Conn Msg) → Frame x (noted w x)
  noted-Frame noting x = record { agent = refl; closed = refl; over = refl; accepted = refl }
  noted-Frame not_started x = same x
  noted-Frame idle x = same x
  noted-Frame (sending m) x = same x
  noted-Frame (stopped o) x = same x

  pub failed-Frame : (w : Writer Msg) (x : Conn Msg) → Frame x (failed w x)
  failed-Frame (sending m) x = record { agent = refl; closed = refl; over = refl; accepted = refl }
  failed-Frame not_started x = same x
  failed-Frame idle x = same x
  failed-Frame noting x = same x
  failed-Frame (stopped o) x = same x

  pub quitted-Frame : (w : Writer Msg) (x : Conn Msg) → Frame x (quitted w x)
  quitted-Frame idle x = record { agent = refl; closed = refl; over = refl; accepted = refl }
  quitted-Frame not_started x = same x
  quitted-Frame noting x = same x
  quitted-Frame (sending m) x = same x
  quitted-Frame (stopped o) x = same x

  on_writer-Lawful :
      (f : Writer Msg → Conn Msg → Conn Msg) (c : ℕ) (r : Registry Msg)
      → ((w : Writer Msg) (x : Conn Msg) → x.writer ≡ w → Fifo x → Fifo (f w x))
      → ((w : Writer Msg) (x : Conn Msg) → Frame x (f w x))
      → Lawful r
      → Lawful (on_writer f c r)
  on_writer-Lawful f c r ff fr =
      put-Lawful c (λ x. f x.writer x) r
        (record {
          fifo = λ x k. ff x.writer x refl k;
          agent = λ x. (fr x.writer x).agent;
          closed = λ x. (fr x.writer x).closed;
          over = λ x h. (fr x.writer x).over ∙ h;
        })

  unregister-Lawful : (c : ℕ) (r : Registry Msg) → Lawful r → Lawful (unregister c r).1
  unfolding unregister
  unregister-Lawful c r k = elim (Bool-cases (owns_entry r c)) [
    | inl e ↦ rw e (remove-Lawful c r (is_some_of_lem (r.entries (r.conns c).agent_id) c e) k)
    | inr e ↦ rw e k
  ]

  pub perform-Lawful : (a : Action Msg) (r : Registry Msg) → Lawful r → Lawful (perform a r)
  unfolding perform send stop disconnect stop_conn disconnect_conn
  perform-Lawful (registers agent b) r k = register-Lawful agent b r k
  perform-Lawful (unregisters c) r k = unregister-Lawful c r k
  perform-Lawful (starts c) r k = on_writer-Lawful started c r started-Fifo started-Frame k
  perform-Lawful (takes c) r k = on_writer-Lawful taken c r taken-Fifo taken-Frame k
  perform-Lawful (sends_out c) r k = on_writer-Lawful sent_out c r sent_out-Fifo sent_out-Frame k
  perform-Lawful (notes c) r k = on_writer-Lawful noted c r noted-Fifo noted-Frame k
  perform-Lawful (fails c) r k = on_writer-Lawful failed c r failed-Fifo failed-Frame k
  perform-Lawful (quits c) r k = on_writer-Lawful quitted c r quitted-Fifo quitted-Frame k
  perform-Lawful (sends agent m) r k = send_to-Lawful (r.entries agent) m r agent refl k
  perform-Lawful (syncs c m) r k = send_sync-Lawful c m r k
  perform-Lawful (stops_conn c) r k = put-Lawful c requested r requested-Gentle k
  perform-Lawful (disconnects_conn c) r k = put-Lawful c cancelled r cancelled-Gentle k
  perform-Lawful (stops agent) r k = stop_entry-Lawful (r.entries agent) r k
  perform-Lawful (disconnects agent) r k = disconnect_entry-Lawful (r.entries agent) r k

  pub perform_all-steps :
      (l : List (Action Msg)) (r : Registry Msg) → Lawful r → Lawful (perform_all l r)
  unfolding perform_all
  perform_all-steps [] r k = k
  perform_all-steps (a ∷ l) r k = perform_all-steps l (perform a r) (perform-Lawful a r k)

  -- After every schedule of the goroutines from the empty registry: nothing has been sent on a closed
  -- channel and no channel has been closed twice; an entry of the registry is a connection of its
  -- agent whose channel is open; every other connection that was made is closed or cancelled, if it
  -- has a function to cancel it; and on each connection, what has entered the channel is what has been
  -- written, what the writer holds and what waits, in this order, with their sequence numbers.
  pub perform_all-Lawful : (l : List (Action Msg)) → Lawful (perform_all l new_registry)
  perform_all-Lawful l = perform_all-steps l new_registry (record {
    fifo = λ n. new_conn-Fifo "" false;
    owner = λ a c e. absurd (cc);
    ended = λ c lt. absurd (omega arith);
    no_panic = refl;
  })
