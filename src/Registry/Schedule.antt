-- ===== src/Registry/Schedule.antt =====
-- registry.go and the send goroutine of Connect in handler.go: the steps of the goroutines, in any
-- order, and RevokeConn among them.
use fileagent.Prelude.{
  ℕ, suc, String, Bool, true, false, ◌&&◌, not, Option, none, some, List, [], ◌∷◌, ◌++◌, leb,
}
use fileagent.Registry.Conns.{
  Writer, not_started, idle, noting, sending, stopped, Conn, Registry, put, register, unregister,
  send, send_sync, stop_conn, disconnect_conn, stop, disconnect,
}

module _ {Msg : Type 0} where
  -- The steps of the send goroutine: it starts, takes a message, has it sent or not, notes that it
  -- was written, and quits. It may quit whenever it is idle, since its context may end for reasons
  -- outside.
  abbrev pub started : Writer Msg → Conn Msg → Conn Msg
  started not_started x = record x { writer = idle }
  started idle x = x
  started noting x = x
  started (sending m) x = x
  started (stopped o) x = x

  abbrev pub taken_from : List Msg → Conn Msg → Conn Msg
  taken_from [] x = x
  taken_from (m ∷ ms) x = record x { send_ch = ms; writer = sending m }

  abbrev pub taken : Writer Msg → Conn Msg → Conn Msg
  taken idle x = taken_from x.send_ch x
  taken not_started x = x
  taken noting x = x
  taken (sending m) x = x
  taken (stopped o) x = x

  abbrev pub sent_out : Writer Msg → Conn Msg → Conn Msg
  sent_out (sending m) x = record x { writer = noting; written = x.written ++ m ∷ [] }
  sent_out not_started x = x
  sent_out idle x = x
  sent_out noting x = x
  sent_out (stopped o) x = x

  -- noteWritten
  abbrev pub noted : Writer Msg → Conn Msg → Conn Msg
  noted noting x = record x { writer = idle; sent_seq = suc x.sent_seq }
  noted not_started x = x
  noted idle x = x
  noted (sending m) x = x
  noted (stopped o) x = x

  -- markWriterStopped, at the end of the goroutine.
  abbrev pub failed : Writer Msg → Conn Msg → Conn Msg
  failed (sending m) x = record x { writer = stopped (some m); writer_done = true }
  failed not_started x = x
  failed idle x = x
  failed noting x = x
  failed (stopped o) x = x

  abbrev pub quitted : Writer Msg → Conn Msg → Conn Msg
  quitted idle x = record x { writer = stopped none; writer_done = true }
  quitted not_started x = x
  quitted noting x = x
  quitted (sending m) x = x
  quitted (stopped o) x = x

-- One step of some goroutine.
pub data Action (Msg : Type 0) : Type 0 where
  registers : String → Bool → Action Msg
  unregisters starts takes sends_out notes fails quits : ℕ → Action Msg
  sends : String → Msg → Action Msg
  syncs : ℕ → Msg → Action Msg
  stops_conn disconnects_conn : ℕ → Action Msg
  stops disconnects : String → Action Msg

module _ {Msg : Type 0} where
  abbrev pub on_writer : (Writer Msg → Conn Msg → Conn Msg) → ℕ → Registry Msg → Registry Msg
  on_writer f c = put c (λ x. f x.writer x)

  unfoldable pub perform : Action Msg → Registry Msg → Registry Msg
  unfolding register unregister send send_sync stop_conn disconnect_conn stop disconnect
  perform (registers agent has_cancel) r = (register agent has_cancel r).1
  perform (unregisters c) r = (unregister c r).1
  perform (starts c) r = on_writer started c r
  perform (takes c) r = on_writer taken c r
  perform (sends_out c) r = on_writer sent_out c r
  perform (notes c) r = on_writer noted c r
  perform (fails c) r = on_writer failed c r
  perform (quits c) r = on_writer quitted c r
  perform (sends agent msg) r = (send agent msg r).1
  perform (syncs c msg) r = (send_sync c msg r).1
  perform (stops_conn c) r = stop_conn c r
  perform (disconnects_conn c) r = (disconnect_conn c r).1
  perform (stops agent) r = (stop agent r).1
  perform (disconnects agent) r = (disconnect agent r).1

  unfoldable pub perform_all : List (Action Msg) → Registry Msg → Registry Msg
  unfolding perform
  perform_all [] r = r
  perform_all (a ∷ rest) r = perform_all rest (perform a r)

  -- waitForWrite: at its last look, the sequence number has been reached. `gives_up` tells that the
  -- select has chosen the timer or the end of the writer.
  abbrev pub wait_for_write : ℕ → ℕ → Bool → Registry Msg → Bool
  wait_for_write c seq gives_up r = leb seq (r.conns c).sent_seq && not gives_up

  abbrev pub finish_revoke : ℕ → Bool → Registry Msg → Bool × Registry Msg
  finish_revoke c true r = (true, stop_conn c r)
  finish_revoke c false r = (false, (disconnect_conn c r).1)

  -- The rest of sendSync: the wait, during which other goroutines take the steps `meanwhile`.
  abbrev pub confirm : ℕ → List (Action Msg) → Bool → Option ℕ × Registry Msg → Bool × Registry Msg
  confirm c meanwhile gives_up (none, r) = (false, r)
  confirm c meanwhile gives_up (some seq, r) =
      let r' = perform_all meanwhile r in (wait_for_write c seq gives_up r', r')

  abbrev pub await : ℕ → List (Action Msg) → Bool → Option ℕ × Registry Msg → Bool × Registry Msg
  await c meanwhile gives_up sent =
      let (confirmed, r) = confirm c meanwhile gives_up sent in finish_revoke c confirmed r

  -- SendSync of registry.go, by the agent: other goroutines take the steps `before` between the
  -- capture of the connection and the critical section.
  abbrev pub send_confirmed :
      String
      → Msg
      → List (Action Msg)
      → List (Action Msg)
      → Bool
      → Registry Msg
      → Bool × Registry Msg
  send_confirmed agent msg before meanwhile gives_up r = elim (r.entries agent) [
    | none ↦ (false, r)
    | some c ↦ confirm c meanwhile gives_up (send_sync c msg (perform_all before r))
  ]

  abbrev pub revoke_captured :
      Option ℕ
      → Msg
      → List (Action Msg)
      → List (Action Msg)
      → Bool
      → Registry Msg
      → Bool × Registry Msg
  revoke_captured none msg before meanwhile gives_up r = (false, r)
  revoke_captured (some c) msg before meanwhile gives_up r =
      await c meanwhile gives_up (send_sync c msg (perform_all before r))

  -- RevokeConn. Other goroutines take the steps `before` between the capture of the connection and
  -- the critical section of sendSync, and the steps `meanwhile` during the wait.
  unfoldable pub revoke_conn :
      String
      → Msg
      → List (Action Msg)
      → List (Action Msg)
      → Bool
      → Registry Msg
      → Bool × Registry Msg
  unfolding perform_all send_sync stop_conn disconnect_conn
  revoke_conn agent msg before meanwhile gives_up r =
      revoke_captured (r.entries agent) msg before meanwhile gives_up r
