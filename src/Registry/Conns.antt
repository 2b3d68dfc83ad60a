-- ===== src/Registry/Conns.antt =====
-- controlplane/internal/grpcserver/registry.go: the registry of connections. A connection is a place
-- of a heap, so that a caller keeps the one that it has captured after a reconnect. Each function is
-- what one goroutine does in one critical section. The messages are of any type, and the sequence
-- numbers, of 64 bits in the source, are unbounded.
use fileagent.Prelude.{
  ℕ, suc, String, Bool, true, false, Option, none, some, List, [], ◌∷◌, ◌++◌, ◌==◌, ltb, str_eq,
  length, if◌then◌else◌,
}

-- The send goroutine: `sending` is in stream.Send, `noting` is between its success and noteWritten,
-- `stopped` keeps the message that was not sent.
pub data Writer (Msg : Type 0) : Type 0 where
  not_started idle noting : Writer Msg
  sending : Msg → Writer Msg
  stopped : Option Msg → Writer Msg

-- AgentConn: `send_ch` is what its channel holds, the oldest first, `has_cancel` is
-- `CancelFunc != nil`, `written` is what stream.Send has taken. `accepted` lists the messages that
-- have entered the channel: the code does not keep it, and the theorems read it.
pub record Conn (Msg : Type 0) : Type 0 where
  pub agent_id : String
  pub send_ch : List Msg
  pub is_closed : Bool
  pub has_cancel : Bool
  pub is_cancelled : Bool
  pub is_stopping : Bool
  pub queued_seq : ℕ
  pub sent_seq : ℕ
  pub writer_done : Bool
  pub writer : Writer Msg
  pub written : List Msg
  pub accepted : List Msg

-- AgentRegistry with the heap. `panicked` is set where the runtime panics: a send on a closed
-- channel, or the closing of one.
pub record Registry (Msg : Type 0) : Type 0 where
  pub conns : ℕ → Conn Msg
  pub allocated : ℕ
  pub entries : String → Option ℕ
  pub panicked : Bool

-- sendChCapacity
abbrev pub capacity : ℕ
capacity = 32

abbrev pub is_some_of : Option ℕ → ℕ → Bool
is_some_of none c = false
is_some_of (some d) c = d == c

abbrev pub is_sent : Option ℕ → Bool
is_sent none = false
is_sent (some _) = true

module _ {Msg : Type 0} where
  abbrev pub new_conn : String → Bool → Conn Msg
  new_conn agent has_cancel = record {
    agent_id = agent;
    send_ch = [];
    is_closed = false;
    has_cancel = has_cancel;
    is_cancelled = false;
    is_stopping = false;
    queued_seq = 0;
    sent_seq = 0;
    writer_done = false;
    writer = not_started;
    written = [];
    accepted = [];
  }

  abbrev pub new_registry : Registry Msg
  new_registry = record {
    conns = λ _. new_conn "" false;
    allocated = 0;
    entries = λ _. none;
    panicked = false;
  }

  abbrev pub put : ℕ → (Conn Msg → Conn Msg) → Registry Msg → Registry Msg
  put c f r = record r { conns = λ n. if n == c then f (r.conns n) else r.conns n }

  -- CancelFunc, where there is one.
  abbrev pub cancelled : Conn Msg → Conn Msg
  cancelled x = record x { is_cancelled = if x.has_cancel then true else x.is_cancelled }

  abbrev pub cancel_previous : Option ℕ → Registry Msg → Registry Msg
  cancel_previous none r = r
  cancel_previous (some prev) r = put prev cancelled r

  -- Register: the connection that it displaces is cancelled.
  unfoldable pub register : String → Bool → Registry Msg → ℕ × Registry Msg
  register agent has_cancel r =
      let c = r.allocated in
      let r' = cancel_previous (r.entries agent) r in
      (
        c,
        record r' {
          conns = λ n. if n == c then new_conn agent has_cancel else r'.conns n;
          allocated = suc c;
          entries = λ a. if str_eq a agent then some c else r.entries a;
        },
      )

  -- `r.conns[c.AgentID] == c`
  abbrev pub owns_entry : Registry Msg → ℕ → Bool
  owns_entry r c = is_some_of (r.entries (r.conns c).agent_id) c

  abbrev pub closed : Conn Msg → Conn Msg
  closed x = record x { is_closed = true; writer_done = true }

  -- close(conn.SendCh), delete and markWriterStopped.
  abbrev pub remove : ℕ → Registry Msg → Registry Msg
  remove c r =
      if (r.conns c).is_closed then record r { panicked = true } else record (put c closed r) {
        entries = λ a. if str_eq a (r.conns c).agent_id then none else r.entries a;
      }

  unfoldable pub unregister : ℕ → Registry Msg → Bool × Registry Msg
  unregister c r = if owns_entry r c then (true, remove c r) else (false, r)

  abbrev pub accept : Msg → Conn Msg → Conn Msg
  accept msg x = record x {
    send_ch = x.send_ch ++ msg ∷ [];
    queued_seq = suc x.queued_seq;
    accepted = x.accepted ++ msg ∷ [];
  }

  -- enqueue never waits: it is refused where the channel is full.
  unfoldable pub enqueue : ℕ → Msg → Registry Msg → Option ℕ × Registry Msg
  enqueue c msg r =
      if (r.conns c).is_closed
      then (none, record r { panicked = true })
      else if ltb (length (r.conns c).send_ch) capacity
      then (some (suc (r.conns c).queued_seq), put c (accept msg) r)
      else (none, r)

  abbrev pub send_to : Option ℕ → Msg → Registry Msg → Bool × Registry Msg
  send_to none msg r = (false, r)
  send_to (some c) msg r = let (seq, r') = enqueue c msg r in (is_sent seq, r')

  unfoldable pub send : String → Msg → Registry Msg → Bool × Registry Msg
  unfolding enqueue
  send agent msg r = send_to (r.entries agent) msg r

  -- The critical section of sendSync: the captured connection is still the registered one.
  unfoldable pub send_sync : ℕ → Msg → Registry Msg → Option ℕ × Registry Msg
  unfolding enqueue
  send_sync c msg r = if owns_entry r c then enqueue c msg r else (none, r)

  -- requestStop, and CancelFunc of one connection.
  abbrev pub requested : Conn Msg → Conn Msg
  requested x = record x { is_stopping = true }

  unfoldable pub stop_conn : ℕ → Registry Msg → Registry Msg
  stop_conn c = put c requested

  unfoldable pub disconnect_conn : ℕ → Registry Msg → Bool × Registry Msg
  disconnect_conn c r = ((r.conns c).has_cancel, put c cancelled r)

  abbrev pub is_online : String → Registry Msg → Bool
  is_online agent r = is_sent (r.entries agent)

  abbrev pub stop_entry : Option ℕ → Registry Msg → Bool × Registry Msg
  stop_entry none r = (false, r)
  stop_entry (some c) r = (true, stop_conn c r)

  unfoldable pub stop : String → Registry Msg → Bool × Registry Msg
  unfolding stop_conn
  stop agent r = stop_entry (r.entries agent) r

  abbrev pub disconnect_entry : Option ℕ → Registry Msg → Bool × Registry Msg
  disconnect_entry none r = (false, r)
  disconnect_entry (some c) r = disconnect_conn c r

  unfoldable pub disconnect : String → Registry Msg → Bool × Registry Msg
  unfolding disconnect_conn
  disconnect agent r = disconnect_entry (r.entries agent) r
