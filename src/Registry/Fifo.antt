-- ===== src/Registry/Fifo.antt =====
-- The order of the messages on one connection of registry.go: what enters the channel, what the writer
-- holds, and what is written.
use fileagent.Prelude.{
  ℕ, suc, ◌+◌, ◌≡◌, refl, sym, ◌∙◌, ap, Bool, none, some, List, [], ◌∷◌, ◌++◌, arith, length,
}
use fileagent.Registry.Conns.{
  Writer, not_started, idle, noting, sending, stopped, Conn, new_conn, accept,
}
use fileagent.Registry.Schedule.{started, taken, taken_from, sent_out, noted, failed, quitted}

module _ {Msg : Type 0} where
  -- What the send goroutine has taken from the channel and not written.
  abbrev pub held : Writer Msg → List Msg
  held not_started = []
  held idle = []
  held noting = []
  held (sending m) = m ∷ []
  held (stopped none) = []
  held (stopped (some m)) = m ∷ []

  -- What is written and not yet counted.
  abbrev pub uncounted : Writer Msg → ℕ
  uncounted noting = 1
  uncounted not_started = 0
  uncounted idle = 0
  uncounted (sending m) = 0
  uncounted (stopped o) = 0

  pub record Fifo (x : Conn Msg) : Type 0 where
    pub order : x.accepted ≡ x.written ++ (held x.writer ++ x.send_ch)
    pub queued : x.queued_seq ≡ length x.accepted
    pub sent : length x.written ≡ x.sent_seq + uncounted x.writer

  pub length-snoc : (l : List Msg) (m : Msg) → length (l ++ m ∷ []) ≡ suc (length l)
  length-snoc [] m = refl
  length-snoc (x ∷ l) m = ap suc (length-snoc l m)

  pub append_assoc : (a b c : List Msg) → (a ++ b) ++ c ≡ a ++ (b ++ c)
  append_assoc [] b c = refl
  append_assoc (x ∷ a) b c = ap (λ l. x ∷ l) (append_assoc a b c)

  pub new_conn-Fifo : (agent : _) (b : Bool) → Fifo (new_conn {Msg = Msg} agent b)
  new_conn-Fifo agent b = record { order = refl; queued = refl; sent = refl }

  pub accept-Fifo : (m : Msg) (x : Conn Msg) → Fifo x → Fifo (accept m x)
  accept-Fifo m x k = record {
    order =
        ap (λ l. l ++ m ∷ []) k.order
        ∙ append_assoc x.written (held x.writer ++ x.send_ch) (m ∷ [])
        ∙ ap (λ l. x.written ++ l) (append_assoc (held x.writer) x.send_ch (m ∷ []));
    queued = ap suc k.queued ∙ sym (length-snoc x.accepted m);
    sent = k.sent;
  }

  -- A step of the writer, by what it is at.
  pub started-Fifo : (w : Writer Msg) (x : Conn Msg) → x.writer ≡ w → Fifo x → Fifo (started w x)
  started-Fifo not_started x e k = record {
    order = rw e at k.order;
    queued = k.queued;
    sent = rw e at k.sent;
  }
  started-Fifo idle x e k = k
  started-Fifo noting x e k = k
  started-Fifo (sending m) x e k = k
  started-Fifo (stopped o) x e k = k

  taken_from-Fifo :
      (q : List Msg) (x : Conn Msg)
      → x.writer ≡ idle
      → x.send_ch ≡ q
      → Fifo x
      → Fifo (taken_from q x)
  taken_from-Fifo [] x e f k = k
  taken_from-Fifo (m ∷ ms) x e f k = record {
    order = rw (e, f) at k.order;
    queued = k.queued;
    sent = rw e at k.sent;
  }

  pub taken-Fifo : (w : Writer Msg) (x : Conn Msg) → x.writer ≡ w → Fifo x → Fifo (taken w x)
  taken-Fifo idle x e k = taken_from-Fifo x.send_ch x e refl k
  taken-Fifo not_started x e k = k
  taken-Fifo noting x e k = k
  taken-Fifo (sending m) x e k = k
  taken-Fifo (stopped o) x e k = k

  pub sent_out-Fifo : (w : Writer Msg) (x : Conn Msg) → x.writer ≡ w → Fifo x → Fifo (sent_out w x)
  sent_out-Fifo (sending m) x e k =
      let o : x.accepted ≡ x.written ++ (m ∷ x.send_ch) = rw e at k.order in
      let n : length x.written ≡ x.sent_seq + 0 = rw e at k.sent in
      record {
        order = o ∙ sym (append_assoc x.written (m ∷ []) x.send_ch);
        queued = k.queued;
        sent = length-snoc x.written m ∙ ground arith;
      }
  sent_out-Fifo not_started x e k = k
  sent_out-Fifo idle x e k = k
  sent_out-Fifo noting x e k = k
  sent_out-Fifo (stopped o) x e k = k

  pub noted-Fifo : (w : Writer Msg) (x : Conn Msg) → x.writer ≡ w → Fifo x → Fifo (noted w x)
  noted-Fifo noting x e k =
      let n : length x.written ≡ x.sent_seq + 1 = rw e at k.sent in
      record { order = rw e at k.order; queued = k.queued; sent = ground arith }
  noted-Fifo not_started x e k = k
  noted-Fifo idle x e k = k
  noted-Fifo (sending m) x e k = k
  noted-Fifo (stopped o) x e k = k

  pub failed-Fifo : (w : Writer Msg) (x : Conn Msg) → x.writer ≡ w → Fifo x → Fifo (failed w x)
  failed-Fifo (sending m) x e k = record {
    order = rw e at k.order;
    queued = k.queued;
    sent = rw e at k.sent;
  }
  failed-Fifo not_started x e k = k
  failed-Fifo idle x e k = k
  failed-Fifo noting x e k = k
  failed-Fifo (stopped o) x e k = k

  pub quitted-Fifo : (w : Writer Msg) (x : Conn Msg) → x.writer ≡ w → Fifo x → Fifo (quitted w x)
  quitted-Fifo idle x e k = record {
    order = rw e at k.order;
    queued = k.queued;
    sent = rw e at k.sent;
  }
  quitted-Fifo not_started x e k = k
  quitted-Fifo noting x e k = k
  quitted-Fifo (sending m) x e k = k
  quitted-Fifo (stopped o) x e k = k
