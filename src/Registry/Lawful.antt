-- ===== src/Registry/Lawful.antt =====
-- The state of the registry that every schedule of its goroutines keeps.
use fileagent.Prelude.{
  ℕ, ◌<◌, String, ◌≡◌, refl, ◌∙◌, ap, Bool, true, false, not, ◌||◌, Option, none, some, ◌==◌, ◌⊎◌,
  arith, length, ltb, Bool-cases, inl, inr,
}
use fileagent.Registry.Conns.{
  Conn, Registry, put, cancelled, is_some_of, owns_entry, accept, enqueue, send_to, send_sync,
  requested, stop_conn, disconnect_conn, stop_entry, disconnect_entry, capacity,
}
use fileagent.Registry.Fifo.{Fifo, accept-Fifo}

pub is_some_of_lem : (o : Option ℕ) (c : ℕ) → is_some_of o c ≡ true → o ≡ some c
is_some_of_lem none c h = absurd (cc)
is_some_of_lem (some d) c h = ap some (ground arith)

pub some_injective : {c d : ℕ} → some c ≡ some d → c ≡ d
some_injective h = cc

module _ {Msg : Type 0} where
  -- The connection has been closed or cancelled, where it can be.
  abbrev pub is_over : Conn Msg → Bool
  is_over x = x.is_closed || x.is_cancelled || not x.has_cancel

  -- A registered connection is open and its agent's; every other that was made is over; the messages
  -- of each are in order.
  pub record Lawful (r : Registry Msg) : Type 0 where
    pub fifo : (n : ℕ) → Fifo (r.conns n)
    pub owner :
        (a : String) (c : ℕ)
        → r.entries a ≡ some c
        → (c < r.allocated) × ((r.conns c).agent_id ≡ a) × ((r.conns c).is_closed ≡ false)
    pub ended :
        (c : ℕ)
        → c < r.allocated
        → (r.entries (r.conns c).agent_id ≡ some c) ⊎ (is_over (r.conns c) ≡ true)
    pub no_panic : r.panicked ≡ false

  pub put_cases :
      (P : Conn Msg → Type 0) (c : ℕ) (f : Conn Msg → Conn Msg) (r : Registry Msg) (n : ℕ)
      → P (f (r.conns n))
      → P (r.conns n)
      → P ((put c f r).conns n)
  put_cases P c f r n h k = elim (Bool-cases (n == c)) [ inl e ↦ rw e h | inr e ↦ rw e k ]

  -- A change of one connection that keeps whose it is, whether it is closed, and that it is over.
  pub record Gentle (f : Conn Msg → Conn Msg) : Type 0 where
    pub fifo : (x : Conn Msg) → Fifo x → Fifo (f x)
    pub agent : (x : Conn Msg) → (f x).agent_id ≡ x.agent_id
    pub closed : (x : Conn Msg) → (f x).is_closed ≡ x.is_closed
    pub over : (x : Conn Msg) → is_over x ≡ true → is_over (f x) ≡ true

  pub put-Lawful :
      (c : ℕ) (f : Conn Msg → Conn Msg) (r : Registry Msg)
      → Gentle f
      → Lawful r
      → Lawful (put c f r)
  put-Lawful c f r g k = record {
    fifo = λ n. put_cases Fifo c f r n (g.fifo (r.conns n) (k.fifo n)) (k.fifo n);
    owner = λ a d e.
        let o = k.owner a d e in
        put_cases (λ x. (d < r.allocated) × (x.agent_id ≡ a) × (x.is_closed ≡ false)) c f r d
          (o.0, g.agent (r.conns d) ∙ o.1, g.closed (r.conns d) ∙ o.2) o;
    ended = λ d lt.
        put_cases (λ x. (r.entries x.agent_id ≡ some d) ⊎ (is_over x ≡ true)) c f r d
          (elim (k.ended d lt) [
            | inl e ↦ inl (rw (g.agent (r.conns d)) e)
            | inr e ↦ inr (g.over (r.conns d) e)
          ])
          (k.ended d lt);
    no_panic = k.no_panic;
  }

  pub accept-Gentle : (m : Msg) → Gentle (accept m)
  accept-Gentle m = record {
    fifo = accept-Fifo m;
    agent = λ x. refl;
    closed = λ x. refl;
    over = λ x h. h;
  }

  pub requested-Gentle : Gentle requested
  requested-Gentle = record {
    fifo = λ x k. record { order = k.order; queued = k.queued; sent = k.sent };
    agent = λ x. refl;
    closed = λ x. refl;
    over = λ x h. h;
  }

  pub cancelled-is_over : (x : Conn Msg) → is_over (cancelled x) ≡ true
  cancelled-is_over x = elim (Bool-cases x.has_cancel) [
    | inl e ↦ ground arith
    | inr e ↦ ground arith
  ]

  pub cancelled-Gentle : Gentle cancelled
  cancelled-Gentle = record {
    fifo = λ x k. record { order = k.order; queued = k.queued; sent = k.sent };
    agent = λ x. refl;
    closed = λ x. refl;
    over = λ x h. cancelled-is_over x;
  }

  pub enqueue-Lawful :
      (c : ℕ) (m : Msg) (r : Registry Msg)
      → (r.conns c).is_closed ≡ false
      → Lawful r
      → Lawful (enqueue c m r).1
  unfolding enqueue
  enqueue-Lawful c m r still k = elim (Bool-cases (ltb (length (r.conns c).send_ch) capacity)) [
    | inl e ↦ rw (still, e) (put-Lawful c (accept m) r (accept-Gentle m) k)
    | inr e ↦ rw (still, e) k
  ]

  pub send_to-Lawful :
      (o : Option ℕ) (m : Msg) (r : Registry Msg) (agent : String)
      → r.entries agent ≡ o
      → Lawful r
      → Lawful (send_to o m r).1
  send_to-Lawful none m r agent e k = k
  send_to-Lawful (some c) m r agent e k = enqueue-Lawful c m r (k.owner agent c e).2 k

  pub send_sync-Lawful :
      (c : ℕ) (m : Msg) (r : Registry Msg) → Lawful r → Lawful (send_sync c m r).1
  unfolding send_sync
  send_sync-Lawful c m r k = elim (Bool-cases (owns_entry r c)) [
    | inl e ↦ rw e (
        enqueue-Lawful c m r
          (k.owner (r.conns c).agent_id c (is_some_of_lem (r.entries (r.conns c).agent_id) c e)).2
          k)
    | inr e ↦ rw e k
  ]

  pub stop_entry-Lawful : (o : Option ℕ) (r : Registry Msg) → Lawful r → Lawful (stop_entry o r).1
  unfolding stop_conn
  stop_entry-Lawful none r k = k
  stop_entry-Lawful (some c) r k = put-Lawful c requested r requested-Gentle k

  pub disconnect_entry-Lawful :
      (o : Option ℕ) (r : Registry Msg) → Lawful r → Lawful (disconnect_entry o r).1
  unfolding disconnect_conn
  disconnect_entry-Lawful none r k = k
  disconnect_entry-Lawful (some c) r k = put-Lawful c cancelled r cancelled-Gentle k
