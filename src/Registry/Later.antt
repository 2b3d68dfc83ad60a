-- ===== src/Registry/Later.antt =====
-- What has entered the channel of a connection stays there, whatever the goroutines do.
use fileagent.Prelude.{
  ℕ, zero, suc, ◌<◌, String, ◌≡◌, Bool, false, Option, none, some, List, [], ◌∷◌, ◌++◌, ◌==◌, ◌≤◌,
  get_elem?, arith, length, ltb, Bool-cases, inl, inr,
}
use fileagent.Registry.Conns.{
  Writer, Conn, Registry, put, cancelled, cancel_previous, register, owns_entry, closed, unregister,
  accept, enqueue, send_to, send, send_sync, requested, stop_conn, disconnect_conn, stop_entry,
  stop, disconnect_entry, disconnect, capacity,
}
use fileagent.Registry.Schedule.{
  started, taken, sent_out, noted, failed, quitted, Action, registers, unregisters, starts, takes,
  sends_out, notes, fails, quits, sends, syncs, stops_conn, disconnects_conn, stops, disconnects,
  on_writer, perform, perform_all,
}
use fileagent.Registry.Lawful.{put_cases}
use fileagent.Registry.Invariant.{
  Frame, started-Frame, taken-Frame, sent_out-Frame, noted-Frame, failed-Frame, quitted-Frame,
}

get_elem?-append :
    {A : Type 0} (l k : List A) (i : ℕ) {a : A}
    → get_elem? l i ≡ some a
    → get_elem? (l ++ k) i ≡ some a
get_elem?-append [] k i h = absurd (cc)
get_elem?-append (x ∷ l) k zero h = h
get_elem?-append (x ∷ l) k (suc i) h = get_elem?-append l k i h

module _ {Msg : Type 0} where
  -- What stands in the channel's history of `x` stands at the same place in that of `y`.
  abbrev pub Grows : Conn Msg → Conn Msg → Type 0
  Grows x y = (i : ℕ) (m : Msg) → get_elem? x.accepted i ≡ some m → get_elem? y.accepted i ≡ some m

  pub record Later (r r' : Registry Msg) : Type 0 where
    pub more : r.allocated ≤ r'.allocated
    pub kept : (n : ℕ) → n < r.allocated → Grows (r.conns n) (r'.conns n)

  put-Later :
      (c : ℕ) (f : Conn Msg → Conn Msg) (r : Registry Msg)
      → ((x : Conn Msg) → Grows x (f x))
      → Later r (put c f r)
  put-Later c f r g = record {
    more = omega arith;
    kept = λ n lt. put_cases (Grows (r.conns n)) c f r n (g (r.conns n)) (λ i m h. h);
  }

  same-Later : (r : Registry Msg) → Later r r
  same-Later r = record { more = omega arith; kept = λ n lt i m h. h }

  writer-Later :
      (f : Writer Msg → Conn Msg → Conn Msg) (c : ℕ) (r : Registry Msg)
      → ((w : Writer Msg) (x : Conn Msg) → Frame x (f w x))
      → Later r (on_writer f c r)
  writer-Later f c r fr =
      put-Later c (λ x. f x.writer x) r (λ x i m h. rw (fr x.writer x).accepted h)

  enqueue-Later : (c : ℕ) (m : Msg) (r : Registry Msg) → Later r (enqueue c m r).1
  unfolding enqueue
  enqueue-Later c m r = elim (Bool-cases (r.conns c).is_closed) [
    | inl e ↦ rw e (record { more = omega arith; kept = λ n lt i m' h. h })
    | inr e ↦ elim (Bool-cases (ltb (length (r.conns c).send_ch) capacity)) [
      | inl s ↦
          rw (e, s)
            (put-Later c (accept m) r (λ x i m' h. get_elem?-append x.accepted (m ∷ []) i h))
      | inr s ↦ rw (e, s) (same-Later r)
    ]
  ]

  send_to-Later : (o : Option ℕ) (m : Msg) (r : Registry Msg) → Later r (send_to o m r).1
  send_to-Later none m r = same-Later r
  send_to-Later (some c) m r = enqueue-Later c m r

  send_sync-Later : (c : ℕ) (m : Msg) (r : Registry Msg) → Later r (send_sync c m r).1
  unfolding send_sync
  send_sync-Later c m r = elim (Bool-cases (owns_entry r c)) [
    | inl e ↦ rw e (enqueue-Later c m r)
    | inr e ↦ rw e (same-Later r)
  ]

  cancelled-Later : (c : ℕ) (r : Registry Msg) → Later r (put c cancelled r)
  cancelled-Later c r = put-Later c cancelled r (λ x i m h. h)

  stop_conn-Later : (c : ℕ) (r : Registry Msg) → Later r (stop_conn c r)
  unfolding stop_conn
  stop_conn-Later c r = put-Later c requested r (λ x i m h. h)

  stop_entry-Later : (o : Option ℕ) (r : Registry Msg) → Later r (stop_entry o r).1
  stop_entry-Later none r = same-Later r
  stop_entry-Later (some c) r = stop_conn-Later c r

  disconnect_entry-Later : (o : Option ℕ) (r : Registry Msg) → Later r (disconnect_entry o r).1
  unfolding disconnect_conn
  disconnect_entry-Later none r = same-Later r
  disconnect_entry-Later (some c) r = cancelled-Later c r

  unregister-Later : (c : ℕ) (r : Registry Msg) → Later r (unregister c r).1
  unfolding unregister
  unregister-Later c r = elim (Bool-cases (owns_entry r c)) [
    | inl e ↦ elim (Bool-cases (r.conns c).is_closed) [
      | inl s ↦ rw (e, s) (record { more = omega arith; kept = λ n lt i m h. h })
      | inr s ↦
          let k = put-Later c closed r (λ x i m h. h) in
          rw (e, s) (record { more = k.more; kept = k.kept })
    ]
    | inr e ↦ rw e (same-Later r)
  ]

  cancel_previous-Later : (o : Option ℕ) (r : Registry Msg) → Later r (cancel_previous o r)
  cancel_previous-Later none r = same-Later r
  cancel_previous-Later (some c) r = cancelled-Later c r

  register-Later : (agent : String) (b : Bool) (r : Registry Msg) → Later r (register agent b r).1
  unfolding register
  register-Later agent b r = record {
    more = omega arith;
    kept = λ n lt i m h.
        let ne : (n == r.allocated) ≡ false = ground arith in
        rw ne ((cancel_previous-Later (r.entries agent) r).kept n lt i m h);
  }

  perform-Later : (a : Action Msg) (r : Registry Msg) → Later r (perform a r)
  unfolding perform send stop disconnect disconnect_conn
  perform-Later (registers agent b) r = register-Later agent b r
  perform-Later (unregisters c) r = unregister-Later c r
  perform-Later (starts c) r = writer-Later started c r started-Frame
  perform-Later (takes c) r = writer-Later taken c r taken-Frame
  perform-Later (sends_out c) r = writer-Later sent_out c r sent_out-Frame
  perform-Later (notes c) r = writer-Later noted c r noted-Frame
  perform-Later (fails c) r = writer-Later failed c r failed-Frame
  perform-Later (quits c) r = writer-Later quitted c r quitted-Frame
  perform-Later (sends agent m) r = send_to-Later (r.entries agent) m r
  perform-Later (syncs c m) r = send_sync-Later c m r
  perform-Later (stops_conn c) r = stop_conn-Later c r
  perform-Later (disconnects_conn c) r = cancelled-Later c r
  perform-Later (stops agent) r = stop_entry-Later (r.entries agent) r
  perform-Later (disconnects agent) r = disconnect_entry-Later (r.entries agent) r

  then-Later : (r s t : Registry Msg) → Later r s → Later s t → Later r t
  then-Later r s t a b = record {
    more = let h = a.more in let k = b.more in omega arith;
    kept = λ n lt i m h. let below = a.more in b.kept n (omega arith) i m (a.kept n lt i m h);
  }

  pub perform_all-Later : (l : List (Action Msg)) (r : Registry Msg) → Later r (perform_all l r)
  unfolding perform_all
  perform_all-Later [] r = same-Later r
  perform_all-Later (a ∷ l) r =
      then-Later r (perform a r) (perform_all l (perform a r)) (perform-Later a r)
        (perform_all-Later l (perform a r))
