-- ===== src/Pending/Owner.antt =====
-- Whose results a waiter can get.
use fileagent.Prelude.{
  ℕ, suc, ◌<◌, String, ◌≡◌, refl, sym, ◌∙◌, false, Option, none, some, List, [], ◌∷◌, ◌==◌, arith,
  All, str_eq, eq_iff, if◌then◌else◌, Bool-cases, inl, inr,
}
use fileagent.Pending.Store.{
  Delivered, Pending, Flight, Store, new_store, register, check_recipient, load, without, offered,
  finish, cancel, taken, Step, registers, starts, ends, yields, cancels, reads, start, end_first,
  behind, rotated, step, run_steps,
}

without-known :
    (request_id : String) (entries : String → Option ℕ) (id : String) (p : ℕ)
    → without request_id entries id ≡ some p
    → entries id ≡ some p
without-known request_id entries id p h = ground arith

module _ {R : Type 0} where
  -- The channel and what was read of it come from the agent that the request was sent to.
  pub record FromRecipient (p : Pending R) : Type 0 where
    pub held : (d : Delivered R) → p.ch ≡ some d → d.sender ≡ p.agent_id
    pub got : All (λ d. d.sender ≡ p.agent_id) p.read

  -- So does what the calls under way will send.
  abbrev pub IsAddressed : (ℕ → Pending R) → ℕ → Flight R → Type 0
  IsAddressed heap allocated f =
      (f.place < allocated) × (f.carried.sender ≡ (heap f.place).agent_id)

  pub record Owned (s : Store R) : Type 0 where
    pub channels : (n : ℕ) → FromRecipient (s.heap n)
    pub under_way : All (IsAddressed s.heap s.allocated) s.flights
    pub known : (id : String) (p : ℕ) → s.entries id ≡ some p → p < s.allocated

  offered-FromRecipient :
      (d : Delivered R) (p : Pending R)
      → d.sender ≡ p.agent_id
      → FromRecipient p
      → FromRecipient (offered d p)
  offered-FromRecipient d p from k = by_channel p.ch refl
    where
      by_channel : (o : Option (Delivered R)) → p.ch ≡ o → FromRecipient (offered d p)
      by_channel none e = record {
        held = λ x h. (let e' : d ≡ x = ground arith in rw (← e') from);
        got = k.got;
      }
      by_channel (some y) e = record {
        held = λ x h. (let e' : y ≡ x = ground arith in k.held x (rw (← e') e));
        got = k.got;
      }

  taken-FromRecipient :
      (o : Option (Delivered R)) (p : Pending R)
      → p.ch ≡ o
      → FromRecipient p
      → FromRecipient (taken o p)
  taken-FromRecipient none p e k = k
  taken-FromRecipient (some d) p e k = record {
    held = λ x h. absurd (cc);
    got = (k.held d e, k.got);
  }

  -- A change of one place that keeps its agent.
  moved :
      (q : ℕ) (f : Pending R → Pending R) (heap : ℕ → Pending R) (allocated : ℕ)
      (l : List (Flight R))
      → ((p : Pending R) → (f p).agent_id ≡ p.agent_id)
      → All (IsAddressed heap allocated) l
      → All (IsAddressed (λ n. if n == q then f (heap n) else heap n) allocated) l
  moved q f heap allocated [] same h = tt
  moved q f heap allocated (x ∷ l) same h = elim (Bool-cases (x.place == q)) [
    | inl e ↦
        ((h.0.0, rw e (h.0.1 ∙ sym (same (heap x.place)))), moved q f heap allocated l same h.1)
    | inr e ↦ ((h.0.0, rw e h.0.1), moved q f heap allocated l same h.1)
  ]

  -- A new place beyond the others.
  added :
      (p : Pending R) (heap : ℕ → Pending R) (allocated : ℕ) (l : List (Flight R))
      → All (IsAddressed heap allocated) l
      → All (IsAddressed (λ n. if n == allocated then p else heap n) (suc allocated)) l
  added p heap allocated [] h = tt
  added p heap allocated (x ∷ l) h =
      let lt = h.0.0 in
      let ne : (x.place == allocated) ≡ false = ground arith in
      ((omega arith, rw ne h.0.1), added p heap allocated l h.1)

  register-Owned :
      (request_id agent_id : String) (s : Store R)
      → Owned s
      → Owned (register request_id agent_id s).1
  unfolding register
  register-Owned request_id agent_id s k = record {
    channels = λ n. elim (Bool-cases (n == s.allocated)) [
      | inl e ↦ rw e (record { held = λ d h. absurd (cc); got = tt })
      | inr e ↦ rw e (k.channels n)
    ];
    under_way =
        added (record { agent_id = agent_id; ch = none; read = [] }) s.heap s.allocated s.flights
          k.under_way;
    known = λ id p h. elim (Bool-cases (str_eq id request_id)) [
      | inl e ↦
          let q : some s.allocated ≡ some p = rw e at h in
          let r : s.allocated ≡ p = cc in omega arith
      | inr e ↦ let b = k.known id p (rw e at h) in omega arith
    ];
  }

  start-Owned :
      (o : Option ℕ) (request_id agent_id : String) (result : R) (s : Store R)
      → ((p : ℕ) → o ≡ some p → p < s.allocated)
      → Owned s
      → Owned (
          start
            (check_recipient o agent_id s)
            request_id
            (record { sender = agent_id; result = result })
            s)
  start-Owned none request_id agent_id result s known k = k
  start-Owned (some p) request_id agent_id result s known k =
      elim (Bool-cases (str_eq (s.heap p).agent_id agent_id)) [
        | inl e ↦ rw e (record {
          channels = k.channels;
          under_way = ((known p refl, sym ((eq_iff _ _).0 e)), k.under_way);
          known = k.known;
        })
        | inr e ↦ rw e k
      ]

  finish-Owned :
      (f : Flight R) (s : Store R) → IsAddressed s.heap s.allocated f → Owned s → Owned (finish f s)
  unfolding finish
  finish-Owned f s from k = record {
    channels = λ n. elim (Bool-cases (n == f.place)) [
      | inl e ↦
          let q : f.place ≡ n = ground arith in
          let from' : f.carried.sender ≡ (s.heap n).agent_id = rw q at from.1 in
          rw e (offered-FromRecipient f.carried (s.heap n) from' (k.channels n))
      | inr e ↦ rw e (k.channels n)
    ];
    under_way =
        moved f.place (offered f.carried) s.heap s.allocated s.flights (λ p. refl) k.under_way;
    known = λ id p h. k.known id p (without-known f.request_id s.entries id p h);
  }

  end_first-Owned :
      (l : List (Flight R)) (s : Store R) → s.flights ≡ l → Owned s → Owned (end_first l s)
  end_first-Owned [] s e k = k
  end_first-Owned (f ∷ l) s e k =
      let all : All (IsAddressed s.heap s.allocated) (f ∷ l) = rw e at k.under_way in
      finish-Owned f (record s { flights = l }) all.0
        (record { channels = k.channels; under_way = all.1; known = k.known })

  All-behind :
      (P : Flight R → Type 0) (f : Flight R) (l : List (Flight R))
      → P f
      → All P l
      → All P (behind f l)
  All-behind P f [] p h = (p, tt)
  All-behind P f (g ∷ l) p h = (h.0, All-behind P f l p h.1)

  All-rotated : (P : Flight R → Type 0) (l : List (Flight R)) → All P l → All P (rotated l)
  All-rotated P [] h = tt
  All-rotated P (f ∷ l) h = All-behind P f l h.0 h.1

  taken_agent : (o : Option (Delivered R)) (p : Pending R) → (taken o p).agent_id ≡ p.agent_id
  taken_agent none p = refl
  taken_agent (some d) p = refl

  step-Owned : (a : Step R) (s : Store R) → Owned s → Owned (step a s)
  unfolding step load cancel
  step-Owned (registers request_id agent_id) s k = register-Owned request_id agent_id s k
  step-Owned (starts request_id agent_id result) s k =
      start-Owned (s.entries request_id) request_id agent_id result s (k.known request_id) k
  step-Owned ends s k = end_first-Owned s.flights s refl k
  step-Owned yields s k = record {
    channels = k.channels;
    under_way = All-rotated (IsAddressed s.heap s.allocated) s.flights k.under_way;
    known = k.known;
  }
  step-Owned (cancels request_id) s k = record {
    channels = k.channels;
    under_way = k.under_way;
    known = λ id p h. k.known id p (without-known request_id s.entries id p h);
  }
  step-Owned (reads q) s k = record {
    channels = λ n. elim (Bool-cases (n == q)) [
      | inl e ↦ rw e (taken-FromRecipient (s.heap n).ch (s.heap n) refl (k.channels n))
      | inr e ↦ rw e (k.channels n)
    ];
    under_way =
        moved q (λ p. taken p.ch p) s.heap s.allocated s.flights (λ p. taken_agent p.ch p)
          k.under_way;
    known = k.known;
  }

  run-Owned : (l : List (Step R)) (s : Store R) → Owned s → Owned (run_steps l s)
  unfolding run_steps
  run-Owned [] s k = k
  run-Owned (a ∷ l) s k = run-Owned l (step a s) (step-Owned a s k)

  -- After every schedule of registrations, deliveries, cancellations and readings, in which a delivery
  -- may be overtaken between its check and its sending: what a waiter has read, and what waits in its
  -- channel, was delivered by the agent that its request was sent to.
  pub run_steps-FromRecipient :
      (l : List (Step R)) (n : ℕ) → FromRecipient ((run_steps l new_store).heap n)
  run_steps-FromRecipient l n =
      (run-Owned l new_store (record {
        channels = λ m. record { held = λ d h. absurd (cc); got = tt };
        under_way = tt;
        known = λ id p h. absurd (cc);
      })).channels
        n
