-- ===== src/Registry/Membership.antt =====
-- Register and Unregister of registry.go: who owns an entry, and who is over.
use fileagent.Prelude.{
  ℕ, suc, ◌<◌, String, ◌≡◌, refl, sym, ◌∙◌, ap, Bool, true, false, Option, none, some, ◌==◌, ◌⊎◌,
  arith, str_eq, eq_iff, if◌then◌else◌, Bool-cases, inl, inr,
}
use fileagent.Registry.Conns.{Registry, put, cancelled, cancel_previous, register, closed, remove}
use fileagent.Registry.Fifo.{Fifo, new_conn-Fifo}
use fileagent.Registry.Lawful.{
  some_injective, is_over, Lawful, put_cases, put-Lawful, cancelled-is_over, cancelled-Gentle,
}

module _ {Msg : Type 0} where
  -- The connection of another entry is another connection.
  other_entry :
      (c d : ℕ) (a : String) (r : Registry Msg)
      → Lawful r
      → r.entries a ≡ some d
      → str_eq a (r.conns c).agent_id ≡ false
      → (d == c) ≡ false
  other_entry c d a r k e ne = elim (Bool-cases (d == c)) [
    | inl s ↦
        let q : d ≡ c = ground arith in
        let same : (r.conns c).agent_id ≡ a = rw q at (k.owner a d e).1 in
        absurd (ground (arith, (eq_iff a (r.conns c).agent_id).1 (sym same)))
    | inr s ↦ s
  ]

  removed-owner :
      (c : ℕ) (r : Registry Msg)
      → Lawful r
      → (a : String) (d : ℕ)
      → (if str_eq a (r.conns c).agent_id then none else r.entries a) ≡ some d
      → (d < r.allocated)
        × (((put c closed r).conns d).agent_id ≡ a)
        × (((put c closed r).conns d).is_closed ≡ false)
  removed-owner c r k a d e = elim (Bool-cases (str_eq a (r.conns c).agent_id)) [
    | inl q ↦ let bad : none ≡ some d = rw q at e in absurd (cc)
    | inr q ↦
        let e' : r.entries a ≡ some d = rw q at e in
        let ne = other_entry c d a r k e' q in rw ne (k.owner a d e')
  ]

  removed-ended :
      (c : ℕ) (r : Registry Msg)
      → r.entries (r.conns c).agent_id ≡ some c
      → Lawful r
      → (d : ℕ) → d < r.allocated
      → ((if str_eq ((put c closed r).conns d).agent_id (r.conns c).agent_id
            then none
            else r.entries ((put c closed r).conns d).agent_id)
          ≡ some d)
        ⊎ (is_over ((put c closed r).conns d) ≡ true)
  removed-ended c r own k d lt = elim (Bool-cases (d == c)) [
    | inl s ↦ inr (rw s refl)
    | inr s ↦ elim (k.ended d lt) [
      | inr o ↦ inr (rw s o)
      | inl e ↦ elim (Bool-cases (str_eq (r.conns d).agent_id (r.conns c).agent_id)) [
        | inl q ↦
            let same : (r.conns d).agent_id ≡ (r.conns c).agent_id = (eq_iff _ _).0 q in
            let both : some d ≡ some c = sym e ∙ ap r.entries same ∙ own in
            let eq : d ≡ c = some_injective both in absurd (ground arith)
        | inr q ↦ inl (rw (s, q) e)
      ]
    ]
  ]

  pub remove-Lawful :
      (c : ℕ) (r : Registry Msg)
      → r.entries (r.conns c).agent_id ≡ some c
      → Lawful r
      → Lawful (remove c r)
  remove-Lawful c r own k = rw ((k.owner (r.conns c).agent_id c own).2) (record {
    fifo = λ n.
        put_cases Fifo c closed r n
          (record { order = (k.fifo n).order; queued = (k.fifo n).queued; sent = (k.fifo n).sent })
          (k.fifo n);
    owner = removed-owner c r k;
    ended = removed-ended c r own k;
    no_panic = k.no_panic;
  })

  cancel_previous-Lawful :
      (o : Option ℕ) (r : Registry Msg) → Lawful r → Lawful (cancel_previous o r)
  cancel_previous-Lawful none r k = k
  cancel_previous-Lawful (some c) r k = put-Lawful c cancelled r cancelled-Gentle k

  -- What is left of the former connection of the agent.
  displaced :
      (o : Option ℕ) (r : Registry Msg) (d : ℕ)
      → o ≡ some d
      → is_over ((cancel_previous o r).conns d) ≡ true
  displaced none r d e = absurd (cc)
  displaced (some c) r d e =
      let q : c ≡ d = some_injective e in
      let t : (d == c) ≡ true = ground arith in rw t (cancelled-is_over (r.conns d))

  kept_entries :
      (o : Option ℕ) (r : Registry Msg)
      → ((cancel_previous o r).entries ≡ r.entries)
        × ((cancel_previous o r).allocated ≡ r.allocated)
        × ((n : ℕ) → ((cancel_previous o r).conns n).agent_id ≡ (r.conns n).agent_id)
  kept_entries none r = (refl, refl, λ n. refl)
  kept_entries (some c) r = (
    refl,
    refl,
    λ n. put_cases (λ x. x.agent_id ≡ (r.conns n).agent_id) c cancelled r n refl refl,
  )

  registered-owner :
      (agent : String) (b : Bool) (r : Registry Msg)
      → Lawful r
      → (a : String) (d : ℕ) → (register agent b r).1.entries a ≡ some d
      → (d < suc r.allocated)
        × (((register agent b r).1.conns d).agent_id ≡ a)
        × (((register agent b r).1.conns d).is_closed ≡ false)
  unfolding register
  registered-owner agent b r k a d e =
      let o = r.entries agent in
      let k' = cancel_previous-Lawful o r k in
      let (es, al, _) = kept_entries o r in
      elim (Bool-cases (str_eq a agent)) [
        | inl q ↦
            let new : some r.allocated ≡ some d = rw q at e in
            let eq : r.allocated ≡ d = some_injective new in
            let t : (d == r.allocated) ≡ true = ground arith in
            rw t (omega arith, sym ((eq_iff a agent).0 q), refl)
        | inr q ↦
            let old : r.entries a ≡ some d = rw q at e in
            let own = k'.owner a d (rw es old) in
            let lt : d < r.allocated = rw al at own.0 in
            let ne : (d == r.allocated) ≡ false = ground arith in rw ne (omega arith, own.1, own.2)
      ]

  registered-ended :
      (agent : String) (b : Bool) (r : Registry Msg)
      → Lawful r
      → (d : ℕ) → d < suc r.allocated
      → ((register agent b r).1.entries ((register agent b r).1.conns d).agent_id ≡ some d)
        ⊎ (is_over ((register agent b r).1.conns d) ≡ true)
  unfolding register
  registered-ended agent b r k d lt =
      let o = r.entries agent in
      let k' = cancel_previous-Lawful o r k in
      let (es, al, _) = kept_entries o r in
      elim (Bool-cases (d == r.allocated)) [
        | inl e ↦
            let self : str_eq agent agent ≡ true = (eq_iff agent agent).1 refl in
            let eq : r.allocated ≡ d = ground arith in inl (rw (e, self) (ap some eq))
        | inr e ↦
            let lt' : d < r.allocated = ground arith in
            elim (k'.ended d (rw al lt')) [
              | inr over ↦ inr (rw e over)
              | inl own ↦
                  let old : r.entries ((cancel_previous o r).conns d).agent_id ≡ some d =
                    rw es at own in
                  elim (Bool-cases (str_eq ((cancel_previous o r).conns d).agent_id agent)) [
                    | inl q ↦
                        inr (rw e (displaced o r d (sym (ap r.entries ((eq_iff _ _).0 q)) ∙ old)))
                    | inr q ↦ inl (rw (e, q) old)
                  ]
            ]
      ]

  pub register-Lawful :
      (agent : String) (b : Bool) (r : Registry Msg) → Lawful r → Lawful (register agent b r).1
  unfolding register
  register-Lawful agent b r k =
      let k' = cancel_previous-Lawful (r.entries agent) r k in
      record {
        fifo = λ n. elim (Bool-cases (n == r.allocated)) [
          | inl e ↦ rw e (new_conn-Fifo agent b)
          | inr e ↦ rw e (k'.fifo n)
        ];
        owner = registered-owner agent b r k;
        ended = registered-ended agent b r k;
        no_panic = k'.no_panic;
      }
