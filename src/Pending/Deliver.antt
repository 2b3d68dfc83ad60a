-- ===== src/Pending/Deliver.antt =====
-- What Deliver of the stores answers, and what it leaves.
use fileagent.Prelude.{
  ℕ, String, ◌≡◌, ◌≢◌, ◌⊎◌, refl, true, false, none, some, ◌==◌, arith, str_eq, eq_iff, Bool-cases,
  inl, inr,
}
use fileagent.Pending.Store.{Store, load, deliver, finish}

module _ {R : Type 0} where
  -- Where a request is registered and its channel is empty: a delivery by another agent than the one
  -- that the request was sent to is refused and changes nothing; one by that agent, where no other
  -- goroutine runs, answers, ends the registration, and puts its result in the channel.
  pub deliver_of_request :
      (request_id sender : String) (result : R) (p : ℕ) (s : Store R)
      → s.entries request_id ≡ some p
      → (s.heap p).ch ≡ none
      → (((s.heap p).agent_id ≢ sender) × (deliver request_id sender result s ≡ (false, s)))
        ⊎ (((s.heap p).agent_id ≡ sender)
            × ((deliver request_id sender result s).0 ≡ true)
            × ((deliver request_id sender result s).1.entries request_id ≡ none)
            × (((deliver request_id sender result s).1.heap p).ch
                ≡ some (record { sender = sender; result = result })))
  unfolding deliver load finish
  deliver_of_request request_id sender result p s e empty =
      elim (Bool-cases (str_eq (s.heap p).agent_id sender)) [
        | inl q ↦
            let t : (p == p) ≡ true = ground arith in
            let self : str_eq request_id request_id ≡ true =
              (eq_iff request_id request_id).1 refl in
            inr ((eq_iff _ _).0 q, rw (e, q) refl, rw (e, q, self) refl, rw (e, q, t, empty) refl)
        | inr q ↦ inl (
          (λ same. absurd (ground (arith, (eq_iff (s.heap p).agent_id sender).1 same))),
          rw (e, q) refl,
        )
      ]
