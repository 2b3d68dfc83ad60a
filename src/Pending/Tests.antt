-- ===== src/Pending/Tests.antt =====
-- The theorems of the stores, where another agent answers a request first.
use fileagent.Prelude.{ℕ, List, ◌≡◌, ◌≢◌, ◌⊎◌, refl, true, false, none, some, [], ◌∷◌}
use fileagent.Pending.Store.{
  Store, Step, registers, starts, ends, reads, new_store, deliver, run_steps,
}
use fileagent.Pending.Owner.{FromRecipient, run_steps-FromRecipient}
use fileagent.Pending.Deliver.{deliver_of_request}

abbrev requested : List (Step ℕ)
requested = registers "q" "a1" ∷ starts "q" "a2" 8 ∷ ends ∷ []

abbrev answered : List (Step ℕ)
answered = registers "q" "a1" ∷ starts "q" "a2" 8 ∷ starts "q" "a1" 9 ∷ ends ∷ reads 0 ∷ []

run_steps-FromRecipient_example : FromRecipient ((run_steps answered new_store).heap 0)
run_steps-FromRecipient_example = run_steps-FromRecipient answered 0

abbrev waiting : Store ℕ
waiting = run_steps requested new_store

deliver_of_request_example :
    (((waiting.heap 0).agent_id ≢ "a1") × (deliver "q" "a1" 9 waiting ≡ (false, waiting)))
    ⊎ (((waiting.heap 0).agent_id ≡ "a1")
        × ((deliver "q" "a1" 9 waiting).0 ≡ true)
        × ((deliver "q" "a1" 9 waiting).1.entries "q" ≡ none)
        × (((deliver "q" "a1" 9 waiting).1.heap 0).ch
            ≡ some (record { sender = "a1"; result = 9 })))
unfolding run_steps
deliver_of_request_example = deliver_of_request "q" "a1" 9 0 waiting refl refl
