-- ===== src/Registry/Tests.antt =====
-- The theorems of the registry at a concrete schedule: an agent connects, its writer starts, and the
-- agent reconnects.
use fileagent.Prelude.{ℕ, true, false, ◌≡◌, refl, some, List, [], ◌∷◌, length}
use fileagent.Registry.Conns.{idle, Registry, new_registry}
use fileagent.Registry.Schedule.{
  Action, registers, starts, takes, sends_out, notes, sends, unregisters, perform_all, revoke_conn,
}
use fileagent.Registry.Lawful.{Lawful}
use fileagent.Registry.Invariant.{perform_all-Lawful}
use fileagent.Registry.Revoke.{Ended, one_write, revoke_conn-Ended, revoke_conn_idle}

-- Two connections of one agent, the second with a message written.
abbrev connected : List (Action ℕ)
connected =
    registers "a1" true
    ∷ registers "a1" true
    ∷ starts 1
    ∷ sends "a1" 5
    ∷ takes 1
    ∷ sends_out 1
    ∷ notes 1
    ∷ unregisters 0
    ∷ []

abbrev reached : Registry ℕ
reached = perform_all connected new_registry

perform_all-Lawful_example : Lawful reached
perform_all-Lawful_example = perform_all-Lawful connected

reached-Lawful : Lawful reached
reached-Lawful = perform_all-Lawful connected

reached_entry : reached.entries "a1" ≡ some 1
unfolding perform_all
reached_entry = refl

-- The agent reconnects before the command is sent: the old connection is ended by force.
revoke_conn-Ended_example :
    Ended 1 7
      (length ((perform_all (registers "a1" true ∷ []) reached).conns 1).accepted)
      (revoke_conn "a1" 7 (registers "a1" true ∷ []) [] false reached)
revoke_conn-Ended_example =
    revoke_conn-Ended "a1" 1 7 (registers "a1" true ∷ []) [] false reached reached-Lawful
      reached_entry

reached_idle : (reached.conns 1).writer ≡ idle
unfolding perform_all
reached_idle = refl

reached_empty : (reached.conns 1).send_ch ≡ []
unfolding perform_all
reached_empty = refl

revoke_conn_idle_example : (revoke_conn "a1" 7 [] (one_write 1) false reached).0 ≡ true
revoke_conn_idle_example =
    revoke_conn_idle "a1" 1 7 reached reached-Lawful reached_entry reached_idle reached_empty
