-- ===== src/Pending/Store.antt =====
-- controlplane/internal/dirstore/store.go and controlplane/internal/dryrun/store.go, which are one
-- program for two types of results: requests that wait for the result of an agent.
use fileagent.Prelude.{
  ℕ, suc, String, Bool, true, false, Option, none, some, List, [], ◌∷◌, ◌==◌, str_eq, if◌then◌else◌,
}

-- A result with the agent that has delivered it: the code keeps the result, and the theorems read
-- the agent.
pub record Delivered (R : Type 0) : Type 0 where
  pub sender : String
  pub result : R

-- `pending` with its channel of capacity 1, and what its waiter has read of it.
pub record Pending (R : Type 0) : Type 0 where
  pub agent_id : String
  pub ch : Option (Delivered R)
  pub read : List (Delivered R)

-- A call of Deliver after it has found its recipient: the request, the channel and the result.
pub record Flight (R : Type 0) : Type 0 where
  pub request_id : String
  pub place : ℕ
  pub carried : Delivered R

-- Store with the heap of all that were registered, and the calls of Deliver that are under way.
pub record Store (R : Type 0) : Type 0 where
  pub heap : ℕ → Pending R
  pub allocated : ℕ
  pub entries : String → Option ℕ
  pub flights : List (Flight R)

abbrev pub without : String → (String → Option ℕ) → String → Option ℕ
without request_id entries id = if str_eq id request_id then none else entries id

module _ {R : Type 0} where
  abbrev pub new_store : Store R
  new_store = record {
    heap = λ _. record { agent_id = ""; ch = none; read = [] };
    allocated = 0;
    entries = λ _. none;
    flights = [];
  }

  unfoldable pub register : String → String → Store R → ℕ × Store R
  register request_id agent_id s =
      let p = s.allocated in
      (
        p,
        record s {
          heap = λ n.
              if n == p then record { agent_id = agent_id; ch = none; read = [] } else s.heap n;
          allocated = suc p;
          entries = λ id. if str_eq id request_id then some p else s.entries id;
        },
      )

  -- The first part of Deliver: the load, and the check of the recipient.
  abbrev pub check_recipient : Option ℕ → String → Store R → Option ℕ
  check_recipient none agent_id s = none
  check_recipient (some p) agent_id s = if str_eq (s.heap p).agent_id agent_id then some p else none

  unfoldable pub load : String → String → Store R → Option ℕ
  load request_id agent_id s = check_recipient (s.entries request_id) agent_id s

  -- The channel takes a result where it is empty; otherwise the result is dropped.
  abbrev pub offered : Delivered R → Pending R → Pending R
  offered d p = record p { ch = elim p.ch [ none ↦ some d | some held ↦ some held ] }

  -- The second part of Deliver: the deletion, and the sending.
  unfoldable pub finish : Flight R → Store R → Store R
  finish f s = record s {
    heap = λ n. if n == f.place then offered f.carried (s.heap n) else s.heap n;
    entries = without f.request_id s.entries;
  }

  abbrev pub deliver_to : Option ℕ → String → Delivered R → Store R → Bool × Store R
  deliver_to none request_id d s = (false, s)
  deliver_to (some p) request_id d s =
      (true, finish (record { request_id = request_id; place = p; carried = d }) s)

  -- Deliver, with nothing in between.
  unfoldable pub deliver : String → String → R → Store R → Bool × Store R
  unfolding load finish
  deliver request_id agent_id result s =
      deliver_to (load request_id agent_id s) request_id
        (record { sender = agent_id; result = result }) s

  unfoldable pub cancel : String → Store R → Store R
  cancel request_id s = record s { entries = without request_id s.entries }

  -- The waiter reads its channel.
  abbrev pub taken : Option (Delivered R) → Pending R → Pending R
  taken none p = p
  taken (some d) p = record p { ch = none; read = d ∷ p.read }

-- What a goroutine does at once: a call of Deliver `starts`, and the first one under way `ends`, or
-- goes behind the others.
pub data Step (R : Type 0) : Type 0 where
  registers : String → String → Step R
  starts : String → String → R → Step R
  ends yields : Step R
  cancels : String → Step R
  reads : ℕ → Step R

module _ {R : Type 0} where
  abbrev pub start : Option ℕ → String → Delivered R → Store R → Store R
  start none request_id d s = s
  start (some p) request_id d s = record s {
    flights = record { request_id = request_id; place = p; carried = d } ∷ s.flights;
  }

  abbrev pub end_first : List (Flight R) → Store R → Store R
  end_first [] s = s
  end_first (f ∷ fs) s = finish f (record s { flights = fs })

  abbrev pub behind : Flight R → List (Flight R) → List (Flight R)
  behind f [] = f ∷ []
  behind f (g ∷ gs) = g ∷ behind f gs

  abbrev pub rotated : List (Flight R) → List (Flight R)
  rotated [] = []
  rotated (f ∷ fs) = behind f fs

  unfoldable pub step : Step R → Store R → Store R
  unfolding register load finish cancel
  step (registers request_id agent_id) s = (register request_id agent_id s).1
  step (starts request_id agent_id result) s =
      start (load request_id agent_id s) request_id (record { sender = agent_id; result = result })
        s
  step ends s = end_first s.flights s
  step yields s = record s { flights = rotated s.flights }
  step (cancels request_id) s = cancel request_id s
  step (reads p) s = record s {
    heap = λ n. if n == p then taken (s.heap n).ch (s.heap n) else s.heap n;
  }

  unfoldable pub run_steps : List (Step R) → Store R → Store R
  unfolding step
  run_steps [] s = s
  run_steps (a ∷ l) s = run_steps l (step a s)
