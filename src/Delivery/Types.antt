-- ===== src/Delivery/Types.antt =====
-- controlplane/internal/event: the deliveries of events, and what the engine meets outside. Every
-- outside call takes the next turn, and the oracles say what it meets there.
use fileagent.Prelude.{ℕ, suc, String, Bool, Option, List}

-- The four values of the column `status`.
pub data Status : Type 0 where
  pending failed delivered dead : Status

-- db.EventDelivery; times are in seconds.
pub record EventDelivery : Type 0 where
  pub id : String
  pub event_rule_id : String
  pub event_type : String
  pub payload : String
  pub status : Status
  pub response_code : Option ℕ
  pub response_body : Option String
  pub attempt_count : ℕ
  pub next_retry_at : Option ℕ
  pub created_at : ℕ
  pub delivered_at : Option ℕ

-- indexer.UpdateEventDeliveryParams without the id.
pub record Outcome : Type 0 where
  pub status : Status
  pub response_code : Option ℕ
  pub response_body : Option String
  pub attempt_count : ℕ
  pub next_retry_at : Option ℕ
  pub delivered_at : Option ℕ

-- db.EventRule: its action, with the URL or the subject of its configuration, and nothing where the
-- JSON cannot be read.
pub data Action : Type 0 where
  webhook nats_publish : Option String → Action
  unsupported : String → Action

pub record EventRule : Type 0 where
  pub id : String
  pub action : Action

-- How a webhook call ends: `unbuilt` is a request that cannot be made, `status` a response.
pub data Posted : Type 0 where
  unbuilt no_answer : Posted
  status : ℕ → Posted

-- A sending: the delivery, and the number of the attempt, 0 for the first.
pub record Sending : Type 0 where
  pub id : String
  pub attempt : ℕ

-- `sends` lists the sendings, the newest first: the code does not keep it, and the theorems read it.
pub record World : Type 0 where
  pub deliveries : List EventDelivery
  pub sends : List Sending
  pub turn : ℕ
  pub fails : ℕ → Bool
  pub clock : ℕ → ℕ
  pub rules : ℕ → String → List EventRule
  pub find_rule : ℕ → String → Option EventRule
  pub fresh_id : ℕ → String
  pub post : ℕ → String → String → Posted
  pub has_publisher : Bool
  -- the error of publishing a payload to a subject
  pub publish : ℕ → String → String → Option String

abbrev pub next : World → World
next w = record w { turn = suc w.turn }
