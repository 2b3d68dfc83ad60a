-- ===== src/Delivery/Tests.antt =====
-- The theorems of the engine at a concrete rule, whose webhook does not answer.
use fileagent.Prelude.{false, refl, none, some, [], ◌∷◌, arith}
use fileagent.Delivery.Types.{failed, webhook, no_answer, EventDelivery, EventRule, World}
use fileagent.Delivery.Engine.{retry_delivery}
use fileagent.Delivery.Dispatch.{comes, retries, perform_history}
use fileagent.Delivery.Bounded.{Bounded}
use fileagent.Delivery.Attempts.{perform_history-Bounded}
use fileagent.Delivery.Advance.{Advanced, retry_delivery-Advanced}

abbrev rule : EventRule
rule = record { id = "r"; action = webhook (some "http://example") }

abbrev waiting : EventDelivery
waiting = record {
  id = "d";
  event_rule_id = "r";
  event_type = "file_uploaded";
  payload = "{}";
  status = failed;
  response_code = none;
  response_body = none;
  attempt_count = 4;
  next_retry_at = some 10;
  created_at = 1;
  delivered_at = none;
}

abbrev world : World
world = record {
  deliveries = waiting ∷ [];
  sends = [];
  turn = 0;
  fails = λ _. false;
  clock = λ _. 100;
  rules = λ _ _. rule ∷ [];
  find_rule = λ _ _. some rule;
  fresh_id = λ _. "e";
  post = λ _ _ _. no_answer;
  has_publisher = false;
  publish = λ _ _ _. none;
}

world-Bounded : Bounded world
world-Bounded = record { rows = ((λ h. omega arith), tt); sendings = tt }

perform_history-Bounded_example :
    Bounded (perform_history (comes "file_uploaded" "{}" ∷ retries ∷ retries ∷ []) world)
perform_history-Bounded_example =
    perform_history-Bounded (comes "file_uploaded" "{}" ∷ retries ∷ retries ∷ []) world
      world-Bounded

retry_delivery-Advanced_example : Advanced waiting (retry_delivery waiting world).1.deliveries
retry_delivery-Advanced_example = retry_delivery-Advanced waiting rule world refl (λ n. refl)
