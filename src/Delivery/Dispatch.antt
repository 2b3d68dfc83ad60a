-- ===== src/Delivery/Dispatch.antt =====
-- controlplane/internal/event/engine.go: HandleEvent and the dispatch of an event to a rule; webhook.go:
-- the first sending.
use fileagent.Prelude.{
  ℕ, ◌+◌, String, Bool, true, false, ◌||◌, Option, none, some, List, [], ◌∷◌, ◌++◌, ◌==◌, leb, ltb,
  str_eq, length, if◌then◌else◌,
}
use fileagent.Delivery.Types.{
  Status, pending, failed, delivered, dead, EventDelivery, Outcome, Action, webhook, nats_publish,
  unsupported, EventRule, Posted, unbuilt, no_answer, status, World, next,
}
use fileagent.Delivery.Engine.{
  backoff, retry_backoff_schedule, update_delivery, log_sending, publish_nats, process_retries,
}

-- CreateEventDelivery of inFlightDeliveryParams: the scan does not take the row before the delay.
abbrev pub in_flight : String → String → String → String → ℕ → EventDelivery
in_flight id rule_id event_type payload now = record {
  id = id;
  event_rule_id = rule_id;
  event_type = event_type;
  payload = payload;
  status = pending;
  response_code = none;
  response_body = none;
  attempt_count = 0;
  next_retry_at = some (now + backoff 0);
  created_at = now;
  delivered_at = none;
}

unfoldable pub create_delivery : String → String → String → World → Option String × World
unfolding backoff
create_delivery rule_id event_type payload w =
    if w.fails w.turn
    then (none, next w)
    else let id = w.fresh_id w.turn in
      (
        some id,
        record (next w) {
          deliveries =
              w.deliveries ++ in_flight id rule_id event_type payload (w.clock w.turn) ∷ [];
        },
      )

-- UpdateEventDeliveryStatus of dbAdapter: it stamps the time of a delivery, and resets the attempts.
abbrev pub delivered_time : Status → ℕ → Option ℕ
delivered_time delivered now = some now
delivered_time pending now = none
delivered_time failed now = none
delivered_time dead now = none

unfoldable pub update_status : String → Status → Option ℕ → Option ℕ → World → Bool × World
unfolding update_delivery
update_status id s code next_retry w =
    update_delivery id
      (record {
        status = s;
        response_code = code;
        response_body = none;
        attempt_count = 0;
        next_retry_at = next_retry;
        delivered_at = delivered_time s (w.clock w.turn);
      })
      (next w)

abbrev pub schedule_retry : String → ℕ → Option ℕ → World → Bool × World
schedule_retry id attempt code w =
    if leb (length retry_backoff_schedule) attempt
    then update_status id dead code none w
    else update_status id pending code (some (w.clock w.turn + backoff attempt)) (next w)

abbrev pub code_of : ℕ → Option ℕ
code_of code = if code == 0 then none else some code

-- WebhookSender.Send, by the response.
abbrev pub after_post : String → Posted → World → Bool × World
after_post id unbuilt w = (false, w)
after_post id no_answer w = schedule_retry id 0 none w
after_post id (status code) w =
    if ltb code 200 || leb 300 code
    then schedule_retry id 0 (code_of code) w
    else update_status id delivered (some code) none w

abbrev pub dispatch_webhook_created : Option String → String → String → World → Bool × World
dispatch_webhook_created none url payload w = (false, w)
dispatch_webhook_created (some id) url payload w =
    (true, (after_post id (w.post w.turn url payload) (log_sending id 0 w)).1)

-- The outcome of a first publishing, by its error.
abbrev pub published : Option String → ℕ → Outcome
published none now = record {
  status = delivered;
  response_code = none;
  response_body = none;
  attempt_count = 0;
  next_retry_at = none;
  delivered_at = some now;
}
published (some e) now = record {
  status = failed;
  response_code = none;
  response_body = some e;
  attempt_count = 0;
  next_retry_at = some (now + backoff 0);
  delivered_at = none;
}

abbrev pub dispatch_nats_created : Option String → String → String → World → Bool × World
dispatch_nats_created none subject payload w = (false, w)
dispatch_nats_created (some id) subject payload w =
    let w' = log_sending id 0 w in
    update_delivery id (published (publish_nats subject payload w) (w'.clock w'.turn)) (next w')

abbrev pub dispatch_to : EventRule → Action → String → String → World → Bool × World
dispatch_to rule (webhook none) event_type payload w = (true, w)
dispatch_to rule (webhook (some url)) event_type payload w =
    if str_eq url ""
    then (true, w)
    else let (id, w') = create_delivery rule.id event_type payload w in
      dispatch_webhook_created id url payload w'
dispatch_to rule (nats_publish none) event_type payload w = (true, w)
dispatch_to rule (nats_publish (some subject)) event_type payload w =
    if str_eq subject ""
    then (true, w)
    else let (id, w') = create_delivery rule.id event_type payload w in
      dispatch_nats_created id subject payload w'
dispatch_to rule (unsupported kind) event_type payload w = (true, w)

unfoldable pub dispatch : EventRule → String → String → World → Bool × World
unfolding create_delivery update_status update_delivery
dispatch rule event_type payload w = dispatch_to rule rule.action event_type payload w

-- The errors of the rules are logged.
unfoldable pub dispatch_all : List EventRule → String → String → World → World
unfolding dispatch
dispatch_all [] event_type payload w = w
dispatch_all (r ∷ rs) event_type payload w =
    dispatch_all rs event_type payload (dispatch r event_type payload w).1

unfoldable pub handle_event : String → String → World → Bool × World
unfolding dispatch_all
handle_event event_type payload w =
    if w.fails w.turn
    then (false, next w)
    else (true, dispatch_all (w.rules w.turn event_type) event_type payload (next w))

-- What the engine is given to do: an event of a type with a payload, and a tick of the retry worker.
pub data Operation : Type 0 where
  comes : String → String → Operation
  retries : Operation

unfoldable pub perform_history : List Operation → World → World
unfolding handle_event process_retries
perform_history [] w = w
perform_history (comes event_type payload ∷ l) w =
    perform_history l (handle_event event_type payload w).1
perform_history (retries ∷ l) w = perform_history l (process_retries w)
