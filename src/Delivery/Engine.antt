-- ===== src/Delivery/Engine.antt =====
-- controlplane/internal/event/engine.go and webhook.go: the dispatch of an event to the rules, and the
-- retries. An operation gives whether it returns no error, and the next world.
use fileagent.Prelude.{
  ℕ, suc, ◌+◌, String, Bool, true, false, ◌&&◌, ◌||◌, Option, none, some, List, [], ◌∷◌, leb, ltb,
  str_eq, get_elem?, if◌then◌else◌,
}
use fileagent.Queue.Sql.{select, update, order_by}
use fileagent.Delivery.Types.{
  Status, pending, failed, delivered, dead, EventDelivery, Outcome, Action, webhook, nats_publish,
  unsupported, EventRule, Posted, unbuilt, no_answer, status, World, next,
}

-- retryBackoffSchedule, in seconds.
abbrev pub retry_backoff_schedule : List ℕ
retry_backoff_schedule = 30 ∷ 120 ∷ 600 ∷ 1800 ∷ 7200 ∷ []

abbrev pub max_retry_attempts : ℕ
max_retry_attempts = 5

-- An index past the end is that of the last.
abbrev pub delay_of : Option ℕ → ℕ
delay_of (some d) = d
delay_of none = 7200

unfoldable pub backoff : ℕ → ℕ
backoff index = delay_of (get_elem? retry_backoff_schedule index)

-- Whether the scan of ListPendingEventDeliveries selects the status.
abbrev pub is_open : Status → Bool
is_open pending = true
is_open failed = true
is_open delivered = false
is_open dead = false

abbrev pub has_come : ℕ → Option ℕ → Bool
has_come now none = true
has_come now (some at) = leb at now

abbrev pub is_due : ℕ → EventDelivery → Bool
is_due now d = is_open d.status && has_come now d.next_retry_at

abbrev pub written : Outcome → EventDelivery → EventDelivery
written o d = record d {
  status = o.status;
  response_code = o.response_code;
  response_body = o.response_body;
  attempt_count = o.attempt_count;
  next_retry_at = o.next_retry_at;
  delivered_at = o.delivered_at;
}

abbrev pub has_delivery_id : String → EventDelivery → Bool
has_delivery_id id d = str_eq d.id id

-- UpdateEventDelivery
unfoldable pub update_delivery : String → Outcome → World → Bool × World
unfolding update
update_delivery id o w = if w.fails w.turn then (false, next w) else (
  true,
  record (next w) { deliveries = update (has_delivery_id id) (written o) w.deliveries },
)

abbrev pub log_sending : String → ℕ → World → World
log_sending id attempt w = record (next w) {
  sends = record { id = id; attempt = attempt } ∷ w.sends;
}

-- markDeliveryDeadf
unfoldable pub mark_delivery_dead : EventDelivery → String → World → Bool × World
unfolding update_delivery
mark_delivery_dead d reason w =
    update_delivery d.id
      (record {
        status = dead;
        response_code = d.response_code;
        response_body = some reason;
        attempt_count = d.attempt_count;
        next_retry_at = none;
        delivered_at = none;
      })
      w

-- The outcome of a retry, by the error of its sending.
abbrev pub retried : EventDelivery → ℕ → ℕ → Option String → Outcome
retried d count now none = record {
  status = delivered;
  response_code = none;
  response_body = none;
  attempt_count = count;
  next_retry_at = none;
  delivered_at = some now;
}
retried d count now (some e) =
    if leb max_retry_attempts count
    then record {
      status = dead;
      response_code = d.response_code;
      response_body = some e;
      attempt_count = count;
      next_retry_at = none;
      delivered_at = none;
    }
    else record {
      status = failed;
      response_code = d.response_code;
      response_body = some e;
      attempt_count = count;
      next_retry_at = some (now + backoff count);
      delivered_at = none;
    }

unfoldable pub settle_retry : EventDelivery → Option String → World → Bool × World
unfolding update_delivery backoff
settle_retry d e w =
    update_delivery d.id (retried d (suc d.attempt_count) (w.clock w.turn) e) (next w)

-- postWebhook, by its error.
abbrev pub post_error : Posted → Option String
post_error unbuilt = some "retry: build request"
post_error no_answer = some "no answer"
post_error (status code) =
    if ltb code 200 || leb 300 code then some "retry: non-2xx status" else none

-- publishNATS
abbrev pub publish_nats : String → String → World → Option String
publish_nats subject payload w =
    if w.has_publisher
    then w.publish w.turn subject payload
    else some "engine: no NATS publisher configured"

unfoldable pub retry_rule : EventDelivery → Action → World → Bool × World
unfolding mark_delivery_dead settle_retry
retry_rule d (webhook none) w = mark_delivery_dead d "webhook config parse error" w
retry_rule d (webhook (some url)) w =
    if str_eq url ""
    then mark_delivery_dead d "webhook url empty" w
    else settle_retry d (post_error (w.post w.turn url d.payload))
        (log_sending d.id (suc d.attempt_count) w)
retry_rule d (nats_publish none) w = mark_delivery_dead d "nats config parse error" w
retry_rule d (nats_publish (some subject)) w =
    if str_eq subject ""
    then mark_delivery_dead d "nats subject empty" w
    else settle_retry d (publish_nats subject d.payload w)
        (log_sending d.id (suc d.attempt_count) w)
retry_rule d (unsupported kind) w = mark_delivery_dead d "unsupported action type" w

abbrev pub retry_found : EventDelivery → Option EventRule → World → Bool × World
retry_found d none w = (false, w)
retry_found d (some rule) w = retry_rule d rule.action w

unfoldable pub retry_delivery : EventDelivery → World → Bool × World
unfolding retry_rule
retry_delivery d w = retry_found d (w.find_rule w.turn d.event_rule_id) (next w)

-- The deliveries of one scan, one after the other; an error is logged.
unfoldable pub retry_all : List EventDelivery → World → World
unfolding retry_delivery
retry_all [] w = w
retry_all (d ∷ ds) w = retry_all ds (retry_delivery d w).1

unfoldable pub process_retries : World → World
unfolding retry_all select order_by
process_retries w =
    if w.fails w.turn
    then next w
    else retry_all
        (order_by (λ a b. ltb a.created_at b.created_at)
          (select (is_due (w.clock w.turn)) w.deliveries))
        (next w)
