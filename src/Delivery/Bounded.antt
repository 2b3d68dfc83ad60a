-- ===== src/Delivery/Bounded.antt =====
-- The attempt counts of the deliveries, and the attempt numbers of the sendings.
use fileagent.Prelude.{
  All, ℕ, suc, ◌≤◌, ◌<◌, String, ◌≡◌, Bool, true, Option, none, some, List, [], ◌∷◌, arith, leb,
  ltb, str_eq, if◌then◌else◌, Bool-cases, inl, inr,
}
use fileagent.Queue.Sql.{select, order_by}
use fileagent.Delivery.Types.{
  Status, EventDelivery, Outcome, Action, webhook, nats_publish, unsupported, EventRule, World,
  next,
}
use fileagent.Delivery.Engine.{
  is_open, is_due, written, has_delivery_id, update_delivery, log_sending, mark_delivery_dead,
  retried, settle_retry, post_error, publish_nats, retry_rule, retry_found, retry_delivery,
  retry_all, process_retries, max_retry_attempts,
}
use fileagent.Delivery.Rows.{All-select, All-chosen, All-order_by, All-update, All-both}

-- The attempt count of a delivery that the scan may select is below five.
abbrev pub HasBudget : Status → ℕ → Type 0
HasBudget s n = is_open s ≡ true → n < max_retry_attempts

abbrev pub IsBounded : EventDelivery → Type 0
IsBounded d = HasBudget d.status d.attempt_count

-- Every open delivery has budget, and no sending has an attempt number above five.
pub record Bounded (w : World) : Type 0 where
  pub rows : All IsBounded w.deliveries
  pub sendings : All (λ s. s.attempt ≤ max_retry_attempts) w.sends

pub next-Bounded : (w : World) → Bounded w → Bounded (next w)
next-Bounded w k = record { rows = k.rows; sendings = k.sendings }

pub update_delivery-Bounded :
    (id : String) (o : Outcome) (w : World)
    → HasBudget o.status o.attempt_count
    → Bounded w
    → Bounded (update_delivery id o w).1
unfolding update_delivery
update_delivery-Bounded id o w b k = elim (Bool-cases (w.fails w.turn)) [
  | inl e ↦ rw e (record { rows = k.rows; sendings = k.sendings })
  | inr e ↦ rw e (record {
    rows = All-update IsBounded (has_delivery_id id) (written o) w.deliveries (λ d. b) k.rows;
    sendings = k.sendings;
  })
]

pub log_sending-Bounded :
    (id : String) (n : ℕ) (w : World)
    → n ≤ max_retry_attempts
    → Bounded w
    → Bounded (log_sending id n w)
log_sending-Bounded id n w le k = record { rows = k.rows; sendings = (le, k.sendings) }

mark_delivery_dead-Bounded :
    (d : EventDelivery) (reason : String) (w : World)
    → Bounded w
    → Bounded (mark_delivery_dead d reason w).1
unfolding mark_delivery_dead
mark_delivery_dead-Bounded d reason w k = update_delivery-Bounded d.id _ w (λ h. absurd (cc)) k

pub retried-HasBudget :
    (d : EventDelivery) (count now : ℕ) (e : Option String)
    → HasBudget (retried d count now e).status (retried d count now e).attempt_count
retried-HasBudget d count now none h = absurd (cc)
retried-HasBudget d count now (some e) h = elim (Bool-cases (leb max_retry_attempts count)) [
  | inl full ↦ absurd (ground arith)
  | inr left ↦ rw left (ground arith)
]

settle_retry-Bounded :
    (d : EventDelivery) (e : Option String) (w : World) → Bounded w → Bounded (settle_retry d e w).1
unfolding settle_retry
settle_retry-Bounded d e w k =
    update_delivery-Bounded d.id (retried d (suc d.attempt_count) (w.clock w.turn) e) (next w)
      (retried-HasBudget d (suc d.attempt_count) (w.clock w.turn) e) (next-Bounded w k)

sent_again-Bounded :
    (d : EventDelivery) (e : Option String) (target reason : String) (w : World)
    → d.attempt_count < max_retry_attempts
    → Bounded w
    → Bounded
        (if str_eq target ""
          then mark_delivery_dead d reason w
          else settle_retry d e (log_sending d.id (suc d.attempt_count) w)).1
sent_again-Bounded d e target reason w lt k = elim (Bool-cases (str_eq target "")) [
  | inl q ↦ rw q (mark_delivery_dead-Bounded d reason w k)
  | inr q ↦ rw q (
      settle_retry-Bounded d e (log_sending d.id (suc d.attempt_count) w)
        (log_sending-Bounded d.id (suc d.attempt_count) w (omega arith) k))
]

retry_rule-Bounded :
    (d : EventDelivery) (a : Action) (w : World)
    → d.attempt_count < max_retry_attempts
    → Bounded w
    → Bounded (retry_rule d a w).1
unfolding retry_rule
retry_rule-Bounded d (webhook none) w lt k = mark_delivery_dead-Bounded d _ w k
retry_rule-Bounded d (webhook (some url)) w lt k =
    sent_again-Bounded d (post_error (w.post w.turn url d.payload)) url "webhook url empty" w lt k
retry_rule-Bounded d (nats_publish none) w lt k = mark_delivery_dead-Bounded d _ w k
retry_rule-Bounded d (nats_publish (some subject)) w lt k =
    sent_again-Bounded d (publish_nats subject d.payload w) subject "nats subject empty" w lt k
retry_rule-Bounded d (unsupported kind) w lt k = mark_delivery_dead-Bounded d _ w k

retry_found-Bounded :
    (d : EventDelivery) (o : Option EventRule) (w : World)
    → d.attempt_count < max_retry_attempts
    → Bounded w
    → Bounded (retry_found d o w).1
retry_found-Bounded d none w lt k = k
retry_found-Bounded d (some rule) w lt k = retry_rule-Bounded d rule.action w lt k

retry_all-Bounded :
    (ds : List EventDelivery) (w : World)
    → All (λ d. d.attempt_count < max_retry_attempts) ds
    → Bounded w
    → Bounded (retry_all ds w)
unfolding retry_all retry_delivery
retry_all-Bounded [] w h k = k
retry_all-Bounded (d ∷ ds) w h k =
    retry_all-Bounded ds (retry_delivery d w).1 h.1
      (retry_found-Bounded d (w.find_rule w.turn d.event_rule_id) (next w) h.0 (next-Bounded w k))

due_open : (now : ℕ) (d : EventDelivery) → is_due now d ≡ true → is_open d.status ≡ true
due_open now d h = ground arith

pub process_retries-Bounded : (w : World) → Bounded w → Bounded (process_retries w)
unfolding process_retries
process_retries-Bounded w k = elim (Bool-cases (w.fails w.turn)) [
  | inl e ↦ rw e (next-Bounded w k)
  | inr e ↦
      let due = select (is_due (w.clock w.turn)) w.deliveries in
      let before : EventDelivery → EventDelivery → Bool = λ a b. ltb a.created_at b.created_at in
      rw e (
        retry_all-Bounded (order_by before due) (next w)
          (All-order_by (λ d. d.attempt_count < max_retry_attempts) before due
            (All-both IsBounded (λ d. is_due (w.clock w.turn) d ≡ true)
              (λ d. d.attempt_count < max_retry_attempts) due
              (λ d b h. b (due_open (w.clock w.turn) d h))
              (All-select IsBounded (is_due (w.clock w.turn)) w.deliveries k.rows)
              (All-chosen (is_due (w.clock w.turn)) w.deliveries)))
          (next-Bounded w k))
]
