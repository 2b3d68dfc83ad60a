-- ===== src/Delivery/Attempts.antt =====
-- The attempts of the engine over a history of events and retries.
use fileagent.Prelude.{
  ℕ, String, ◌||◌, Option, none, some, List, [], ◌∷◌, arith, leb, ltb, str_eq, Bool-cases, inl, inr,
}
use fileagent.Delivery.Types.{
  Status, pending, delivered, Action, webhook, nats_publish, unsupported, EventRule, Posted,
  unbuilt, no_answer, status, World, next,
}
use fileagent.Delivery.Engine.{log_sending, publish_nats, process_retries}
use fileagent.Delivery.Dispatch.{
  create_delivery, update_status, code_of, after_post, dispatch_webhook_created, published,
  dispatch_nats_created, dispatch_to, dispatch, dispatch_all, handle_event, Operation, comes,
  retries, perform_history,
}
use fileagent.Delivery.Rows.{All-append}
use fileagent.Delivery.Bounded.{
  HasBudget, IsBounded, Bounded, next-Bounded, update_delivery-Bounded, log_sending-Bounded,
  process_retries-Bounded,
}

create_delivery-Bounded :
    (rule_id event_type payload : String) (w : World)
    → Bounded w
    → Bounded (create_delivery rule_id event_type payload w).1
unfolding create_delivery
create_delivery-Bounded rule_id event_type payload w k = elim (Bool-cases (w.fails w.turn)) [
  | inl e ↦ rw e (next-Bounded w k)
  | inr e ↦ rw e (record {
    rows = All-append IsBounded w.deliveries _ k.rows (λ h. omega arith);
    sendings = k.sendings;
  })
]

update_status-Bounded :
    (id : String) (s : Status) (code next_retry : Option ℕ) (w : World)
    → Bounded w
    → Bounded (update_status id s code next_retry w).1
unfolding update_status
update_status-Bounded id s code next_retry w k =
    update_delivery-Bounded id _ (next w) (λ h. omega arith) (next-Bounded w k)

after_post-Bounded :
    (id : String) (p : Posted) (w : World) → Bounded w → Bounded (after_post id p w).1
after_post-Bounded id unbuilt w k = k
after_post-Bounded id no_answer w k =
    update_status-Bounded id pending none _ (next w) (next-Bounded w k)
after_post-Bounded id (status code) w k = elim (Bool-cases (ltb code 200 || leb 300 code)) [
  | inl e ↦ rw e (update_status-Bounded id pending (code_of code) _ (next w) (next-Bounded w k))
  | inr e ↦ rw e (update_status-Bounded id delivered (some code) none w k)
]

webhook_created-Bounded :
    (o : Option String) (url payload : String) (w : World)
    → Bounded w
    → Bounded (dispatch_webhook_created o url payload w).1
webhook_created-Bounded none url payload w k = k
webhook_created-Bounded (some id) url payload w k =
    after_post-Bounded id (w.post w.turn url payload) (log_sending id 0 w)
      (log_sending-Bounded id 0 w (omega arith) k)

published-HasBudget :
    (e : Option String) (now : ℕ)
    → HasBudget (published e now).status (published e now).attempt_count
published-HasBudget none now h = absurd (cc)
published-HasBudget (some e) now h = omega arith

nats_created-Bounded :
    (o : Option String) (subject payload : String) (w : World)
    → Bounded w
    → Bounded (dispatch_nats_created o subject payload w).1
nats_created-Bounded none subject payload w k = k
nats_created-Bounded (some id) subject payload w k =
    let w' = log_sending id 0 w in
    update_delivery-Bounded id (published (publish_nats subject payload w) (w'.clock w'.turn))
      (next w') (published-HasBudget (publish_nats subject payload w) (w'.clock w'.turn))
      (next-Bounded w' (log_sending-Bounded id 0 w (omega arith) k))

dispatch-Bounded :
    (r : EventRule) (event_type payload : String) (w : World)
    → Bounded w
    → Bounded (dispatch r event_type payload w).1
unfolding dispatch
dispatch-Bounded r event_type payload w k = by_action r.action
  where
    created : Bounded (create_delivery r.id event_type payload w).1
    created = create_delivery-Bounded r.id event_type payload w k

    by_action : (a : Action) → Bounded (dispatch_to r a event_type payload w).1
    by_action (webhook none) = k
    by_action (webhook (some url)) = elim (Bool-cases (str_eq url "")) [
      | inl e ↦ rw e k
      | inr e ↦ rw e (
          webhook_created-Bounded (create_delivery r.id event_type payload w).0 url payload _
            created)
    ]
    by_action (nats_publish none) = k
    by_action (nats_publish (some subject)) = elim (Bool-cases (str_eq subject "")) [
      | inl e ↦ rw e k
      | inr e ↦ rw e (
          nats_created-Bounded (create_delivery r.id event_type payload w).0 subject payload _
            created)
    ]
    by_action (unsupported kind) = k

dispatch_all-Bounded :
    (rs : List EventRule) (event_type payload : String) (w : World)
    → Bounded w
    → Bounded (dispatch_all rs event_type payload w)
unfolding dispatch_all
dispatch_all-Bounded [] event_type payload w k = k
dispatch_all-Bounded (r ∷ rs) event_type payload w k =
    dispatch_all-Bounded rs event_type payload (dispatch r event_type payload w).1
      (dispatch-Bounded r event_type payload w k)

handle_event-Bounded :
    (event_type payload : String) (w : World)
    → Bounded w
    → Bounded (handle_event event_type payload w).1
unfolding handle_event
handle_event-Bounded event_type payload w k = elim (Bool-cases (w.fails w.turn)) [
  | inl e ↦ rw e (next-Bounded w k)
  | inr e ↦ rw e (
      dispatch_all-Bounded (w.rules w.turn event_type) event_type payload (next w)
        (next-Bounded w k))
]

-- After every history of events and rounds of retries, whatever fails in it, where it was so before:
-- the attempt count of every delivery that a scan may select is below five, and no sending carries an
-- attempt number above five, the number being 0 for the first sending and otherwise one more than the
-- count that the delivery had when the scan read it. An attempt whose record fails is sent again under
-- its number, so that this does not bound how many sendings there are.
pub perform_history-Bounded :
    (l : List Operation) (w : World) → Bounded w → Bounded (perform_history l w)
unfolding perform_history
perform_history-Bounded [] w k = k
perform_history-Bounded (comes event_type payload ∷ l) w k =
    perform_history-Bounded l (handle_event event_type payload w).1
      (handle_event-Bounded event_type payload w k)
perform_history-Bounded (retries ∷ l) w k =
    perform_history-Bounded l (process_retries w) (process_retries-Bounded w k)
