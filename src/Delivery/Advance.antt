-- ===== src/Delivery/Advance.antt =====
-- One retry: what it leaves of the delivery where the database does not fail.
use fileagent.Prelude.{
  All, ℕ, suc, String, ◌≡◌, refl, Bool, true, false, Option, none, some, List, [], ◌∷◌, leb, str_eq,
  if◌then◌else◌, ◌⊎◌, Bool-cases, inl, inr,
}
use fileagent.Queue.Sql.{update}
use fileagent.Delivery.Types.{
  failed, EventDelivery, Outcome, Action, webhook, nats_publish, unsupported, EventRule, World,
  next,
}
use fileagent.Delivery.Engine.{
  is_open, written, has_delivery_id, update_delivery, log_sending, mark_delivery_dead, retried,
  settle_retry, post_error, publish_nats, retry_rule, retry_delivery, max_retry_attempts,
}

All-updated :
    {A : Type 0} (p : A → Bool) (f : A → A) (R : A → Type 0) (l : List A)
    → ((x : A) → R (f x))
    → All (λ x. p x ≡ true → R x) (update p f l)
unfolding update
All-updated p f R [] g = tt
All-updated p f R (x ∷ l) g = elim (Bool-cases (p x)) [
  | inl e ↦ rw e ((λ h. g x), All-updated p f R l g)
  | inr e ↦ rw e ((λ h. absurd (cc)), All-updated p f R l g)
]

-- The delivery is closed, or it has one attempt more and waits for its delay.
abbrev pub Moves : EventDelivery → EventDelivery → Type 0
Moves d x =
    (is_open x.status ≡ false) ⊎ ((x.status ≡ failed) × (x.attempt_count ≡ suc d.attempt_count))

-- So is every row with its id.
abbrev pub Advanced : EventDelivery → List EventDelivery → Type 0
Advanced d = All (λ x. has_delivery_id d.id x ≡ true → Moves d x)

update_delivery-Advanced :
    (d : EventDelivery) (o : Outcome) (w : World)
    → w.fails w.turn ≡ false
    → ((x : EventDelivery) → Moves d (written o x))
    → Advanced d (update_delivery d.id o w).1.deliveries
unfolding update_delivery
update_delivery-Advanced d o w sound m =
    rw sound (All-updated (has_delivery_id d.id) (written o) (Moves d) w.deliveries m)

dead-Advanced :
    (d : EventDelivery) (reason : String) (w : World)
    → w.fails w.turn ≡ false
    → Advanced d (mark_delivery_dead d reason w).1.deliveries
unfolding mark_delivery_dead
dead-Advanced d reason w sound = update_delivery-Advanced d _ w sound (λ x. inl refl)

retried-Moves :
    (d : EventDelivery) (now : ℕ) (e : Option String) (x : EventDelivery)
    → Moves d (written (retried d (suc d.attempt_count) now e) x)
retried-Moves d now none x = inl refl
retried-Moves d now (some e) x = elim (Bool-cases (leb max_retry_attempts (suc d.attempt_count))) [
  | inl full ↦ rw full (inl refl)
  | inr left ↦ rw left (inr (refl, refl))
]

sent-Advanced :
    (d : EventDelivery) (e : Option String) (target reason : String) (w : World)
    → ((n : ℕ) → w.fails n ≡ false)
    → Advanced d
        (if str_eq target ""
          then mark_delivery_dead d reason w
          else settle_retry d e (log_sending d.id (suc d.attempt_count) w)).1.deliveries
unfolding settle_retry
sent-Advanced d e target reason w sound = elim (Bool-cases (str_eq target "")) [
  | inl q ↦ rw q (dead-Advanced d reason w (sound w.turn))
  | inr q ↦
      let w' = log_sending d.id (suc d.attempt_count) w in
      rw q (
        update_delivery-Advanced d (retried d (suc d.attempt_count) (w'.clock w'.turn) e) (next w')
          (sound (suc (suc w.turn))) (retried-Moves d (w'.clock w'.turn) e))
]

rule-Advanced :
    (d : EventDelivery) (a : Action) (w : World)
    → ((n : ℕ) → w.fails n ≡ false)
    → Advanced d (retry_rule d a w).1.deliveries
unfolding retry_rule
rule-Advanced d (webhook none) w sound = dead-Advanced d _ w (sound w.turn)
rule-Advanced d (webhook (some url)) w sound =
    sent-Advanced d (post_error (w.post w.turn url d.payload)) url "webhook url empty" w sound
rule-Advanced d (nats_publish none) w sound = dead-Advanced d _ w (sound w.turn)
rule-Advanced d (nats_publish (some subject)) w sound =
    sent-Advanced d (publish_nats subject d.payload w) subject "nats subject empty" w sound
rule-Advanced d (unsupported kind) w sound = dead-Advanced d _ w (sound w.turn)

-- Where the rule of a delivery is found and the database does not fail, a retry leaves every row with
-- the id of the delivery delivered or dead, or failed with one attempt more than the delivery had.
pub retry_delivery-Advanced :
    (d : EventDelivery) (rule : EventRule) (w : World)
    → w.find_rule w.turn d.event_rule_id ≡ some rule
    → ((n : ℕ) → w.fails n ≡ false)
    → Advanced d (retry_delivery d w).1.deliveries
unfolding retry_delivery
retry_delivery-Advanced d rule w found sound = rw found (rule-Advanced d rule.action (next w) sound)
