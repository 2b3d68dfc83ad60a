-- ===== src/Filer/Heartbeat.antt =====
-- IsIdleHeartbeat of translate.go against Translate.
use fileagent.Prelude.{◌≡◌, refl, false, Option, none, some, List, [], ◌∷◌, arith}
use fileagent.Prelude.Int.{ℤ, pos, leb_ℤ}
use fileagent.Filer.Translate.{
  EventNotification, Event, Response, append_one, append_all, translate, heartbeat_of,
  is_idle_heartbeat,
}

idle_changes :
    (resp : Event) (o : Option EventNotification) (l : List Event) (whole : Response) {ts : ℤ}
    → resp.notification ≡ o
    → heartbeat_of whole o l ≡ some ts
    → append_all (append_one [] resp) l ≡ []
unfolding append_all append_one
idle_changes resp none [] whole e h = rw e
idle_changes resp none (m ∷ ms) whole e h = absurd (cc)
idle_changes resp (some n) l whole e h = absurd (cc)

heartbeat_ts :
    (o : Option EventNotification) (l : List Event) (whole : Response) {ts : ℤ}
    → heartbeat_of whole o l ≡ some ts
    → (ts ≡ whole.envelope.ts_ns) × (leb_ℤ ts (pos 0) ≡ false)
heartbeat_ts none [] whole h = ground arith
heartbeat_ts none (m ∷ ms) whole h = absurd (cc)
heartbeat_ts (some n) l whole h = absurd (cc)

-- A response that counts as an idle heartbeat translates to no change, and the time it gives is that
-- of the envelope and is after 0: a cursor that moves to it passes over no change of the response.
pub is_idle_heartbeat-translate :
    (resp : Response) {ts : ℤ}
    → is_idle_heartbeat (some resp) ≡ some ts
    → (translate (some resp) ≡ []) × (ts ≡ resp.envelope.ts_ns) × (leb_ℤ ts (pos 0) ≡ false)
unfolding is_idle_heartbeat translate
is_idle_heartbeat-translate resp h =
    let (same, later) = heartbeat_ts resp.envelope.notification resp.events resp h in
    (idle_changes resp.envelope resp.envelope.notification resp.events resp refl h, same, later)
