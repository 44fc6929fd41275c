-- ===== src/Server/Agreement.antt =====
-- The console and the service together, on the service's ring, one exchange after the other: what
-- each shows of an alert. Exchanges that cross are in Server/Exchanges.antt.
use threat_lens.Base.{
  ◌≡◌, refl, Bool, Bool-cases, List, Option, [], ap, arith, false, inl, inr, map, none, some, take,
  true, ◌∙◌, ◌∷◌, sym,
}
use threat_lens.Base.Options.{none-ne-some}
use threat_lens.Types.{Alert, AlertStatus, get_alert_identity}
use threat_lens.Socket.{
  Hook, initial_hook, clear_all_alerts, has_identity, hydrate_alerts, json, max_alerts_buffer,
  on_message, push_alert, set_status, update_alert_status,
}
use threat_lens.Socket.Store.{find}
use threat_lens.Table.Menu.{Menu, status_answered, status_started}
use threat_lens.Server.{is_ok}
use threat_lens.Server.Agree.{
  Agree, Agree-cons, Agree-map, Agree-merged, Agree-recorded, Agree-refl, Agree-take, find-take,
  not_of_flow,
}
use threat_lens.Server.Archive.{
  Store, clear, connect_if_due, last_of_flow, get_historical_alerts, insert_alert, patch_status,
  status_response, update_alert_status as stored_status,
}
use threat_lens.Server.Pages.{body_of, served}

pub record World : Type 0 where
  pub store : Store
  pub hook : Hook
  pub menu : Menu

-- An exchange as a whole: an alert is recorded, and delivered or not; an administrator changes the status in a
-- row; the page hydrates; the database is cleared; the page is loaded again.
pub data Event : Type 0 where
  detected : (delivered : Bool) → Alert → Event
  status_chosen : Alert → AlertStatus → Event
  hydrated : (active : Bool) → Event
  cleared reloaded : Event

abbrev delivery : (delivered : Bool) → Alert → Hook → Hook
delivery true alert hook = on_message (json none alert) hook
delivery false alert hook = hook

abbrev hydration : Option (List Alert) → (active : Bool) → Hook → Hook
hydration none active hook = hydrate_alerts active false [] hook
hydration (some body) active hook = hydrate_alerts active true body hook

abbrev pub happen : Event → World → World
happen (detected delivered alert) w = record w {
  store = (insert_alert false true alert w.store).1;
  hook = delivery delivered alert w.hook;
}
happen (status_chosen alert status) w =
    let response = patch_status alert.flow_id status w.store in
    let after =
      status_answered (is_ok response.0) alert status
        (status_started true alert status w.menu, w.hook) in
    record { store = response.1; hook = after.1; menu = after.0 }
happen (hydrated active) w = record w {
  hook =
      hydration (body_of (get_historical_alerts false none 50 0 none none w.store)) active w.hook;
}
happen cleared w = record w { store = clear w.store; hook = clear_all_alerts w.hook }
happen reloaded w = record w { hook = initial_hook }

-- A new alert has an identity that nothing has had.
abbrev pub Enabled : Event → World → Type 0
Enabled (detected delivered alert) w =
    (has_identity (get_alert_identity alert) w.store.memory_ring ≡ false)
    × (has_identity (get_alert_identity alert) w.hook.alerts ≡ false)
Enabled _ w = Unit

-- The service runs on its ring, and a console has opened; then events, one after the other.
pub data Reach : World → Type 0 where
  opened :
      (store : Store) (menu : Menu)
      → store.is_connected ≡ false
      → Reach (record { store = store; hook = initial_hook; menu = menu })
  next : {w : World} → Reach w → (e : Event) → Enabled e w → Reach (happen e w)

-- The invariant: the service runs on its ring, and both sides agree.
pub record IsAgreed (w : World) : Type 0 where
  pub on_ring : w.store.is_connected ≡ false
  pub agreed : Agree w.hook.alerts w.store.memory_ring

pub not_due : (s : Store) → s.is_connected ≡ false → (connect_if_due false s).is_connected ≡ false
not_due s h = ground arith

pub ring_recorded :
    (alert : Alert) (s : Store)
    → s.is_connected ≡ false
    → ((insert_alert false true alert s).1.memory_ring
        ≡ take s.max_memory_buffer (alert ∷ s.memory_ring))
      × ((insert_alert false true alert s).1.is_connected ≡ false)
unfolding insert_alert
ring_recorded alert s h = elim (Bool-cases s.allow_reconnect) [
  | inl e ↦ rw (h, e) (refl, refl)
  | inr e ↦ rw (h, e) (refl, refl)
]

detected-IsAgreed :
    (delivered : Bool) (alert : Alert) (w : World)
    → Enabled (detected delivered alert) w
    → IsAgreed w
    → IsAgreed (happen (detected delivered alert) w)
unfolding on_message push_alert
detected-IsAgreed true alert w fresh h = record {
  on_ring = (ring_recorded alert w.store h.on_ring).1;
  agreed =
      rw ((ring_recorded alert w.store h.on_ring).0, fresh.1)
        (Agree-take max_alerts_buffer w.store.max_memory_buffer (alert ∷ w.hook.alerts)
          (alert ∷ w.store.memory_ring)
          (Agree-cons alert w.hook.alerts w.store.memory_ring h.agreed));
}
detected-IsAgreed false alert w fresh h = record {
  on_ring = (ring_recorded alert w.store h.on_ring).1;
  agreed = rw (ring_recorded alert w.store h.on_ring).0 (λ k a b p q.
      Agree-recorded alert w.hook.alerts w.store.memory_ring fresh.1 h.agreed k a b p
        (find-take k w.store.max_memory_buffer (alert ∷ w.store.memory_ring) b q));
}

status_outcome :
    (found : Option Alert) (alert : Alert) (st : AlertStatus) (m : Menu) (hook : Hook)
    (ring : List Alert)
    → last_of_flow alert.flow_id (map (set_status alert.flow_id st) ring) ≡ found
    → Agree hook.alerts ring
    → Agree
        (status_answered (is_ok (status_response found)) alert st (m, hook)).1.alerts
        (map (set_status alert.flow_id st) ring)
unfolding status_answered update_alert_status
status_outcome none alert st m hook ring e h =
    λ k a b p q. h k a b p (ap (find k) (sym (not_of_flow alert.flow_id st ring e)) ∙ q)
status_outcome (some found) alert st m hook ring e h = Agree-map alert.flow_id st hook.alerts ring h

status-Agree :
    (alert : Alert) (st : AlertStatus) (w : World)
    → Agree w.hook.alerts w.store.memory_ring
    → Agree
        (happen (status_chosen alert st) w).hook.alerts
        (happen (status_chosen alert st) w).store.memory_ring
unfolding patch_status stored_status
status-Agree alert st w h =
    status_outcome _ alert st (status_started true alert st w.menu) w.hook w.store.memory_ring refl
      h

hydrated-Agree :
    (active : Bool) (hook : Hook) (ring : List Alert)
    → Agree hook.alerts ring
    → Agree (hydrate_alerts active true (take 50 ring) hook).alerts ring
unfolding hydrate_alerts
hydrated-Agree true hook ring h =
    Agree-merged (take 50 ring) hook.alerts ring h
      (λ k a b p q. Agree-refl ring k a b (find-take k 50 ring a p) q)
hydrated-Agree false hook ring h = h

happen-IsAgreed : (e : Event) (w : World) → Enabled e w → IsAgreed w → IsAgreed (happen e w)
happen-IsAgreed (detected delivered alert) w fresh h = detected-IsAgreed delivered alert w fresh h
happen-IsAgreed (status_chosen alert status) w fresh h = record {
  on_ring = unfold patch_status stored_status in h.on_ring;
  agreed = status-Agree alert status w h.agreed;
}
happen-IsAgreed (hydrated active) w fresh h = record {
  on_ring = h.on_ring;
  agreed =
      rw (served false none 50 0 w.store (not_due w.store h.on_ring) (omega arith) (omega arith))
        (hydrated-Agree active w.hook w.store.memory_ring h.agreed);
}
happen-IsAgreed cleared w fresh h = record {
  on_ring = unfold clear in h.on_ring;
  agreed = λ k a b p q. absurd (none-ne-some {a = a} (unfold clear_all_alerts in p));
}
happen-IsAgreed reloaded w fresh h = record {
  on_ring = h.on_ring;
  agreed = λ k a b p q. absurd (none-ne-some p);
}

-- As long as one exchange is over before the next begins - an alert is recorded and delivered or lost,
-- a change of status is taken and its answer read, a request to hydrate is sent and its answer merged -
-- an alert that the console shows and the service has in its ring has one and the same record on both
-- sides, its status included. Every new alert has an identity of its own, the service runs without
-- ClickHouse, and the status is changed in this console only.
pub Reach-IsAgreed : {w : World} → Reach w → IsAgreed w
Reach-IsAgreed (opened store menu h) = record {
  on_ring = h;
  agreed = λ k a b p q. absurd (none-ne-some p);
}
Reach-IsAgreed (next {w = w} r e enabled) = happen-IsAgreed e w enabled (Reach-IsAgreed r)
