-- ===== src/Socket/Backoff.antt =====
-- The delays of reconnection, and the buffer along a run of the hook.
use threat_lens.Base.{
  All, Bool, Bool-cases, List, [], arith, inl, inr, ℕ, ◌==◌, ◌∷◌, ◌≤◌, Option-cases, none, some,
}
use threat_lens.Socket.{
  Hook, cleanup, clear_alerts, clear_all_alerts, connect, hydrate_alerts, hydrate_metrics,
  initial_backoff_ms, max_backoff_ms, on_close, on_error, on_message, on_open, update_alert_status,
  without_timer, Packet, json, malformed, ws_closed,
}
use threat_lens.Socket.Buffer.{
  IsBuffer, merge_fetched-IsBuffer, push_alert-IsBuffer, update-IsBuffer,
}
use threat_lens.Socket.Steps.{
  World, Enabled, Event, closed, fetched, fired, measured, mount, opened, received, step, unmount,
  Reach, Reach_ind, all_cleared, cleared, status_set, with_ready,
}

-- The delays asked of the browser, and the next one to ask for.
pub record IsPaced (s : Hook) : Type 0 where
  pub at_least : initial_backoff_ms ≤ s.backoff
  pub delays : All (λ t. (initial_backoff_ms ≤ t.1) × (t.1 ≤ max_backoff_ms)) s.timers

paced_without :
    (i : ℕ) (ts : List (ℕ × ℕ))
    → All (λ t. (initial_backoff_ms ≤ t.1) × (t.1 ≤ max_backoff_ms)) ts
    → All (λ t. (initial_backoff_ms ≤ t.1) × (t.1 ≤ max_backoff_ms)) (without_timer i ts)
paced_without i [] h = tt
paced_without i (t ∷ ts) h = elim (Bool-cases (t.0 == i)) [
  | inl e ↦ rw e (paced_without i ts h.1)
  | inr e ↦ rw e (h.0, paced_without i ts h.1)
]

connect-IsPaced : (created : Bool) (s : Hook) → IsPaced s → IsPaced (connect created s)
unfolding connect
connect-IsPaced created s h = ground arith

cleanup-IsPaced : (s : Hook) → IsPaced s → IsPaced (cleanup s)
unfolding cleanup
cleanup-IsPaced s h = elim (Option-cases s.reconnect_timeout) [
  | inl e ↦ ground arith
  | inr (i, e) ↦ ground (arith, paced_without i s.timers h.delays)
]

on_close-IsPaced : (ws : ℕ) (s : Hook) → IsPaced s → IsPaced (on_close ws s)
unfolding on_close
on_close-IsPaced ws s h = ground arith

on_message-IsPaced : (packet : Packet) (s : Hook) → IsPaced s → IsPaced (on_message packet s)
unfolding on_message
on_message-IsPaced malformed s h = h
on_message-IsPaced (json t body) s h = ground arith

step-IsPaced : (w : World) (e : Event) → IsPaced w.hook → Enabled e w → IsPaced (step e w).hook
unfolding step on_open on_error hydrate_alerts hydrate_metrics clear_alerts clear_all_alerts
    update_alert_status
step-IsPaced w (mount created) h en = connect-IsPaced created w.hook h
step-IsPaced w unmount h en = cleanup-IsPaced w.hook h
step-IsPaced w (opened ws) h en = record { at_least = omega arith; delays = h.delays }
step-IsPaced w (closed ws) h en =
    on_close-IsPaced ws (with_ready ws ws_closed w.hook)
      (record { at_least = h.at_least; delays = h.delays })
step-IsPaced w (received ws packet) h en = on_message-IsPaced packet w.hook h
step-IsPaced w (fired i created) h en =
    connect-IsPaced created (record (w.hook) { timers = without_timer i w.hook.timers })
      (record { at_least = h.at_least; delays = paced_without i w.hook.timers h.delays })
step-IsPaced w (fetched active ok body) h en = ground arith
step-IsPaced w (measured active ok none) h en = h
step-IsPaced w (measured active ok (some total)) h en = ground arith
step-IsPaced w e h en = record { at_least = h.at_least; delays = h.delays }

-- Every reconnect that is pending was asked for with a delay from 1 to 15 seconds, however often
-- the connection failed before.
pub Reach-IsPaced : {w : World} → Reach w → IsPaced w.hook
Reach-IsPaced r =
    Reach_ind (λ w. IsPaced w.hook) (record { at_least = omega arith; delays = tt }) step-IsPaced r

step-IsBuffer :
    (w : World) (e : Event) → IsBuffer w.hook.alerts → Enabled e w → IsBuffer (step e w).hook.alerts
unfolding step on_open on_error hydrate_alerts hydrate_metrics clear_alerts clear_all_alerts
    update_alert_status
step-IsBuffer w (mount created) h en = unfold connect in ground arith
step-IsBuffer w unmount h en = unfold cleanup in ground arith
step-IsBuffer w (opened ws) h en = h
step-IsBuffer w (closed ws) h en = unfold on_close in ground arith
step-IsBuffer w (received ws malformed) h en = unfold on_message in h
step-IsBuffer w (received ws (json t body)) h en =
    unfold on_message in ground (arith, push_alert-IsBuffer body w.hook.alerts)
step-IsBuffer w (fired i created) h en = unfold connect in ground arith
step-IsBuffer w (fetched active ok body) h en =
    ground (arith, merge_fetched-IsBuffer body w.hook.alerts)
step-IsBuffer w (measured active ok none) h en = h
step-IsBuffer w (measured active ok (some total)) h en = ground arith
step-IsBuffer w (status_set flow status) h en = update-IsBuffer flow status w.hook.alerts h
step-IsBuffer w cleared h en = record { bounded = omega arith; distinct = tt }
step-IsBuffer w all_cleared h en = record { bounded = omega arith; distinct = tt }
step-IsBuffer w e h en = h

-- In every reachable world the buffer holds at most 200 alerts, and no identity twice, provided
-- that each answer to the hydration request is such a list.
pub Reach-IsBuffer : {w : World} → Reach w → IsBuffer w.hook.alerts
Reach-IsBuffer r =
    Reach_ind (λ w. IsBuffer w.hook.alerts) (record { bounded = omega arith; distinct = tt })
      step-IsBuffer r
