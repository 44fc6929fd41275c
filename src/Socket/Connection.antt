-- ===== src/Socket/Connection.antt =====
-- The connection of useThreatSocket: one live socket at most, none and no timeout after cleanup,
-- and a reconnection always under way while mounted.
use threat_lens.Base.{
  ◌≡◌, refl, Bool, List, Option, [], arith, false, none, some, true, ℕ, ◌∷◌, ◌≢◌, ◌≤◌, Bool-cases,
  inl, inr,
}
use threat_lens.Types.{Alert}
use threat_lens.Socket.{
  Hook, ReadyState, connected, is_live, on_close, on_error, on_open, ws_closed, ws_closing, ws_open,
  cleanup, connect, Packet, clear_alerts, clear_all_alerts, hydrate_alerts, hydrate_metrics,
  is_control, json, malformed, on_message, update_alert_status,
}
use threat_lens.Socket.Steps.{
  World, Enabled, closed, closing_begun, errored, initial_world, opened, step, fired, mount,
  unmount, Event, Reach, Reach_ind, all_cleared, cleared, fetched, measured, received, status_set,
  with_hook,
}

abbrev pub is_busy : Hook → Bool
is_busy s = elim s.socket [ some _ ↦ true | none ↦ elim s.timers [ [] ↦ false | _ ∷ _ ↦ true ] ]

-- The pending timeouts are none, or the one that `reconnectTimeoutRef` names.
abbrev pub IsTimed : Option ℕ → Option ℕ → List (ℕ × ℕ) → Type 0
IsTimed socket timeout [] = Unit {0}
IsTimed socket timeout (t ∷ []) = (socket ≡ none) × (timeout ≡ some t.0)
IsTimed socket timeout (t ∷ u ∷ ts) = ⊥

abbrev pub is_up : Option ℕ → (ℕ → ReadyState) → Bool
is_up none ready = false
is_up (some ws) ready = elim (ready ws) [ ws_open ↦ true | ws_closing ↦ true | _ ↦ false ]

pub record IsConnected (w : World) : Type 0 where
  pub live : (i : ℕ) → is_live (w.hook.ready i) ≡ true → w.hook.socket ≡ some i
  pub held : (i : ℕ) → w.hook.socket ≡ some i → w.hook.ready i ≢ ws_closed
  pub unused : (i : ℕ) → w.hook.next_id ≤ i → w.hook.ready i ≡ ws_closed
  pub timed : IsTimed w.hook.socket w.hook.reconnect_timeout w.hook.timers
  pub quiet : w.mounted ≡ false → is_busy w.hook ≡ false
  pub arming : w.mounted ≡ true → w.hook.closing ≡ false
  pub shown : w.mounted ≡ true → w.hook.status ≡ connected → is_up w.hook.socket w.hook.ready ≡ true
  pub progress : w.mounted ≡ true → w.threw ≡ false → is_busy w.hook ≡ true

initial_world-IsConnected : IsConnected initial_world
initial_world-IsConnected = record {
  live = λ i h. cc;
  held = λ i h. cc;
  unused = λ i h. refl;
  timed = tt;
  quiet = λ h. refl;
  arming = λ h. cc;
  shown = λ h k. cc;
  progress = λ h k. cc;
}

opened-IsConnected :
    (w : World) (ws : ℕ) → IsConnected w → Enabled (opened ws) w → IsConnected (step (opened ws) w)
unfolding step on_open
opened-IsConnected w ws h en = record {
  live = λ i p. ground (arith, h.live i, h.live ws);
  held = λ i p. ground (arith, h.held i);
  unused = λ i p. ground (arith, h.unused i);
  timed = h.timed;
  quiet = h.quiet;
  arming = h.arming;
  shown = λ p q. ground (arith, h.live ws);
  progress = h.progress;
}

closing_begun-IsConnected :
    (w : World) (ws : ℕ)
    → IsConnected w
    → Enabled (closing_begun ws) w
    → IsConnected (step (closing_begun ws) w)
unfolding step
closing_begun-IsConnected w ws h en = record {
  live = λ i p. ground (arith, h.live i);
  held = λ i p. ground (arith, h.held i);
  unused = λ i p. ground (arith, h.unused i);
  timed = h.timed;
  quiet = h.quiet;
  arming = h.arming;
  shown = λ p q. ground (arith, h.live ws, h.shown p q);
  progress = h.progress;
}

errored-IsConnected :
    (w : World) (ws : ℕ)
    → IsConnected w
    → Enabled (errored ws) w
    → IsConnected (step (errored ws) w)
unfolding step on_error
errored-IsConnected w ws h en = record {
  live = λ i p. ground (arith, h.live i);
  held = λ i p. ground (arith, h.held i);
  unused = λ i p. ground (arith, h.unused i);
  timed = h.timed;
  quiet = h.quiet;
  arming = h.arming;
  shown = λ p q. ground (arith, h.live ws, h.shown p q);
  progress = h.progress;
}

closed-IsConnected :
    (w : World) (ws : ℕ) → IsConnected w → Enabled (closed ws) w → IsConnected (step (closed ws) w)
unfolding step on_close
closed-IsConnected w ws h en = record {
  live = λ i p. ground (arith, h.live i, h.live ws);
  held = λ i p. ground (arith, h.held i);
  unused = λ i p. ground (arith, h.unused i);
  timed = ground (arith, h.timed);
  quiet = λ p. ground (arith, h.quiet p);
  arming = λ p. ground (arith, h.arming p);
  shown = λ p q. ground (arith, h.shown p);
  progress = λ p q. ground (arith, h.progress p q, h.arming p);
}

mount-IsConnected :
    (w : World) (created : Bool)
    → IsConnected w
    → Enabled (mount created) w
    → IsConnected (step (mount created) w)
unfolding step connect
mount-IsConnected w created h en = record {
  live = λ i p. ground (arith, h.live i, h.quiet en);
  held = λ i p. ground (arith, h.held i, h.quiet en);
  unused = λ i p. ground (arith, h.unused i, h.quiet en);
  timed = ground (arith, h.timed, h.quiet en);
  quiet = λ p. cc;
  arming = λ p. ground (arith, h.quiet en);
  shown = λ p q. ground (arith, h.quiet en);
  progress = λ p q. ground (arith, h.quiet en);
}

unmount-IsConnected : (w : World) → IsConnected w → Enabled unmount w → IsConnected (step unmount w)
unfolding step cleanup
unmount-IsConnected w h en = record {
  live = λ i p. ground (arith, h.live i);
  held = λ i p. ground (arith, h.held i);
  unused = λ i p. ground (arith, h.unused i);
  timed = ground (arith, h.timed);
  quiet = λ p. ground (arith, h.timed);
  arming = λ p. cc;
  shown = λ p q. cc;
  progress = λ p q. cc;
}

fired-IsConnected :
    (w : World) (i : ℕ) (created : Bool)
    → IsConnected w
    → Enabled (fired i created) w
    → IsConnected (step (fired i created) w)
unfolding step connect
fired-IsConnected w i created h en = record {
  live = λ j p. ground (arith, h.live j, h.timed);
  held = λ j p. ground (arith, h.held j, h.timed);
  unused = λ j p. ground (arith, h.unused j);
  timed = ground (arith, h.timed);
  quiet = λ p. ground (arith, h.quiet p, h.timed);
  arming = λ p. ground (arith, h.arming p);
  shown = λ p q. ground (arith, h.shown p, h.timed);
  progress = λ p q. ground (arith, h.progress p, h.timed);
}

-- The invariant does not read the alerts and the counters.
carry :
    (w : World) (alerts : List Alert) (n m : ℕ)
    → IsConnected w
    → IsConnected
        (with_hook w (record (w.hook) { alerts = alerts; session_received = n; archive_total = m }))
carry w alerts n m h = record {
  live = h.live;
  held = h.held;
  unused = h.unused;
  timed = h.timed;
  quiet = h.quiet;
  arming = h.arming;
  shown = h.shown;
  progress = h.progress;
}

data_step-IsConnected :
    (w : World) (ws : ℕ) (packet : Packet)
    → IsConnected w
    → IsConnected (step (received ws packet) w)
unfolding step on_message
data_step-IsConnected w ws malformed h = h
data_step-IsConnected w ws (json t body) h = elim (Bool-cases (is_control t)) [
  | inl e ↦ rw e h
  | inr e ↦ rw e (carry w _ _ _ h)
]

fetched-IsConnected :
    (w : World) (active ok : Bool) (body : List Alert)
    → IsConnected w
    → IsConnected (step (fetched active ok body) w)
unfolding step hydrate_alerts
fetched-IsConnected w true true body h = carry w _ _ _ h
fetched-IsConnected w _ _ body h = h

measured-IsConnected :
    (w : World) (active ok : Bool) (total : Option ℕ)
    → IsConnected w
    → IsConnected (step (measured active ok total) w)
unfolding step hydrate_metrics
measured-IsConnected w true true (some total) h = carry w _ _ _ h
measured-IsConnected w true false (some total) h = h
measured-IsConnected w false ok (some total) h = h
measured-IsConnected w active ok none h = h

pub step-IsConnected :
    (w : World) (e : Event) → IsConnected w → Enabled e w → IsConnected (step e w)
unfolding step clear_alerts clear_all_alerts update_alert_status
step-IsConnected w (mount created) h en = mount-IsConnected w created h en
step-IsConnected w unmount h en = unmount-IsConnected w h en
step-IsConnected w (opened ws) h en = opened-IsConnected w ws h en
step-IsConnected w (closing_begun ws) h en = closing_begun-IsConnected w ws h en
step-IsConnected w (errored ws) h en = errored-IsConnected w ws h en
step-IsConnected w (closed ws) h en = closed-IsConnected w ws h en
step-IsConnected w (received ws packet) h en = data_step-IsConnected w ws packet h
step-IsConnected w (fired i created) h en = fired-IsConnected w i created h en
step-IsConnected w (fetched active ok body) h en = fetched-IsConnected w active ok body h
step-IsConnected w (measured active ok total) h en = measured-IsConnected w active ok total h
step-IsConnected w cleared h en = carry w _ _ _ h
step-IsConnected w all_cleared h en = carry w _ _ _ h
step-IsConnected w (status_set flow status) h en = carry w _ _ _ h

-- In every reachable world: a live socket is the current one, so there is never a second; at most
-- one timeout is pending, and only without a socket; a shown CONNECTED has a socket behind it;
-- while mounted a socket or a reconnect is under way, unless the last `new WebSocket` threw; and
-- after cleanup there is no socket and no timeout, whatever events come late.
pub Reach-IsConnected : {w : World} → Reach w → IsConnected w
Reach-IsConnected r = Reach_ind IsConnected initial_world-IsConnected step-IsConnected r

-- Two live sockets are one.
pub live_unique :
    {w : World} (i j : ℕ)
    → Reach w
    → is_live (w.hook.ready i) ≡ true
    → is_live (w.hook.ready j) ≡ true
    → i ≡ j
live_unique i j r p q =
    ground (arith, (Reach-IsConnected r).live i p, (Reach-IsConnected r).live j q)
