-- ===== src/Socket/Recovery.antt =====
-- Liveness of the connection of useThreatSocket: while mounted, the browser can always bring the
-- hook back to CONNECTED, within three events.
use mathlib.Core.Path.{subst}
use threat_lens.Base.{
  ◌≡◌, refl, All, List, arith, Bool, Bool-cases, Option, [], false, inl, inr, length, none, some,
  true, ℕ, ◌∷◌, ◌≤◌, Option-cases, min, ◌+◌,
}
use threat_lens.Types.{Alert}
use threat_lens.Socket.{
  Packet, cleanup, clear_alerts, clear_all_alerts, connect, connected, hydrate_alerts,
  hydrate_metrics, is_control, json, malformed, on_close, on_error, on_message, on_open,
  update_alert_status, ws_open, ws_connecting, ReadyState, max_backoff_ms, ws_closed, ws_closing,
}
use threat_lens.Socket.Steps.{
  World, Enabled, Event, Reach, Reach_ind, all_cleared, cleared, closed, closing_begun, errored,
  fetched, fired, measured, mount, opened, received, start, status_set, step, unmount,
}
use threat_lens.Socket.Connection.{
  IsConnected, Reach-IsConnected, step-IsConnected, IsTimed, is_busy,
}

-- Where the current socket is open, CONNECTED is shown.
abbrev pub IsOpenShown : World → Type 0
IsOpenShown w =
    (i : ℕ) → w.hook.socket ≡ some i → w.hook.ready i ≡ ws_open → w.hook.status ≡ connected

abbrev IsSound : World → Type 0
IsSound w = IsConnected w × IsOpenShown w

data_step-IsOpenShown :
    (w : World) (ws : ℕ) (packet : Packet)
    → IsOpenShown w
    → IsOpenShown (step (received ws packet) w)
unfolding step on_message
data_step-IsOpenShown w ws malformed h = h
data_step-IsOpenShown w ws (json t body) h = elim (Bool-cases (is_control t)) [
  | inl e ↦ rw e h
  | inr e ↦ rw e h
]

fetched-IsOpenShown :
    (w : World) (active ok : Bool) (body : List Alert)
    → IsOpenShown w
    → IsOpenShown (step (fetched active ok body) w)
unfolding step hydrate_alerts
fetched-IsOpenShown w true true body h = h
fetched-IsOpenShown w _ _ body h = h

measured-IsOpenShown :
    (w : World) (active ok : Bool) (total : Option ℕ)
    → IsOpenShown w
    → IsOpenShown (step (measured active ok total) w)
unfolding step hydrate_metrics
measured-IsOpenShown w true true (some total) h = h
measured-IsOpenShown w true false (some total) h = h
measured-IsOpenShown w false ok (some total) h = h
measured-IsOpenShown w active ok none h = h

step-IsOpenShown : (w : World) (e : Event) → IsSound w → Enabled e w → IsOpenShown (step e w)
unfolding step clear_alerts clear_all_alerts update_alert_status connect on_open on_error on_close
    cleanup
step-IsOpenShown w (mount created) h en = λ i p q. ground (arith, h.0.quiet en)
step-IsOpenShown w unmount h en = λ i p q. ground (arith)
step-IsOpenShown w (opened ws) h en = λ i p q. refl
step-IsOpenShown w (closing_begun ws) h en = λ i p q. ground (arith, h.1 i)
step-IsOpenShown w (errored ws) h en = λ i p q. ground (arith, h.1 i)
step-IsOpenShown w (closed ws) h en = λ i p q. ground (arith, h.1 i)
step-IsOpenShown w (received ws packet) h en = data_step-IsOpenShown w ws packet h.1
step-IsOpenShown w (fired i created) h en = λ j p q. ground (arith, h.0.timed, h.1 j)
step-IsOpenShown w (fetched active ok body) h en = fetched-IsOpenShown w active ok body h.1
step-IsOpenShown w (measured active ok total) h en = measured-IsOpenShown w active ok total h.1
step-IsOpenShown w cleared h en = h.1
step-IsOpenShown w all_cleared h en = h.1
step-IsOpenShown w (status_set flow status) h en = h.1

Reach-IsSound : {w : World} → Reach w → IsSound w
Reach-IsSound r =
    Reach_ind IsSound (Reach-IsConnected start, λ i p. cc)
      (λ w e h en. (step-IsConnected w e h.0 en, step-IsOpenShown w e h en)) r

-- A run of events, each of which the environment may cause when its turn comes.
abbrev pub run : List Event → World → World
run [] w = w
run (e ∷ es) w = run es (step e w)

abbrev pub AllEnabled : List Event → World → Type 0
AllEnabled [] w = Unit
AllEnabled (e ∷ es) w = Enabled e w × AllEnabled es (step e w)

-- What the browser alone causes: the opening and the end of a socket, and a timeout that fires. React
-- neither mounts nor unmounts the effect.
abbrev pub IsBrowser : Event → Type 0
IsBrowser (opened ws) = Unit
IsBrowser (closed ws) = Unit
IsBrowser (fired i created) = Unit
IsBrowser _ = ⊥

-- A run of at most `n` events of the browser that ends in CONNECTED.
pub record Recovers (n : ℕ) (w : World) : Type 0 where
  pub events : List Event
  pub enabled : AllEnabled events w
  pub by_browser : All IsBrowser events
  pub short : length events ≤ n
  pub recovered : (run events w).hook.status ≡ connected

opening : (w : World) (ws : ℕ) → w.hook.ready ws ≡ ws_connecting → Recovers 1 w
unfolding step on_open
opening w ws h = record {
  events = opened ws ∷ [];
  enabled = (h, tt);
  by_browser = (tt, tt);
  short = omega arith;
  recovered = refl;
}

-- Without a socket and with a reconnect pending, the timeout and the opening suffice.
waiting :
    (w : World) (i delay : ℕ)
    → w.hook.socket ≡ none
    → w.hook.timers ≡ (i, delay) ∷ []
    → Recovers 2 w
unfolding step on_open connect
waiting w i delay none_open pending = record {
  events = fired i true ∷ opened w.hook.next_id ∷ [];
  enabled = (rw pending (ground arith), (ground arith, tt));
  by_browser = (tt, (tt, tt));
  short = omega arith;
  recovered = refl;
}

-- A run behind one event more.
behind :
    (e : Event) (n : ℕ) (w : World)
    → Enabled e w
    → IsBrowser e
    → Recovers n (step e w)
    → Recovers (n + 1) w
behind e n w en b r = record {
  events = e ∷ r.events;
  enabled = (en, r.enabled);
  by_browser = (b, r.by_browser);
  short = omega (arith, r.short);
  recovered = r.recovered;
}

weaken : (n m : ℕ) (w : World) → n ≤ m → Recovers n w → Recovers m w
weaken n m w h r = record {
  events = r.events;
  enabled = r.enabled;
  by_browser = r.by_browser;
  short = omega (arith, r.short, h);
  recovered = r.recovered;
}

no_timers :
    (ws : ℕ) (timeout : Option ℕ) (ts : List (ℕ × ℕ)) → IsTimed (some ws) timeout ts → ts ≡ []
no_timers ws timeout [] h = refl
no_timers ws timeout (t ∷ []) h = cc
no_timers ws timeout (t ∷ u ∷ ts) h = absurd h

-- The current socket is closing: its end asks for the reconnect.
ending :
    (w : World) (ws : ℕ)
    → IsConnected w
    → w.mounted ≡ true
    → w.hook.socket ≡ some ws
    → w.hook.ready ws ≡ ws_closing
    → Recovers 3 w
unfolding step on_close
ending w ws h m here closing =
    let empty =
      no_timers ws w.hook.reconnect_timeout w.hook.timers
        (subst (λ o. IsTimed o w.hook.reconnect_timeout w.hook.timers) here h.timed) in
    behind (closed ws) 2 w (λ e. cc) tt
      (waiting (step (closed ws) w) w.hook.next_id (min w.hook.backoff max_backoff_ms)
        (ground (arith, h.arming m)) (ground (arith, h.arming m)))

waiting_of :
    (w : World) (ts : List (ℕ × ℕ))
    → w.hook.timers ≡ ts
    → w.hook.socket ≡ none
    → IsTimed w.hook.socket w.hook.reconnect_timeout ts
    → is_busy w.hook ≡ true
    → Recovers 2 w
waiting_of w [] p q t b = ground (arith)
waiting_of w (t ∷ []) p q h b = waiting w t.0 t.1 q p
waiting_of w (t ∷ u ∷ ts) p q h b = absurd h

current :
    (w : World) (ws : ℕ) (r : ReadyState)
    → IsSound w
    → w.mounted ≡ true
    → w.hook.socket ≡ some ws
    → w.hook.ready ws ≡ r
    → Recovers 3 w
current w ws ws_connecting h m here is = weaken 1 3 w (omega arith) (opening w ws is)
current w ws ws_open h m here is = record {
  events = [];
  enabled = tt;
  by_browser = tt;
  short = omega arith;
  recovered = h.1 ws here is;
}
current w ws ws_closing h m here is = ending w ws h.0 m here is
current w ws ws_closed h m here is = absurd (h.0.held ws here is)

-- From every reachable world in which the hook is mounted, and in which the last `new WebSocket`
-- did not throw, at most three events of the browser lead to CONNECTED, whatever happened before:
-- sockets that open or end, and timeouts that fire, without a new mount of the effect.
pub recover : {w : World} → Reach w → w.mounted ≡ true → w.threw ≡ false → Recovers 3 w
recover {w} r m t =
    let h = Reach-IsSound r in
    elim (Option-cases w.hook.socket) [
      | inl e ↦
          weaken 2 3 w (omega arith)
            (waiting_of w w.hook.timers refl e h.0.timed (h.0.progress m t))
      | inr p ↦ current w p.0 (w.hook.ready p.0) h m p.1 refl
    ]
