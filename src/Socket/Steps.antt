-- ===== src/Socket/Steps.antt =====
-- The life of useThreatSocket as a step relation: React mounts and unmounts the effect, the
-- browser fires the events of a WebSocket and the timeouts, and requests are answered, in any order.
use threat_lens.Base.{
  ◌≡◌, Bool, List, Option, Text, any, false, not, true, ℕ, ◌==◌, ◌≢◌, if◌then◌else◌,
}
use threat_lens.Types.{Alert, AlertStatus}
use threat_lens.Socket.{
  Hook, Packet, ReadyState, cleanup, clear_alerts, clear_all_alerts, connect, hydrate_alerts,
  hydrate_metrics, initial_hook, on_close, on_error, on_message, on_open, set_ready,
  update_alert_status, without_timer, ws_closed, ws_closing, ws_connecting, ws_open, has_live,
}
use threat_lens.Socket.Buffer.{IsBuffer}

-- `threw` says whether `new WebSocket` threw in the last call of `connect`.
pub record World : Type 0 where
  pub hook : Hook
  pub mounted : Bool
  pub threw : Bool

abbrev pub initial_world : World
initial_world = record { hook = initial_hook; mounted = false; threw = false }

abbrev pub is_pending : ℕ → List (ℕ × ℕ) → Bool
is_pending i = any (λ t. t.0 == i)

abbrev pub with_ready : ℕ → ReadyState → Hook → Hook
with_ready ws r s = record s { ready = set_ready s.ready ws r }

-- The events that reach the hook, with what the environment decides.
pub data Event : Type 0 where
  mount : (created : Bool) → Event
  unmount : Event
  opened closing_begun errored closed : (ws : ℕ) → Event
  received : (ws : ℕ) → Packet → Event
  fired : (timer : ℕ) (created : Bool) → Event
  fetched : (active ok : Bool) → List Alert → Event
  measured : (active ok : Bool) → Option ℕ → Event
  cleared all_cleared : Event
  status_set : Text → AlertStatus → Event

-- When the browser or React may cause an event. The browser reports opening and messages, and
-- the end of a connection once; the body that `fetched` brings is a buffer of the server's.
abbrev pub Enabled : Event → World → Type 0
Enabled (mount _) w = w.mounted ≡ false
Enabled unmount w = w.mounted ≡ true
Enabled (opened ws) w = w.hook.ready ws ≡ ws_connecting
Enabled (closing_begun ws) w = w.hook.ready ws ≡ ws_open
Enabled (errored ws) w = w.hook.ready ws ≢ ws_closed
Enabled (closed ws) w = w.hook.ready ws ≢ ws_closed
Enabled (received ws _) w = w.hook.ready ws ≡ ws_open
Enabled (fired i _) w = is_pending i w.hook.timers ≡ true
Enabled (fetched _ _ body) w = IsBuffer body
Enabled (measured _ _ _) w = Unit
Enabled cleared w = Unit
Enabled all_cleared w = Unit
Enabled (status_set _ _) w = Unit

abbrev pub with_hook : World → Hook → World
with_hook w s = record w { hook = s }

abbrev pub attempt : Bool → Hook → World → World
attempt created s w = record w {
  hook = connect created s;
  threw = if has_live s.socket s.ready then w.threw else not created;
}

-- What the hook does at an event. A timeout that fires is no longer pending.
unfoldable pub step : Event → World → World
step (mount created) w = record (attempt created w.hook w) { mounted = true }
step unmount w = record w { hook = cleanup w.hook; mounted = false }
step (opened ws) w = with_hook w (on_open (with_ready ws ws_open w.hook))
step (closing_begun ws) w = with_hook w (with_ready ws ws_closing w.hook)
step (errored ws) w = with_hook w (on_error ws w.hook)
step (closed ws) w = with_hook w (on_close ws (with_ready ws ws_closed w.hook))
step (received ws packet) w = with_hook w (on_message packet w.hook)
step (fired i created) w =
    attempt created (record (w.hook) { timers = without_timer i w.hook.timers }) w
step (fetched active ok body) w = with_hook w (hydrate_alerts active ok body w.hook)
step (measured active ok total) w = with_hook w (hydrate_metrics active ok total w.hook)
step cleared w = with_hook w (clear_alerts w.hook)
step all_cleared w = with_hook w (clear_all_alerts w.hook)
step (status_set flow status) w = with_hook w (update_alert_status flow status w.hook)

pub data Reach : World → Type 0 where
  start : Reach initial_world
  next : {w : World} → Reach w → (e : Event) → Enabled e w → Reach (step e w)

-- A property of the first world that every enabled event keeps holds of every reachable world.
pub Reach_ind :
    (P : World → Type 0)
    → P initial_world
    → ((w : World) (e : Event) → P w → Enabled e w → P (step e w))
    → {w : World} → Reach w
    → P w
Reach_ind P base keep start = base
Reach_ind P base keep (next {w} r e en) = keep w e (Reach_ind P base keep r) en
