-- ===== src/Socket.antt =====
-- frontend/src/hooks/useThreatSocket.ts: the state of the hook, and one function for each
-- callback. A React state setter, a ref write and a call of the browser are fields of one record.
-- `ready` and `timers` are the browser's: the `readyState` of each WebSocket made so far, and the
-- pending timeouts. Identifiers of sockets and timeouts come from one counter that starts at 1.
pub mod Buffer
pub mod Steps
pub mod Connection
pub mod Backoff
pub mod Recovery
pub mod Store
pub mod Url
mod Tests
use threat_lens.Base.{
  ℕ, Bool, List, Option, Text, [], any, codes, false, filter, if◌then◌else◌, leb, map, min, none,
  not, some, take, text_eq, true, ◌&&◌, ◌*◌, ◌++◌, ◌+◌, ◌/◌, ◌==◌, ◌||◌, ◌∷◌,
}
use threat_lens.Types.{Alert, get_alert_identity, AlertStatus}

pub data ConnectionStatus : Type 0 where
  connecting connected disconnected : ConnectionStatus

-- `WebSocket.readyState`
pub data ReadyState : Type 0 where
  ws_connecting ws_open ws_closing ws_closed : ReadyState

abbrev pub max_alerts_buffer : ℕ
max_alerts_buffer = 200

abbrev pub initial_backoff_ms : ℕ
initial_backoff_ms = 1000

abbrev pub max_backoff_ms : ℕ
max_backoff_ms = 15000

pub record Hook : Type 0 where
  pub alerts : List Alert
  pub status : ConnectionStatus
  pub session_received : ℕ
  pub archive_total : ℕ
  pub socket : Option ℕ
  pub reconnect_timeout : Option ℕ
  pub backoff : ℕ
  pub closing : Bool
  pub ready : ℕ → ReadyState
  pub timers : List (ℕ × ℕ)
  pub next_id : ℕ

abbrev pub initial_hook : Hook
initial_hook = record {
  alerts = [];
  status = connecting;
  session_received = 0;
  archive_total = 0;
  socket = none;
  reconnect_timeout = none;
  backoff = initial_backoff_ms;
  closing = false;
  ready = λ _. ws_closed;
  timers = [];
  next_id = 1;
}

-- OPEN or CONNECTING
abbrev pub is_live : ReadyState → Bool
is_live ws_connecting = true
is_live ws_open = true
is_live _ = false

abbrev pub set_ready : (ℕ → ReadyState) → ℕ → ReadyState → ℕ → ReadyState
set_ready ready ws r i = if i == ws then r else ready i

abbrev pub is_current : Option ℕ → ℕ → Bool
is_current none ws = false
is_current (some i) ws = i == ws

abbrev pub has_live : Option ℕ → (ℕ → ReadyState) → Bool
has_live none ready = false
has_live (some ws) ready = is_live (ready ws)

-- `ws.close()`
abbrev pub closed_by_call : ReadyState → ReadyState
closed_by_call ws_connecting = ws_closing
closed_by_call ws_open = ws_closing
closed_by_call r = r

unfoldable pub close_socket : ℕ → (ℕ → ReadyState) → ℕ → ReadyState
close_socket ws ready = set_ready ready ws (closed_by_call (ready ws))

-- `connect`. `created` says whether `new WebSocket(targetUrl)` returns; otherwise it throws.
unfoldable pub connect : (created : Bool) → Hook → Hook
connect created s =
    if has_live s.socket s.ready
    then s
    else if created
    then record s {
      closing = false;
      status = connecting;
      socket = some s.next_id;
      ready = set_ready s.ready s.next_id ws_connecting;
      next_id = s.next_id + 1;
    }
    else record s { closing = false; status = disconnected }

-- `ws.onopen`
unfoldable pub on_open : Hook → Hook
on_open s = record s { status = connected; backoff = initial_backoff_ms }

-- `prevAlerts.some(…)`: the identity is there already.
unfoldable pub has_identity : Text → List Alert → Bool
has_identity identity prev = any (λ a. text_eq (get_alert_identity a) identity) prev

unfoldable pub push_alert : Alert → List Alert → List Alert
unfolding has_identity
push_alert alert prev =
    if has_identity (get_alert_identity alert) prev
    then prev
    else take max_alerts_buffer (alert ∷ prev)

-- `event.data`: text that `JSON.parse` refuses, or an object with an optional `type`.
pub data Packet : Type 0 where
  malformed : Packet
  json : (type_of : Option Text) (body : Alert) → Packet

abbrev pub is_control : Option Text → Bool
is_control none = false
is_control (some t) = text_eq t (codes "heartbeat") || text_eq t (codes "pong")

-- `ws.onmessage`
unfoldable pub on_message : Packet → Hook → Hook
unfolding push_alert
on_message malformed s = s
on_message (json type_of body) s = if is_control type_of then s else record s {
  session_received = s.session_received + 1;
  archive_total = s.archive_total + 1;
  alerts = push_alert body s.alerts;
}

-- `ws.onerror`
unfoldable pub on_error : ℕ → Hook → Hook
unfolding close_socket
on_error ws s = record s { ready = close_socket ws s.ready }

abbrev pub next_backoff : ℕ → ℕ
next_backoff b = b * 3 / 2

-- `ws.onclose`
unfoldable pub on_close : ℕ → Hook → Hook
on_close ws s =
    if is_current s.socket ws
    then (if s.closing then record s { socket = none; status = disconnected } else record s {
      socket = none;
      status = disconnected;
      backoff = next_backoff s.backoff;
      reconnect_timeout = some s.next_id;
      timers = (s.next_id, min s.backoff max_backoff_ms) ∷ s.timers;
      next_id = s.next_id + 1;
    })
    else s

abbrev pub without_timer : ℕ → List (ℕ × ℕ) → List (ℕ × ℕ)
without_timer i = filter (λ t. not (t.0 == i))

-- The cleanup that the effect returns. An identifier of a timeout is a positive number.
abbrev pub clear_reconnect : Hook → Hook
clear_reconnect s = elim s.reconnect_timeout [
  | none ↦ s
  | some i ↦ record s { timers = without_timer i s.timers; reconnect_timeout = none }
]

abbrev pub close_current : Hook → Hook
close_current s = elim s.socket [
  | none ↦ s
  | some ws ↦ record s { ready = close_socket ws s.ready; socket = none }
]

unfoldable pub cleanup : Hook → Hook
unfolding close_socket
cleanup s = close_current (clear_reconnect (record s { closing = true }))

-- The updater that `hydrateInitialState` passes to `setAlerts`.
unfoldable pub merge_fetched : List Alert → List Alert → List Alert
unfolding has_identity
merge_fetched fetched [] = fetched
merge_fetched fetched (a ∷ prev) =
    take max_alerts_buffer
      ((a ∷ prev) ++ filter (λ f. not (has_identity (get_alert_identity f) (a ∷ prev))) fetched)

-- `hydrateInitialState` behind its awaits: `active` and `response.ok`, then the parsed body.
unfoldable pub hydrate_alerts : (active ok : Bool) → List Alert → Hook → Hook
unfolding merge_fetched
hydrate_alerts active ok fetched s =
    if active && ok then record s { alerts = merge_fetched fetched s.alerts } else s

-- `total` is `metrics.total_alerts`, `none` where it is no number.
unfoldable pub hydrate_metrics : (active ok : Bool) → (total : Option ℕ) → Hook → Hook
hydrate_metrics active ok none s = s
hydrate_metrics active ok (some total) s =
    if active && ok then record s { archive_total = total; session_received = total } else s

unfoldable pub clear_alerts : Hook → Hook
clear_alerts s = record s { alerts = [] }

-- `clearAllAlerts`; the request before it may fail, which changes nothing.
unfoldable pub clear_all_alerts : Hook → Hook
clear_all_alerts s = record s { alerts = []; session_received = 0; archive_total = 0 }

unfoldable pub set_status : Text → AlertStatus → Alert → Alert
set_status flow_id status alert =
    if text_eq alert.flow_id flow_id then record alert { status = status } else alert

unfoldable pub update_alert_status : Text → AlertStatus → Hook → Hook
unfolding set_status
update_alert_status flow_id status s = record s {
  alerts = map (set_status flow_id status) s.alerts;
}

-- `formattedArchiveTotal`; `thousands` is `(n / 1000).toFixed(1)`.
unfoldable pub formatted_archive_total : (thousands print : ℕ → Text) → Hook → Text
formatted_archive_total thousands print s =
    if leb 1000 s.archive_total
    then thousands s.archive_total ++ codes "k"
    else print s.archive_total
