-- ===== src/Dashboard.antt =====
-- frontend/src/App.tsx: the summary numbers of the dashboard, its view state and the archive pages.
pub mod TopVector
pub mod Dominant
pub mod Archive
pub mod Counts
pub mod Pulse
mod Tests
use threat_lens.Base.{
  ◌≡◌, refl, Bool, List, Option, Text, [], codes, false, filter, if◌then◌else◌, length, ltb, none,
  not, some, text_eq, true, ℕ, ◌==◌, ◌||◌, ◌&&◌,
}
use threat_lens.Types.{Alert, critical, high}
use threat_lens.Socket.{ConnectionStatus, disconnected}
use threat_lens.Table.Filter.{SeverityFilter, only_critical, only_high}

-- The development override of frontend/src/lib/devState.ts; null is `none`.
pub data DevState : Type 0 where
  loading empty filtered_empty offline stale archive_error session_expired : DevState

-- `getDevStateOverride`: the parameter `state` of the address, in a development build only.
unfoldable pub get_dev_state_override : (dev window : Bool) → Option Text → Option DevState
unfolding text_eq
get_dev_state_override dev window none = none
get_dev_state_override dev window (some p) =
    if not dev || not window
    then none
    else if text_eq p (codes "loading")
    then some loading
    else if text_eq p (codes "empty")
    then some empty
    else if text_eq p (codes "filtered-empty")
    then some filtered_empty
    else if text_eq p (codes "offline")
    then some offline
    else if text_eq p (codes "stale")
    then some stale
    else if text_eq p (codes "archive-error")
    then some archive_error
    else if text_eq p (codes "session-expired")
    then some session_expired
    else none

abbrev pub effective_alerts : Option DevState → List Alert → List Alert
effective_alerts (some empty) alerts = []
effective_alerts _ alerts = alerts

abbrev pub effective_status : Option DevState → ConnectionStatus → ConnectionStatus
effective_status (some offline) status = disconnected
effective_status _ status = status

-- `criticalCount`, `highCount`
abbrev pub is_critical : Alert → Bool
is_critical a = elim a.severity [ critical ↦ true | _ ↦ false ]

abbrev pub is_high : Alert → Bool
is_high a = elim a.severity [ high ↦ true | _ ↦ false ]

unfoldable pub critical_count : List Alert → ℕ
critical_count alerts = length (filter is_critical alerts)

unfoldable pub high_count : List Alert → ℕ
high_count alerts = length (filter is_high alerts)

pub data ViewMode : Type 0 where
  live_mode archive_mode : ViewMode

pub record View : Type 0 where
  pub mode : ViewMode
  pub archive_alerts : List Alert
  pub archive_page : ℕ
  pub archive_has_next : Bool
  pub severity_filter : Option SeverityFilter
  pub traffic_window : Option ℕ

-- `setAlertMode`
unfoldable pub set_alert_mode : ViewMode → View → View
set_alert_mode live_mode v = record v { mode = live_mode }
set_alert_mode archive_mode v = record v { mode = archive_mode; archive_page = 0 }

abbrev pub same_filter : SeverityFilter → SeverityFilter → Bool
same_filter only_critical only_critical = true
same_filter only_high only_high = true
same_filter _ _ = false

abbrev pub toggled : Option SeverityFilter → SeverityFilter → Option SeverityFilter
toggled none f = some f
toggled (some g) f = if same_filter g f then none else some f

-- `toggleSeverityFilter`, also on Enter and Space
unfoldable pub toggle_severity_filter : SeverityFilter → View → View
toggle_severity_filter f v = record v { severity_filter = toggled v.severity_filter f }

unfoldable pub handle_severity_key : Text → SeverityFilter → View → View
unfolding text_eq toggle_severity_filter
handle_severity_key key f v =
    if text_eq key (codes "Enter") || text_eq key (codes " ") then toggle_severity_filter f v else v

abbrev pub toggled_window : Option ℕ → ℕ → Option ℕ
toggled_window none t = some t
toggled_window (some s) t = if s == t then none else some t

-- `handleTrafficWindowSelect`, by the window's timestamp
unfoldable pub handle_window_select : ℕ → View → View
handle_window_select t v = record v { traffic_window = toggled_window v.traffic_window t }

-- `showSkeleton`; `is_initial_loading` holds for the first 300 ms.
unfoldable pub show_skeleton : Option DevState → (is_initial_loading : Bool) → List Alert → Bool
show_skeleton (some loading) is_initial_loading alerts = true
show_skeleton _ is_initial_loading alerts = is_initial_loading && length alerts == 0
