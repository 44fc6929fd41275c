-- ===== src/App.antt =====
-- frontend/src/App.tsx: what the application shows of the states of its parts: the screen, the band
-- of a lost connection, the alerts of the table, and the actions that only an administrator gets.
use threat_lens.Base.{
  Bool, List, Option, Text, [], codes, drop, false, if◌then◌else◌, length, ltb, none, some, take,
  true, ◌++◌, ◌∷◌,
}
use threat_lens.Types.{Alert}
use threat_lens.Socket.{ConnectionStatus, connected}
use threat_lens.Dashboard.{
  DevState, View, archive_mode, effective_alerts, effective_status, live_mode, show_skeleton,
}
use threat_lens.Session.{UserProfile, has_admin_actions, shows_login}
pub mod Cards
pub mod Rights
pub mod StatusChange
mod Tests

pub data Screen : Type 0 where
  login_screen skeleton_screen dashboard_screen : Screen

-- Which of the three screens is rendered.
unfoldable pub screen :
    Option DevState → Option UserProfile → (is_initial_loading : Bool) → List Alert → Screen
unfolding shows_login show_skeleton
screen dev user is_initial_loading alerts =
    if shows_login user dev
    then login_screen
    else if show_skeleton dev is_initial_loading alerts
    then skeleton_screen
    else dashboard_screen

-- `toISOString().substring(11, 19) + " UTC"`
abbrev pub utc_time : (iso : Text) → Text
utc_time iso = take 8 (drop 11 iso) ++ codes " UTC"

abbrev is_online : ConnectionStatus → Bool
is_online connected = true
is_online status = false

-- The effect that keeps the time at which the stream was last seen; `now` is in ISO format.
unfoldable pub last_seen_effect :
    Option DevState → ConnectionStatus → List Alert → (now last_seen : Text) → Text
last_seen_effect dev status alerts now last_seen =
    if is_online (effective_status dev status)
    then (if ltb 0 (length alerts) then utc_time now else last_seen)
    else last_seen

-- The band below the navigation bar.
unfoldable pub connection_band :
    Option DevState → ConnectionStatus → (last_seen : Text) → Option (Text × Text)
connection_band dev status last_seen =
    if is_online (effective_status dev status)
    then none
    else some (
      codes "Connection lost. Showing data as of " ++ last_seen ++ codes ". Reconnecting…",
      codes "Passive Buffer Active",
    )

-- The alerts that the table gets, its `alerts`. A table that is paused shows its snapshot instead.
unfoldable pub passed_alerts : Option DevState → View → List Alert → List Alert
passed_alerts dev v alerts = elim v.mode [
  | live_mode ↦ effective_alerts dev alerts
  | archive_mode ↦ v.archive_alerts
]

-- What the application lets a user do besides looking.
pub data Action : Type 0 where
  open_config open_replay clear_database change_status : Action

unfoldable pub actions : Option UserProfile → List Action
unfolding has_admin_actions
actions none = []
actions (some user) =
    if has_admin_actions user
    then open_config ∷ open_replay ∷ clear_database ∷ change_status ∷ []
    else []
