-- ===== src/App/Rights.antt =====
-- frontend/src/components/Navbar.tsx with frontend/src/App.tsx: the pill and the menu of the
-- navigation bar, and what a user may do.
use threat_lens.Base.{
  ◌≡◌, refl, Bool, List, Option, Text, [], codes, false, if◌then◌else◌, none, not, some, text_or,
  true, ◌++◌, ◌∷◌,
}
use threat_lens.Types.{Alert, AlertStatus, get_alert_identity}
use threat_lens.Socket.{Hook, clear_all_alerts}
use threat_lens.Session.{
  Role, Stores, UserProfile, handle_logout, has_admin_actions, soc_admin, soc_analyst,
}
use threat_lens.Navbar.{StreamBadge, stream_connecting, stream_idle, stream_live, stream_offline}
use threat_lens.Table.Menu.{Menu, is_updating, is_disabled, status_started}
use threat_lens.App.{
  actions, change_status, clear_database, open_config, open_replay, Action, utc_time,
}

abbrev pub badge_text : StreamBadge → Text
badge_text stream_live = codes "STREAM LIVE"
badge_text stream_idle = codes "STREAM IDLE"
badge_text stream_connecting = codes "CONNECTING..."
badge_text stream_offline = codes "OFFLINE (RETRYING)"

-- The pill of the session: its title, the number and the line of the archive.
unfoldable pub session_pill : (session_received formatted_archive_total : Text) → Text × Text × Text
session_pill session_received formatted_archive_total =
    let total = text_or formatted_archive_total (codes "0") in
    (
      codes "Database Archive: " ++ (total ++ codes " records"),
      session_received,
      codes "DB: " ++ total,
    )

-- The clock, before its first tick too.
abbrev pub clock : (utc_time : Text) → Text
clock utc_time = text_or utc_time (codes "00:00:00 UTC")

-- The entries of the menu.
pub data Entry : Type 0 where
  replay_entry config_entry clear_entry logout_entry : Entry

abbrev pub entry_text : Entry → Text
entry_text replay_entry = codes "Replay PCAP Capture"
entry_text config_entry = codes "Rules & Suppressions"
entry_text clear_entry = codes "Empty DB & Reset"
entry_text logout_entry = codes "Sign Out of SOC"

-- An entry is there where its handler is passed; the one to sign out always is.
abbrev entry_of : Action → List Entry
entry_of open_config = config_entry ∷ []
entry_of open_replay = replay_entry ∷ []
entry_of clear_database = clear_entry ∷ []
entry_of change_status = []

abbrev has_action : Action → List Action → Bool
has_action a [] = false
has_action open_config (open_config ∷ given) = true
has_action open_replay (open_replay ∷ given) = true
has_action clear_database (clear_database ∷ given) = true
has_action change_status (change_status ∷ given) = true
has_action a (b ∷ given) = has_action a given

abbrev if_given : Action → List Action → List Entry
if_given a given = if has_action a given then entry_of a else []

unfoldable pub menu_entries : Option UserProfile → List Entry
unfolding actions
menu_entries user =
    let given = actions user in
    if_given open_replay given
    ++ (if_given open_config given ++ (if_given clear_database given ++ logout_entry ∷ []))

-- The state that the menu changes: itself, the two panels, the buffer, the stores and the user.
pub record Bar : Type 0 where
  pub menu_open : Bool
  pub replay_open : Bool
  pub config_open : Bool
  pub hook : Hook
  pub stores : Stores
  pub user : Option UserProfile

abbrev pub closed : Bar → Bar
closed s = record s { menu_open = false }

-- A press of an entry; `confirmed` is the answer to the question before the database is emptied.
unfoldable pub entry_pressed : (confirmed : Bool) → Entry → Bar → Bar
unfolding clear_all_alerts handle_logout
entry_pressed confirmed replay_entry s = record (closed s) { replay_open = true }
entry_pressed confirmed config_entry s = record (closed s) { config_open = true }
entry_pressed confirmed clear_entry s =
    if confirmed then record (closed s) { hook = clear_all_alerts s.hook } else closed s
entry_pressed confirmed logout_entry s = record (closed s) {
  stores = handle_logout s.stores;
  user = none;
}

-- The button of the menu, and a press on the page outside of it.
abbrev pub menu_pressed : Bar → Bar
menu_pressed s = record s { menu_open = not s.menu_open }

abbrev pub pressed_outside : (inside : Bool) → Bar → Bar
pressed_outside inside s = if inside then s else closed s

-- The table gets a handler for a change of status where the user may do it.
abbrev pub may_change : Option UserProfile → Bool
may_change user = has_action change_status (actions user)

-- What the menu and the table offer, by the role.
abbrev pub IsRight : Role → UserProfile → Menu → Alert → AlertStatus → Type 0
IsRight soc_admin user m alert st =
    (menu_entries (some user) ≡ replay_entry ∷ config_entry ∷ clear_entry ∷ logout_entry ∷ [])
    × (is_disabled (may_change (some user)) m alert
        ≡ is_updating m.status_updating (get_alert_identity alert))
    × ((status_started (may_change (some user)) alert st m).requests
        ≡ (alert.flow_id, st) ∷ m.requests)
IsRight soc_analyst user m alert st =
    (menu_entries (some user) ≡ logout_entry ∷ [])
    × (is_disabled (may_change (some user)) m alert ≡ true)
    × (status_started (may_change (some user)) alert st m ≡ m)

by_role :
    (role : Role) (username : Text) (disabled : Bool) (m : Menu) (alert : Alert) (st : AlertStatus)
    → IsRight role record { username = username; role = role; disabled = disabled } m alert st
unfolding menu_entries actions is_disabled status_started has_admin_actions
by_role soc_admin username disabled m alert st = (refl, refl, refl)
by_role soc_analyst username disabled m alert st = (refl, refl, refl)

-- A user who is no administrator is offered nothing but to sign out, and the menu of every row of
-- the table is disabled and sends nothing; an administrator is offered all four entries, and the
-- menu of a row is enabled unless a change of that row is under way.
pub rights :
    (user : UserProfile) (m : Menu) (alert : Alert) (st : AlertStatus)
    → IsRight user.role user m alert st
rights user m alert st = by_role user.role user.username user.disabled m alert st
