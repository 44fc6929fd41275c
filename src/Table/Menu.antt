-- ===== src/Table/Menu.antt =====
-- frontend/src/components/ThreatTable.tsx and frontend/src/App.tsx: the status menu of a row, the
-- keys of a row, and whether a row is shown as new.
use threat_lens.Base.{
  ◌≡◌, refl, List, codes, Bool, Option, Text, false, if◌then◌else◌, ltb, none, not, some, text_eq,
  true, ℕ, ◌&&◌, ◌+◌, ◌-◌, ◌||◌, ◌∷◌,
}
use threat_lens.Base.Sets.{member}
use threat_lens.Types.{Alert, AlertStatus, get_alert_identity}
use threat_lens.Socket.{Hook, update_alert_status}
use threat_lens.Table.Fresh.{Highlight}

-- `dropdownOpen` and `statusUpdating`, and the requests sent.
pub record Menu : Type 0 where
  pub dropdown_open : Bool
  pub status_updating : Option Text
  pub requests : List (Text × AlertStatus)

abbrev pub is_updating : Option Text → Text → Bool
is_updating none key = false
is_updating (some updating) key = text_eq updating key

-- Is the menu of a row disabled? `may_change` says whether the parent passes a handler.
unfoldable pub is_disabled : (may_change : Bool) → Menu → Alert → Bool
unfolding text_eq get_alert_identity
is_disabled may_change m alert =
    not may_change || is_updating m.status_updating (get_alert_identity alert)

-- `onFocus`, `onBlur`
abbrev pub menu_focused : (focused : Bool) → Menu → Menu
menu_focused focused m = record m { dropdown_open = focused }

-- `onChange` up to the request that App sends.
unfoldable pub status_started : (may_change : Bool) → Alert → AlertStatus → Menu → Menu
unfolding get_alert_identity
status_started may_change alert next_status m =
    if may_change
    then record m {
      status_updating = some (get_alert_identity alert);
      requests = (alert.flow_id, next_status) ∷ m.requests;
    }
    else m

-- The answer: App changes the buffer where it is ok, and the menu is enabled either way.
unfoldable pub status_answered : (ok : Bool) → Alert → AlertStatus → Menu × Hook → Menu × Hook
unfolding update_alert_status
status_answered ok alert next_status (m, hook) = (
  record m { status_updating = none },
  if ok then update_alert_status alert.flow_id next_status hook else hook,
)

-- `isFresh`
unfoldable pub is_fresh : (live_view : Bool) → Highlight → Alert → Bool
unfolding member get_alert_identity
is_fresh live_view s alert = member (get_alert_identity alert) s.fresh && live_view

-- `onKeyDown`: the row that takes the focus, or the alert that is opened.
pub data RowAction : Type 0 where
  focus_row : ℕ → RowAction
  select_alert : Alert → RowAction
  no_action : RowAction

unfoldable pub row_key_down : (key : Text) → (index row_count : ℕ) → Alert → RowAction
unfolding text_eq
row_key_down key index row_count alert =
    if text_eq key (codes "ArrowDown")
    then (if ltb (index + 1) row_count then focus_row (index + 1) else no_action)
    else if text_eq key (codes "ArrowUp")
    then (if ltb 0 index then focus_row (index - 1) else no_action)
    else if text_eq key (codes "Enter") || text_eq key (codes " ")
    then select_alert alert
    else no_action

-- Whatever the server answers to a change of status, the menu of the row can be used again, and
-- the buffer keeps its alerts where the answer is not ok.
pub status_change_ends :
    (ok : Bool) (alert : Alert) (next_status : AlertStatus) (m : Menu) (hook : Hook)
    → (is_disabled true
          (status_answered ok alert next_status (status_started true alert next_status m, hook)).0
          alert
        ≡ false)
      × ((status_answered false alert next_status (m, hook)).1.alerts ≡ hook.alerts)
unfolding is_disabled status_answered status_started
status_change_ends ok alert next_status m hook = (refl, refl)
