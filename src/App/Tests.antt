-- ===== src/App/Tests.antt =====
-- The composed application at concrete alerts.
use threat_lens.Session.{UserProfile, soc_analyst}
use threat_lens.App.Rights.{IsRight, rights}
use threat_lens.Base.{true, ◌⊎◌, ◌≡◌, refl, codes, [], ◌∷◌, none, false}
use threat_lens.Types.{resolved}
use threat_lens.Types.Samples.{legacy_alert, scan_alert, syn_flood}
use threat_lens.Socket.{Hook, initial_hook}
use threat_lens.Table.Menu.{Menu, status_answered}
use threat_lens.Dashboard.{View, live_mode, archive_mode}
use threat_lens.App.{passed_alerts, utc_time}
use threat_lens.Table.Pause.{Stream, handle_resume, initial_stream, is_paused, settle}
use threat_lens.App.StatusChange.{IsChanged, live_rows, status_change_shown}

abbrev view : View
view = record {
  mode = live_mode;
  archive_alerts = legacy_alert ∷ [];
  archive_page = 0;
  archive_has_next = false;
  severity_filter = none;
  traffic_window = none;
}

abbrev busy_hook : Hook
busy_hook = record initial_hook { alerts = syn_flood ∷ scan_alert ∷ legacy_alert ∷ [] }

abbrev menu : Menu
menu = record { dropdown_open = false; status_updating = none; requests = [] }

time_of_day : utc_time (codes "2026-09-14T12:34:56.789Z") ≡ codes "12:34:56 UTC"
time_of_day = refl

abbrev idle_stream : Stream
idle_stream = initial_stream busy_hook.alerts

status_change_shown_example :
    let after = (status_answered true legacy_alert resolved (menu, busy_hook)).1.alerts in
    let resumed = settle true false after (handle_resume after idle_stream) in
    let archive_view = record view { mode = archive_mode } in
    ((is_paused true false idle_stream ≡ false)
        × IsChanged legacy_alert.flow_id resolved busy_hook.alerts
            (live_rows false view after idle_stream)
        × (live_rows false view busy_hook.alerts idle_stream ≡ busy_hook.alerts)
      ⊎ (is_paused true false idle_stream ≡ true)
        × (live_rows false view after idle_stream
            ≡ live_rows false view busy_hook.alerts idle_stream))
    × IsChanged legacy_alert.flow_id resolved busy_hook.alerts (live_rows false view after resumed)
    × (passed_alerts none archive_view after ≡ passed_alerts none archive_view busy_hook.alerts)
status_change_shown_example =
    status_change_shown view legacy_alert resolved menu busy_hook false idle_stream

abbrev bea : UserProfile
bea = record { username = codes "bea"; role = soc_analyst; disabled = false }

rights_example : IsRight soc_analyst bea menu legacy_alert resolved
rights_example = rights bea menu legacy_alert resolved
