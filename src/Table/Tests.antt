-- ===== src/Table/Tests.antt =====
-- The table at concrete alerts.

use threat_lens.Base.{
  List, ◌≡◌, refl, Option, Text, [], codes, false, if◌then◌else◌, includes, none, some, text_eq,
  to_lower, trim, true, ℕ, ◌↔◌, ◌∷◌,
}
use threat_lens.Types.Samples.{legacy_alert, scan_alert}
use threat_lens.Types.Classes.{matches_threat_class, normalize_threat_class}
use threat_lens.Table.Filter.{
  Filters, class_passes, filtered_alerts, in_window, only_high, passes, search_passes,
  severity_passes,
}
use threat_lens.Table.FilterLaws.{passes_iff, IsShown}
use threat_lens.Table.Pause.{Stream, Turn, initial_stream, leave_timed_out, left, row_focus}
use threat_lens.Base.Sets.{member}
use threat_lens.Table.Fresh.{IsTransient, Highlight, initial_highlight}
use threat_lens.Table.Row.{format_ip}

-- A date parser that knows one timestamp, for the tests.
abbrev noon_only : Text → Option ℕ
noon_only t = if text_eq t legacy_alert.timestamp then some 1000000 else none

abbrev scans : Filters
scans = record {
  time_window = some 1004000;
  severity_filter = some only_high;
  selected_class = codes "Reconnaissance Scan";
  min_confidence = 5000;
  search_query = codes " 10.0.0.5 ";
}

program : Unit {0}
unfolding filtered_alerts passes in_window severity_passes class_passes search_passes text_eq
    matches_threat_class normalize_threat_class to_lower trim includes
program = tt

one_scan : filtered_alerts noon_only false scans (legacy_alert ∷ scan_alert ∷ []) ≡ scan_alert ∷ []
unfolding program
one_scan = refl

passes_iff_example : (passes noon_only scans scan_alert ≡ true) ↔ IsShown noon_only scans scan_alert
passes_iff_example = passes_iff noon_only scans scan_alert

abbrev hovered : Stream
hovered = record (initial_stream []) { hovering = true }

-- A row gets the focus, the pointer leaves, and its timeout ends while an alert arrives.
abbrev through_row : List Turn
through_row =
    record { change = row_focus true; live_view = true; drawer = false; alerts = legacy_alert ∷ [] }
    ∷ record { change = left; live_view = true; drawer = false; alerts = legacy_alert ∷ [] }
    ∷ record {
      change = leave_timed_out;
      live_view = true;
      drawer = false;
      alerts = scan_alert ∷ legacy_alert ∷ [];
    }
    ∷ []

abbrev held : Stream
held = record hovered { was_paused = true; snapshot = legacy_alert ∷ [] }

abbrev noted : Highlight
noted = record initial_highlight { known = some [] }

noted-IsTransient : IsTransient noted
unfolding member
noted-IsTransient = record { slides_fresh = λ k p. p; fresh_timed = λ k p. p }

port_apart : format_ip (codes "10.0.0.5:4444") ≡ (codes "10.0.0.5", codes ":4444")
unfolding format_ip
port_apart = refl
