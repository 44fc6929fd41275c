-- ===== src/Dashboard/Tests.antt =====
-- The dashboard at concrete alerts.
use threat_lens.Base.{
  true, ◌≡◌, refl, List, [], arith, codes, false, length, none, some, text_eq, ◌∷◌, ◌≤◌,
}
use threat_lens.Types.{Alert}
use threat_lens.Types.Samples.{legacy_alert, scan_alert}
use threat_lens.Table.Filter.{filtered_alerts, only_critical, only_high}
use threat_lens.Dashboard.{critical_count, archive_mode, high_count}
use threat_lens.Dashboard.TopVector.{top_vector_entry, occurrences}
use threat_lens.Dashboard.Dominant.{top_vector_entry-max}
use threat_lens.Dashboard.Archive.{Archive, archive_answered, archive_effect, archive_stale}
use threat_lens.Dashboard.{View, live_mode}
use threat_lens.App.{passed_alerts}
use threat_lens.Table.Pause.{displayed, initial_stream, is_paused}
use threat_lens.Dashboard.Counts.{severity_cards, by_severity}

abbrev three : List Alert
three = scan_alert ∷ legacy_alert ∷ scan_alert ∷ []

scans_lead : top_vector_entry three ≡ some (codes "Reconnaissance Scan", 2)
unfolding top_vector_entry text_eq
scans_lead = refl

top_vector_entry-max_example :
    (2 ≡ occurrences (codes "Reconnaissance Scan") three)
    × (occurrences (codes "Volumetric & Protocol DDoS") three
        ≤ occurrences (codes "Reconnaissance Scan") three)
top_vector_entry-max_example =
    top_vector_entry-max three (codes "Reconnaissance Scan") 2 (codes "Volumetric & Protocol DDoS")
      scans_lead

abbrev live_view : View
live_view = record {
  mode = live_mode;
  archive_alerts = [];
  archive_page = 0;
  archive_has_next = false;
  severity_filter = none;
  traffic_window = none;
}

severity_cards_example :
    let rows =
      displayed
        (is_paused true false (initial_stream three))
        (passed_alerts none live_view three)
        (initial_stream three) in
    (length (filtered_alerts (λ t. none) false (by_severity only_critical) rows)
      ≡ critical_count three)
    × (length (filtered_alerts (λ t. none) false (by_severity only_high) rows) ≡ high_count three)
unfolding is_paused
severity_cards_example =
    severity_cards (λ t. none) live_view false three (initial_stream three) refl

abbrev asked : Archive
asked = record { alerts = []; has_next = false; pending = some 3; next_request = 4 }

archive_stale_example :
    archive_answered 3 (some three) (archive_effect archive_mode none asked)
    ≡ archive_effect archive_mode none asked
archive_stale_example = archive_stale archive_mode none 3 (some three) asked (omega arith)
