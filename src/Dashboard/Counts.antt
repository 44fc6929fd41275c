-- ===== src/Dashboard/Counts.antt =====
-- The severity cards of the dashboard against the table that they filter.
use threat_lens.Base.{
  ◌≡◌, refl, Bool, List, Option, Text, [], ap, arith, codes, false, filter, length, none, some,
  text_eq, to_lower, trim, true, ℕ, ◌∷◌,
}
use threat_lens.Types.{Alert, SeverityLevel, critical, high, severity_value}
use threat_lens.Table.Filter.{
  Filters, SeverityFilter, all_vectors, class_passes, filtered_alerts, in_window, only_critical,
  only_high, passes, search_passes, severity_passes,
}
use threat_lens.Table.Pause.{Stream, displayed, is_paused}
use threat_lens.Dashboard.{View, critical_count, high_count, is_critical, is_high, live_mode}
use threat_lens.App.{passed_alerts}

-- The filters of the table with a severity alone.
abbrev pub by_severity : SeverityFilter → Filters
by_severity f = record {
  time_window = none;
  severity_filter = some f;
  selected_class = all_vectors;
  min_confidence = 0;
  search_query = [];
}

severity_text :
    (s : SeverityLevel)
    → (text_eq (to_lower (severity_value s)) (codes "critical")
        ≡ (elim s [ critical ↦ true | _ ↦ false ]))
      × (text_eq (to_lower (severity_value s)) (codes "high")
          ≡ (elim s [ high ↦ true | _ ↦ false ]))
unfolding text_eq to_lower
severity_text critical = (refl, refl)
severity_text s = (refl, refl)

filter-cong :
    (p q : Alert → Bool) (xs : List Alert) → ((x : Alert) → p x ≡ q x) → filter p xs ≡ filter q xs
filter-cong p q [] h = refl
filter-cong p q (x ∷ xs) h = rw (h x, filter-cong p q xs h)

critical_row :
    (parse_date : Text → Option ℕ) (a : Alert)
    → passes parse_date (by_severity only_critical) a ≡ is_critical a
unfolding passes in_window severity_passes class_passes search_passes text_eq trim
critical_row parse_date a = rw (severity_text a.severity).0 (ground arith)

high_row :
    (parse_date : Text → Option ℕ) (a : Alert)
    → passes parse_date (by_severity only_high) a ≡ is_high a
unfolding passes in_window severity_passes class_passes search_passes text_eq trim
high_row parse_date a = rw (severity_text a.severity).1 (ground arith)

-- The numbers on the two severity cards, which count the live buffer, are the numbers of rows that a
-- live table which is not paused shows when the card is the only filter. In the archive and while
-- the table is paused they count other alerts than it shows.
pub severity_cards :
    (parse_date : Text → Option ℕ) (v : View) (drawer : Bool) (alerts : List Alert) (s : Stream)
    → is_paused true drawer s ≡ false
    → let rows =
        displayed
          (is_paused true drawer s)
          (passed_alerts none (record v { mode = live_mode }) alerts)
          s in
      (length (filtered_alerts parse_date false (by_severity only_critical) rows)
        ≡ critical_count alerts)
      × (length (filtered_alerts parse_date false (by_severity only_high) rows) ≡ high_count alerts)
unfolding filtered_alerts critical_count high_count passed_alerts displayed
severity_cards parse_date v drawer alerts s running = rw running (
  ap length (filter-cong _ _ alerts (critical_row parse_date)),
  ap length (filter-cong _ _ alerts (high_row parse_date)),
)
