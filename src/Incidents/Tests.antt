-- ===== src/Incidents/Tests.antt =====
-- The incidents panel at concrete addresses and answers.
use threat_lens.Incidents.Rows.{incident_row, suppressed_badge, suppressed_rows}
use threat_lens.Incidents.{Incident, open_suppress_modal}
use threat_lens.Base.{
  some, Text, ℕ, text_eq, ◌≡◌, refl, codes, [], false, includes, none, starts_with, trim, true, ◌∷◌,
}
use threat_lens.Base.Split.{split_parts}
use threat_lens.Incidents.{extract_clean_ip, PanelState, suppressed}
use threat_lens.Incidents.Panel.{confirm}

-- An IPv6 address without `::` is cut at its first colon.
cut_address : extract_clean_ip (codes "2001:db8:1:2:3:4:5:6") ≡ codes "2001"
unfolding extract_clean_ip trim includes starts_with split_parts
cut_address = refl

abbrev asked : PanelState
asked = record {
  incidents = [];
  suppressed_ips = codes "10.0.0.1" ∷ [];
  feedback = none;
  modal_open = true;
  target_ip = codes " 10.0.0.7";
  description = [];
  modal_loading = false;
  modal_error = none;
  is_open = true;
  requests = [];
}

abbrev seen : Incident
seen = record {
  incident_id = codes "i-1";
  source_ip = none;
  first_seen = codes "2026-09-14T12:34:56.000Z";
  last_seen = codes "2026-09-14T12:40:00.000Z";
  threat_classes = codes "Reconnaissance Scan" ∷ [];
  alert_count = 2;
}

abbrev same_text : Text → Text
same_text t = t

abbrev stars : ℕ → Text
stars n = codes "*"

suppressed_rows_example :
    let after = confirm suppressed (open_suppress_modal (codes "10.0.0.7") asked) in
    ((incident_row same_text stars after.suppressed_ips
        (record seen { source_ip = some (codes "10.0.0.7") })).control
      ≡ suppressed_badge)
    × ((incident_row same_text stars after.suppressed_ips
          (record seen { source_ip = some (codes "10.0.0.7") })).struck
        ≡ true)
    × (incident_row same_text stars after.suppressed_ips
          (record seen { source_ip = some (codes "10.0.0.8") })
        ≡ incident_row same_text stars asked.suppressed_ips
            (record seen { source_ip = some (codes "10.0.0.8") }))
unfolding trim text_eq includes starts_with
suppressed_rows_example =
    suppressed_rows same_text stars (codes "10.0.0.7") (codes "10.0.0.8") asked seen refl refl refl
      refl
