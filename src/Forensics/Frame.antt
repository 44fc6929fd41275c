-- ===== src/Forensics/Frame.antt =====
-- frontend/src/components/ForensicDrawer.tsx: the parts of the drawer that every alert has, and the
-- drawer as a whole. Confidence is in ten-thousandths and latencies in thousandths of a millisecond;
-- `cents` is `toFixed(2)` of a number of hundredths that is read off such a number.
use threat_lens.Base.{
  List, codes, Option, String, Text, [], if◌then◌else◌, ltb, map, none, or_default, some, text_or,
  to_upper, ℕ, ◌++◌, ◌+◌, ◌/◌, ◌∷◌,
}
use threat_lens.Types.{
  Alert, Evidence, SeverityLevel, severity_value, critical, high, low, moderate,
}
use threat_lens.Forensics.{
  EvidenceSection, LatencyState, degraded, detector_count, detectors_fired, elevated,
  get_evidence_visibility, get_latency_state, own_address, unavailable, within_normal,
}
use threat_lens.Forensics.Dossier.{Part, Shown, copy_button, map_text, not_observed, shown}

abbrev pub dash : Text
dash = codes "—"

-- `{ip ?? "—"}:{port ?? "—"}`
abbrev pub endpoint : (print : ℕ → Text) → Option Text → Option ℕ → Text
endpoint print ip port = or_default ip dash ++ (b':' ∷ or_default (map_text print port) dash)

abbrev pub own_port : Option ℕ → Option ℕ → Option ℕ
own_port none evidence = evidence
own_port (some own) evidence = some own

abbrev pub header_part : Alert → Part
header_part a = record {
  values = shown "INCIDENT ID:" a.flow_id "" ∷ [];
  copies = copy_button "flow-id" (some a.flow_id);
}

unfoldable pub identifiers_part : (print : ℕ → Text) → Alert → Part
identifiers_part print a = record {
  values =
      shown "SOURCE"
        (endpoint print (own_address a.source_ip a.evidence.source_ip)
          (own_port a.source_port a.evidence.source_port))
        ""
      ∷ shown "DESTINATION"
          (endpoint print (own_address a.destination_ip a.evidence.destination_ip)
            (own_port a.destination_port a.evidence.destination_port))
          ""
      ∷ shown "PROTOCOL" (or_default (own_address a.protocol a.evidence.protocol) dash) ""
      ∷ [];
  copies =
      copy_button "src-ip" (own_address a.source_ip a.evidence.source_ip)
      ++ copy_button "dest-ip" (own_address a.destination_ip a.evidence.destination_ip);
}

-- `getSeverityBadge`: the variant of the badge; `percent` is `Math.round(score * 100)`, half up.
pub data BadgeVariant : Type 0 where
  critical_badge : BadgeVariant
  high_badge : BadgeVariant
  medium_badge : BadgeVariant
  low_badge : BadgeVariant

abbrev pub badge_variant : SeverityLevel → BadgeVariant
badge_variant critical = critical_badge
badge_variant high = high_badge
badge_variant moderate = medium_badge
badge_variant low = low_badge

abbrev pub percent : ℕ → ℕ
percent score = (score + 50) / 100

-- The classified threat: the count of detectors, the text of the badge, the class and the details.
unfoldable pub summary_part : (print : ℕ → Text) → Alert → Part
unfolding detector_count to_upper
summary_part print a = record {
  values =
      shown ""
        (codes "("
          ++ (print (detector_count a.evidence.detector_count a.evidence.detectors_fired)
              ++ codes " of 6 detectors triggered)"))
        ""
      ∷ shown ""
          (to_upper (severity_value a.severity)
            ++ (codes " (" ++ (print (percent a.confidence_score) ++ codes "%)")))
          ""
      ∷ shown "Classified Threat" a.threat_class ""
      ∷ shown "" (text_or a.evidence.details not_observed) ""
      ∷ [];
  copies = [];
}

unfoldable pub confidence_part : (score_text : ℕ → Text) → (print : ℕ → Text) → Alert → Part
unfolding detector_count detectors_fired
confidence_part score_text print a =
    let count = detector_count a.evidence.detector_count a.evidence.detectors_fired in
    record {
      values =
          shown "NORMALIZED SCORE" (score_text a.confidence_score ++ codes " / 1.00") ""
          ∷ shown "DETECTORS FIRED" (print count) ""
          ∷ shown "CORROBORATION" (if ltb 1 count then codes "YES" else codes "NONE") ""
          ∷ shown ""
              (or_default a.evidence.confidence_basis
                (codes "Confidence basis metadata unavailable for this alert."))
              ""
          ∷ map (λ d. shown "" d "") (detectors_fired a.evidence.detectors_fired a.threat_class);
      copies = [];
    }

abbrev pub latency_label : LatencyState → Text
latency_label unavailable = codes "UNAVAILABLE"
latency_label within_normal = codes "WITHIN NORMAL"
latency_label elevated = codes "ELEVATED"
latency_label degraded = codes "DEGRADED"

-- A latency, and its class as the unit behind it.
unfoldable pub latency_line : (latency_text : ℕ → Text) → String → Option ℕ → Shown
unfolding get_latency_state
latency_line latency_text label value = record {
  label = codes label;
  text = or_default (map_text (λ v. latency_text v ++ codes " ms") value) dash;
  unit = some (latency_label (get_latency_state value));
}

unfoldable pub latency_part :
    (format_timestamp : Text → Text) → (latency_text : ℕ → Text) → Alert → Part
unfolding latency_line
latency_part format_timestamp latency_text a = record {
  values =
      shown "TIMESTAMP (UTC):" (format_timestamp a.timestamp) ""
      ∷ latency_line latency_text "PROCESSING:" a.processing_latency_ms
      ∷ latency_line latency_text "INGEST:" a.ingest_latency_ms
      ∷ [];
  copies = [];
}

-- The raw alert, as `JSON.stringify` prints it.
abbrev pub raw_part : (stringify : Alert → Text) → Alert → Part
raw_part stringify a = record {
  values = shown "" (stringify a) "" ∷ [];
  copies = copy_button "raw-json" (some (stringify a));
}

-- The drawer of an alert: the parts around the evidence, which is that of its class, if any.
abbrev pub section_parts :
    (EvidenceSection → Evidence → Part) → Option EvidenceSection → Evidence → List Part
section_parts part none e = []
section_parts part (some section) e = part section e ∷ []

module _ (part : EvidenceSection → Evidence → Part) (score_text latency_text print : ℕ → Text)
    (format_timestamp : Text → Text) (stringify : Alert → Text) where
  unfoldable pub dossier : Alert → List Part
  unfolding get_evidence_visibility summary_part identifiers_part confidence_part latency_part
  dossier a =
      header_part a
      ∷ summary_part print a
      ∷ identifiers_part print a
      ∷ (section_parts part (get_evidence_visibility a.threat_class) a.evidence
          ++ (confidence_part score_text print a
              ∷ latency_part format_timestamp latency_text a
              ∷ raw_part stringify a
              ∷ []))
