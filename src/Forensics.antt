-- ===== src/Forensics.antt =====
-- frontend/src/components/ForensicDrawer.tsx: which evidence an alert shows, how values and
-- latencies are shown, the analyst's notes and copying.
use threat_lens.Base.{
  ◌≡◌, List, arith, codes, Bool, Option, Text, [], if◌then◌else◌, leb, length, none, or_default,
  some, text_eq, true, ℕ, ◌||◌, ◌∷◌,
}
use threat_lens.Types.{
  Alert, ThreatClassEnum, botnet_c2, class_value, data_exfil, dga_dns, encrypted_malware,
  recon_scan, volumetric_dos,
}
use threat_lens.Types.Classes.{matches_threat_class, str}
pub mod Dossier
pub mod Frame
pub mod Copies
pub mod Notes
pub mod Visibility
mod Tests

-- The one key of `EvidenceVisibility` that is set.
pub data EvidenceSection : Type 0 where
  ddos : EvidenceSection
  beaconing : EvidenceSection
  dns : EvidenceSection
  malware : EvidenceSection
  reconnaissance : EvidenceSection
  exfiltration : EvidenceSection

abbrev pub matches : Text → ThreatClassEnum → Bool
matches raw c = matches_threat_class (str raw) (class_value c)

-- `getEvidenceVisibility`
unfoldable pub get_evidence_visibility : Text → Option EvidenceSection
unfolding matches_threat_class
get_evidence_visibility raw =
    if matches raw volumetric_dos
    then some ddos
    else if matches raw botnet_c2
    then some beaconing
    else if matches raw dga_dns
    then some dns
    else if matches raw encrypted_malware
    then some malware
    else if matches raw recon_scan
    then some reconnaissance
    else if matches raw data_exfil
    then some exfiltration
    else none

-- The text of a `MetricTile`, `none` for a value that is null or undefined.
abbrev pub is_unobserved : Option Text → Bool
is_unobserved none = true
is_unobserved (some value) =
    text_eq value (codes "UNAVAILABLE") || text_eq value (codes "NOT CAPTURED") || text_eq value []

unfoldable pub metric_text : Option Text → Text
unfolding text_eq
metric_text value = if is_unobserved value then codes "— Not observed" else or_default value []

pub data LatencyState : Type 0 where
  unavailable : LatencyState
  within_normal : LatencyState
  elevated : LatencyState
  degraded : LatencyState

-- `getLatencyState`, of a latency in thousandths of a millisecond.
unfoldable pub get_latency_state : Option ℕ → LatencyState
get_latency_state none = unavailable
get_latency_state (some value) =
    if leb value 10000 then within_normal else if leb value 100000 then elevated else degraded

-- `detectorCount`
abbrev pub fired_count : Option (List Text) → ℕ
fired_count none = 1
fired_count (some fired) = length fired

unfoldable pub detector_count : Option ℕ → Option (List Text) → ℕ
detector_count count fired = or_default count (fired_count fired)

-- `detectorsFired`
unfoldable pub detectors_fired : Option (List Text) → (threat_class : Text) → List Text
detectors_fired none threat_class = threat_class ∷ []
detectors_fired (some []) threat_class = threat_class ∷ []
detectors_fired (some (d ∷ ds)) threat_class = d ∷ ds

-- `alert.source_ip ?? evidence.source_ip`
abbrev pub own_address : Option Text → Option Text → Option Text
own_address none evidence = evidence
own_address (some own) evidence = some own
