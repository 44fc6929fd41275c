-- ===== src/Types.antt =====
-- frontend/src/types/threat.ts: the data contracts, and the canonical identity of an alert.
-- `null`, `undefined` and a missing field are `none`: the source tests them together. A number is
-- a natural number in the unit of its field (a confidence in ten-thousandths, which is the
-- precision that the detectors round to; times in milliseconds). A number that the dashboard only
-- tests for presence and may be fractional or negative is a `Float`, its 64-bit pattern.
pub mod Classes
pub mod ClassLaws
pub mod Identity
pub mod Samples
mod Tests
use threat_lens.Base.{ℕ, Bool, List, [], ◌∷◌, ◌++◌, Option, none, some, Text, codes, String}

pub data ThreatClassEnum : Type 0 where
  volumetric_dos botnet_c2 dga_dns encrypted_malware recon_scan data_exfil : ThreatClassEnum

unfoldable pub class_value : ThreatClassEnum → Text
class_value volumetric_dos = codes "Volumetric & Protocol DDoS"
class_value botnet_c2 = codes "Botnet C2 Beaconing"
class_value dga_dns = codes "DGA & DNS Tunneling"
class_value encrypted_malware = codes "Encrypted Malware"
class_value recon_scan = codes "Reconnaissance Scan"
class_value data_exfil = codes "Data Exfiltration"

-- `Object.values(ThreatClassEnum)`
abbrev pub all_classes : List ThreatClassEnum
all_classes =
    volumetric_dos ∷ botnet_c2 ∷ dga_dns ∷ encrypted_malware ∷ recon_scan ∷ data_exfil ∷ []

pub data SeverityLevel : Type 0 where
  critical high moderate low : SeverityLevel

abbrev pub severity_value : SeverityLevel → Text
severity_value critical = codes "critical"
severity_value high = codes "high"
severity_value moderate = codes "moderate"
severity_value low = codes "low"

pub data AlertStatus : Type 0 where
  new acknowledged investigating resolved false_positive : AlertStatus

pub record Float : Type 0 where
  pub bits : ℕ

pub record Evidence : Type 0 where
  pub inter_arrival_variance : Float
  pub shannon_entropy : Float
  pub byte_ratio : Float
  pub fan_out_count : ℕ
  pub ja3_hash : Option Text
  pub ja4_hash : Option Text
  pub sni : Option Text
  pub splt_packet_sizes : Option (List ℕ)
  pub splt_interarrival_times : Option (List Float)
  pub fft_concentration : Option Float
  pub beacon_period_seconds : Option Float
  pub inter_arrival_stddev : Option Float
  pub dns_query : Option Text
  pub dns_query_length : Option ℕ
  pub dns_query_type : Option Text
  pub ngram_score : Option Float
  pub packets_per_second : Option Float
  pub z_score : Option Float
  pub source_ip_entropy : Option Float
  pub unique_destination_hosts : Option ℕ
  pub unique_destination_ports : Option ℕ
  pub window_10s_fan_out : Option ℕ
  pub window_60s_fan_out : Option ℕ
  pub unique_source_count : Option ℕ
  pub total_uploaded_bytes : Option ℕ
  pub detectors_fired : Option (List Text)
  pub detector_count : Option ℕ
  pub confidence_basis : Option Text
  pub details : Text
  pub packets_in : Option ℕ
  pub packets_out : Option ℕ
  pub inbound_connections : Option ℕ
  pub outbound_connections : Option ℕ
  pub port_connections : Option ℕ
  pub inbound_bytes : Option ℕ
  pub outbound_bytes : Option ℕ
  pub source_ip : Option Text
  pub source_port : Option ℕ
  pub destination_ip : Option Text
  pub destination_port : Option ℕ
  pub protocol : Option Text
  pub observation_window_seconds : Option Float

pub data AlertSource : Type 0 where
  live replay : AlertSource

pub record Alert : Type 0 where
  pub timestamp : Text
  pub alert_id : Option Text
  pub flow_id : Text
  pub source_ip : Option Text
  pub source_port : Option ℕ
  pub destination_ip : Option Text
  pub destination_port : Option ℕ
  pub protocol : Option Text
  pub threat_class : Text
  pub confidence_score : ℕ
  pub severity : SeverityLevel
  pub status : AlertStatus
  pub incident_id : Option Text
  pub suppressed : Bool
  pub suppression_rule_id : Option Text
  pub source : AlertSource
  pub ingest_latency_ms : Option ℕ
  pub processing_latency_ms : Option ℕ
  pub evidence : Evidence

pub record AnalystNote : Type 0 where
  pub flow_id : Text
  pub text : Text
  pub created_at : Text

pub data RuleType : Type 0 where
  source_ip destination_ip source_ip_threat_class : RuleType

pub record SuppressionRule : Type 0 where
  pub id : Text
  pub rule_type : RuleType
  pub description : Option Text
  pub source_ip : Option Text
  pub destination_ip : Option Text
  pub threat_class : Option Text
  pub enabled : Bool
  pub created_at : Text
  pub updated_at : Text
  pub expires_at : Option Text

pub record SuppressionRuleCreate : Type 0 where
  pub rule_type : RuleType
  pub description : Option Text
  pub source_ip : Option Text
  pub destination_ip : Option Text
  pub threat_class : Option Text
  pub enabled : Bool
  pub expires_at : Option Text

-- `alert.alert_id ?? `${flow_id}|${timestamp}|${threat_class}``: an empty `alert_id` counts.
abbrev pub legacy_identity : Alert → Text
legacy_identity alert =
    alert.flow_id ++ (codes "|" ++ (alert.timestamp ++ (codes "|" ++ alert.threat_class)))

unfoldable pub get_alert_identity : Alert → Text
get_alert_identity alert = elim alert.alert_id [ some id ↦ id | none ↦ legacy_identity alert ]
