-- ===== src/Types/Samples.antt =====
-- Alerts on which the tests of the other modules run.
use threat_lens.Base.{codes, [], false, none, some}
use threat_lens.Types.{Alert, Evidence, Float, critical, high, live, new}

abbrev pub no_float : Float
no_float = record { bits = 0 }

abbrev pub bare_evidence : Evidence
bare_evidence = record {
  inter_arrival_variance = no_float;
  shannon_entropy = no_float;
  byte_ratio = no_float;
  fan_out_count = 0;
  ja3_hash = none;
  ja4_hash = none;
  sni = none;
  splt_packet_sizes = none;
  splt_interarrival_times = none;
  fft_concentration = none;
  beacon_period_seconds = none;
  inter_arrival_stddev = none;
  dns_query = none;
  dns_query_length = none;
  dns_query_type = none;
  ngram_score = none;
  packets_per_second = none;
  z_score = none;
  source_ip_entropy = none;
  unique_destination_hosts = none;
  unique_destination_ports = none;
  window_10s_fan_out = none;
  window_60s_fan_out = none;
  unique_source_count = none;
  total_uploaded_bytes = none;
  detectors_fired = none;
  detector_count = none;
  confidence_basis = none;
  details = [];
  packets_in = none;
  packets_out = none;
  inbound_connections = none;
  outbound_connections = none;
  port_connections = none;
  inbound_bytes = none;
  outbound_bytes = none;
  source_ip = none;
  source_port = none;
  destination_ip = none;
  destination_port = none;
  protocol = none;
  observation_window_seconds = none;
}

abbrev pub legacy_alert : Alert
legacy_alert = record {
  timestamp = codes "2026-09-14T12:34:56Z";
  alert_id = none;
  flow_id = codes "10.0.0.5:4444->10.0.0.9:80";
  source_ip = some (codes "10.0.0.5");
  source_port = some 4444;
  destination_ip = some (codes "10.0.0.9");
  destination_port = some 80;
  protocol = some (codes "TCP");
  threat_class = codes "Volumetric & Protocol DDoS";
  confidence_score = 9400;
  severity = critical;
  status = new;
  incident_id = none;
  suppressed = false;
  suppression_rule_id = none;
  source = live;
  ingest_latency_ms = none;
  processing_latency_ms = some 12;
  evidence = bare_evidence;
}

-- The same flow, seen by another detector; it has a server-generated identity.
abbrev pub syn_flood : Alert
syn_flood = record legacy_alert { alert_id = some (codes "a-1") }

abbrev pub scan_alert : Alert
scan_alert = record legacy_alert {
  threat_class = codes "Reconnaissance Scan";
  severity = high;
  confidence_score = 7000;
}
