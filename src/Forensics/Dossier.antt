-- ===== src/Forensics/Dossier.antt =====
-- frontend/src/components/ForensicDrawer.tsx: what the drawer shows of an alert's evidence, section
-- by section: the labelled values, and the copy buttons by their keys.
-- `to_fixed` is `x.toFixed(digits)`, `show_float` and `print` are how a number is shown, `quotient`
-- is `(a / b).toFixed(digits)`, `is_falsy` holds of the numbers 0 and NaN.
use threat_lens.Base.{
  List, codes, Bool, Option, String, Text, [], false, if◌then◌else◌, leb, max, none, or_default,
  some, true, ℕ, ◌++◌, ◌∷◌,
}
use threat_lens.Types.{Evidence, Float}
use threat_lens.Forensics.{
  EvidenceSection, beaconing, ddos, dns, exfiltration, is_unobserved, malware, metric_text,
  reconnaissance,
}

-- A labelled value, and its unit where one is shown.
pub record Shown : Type 0 where
  pub label : Text
  pub text : Text
  pub unit : Option Text

abbrev pub not_observed : Text
not_observed = codes "— Not observed"

abbrev pub unit_of : (unobserved : Bool) → Text → Option Text
unit_of true unit = none
unit_of false [] = none
unit_of false (c ∷ unit) = some (c ∷ unit)

-- `MetricTile`, without its colour.
abbrev pub metric_tile : String → Option Text → String → Shown
metric_tile label value unit = record {
  label = codes label;
  text = metric_text value;
  unit = unit_of (is_unobserved value) (codes unit);
}

abbrev pub shown : String → Text → String → Shown
shown label text unit = record {
  label = codes label;
  text = text;
  unit = unit_of false (codes unit);
}

-- `renderCopyButton`: the key and the text of a button, none for an empty text.
abbrev pub copy_button : String → Option Text → List (Text × Text)
copy_button key none = []
copy_button key (some []) = []
copy_button key (some (c ∷ text)) = (codes key, c ∷ text) ∷ []

-- A part of the drawer.
pub record Part : Type 0 where
  pub values : List Shown
  pub copies : List (Text × Text)

abbrev pub map_text {ℓ} : {A : Type ℓ} → (A → Text) → Option A → Option Text
map_text f none = none
map_text f (some a) = some (f a)

-- A labelled text that is there only where the evidence has it and it is not empty.
abbrev pub present_text : String → Option Text → List Shown
present_text label none = []
present_text label (some []) = []
present_text label (some (c ∷ text)) = shown label (c ∷ text) "" ∷ []

module _ (to_fixed : (digits : ℕ) → Float → Text) (show_float : Float → Text) (print : ℕ → Text)
    (quotient : (digits a b : ℕ) → Text) (is_falsy : Float → Bool) (stringify_sizes : List ℕ → Text)
    (stringify_times : List Float → Text) where
  -- `formatBytes` of the drawer
  abbrev pub format_size : ℕ → Text
  format_size bytes =
      if leb 1000000 bytes
      then quotient 2 bytes 1000000 ++ codes " MB"
      else if leb 1000 bytes
      then quotient 1 bytes 1000 ++ codes " KB"
      else print bytes ++ codes " B"

  -- `directionalRatio`
  abbrev pub directional_ratio : Option ℕ → Option ℕ → Option Text
  directional_ratio (some inbound) (some outbound) =
      some (codes "1:" ++ quotient 1 outbound (max inbound 1))
  directional_ratio _ _ = none

  -- `evidence.byte_ratio ? … : otherwise`
  abbrev pub asymmetry : Float → (otherwise : Option Text) → Option Text
  asymmetry byte_ratio otherwise =
      if is_falsy byte_ratio then otherwise else some (to_fixed 2 byte_ratio ++ codes "x")

  unfoldable pub ddos_part : Evidence → Part
  unfolding metric_text
  ddos_part e = record {
    values =
        metric_tile "Packets / Second" (map_text (to_fixed 1) e.packets_per_second) "pps"
        ∷ metric_tile "Anomaly Z-Score" (map_text (to_fixed 2) e.z_score) ""
        ∷ metric_tile "Flow Asymmetry Ratio"
            (asymmetry e.byte_ratio (directional_ratio e.inbound_bytes e.outbound_bytes)) ""
        ∷ metric_tile "Observation Window"
            (some (or_default (map_text show_float e.observation_window_seconds) (codes "10"))) "s"
        ∷ metric_tile "Inbound Packets" (map_text print e.packets_in) ""
        ∷ metric_tile "Outbound Packets" (map_text print e.packets_out) ""
        ∷ metric_tile "Inbound Bytes" (map_text format_size e.inbound_bytes) ""
        ∷ metric_tile "Outbound Bytes" (map_text format_size e.outbound_bytes) ""
        ∷ [];
    copies = [];
  }

  unfoldable pub beaconing_part : Evidence → Part
  unfolding metric_text
  beaconing_part e = record {
    values =
        metric_tile "Beacon Period" (map_text (to_fixed 2) e.beacon_period_seconds) "s"
        ∷ metric_tile "IAT Stddev" (map_text (to_fixed 6) e.inter_arrival_stddev) "s"
        ∷ metric_tile "IAT Variance" (some (to_fixed 6 e.inter_arrival_variance)) "s2"
        ∷ metric_tile "FFT Concentration" (map_text (to_fixed 3) e.fft_concentration) ""
        ∷ (present_text "JA3:" e.ja3_hash ++ present_text "JA4:" e.ja4_hash);
    copies = copy_button "c2-ja3" e.ja3_hash ++ copy_button "c2-ja4" e.ja4_hash;
  }

  unfoldable pub dns_part : Evidence → Part
  dns_part e = record {
    values =
        shown "Shannon Entropy" (to_fixed 3 e.shannon_entropy) "bits"
        ∷ shown "N-Gram Score" (or_default (map_text (to_fixed 3) e.ngram_score) not_observed) ""
        ∷ shown "Query Length" (or_default (map_text print e.dns_query_length) not_observed) "chars"
        ∷ shown "Record Type" (or_default e.dns_query_type not_observed) ""
        ∷ shown "QUERY:" (or_default e.dns_query not_observed) ""
        ∷ [];
    copies = copy_button "dns-query" e.dns_query;
  }

  -- The two lines of the packet lengths and times, if either is there.
  abbrev pub splt_lines : Option (List ℕ) → Option (List Float) → List Shown
  splt_lines none none = []
  splt_lines sizes times =
      shown "SPLT sizes:" (stringify_sizes (or_default sizes [])) ""
      ∷ shown "SPLT IAT:" (stringify_times (or_default times [])) ""
      ∷ []

  abbrev pub fft_tile : Option Float → List Shown
  fft_tile none = []
  fft_tile (some x) = metric_tile "FFT Concentration" (some (to_fixed 3 x)) "" ∷ []

  unfoldable pub malware_part : Evidence → Part
  unfolding metric_text
  malware_part e = record {
    values =
        shown "JA3:" (or_default e.ja3_hash not_observed) ""
        ∷ shown "JA4:" (or_default e.ja4_hash not_observed) ""
        ∷ shown "SNI:" (or_default e.sni not_observed) ""
        ∷ (splt_lines e.splt_packet_sizes e.splt_interarrival_times
            ++ fft_tile e.fft_concentration);
    copies =
        copy_button "malware-ja3" e.ja3_hash
        ++ (copy_button "mw-ja3-inline" e.ja3_hash ++ copy_button "mw-ja4-inline" e.ja4_hash);
  }

  unfoldable pub reconnaissance_part : Evidence → Part
  unfolding metric_text
  reconnaissance_part e = record {
    values =
        metric_tile "Fan-Out 10s" (map_text print e.window_10s_fan_out) "targets"
        ∷ metric_tile "Fan-Out 60s" (map_text print e.window_60s_fan_out) "targets"
        ∷ metric_tile "Unique Hosts" (map_text print e.unique_destination_hosts) ""
        ∷ metric_tile "Unique Ports" (map_text print e.unique_destination_ports) ""
        ∷ metric_tile "Source-IP Entropy" (map_text (to_fixed 3) e.source_ip_entropy) ""
        ∷ [];
    copies = [];
  }

  -- The line of the ratio, which has no label of its own in front of it.
  abbrev pub ratio_line : Option Text → List Shown
  ratio_line none = []
  ratio_line (some ratio) = shown "INBOUND : OUTBOUND RATIO =" ratio "" ∷ []

  unfoldable pub exfiltration_part : Evidence → Part
  unfolding metric_text
  exfiltration_part e = record {
    values =
        metric_tile "Flow Asymmetry Ratio" (asymmetry e.byte_ratio none) ""
        ∷ metric_tile "Total Uploaded" (map_text format_size e.total_uploaded_bytes) ""
        ∷ metric_tile "Inbound Bytes" (map_text format_size e.inbound_bytes) ""
        ∷ metric_tile "Outbound Bytes" (map_text format_size e.outbound_bytes) ""
        ∷ ratio_line (directional_ratio e.inbound_bytes e.outbound_bytes);
    copies = [];
  }

  unfoldable pub evidence_part : EvidenceSection → Evidence → Part
  unfolding ddos_part beaconing_part dns_part malware_part reconnaissance_part exfiltration_part
  evidence_part ddos e = ddos_part e
  evidence_part beaconing e = beaconing_part e
  evidence_part dns e = dns_part e
  evidence_part malware e = malware_part e
  evidence_part reconnaissance e = reconnaissance_part e
  evidence_part exfiltration e = exfiltration_part e
