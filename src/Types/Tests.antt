-- ===== src/Types/Tests.antt =====
-- The theorems on alerts and classes at concrete values.
use threat_lens.Base.{◌≡◌, refl, arith, codes, false, true, ◌↔◌}
use threat_lens.Types.{botnet_c2, class_value, dga_dns, get_alert_identity, recon_scan}
use threat_lens.Types.Samples.{legacy_alert, scan_alert}
use threat_lens.Types.Classes.{str, matches_threat_class, get_short_threat_name}
use threat_lens.Types.ClassLaws.{matches_class_iff}
use threat_lens.Types.Identity.{identity-eq_iff}

identity-eq_iff_example : (get_alert_identity legacy_alert ≡ get_alert_identity scan_alert) ↔ (
    (legacy_alert.flow_id ≡ scan_alert.flow_id)
    × (legacy_alert.timestamp ≡ scan_alert.timestamp)
    × (legacy_alert.threat_class ≡ scan_alert.threat_class))
identity-eq_iff_example =
    identity-eq_iff legacy_alert scan_alert refl refl (omega arith) (omega arith) (omega arith)
      (omega arith)

matches_class_iff_example :
    matches_threat_class (str (class_value dga_dns)) (class_value botnet_c2) ≡ false
matches_class_iff_example = matches_class_iff dga_dns botnet_c2

by_alias : matches_threat_class (str (codes "recon_scan")) (class_value recon_scan) ≡ true
unfolding matches_threat_class class_value
by_alias = refl

short_name : get_short_threat_name (codes "DGA & DNS Tunneling") ≡ codes "DGA / DNS"
unfolding get_short_threat_name
short_name = refl
