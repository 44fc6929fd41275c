-- ===== src/Forensics/Visibility.antt =====
-- The evidence that the drawer shows for an alert of one of the six classes.
use threat_lens.Base.{◌≡◌, refl, some}
use threat_lens.Types.{
  ThreatClassEnum, botnet_c2, class_value, data_exfil, dga_dns, encrypted_malware, recon_scan,
  volumetric_dos,
}
use threat_lens.Types.ClassLaws.{matches_class_iff}
use threat_lens.Forensics.{
  EvidenceSection, beaconing, ddos, dns, exfiltration, get_evidence_visibility, malware,
  reconnaissance,
}

abbrev pub section_of : ThreatClassEnum → EvidenceSection
section_of volumetric_dos = ddos
section_of botnet_c2 = beaconing
section_of dga_dns = dns
section_of encrypted_malware = malware
section_of recon_scan = reconnaissance
section_of data_exfil = exfiltration

-- An alert of one of the six classes shows the evidence of its own class, although the tests before
-- that compare by aliases and by inclusion.
pub visibility-class :
    (c : ThreatClassEnum) → get_evidence_visibility (class_value c) ≡ some (section_of c)
unfolding get_evidence_visibility
visibility-class volumetric_dos = rw (matches_class_iff volumetric_dos volumetric_dos) refl
visibility-class botnet_c2 =
    rw (matches_class_iff botnet_c2 volumetric_dos, matches_class_iff botnet_c2 botnet_c2) refl
visibility-class dga_dns =
    rw
      (
        matches_class_iff dga_dns volumetric_dos,
        matches_class_iff dga_dns botnet_c2,
        matches_class_iff dga_dns dga_dns,
      )
      refl
visibility-class encrypted_malware =
    rw
      (
        matches_class_iff encrypted_malware volumetric_dos,
        matches_class_iff encrypted_malware botnet_c2,
        matches_class_iff encrypted_malware dga_dns,
        matches_class_iff encrypted_malware encrypted_malware,
      )
      refl
visibility-class recon_scan =
    rw
      (
        matches_class_iff recon_scan volumetric_dos,
        matches_class_iff recon_scan botnet_c2,
        matches_class_iff recon_scan dga_dns,
        matches_class_iff recon_scan encrypted_malware,
        matches_class_iff recon_scan recon_scan,
      )
      refl
visibility-class data_exfil =
    rw
      (
        matches_class_iff data_exfil volumetric_dos,
        matches_class_iff data_exfil botnet_c2,
        matches_class_iff data_exfil dga_dns,
        matches_class_iff data_exfil encrypted_malware,
        matches_class_iff data_exfil recon_scan,
        matches_class_iff data_exfil data_exfil,
      )
      refl
