-- ===== src/Types/ClassLaws.antt =====
-- Matching of threat classes: the selector picks out exactly the alerts of its class.
use threat_lens.Base.{
  ◌≡◌, refl, Bool, true, false, ◌||◌, List, [], ◌∷◌, arith, Text, text_eq, includes, any, All,
  Bool-cases, inl, inr, lookup_text, or_default,
}
use threat_lens.Base.StringLaws.{includes_nil}
use threat_lens.Types.{
  ThreatClassEnum, volumetric_dos, botnet_c2, dga_dns, encrypted_malware, recon_scan, data_exfil,
  class_value,
}
use threat_lens.Types.Classes.{Raw, str, matches_threat_class, canonical, class_match, aliases}

abbrev pub class_eq : ThreatClassEnum → ThreatClassEnum → Bool
class_eq volumetric_dos volumetric_dos = true
class_eq botnet_c2 botnet_c2 = true
class_eq dga_dns dga_dns = true
class_eq encrypted_malware encrypted_malware = true
class_eq recon_scan recon_scan = true
class_eq data_exfil data_exfil = true
class_eq _ _ = false

-- For the six classes, the filter accepts an alert exactly when the alert's class is the selected
-- one, although it compares by aliases and by inclusion in both directions.
pub matches_class_iff :
    (c d : ThreatClassEnum)
    → matches_threat_class (str (class_value c)) (class_value d) ≡ class_eq c d
unfolding matches_threat_class class_value
matches_class_iff volumetric_dos volumetric_dos = refl
matches_class_iff volumetric_dos d = refl
matches_class_iff botnet_c2 volumetric_dos = refl
matches_class_iff botnet_c2 d = refl
matches_class_iff dga_dns volumetric_dos = refl
matches_class_iff dga_dns d = refl
matches_class_iff encrypted_malware volumetric_dos = refl
matches_class_iff encrypted_malware d = refl
matches_class_iff recon_scan volumetric_dos = refl
matches_class_iff recon_scan d = refl
matches_class_iff data_exfil volumetric_dos = refl
matches_class_iff data_exfil d = refl

any_of_lookup :
    (p : Text → Bool) (t : Text) (m : List (Text × List Text))
    → All (λ e. any p e.1 ≡ true) m
    → p t ≡ true
    → any p (or_default (lookup_text t m) (t ∷ [])) ≡ true
any_of_lookup p t [] h q = ground arith
any_of_lookup p t ((j, v) ∷ m) h q = ground (arith, any_of_lookup p t m h.1 q)

class_match-nil : (target : Text) → class_match [] target ≡ true
unfolding class_match
class_match-nil target = elim (Bool-cases (text_eq [] target)) [
  | inl e ↦ rw e
  | inr e ↦ rw e (
      any_of_lookup (λ alias. includes [] alias || includes alias []) target aliases
        (refl, (refl, (refl, (refl, (refl, (refl, tt)))))) (ground (arith, includes_nil target)))
]

-- A class that reads as blank passes the filter whatever class is selected, since every alias
-- includes the empty text.
pub matches-blank :
    (raw : Raw) (selected : Text) → canonical raw ≡ [] → matches_threat_class raw selected ≡ true
unfolding matches_threat_class
matches-blank raw selected h = rw h (ground (arith, class_match-nil (canonical (str selected))))
