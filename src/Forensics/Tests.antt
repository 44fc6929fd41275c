-- ===== src/Forensics/Tests.antt =====
-- The drawer at a concrete class.
use threat_lens.Types.{Float}
use threat_lens.Types.Samples.{scan_alert}
use threat_lens.Forensics.Frame.{dossier}
use threat_lens.Forensics.Copies.{AllCopied, dossier-AllCopied, part_of}
use threat_lens.Base.{ℕ, Text, codes, false, ◌≡◌, some, [], refl}
use threat_lens.Types.Classes.{str}
use threat_lens.Types.{class_value, volumetric_dos}
use threat_lens.Types.ClassLaws.{matches-blank}
use threat_lens.Forensics.{get_evidence_visibility, ddos}

-- An alert without a class shows the evidence of a denial of service.
blank_class : get_evidence_visibility [] ≡ some ddos
unfolding get_evidence_visibility
blank_class = rw (matches-blank (str []) (class_value volumetric_dos) refl) refl

-- How values are shown, for the tests.
abbrev float_text : Float → Text
float_text x = codes "1.5"

abbrev number_text : ℕ → Text
number_text n = codes "7"

dossier-AllCopied_example : AllCopied (
    dossier
      (part_of
        (λ digits. float_text)
        float_text
        number_text
        (λ digits a b. codes "2.0")
        (λ x. false)
        (λ sizes. codes "[60]")
        (λ times. codes "[0.1]"))
      number_text
      number_text
      number_text
      (λ t. t)
      (λ a. a.flow_id)
      scan_alert)
dossier-AllCopied_example =
    dossier-AllCopied (λ digits. float_text) float_text number_text (λ digits a b. codes "2.0")
      (λ x. false) (λ sizes. codes "[60]") (λ times. codes "[0.1]") number_text number_text (λ t. t)
      (λ a. a.flow_id) scan_alert
