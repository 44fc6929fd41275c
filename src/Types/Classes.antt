-- ===== src/Types/Classes.antt =====
-- frontend/src/types/threat.ts: normalizeThreatClass, matchesThreatClass; and
-- frontend/src/lib/threatMapping.ts: the short display names.
use threat_lens.Base.{
  Bool, true, ◌||◌, List, [], ◌∷◌, Option, none, some, Text, codes, text_eq, includes, to_lower,
  trim, any, if◌then◌else◌, text_or, lookup_text, or_default,
}

-- What the code can meet behind `raw: any`. `printed` is what `String(raw)` gives. A field of an
-- object is `none` where it is missing or no string. `falsy` is null, undefined, false, 0 and NaN.
pub data Raw : Type 0 where
  falsy : Raw
  str : Text → Raw
  object : (value name threat_class : Option Text) (printed : Text) → Raw
  scalar : (printed : Text) → Raw

abbrev first_string : List (Option Text) → Text → Text
first_string [] d = d
first_string (none ∷ xs) d = first_string xs d
first_string (some s ∷ xs) d = s

unfoldable pub normalize_threat_class : Raw → Text
normalize_threat_class falsy = []
normalize_threat_class (str s) = s
normalize_threat_class (object value name threat_class printed) =
    first_string (value ∷ name ∷ threat_class ∷ []) printed
normalize_threat_class (scalar printed) = printed

-- The table `aliases`, in the order of the source.
abbrev pub aliases : List (Text × List Text)
aliases =
    (
      codes "volumetric & protocol ddos",
      codes "volumetric & protocol ddos"
          ∷ codes "volumetric_dos"
          ∷ codes "protocol dos"
          ∷ codes "syn flood"
          ∷ codes "ddos"
          ∷ codes "dos"
          ∷ [],
    )
    ∷ (
      codes "botnet c2 beaconing",
      codes "botnet c2 beaconing"
          ∷ codes "botnet_c2"
          ∷ codes "c2 beaconing"
          ∷ codes "botnet c2"
          ∷ codes "beaconing"
          ∷ [],
    )
    ∷ (
      codes "dga & dns tunneling",
      codes "dga & dns tunneling" ∷ codes "dga_dns" ∷ codes "dns tunneling" ∷ codes "dga" ∷ [],
    )
    ∷ (
      codes "encrypted malware",
      codes "encrypted malware" ∷ codes "encrypted_malware" ∷ codes "malware" ∷ [],
    )
    ∷ (
      codes "reconnaissance scan",
      codes "reconnaissance scan"
          ∷ codes "recon_scan"
          ∷ codes "recon sweep"
          ∷ codes "port scan"
          ∷ codes "subnet sweep"
          ∷ codes "reconnaissance"
          ∷ [],
    )
    ∷ (
      codes "data exfiltration",
      codes "data exfiltration" ∷ codes "data_exfil" ∷ codes "exfiltration" ∷ codes "exfil" ∷ [],
    )
    ∷ []

unfoldable pub target_aliases : Text → List Text
unfolding text_eq
target_aliases target = or_default (lookup_text target aliases) (target ∷ [])

-- The comparison of two normalised class names.
unfoldable pub class_match : Text → Text → Bool
unfolding text_eq includes target_aliases
class_match alert target =
    if text_eq alert target
    then true
    else any (λ alias. includes alert alias || includes alias alert) (target_aliases target)

unfoldable pub canonical : Raw → Text
unfolding normalize_threat_class to_lower trim
canonical raw = trim (to_lower (normalize_threat_class raw))

unfoldable pub matches_threat_class : Raw → Text → Bool
unfolding text_eq class_match canonical
matches_threat_class raw selected =
    if text_eq selected [] || text_eq selected (codes "ALL")
    then true
    else class_match (canonical raw) (canonical (str selected))

-- `THREAT_DISPLAY_NAMES`
abbrev pub threat_display_names : List (Text × Text)
threat_display_names =
    (codes "Volumetric & Protocol DDoS", codes "Volumetric DDoS")
    ∷ (codes "Botnet C2 Beaconing", codes "Botnet C2")
    ∷ (codes "DGA & DNS Tunneling", codes "DGA / DNS")
    ∷ (codes "Encrypted Malware", codes "Encrypted Malware")
    ∷ (codes "Reconnaissance Scan", codes "Recon Scan")
    ∷ (codes "Data Exfiltration", codes "Data Exfil")
    ∷ []

unfoldable pub get_short_threat_name : Text → Text
unfolding text_eq
get_short_threat_name threat_class =
    text_or (or_default (lookup_text threat_class threat_display_names) []) threat_class
