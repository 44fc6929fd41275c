-- ===== src/Detection/Samples.antt =====
-- Numbers and a form on which the tests of the thresholds run.
use threat_lens.Base.{
  ◌≡◌, refl, Option, Text, [], codes, if◌then◌else◌, none, some, text_eq, trim, ◌∷◌,
}
use threat_lens.Base.Split.{IsPlain}
use threat_lens.Detection.Save.{Editor}

-- Two numbers of a type with nothing else, and how they are printed and read.
pub data Port : Type 0 where
  http : Port
  https : Port

abbrev pub show_port : Port → Text
show_port http = codes "80"
show_port https = codes "443"

abbrev pub read_port : Text → Option Port
read_port s =
    if text_eq s (codes "80")
    then some http
    else if text_eq s (codes "443")
    then some https
    else if text_eq s []
    then some http
    else none

abbrev pub editor : Editor Port
editor = record {
  config = none;
  load_error = none;
  drafts = (codes "scan.rate", codes "5") ∷ [];
  row_state = [];
  row_message = [];
  requests = [];
}

pub read-show : (p : Port) → read_port (show_port p) ≡ some p
unfolding text_eq
read-show http = refl
read-show https = refl

pub trim-show_port : (p : Port) → trim (show_port p) ≡ show_port p
unfolding trim
trim-show_port http = refl
trim-show_port https = refl

pub show_port-IsPlain : (p : Port) → IsPlain b',' (show_port p)
show_port-IsPlain http = (refl, (refl, tt))
show_port-IsPlain https = (refl, (refl, (refl, tt)))
