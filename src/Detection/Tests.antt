-- ===== src/Detection/Tests.antt =====
-- The detection settings at concrete thresholds, rules and answers.
use threat_lens.Detection.Screen.{IsShownSettled, save_shown, threshold_row}
use threat_lens.Base.{
  ◌≡◌, refl, codes, Option, Text, [], false, if◌then◌else◌, none, some, text_eq, trim, true, ◌∷◌,
}
use threat_lens.Base.Tables.{keys_of}
use threat_lens.Base.Sets.{Distinct}
use threat_lens.Base.Split.{split_parts}
use threat_lens.Types.{destination_ip, source_ip}
use threat_lens.Detection.{Config, ThresholdEntry, int_list_kind, key, numbers, parse_value}
use threat_lens.Detection.Samples.{Port, editor, http, https, read_port, show_port}
use threat_lens.Detection.Groups.{grouped_lem, bucket, grouped, under}
use threat_lens.Detection.Save.{answered, save_answered, save_threshold}
use threat_lens.Detection.Rules.{RuleForm, add_started, empty_draft, payload, trimmed}

abbrev ports : ThresholdEntry Port
ports = record {
  rule = codes "scan";
  rule_label = codes "Reconnaissance";
  parameter = codes "ports";
  label = codes "Ports";
  description = codes "Ports to watch";
  kind = int_list_kind;
  least = none;
  greatest = none;
  value = numbers (http ∷ https ∷ []);
  default_value = numbers (http ∷ []);
  modified = true;
  consumed_by = codes "engine";
  active = true;
}

-- A comma at the end of a list sends one number more: `Number("")` is 0, which is finite.
trailing_comma :
    parse_value read_port int_list_kind (codes "443,") ≡ some (numbers (https ∷ http ∷ []))
unfolding parse_value split_parts trim text_eq
trailing_comma = refl

grouped_lem_example :
    Distinct (keys_of (grouped (ports ∷ ports ∷ [])))
    × (bucket (codes "Reconnaissance") (grouped (ports ∷ ports ∷ []))
        ≡ under (codes "Reconnaissance") (ports ∷ ports ∷ []))
grouped_lem_example = grouped_lem (codes "Reconnaissance") (ports ∷ ports ∷ [])

abbrev iso : Text → Option Text
iso s = if text_eq s (codes "2026-01-01T00:00") then some (codes "2026-01-01T00:00Z") else none

abbrev dated : Text → RuleForm
dated expires = record {
  rules = [];
  rules_error = none;
  draft = record (empty_draft destination_ip) {
    destination_ip = some (codes " 10.0.0.10 ");
    expires_at = some expires;
  };
  add_error = none;
  adding = false;
  requests = [];
}

-- Where the expiry is no date, building the payload throws before the request: nothing is sent and
-- the button stays disabled, with no error shown.
stuck_form :
    ((add_started iso (dated (codes "soon"))).adding ≡ true)
    × ((add_started iso (dated (codes "soon"))).requests ≡ [])
    × ((add_started iso (dated (codes "soon"))).add_error ≡ none)
unfolding add_started text_eq
stuck_form = (refl, refl, refl)

-- An address typed for one type of rule is sent with a rule of another type, whose form hides it.
hidden_address :
    (payload (record (dated []).draft { rule_type = source_ip }) none).destination_ip
    ≡ some (codes "10.0.0.10")
unfolding trimmed trim
hidden_address = refl

-- The entry of the answer to a save of port 80 alone.
abbrev applied : ThresholdEntry Port
applied = record ports { value = numbers (http ∷ []); modified = false }

abbrev config : Config Port
config = record { in_redis = true; persistent = true; thresholds = applied ∷ [] }

save_shown_example :
    let started = save_threshold show_port read_port ports editor in
    let done = save_answered (key ports) (answered config) started in
    let row = threshold_row show_port done applied in
    ((threshold_row show_port started ports).button ≡ (codes "Saving...", true))
    × (row.button ≡ (codes "Save", false))
    × IsShownSettled show_port (answered config) applied (threshold_row show_port editor ports) row
save_shown_example = save_shown show_port read_port ports applied (answered config) editor refl
