-- ===== src/Detection/RuleScreen.antt =====
-- frontend/src/components/DetectionConfig.tsx: what the tab of the suppression rules shows: the form
-- for a new rule with the handlers of its fields, and the list of rules.
use threat_lens.Base.{
  List, Bool, none, Option, String, Text, [], codes, false, if◌then◌else◌, is_truthy, map, not,
  or_default, some, true, ◌++◌, ◌∷◌, text_or,
}
use threat_lens.Types.{
  RuleType, SuppressionRule, SuppressionRuleCreate, all_classes, class_value,
  source_ip_threat_class,
}
use threat_lens.Detection.Rules.{RuleForm, needs_source_ip}

-- The form for a new rule: the two choices, and the texts of the fields by their labels.
abbrev pub rule_type_label : RuleType → Text
rule_type_label RuleType.source_ip = codes "Source IP"
rule_type_label RuleType.destination_ip = codes "Destination IP"
rule_type_label source_ip_threat_class = codes "Source IP + Threat Class"

abbrev pub class_options : List Text
class_options = codes "Any class" ∷ map class_value all_classes

abbrev has_class : RuleType → Bool
has_class source_ip_threat_class = true
has_class _ = false

abbrev input : Bool → String → Option Text → List (Text × Text)
input true label value = (codes label, or_default value []) ∷ []
input false label value = []

abbrev class_text : Option Text → Text
class_text chosen = text_or (or_default chosen []) (codes "Any class")

unfoldable pub rule_inputs : SuppressionRuleCreate → List (Text × Text)
rule_inputs draft =
    input true "Rule type" (some (rule_type_label draft.rule_type))
    ++ input (needs_source_ip draft.rule_type) "Source IP or CIDR" draft.source_ip
    ++ input (not (needs_source_ip draft.rule_type)) "Destination IP or CIDR" draft.destination_ip
    ++ input (has_class draft.rule_type) "Threat class" (some (class_text draft.threat_class))
    ++ input true "Reason" draft.description
    ++ input true "Expiration (optional)" draft.expires_at

-- The handlers of the fields; an empty class or expiry is none.
pub data DraftEvent : Type 0 where
  type_chosen : RuleType → DraftEvent
  source_typed : Text → DraftEvent
  destination_typed : Text → DraftEvent
  class_chosen : Text → DraftEvent
  reason_typed : Text → DraftEvent
  enabled_set : Bool → DraftEvent
  expiry_set : Text → DraftEvent

abbrev or_null : Text → Option Text
or_null [] = none
or_null (c ∷ text) = some (c ∷ text)

unfoldable pub draft_step : DraftEvent → SuppressionRuleCreate → SuppressionRuleCreate
draft_step (type_chosen rule_type) draft = record draft { rule_type = rule_type }
draft_step (source_typed text) draft = record draft { source_ip = some text }
draft_step (destination_typed text) draft = record draft { destination_ip = some text }
draft_step (class_chosen value) draft = record draft { threat_class = or_null value }
draft_step (reason_typed text) draft = record draft { description = some text }
draft_step (enabled_set enabled) draft = record draft { enabled = enabled }
draft_step (expiry_set text) draft = record draft { expires_at = or_null text }

-- The button that adds the rule, and whether it is disabled.
abbrev pub add_button : RuleForm → Text × Bool
add_button f = (if f.adding then codes "Adding..." else codes "Add Rule", f.adding)

-- A rule of the list: its badge, its address, its type with the class, its reason, its last line,
-- and the text of the button that changes it.
pub record RuleRow : Type 0 where
  pub badge : Text
  pub address : Text
  pub rule_type : Text
  pub reason : Option Text
  pub origin : Text
  pub toggle : Text

abbrev behind : String → Option Text → Text
behind what none = []
behind what (some []) = []
behind what (some (c ∷ text)) = codes what ++ (c ∷ text)

abbrev first_of : Option Text → Option Text → Text
first_of none other = or_default other []
first_of (some text) other = text

abbrev if_text : Option Text → Option Text
if_text none = none
if_text (some text) = or_null text

unfoldable pub rule_row : SuppressionRule → RuleRow
rule_row rule = record {
  badge = if rule.enabled then codes "ENABLED" else codes "DISABLED";
  address = first_of rule.source_ip rule.destination_ip;
  rule_type = rule_type_label rule.rule_type ++ behind " · " rule.threat_class;
  reason = if_text rule.description;
  origin =
      rule.id ++ (codes " · added " ++ (rule.created_at ++ behind " · expires " rule.expires_at));
  toggle = if rule.enabled then codes "Disable" else codes "Enable";
}

-- The list of rules: its rows, or the line for none, which an error hides.
unfoldable pub rule_list : RuleForm → Option Text × List RuleRow
unfolding rule_row
rule_list f = (
  elim f.rules [
    | [] ↦
        (if is_truthy (or_default f.rules_error [])
          then none
          else some (codes "No suppression rules defined."))
    | (rule ∷ rules) ↦ none
  ],
  map rule_row f.rules,
)
