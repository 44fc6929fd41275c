-- ===== src/Detection/Rules.antt =====
-- frontend/src/components/DetectionConfig.tsx: the suppression rules, adding, deleting and toggling
-- one. `to_iso` is `new Date(s).toISOString()`, `none` where it throws a RangeError.
use threat_lens.Base.{
  List, codes, Bool, Option, String, Text, [], false, if◌then◌else◌, is_truthy, none, not,
  or_default, some, trim, true, ◌++◌, ◌∷◌,
}
use threat_lens.Types.{
  SuppressionRule, RuleType, SuppressionRuleCreate, source_ip_threat_class, destination_ip,
}
use threat_lens.Detection.Save.{failure}

-- What the form asks of the server, in order of the latest first.
pub data RuleRequest : Type 0 where
  post_rule : SuppressionRuleCreate → RuleRequest
  delete_rule : (rule_id : Text) → RuleRequest
  patch_rule : (rule_id : Text) → (enabled : Bool) → RuleRequest
  get_rules : RuleRequest

pub record RuleForm : Type 0 where
  pub rules : List SuppressionRule
  pub rules_error : Option Text
  pub draft : SuppressionRuleCreate
  pub add_error : Option Text
  pub adding : Bool
  pub requests : List RuleRequest

abbrev pub empty_draft : RuleType → SuppressionRuleCreate
empty_draft rule_type = record {
  rule_type = rule_type;
  description = some [];
  source_ip = some [];
  destination_ip = some [];
  threat_class = none;
  enabled = true;
  expires_at = none;
}

-- `s?.trim() ? s.trim() : null`
unfoldable pub trimmed : Option Text → Option Text
unfolding trim
trimmed none = none
trimmed (some s) = if is_truthy (trim s) then some (trim s) else none

abbrev pub class_of : RuleType → Option Text → Option Text
class_of source_ip_threat_class threat_class = threat_class
class_of _ threat_class = none

-- `needsSourceIp`, `needsDestinationIp`
abbrev pub needs_source_ip : RuleType → Bool
needs_source_ip destination_ip = false
needs_source_ip _ = true

abbrev pub needs_destination_ip : RuleType → Bool
needs_destination_ip rule_type = not (needs_source_ip rule_type)

-- An answer to adding a rule: created, refused with the status and either a text or the messages of
-- a list (`none` for one without), or something throws.
pub data AddResponse : Type 0 where
  created : AddResponse
  refused_text : (status : Text) → (detail : Option Text) → AddResponse
  refused_list : (messages : List (Option Text)) → AddResponse
  add_thrown : (message : Option Text) → AddResponse

-- `join("; ")`
abbrev pub join_messages : List (Option Text) → Text
join_messages [] = []
join_messages (m ∷ []) = or_default m (codes "invalid value")
join_messages (m ∷ n ∷ ms) =
    or_default m (codes "invalid value") ++ (codes "; " ++ join_messages (n ∷ ms))

-- An answer to deleting or changing a rule.
pub data ChangeResponse : Type 0 where
  changed : ChangeResponse
  change_refused : (status : Text) → ChangeResponse
  change_thrown : (message : Option Text) → ChangeResponse

-- `loadRules` behind its answer.
pub data RulesResponse : Type 0 where
  rules_read : List SuppressionRule → RulesResponse
  rules_refused : (status : Text) → RulesResponse
  rules_thrown : (message : Option Text) → RulesResponse

unfoldable pub rules_loaded : RulesResponse → RuleForm → RuleForm
rules_loaded (rules_read rules) f = record f { rules = rules; rules_error = none }
rules_loaded (rules_refused status) f = record f {
  rules_error = some (failure "suppression request failed" status);
}
rules_loaded (rules_thrown message) f = record f {
  rules_error = some (or_default message (codes "suppression request failed"));
}

abbrev request : RuleRequest → RuleForm → RuleForm
request r f = record f { requests = r ∷ f.requests }

unfoldable pub delete_started : (rule_id : Text) → RuleForm → RuleForm
delete_started rule_id f = request (delete_rule rule_id) (record f { rules_error = none })

unfoldable pub toggle_started : SuppressionRule → RuleForm → RuleForm
toggle_started rule f =
    request (patch_rule rule.id (not rule.enabled)) (record f { rules_error = none })

-- `deleteRule` and `toggleRule` behind their answer; `what` is "delete failed" or "update failed".
unfoldable pub change_answered : (what : String) → ChangeResponse → RuleForm → RuleForm
change_answered what changed f = request get_rules f
change_answered what (change_refused status) f = record f {
  rules_error = some (failure what status);
}
change_answered what (change_thrown message) f = record f {
  rules_error = some (or_default message (codes what));
}

-- `addRule` behind its answer, up to its end or to the reload that it awaits.
unfoldable pub add_answered : AddResponse → RuleForm → RuleForm
add_answered created f = request get_rules (record f { draft = empty_draft f.draft.rule_type })
add_answered (refused_text status detail) f = record f {
  add_error = some (or_default detail (failure "add failed" status));
}
add_answered (refused_list messages) f = record f { add_error = some (join_messages messages) }
add_answered (add_thrown message) f = record f {
  add_error = some (or_default message (codes "add failed"));
}

-- The `finally` block.
abbrev pub add_ended : RuleForm → RuleForm
add_ended f = record f { adding = false }

-- All that follows the request: the answer, the reload if it is one of success, the `finally`.
unfoldable pub add_finished : AddResponse → RulesResponse → RuleForm → RuleForm
unfolding add_answered rules_loaded
add_finished created reload f = add_ended (rules_loaded reload (add_answered created f))
add_finished r reload f = add_ended (add_answered r f)

-- `payload`
abbrev pub payload : SuppressionRuleCreate → Option Text → SuppressionRuleCreate
payload draft expires_at = record {
  rule_type = draft.rule_type;
  description = trimmed draft.description;
  source_ip = trimmed draft.source_ip;
  destination_ip = trimmed draft.destination_ip;
  threat_class = class_of draft.rule_type draft.threat_class;
  enabled = draft.enabled;
  expires_at = expires_at;
}

-- The form behind an attempt to add a rule, by its answer.
module _ (to_iso : Text → Option Text) where
  -- `draft.expires_at ? new Date(…).toISOString() : null`; `none` where it throws.
  abbrev pub expiry : Option Text → Option (Option Text)
  expiry none = some none
  expiry (some s) =
      if is_truthy s then (elim (to_iso s) [ none ↦ none | some t ↦ some (some t) ]) else some none

  -- `addRule` up to its request. The payload is built before the `try`: where the date is not one,
  -- the handler ends there, and `adding` stays set.
  abbrev pub post : Option (Option Text) → RuleForm → RuleForm
  post none f = f
  post (some expires_at) f = request (post_rule (payload f.draft expires_at)) f

  unfoldable pub add_started : RuleForm → RuleForm
  unfolding trimmed
  add_started f = post (expiry f.draft.expires_at) (record f { adding = true; add_error = none })
