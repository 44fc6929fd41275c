-- ===== src/Incidents/Panel.antt =====
-- The panel's own state: what survives a reload, and what a confirmed suppression does.
use threat_lens.Base.{
  ◌≡◌, refl, List, Bool, Option, Text, [], false, not, some, text_eq, trim, true, ◌∷◌,
}
use threat_lens.Base.Sets.{Distinct, add_all, add_all-Distinct, set_add-Distinct}
use threat_lens.Types.{SuppressionRule}
use threat_lens.Incidents.{
  PanelState, SuppressResponse, bool_text, confirm_answered, confirm_started, restored_open,
  rule_ips, rules_answered, stored, suppressed, toggle_open,
}

at_bool : (b : Bool) → restored_open (stored (some (bool_text b))) ≡ b
unfolding restored_open text_eq
at_bool true = refl
at_bool false = refl

-- After a toggle, a reload of the page finds the panel as the toggle left it, whatever was stored
-- before, where the browser stores anything.
pub restored_open-toggle :
    (s : PanelState) (before : Option Text)
    → restored_open (toggle_open (s, stored before)).1 ≡ (toggle_open (s, stored before)).0.is_open
unfolding restored_open toggle_open
restored_open-toggle s before = at_bool (not s.is_open)

-- Confirming, and the answer where a request goes out.
abbrev pub answer_at : (ip : Text) → SuppressResponse → PanelState → PanelState
answer_at [] r s = s
answer_at (c ∷ ip) r s = confirm_answered (c ∷ ip) r s

abbrev pub confirm : SuppressResponse → PanelState → PanelState
confirm r s = answer_at (trim s.target_ip) r (confirm_started s)

-- The suppressed addresses are named once each, whether they come from the rules or from a
-- confirmation.
pub suppressed_ips-Distinct :
    (ip : Text) (rules : List SuppressionRule) (s : PanelState)
    → Distinct (confirm_answered ip suppressed (rules_answered true (some rules) s)).suppressed_ips
unfolding confirm_answered rules_answered
suppressed_ips-Distinct ip rules s =
    set_add-Distinct ip (add_all [] (rule_ips rules)) (add_all-Distinct [] (rule_ips rules) tt)
