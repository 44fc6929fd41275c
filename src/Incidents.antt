-- ===== src/Incidents.antt =====
-- frontend/src/components/IncidentsPanel.tsx: the incidents, and suppressing their sources. A
-- handler is cut at its request: what runs before it, and what runs on the answer.
use threat_lens.Base.{
  List, arith, codes, Bool, Option, Text, [], false, if◌then◌else◌, includes, is_truthy, none, not,
  or_default, some, text_eq, text_or, trim, true, ℕ, ◌&&◌, ◌++◌, ◌||◌, ◌∷◌,
}
use threat_lens.Types.{SuppressionRule}
use threat_lens.Base.Split.{split_parts}
use threat_lens.Base.Sets.{member, add_all, set_add}
pub mod Hosts
pub mod Panel
pub mod Rows
mod Tests

-- `incident.alerts` is read only for its length.
pub record Incident : Type 0 where
  pub incident_id : Text
  pub source_ip : Option Text
  pub first_seen : Text
  pub last_seen : Text
  pub threat_classes : List Text
  pub alert_count : ℕ

-- `extractCleanIp`
unfoldable pub extract_clean_ip : Text → Text
unfolding trim includes split_parts
extract_clean_ip raw =
    if not (is_truthy raw)
    then []
    else if includes (trim raw) (codes ":") && not (includes (trim raw) (codes "::"))
    then (split_parts b':' (trim raw)).0
    else trim raw

-- An object of an error's `detail`; `json` is what `JSON.stringify` makes of it.
pub record DetailObject : Type 0 where
  pub msg : Option Text
  pub detail : Option Text
  pub message : Option Text
  pub json : Text

pub data ErrorDetail : Type 0 where
  falsy : ErrorDetail
  detail_text : Text → ErrorDetail
  detail_list : List DetailObject → ErrorDetail
  detail_object : DetailObject → ErrorDetail
  detail_other : (shown : Text) → ErrorDetail

abbrev pub item_text : DetailObject → Text
item_text d = text_or (or_default d.msg []) (text_or (or_default d.detail []) d.json)

abbrev pub join_items : List DetailObject → Text
join_items [] = []
join_items (d ∷ []) = item_text d
join_items (d ∷ e ∷ ds) = item_text d ++ (codes ", " ++ join_items (e ∷ ds))

-- `formatErrorDetail`
abbrev pub no_detail : Text
no_detail = codes "Server error while creating suppression rule."

unfoldable pub format_error_detail : ErrorDetail → Text
format_error_detail falsy = no_detail
format_error_detail (detail_text s) = text_or s no_detail
format_error_detail (detail_list items) = join_items items
format_error_detail (detail_object d) =
    text_or (or_default d.msg [])
      (text_or (or_default d.detail []) (text_or (or_default d.message []) d.json))
format_error_detail (detail_other shown) = shown

-- The body of the POST request: a rule of type `source_ip` that is enabled.
pub record Suppression : Type 0 where
  pub source_ip : Text
  pub description : Text

pub record PanelState : Type 0 where
  pub incidents : List Incident
  pub suppressed_ips : List Text
  pub feedback : Option Text
  pub modal_open : Bool
  pub target_ip : Text
  pub description : Text
  pub modal_loading : Bool
  pub modal_error : Option Text
  pub is_open : Bool
  pub requests : List Suppression

abbrev pub default_description : Text
default_description = codes "Direct suppression from SOC Incidents Table"

-- The store of the browser: it may refuse, and else holds a text or nothing.
pub data OpenStore : Type 0 where
  no_store : OpenStore
  stored : Option Text → OpenStore

abbrev pub bool_text : Bool → Text
bool_text true = codes "true"
bool_text false = codes "false"

-- The initial value of `isOpen`.
unfoldable pub restored_open : OpenStore → Bool
unfolding text_eq
restored_open no_store = true
restored_open (stored none) = true
restored_open (stored (some saved)) = text_eq saved (codes "true")

abbrev pub set_stored : Text → OpenStore → OpenStore
set_stored s no_store = no_store
set_stored s (stored o) = stored (some s)

-- `toggleOpen`
unfoldable pub toggle_open : PanelState × OpenStore → PanelState × OpenStore
toggle_open (s, store) =
    (record s { is_open = not s.is_open }, set_stored (bool_text (not s.is_open)) store)

abbrev pub rule_ips : List SuppressionRule → List Text
rule_ips [] = []
rule_ips (rule ∷ rules) =
    let rest = rule_ips rules in
    if rule.enabled && is_truthy (or_default rule.source_ip [])
    then or_default rule.source_ip [] ∷ rest
    else rest

-- `loadRules` behind its answer; a response that is not ok reads as no rules, `none` is a failure.
unfoldable pub rules_answered :
    (mounted : Bool) → Option (List SuppressionRule) → PanelState → PanelState
unfolding add_all
rules_answered mounted none s = s
rules_answered mounted (some rules) s =
    if mounted then record s { suppressed_ips = add_all [] (rule_ips rules) } else s

-- `refresh` behind its answer.
unfoldable pub incidents_answered :
    (mounted : Bool) → Option (List Incident) → PanelState → PanelState
incidents_answered mounted o s = if mounted then record s { incidents = or_default o [] } else s

-- The key handler of the open modal.
unfoldable pub key_down : Text → PanelState → PanelState
unfolding text_eq
key_down k s =
    if s.modal_open && (text_eq k (codes "Escape") && not s.modal_loading)
    then record s { modal_open = false }
    else s

unfoldable pub open_suppress_modal : (source_ip : Text) → PanelState → PanelState
unfolding text_eq extract_clean_ip
open_suppress_modal source_ip s =
    if not (is_truthy source_ip) || text_eq source_ip (codes "Unknown source")
    then s
    else record s {
      target_ip = extract_clean_ip source_ip;
      description = default_description;
      modal_error = none;
      modal_open = true;
    }

-- `handleConfirmSuppress` up to its request: for the trimmed address.
abbrev pub confirm_at : (ip : Text) → PanelState → PanelState
confirm_at [] s = record s {
  modal_error = some (codes "Please provide a valid source IP address.");
}
confirm_at (c ∷ ip) s = record s {
  modal_loading = true;
  modal_error = none;
  requests =
      record { source_ip = c ∷ ip; description = text_or (trim s.description) default_description }
      ∷ s.requests;
}

unfoldable pub confirm_started : PanelState → PanelState
unfolding trim
confirm_started s = confirm_at (trim s.target_ip) s

pub data SuppressResponse : Type 0 where
  suppressed : SuppressResponse
  suppress_refused : ErrorDetail → SuppressResponse
  suppress_thrown : SuppressResponse

-- The answer to the request for an address, the `finally` block included.
unfoldable pub confirm_answered : (ip : Text) → SuppressResponse → PanelState → PanelState
unfolding set_add format_error_detail
confirm_answered ip suppressed s = record s {
  suppressed_ips = set_add ip s.suppressed_ips;
  feedback = some (codes "Suppressed " ++ ip);
  modal_open = false;
  modal_loading = false;
}
confirm_answered ip (suppress_refused detail) s = record s {
  modal_error = some (format_error_detail detail);
  modal_loading = false;
}
confirm_answered ip suppress_thrown s = record s {
  modal_error = some (codes "Network error: Failed to communicate with suppression service.");
  modal_loading = false;
}

-- The timeout that ends the feedback.
unfoldable pub feedback_fired : PanelState → PanelState
feedback_fired s = record s { feedback = none }
