-- ===== src/Incidents/Rows.antt =====
-- frontend/src/components/IncidentsPanel.tsx: the rows of the panel, its head and its modal, and how
-- a confirmed suppression changes the rows. `iso_of` is `new Date(s).toISOString()`, `print` is how a
-- number is shown.
use threat_lens.Base.{
  ◌≡◌, refl, List, Bool, Option, Text, [], false, none, not, some, text_eq, trim, true, ◌∷◌, ◌++◌,
  codes, if◌then◌else◌, drop, take, length, map, is_truthy, or_default, ◌||◌, ◌&&◌, ℕ, ltb,
  includes, arith, ap, ◌∙◌,
}
use threat_lens.Base.Sets.{member, set_add, member-set_add}
use threat_lens.Base.StringLaws.{text_eq_refl}
use threat_lens.Types.Classes.{get_short_threat_name}
use threat_lens.Incidents.{
  Incident, PanelState, confirm_answered, confirm_started, extract_clean_ip, open_suppress_modal,
  suppressed, default_description,
}
use threat_lens.Incidents.Panel.{confirm}

-- What a row offers for its source.
pub data Control : Type 0 where
  no_control : Control
  suppressed_badge : Control
  suppress_button : (title : Text) → Control

pub record IncidentRow : Type 0 where
  pub source : Text
  pub struck : Bool
  pub control : Control
  pub classes : Text
  pub count : Text
  pub time : Text

abbrev is_suppressed : Option Text → List Text → Bool
is_suppressed none ips = false
is_suppressed (some []) ips = false
is_suppressed (some (c ∷ ip)) ips = member (c ∷ ip) ips

-- Only a source that is neither empty nor the text for an unknown one can be suppressed.
abbrev pub is_named : Text → Bool
is_named ip = is_truthy ip && not (text_eq ip (codes "Unknown source"))

abbrev control_of : Text → List Text → Control
control_of ip ips =
    if is_named ip
    then (if member ip ips
        then suppressed_badge
        else suppress_button (codes "Suppress alerts from " ++ ip))
    else no_control

unfoldable pub join_names : List Text → Text
unfolding get_short_threat_name
join_names [] = []
join_names (c ∷ []) = get_short_threat_name c
join_names (c ∷ d ∷ classes) = get_short_threat_name c ++ (codes ", " ++ join_names (d ∷ classes))

module _ (iso_of : Text → Text) (print : ℕ → Text) where
  abbrev minutes_of : Text → Text
  minutes_of t = take 5 (drop 11 (iso_of t))

  abbrev time_of : Text → Text → Text
  time_of first last = if text_eq first last then first else first ++ (codes " - " ++ last)

  unfoldable pub incident_row : List Text → Incident → IncidentRow
  unfolding member text_eq join_names
  incident_row ips incident = record {
    source = or_default incident.source_ip (codes "Unknown source");
    struck = is_suppressed incident.source_ip ips;
    control = control_of (or_default incident.source_ip []) ips;
    classes = join_names incident.threat_classes;
    count = codes "(" ++ (print incident.alert_count ++ codes ")");
    time = time_of (minutes_of incident.first_seen) (minutes_of incident.last_seen);
  }

  -- The rows, or the line for none.
  abbrev pub rows : PanelState → List IncidentRow
  rows s = map (incident_row s.suppressed_ips) s.incidents

  unfoldable pub empty_line : PanelState → Option Text
  empty_line s = elim s.incidents [
    | [] ↦ some (codes "No correlated incidents.")
    | (incident ∷ incidents) ↦ none
  ]

  -- The head: the label of the button, and the two marks beside the title.
  unfoldable pub panel_head : PanelState → Text × Option Text × Option Text
  panel_head s = (
    if s.is_open then codes "Hide incident section" else codes "Show incident section",
    if ltb 0 (length s.incidents)
        then some (print (length s.incidents) ++ codes " active")
        else none,
    s.feedback,
  )

-- The modal: the two fields, the error, whether it can be closed, and the button that confirms with
-- whether it is disabled.
pub record ModalView : Type 0 where
  pub target_ip : Text
  pub description : Text
  pub error : Option Text
  pub close_disabled : Bool
  pub confirm_button : Text × Bool

abbrev shown_error : Option Text → Option Text
shown_error none = none
shown_error (some []) = none
shown_error (some (c ∷ e)) = some (c ∷ e)

unfoldable pub modal_view : PanelState → Option ModalView
unfolding trim
modal_view s =
    if s.modal_open
    then some (record {
      target_ip = s.target_ip;
      description = s.description;
      error = shown_error s.modal_error;
      close_disabled = s.modal_loading;
      confirm_button = (
        if s.modal_loading then codes "SUPPRESSING..." else codes "CONFIRM SUPPRESSION",
        s.modal_loading || not (is_truthy (trim s.target_ip)),
      );
    })
    else none

-- A press beside the modal, on the cross or on Cancel closes it, unless it is loading.
unfoldable pub close_pressed : PanelState → PanelState
close_pressed s = if s.modal_loading then s else record s { modal_open = false }

-- The handlers of its two fields.
abbrev pub target_typed : Text → PanelState → PanelState
target_typed text s = record s { target_ip = text }

abbrev pub description_typed : Text → PanelState → PanelState
description_typed text s = record s { description = text }

pub clean_of_plain :
    (ip : Text)
    → trim ip ≡ ip
    → includes ip (codes ":") ≡ false
    → is_truthy ip ≡ true
    → extract_clean_ip ip ≡ ip
unfolding extract_clean_ip
clean_of_plain ip t n h = rw (h, t, n) refl

-- Confirming an address that is set and not blank at its ends.
ips_confirmed :
    (c : ℕ) (ip : Text) (s : PanelState)
    → trim s.target_ip ≡ c ∷ ip
    → (confirm suppressed s).suppressed_ips ≡ set_add (c ∷ ip) s.suppressed_ips
unfolding confirm_answered confirm_started
ips_confirmed c ip s h = rw h refl

abbrev pub opened : (ip : Text) (s : PanelState) → PanelState
opened ip s = record s {
  target_ip = extract_clean_ip ip;
  description = default_description;
  modal_error = none;
  modal_open = true;
}

pub open_named :
    (ip : Text) (s : PanelState) → is_named ip ≡ true → open_suppress_modal ip s ≡ opened ip s
unfolding open_suppress_modal
open_named [] s h = cc
open_named (c ∷ ip) s h =
    let e : text_eq (c ∷ ip) (codes "Unknown source") ≡ false = ground arith in rw e refl

ips_after :
    (ip : Text) (s : PanelState)
    → trim ip ≡ ip
    → includes ip (codes ":") ≡ false
    → is_named ip ≡ true
    → (confirm suppressed (open_suppress_modal ip s)).suppressed_ips ≡ set_add ip s.suppressed_ips
unfolding extract_clean_ip
ips_after [] s t n h = cc
ips_after (c ∷ ip) s t n h =
    rw (open_named (c ∷ ip) s h)
      (ips_confirmed c ip (opened (c ∷ ip) s) (ap trim (clean_of_plain (c ∷ ip) t n refl) ∙ t))

added : (ip : Text) (ips : List Text) → member ip (set_add ip ips) ≡ true
added ip ips = rw (member-set_add ip ip ips, text_eq_refl ip) refl

others :
    (ip j : Text) (ips : List Text)
    → text_eq ip j ≡ false
    → member j (set_add ip ips) ≡ member j ips
others ip j ips h = rw (member-set_add j ip ips, h) refl

marked :
    (ip : Text) (ips : List Text)
    → is_named ip ≡ true
    → member ip ips ≡ true
    → is_suppressed (some ip) ips ≡ true
marked [] ips h m = cc
marked (c ∷ ip) ips h m = m

same_row :
    (iso_of : Text → Text) (print : ℕ → Text) (ips jps : List Text) (j : Text) (incident : Incident)
    → member j ips ≡ member j jps
    → incident_row iso_of print ips (record incident { source_ip = some j })
      ≡ incident_row iso_of print jps (record incident { source_ip = some j })
unfolding incident_row
same_row iso_of print ips jps [] incident h = refl
same_row iso_of print ips jps (c ∷ j) incident h = rw h refl

-- When the button of a row with a plain address is pressed, and the server takes the rule, the rows
-- with this address then read as suppressed and offer no button, and the rows with other addresses
-- are as before.
pub suppressed_rows :
    (iso_of : Text → Text) (print : ℕ → Text) (ip other : Text) (s : PanelState)
    (incident : Incident)
    → trim ip ≡ ip
    → includes ip (codes ":") ≡ false
    → is_named ip ≡ true
    → text_eq ip other ≡ false
    → let after = confirm suppressed (open_suppress_modal ip s) in
      ((incident_row iso_of print after.suppressed_ips
          (record incident { source_ip = some ip })).control
        ≡ suppressed_badge)
      × ((incident_row iso_of print after.suppressed_ips
            (record incident { source_ip = some ip })).struck
          ≡ true)
      × (incident_row iso_of print after.suppressed_ips (record incident { source_ip = some other })
          ≡ incident_row iso_of print s.suppressed_ips (record incident { source_ip = some other }))
unfolding incident_row
suppressed_rows iso_of print ip other s incident t n named o =
    let ips = s.suppressed_ips in
    rw (ips_after ip s t n named) (
      rw (named, added ip ips) refl,
      marked ip (set_add ip ips) named (added ip ips),
      same_row iso_of print (set_add ip ips) ips other incident (others ip other ips o),
    )
