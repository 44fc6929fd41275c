-- ===== src/Table/View.antt =====
-- frontend/src/components/ThreatTable.tsx: the row of an alert.
use mathlib.Core.Path.{ap₂}
use threat_lens.Base.{
  ◌≡◌, refl, List, codes, Option, Text, [], drop, if◌then◌else◌, none, some, take, trim, ℕ, ◌&&◌,
  ◌++◌, ◌+◌, ◌/◌, ◌==◌, ◌∷◌, All-append, ap, append_assoc, false, sym, to_upper, ◌∙◌,
}
use threat_lens.Base.Split.{IsPlain}
use threat_lens.Types.{
  Alert, AlertStatus, SeverityLevel, acknowledged, critical, false_positive, get_alert_identity,
  high, investigating, low, moderate, new, resolved, severity_value,
}
use threat_lens.Types.Classes.{get_short_threat_name}
use threat_lens.Table.Row.{format_ip, get_evidence_tags}

-- `flow_id.split("->")`: the first part, and the parts behind it.
unfoldable pub split_arrow : Text → Text × List Text
split_arrow [] = ([], [])
split_arrow (c ∷ []) = (c ∷ [], [])
split_arrow (c ∷ d ∷ s) =
    let (part, parts) = split_arrow (d ∷ s) in
    let (later, others) = split_arrow s in
    if (c == b'-') && (d == b'>') then ([], later ∷ others) else (c ∷ part, parts)

abbrev pub second : List Text → Option Text
second [] = none
second (part ∷ parts) = some part

abbrev pub trim_found : Option Text → Option Text
trim_found none = none
trim_found (some s) = some (trim s)

abbrev pub sides_of : Text × List Text → Text × Option Text
sides_of parts = (trim parts.0, trim_found (second parts.1))

-- `src` and `dst`, trimmed; there is no `dst` without an arrow.
unfoldable pub flow_sides : Text → Text × Option Text
unfolding split_arrow trim
flow_sides flow_id = sides_of (split_arrow flow_id)

-- A side as it is shown: the address and the port, or `Unknown` for an empty or missing one.
abbrev pub side_text : Option Text → Text × Text
side_text none = (codes "Unknown", [])
side_text (some []) = (codes "Unknown", [])
side_text (some (c ∷ s)) = format_ip (c ∷ s)

pub data SeverityColor : Type 0 where
  color_critical : SeverityColor
  color_high : SeverityColor
  color_moderate : SeverityColor
  color_low : SeverityColor

abbrev pub severity_color : SeverityLevel → SeverityColor
severity_color critical = color_critical
severity_color high = color_high
severity_color moderate = color_moderate
severity_color low = color_low

-- The dot of a status; a new alert has none.
pub data StatusDot : Type 0 where
  rose : StatusDot
  sky : StatusDot
  purple : StatusDot
  emerald : StatusDot
  zinc : StatusDot

abbrev pub status_dot : AlertStatus → Option StatusDot
status_dot new = none
status_dot acknowledged = some sky
status_dot investigating = some purple
status_dot resolved = some emerald
status_dot false_positive = some zinc

-- `Math.round(confScore * 100)` for a confidence in ten-thousandths.
abbrev pub conf_pct : ℕ → ℕ
conf_pct score = (score + 50) / 100

abbrev pub first_tag : List Text → Option Text
first_tag [] = none
first_tag (tag ∷ tags) = some tag

pub record RowView : Type 0 where
  pub row_key : Text
  pub time : Text
  pub source : Text × Text
  pub destination : Text × Text
  pub class_text : Text
  pub short_class : Text
  pub tag : Option Text
  pub severity_text : Text
  pub color : SeverityColor
  pub percent : ℕ
  pub bar_width : ℕ
  pub dot : Option StatusDot

-- `formatTimestamp` is a parameter: it asks the Date object.
unfoldable pub row_view : (format_timestamp : Text → Text) → Alert → RowView
unfolding flow_sides format_ip get_evidence_tags get_alert_identity
row_view format_timestamp alert = record {
  row_key = get_alert_identity alert;
  time = take 12 (drop 11 (format_timestamp alert.timestamp));
  source = side_text (some (flow_sides alert.flow_id).0);
  destination = side_text (flow_sides alert.flow_id).1;
  class_text = alert.threat_class;
  short_class = get_short_threat_name alert.threat_class;
  tag = first_tag (get_evidence_tags alert.evidence);
  severity_text = to_upper (severity_value alert.severity);
  color = severity_color alert.severity;
  percent = conf_pct alert.confidence_score;
  bar_width = conf_pct alert.confidence_score;
  dot = status_dot alert.status;
}

-- A part without a dash stands in front of the arrow.
split_arrow-append :
    (s t : Text)
    → IsPlain b'-' s
    → split_arrow (s ++ (b'-' ∷ b'>' ∷ t)) ≡ (s, (split_arrow t).0 ∷ (split_arrow t).1)
unfolding split_arrow
split_arrow-append [] t h = refl
split_arrow-append (c ∷ []) t h = rw h.0 refl
split_arrow-append (c ∷ d ∷ s) t h = rw h.0 (rw (split_arrow-append (d ∷ s) t h.1) refl)

split_arrow_plain : (s : Text) → IsPlain b'-' s → split_arrow s ≡ (s, [])
unfolding split_arrow
split_arrow_plain [] h = refl
split_arrow_plain (c ∷ []) h = refl
split_arrow_plain (c ∷ d ∷ s) h = rw h.0 (rw (split_arrow_plain (d ∷ s) h.1) refl)

-- A flow that is named by its two ends with an arrow between them, and a space on either side, is
-- shown with these ends, provided that neither holds a dash, and that none begins or ends with a
-- blank.
pub flow_sides-ends :
    (source destination : Text)
    → IsPlain b'-' source
    → IsPlain b'-' destination
    → trim (source ++ codes " ") ≡ source
    → trim (codes " " ++ destination) ≡ destination
    → flow_sides (source ++ (codes " -> " ++ destination)) ≡ (source, some destination)
unfolding flow_sides
flow_sides-ends source destination p q s t =
    let front = source ++ codes " " in
    let back = codes " " ++ destination in
    ap (λ f. sides_of (split_arrow f)) (sym (append_assoc source (codes " ") (codes "->" ++ back)))
    ∙ ap sides_of (
        split_arrow-append front back
          (All-append (λ c. (c == b'-') ≡ false) source (codes " ") p (refl, tt)))
    ∙ ap (λ (r : Text × List Text). (trim front, some (trim r.0)))
        (split_arrow_plain back (refl, q))
    ∙ ap₂ (λ (a b : Text). (a, some b)) s t
