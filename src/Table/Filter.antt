-- ===== src/Table/Filter.antt =====
-- frontend/src/components/ThreatTable.tsx: the filters of the table.
-- `new Date(text).getTime()` is the parameter `parse_date`, `none` for NaN.
use threat_lens.Base.{
  Bool, List, Option, Text, [], any, codes, false, filter, if◌then◌else◌, includes, is_truthy, leb,
  ltb, none, not, or_default, some, text_eq, text_or, to_lower, trim, true, ℕ, ◌+◌, ◌-◌, ◌||◌, ◌∷◌,
}
use threat_lens.Types.{Alert, severity_value}
use threat_lens.Types.Classes.{str, matches_threat_class, normalize_threat_class}

-- `severityFilter`: "critical", "high" or null.
pub data SeverityFilter : Type 0 where
  only_critical only_high : SeverityFilter

pub record Filters : Type 0 where
  pub time_window : Option ℕ
  pub severity_filter : Option SeverityFilter
  pub selected_class : Text
  pub min_confidence : ℕ
  pub search_query : Text

abbrev pub all_vectors : Text
all_vectors = codes "ALL"

abbrev pub distance : ℕ → ℕ → ℕ
distance a b = a - b + (b - a)

-- `isNaN(t) || Math.abs(t - timeWindowTimestamp) > 5000` negated
abbrev pub near : Option ℕ → ℕ → Bool
near none window = false
near (some t) window = leb (distance t window) 5000

module _ (parse_date : Text → Option ℕ) where
  unfoldable pub in_window : Option ℕ → Alert → Bool
  in_window none alert = true
  in_window (some window) alert = near (parse_date alert.timestamp) window

unfoldable pub severity_passes : Option SeverityFilter → Alert → Bool
unfolding to_lower text_eq
severity_passes none alert = true
severity_passes (some only_critical) alert =
    text_eq (to_lower (severity_value alert.severity)) (codes "critical")
severity_passes (some only_high) alert =
    text_eq (to_lower (severity_value alert.severity)) (codes "high")

unfoldable pub class_passes : Text → Alert → Bool
unfolding text_eq
class_passes selected alert =
    if text_eq selected all_vectors
    then true
    else matches_threat_class (str alert.threat_class) selected

-- `String(alert.source_ip || alert.evidence?.source_ip || "")`
abbrev pub own_or_evidence : Option Text → Option Text → Text
own_or_evidence own evidence = text_or (or_default own []) (or_default evidence [])

-- The five texts that a search reads.
unfoldable pub searched : Alert → List Text
searched alert =
    to_lower alert.flow_id
    ∷ to_lower (normalize_threat_class (str alert.threat_class))
    ∷ to_lower alert.evidence.details
    ∷ to_lower (own_or_evidence alert.source_ip alert.evidence.source_ip)
    ∷ to_lower (own_or_evidence alert.destination_ip alert.evidence.destination_ip)
    ∷ []

unfoldable pub search_passes : Text → Alert → Bool
unfolding searched
search_passes query alert =
    if is_truthy (trim query)
    then any (λ field. includes field (trim (to_lower query))) (searched alert)
    else true

module _ (parse_date : Text → Option ℕ) where
  -- The predicate of `alertsToDisplay.filter`: the tests in the order of the source, each of which
  -- returns false early.
  unfoldable pub passes : Filters → Alert → Bool
  passes f alert =
      if not (in_window parse_date f.time_window alert)
      then false
      else if not (severity_passes f.severity_filter alert)
      then false
      else if not (class_passes f.selected_class alert)
      then false
      else if ltb alert.confidence_score f.min_confidence
      then false
      else search_passes f.search_query alert

  -- `filteredAlerts`; `forced_empty` is the development override "filtered-empty".
  unfoldable pub filtered_alerts : (forced_empty : Bool) → Filters → List Alert → List Alert
  filtered_alerts forced_empty f alerts = if forced_empty then [] else filter (passes f) alerts

-- Is the CLEAR button shown?
unfoldable pub has_filters : Filters → Bool
unfolding text_eq trim
has_filters f =
    not (text_eq f.selected_class all_vectors)
    || ltb 0 f.min_confidence
    || is_truthy (trim f.search_query)
    || (elim f.severity_filter [ none ↦ false | some _ ↦ true ])
    || (elim f.time_window [ none ↦ false | some _ ↦ true ])

-- The click on CLEAR; the two callbacks of the parent clear the window and the severity.
unfoldable pub clear_filters : Filters → Filters
clear_filters f = record {
  time_window = none;
  severity_filter = none;
  selected_class = all_vectors;
  min_confidence = 0;
  search_query = [];
}

-- The button of the empty table: the severity filter first, and the others without it.
abbrev pub clear_at : Option SeverityFilter → Filters → Filters
clear_at (some severity) f = record f { severity_filter = none }
clear_at none f = record f {
  time_window = none;
  selected_class = all_vectors;
  min_confidence = 0;
  search_query = [];
}

unfoldable pub clear_from_empty : Filters → Filters
clear_from_empty f = clear_at f.severity_filter f
