-- ===== src/App/Cards.antt =====
-- frontend/src/App.tsx: the four cards above the table, and the keys of the last one.
-- `percent` is how the mean is shown: the confidences added up, as the number of alerts says.
use threat_lens.Base.{
  Bool, List, Option, Text, [], codes, false, if◌then◌else◌, length, ltb, none, some, text_eq, true,
  ℕ, ◌++◌, ◌+◌, ◌∷◌, ◌||◌, ◌==◌,
}
use threat_lens.Types.{Alert}
use threat_lens.Types.Classes.{get_short_threat_name}
use threat_lens.Table.Filter.{SeverityFilter, only_critical, only_high}
use threat_lens.Dashboard.{critical_count, high_count, same_filter}
use threat_lens.Dashboard.TopVector.{open_dominant_vector, top_vector_entry}

-- A card: its caption, its value and the line below; whether it reads as pressed, where it is a
-- button, and whether it is highlighted by its colour.
pub record Card : Type 0 where
  pub caption : Text
  pub value : Text
  pub footer : Text
  pub pressed : Option Bool
  pub lit : Bool

abbrev is_pressed : Option SeverityFilter → SeverityFilter → Bool
is_pressed none f = false
is_pressed (some g) f = same_filter g f

-- `effectiveAlerts.reduce((sum, a) => sum + a.confidence_score, 0)`
unfoldable pub confidence_sum : List Alert → ℕ
confidence_sum [] = 0
confidence_sum (a ∷ alerts) = a.confidence_score + confidence_sum alerts

module _ (print : ℕ → Text) (percent : (total count : ℕ) → Text) where
  abbrev total_line : List Alert → Text
  total_line alerts = codes "of " ++ print (length alerts) ++ codes " total alerts"

  abbrev severity_card : Text → ℕ → SeverityFilter → Option SeverityFilter → List Alert → Card
  severity_card caption count f severity_filter alerts = record {
    caption = caption;
    value = print count;
    footer = total_line alerts;
    pressed = some (is_pressed severity_filter f);
    lit = ltb 0 count;
  }

  unfoldable pub critical_card : Option SeverityFilter → List Alert → Card
  unfolding critical_count
  critical_card severity_filter alerts =
      severity_card (codes "Critical / Live Buffer") (critical_count alerts) only_critical
        severity_filter alerts

  unfoldable pub high_card : Option SeverityFilter → List Alert → Card
  unfolding high_count
  high_card severity_filter alerts =
      severity_card (codes "High / Live Buffer") (high_count alerts) only_high severity_filter
        alerts

  -- `avgConfidence`, 0 where there is no alert, and the card that shows it.
  abbrev pub avg_confidence : List Alert → Text
  avg_confidence [] = codes "0.0%"
  avg_confidence (a ∷ alerts) = percent (confidence_sum (a ∷ alerts)) (length (a ∷ alerts))

  unfoldable pub confidence_card : List Alert → Card
  unfolding confidence_sum
  confidence_card alerts = record {
    caption = codes "Mean Confidence";
    value = avg_confidence alerts;
    footer =
        codes "across "
        ++ (if length alerts == 0 then codes "0" else codes "6")
        ++ codes " detectors";
    pressed = none;
    lit = true;
  }

  -- The value and the last line of the card of the dominant vector.
  abbrev vector_lines : Option (Text × ℕ) → Text × Text
  vector_lines none = (codes "None Detected", codes "awaiting telemetry")
  vector_lines (some (vector, count)) =
      (get_short_threat_name vector, print count ++ codes " live detections")

  unfoldable pub vector_card : List Alert → Card
  unfolding top_vector_entry get_short_threat_name
  vector_card alerts =
      let lines = vector_lines (top_vector_entry alerts) in
      record {
        caption = codes "Dominant Vector";
        value = lines.0;
        footer = lines.1;
        pressed = none;
        lit = true;
      }

-- Its label, whether it can be focused, and whether it reads as disabled.
unfoldable pub vector_button : List Alert → Text × Bool × Bool
unfolding top_vector_entry
vector_button alerts = elim (top_vector_entry alerts) [
  | none ↦ (codes "No dominant vector available", false, true)
  | some e ↦ (codes "Inspect dominant vector " ++ e.0, true, false)
]

-- What a press does to the alert that the drawer shows: without an alert it stays.
abbrev opened : Option Alert → Option Alert → Option Alert
opened none selected = selected
opened (some a) selected = some a

-- `handleDominantVectorKeyDown`
unfoldable pub vector_key : (key : Text) → List Alert → (selected : Option Alert) → Option Alert
unfolding open_dominant_vector text_eq
vector_key key alerts selected =
    if text_eq key (codes "Enter") || text_eq key (codes " ")
    then opened (open_dominant_vector alerts) selected
    else selected
