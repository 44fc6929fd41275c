-- ===== src/Table/Toolbar.antt =====
-- frontend/src/components/ThreatTable.tsx: the bar above the table: the two numbers, the view modes,
-- the pages of the archive, the window, the fields of the filters and the button that clears them;
-- and the choices of a row's status. `print` is how a number is shown, `iso_of` is
-- `new Date(t).toISOString()`.
use threat_lens.Base.{
  ◌≡◌, ap, Bool, List, Option, Text, [], codes, drop, false, length, map, none, not, some, take,
  true, ℕ, ◌++◌, ◌+◌, ◌∷◌,
}
use threat_lens.Types.{
  Alert, AlertStatus, acknowledged, all_classes, class_value, false_positive, investigating, new,
  resolved,
}
use threat_lens.Table.Filter.{Filters, all_vectors, clear_filters, filtered_alerts, has_filters}
use threat_lens.Table.FilterLaws.{filtered-clear, filtered_of_no_filters, has_filters-clear}
use threat_lens.Table.Row.{next_page, prev_page}

-- A button: its text, whether it is disabled, and whether it is marked as chosen.
pub record BarButton : Type 0 where
  pub text : Text
  pub disabled : Bool
  pub chosen : Bool

abbrev pub mode_buttons : (live_view : Bool) → List BarButton
mode_buttons live_view =
    record { text = codes "LIVE WS"; disabled = false; chosen = live_view }
    ∷ record { text = codes "ARCHIVE REST"; disabled = false; chosen = not live_view }
    ∷ []

abbrev is_none : Option ℕ → Bool
is_none none = true
is_none (some page) = false

-- The two buttons of the archive and the page between them; the live view has none.
unfoldable pub page_bar :
    (print : ℕ → Text) (live_view has_next : Bool) (page : ℕ)
    → Option (BarButton × Text × BarButton)
unfolding prev_page next_page
page_bar print true has_next page = none
page_bar print false has_next page = some (
  record { text = codes "PREV"; disabled = is_none (prev_page page); chosen = false },
  codes "PAGE " ++ print (page + 1),
  record { text = codes "NEXT"; disabled = is_none (next_page has_next page); chosen = false },
)

-- The button that drops the window.
unfoldable pub window_chip : (iso_of : ℕ → Text) → Filters → Option Text
window_chip iso_of f = elim f.time_window [
  | none ↦ none
  | some t ↦ some (codes "WINDOW " ++ (take 8 (drop 11 (iso_of t)) ++ codes " ×"))
]

-- The values and the texts of the choice of a class.
abbrev same : Text → Text × Text
same t = (t, t)

abbrev pub class_choices : List (Text × Text)
class_choices = (all_vectors, codes "All Vectors") ∷ map (λ c. same (class_value c)) all_classes

-- The handlers of the bar's fields, and of the button on the window.
pub data FilterEvent : Type 0 where
  query_typed : Text → FilterEvent
  class_chosen : Text → FilterEvent
  confidence_slid : ℕ → FilterEvent
  window_dropped : FilterEvent
  clear_pressed : FilterEvent

unfoldable pub filter_step : FilterEvent → Filters → Filters
unfolding clear_filters
filter_step (query_typed text) f = record f { search_query = text }
filter_step (class_chosen value) f = record f { selected_class = value }
filter_step (confidence_slid least) f = record f { min_confidence = least }
filter_step window_dropped f = record f { time_window = none }
filter_step clear_pressed f = clear_filters f

-- Is the button CLEAR there?
abbrev pub shows_clear : Filters → Bool
shows_clear f = has_filters f

-- The headings of the columns.
abbrev pub columns : List Text
columns =
    codes "Time"
    ∷ codes "Flow (Src → Dst)"
    ∷ codes "Threat Class"
    ∷ codes "Severity"
    ∷ codes "Confidence"
    ∷ codes "Status"
    ∷ codes "Action"
    ∷ []

-- The values of the choice of a status, and their texts: `replace("_", " ")`, in capitals by style.
abbrev pub status_choices : List (AlertStatus × Text)
status_choices =
    (new, codes "new")
    ∷ (acknowledged, codes "acknowledged")
    ∷ (investigating, codes "investigating")
    ∷ (resolved, codes "resolved")
    ∷ (false_positive, codes "false positive")
    ∷ []

module _ (parse_date : Text → Option ℕ) where
  -- The two numbers beside the title: the alerts that pass, and all.
  unfoldable pub counts : (forced_empty : Bool) → Filters → List Alert → ℕ × ℕ
  unfolding filtered_alerts
  counts forced_empty f alerts =
      (length (filtered_alerts parse_date forced_empty f alerts), length alerts)

  -- Where the table offers no button to clear the filters, the two numbers of its bar are equal; and
  -- from any filters a press of that button takes it away and makes the numbers equal.
  pub counts_clear :
      (f g : Filters) (alerts : List Alert)
      → has_filters f ≡ false
      → (counts false f alerts ≡ (length alerts, length alerts))
        × (has_filters (filter_step clear_pressed g) ≡ false)
        × (counts false (filter_step clear_pressed g) alerts ≡ (length alerts, length alerts))
  unfolding counts filter_step
  counts_clear f g alerts h = (
    ap (λ l. (length l, length alerts)) (filtered_of_no_filters parse_date f alerts h),
    has_filters-clear g,
    ap (λ l. (length l, length alerts)) (filtered-clear parse_date g alerts),
  )
