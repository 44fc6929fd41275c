-- ===== src/Table/FilterLaws.antt =====
-- The filters of the table: exactly the alerts that meet each active filter are shown.
use threat_lens.Base.{
  ◌≡◌, refl, Option, Option-cases, Text, [], any, arith, codes, includes, inl, inr, none, some,
  text_eq, to_lower, trim, true, ℕ, ◌+◌, ◌↔◌, ◌≤◌, ◌⊎◌, Bool, List, ap, false, filter,
  if◌then◌else◌, ltb, not, ◌∷◌, is_truthy,
}
use threat_lens.Base.StringLaws.{text_eq_iff}
use threat_lens.Types.{Alert, SeverityLevel, critical, high, severity_value}
use threat_lens.Types.Classes.{str, matches_threat_class}
use threat_lens.Table.Filter.{
  Filters, SeverityFilter, all_vectors, class_passes, in_window, only_critical, only_high, passes,
  search_passes, searched, severity_passes, clear_filters, filtered_alerts, has_filters,
}

abbrev pub MeetsSeverity : Option SeverityFilter → SeverityLevel → Type 0
MeetsSeverity none s = Unit {0}
MeetsSeverity (some only_critical) s = s ≡ critical
MeetsSeverity (some only_high) s = s ≡ high

-- Within five seconds of the window; a timestamp that is no date is in no window.
abbrev pub MeetsWindow : Option ℕ → Option ℕ → Type 0
MeetsWindow none t = Unit {0}
MeetsWindow (some w) none = ⊥
MeetsWindow (some w) (some t) = (t ≤ w + 5000) × (w ≤ t + 5000)

-- What the filters ask of an alert, one field for each.
pub record IsShown (parse_date : Text → Option ℕ) (f : Filters) (a : Alert) : Type 0 where
  pub window : MeetsWindow f.time_window (parse_date a.timestamp)
  pub severity : MeetsSeverity f.severity_filter a.severity
  pub class :
      (f.selected_class ≡ all_vectors)
      ⊎ (matches_threat_class (str a.threat_class) f.selected_class ≡ true)
  pub confidence : f.min_confidence ≤ a.confidence_score
  pub search :
      (trim f.search_query ≡ [])
      ⊎ (any (λ field. includes field (trim (to_lower f.search_query))) (searched a) ≡ true)

in_window_iff :
    (parse_date : Text → Option ℕ) (o : Option ℕ) (a : Alert)
    → (in_window parse_date o a ≡ true) ↔ MeetsWindow o (parse_date a.timestamp)
unfolding in_window
in_window_iff parse_date none a = (λ _. tt, λ _. refl)
in_window_iff parse_date (some w) a = elim (Option-cases (parse_date a.timestamp)) [
  | inl e ↦ rw e (λ h. cc, λ h. absurd h)
  | inr (t, e) ↦ rw e (λ h. ground arith, λ h. ground arith)
]

severity_text_iff :
    (s : SeverityLevel)
    → ((text_eq (to_lower (severity_value s)) (codes "critical") ≡ true) ↔ (s ≡ critical))
      × ((text_eq (to_lower (severity_value s)) (codes "high") ≡ true) ↔ (s ≡ high))
unfolding to_lower text_eq
severity_text_iff critical = ((λ h. refl, λ h. refl), (λ h. cc, λ h. cc))
severity_text_iff high = ((λ h. cc, λ h. cc), (λ h. refl, λ h. refl))
severity_text_iff s = ((λ h. cc, λ h. cc), (λ h. cc, λ h. cc))

severity_iff :
    (o : Option SeverityFilter) (a : Alert)
    → (severity_passes o a ≡ true) ↔ MeetsSeverity o a.severity
unfolding severity_passes
severity_iff none a = (λ _. tt, λ _. refl)
severity_iff (some only_critical) a = (severity_text_iff a.severity).0
severity_iff (some only_high) a = (severity_text_iff a.severity).1

class_iff :
    (selected : Text) (a : Alert)
    → (class_passes selected a ≡ true)
      ↔ ((selected ≡ all_vectors) ⊎ (matches_threat_class (str a.threat_class) selected ≡ true))
unfolding class_passes
class_iff selected a = ground (arith, text_eq_iff selected all_vectors)

search_iff :
    (query : Text) (a : Alert)
    → (search_passes query a ≡ true) ↔ (
        (trim query ≡ [])
        ⊎ (any (λ field. includes field (trim (to_lower query))) (searched a) ≡ true))
unfolding search_passes
search_iff query a = ground arith

-- The chain of early returns, over its five tests.
early_returns :
    (w s c below q : Bool)
    → ((if not w
          then false
          else if not s
          then false
          else if not c
          then false
          else if below
          then false
          else q)
        ≡ true)
      ↔ ((w ≡ true) × (s ≡ true) × (c ≡ true) × (below ≡ false) × (q ≡ true))
early_returns w s c below q = ground arith

-- An alert passes the predicate of the table exactly when it meets every filter: the time window,
-- the severity, the class, the least confidence and the search.
pub passes_iff :
    (parse_date : Text → Option ℕ) (f : Filters) (a : Alert)
    → (passes parse_date f a ≡ true) ↔ IsShown parse_date f a
unfolding passes
passes_iff parse_date f a =
    let w = in_window_iff parse_date f.time_window a in
    let s = severity_iff f.severity_filter a in
    let c = class_iff f.selected_class a in
    let q = search_iff f.search_query a in
    let tests =
      early_returns (in_window parse_date f.time_window a) (severity_passes f.severity_filter a)
        (class_passes f.selected_class a) (ltb a.confidence_score f.min_confidence)
        (search_passes f.search_query a) in
    (
      λ h.
          let t = tests.0 h in
          record {
            window = w.0 t.0;
            severity = s.0 t.1;
            class = c.0 t.2;
            confidence = ground arith;
            search = q.0 t.4;
          },
      λ h. tests.1 (w.1 h.window, s.1 h.severity, c.1 h.class, ground arith, q.1 h.search),
    )

filter-true : (p : Alert → Bool) (xs : List Alert) → ((x : Alert) → p x ≡ true) → filter p xs ≡ xs
filter-true p [] h = refl
filter-true p (x ∷ xs) h = rw (h x) (ap (◌∷◌ x) (filter-true p xs h))

cleared-IsShown :
    (parse_date : Text → Option ℕ) (f : Filters) (a : Alert)
    → IsShown parse_date (clear_filters f) a
unfolding clear_filters trim
cleared-IsShown parse_date f a = record {
  window = tt;
  severity = tt;
  class = inl refl;
  confidence = omega arith;
  search = inl refl;
}

-- After CLEAR the table shows every alert, in order, whatever the filters were.
pub filtered-clear :
    (parse_date : Text → Option ℕ) (f : Filters) (alerts : List Alert)
    → filtered_alerts parse_date false (clear_filters f) alerts ≡ alerts
unfolding filtered_alerts
filtered-clear parse_date f alerts =
    filter-true _ alerts
      (λ a. (passes_iff parse_date (clear_filters f) a).1 (cleared-IsShown parse_date f a))

-- CLEAR is not offered where no filter is set, and after CLEAR none is.
pub has_filters-clear : (f : Filters) → has_filters (clear_filters f) ≡ false
unfolding has_filters clear_filters
has_filters-clear f = refl

nil_of_falsy : (s : Text) → is_truthy s ≡ false → s ≡ []
nil_of_falsy [] h = refl
nil_of_falsy (c ∷ s) h = cc

unset :
    (f : Filters)
    → has_filters f ≡ false
    → (f.selected_class ≡ all_vectors)
      × (f.min_confidence ≡ 0)
      × (trim f.search_query ≡ [])
      × (f.severity_filter ≡ none)
      × (f.time_window ≡ none)
unfolding has_filters
unset f h = (
  ground (arith, text_eq_iff f.selected_class all_vectors),
  ground arith,
  nil_of_falsy (trim f.search_query) (ground arith),
  ground arith,
  ground arith,
)

-- Where the table offers no button to clear the filters, it hides no alert.
pub filtered_of_no_filters :
    (parse_date : Text → Option ℕ) (f : Filters) (alerts : List Alert)
    → has_filters f ≡ false
    → filtered_alerts parse_date false f alerts ≡ alerts
unfolding filtered_alerts
filtered_of_no_filters parse_date f alerts h =
    let (c, m, q, s, w) = unset f h in
    filter-true _ alerts (λ a. (passes_iff parse_date f a).1 (record {
      window = rw w tt;
      severity = rw s tt;
      class = inl c;
      confidence = omega arith;
      search = inl q;
    }))
