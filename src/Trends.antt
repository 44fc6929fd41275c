-- ===== src/Trends.antt =====
-- frontend/src/components/ThreatTrends.tsx: the session's cache of alerts, the counts of the time
-- slices, and the scale of the chart. `new Date(text).getTime()` is the parameter `parse_date`.
pub mod Slices
pub mod Scale
pub mod Screen
mod Tests
use threat_lens.Base.{
  ◌≡◌, refl, Bool, List, Option, Text, [], any, codes, filter, if◌then◌else◌, leb, ltb, none, not,
  or_default, some, text_eq, text_or, ℕ, ◌&&◌, ◌*◌, ◌++◌, ◌+◌, ◌-◌, ◌/◌, ◌==◌, ◌∷◌,
}
use threat_lens.Types.{Alert, all_classes, class_value}

pub record CachedAlert : Type 0 where
  pub id : Text
  pub timestamp : ℕ
  pub threat_class : Text

-- `alert.alert_id || `${timestamp}-${flow_id}-${threat_class}``: an empty `alert_id` does not count.
unfoldable pub cache_id : Alert → Text
cache_id a =
    text_or (or_default a.alert_id [])
      (a.timestamp ++ (codes "-" ++ (a.flow_id ++ (codes "-" ++ a.threat_class))))

unfoldable pub has_id : Text → List CachedAlert → Bool
has_id id cache = any (λ item. text_eq item.id id) cache

abbrev pub six_hours : ℕ
six_hours = 6 * 60 * 60 * 1000

-- `item.timestamp < Date.now() - 6 h`
abbrev pub is_old : ℕ → CachedAlert → Bool
is_old now item = ltb (item.timestamp + six_hours) now

module _ (parse_date : Text → Option ℕ) where
  abbrev cached : Text → Option ℕ → Text → List CachedAlert → List CachedAlert
  cached id none threat_class cache = cache
  cached id (some ts) threat_class cache =
      cache ++ record { id = id; timestamp = ts; threat_class = threat_class } ∷ []

  -- One round of the loop over the alerts; the map keeps the order of insertion.
  unfoldable pub remember : Alert → List CachedAlert → List CachedAlert
  unfolding has_id
  remember a cache =
      if has_id (cache_id a) cache
      then cache
      else cached (cache_id a) (parse_date a.timestamp) a.threat_class cache

  unfoldable pub remember_all : List Alert → List CachedAlert → List CachedAlert
  unfolding remember
  remember_all [] cache = cache
  remember_all (a ∷ alerts) cache = remember_all alerts (remember a cache)

  -- The effect on the alerts of the buffer; without alerts it does nothing.
  unfoldable pub cache_effect : (now : ℕ) → List Alert → List CachedAlert → List CachedAlert
  unfolding remember_all
  cache_effect now [] cache = cache
  cache_effect now (a ∷ alerts) cache =
      filter (λ item. not (is_old now item)) (remember_all (a ∷ alerts) cache)

unfoldable pub points_per_chart : ℕ → ℕ
points_per_chart window_minutes = if leb window_minutes 1 then 30 else 60

abbrev pub total_window_ms : ℕ → ℕ
total_window_ms window_minutes = window_minutes * 60 * 1000

unfoldable pub bucket_ms : ℕ → ℕ
unfolding points_per_chart
bucket_ms window_minutes = total_window_ms window_minutes / points_per_chart window_minutes

-- A class that is spelled like another key of a point (`time`, `timestamp`, or one that every object
-- inherits) is outside the model.
unfoldable pub is_known_class : Text → Bool
unfolding text_eq class_value
is_known_class c = any (λ known. text_eq (class_value known) c) all_classes

-- The counts of the chart, by slice and class.
abbrev pub Chart : Type 0
Chart = ℕ → Text → ℕ

abbrev pub empty_chart : Chart
empty_chart i c = 0

unfoldable pub increment : ℕ → Text → Chart → Chart
unfolding text_eq
increment slice threat_class chart i c =
    if i == slice && text_eq threat_class c then chart i c + 1 else chart i c

-- One round of the loop that distributes the cached alerts, for the window that starts at `start`.
unfoldable pub distribute : (start now window_minutes : ℕ) → CachedAlert → Chart → Chart
unfolding increment is_known_class bucket_ms
distribute start now window_minutes item chart =
    if leb start item.timestamp && leb item.timestamp now
    then (if ltb ((item.timestamp - start) / bucket_ms window_minutes)
            (points_per_chart window_minutes)
          && is_known_class item.threat_class
        then increment ((item.timestamp - start) / bucket_ms window_minutes) item.threat_class chart
        else chart)
    else chart

unfoldable pub chart_data : (start now window_minutes : ℕ) → List CachedAlert → Chart → Chart
unfolding distribute
chart_data start now window_minutes [] chart = chart
chart_data start now window_minutes (item ∷ items) chart =
    chart_data start now window_minutes items (distribute start now window_minutes item chart)

-- `niceMaxs`
abbrev pub nice_maxs : List ℕ
nice_maxs = 3 ∷ 5 ∷ 10 ∷ 15 ∷ 20 ∷ 30 ∷ 50 ∷ 100 ∷ []

abbrev pub first_at_least : ℕ → List ℕ → ℕ → ℕ
first_at_least value [] found = found
first_at_least value (m ∷ ms) found = if leb value m then m else first_at_least value ms found

unfoldable pub nice_max : ℕ → ℕ
nice_max value = if ltb 100 value then (value + 49) / 50 * 50 else first_at_least value nice_maxs 5

unfoldable pub ticks_of : ℕ → List ℕ
ticks_of n =
    if n == 3
    then 0 ∷ 1 ∷ 2 ∷ 3 ∷ []
    else if n == 5
    then 0 ∷ 2 ∷ 5 ∷ []
    else if n == 10
    then 0 ∷ 5 ∷ 10 ∷ []
    else if n == 15
    then 0 ∷ 5 ∷ 10 ∷ 15 ∷ []
    else if n == 20
    then 0 ∷ 10 ∷ 20 ∷ []
    else if n == 30
    then 0 ∷ 15 ∷ 30 ∷ []
    else 0 ∷ n / 2 ∷ n ∷ []
