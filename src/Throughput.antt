-- ===== src/Throughput.antt =====
-- frontend/src/components/ThroughputGauge.tsx: the history of throughput samples, what of it is
-- stored, and which of its points are drawn. The rates of a sample are natural numbers, in
-- hundredths; the clock, the random fallback and the conversion of a measurement are inputs.
pub mod Downsample
pub mod History
pub mod Screen
mod Tests
use threat_lens.Base.{
  ◌≡◌, refl, Bool, List, Option, [], filter, if◌then◌else◌, last?, leb, length, ltb, max, none,
  some, take_last, ℕ, ◌%◌, ◌*◌, ◌++◌, ◌+◌, ◌-◌, ◌/◌, ◌==◌, ◌||◌, ◌∷◌,
}

-- `TrafficWindow`, without the label, which is a function of the timestamp.
pub record Point : Type 0 where
  pub timestamp : ℕ
  pub flows : ℕ
  pub pps : ℕ
  pub mbps : ℕ

pub data MetricKey : Type 0 where
  flows pps mbps : MetricKey

abbrev pub metric : MetricKey → Point → ℕ
metric flows p = p.flows
metric pps p = p.pps
metric mbps p = p.mbps

abbrev pub max_history_points : ℕ
max_history_points = 43200

abbrev pub max_render_points : ℕ
max_render_points = 140

abbrev pub stored_points : ℕ
stored_points = 180

pub record Gauge : Type 0 where
  pub points : List Point
  pub stored : List Point
  pub current : Option Point
  pub peak_mbps : ℕ

-- `Math.ceil(n / MAX_RENDER_POINTS)`
abbrev pub render_step : ℕ → ℕ
render_step n = (n + (max_render_points - 1)) / max_render_points

-- `points.filter((_, index) => index % step === 0 || index === last)`, from an index on.
unfoldable pub pick : (step last index : ℕ) → List Point → List Point
pick step last index [] = []
pick step last index (p ∷ points) =
    let rest = pick step last (index + 1) points in
    if index % step == 0 || index == last then p ∷ rest else rest

unfoldable pub downsample : List Point → List Point
unfolding pick
downsample points =
    if leb (length points) max_render_points
    then points
    else pick (render_step (length points)) (length points - 1) 0 points

-- `next.slice(-MAX_HISTORY_POINTS)` behind the new point, and what goes to the session storage.
abbrev pub recorded : Point → Gauge → Gauge
recorded p g =
    let trimmed = take_last max_history_points (g.points ++ p ∷ []) in
    record g { points = trimmed; stored = take_last stored_points trimmed; current = some p }

-- `fetchMetrics`: a response that is not ok changes nothing, a sample is recorded and may raise
-- the peak, and where the request throws a made-up sample is recorded that does not.
pub data Poll : Type 0 where
  not_ok : Poll
  sample : Point → Poll
  threw : (made_up : Point) → Poll

unfoldable pub fetch_metrics : (mounted : Bool) → Poll → Gauge → Gauge
fetch_metrics mounted not_ok g = g
fetch_metrics mounted (sample p) g =
    if mounted then record (recorded p g) { peak_mbps = max g.peak_mbps p.mbps } else g
fetch_metrics mounted (threw p) g = if mounted then recorded p g else g

-- The first state: the stored history, if it parses to a list whose last point is younger than ten
-- minutes.
unfoldable pub restored_points : (now : ℕ) → Option (List Point) → List Point
restored_points now none = []
restored_points now (some parsed) = elim (last? parsed) [
  | none ↦ []
  | some latest ↦ if ltb now (latest.timestamp + 10 * 60 * 1000) then parsed else []
]

-- `filtered`
unfoldable pub in_view : (now window_minutes : ℕ) → List Point → List Point
in_view now window_minutes points =
    filter (λ p. leb now (p.timestamp + window_minutes * 60 * 1000)) points

-- `visibleData`, without the labels.
unfoldable pub visible_data : (now window_minutes : ℕ) → List Point → List Point
unfolding downsample in_view
visible_data now window_minutes points = downsample (in_view now window_minutes points)

-- `maxMetricValue`
unfoldable pub max_metric : MetricKey → List Point → ℕ
max_metric key [] = 0
max_metric key (p ∷ points) = max (metric key p) (max_metric key points)

abbrev pub least_scale : MetricKey → ℕ
least_scale flows = 6
least_scale pps = 500
least_scale mbps = 5

-- `niceYMax`, in whole units: `Math.ceil(v * 1.25)` for `v` in hundredths, in exact arithmetic.
unfoldable pub nice_y_max : MetricKey → List Point → ℕ
unfolding max_metric
nice_y_max key points = max ((max_metric key points * 5 + 399) / 400) (least_scale key)

-- `clearAllAlerts` of hooks/useThreatSocket.ts removes the stored history, not the points.
unfoldable pub history_removed : Gauge → Gauge
history_removed g = record g { stored = [] }
