-- ===== src/Throughput/Screen.antt =====
-- frontend/src/components/ThroughputGauge.tsx: what the gauge shows of its samples: the three cards,
-- the choice of the window, the tooltip, the labels of the axis, and the chart's colours and dots.
-- `to_fixed` is `x.toFixed(2)` of a rate in hundredths, `rounded` is `Math.round(x).toLocaleString()`.
use threat_lens.Base.{
  ◌≡◌, refl, Bool, List, Option, Text, [], codes, drop, false, if◌then◌else◌, leb, none, some, take,
  true, ℕ, ◌++◌, ◌-◌, ◌==◌, ◌∷◌, lookup_text, text_eq, not,
}
use threat_lens.Throughput.{Gauge, MetricKey, Point, flows, mbps, nice_y_max, pps, visible_data}

-- `metricConfig`, without the classes of the style.
pub record MetricConfig : Type 0 where
  pub title : Text
  pub unit : Text
  pub subtext : Text
  pub color : Text
  pub gradient_id : Text

unfoldable pub metric_config : MetricKey → MetricConfig
metric_config flows = record {
  title = codes "Flows Ingress";
  unit = codes "flows/s";
  subtext = codes "Live TCP/UDP connection 5-tuples";
  color = codes "#10b981";
  gradient_id = codes "flowGradient";
}
metric_config pps = record {
  title = codes "Packet Velocity";
  unit = codes "pps";
  subtext = codes "Promiscuous line-rate packet flow";
  color = codes "#38bdf8";
  gradient_id = codes "ppsGradient";
}
metric_config mbps = record {
  title = codes "Wire Bandwidth";
  unit = codes "Mbps";
  subtext = codes "Payload bitstream across physical TAP";
  color = codes "#a855f7";
  gradient_id = codes "mbpsGradient";
}

-- The gradients that the chart defines, by their ids, with the colour of their stops.
abbrev pub gradients : List (Text × Text)
gradients =
    (codes "flowGradient", codes "#10b981")
    ∷ (codes "ppsGradient", codes "#38bdf8")
    ∷ (codes "mbpsGradient", codes "#a855f7")
    ∷ []

-- `iso.substring(from, to)`
abbrev substring : (from to : ℕ) → Text → Text
substring from to iso = take (to - from) (drop from iso)

-- `.replace("T", " ")`: the first one.
unfoldable pub blank_for_t : Text → Text
blank_for_t [] = []
blank_for_t (c ∷ text) = let rest = blank_for_t text in if c == 84 then 32 ∷ text else c ∷ rest

-- `formatWindowLabel`, for the time in ISO format.
unfoldable pub format_window_label : (iso : Text) → (window_minutes : ℕ) → Text
unfolding blank_for_t
format_window_label iso window_minutes =
    if leb window_minutes 5
    then substring 11 19 iso
    else if leb window_minutes 60
    then substring 11 16 iso
    else blank_for_t (substring 5 16 iso)

-- The choice of the window: the minutes and the text of each option.
abbrev pub window_options : List (ℕ × Text)
window_options =
    (1, codes "LIVE 1M")
    ∷ (5, codes "LAST 5M")
    ∷ (15, codes "LAST 15M")
    ∷ (60, codes "LAST 1H")
    ∷ (360, codes "LAST 6H")
    ∷ []

pub record Settings : Type 0 where
  pub window_minutes : ℕ
  pub active_metric : MetricKey

abbrev pub initial_settings : Settings
initial_settings = record { window_minutes = 5; active_metric = flows }

-- `setWindowMinutes` on a choice, and `setActiveMetric` on a press of a card.
abbrev pub window_chosen : ℕ → Settings → Settings
window_chosen minutes s = record s { window_minutes = minutes }

abbrev pub card_pressed : MetricKey → Settings → Settings
card_pressed key s = record s { active_metric = key }

abbrev same_metric : MetricKey → MetricKey → Bool
same_metric flows flows = true
same_metric pps pps = true
same_metric mbps mbps = true
same_metric _ _ = false

-- The tag in the corner of a card.
unfoldable pub card_tag : MetricKey → Settings → Text
card_tag key s =
    if same_metric s.active_metric key then codes "ACTIVE GRAPH ▾" else codes "Switch ↗"

abbrev rate : MetricKey → Option Point → ℕ
rate key none = 0
rate flows (some p) = p.flows
rate pps (some p) = p.pps
rate mbps (some p) = p.mbps

module _ (to_fixed rounded : ℕ → Text) where
  -- A card: its title, its tag, its value, the unit and the line below.
  unfoldable pub metric_card : MetricKey → Settings → Gauge → List Text
  unfolding card_tag
  metric_card flows s g =
      codes "Flows Ingress"
      ∷ card_tag flows s
      ∷ to_fixed (rate flows g.current)
      ∷ codes "flows/s"
      ∷ codes "Live TCP/UDP connection 5-tuples"
      ∷ []
  metric_card pps s g =
      codes "Packet Velocity"
      ∷ card_tag pps s
      ∷ rounded (rate pps g.current)
      ∷ codes "pps"
      ∷ codes "Promiscuous line-rate frame rate"
      ∷ []
  metric_card mbps s g =
      codes "Wire Bandwidth"
      ∷ card_tag mbps s
      ∷ to_fixed (rate mbps g.current)
      ∷ codes "Mbps"
      ∷ (codes "Bitstream velocity (Peak: " ++ to_fixed g.peak_mbps ++ codes " Mbps)")
      ∷ []

  -- `ThroughputTooltip`: nothing while no point is under the pointer; else its head and its lines,
  -- each a label, a value and a unit.
  unfoldable pub throughput_tooltip :
      (active : Bool) → (payload : List Point) → (label : Text) → Option (Text × List (List Text))
  throughput_tooltip false payload label = none
  throughput_tooltip true [] label = none
  throughput_tooltip true (p ∷ payload) label = some (
    codes "UTC " ++ label,
    (codes "Flow Velocity:" ∷ to_fixed p.flows ∷ codes "flows/s" ∷ [])
        ∷ (codes "Packet Rate:" ∷ rounded p.pps ∷ codes "pps" ∷ [])
        ∷ (codes "Wire Bandwidth:" ∷ to_fixed p.mbps ∷ codes "Mbps" ∷ [])
        ∷ [],
  )

-- The chart: its points with their labels, the upper end of its axis and whether that has decimals,
-- the key that is drawn, the colour of the line and the gradient of the fill.
pub record ChartView : Type 0 where
  pub points : List (Point × Text)
  pub upper : ℕ
  pub decimals : Bool
  pub metric_key : MetricKey
  pub stroke : Text
  pub fill : Text

abbrev labelled : (iso_of : ℕ → Text) → (window_minutes : ℕ) → List Point → List (Point × Text)
labelled iso_of window_minutes [] = []
labelled iso_of window_minutes (p ∷ points) =
    (p, format_window_label (iso_of p.timestamp) window_minutes)
    ∷ labelled iso_of window_minutes points

unfoldable pub chart : (iso_of : ℕ → Text) → (now : ℕ) → Settings → Gauge → ChartView
unfolding visible_data nice_y_max metric_config format_window_label
chart iso_of now s g =
    let points = visible_data now s.window_minutes g.points in
    record {
      points = labelled iso_of s.window_minutes points;
      upper = nice_y_max s.active_metric points;
      decimals = not (same_metric s.active_metric pps);
      metric_key = s.active_metric;
      stroke = (metric_config s.active_metric).color;
      fill = (metric_config s.active_metric).gradient_id;
    }

-- `dot`: only the last of the points has one.
unfoldable pub has_dot : (index count : ℕ) → Bool
has_dot index count = index == count - 1

-- A press on the chart: the point under the pointer, if any, is handed on.
abbrev pub chart_pressed : (active_payload : List Point) → Option Point
chart_pressed [] = none
chart_pressed (p ∷ payload) = some p

gradient_of :
    (key : MetricKey)
    → lookup_text (metric_config key).gradient_id gradients ≡ some (metric_config key).color
unfolding metric_config text_eq
gradient_of flows = refl
gradient_of pps = refl
gradient_of mbps = refl

-- Whatever metric is chosen, the fill of the chart is a gradient that the chart defines, in the colour
-- of the line.
pub chart_fill :
    (iso_of : ℕ → Text) (now : ℕ) (s : Settings) (g : Gauge)
    → lookup_text (chart iso_of now s g).fill gradients ≡ some (chart iso_of now s g).stroke
unfolding chart
chart_fill iso_of now s g = gradient_of s.active_metric
