-- ===== src/Throughput/Tests.antt =====
-- The gauge at concrete samples.
use threat_lens.Base.{◌≡◌, refl, List, [], arith, length, none, suc, true, zero, ℕ, ◌+◌, ◌∷◌}
use threat_lens.Throughput.{Point, Gauge, downsample, fetch_metrics, sample}
use threat_lens.Throughput.History.{IsHistory, fetch_metrics-IsHistory}

abbrev at_time : ℕ → Point
at_time t = record { timestamp = t; flows = 4; pps = 900; mbps = 120 }

abbrev points_from : ℕ → ℕ → List Point
points_from zero t = []
points_from (suc n) t = at_time t ∷ points_from n (t + 1500)

abbrev empty_gauge : Gauge
empty_gauge = record { points = []; stored = []; current = none; peak_mbps = 0 }

-- The bound is met: 280 points are drawn as 141.
drawn_280 : length (downsample (points_from 280 0)) ≡ 141
unfolding downsample
drawn_280 = refl

fetch_metrics-IsHistory_example :
    IsHistory 700 (fetch_metrics true (sample (at_time 700)) empty_gauge)
fetch_metrics-IsHistory_example =
    fetch_metrics-IsHistory true (sample (at_time 700)) 500 empty_gauge (omega arith) (omega arith)
