-- ===== src/Trends/Tests.antt =====
-- The trend chart at concrete alerts.
use threat_lens.Base.{◌≡◌, refl, Option, Text, [], arith, codes, some, text_eq, ℕ, ◌∷◌}
use threat_lens.Trends.{CachedAlert, chart_data, empty_chart, is_known_class, points_per_chart}
use threat_lens.Trends.Slices.{slice_sum, slice_sum-chart_data}

abbrev any_date : Text → Option ℕ
any_date t = some 400000

abbrev scan_at : ℕ → CachedAlert
scan_at t = record { id = codes "x"; timestamp = t; threat_class = codes "Reconnaissance Scan" }

-- The alert at `now` itself is in no slice.
slice_sum-chart_data_example :
    slice_sum
      (points_per_chart 5)
      (chart_data 100000 400000 5 (scan_at 399999 ∷ scan_at 400000 ∷ scan_at 5 ∷ []) empty_chart)
      (codes "Reconnaissance Scan")
    ≡ 1
unfolding is_known_class text_eq
slice_sum-chart_data_example =
    slice_sum-chart_data 100000 400000 5 (codes "Reconnaissance Scan")
      (scan_at 399999 ∷ scan_at 400000 ∷ scan_at 5 ∷ []) (omega arith) refl refl
