-- ===== src/Trends/Slices.antt =====
-- The slices of the trend chart count every cached alert of the window once.
use native.Mathlib.Nat.{div-lt_iff_lt-mul}
use threat_lens.Base.{
  ◌≡◌, refl, Bool, Text, arith, if◌then◌else◌, leb, ltb, suc, text_eq, zero, ℕ, ◌&&◌, ◌*◌, ◌+◌, ◌-◌,
  ◌/◌, ◌<◌, ◌↔◌, ◌≤◌, Bool-cases, List, filter, ge→ltb, inl, inr, length, ltb→lt, lt→ltb, true, [],
  leb→le, ◌∷◌,
}
use threat_lens.Base.StringLaws.{eq_of_text_eq}
use threat_lens.Trends.{
  CachedAlert, Chart, bucket_ms, empty_chart, increment, points_per_chart, total_window_ms,
  chart_data, distribute, is_known_class,
}

-- The sum of the first slices for a class.
unfoldable pub slice_sum : ℕ → Chart → Text → ℕ
slice_sum zero chart c = 0
slice_sum (suc n) chart c = slice_sum n chart c + chart n c

-- Is the item of the class and of the half-open window?
abbrev pub is_counted : (start now : ℕ) → Text → CachedAlert → Bool
is_counted start now c item =
    leb start item.timestamp && ltb item.timestamp now && text_eq item.threat_class c

slice_sum-increment :
    (n slice : ℕ) (threat_class c : Text) (chart : Chart)
    → slice_sum n (increment slice threat_class chart) c
      ≡ slice_sum n chart c + (if ltb slice n && text_eq threat_class c then 1 else 0)
unfolding slice_sum increment
slice_sum-increment zero slice threat_class c chart = ground arith
slice_sum-increment (suc n) slice threat_class c chart =
    ground (arith, slice_sum-increment n slice threat_class c chart)

slice_sum-empty : (n : ℕ) (c : Text) → slice_sum n empty_chart c ≡ 0
unfolding slice_sum
slice_sum-empty zero c = refl
slice_sum-empty (suc n) c = omega (arith, slice_sum-empty n c)

-- A slice of the chart lasts a whole number of milliseconds, and the slices fill the window.
slices_fill : (w : ℕ) → points_per_chart w * bucket_ms w ≡ total_window_ms w
unfolding bucket_ms
slices_fill w = ground arith

bucket_ms-pos : (w : ℕ) → 0 < w → 0 < bucket_ms w
unfolding bucket_ms
bucket_ms-pos w p = ground arith

in_range_iff :
    (start now w t : ℕ)
    → 0 < w
    → start + total_window_ms w ≡ now
    → start ≤ t
    → ((t - start) / bucket_ms w < points_per_chart w) ↔ (t < now)
in_range_iff start now w t p e h =
    let d = div-lt_iff_lt-mul {x = t - start} {y = points_per_chart w} (bucket_ms-pos w p) in
    let f = slices_fill w in (λ q. omega (arith, d.0 q, f), λ q. d.1 (omega (arith, f)))

slice_of-lt :
    (start now w t : ℕ)
    → 0 < w
    → start + total_window_ms w ≡ now
    → start ≤ t
    → ltb ((t - start) / bucket_ms w) (points_per_chart w) ≡ ltb t now
slice_of-lt start now w t p e h =
    let r = in_range_iff start now w t p e h in
    elim (Bool-cases (ltb t now)) [
      | inl q ↦ rw q (lt→ltb _ _ (r.1 (ltb→lt t now q)))
      | inr q ↦
          rw q
            (ge→ltb ((t - start) / bucket_ms w) (points_per_chart w) (λ lt. ground (arith, r.0 lt)))
    ]

distribute_lem :
    (start now w : ℕ) (item : CachedAlert) (chart : Chart)
    → distribute start now w item chart ≡ (
        if leb start item.timestamp && leb item.timestamp now
        then (if ltb ((item.timestamp - start) / bucket_ms w) (points_per_chart w)
              && is_known_class item.threat_class
            then increment ((item.timestamp - start) / bucket_ms w) item.threat_class chart
            else chart)
        else chart)
unfolding distribute
distribute_lem start now w item chart = refl

known_of_eq : (a c : Text) → is_known_class c ≡ true → text_eq a c ≡ true → is_known_class a ≡ true
known_of_eq a c k h = rw (eq_of_text_eq a c h) k

slice_sum-distribute :
    (start now w : ℕ) (c : Text) (item : CachedAlert) (chart : Chart)
    → 0 < w
    → start + total_window_ms w ≡ now
    → is_known_class c ≡ true
    → slice_sum (points_per_chart w) (distribute start now w item chart) c
      ≡ slice_sum (points_per_chart w) chart c + (if is_counted start now c item then 1 else 0)
slice_sum-distribute start now w c item chart p e k =
    let slice = (item.timestamp - start) / bucket_ms w in
    let cls = item.threat_class in
    rw (distribute_lem start now w item chart) (elim (Bool-cases (leb start item.timestamp)) [
      | inl q ↦ ground (
        arith,
        slice_of-lt start now w item.timestamp p e (leb→le start item.timestamp q),
        slice_sum-increment (points_per_chart w) slice cls c chart,
        known_of_eq cls c k,
      )
      | inr q ↦ rw q (omega arith)
    ])

chart_data_lem :
    (start now w : ℕ) (item : CachedAlert) (items : List CachedAlert) (chart : Chart)
    → chart_data start now w (item ∷ items) chart
      ≡ chart_data start now w items (distribute start now w item chart)
unfolding chart_data
chart_data_lem start now w item items chart = refl

slice_sum-chart_from :
    (start now w : ℕ) (c : Text) (items : List CachedAlert) (chart : Chart)
    → 0 < w
    → start + total_window_ms w ≡ now
    → is_known_class c ≡ true
    → slice_sum (points_per_chart w) (chart_data start now w items chart) c
      ≡ slice_sum (points_per_chart w) chart c + length (filter (is_counted start now c) items)
slice_sum-chart_from start now w c [] chart p e k = unfold chart_data in omega arith
slice_sum-chart_from start now w c (item ∷ items) chart p e k =
    rw (chart_data_lem start now w item items chart) (
      ground (
        arith,
        slice_sum-chart_from start now w c items (distribute start now w item chart) p e k,
        slice_sum-distribute start now w c item chart p e k,
      ))

-- For each of the six classes, the counts of the chart's slices add up to the number of cached
-- alerts of that class in the window, the instant `now` itself left out: no alert is counted twice
-- or lost between two slices.
pub slice_sum-chart_data :
    (start now w : ℕ) (c : Text) (items : List CachedAlert)
    → 0 < w
    → start + total_window_ms w ≡ now
    → is_known_class c ≡ true
    → slice_sum (points_per_chart w) (chart_data start now w items empty_chart) c
      ≡ length (filter (is_counted start now c) items)
slice_sum-chart_data start now w c items p e k = omega (
  arith,
  slice_sum-chart_from start now w c items empty_chart p e k,
  slice_sum-empty (points_per_chart w) c,
)
