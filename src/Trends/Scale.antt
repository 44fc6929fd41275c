-- ===== src/Trends/Scale.antt =====
-- The vertical scale of the trend chart covers its data.
use threat_lens.Base.{◌≡◌, All, List, [], arith, last?, some, ℕ, ◌<◌, ◌∷◌, ◌≤◌}
use threat_lens.Trends.{nice_max, ticks_of}

abbrev pub IsRising : List ℕ → Type 0
IsRising [] = Unit {0}
IsRising (t ∷ ts) = All (λ u. t < u) ts × IsRising ts

nice_max-ge : (value : ℕ) → (value ≤ nice_max value) × (3 ≤ nice_max value)
unfolding nice_max
nice_max-ge value = ground arith

ticks_of-IsRising : (n : ℕ) → 3 ≤ n → IsRising (ticks_of n) × (last? (ticks_of n) ≡ some n)
unfolding ticks_of
ticks_of-IsRising n h = (ground arith, ground arith)

-- Whatever the counts are, the ticks of the axis rise from 0 to an upper end that no count exceeds.
pub ticks_cover :
    (value : ℕ)
    → IsRising (ticks_of (nice_max value))
      × (last? (ticks_of (nice_max value)) ≡ some (nice_max value))
      × (value ≤ nice_max value)
ticks_cover value =
    let (up, least) = nice_max-ge value in
    let (rising, last) = ticks_of-IsRising (nice_max value) least in (rising, last, up)
