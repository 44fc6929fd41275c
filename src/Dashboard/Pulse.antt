-- ===== src/Dashboard/Pulse.antt =====
-- frontend/src/App.tsx: the pulse on the card of critical alerts. The effect depends on the count and
-- on the count before, which it sets itself.
use threat_lens.Base.{◌≡◌, arith, Bool, false, if◌then◌else◌, ltb, lt→ltb, true, ℕ, ◌<◌, ◌==◌}

-- `showCriticalPulse`, `prevCriticalCount`, and whether the timeout of 600 ms is pending.
pub record Pulse : Type 0 where
  pub shown : Bool
  pub prev_count : ℕ
  pub timer : Bool

-- The cleanup of a run; only a run that set a timeout has one.
abbrev pub pulse_cleanup : Pulse → Pulse
pulse_cleanup s = record s { timer = false }

-- A run of the effect, the cleanup of the run before it included.
unfoldable pub critical_effect : ℕ → Pulse → Pulse
critical_effect count s =
    if ltb s.prev_count count
    then record { shown = true; prev_count = count; timer = true }
    else record (pulse_cleanup s) { prev_count = count }

-- The callback of the timeout.
unfoldable pub pulse_fired : Pulse → Pulse
pulse_fired s = record s { shown = false; timer = false }

-- What React does at a new count: the effect runs, and once more if it changed the count before.
unfoldable pub count_changed : ℕ → Pulse → Pulse
unfolding critical_effect
count_changed count s =
    let once = critical_effect count s in
    if once.prev_count == s.prev_count then once else critical_effect count once

-- When the number of critical alerts rises, the second run of the effect clears the timeout that the
-- first one set: the pulse is shown and nothing is left to end it.
pub pulse_stays :
    (count : ℕ) (s : Pulse)
    → s.prev_count < count
    → ((count_changed count s).shown ≡ true) × ((count_changed count s).timer ≡ false)
unfolding count_changed critical_effect
pulse_stays count s h = ground (arith, lt→ltb s.prev_count count h)
