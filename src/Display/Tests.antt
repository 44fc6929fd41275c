-- ===== src/Display/Tests.antt =====
-- The number at a concrete time.
use threat_lens.Base.{◌≡◌, refl, none}
use threat_lens.Display.Throttle.{Number, changed, happen, value_changed}

abbrev shown : Number
shown = record { target_value = 3; last_update = 1000; timer = none }

-- A value that comes a tenth of a second after the last one waits for its turn.
too_early : (happen (changed 1100 8) shown).last_update ≡ 1000
unfolding value_changed
too_early = refl
