-- ===== src/Navbar/Tests.antt =====
-- The badge at concrete sequences of events.
use threat_lens.Base.{◌≡◌, refl, [], none, some, false, ◌∷◌}
use threat_lens.Socket.{connected}
use threat_lens.Navbar.{
  Monitor, check_answered, initial_monitor, late_fired, run_started, stale_fired,
}
use threat_lens.Navbar.Idle.{
  Watch, IsWatched, Reach, Reach-IsWatched, answered, happen, initial_watch, rerun, start, step,
}

-- Connected, and 40 flows seen.
abbrev flowing : Watch
flowing = happen (answered none 40) (happen (rerun none connected) initial_watch)

flowing-Reach : Reach flowing
unfolding run_started
flowing-Reach =
    step (answered none 40) (happen (rerun none connected) initial_watch)
      (step (rerun none connected) initial_watch start tt) refl

Reach-IsWatched_example : IsWatched flowing
Reach-IsWatched_example = Reach-IsWatched flowing flowing-Reach

-- The timeout of a run, and then the answer to a check of the run before it: the stream is shown as
-- live, and the only timer left, that of the earlier run, does not end that.
abbrev kept_alive : Monitor
kept_alive =
    check_answered (some 0) 40
      (stale_fired (run_started none connected (run_started none connected initial_monitor)))

live_for_ever :
    (kept_alive.is_stale ≡ false)
    × (kept_alive.timer ≡ false)
    × (kept_alive.late_timers ≡ 0 ∷ [])
    × ((late_fired 0 kept_alive).is_stale ≡ false)
unfolding run_started check_answered stale_fired late_fired
live_for_ever = (refl, refl, refl, refl)
