-- ===== src/Navbar/Idle.antt =====
-- The badge does not stay live on its own. `late` notes that the answer to a check of an earlier
-- run was read while the current run was on.
use threat_lens.Base.{
  ◌≡◌, refl, Bool, Option, false, inl, inr, true, ℕ, ◌||◌, ◌⊎◌, any, none, some, ◌==◌, Bool-cases,
  ltb,
}
use threat_lens.Socket.{ConnectionStatus, connecting}
use threat_lens.Dashboard.{DevState}
use threat_lens.Navbar.{
  Monitor, late_fired, check_answered, initial_monitor, run_ended, run_started, stale_fired, begin,
  is_connected, is_stale_override,
}

pub record Watch : Type 0 where
  pub monitor : Monitor
  pub status : ConnectionStatus
  pub late : Bool

pub data Event : Type 0 where
  rerun : Option DevState → ConnectionStatus → Event
  unmounted : Event
  answered : (ended : Option ℕ) → (total_flows : ℕ) → Event
  timed_out : Event
  late_timed_out : (run : ℕ) → Event

-- A check of the current run is answered only while it polls, and only a pending timer fires.
abbrev pub Enabled : Event → Watch → Type 0
Enabled (answered none total) w = w.monitor.polling ≡ true
Enabled timed_out w = w.monitor.timer ≡ true
Enabled (late_timed_out run) w = any (λ r. r == run) w.monitor.late_timers ≡ true
Enabled _ w = Unit

abbrev pub is_late : Option ℕ → Bool
is_late none = false
is_late (some run) = true

abbrev pub happen : Event → Watch → Watch
happen (rerun dev status) w = record {
  monitor = run_started dev status w.monitor;
  status = status;
  late = false;
}
happen unmounted w = record w { monitor = run_ended w.monitor }
happen (answered ended total) w = record w {
  monitor = check_answered ended total w.monitor;
  late = w.late || is_late ended;
}
happen timed_out w = record w { monitor = stale_fired w.monitor }
happen (late_timed_out run) w = record w { monitor = late_fired run w.monitor }

abbrev pub initial_watch : Watch
initial_watch = record { monitor = initial_monitor; status = connecting; late = false }

pub data Reach : Watch → Type 0 where
  start : Reach initial_watch
  step : (e : Event) (w : Watch) → Reach w → Enabled e w → Reach (happen e w)

or_false : (b : Bool) → (b || false) ≡ b
or_false true = refl
or_false false = refl

or_true : (b : Bool) → (b || true) ≡ true
or_true true = refl
or_true false = refl

-- The timer of the current run is pending only where it polls; and a run that polls and does not show an idle
-- stream has one, unless a check of an earlier run was answered during it.
pub record IsWatched (w : Watch) : Type 0 where
  pub timed : (w.monitor.timer ≡ false) ⊎ (w.monitor.polling ≡ true)
  pub watched :
      (w.monitor.polling ≡ false)
      ⊎ (w.late ≡ true)
      ⊎ (w.monitor.is_stale ≡ true)
      ⊎ (w.monitor.timer ≡ true)

begin-IsWatched :
    (stale_override is_on : Bool) (status : ConnectionStatus) (s : Monitor)
    → IsWatched (record {
      monitor = begin stale_override is_on (run_ended s);
      status = status;
      late = false;
    })
unfolding run_ended
begin-IsWatched true is_on status s = record { timed = inl refl; watched = inl refl }
begin-IsWatched false false status s = record { timed = inl refl; watched = inl refl }
begin-IsWatched false true status s = record { timed = inr refl; watched = inr (inr (inr refl)) }

-- An answer that is of the current run, or of one before it.
answered-IsWatched :
    (ended : Option ℕ) (total : ℕ) (w : Watch)
    → IsWatched w
    → Enabled (answered ended total) w
    → IsWatched (happen (answered ended total) w)
unfolding check_answered
answered-IsWatched none total w i h = elim (Bool-cases (ltb w.monitor.last_total total)) [
  | inl e ↦ rw e (record { timed = inr h; watched = inr (inr (inr refl)) })
  | inr e ↦ rw e (record { timed = i.timed; watched = rw (or_false w.late) i.watched })
]
answered-IsWatched (some run) total w i h = elim (Bool-cases (ltb w.monitor.last_total total)) [
  | inl e ↦ rw e (record { timed = i.timed; watched = inr (inl (or_true w.late)) })
  | inr e ↦ rw e (record { timed = i.timed; watched = inr (inl (or_true w.late)) })
]

step-IsWatched : (e : Event) (w : Watch) → IsWatched w → Enabled e w → IsWatched (happen e w)
unfolding run_started run_ended stale_fired late_fired
step-IsWatched (rerun dev status) w i h =
    begin-IsWatched (is_stale_override dev) (is_connected status) status w.monitor
step-IsWatched unmounted w i h = record { timed = inl refl; watched = inl refl }
step-IsWatched (answered ended total) w i h = answered-IsWatched ended total w i h
step-IsWatched (late_timed_out run) w i h = record { timed = i.timed; watched = i.watched }
step-IsWatched timed_out w i h = record { timed = inl refl; watched = inr (inr (inl refl)) }

-- In every reachable state of the bar, while it polls and shows no idle stream, the timer is pending
-- that will show one, unless a check of an earlier run was answered during the current one; and
-- where it does not poll, the only timers that are pending are those of runs that have ended, which
-- got them from an answer behind their cleanup.
pub Reach-IsWatched : (w : Watch) → Reach w → IsWatched w
Reach-IsWatched w start = record { timed = inl refl; watched = inl refl }
Reach-IsWatched w (step e v r h) = step-IsWatched e v (Reach-IsWatched v r) h
