-- ===== src/Navbar.antt =====
-- frontend/src/components/Navbar.tsx: the badge of the stream, and the effect that finds the stream
-- idle when no flow arrives. A run of the effect begins with its body and ends with its cleanup.
use threat_lens.Base.{
  arith, Bool, List, Option, [], false, filter, if◌then◌else◌, ltb, none, not, some, true, ℕ, ◌==◌,
  ◌∷◌,
}
use threat_lens.Socket.{ConnectionStatus, connected, connecting, disconnected}
use threat_lens.Dashboard.{DevState, stale}
pub mod Idle
mod Tests

-- `polling`: the current run asks for the throughput; `timer`: its `staleTimer` is pending;
-- `late_timers`: the runs that have ended and whose `staleTimer` is pending.
pub record Monitor : Type 0 where
  pub is_stale : Bool
  pub last_total : ℕ
  pub polling : Bool
  pub timer : Bool
  pub late_timers : List ℕ

abbrev pub initial_monitor : Monitor
initial_monitor = record {
  is_stale = false;
  last_total = 0;
  polling = false;
  timer = false;
  late_timers = [];
}

-- The cleanup of a run.
unfoldable pub run_ended : Monitor → Monitor
run_ended s = record s { polling = false; timer = false }

abbrev pub is_stale_override : Option DevState → Bool
is_stale_override (some stale) = true
is_stale_override _ = false

abbrev pub is_connected : ConnectionStatus → Bool
is_connected connected = true
is_connected _ = false

-- The body of a run: for the override that is tested first, then for the status.
abbrev pub begin : (stale_override is_connected : Bool) → Monitor → Monitor
begin true _ s = record s { is_stale = true }
begin false false s = record s { is_stale = false }
begin false true s = record s { polling = true; timer = true }

-- A run, behind the cleanup of the run before it.
unfoldable pub run_started : Option DevState → ConnectionStatus → Monitor → Monitor
unfolding run_ended
run_started dev status s = begin (is_stale_override dev) (is_connected status) (run_ended s)

-- The timer of the run that reads an answer is cleared and set: the current run, `none`, or the run
-- that has ended, which lost its timer to the cleanup, and gets one again.
abbrev pub timed : (ended : Option ℕ) → Monitor → Monitor
timed none s = record s { timer = true }
timed (some run) s = record s { late_timers = run ∷ filter (λ r. not (r == run)) s.late_timers }

-- `checkThroughput` behind its last await, before which it looks at `mounted` only once.
unfoldable pub check_answered : (ended : Option ℕ) → (total_flows : ℕ) → Monitor → Monitor
check_answered ended total_flows s =
    if ltb s.last_total total_flows
    then timed ended (record s { last_total = total_flows; is_stale = false })
    else s

-- The callback of `staleTimer` in a run that has ended: `mounted` is false.
unfoldable pub late_fired : (run : ℕ) → Monitor → Monitor
late_fired run s = record s { late_timers = filter (λ r. not (r == run)) s.late_timers }

-- The callback of `staleTimer` in a run that has not ended.
unfoldable pub stale_fired : Monitor → Monitor
stale_fired s = record s { is_stale = true; timer = false }

pub data StreamBadge : Type 0 where
  stream_live : StreamBadge
  stream_idle : StreamBadge
  stream_connecting : StreamBadge
  stream_offline : StreamBadge

-- `getStatusBadge`
unfoldable pub get_status_badge : ConnectionStatus → Monitor → StreamBadge
get_status_badge connected s = if s.is_stale then stream_idle else stream_live
get_status_badge connecting s = stream_connecting
get_status_badge disconnected s = stream_offline
