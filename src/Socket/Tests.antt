-- ===== src/Socket/Tests.antt =====
-- Runs of the hook of useThreatSocket, and the theorems at them.
use threat_lens.Base.{List, arith, ◌≡◌, refl, [], none, text_eq, true, ◌∷◌}
use threat_lens.Types.{get_alert_identity, resolved}
use threat_lens.Types.Samples.{syn_flood}
use threat_lens.Socket.{
  cleanup, connect, json, merge_fetched, on_close, on_error, on_message, on_open, push_alert,
  initial_hook,
}
use threat_lens.Socket.Buffer.{IsBuffer}
use threat_lens.Socket.Steps.{
  World, Reach, closed, initial_world, mount, next, opened, received, start, step,
}
use threat_lens.Socket.Connection.{Reach-IsConnected, IsConnected}
use threat_lens.Socket.Recovery.{recover, Recovers}
use threat_lens.Socket.Store.{find, Operation, apply_all, meaning_all, message, status_change}
use threat_lens.Socket.Store.Refinement.{find-apply_all}
use threat_lens.Socket.Backoff.{Reach-IsPaced, IsPaced, Reach-IsBuffer}

program : Unit {0}
unfolding step connect on_open on_message on_error on_close cleanup push_alert get_alert_identity
    text_eq merge_fetched
program = tt

-- Mounted, connected and one alert received; the connection is lost, and a reconnect is pending.
lost : World
unfolding program
lost =
    step (closed 1)
      (step (received 1 (json none syn_flood)) (step (opened 1) (step (mount true) initial_world)))

Reach-lost : Reach lost
unfolding lost
Reach-lost =
    next
      (next (next (next start (mount true) refl) (opened 1) refl) (received 1 (json none syn_flood))
        refl)
      (closed 1) (λ e. cc)

lost_timer : (lost.hook.timers ≡ (2, 1000) ∷ []) × (lost.hook.backoff ≡ 1500)
unfolding lost
lost_timer = (refl, refl)

Reach-IsConnected_example : IsConnected lost
Reach-IsConnected_example = Reach-IsConnected Reach-lost

Reach-IsPaced_example : IsPaced lost.hook
Reach-IsPaced_example = Reach-IsPaced Reach-lost

Reach-IsBuffer_example : IsBuffer lost.hook.alerts
Reach-IsBuffer_example = Reach-IsBuffer Reach-lost

recover_example : Recovers 3 lost
unfolding lost
recover_example = recover Reach-lost refl refl

-- An alert, its repetition, and a change of its status.
abbrev flood_twice : List Operation
flood_twice =
    message (json none syn_flood)
    ∷ message (json none syn_flood)
    ∷ status_change syn_flood.flow_id resolved
    ∷ []

find-apply_all_example :
    find (get_alert_identity syn_flood) (apply_all flood_twice initial_hook).alerts
    ≡ meaning_all flood_twice (λ j. find j []) (get_alert_identity syn_flood)
unfolding program
find-apply_all_example =
    find-apply_all flood_twice initial_hook (get_alert_identity syn_flood)
      (omega arith, (omega arith, (omega arith, tt)))
