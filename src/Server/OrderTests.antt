-- ===== src/Server/OrderTests.antt =====
-- The service and the console where requests and answers cross.
use threat_lens.Base.{◌≡◌, refl, [], false, text_eq}
use threat_lens.Types.{acknowledged, get_alert_identity, resolved}
use threat_lens.Types.Samples.{syn_flood}
use threat_lens.Socket.{
  has_identity, initial_hook, on_message, push_alert, set_status, update_alert_status,
}
use threat_lens.Server.Archive.{
  Store, insert_alert, patch_status, update_alert_status as stored_status,
}
use threat_lens.Server.Exchanges.{
  World, Reach, arrived, as_new, fetched, happen, next, opened, recorded, same_but_status,
  status_confirmed, status_taken,
}

abbrev empty_store : Store
empty_store = record {
  memory_ring = [];
  max_memory_buffer = 1000;
  status_overrides = [];
  notes = [];
  is_connected = false;
  allow_reconnect = false;
}

abbrev start_world : World
start_world = record { store = empty_store; hook = initial_hook; past = []; answers = [] }

-- An alert is recorded and arrives, its status is taken, a request to hydrate is answered, the status
-- is taken once more, and only then the first change is confirmed.
abbrev crossed : World
crossed = happen (status_confirmed syn_flood.flow_id resolved) (
    happen (status_taken syn_flood.flow_id acknowledged) (
      happen fetched (
        happen (status_taken syn_flood.flow_id resolved)
          (happen (arrived syn_flood) (happen (recorded syn_flood) start_world)))))

Reach-crossed : Reach crossed
unfolding has_identity text_eq get_alert_identity
Reach-crossed =
    next
      (next
        (next
          (next
            (next (next (opened empty_store refl refl) (recorded syn_flood) refl)
              (arrived syn_flood) refl)
            (status_taken syn_flood.flow_id resolved) tt)
          fetched tt)
        (status_taken syn_flood.flow_id acknowledged) tt)
      (status_confirmed syn_flood.flow_id resolved) tt

same_but_status_example :
    as_new (record syn_flood { status = resolved })
    ≡ as_new (record syn_flood { status = acknowledged })
unfolding has_identity text_eq get_alert_identity on_message push_alert update_alert_status
    set_status insert_alert patch_status stored_status
same_but_status_example =
    same_but_status (get_alert_identity syn_flood) (record syn_flood { status = resolved })
      (record syn_flood { status = acknowledged }) Reach-crossed refl refl
