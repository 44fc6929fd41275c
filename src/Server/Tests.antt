-- ===== src/Server/Tests.antt =====
-- The service on sample alerts, and the theorems at them.
use threat_lens.Base.{
  ◌≡◌, refl, ◌≢◌, ◌↔◌, ◌<◌, ◌+◌, ◌*◌, ◌==◌, ltb, All, Bool, List, Option, Text, [], any, arith,
  codes, drop, false, if◌then◌else◌, includes, leb, none, some, take, text_eq, true, trim, ℕ, ◌∷◌,
  ◌&&◌,
}
use threat_lens.Types.{
  Alert, SuppressionRuleCreate, get_alert_identity, resolved, source_ip_threat_class,
}
use threat_lens.Types.Samples.{legacy_alert, scan_alert, syn_flood}
use threat_lens.Socket.{has_identity, initial_hook}
use threat_lens.Dashboard.Archive.{Archive, archive_answered, archive_query, page_size}
use threat_lens.Table.Menu.{Menu}
use threat_lens.Incidents.{PanelState, confirm_started, open_suppress_modal}
use threat_lens.Server.{is_ok, ok}
use threat_lens.Server.Archive.{Store, get_historical_alerts, insert_alert, update_alert_status}
use threat_lens.Server.Pages.{archive_served, body_of}
use threat_lens.Server.Agreement.{
  IsAgreed, Reach, Reach-IsAgreed, World, detected, happen, hydrated, next, opened, status_chosen,
}
use threat_lens.Server.Suppression.{RuntimeConfig, deliver, read, suppress}
use threat_lens.Server.Routes.{delete_suppression, new_rule, post_suppression}
use threat_lens.Server.Keeping.{RuleEvent, checked, deleted, posted, rule_events}
use threat_lens.Server.Silence.{request_for, silenced, suppression_body}
use threat_lens.Server.Undoing.{undone}
use threat_lens.Server.Correlation.{Detection, incident_of, incidents_along, one_incident}
use threat_lens.Server.Incidents.{Incident, alerts_of, get_incidents}
use threat_lens.Server.Grouping.{IsIncident}
use threat_lens.Detection.{int_kind, number}
use threat_lens.Server.Thresholds.{Numbers, ThresholdSpec, Thresholds, amount, coerce_value, one}
use threat_lens.Server.Changes.{
  Request, get_spec, put_request, put_threshold, serve_all, with_threshold,
}
use threat_lens.Server.Bounds.{IsInBounds, serve_all-IsInBounds, with_threshold-IsInBounds}
use threat_lens.Base.Options.{none-ne-some}
use threat_lens.Server.Overview.{IsLatestFirst, get_incidents_lem}

-- Two alerts are kept, and ClickHouse is off.
abbrev ring_store : Store
ring_store = record {
  memory_ring = syn_flood ∷ scan_alert ∷ [];
  max_memory_buffer = 2;
  status_overrides = [];
  notes = [];
  is_connected = false;
  allow_reconnect = false;
}

oldest_evicted :
    (insert_alert false true legacy_alert ring_store).1.memory_ring ≡ legacy_alert ∷ syn_flood ∷ []
unfolding insert_alert
oldest_evicted = refl

-- The answer to a change of status is the oldest alert of the flow.
oldest_answered :
    (update_alert_status scan_alert.flow_id resolved ring_store).0
    ≡ some (record scan_alert { status = resolved })
unfolding update_alert_status text_eq
oldest_answered = refl

abbrev asked : Archive
asked = record { alerts = []; has_next = false; pending = some 3; next_request = 4 }

archive_served_example :
    let query = archive_query 0 in
    let response = get_historical_alerts false none query.limit query.offset none none ring_store in
    let after = archive_answered 3 (body_of response) asked in
    (after.alerts ≡ take page_size (drop (0 * page_size) (syn_flood ∷ scan_alert ∷ [])))
    × ((after.has_next ≡ true) ↔ ((0 + 1) * page_size < 2))
archive_served_example = archive_served false none 0 3 asked ring_store refl refl

abbrev idle_menu : Menu
idle_menu = record { dropdown_open = false; status_updating = none; requests = [] }

abbrev opened_world : World
opened_world = record {
  store = record ring_store { memory_ring = scan_alert ∷ [] };
  hook = initial_hook;
  menu = idle_menu;
}

-- A flood is recorded but not delivered, its status is set, and the console hydrates.
abbrev later_world : World
later_world =
    happen (hydrated true)
      (happen (status_chosen syn_flood resolved) (happen (detected false syn_flood) opened_world))

Reach-later_world : Reach later_world
unfolding has_identity get_alert_identity text_eq
Reach-later_world =
    next
      (next
        (next (opened opened_world.store idle_menu refl) (detected false syn_flood) (refl, refl))
        (status_chosen syn_flood resolved) tt)
      (hydrated true) tt

Reach-IsAgreed_example : IsAgreed later_world
Reach-IsAgreed_example = Reach-IsAgreed Reach-later_world

-- Times as numbers in the order of their digits.
digits : (seen : ℕ) → Text → ℕ
digits seen [] = seen
digits seen (c ∷ text) =
    let more = digits (seen * 10 + c) text in
    let rest = digits seen text in if leb 48 c && leb c 57 then more else rest

abbrev sample_instant : Text → ℕ
sample_instant text = digits 0 text

-- Networks of one address each.
abbrev same_address : Text → Text → Option Bool
same_address value criterion = some (text_eq value criterion)

abbrev any_network : Text → Bool
any_network criterion = true

abbrev host : Text
host = codes "10.0.0.5"

abbrev panel : PanelState
panel = record {
  incidents = [];
  suppressed_ips = [];
  feedback = none;
  modal_open = false;
  target_ip = [];
  description = [];
  modal_loading = false;
  modal_error = none;
  is_open = true;
  requests = [];
}

abbrev no_rules : RuntimeConfig
no_rules = record { suppressions = []; stored = [] }

abbrev other_body : SuppressionRuleCreate
other_body = suppression_body (request_for (codes "10.0.0.7"))

-- An alert is matched, Redis read before it, a rule on another address is made and deleted.
abbrev rule_run : List RuleEvent
rule_run =
    checked read 4 syn_flood
    ∷ posted true (codes "r-2") (codes "t") other_body
    ∷ deleted true (codes "r-2")
    ∷ []

silenced_example :
    let body = suppression_body (request_for host) in
    let posted' = post_suppression any_network true (codes "r-1") (codes "t") body no_rules in
    let later = rule_events sample_instant same_address any_network rule_run posted'.1 in
    let marked = (suppress sample_instant same_address read 5 syn_flood later).0 in
    let delivered = deliver false true marked (ring_store, []) in
    ((confirm_started (open_suppress_modal host panel)).requests ≡ request_for host ∷ [])
    × (posted'.0 ≡ ok (new_rule (codes "r-1") (codes "t") body))
    × (marked.suppressed ≡ true)
    × (delivered.0.memory_ring ≡ take 2 (marked ∷ syn_flood ∷ scan_alert ∷ []))
    × (delivered.1 ≡ [])
unfolding text_eq trim includes
silenced_example =
    silenced sample_instant same_address any_network true true rule_run read 5 host (codes "r-1")
      (codes "t") syn_flood panel no_rules ring_store [] refl refl refl refl (λ e. cc)
      (refl, (refl, (refl, tt))) refl refl

abbrev scan_rule : SuppressionRuleCreate
scan_rule = record {
  rule_type = source_ip_threat_class;
  description = none;
  source_ip = some host;
  destination_ip = none;
  threat_class = some (codes "Reconnaissance Scan");
  enabled = true;
  expires_at = none;
}

undone_example :
    let posted' = post_suppression any_network true (codes "r-1") (codes "t") scan_rule no_rules in
    let deleted' = delete_suppression true (codes "r-1") posted'.1 in
    (deleted'.1 ≡ no_rules) × (is_ok deleted'.0 ≡ is_ok posted'.0)
undone_example = undone any_network true (codes "r-1") (codes "t") scan_rule no_rules refl refl

-- The host again at the end of its window, after another one.
abbrev run : List Detection
run =
    record { source = some (codes "10.0.0.7"); timestamp = 150; fresh = codes "i-2" }
    ∷ record { source = some host; timestamp = 400; fresh = codes "i-3" }
    ∷ []

one_incident_example :
    let (id, after) = incident_of 300 100 (codes "i-1") (some host) [] in
    (id ≢ none) × All (λ i. i ≡ id) (incidents_along 300 host run after)
one_incident_example =
    one_incident 300 100 49 (codes "0.0.0.5") (codes "i-1") run []
      ((omega arith, omega arith), ((omega arith, omega arith), tt))

abbrev grouped_flood : Alert
grouped_flood = record syn_flood { incident_id = some (codes "i-1") }

get_incidents_lem_example :
    (incidents : List Incident) × (get_incidents sample_instant 100
        (grouped_flood ∷ scan_alert ∷ [])
      ≡ ok incidents)
    × All
        (λ v. IsIncident sample_instant (grouped_flood ∷ scan_alert ∷ []) v.incident_id v)
        incidents
    × ((id : Text)
        → alerts_of id (grouped_flood ∷ scan_alert ∷ []) ≢ []
        → any (λ i. text_eq i.incident_id id) incidents ≡ true)
    × IsLatestFirst sample_instant incidents
get_incidents_lem_example =
    get_incidents_lem sample_instant 100 (grouped_flood ∷ scan_alert ∷ []) (omega arith)
      (omega arith) (omega arith)

-- Whole numbers for those of Python.
abbrev whole_numbers : Numbers ℕ
whole_numbers = record {
  float_of = λ text. some (digits 0 text);
  int_of = λ text. some (digits 0 text);
  truncated = λ n. n;
  is_finite = λ n. true;
  is_infinite = λ n. false;
  same = λ n m. n == m;
  less = ltb;
}

abbrev window_spec : ThresholdSpec ℕ
window_spec = record {
  rule = codes "correlation";
  rule_label = codes "Alert Correlation";
  parameter = codes "window_seconds";
  label = codes "Incident correlation window";
  description = [];
  kind = int_kind;
  minimum = some 1;
  maximum = some 86400;
  consumed_by = codes "AlertAggregator";
}

abbrev baseline : Thresholds ℕ
baseline = with_threshold (codes "correlation") (codes "window_seconds") (number 300) (λ r p. none)

baseline-IsInBounds : IsInBounds whole_numbers (window_spec ∷ []) baseline
unfolding get_spec text_eq
baseline-IsInBounds =
    with_threshold-IsInBounds whole_numbers (window_spec ∷ []) (λ r p. none) (codes "correlation")
      (codes "window_seconds") window_spec (number 300) refl ((refl, refl), 300, refl)
      (λ r p spec value e q. absurd (none-ne-some q))

-- A window of a minute is taken, one of no seconds is not.
abbrev changes : List (Request ℕ)
changes =
    put_request (codes "correlation") (codes "window_seconds") (one (amount 60))
    ∷ put_request (codes "correlation") (codes "window_seconds") (one (amount 0))
    ∷ []

changed :
    serve_all whole_numbers
      (window_spec ∷ [])
      baseline
      changes
      baseline
      (codes "correlation")
      (codes "window_seconds")
    ≡ some (number 60)
unfolding put_threshold coerce_value get_spec text_eq trim
changed = refl

serve_all-IsInBounds_example :
    IsInBounds whole_numbers
      (window_spec ∷ [])
      (serve_all whole_numbers (window_spec ∷ []) baseline changes baseline)
serve_all-IsInBounds_example =
    serve_all-IsInBounds whole_numbers (window_spec ∷ []) baseline changes baseline
      baseline-IsInBounds baseline-IsInBounds
