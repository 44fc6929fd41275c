-- ===== src/Server/Archive.antt =====
-- backend/app/storage.py, ClickHouseAlertStore, and the routes of backend/app/main.py on it. The
-- ring of the last alerts is kept beside ClickHouse and stands in for it. What ClickHouse does comes
-- in as arguments: whether a reconnection that is due succeeds, whether a row is taken, and its answer
-- to a query, `none` where it raises.
use threat_lens.Base.{
  Bool-cases, inl, inr, ◌≡◌, refl, Bool, List, Option, Text, [], codes, drop, false, if◌then◌else◌,
  leb, map, none, not, some, suc, take, text_eq, true, ℕ, ◌&&◌, ◌++◌, ◌+◌, ◌||◌, ◌∷◌, filter,
  lookup_text, or_default,
}
use threat_lens.Base.Tables.{put}
use threat_lens.Types.{
  Alert, AlertStatus, AnalystNote, new, acknowledged, investigating, resolved, false_positive,
}
use threat_lens.Socket.{set_status}
use threat_lens.Server.{Result, ok, refused}

pub record Store : Type 0 where
  pub memory_ring : List Alert
  pub max_memory_buffer : ℕ
  pub status_overrides : List (Text × AlertStatus)
  pub notes : List AnalystNote
  pub is_connected : Bool
  pub allow_reconnect : Bool

-- The state behind `if not self.is_connected and self._allow_reconnect and …: self.connect()`;
-- `reconnects` says that an attempt is due and succeeds.
abbrev pub connect_if_due : (reconnects : Bool) → Store → Store
connect_if_due reconnects s = record s {
  is_connected = s.is_connected || (s.allow_reconnect && reconnects);
}

-- `appendleft` on a `deque` with a `maxlen`.
unfoldable pub insert_alert : (reconnects inserted : Bool) → Alert → Store → Bool × Store
insert_alert reconnects inserted alert s =
    let kept =
      connect_if_due reconnects
        (record s { memory_ring = take s.max_memory_buffer (alert ∷ s.memory_ring) }) in
    if not kept.is_connected || inserted
    then (true, kept)
    else (false, record kept { is_connected = false })

abbrev pub status_value : AlertStatus → Text
status_value new = codes "new"
status_value acknowledged = codes "acknowledged"
status_value investigating = codes "investigating"
status_value resolved = codes "resolved"
status_value false_positive = codes "false_positive"

-- `threat_class` and `status` filter where they are there and not empty.
abbrev pub fits : Option Text → Text → Bool
fits none value = true
fits (some []) value = true
fits (some (c ∷ wanted)) value = text_eq value (c ∷ wanted)

unfoldable pub is_wanted : (threat_class status : Option Text) → Alert → Bool
unfolding text_eq
is_wanted threat_class status alert =
    fits threat_class alert.threat_class && fits status (status_value alert.status)

-- The loop over the ring, which ends once `limit` alerts are taken; `taken` have been so far.
unfoldable pub collect :
    (limit : ℕ) → (wanted : Alert → Bool) → (taken : ℕ) → List Alert → List Alert
collect limit wanted taken [] = []
collect limit wanted taken (a ∷ ring) =
    let more = collect limit wanted (suc taken) ring in
    let skipped = collect limit wanted taken ring in
    if wanted a then a ∷ (if leb limit (suc taken) then [] else more) else skipped

-- A row of ClickHouse as an alert: a status that was set here counts before the stored one.
unfoldable pub with_override : List (Text × AlertStatus) → Alert → Alert
unfolding text_eq
with_override overrides alert = record alert {
  status = or_default (lookup_text alert.flow_id overrides) alert.status;
}

-- `answer` is that of ClickHouse to the query for the last `limit` alerts of the class.
unfoldable pub get_recent_alerts :
    (reconnects : Bool)
    → (answer : Option (List Alert)) → (limit : ℕ) → (threat_class status : Option Text) → Store
    → List Alert × Store
unfolding collect with_override is_wanted text_eq
get_recent_alerts reconnects answer limit threat_class status s =
    let here = connect_if_due reconnects s in
    let from_ring = collect limit (is_wanted threat_class status) 0 s.memory_ring in
    if here.is_connected
    then elim answer [
      | some rows ↦ (
        filter (λ a. fits status (status_value a.status))
            (map (with_override s.status_overrides) rows),
        here,
      )
      | none ↦ (from_ring, record here { is_connected = false })
    ]
    else (from_ring, here)

-- The last alert of the flow in the ring, which is the oldest one there.
abbrev pub last_of_flow : Text → List Alert → Option Alert
last_of_flow flow_id [] = none
last_of_flow flow_id (a ∷ ring) = elim (last_of_flow flow_id ring) [
  | some b ↦ some b
  | none ↦ if text_eq a.flow_id flow_id then some a else none
]

-- The loop replaces each match and keeps the last one in `updated`. What ClickHouse does with the
-- change is logged at most.
unfoldable pub update_alert_status : Text → AlertStatus → Store → Option Alert × Store
unfolding set_status text_eq put
update_alert_status flow_id status s =
    let ring = map (set_status flow_id status) s.memory_ring in
    (
      last_of_flow flow_id ring,
      record s { memory_ring = ring; status_overrides = put flow_id status s.status_overrides },
    )

-- `clear`; a failed truncation is logged.
unfoldable pub clear : Store → Store
clear s = record s { memory_ring = []; status_overrides = []; notes = [] }

unfoldable pub add_note : AnalystNote → Store → AnalystNote × Store
add_note note s = (note, record s { notes = s.notes ++ note ∷ [] })

-- `answer` is that of ClickHouse where it is connected.
unfoldable pub get_notes : (answer : Option (List AnalystNote)) → Text → Store → List AnalystNote
unfolding text_eq
get_notes answer flow_id s =
    let here = filter (λ note. text_eq note.flow_id flow_id) s.notes in
    if s.is_connected then or_default answer here else here

-- GET /api/alerts, behind the bounds of its parameters.
unfoldable pub get_historical_alerts :
    (reconnects : Bool)
    → (answer : Option (List Alert)) → (limit offset : ℕ) → (threat_class status : Option Text)
    → Store
    → Result (List Alert × Store)
unfolding get_recent_alerts
get_historical_alerts reconnects answer limit offset threat_class status s =
    let found = get_recent_alerts reconnects answer (limit + offset) threat_class status s in
    if leb 1 limit && leb limit 500
    then ok (take limit (drop offset found.0), found.1)
    else refused 422 []

abbrev pub status_response : Option Alert → Result Alert
status_response none = refused 404 (codes "Alert flow not found")
status_response (some alert) = ok alert

-- PATCH /api/alerts/{flow_id}/status
unfoldable pub patch_status : Text → AlertStatus → Store → Result Alert × Store
unfolding update_alert_status
patch_status flow_id status s =
    let found = update_alert_status flow_id status s in (status_response found.0, found.1)

-- Every alert that is inserted heads the ring, which keeps its length.
pub ring-insert_alert :
    (reconnects inserted : Bool) (alert : Alert) (s : Store)
    → (insert_alert reconnects inserted alert s).1.memory_ring
      ≡ take s.max_memory_buffer (alert ∷ s.memory_ring)
unfolding insert_alert
ring-insert_alert reconnects inserted alert s =
    elim (Bool-cases (not (s.is_connected || (s.allow_reconnect && reconnects)) || inserted)) [
      | inl e ↦ rw e refl
      | inr e ↦ rw e refl
    ]
