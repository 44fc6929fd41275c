-- ===== src/Server/Incidents.antt =====
-- backend/app/main.py, GET /api/incidents: the recent alerts grouped by their incidents.
use threat_lens.Base.{
  Bool, List, Option, Text, [], false, filter, if◌then◌else◌, leb, lookup_text, ltb, map, none,
  or_default, some, take, text_eq, ℕ, ◌&&◌, ◌++◌, ◌∷◌,
}
use threat_lens.Base.Sets.{set_add}
use threat_lens.Base.Tables.{put}
use threat_lens.Types.{Alert}
use threat_lens.Server.{Result, ok, refused}

pub record Incident : Type 0 where
  pub incident_id : Text
  pub source_ip : Option Text
  pub first_seen : Text
  pub last_seen : Text
  pub threat_classes : List Text
  pub alerts : List Alert

-- `a or b`
abbrev or_else : Option Text → Option Text → Option Text
or_else none other = other
or_else (some []) other = other
or_else (some (c ∷ value)) other = some (c ∷ value)

abbrev pub new_incident : Text → Alert → Incident
new_incident id alert = record {
  incident_id = id;
  source_ip = or_else alert.source_ip alert.evidence.source_ip;
  first_seen = alert.timestamp;
  last_seen = alert.timestamp;
  threat_classes = [];
  alerts = [];
}

-- Is an alert of this incident?
abbrev pub is_of : Text → Option Text → Bool
is_of id none = false
is_of id (some []) = false
is_of id (some (c ∷ other)) = text_eq (c ∷ other) id

abbrev pub alerts_of : Text → List Alert → List Alert
alerts_of id = filter (λ a. is_of id a.incident_id)

-- `instant` is the point in time that a datetime names.
module _ (instant : Text → ℕ) where
  -- `min(a, b)` and `max(a, b)`
  abbrev pub earlier : Text → Text → Text
  earlier a b = if ltb (instant b) (instant a) then b else a

  abbrev pub later : Text → Text → Text
  later a b = if ltb (instant a) (instant b) then b else a

  abbrev pub joined : Alert → Incident → Incident
  joined alert incident = record incident {
    first_seen = earlier incident.first_seen alert.timestamp;
    last_seen = later incident.last_seen alert.timestamp;
    threat_classes = set_add alert.threat_class incident.threat_classes;
    alerts = incident.alerts ++ alert ∷ [];
  }

  -- The body of the loop: `setdefault`, then the changes to what it returns.
  abbrev pub with_id : Option Text → Alert → List (Text × Incident) → List (Text × Incident)
  with_id none alert grouped = grouped
  with_id (some []) alert grouped = grouped
  with_id (some (c ∷ id)) alert grouped =
      put (c ∷ id)
        (joined alert (or_default (lookup_text (c ∷ id) grouped) (new_incident (c ∷ id) alert)))
        grouped

  unfoldable pub group_alerts : List Alert → List (Text × Incident) → List (Text × Incident)
  group_alerts [] grouped = grouped
  group_alerts (alert ∷ alerts) grouped =
      group_alerts alerts (with_id alert.incident_id alert grouped)

  -- `sorted(…, key=last_seen, reverse=True)`, which keeps the order of equal keys.
  unfoldable pub insert_incident : Incident → List Incident → List Incident
  insert_incident incident [] = incident ∷ []
  insert_incident incident (other ∷ incidents) =
      let rest = insert_incident incident incidents in
      if ltb (instant incident.last_seen) (instant other.last_seen)
      then other ∷ rest
      else incident ∷ other ∷ incidents

  unfoldable pub sort_incidents : List Incident → List Incident
  unfolding insert_incident
  sort_incidents [] = []
  sort_incidents (incident ∷ incidents) = insert_incident incident (sort_incidents incidents)

  -- `recent` is what the store has at that limit.
  unfoldable pub get_incidents : (limit : ℕ) → (recent : List Alert) → Result (List Incident)
  unfolding group_alerts sort_incidents
  get_incidents limit recent =
      if leb 1 limit && leb limit 500
      then ok (take limit (sort_incidents (map (λ e. e.1) (group_alerts recent []))))
      else refused 422 []
