-- ===== src/Server/Suppression.antt =====
-- The suppression rules of the service: engine/runtime_config.py, which keeps them, engine/pipeline.py,
-- which matches an alert with them, and the delivery of backend/app/main.py. Redis comes
-- in as arguments: whether a write goes through, and what a refresh does.
use threat_lens.Base.{
  Bool, List, Option, Text, [], false, if◌then◌else◌, is_truthy, lookup_text, ltb, map, none,
  or_default, some, text_eq, true, ℕ, ◌&&◌, ◌∷◌, filter,
}
use threat_lens.Base.Tables.{put, remove}
use threat_lens.Types.{
  Alert, RuleType, SuppressionRule, destination_ip, source_ip, source_ip_threat_class,
}
use threat_lens.Server.Archive.{Store, insert_alert}

-- The rules by their ids in order of insertion, and the hash that Redis holds of them.
pub record RuntimeConfig : Type 0 where
  pub suppressions : List (Text × SuppressionRule)
  pub stored : List (Text × SuppressionRule)

-- `_refresh_if_stale`: it is not due, or Redis is read, or the read raises.
pub data Refresh : Type 0 where
  not_due read read_failed : Refresh

-- A read that raises leaves no rules.
unfoldable pub refresh_if_stale : Refresh → RuntimeConfig → RuntimeConfig
refresh_if_stale not_due c = c
refresh_if_stale read c = record c { suppressions = c.stored }
refresh_if_stale read_failed c = record c { suppressions = [] }

-- `_persist_suppression`; a write that fails is logged.
abbrev pub persisted :
    (mirrored : Bool)
    → SuppressionRule
    → List (Text × SuppressionRule)
    → List (Text × SuppressionRule)
persisted true rule stored = put rule.id rule stored
persisted false rule stored = stored

unfoldable pub create_suppression_rule :
    (mirrored : Bool) → SuppressionRule → RuntimeConfig → RuntimeConfig
unfolding put
create_suppression_rule mirrored rule c = record {
  suppressions = put rule.id rule c.suppressions;
  stored = persisted mirrored rule c.stored;
}

abbrev pub if_given {ℓ} : {A : Type ℓ} → Option A → A → A
if_given given current = or_default given current

abbrev pub if_some {ℓ} : {A : Type ℓ} → Option A → Option A → Option A
if_some none current = current
if_some (some a) current = some a

-- A value that is not given leaves the field.
unfoldable pub update_suppression_rule :
    (mirrored : Bool)
    → (now rule_id : Text) → (enabled : Option Bool) → (description expires_at : Option Text)
    → RuntimeConfig
    → Option SuppressionRule × RuntimeConfig
unfolding put
update_suppression_rule mirrored now rule_id enabled description expires_at c =
    elim (lookup_text rule_id c.suppressions) [
      | none ↦ (none, c)
      | some rule ↦
          let rule' = record rule {
            updated_at = now;
            enabled = if_given enabled rule.enabled;
            description = if_some description rule.description;
            expires_at = if_some expires_at rule.expires_at;
          } in
          (
            some rule',
            record {
              suppressions = put rule_id rule' c.suppressions;
              stored = persisted mirrored rule' c.stored;
            },
          )
    ]

unfoldable pub delete_suppression_rule :
    (mirrored : Bool) → (rule_id : Text) → RuntimeConfig → Bool × RuntimeConfig
unfolding remove
delete_suppression_rule mirrored rule_id c = elim (lookup_text rule_id c.suppressions) [
  | none ↦ (false, c)
  | some rule ↦ (
    true,
    record {
      suppressions = remove rule_id c.suppressions;
      stored = if mirrored then remove rule_id c.stored else c.stored;
    },
  )
]

abbrev pub rules_of : RuntimeConfig → List SuppressionRule
rules_of c = map (λ e. e.1) c.suppressions

abbrev pub class_match : (wanted : Option Text) → Text → Bool
class_match none threat_class = true
class_match (some wanted) threat_class = text_eq threat_class wanted

abbrev pub type_matches : RuleType → (source destination class_ : Bool) → Bool
type_matches source_ip source destination class_ = source
type_matches destination_ip source destination class_ = destination
type_matches source_ip_threat_class source destination class_ = source && class_

-- What a match does to an alert.
abbrev pub mark : Option SuppressionRule → Alert → Alert
mark none alert = alert
mark (some rule) alert = record alert { suppressed = true; suppression_rule_id = some rule.id }

-- What the worker does with an alert: it is recorded in any case, and broadcast where no rule
-- withheld it. `sent` are the alerts broadcast so far.
unfoldable pub deliver :
    (reconnects inserted : Bool) → Alert → Store × List Alert → Store × List Alert
unfolding insert_alert
deliver reconnects inserted alert (store, sent) = (
  (insert_alert reconnects inserted alert store).1,
  if alert.suppressed then sent else alert ∷ sent,
)

-- `instant` is the point in time that a datetime names; `contains value criterion` is
-- `ip_address(value) in ip_network(criterion, strict=False)`, `none` where it raises a ValueError.
module _ (instant : Text → ℕ) where
  abbrev pub is_unexpired : (now : ℕ) → Option Text → Bool
  is_unexpired now none = true
  is_unexpired now (some expires_at) = ltb now (instant expires_at)

  abbrev pub is_active : (now : ℕ) → SuppressionRule → Bool
  is_active now rule = rule.enabled && is_unexpired now rule.expires_at

  unfoldable pub get_active_suppression_rules : (now : ℕ) → RuntimeConfig → List SuppressionRule
  get_active_suppression_rules now c = filter (is_active now) (rules_of c)

module _ (contains : Text → Text → Option Bool) where
  unfoldable pub ip_matches : (value criterion : Text) → Bool
  unfolding text_eq
  ip_matches value criterion = or_default (contains value criterion) (text_eq value criterion)

  -- `bool(value and criterion and _ip_matches(value, criterion))`
  abbrev pub both_match : (value criterion : Option Text) → Bool
  both_match none criterion = false
  both_match (some value) none = false
  both_match (some value) (some criterion) =
      is_truthy value && (is_truthy criterion && ip_matches value criterion)

  unfoldable pub rule_matches : SuppressionRule → Alert → Bool
  unfolding ip_matches text_eq
  rule_matches rule alert =
      type_matches rule.rule_type (both_match alert.source_ip rule.source_ip)
        (both_match alert.destination_ip rule.destination_ip)
        (class_match rule.threat_class alert.threat_class)

module _ (instant : Text → ℕ) (contains : Text → Text → Option Bool) where
  -- The loop over the active rules; `now` is the time at which it runs.
  unfoldable pub first_match : (now : ℕ) → List SuppressionRule → Alert → Option SuppressionRule
  unfolding rule_matches
  first_match now [] alert = none
  first_match now (rule ∷ rules) alert =
      let rest = first_match now rules alert in
      if is_unexpired instant now rule.expires_at && rule_matches contains rule alert
      then some rule
      else rest

  -- Step 3 of `process_flow_event` for one alert, at the time `now`.
  unfoldable pub suppress : Refresh → (now : ℕ) → Alert → RuntimeConfig → Alert × RuntimeConfig
  unfolding first_match get_active_suppression_rules refresh_if_stale
  suppress refresh now alert c =
      let current = refresh_if_stale refresh c in
      (
        mark (first_match now (get_active_suppression_rules instant now current) alert) alert,
        current,
      )
