-- ===== src/Server/Keeping.antt =====
-- How long a suppression rule stays in force: the requests and alerts after it was made, in
-- engine/runtime_config.py and backend/app/main.py.
use threat_lens.Base.{
  ◌≡◌, Bool, List, Option, Option-cases, Text, [], All, false, inl, inr, lookup_text, some, text_eq,
  true, ℕ, if◌then◌else◌, ◌∙◌, ◌∷◌,
}
use threat_lens.Base.Tables.{lookup-put_other, lookup-put_same, lookup-remove_other, remove}
use threat_lens.Types.{Alert, SuppressionRule, SuppressionRuleCreate}
use threat_lens.Server.{Result, ok, refused}
use threat_lens.Server.Routes.{
  answer_post, delete_suppression, list_suppression_rules, new_rule, post_suppression, validated,
}
use threat_lens.Server.Suppression.{
  Refresh, RuntimeConfig, create_suppression_rule, delete_suppression_rule, not_due, persisted,
  read, read_failed, refresh_if_stale, suppress,
}

-- What happens to the rules: an alert is matched with them, they are listed, one is made, one is
-- deleted.
pub data RuleEvent : Type 0 where
  checked : Refresh → (now : ℕ) → Alert → RuleEvent
  listed : Refresh → RuleEvent
  posted : (mirrored : Bool) → (id now : Text) → SuppressionRuleCreate → RuleEvent
  deleted : (mirrored : Bool) → (rule_id : Text) → RuleEvent

-- How a rule that was made stays in force at a refresh: it was written to Redis, or Redis is not read.
abbrev pub IsKept : (mirrored : Bool) → Refresh → Type 0
IsKept mirrored not_due = Unit
IsKept mirrored read = mirrored ≡ true
IsKept mirrored read_failed = ⊥

-- The event keeps a rule with this id, which was written to Redis or not.
abbrev pub Spares : (mirrored : Bool) → (id : Text) → RuleEvent → Type 0
Spares mirrored id (checked refresh now alert) = IsKept mirrored refresh
Spares mirrored id (listed refresh) = IsKept mirrored refresh
Spares mirrored id (posted mirrored' other now body) = text_eq other id ≡ false
Spares mirrored id (deleted mirrored' other) = text_eq other id ≡ false

abbrev pub IsStored : (mirrored : Bool) → SuppressionRule → RuntimeConfig → Type 0
IsStored true rule c = lookup_text rule.id c.stored ≡ some rule
IsStored false rule c = Unit

-- The rule is there, in Redis too where it was written to it.
pub record IsThere (mirrored : Bool) (rule : SuppressionRule) (c : RuntimeConfig) : Type 0 where
  pub here : lookup_text rule.id c.suppressions ≡ some rule
  pub there : IsStored mirrored rule c

create-IsThere :
    (mirrored : Bool) (rule : SuppressionRule) (c : RuntimeConfig)
    → IsThere mirrored rule (create_suppression_rule mirrored rule c)
unfolding create_suppression_rule
create-IsThere true rule c = record {
  here = lookup-put_same rule.id rule c.suppressions;
  there = lookup-put_same rule.id rule c.stored;
}
create-IsThere false rule c = record {
  here = lookup-put_same rule.id rule c.suppressions;
  there = tt;
}

refresh-IsThere :
    (mirrored : Bool) (refresh : Refresh) (rule : SuppressionRule) (c : RuntimeConfig)
    → IsKept mirrored refresh
    → IsThere mirrored rule c
    → IsThere mirrored rule (refresh_if_stale refresh c)
unfolding refresh_if_stale
refresh-IsThere mirrored not_due rule c k h = h
refresh-IsThere true read rule c k h = record { here = h.there; there = h.there }
refresh-IsThere false read rule c k h = cc
refresh-IsThere mirrored read_failed rule c k h = absurd k

other_stored :
    (mirrored written : Bool) (rule new : SuppressionRule) (c : RuntimeConfig)
    (rules : List (Text × SuppressionRule))
    → text_eq new.id rule.id ≡ false
    → IsStored mirrored rule c
    → IsStored mirrored rule
        (record { suppressions = rules; stored = persisted written new c.stored })
other_stored false written rule new c rules e h = tt
other_stored true true rule new c rules e h = lookup-put_other rule.id new.id new c.stored e ∙ h
other_stored true false rule new c rules e h = h

create_other :
    (mirrored written : Bool) (rule new : SuppressionRule) (c : RuntimeConfig)
    → text_eq new.id rule.id ≡ false
    → IsThere mirrored rule c
    → IsThere mirrored rule (create_suppression_rule written new c)
unfolding create_suppression_rule
create_other mirrored written rule new c e h = record {
  here = lookup-put_other rule.id new.id new c.suppressions e ∙ h.here;
  there = other_stored mirrored written rule new c _ e h.there;
}

deleted_stored :
    (mirrored written : Bool) (rule : SuppressionRule) (id : Text) (c : RuntimeConfig)
    (rules : List (Text × SuppressionRule))
    → text_eq id rule.id ≡ false
    → IsStored mirrored rule c
    → IsStored mirrored rule
        (record { suppressions = rules; stored = if written then remove id c.stored else c.stored })
deleted_stored false written rule id c rules e h = tt
deleted_stored true true rule id c rules e h = lookup-remove_other rule.id id c.stored e ∙ h
deleted_stored true false rule id c rules e h = h

delete_other :
    (mirrored written : Bool) (rule : SuppressionRule) (id : Text) (c : RuntimeConfig)
    → text_eq id rule.id ≡ false
    → IsThere mirrored rule c
    → IsThere mirrored rule (delete_suppression_rule written id c).1
unfolding delete_suppression_rule
delete_other mirrored written rule id c e h = elim (Option-cases (lookup_text id c.suppressions)) [
  | inl q ↦ rw (delete_suppression_rule, q) h
  | inr (old, q) ↦
      rw (delete_suppression_rule, q)
        (record {
          here = lookup-remove_other rule.id id c.suppressions e ∙ h.here;
          there = deleted_stored mirrored written rule id c _ e h.there;
        })
]

post_by :
    (mirrored written : Bool) (rule : SuppressionRule) (id now : Text) (c : RuntimeConfig)
    (r : Result SuppressionRuleCreate)
    → text_eq id rule.id ≡ false
    → IsThere mirrored rule c
    → IsThere mirrored rule (answer_post written id now r c).1
post_by mirrored written rule id now c (ok body) e h =
    create_other mirrored written rule (new_rule id now body) c e h
post_by mirrored written rule id now c (refused status_code detail) e h = h

module _ (instant : Text → ℕ) (contains : Text → Text → Option Bool)
    (is_network : Text → Bool) where
  abbrev pub rule_event : RuleEvent → RuntimeConfig → RuntimeConfig
  rule_event (checked refresh now alert) c = (suppress instant contains refresh now alert c).1
  rule_event (listed refresh) c = (list_suppression_rules instant refresh c).1
  rule_event (posted mirrored id now body) c =
      (post_suppression is_network mirrored id now body c).1
  rule_event (deleted mirrored rule_id) c = (delete_suppression mirrored rule_id c).1

  abbrev pub rule_events : List RuleEvent → RuntimeConfig → RuntimeConfig
  rule_events [] c = c
  rule_events (e ∷ es) c = rule_events es (rule_event e c)

  event-IsThere :
      (mirrored : Bool) (rule : SuppressionRule) (e : RuleEvent) (c : RuntimeConfig)
      → Spares mirrored rule.id e
      → IsThere mirrored rule c
      → IsThere mirrored rule (rule_event e c)
  unfolding suppress list_suppression_rules post_suppression delete_suppression
  event-IsThere mirrored rule (checked refresh now alert) c k h =
      refresh-IsThere mirrored refresh rule c k h
  event-IsThere mirrored rule (listed refresh) c k h = refresh-IsThere mirrored refresh rule c k h
  event-IsThere mirrored rule (posted written id now body) c k h =
      post_by mirrored written rule id now c (validated is_network body) k h
  event-IsThere mirrored rule (deleted written id) c k h =
      delete_other mirrored written rule id c k h

  events-IsThere :
      (mirrored : Bool) (rule : SuppressionRule) (es : List RuleEvent) (c : RuntimeConfig)
      → All (Spares mirrored rule.id) es
      → IsThere mirrored rule c
      → IsThere mirrored rule (rule_events es c)
  events-IsThere mirrored rule [] c k h = h
  events-IsThere mirrored rule (e ∷ es) c k h =
      events-IsThere mirrored rule es (rule_event e c) k.1 (event-IsThere mirrored rule e c k.0 h)

  -- A rule that was made is found after events that spare it, and a refresh that keeps it.
  pub kept_rule :
      (mirrored : Bool) (refresh : Refresh) (rule : SuppressionRule) (es : List RuleEvent)
      (c : RuntimeConfig)
      → All (Spares mirrored rule.id) es
      → IsKept mirrored refresh
      → lookup_text rule.id
          (refresh_if_stale refresh
            (rule_events es (create_suppression_rule mirrored rule c))).suppressions
        ≡ some rule
  kept_rule mirrored refresh rule es c k kept =
      (refresh-IsThere mirrored refresh rule _ kept
        (events-IsThere mirrored rule es _ k (create-IsThere mirrored rule c))).here
