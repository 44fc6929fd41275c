-- ===== src/Server/Routes.antt =====
-- backend/app/main.py and backend/app/schemas.py: the routes under /api/config/suppressions, with what
-- a body has to satisfy.
use threat_lens.Base.{
  Bool, List, Option, Text, [], codes, false, if◌then◌else◌, is_truthy, ltb, none, some, text_eq,
  trim, true, ℕ, ◌&&◌, ◌∷◌, leb, length, any, not,
}
use threat_lens.Types.{RuleType, SuppressionRule, SuppressionRuleCreate, destination_ip}
use threat_lens.Server.{Result, ok, refused, ◌>>=◌}
use threat_lens.Server.Suppression.{
  Refresh, RuntimeConfig, create_suppression_rule, delete_suppression_rule, update_suppression_rule,
  refresh_if_stale, rules_of,
}

abbrev pub is_given : Option Text → Bool
is_given none = false
is_given (some value) = is_truthy value

abbrev pub has_target : RuleType → (source_ip destination_ip : Option Text) → Bool
has_target destination_ip source destination = is_given destination
has_target _ source destination = is_given source

abbrev pub fits_500 : Option Text → Bool
fits_500 none = true
fits_500 (some description) = leb (length description) 500

abbrev pub new_rule : (id now : Text) → SuppressionRuleCreate → SuppressionRule
new_rule id now body = record {
  id = id;
  rule_type = body.rule_type;
  description = body.description;
  source_ip = body.source_ip;
  destination_ip = body.destination_ip;
  threat_class = body.threat_class;
  enabled = body.enabled;
  created_at = now;
  updated_at = now;
  expires_at = body.expires_at;
}

-- What the route does with a body that was validated, or refused.
abbrev pub answer_post :
    (mirrored : Bool)
    → (id now : Text) → Result SuppressionRuleCreate
    → RuntimeConfig
    → Result SuppressionRule × RuntimeConfig
answer_post mirrored id now (ok body) c =
    (ok (new_rule id now body), create_suppression_rule mirrored (new_rule id now body) c)
answer_post mirrored id now (refused status_code detail) c = (refused status_code detail, c)

-- `is_network` says whether `ip_network(criterion, strict=False)` raises none.
module _ (is_network : Text → Bool) where
  -- `_validated_ip_criterion`; pydantic answers a ValueError of a validator by 422.
  unfoldable pub validated_ip_criterion : Option Text → Result (Option Text)
  unfolding trim
  validated_ip_criterion none = ok none
  validated_ip_criterion (some value) =
      if is_truthy (trim value) && is_network (trim value)
      then ok (some (trim value))
      else refused 422 []

  -- The validators of SuppressionRuleCreate. A body has `expires_at` as the text of a datetime.
  unfoldable pub validated : SuppressionRuleCreate → Result SuppressionRuleCreate
  unfolding validated_ip_criterion
  validated body = do
    source ← validated_ip_criterion body.source_ip
    destination ← validated_ip_criterion body.destination_ip
    if has_target body.rule_type source destination && fits_500 body.description
        then ok (record body { source_ip = source; destination_ip = destination })
        else refused 422 []

  -- POST /api/config/suppressions; `id` is the new UUID.
  unfoldable pub post_suppression :
      (mirrored : Bool)
      → (id now : Text) → SuppressionRuleCreate
      → RuntimeConfig
      → Result SuppressionRule × RuntimeConfig
  unfolding validated create_suppression_rule
  post_suppression mirrored id now body c = answer_post mirrored id now (validated body) c

abbrev pub rule_response : Option SuppressionRule → Result SuppressionRule
rule_response none = refused 404 (codes "Suppression rule not found")
rule_response (some rule) = ok rule

-- PATCH /api/config/suppressions/{rule_id}
unfoldable pub patch_suppression :
    Refresh
    → (mirrored : Bool) → (now rule_id : Text) → (enabled : Option Bool)
    → (description expires_at : Option Text) → RuntimeConfig
    → Result SuppressionRule × RuntimeConfig
unfolding update_suppression_rule refresh_if_stale text_eq
patch_suppression refresh mirrored now rule_id enabled description expires_at c =
    let current = refresh_if_stale refresh c in
    let exists = any (λ (r : SuppressionRule). text_eq r.id rule_id) (rules_of current) in
    let updated =
      update_suppression_rule mirrored now rule_id enabled description expires_at current in
    if not (fits_500 description)
    then (refused 422 [], c)
    else if exists
    then (rule_response updated.0, updated.1)
    else (rule_response none, current)

-- DELETE /api/config/suppressions/{rule_id}
unfoldable pub delete_suppression :
    (mirrored : Bool) → (rule_id : Text) → RuntimeConfig → Result Text × RuntimeConfig
unfolding delete_suppression_rule
delete_suppression mirrored rule_id c =
    let deleted = delete_suppression_rule mirrored rule_id c in
    (if deleted.0 then ok rule_id else refused 404 (codes "Suppression rule not found"), deleted.1)

-- `sorted(rules, key=created_at, reverse=True)`, which keeps the order of equal keys.
module _ (instant : Text → ℕ) where
  unfoldable pub insert_rule : SuppressionRule → List SuppressionRule → List SuppressionRule
  insert_rule rule [] = rule ∷ []
  insert_rule rule (other ∷ rules) =
      let rest = insert_rule rule rules in
      if ltb (instant rule.created_at) (instant other.created_at)
      then other ∷ rest
      else rule ∷ other ∷ rules

  unfoldable pub sort_rules : List SuppressionRule → List SuppressionRule
  unfolding insert_rule
  sort_rules [] = []
  sort_rules (rule ∷ rules) = insert_rule rule (sort_rules rules)

  -- GET /api/config/suppressions
  unfoldable pub list_suppression_rules :
      Refresh → RuntimeConfig → List SuppressionRule × RuntimeConfig
  unfolding sort_rules refresh_if_stale
  list_suppression_rules refresh c =
      let current = refresh_if_stale refresh c in (sort_rules (rules_of current), current)
