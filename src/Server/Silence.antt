-- ===== src/Server/Silence.antt =====
-- The incidents panel and the service together: a suppression that is confirmed in the panel, and the
-- alerts after it.
use threat_lens.Base.{
  All, ◌≡◌, refl, Bool, Bool-cases, List, Option, Text, [], ap, arith, codes, false, filter,
  includes, inl, inr, is_truthy, lookup_text, map, none, Option-cases, some, text_eq, trim, take,
  text_or, true, ℕ, ◌∷◌, ◌∙◌, ◌≢◌, sym,
}
use threat_lens.Base.Options.{none-ne-some, some_eq, true-ne-false}
use threat_lens.Base.StringLaws.{text_eq_refl}
use threat_lens.Types.{Alert, SuppressionRule, SuppressionRuleCreate, source_ip}
use threat_lens.Incidents.{
  PanelState, Suppression, confirm_started, open_suppress_modal, default_description,
}
use threat_lens.Incidents.Rows.{is_named, open_named, opened, clean_of_plain}
use threat_lens.Server.{ok}
use threat_lens.Server.Archive.{Store, ring-insert_alert}
use threat_lens.Server.Routes.{new_rule, post_suppression, validated, validated_ip_criterion}
use threat_lens.Server.Keeping.{IsKept, RuleEvent, Spares, kept_rule, rule_events}
use threat_lens.Server.Suppression.{
  Refresh, RuntimeConfig, create_suppression_rule, deliver, first_match,
  get_active_suppression_rules, is_active, is_unexpired, refresh_if_stale, rule_matches, ip_matches,
  suppress,
}

-- The JSON of the panel's request.
abbrev pub suppression_body : Suppression → SuppressionRuleCreate
suppression_body request = record {
  rule_type = source_ip;
  description = some request.description;
  source_ip = some request.source_ip;
  destination_ip = none;
  threat_class = none;
  enabled = true;
  expires_at = none;
}

abbrev pub request_for : (ip : Text) → Suppression
request_for ip = record { source_ip = ip; description = default_description }

module _ (contains : Text → Text → Option Bool) where
  covers_own : (ip : Text) → contains ip ip ≢ some false → ip_matches contains ip ip ≡ true
  unfolding ip_matches
  covers_own ip own = elim (Option-cases (contains ip ip)) [
    | inl e ↦ rw e (text_eq_refl ip)
    | inr (true, e) ↦ rw e refl
    | inr (false, e) ↦ absurd (own e)
  ]

  -- The rule of a panel's request matches each alert from its address.
  matches_own :
      (id created ip : Text) (alert : Alert)
      → is_truthy ip ≡ true
      → contains ip ip ≢ some false
      → alert.source_ip ≡ some ip
      → rule_matches contains (new_rule id created (suppression_body (request_for ip))) alert ≡ true
  unfolding rule_matches
  matches_own id created ip alert named own from = rw (from, named, covers_own ip own) refl

module _ (instant : Text → ℕ) (contains : Text → Text → Option Bool) where
  -- A rule in force that matches an alert is met, or another one before it.
  first_match_total :
      (now : ℕ) (id : Text) (rule : SuppressionRule) (rules : List (Text × SuppressionRule))
      (alert : Alert)
      → lookup_text id rules ≡ some rule
      → is_active instant now rule ≡ true
      → rule_matches contains rule alert ≡ true
      → (r : SuppressionRule) × (first_match instant contains now
            (filter (is_active instant now) (map (λ e. e.1) rules))
            alert
          ≡ some r)
  unfolding first_match
  first_match_total now id rule [] alert e on hit = absurd (none-ne-some e)
  first_match_total now id rule ((j, x) ∷ rules) alert e on hit =
      elim (Bool-cases (is_active instant now x)) [
        | inl active ↦
            let live : is_unexpired instant now x.expires_at ≡ true = ground arith in
            elim (Bool-cases (rule_matches contains x alert)) [
              | inl m ↦ (x, rw (active, live, m) refl)
              | inr m ↦ elim (Bool-cases (text_eq j id)) [
                | inl q ↦
                    let same : x ≡ rule = some_eq (sym (rw q refl) ∙ e) in
                    absurd (
                      true-ne-false
                        (sym hit ∙ ap (λ r. rule_matches contains r alert) (sym same) ∙ m))
                | inr q ↦
                    rw (active, live, m)
                      (first_match_total now id rule rules alert (sym (rw q refl) ∙ e) on hit)
              ]
            ]
        | inr idle ↦ elim (Bool-cases (text_eq j id)) [
          | inl q ↦
              let same : x ≡ rule = some_eq (sym (rw q refl) ∙ e) in
              absurd (true-ne-false (sym on ∙ ap (is_active instant now) (sym same) ∙ idle))
          | inr q ↦ rw idle (first_match_total now id rule rules alert (sym (rw q refl) ∙ e) on hit)
        ]
      ]

accepted :
    (is_network : Text → Bool) (ip : Text)
    → trim ip ≡ ip
    → is_truthy ip ≡ true
    → is_network ip ≡ true
    → validated is_network (suppression_body (request_for ip))
      ≡ ok (suppression_body (request_for ip))
unfolding validated validated_ip_criterion
accepted is_network ip t named network = rw (t, named, network) (rw named refl)

default_text : text_or (trim default_description) default_description ≡ default_description
unfolding trim
default_text = refl

at_address :
    (c : ℕ) (ip : Text) (s : PanelState)
    → trim s.target_ip ≡ c ∷ ip
    → s.description ≡ default_description
    → (confirm_started s).requests ≡ request_for (c ∷ ip) ∷ s.requests
unfolding confirm_started
at_address c ip s t d = rw (t, d, default_text) refl

requested :
    (ip : Text) (s : PanelState)
    → trim ip ≡ ip
    → includes ip (codes ":") ≡ false
    → is_named ip ≡ true
    → (confirm_started (open_suppress_modal ip s)).requests ≡ request_for ip ∷ s.requests
requested [] s t n named = absurd (true-ne-false (sym named))
requested (c ∷ ip) s t n named =
    rw (open_named (c ∷ ip) s named)
      (at_address c ip (opened (c ∷ ip) s) (ap trim (clean_of_plain (c ∷ ip) t n refl) ∙ t) refl)

named_truthy : (ip : Text) → is_named ip ≡ true → is_truthy ip ≡ true
named_truthy [] h = h
named_truthy (c ∷ ip) h = refl

-- The button of a row with a plain address sends the request for a rule on it, and the service takes
-- it. After any alerts, listings, new rules and deletions of other rules, an alert from this address
-- is recorded, marked as suppressed, and not broadcast, whatever other rules there are. This holds as
-- long as no rule is updated, Redis is not emptied, as the clearing of the database may, and no read
-- of Redis raises, and Redis is read only where the rule was written to it. The address is a network
-- of its own for `ipaddress`.
pub silenced :
    (instant : Text → ℕ) (contains : Text → Text → Option Bool) (is_network : Text → Bool)
    (mirrored inserted : Bool) (events : List RuleEvent) (refresh : Refresh) (now : ℕ)
    (ip id created : Text) (alert : Alert) (s : PanelState) (c : RuntimeConfig) (store : Store)
    (sent : List Alert)
    → trim ip ≡ ip
    → includes ip (codes ":") ≡ false
    → is_named ip ≡ true
    → is_network ip ≡ true
    → contains ip ip ≢ some false
    → All (Spares mirrored id) events
    → IsKept mirrored refresh
    → alert.source_ip ≡ some ip
    → let body = suppression_body (request_for ip) in
      let posted = post_suppression is_network mirrored id created body c in
      let later = rule_events instant contains is_network events posted.1 in
      let marked = (suppress instant contains refresh now alert later).0 in
      let delivered = deliver false inserted marked (store, sent) in
      ((confirm_started (open_suppress_modal ip s)).requests ≡ request_for ip ∷ s.requests)
      × (posted.0 ≡ ok (new_rule id created body))
      × (marked.suppressed ≡ true)
      × (delivered.0.memory_ring ≡ take store.max_memory_buffer (marked ∷ store.memory_ring))
      × (delivered.1 ≡ sent)
unfolding post_suppression suppress get_active_suppression_rules deliver
silenced instant contains is_network mirrored inserted events refresh now ip id created alert s c
      store sent t n named network own spared kept from =
    let truthy = named_truthy ip named in
    let rule = new_rule id created (suppression_body (request_for ip)) in
    let found =
      first_match_total instant contains now id rule
        (refresh_if_stale refresh (
          rule_events instant contains is_network events
            (create_suppression_rule mirrored rule c))).suppressions
        alert (kept_rule instant contains is_network mirrored refresh rule events c spared kept)
        refl (matches_own contains id created ip alert truthy own from) in
    rw (accepted is_network ip t truthy network, found.1)
      (requested ip s t n named, refl, refl, ring-insert_alert false inserted _ store, refl)
