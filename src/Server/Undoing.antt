-- ===== src/Server/Undoing.antt =====
-- backend/app/main.py and engine/runtime_config.py: a suppression rule that is made and deleted again.
use mathlib.Core.Path.{ap₂}
use threat_lens.Base.{
  ◌≡◌, refl, Bool, List, Text, [], ap, inl, inr, lookup_text, none, text_eq, true, false, ◌∷◌, ◌∙◌,
  Bool-cases, sym,
}
use threat_lens.Base.Options.{none-ne-some}
use threat_lens.Base.StringLaws.{text_eq_refl}
use threat_lens.Base.Tables.{lookup-put_same, put, remove}
use threat_lens.Types.{SuppressionRule, SuppressionRuleCreate}
use threat_lens.Server.{is_ok, ok, refused, Result}
use threat_lens.Server.Routes.{
  answer_post, delete_suppression, new_rule, post_suppression, validated,
}
use threat_lens.Server.Suppression.{RuntimeConfig, create_suppression_rule, delete_suppression_rule}

remove_missing {ℓ} :
    {A : Type ℓ} (k : Text) (m : List (Text × A)) → lookup_text k m ≡ none → remove k m ≡ m
unfolding remove
remove_missing k [] h = refl
remove_missing k ((j, w) ∷ m) h = elim (Bool-cases (text_eq j k)) [
  | inl q ↦ absurd (none-ne-some {a = w} (sym h ∙ rw q refl))
  | inr q ↦ rw q (ap (◌∷◌ (j, w)) (remove_missing k m (sym (rw q refl) ∙ h)))
]

remove-put {ℓ} :
    {A : Type ℓ} (k : Text) (v : A) (m : List (Text × A))
    → lookup_text k m ≡ none
    → remove k (put k v m) ≡ m
unfolding remove put
remove-put k v [] h = rw (text_eq_refl k) refl
remove-put k v ((j, w) ∷ m) h = elim (Bool-cases (text_eq j k)) [
  | inl q ↦ absurd (none-ne-some {a = w} (sym h ∙ rw q refl))
  | inr q ↦ rw q (rw q (ap (◌∷◌ (j, w)) (remove-put k v m (sym (rw q refl) ∙ h))))
]

-- A rule with a new id is taken out again without a trace.
undone_rule :
    (mirrored : Bool) (rule : SuppressionRule) (c : RuntimeConfig)
    → lookup_text rule.id c.suppressions ≡ none
    → lookup_text rule.id c.stored ≡ none
    → let deleted = delete_suppression mirrored rule.id (create_suppression_rule mirrored rule c) in
      (deleted.1 ≡ c) × (is_ok deleted.0 ≡ true)
unfolding delete_suppression delete_suppression_rule create_suppression_rule
undone_rule true rule c fresh absent =
    rw
      (
        delete_suppression,
        delete_suppression_rule,
        is_ok,
        lookup-put_same rule.id rule c.suppressions,
      )
      (
        ap₂ (λ here there. record { suppressions = here; stored = there })
            (remove-put rule.id rule c.suppressions fresh)
            (remove-put rule.id rule c.stored absent),
        refl,
      )
undone_rule false rule c fresh absent =
    rw
      (
        delete_suppression,
        delete_suppression_rule,
        is_ok,
        lookup-put_same rule.id rule c.suppressions,
      )
      (
        ap (λ here. record { suppressions = here; stored = c.stored })
            (remove-put rule.id rule c.suppressions fresh),
        refl,
      )

undone_missing :
    (mirrored : Bool) (id : Text) (c : RuntimeConfig)
    → lookup_text id c.suppressions ≡ none
    → let deleted = delete_suppression mirrored id c in (deleted.1 ≡ c) × (is_ok deleted.0 ≡ false)
unfolding delete_suppression delete_suppression_rule
undone_missing mirrored id c fresh =
    rw (delete_suppression, delete_suppression_rule, is_ok, fresh) (refl, refl)

undone_by :
    (mirrored : Bool) (id now : Text) (r : Result SuppressionRuleCreate) (c : RuntimeConfig)
    → lookup_text id c.suppressions ≡ none
    → lookup_text id c.stored ≡ none
    → let posted = answer_post mirrored id now r c in
      let deleted = delete_suppression mirrored id posted.1 in
      (deleted.1 ≡ c) × (is_ok deleted.0 ≡ is_ok posted.0)
undone_by mirrored id now (ok body) c fresh absent =
    undone_rule mirrored (new_rule id now body) c fresh absent
undone_by mirrored id now (refused status_code detail) c fresh absent =
    undone_missing mirrored id c fresh

-- A rule that is posted under a new id, whatever the body, and deleted again leaves the rules and what
-- Redis holds of them as they were; and the deletion is taken exactly where the body was. Redis is
-- written at both times or at neither.
pub undone :
    (is_network : Text → Bool) (mirrored : Bool) (id now : Text) (body : SuppressionRuleCreate)
    (c : RuntimeConfig)
    → lookup_text id c.suppressions ≡ none
    → lookup_text id c.stored ≡ none
    → let posted = post_suppression is_network mirrored id now body c in
      let deleted = delete_suppression mirrored id posted.1 in
      (deleted.1 ≡ c) × (is_ok deleted.0 ≡ is_ok posted.0)
unfolding post_suppression
undone is_network mirrored id now body c fresh absent =
    undone_by mirrored id now (validated is_network body) c fresh absent
