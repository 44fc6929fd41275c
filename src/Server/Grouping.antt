-- ===== src/Server/Grouping.antt =====
-- GET /api/incidents answers with whole incidents: what the groups of the recent alerts are.
use mathlib.Core.Path.{subst}
use threat_lens.Base.{
  ◌≡◌, refl, All, All-append, Bool, Bool-cases, List, Option, Text, [], ap, arith, false, filter,
  if◌then◌else◌, inl, inr, lookup_text, ltb, none, or_default, some, text_eq, true, ℕ, ◌++◌, ◌≤◌,
  ◌∙◌, ◌∷◌, sym, append-nil, append_assoc,
}
use threat_lens.Base.Sets.{Distinct, member, set_add, set_add-Distinct, member-set_add}
use threat_lens.Base.StringLaws.{eq_of_text_eq, text_eq_refl}
use threat_lens.Base.Tables.{keys_of, lookup-put, put, put-Distinct}
use threat_lens.Types.{Alert}
use threat_lens.Server.Incidents.{
  Incident, alerts_of, earlier, group_alerts, is_of, joined, later, new_incident, with_id,
}

filter-snoc :
    (p : Alert → Bool) (xs : List Alert) (a : Alert)
    → filter p (xs ++ a ∷ []) ≡ filter p xs ++ (if p a then a ∷ [] else [])
filter-snoc p [] a = refl
filter-snoc p (x ∷ xs) a = elim (Bool-cases (p x)) [
  | inl e ↦ rw e (ap (◌∷◌ x) (filter-snoc p xs a))
  | inr e ↦ rw e (filter-snoc p xs a)
]

pub All-imp {ℓ κ} :
    {A : Type 0} {P : A → Type ℓ} {Q : A → Type κ} (xs : List A)
    → ((x : A) → P x → Q x)
    → All P xs
    → All Q xs
All-imp [] f h = tt
All-imp (x ∷ xs) f h = (f x h.0, All-imp xs f h.1)

-- What one more alert does to the alerts of an incident.
alerts_of-own :
    (id : Text) (seen : List Alert) (a : Alert)
    → is_of id a.incident_id ≡ true
    → alerts_of id (seen ++ a ∷ []) ≡ alerts_of id seen ++ a ∷ []
alerts_of-own id seen a e = filter-snoc (λ x. is_of id x.incident_id) seen a ∙ rw e refl

alerts_of-other :
    (id : Text) (seen : List Alert) (a : Alert)
    → is_of id a.incident_id ≡ false
    → alerts_of id (seen ++ a ∷ []) ≡ alerts_of id seen
alerts_of-other id seen a e =
    filter-snoc (λ x. is_of id x.incident_id) seen a ∙ rw e (append-nil (alerts_of id seen))

module _ (instant : Text → ℕ) where
  -- An incident of `recent` has all its alerts in their order, spans their times, and names each of
  -- their classes once.
  pub record IsIncident (recent : List Alert) (id : Text) (incident : Incident) : Type 0 where
    pub named : incident.incident_id ≡ id
    pub whole : incident.alerts ≡ alerts_of id recent
    pub spanned :
        All
          (λ a.
            (instant incident.first_seen ≤ instant a.timestamp)
            × (instant a.timestamp ≤ instant incident.last_seen))
          incident.alerts
    pub classes : Distinct incident.threat_classes
    pub classed : All (λ a. member a.threat_class incident.threat_classes ≡ true) incident.alerts

  abbrev pub Good : List Alert → Text → Option Incident → Type 0
  Good seen id none = alerts_of id seen ≡ []
  Good seen id (some incident) = IsIncident seen id incident

  Good-other :
      (id : Text) (o : Option Incident) (seen : List Alert) (a : Alert)
      → is_of id a.incident_id ≡ false
      → Good seen id o
      → Good (seen ++ a ∷ []) id o
  Good-other id none seen a e h = alerts_of-other id seen a e ∙ h
  Good-other id (some incident) seen a e h = record {
    named = h.named;
    whole = h.whole ∙ sym (alerts_of-other id seen a e);
    spanned = h.spanned;
    classes = h.classes;
    classed = h.classed;
  }

  class_kept :
      (c d : Text) (classes : List Text)
      → member c classes ≡ true
      → member c (set_add d classes) ≡ true
  class_kept c d classes h = rw (member-set_add c d classes, h) (ground arith)

  class_added : (c : Text) (classes : List Text) → member c (set_add c classes) ≡ true
  class_added c classes = rw (member-set_add c c classes, text_eq_refl c) refl

  earlier-le :
      (a b : Text)
      → (instant (earlier instant a b) ≤ instant a) × (instant (earlier instant a b) ≤ instant b)
  earlier-le a b = elim (Bool-cases (ltb (instant b) (instant a))) [
    | inl e ↦ rw e (ground arith, omega arith)
    | inr e ↦ rw e (omega arith, ground arith)
  ]

  le-later :
      (a b : Text)
      → (instant a ≤ instant (later instant a b)) × (instant b ≤ instant (later instant a b))
  le-later a b = elim (Bool-cases (ltb (instant a) (instant b))) [
    | inl e ↦ rw e (ground arith, omega arith)
    | inr e ↦ rw e (omega arith, ground arith)
  ]

  Good-own :
      (id : Text) (o : Option Incident) (seen : List Alert) (a : Alert)
      → is_of id a.incident_id ≡ true
      → Good seen id o
      → Good (seen ++ a ∷ []) id (some (joined instant a (or_default o (new_incident id a))))
  Good-own id none seen a e h = record {
    named = refl;
    whole = sym (alerts_of-own id seen a e ∙ ap (λ xs. xs ++ a ∷ []) h);
    spanned = (((earlier-le a.timestamp a.timestamp).0, (le-later a.timestamp a.timestamp).0), tt);
    classes = set_add-Distinct a.threat_class [] tt;
    classed = (class_added a.threat_class [], tt);
  }
  Good-own id (some incident) seen a e h = record {
    named = h.named;
    whole = ap (λ xs. xs ++ a ∷ []) h.whole ∙ sym (alerts_of-own id seen a e);
    spanned =
        All-append _ incident.alerts (a ∷ [])
          (All-imp incident.alerts
            (λ x q. (
              omega (arith, (earlier-le incident.first_seen a.timestamp).0, q.0),
              omega (arith, (le-later incident.last_seen a.timestamp).0, q.1),
            ))
            h.spanned)
          (
            (
              (earlier-le incident.first_seen a.timestamp).1,
              (le-later incident.last_seen a.timestamp).1,
            ),
            tt,
          );
    classes = set_add-Distinct a.threat_class incident.threat_classes h.classes;
    classed =
        All-append _ incident.alerts (a ∷ [])
          (All-imp incident.alerts
            (λ x q. class_kept x.threat_class a.threat_class incident.threat_classes q) h.classed)
          (class_added a.threat_class incident.threat_classes, tt);
  }

  -- The groups behind the alerts `seen`.
  pub record IsGrouped (seen : List Alert) (grouped : List (Text × Incident)) : Type 0 where
    pub keys : Distinct (keys_of grouped)
    pub good : (id : Text) → Good seen id (lookup_text id grouped)

  with_id-IsGrouped :
      (from : Option Text) (seen : List Alert) (a : Alert) (grouped : List (Text × Incident))
      → a.incident_id ≡ from
      → IsGrouped seen grouped
      → IsGrouped (seen ++ a ∷ []) (with_id instant from a grouped)
  with_id-IsGrouped none seen a grouped e h = record {
    keys = h.keys;
    good = λ id. Good-other id _ seen a (ap (is_of id) e) (h.good id);
  }
  with_id-IsGrouped (some []) seen a grouped e h = record {
    keys = h.keys;
    good = λ id. Good-other id _ seen a (ap (is_of id) e) (h.good id);
  }
  with_id-IsGrouped (some (c ∷ own)) seen a grouped e h =
      let incident =
        joined instant a (or_default (lookup_text (c ∷ own) grouped) (new_incident (c ∷ own) a)) in
      record {
        keys = put-Distinct (c ∷ own) incident grouped h.keys;
        good = λ id. elim (Bool-cases (text_eq (c ∷ own) id)) [
          | inl q ↦
              let same : c ∷ own ≡ id = eq_of_text_eq (c ∷ own) id q in
              let mine : is_of (c ∷ own) a.incident_id ≡ true =
                ap (is_of (c ∷ own)) e ∙ text_eq_refl (c ∷ own) in
              subst (λ k. Good (seen ++ a ∷ []) k (lookup_text k (put (c ∷ own) incident grouped)))
                same
                (rw (lookup-put (c ∷ own) (c ∷ own) incident grouped, text_eq_refl (c ∷ own))
                  (Good-own (c ∷ own) (lookup_text (c ∷ own) grouped) seen a mine
                    (h.good (c ∷ own))))
          | inr q ↦
              rw (lookup-put id (c ∷ own) incident grouped, q)
                (Good-other id _ seen a (ap (is_of id) e ∙ q) (h.good id))
        ];
      }

  pub group_alerts-IsGrouped :
      (seen alerts : List Alert) (grouped : List (Text × Incident))
      → IsGrouped seen grouped
      → IsGrouped (seen ++ alerts) (group_alerts instant alerts grouped)
  unfolding group_alerts
  group_alerts-IsGrouped seen [] grouped h = rw (append-nil seen) h
  group_alerts-IsGrouped seen (a ∷ alerts) grouped h =
      subst
        (λ xs. IsGrouped xs (group_alerts instant alerts (with_id instant a.incident_id a grouped)))
        (append_assoc seen (a ∷ []) alerts)
        (group_alerts-IsGrouped (seen ++ a ∷ []) alerts (with_id instant a.incident_id a grouped)
          (with_id-IsGrouped a.incident_id seen a grouped refl h))
