-- ===== src/Server/Overview.antt =====
-- The answer of GET /api/incidents as a whole: every incident of the recent alerts, the latest first.
use mathlib.Core.Path.{subst}
use threat_lens.Base.{
  ◌≡◌, refl, All, All-take, Bool, Bool-cases, List, Option, Option-cases, Text, [], any, ap, arith,
  inl, inr, leb, length, length-map, lookup_text, ltb, map, none, some, suc, take, take_all,
  text_eq, true, ℕ, ◌+◌, ◌≤◌, ◌∙◌, ◌∷◌, sym, zero, ◌≢◌, ◌||◌,
}
use threat_lens.Base.Options.{none-ne-some, some_eq}
use threat_lens.Base.Sets.{Absent, Distinct}
use threat_lens.Base.StringLaws.{eq_of_text_eq, text_eq_refl}
use threat_lens.Base.Tables.{keys_of, put}
use threat_lens.Types.{Alert}
use threat_lens.Server.{ok}
use threat_lens.Server.Incidents.{
  Incident, alerts_of, get_incidents, group_alerts, insert_incident, sort_incidents, with_id,
}
use threat_lens.Server.Grouping.{All-imp, Good, IsGrouped, IsIncident, group_alerts-IsGrouped}

abbrev values : List (Text × Incident) → List Incident
values = map (λ e. e.1)

lookup-Absent :
    (k : Text) (m : List (Text × Incident)) → Absent k (keys_of m) → lookup_text k m ≡ none
lookup-Absent k [] h = refl
lookup-Absent k ((j, v) ∷ m) h = elim (Bool-cases (text_eq j k)) [
  | inl q ↦ absurd (h.0 (eq_of_text_eq j k q))
  | inr q ↦ rw q (lookup-Absent k m h.1)
]

-- What holds of every value that is found holds of every value.
All-values :
    (P : Incident → Type 0) (m : List (Text × Incident))
    → Distinct (keys_of m)
    → ((id : Text) (v : Incident) → lookup_text id m ≡ some v → P v)
    → All P (values m)
All-values P [] d h = tt
All-values P ((j, v) ∷ m) d h = (
  h j v (rw (text_eq_refl j) refl),
  All-values P m d.1 (λ id w e. elim (Bool-cases (text_eq j id)) [
    | inl q ↦ absurd (
        none-ne-some
          (sym (lookup-Absent j m d.0) ∙ ap (λ k. lookup_text k m) (eq_of_text_eq j id q) ∙ e))
    | inr q ↦ h id w (rw q e)
  ]),
)

found-any :
    (id : Text) (v : Incident) (m : List (Text × Incident))
    → lookup_text id m ≡ some v
    → v.incident_id ≡ id
    → any (λ i. text_eq i.incident_id id) (values m) ≡ true
found-any id v [] e n = absurd (none-ne-some e)
found-any id v ((j, w) ∷ m) e n = elim (Bool-cases (text_eq j id)) [
  | inl q ↦
      let same : w ≡ v = some_eq (sym (rw q refl) ∙ e) in
      let mine : text_eq w.incident_id id ≡ true =
        ap (λ (i : Incident). text_eq i.incident_id id) same
        ∙ ap (λ k. text_eq k id) n
        ∙ text_eq_refl id in
      rw mine refl
  | inr q ↦ rw (found-any id v m (sym (rw q refl) ∙ e) n) (ground arith)
]

length-put :
    (k : Text) (v : Incident) (m : List (Text × Incident)) → length (put k v m) ≤ length m + 1
unfolding put
length-put k v [] = omega arith
length-put k v ((j, w) ∷ m) = elim (Bool-cases (text_eq j k)) [
  | inl q ↦ rw q (omega arith)
  | inr q ↦ rw q (omega (arith, length-put k v m))
]

swap : (a b c : Bool) → (a || (b || c)) ≡ (b || (a || c))
swap a b c = ground arith

module _ (instant : Text → ℕ) where
  length-with_id :
      (from : Option Text) (a : Alert) (m : List (Text × Incident))
      → length (with_id instant from a m) ≤ length m + 1
  length-with_id none a m = omega arith
  length-with_id (some []) a m = omega arith
  length-with_id (some (c ∷ id)) a m = length-put (c ∷ id) _ m

  length-group_alerts :
      (alerts : List Alert) (m : List (Text × Incident))
      → length (group_alerts instant alerts m) ≤ length m + length alerts
  unfolding group_alerts
  length-group_alerts [] m = omega arith
  length-group_alerts (a ∷ alerts) m = omega (
    arith,
    length-group_alerts alerts (with_id instant a.incident_id a m),
    length-with_id a.incident_id a m,
  )

  -- No incident ends later than one before it.
  abbrev pub IsLatestFirst : List Incident → Type 0
  IsLatestFirst [] = Unit
  IsLatestFirst (x ∷ xs) =
      All (λ y. instant y.last_seen ≤ instant x.last_seen) xs × IsLatestFirst xs

  All-insert_incident :
      (P : Incident → Type 0) (x : Incident) (xs : List Incident)
      → P x
      → All P xs
      → All P (insert_incident instant x xs)
  unfolding insert_incident
  All-insert_incident P x [] p h = (p, tt)
  All-insert_incident P x (y ∷ xs) p h =
      elim (Bool-cases (ltb (instant x.last_seen) (instant y.last_seen))) [
        | inl e ↦ rw e (h.0, All-insert_incident P x xs p h.1)
        | inr e ↦ rw e (p, h)
      ]

  All-sort_incidents :
      (P : Incident → Type 0) (xs : List Incident) → All P xs → All P (sort_incidents instant xs)
  unfolding sort_incidents
  All-sort_incidents P [] h = tt
  All-sort_incidents P (x ∷ xs) h =
      All-insert_incident P x (sort_incidents instant xs) h.0 (All-sort_incidents P xs h.1)

  insert-IsLatestFirst :
      (x : Incident) (xs : List Incident)
      → IsLatestFirst xs
      → IsLatestFirst (insert_incident instant x xs)
  unfolding insert_incident
  insert-IsLatestFirst x [] h = (tt, tt)
  insert-IsLatestFirst x (y ∷ xs) h =
      elim (Bool-cases (ltb (instant x.last_seen) (instant y.last_seen))) [
        | inl e ↦ rw e (
          All-insert_incident (λ z. instant z.last_seen ≤ instant y.last_seen) x xs (ground arith)
              h.0,
          insert-IsLatestFirst x xs h.1,
        )
        | inr e ↦
            let le : instant y.last_seen ≤ instant x.last_seen = ground arith in
            rw e ((le, All-imp xs (λ z q. omega (arith, q, le)) h.0), h)
      ]

  sort-IsLatestFirst : (xs : List Incident) → IsLatestFirst (sort_incidents instant xs)
  unfolding sort_incidents
  sort-IsLatestFirst [] = tt
  sort-IsLatestFirst (x ∷ xs) = insert-IsLatestFirst x _ (sort-IsLatestFirst xs)

  take-IsLatestFirst : (n : ℕ) (xs : List Incident) → IsLatestFirst xs → IsLatestFirst (take n xs)
  take-IsLatestFirst zero xs h = tt
  take-IsLatestFirst (suc n) [] h = tt
  take-IsLatestFirst (suc n) (x ∷ xs) h = (All-take _ n xs h.0, take-IsLatestFirst n xs h.1)

  any-insert_incident :
      (p : Incident → Bool) (x : Incident) (xs : List Incident)
      → any p (insert_incident instant x xs) ≡ (p x || any p xs)
  unfolding insert_incident
  any-insert_incident p x [] = refl
  any-insert_incident p x (y ∷ xs) =
      elim (Bool-cases (ltb (instant x.last_seen) (instant y.last_seen))) [
        | inl e ↦ rw (e, any-insert_incident p x xs) (swap (p y) (p x) (any p xs))
        | inr e ↦ rw e refl
      ]

  any-sort_incidents :
      (p : Incident → Bool) (xs : List Incident) → any p (sort_incidents instant xs) ≡ any p xs
  unfolding sort_incidents
  any-sort_incidents p [] = refl
  any-sort_incidents p (x ∷ xs) =
      any-insert_incident p x (sort_incidents instant xs)
      ∙ ap (λ b. p x || b) (any-sort_incidents p xs)

  length-insert_incident :
      (x : Incident) (xs : List Incident) → length (insert_incident instant x xs) ≡ suc (length xs)
  unfolding insert_incident
  length-insert_incident x [] = refl
  length-insert_incident x (y ∷ xs) =
      elim (Bool-cases (ltb (instant x.last_seen) (instant y.last_seen))) [
        | inl e ↦ rw e (ap suc (length-insert_incident x xs))
        | inr e ↦ rw e refl
      ]

  length-sort_incidents : (xs : List Incident) → length (sort_incidents instant xs) ≡ length xs
  unfolding sort_incidents
  length-sort_incidents [] = refl
  length-sort_incidents (x ∷ xs) =
      length-insert_incident x (sort_incidents instant xs) ∙ ap suc (length-sort_incidents xs)

  start-IsGrouped : IsGrouped instant [] []
  start-IsGrouped = record { keys = tt; good = λ id. refl }

  itself :
      (recent : List Alert) (id : Text) (v : Incident)
      → IsIncident instant recent id v
      → IsIncident instant recent v.incident_id v
  itself recent id v h = record {
    named = refl;
    whole = h.whole ∙ ap (λ k. alerts_of k recent) (sym h.named);
    spanned = h.spanned;
    classes = h.classes;
    classed = h.classed;
  }

  whole_values :
      (recent : List Alert) (m : List (Text × Incident))
      → IsGrouped instant recent m
      → All (λ v. IsIncident instant recent v.incident_id v) (values m)
  whole_values recent m h =
      All-values (λ v. IsIncident instant recent v.incident_id v) m h.keys
        (λ id v e. itself recent id v (subst (Good instant recent id) e (h.good id)))

  all_found :
      (recent : List Alert) (m : List (Text × Incident)) (id : Text)
      → IsGrouped instant recent m
      → alerts_of id recent ≢ []
      → any (λ i. text_eq i.incident_id id) (values m) ≡ true
  all_found recent m id h some_alert = elim (Option-cases (lookup_text id m)) [
    | inl e ↦ absurd (some_alert (subst (Good instant recent id) e (h.good id)))
    | inr (v, e) ↦ found-any id v m e (subst (Good instant recent id) e (h.good id)).named
  ]

  -- Within the bounds of the route, the answer for the recent alerts, of which the store gives no more
  -- than the limit, has an incident for each id that one of them has; each of its incidents has all
  -- the recent alerts with its id, in their order, spans their times and names each of their classes
  -- once; and none ends later than one before it.
  pub get_incidents_lem :
      (limit : ℕ) (recent : List Alert)
      → 1 ≤ limit
      → limit ≤ 500
      → length recent ≤ limit
      → (incidents : List Incident) × (get_incidents instant limit recent ≡ ok incidents)
        × All (λ v. IsIncident instant recent v.incident_id v) incidents
        × ((id : Text)
            → alerts_of id recent ≢ []
            → any (λ i. text_eq i.incident_id id) incidents ≡ true)
        × IsLatestFirst incidents
  unfolding get_incidents
  get_incidents_lem limit recent positive bounded fits =
      let m = group_alerts instant recent [] in
      let h : IsGrouped instant recent m =
        group_alerts-IsGrouped instant [] recent [] start-IsGrouped in
      let lower : leb 1 limit ≡ true = ground arith in
      let upper : leb limit 500 ≡ true = ground arith in
      let sorted = sort_incidents instant (values m) in
      let room : length sorted ≤ limit = omega (
        arith,
        fits,
        length-sort_incidents (values m),
        length-map m (λ (e : Text × Incident). e.1),
        length-group_alerts recent [],
      ) in
      (
        take limit sorted,
        rw (lower, upper) refl,
        All-take _ limit sorted (All-sort_incidents _ (values m) (whole_values recent m h)),
        λ id some_alert.
            ap (any (λ i. text_eq i.incident_id id)) (take_all sorted limit room)
            ∙ any-sort_incidents (λ i. text_eq i.incident_id id) (values m)
            ∙ all_found recent m id h some_alert,
        take-IsLatestFirst limit sorted (sort-IsLatestFirst (values m)),
      )
