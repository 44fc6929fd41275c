-- ===== src/Server/Correlation.antt =====
-- engine/models/aggregator.py: which alerts of a source share an incident. Times and the window are in
-- milliseconds; `fresh` is the UUID made for a new incident.
use mathlib.Core.Path.{subst}
use threat_lens.Base.{
  ◌≢◌, ◌≡◌, refl, All, Bool, Bool-cases, List, Option, Text, [], arith, false, filter,
  if◌then◌else◌, inl, inr, leb, lookup_text, none, some, text_eq, true, ℕ, ◌+◌, ◌≤◌, ◌∙◌, ◌∷◌, ap,
  sym, is_truthy,
}
use threat_lens.Base.Options.{true-ne-false, some_eq, none-ne-some}
use threat_lens.Base.StringLaws.{eq_of_text_eq}
use threat_lens.Base.Tables.{put, lookup-put_same, lookup-put_other}

-- `_source_incidents`: the time of the last alert of a source, and its incident.
abbrev pub SourceIncidents : Type 0
SourceIncidents = List (Text × (ℕ × Text))

abbrev pub chosen : (window timestamp : ℕ) → (fresh : Text) → Option (ℕ × Text) → Text
chosen window timestamp fresh none = fresh
chosen window timestamp fresh (some previous) =
    if leb timestamp (previous.0 + window) then previous.1 else fresh

abbrev pub is_recent : (window timestamp : ℕ) → Text × (ℕ × Text) → Bool
is_recent window timestamp entry = leb timestamp (entry.1.0 + window)

-- `_incident_id_for_source`
unfoldable pub incident_of :
    (window timestamp : ℕ)
    → (fresh : Text) → Option Text
    → SourceIncidents
    → Option Text × SourceIncidents
unfolding put text_eq
incident_of window timestamp fresh none incidents = (none, incidents)
incident_of window timestamp fresh (some []) incidents = (none, incidents)
incident_of window timestamp fresh (some (c ∷ source)) incidents =
    let id = chosen window timestamp fresh (lookup_text (c ∷ source) incidents) in
    (some id, filter (is_recent window timestamp) (put (c ∷ source) (timestamp, id) incidents))

-- A flow on which a detector fires.
pub record Detection : Type 0 where
  pub source : Option Text
  pub timestamp : ℕ
  pub fresh : Text

abbrev is_from : Text → Option Text → Bool
is_from source none = false
is_from source (some other) = text_eq other source

-- The incidents of the alerts of one source, along a run of detections.
unfoldable pub incidents_along :
    (window : ℕ) → Text → List Detection → SourceIncidents → List (Option Text)
unfolding incident_of
incidents_along window source [] incidents = []
incidents_along window source (d ∷ run) incidents =
    let (id, incidents') = incident_of window d.timestamp d.fresh d.source incidents in
    let rest = incidents_along window source run incidents' in
    if is_from source d.source then id ∷ rest else rest

-- An entry that is recent enough stays.
lookup-filter :
    (window timestamp : ℕ) (k : Text) (v : ℕ × Text) (m : SourceIncidents)
    → lookup_text k m ≡ some v
    → timestamp ≤ v.0 + window
    → lookup_text k (filter (is_recent window timestamp) m) ≡ some v
lookup-filter window timestamp k v [] e h = e
lookup-filter window timestamp k v ((j, w) ∷ m) e h = elim (Bool-cases (text_eq j k)) [
  | inl q ↦
      let same : w ≡ v = some_eq (sym (rw q refl) ∙ e) in
      let kept : leb timestamp (w.0 + window) ≡ true = ground arith in rw (kept, q) (ap some same)
  | inr q ↦
      let ih = lookup-filter window timestamp k v m (sym (rw q refl) ∙ e) h in
      elim (Bool-cases (leb timestamp (w.0 + window))) [ inl a ↦ rw (a, q) ih | inr a ↦ rw a ih ]
]

-- The entry of a source within a window that starts at `start`.
abbrev Holds : (window start : ℕ) → Text → Text → SourceIncidents → Type 0
Holds window start source id incidents =
    (t : ℕ) × (lookup_text source incidents ≡ some (t, id)) × (start ≤ t)

own_entry :
    (window start timestamp c : ℕ) (source fresh id : Text) (incidents : SourceIncidents)
    → Holds window start (c ∷ source) id incidents
    → start ≤ timestamp
    → timestamp ≤ start + window
    → let (id', incidents') = incident_of window timestamp fresh (some (c ∷ source)) incidents in
      (id' ≡ some id) × Holds window start (c ∷ source) id incidents'
unfolding incident_of
own_entry window start timestamp c source fresh id incidents (t, e, late) after within =
    let near : leb timestamp (t + window) ≡ true = ground arith in
    rw (e, near)
      (
        refl,
        (
          timestamp,
          lookup-filter window timestamp (c ∷ source) (timestamp, id)
              (put (c ∷ source) (timestamp, id) incidents)
              (lookup-put_same (c ∷ source) (timestamp, id) incidents) (omega arith),
          after,
        ),
      )

other_entry :
    (window start timestamp c : ℕ) (source other fresh id : Text) (incidents : SourceIncidents)
    → text_eq (c ∷ other) source ≡ false
    → Holds window start source id incidents
    → timestamp ≤ start + window
    → Holds window start source id
        (incident_of window timestamp fresh (some (c ∷ other)) incidents).1
unfolding incident_of
other_entry window start timestamp c source other fresh id incidents apart (t, e, late) within =
    let id' = chosen window timestamp fresh (lookup_text (c ∷ other) incidents) in
    (
      t,
      lookup-filter window timestamp source (t, id) (put (c ∷ other) (timestamp, id') incidents)
          (lookup-put_other source (c ∷ other) (timestamp, id') incidents apart ∙ e) (omega arith),
      late,
    )

abbrev pub IsWithin : (window start : ℕ) → Detection → Type 0
IsWithin window start d = (start ≤ d.timestamp) × (d.timestamp ≤ start + window)

-- One detection of whatever source leaves the entry of `source`, and its own alert gets its incident.
one_step :
    (window start timestamp : ℕ) (source fresh id : Text) (from : Option Text)
    (incidents : SourceIncidents)
    → Holds window start source id incidents
    → start ≤ timestamp
    → timestamp ≤ start + window
    → is_truthy source ≡ true
    → let (id', incidents') = incident_of window timestamp fresh from incidents in
      Holds window start source id incidents' × (is_from source from ≡ true → id' ≡ some id)
one_step window start timestamp source fresh id none incidents h after within named =
    (unfold incident_of in h, λ q. absurd (true-ne-false (sym q)))
one_step window start timestamp source fresh id (some []) incidents h after within named = (
  unfold incident_of in h,
  λ q. absurd (true-ne-false (sym named ∙ ap is_truthy (sym (eq_of_text_eq [] source q)))),
)
one_step window start timestamp source fresh id (some (c ∷ other)) incidents h after within named =
    elim (Bool-cases (text_eq (c ∷ other) source)) [
      | inl q ↦
          let same : c ∷ other ≡ source = eq_of_text_eq (c ∷ other) source q in
          let own =
            own_entry window start timestamp c other fresh id incidents
              (subst (λ k. Holds window start k id incidents) (sym same) h) after within in
          (
            subst
                (λ k.
                  Holds window start k id
                    (incident_of window timestamp fresh (some (c ∷ other)) incidents).1)
                same own.1,
            λ _. own.0,
          )
      | inr q ↦ (
        other_entry window start timestamp c source other fresh id incidents q h within,
        λ e. absurd (true-ne-false (sym e ∙ q)),
      )
    ]

along_window :
    (window start : ℕ) (source id : Text) (run : List Detection) (incidents : SourceIncidents)
    → is_truthy source ≡ true
    → Holds window start source id incidents
    → All (IsWithin window start) run
    → All (λ i. i ≡ some id) (incidents_along window source run incidents)
unfolding incidents_along
along_window window start source id [] incidents named h within = tt
along_window window start source id (d ∷ run) incidents named h within =
    let step =
      one_step window start d.timestamp source d.fresh id d.source incidents h within.0.0 within.0.1
        named in
    let rest =
      along_window window start source id run
        (incident_of window d.timestamp d.fresh d.source incidents).1 named step.0 within.1 in
    elim (Bool-cases (is_from source d.source)) [
      | inl q ↦ rw q (step.1 q, rest)
      | inr q ↦ rw q rest
    ]

-- Behind a first detection of a source, the detections up to one window later, of any sources in any
-- order, leave its incident: each alert of the source among them is put into the incident of the
-- first one.
pub one_incident :
    (window start c : ℕ) (source fresh : Text) (run : List Detection) (incidents : SourceIncidents)
    → All (IsWithin window start) run
    → let (id, after) = incident_of window start fresh (some (c ∷ source)) incidents in
      (id ≢ none) × All (λ i. i ≡ id) (incidents_along window (c ∷ source) run after)
one_incident window start c source fresh run incidents within =
    let id = chosen window start fresh (lookup_text (c ∷ source) incidents) in
    unfold incident_of in
    (
      λ e. none-ne-some (sym e),
      along_window window start (c ∷ source) id run
          (filter (is_recent window start) (put (c ∷ source) (start, id) incidents)) refl
          (
            start,
            lookup-filter window start (c ∷ source) (start, id)
                (put (c ∷ source) (start, id) incidents)
                (lookup-put_same (c ∷ source) (start, id) incidents) (omega arith),
            omega arith,
          )
          within,
    )
