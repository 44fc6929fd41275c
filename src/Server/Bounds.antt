-- ===== src/Server/Bounds.antt =====
-- engine/config.py: the thresholds stay as their specs want them, whatever is asked of the service.
use mathlib.Core.Path.{subst}
use threat_lens.Base.{
  ◌≡◌, refl, All, Bool-cases, List, Option, Text, [], ap, false, inl, inr, none, some, text_eq,
  true, ◌∙◌, ◌∷◌, sym, ◌≢◌, ℕ,
}
use threat_lens.Base.Options.{some_eq}
use threat_lens.Base.StringLaws.{eq_of_text_eq}
use threat_lens.Detection.{
  ThresholdEntry, Kind, Value, float_kind, int_kind, int_list_kind, number, numbers,
}
use threat_lens.Server.{Result, ok, refused, ◌>>=◌}
use threat_lens.Server.Thresholds.{
  Input, Numbers, Scalar, ThresholdSpec, Thresholds, coerce_value, has_duplicates, in_range,
  is_above, is_below, ports_of, finite, whole_of, numeric_of, raw_items, some_items, port_of,
  distinct, coerce_kind,
}
use threat_lens.Server.Changes.{
  Request, describe_threshold, get_spec, put_request, put_threshold, reset_request, serve_all,
  set_threshold, with_threshold, set_to, set_by, described, answer_to, put_by,
}

-- What a result holds, where it is one.
data IfOk {A : Type 0} (P : A → Type 0) : Result A → Type 0 where
  held : {a : A} → P a → IfOk P (ok a)
  void : {n : ℕ} {detail : Text} → IfOk P (refused n detail)

IfOk-bind :
    {A B : Type 0} {P : A → Type 0} {Q : B → Type 0} (r : Result A) (f : A → Result B)
    → IfOk P r
    → ((a : A) → P a → IfOk Q (f a))
    → IfOk Q (r >>= f)
IfOk-bind (ok a) f (held h) g = g a h
IfOk-bind (refused status_code detail) f h g = void

IfOk-any : {A : Type 0} (r : Result A) → IfOk (λ _. Unit {0}) r
IfOk-any (ok a) = held tt
IfOk-any (refused status_code detail) = void

module _ {Num : Type 0} (py : Numbers Num) where
  abbrev pub InRange : ThresholdSpec Num → Num → Type 0
  InRange spec n = (is_below py spec.minimum n ≡ false) × (is_above py spec.maximum n ≡ false)

  -- What the kind of a threshold wants of its value.
  abbrev pub IsOfKind : Kind → ThresholdSpec Num → Value Num → Type 0
  IsOfKind int_kind spec (number n) = InRange spec n × (m : Num) × (n ≡ py.truncated m)
  IsOfKind float_kind spec (number n) = InRange spec n × (py.is_finite n ≡ true)
  IsOfKind int_list_kind spec (numbers ns) =
      All (InRange spec) ns × (ns ≢ []) × (has_duplicates py ns ≡ false)
  IsOfKind _ spec _ = ⊥

  in_range-InRange :
      (spec : ThresholdSpec Num) (n : Num)
      → IfOk (λ m. (m ≡ n) × InRange spec m) (in_range py spec n)
  in_range-InRange spec n = elim (Bool-cases (is_below py spec.minimum n)) [
    | inl e ↦ rw e void
    | inr e ↦ elim (Bool-cases (is_above py spec.maximum n)) [
      | inl q ↦ rw (e, q) void
      | inr q ↦ rw (e, q) (held (refl, (e, q)))
    ]
  ]

  ports-InRange :
      (spec : ThresholdSpec Num) (items : List (Scalar Num))
      → IfOk
          (λ ports. All (InRange spec) ports × (items ≢ [] → ports ≢ []))
          (ports_of py spec items)
  unfolding ports_of
  ports-InRange spec [] = held (tt, λ h. absurd (h refl))
  ports-InRange spec (item ∷ items) = IfOk-bind _ _ (IfOk-any (port_of py item)) (λ port _.
      IfOk-bind _ _ (in_range-InRange spec port) (λ n fit.
        IfOk-bind _ _ (ports-InRange spec items) (λ ports h. held ((fit.1, h.0), λ _ e. cc))))

  distinct-IsOfKind :
      (spec : ThresholdSpec Num) (ports : List Num)
      → All (InRange spec) ports
      → ports ≢ []
      → IfOk (IsOfKind int_list_kind spec) (distinct py ports)
  distinct-IsOfKind spec ports h some_port = elim (Bool-cases (has_duplicates py ports)) [
    | inl e ↦ rw e void
    | inr e ↦ rw e (held (h, some_port, e))
  ]

  some_items-some : (raw : List (Scalar Num)) → IfOk (λ items. items ≢ []) (some_items py raw)
  some_items-some [] = void
  some_items-some (item ∷ items) = held (λ e. cc)

  finite-finite : (n : Num) → IfOk (λ m. py.is_finite m ≡ true) (finite py n)
  finite-finite n = elim (Bool-cases (py.is_finite n)) [ inl e ↦ rw e (held e) | inr e ↦ rw e void ]

  whole-whole : (n : Num) → IfOk (λ m. (k : Num) × (m ≡ py.truncated k)) (whole_of py int_kind n)
  whole-whole n = elim (Bool-cases (py.same n (py.truncated n))) [
    | inl e ↦ rw e (held (n, refl))
    | inr e ↦ rw e void
  ]

  coerce_kind-IsOfKind :
      (kind : Kind) (spec : ThresholdSpec Num) (value : Input Num)
      → spec.kind ≡ kind
      → IfOk (IsOfKind kind spec) (coerce_kind py kind spec value)
  coerce_kind-IsOfKind int_list_kind spec value e =
      IfOk-bind _ _ (IfOk-any (raw_items py value)) (λ raw _.
        IfOk-bind _ _ (some_items-some raw) (λ items some_item.
          IfOk-bind _ _ (ports-InRange spec items)
            (λ ports h. distinct-IsOfKind spec ports h.0 (h.1 some_item))))
  coerce_kind-IsOfKind int_kind spec value e =
      IfOk-bind _ _ (IfOk-any (numeric_of py value)) (λ numeric _.
        IfOk-bind _ _ (IfOk-any (finite py numeric)) (λ n _.
          IfOk-bind _ _
            (subst (λ k. IfOk (λ m. (j : Num) × (m ≡ py.truncated j)) (whole_of py k n)) (sym e)
              (whole-whole n))
            (λ m whole.
              IfOk-bind _ _ (in_range-InRange spec m)
                (λ fit h. held (h.1, whole.0, h.0 ∙ whole.1)))))
  coerce_kind-IsOfKind float_kind spec value e =
      IfOk-bind _ _ (IfOk-any (numeric_of py value)) (λ numeric _.
        IfOk-bind _ _ (finite-finite numeric) (λ n is_finite.
          IfOk-bind _ _ (subst (λ k. IfOk (λ m. m ≡ n) (whole_of py k n)) (sym e) (held refl))
            (λ m same.
              IfOk-bind _ _ (in_range-InRange spec m)
                (λ fit h. held (h.1, ap py.is_finite (h.0 ∙ same) ∙ is_finite)))))

  -- Every threshold that has a spec is as the spec wants it.
  abbrev pub IsInBounds : List (ThresholdSpec Num) → Thresholds Num → Type 0
  IsInBounds specs live =
      (rule parameter : Text) (spec : ThresholdSpec Num) (value : Value Num)
      → get_spec specs rule parameter ≡ some spec
      → live rule parameter ≡ some value
      → IsOfKind spec.kind spec value

  pub with_threshold-IsInBounds :
      (specs : List (ThresholdSpec Num)) (live : Thresholds Num) (rule parameter : Text)
      (spec : ThresholdSpec Num) (value : Value Num)
      → get_spec specs rule parameter ≡ some spec
      → IsOfKind spec.kind spec value
      → IsInBounds specs live
      → IsInBounds specs (with_threshold rule parameter value live)
  unfolding with_threshold
  with_threshold-IsInBounds specs live rule parameter spec value e fit h r p spec' value' e' q =
      elim (Bool-cases (text_eq rule r)) [
        | inl t ↦ elim (Bool-cases (text_eq parameter p)) [
          | inl u ↦
              let own : get_spec specs r p ≡ some spec =
                ap (λ x. get_spec specs x p) (sym (eq_of_text_eq rule r t))
                ∙ ap (get_spec specs rule) (sym (eq_of_text_eq parameter p u))
                ∙ e in
              let same : value ≡ value' = some_eq (sym (rw (t, u) refl) ∙ q) in
              subst (IsOfKind spec'.kind spec') same (
                subst (λ (x : ThresholdSpec Num). IsOfKind x.kind x value) (some_eq (sym own ∙ e'))
                  fit)
          | inr u ↦ h r p spec' value' e' (sym (rw (t, u) refl) ∙ q)
        ]
        | inr t ↦ h r p spec' value' e' (sym (rw t refl) ∙ q)
      ]

module _ {Num : Type 0} (py : Numbers Num) (specs : List (ThresholdSpec Num))
    (defaults : Thresholds Num) where
  pub described-snd :
      (entry : Option (ThresholdEntry Num)) (live : Thresholds Num)
      → (described py specs defaults entry live).1 ≡ live
  described-snd none live = refl
  described-snd (some entry) live = refl

  pub answer_to-snd :
      (r : Result (ThresholdEntry Num) × Thresholds Num) → (answer_to py specs defaults r).1 ≡ r.1
  answer_to-snd (ok entry, live) = refl
  answer_to-snd (refused status_code detail, live) = refl

  set_to-IsInBounds :
      (rule parameter : Text) (spec : ThresholdSpec Num) (live : Thresholds Num)
      (coerced : Result (Value Num))
      → get_spec specs rule parameter ≡ some spec
      → IfOk (IsOfKind py spec.kind spec) coerced
      → IsInBounds py specs live
      → IsInBounds py specs (set_to py specs defaults rule parameter spec live coerced).1
  set_to-IsInBounds rule parameter spec live (ok value) e (held fit) h =
      subst (IsInBounds py specs)
        (sym (
          described-snd
            (describe_threshold py defaults (with_threshold rule parameter value live) spec)
            (with_threshold rule parameter value live)))
        (with_threshold-IsInBounds py specs live rule parameter spec value e fit h)
  set_to-IsInBounds rule parameter spec live (refused status_code detail) e fit h = h

  set_by-IsInBounds :
      (rule parameter : Text) (value : Input Num) (live : Thresholds Num)
      (found : Option (ThresholdSpec Num))
      → get_spec specs rule parameter ≡ found
      → IsInBounds py specs live
      → IsInBounds py specs (set_by py specs defaults rule parameter value live found).1
  set_by-IsInBounds rule parameter value live none e h = h
  set_by-IsInBounds rule parameter value live (some spec) e h =
      set_to-IsInBounds rule parameter spec live (coerce_value py spec value) e
        (unfold coerce_value in coerce_kind-IsOfKind py spec.kind spec value refl) h

  put_by-IsInBounds :
      (rule parameter : Text) (value : Input Num) (live : Thresholds Num)
      (previous : Option (Value Num))
      → IsInBounds py specs live
      → IsInBounds py specs (put_by py specs defaults rule parameter value live previous).1
  unfolding set_threshold
  put_by-IsInBounds rule parameter value live none h = h
  put_by-IsInBounds rule parameter value live (some previous) h =
      subst (IsInBounds py specs)
        (sym (answer_to-snd (set_threshold py specs defaults rule parameter value live)))
        (set_by-IsInBounds rule parameter value live (get_spec specs rule parameter) refl h)

  -- Where the baseline of the environment is as the specs want it, every threshold with a spec is so
  -- after any requests to change and to reset thresholds, with whatever values: a number, or ports, as
  -- the kind says, within the bounds, whole or finite, or at least one port and none of them twice.
  pub serve_all-IsInBounds :
      (requests : List (Request Num)) (live : Thresholds Num)
      → IsInBounds py specs defaults
      → IsInBounds py specs live
      → IsInBounds py specs (serve_all py specs defaults requests live)
  unfolding put_threshold
  serve_all-IsInBounds [] live baseline h = h
  serve_all-IsInBounds (reset_request ∷ requests) live baseline h =
      serve_all-IsInBounds requests defaults baseline baseline
  serve_all-IsInBounds (put_request rule parameter value ∷ requests) live baseline h =
      serve_all-IsInBounds requests (put_threshold py specs defaults rule parameter value live).1
        baseline (put_by-IsInBounds rule parameter value live (live rule parameter) h)
