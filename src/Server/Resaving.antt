-- ===== src/Server/Resaving.antt =====
-- The form of the thresholds and the service together: a row that is saved as it is.

use threat_lens.Base.{
  ◌≡◌, refl, All, List, Option, Text, [], ap, false, lookup_text, map, none, some, text_eq, true,
  ◌∙◌, ◌∷◌, sym, Bool-cases, inl, inr,
}
use threat_lens.Base.Split.{IsPlain}
use threat_lens.Base.{trim}
use threat_lens.Base.StringLaws.{eq_of_text_eq}
use threat_lens.Detection.{Kind, Value, float_kind, int_kind, int_list_kind, key, number, numbers}
use threat_lens.Detection.Save.{Editor, save_threshold}
use threat_lens.Detection.Values.{parse_value-raw, IsFit}
use threat_lens.Server.{ok}
use threat_lens.Server.Thresholds.{
  Input, Numbers, ThresholdSpec, Thresholds, amount, coerce_kind, coerce_value, many, one, other,
  ports_of,
}
use threat_lens.Server.Changes.{
  describe_threshold, entry_of, get_spec, put_threshold, set_threshold, with_threshold, put_by,
  set_by, set_to,
}
use threat_lens.Server.Bounds.{InRange, IsOfKind, answer_to-snd, described-snd}

-- The JSON of a value that the form sends; it sends NaN as null.
abbrev pub input_of : {Num : Type 0} → Option (Value Num) → Input Num
input_of none = one other
input_of (some (number n)) = one (amount n)
input_of (some (numbers ns)) = many (map amount ns)

module _ {Num : Type 0} (py : Numbers Num) where
  -- A whole number, and a value whose numbers are finite, and whole where the kind says so.
  abbrev pub IsWhole : Num → Type 0
  IsWhole n = (py.is_infinite n ≡ false) × (py.is_finite n ≡ true) × (py.truncated n ≡ n)

  abbrev pub IsExact : Kind → Value Num → Type 0
  IsExact float_kind (number n) = py.is_finite n ≡ true
  IsExact int_kind (number n) = IsWhole n
  IsExact int_list_kind (numbers ns) = All IsWhole ns
  IsExact _ _ = ⊥

  ports_exact :
      (spec : ThresholdSpec Num) (ns : List Num)
      → All (InRange py spec) ns
      → All IsWhole ns
      → ports_of py spec (map amount ns) ≡ ok ns
  unfolding ports_of
  ports_exact spec [] h w = refl
  ports_exact spec (n ∷ ns) h w =
      rw (w.0.0, w.0.1, w.0.2, h.0.0, h.0.1, ports_exact spec ns h.1 w.1) refl

  coerce_exact :
      (kind : Kind) (spec : ThresholdSpec Num) (value : Value Num)
      → ((n : Num) → py.same n n ≡ true)
      → spec.kind ≡ kind
      → IsOfKind py kind spec value
      → IsExact kind value
      → coerce_kind py kind spec (input_of (some value)) ≡ ok value
  coerce_exact float_kind spec (number n) self e h w = rw (w, e, h.0.0, h.0.1) refl
  coerce_exact int_kind spec (number n) self e h w = rw (w.1, e, w.2, self n, h.0.0, h.0.1) refl
  coerce_exact int_list_kind spec (numbers (n ∷ ns)) self e h w =
      rw (ports_exact spec (n ∷ ns) h.0 w, h.2) refl
  coerce_exact int_list_kind spec (numbers []) self e h w = absurd (h.1 refl)
  coerce_exact float_kind spec (numbers ns) self e h w = absurd h
  coerce_exact int_kind spec (numbers ns) self e h w = absurd h
  coerce_exact int_list_kind spec (number n) self e h w = absurd h

  IsFit-IsOfKind :
      (kind : Kind) (spec : ThresholdSpec Num) (value : Value Num)
      → IsOfKind py kind spec value
      → IsFit kind value
  IsFit-IsOfKind float_kind spec (number n) h = tt
  IsFit-IsOfKind int_kind spec (number n) h = tt
  IsFit-IsOfKind int_list_kind spec (numbers (n ∷ ns)) h = tt
  IsFit-IsOfKind int_list_kind spec (numbers []) h = absurd (h.1 refl)
  IsFit-IsOfKind float_kind spec (numbers ns) h = absurd h
  IsFit-IsOfKind int_kind spec (numbers ns) h = absurd h
  IsFit-IsOfKind int_list_kind spec (number n) h = absurd h

  same_threshold :
      (rule parameter r p : Text) (value : Value Num) (live : Thresholds Num)
      → live rule parameter ≡ some value
      → with_threshold rule parameter value live r p ≡ live r p
  unfolding with_threshold
  same_threshold rule parameter r p value live e = elim (Bool-cases (text_eq rule r)) [
    | inl t ↦ elim (Bool-cases (text_eq parameter p)) [
      | inl u ↦
          rw (t, u)
            (sym e
              ∙ ap (λ x. live x parameter) (eq_of_text_eq rule r t)
              ∙ ap (live r) (eq_of_text_eq parameter p u))
      | inr u ↦ rw (t, u) refl
    ]
    | inr t ↦ rw t refl
  ]

  module _ (specs : List (ThresholdSpec Num)) (defaults : Thresholds Num) where
    set_same :
        (rule parameter : Text) (spec : ThresholdSpec Num) (value : Value Num)
        (live : Thresholds Num)
        → get_spec specs rule parameter ≡ some spec
        → coerce_value py spec (input_of (some value)) ≡ ok value
        → (set_threshold py specs defaults rule parameter (input_of (some value)) live).1
          ≡ with_threshold rule parameter value live
    unfolding set_threshold
    set_same rule parameter spec value live e c =
        ap (λ o. (set_by py specs defaults rule parameter (input_of (some value)) live o).1) e
        ∙ ap (λ v. (set_to py specs defaults rule parameter spec live v).1) c
        ∙ described-snd py specs defaults
            (describe_threshold py defaults (with_threshold rule parameter value live) spec)
            (with_threshold rule parameter value live)

    put_same :
        (rule parameter : Text) (spec : ThresholdSpec Num) (value : Value Num)
        (live : Thresholds Num)
        → get_spec specs rule parameter ≡ some spec
        → live rule parameter ≡ some value
        → coerce_value py spec (input_of (some value)) ≡ ok value
        → (put_threshold py specs defaults rule parameter (input_of (some value)) live).1
          ≡ with_threshold rule parameter value live
    unfolding put_threshold
    put_same rule parameter spec value live e l c =
        ap (λ o. (put_by py specs defaults rule parameter (input_of (some value)) live o).1) l
        ∙ answer_to-snd py specs defaults
            (set_threshold py specs defaults rule parameter (input_of (some value)) live)
        ∙ set_same rule parameter spec value live e c

-- A row of the form that nobody edited, saved, sends the value that the service has for it, and the
-- service has the same value for every threshold after as before, where that value is as its spec
-- wants it, and its numbers are finite, and whole where the kind says so. A printed number reads back,
-- and holds no comma and no blank at its ends; a number equals itself.
pub resaved :
    {Num : Type 0} (py : Numbers Num) (show_number : Num → Text) (to_number : Text → Option Num)
    (specs : List (ThresholdSpec Num)) (defaults live : Thresholds Num) (spec : ThresholdSpec Num)
    (value default : Value Num) (e : Editor Num) (r p : Text)
    → ((n : Num) → to_number (show_number n) ≡ some n)
    → ((n : Num) → trim (show_number n) ≡ show_number n)
    → ((n : Num) → IsPlain b',' (show_number n))
    → ((n : Num) → py.same n n ≡ true)
    → get_spec specs spec.rule spec.parameter ≡ some spec
    → live spec.rule spec.parameter ≡ some value
    → IsOfKind py spec.kind spec value
    → IsExact py spec.kind value
    → lookup_text (key (entry_of py spec value default)) e.drafts ≡ none
    → let entry = entry_of py spec value default in
      let saved = save_threshold show_number to_number entry e in
      let sent = input_of (some value) in
      (saved.requests
        ≡ record { rule = spec.rule; parameter = spec.parameter; value = some value } ∷ e.requests)
      × ((put_threshold py specs defaults spec.rule spec.parameter sent live).1 r p ≡ live r p)
unfolding save_threshold
resaved py show_number to_number specs defaults live spec value default e r p shown trimmed plain
      self found current fit exact idle =
    let coerced : coerce_value py spec (input_of (some value)) ≡ ok value =
      unfold coerce_value in coerce_exact py spec.kind spec value self refl fit exact in
    (
      ap (λ v. record { rule = spec.rule; parameter = spec.parameter; value = v } ∷ e.requests)
          (parse_value-raw show_number to_number shown trimmed plain
            (entry_of py spec value default) e.drafts (IsFit-IsOfKind py spec.kind spec value fit)
            idle),
      ap (λ (t : Thresholds _). t r p)
            (put_same py specs defaults spec.rule spec.parameter spec value live found current
              coerced)
          ∙ same_threshold py spec.rule spec.parameter r p value live current,
    )
