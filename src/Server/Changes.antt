-- ===== src/Server/Changes.antt =====
-- engine/config.py and the routes of backend/app/main.py: finding, changing, describing and resetting a
-- threshold. What Redis holds of the changes is left out.
use threat_lens.Base.{
  Bool, List, Option, Text, [], false, if◌then◌else◌, none, not, some, text_eq, true, ◌&&◌, ◌∷◌,
}
use threat_lens.Detection.{ThresholdEntry, Value, number, numbers}
use threat_lens.Server.{Result, ok, refused}
use threat_lens.Server.Thresholds.{Input, Numbers, ThresholdSpec, Thresholds, coerce_value}

-- A request about the thresholds.
pub data Request (Num : Type 0) : Type 0 where
  put_request : (rule parameter : Text) → Input Num → Request Num
  reset_request : Request Num

abbrev pub cons_all {ℓ} : {A : Type ℓ} → Option A → Option (List A) → Option (List A)
cons_all (some a) (some rest) = some (a ∷ rest)
cons_all _ _ = none

module _ {Num : Type 0} where
  abbrev pub is_spec : (rule parameter : Text) → ThresholdSpec Num → Bool
  is_spec rule parameter spec = text_eq spec.rule rule && text_eq spec.parameter parameter

  unfoldable pub get_spec :
      List (ThresholdSpec Num) → (rule parameter : Text) → Option (ThresholdSpec Num)
  unfolding text_eq
  get_spec [] rule parameter = none
  get_spec (spec ∷ specs) rule parameter =
      let rest = get_spec specs rule parameter in
      if is_spec rule parameter spec then some spec else rest

  -- `THRESHOLDS[rule][parameter] = value`
  unfoldable pub with_threshold :
      (rule parameter : Text) → Value Num → Thresholds Num → Thresholds Num
  unfolding text_eq
  with_threshold rule parameter value live r p =
      if text_eq rule r && text_eq parameter p then some value else live r p

module _ {Num : Type 0} (py : Numbers Num) where
  abbrev pub same_all : List Num → List Num → Bool
  same_all [] [] = true
  same_all [] (m ∷ ms) = false
  same_all (n ∷ ns) [] = false
  same_all (n ∷ ns) (m ∷ ms) = py.same n m && same_all ns ms

  abbrev pub same_value : Value Num → Value Num → Bool
  same_value (number n) (number m) = py.same n m
  same_value (numbers ns) (numbers ms) = same_all ns ms
  same_value _ _ = false

  abbrev pub entry_of : ThresholdSpec Num → (value default : Value Num) → ThresholdEntry Num
  entry_of spec value default = record {
    rule = spec.rule;
    rule_label = spec.rule_label;
    parameter = spec.parameter;
    label = spec.label;
    description = spec.description;
    kind = spec.kind;
    least = spec.minimum;
    greatest = spec.maximum;
    value = value;
    default_value = default;
    modified = not (same_value value default);
    consumed_by = spec.consumed_by;
    active = true;
  }

  abbrev pub both :
      ThresholdSpec Num → (value default : Option (Value Num)) → Option (ThresholdEntry Num)
  both spec (some value) (some default) = some (entry_of spec value default)
  both spec _ _ = none

  -- `describe_threshold` of a spec, `none` for a KeyError.
  unfoldable pub describe_threshold :
      (defaults live : Thresholds Num) → ThresholdSpec Num → Option (ThresholdEntry Num)
  describe_threshold defaults live spec =
      both spec (live spec.rule spec.parameter) (defaults spec.rule spec.parameter)

  unfoldable pub describe_thresholds :
      (defaults live : Thresholds Num)
      → List (ThresholdSpec Num)
      → Option (List (ThresholdEntry Num))
  unfolding describe_threshold
  describe_thresholds defaults live [] = some []
  describe_thresholds defaults live (spec ∷ specs) =
      cons_all (describe_threshold defaults live spec) (describe_thresholds defaults live specs)

module _ {Num : Type 0} (py : Numbers Num) (specs : List (ThresholdSpec Num))
    (defaults : Thresholds Num) where
  -- A KeyError of the description is a 404 in the route.
  abbrev pub described :
      Option (ThresholdEntry Num) → Thresholds Num → Result (ThresholdEntry Num) × Thresholds Num
  described none live = (refused 404 [], live)
  described (some entry) live = (ok entry, live)

  abbrev pub set_to :
      (rule parameter : Text)
      → ThresholdSpec Num
      → Thresholds Num
      → Result (Value Num)
      → Result (ThresholdEntry Num) × Thresholds Num
  set_to rule parameter spec live (ok value) =
      let after = with_threshold rule parameter value live in
      described (describe_threshold py defaults after spec) after
  set_to rule parameter spec live (refused status_code detail) = (refused status_code detail, live)

  abbrev pub set_by :
      (rule parameter : Text)
      → Input Num
      → Thresholds Num
      → Option (ThresholdSpec Num)
      → Result (ThresholdEntry Num) × Thresholds Num
  set_by rule parameter value live none = (refused 400 [], live)
  set_by rule parameter value live (some spec) =
      set_to rule parameter spec live (coerce_value py spec value)

  unfoldable pub set_threshold :
      (rule parameter : Text)
      → Input Num
      → Thresholds Num
      → Result (ThresholdEntry Num) × Thresholds Num
  unfolding coerce_value get_spec with_threshold describe_threshold
  set_threshold rule parameter value live =
      set_by rule parameter value live (get_spec specs rule parameter)

  -- A KeyError here is caught by nothing.
  abbrev pub listed : Option (List (ThresholdEntry Num)) → Result (List (ThresholdEntry Num))
  listed none = refused 500 []
  listed (some entries) = ok entries

  abbrev pub answer_to :
      Result (ThresholdEntry Num) × Thresholds Num
      → Result (List (ThresholdEntry Num)) × Thresholds Num
  answer_to (ok entry, live) = (listed (describe_thresholds py defaults live specs), live)
  answer_to (refused status_code detail, live) = (refused status_code detail, live)

  abbrev pub put_by :
      (rule parameter : Text)
      → Input Num
      → Thresholds Num
      → Option (Value Num)
      → Result (List (ThresholdEntry Num)) × Thresholds Num
  put_by rule parameter value live none = (refused 404 [], live)
  put_by rule parameter value live (some previous) =
      answer_to (set_threshold rule parameter value live)

  -- PUT /api/config/thresholds; `thresholds` of its answer.
  unfoldable pub put_threshold :
      (rule parameter : Text)
      → Input Num
      → Thresholds Num
      → Result (List (ThresholdEntry Num)) × Thresholds Num
  unfolding set_threshold describe_thresholds
  put_threshold rule parameter value live = put_by rule parameter value live (live rule parameter)

  -- `reset_thresholds`: every rule gets its parameters of the baseline again.
  abbrev pub reset_thresholds : Thresholds Num → Thresholds Num
  reset_thresholds live = defaults

  abbrev pub serve : Request Num → Thresholds Num → Thresholds Num
  serve (put_request rule parameter value) live = (put_threshold rule parameter value live).1
  serve reset_request live = reset_thresholds live

  abbrev pub serve_all : List (Request Num) → Thresholds Num → Thresholds Num
  serve_all [] live = live
  serve_all (request ∷ requests) live = serve_all requests (serve request live)
