-- ===== src/Server/Thresholds.antt =====
-- engine/config.py, the thresholds of the detectors, and the routes of backend/app/main.py on them.
-- `Num` is the type of Python's numbers, with what `Numbers` has of it. The messages of the errors are
-- left out.
use threat_lens.Base.{
  Bool, List, Option, Text, [], any, false, filter, if◌then◌else◌, is_truthy, map, none, some, trim,
  ◌||◌, ◌∷◌,
}
use threat_lens.Base.Split.{split}
use threat_lens.Detection.{Kind, Value, int_kind, int_list_kind, number, numbers}
use threat_lens.Server.{Result, ok, refused, ◌>>=◌}

-- `float(s)` and `int(s)` of a text, `none` where they raise a ValueError; `int(n)` of a finite number;
-- `n == m` and `n < m`.
pub record Numbers (Num : Type 0) : Type 0 where
  pub float_of : Text → Option Num
  pub int_of : Text → Option Num
  pub truncated : Num → Num
  pub is_finite : Num → Bool
  pub is_infinite : Num → Bool
  pub same : Num → Num → Bool
  pub less : Num → Num → Bool

-- The value of a payload, any JSON; `other` is what is no Boolean, number, text or list.
pub data Scalar (Num : Type 0) : Type 0 where
  boolean : Bool → Scalar Num
  amount : Num → Scalar Num
  string : Text → Scalar Num
  other : Scalar Num

pub data Input (Num : Type 0) : Type 0 where
  one : Scalar Num → Input Num
  many : List (Scalar Num) → Input Num

pub record ThresholdSpec (Num : Type 0) : Type 0 where
  pub rule : Text
  pub rule_label : Text
  pub parameter : Text
  pub label : Text
  pub description : Text
  pub kind : Kind
  pub minimum : Option Num
  pub maximum : Option Num
  pub consumed_by : Text

-- `THRESHOLDS`: the value of a rule and a parameter, `none` for a KeyError.
abbrev pub Thresholds : Type 0 → Type 0
Thresholds Num = (rule parameter : Text) → Option (Value Num)

module _ {Num : Type 0} (py : Numbers Num) where
  abbrev pub is_below : Option Num → Num → Bool
  is_below none n = false
  is_below (some least) n = py.less n least

  abbrev pub is_above : Option Num → Num → Bool
  is_above none n = false
  is_above (some greatest) n = py.less greatest n

  abbrev pub in_range : ThresholdSpec Num → Num → Result Num
  in_range spec n =
      if is_below spec.minimum n
      then refused 400 []
      else if is_above spec.maximum n
      then refused 400 []
      else ok n

  abbrev pub int_read : Option Num → Result Num
  int_read none = refused 400 []
  int_read (some n) = ok n

  -- `int(item)`; of an infinite number it raises an OverflowError, which nothing catches.
  abbrev pub port_of : Scalar Num → Result Num
  port_of (boolean b) = refused 400 []
  port_of (amount n) =
      if py.is_infinite n
      then refused 500 []
      else if py.is_finite n
      then ok (py.truncated n)
      else refused 400 []
  port_of (string text) = int_read (py.int_of text)
  port_of other = refused 400 []

  unfoldable pub ports_of : ThresholdSpec Num → List (Scalar Num) → Result (List Num)
  ports_of spec [] = ok []
  ports_of spec (item ∷ items) = do
    port ← port_of item
    fit ← in_range spec port
    ports ← ports_of spec items
    ok (fit ∷ ports)

  abbrev pub has_duplicates : List Num → Bool
  has_duplicates [] = false
  has_duplicates (n ∷ ns) = any (py.same n) ns || has_duplicates ns

  abbrev pub distinct : List Num → Result (Value Num)
  distinct ports = if has_duplicates ports then refused 400 [] else ok (numbers ports)

  abbrev pub raw_items : Input Num → Result (List (Scalar Num))
  raw_items (many items) = ok items
  raw_items (one (string text)) = ok (map string (filter is_truthy (map trim (split b',' text))))
  raw_items (one scalar) = refused 400 []

  abbrev pub some_items : List (Scalar Num) → Result (List (Scalar Num))
  some_items [] = refused 400 []
  some_items (item ∷ items) = ok (item ∷ items)

  abbrev pub numeric_of : Input Num → Result Num
  numeric_of (many items) = refused 400 []
  numeric_of (one (boolean b)) = refused 400 []
  numeric_of (one (amount n)) = ok n
  numeric_of (one (string text)) = int_read (py.float_of (trim text))
  numeric_of (one other) = refused 400 []

  abbrev pub finite : Num → Result Num
  finite n = if py.is_finite n then ok n else refused 400 []

  abbrev pub whole_of : Kind → Num → Result Num
  whole_of int_kind n = if py.same n (py.truncated n) then ok (py.truncated n) else refused 400 []
  whole_of _ n = ok n

  abbrev pub coerce_numeric : ThresholdSpec Num → Input Num → Result (Value Num)
  coerce_numeric spec value = do
    numeric ← numeric_of value
    number' ← finite numeric
    n ← whole_of spec.kind number'
    fit ← in_range spec n
    ok (number fit)

  abbrev pub coerce_list : ThresholdSpec Num → Input Num → Result (Value Num)
  coerce_list spec value = do
    raw ← raw_items value
    items ← some_items raw
    ports ← ports_of spec items
    distinct ports

  -- `_coerce_value`, by the kind of the spec.
  abbrev pub coerce_kind : Kind → ThresholdSpec Num → Input Num → Result (Value Num)
  coerce_kind int_list_kind spec value = coerce_list spec value
  coerce_kind _ spec value = coerce_numeric spec value

  unfoldable pub coerce_value : ThresholdSpec Num → Input Num → Result (Value Num)
  unfolding ports_of trim
  coerce_value spec value = coerce_kind spec.kind spec value
