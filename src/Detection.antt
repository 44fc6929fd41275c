-- ===== src/Detection.antt =====
-- frontend/src/components/DetectionConfig.tsx with the threshold contracts of
-- frontend/src/types/threat.ts: the thresholds of the detectors, their drafts, and saving one.
-- `Num` is the type of the numbers of JavaScript; `to_number` is `Number(s)`, `none` for NaN and the
-- infinities, and `show_number` is `String(n)`.
use threat_lens.Base.{
  List, arith, text_eq, codes, Bool, Option, Text, [], lookup_text, map, none, or_default, some,
  trim, ◌++◌, ◌∷◌,
}
use threat_lens.Base.Split.{split}
use threat_lens.Base.Tables.{put}
pub mod Values
pub mod Groups
pub mod Save
pub mod Rules
pub mod Screen
pub mod RuleScreen
pub mod Samples
mod Tests

pub data Kind : Type 0 where
  int_kind : Kind
  float_kind : Kind
  int_list_kind : Kind

-- `number | number[]`
pub data Value (Num : Type 0) : Type 0 where
  number : Num → Value Num
  numbers : List Num → Value Num

pub record ThresholdEntry (Num : Type 0) : Type 0 where
  pub rule : Text
  pub rule_label : Text
  pub parameter : Text
  pub label : Text
  pub description : Text
  pub kind : Kind
  pub least : Option Num
  pub greatest : Option Num
  pub value : Value Num
  pub default_value : Value Num
  pub modified : Bool
  pub consumed_by : Text
  pub active : Bool

-- `ThresholdConfigResponse`; `in_redis` is `storage_mode === "redis"`.
pub record Config (Num : Type 0) : Type 0 where
  pub in_redis : Bool
  pub persistent : Bool
  pub thresholds : List (ThresholdEntry Num)

pub data RowState : Type 0 where
  idle : RowState
  saving : RowState
  saved : RowState
  save_error : RowState

-- `join(", ")`
abbrev pub join_comma : List Text → Text
join_comma [] = []
join_comma (part ∷ []) = part
join_comma (part ∷ next ∷ parts) = part ++ (b',' ∷ b' ' ∷ join_comma (next ∷ parts))

-- `key`
abbrev pub key : {Num : Type 0} → ThresholdEntry Num → Text
key entry = entry.rule ++ (b'.' ∷ entry.parameter)

module _ {Num : Type 0} (show_number : Num → Text) where
  -- `describeValue`, of `entry.value`
  unfoldable pub describe_value : Value Num → Text
  describe_value (number n) = show_number n
  describe_value (numbers ns) = join_comma (map show_number ns)

  abbrev pub bound : Text → Option Num → List Text
  bound name none = []
  bound name (some n) = (name ++ (b' ' ∷ show_number n)) ∷ []

  abbrev pub list_hint : Kind → List Text
  list_hint int_list_kind = codes "comma-separated ports" ∷ []
  list_hint _ = []

  -- `rangeHint`: what it joins with a dot, or the text for no bounds.
  unfoldable pub range_hint : ThresholdEntry Num → List Text
  range_hint entry =
      elim (bound (codes "min") entry.least
        ++ (bound (codes "max") entry.greatest ++ list_hint entry.kind)) [
          | [] ↦ codes "no bounds" ∷ []
          | (hint ∷ hints) ↦ hint ∷ hints
        ]

  -- `drafts[id] ?? describeValue(entry)`
  abbrev pub raw_value : List (Text × Text) → ThresholdEntry Num → Text
  raw_value drafts entry = or_default (lookup_text (key entry) drafts) (describe_value entry.value)

-- `filter((part) => Number.isFinite(part))` on one number.
abbrev pub keep_finite : {Num : Type 0} → Option Num → List Num → List Num
keep_finite none ns = ns
keep_finite (some n) ns = n ∷ ns

abbrev pub as_number : {Num : Type 0} → Option Num → Option (Value Num)
as_number none = none
as_number (some n) = some (number n)

module _ {Num : Type 0} (to_number : Text → Option Num) where
  -- `map((part) => Number(part.trim())).filter(…)`
  abbrev pub finite_numbers : List Text → List Num
  finite_numbers [] = []
  finite_numbers (part ∷ parts) = keep_finite (to_number (trim part)) (finite_numbers parts)

  -- The value of the request. JSON prints a number that is not finite as null: `none`.
  unfoldable pub parse_value : Kind → Text → Option (Value Num)
  parse_value int_list_kind raw = some (numbers (finite_numbers (split b',' raw)))
  parse_value _ raw = as_number (to_number raw)
