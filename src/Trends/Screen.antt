-- ===== src/Trends/Screen.antt =====
-- frontend/src/components/ThreatTrends.tsx: what the chart shows: the lines of the classes with their
-- colours, the label of a slice, and the tooltip. `print` is how a number is shown.

use threat_lens.Base.{
  Bool, List, Option, Text, [], codes, drop, false, filter, if◌then◌else◌, leb, ltb, map, none,
  some, take, text_eq, true, ℕ, ◌++◌, ◌∷◌,
}
use threat_lens.Types.{
  ThreatClassEnum, all_classes, botnet_c2, class_value, data_exfil, dga_dns, encrypted_malware,
  recon_scan, volumetric_dos,
}
use threat_lens.Types.Classes.{get_short_threat_name}

-- `vectorColors`
abbrev pub vector_color : ThreatClassEnum → Text
vector_color volumetric_dos = codes "#38bdf8"
vector_color botnet_c2 = codes "#a855f7"
vector_color dga_dns = codes "#ec4899"
vector_color encrypted_malware = codes "#f43f5e"
vector_color recon_scan = codes "#eab308"
vector_color data_exfil = codes "#10b981"

-- A line: the key of its data, its colour, and whether it is faded to a fifth.
pub record Line : Type 0 where
  pub data_key : Text
  pub stroke : Text
  pub faded : Bool

abbrev is_faded : (hovered : Option Text) → Text → Bool
is_faded none c = false
is_faded (some []) c = false
is_faded (some (h ∷ hovered)) c = if text_eq (h ∷ hovered) c then false else true

unfoldable pub line_of : (hovered : Option Text) → ThreatClassEnum → Line
unfolding class_value text_eq
line_of hovered c = record {
  data_key = class_value c;
  stroke = vector_color c;
  faded = is_faded hovered (class_value c);
}

abbrev pub lines : (hovered : Option Text) → List Line
lines hovered = map (line_of hovered) all_classes

-- The label of a slice, for its end in ISO format.
abbrev pub time_label : (iso : Text) → (window_minutes : ℕ) → Text
time_label iso window_minutes =
    if leb window_minutes 5 then take 8 (drop 11 iso) else take 5 (drop 11 iso)

-- An entry of the tooltip.
pub record TrendEntry : Type 0 where
  pub name : Text
  pub value : ℕ
  pub color : Text

unfoldable pub entry_line : (print : ℕ → Text) → TrendEntry → Text × Text × Text
unfolding get_short_threat_name
entry_line print e = (e.color, get_short_threat_name e.name, print e.value ++ codes " alerts")

abbrev slice_lines : (print : ℕ → Text) → List TrendEntry → List (Text × Text × Text)
slice_lines print [] = ([], codes "No active threats in slice", []) ∷ []
slice_lines print (e ∷ entries) = map (entry_line print) (e ∷ entries)

-- `TrendTooltip`: its head, and a line for each class with alerts in the slice.
unfoldable pub trend_tooltip :
    (print : ℕ → Text) (active : Bool)
    → List TrendEntry
    → (label : Text) → Option (Text × List (Text × Text × Text))
unfolding entry_line
trend_tooltip print false payload label = none
trend_tooltip print true [] label = none
trend_tooltip print true (e ∷ payload) label =
    some
      (codes "UTC " ++ label, slice_lines print (filter (λ entry. ltb 0 entry.value) (e ∷ payload)))

-- The choice of the window.
abbrev pub trend_windows : List (ℕ × Text)
trend_windows =
    (1, codes "LIVE 1M")
    ∷ (5, codes "LAST 5M")
    ∷ (15, codes "LAST 15M")
    ∷ (60, codes "LAST 1H")
    ∷ (360, codes "LAST 6H")
    ∷ []
