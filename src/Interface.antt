-- ===== src/Interface.antt =====
-- frontend/src/components/ui: the primitives that keep a state of their own, the tabs (tabs.tsx),
-- the sheets that slide in (sheet.tsx) and the tooltip (tooltip.tsx). `formatTimestamp` of
-- frontend/src/lib/utils.ts is here too.
use threat_lens.Base.{
  Bool, List, Option, Text, [], codes, false, if◌then◌else◌, none, or_default, some, text_eq,
  text_or, true, ℕ, ◌==◌, ◌∷◌,
}
pub mod Locking
mod Tests

-- `value` of `Tabs`, which a parent may control, and its own `internalValue`.
pub record Tabs : Type 0 where
  pub value : Option Text
  pub internal_value : Text

unfoldable pub initial_tabs : (value : Option Text) → (default_value : Text) → Tabs
initial_tabs value default_value = record {
  value = value;
  internal_value = text_or (or_default value []) default_value;
}

unfoldable pub active_value : Tabs → Text
active_value s = or_default s.value s.internal_value

-- The value that `onValueChange` is called with is the one chosen.
unfoldable pub handle_value_change : Text → Tabs → Tabs
handle_value_change chosen s = record s { internal_value = chosen }

-- `isActive` of a trigger, and whether a content is rendered.
unfoldable pub is_active : Tabs → Text → Bool
unfolding text_eq active_value
is_active s value = text_eq (active_value s) value

-- Which sheets are open, which of them listen to the keys of the document, and whether the page
-- behind them is kept from scrolling. A sheet is named by a number.
pub record Sheets : Type 0 where
  pub is_open : ℕ → Bool
  pub listens : ℕ → Bool
  pub locked : Bool

abbrev pub closed_sheets : Sheets
closed_sheets = record { is_open = λ i. false; listens = λ i. false; locked = false }

abbrev pub set_at : ℕ → Bool → (ℕ → Bool) → ℕ → Bool
set_at id b f i = if i == id then b else f i

-- The cleanup of the effect of a sheet, and its body.
unfoldable pub sheet_cleanup : ℕ → Sheets → Sheets
sheet_cleanup id s = record s { listens = set_at id false s.listens; locked = false }

unfoldable pub sheet_effect : (opens : Bool) → ℕ → Sheets → Sheets
sheet_effect true id s = record s { listens = set_at id true s.listens; locked = true }
sheet_effect false id s = s

abbrev pub same_bool : Bool → Bool → Bool
same_bool true b = b
same_bool false true = false
same_bool false false = true

-- A render with another `open`: the cleanup of the last run, then the body. Without a change the
-- effect does not run.
unfoldable pub set_open : ℕ → (opens : Bool) → Sheets → Sheets
unfolding sheet_cleanup sheet_effect
set_open id opens s =
    if same_bool (s.is_open id) opens
    then s
    else sheet_effect opens id (sheet_cleanup id (record s { is_open = set_at id opens s.is_open }))

-- A render with another `onOpenChange` runs the effect again.
unfoldable pub render_again : ℕ → Sheets → Sheets
unfolding sheet_cleanup sheet_effect
render_again id s = sheet_effect (s.is_open id) id (sheet_cleanup id s)

-- The key Escape: every sheet that listens asks its parent to close it, and the parent
-- does. `ids` are the sheets.
unfoldable pub escape_pressed : (ids : List ℕ) → Sheets → Sheets
unfolding set_open
escape_pressed [] s = s
escape_pressed (id ∷ ids) s =
    let rest = escape_pressed ids s in if s.listens id then set_open id false rest else rest

-- `Tooltip`: whether its content is there.
pub data Pointer : Type 0 where
  entered left : Pointer

abbrev pub tooltip_visible : Pointer → Bool
tooltip_visible entered = true
tooltip_visible left = false

-- `formatTimestamp`; `to_iso` is `new Date(value).toISOString()`, `none` for a date that is none.
unfoldable pub format_timestamp : (to_iso : Text → Option Text) → Option Text → Text
format_timestamp to_iso none = codes "N/A"
format_timestamp to_iso (some []) = codes "N/A"
format_timestamp to_iso (some (c ∷ value)) = or_default (to_iso (c ∷ value)) (codes "N/A")
