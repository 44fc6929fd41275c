-- ===== src/Detection/Screen.antt =====
-- frontend/src/components/DetectionConfig.tsx: what the settings show: the band about the store, the
-- tab of the thresholds with a row for each, the form for a new rule with the handlers of its fields,
-- and the list of rules.
use mathlib.Core.Path.{ap₂}
use threat_lens.Base.{
  ◌≡◌, refl, ap, List, codes, Bool, Option, Text, [], false, if◌then◌else◌, is_truthy, none,
  or_default, some, true, ◌++◌, lookup_text, map,
}
use threat_lens.Base.Tables.{put, lookup-put_same, lookup-remove_same}
use threat_lens.Detection.{
  Config, Kind, RowState, ThresholdEntry, describe_value, float_kind, idle, int_kind, int_list_kind,
  key, range_hint, raw_value, save_error, saved, saving,
}
use threat_lens.Detection.Groups.{grouped}
use threat_lens.Detection.Save.{
  ConfigResponse, Editor, answered, failure, refused, save_answered, save_threshold, thrown,
}

-- The badge and the sentence about the store.
unfoldable pub persistence_band : {Num : Type 0} → Option (Config Num) → Option (Text × Text)
persistence_band none = none
persistence_band (some c) =
    if c.persistent
    then some (
      codes "PERSISTED (REDIS)",
      codes "Configuration is stored durably and restored on restart.",
    )
    else some (
      codes "RUNTIME ONLY",
      codes "No durable store reachable — changes are lost when the backend restarts.",
    )

-- The line above the groups: the error of the last load, or that it has not ended.
unfoldable pub thresholds_notice : {Num : Type 0} → Editor Num → Option Text
thresholds_notice e =
    if is_truthy (or_default e.load_error [])
    then e.load_error
    else elim e.config [ none ↦ some (codes "Loading thresholds...") | some c ↦ none ]

abbrev pub kind_text : Kind → Text
kind_text int_kind = codes "int"
kind_text float_kind = codes "float"
kind_text int_list_kind = codes "int_list"

-- A row: what it says of the threshold, its field, its button with whether that is disabled, and
-- what became of the last save.
pub record ThresholdRow : Type 0 where
  pub label : Text
  pub used_by : Text
  pub is_modified : Bool
  pub kind : Text
  pub description : Text
  pub value : Text
  pub hint : List Text
  pub standard : Text
  pub button : Text × Bool
  pub outcome : Option Text

abbrev button_in : RowState → Text × Bool
button_in saving = (codes "Saving...", true)
button_in _ = (codes "Save", false)

abbrev outcome_in : RowState → (message : Text) → Option Text
outcome_in saved message = some (codes "Applied")
outcome_in save_error message = some message
outcome_in _ message = none

abbrev state_of : {Num : Type 0} → Editor Num → Text → RowState
state_of e id = or_default (lookup_text id e.row_state) idle

button_of :
    (id : Text) (st : RowState) (states : List (Text × RowState))
    → button_in (or_default (lookup_text id (put id st states)) idle) ≡ button_in st
button_of id st states = ap (λ o. button_in (or_default o idle)) (lookup-put_same id st states)

module _ {Num : Type 0} (show_number : Num → Text) where
  unfoldable pub threshold_row : Editor Num → ThresholdEntry Num → ThresholdRow
  unfolding describe_value range_hint
  threshold_row e entry = record {
    label = entry.label;
    used_by = key entry ++ (codes " · consumed by " ++ entry.consumed_by);
    is_modified = entry.modified;
    kind = kind_text entry.kind;
    description = entry.description;
    value = raw_value show_number e.drafts entry;
    hint = range_hint show_number entry;
    standard = codes "default " ++ describe_value show_number entry.default_value;
    button = button_in (state_of e (key entry));
    outcome =
        outcome_in (state_of e (key entry)) (or_default (lookup_text (key entry) e.row_message) []);
  }

  -- The groups of rows below their headings.
  abbrev pub row_groups : Editor Num → List (Text × List ThresholdRow)
  row_groups e = elim e.config [
    | none ↦ []
    | some c ↦ map (λ g. (g.0, map (threshold_row e) g.1)) (grouped c.thresholds)
  ]

  -- The entry that the row is rendered from behind the answer: `entry'` of the new configuration where
  -- one was read, else the entry as before.
  abbrev pub rendered :
      ConfigResponse Num → (entry entry' : ThresholdEntry Num) → ThresholdEntry Num
  rendered (answered c) entry entry' = entry'
  rendered _ entry entry' = entry

  -- The row behind the answer to its save, by that answer.
  abbrev pub IsShownSettled :
      ConfigResponse Num → ThresholdEntry Num → (before after : ThresholdRow) → Type 0
  IsShownSettled (answered c) entry before after =
      (after.outcome ≡ some (codes "Applied"))
      × (after.value ≡ describe_value show_number entry.value)
      × (after.is_modified ≡ entry.modified)
  IsShownSettled (refused status detail) entry before after =
      (after.outcome ≡ some (or_default detail (failure "update failed" status)))
      × (after.value ≡ before.value)
  IsShownSettled (thrown message) entry before after =
      (after.outcome ≡ some (or_default message (codes "update failed")))
      × (after.value ≡ before.value)

  module _ (to_number : Text → Option Num) where
    -- What a failed save leaves, for its message.
    failed_row :
        (id message : Text) (states : List (Text × RowState)) (messages : List (Text × Text))
        → outcome_in
            (or_default (lookup_text id (put id save_error states)) idle)
            (or_default (lookup_text id (put id message messages)) [])
          ≡ some message
    failed_row id message states messages =
        ap₂ (λ st m. outcome_in (or_default st idle) (or_default m []))
          (lookup-put_same id save_error states) (lookup-put_same id message messages)

    -- The button of a row cannot be pressed from the start of a save until its answer, and can be
    -- pressed again then. Where the answer is a configuration, the row, rendered from the entry of
    -- that configuration with the same key, says that the save was applied, and shows the value of
    -- that entry; otherwise it shows the message of the failure, and still what was typed.
    pub save_shown :
        (entry entry' : ThresholdEntry Num) (r : ConfigResponse Num) (e : Editor Num)
        → key entry' ≡ key entry
        → let started = save_threshold show_number to_number entry e in
          let done = save_answered (key entry) r started in
          let row = threshold_row done (rendered r entry entry') in
          ((threshold_row started entry).button ≡ (codes "Saving...", true))
          × (row.button ≡ (codes "Save", false))
          × IsShownSettled r entry' (threshold_row e entry) row
    unfolding threshold_row save_threshold save_answered
    save_shown entry entry' (answered c) e same =
        let id = key entry in
        let states = put id saving e.row_state in
        (
          button_of id saving e.row_state,
          rw same (button_of id saved states),
          (
            rw same (
                ap
                  (λ o.
                    outcome_in (or_default o idle)
                      (or_default (lookup_text id (put id [] e.row_message)) []))
                  (lookup-put_same id saved states)),
            rw same (
                ap (λ o. or_default o (describe_value show_number entry'.value))
                  (lookup-remove_same id e.drafts)),
            refl,
          ),
        )
    save_shown entry entry' (refused status detail) e same =
        let id = key entry in
        (
          button_of id saving e.row_state,
          button_of id save_error (put id saving e.row_state),
          (
            failed_row id (or_default detail (failure "update failed" status))
                (put id saving e.row_state) (put id [] e.row_message),
            refl,
          ),
        )
    save_shown entry entry' (thrown message) e same =
        let id = key entry in
        (
          button_of id saving e.row_state,
          button_of id save_error (put id saving e.row_state),
          (
            failed_row id (or_default message (codes "update failed")) (put id saving e.row_state)
                (put id [] e.row_message),
            refl,
          ),
        )
