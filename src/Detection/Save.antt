-- ===== src/Detection/Save.antt =====
-- frontend/src/components/DetectionConfig.tsx: `loadThresholds` and `saveThreshold` on the state of
-- the form. A handler is cut at its request: what runs before it, and what runs on the answer.
use threat_lens.Base.{
  ◌≡◌, refl, List, codes, Option, String, Text, [], false, lookup_text, none, or_default, some,
  text_eq, ◌++◌, ◌∷◌, ◌≢◌, sym, ◌∙◌,
}
use threat_lens.Base.Tables.{
  put, remove, lookup-put_other, lookup-put_same, lookup-remove_other, lookup-remove_same,
}
use threat_lens.Detection.{
  ThresholdEntry, Config, RowState, Value, describe_value, key, parse_value, raw_value, save_error,
  saved, saving,
}

-- The body of the PUT request.
pub record SaveRequest (Num : Type 0) : Type 0 where
  pub rule : Text
  pub parameter : Text
  pub value : Option (Value Num)

pub record Editor (Num : Type 0) : Type 0 where
  pub config : Option (Config Num)
  pub load_error : Option Text
  pub drafts : List (Text × Text)
  pub row_state : List (Text × RowState)
  pub row_message : List (Text × Text)
  pub requests : List (SaveRequest Num)

-- An answer of the server with a configuration: it is read, or refused with the digits of its
-- status and the `detail` of its body, or something throws, with a message if it is an `Error`.
pub data ConfigResponse (Num : Type 0) : Type 0 where
  answered : Config Num → ConfigResponse Num
  refused : (status : Text) → (detail : Option Text) → ConfigResponse Num
  thrown : (message : Option Text) → ConfigResponse Num

abbrev pub failure : String → Text → Text
failure what status = codes what ++ (codes " (" ++ (status ++ codes ")"))

module _ {Num : Type 0} where
  -- `loadThresholds`
  unfoldable pub thresholds_loaded : ConfigResponse Num → Editor Num → Editor Num
  thresholds_loaded (answered data_) e = record e {
    config = some data_;
    drafts = [];
    load_error = none;
  }
  thresholds_loaded (refused status detail) e = record e {
    load_error = some (failure "threshold request failed" status);
  }
  thresholds_loaded (thrown message) e = record e {
    load_error = some (or_default message (codes "threshold request failed"));
  }

  -- `onChange` of the field of a row.
  unfoldable pub edit_draft : ThresholdEntry Num → Text → Editor Num → Editor Num
  unfolding put
  edit_draft entry text e = record e { drafts = put (key entry) text e.drafts }

  -- `saveThreshold` behind its answer.
  abbrev save_failed : Text → Text → Editor Num → Editor Num
  save_failed id message e = record e {
    row_state = put id save_error e.row_state;
    row_message = put id message e.row_message;
  }

  unfoldable pub save_answered : (id : Text) → ConfigResponse Num → Editor Num → Editor Num
  unfolding put remove
  save_answered id (answered data_) e = record e {
    config = some data_;
    drafts = remove id e.drafts;
    row_state = put id saved e.row_state;
  }
  save_answered id (refused status detail) e =
      save_failed id (or_default detail (failure "update failed" status)) e
  save_answered id (thrown message) e =
      save_failed id (or_default message (codes "update failed")) e

  -- The form behind the answer to a save of the row `id`, by that answer.
  abbrev pub IsSettled : ConfigResponse Num → Text → Editor Num → Editor Num → Type 0
  IsSettled (answered data_) id before after =
      (after.config ≡ some data_)
      × (lookup_text id after.drafts ≡ none)
      × (lookup_text id after.row_state ≡ some saved)
  IsSettled _ id before after =
      (after.config ≡ before.config)
      × (after.drafts ≡ before.drafts)
      × (lookup_text id after.row_state ≡ some save_error)
      × (lookup_text id after.row_message ≢ none)

some_not_none : {A : Type 0} {a : A} → ¬ (some a ≡ none)
some_not_none e = cc

twice_other :
    {A : Type 0} (j k : Text) (v w : A) (m : List (Text × A))
    → text_eq k j ≡ false
    → lookup_text j (put k w (put k v m)) ≡ lookup_text j m
twice_other j k v w m h = lookup-put_other j k w (put k v m) h ∙ lookup-put_other j k v m h

module _ {Num : Type 0} (show_number : Num → Text) (to_number : Text → Option Num) where
  -- `saveThreshold` up to its request.
  unfoldable pub save_threshold : ThresholdEntry Num → Editor Num → Editor Num
  unfolding put parse_value describe_value
  save_threshold entry e = record e {
    row_state = put (key entry) saving e.row_state;
    row_message = put (key entry) [] e.row_message;
    requests =
        record {
          rule = entry.rule;
          parameter = entry.parameter;
          value = parse_value to_number entry.kind (raw_value show_number e.drafts entry);
        }
        ∷ e.requests;
  }

  -- A save that is answered takes over the server's configuration, drops the draft of the row and
  -- shows it as saved; a save that fails keeps the configuration and every draft and shows an
  -- error with a message.
  pub save_answered-IsSettled :
      (entry : ThresholdEntry Num) (r : ConfigResponse Num) (e : Editor Num)
      → IsSettled r (key entry) e (save_answered (key entry) r (save_threshold entry e))
  unfolding save_threshold save_answered
  save_answered-IsSettled entry (answered data_) e = (
    refl,
    lookup-remove_same (key entry) e.drafts,
    lookup-put_same (key entry) saved (put (key entry) saving e.row_state),
  )
  save_answered-IsSettled entry (refused status detail) e = (
    refl,
    refl,
    lookup-put_same (key entry) save_error (put (key entry) saving e.row_state),
    λ q. some_not_none (
        sym (
          lookup-put_same (key entry) (or_default detail (failure "update failed" status))
            (put (key entry) [] e.row_message))
        ∙ q),
  )
  save_answered-IsSettled entry (thrown message) e = (
    refl,
    refl,
    lookup-put_same (key entry) save_error (put (key entry) saving e.row_state),
    λ q. some_not_none (
        sym (
          lookup-put_same (key entry) (or_default message (codes "update failed"))
            (put (key entry) [] e.row_message))
        ∙ q),
  )

  -- Saving a row, whatever the answer, leaves the draft, the state and the message of every row
  -- with another key as they are.
  pub save_others :
      (entry : ThresholdEntry Num) (r : ConfigResponse Num) (e : Editor Num) (id : Text)
      → text_eq (key entry) id ≡ false
      → (lookup_text id (save_answered (key entry) r (save_threshold entry e)).drafts
          ≡ lookup_text id e.drafts)
        × (lookup_text id (save_answered (key entry) r (save_threshold entry e)).row_state
            ≡ lookup_text id e.row_state)
        × (lookup_text id (save_answered (key entry) r (save_threshold entry e)).row_message
            ≡ lookup_text id e.row_message)
  unfolding save_threshold save_answered
  save_others entry (answered data_) e id h = (
    lookup-remove_other id (key entry) e.drafts h,
    twice_other id (key entry) saving saved e.row_state h,
    lookup-put_other id (key entry) [] e.row_message h,
  )
  save_others entry (refused status detail) e id h = (
    refl,
    twice_other id (key entry) saving save_error e.row_state h,
    twice_other id (key entry) [] (or_default detail (failure "update failed" status)) e.row_message
        h,
  )
  save_others entry (thrown message) e id h = (
    refl,
    twice_other id (key entry) saving save_error e.row_state h,
    twice_other id (key entry) [] (or_default message (codes "update failed")) e.row_message h,
  )
