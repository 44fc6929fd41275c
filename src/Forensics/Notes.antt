-- ===== src/Forensics/Notes.antt =====
-- The notes of the drawer and its copy buttons. A handler is cut at its request.
use threat_lens.Base.{
  codes, map, not, text_or, List, Bool, Option, Text, [], false, if◌then◌else◌, is_truthy, none,
  or_default, some, text_eq, trim, true, ◌++◌, ◌∷◌,
}
use threat_lens.Types.{AnalystNote}

pub record Drawer : Type 0 where
  pub copied_key : Option Text
  pub notes : List AnalystNote
  pub note_text : Text
  pub notes_loading : Bool
  pub requests : List Text

-- The effect on the flow: the notes of the flow are asked for.
unfoldable pub notes_started : Drawer → Drawer
notes_started s = record s { notes_loading = true }

-- Its answer, `none` where it is not ok or throws, with the `finally`.
unfoldable pub notes_answered : Option (List AnalystNote) → Drawer → Drawer
notes_answered answer s = record s { notes = or_default answer []; notes_loading = false }

-- `handleCopy`, and its timeout.
unfoldable pub handle_copy : (key text : Text) → Drawer → Drawer
handle_copy key text s = if is_truthy text then record s { copied_key = some key } else s

abbrev pub without_key : Text → Option Text → Option Text
without_key key none = none
without_key key (some k) = if text_eq k key then none else some k

unfoldable pub copy_fired : (key : Text) → Drawer → Drawer
unfolding text_eq
copy_fired key s = record s { copied_key = without_key key s.copied_key }

-- `submitNote` up to its request, for the trimmed text.
abbrev pub submit_at : (text : Text) → Drawer → Drawer
submit_at [] s = s
submit_at (c ∷ text) s = record s { requests = (c ∷ text) ∷ s.requests }

unfoldable pub submit_note : Drawer → Drawer
unfolding trim
submit_note s = submit_at (trim s.note_text) s

-- Its answer, `none` where it is not ok.
unfoldable pub note_answered : Option AnalystNote → Drawer → Drawer
note_answered none s = s
note_answered (some note) s = record s { notes = s.notes ++ note ∷ []; note_text = [] }

-- A copy button: its text and its title, `COPIED` while its key is the one that was copied last.
abbrev is_copied : (key : Text) → Option Text → Bool
is_copied key none = false
is_copied key (some k) = text_eq k key

unfoldable pub copy_label : (key text : Text) → (title : Option Text) → Drawer → Text × Text
unfolding text_eq
copy_label key text title s = (
  if is_copied key s.copied_key then codes "COPIED" else codes "COPY",
  text_or (or_default title []) (codes "Copy " ++ text),
)

-- The notes: the line above them, each with its time, the text that is typed, and whether the button
-- is disabled.
pub record NotesView : Type 0 where
  pub line : Option Text
  pub shown : List (Text × Text)
  pub typed : Text
  pub add_disabled : Bool

abbrev no_notes : List AnalystNote → Option Text
no_notes [] = some (codes "No analyst notes recorded yet.")
no_notes (note ∷ notes) = none

unfoldable pub notes_view : (format_timestamp : Text → Text) → Drawer → NotesView
unfolding trim
notes_view format_timestamp s = record {
  line = if s.notes_loading then some (codes "Loading notes...") else no_notes s.notes;
  shown = map (λ note. (note.text, format_timestamp note.created_at)) s.notes;
  typed = s.note_text;
  add_disabled = not (is_truthy (trim s.note_text));
}

abbrev pub note_typed : Text → Drawer → Drawer
note_typed text s = record s { note_text = text }
