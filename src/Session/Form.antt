-- ===== src/Session/Form.antt =====
-- frontend/src/components/LoginPage.tsx: the sign-in form as the browser shows it, and the events of
-- its fields and buttons. `session_notice` of Session.Notice is what decides on the notice.
use threat_lens.Base.{
  ◌≡◌, Bool, List, Option, Text, [], codes, false, if◌then◌else◌, none, not, some, true, ◌&&◌, ◌||◌,
  ◌∷◌, ◌++◌, map, ◌↔◌, is_truthy, trim, text_eq, arith, Bool-cases, inl, inr, refl,
}
use threat_lens.Session.{LoginForm, password_error, submit, username_error}
use threat_lens.Base.Sets.{member}
use threat_lens.Session.Notice.{example_credentials}

pub data ExampleRole : Type 0 where
  admin_example analyst_example : ExampleRole

-- The states of the page besides those of the form.
pub record SignIn : Type 0 where
  pub form : LoginForm
  pub show_password : Bool
  pub caps_lock_active : Bool
  pub selected_role : Option ExampleRole
  pub notice : Bool

pub data FormEvent : Type 0 where
  username_typed : Text → FormEvent
  username_left : FormEvent
  password_typed : Text → FormEvent
  password_left : FormEvent
  key_used : (caps_lock : Bool) → FormEvent
  password_toggled : FormEvent
  example_chosen : ExampleRole → FormEvent
  submitted : FormEvent

abbrev is_admin : ExampleRole → Bool
is_admin admin_example = true
is_admin analyst_example = false

-- A field that was left before forgets the error as it is edited.
abbrev error_after : (touched : Bool) → Option Text → Option Text
error_after touched error = if touched then none else error

abbrev with_form : LoginForm → SignIn → SignIn
with_form f s = record s { form = f }

-- The handlers of the fields and the buttons.
unfoldable pub form_step : (motion : Bool) → FormEvent → SignIn → SignIn
unfolding submit example_credentials
form_step motion (username_typed value) s =
    with_form
      record (s.form) { username = value; error = error_after s.form.username_touched s.form.error }
      s
form_step motion username_left s = with_form record (s.form) { username_touched = true } s
form_step motion (password_typed value) s =
    with_form
      record (s.form) { password = value; error = error_after s.form.password_touched s.form.error }
      s
form_step motion password_left s = with_form record (s.form) { password_touched = true } s
form_step motion (key_used caps_lock) s = record s { caps_lock_active = caps_lock }
form_step motion password_toggled s = record s { show_password = not s.show_password }
form_step motion (example_chosen role) s = record s {
  form = example_credentials (is_admin role) s.form;
  selected_role = some role;
}
form_step motion submitted s = with_form (submit motion s.form) s

-- A field: its value, its attributes, and the lines below it by their ids.
pub record Field : Type 0 where
  pub value : Text
  pub disabled : Bool
  pub masked : Bool
  pub invalid : Bool
  pub described_by : Option Text
  pub lines : List (Text × Text)

abbrev has_error : Option Text → Bool
has_error none = false
has_error (some e) = true

abbrev hint_line : Text → Option Text → List (Text × Text)
hint_line id none = []
hint_line id (some line) = (id, line) ∷ []

abbrev when : Bool → Text → Option Text
when b t = if b then some t else none

abbrev pub username_id : Text
username_id = codes "username-error"

abbrev pub password_id : Text
password_id = codes "password-error"

abbrev pub caps_id : Text
caps_id = codes "caps-hint"

unfoldable pub username_field : SignIn → Field
username_field s = record {
  value = s.form.username;
  disabled = s.form.pending;
  masked = false;
  invalid = has_error (username_error s.form);
  described_by = when (has_error (username_error s.form)) username_id;
  lines = hint_line username_id (username_error s.form);
}

unfoldable pub password_field : SignIn → Field
password_field s = record {
  value = s.form.password;
  disabled = s.form.pending;
  masked = not s.show_password;
  invalid = has_error (password_error s.form);
  described_by =
      if has_error (password_error s.form)
      then some password_id
      else when s.caps_lock_active caps_id;
  lines =
      hint_line caps_id (when s.caps_lock_active (codes "CAPS LOCK is ON"))
      ++ hint_line password_id (password_error s.form);
}

-- The button in the password field: its label, and whether it reads as pressed.
unfoldable pub toggle_button : SignIn → Text × Bool
toggle_button s =
    (if s.show_password then codes "Hide password" else codes "Show password", s.show_password)

-- A button that fills in example credentials: its two lines, and whether it is marked.
abbrev is_marked : ExampleRole → Option ExampleRole → Bool
is_marked role none = false
is_marked admin_example (some admin_example) = true
is_marked analyst_example (some analyst_example) = true
is_marked _ _ = false

unfoldable pub example_button : ExampleRole → SignIn → Text × Text × Bool
example_button admin_example s =
    (codes "SOC Admin", codes "FULL CONTROL", is_marked admin_example s.selected_role)
example_button analyst_example s =
    (codes "SOC Analyst", codes "MONITORING & NOTES", is_marked analyst_example s.selected_role)

-- The button that sends the form: its text, and whether it is disabled.
unfoldable pub submit_button : SignIn → Text × Bool
submit_button s = (
  if s.form.success
      then codes "ACCESS GRANTED"
      else if s.form.pending
      then codes "AUTHENTICATING"
      else codes "Sign in to Dashboard",
  s.form.pending || s.form.success,
)

-- The two messages above the fields, the error only where it is not empty.
unfoldable pub messages : SignIn → Option Text × Option Text
messages s = (when s.notice (codes "Your session expired. Sign in again."), shown s.form.error)
  where
    shown : Option Text → Option Text
    shown none = none
    shown (some []) = none
    shown (some (c ∷ error)) = some (c ∷ error)

-- What the field names as its description is the id of a line below it.
abbrev pub IsDescribed : Field → Type 0
IsDescribed f = elim f.described_by [
  | none ↦ Unit {0}
  | some id ↦ member id (map (λ line. line.0) f.lines) ≡ true
]

username_field-IsDescribed : (s : SignIn) → IsDescribed (username_field s)
unfolding username_field member text_eq
username_field-IsDescribed s =
    elim (Bool-cases (s.form.username_touched && not (is_truthy (trim s.form.username)))) [
      | inl e ↦ rw e refl
      | inr e ↦ rw e tt
    ]

password_field-IsDescribed : (s : SignIn) → IsDescribed (password_field s)
unfolding password_field member text_eq
password_field-IsDescribed s =
    elim (Bool-cases (s.form.password_touched && not (is_truthy s.form.password))) [
      | inl e ↦ elim (Bool-cases s.caps_lock_active) [
        | inl c ↦ rw (e, c) refl
        | inr c ↦ rw (e, c) refl
      ]
      | inr e ↦ elim (Bool-cases s.caps_lock_active) [
        | inl c ↦ rw (e, c) refl
        | inr c ↦ rw (e, c) tt
      ]
    ]

-- Whatever was typed, each field of the form is described by a line that stands below it, if by
-- any; and it is marked as invalid exactly when it is left and read as empty.
pub fields-IsDescribed :
    (s : SignIn)
    → IsDescribed (username_field s)
      × IsDescribed (password_field s)
      × (((username_field s).invalid ≡ true)
          ↔ ((s.form.username_touched ≡ true) × (is_truthy (trim s.form.username) ≡ false)))
      × (((password_field s).invalid ≡ true)
          ↔ ((s.form.password_touched ≡ true) × (is_truthy s.form.password ≡ false)))
unfolding username_field password_field
fields-IsDescribed s = (
  username_field-IsDescribed s,
  password_field-IsDescribed s,
  (λ h. ground arith, λ h. ground arith),
  (λ h. ground arith, λ h. ground arith),
)
