-- ===== src/Session.antt =====
-- frontend/src/components/LoginPage.tsx, LoginModal.tsx and frontend/src/App.tsx: signing in and
-- out, what the two storages of the browser hold, and the gate in front of the dashboard.
-- `JSON.stringify` of a user and `JSON.parse` of a text are parameters.
pub mod Laws
pub mod Logs
pub mod Notice
pub mod Form
pub mod LogLine
pub mod Sending
mod Tests
use threat_lens.Base.{
  ◌≡◌, refl, Bool, List, Option, Text, [], codes, false, if◌then◌else◌, is_truthy, leb, none, not,
  or_default, some, text_or, trim, true, ℕ, ◌&&◌, ◌+◌, ◌==◌, ◌||◌, ◌∷◌,
}
use threat_lens.Dashboard.{DevState}

pub data Role : Type 0 where
  soc_admin soc_analyst : Role

pub record UserProfile : Type 0 where
  pub username : Text
  pub role : Role
  pub disabled : Bool

-- The keys that this code reads and writes, in `sessionStorage` and `localStorage`.
pub record Storage : Type 0 where
  pub token : Option Text
  pub saved_user : Option Text
  pub booted : Option Text
  pub session_expired : Option Text

pub record Stores : Type 0 where
  pub session : Storage
  pub local : Storage

abbrev pub no_storage : Storage
no_storage = record { token = none; saved_user = none; booted = none; session_expired = none }

-- `savedUser && token ? JSON.parse(savedUser) : null`; a text that does not parse gives null.
unfoldable pub restore_user : (parse : Text → Option UserProfile) → Stores → Option UserProfile
restore_user parse s =
    if is_truthy (or_default s.session.saved_user []) && is_truthy (or_default s.session.token [])
    then parse (or_default s.session.saved_user [])
    else none

-- `handleLogout`
unfoldable pub handle_logout : Stores → Stores
handle_logout s = record {
  session = record (s.session) { token = none; saved_user = none; booted = none };
  local = record (s.local) { token = none; saved_user = none };
}

-- `!user || devState === "session-expired"`
abbrev pub is_expired : Option DevState → Bool
is_expired (some DevState.session_expired) = true
is_expired _ = false

unfoldable pub shows_login : Option UserProfile → Option DevState → Bool
shows_login none dev = true
shows_login (some user) dev = is_expired dev

-- The three actions of the navigation bar that only an administrator gets.
unfoldable pub has_admin_actions : UserProfile → Bool
has_admin_actions user = elim user.role [ soc_admin ↦ true | soc_analyst ↦ false ]

-- The form of LoginPage. `requests` are the credentials sent; `shake` counts the shakes.
pub record LoginForm : Type 0 where
  pub username : Text
  pub password : Text
  pub username_touched : Bool
  pub password_touched : Bool
  pub error : Option Text
  pub pending : Bool
  pub success : Bool
  pub shake : ℕ
  pub requests : List (Text × Text)

abbrev pub username_error : LoginForm → Option Text
username_error f =
    if f.username_touched && not (is_truthy (trim f.username))
    then some (codes "Username is required")
    else none

abbrev pub password_error : LoginForm → Option Text
password_error f =
    if f.password_touched && not (is_truthy f.password)
    then some (codes "Password is required")
    else none

abbrev pub fill_all : Text
fill_all = codes "Please fill in all required credentials."

abbrev pub shaken : (motion : Bool) → ℕ → ℕ
shaken motion n = if motion then n + 1 else n

-- `handleSubmit` up to the request.
unfoldable pub submit : (motion : Bool) → LoginForm → LoginForm
submit motion f =
    if not (is_truthy (trim f.username)) || not (is_truthy f.password)
    then record f {
      username_touched = true;
      password_touched = true;
      error = some fill_all;
      shake = shaken motion f.shake;
    }
    else record f {
      username_touched = true;
      password_touched = true;
      pending = true;
      error = none;
      requests = (trim f.username, f.password) ∷ f.requests;
    }

-- The response to the login request: no response, a status with the `detail` of its body, or a
-- token and a user.
pub data LoginResponse : Type 0 where
  unreachable : (message : Text) → LoginResponse
  refused : (status : ℕ) → (detail : Option Text) → LoginResponse
  granted : (access_token : Text) → UserProfile → LoginResponse

abbrev pub refusal : ℕ → Option Text → Text
refusal status detail =
    if status == 401
    then codes "Invalid username or password."
    else if leb 500 status
    then codes "SOC Authentication Gateway is unreachable. Check network status."
    else text_or (or_default detail []) (codes "Authentication failed. Invalid SOC credentials.")

-- The four writes behind a successful login.
unfoldable pub store_login : (print : UserProfile → Text) → Text → UserProfile → Stores → Stores
store_login print access_token user s = record {
  session = record (s.session) { token = some access_token; saved_user = some (print user) };
  local = record (s.local) { token = some access_token; saved_user = some (print user) };
}

abbrev failed : (motion : Bool) → Text → LoginForm → LoginForm
failed motion message f = record f {
  error = some (text_or message (codes "Authentication failed"));
  shake = shaken motion f.shake;
  pending = false;
}

-- `handleSubmit` behind the request: the form, the stores, and the user that `onLoginSuccess` is
-- called with (behind two timeouts of 150 ms when motion is enabled).
unfoldable pub answered :
    (print : UserProfile → Text) (motion : Bool)
    → LoginResponse
    → LoginForm × Stores
    → LoginForm × Stores × Option UserProfile
unfolding store_login
answered print motion (unreachable message) (f, s) = (failed motion message f, s, none)
answered print motion (refused status detail) (f, s) =
    (failed motion (refusal status detail) f, s, none)
answered print motion (granted access_token user) (f, s) = (
  if motion then record f { success = true } else f,
  store_login print access_token user s,
  some user,
)
