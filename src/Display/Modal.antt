-- ===== src/Display/Modal.antt =====
-- frontend/src/components/LoginModal.tsx: the login dialog with its two sets of credentials.
use threat_lens.Base.{codes, Bool, Option, Text, [], false, none, or_default, some, text_or, true}
use threat_lens.Session.{UserProfile, Stores, store_login}

pub record LoginDialog : Type 0 where
  pub username : Text
  pub password : Text
  pub error : Option Text
  pub loading : Bool

unfoldable pub submit_started : LoginDialog → LoginDialog
submit_started s = record s { error = none; loading = true }

pub data DialogResponse : Type 0 where
  token : (access_token : Text) → UserProfile → DialogResponse
  login_refused : (detail : Option Text) → DialogResponse
  login_thrown : (message : Text) → DialogResponse

-- `handleSubmit` behind its answer, the `finally` block included: the dialog, the stores, and the
-- user that `onLoginSuccess` is called with.
abbrev with_error : Text → LoginDialog → LoginDialog
with_error message s = record s { error = some message; loading = false }

module _ (print : UserProfile → Text) where
  unfoldable pub login_answered :
      DialogResponse → LoginDialog → Stores → LoginDialog × (Stores × Option UserProfile)
  unfolding store_login
  login_answered (token access_token user) s stores =
      (record s { loading = false }, (store_login print access_token user stores, some user))
  login_answered (login_refused detail) s stores = (
    with_error
        (text_or (or_default detail []) (codes "Authentication failed. Invalid credentials.")) s,
    (stores, none),
  )
  login_answered (login_thrown message) s stores =
      (with_error (text_or message (codes "Login failed")) s, (stores, none))

-- `fillCredentials`
unfoldable pub fill_credentials : (admin : Bool) → LoginDialog → LoginDialog
fill_credentials true s = record s {
  username = codes "admin";
  password = codes "AdminSecretPass123!";
}
fill_credentials false s = record s {
  username = codes "analyst";
  password = codes "AnalystPass123!";
}
