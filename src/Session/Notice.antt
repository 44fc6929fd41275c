-- ===== src/Session/Notice.antt =====
-- frontend/src/components/LoginPage.tsx and frontend/src/App.tsx: the notice of an expired session,
-- the example credentials, and the boot animation of a session.
use threat_lens.Base.{
  ◌≡◌, refl, codes, Bool, Option, Text, [], false, if◌then◌else◌, none, not, or_default, some,
  text_eq, true, ◌&&◌, ◌||◌,
}
use threat_lens.Session.{Stores, LoginForm, handle_logout}

-- `sessionStorage.getItem(…) === "true"`
abbrev pub is_set : Option Text → Bool
is_set none = false
is_set (some s) = text_eq s (codes "true")

-- The effect that shows the notice, and the stores behind it; `state` is the parameter of the
-- address.
abbrev pub notice_if : Bool → Stores → Bool × Stores
notice_if true s = (true, record s { session = record (s.session) { session_expired = none } })
notice_if false s = (false, s)

unfoldable pub session_notice : (state : Option Text) → Stores → Bool × Stores
unfolding text_eq
session_notice state s =
    notice_if
      (text_eq (or_default state []) (codes "session-expired") || is_set s.session.session_expired)
      s

-- `fillCredentials`
unfoldable pub example_credentials : (admin : Bool) → LoginForm → LoginForm
example_credentials admin f = record f {
  username = if admin then codes "admin" else codes "analyst";
  password = if admin then codes "AdminSecretPass123!" else codes "AnalystPass123!";
  username_touched = false;
  password_touched = false;
  error = none;
}

-- `hasBooted` of a page that loads, and `isBooting`.
unfoldable pub has_booted : Stores → Bool
unfolding text_eq
has_booted s = is_set s.session.booted

abbrev pub is_booting : (motion : Bool) → Stores → Bool
is_booting motion s = motion && not (has_booted s)

-- What the effect stores when a user is there.
abbrev pub boot_stored : Stores → Stores
boot_stored s = record s { session = record (s.session) { booted = some (codes "true") } }

notice_twice :
    (b : Bool) (s : Stores)
    → (notice_if b s).0 ≡ true
    → (session_notice none (notice_if b s).1).0 ≡ false
unfolding session_notice text_eq
notice_twice true s h = refl
notice_twice false s h = cc

-- The flag of an expired session shows one notice: the next page without the parameter shows none.
pub notice_once :
    (state : Option Text) (s : Stores)
    → (session_notice state s).0 ≡ true
    → (session_notice none (session_notice state s).1).0 ≡ false
unfolding session_notice
notice_once state s h =
    notice_twice
      (text_eq (or_default state []) (codes "session-expired") || is_set s.session.session_expired)
      s h

-- The boot animation does not play again in a session that has booted, and plays again after a
-- logout.
pub booting_after_logout :
    (s : Stores)
    → (is_booting true (boot_stored s) ≡ false)
      × (is_booting true (handle_logout (boot_stored s)) ≡ true)
unfolding has_booted handle_logout text_eq
booting_after_logout s = (refl, refl)
