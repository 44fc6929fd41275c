-- ===== src/Session/Sending.antt =====
-- frontend/src/components/LoginPage.tsx: the login requests that the sign-in form sends, in any order
-- of the events of its fields and buttons and of the answers.
use threat_lens.Base.{
  none, [], ◌≡◌, refl, All, Bool, Bool-cases, Text, not, ◌||◌, if◌then◌else◌, arith, false, inl,
  inr, is_truthy, length, ltb, true, trim, ℕ, ◌+◌, ◌-◌, ◌≤◌, Option,
}
use threat_lens.Session.{
  unreachable, refused, LoginForm, LoginResponse, Stores, UserProfile, answered, submit, granted,
}
use threat_lens.Session.Form.{
  username_typed, username_left, password_typed, password_left, key_used, password_toggled,
  example_chosen, FormEvent, SignIn, form_step, submit_button, submitted,
}
use threat_lens.Session.Notice.{example_credentials}

-- The page with the stores of the browser, and the number of requests without an answer.
pub record Page : Type 0 where
  pub sign_in : SignIn
  pub stores : Stores
  pub in_flight : ℕ

pub data PageEvent : Type 0 where
  happened : FormEvent → PageEvent
  came : LoginResponse → PageEvent

-- A disabled button sends nothing, and only a request is answered.
abbrev pub IsEnabled : PageEvent → Page → Type 0
IsEnabled (happened submitted) p = (submit_button p.sign_in).1 ≡ false
IsEnabled (happened e) p = Unit
IsEnabled (came r) p = ltb 0 p.in_flight ≡ true

-- The requests that were sent from `f` to `g`.
abbrev grown : LoginForm → LoginForm → ℕ
grown f g = length g.requests - length f.requests

-- Both fields of a request are filled in.
abbrev pub IsFilled : Text × Text → Type 0
IsFilled r = (is_truthy r.0 ≡ true) × (is_truthy r.1 ≡ true)

-- The page as it opens.
abbrev pub opened_page : Stores → (notice : Bool) → Page
opened_page stores notice = record {
  sign_in = record {
    form = record {
      username = [];
      password = [];
      username_touched = false;
      password_touched = false;
      error = none;
      pending = false;
      success = false;
      shake = 0;
      requests = [];
    };
    show_password = false;
    caps_lock_active = false;
    selected_role = none;
    notice = notice;
  };
  stores = stores;
  in_flight = 0;
}

abbrev pub room : Bool → ℕ
room pending = if pending then 1 else 0

pub record IsSending (p : Page) : Type 0 where
  pub one : p.in_flight ≤ room p.sign_in.form.pending
  pub filled : All IsFilled p.sign_in.form.requests

abbrev pub moved : SignIn → Page → Page
moved s p = record p { sign_in = s; in_flight = p.in_flight + grown p.sign_in.form s.form }

-- A change of the form that sends nothing and ends no request.
moved-IsSending :
    (p : Page) (s : SignIn)
    → s.form.pending ≡ p.sign_in.form.pending
    → s.form.requests ≡ p.sign_in.form.requests
    → IsSending p
    → IsSending (moved s p)
moved-IsSending p s e f h = record {
  one = rw (e, f) (omega (arith, h.one));
  filled = rw f h.filled;
}

module _ (print : UserProfile → Text) (motion : Bool) where
  abbrev after : Page → LoginForm × Stores × Option UserProfile → Page
  after p (f, s, user) = record {
    sign_in = record (p.sign_in) { form = f };
    stores = s;
    in_flight = p.in_flight - 1;
  }

  unfoldable pub page_step : PageEvent → Page → Page
  unfolding form_step answered
  page_step (happened e) p = moved (form_step motion e p.sign_in) p
  page_step (came r) p = after p (answered print motion r (p.sign_in.form, p.stores))

  pub data Reach : Page → Type 0 where
    begun : (stores : Stores) (notice : Bool) → Reach (opened_page stores notice)
    then_step : {p : Page} → Reach p → (e : PageEvent) → IsEnabled e p → Reach (page_step e p)

  submitted-IsSending :
      (p : Page)
      → IsSending p
      → IsEnabled (happened submitted) p
      → IsSending (page_step (happened submitted) p)
  unfolding page_step form_step submit submit_button
  submitted-IsSending p h en =
      let f = p.sign_in.form in
      elim (Bool-cases (not (is_truthy (trim f.username)) || not (is_truthy f.password))) [
        | inl e ↦ moved-IsSending p (form_step motion submitted p.sign_in) (rw e) (rw e) h
        | inr e ↦ rw e (record { one = ground arith; filled = (ground arith, h.filled) })
      ]

  came-IsSending : (p : Page) (r : LoginResponse) → IsSending p → IsSending (page_step (came r) p)
  unfolding page_step answered
  came-IsSending p (unreachable message) h = record {
    one = ground (arith, h.one);
    filled = h.filled;
  }
  came-IsSending p (refused status detail) h = record {
    one = ground (arith, h.one);
    filled = h.filled;
  }
  came-IsSending p (granted access_token user) h = elim (Bool-cases motion) [
    | inl m ↦ rw m (record { one = omega (arith, h.one); filled = h.filled })
    | inr m ↦ rw m (record { one = omega (arith, h.one); filled = h.filled })
  ]

  step-IsSending :
      (p : Page) (e : PageEvent) → IsSending p → IsEnabled e p → IsSending (page_step e p)
  unfolding page_step form_step
  step-IsSending p (happened submitted) h en = submitted-IsSending p h en
  step-IsSending p (happened (username_typed value)) h en = moved-IsSending p _ refl refl h
  step-IsSending p (happened username_left) h en = moved-IsSending p _ refl refl h
  step-IsSending p (happened (password_typed value)) h en = moved-IsSending p _ refl refl h
  step-IsSending p (happened password_left) h en = moved-IsSending p _ refl refl h
  step-IsSending p (happened (key_used caps_lock)) h en = moved-IsSending p _ refl refl h
  step-IsSending p (happened password_toggled) h en = moved-IsSending p _ refl refl h
  step-IsSending p (happened (example_chosen role)) h en =
      unfold example_credentials in moved-IsSending p _ refl refl h
  step-IsSending p (came r) h en = came-IsSending p r h

  -- However the events of the form and the answers follow each other since the page was opened, at
  -- most one login request is without an answer, and only while the form is pending; and each
  -- request that was sent has a name and a password.
  pub Reach-IsSending : {p : Page} → Reach p → IsSending p
  Reach-IsSending (begun stores notice) = record { one = omega arith; filled = tt }
  Reach-IsSending (then_step {p} r e en) = step-IsSending p e (Reach-IsSending r) en
