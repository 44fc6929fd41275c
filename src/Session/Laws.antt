-- ===== src/Session/Laws.antt =====
-- Signing in and out: what survives a reload, what is sent, and what an error leaves alone.
use threat_lens.Base.{
  ◌≡◌, refl, Bool, Option, Text, false, is_truthy, none, some, trim, true, ◌∷◌, ◌≢◌, ◌⊎◌, arith,
}
use threat_lens.Session.{
  Stores, LoginForm, LoginResponse, UserProfile, answered, granted, handle_logout, refused,
  restore_user, store_login, submit, unreachable, fill_all,
}

module _ (print : UserProfile → Text) (parse : Text → Option UserProfile) where
  -- A user who signed in is restored by a reload of the tab, and no longer after a logout, which
  -- leaves neither token nor user in either store, provided that the token is not empty and that
  -- the stored text is not empty and parses back to the user.
  pub restore-store_login :
      (access_token : Text) (user : UserProfile) (s : Stores)
      → is_truthy access_token ≡ true
      → is_truthy (print user) ≡ true
      → parse (print user) ≡ some user
      → (restore_user parse (store_login print access_token user s) ≡ some user)
        × (restore_user parse (handle_logout (store_login print access_token user s)) ≡ none)
        × ((handle_logout (store_login print access_token user s)).session.token ≡ none)
        × ((handle_logout (store_login print access_token user s)).session.saved_user ≡ none)
        × ((handle_logout (store_login print access_token user s)).local.token ≡ none)
        × ((handle_logout (store_login print access_token user s)).local.saved_user ≡ none)
  unfolding restore_user store_login handle_logout
  restore-store_login access_token user s t p q = (rw (p, t) q, refl, refl, refl, refl, refl)

-- After signing out a reload finds no user, whatever was stored, and neither storage holds a token.
pub restore-logout :
    (parse : Text → Option UserProfile) (s : Stores)
    → (restore_user parse (handle_logout s) ≡ none)
      × ((handle_logout s).session.token ≡ none)
      × ((handle_logout s).local.token ≡ none)
unfolding restore_user handle_logout
restore-logout parse s = (refl, refl, refl)

-- A submit sends one request, with the trimmed name, exactly when both fields are filled in;
-- otherwise it sends none, and shows an error.
pub submit_requests :
    (motion : Bool) (f : LoginForm)
    → ((is_truthy (trim f.username) ≡ true)
        × (is_truthy f.password ≡ true)
        × ((submit motion f).requests ≡ (trim f.username, f.password) ∷ f.requests)
        × ((submit motion f).error ≡ none))
      ⊎ (((is_truthy (trim f.username) ≡ false) ⊎ (is_truthy f.password ≡ false))
          × ((submit motion f).requests ≡ f.requests)
          × ((submit motion f).pending ≡ f.pending)
          × ((submit motion f).error ≡ some fill_all))
unfolding submit
submit_requests motion f = ground arith

-- A login that fails writes nothing to the stores, calls nobody with a user, shows a message and
-- lets the form be sent again.
pub answered_failed :
    (print : UserProfile → Text) (motion : Bool) (r : LoginResponse) (f : LoginForm) (s : Stores)
    → (answered print motion r (f, s)).2 ≡ none
    → ((answered print motion r (f, s)).1 ≡ s)
      × ((answered print motion r (f, s)).0.pending ≡ false)
      × ((answered print motion r (f, s)).0.error ≢ none)
unfolding answered
answered_failed print motion (unreachable message) f s h = (refl, refl, λ e. cc)
answered_failed print motion (refused status detail) f s h = (refl, refl, λ e. cc)
answered_failed print motion (granted access_token user) f s h = cc
