-- ===== src/Session/Tests.antt =====
-- Signing in at concrete credentials.
use threat_lens.Session.Form.{admin_example, example_chosen, form_step, submit_button, submitted}
use threat_lens.Session.Sending.{
  IsSending, Reach-IsSending, begun, happened, opened_page, page_step, then_step,
}
use threat_lens.Session.{submit}
use threat_lens.Session.Notice.{example_credentials}
use threat_lens.Base.{◌≡◌, refl, Option, Text, [], codes, false, if◌then◌else◌, none, some, text_eq}
use threat_lens.Session.{
  Stores, LoginForm, UserProfile, no_storage, restore_user, soc_admin, store_login, handle_logout,
}
use threat_lens.Session.Laws.{restore-store_login}
use threat_lens.Session.LogLine.{tag_and_rest, closed_tag}
use threat_lens.Base.{trim_start}

abbrev ann : UserProfile
ann = record { username = codes "ann"; role = soc_admin; disabled = false }

abbrev print_name : UserProfile → Text
print_name u = u.username

abbrev parse_ann : Text → Option UserProfile
parse_ann t = if text_eq t (codes "ann") then some ann else none

abbrev fresh_stores : Stores
fresh_stores = record { session = no_storage; local = no_storage }

abbrev filled : LoginForm
filled = record {
  username = codes " ann ";
  password = codes "secret";
  username_touched = false;
  password_touched = false;
  error = none;
  pending = false;
  success = false;
  shake = 0;
  requests = [];
}

restore-store_login_example :
    (restore_user parse_ann (store_login print_name (codes "t1") ann fresh_stores) ≡ some ann)
    × (restore_user parse_ann (handle_logout (store_login print_name (codes "t1") ann fresh_stores))
        ≡ none)
    × ((handle_logout (store_login print_name (codes "t1") ann fresh_stores)).session.token ≡ none)
    × ((handle_logout (store_login print_name (codes "t1") ann fresh_stores)).session.saved_user
        ≡ none)
    × ((handle_logout (store_login print_name (codes "t1") ann fresh_stores)).local.token ≡ none)
    × ((handle_logout (store_login print_name (codes "t1") ann fresh_stores)).local.saved_user
        ≡ none)
unfolding text_eq
restore-store_login_example =
    restore-store_login print_name parse_ann (codes "t1") ann fresh_stores refl refl refl

core_line : tag_and_rest (codes "[core]  MEM") ≡ (codes "[core]", codes "MEM")
unfolding tag_and_rest trim_start closed_tag
core_line = refl

-- The page with both fields filled in by the example credentials, and sent.
Reach-IsSending_example : IsSending (
    page_step print_name false (happened submitted) (
      page_step print_name false
        (happened (example_chosen admin_example))
        (opened_page fresh_stores false)))
unfolding page_step form_step submit submit_button example_credentials
Reach-IsSending_example = Reach-IsSending print_name false (
    then_step (then_step (begun fresh_stores false) (happened (example_chosen admin_example)) tt)
      (happened submitted) refl)
