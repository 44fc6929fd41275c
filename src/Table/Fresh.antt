-- ===== src/Table/Fresh.antt =====
-- frontend/src/components/ThreatTable.tsx: new rows are highlighted for 900 ms, and at most five of
-- a batch slide in. `timers` holds the key of each pending timeout.
use threat_lens.Base.{
  ◌≡◌, Bool, List, Option, Text, [], arith, false, filter, if◌then◌else◌, map, none, not, some, suc,
  take, text_eq, true, zero, ℕ, ◌++◌, ◌||◌, ◌∷◌, All, refl,
}
use threat_lens.Base.StringLaws.{text_eq_refl, text_eq_iff}
use threat_lens.Base.Sets.{
  member, add_all, member-add_all, member-append, member-set_delete, set_delete,
}
use threat_lens.Types.{Alert, get_alert_identity}

pub record Highlight : Type 0 where
  pub known : Option (List Text)
  pub fresh : List Text
  pub animated : List Text
  pub timers : List Text

abbrev pub initial_highlight : Highlight
initial_highlight = record { known = none; fresh = []; animated = []; timers = [] }

-- `new Set(alerts.map(getAlertKey))`
unfoldable pub current_keys : List Alert → List Text
unfolding add_all
current_keys alerts = add_all [] (map get_alert_identity alerts)

-- `skipAnimation`
abbrev pub skip_animation : (motion scrolled drawer dropdown doc_hidden paused : Bool) → Bool
skip_animation motion scrolled drawer dropdown doc_hidden paused =
    not motion || scrolled || drawer || dropdown || doc_hidden || paused

unfoldable pub new_keys : List Text → List Text → List Text
unfolding member
new_keys known current = filter (λ key. not (member key known)) current

-- The body of the effect behind its first run; `slides` is `!skipAnimation && viewMode === "live"`.
unfoldable pub highlight_new : (slides : Bool) → List Text → Highlight → Highlight
unfolding add_all
highlight_new slides [] s = s
highlight_new slides (key ∷ keys) s = record s {
  fresh = add_all s.fresh (key ∷ keys);
  timers = s.timers ++ key ∷ keys;
  animated = if slides then add_all s.animated (take 5 (key ∷ keys)) else s.animated;
}

-- The effect; the first run only notes the keys that are there.
unfoldable pub highlight_from :
    Option (List Text) → (slides : Bool) → List Text → Highlight → Highlight
unfolding new_keys highlight_new
highlight_from none slides current s = record s { known = some current }
highlight_from (some known) slides current s =
    record (highlight_new slides (new_keys known current) s) { known = some current }

unfoldable pub highlight_effect : (slides : Bool) → List Alert → Highlight → Highlight
unfolding current_keys highlight_from
highlight_effect slides alerts s = highlight_from s.known slides (current_keys alerts) s

abbrev remove_one : Text → List Text → List Text
remove_one k [] = []
remove_one k (j ∷ js) = let rest = remove_one k js in if text_eq j k then js else j ∷ rest

-- The timeout of a key.
unfoldable pub highlight_fired : Text → Highlight → Highlight
unfolding set_delete text_eq
highlight_fired key s = record s {
  fresh = set_delete key s.fresh;
  animated = set_delete key s.animated;
  timers = remove_one key s.timers;
}

-- What holds between renders: a row that slides in is highlighted, and a highlight has a timeout
-- pending that will end it.
pub record IsTransient (s : Highlight) : Type 0 where
  pub slides_fresh : (k : Text) → member k s.animated ≡ true → member k s.fresh ≡ true
  pub fresh_timed : (k : Text) → member k s.fresh ≡ true → member k s.timers ≡ true

member-take : (k : Text) (n : ℕ) (xs : List Text) → member k (take n xs) ≡ true → member k xs ≡ true
unfolding member
member-take k zero xs h = cc
member-take k (suc n) [] h = cc
member-take k (suc n) (x ∷ xs) h = ground (arith, member-take k n xs)

highlight_new-IsTransient :
    (slides : Bool) (keys : List Text) (s : Highlight)
    → IsTransient s
    → IsTransient (highlight_new slides keys s)
unfolding highlight_new
highlight_new-IsTransient slides [] s h = h
highlight_new-IsTransient slides (key ∷ keys) s h = record {
  slides_fresh = λ k p. ground (
    arith,
    h.slides_fresh k,
    member-add_all k s.animated (take 5 (key ∷ keys)),
    member-add_all k s.fresh (key ∷ keys),
    member-take k 5 (key ∷ keys),
  );
  fresh_timed = λ k p. ground (
    arith,
    h.fresh_timed k,
    member-add_all k s.fresh (key ∷ keys),
    member-append k s.timers (key ∷ keys),
  );
}

highlight_from-IsTransient :
    (known : Option (List Text)) (slides : Bool) (current : List Text) (s : Highlight)
    → IsTransient s
    → IsTransient (highlight_from known slides current s)
unfolding highlight_from
highlight_from-IsTransient none slides current s h = record {
  slides_fresh = h.slides_fresh;
  fresh_timed = h.fresh_timed;
}
highlight_from-IsTransient (some known) slides current s h =
    let t = highlight_new-IsTransient slides (new_keys known current) s h in
    record { slides_fresh = t.slides_fresh; fresh_timed = t.fresh_timed }

-- The effect keeps that a row which slides in is highlighted, and that each highlight has a
-- timeout pending.
pub highlight_effect-IsTransient :
    (slides : Bool) (alerts : List Alert) (s : Highlight)
    → IsTransient s
    → IsTransient (highlight_effect slides alerts s)
unfolding highlight_effect
highlight_effect-IsTransient slides alerts s h =
    highlight_from-IsTransient s.known slides (current_keys alerts) s h

new_keys_of_All :
    (known xs : List Text) → All (λ k. member k known ≡ true) xs → new_keys known xs ≡ []
unfolding new_keys
new_keys_of_All known [] h = refl
new_keys_of_All known (x ∷ xs) h = rw h.0 (new_keys_of_All known xs h.1)

All-member_self : (xs : List Text) → All (λ k. member k xs ≡ true) xs
All-member_self [] = tt
All-member_self (x ∷ xs) =
    (unfold member in ground (arith, text_eq_refl x), widen x xs xs (All-member_self xs))
  where
    widen :
        (y : Text) (known ks : List Text)
        → All (λ k. member k known ≡ true) ks
        → All (λ k. member k (y ∷ known) ≡ true) ks
    widen y known [] h = tt
    widen y known (k ∷ ks) h = (unfold member in ground arith, widen y known ks h.1)

again :
    (known : Option (List Text)) (slides later : Bool) (current : List Text) (s : Highlight)
    → highlight_from
        (highlight_from known slides current s).known
        later
        current
        (highlight_from known slides current s)
      ≡ highlight_from known slides current s
unfolding highlight_from
again none slides later current s =
    rw (new_keys_of_All current current (All-member_self current), highlight_new)
again (some known) slides later current s =
    rw (new_keys_of_All current current (All-member_self current), highlight_new)

-- Running the effect again on the same alerts, as React does when the pause or the view mode
-- changes, highlights nothing more and sets no further timeout.
pub highlight_effect_idempotent :
    (slides later : Bool) (alerts : List Alert) (s : Highlight)
    → highlight_effect later alerts (highlight_effect slides alerts s)
      ≡ highlight_effect slides alerts s
unfolding highlight_effect
highlight_effect_idempotent slides later alerts s =
    again s.known slides later (current_keys alerts) s

member-remove_one :
    (j k : Text) (xs : List Text)
    → text_eq k j ≡ false
    → member j xs ≡ true
    → member j (remove_one k xs) ≡ true
unfolding member
member-remove_one j k [] n h = cc
member-remove_one j k (x ∷ xs) n h =
    ground (arith, text_eq_iff x k, text_eq_iff x j, text_eq_iff k j, member-remove_one j k xs n)

-- The timeout of a key ends its highlight and its slide, and keeps every other one timed.
pub highlight_fired-IsTransient :
    (key : Text) (s : Highlight)
    → IsTransient s
    → IsTransient (highlight_fired key s)
      × (member key (highlight_fired key s).fresh ≡ false)
      × (member key (highlight_fired key s).animated ≡ false)
unfolding highlight_fired
highlight_fired-IsTransient key s h = (
  record {
    slides_fresh = λ k p. ground (
      arith,
      h.slides_fresh k,
      member-set_delete k key s.fresh,
      member-set_delete k key s.animated,
    );
    fresh_timed = λ k p.
        ground (
          arith,
          h.fresh_timed k,
          member-set_delete k key s.fresh,
          member-remove_one k key s.timers,
        );
  },
  ground (arith, member-set_delete key key s.fresh, text_eq_refl key),
  ground (arith, member-set_delete key key s.animated, text_eq_refl key),
)
