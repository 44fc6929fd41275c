-- ===== src/Server/Exchanges.antt =====
-- The console and the service together, in any order of events: an alert is recorded and reaches the
-- console later or never, a request is taken and its answer comes later or never, and anything may
-- happen in between.
use threat_lens.Base.{
  ◌≡◌, refl, All, All-append, All-take, Bool, Bool-cases, List, Option, Text, [], ap, arith, false,
  filter, inl, inr, map, none, some, suc, text_eq, true, zero, ℕ, ◌++◌, ◌∙◌, ◌∷◌, sym,
}
use threat_lens.Base.Options.{none-ne-some, some_eq}
use threat_lens.Base.StringLaws.{eq_of_text_eq, text_eq_refl}
use threat_lens.Types.{Alert, AlertStatus, get_alert_identity, new}
use threat_lens.Socket.{
  Hook, clear_all_alerts, has_identity, hydrate_alerts, initial_hook, json, max_alerts_buffer,
  merge_fetched, on_message, push_alert, set_status, update_alert_status,
}
use threat_lens.Socket.Buffer.{identity-set_status, kept}
use threat_lens.Socket.Store.{find, find-has_identity}
use threat_lens.Server.Archive.{
  Store, clear, get_historical_alerts, insert_alert, patch_status,
  update_alert_status as stored_status,
}
use threat_lens.Server.Agreement.{not_due, ring_recorded}
use threat_lens.Server.Pages.{body_of, served}

-- `past` are the alerts as they were recorded, `answers` the answers to GET /api/alerts.
pub record World : Type 0 where
  pub store : Store
  pub hook : Hook
  pub past : List Alert
  pub answers : List (Option (List Alert))

-- Of the service: an alert is recorded, a change of status is taken, a request to hydrate is answered,
-- the database is cleared. Of the console: an alert arrives, an answer to a change of status says that
-- it was taken, the answer to a request to hydrate arrives or does not, the buffer is cleared, the page
-- is loaded again.
pub data Event : Type 0 where
  recorded : Alert → Event
  status_taken : (flow_id : Text) → AlertStatus → Event
  fetched : Event
  database_cleared : Event
  arrived : Alert → Event
  status_confirmed : (flow_id : Text) → AlertStatus → Event
  hydrated : (active : Bool) → (answer : ℕ) → Event
  buffer_cleared reloaded : Event

abbrev answer_at : ℕ → List (Option (List Alert)) → Option (List Alert)
answer_at n [] = none
answer_at zero (answer ∷ answers) = answer
answer_at (suc n) (answer ∷ answers) = answer_at n answers

abbrev hydration : Option (List Alert) → (active : Bool) → Hook → Hook
hydration none active hook = hydrate_alerts active false [] hook
hydration (some body) active hook = hydrate_alerts active true body hook

abbrev pub happen : Event → World → World
happen (recorded alert) w = record w {
  store = (insert_alert false true alert w.store).1;
  past = alert ∷ w.past;
}
happen (status_taken flow_id status) w = record w {
  store = (patch_status flow_id status w.store).1;
}
happen fetched w = record w {
  answers = body_of (get_historical_alerts false none 50 0 none none w.store) ∷ w.answers;
}
happen database_cleared w = record w { store = clear w.store }
happen (arrived alert) w = record w { hook = on_message (json none alert) w.hook }
happen (status_confirmed flow_id status) w = record w {
  hook = update_alert_status flow_id status w.hook;
}
happen (hydrated active n) w = record w { hook = hydration (answer_at n w.answers) active w.hook }
happen buffer_cleared w = record w { hook = clear_all_alerts w.hook }
happen reloaded w = record w { hook = initial_hook }

-- A new alert has an identity that none before had, and only what was recorded arrives.
abbrev pub Enabled : Event → World → Type 0
Enabled (recorded alert) w = has_identity (get_alert_identity alert) w.past ≡ false
Enabled (arrived alert) w = find (get_alert_identity alert) w.past ≡ some alert
Enabled _ w = Unit

-- The service runs on its ring, and a console has opened.
pub data Reach : World → Type 0 where
  opened :
      (store : Store)
      → store.is_connected ≡ false
      → store.memory_ring ≡ []
      → Reach (record { store = store; hook = initial_hook; past = []; answers = [] })
  next : {w : World} → Reach w → (e : Event) → Enabled e w → Reach (happen e w)

-- All of an alert but its status.
abbrev pub as_new : Alert → Alert
as_new alert = record alert { status = new }

-- An alert that was recorded, up to its status.
abbrev Known : List Alert → Alert → Type 0
Known past a = (b : Alert) × (find (get_alert_identity a) past ≡ some b) × (as_new a ≡ as_new b)

Known-cons :
    (alert : Alert) (past : List Alert) (a : Alert)
    → has_identity (get_alert_identity alert) past ≡ false
    → Known past a
    → Known (alert ∷ past) a
Known-cons alert past a fresh (b, found, same) =
    elim (Bool-cases (text_eq (get_alert_identity alert) (get_alert_identity a))) [
      | inl e ↦ absurd (
          none-ne-some (
            sym (
              ap (λ k. find k past) (sym (eq_of_text_eq _ _ e))
              ∙ find-has_identity (get_alert_identity alert) past fresh)
            ∙ found))
      | inr e ↦ (b, rw e found, same)
    ]

found_here :
    (alert : Alert) (past : List Alert)
    → find (get_alert_identity alert) (alert ∷ past) ≡ some alert
found_here alert past = rw (text_eq_refl (get_alert_identity alert)) refl

All_imp : (P Q : Alert → Type 0) (xs : List Alert) → ((a : Alert) → P a → Q a) → All P xs → All Q xs
All_imp P Q [] f h = tt
All_imp P Q (x ∷ xs) f h = (f x h.0, All_imp P Q xs f h.1)

All_filter :
    (P : Alert → Type 0) (p : Alert → Bool) (xs : List Alert) → All P xs → All P (filter p xs)
All_filter P p [] h = tt
All_filter P p (x ∷ xs) h = elim (Bool-cases (p x)) [
  | inl e ↦ rw e (h.0, All_filter P p xs h.1)
  | inr e ↦ rw e (All_filter P p xs h.1)
]

as_new-set_status :
    (flow : Text) (st : AlertStatus) (a : Alert) → as_new (set_status flow st a) ≡ as_new a
unfolding set_status
as_new-set_status flow st a = elim (Bool-cases (text_eq a.flow_id flow)) [
  | inl e ↦ rw e refl
  | inr e ↦ rw e refl
]

Known-map :
    (past : List Alert) (flow : Text) (st : AlertStatus) (xs : List Alert)
    → All (Known past) xs
    → All (Known past) (map (set_status flow st) xs)
Known-map past flow st [] h = tt
Known-map past flow st (x ∷ xs) h = (
  (
    h.0.0,
    ap (λ k. find k past) (identity-set_status flow st x) ∙ h.0.1,
    as_new-set_status flow st x ∙ h.0.2,
  ),
  Known-map past flow st xs h.1,
)

Known-push_alert :
    (past : List Alert) (a : Alert) (xs : List Alert)
    → Known past a
    → All (Known past) xs
    → All (Known past) (push_alert a xs)
unfolding push_alert
Known-push_alert past a xs k h = elim (Bool-cases (has_identity (get_alert_identity a) xs)) [
  | inl e ↦ rw e h
  | inr e ↦ rw e (All-take (Known past) max_alerts_buffer (a ∷ xs) (k, h))
]

Known-merge_fetched :
    (past body prev : List Alert)
    → All (Known past) body
    → All (Known past) prev
    → All (Known past) (merge_fetched body prev)
unfolding merge_fetched
Known-merge_fetched past body [] f h = f
Known-merge_fetched past body (a ∷ prev) f h =
    All-take (Known past) max_alerts_buffer ((a ∷ prev) ++ kept (a ∷ prev) body) (
      All-append (Known past) (a ∷ prev) (kept (a ∷ prev) body) h
        (All_filter (Known past) _ body f))

-- The alerts of an answer.
abbrev KnownBody : List Alert → Option (List Alert) → Type 0
KnownBody past none = Unit
KnownBody past (some body) = All (Known past) body

record IsTold (w : World) : Type 0 where
  on_ring : w.store.is_connected ≡ false
  ring : All (Known w.past) w.store.memory_ring
  shown : All (Known w.past) w.hook.alerts
  told : All (KnownBody w.past) w.answers

KnownBody-cons :
    (alert : Alert) (past : List Alert) (body : Option (List Alert))
    → has_identity (get_alert_identity alert) past ≡ false
    → KnownBody past body
    → KnownBody (alert ∷ past) body
KnownBody-cons alert past none fresh h = tt
KnownBody-cons alert past (some body) fresh h =
    All_imp (Known past) (Known (alert ∷ past)) body (λ a. Known-cons alert past a fresh) h

told-cons :
    (alert : Alert) (past : List Alert) (answers : List (Option (List Alert)))
    → has_identity (get_alert_identity alert) past ≡ false
    → All (KnownBody past) answers
    → All (KnownBody (alert ∷ past)) answers
told-cons alert past [] fresh h = tt
told-cons alert past (answer ∷ answers) fresh h =
    (KnownBody-cons alert past answer fresh h.0, told-cons alert past answers fresh h.1)

KnownBody-answer_at :
    (past : List Alert) (n : ℕ) (answers : List (Option (List Alert)))
    → All (KnownBody past) answers
    → KnownBody past (answer_at n answers)
KnownBody-answer_at past n [] h = tt
KnownBody-answer_at past zero (answer ∷ answers) h = h.0
KnownBody-answer_at past (suc n) (answer ∷ answers) h = KnownBody-answer_at past n answers h.1

Known-hydration :
    (past : List Alert) (answer : Option (List Alert)) (active : Bool) (hook : Hook)
    → KnownBody past answer
    → All (Known past) hook.alerts
    → All (Known past) (hydration answer active hook).alerts
unfolding hydrate_alerts
Known-hydration past none true hook f h = h
Known-hydration past none false hook f h = h
Known-hydration past (some body) true hook f h = Known-merge_fetched past body hook.alerts f h
Known-hydration past (some body) false hook f h = h

happen-IsTold : (e : Event) (w : World) → Enabled e w → IsTold w → IsTold (happen e w)
unfolding on_message update_alert_status clear_all_alerts clear patch_status stored_status
happen-IsTold (recorded alert) w fresh h = record {
  on_ring = (ring_recorded alert w.store h.on_ring).1;
  ring = rw (ring_recorded alert w.store h.on_ring).0 (
      All-take _ w.store.max_memory_buffer (alert ∷ w.store.memory_ring) (
        (alert, found_here alert w.past, refl),
        All_imp (Known w.past) (Known (alert ∷ w.past)) w.store.memory_ring
            (λ a. Known-cons alert w.past a fresh) h.ring,
      ));
  shown =
      All_imp (Known w.past) (Known (alert ∷ w.past)) w.hook.alerts
        (λ a. Known-cons alert w.past a fresh) h.shown;
  told = told-cons alert w.past w.answers fresh h.told;
}
happen-IsTold (status_taken flow_id status) w en h = record {
  on_ring = h.on_ring;
  ring = Known-map w.past flow_id status w.store.memory_ring h.ring;
  shown = h.shown;
  told = h.told;
}
happen-IsTold fetched w en h = record {
  on_ring = h.on_ring;
  ring = h.ring;
  shown = h.shown;
  told = (
    rw (served false none 50 0 w.store (not_due w.store h.on_ring) (omega arith) (omega arith))
        (All-take (Known w.past) 50 w.store.memory_ring h.ring),
    h.told,
  );
}
happen-IsTold database_cleared w en h = record {
  on_ring = h.on_ring;
  ring = tt;
  shown = h.shown;
  told = h.told;
}
happen-IsTold (arrived alert) w en h = record {
  on_ring = h.on_ring;
  ring = h.ring;
  shown = Known-push_alert w.past alert w.hook.alerts (alert, en, refl) h.shown;
  told = h.told;
}
happen-IsTold (status_confirmed flow_id status) w en h = record {
  on_ring = h.on_ring;
  ring = h.ring;
  shown = Known-map w.past flow_id status w.hook.alerts h.shown;
  told = h.told;
}
happen-IsTold (hydrated active n) w en h = record {
  on_ring = h.on_ring;
  ring = h.ring;
  shown =
      Known-hydration w.past (answer_at n w.answers) active w.hook
        (KnownBody-answer_at w.past n w.answers h.told) h.shown;
  told = h.told;
}
happen-IsTold buffer_cleared w en h = record {
  on_ring = h.on_ring;
  ring = h.ring;
  shown = tt;
  told = h.told;
}
happen-IsTold reloaded w en h = record {
  on_ring = h.on_ring;
  ring = h.ring;
  shown = tt;
  told = h.told;
}

Reach-IsTold : {w : World} → Reach w → IsTold w
Reach-IsTold (opened store off empty) = record {
  on_ring = off;
  ring = rw empty tt;
  shown = tt;
  told = tt;
}
Reach-IsTold (next {w = w} r e enabled) = happen-IsTold e w enabled (Reach-IsTold r)

found-Known :
    (past : List Alert) (k : Text) (xs : List Alert) (a : Alert)
    → All (Known past) xs
    → find k xs ≡ some a
    → (b : Alert) × (find k past ≡ some b) × (as_new a ≡ as_new b)
found-Known past k [] a h e = absurd (none-ne-some e)
found-Known past k (x ∷ xs) a h e = elim (Bool-cases (text_eq (get_alert_identity x) k)) [
  | inl q ↦
      let same : x ≡ a = some_eq (sym (rw q refl) ∙ e) in
      (
        h.0.0,
        ap (λ j. find j past) (sym (eq_of_text_eq (get_alert_identity x) k q)) ∙ h.0.1,
        ap as_new (sym same) ∙ h.0.2,
      )
  | inr q ↦ found-Known past k xs a h.1 (sym (rw q refl) ∙ e)
]

-- In whatever order alerts, changes of status, answers and clearings reach the service and the
-- console, and whichever of them get lost, an alert that the console shows and the service has in its
-- ring under one identity is the same on both sides in everything but its status, where every new
-- alert has an identity of its own and the service runs without ClickHouse.
pub same_but_status :
    {w : World} (k : Text) (a b : Alert)
    → Reach w
    → find k w.hook.alerts ≡ some a
    → find k w.store.memory_ring ≡ some b
    → as_new a ≡ as_new b
same_but_status {w} k a b r p q =
    let told = Reach-IsTold r in
    let (c, found_c, same_c) = found-Known w.past k w.hook.alerts a told.shown p in
    let (d, found_d, same_d) = found-Known w.past k w.store.memory_ring b told.ring q in
    same_c ∙ ap as_new (some_eq (sym found_c ∙ found_d)) ∙ sym same_d
