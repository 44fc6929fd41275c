-- ===== src/Socket/Store/Refinement.antt =====
-- The buffer implements the table as long as nothing has to be evicted.
use mathlib.Core.Path.{fun_ext}
use threat_lens.Base.{
  ◌≡◌, refl, List, arith, Bool, Bool-cases, if◌then◌else◌, Option, Text, [], ap, false, inl, inr,
  length, length-append, none, some, sym, take_all, text_eq, true, ◌++◌, ◌+◌, ◌∙◌, ◌∷◌, ◌≤◌, ◌&&◌,
}
use threat_lens.Base.StringLaws.{eq_of_text_eq}
use threat_lens.Types.{Alert, AlertStatus, get_alert_identity}
use threat_lens.Socket.{
  Hook, has_identity, max_alerts_buffer, merge_fetched, push_alert, clear_alerts, hydrate_alerts,
  is_control, json, malformed, on_message, set_status, update_alert_status,
}
use threat_lens.Socket.Buffer.{kept}
use threat_lens.Socket.Store.{
  find, arrived, or_else, Contents, Operation, apply, apply_all, clearing, find-append,
  find-has_identity, find-map-set_status, found_of_has_identity, hydration, meaning, meaning_all,
  message, Fits, added, with_status, map_found, status_change,
}

or_else-none : (o : Option Alert) → or_else o none ≡ o
or_else-none none = refl
or_else-none (some a) = refl

-- An alert whose identity is there already adds nothing.
arrived_again :
    (a : Alert) (xs : List Alert) (k : Text)
    → has_identity (get_alert_identity a) xs ≡ true
    → arrived a (λ j. find j xs) k ≡ find k xs
arrived_again a xs k h = elim (Bool-cases (text_eq (get_alert_identity a) k)) [
  | inl e ↦
      let p = found_of_has_identity (get_alert_identity a) xs h in
      rw (← eq_of_text_eq (get_alert_identity a) k e, p.1) refl
  | inr e ↦ rw e (or_else-none (find k xs))
]

arrived_first :
    (a : Alert) (xs : List Alert) (k : Text)
    → has_identity (get_alert_identity a) xs ≡ false
    → arrived a (λ j. find j xs) k ≡ find k (a ∷ xs)
arrived_first a xs k h = elim (Bool-cases (text_eq (get_alert_identity a) k)) [
  | inl e ↦ rw e (
      ap (λ o. or_else o (some a))
        (ap (λ j. find j xs) (sym (eq_of_text_eq (get_alert_identity a) k e))
          ∙ find-has_identity (get_alert_identity a) xs h))
  | inr e ↦ rw e (or_else-none (find k xs))
]

find-push_alert :
    (a : Alert) (xs : List Alert) (k : Text)
    → length xs + (if has_identity (get_alert_identity a) xs then 0 else 1) ≤ max_alerts_buffer
    → find k (push_alert a xs) ≡ arrived a (λ j. find j xs) k
unfolding push_alert
find-push_alert a xs k room = elim (Bool-cases (has_identity (get_alert_identity a) xs)) [
  | inl e ↦ rw e (sym (arrived_again a xs k e))
  | inr e ↦ rw e (
      let fits : length (a ∷ xs) ≤ max_alerts_buffer = ground arith in
      ap (find k) (take_all (a ∷ xs) max_alerts_buffer fits) ∙ sym (arrived_first a xs k e))
]

pub find-kept :
    (k : Text) (prev fetched : List Alert)
    → has_identity k prev ≡ false
    → find k (kept prev fetched) ≡ find k fetched
find-kept k prev [] h = refl
find-kept k prev (f ∷ fs) h = elim (Bool-cases (has_identity (get_alert_identity f) prev)) [
  | inl e ↦ elim (Bool-cases (text_eq (get_alert_identity f) k)) [
    | inl q ↦ ground (arith, eq_of_text_eq (get_alert_identity f) k)
    | inr q ↦ rw (e, q) (find-kept k prev fs h)
  ]
  | inr e ↦ rw e (elim (Bool-cases (text_eq (get_alert_identity f) k)) [
    | inl q ↦ rw q refl
    | inr q ↦ rw q (find-kept k prev fs h)
  ])
]

behind_prev :
    (k : Text) (prev fetched : List Alert)
    → or_else (find k prev) (find k (kept prev fetched)) ≡ or_else (find k prev) (find k fetched)
behind_prev k prev fetched = elim (Bool-cases (has_identity k prev)) [
  | inl e ↦ rw (found_of_has_identity k prev e).1 refl
  | inr e ↦ ap (or_else (find k prev)) (find-kept k prev fetched e)
]

find-merge_fetched :
    (k : Text) (fetched prev : List Alert) (active ok : Bool)
    → length prev + added (hydration active ok fetched) prev ≤ max_alerts_buffer
    → find k (merge_fetched fetched prev) ≡ or_else (find k prev) (find k fetched)
unfolding merge_fetched
find-merge_fetched k fetched [] active ok room = refl
find-merge_fetched k fetched (a ∷ prev) active ok room =
    ap (find k) (
      take_all ((a ∷ prev) ++ kept (a ∷ prev) fetched) max_alerts_buffer
        (omega (arith, room, length-append (a ∷ prev) (kept (a ∷ prev) fetched))))
    ∙ find-append k (a ∷ prev) (kept (a ∷ prev) fetched)
    ∙ behind_prev k (a ∷ prev) fetched

-- The two ways to say what a change of status does to an alert.
set_status-with_status :
    (flow : Text) (st : AlertStatus) (a : Alert) → set_status flow st a ≡ with_status flow st a
unfolding set_status
set_status-with_status flow st a = elim (Bool-cases (text_eq a.flow_id flow)) [
  | inl e ↦ rw e refl
  | inr e ↦ rw e refl
]

find-apply :
    (o : Operation) (s : Hook) (k : Text)
    → length s.alerts + added o s.alerts ≤ max_alerts_buffer
    → find k (apply o s).alerts ≡ meaning o (λ j. find j s.alerts) k
unfolding on_message hydrate_alerts update_alert_status clear_alerts
find-apply (message malformed) s k room = refl
find-apply (message (json t body)) s k room = elim (Bool-cases (is_control t)) [
  | inl e ↦ rw e refl
  | inr e ↦ rw e (find-push_alert body s.alerts k (rw e at room))
]
find-apply (hydration active ok body) s k room = elim (Bool-cases (active && ok)) [
  | inl e ↦ rw e (find-merge_fetched k body s.alerts active ok room)
  | inr e ↦ rw e refl
]
find-apply (status_change flow_id status) s k room =
    find-map-set_status k flow_id status s.alerts
    ∙ ap (λ f. map_found f (find k s.alerts)) (fun_ext (set_status-with_status flow_id status))
find-apply clearing s k room = refl

-- The meaning of operations reads a table only by its values.
meaning_all-cong :
    (os : List Operation) (c d : Contents)
    → ((k : Text) → c k ≡ d k)
    → (k : Text) → meaning_all os c k ≡ meaning_all os d k
meaning_all-cong os c d h k = ap (λ t. meaning_all os t k) (fun_ext h)

-- As long as nothing has to be evicted, that is, there is room at each operation for the alerts in it
-- whose identity is new, the buffer behind any sequence of messages, hydration answers, status
-- changes and clearings finds for every identity what the table finds: the first alert that arrived
-- with it, with the status of the changes of its flow since, and nothing else of it changed.
pub find-apply_all :
    (os : List Operation) (s : Hook) (k : Text)
    → Fits os s
    → find k (apply_all os s).alerts ≡ meaning_all os (λ j. find j s.alerts) k
find-apply_all [] s k room = refl
find-apply_all (o ∷ os) s k room =
    find-apply_all os (apply o s) k room.1
    ∙ meaning_all-cong os _ _ (λ j. find-apply o s j room.0) k
