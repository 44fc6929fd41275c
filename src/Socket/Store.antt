-- ===== src/Socket/Store.antt =====
-- What the alert buffer of useThreatSocket is for: a table from identities to alerts in which the
-- first alert of an identity stays. The abstract table is a function, without order or bound.
pub mod Refinement
use mathlib.Core.Option.{Option}
use threat_lens.Base.{
  ◌≡◌, refl, List, arith, Bool, Bool-cases, Text, [], false, if◌then◌else◌, inl, inr, length, map,
  none, some, text_eq, true, ℕ, ◌&&◌, ◌++◌, ◌+◌, ◌∷◌, ◌||◌, ◌≤◌,
}
use threat_lens.Types.{Alert, AlertStatus, get_alert_identity}
use threat_lens.Socket.{
  Hook, Packet, clear_alerts, has_identity, hydrate_alerts, is_control, json, malformed, on_message,
  set_status, update_alert_status, max_alerts_buffer,
}
use threat_lens.Socket.Buffer.{identity-set_status, kept}

abbrev pub find : Text → List Alert → Option Alert
find k [] = none
find k (a ∷ alerts) = if text_eq (get_alert_identity a) k then some a else find k alerts

-- The abstract table.
abbrev pub Contents : Type 0
Contents = Text → Option Alert

abbrev pub or_else : Option Alert → Option Alert → Option Alert
or_else none o = o
or_else (some a) o = some a

abbrev pub map_found : (Alert → Alert) → Option Alert → Option Alert
map_found f none = none
map_found f (some a) = some (f a)

-- The handlers that change the buffer.
pub data Operation : Type 0 where
  message : Packet → Operation
  hydration : (active ok : Bool) → List Alert → Operation
  status_change : Text → AlertStatus → Operation
  clearing : Operation

abbrev pub apply : Operation → Hook → Hook
apply (message packet) s = on_message packet s
apply (hydration active ok body) s = hydrate_alerts active ok body s
apply (status_change flow_id status) s = update_alert_status flow_id status s
apply clearing s = clear_alerts s

abbrev pub apply_all : List Operation → Hook → Hook
apply_all [] s = s
apply_all (o ∷ os) s = apply_all os (apply o s)

-- The alerts of one flow get the status; nothing else of any alert changes.
abbrev pub with_status : Text → AlertStatus → Alert → Alert
with_status flow_id status alert = record alert {
  status = if text_eq alert.flow_id flow_id then status else alert.status;
}

-- What an operation means for the table.
abbrev pub arrived : Alert → Contents → Contents
arrived a c k = or_else (c k) (find k (a ∷ []))

abbrev pub meaning : Operation → Contents → Contents
meaning (message malformed) c k = c k
meaning (message (json t body)) c k = if is_control t then c k else arrived body c k
meaning (hydration active ok body) c k = if active && ok then or_else (c k) (find k body) else c k
meaning (status_change flow_id status) c k = map_found (with_status flow_id status) (c k)
meaning clearing c k = none

abbrev pub meaning_all : List Operation → Contents → Contents
meaning_all [] c = c
meaning_all (o ∷ os) c = meaning_all os (meaning o c)

-- How many alerts an operation puts into the buffer: those whose identity is not there.
abbrev pub added : Operation → List Alert → ℕ
added (message malformed) prev = 0
added (message (json t body)) prev =
    if is_control t || has_identity (get_alert_identity body) prev then 0 else 1
added (hydration active ok body) [] = 0
added (hydration active ok body) (a ∷ prev) = length (kept (a ∷ prev) body)
added (status_change flow_id status) prev = 0
added clearing prev = 0

-- Nothing is evicted: at each operation there is room for what it adds. An answer that meets an empty
-- buffer is taken whole.
abbrev pub Fits : List Operation → Hook → Type 0
Fits [] s = Unit
Fits (o ∷ os) s = (length s.alerts + added o s.alerts ≤ max_alerts_buffer) × Fits os (apply o s)

pub find-append :
    (k : Text) (xs ys : List Alert) → find k (xs ++ ys) ≡ or_else (find k xs) (find k ys)
find-append k [] ys = refl
find-append k (x ∷ xs) ys = elim (Bool-cases (text_eq (get_alert_identity x) k)) [
  | inl e ↦ rw e refl
  | inr e ↦ rw e (find-append k xs ys)
]

pub find-map-set_status :
    (k flow : Text) (st : AlertStatus) (xs : List Alert)
    → find k (map (set_status flow st) xs) ≡ map_found (set_status flow st) (find k xs)
find-map-set_status k flow st [] = refl
find-map-set_status k flow st (x ∷ xs) =
    rw (identity-set_status flow st x) (elim (Bool-cases (text_eq (get_alert_identity x) k)) [
      | inl e ↦ rw e refl
      | inr e ↦ rw e (find-map-set_status k flow st xs)
    ])

-- A found identity is one that the buffer has.
pub find-has_identity : (k : Text) (xs : List Alert) → has_identity k xs ≡ false → find k xs ≡ none
unfolding has_identity
find-has_identity k [] h = refl
find-has_identity k (x ∷ xs) h = elim (Bool-cases (text_eq (get_alert_identity x) k)) [
  | inl e ↦ ground arith
  | inr e ↦ rw e (find-has_identity k xs (ground arith))
]

pub found_of_has_identity :
    (k : Text) (xs : List Alert) → has_identity k xs ≡ true → (a : Alert) × (find k xs ≡ some a)
unfolding has_identity
found_of_has_identity k [] h = cc
found_of_has_identity k (x ∷ xs) h = elim (Bool-cases (text_eq (get_alert_identity x) k)) [
  | inl e ↦ (x, rw e refl)
  | inr e ↦ rw e (found_of_has_identity k xs (ground arith))
]
