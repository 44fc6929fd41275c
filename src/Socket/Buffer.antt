-- ===== src/Socket/Buffer.antt =====
-- The alert buffer of useThreatSocket: bounded, and free of repeated identities.
use mathlib.Core.Path.{ap₂, subst}
use threat_lens.Base.{
  ◌≡◌, refl, All, Bool, Bool-cases, List, Text, [], ap, arith, filter, inl, inr, length,
  length-take-le, map, not, suc, take, true, zero, ℕ, ◌++◌, ◌∷◌, ◌≤◌, length-map, text_eq, sym,
}
use threat_lens.Base.StringLaws.{text_eq_refl}
use threat_lens.Base.Sets.{
  Distinct, Absent, Absent-of_member, Distinct-take, member, Distinct-append,
}
use threat_lens.Types.{Alert, get_alert_identity, AlertStatus}
use threat_lens.Socket.{push_alert, has_identity, max_alerts_buffer, merge_fetched, set_status}

-- The identities of a list of alerts.
abbrev pub ids : List Alert → List Text
ids = map get_alert_identity

pub record IsBuffer (alerts : List Alert) : Type 0 where
  pub bounded : length alerts ≤ max_alerts_buffer
  pub distinct : Distinct (ids alerts)

ids-take : (n : ℕ) (xs : List Alert) → ids (take n xs) ≡ take n (ids xs)
ids-take zero xs = refl
ids-take (suc n) [] = refl
ids-take (suc n) (x ∷ xs) = ap (◌∷◌ (get_alert_identity x)) (ids-take n xs)

ids-append : (xs ys : List Alert) → ids (xs ++ ys) ≡ ids xs ++ ids ys
ids-append [] ys = refl
ids-append (x ∷ xs) ys = ap (◌∷◌ (get_alert_identity x)) (ids-append xs ys)

has_identity-member : (k : Text) (xs : List Alert) → has_identity k xs ≡ member k (ids xs)
unfolding has_identity member
has_identity-member k [] = refl
has_identity-member k (x ∷ xs) = ground (arith, has_identity-member k xs)

-- Taking the first 200 of distinct alerts gives a buffer.
take-IsBuffer : (xs : List Alert) → Distinct (ids xs) → IsBuffer (take max_alerts_buffer xs)
take-IsBuffer xs d = record {
  bounded = length-take-le xs max_alerts_buffer;
  distinct = rw (ids-take max_alerts_buffer xs) (Distinct-take max_alerts_buffer (ids xs) d);
}

pub push_alert-IsBuffer :
    (a : Alert) (prev : List Alert) → IsBuffer prev → IsBuffer (push_alert a prev)
unfolding push_alert
push_alert-IsBuffer a prev h = elim (Bool-cases (has_identity (get_alert_identity a) prev)) [
  | inl e ↦ rw e h
  | inr e ↦ rw e (
      take-IsBuffer (a ∷ prev)
        (Absent-of_member _ _ (rw (← has_identity-member _ prev) e), h.distinct))
]

-- After an alert arrived, the buffer holds its identity.
pub has_identity-push_alert :
    (a : Alert) (prev : List Alert) → has_identity (get_alert_identity a) (push_alert a prev) ≡ true
unfolding push_alert
has_identity-push_alert a prev = elim (Bool-cases (has_identity (get_alert_identity a) prev)) [
  | inl e ↦ rw e e
  | inr e ↦ rw e (unfold has_identity in ground (arith, text_eq_refl (get_alert_identity a)))
]

-- What the filter of the hydration keeps shares no identity with the buffer.
abbrev pub kept : List Alert → List Alert → List Alert
kept prev fetched = filter (λ f. not (has_identity (get_alert_identity f) prev)) fetched

Absent-kept :
    (k : Text) (prev fetched : List Alert)
    → has_identity k prev ≡ true
    → Absent k (ids (kept prev fetched))
Absent-kept k prev [] h = tt
Absent-kept k prev (f ∷ fs) h = elim (Bool-cases (has_identity (get_alert_identity f) prev)) [
  | inl e ↦ rw e (Absent-kept k prev fs h)
  | inr e ↦ rw e (λ q. ground arith, Absent-kept k prev fs h)
]

All-Absent-kept :
    (prev fetched : List Alert) (ks : List Text)
    → All (λ k. has_identity k prev ≡ true) ks
    → All (λ k. Absent k (ids (kept prev fetched))) ks
All-Absent-kept prev fetched [] h = tt
All-Absent-kept prev fetched (k ∷ ks) h =
    (Absent-kept k prev fetched h.0, All-Absent-kept prev fetched ks h.1)

All-has_identity-cons :
    (x : Alert) (xs : List Alert) (ks : List Text)
    → All (λ k. has_identity k xs ≡ true) ks
    → All (λ k. has_identity k (x ∷ xs) ≡ true) ks
unfolding has_identity
All-has_identity-cons x xs [] h = tt
All-has_identity-cons x xs (k ∷ ks) h = (ground arith, All-has_identity-cons x xs ks h.1)

pub has_identity_self :
    (x : Alert) (xs : List Alert) → has_identity (get_alert_identity x) (x ∷ xs) ≡ true
unfolding has_identity
has_identity_self x xs = ground (arith, text_eq_refl (get_alert_identity x))

All-has_identity : (xs : List Alert) → All (λ k. has_identity k xs ≡ true) (ids xs)
All-has_identity [] = tt
All-has_identity (x ∷ xs) =
    (has_identity_self x xs, All-has_identity-cons x xs (ids xs) (All-has_identity xs))

Absent-filter :
    (k : Text) (p : Alert → Bool) (xs : List Alert)
    → Absent k (ids xs)
    → Absent k (ids (filter p xs))
Absent-filter k p [] h = tt
Absent-filter k p (x ∷ xs) h = elim (Bool-cases (p x)) [
  | inl e ↦ rw e (h.0, Absent-filter k p xs h.1)
  | inr e ↦ rw e (Absent-filter k p xs h.1)
]

Distinct-filter :
    (p : Alert → Bool) (xs : List Alert) → Distinct (ids xs) → Distinct (ids (filter p xs))
Distinct-filter p [] h = tt
Distinct-filter p (x ∷ xs) h = elim (Bool-cases (p x)) [
  | inl e ↦ rw e (Absent-filter _ p xs h.0, Distinct-filter p xs h.1)
  | inr e ↦ rw e (Distinct-filter p xs h.1)
]

pub merge_fetched-IsBuffer :
    (fetched prev : List Alert)
    → IsBuffer prev
    → IsBuffer fetched
    → IsBuffer (merge_fetched fetched prev)
unfolding merge_fetched
merge_fetched-IsBuffer fetched [] h k = k
merge_fetched-IsBuffer fetched (a ∷ prev) h k =
    take-IsBuffer ((a ∷ prev) ++ kept (a ∷ prev) fetched) (
      subst Distinct (sym (ids-append (a ∷ prev) (kept (a ∷ prev) fetched))) (
        Distinct-append (ids (a ∷ prev)) (ids (kept (a ∷ prev) fetched)) h.distinct
          (Distinct-filter _ fetched k.distinct)
          (All-Absent-kept (a ∷ prev) fetched (ids (a ∷ prev)) (All-has_identity (a ∷ prev)))))

pub identity-set_status :
    (flow : Text) (st : AlertStatus) (x : Alert)
    → get_alert_identity (set_status flow st x) ≡ get_alert_identity x
unfolding set_status get_alert_identity
identity-set_status flow st x = elim (Bool-cases (text_eq x.flow_id flow)) [
  | inl e ↦ rw e
  | inr e ↦ rw e
]

pub ids-map-set_status :
    (flow : Text) (st : AlertStatus) (xs : List Alert) → ids (map (set_status flow st) xs) ≡ ids xs
ids-map-set_status flow st [] = refl
ids-map-set_status flow st (x ∷ xs) =
    ap₂ ◌∷◌ (identity-set_status flow st x) (ids-map-set_status flow st xs)

pub update-IsBuffer :
    (flow : Text) (st : AlertStatus) (xs : List Alert)
    → IsBuffer xs
    → IsBuffer (map (set_status flow st) xs)
update-IsBuffer flow st xs h = record {
  bounded = rw (length-map xs (set_status flow st)) h.bounded;
  distinct = rw (ids-map-set_status flow st xs) h.distinct;
}
