-- ===== src/Server/Agree.antt =====
-- Two lists of alerts that agree: what hooks/useThreatSocket.ts and backend/app/storage.py do to them
-- keeps it.
use threat_lens.Base.{
  ◌≡◌, refl, Bool-cases, List, Option-cases, Text, [], ap, arith, false, inl, inr, map, none, some,
  suc, take, text_eq, zero, ℕ, ◌++◌, ◌∙◌, ◌∷◌, sym,
}
use threat_lens.Base.Options.{none-ne-some, some_eq}
use threat_lens.Base.StringLaws.{eq_of_text_eq}
use threat_lens.Types.{Alert, AlertStatus, get_alert_identity}
use threat_lens.Socket.{has_identity, max_alerts_buffer, merge_fetched, set_status}
use threat_lens.Socket.Buffer.{kept}
use threat_lens.Socket.Store.{
  find, find-append, find-map-set_status, found_of_has_identity, map_found, or_else,
  find-has_identity,
}
use threat_lens.Socket.Store.Refinement.{find-kept}
use threat_lens.Server.Archive.{last_of_flow}

-- An alert that both sides have is the same on both.
abbrev pub Agree : (shown ring : List Alert) → Type 0
Agree shown ring = (k : Text) (a b : Alert) → find k shown ≡ some a → find k ring ≡ some b → a ≡ b

pub find-take :
    (k : Text) (n : ℕ) (xs : List Alert) (a : Alert)
    → find k (take n xs) ≡ some a
    → find k xs ≡ some a
find-take k zero xs a h = cc
find-take k (suc n) [] a h = h
find-take k (suc n) (x ∷ xs) a h = elim (Bool-cases (text_eq (get_alert_identity x) k)) [
  | inl e ↦ ground arith
  | inr e ↦ rw e (find-take k n xs a (ground arith))
]

pub Agree-take :
    (n m : ℕ) (shown ring : List Alert) → Agree shown ring → Agree (take n shown) (take m ring)
Agree-take n m shown ring h k a b p q = h k a b (find-take k n shown a p) (find-take k m ring b q)

pub Agree-refl : (ring : List Alert) → Agree ring ring
Agree-refl ring k a b p q = cc

-- A new alert, where it is delivered and where it is not.
pub Agree-cons :
    (alert : Alert) (shown ring : List Alert)
    → Agree shown ring
    → Agree (alert ∷ shown) (alert ∷ ring)
Agree-cons alert shown ring h k a b p q = elim (Bool-cases (text_eq (get_alert_identity alert) k)) [
  | inl e ↦ ground arith
  | inr e ↦ h k a b (ground arith) (ground arith)
]

pub Agree-recorded :
    (alert : Alert) (shown ring : List Alert)
    → has_identity (get_alert_identity alert) shown ≡ false
    → Agree shown ring
    → Agree shown (alert ∷ ring)
Agree-recorded alert shown ring fresh h k a b p q =
    elim (Bool-cases (text_eq (get_alert_identity alert) k)) [
      | inl e ↦
          let absent : find k shown ≡ none =
            ap (λ j. find j shown) (sym (eq_of_text_eq (get_alert_identity alert) k e))
            ∙ find-has_identity (get_alert_identity alert) shown fresh in
          absurd (cc)
      | inr e ↦ h k a b p (ground arith)
    ]

pub Agree-map :
    (flow : Text) (st : AlertStatus) (shown ring : List Alert)
    → Agree shown ring
    → Agree (map (set_status flow st) shown) (map (set_status flow st) ring)
Agree-map flow st shown ring h k a b p q =
    let set = map_found (set_status flow st) in
    let p' : set (find k shown) ≡ some a = sym (find-map-set_status k flow st shown) ∙ p in
    let q' : set (find k ring) ≡ some b = sym (find-map-set_status k flow st ring) ∙ q in
    elim (Option-cases (find k shown)) [
      | inl e ↦ absurd (none-ne-some (sym (ap set e) ∙ p'))
      | inr (a0, e) ↦ elim (Option-cases (find k ring)) [
        | inl e' ↦ absurd (none-ne-some (sym (ap set e') ∙ q'))
        | inr (b0, e') ↦
            sym (some_eq (sym (ap set e) ∙ p'))
            ∙ ap (set_status flow st) (h k a0 b0 e e')
            ∙ some_eq (sym (ap set e') ∙ q')
      ]
    ]

-- A flow that the ring does not have is not changed there.
pub not_of_flow :
    (flow : Text) (st : AlertStatus) (ring : List Alert)
    → last_of_flow flow (map (set_status flow st) ring) ≡ none
    → map (set_status flow st) ring ≡ ring
not_of_flow flow st [] h = refl
not_of_flow flow st (x ∷ ring) h =
    elim (Option-cases (last_of_flow flow (map (set_status flow st) ring))) [
      | inl e ↦ elim (Bool-cases (text_eq x.flow_id flow)) [
        | inl q ↦ absurd (unfold set_status in ground arith)
        | inr q ↦
            let kept : set_status flow st x ≡ x = unfold set_status in rw q refl in
            rw kept (ap (◌∷◌ x) (not_of_flow flow st ring e))
      ]
      | inr (b, e) ↦ absurd (ground arith)
    ]

pub Agree-merged :
    (fetched prev ring : List Alert)
    → Agree prev ring
    → Agree fetched ring
    → Agree (merge_fetched fetched prev) ring
unfolding merge_fetched
Agree-merged fetched [] ring hp hf k a b p q = hf k a b p q
Agree-merged fetched (x ∷ prev) ring hp hf k a b p q =
    let found : or_else (find k (x ∷ prev)) (find k (kept (x ∷ prev) fetched)) ≡ some a =
      sym (find-append k (x ∷ prev) (kept (x ∷ prev) fetched))
      ∙ find-take k max_alerts_buffer ((x ∷ prev) ++ kept (x ∷ prev) fetched) a p in
    elim (Bool-cases (has_identity k (x ∷ prev))) [
      | inl e ↦
          let (c, w) = found_of_has_identity k (x ∷ prev) e in
          let same : or_else (find k (x ∷ prev)) (find k (kept (x ∷ prev) fetched)) ≡ some c =
            ap (λ o. or_else o (find k (kept (x ∷ prev) fetched))) w in
          hp k a b (cc) q
      | inr e ↦
          let absent = find-has_identity k (x ∷ prev) e in
          let same : or_else (find k (x ∷ prev)) (find k (kept (x ∷ prev) fetched))
              ≡ find k (kept (x ∷ prev) fetched) =
            ap (λ o. or_else o (find k (kept (x ∷ prev) fetched))) absent in
          hf k a b (sym (find-kept k (x ∷ prev) fetched e) ∙ sym same ∙ found) q
    ]
