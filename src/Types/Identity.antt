-- ===== src/Types/Identity.antt =====
-- The identity of an alert (getAlertIdentity): when two alerts are the same alert.
use threat_lens.Base.{◌≡◌, refl, ◌↔◌, ◌≢◌, [], ◌∷◌, ◌++◌, none, some, Text, codes, All}
use threat_lens.Types.{Alert, get_alert_identity}

-- No separator stands in the text.
abbrev pub NoBar : Text → Type 0
NoBar = All (λ c. c ≢ b'|')

split_bar :
    (a b : Text) (s t : Text)
    → NoBar a
    → NoBar b
    → a ++ (b'|' ∷ s) ≡ b ++ (b'|' ∷ t)
    → (a ≡ b) × (s ≡ t)
split_bar [] [] s t ha hb e = (refl, cc)
split_bar [] (d ∷ b) s t ha hb e = absurd (hb.0 (cc))
split_bar (c ∷ a) [] s t ha hb e = absurd (ha.0 (cc))
split_bar (c ∷ a) (d ∷ b) s t ha hb e =
    let (same, rest) = split_bar a b s t ha.1 hb.1 (cc) in (cc, rest)

join_bars-injective :
    (f g s t c d : Text)
    → NoBar f
    → NoBar g
    → NoBar s
    → NoBar t
    → f ++ (codes "|" ++ (s ++ (codes "|" ++ c))) ≡ g ++ (codes "|" ++ (t ++ (codes "|" ++ d)))
    → (f ≡ g) × (s ≡ t) × (c ≡ d)
join_bars-injective f g s t c d hf hg hs ht e =
    let (same_flow, rest) = split_bar f g _ _ hf hg e in
    let (same_time, same_class) = split_bar s t c d hs ht rest in (same_flow, same_time, same_class)

join_bars-cong :
    (f g s t c d : Text)
    → f ≡ g
    → s ≡ t
    → c ≡ d
    → f ++ (codes "|" ++ (s ++ (codes "|" ++ c))) ≡ g ++ (codes "|" ++ (t ++ (codes "|" ++ d)))
join_bars-cong f g s t c d p q r = rw (p, q, r)

-- Two alerts without an `alert_id` have one identity exactly when their flow, timestamp and class
-- agree, provided that no flow and no timestamp holds the separator `|`. In particular the flow
-- alone does not decide it.
pub identity-eq_iff :
    (a b : Alert)
    → a.alert_id ≡ none
    → b.alert_id ≡ none
    → NoBar a.flow_id
    → NoBar b.flow_id
    → NoBar a.timestamp
    → NoBar b.timestamp
    → (get_alert_identity a ≡ get_alert_identity b)
      ↔ ((a.flow_id ≡ b.flow_id) × (a.timestamp ≡ b.timestamp) × (a.threat_class ≡ b.threat_class))
unfolding get_alert_identity
identity-eq_iff a b na nb fa fb ta tb =
    rw (na, nb, get_alert_identity)
      (
        (join_bars-injective _ _ _ _ _ _ fa fb ta tb),
        λ same. join_bars-cong _ _ _ _ _ _ same.0 same.1 same.2,
      )

-- A server-generated `alert_id` is the identity, whatever the other fields are.
pub identity_of_alert_id : (a : Alert) (i : Text) → a.alert_id ≡ some i → get_alert_identity a ≡ i
unfolding get_alert_identity
identity_of_alert_id a i h = rw h
