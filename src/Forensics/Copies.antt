-- ===== src/Forensics/Copies.antt =====
-- The copy buttons of the drawer: what they copy stands beside them.
use threat_lens.Base.{
  ◌≡◌, refl, List, arith, All, All-append, Bool, Option, String, Text, [], any, includes, is_truthy,
  none, or_default, some, starts_with, true, ◌++◌, ◌∷◌, ℕ, drop, take,
}
use threat_lens.Base.StringLaws.{includes_self, includes_nil, starts_with_nil}
use threat_lens.Types.{Float, Alert, Evidence}
use threat_lens.Forensics.{
  EvidenceSection, beaconing, ddos, dns, exfiltration, get_evidence_visibility, malware,
  own_address, reconnaissance,
}
use threat_lens.Forensics.Dossier.{
  Part, Shown, copy_button, map_text, present_text, shown, beaconing_part, ddos_part, dns_part,
  evidence_part, exfiltration_part, malware_part, not_observed, reconnaissance_part,
}
use threat_lens.Forensics.Frame.{
  dash, endpoint, confidence_part, dossier, identifiers_part, latency_part, own_port, raw_part,
  section_parts, header_part, summary_part,
}

abbrev pub shows : Text → List Shown → Bool
shows text = any (λ v. includes v.text text)

-- Each button of a part copies a text that is not empty and that a value of the part shows.
abbrev pub IsCopied : List Shown → List (Text × Text) → Type 0
IsCopied values = All (λ c. (is_truthy c.1 ≡ true) × (shows c.1 values ≡ true))

abbrev pub AllCopied : List Part → Type 0
AllCopied = All (λ p. IsCopied p.values p.copies)

shows-append :
    (text : Text) (front values : List Shown)
    → shows text values ≡ true
    → shows text (front ++ values) ≡ true
shows-append text [] values h = h
shows-append text (v ∷ front) values h = ground (arith, shows-append text front values h)

shows_first :
    (text : Text) (v : Shown) (values : List Shown)
    → includes v.text text ≡ true
    → shows text (v ∷ values) ≡ true
shows_first text v values h = ground arith

-- The button of a text that is shown where it is not empty.
button-IsCopied :
    (key : String) (o : Option Text) (values : List Shown)
    → shows (or_default o []) values ≡ true
    → IsCopied values (copy_button key o)
button-IsCopied key none values h = tt
button-IsCopied key (some []) values h = tt
button-IsCopied key (some (c ∷ text)) values h = ((refl, h), tt)

IsCopied-append :
    (values : List Shown) (xs ys : List (Text × Text))
    → IsCopied values xs
    → IsCopied values ys
    → IsCopied values (xs ++ ys)
IsCopied-append values xs ys p q =
    All-append (λ c. (is_truthy c.1 ≡ true) × (shows c.1 values ≡ true)) xs ys p q

starts_with_start : (s t : Text) → starts_with (s ++ t) s ≡ true
unfolding starts_with
starts_with_start [] t = starts_with_nil t
starts_with_start (c ∷ s) t = ground (arith, starts_with_start s t)

includes_start : (s t : Text) → includes (s ++ t) s ≡ true
unfolding includes
includes_start [] t = includes_nil t
includes_start (c ∷ s) t = ground (arith, starts_with_start (c ∷ s) t)

or_shown : (o : Option Text) (d : Text) → includes (or_default o d) (or_default o []) ≡ true
or_shown none d = includes_nil d
or_shown (some t) d = includes_self t

endpoint_shown :
    (print : ℕ → Text) (ip : Option Text) (port : Option ℕ)
    → includes (endpoint print ip port) (or_default ip []) ≡ true
endpoint_shown print none port = includes_nil (endpoint print none port)
endpoint_shown print (some t) port = includes_start t (b':' ∷ or_default (map_text print port) dash)

IsCopied-behind :
    (front values : List Shown) (copies : List (Text × Text))
    → IsCopied values copies
    → IsCopied (front ++ values) copies
IsCopied-behind front values [] h = tt
IsCopied-behind front values (c ∷ copies) h =
    ((h.0.0, shows-append c.1 front values h.0.1), IsCopied-behind front values copies h.1)

-- A value and a button that are both there where the text is.
present-IsCopied :
    (label key : String) (o : Option Text) (values : List Shown)
    → IsCopied (present_text label o ++ values) (copy_button key o)
present-IsCopied label key none values = tt
present-IsCopied label key (some []) values = tt
present-IsCopied label key (some (c ∷ text)) values = (
  (refl, shows_first (c ∷ text) (shown label (c ∷ text) "") values (includes_self (c ∷ text))),
  tt,
)

present_last-IsCopied :
    (label key : String) (o : Option Text) → IsCopied (present_text label o) (copy_button key o)
present_last-IsCopied label key none = tt
present_last-IsCopied label key (some []) = tt
present_last-IsCopied label key (some (c ∷ text)) =
    ((refl, shows_first (c ∷ text) (shown label (c ∷ text) "") [] (includes_self (c ∷ text))), tt)

hashes-IsCopied :
    (ja3 ja4 : Option Text)
    → IsCopied
        (present_text "JA3:" ja3 ++ present_text "JA4:" ja4)
        (copy_button "c2-ja3" ja3 ++ copy_button "c2-ja4" ja4)
hashes-IsCopied ja3 ja4 =
    IsCopied-append (present_text "JA3:" ja3 ++ present_text "JA4:" ja4) (copy_button "c2-ja3" ja3)
      (copy_button "c2-ja4" ja4) (present-IsCopied "JA3:" "c2-ja3" ja3 (present_text "JA4:" ja4))
      (IsCopied-behind (present_text "JA3:" ja3) (present_text "JA4:" ja4)
        (copy_button "c2-ja4" ja4) (present_last-IsCopied "JA4:" "c2-ja4" ja4))

-- The button of a value that falls back to another text.
fallback-IsCopied :
    (label key : String) (o : Option Text) (values : List Shown)
    → IsCopied (shown label (or_default o not_observed) "" ∷ values) (copy_button key o)
fallback-IsCopied label key o values =
    button-IsCopied key o (shown label (or_default o not_observed) "" ∷ values) (
      shows_first (or_default o []) (shown label (or_default o not_observed) "") values
        (or_shown o not_observed))

malware-IsCopied :
    (ja3 ja4 : Option Text) (values : List Shown)
    → IsCopied
        (shown "JA3:" (or_default ja3 not_observed) ""
          ∷ shown "JA4:" (or_default ja4 not_observed) ""
          ∷ values)
        (copy_button "malware-ja3" ja3
          ++ (copy_button "mw-ja3-inline" ja3 ++ copy_button "mw-ja4-inline" ja4))
malware-IsCopied ja3 ja4 values =
    let rest = shown "JA4:" (or_default ja4 not_observed) "" ∷ values in
    let all = shown "JA3:" (or_default ja3 not_observed) "" ∷ rest in
    IsCopied-append all (copy_button "malware-ja3" ja3)
      (copy_button "mw-ja3-inline" ja3 ++ copy_button "mw-ja4-inline" ja4)
      (fallback-IsCopied "JA3:" "malware-ja3" ja3 rest)
      (IsCopied-append all (copy_button "mw-ja3-inline" ja3) (copy_button "mw-ja4-inline" ja4)
        (fallback-IsCopied "JA3:" "mw-ja3-inline" ja3 rest)
        (IsCopied-behind (shown "JA3:" (or_default ja3 not_observed) "" ∷ []) rest
          (copy_button "mw-ja4-inline" ja4) (fallback-IsCopied "JA4:" "mw-ja4-inline" ja4 values)))

module _ (to_fixed : (digits : ℕ) → Float → Text) (show_float : Float → Text) (print : ℕ → Text)
    (quotient : (digits a b : ℕ) → Text) (is_falsy : Float → Bool) (stringify_sizes : List ℕ → Text)
    (stringify_times : List Float → Text) where
  abbrev pub part_of : EvidenceSection → Evidence → Part
  part_of =
      evidence_part to_fixed show_float print quotient is_falsy stringify_sizes stringify_times

  part_of-IsCopied :
      (section : EvidenceSection) (e : Evidence)
      → IsCopied (part_of section e).values (part_of section e).copies
  unfolding evidence_part ddos_part beaconing_part dns_part malware_part reconnaissance_part
      exfiltration_part
  part_of-IsCopied ddos e = tt
  part_of-IsCopied beaconing e =
      let values = (part_of beaconing e).values in
      IsCopied-behind (take 4 values) (drop 4 values) (part_of beaconing e).copies
        (hashes-IsCopied e.ja3_hash e.ja4_hash)
  part_of-IsCopied dns e =
      let values = (part_of dns e).values in
      IsCopied-behind (take 4 values) (drop 4 values) (part_of dns e).copies
        (fallback-IsCopied "QUERY:" "dns-query" e.dns_query [])
  part_of-IsCopied malware e =
      malware-IsCopied e.ja3_hash e.ja4_hash (drop 2 (part_of malware e).values)
  part_of-IsCopied reconnaissance e = tt
  part_of-IsCopied exfiltration e = tt

  sections-AllCopied :
      (section : Option EvidenceSection) (e : Evidence) (rest : List Part)
      → AllCopied rest
      → AllCopied (section_parts part_of section e ++ rest)
  sections-AllCopied none e rest h = h
  sections-AllCopied (some section) e rest h = (part_of-IsCopied section e, h)

  module _ (score_text latency_text : ℕ → Text) (format_timestamp : Text → Text)
      (stringify : Alert → Text) where
    identifiers-IsCopied :
        (a : Alert) → IsCopied (identifiers_part print a).values (identifiers_part print a).copies
    unfolding identifiers_part
    identifiers-IsCopied a =
        let source = own_address a.source_ip a.evidence.source_ip in
        let destination = own_address a.destination_ip a.evidence.destination_ip in
        let values = (identifiers_part print a).values in
        IsCopied-append values (copy_button "src-ip" source) (copy_button "dest-ip" destination)
          (button-IsCopied "src-ip" source values (
            ground
              (arith, endpoint_shown print source (own_port a.source_port a.evidence.source_port))))
          (button-IsCopied "dest-ip" destination values (
            ground (
              arith,
              endpoint_shown print destination
                  (own_port a.destination_port a.evidence.destination_port),
            )))

    raw-IsCopied :
        (a : Alert) → IsCopied (raw_part stringify a).values (raw_part stringify a).copies
    raw-IsCopied a =
        button-IsCopied "raw-json" (some (stringify a)) (raw_part stringify a).values
          (ground (arith, includes_self (stringify a)))

    -- In the drawer of any alert, each copy button copies a text that is not empty and that a value
    -- of the part beside it shows.
    pub dossier-AllCopied :
        (a : Alert)
        → AllCopied (dossier part_of score_text latency_text print format_timestamp stringify a)
    unfolding dossier summary_part confidence_part latency_part
    dossier-AllCopied a = (
      button-IsCopied "flow-id" (some a.flow_id) (header_part a).values
          (ground (arith, includes_self a.flow_id)),
      (
        tt,
        (
          identifiers-IsCopied a,
          sections-AllCopied (get_evidence_visibility a.threat_class) a.evidence
              (confidence_part score_text print a
                ∷ latency_part format_timestamp latency_text a
                ∷ raw_part stringify a
                ∷ [])
              (tt, (tt, (raw-IsCopied a, tt))),
        ),
      ),
    )
