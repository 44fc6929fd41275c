-- ===== src/Detection/Groups.antt =====
-- frontend/src/components/DetectionConfig.tsx: the thresholds grouped by the label of their rule.
use threat_lens.Base.{
  ◌≡◌, refl, List, arith, Bool-cases, Text, [], append-nil, append_assoc, filter, if◌then◌else◌,
  inl, inr, lookup_text, or_default, sym, text_eq, ◌++◌, ◌∙◌, ◌∷◌, ap,
}
use threat_lens.Base.Sets.{Distinct}
use threat_lens.Base.Tables.{put, keys_of, lookup-put, put-Distinct}
use threat_lens.Base.StringLaws.{eq_of_text_eq}
use threat_lens.Detection.{ThresholdEntry}

module _ {Num : Type 0} where
  -- `groups.get(label) ?? []`
  abbrev pub bucket : Text → List (Text × List (ThresholdEntry Num)) → List (ThresholdEntry Num)
  bucket label groups = or_default (lookup_text label groups) []

  -- The loop over the entries, from the groups so far.
  unfoldable pub group_from :
      List (Text × List (ThresholdEntry Num))
      → List (ThresholdEntry Num)
      → List (Text × List (ThresholdEntry Num))
  unfolding put
  group_from groups [] = groups
  group_from groups (entry ∷ entries) =
      group_from (put entry.rule_label (bucket entry.rule_label groups ++ entry ∷ []) groups)
        entries

  abbrev pub grouped : List (ThresholdEntry Num) → List (Text × List (ThresholdEntry Num))
  grouped entries = group_from [] entries

  abbrev pub under : Text → List (ThresholdEntry Num) → List (ThresholdEntry Num)
  under label entries = filter (λ entry. text_eq entry.rule_label label) entries

  bucket-put :
      (label k : Text) (b : List (ThresholdEntry Num))
      (groups : List (Text × List (ThresholdEntry Num)))
      → bucket label (put k b groups) ≡ (if text_eq k label then b else bucket label groups)
  bucket-put label k b groups = rw (lookup-put label k b groups) (ground arith)

  bucket-group_from :
      (label : Text) (entries : List (ThresholdEntry Num))
      (groups : List (Text × List (ThresholdEntry Num)))
      → bucket label (group_from groups entries) ≡ bucket label groups ++ under label entries
  unfolding group_from
  bucket-group_from label [] groups = sym (append-nil (bucket label groups))
  bucket-group_from label (entry ∷ entries) groups =
      bucket-group_from label entries
        (put entry.rule_label (bucket entry.rule_label groups ++ entry ∷ []) groups)
      ∙ elim (Bool-cases (text_eq entry.rule_label label)) [
        | inl e ↦
            rw
              (
                bucket-put label entry.rule_label (bucket entry.rule_label groups ++ entry ∷ [])
                    groups,
                e,
              )
              (ap (λ k. (bucket k groups ++ entry ∷ []) ++ under label entries)
                  (eq_of_text_eq entry.rule_label label e)
                ∙ append_assoc (bucket label groups) (entry ∷ []) (under label entries))
        | inr e ↦
            rw
              (
                bucket-put label entry.rule_label (bucket entry.rule_label groups ++ entry ∷ [])
                    groups,
                e,
              )
              refl
      ]

  group_from-Distinct :
      (entries : List (ThresholdEntry Num)) (groups : List (Text × List (ThresholdEntry Num)))
      → Distinct (keys_of groups)
      → Distinct (keys_of (group_from groups entries))
  unfolding group_from
  group_from-Distinct [] groups d = d
  group_from-Distinct (entry ∷ entries) groups d =
      group_from-Distinct entries
        (put entry.rule_label (bucket entry.rule_label groups ++ entry ∷ []) groups)
        (put-Distinct entry.rule_label (bucket entry.rule_label groups ++ entry ∷ []) groups d)

  -- The groups of the form have different labels, and the group of a label holds exactly the
  -- thresholds with that label, in the order of the response.
  pub grouped_lem :
      (label : Text) (entries : List (ThresholdEntry Num))
      → Distinct (keys_of (grouped entries))
        × (bucket label (grouped entries) ≡ under label entries)
  grouped_lem label entries =
      (group_from-Distinct entries [] tt, bucket-group_from label entries [])
