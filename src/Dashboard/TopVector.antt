-- ===== src/Dashboard/TopVector.antt =====
-- frontend/src/App.tsx: `classCounts` and the dominant vector. The entries of an object come in the
-- order in which their keys were set, and `sort` is stable.
use threat_lens.Base.{
  ◌≡◌, Bool-cases, List, Option, Text, [], arith, codes, filter, if◌then◌else◌, inl, inr, leb,
  length, lookup_text, map, none, or_default, some, text_eq, ℕ, ◌+◌, ◌∷◌, ◌≢◌,
}
use threat_lens.Base.StringLaws.{text_eq_iff}
use threat_lens.Base.Sets.{Distinct, Absent}
use threat_lens.Types.{Alert}

-- `acc[k] = (acc[k] || 0) + 1`
unfoldable pub bump_count : Text → List (Text × ℕ) → List (Text × ℕ)
bump_count k [] = (k, 1) ∷ []
bump_count k ((j, n) ∷ m) =
    let rest = bump_count k m in if text_eq j k then (j, n + 1) ∷ m else (j, n) ∷ rest

unfoldable pub counts_from : List (Text × ℕ) → List Alert → List (Text × ℕ)
unfolding bump_count
counts_from acc [] = acc
counts_from acc (a ∷ alerts) = counts_from (bump_count a.threat_class acc) alerts

-- `classCounts`
abbrev pub class_counts : List Alert → List (Text × ℕ)
class_counts = counts_from []

-- A stable sort by falling count.
unfoldable pub insert_entry : Text × ℕ → List (Text × ℕ) → List (Text × ℕ)
insert_entry e [] = e ∷ []
insert_entry e (x ∷ xs) =
    let rest = insert_entry e xs in if leb x.1 e.1 then e ∷ x ∷ xs else x ∷ rest

unfoldable pub sort_entries : List (Text × ℕ) → List (Text × ℕ)
unfolding insert_entry
sort_entries [] = []
sort_entries (e ∷ m) = insert_entry e (sort_entries m)

-- `topVectorEntry`, and `topVector` with its text for none.
abbrev pub first? : List (Text × ℕ) → Option (Text × ℕ)
first? [] = none
first? (e ∷ m) = some e

unfoldable pub top_vector_entry : List Alert → Option (Text × ℕ)
unfolding counts_from sort_entries
top_vector_entry alerts = first? (sort_entries (class_counts alerts))

unfoldable pub top_vector : List Alert → Text
unfolding top_vector_entry
top_vector alerts = elim (top_vector_entry alerts) [ some e ↦ e.0 | none ↦ codes "None Detected" ]

-- `openDominantVector`: the first alert of the dominant class.
abbrev find_class : Text → List Alert → Option Alert
find_class c [] = none
find_class c (a ∷ alerts) = if text_eq a.threat_class c then some a else find_class c alerts

unfoldable pub open_dominant_vector : List Alert → Option Alert
unfolding top_vector text_eq
open_dominant_vector alerts = elim (top_vector_entry alerts) [
  | none ↦ none
  | some e ↦ find_class (top_vector alerts) alerts
]

-- How often a class occurs.
abbrev pub occurrences : Text → List Alert → ℕ
occurrences c alerts = length (filter (λ a. text_eq a.threat_class c) alerts)

abbrev pub count_in : Text → List (Text × ℕ) → ℕ
count_in c m = or_default (lookup_text c m) 0

abbrev pub keys : List (Text × ℕ) → List Text
keys = map (λ e. e.0)

count_in-bump :
    (c k : Text) (m : List (Text × ℕ))
    → count_in c (bump_count k m) ≡ count_in c m + (if text_eq k c then 1 else 0)
unfolding bump_count
count_in-bump c k [] = ground arith
count_in-bump c k ((j, n) ∷ m) =
    ground (arith, text_eq_iff j k, text_eq_iff j c, text_eq_iff k c, count_in-bump c k m)

pub count_in-counts :
    (c : Text) (acc : List (Text × ℕ)) (alerts : List Alert)
    → count_in c (counts_from acc alerts) ≡ count_in c acc + occurrences c alerts
unfolding counts_from
count_in-counts c acc [] = omega arith
count_in-counts c acc (a ∷ alerts) = ground (
  arith,
  count_in-counts c (bump_count a.threat_class acc) alerts,
  count_in-bump c a.threat_class acc,
)

Absent-bump :
    (c k : Text) (m : List (Text × ℕ))
    → Absent c (keys m)
    → k ≢ c
    → Absent c (keys (bump_count k m))
unfolding bump_count
Absent-bump c k [] h n = (n, tt)
Absent-bump c k ((j, i) ∷ m) h n = elim (Bool-cases (text_eq j k)) [
  | inl e ↦ rw e h
  | inr e ↦ rw e (h.0, Absent-bump c k m h.1 n)
]

bump-Distinct :
    (k : Text) (m : List (Text × ℕ)) → Distinct (keys m) → Distinct (keys (bump_count k m))
unfolding bump_count
bump-Distinct k [] d = (tt, tt)
bump-Distinct k ((j, i) ∷ m) d = elim (Bool-cases (text_eq j k)) [
  | inl e ↦ rw e d
  | inr e ↦
      rw e (Absent-bump j k m d.0 (λ q. ground (arith, text_eq_iff j k)), bump-Distinct k m d.1)
]

pub counts-Distinct :
    (acc : List (Text × ℕ)) (alerts : List Alert)
    → Distinct (keys acc)
    → Distinct (keys (counts_from acc alerts))
unfolding counts_from
counts-Distinct acc [] d = d
counts-Distinct acc (a ∷ alerts) d =
    counts-Distinct (bump_count a.threat_class acc) alerts (bump-Distinct a.threat_class acc d)
