-- ===== src/Dashboard/Dominant.antt =====
-- The dominant vector of the dashboard is a most frequent class.
use mathlib.Core.Path.{subst}
use mathlib.Core.Option.{some-injective}
use threat_lens.Base.{
  ◌≡◌, All, Bool-cases, List, Text, [], arith, inl, inr, leb, some, ℕ, ◌∷◌, ◌≤◌, Option, ap, none,
}
use threat_lens.Base.StringLaws.{text_eq_iff, text_eq_refl}
use threat_lens.Base.Sets.{Distinct, Absent}
use threat_lens.Types.{Alert}
use threat_lens.Dashboard.TopVector.{
  class_counts, count_in, count_in-counts, first?, insert_entry, keys, occurrences, sort_entries,
  top_vector_entry, counts-Distinct,
}

-- With distinct keys each entry holds the count of its key.
entries_below :
    (j : Text) (n : ℕ) (m rest : List (Text × ℕ))
    → Absent j (keys rest)
    → All (λ e. e.1 ≡ count_in e.0 m) rest
    → All (λ e. e.1 ≡ count_in e.0 ((j, n) ∷ m)) rest
entries_below j n m [] h a = tt
entries_below j n m (e ∷ rest) h a =
    (ground (arith, text_eq_iff j e.0), entries_below j n m rest h.1 a.1)

entries_true : (m : List (Text × ℕ)) → Distinct (keys m) → All (λ e. e.1 ≡ count_in e.0 m) m
entries_true [] d = tt
entries_true ((j, n) ∷ m) d =
    (ground (arith, text_eq_refl j), entries_below j n m m d.0 (entries_true m d.1))

module _ (P : Text × ℕ → Type 0) where
  All-insert : (e : Text × ℕ) (m : List (Text × ℕ)) → P e → All P m → All P (insert_entry e m)
  unfolding insert_entry
  All-insert e [] p h = (p, tt)
  All-insert e (x ∷ xs) p h = elim (Bool-cases (leb x.1 e.1)) [
    | inl q ↦ rw q (p, h)
    | inr q ↦ rw q (h.0, All-insert e xs p h.1)
  ]

  All-sort : (m : List (Text × ℕ)) → All P m → All P (sort_entries m)
  unfolding sort_entries
  All-sort [] h = tt
  All-sort (e ∷ m) h = All-insert e (sort_entries m) h.0 (All-sort m h.1)

  All-of_insert : (e : Text × ℕ) (m : List (Text × ℕ)) → All P (insert_entry e m) → P e × All P m
  unfolding insert_entry
  All-of_insert e [] h = h
  All-of_insert e (x ∷ xs) h = elim (Bool-cases (leb x.1 e.1)) [
    | inl q ↦ rw q at h
    | inr q ↦
        let h' : P x × All P (insert_entry e xs) = rw q at h in
        let (p, rest) = All-of_insert e xs h'.1 in (p, (h'.0, rest))
  ]

  first-All : (l : List (Text × ℕ)) (e : Text × ℕ) → All P l → first? l ≡ some e → P e
  first-All [] e h q = cc
  first-All (x ∷ xs) e h q = subst P (some-injective x e q) h.0

  All-of_sort : (m : List (Text × ℕ)) → All P (sort_entries m) → All P m
  unfolding sort_entries
  All-of_sort [] h = tt
  All-of_sort (e ∷ m) h =
      let (p, rest) = All-of_insert e (sort_entries m) h in (p, All-of_sort m rest)

-- The first entry has the greatest count.
abbrev IsHeaded : List (Text × ℕ) → Type 0
IsHeaded [] = Unit
IsHeaded (x ∷ xs) = All (λ e. e.1 ≤ x.1) xs

All-le_trans : (n k : ℕ) (m : List (Text × ℕ)) → n ≤ k → All (λ e. e.1 ≤ n) m → All (λ e. e.1 ≤ k) m
All-le_trans n k [] l h = tt
All-le_trans n k (e ∷ m) l h = (omega arith, All-le_trans n k m l h.1)

insert-IsHeaded : (e : Text × ℕ) (m : List (Text × ℕ)) → IsHeaded m → IsHeaded (insert_entry e m)
unfolding insert_entry
insert-IsHeaded e [] h = tt
insert-IsHeaded e (x ∷ xs) h = elim (Bool-cases (leb x.1 e.1)) [
  | inl q ↦ rw q (ground arith, All-le_trans x.1 e.1 xs (ground arith) h)
  | inr q ↦ rw q (All-insert (λ y. y.1 ≤ x.1) e xs (ground arith) h)
]

sort-IsHeaded : (m : List (Text × ℕ)) → IsHeaded (sort_entries m)
unfolding sort_entries
sort-IsHeaded [] = tt
sort-IsHeaded (e ∷ m) = insert-IsHeaded e (sort_entries m) (sort-IsHeaded m)

count_le : (c : Text) (n : ℕ) (m : List (Text × ℕ)) → All (λ e. e.1 ≤ n) m → count_in c m ≤ n
count_le c n [] h = omega arith
count_le c n ((j, k) ∷ m) h = ground (arith, count_le c n m h.1)

count_in-class_counts :
    (c : Text) (alerts : List Alert) → count_in c (class_counts alerts) ≡ occurrences c alerts
count_in-class_counts c alerts = omega (arith, count_in-counts c [] alerts)

headed :
    (l : List (Text × ℕ)) (v : Text) (n : ℕ)
    → IsHeaded l
    → first? l ≡ some (v, n)
    → All (λ e. e.1 ≤ n) l
headed [] v n h e = cc
headed (x ∷ xs) v n h e =
    let q : x.1 ≡ n = ap (λ (o : Option (Text × ℕ)). count_of o) e in
    (omega arith, All-le_trans x.1 n xs (omega arith) h)
  where
    count_of : Option (Text × ℕ) → ℕ
    count_of none = 0
    count_of (some e) = e.1

-- The dominant vector that the dashboard names is the class of as many alerts as its entry says,
-- and no class has more.
pub top_vector_entry-max :
    (alerts : List Alert) (v : Text) (n : ℕ) (c : Text)
    → top_vector_entry alerts ≡ some (v, n)
    → (n ≡ occurrences v alerts) × (occurrences c alerts ≤ occurrences v alerts)
unfolding top_vector_entry
top_vector_entry-max alerts v n c e =
    let m = class_counts alerts in
    let below = All-of_sort (λ x. x.1 ≤ n) m (headed (sort_entries m) v n (sort-IsHeaded m) e) in
    let P : Text × ℕ → Type 0 = λ x. x.1 ≡ count_in x.0 m in
    let count : n ≡ count_in v m =
      first-All P (sort_entries m) (v, n)
        (All-sort P m (entries_true m (counts-Distinct [] alerts tt))) e in
    (
      omega (arith, count, count_in-class_counts v alerts),
      omega (
        arith,
        count,
        count_in-class_counts v alerts,
        count_in-class_counts c alerts,
        count_le c n m below,
      ),
    )
