-- ===== src/Base/Tables.antt =====
-- Objects of the source that are used as tables with string keys: `{ ...m, [k]: v }` and
-- `delete m[k]` on an association list.
use threat_lens.Base.{
  ◌≡◌, refl, arith, lookup_text, List, Text, [], if◌then◌else◌, none, some, text_eq, ◌∷◌,
  Bool-cases, inl, inr, map, ◌≢◌, false,
}
use threat_lens.Base.Sets.{Absent, Distinct}
use threat_lens.Base.StringLaws.{text_eq_iff, text_eq_refl}

-- `{ ...m, [k]: v }`
unfoldable pub put {ℓ} : {A : Type ℓ} → Text → A → List (Text × A) → List (Text × A)
unfolding text_eq
put k v [] = (k, v) ∷ []
put k v ((j, w) ∷ m) = let rest = put k v m in if text_eq j k then (j, v) ∷ m else (j, w) ∷ rest

-- `delete m[k]`
unfoldable pub remove {ℓ} : {A : Type ℓ} → Text → List (Text × A) → List (Text × A)
unfolding text_eq
remove k [] = []
remove k ((j, w) ∷ m) = let rest = remove k m in if text_eq j k then rest else (j, w) ∷ rest

pub lookup-put {ℓ} :
    {A : Type ℓ} (j k : Text) (v : A) (m : List (Text × A))
    → lookup_text j (put k v m) ≡ (if text_eq k j then some v else lookup_text j m)
unfolding put
lookup-put j k v [] = refl
lookup-put j k v ((i, w) ∷ m) =
    ground (arith, text_eq_iff i k, text_eq_iff i j, text_eq_iff k j, lookup-put j k v m)

pub lookup-remove {ℓ} :
    {A : Type ℓ} (j k : Text) (m : List (Text × A))
    → lookup_text j (remove k m) ≡ (if text_eq k j then none else lookup_text j m)
unfolding remove
lookup-remove j k [] = ground arith
lookup-remove j k ((i, w) ∷ m) =
    ground (arith, text_eq_iff i k, text_eq_iff i j, text_eq_iff k j, lookup-remove j k m)

abbrev pub keys_of {ℓ} : {A : Type ℓ} → List (Text × A) → List Text
keys_of = map (λ e. e.0)

put-Absent {ℓ} :
    {A : Type ℓ} (c k : Text) (v : A) (m : List (Text × A))
    → Absent c (keys_of m)
    → k ≢ c
    → Absent c (keys_of (put k v m))
unfolding put
put-Absent c k v [] h n = (n, tt)
put-Absent c k v ((j, i) ∷ m) h n = elim (Bool-cases (text_eq j k)) [
  | inl e ↦ rw e h
  | inr e ↦ rw e (h.0, put-Absent c k v m h.1 n)
]

-- Setting a key leaves no key twice.
pub put-Distinct {ℓ} :
    {A : Type ℓ} (k : Text) (v : A) (m : List (Text × A))
    → Distinct (keys_of m)
    → Distinct (keys_of (put k v m))
unfolding put
put-Distinct k v [] d = (tt, tt)
put-Distinct k v ((j, i) ∷ m) d = elim (Bool-cases (text_eq j k)) [
  | inl e ↦ rw e d
  | inr e ↦
      rw e (put-Absent j k v m d.0 (λ q. ground (arith, text_eq_iff j k)), put-Distinct k v m d.1)
]

pub lookup-put_same {ℓ} :
    {A : Type ℓ} (k : Text) (v : A) (m : List (Text × A)) → lookup_text k (put k v m) ≡ some v
lookup-put_same k v m = rw (lookup-put k k v m, text_eq_refl k) refl

pub lookup-remove_same {ℓ} :
    {A : Type ℓ} (k : Text) (m : List (Text × A)) → lookup_text k (remove k m) ≡ none
lookup-remove_same k m = rw (lookup-remove k k m, text_eq_refl k) refl

pub lookup-put_other {ℓ} :
    {A : Type ℓ} (j k : Text) (v : A) (m : List (Text × A))
    → text_eq k j ≡ false
    → lookup_text j (put k v m) ≡ lookup_text j m
lookup-put_other j k v m h = rw (lookup-put j k v m, h) refl

pub lookup-remove_other {ℓ} :
    {A : Type ℓ} (j k : Text) (m : List (Text × A))
    → text_eq k j ≡ false
    → lookup_text j (remove k m) ≡ lookup_text j m
lookup-remove_other j k m h = rw (lookup-remove j k m, h) refl
