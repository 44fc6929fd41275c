-- ===== src/Base/Sets.antt =====
-- The `Set<string>` of the source as the list of its members in insertion order, and lists of
-- texts that name no text twice.
use threat_lens.Base.{
  ◌≡◌, refl, All, All-append, All-take, Bool, Bool-cases, List, Text, [], any, arith, false, filter,
  if◌then◌else◌, inl, inr, not, suc, take, text_eq, true, zero, ℕ, ◌&&◌, ◌++◌, ◌||◌, ◌∷◌, ◌≢◌,
}
use threat_lens.Base.StringLaws.{text_eq_iff}

-- `set.has(k)`
unfoldable pub member : Text → List Text → Bool
member k xs = any (λ j. text_eq j k) xs

-- `set.add(k)`
unfoldable pub set_add : Text → List Text → List Text
unfolding member
set_add k xs = if member k xs then xs else xs ++ k ∷ []

-- `new Set(xs)`, and `new Set([...s, ...xs])` from `s`.
unfoldable pub add_all : List Text → List Text → List Text
unfolding set_add
add_all s [] = s
add_all s (x ∷ xs) = add_all (set_add x s) xs

-- `set.delete(k)`
unfoldable pub set_delete : Text → List Text → List Text
set_delete k xs = filter (λ j. not (text_eq j k)) xs

abbrev pub Absent : Text → List Text → Type 0
Absent k = All (λ j. j ≢ k)

abbrev pub Distinct : List Text → Type 0
Distinct [] = Unit
Distinct (x ∷ xs) = Absent x xs × Distinct xs

pub Absent-of_member : (k : Text) (xs : List Text) → member k xs ≡ false → Absent k xs
unfolding member
Absent-of_member k [] h = tt
Absent-of_member k (x ∷ xs) h =
    (λ e. ground (arith, text_eq_iff x k), Absent-of_member k xs (ground arith))

pub member_of_Absent : (k : Text) (xs : List Text) → Absent k xs → member k xs ≡ false
unfolding member
member_of_Absent k [] h = refl
member_of_Absent k (x ∷ xs) h = ground (arith, text_eq_iff x k, member_of_Absent k xs h.1)

pub Absent-ne : (k j : Text) (xs : List Text) → Absent k xs → member j xs ≡ true → j ≢ k
unfolding member
Absent-ne k j [] h m = cc
Absent-ne k j (x ∷ xs) h m = elim (Bool-cases (text_eq x j)) [
  | inl e ↦ λ q. h.0 (ground (arith, text_eq_iff x j))
  | inr e ↦ Absent-ne k j xs h.1 (ground arith)
]

pub member-append :
    (k : Text) (xs ys : List Text) → member k (xs ++ ys) ≡ (member k xs || member k ys)
unfolding member
member-append k [] ys = refl
member-append k (x ∷ xs) ys = ground (arith, member-append k xs ys)

pub Distinct-take : (n : ℕ) (xs : List Text) → Distinct xs → Distinct (take n xs)
Distinct-take zero xs h = tt
Distinct-take (suc n) [] h = tt
Distinct-take (suc n) (x ∷ xs) h = (All-take (λ j. j ≢ x) n xs h.0, Distinct-take n xs h.1)

pub Distinct-append :
    (xs ys : List Text)
    → Distinct xs
    → Distinct ys
    → All (λ x. Absent x ys) xs
    → Distinct (xs ++ ys)
Distinct-append [] ys hx hy d = hy
Distinct-append (x ∷ xs) ys hx hy d =
    (All-append (λ j. j ≢ x) xs ys hx.0 d.0, Distinct-append xs ys hx.1 hy d.1)

Distinct-snoc : (k : Text) (xs : List Text) → Distinct xs → Absent k xs → Distinct (xs ++ k ∷ [])
Distinct-snoc k [] d h = (tt, tt)
Distinct-snoc k (x ∷ xs) d h = (
  All-append (λ j. j ≢ x) xs (k ∷ []) d.0 (λ e. h.0 (ground arith), tt),
  Distinct-snoc k xs d.1 h.1,
)

pub set_add-Distinct : (k : Text) (xs : List Text) → Distinct xs → Distinct (set_add k xs)
unfolding set_add
set_add-Distinct k xs d = elim (Bool-cases (member k xs)) [
  | inl e ↦ rw e d
  | inr e ↦ rw e (Distinct-snoc k xs d (Absent-of_member k xs e))
]

pub member-set_add :
    (j k : Text) (xs : List Text) → member j (set_add k xs) ≡ (text_eq k j || member j xs)
unfolding set_add
member-set_add j k xs = elim (Bool-cases (member k xs)) [
  | inl e ↦
      rw e
        (elim (Bool-cases (text_eq k j)) [ inl q ↦ ground (arith, text_eq_iff k j) | inr q ↦ rw q ])
  | inr e ↦ rw (e, member-append j xs (k ∷ [])) (unfold member in ground arith)
]

pub add_all-Distinct : (s xs : List Text) → Distinct s → Distinct (add_all s xs)
unfolding add_all
add_all-Distinct s [] d = d
add_all-Distinct s (x ∷ xs) d = add_all-Distinct (set_add x s) xs (set_add-Distinct x s d)

pub member-add_all :
    (j : Text) (s xs : List Text) → member j (add_all s xs) ≡ (member j s || member j xs)
unfolding add_all
member-add_all j s [] = ground arith
member-add_all j s (x ∷ xs) =
    rw (member-add_all j (set_add x s) xs, member-set_add j x s) (unfold member in ground arith)

pub member-set_delete :
    (j k : Text) (xs : List Text) → member j (set_delete k xs) ≡ (member j xs && not (text_eq k j))
unfolding set_delete member
member-set_delete j k [] = refl
member-set_delete j k (x ∷ xs) =
    ground (arith, text_eq_iff x k, text_eq_iff x j, text_eq_iff k j, member-set_delete j k xs)
