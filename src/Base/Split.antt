-- ===== src/Base/Split.antt =====
-- `s.split(c)` at a separator of one character, and `parts.join(c)`.
use threat_lens.Base.{
  ◌≡◌, refl, List, Text, [], if◌then◌else◌, ℕ, ◌++◌, ◌==◌, ◌∷◌, ==_iff, Bool-cases, ap,
  append_assoc, arith, inl, inr, ◌∙◌, All, false, true,
}

-- The first part, and the parts behind it.
unfoldable pub split_parts : ℕ → Text → Text × List Text
split_parts sep [] = ([], [])
split_parts sep (c ∷ s) =
    let (part, parts) = split_parts sep s in
    if c == sep then ([], part ∷ parts) else (c ∷ part, parts)

abbrev pub split : ℕ → Text → List Text
split sep s = (split_parts sep s).0 ∷ (split_parts sep s).1

unfoldable pub join : ℕ → List Text → Text
join sep [] = []
join sep (part ∷ []) = part
join sep (part ∷ next ∷ parts) = part ++ (sep ∷ join sep (next ∷ parts))

-- `parts.slice(0, -1)`
unfoldable pub but_last {ℓ} : {A : Type ℓ} → List A → List A
but_last [] = []
but_last (x ∷ []) = []
but_last (x ∷ y ∷ xs) = x ∷ but_last (y ∷ xs)

abbrev pub last_or {ℓ} : {A : Type ℓ} → A → List A → A
last_or d [] = d
last_or d (x ∷ xs) = last_or x xs

join-cons :
    (sep c : ℕ) (part : Text) (parts : List Text)
    → join sep ((c ∷ part) ∷ parts) ≡ c ∷ join sep (part ∷ parts)
unfolding join
join-cons sep c part [] = refl
join-cons sep c part (next ∷ parts) = refl

pub join-split : (sep : ℕ) (s : Text) → join sep (split sep s) ≡ s
unfolding split_parts join
join-split sep [] = refl
join-split sep (c ∷ s) = elim (Bool-cases (c == sep)) [
  | inl e ↦ rw e (rw (join-split sep s) (ground (arith, ==_iff c sep)))
  | inr e ↦ rw e (
      rw (join-cons sep c (split_parts sep s).0 (split_parts sep s).1)
        (ap (◌∷◌ c) (join-split sep s)))
]

-- Cutting the last part off and putting it back gives the list of parts, joined.
pub join-but_last :
    (sep : ℕ) (part next : Text) (parts : List Text)
    → join sep (but_last (part ∷ next ∷ parts)) ++ (sep ∷ last_or next parts)
      ≡ join sep (part ∷ next ∷ parts)
unfolding join but_last
join-but_last sep part next [] = refl
join-but_last sep part next (third ∷ parts) =
    append_assoc part _ _
    ∙ ap (λ (t : Text). part ++ (sep ∷ t)) (join-but_last sep next third parts)

-- No character of a text is the separator.
abbrev pub IsPlain : ℕ → Text → Type 0
IsPlain sep = All (λ c. (c == sep) ≡ false)

pub split_parts_plain : (sep : ℕ) (s : Text) → IsPlain sep s → split_parts sep s ≡ (s, [])
unfolding split_parts
split_parts_plain sep [] h = refl
split_parts_plain sep (c ∷ s) h = rw (h.0, split_parts_plain sep s h.1) refl

pub split_parts-append :
    (sep : ℕ) (s t : Text)
    → IsPlain sep s
    → (sep == sep) ≡ true
    → split_parts sep (s ++ (sep ∷ t)) ≡ (s, split sep t)
unfolding split_parts
split_parts-append sep [] t h e = rw e refl
split_parts-append sep (c ∷ s) t h e = rw (h.0, split_parts-append sep s t h.1 e) refl
