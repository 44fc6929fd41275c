-- ===== src/Throughput/Downsample.antt =====
-- How many points the gauge draws, and which are always among them.
use mathlib.Core.List.{head?}
use threat_lens.Base.Split.{last_or}
use native.Mathlib.Nat.{
  zero-mod, add-div_right, div-eq_of_lt-le, le-div_iff_mul-le, div-mul-le_self, div-add-mod',
  div-lt_iff_lt-mul,
}
use threat_lens.Base.{
  ◌≡◌, refl, Bool, List, [], arith, if◌then◌else◌, leb, length, suc, ℕ, ◌%◌, ◌*◌, ◌+◌, ◌-◌, ◌/◌,
  ◌<◌, ◌∷◌, ◌≤◌, Bool-cases, inl, inr, last?, some, sym, ◌==◌, ◌||◌, ◌∙◌,
}
use threat_lens.Throughput.{Point, pick, downsample, max_render_points, render_step}

-- The number of multiples of `s` below `i`.
abbrev multiples : ℕ → ℕ → ℕ
multiples s i = (i + (s - 1)) / s

round_down : (s i : ℕ) → 0 < s → i % s ≡ 0 → (i + (s - 1)) / s ≡ i / s
round_down s i p h =
    let e : i / s * s + i % s ≡ i = div-add-mod' i s in
    div-eq_of_lt-le s (omega arith) (grind arith)

multiples-at : (s i : ℕ) → 0 < s → i % s ≡ 0 → multiples s (i + 1) ≡ multiples s i + 1
multiples-at s i p h =
    let e : i + 1 + (s - 1) ≡ i + s = omega arith in rw (e, round_down s i p h) (add-div_right i p)

multiples_mono : (s i : ℕ) → 0 < s → multiples s i ≤ multiples s (i + 1)
multiples_mono s i p = (le-div_iff_mul-le p).1 (omega (arith, div-mul-le_self (i + (s - 1)) s))

abbrev one_if : Bool → ℕ
one_if b = if b then 1 else 0

length-pick-le :
    (s last i : ℕ) (points : List Point)
    → 0 < s
    → length (pick s last i points) + multiples s i
      ≤ multiples s (i + length points) + one_if (leb i last)
unfolding pick
length-pick-le s last i [] p = let e : i + 0 ≡ i = omega arith in rw e (omega arith)
length-pick-le s last i (x ∷ points) p =
    let e : i + suc (length points) ≡ i + 1 + length points = omega arith in
    rw e (
      ground
        (arith, length-pick-le s last (i + 1) points p, multiples_mono s i p, multiples-at s i p))

render_step-pos : (n : ℕ) → max_render_points < n → 0 < render_step n
render_step-pos n h = omega arith

few_multiples : (n s : ℕ) → 0 < s → n ≤ 140 * s → multiples s n < 141
few_multiples n s p h = (div-lt_iff_lt-mul p).1 (omega arith)

-- The gauge draws at most 141 points: those whose index is a multiple of the step are at most 140,
-- and the last point comes on top.
pub length-downsample-le :
    (points : List Point) → length (downsample points) ≤ max_render_points + 1
unfolding downsample
length-downsample-le points = elim (Bool-cases (leb (length points) max_render_points)) [
  | inl e ↦ rw e (ground arith)
  | inr e ↦
      let n = length points in
      let s = render_step n in
      let p : 0 < s = ground arith in
      let few : multiples s n < 141 = few_multiples n s p (omega arith) in
      let z : 0 + n ≡ n = omega arith in
      rw e (ground (arith, length-pick-le s (n - 1) 0 points p, few, z))
]

pick-cons :
    (s last i : ℕ) (x : Point) (points : List Point)
    → pick s last i (x ∷ points) ≡ (
        if i % s == 0 || i == last
        then x ∷ pick s last (i + 1) points
        else pick s last (i + 1) points)
unfolding pick
pick-cons s last i x points = refl

last?-cons : (x v : Point) (l : List Point) → last? l ≡ some v → last? (x ∷ l) ≡ some v
last?-cons x v [] h = cc
last?-cons x v (y ∷ l) h = h

last-pick :
    (s last i : ℕ) (x : Point) (points : List Point)
    → last + 1 ≡ i + length (x ∷ points)
    → last? (pick s last i (x ∷ points)) ≡ some (last_or x points)
last-pick s last i x [] h = unfold pick in ground arith
last-pick s last i x (y ∷ points) h =
    let ih = last-pick s last (i + 1) y points (omega arith) in
    rw (pick-cons s last i x (y ∷ points)) (elim (Bool-cases (i % s == 0 || i == last)) [
      | inl e ↦ rw e (last?-cons x (last_or y points) (pick s last (i + 1) (y ∷ points)) ih)
      | inr e ↦ rw e ih
    ])

last?-last_or : (x : Point) (points : List Point) → last? (x ∷ points) ≡ some (last_or x points)
last?-last_or x [] = refl
last?-last_or x (y ∷ points) = last?-last_or y points

-- The first and the last point of a window that is not empty are drawn.
pub downsample_ends :
    (p : Point) (points : List Point)
    → (head? (downsample (p ∷ points)) ≡ some p)
      × (last? (downsample (p ∷ points)) ≡ last? (p ∷ points))
unfolding downsample
downsample_ends p points = elim (Bool-cases (leb (length (p ∷ points)) max_render_points)) [
  | inl e ↦ rw e (refl, refl)
  | inr e ↦ rw e (
    rw (pick-cons (render_step (length (p ∷ points))) (length (p ∷ points) - 1) 0 p points)
        (ground (arith, zero-mod (render_step (length (p ∷ points))))),
    last-pick (render_step (length (p ∷ points))) (length (p ∷ points) - 1) 0 p points (omega arith)
        ∙ sym (last?-last_or p points),
  )
]
