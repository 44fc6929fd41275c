-- ===== src/Base/StringLaws.antt =====
-- What the operations on texts promise.
use threat_lens.Base.{
  ◌≡◌, refl, ◌↔◌, true, false, [], ◌∷◌, arith, Text, text_eq, starts_with, includes, ◌≢◌,
}

pub text_eq_refl : (s : Text) → text_eq s s ≡ true
unfolding text_eq
text_eq_refl [] = refl
text_eq_refl (c ∷ s) = ground (arith, text_eq_refl s)

pub eq_of_text_eq : (s t : Text) → text_eq s t ≡ true → s ≡ t
unfolding text_eq
eq_of_text_eq [] [] h = refl
eq_of_text_eq (a ∷ s) (b ∷ t) h = ground (arith, eq_of_text_eq s t)
eq_of_text_eq [] (b ∷ t) h = cc
eq_of_text_eq (a ∷ s) [] h = cc

pub text_eq_iff : (s t : Text) → (text_eq s t ≡ true) ↔ (s ≡ t)
text_eq_iff s t = (eq_of_text_eq s t, λ e. rw e (text_eq_refl t))

pub text_eq-false : (s t : Text) → s ≢ t → text_eq s t ≡ false
text_eq-false s t h = ground (arith, eq_of_text_eq s t)

-- Every text begins with the empty one and includes it.
pub starts_with_nil : (s : Text) → starts_with s [] ≡ true
unfolding starts_with
starts_with_nil [] = refl
starts_with_nil (c ∷ s) = refl

pub includes_nil : (s : Text) → includes s [] ≡ true
unfolding includes
includes_nil [] = refl
includes_nil (c ∷ s) = refl

pub starts_with_self : (s : Text) → starts_with s s ≡ true
unfolding starts_with
starts_with_self [] = refl
starts_with_self (c ∷ s) = ground (arith, starts_with_self s)

pub includes_self : (s : Text) → includes s s ≡ true
unfolding includes
includes_self [] = refl
includes_self (c ∷ s) = ground (arith, starts_with_self (c ∷ s))
