-- ===== src/Base/Options.antt =====
-- Options and Booleans that differ, for proofs whose terms are too large for a tactic.
use threat_lens.Base.{◌≡◌, ap, false, none, or_default, some, true}

pub none-ne-some {ℓ} : {A : Type ℓ} {a : A} → ¬ (none ≡ some a)
none-ne-some h = cc

pub true-ne-false : ¬ (true ≡ false)
true-ne-false h = cc

pub some_eq {ℓ} : {A : Type ℓ} {a b : A} → some a ≡ some b → a ≡ b
some_eq {a} h = ap (λ o. or_default o a) h
