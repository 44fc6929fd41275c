-- ===== src/Interface/Locking.antt =====
-- The sheets of frontend/src/components/ui/sheet.tsx, opened and closed in any order: which of them
-- hear the key Escape, and when the page behind them may be locked.
use mathlib.Core.Path.{subst}
use threat_lens.Base.{
  ◌≡◌, refl, ap, All, Bool, Bool-cases, List, [], arith, false, inl, inr, true, ℕ, ◌==◌, ◌⊎◌, ◌∷◌,
  ◌∙◌, sym,
}
use threat_lens.Interface.{
  Sheets, closed_sheets, escape_pressed, render_again, same_bool, set_at, set_open, sheet_cleanup,
  sheet_effect,
}

pub data Reach : Sheets → Type 0 where
  all_closed : Reach closed_sheets
  changed : {s : Sheets} → Reach s → (id : ℕ) → (opens : Bool) → Reach (set_open id opens s)
  rendered : {s : Sheets} → Reach s → (id : ℕ) → Reach (render_again id s)
  escaped : {s : Sheets} → Reach s → (ids : List ℕ) → Reach (escape_pressed ids s)

-- Exactly the open sheets listen, and the page is locked only while one is open.
pub record IsHeld (s : Sheets) : Type 0 where
  pub listening : (i : ℕ) → s.listens i ≡ s.is_open i
  pub held : (s.locked ≡ false) ⊎ ((i : ℕ) × (s.is_open i ≡ true))

-- A sheet whose effect has run again, the other sheets as before.
effect_again :
    (id : ℕ) (b : Bool) (s : Sheets) (is_open : ℕ → Bool)
    → is_open id ≡ b
    → ((i : ℕ) → (i == id) ≡ false → s.listens i ≡ is_open i)
    → IsHeld (sheet_effect b id (sheet_cleanup id (record s { is_open = is_open })))
unfolding sheet_cleanup sheet_effect
effect_again id true s is_open e others = record {
  listening = λ i. elim (Bool-cases (i == id)) [
    | inl q ↦ let p : i ≡ id = ground arith in rw q (sym (ap is_open p ∙ e))
    | inr q ↦ rw q (others i q)
  ];
  held = inr (id, e);
}
effect_again id false s is_open e others = record {
  listening = λ i. elim (Bool-cases (i == id)) [
    | inl q ↦ let p : i ≡ id = ground arith in rw q (sym (ap is_open p ∙ e))
    | inr q ↦ rw q (others i q)
  ];
  held = inl refl;
}

set_open-IsHeld : (id : ℕ) (opens : Bool) (s : Sheets) → IsHeld s → IsHeld (set_open id opens s)
unfolding set_open
set_open-IsHeld id opens s h = elim (Bool-cases (same_bool (s.is_open id) opens)) [
  | inl e ↦ rw e h
  | inr e ↦ rw e (
      effect_again id opens s (set_at id opens s.is_open) (ground arith)
        (λ i q. rw q (h.listening i)))
]

render_again-IsHeld : (id : ℕ) (s : Sheets) → IsHeld s → IsHeld (render_again id s)
unfolding render_again
render_again-IsHeld id s h = effect_again id (s.is_open id) s s.is_open refl (λ i q. h.listening i)

escape-IsHeld : (ids : List ℕ) (s : Sheets) → IsHeld s → IsHeld (escape_pressed ids s)
unfolding escape_pressed
escape-IsHeld [] s h = h
escape-IsHeld (id ∷ ids) s h = elim (Bool-cases (s.listens id)) [
  | inl e ↦ rw e (set_open-IsHeld id false (escape_pressed ids s) (escape-IsHeld ids s h))
  | inr e ↦ rw e (escape-IsHeld ids s h)
]

Reach-IsHeld : {s : Sheets} → Reach s → IsHeld s
Reach-IsHeld all_closed = record { listening = λ i. refl; held = inl refl }
Reach-IsHeld (changed {s} r id opens) = set_open-IsHeld id opens s (Reach-IsHeld r)
Reach-IsHeld (rendered {s} r id) = render_again-IsHeld id s (Reach-IsHeld r)
Reach-IsHeld (escaped {s} r ids) = escape-IsHeld ids s (Reach-IsHeld r)

abbrev pub AllClosed : List ℕ → Sheets → Type 0
AllClosed ids s = All (λ j. s.is_open j ≡ false) ids

-- Closing a sheet closes it, and opens no other.
closed_at : (id : ℕ) (s : Sheets) → (set_open id false s).is_open id ≡ false
unfolding set_open sheet_cleanup sheet_effect
closed_at id s = elim (Bool-cases (same_bool (s.is_open id) false)) [
  | inl e ↦ rw e (ground arith)
  | inr e ↦ rw e (ground arith)
]

still_closed :
    (id i : ℕ) (s : Sheets) → s.is_open i ≡ false → (set_open id false s).is_open i ≡ false
unfolding set_open sheet_cleanup sheet_effect
still_closed id i s h = elim (Bool-cases (same_bool (s.is_open id) false)) [
  | inl e ↦ rw e h
  | inr e ↦ rw e (ground arith)
]

escape_opens_none :
    (ids : List ℕ) (i : ℕ) (s : Sheets)
    → s.is_open i ≡ false
    → (escape_pressed ids s).is_open i ≡ false
unfolding escape_pressed
escape_opens_none [] i s h = h
escape_opens_none (id ∷ ids) i s h = elim (Bool-cases (s.listens id)) [
  | inl e ↦ rw e (still_closed id i (escape_pressed ids s) (escape_opens_none ids i s h))
  | inr e ↦ rw e (escape_opens_none ids i s h)
]

all_still_closed :
    (id : ℕ) (js : List ℕ) (s : Sheets) → AllClosed js s → AllClosed js (set_open id false s)
all_still_closed id [] s h = tt
all_still_closed id (j ∷ js) s h = (still_closed id j s h.0, all_still_closed id js s h.1)

escape_on :
    (id : ℕ) (ids : List ℕ) (s : Sheets)
    → s.listens id ≡ true
    → escape_pressed (id ∷ ids) s ≡ set_open id false (escape_pressed ids s)
unfolding escape_pressed
escape_on id ids s e = rw e refl

escape_off :
    (id : ℕ) (ids : List ℕ) (s : Sheets)
    → s.listens id ≡ false
    → escape_pressed (id ∷ ids) s ≡ escape_pressed ids s
unfolding escape_pressed
escape_off id ids s e = rw e refl

escape_closes :
    (ids : List ℕ) (s : Sheets) → IsHeld s → All (λ j. (escape_pressed ids s).is_open j ≡ false) ids
escape_closes [] s h = tt
escape_closes (id ∷ ids) s h = elim (Bool-cases (s.listens id)) [
  | inl e ↦
      let rest = escape_pressed ids s in
      subst (AllClosed (id ∷ ids)) (sym (escape_on id ids s e))
        (closed_at id rest, all_still_closed id ids rest (escape_closes ids s h))
  | inr e ↦
      subst (AllClosed (id ∷ ids)) (sym (escape_off id ids s e))
        (escape_opens_none ids id s (sym (h.listening id) ∙ e), escape_closes ids s h)
]

-- However sheets are opened, closed, rendered again and escaped from, exactly the open ones hear the
-- key Escape, the page behind them is locked only while one of them is open, and the next press of
-- Escape closes every one of the sheets `ids` that are on the page.
pub sheets-IsHeld :
    {s : Sheets}
    → Reach s
    → (ids : List ℕ) → IsHeld s × All (λ j. (escape_pressed ids s).is_open j ≡ false) ids
sheets-IsHeld {s} r ids = (Reach-IsHeld r, escape_closes ids s (Reach-IsHeld r))
