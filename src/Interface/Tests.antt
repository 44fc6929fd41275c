-- ===== src/Interface/Tests.antt =====
-- The primitives at concrete values.
use threat_lens.Base.{◌≡◌, refl, [], ◌∷◌, codes, false, none, true, text_eq}
use threat_lens.Interface.{
  closed_sheets, escape_pressed, initial_tabs, is_active, set_open, handle_value_change,
  active_value, sheet_cleanup, sheet_effect,
}
use threat_lens.Interface.Locking.{AllClosed, IsHeld, all_closed, changed, sheets-IsHeld}

second_tab :
    is_active
      (handle_value_change (codes "suppressions") (initial_tabs none (codes "thresholds")))
      (codes "suppressions")
    ≡ true
unfolding is_active active_value handle_value_change initial_tabs text_eq
second_tab = refl

-- Where the second of two open sheets is closed, the page is free although the first is open.
free_too_early :
    ((set_open 1 false (set_open 1 true (set_open 0 true closed_sheets))).locked ≡ false)
    × ((set_open 1 false (set_open 1 true (set_open 0 true closed_sheets))).is_open 0 ≡ true)
unfolding set_open sheet_cleanup sheet_effect
free_too_early = (refl, refl)

sheets-IsHeld_example :
    IsHeld (set_open 1 true (set_open 0 true closed_sheets))
    × AllClosed
        (0 ∷ 1 ∷ [])
        (escape_pressed (0 ∷ 1 ∷ []) (set_open 1 true (set_open 0 true closed_sheets)))
sheets-IsHeld_example = sheets-IsHeld (changed (changed all_closed 0 true) 1 true) (0 ∷ 1 ∷ [])
