-- ===== src/Display/Cells.antt =====
-- frontend/src/components/SystemHealthPanel.tsx and LoginModal.tsx: what the panel and the dialog
-- show. `to_fixed` is `x.toFixed(digits)` of a rate or a latency.
use threat_lens.Base.{
  Bool, List, Option, Text, [], codes, if◌then◌else◌, none, some, text_eq, ℕ, ◌++◌, ◌∷◌, true,
}
use threat_lens.Display.Health.{Panel, active_fallback_service, fallback_active, shows_banner}
use threat_lens.Display.Modal.{LoginDialog}

-- The banner about the fallback store, and the press of its cross.
unfoldable pub fallback_banner : Panel → Option Text
unfolding fallback_active active_fallback_service
fallback_banner s =
    if shows_banner s
    then some (
        codes "STORAGE FALLBACK: Operating on in-memory ring buffer ("
        ++ (active_fallback_service s.health
            ++ codes "). Connect persistent storage for archiving."))
    else none

abbrev pub dismissed : Panel → Panel
dismissed s = record s { banner_dismissed = true }

module _ (to_fixed : (digits value : ℕ) → Text) where
  abbrev rate_text : ℕ → Option ℕ → Text
  rate_text digits none = codes "N/A"
  rate_text digits (some x) = to_fixed digits x

  abbrev delay_text : Option ℕ → Text
  delay_text none = codes "N/A"
  delay_text (some x) = to_fixed 2 x ++ codes " ms"

  -- The five cells: a label and a value.
  unfoldable pub pipeline_cells : Panel → List (Text × Text)
  pipeline_cells s =
      (codes "Ingest Mode", codes "zero-egress read-only")
      ∷ (codes "Flows / Sec", rate_text 2 s.metrics.flows_per_sec)
      ∷ (codes "Bandwidth", rate_text 3 s.metrics.megabits_per_sec ++ codes " Mbps")
      ∷ (codes "Pipeline Delay", delay_text s.health.processing_latency)
      ∷ (codes "Return Path", codes "None read-only")
      ∷ []

-- The dialog: the handlers of its fields, the role that it announces, the error, and the button that
-- sends it with whether that is disabled.
abbrev pub name_typed : Text → LoginDialog → LoginDialog
name_typed text s = record s { username = text }

abbrev pub secret_typed : Text → LoginDialog → LoginDialog
secret_typed text s = record s { password = text }

unfoldable pub target_role : LoginDialog → Text
unfolding text_eq
target_role s =
    if text_eq s.username (codes "admin")
    then codes "SOC_ADMIN (Full Access)"
    else codes "SOC_ANALYST (Monitoring)"

-- Its error, behind a warning sign.
unfoldable pub dialog_error : LoginDialog → Option Text
dialog_error s = elim s.error [
  | none ↦ none
  | some e ↦ (elim e [ [] ↦ none | (c ∷ text) ↦ some (c ∷ text) ])
]

abbrev pub sign_in_button : LoginDialog → Text × Bool
sign_in_button s =
    (if s.loading then codes "AUTHENTICATING..." else codes "SIGN IN TO SOC", s.loading)
