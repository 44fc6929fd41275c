-- ===== src/Table/Body.antt =====
-- frontend/src/components/ThreatTable.tsx: what the table shows around and instead of its rows.
use threat_lens.Base.{
  ◌≡◌, refl, List, codes, Bool, Option, Text, [], false, filter, if◌then◌else◌, length, ltb, none,
  some, ℕ, ◌&&◌, ◌++◌, ◌/◌, ◌==◌, ◌∷◌, ap, ◌∙◌,
}
use threat_lens.Types.{Alert}
use threat_lens.Table.Filter.{
  Filters, SeverityFilter, clear_filters, clear_from_empty, filtered_alerts, only_critical,
  only_high, clear_at,
}
use threat_lens.Table.FilterLaws.{filtered-clear}

-- The banner of a paused stream: the number of new alerts, and whether it is capped.
abbrev pub pending_text : (print : ℕ → Text) → ℕ → Text
pending_text print n =
    (if ltb 99 n then codes "99+" else print n)
    ++ (codes " new alert" ++ ((if n == 1 then [] else codes "s") ++ codes " · Stream paused"))

unfoldable pub pause_banner : (print : ℕ → Text) → (paused : Bool) → ℕ → Option Text
pause_banner print paused pending =
    if paused && ltb 0 pending then some (pending_text print pending) else none

-- The message and the button of a table without rows.
pub record EmptyTable : Type 0 where
  pub message : Text
  pub clear_button : Option Text

abbrev pub severity_name : SeverityFilter → Text
severity_name only_critical = codes "critical"
severity_name only_high = codes "high"

abbrev pub empty_message : (print : ℕ → Text) → Option SeverityFilter → List Alert → Text
empty_message print filter [] = codes "Waiting for telemetry"
empty_message print none (a ∷ alerts) = codes "No alerts match these filters"
empty_message print (some severity) (a ∷ alerts) =
    codes "No "
    ++ (severity_name severity
        ++ (codes " alerts in the current "
            ++ (print (length (a ∷ alerts)) ++ codes "-alert buffer")))

abbrev pub clear_label : Option SeverityFilter → List Alert → Option Text
clear_label filter [] = none
clear_label none (a ∷ alerts) = some (codes "Clear filters")
clear_label (some severity) (a ∷ alerts) = some (codes "Clear severity filter")

-- The body: a message, or the rows of the alerts that pass.
pub data Body : Type 0 where
  empty_body : EmptyTable → Body
  rows : List Alert → Body

abbrev pub body_of :
    (print : ℕ → Text) → Option SeverityFilter → (alerts filtered : List Alert) → Body
body_of print severity alerts [] = empty_body (record {
  message = empty_message print severity alerts;
  clear_button = clear_label severity alerts;
})
body_of print severity alerts (a ∷ filtered) = rows (a ∷ filtered)

module _ (parse_date : Text → Option ℕ) (print : ℕ → Text) where
  unfoldable pub table_body : (forced_empty : Bool) → Filters → List Alert → Body
  unfolding filtered_alerts
  table_body forced_empty f alerts =
      body_of print f.severity_filter alerts (filtered_alerts parse_date forced_empty f alerts)

  -- `(minConfidence * 100).toFixed(0)` for a multiple of 0.05, in ten-thousandths.
  abbrev pub confidence_label : Filters → Text
  confidence_label f = print (f.min_confidence / 100) ++ codes "%"

cleared_at :
    (o : Option SeverityFilter) (f : Filters)
    → f.severity_filter ≡ o
    → clear_from_empty (clear_at o f) ≡ clear_filters f
unfolding clear_from_empty clear_filters
cleared_at (some severity) f h = refl
cleared_at none f h = rw h refl

twice_clears : (f : Filters) → clear_from_empty (clear_from_empty f) ≡ clear_filters f
unfolding clear_from_empty
twice_clears f = cleared_at f.severity_filter f refl

-- Two presses on the button of a table without rows, the first of which may clear the severity
-- alone, lead to a table that shows every alert there is.
pub cleared_body :
    (parse_date : Text → Option ℕ) (print : ℕ → Text) (f : Filters) (a : Alert)
    (alerts : List Alert)
    → table_body parse_date print false (clear_from_empty (clear_from_empty f)) (a ∷ alerts)
      ≡ rows (a ∷ alerts)
unfolding table_body
cleared_body parse_date print f a alerts =
    ap (λ g. table_body parse_date print false g (a ∷ alerts)) (twice_clears f)
    ∙ ap (body_of print (clear_filters f).severity_filter (a ∷ alerts))
        (filtered-clear parse_date f (a ∷ alerts))
