-- ===== src/App/StatusChange.antt =====
-- frontend/src/App.tsx, components/ThreatTable.tsx and hooks/useThreatSocket.ts together: what the
-- table shows once the server has taken the change of a status.
use mathlib.Core.Path.{subst}
use threat_lens.Base.{
  ◌≡◌, refl, All, Bool, Bool-cases, List, Text, [], ap, filter, inl, inr, map, not, none, text_eq,
  true, false, sym, ◌⊎◌, ◌∷◌,
}
use threat_lens.Types.{Alert, AlertStatus}
use threat_lens.Socket.{Hook, set_status, update_alert_status}
use threat_lens.Socket.Buffer.{ids, ids-map-set_status}
use threat_lens.Dashboard.{View, archive_mode, live_mode}
use threat_lens.Table.Menu.{Menu, status_answered}
use threat_lens.Table.Pause.{Stream, displayed, handle_resume, is_paused, resume_live, settle}
use threat_lens.App.{passed_alerts}

abbrev pub of_flow : Text → Alert → Bool
of_flow flow a = text_eq a.flow_id flow

-- On the rows of the flow the change sets the status, and it leaves the other rows alone.
rows_of_flow :
    (flow : Text) (st : AlertStatus) (xs : List Alert)
    → All (λ a. a.status ≡ st) (filter (of_flow flow) (map (set_status flow st) xs))
unfolding set_status
rows_of_flow flow st [] = tt
rows_of_flow flow st (x ∷ xs) = elim (Bool-cases (text_eq x.flow_id flow)) [
  | inl e ↦ rw (e, e) (refl, rows_of_flow flow st xs)
  | inr e ↦ rw (e, e) (rows_of_flow flow st xs)
]

other_rows :
    (flow : Text) (st : AlertStatus) (xs : List Alert)
    → filter (λ a. not (of_flow flow a)) (map (set_status flow st) xs)
      ≡ filter (λ a. not (of_flow flow a)) xs
unfolding set_status
other_rows flow st [] = refl
other_rows flow st (x ∷ xs) = elim (Bool-cases (text_eq x.flow_id flow)) [
  | inl e ↦ rw (e, e) (other_rows flow st xs)
  | inr e ↦ rw (e, e) (ap (◌∷◌ x) (other_rows flow st xs))
]

-- The rows before filtering: what the table shows of the alerts that it gets, in the live view.
abbrev pub live_rows : (drawer : Bool) → View → List Alert → Stream → List Alert
live_rows drawer v alerts s =
    displayed (is_paused true drawer s) (passed_alerts none (record v { mode = live_mode }) alerts)
      s

-- The rows `after` are the rows `before` with the status set on those of the flow.
pub record IsChanged (flow : Text) (st : AlertStatus) (before after : List Alert) : Type 0 where
  pub on_flow : All (λ a. a.status ≡ st) (filter (of_flow flow) after)
  pub elsewhere :
      filter (λ a. not (of_flow flow a)) after ≡ filter (λ a. not (of_flow flow a)) before
  pub in_order : ids after ≡ ids before

map-IsChanged :
    (flow : Text) (st : AlertStatus) (xs : List Alert)
    → IsChanged flow st xs (map (set_status flow st) xs)
map-IsChanged flow st xs = record {
  on_flow = rows_of_flow flow st xs;
  elsewhere = other_rows flow st xs;
  in_order = ids-map-set_status flow st xs;
}

-- Once the server has taken a change of status, a live table that is not paused shows the new status
-- in each row of the flow, the rows of other flows as before, and its rows in their order. A table
-- that is paused shows its rows as they were, until Resume is pressed: then it shows the changed
-- ones too. The alerts of a page of the archive are not changed. This is without the override that
-- empties the table.
pub status_change_shown :
    (v : View) (alert : Alert) (st : AlertStatus) (m : Menu) (hook : Hook) (drawer : Bool)
    (s : Stream)
    → let after = (status_answered true alert st (m, hook)).1.alerts in
      let resumed = settle true drawer after (handle_resume after s) in
      let archive_view = record v { mode = archive_mode } in
      ((is_paused true drawer s ≡ false)
          × IsChanged alert.flow_id st hook.alerts (live_rows drawer v after s)
          × (live_rows drawer v hook.alerts s ≡ hook.alerts)
        ⊎ (is_paused true drawer s ≡ true)
          × (live_rows drawer v after s ≡ live_rows drawer v hook.alerts s))
      × IsChanged alert.flow_id st hook.alerts (live_rows drawer v after resumed)
      × (passed_alerts none archive_view after ≡ passed_alerts none archive_view hook.alerts)
unfolding passed_alerts status_answered update_alert_status displayed
status_change_shown v alert st m hook drawer s =
    let after = map (set_status alert.flow_id st) hook.alerts in
    (
      elim (Bool-cases (is_paused true drawer s)) [
        | inl e ↦ inr (e, rw e refl)
        | inr e ↦ inl (e, rw e (map-IsChanged alert.flow_id st hook.alerts), rw e refl)
      ],
      subst (IsChanged alert.flow_id st hook.alerts) (sym (resume_live true drawer after s))
          (map-IsChanged alert.flow_id st hook.alerts),
      refl,
    )
