-- ===== src/Table/Pause.antt =====
-- frontend/src/components/ThreatTable.tsx: the stream pauses while the pointer is over the table,
-- a row or a status menu has the focus, or the drawer is open; meanwhile a snapshot is shown.
use threat_lens.Base.{
  ◌≡◌, refl, Bool, List, Text, [], codes, false, filter, if◌then◌else◌, length, map, not, true, ℕ,
  ◌&&◌, ◌||◌, ◌∷◌, ap, All, append-nil, arith, ◌++◌,
}
use threat_lens.Base.StringLaws.{text_eq_refl}
use threat_lens.Base.Sets.{member}
use threat_lens.Types.{Alert, get_alert_identity}

-- `leave_pending` says whether the 300 ms timeout of `unpauseTimerRef` is pending.
pub record Stream : Type 0 where
  pub hovering : Bool
  pub row_focused : Bool
  pub dropdown_open : Bool
  pub leave_pending : Bool
  pub was_paused : Bool
  pub snapshot : List Alert
  pub announcement : Text

abbrev pub initial_stream : List Alert → Stream
initial_stream alerts = record {
  hovering = false;
  row_focused = false;
  dropdown_open = false;
  leave_pending = false;
  was_paused = false;
  snapshot = alerts;
  announcement = [];
}

-- `isPaused`: `live_view` is `viewMode === "live"`, `drawer` is `selectedAlert !== null`.
unfoldable pub is_paused : (live_view drawer : Bool) → Stream → Bool
is_paused live_view drawer s =
    live_view && (s.hovering || s.row_focused || s.dropdown_open || drawer)

-- The effect that keeps the snapshot.
unfoldable pub pause_effect : (paused : Bool) → List Alert → Stream → Stream
pause_effect true alerts s =
    if s.was_paused
    then s
    else record s { snapshot = alerts; announcement = codes "Stream paused"; was_paused = true }
pause_effect false alerts s =
    if s.was_paused then record s { snapshot = alerts; was_paused = false } else s

-- `alertsToDisplay`
unfoldable pub displayed : (paused : Bool) → List Alert → Stream → List Alert
displayed paused alerts s = if paused then s.snapshot else alerts

-- `pendingCount`
unfoldable pub pending_count : (paused : Bool) → List Alert → Stream → ℕ
unfolding member
pending_count paused alerts s =
    if paused
    then length (
        filter (λ a. not (member (get_alert_identity a) (map get_alert_identity s.snapshot)))
          alerts)
    else 0

unfoldable pub handle_resume : List Alert → Stream → Stream
handle_resume alerts s = record s {
  hovering = false;
  row_focused = false;
  snapshot = alerts;
  announcement = codes "Stream resumed";
}

unfoldable pub mouse_enter : Stream → Stream
mouse_enter s = record s { leave_pending = false; hovering = true }

unfoldable pub mouse_leave : Stream → Stream
mouse_leave s = record s { leave_pending = true }

-- The timeout that `mouse_leave` sets.
unfoldable pub leave_fired : Stream → Stream
leave_fired s = record s { hovering = false; leave_pending = false }

-- A render with new alerts, and the effect that runs behind it.
abbrev pub settle : (live_view drawer : Bool) → List Alert → Stream → Stream
settle live_view drawer alerts s = pause_effect (is_paused live_view drawer s) alerts s

-- What the user and the timeout of `mouse_leave` do to the stream, Resume left out: the table, a row or
-- a status menu is entered or left.
pub data Change : Type 0 where
  nothing entered left leave_timed_out : Change
  row_focus menu_focus : Bool → Change

abbrev pub changed : Change → Stream → Stream
changed nothing s = s
changed entered s = mouse_enter s
changed left s = mouse_leave s
changed leave_timed_out s = leave_fired s
changed (row_focus on) s = record s { row_focused = on }
changed (menu_focus on) s = record s { dropdown_open = on }

-- A change, and the render behind it: of the live view or not, with a drawer or without, with the
-- alerts that have arrived by then.
pub record Turn : Type 0 where
  pub change : Change
  pub live_view : Bool
  pub drawer : Bool
  pub alerts : List Alert

abbrev pub turn : Turn → Stream → Stream
turn t s = settle t.live_view t.drawer t.alerts (changed t.change s)

unfoldable pub turns : List Turn → Stream → Stream
unfolding pause_effect is_paused mouse_enter mouse_leave leave_fired
turns [] s = s
turns (t ∷ later) s = turns later (turn t s)

-- The stream is paused at each of the turns.
abbrev pub StaysPaused : List Turn → Stream → Type 0
StaysPaused [] s = Unit
StaysPaused (t ∷ later) s =
    (is_paused t.live_view t.drawer (changed t.change s) ≡ true) × StaysPaused later (turn t s)

abbrev paused_at : List Alert → Stream → Stream
paused_at first s = record s {
  snapshot = first;
  announcement = codes "Stream paused";
  was_paused = true;
}

-- After Resume and the render behind it the table shows the live alerts, also where an open
-- drawer or menu keeps the stream paused.
pub resume_live :
    (live_view drawer : Bool) (alerts : List Alert) (s : Stream)
    → displayed
        (is_paused live_view drawer (settle live_view drawer alerts (handle_resume alerts s)))
        alerts
        (settle live_view drawer alerts (handle_resume alerts s))
      ≡ alerts
unfolding displayed handle_resume pause_effect is_paused
resume_live live_view drawer alerts s = ground arith

-- What the banner counts is what the snapshot lacks: nothing of the snapshot itself, and the
-- alerts that arrived in front of it, each once, if their identities are new.
filter-member :
    (xs : List Alert) (ks : List Text)
    → All (λ x. member (get_alert_identity x) ks ≡ true) xs
    → filter (λ a. not (member (get_alert_identity a) ks)) xs ≡ []
filter-member [] ks h = refl
filter-member (x ∷ xs) ks h = rw h.0 (filter-member xs ks h.1)

filter-absent :
    (xs ys : List Alert) (ks : List Text)
    → All (λ x. member (get_alert_identity x) ks ≡ false) xs
    → filter (λ a. not (member (get_alert_identity a) ks)) (xs ++ ys)
      ≡ xs ++ filter (λ a. not (member (get_alert_identity a) ks)) ys
filter-absent [] ys ks h = refl
filter-absent (x ∷ xs) ys ks h = rw h.0 (ap (◌∷◌ x) (filter-absent xs ys ks h.1))

All-member_cons :
    (k : Text) (ks : List Text) (xs : List Alert)
    → All (λ x. member (get_alert_identity x) ks ≡ true) xs
    → All (λ x. member (get_alert_identity x) (k ∷ ks) ≡ true) xs
unfolding member
All-member_cons k ks [] h = tt
All-member_cons k ks (x ∷ xs) h = (ground arith, All-member_cons k ks xs h.1)

All-member_self :
    (xs : List Alert)
    → All (λ x. member (get_alert_identity x) (map get_alert_identity xs) ≡ true) xs
All-member_self [] = tt
All-member_self (x ∷ xs) = (
  unfold member in ground (arith, text_eq_refl (get_alert_identity x)),
  All-member_cons (get_alert_identity x) (map get_alert_identity xs) xs (All-member_self xs),
)

-- With new alerts in front of the paused snapshot, the banner counts exactly those, provided that
-- their identities are not in the snapshot.
pub pending_count_arrived :
    (s : Stream) (arrived : List Alert)
    → All (λ a. member (get_alert_identity a) (map get_alert_identity s.snapshot) ≡ false) arrived
    → pending_count true (arrived ++ s.snapshot) s ≡ length arrived
unfolding pending_count
pending_count_arrived s arrived h =
    rw (filter-absent arrived s.snapshot (map get_alert_identity s.snapshot) h) (
      rw (filter-member s.snapshot (map get_alert_identity s.snapshot) (All-member_self s.snapshot))
        (rw append-nil))
