-- ===== src/Session/Logs.antt =====
-- frontend/src/components/LoginPage.tsx: the stream of sample log lines behind the login form.
use threat_lens.Base.{
  ◌≡◌, refl, Bool, List, [], arith, drop, false, if◌then◌else◌, length, length-append, ltb, not,
  true, ℕ, ◌%◌, ◌++◌, ◌+◌, ◌∷◌, length-drop,
}

pub record LogItem : Type 0 where
  pub id : ℕ
  pub line : ℕ

-- The number of templates; a line is named by its index among them.
abbrev pub template_count : ℕ
template_count = 10

pub record LogStream : Type 0 where
  pub counter : ℕ
  pub running : Bool
  pub visible : List LogItem

abbrev item : ℕ → LogItem
item n = record { id = n; line = n }

abbrev pub initial_logs : LogStream
initial_logs = record {
  counter = 5;
  running = true;
  visible = item 0 ∷ item 1 ∷ item 2 ∷ item 3 ∷ item 4 ∷ [];
}

-- `if (next.length > 5) next.shift()`
abbrev shift_past_five : List LogItem → List LogItem
shift_past_five items = if ltb 5 (length items) then drop 1 items else items

-- A tick of the interval.
unfoldable pub log_tick : (hidden : Bool) → LogStream → LogStream
log_tick true s = s
log_tick false s = record s {
  counter = s.counter + 1;
  visible =
      shift_past_five
        (s.visible ++ record { id = s.counter; line = s.counter % template_count } ∷ []);
}

-- `onVisibilityChange`: the timer runs while the page is visible, and is never started twice.
unfoldable pub visibility_changed : (hidden : Bool) → LogStream → LogStream
visibility_changed hidden s = record s { running = not hidden }

-- Consecutive identifiers that end below the counter.
abbrev pub IsRun : ℕ → List LogItem → Type 0
IsRun end [] = Unit {0}
IsRun end (x ∷ xs) =
    (x.id + length (x ∷ xs) ≡ end) × (x.line ≡ x.id % template_count) × IsRun end xs

pub record IsStream (s : LogStream) : Type 0 where
  pub five : length s.visible ≡ 5
  pub run : IsRun s.counter s.visible

IsRun-snoc :
    (n : ℕ) (xs : List LogItem)
    → IsRun n xs
    → IsRun (n + 1) (xs ++ record { id = n; line = n % template_count } ∷ [])
IsRun-snoc n [] h = (omega arith, refl, tt)
IsRun-snoc n (x ∷ xs) h = (
  omega (arith, h.0, length-append xs (record { id = n; line = n % template_count } ∷ [])),
  h.1,
  IsRun-snoc n xs h.2,
)

IsRun-drop : (n : ℕ) (xs : List LogItem) → IsRun n xs → IsRun n (drop 1 xs)
IsRun-drop n [] h = tt
IsRun-drop n (x ∷ xs) h = h.2

-- The form shows five lines at any time, the last five of the numbered stream, in order, each the
-- template whose index is its number modulo ten.
pub log_tick-IsStream : (hidden : Bool) (s : LogStream) → IsStream s → IsStream (log_tick hidden s)
unfolding log_tick
log_tick-IsStream true s h = h
log_tick-IsStream false s h =
    let longer = s.visible ++ record { id = s.counter; line = s.counter % template_count } ∷ [] in
    let six : length longer ≡ 6 = omega (
      arith,
      h.five,
      length-append s.visible (record { id = s.counter; line = s.counter % template_count } ∷ []),
    ) in
    let full : ltb 5 (length longer) ≡ true = ground arith in
    record {
      five = rw full (omega (arith, six, length-drop 1 longer));
      run = rw full (IsRun-drop (s.counter + 1) longer (IsRun-snoc s.counter s.visible h.run));
    }
