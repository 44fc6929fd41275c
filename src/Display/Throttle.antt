-- ===== src/Display/Throttle.antt =====
-- frontend/src/components/AnimatedNumber.tsx: the number shown follows the value at most four times
-- a second. Times are whole milliseconds.
use threat_lens.Base.{
  ◌≡◌, refl, arith, Bool-cases, Option, if◌then◌else◌, inl, inr, ltb, none, some, ℕ, ◌+◌, ◌-◌, ◌≤◌,
  ◌⊎◌,
}

-- The number shown, when it was set, and the pending timeout: when it is due and what it sets.
pub record Number : Type 0 where
  pub target_value : ℕ
  pub last_update : ℕ
  pub timer : Option (ℕ × ℕ)

abbrev pub initial_number : ℕ → Number
initial_number value = record { target_value = value; last_update = 0; timer = none }

-- The effect on `value`, behind the cleanup that clears the timeout of the effect before it.
unfoldable pub value_changed : (now value : ℕ) → Number → Number
value_changed now value s =
    if ltb (now - s.last_update) 250
    then record s { timer = some (now + (250 - (now - s.last_update)), value) }
    else record { target_value = value; last_update = now; timer = none }

-- The timeout, at the time it runs.
abbrev pub fire : Option (ℕ × ℕ) → (now : ℕ) → Number → Number
fire none now s = s
fire (some timer) now s = record { target_value = timer.1; last_update = now; timer = none }

unfoldable pub timer_fired : (now : ℕ) → Number → Number
timer_fired now s = fire s.timer now s

-- What the component is asked to show; a timeout does not change it.
pub data Change : Type 0 where
  changed : (now value : ℕ) → Change
  fired : (now : ℕ) → Change

-- The clock does not run backwards, and a timeout runs when it is due or later.
abbrev pub IsDue : Option (ℕ × ℕ) → ℕ → Type 0
IsDue none now = ⊥
IsDue (some timer) now = timer.0 ≤ now

abbrev pub Enabled : Change → Number → Type 0
Enabled (changed now value) s = s.last_update ≤ now
Enabled (fired now) s = IsDue s.timer now

abbrev pub happen : Change → Number → Number
happen (changed now value) s = value_changed now value s
happen (fired now) s = timer_fired now s

-- The value that the component was given last.
abbrev pub given : Change → ℕ → ℕ
given (changed now value) before = value
given (fired now) before = before

-- The number shown is the value, or a timeout is pending that sets it, 250 ms behind the last change.
abbrev pub IsFollowing : ℕ → Number → Option (ℕ × ℕ) → Type 0
IsFollowing value s none = s.target_value ≡ value
IsFollowing value s (some timer) = (timer.1 ≡ value) × (timer.0 ≡ s.last_update + 250)

fire-IsFollowing :
    (o : Option (ℕ × ℕ)) (now value : ℕ) (s : Number)
    → IsFollowing value s o
    → IsDue o now
    → IsFollowing value (fire o now s) (fire o now s).timer
      × (((fire o now s).last_update ≡ s.last_update)
          ⊎ (s.last_update + 250 ≤ (fire o now s).last_update))
fire-IsFollowing none now value s i h = absurd h
fire-IsFollowing (some timer) now value s i h = (i.0, inr (omega (arith, i.1, h)))

-- Whenever the value changes or the timeout runs, the number shown is the value or a pending timeout
-- is going to set it, and the number shown was set 250 ms after its last change or not at all.
pub happen-IsFollowing :
    (e : Change) (value : ℕ) (s : Number)
    → IsFollowing value s s.timer
    → Enabled e s
    → IsFollowing (given e value) (happen e s) (happen e s).timer
      × (((happen e s).last_update ≡ s.last_update)
          ⊎ (s.last_update + 250 ≤ (happen e s).last_update))
unfolding value_changed timer_fired
happen-IsFollowing (changed now new_value) value s i h =
    elim (Bool-cases (ltb (now - s.last_update) 250)) [
      | inl e ↦ rw e ((refl, ground arith), inl refl)
      | inr e ↦ rw e (refl, inr (ground arith))
    ]
happen-IsFollowing (fired now) value s i h = fire-IsFollowing s.timer now value s i h
