-- ===== src/Replay/Sizes.antt =====
-- `formatBytes` of frontend/src/components/ReplayModal.tsx. Dividing by 1024 or its square is exact
-- in floating point, so that `toFixed` rounds the exact quotient, half up.
use threat_lens.Base.{
  ◌≡◌, refl, arith, Bool-cases, if◌then◌else◌, inl, inr, ltb, ℕ, ◌*◌, ◌+◌, ◌/◌, ◌<◌, ◌≤◌,
}

-- The unit and the number shown: bytes, tenths of a KB, hundredths of an MB.
pub data Size : Type 0 where
  bytes_shown : ℕ → Size
  tenths_kb : ℕ → Size
  hundredths_mb : ℕ → Size

unfoldable pub format_bytes : ℕ → Size
format_bytes bytes =
    if ltb bytes 1024
    then bytes_shown bytes
    else if ltb bytes (1024 * 1024)
    then tenths_kb ((bytes * 10 + 512) / 1024)
    else hundredths_mb ((bytes * 100 + 524288) / 1048576)

-- The number shown is nearest to the size, in the unit shown.
abbrev pub IsNearest : ℕ → Size → Type 0
IsNearest bytes (bytes_shown n) = n ≡ bytes
IsNearest bytes (tenths_kb n) = (n * 1024 ≤ bytes * 10 + 512) × (bytes * 10 < n * 1024 + 512)
IsNearest bytes (hundredths_mb n) =
    (n * 1048576 ≤ bytes * 100 + 524288) × (bytes * 100 < n * 1048576 + 524288)

-- The size that is shown differs from the size of the capture by at most half of the last digit.
pub format_bytes-IsNearest : (bytes : ℕ) → IsNearest bytes (format_bytes bytes)
unfolding format_bytes
format_bytes-IsNearest bytes = elim (Bool-cases (ltb bytes 1024)) [
  | inl e ↦ rw e refl
  | inr e ↦ rw e (elim (Bool-cases (ltb bytes (1024 * 1024))) [
    | inl q ↦ rw q (omega arith, omega arith)
    | inr q ↦ rw q (omega arith, omega arith)
  ])
]
