-- ===== src/Server.antt =====
-- backend/ and engine/: the parts of the service that the client talks to, over the same records as
-- the client: a JSON body and the model object behind it are one record, and a datetime is the text
-- that it is sent as. `Result` is what a handler answers: a body, or the status and detail of the
-- HTTPException that it raises.
pub mod Archive
pub mod Pages
pub mod Agree
pub mod Agreement
pub mod Exchanges
pub mod Suppression
pub mod Routes
pub mod Keeping
pub mod Silence
pub mod Undoing
pub mod Incidents
pub mod Grouping
pub mod Overview
pub mod Correlation
pub mod Thresholds
pub mod Changes
pub mod Bounds
pub mod Resaving
mod Tests
mod RowTests
mod OrderTests
use threat_lens.Base.{Bool, Text, false, true, ℕ}

pub data Result {ℓ} (A : Type ℓ) : Type ℓ where
  ok : A → Result A
  refused : (status_code : ℕ) → (detail : Text) → Result A

infixl 5 ◌>>=◌
abbrev pub ◌>>=◌ {ℓ κ} : {A : Type ℓ} {B : Type κ} → Result A → (A → Result B) → Result B
ok a >>= f = f a
refused status_code detail >>= f = refused status_code detail

abbrev pub is_ok {ℓ} : {A : Type ℓ} → Result A → Bool
is_ok (ok a) = true
is_ok (refused status_code detail) = false
