-- ===== src/Dashboard/Archive.antt =====
-- frontend/src/App.tsx: the archive pages. Each run of the effect has its own `mounted` flag, so
-- only the answer to the request of the last run counts; `pending` is that request.
use threat_lens.Base.{
  ◌≡◌, refl, Bool, List, Option, [], ap, arith, drop, false, if◌then◌else◌, length, ltb, none, some,
  suc, take, true, zero, ℕ, ◌*◌, ◌+◌, ◌<◌, ◌==◌, ◌↔◌, ◌∷◌, length-drop, length-take,
}
use threat_lens.Types.{Alert}
use threat_lens.Dashboard.{DevState, ViewMode, archive_error, archive_mode, live_mode}

pub record Archive : Type 0 where
  pub alerts : List Alert
  pub has_next : Bool
  pub pending : Option ℕ
  pub next_request : ℕ

-- The query of a request: `limit` and `offset`.
pub record Query : Type 0 where
  pub limit : ℕ
  pub offset : ℕ

abbrev pub page_size : ℕ
page_size = 50

unfoldable pub archive_query : ℕ → Query
archive_query page = record { limit = 51; offset = page * page_size }

-- The effect on the mode, the page and the override, its cleanup before it included.
unfoldable pub archive_effect : ViewMode → Option DevState → Archive → Archive
archive_effect live_mode dev s = record s { pending = none }
archive_effect archive_mode (some archive_error) s = record s {
  alerts = [];
  has_next = false;
  pending = none;
}
archive_effect archive_mode dev s = record s {
  pending = some s.next_request;
  next_request = s.next_request + 1;
}

abbrev is_pending : Option ℕ → ℕ → Bool
is_pending none i = false
is_pending (some j) i = j == i

-- An answer: `none` is a failed request or a response that is not ok.
unfoldable pub archive_answered : ℕ → Option (List Alert) → Archive → Archive
archive_answered i none s =
    if is_pending s.pending i then record s { alerts = []; has_next = false } else s
archive_answered i (some body) s =
    if is_pending s.pending i
    then record s { alerts = take page_size body; has_next = ltb page_size (length body) }
    else s

-- What the server answers to a query, for the archive `stored`.
abbrev pub page_of : Query → List Alert → List Alert
page_of q stored = take q.limit (drop q.offset stored)

take-take-suc : {A : Type 0} (n : ℕ) (xs : List A) → take n (take (suc n) xs) ≡ take n xs
take-take-suc zero xs = refl
take-take-suc (suc n) [] = refl
take-take-suc (suc n) (x ∷ xs) = ap (◌∷◌ x) (take-take-suc n xs)

-- When a server that answers a query by the slice it asks for answers the pending request of a
-- page, the dashboard shows exactly the alerts of that page, and offers a next page exactly when
-- the archive goes on behind it.
pub archive_page_lem :
    (stored : List Alert) (page i : ℕ) (s : Archive)
    → s.pending ≡ some i
    → ((archive_answered i (some (page_of (archive_query page) stored)) s).alerts
        ≡ take page_size (drop (page * page_size) stored))
      × (((archive_answered i (some (page_of (archive_query page) stored)) s).has_next ≡ true)
          ↔ ((page + 1) * page_size < length stored))
unfolding archive_answered archive_query
archive_page_lem stored page i s p =
    let tail = drop (page * page_size) stored in
    let here : is_pending s.pending i ≡ true = rw p (ground arith) in
    rw here (
      take-take-suc 50 tail,
      (
        λ q. ground (arith, length-take 51 tail, length-drop (page * page_size) stored),
        λ q. ground (arith, length-take 51 tail, length-drop (page * page_size) stored),
      ),
    )

ignored :
    (i : ℕ) (body : Option (List Alert)) (s : Archive)
    → is_pending s.pending i ≡ false
    → archive_answered i body s ≡ s
unfolding archive_answered
ignored i none s h = rw h
ignored i (some body) s h = rw h

not_pending :
    (mode : ViewMode) (dev : Option DevState) (i : ℕ) (s : Archive)
    → i < s.next_request
    → is_pending (archive_effect mode dev s).pending i ≡ false
unfolding archive_effect
not_pending live_mode dev i s h = refl
not_pending archive_mode none i s h = ground arith
not_pending archive_mode (some archive_error) i s h = refl
not_pending archive_mode (some dev) i s h = ground arith

-- After the effect has run again, for another page, mode or override, an answer to an earlier
-- request changes nothing.
pub archive_stale :
    (mode : ViewMode) (dev : Option DevState) (i : ℕ) (body : Option (List Alert)) (s : Archive)
    → i < s.next_request
    → archive_answered i body (archive_effect mode dev s) ≡ archive_effect mode dev s
archive_stale mode dev i body s h =
    ignored i body (archive_effect mode dev s) (not_pending mode dev i s h)
