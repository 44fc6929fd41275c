-- ===== src/Server/Pages.antt =====
-- frontend/src/App.tsx and backend/app/main.py together: the pages of the archive that GET /api/alerts
-- serves from the ring.
use threat_lens.Base.{
  ◌≡◌, refl, Bool, Bool-cases, List, [], ap, arith, drop, false, filter, inl, inr, leb, length,
  none, some, suc, take, true, zero, ℕ, ◌*◌, ◌+◌, ◌<◌, ◌≤◌, ◌↔◌, ◌∷◌, ◌∙◌, Option,
}
use threat_lens.Types.{Alert}
use threat_lens.Dashboard.Archive.{
  Archive, archive_answered, archive_page_lem, archive_query, page_size,
}
use threat_lens.Server.{Result, ok, refused}
use threat_lens.Server.Archive.{
  Store, collect, get_historical_alerts, get_recent_alerts, is_wanted, connect_if_due,
}

-- Below the limit the loop takes what is left of it.
collect-take :
    (wanted : Alert → Bool) (limit left taken : ℕ) (ring : List Alert)
    → limit ≡ taken + suc left
    → collect limit wanted taken ring ≡ take (suc left) (filter wanted ring)
unfolding collect
collect-take wanted limit left taken [] e = refl
collect-take wanted limit zero taken (a ∷ ring) e = elim (Bool-cases (wanted a)) [
  | inl q ↦ let full : leb limit (suc taken) ≡ true = ground arith in rw (q, full) refl
  | inr q ↦ rw q (collect-take wanted limit zero taken ring e)
]
collect-take wanted limit (suc left) taken (a ∷ ring) e = elim (Bool-cases (wanted a)) [
  | inl q ↦
      let room : leb limit (suc taken) ≡ false = ground arith in
      rw (q, room) (ap (◌∷◌ a) (collect-take wanted limit left (suc taken) ring (omega arith)))
  | inr q ↦ rw q (collect-take wanted limit (suc left) taken ring e)
]

filter_all : (p : Alert → Bool) (xs : List Alert) → ((a : Alert) → p a ≡ true) → filter p xs ≡ xs
filter_all p [] h = refl
filter_all p (x ∷ xs) h = rw (h x) (ap (◌∷◌ x) (filter_all p xs h))

take-nil : {A : Type 0} (n : ℕ) → take {A = A} n [] ≡ []
take-nil zero = refl
take-nil (suc n) = refl

drop-take : {A : Type 0} (n m : ℕ) (xs : List A) → drop m (take (m + n) xs) ≡ take n (drop m xs)
drop-take n zero xs = let e : 0 + n ≡ n = omega arith in rw e refl
drop-take n (suc m) [] = let e : suc m + n ≡ suc (m + n) = omega arith in rw (e, take-nil n) refl
drop-take n (suc m) (x ∷ xs) =
    let e : suc m + n ≡ suc (m + n) = omega arith in rw e (drop-take n m xs)

take-take : {A : Type 0} (n : ℕ) (xs : List A) → take n (take n xs) ≡ take n xs
take-take zero xs = refl
take-take (suc n) [] = refl
take-take (suc n) (x ∷ xs) = ap (◌∷◌ x) (take-take n xs)

-- The ring without filters, cut at a limit.
pub collect_all :
    (limit : ℕ) (ring : List Alert)
    → 0 < limit
    → collect limit (is_wanted none none) 0 ring ≡ take limit ring
collect_all zero ring h = absurd (omega arith)
collect_all (suc limit) ring h =
    collect-take (is_wanted none none) (suc limit) limit 0 ring (omega arith)
    ∙ ap (take (suc limit)) (filter_all (is_wanted none none) ring (λ a. unfold is_wanted in refl))

-- The body of a response that is ok.
abbrev pub body_of : Result (List Alert × Store) → Option (List Alert)
body_of (ok found) = some found.0
body_of (refused status_code detail) = none

-- Without ClickHouse the route serves a slice of the ring.
pub served :
    (reconnects : Bool) (answer : Option (List Alert)) (limit offset : ℕ) (s : Store)
    → (connect_if_due reconnects s).is_connected ≡ false
    → 1 ≤ limit
    → limit ≤ 500
    → body_of (get_historical_alerts reconnects answer limit offset none none s)
      ≡ some (take limit (drop offset s.memory_ring))
unfolding get_historical_alerts get_recent_alerts
served reconnects answer limit offset s e positive bounded =
    let lower : leb 1 limit ≡ true = ground arith in
    let upper : leb limit 500 ≡ true = ground arith in
    let swap : limit + offset ≡ offset + limit = omega arith in
    rw (lower, upper, e)
      (ap (λ xs. some (take limit (drop offset xs)))
          (collect_all (limit + offset) s.memory_ring (omega arith))
        ∙ ap (λ n. some (take limit (drop offset (take n s.memory_ring)))) swap
        ∙ ap (λ xs. some (take limit xs)) (drop-take limit offset s.memory_ring)
        ∙ ap some (take-take limit (drop offset s.memory_ring)))

-- Where ClickHouse is not connected, a page of the archive that the dashboard asks for shows exactly
-- the alerts of the server's ring from the fiftieth of the page before on, fifty at most, and offers
-- a next page exactly when the ring goes on behind it; the request is within the bounds of the route.
pub archive_served :
    (reconnects : Bool) (answer : Option (List Alert)) (page i : ℕ) (archive : Archive) (s : Store)
    → (connect_if_due reconnects s).is_connected ≡ false
    → archive.pending ≡ some i
    → let query = archive_query page in
      let response = get_historical_alerts reconnects answer query.limit query.offset none none s in
      let after = archive_answered i (body_of response) archive in
      (after.alerts ≡ take page_size (drop (page * page_size) s.memory_ring))
      × ((after.has_next ≡ true) ↔ ((page + 1) * page_size < length s.memory_ring))
unfolding archive_query
archive_served reconnects answer page i archive s e p =
    rw (served reconnects answer 51 (page * page_size) s e (omega arith) (omega arith))
      (archive_page_lem s.memory_ring page i archive p)
