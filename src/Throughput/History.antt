-- ===== src/Throughput/History.antt =====
-- The history of the gauge: bounded, in the order of time, and restored after a reload.
use threat_lens.Base.{
  ◌≡◌, refl, All, All-append, Bool, List, [], arith, drop, false, if◌then◌else◌, last?, length,
  length-append, length-drop, ltb, some, suc, take_last, true, zero, ℕ, ◌++◌, ◌+◌, ◌-◌, ◌<◌, ◌∙◌,
  ◌∷◌, ◌≤◌,
}
use threat_lens.Throughput.{
  Point, Gauge, Poll, fetch_metrics, max_history_points, not_ok, recorded, restored_points, sample,
  stored_points, threw, history_removed,
}

-- Timestamps do not fall, and none is later than `now`.
abbrev pub IsOrdered : ℕ → List Point → Type 0
IsOrdered now [] = Unit {0}
IsOrdered now (p ∷ points) =
    (p.timestamp ≤ now) × All (λ q. p.timestamp ≤ q.timestamp) points × IsOrdered now points

pub record IsHistory (now : ℕ) (g : Gauge) : Type 0 where
  pub bounded : length g.points ≤ max_history_points
  pub stored_bounded : length g.stored ≤ stored_points
  pub ordered : IsOrdered now g.points

length-take_last-le : (n : ℕ) (l : List Point) → length (take_last n l) ≤ n
length-take_last-le n l = omega (arith, length-drop (length l - n) l)

All-before :
    (now : ℕ) (l : List Point) (p : Point)
    → now ≤ p.timestamp
    → IsOrdered now l
    → All (λ q. q.timestamp ≤ p.timestamp) l
All-before now [] p t h = tt
All-before now (x ∷ l) p t h = (omega arith, All-before now l p t h.2)

snoc-IsOrdered :
    (now : ℕ) (l : List Point) (p : Point)
    → now ≤ p.timestamp
    → IsOrdered now l
    → IsOrdered p.timestamp (l ++ p ∷ [])
snoc-IsOrdered now [] p t h = (omega arith, tt, tt)
snoc-IsOrdered now (x ∷ l) p t h = (
  omega arith,
  All-append (λ q. x.timestamp ≤ q.timestamp) l (p ∷ []) h.1 (omega arith, tt),
  snoc-IsOrdered now l p t h.2,
)

drop-IsOrdered : (now k : ℕ) (l : List Point) → IsOrdered now l → IsOrdered now (drop k l)
drop-IsOrdered now zero l h = h
drop-IsOrdered now (suc k) [] h = tt
drop-IsOrdered now (suc k) (x ∷ l) h = drop-IsOrdered now k l h.2

weaken : (now later : ℕ) (l : List Point) → now ≤ later → IsOrdered now l → IsOrdered later l
weaken now later [] t h = tt
weaken now later (x ∷ l) t h = (omega arith, h.1, weaken now later l t h.2)

-- The point that a poll records.
abbrev pub stamp : Poll → ℕ → ℕ
stamp not_ok now = now
stamp (sample p) now = p.timestamp
stamp (threw p) now = p.timestamp

recorded-IsHistory :
    (now : ℕ) (p : Point) (g : Gauge)
    → now ≤ p.timestamp
    → IsHistory now g
    → IsHistory p.timestamp (recorded p g)
recorded-IsHistory now p g t h = record {
  bounded = length-take_last-le max_history_points (g.points ++ p ∷ []);
  stored_bounded =
      length-take_last-le stored_points (take_last max_history_points (g.points ++ p ∷ []));
  ordered =
      drop-IsOrdered p.timestamp (length (g.points ++ p ∷ []) - max_history_points)
        (g.points ++ p ∷ []) (snoc-IsOrdered now g.points p t h.ordered);
}

-- A poll keeps the history within 43200 points, what is stored within 180, and the points in the
-- order of their timestamps, provided that the clock does not run backwards; this holds of a
-- sample, of the sample made up after a failed request, and where nothing is recorded.
pub fetch_metrics-IsHistory :
    (mounted : Bool) (poll : Poll) (now : ℕ) (g : Gauge)
    → now ≤ stamp poll now
    → IsHistory now g
    → IsHistory (stamp poll now) (fetch_metrics mounted poll g)
unfolding fetch_metrics
fetch_metrics-IsHistory mounted not_ok now g t h = h
fetch_metrics-IsHistory true (sample p) now g t h =
    let r = recorded-IsHistory now p g t h in
    record { bounded = r.bounded; stored_bounded = r.stored_bounded; ordered = r.ordered }
fetch_metrics-IsHistory true (threw p) now g t h = recorded-IsHistory now p g t h
fetch_metrics-IsHistory false (sample p) now g t h = record {
  bounded = h.bounded;
  stored_bounded = h.stored_bounded;
  ordered = weaken now p.timestamp g.points t h.ordered;
}
fetch_metrics-IsHistory false (threw p) now g t h = record {
  bounded = h.bounded;
  stored_bounded = h.stored_bounded;
  ordered = weaken now p.timestamp g.points t h.ordered;
}

last?-drop : (k : ℕ) (l : List Point) → k < length l → last? (drop k l) ≡ last? l
last?-drop zero l h = refl
last?-drop (suc k) [] h = absurd (omega arith)
last?-drop (suc k) (x ∷ []) h = absurd (omega arith)
last?-drop (suc k) (x ∷ y ∷ l) h = last?-drop k (y ∷ l) (omega arith)

last?-snoc : (l : List Point) (p : Point) → last? (l ++ p ∷ []) ≡ some p
last?-snoc [] p = refl
last?-snoc (x ∷ []) p = refl
last?-snoc (x ∷ y ∷ l) p = last?-snoc (y ∷ l) p

last?-stored : (p : Point) (g : Gauge) → last? (recorded p g).stored ≡ some p
last?-stored p g =
    let full = g.points ++ p ∷ [] in
    let trimmed = take_last max_history_points full in
    let n = length-append g.points (p ∷ []) in
    let m = length-drop (length full - max_history_points) full in
    last?-drop (length trimmed - stored_points) trimmed (omega (arith, n, m))
    ∙ (last?-drop (length full - max_history_points) full (omega (arith, n))
        ∙ last?-snoc g.points p)

restored_of_last :
    (now : ℕ) (l : List Point) (v : Point)
    → last? l ≡ some v
    → restored_points now (some l) ≡ (if ltb now (v.timestamp + 600000) then l else [])
unfolding restored_points
restored_of_last now l v h = rw (h, restored_points)

-- When the page is loaded again within ten minutes of a sample, the gauge starts with what was
-- stored at that sample, the sample included as the last point; later it starts empty.
pub restored-stored :
    (p : Point) (g : Gauge) (now : ℕ)
    → restored_points now (some (recorded p g).stored)
      ≡ (if ltb now (p.timestamp + 600000) then (recorded p g).stored else [])
restored-stored p g now = restored_of_last now (recorded p g).stored p (last?-stored p g)

-- After the alerts were cleared, the next poll that brings a point stores what it would have stored
-- without the clearing: the history that was removed is there again.
pub stored_again :
    (p : Point) (g : Gauge)
    → (fetch_metrics true (sample p) (history_removed g)).stored
      ≡ (fetch_metrics true (sample p) g).stored
unfolding fetch_metrics history_removed
stored_again p g = refl
