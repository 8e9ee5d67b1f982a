-- ===== src/Lines/Bookable.antt =====
-- A pair of stops that the search matches is one that a booking takes.
use waleed_bus.Base.{
  ℕ, ◌≤◌, ◌≡◌, refl, ◌∙◌, Bool, ◌&&◌, Option, some, none, inl, inr, List, [], ◌∷◌, ltb,
  if◌then◌else◌, find?, count, sum_of, arith, Bool-cases,
}
use waleed_bus.Base.Unique.{find?-count_0}
use waleed_bus.Schema.{RouteStation}
use waleed_bus.Bookings.Stops.{
  insert_stop, order_stops, boards_at, lands_at, out_of_order, stops_invalid,
}
use waleed_bus.Trips.{stop_pairs, lands_after}

-- The order of the stops counts none twice.
count-insert_stop :
    (p : RouteStation → Bool) (s : RouteStation) (xs : List RouteStation)
    → count p (insert_stop s xs) ≡ count p (s ∷ xs)
unfolding insert_stop count
count-insert_stop p s [] = refl
count-insert_stop p s (x ∷ xs) = ground (arith, count-insert_stop p s xs)

-- The one stop of a kind is found wherever it stands.
find?-insert_stop :
    (p : RouteStation → Bool) (s : RouteStation) (xs : List RouteStation)
    → count p (s ∷ xs) ≤ 1
    → find? p (insert_stop s xs) ≡ find? p (s ∷ xs)
unfolding insert_stop count find?
find?-insert_stop p s [] one = refl
find?-insert_stop p s (x ∷ xs) one =
    ground (arith, find?-insert_stop p s xs, find?-count_0 p xs, count-insert_stop p s xs)

find?-order_stops :
    (p : RouteStation → Bool) (ss : List RouteStation)
    → count p ss ≤ 1
    → (find? p (order_stops ss) ≡ find? p ss) × (count p (order_stops ss) ≡ count p ss)
unfolding order_stops count find?
find?-order_stops p [] one = (refl, refl)
find?-order_stops p (s ∷ ss) one =
    let below : count p ss ≤ 1 = omega arith in
    let (same, counted) = find?-order_stops p ss below in
    let c = count-insert_stop p s (order_stops ss) in
    let one' : count p (s ∷ order_stops ss) ≤ 1 = ground arith in
    let f = find?-insert_stop p s (order_stops ss) one' in (ground arith, ground arith)

abbrev weight_of : (RouteStation → ℕ) → Option RouteStation → ℕ
weight_of w none = 0
weight_of w (some s) = w s

abbrev weighed : (RouteStation → Bool) → (RouteStation → ℕ) → RouteStation → ℕ
weighed p w s = if p s then w s else 0

sum_of-0 :
    (p : RouteStation → Bool) (w : RouteStation → ℕ) (ss : List RouteStation)
    → count p ss ≡ 0
    → sum_of (weighed p w) ss ≡ 0
unfolding count sum_of
sum_of-0 p w [] none_met = refl
sum_of-0 p w (s ∷ ss) none_met = ground (arith, sum_of-0 p w ss)

-- A sum over the one stop of a kind.
sum_of-one :
    (p : RouteStation → Bool) (w : RouteStation → ℕ) (ss : List RouteStation)
    → count p ss ≤ 1
    → sum_of (weighed p w) ss ≡ weight_of w (find? p ss)
unfolding count sum_of find?
sum_of-one p w [] one = refl
sum_of-one p w (s ∷ ss) one = elim (Bool-cases (p s)) [
  | inl met ↦
      let rest : count p ss ≡ 0 = ground arith in rw met (omega (arith, sum_of-0 p w ss rest))
  | inr unmet ↦
      let below : count p ss ≤ 1 = ground arith in rw unmet (omega (arith, sum_of-one p w ss below))
]

count-sum_of :
    (p q : RouteStation → Bool) (ss : List RouteStation)
    → count (λ s. p s && q s) ss ≡ sum_of (weighed p (λ s. if q s then 1 else 0)) ss
unfolding count sum_of
count-sum_of p q [] = refl
count-sum_of p q (s ∷ ss) = ground (arith, count-sum_of p q ss)

-- Each station has one stop to board at and one to land at, at most.
abbrev pub SingleCapability : List RouteStation → Type 0
SingleCapability ss =
    (station : ℕ) → (count (boards_at station) ss ≤ 1) × (count (lands_at station) ss ≤ 1)

module _ (to : ℕ) where
  pairs_of :
      (b l : Option RouteStation)
      → weight_of (λ o. weight_of (λ d. if ltb o.stop_order d.stop_order then 1 else 0) l) b
        ≡ (if out_of_order b l then 0 else 1)
  pairs_of none l = refl
  pairs_of (some b) none = refl
  pairs_of (some b) (some l) = ground arith

weight_of-ap :
    (v w : RouteStation → ℕ) (b : Option RouteStation)
    → ((s : RouteStation) → v s ≡ w s)
    → weight_of v b ≡ weight_of w b
weight_of-ap v w none h = refl
weight_of-ap v w (some s) h = h s

pub stop_pairs-stops_invalid :
    (ss : List RouteStation) (from to : ℕ)
    → SingleCapability ss
    → stop_pairs ss from to ≡ (if stops_invalid (order_stops ss) from to then 0 else 1)
unfolding stop_pairs stops_invalid
stop_pairs-stops_invalid ss from to single =
    let board = (find?-order_stops (boards_at from) ss (single from).0).0 in
    let land = (find?-order_stops (lands_at to) ss (single to).1).0 in
    let pairs = sum_of-one (boards_at from) (λ o. count (lands_after to o) ss) ss (single from).0 in
    let inner : (o : RouteStation)
        → count (lands_after to o) ss
          ≡ weight_of (λ d. if ltb o.stop_order d.stop_order then 1 else 0)
              (find? (lands_at to) ss) =
      λ o.
        count-sum_of (lands_at to) (λ d. ltb o.stop_order d.stop_order) ss
        ∙ sum_of-one (lands_at to) (λ d. if ltb o.stop_order d.stop_order then 1 else 0) ss
            (single to).1 in
    pairs
    ∙ weight_of-ap _ _ (find? (boards_at from) ss) inner
    ∙ pairs_of to (find? (boards_at from) ss) (find? (lands_at to) ss)
    ∙ rw (board, land) refl
