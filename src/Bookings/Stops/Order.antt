-- ===== src/Bookings/Stops/Order.antt =====
-- The two stops of a booking are stops of the route, in the order of travel.
use waleed_bus.Base.{
  ℕ, ◌<◌, ◌≡◌, refl, Bool, true, false, List, [], ◌∷◌, Option, some, none, arith, ◌⊎◌, inl, inr,
  leb, find?-holds, ◌==◌, if◌then◌else◌,
}
use waleed_bus.Base.Members.{find?-Mem, select-Mem}
use mathlib.Core.List.{Memᴰ}
use mathlib.Core.List.Memᴰ
use waleed_bus.Schema.{RouteStation, Db, can_board, can_land}
use waleed_bus.Bookings.Stops.{
  insert_stop, order_stops, route_stops, boards_at, lands_at, out_of_order, stops_invalid,
}

placed :
    (t : Bool) (s x : RouteStation) (rest xs : List RouteStation) (r : RouteStation)
    → (Memᴰ r rest → (r ≡ s) ⊎ Memᴰ r xs)
    → Memᴰ r (if t then s ∷ x ∷ xs else x ∷ rest)
    → (r ≡ s) ⊎ Memᴰ r (x ∷ xs)
placed true s x rest xs r ih m = Memᴰ.cases_cons m
placed false s x rest xs r ih (Memᴰ.head e) = inr (Memᴰ.head e)
placed false s x rest xs r ih (Memᴰ.tail m) = elim (ih m) [
  | inl e ↦ inl e
  | inr n ↦ inr (Memᴰ.tail n)
]

insert_stop-Mem :
    (s : RouteStation) (xs : List RouteStation) (r : RouteStation)
    → Memᴰ r (insert_stop s xs)
    → (r ≡ s) ⊎ Memᴰ r xs
unfolding insert_stop
insert_stop-Mem s [] r m = inl (Memᴰ.eq_of_singleton m)
insert_stop-Mem s (x ∷ xs) r m =
    placed (leb s.stop_order x.stop_order) s x (insert_stop s xs) xs r (insert_stop-Mem s xs r) m

order_stops-Mem : (xs : List RouteStation) (r : RouteStation) → Memᴰ r (order_stops xs) → Memᴰ r xs
unfolding order_stops
order_stops-Mem [] r m = m
order_stops-Mem (s ∷ ss) r m = elim (insert_stop-Mem s (order_stops ss) r m) [
  | inl e ↦ Memᴰ.head e
  | inr n ↦ Memᴰ.tail (order_stops-Mem ss r n)
]

-- A row of the route at a station.
pub record IsStopOf (db : Db) (route station : ℕ) (s : RouteStation) : Type 0 where
  pub listed : Memᴰ s db.stops
  pub of_route : s.route_id ≡ route
  pub at : s.station_id ≡ station

-- A pair of stops of the route at which one may board and later land.
pub record CanTravel (db : Db) (route from to : ℕ) : Type 0 where
  pub boarding : RouteStation
  pub landing : RouteStation
  pub boards : IsStopOf db route from boarding
  pub lands : IsStopOf db route to landing
  pub open_to_board : can_board boarding.stop_type ≡ true
  pub open_to_land : can_land landing.stop_type ≡ true
  pub ordered : boarding.stop_order < landing.stop_order

route_stops-Mem :
    (db : Db) (route : ℕ) (r : RouteStation)
    → Memᴰ r (route_stops db route)
    → ((r.route_id == route) ≡ true) × Memᴰ r db.stops
unfolding route_stops
route_stops-Mem db route r m = select-Mem _ db.stops r (order_stops-Mem _ r m)

out_of_order-false :
    (b l : Option RouteStation)
    → out_of_order b l ≡ false
    → (s e : RouteStation) × (b ≡ some s) × (l ≡ some e) × (s.stop_order < e.stop_order)
out_of_order-false none l h = cc
out_of_order-false (some s) none h = cc
out_of_order-false (some s) (some e) h = (s, e, refl, refl, ground arith)

-- What the check of the stops accepts can be travelled.
pub stops_valid-CanTravel :
    (db : Db) (route from to : ℕ)
    → stops_invalid (route_stops db route) from to ≡ false
    → CanTravel db route from to
unfolding stops_invalid
stops_valid-CanTravel db route from to h =
    let (s, e, b, l, lt) = out_of_order-false _ _ h in
    let (p, m) = route_stops-Mem db route s (find?-Mem _ _ s b) in
    let (q, n) = route_stops-Mem db route e (find?-Mem _ _ e l) in
    let x = find?-holds (boards_at from) _ s b in
    let y = find?-holds (lands_at to) _ e l in
    record {
      boarding = s;
      landing = e;
      boards = record { listed = m; of_route = ground arith; at = ground arith };
      lands = record { listed = n; of_route = ground arith; at = ground arith };
      open_to_board = ground arith;
      open_to_land = ground arith;
      ordered = lt;
    }
